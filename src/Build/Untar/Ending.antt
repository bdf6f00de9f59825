-- ===== src/Build/Untar/Ending.antt =====
-- That `untar` comes to the end of every archive.
use img.Common.{
  refl, ℕ, zero, suc, String, Bool, true, false, arith, Option, none, some, ◌≡◌, ◌≢◌, ◌≤◌, ◌<◌,
}
use img.Common.Exec.{Exec, Outcome, ok, err, halt, panic, diverge, attempt}
use img.Common.Triple.{Triple, anything}
use img.Common.Ending.{
  Ends, AlwaysEnds, Ends-pure, Ends-always, Ends-weaken, Ends-if, Ends-given, Ends-attempt,
  Ends-defer, Ends-bind, Triple-outcome,
}
use img.Common.Int.{ℤ}
use img.Services.{Services, Handle, TarHeader}
use img.Client.{State, call, lift, succeeded}
use img.Client.Worker.Keeps.{OnHost, Keeps-host}
use img.Build.Untar.{
  make_missing, extract_file, extract_typed, extract_entry, untar_round, untar_loop, untar, is_eof,
}
use img.Build.Untar.Confined.{Confines, extract_entry-Keeps}

-- A call that returns.
abbrev pub Returns : {W A : Type 0} → Exec W A → Type 0
Returns {W = W} m = (w : W) → (m w).0 ≢ diverge

-- A call that leaves nothing more to read.
abbrev pub Reads : {W A : Type 0} → (W → ℕ) → Exec W A → Type 0
Reads {W = W} left m = (w : W) → left (m w).1 ≤ left w

-- What is left of a stream, in some unit of which each header takes at least one: reading an entry
-- leaves less, and no call adds to it. Each call returns.
pub record Streams {W : Type 0} (S : Services W) (dest : String) (left : W → ℕ) : Type 0 where
  pub next_less :
      (tr : Handle) (entry : Option TarHeader) (w : W)
      → (S.inputs.next_entry tr w).0 ≡ ok entry
      → left (S.inputs.next_entry tr w).1 < left w
  pub next_reads : (tr : Handle) → Reads left (S.inputs.next_entry tr)
  pub gzip_reads : Reads left S.inputs.new_gzip_reader
  pub mkdir_reads : (path : String) (mode : ℕ) → Reads left (S.files.mkdir_all path mode)
  pub open_reads : (path : String) (mode : ℕ) → Reads left (S.inputs.open_file path mode)
  pub copy_reads : (f tr : Handle) → Reads left (S.inputs.copy_entry f tr)
  pub stat_reads : (path : String) → Reads left (S.files.stat path)
  pub close_reads : (f : Handle) → Reads left (S.files.close f)
  pub next_returns : (tr : Handle) → Returns (S.inputs.next_entry tr)
  pub gzip_returns : Returns S.inputs.new_gzip_reader
  pub mkdir_returns : (path : String) (mode : ℕ) → Returns (S.files.mkdir_all path mode)
  pub open_returns : (path : String) (mode : ℕ) → Returns (S.inputs.open_file path mode)
  pub copy_returns : (f tr : Handle) → Returns (S.inputs.copy_entry f tr)
  pub stat_returns : (path : String) → Returns (S.files.stat path)
  pub close_returns : (f : Handle) → Returns (S.files.close f)
  pub joins : (name : String) → S.inputs.secure_join dest name ≢ diverge

less_at_most : {m k n : ℕ} → m < k → k ≤ n → m < n
less_at_most h l = omega arith

module _ {W : Type 0} where
  Ends-call : {A : Type 0} {P : State W → Type 0} (m : Exec W A) → Returns m → Ends P (call m)
  unfolding call
  Ends-call m r = record { at = λ s h. r s.host }

  Ends-lift : {A : Type 0} {P : State W → Type 0} (o : Outcome A) → o ≢ diverge → Ends P (lift o)
  unfolding lift
  Ends-lift o r = record { at = λ s h. r }

module _ {W : Type 0} {S : Services W} {dest : String} {left : W → ℕ}
    (K : Streams S dest left) where
  make_missing-Ends : (path : String) (found : Bool) → AlwaysEnds (make_missing S path found)
  unfolding make_missing
  make_missing-Ends path true = Ends-pure tt
  make_missing-Ends path false = Ends-call _ (K.mkdir_returns path _)

  -- The error of the copy is one that the copy returned.
  extract_file-Ends :
      (tr : Handle) (path : String) (mode : ℤ) → AlwaysEnds (extract_file S tr path mode)
  unfolding extract_file call
  extract_file-Ends tr path mode = Ends-bind (anything _) (Ends-call _ (K.open_returns path _)) λ f.
      Ends-bind (copied-returns f) (Ends-attempt (Ends-call _ (K.copy_returns f tr))) λ copied.
        Ends-given λ r.
          Ends-bind (anything _) (Ends-attempt (Ends-call _ (K.close_returns f)))
            λ _. Ends-lift copied r
    where
      copied-returns :
          (f : Handle)
          → Triple
              (λ _. Unit {0})
              (attempt (call (S.inputs.copy_entry f tr)))
              (λ o _. Unit {0} × (o ≢ diverge))
              (λ _. Unit {0})
      copied-returns f =
          Triple-outcome (call (S.inputs.copy_entry f tr)) λ s h. (tt, K.copy_returns f tr s.host)

  extract_typed-Ends :
      (tr : Handle) (path : String) (header : TarHeader) (is_dir is_reg : Bool)
      → AlwaysEnds (extract_typed S tr path header is_dir is_reg)
  unfolding extract_typed
  extract_typed-Ends tr path header true is_reg =
      Ends-bind (anything _) (Ends-attempt (Ends-call _ (K.stat_returns path)))
        λ found. make_missing-Ends path (succeeded found)
  extract_typed-Ends tr path header false true = extract_file-Ends tr path header.mode
  extract_typed-Ends tr path header false false = Ends-pure tt

  extract_entry-Ends :
      (tr : Handle) (entry : Option TarHeader) → AlwaysEnds (extract_entry S dest tr entry)
  unfolding extract_entry
  extract_entry-Ends tr none = Ends-pure tt
  extract_entry-Ends tr (some header) =
      Ends-bind (anything _) (Ends-lift _ (K.joins header.name))
        λ path. extract_typed-Ends tr path header _ _

  abbrev AtMost : ℕ → W → Type 0
  AtMost n w = left w ≤ n

  -- No write of the unpacking adds to the stream.
  stream_confines : (n : ℕ) → Confines S dest (AtMost n)
  stream_confines n = record {
    Inside = λ path. Unit;
    Opened = λ f. Unit;
    joined = λ name path e. tt;
    mkdir_safe = λ path mode inside w h. (let k = K.mkdir_reads path mode w in omega arith);
    open_safe = λ path mode inside w h. (let k = K.open_reads path mode w in omega arith);
    open_opened = λ path mode w f inside e. tt;
    copy_safe = λ f tr opened w h. (let k = K.copy_reads f tr w in omega arith);
    stat_safe = λ path w h. (let k = K.stat_reads path w in omega arith);
    close_safe = λ f w h. (let k = K.close_reads f w in omega arith);
    next_safe = λ tr w h. (let k = K.next_reads tr w in omega arith);
    gzip_safe = λ w h. (let k = K.gzip_reads w in omega arith);
  }

  -- What `tr.Next()` is known to leave.
  abbrev Advanced : ℕ → Outcome (Option TarHeader) → State W → Type 0
  Advanced n o s = (o ≢ diverge) × ((entry : Option TarHeader) → o ≡ ok entry → left s.host < n)

  next-Advanced :
      (n : ℕ) (tr : Handle)
      → Triple
          (OnHost (AtMost n))
          (attempt (call (S.inputs.next_entry tr)))
          (Advanced n)
          (λ _. Unit {0})
  unfolding call
  next-Advanced n tr =
      Triple-outcome (call (S.inputs.next_entry tr))
        λ s h. (K.next_returns tr s.host, λ entry e. less_at_most (K.next_less tr entry s.host e) h)

  untar_round-Ends :
      (n : ℕ) (tr : Handle) (again : Exec (State W) (Unit {0})) (entry : Outcome (Option TarHeader))
      → ((m : ℕ) → m < n → Ends (OnHost (AtMost m)) again)
      → Ends (Advanced n entry) (untar_round S dest tr again entry)
  unfolding untar_round
  untar_round-Ends zero tr again (ok entry) k = record {
    at = λ s h e. (let less = h.1 entry refl in absurd (omega arith));
  }
  untar_round-Ends (suc m) tr again (ok entry) k =
      Ends-weaken {R = OnHost (AtMost m)} (λ s h. (let less = h.1 entry refl in omega arith))
        (Ends-bind (extract_entry-Keeps (AtMost m) (stream_confines m) tr entry)
          (Ends-always (extract_entry-Ends tr entry)) λ _. k m (omega arith))
  untar_round-Ends n tr again (err e) k = Ends-if (is_eof e) (Ends-pure tt) (Ends-lift _ (λ f. cc))
  untar_round-Ends n tr again (halt c) k = Ends-lift _ (λ f. cc)
  untar_round-Ends n tr again panic k = Ends-lift _ (λ f. cc)
  untar_round-Ends n tr again diverge k = record { at = λ s h e. h.0 refl }

  untar_loop-Ends :
      (fuel n : ℕ) (tr : Handle) → n < fuel → Ends (OnHost (AtMost n)) (untar_loop S fuel dest tr)
  unfolding untar_loop
  untar_loop-Ends zero n tr enough = absurd (omega arith)
  untar_loop-Ends (suc fuel) n tr enough =
      Ends-bind (next-Advanced n tr) (Ends-attempt (Ends-call _ (K.next_returns tr)))
        λ entry. untar_round-Ends n tr _ entry λ m less. untar_loop-Ends fuel m tr (omega arith)

  -- Where the calls that `untar` makes return, and reading an entry leaves less of the stream, fuel
  -- greater than what is left of the stream is enough: `untar` comes to its end, in an error or not.
  pub untar-ends : (fuel : ℕ) (s : State W) → left s.host < fuel → (untar S fuel dest s).0 ≢ diverge
  unfolding untar
  untar-ends fuel s enough = ended.at s (omega arith)
    where
      ended : Ends (OnHost (AtMost (left s.host))) (untar S fuel dest)
      ended =
          Ends-bind (Keeps-host (AtMost _) _ ((stream_confines _).gzip_safe))
            (Ends-call _ K.gzip_returns) λ gzr. Ends-defer _ (untar_loop-Ends fuel _ _ enough)
