-- ===== src/Build/Untar/Confined.antt =====
-- The paths to which `untar` writes.
use img.Common.{ℕ, zero, suc, String, Bool, true, false, Option, none, some, ◌≡◌}
use img.Common.Exec.{Exec, Outcome, ok, err, halt, panic, diverge}
use img.Common.Triple.{
  Triple, Keeps, Triple-bind, Triple-pure, Triple-given, Keeps-attempt, Keeps-defer, Triple-if,
}
use img.Common.Int.{ℤ}
use img.Services.{Services, Handle, TarHeader}
use img.Client.{State, call, lift, succeeded}
use img.Client.Calls.{call-Triple, lift-Triple}
use img.Client.Worker.Keeps.{Preserves, OnHost, Keeps-host, Keeps-lift}
use img.Build.Untar.{
  make_missing, extract_file, extract_typed, extract_entry, untar_round, untar_loop, untar, is_eof,
}

-- `Safe` is whatever a write below `dest` cannot disturb. A joined path lies inside; writes to inside
-- paths, and to the files opened there, keep `Safe`; so do the calls that only read.
pub record Confines {W : Type 0} (S : Services W) (dest : String) (Safe : W → Type 0) : Type 1 where
  pub Inside : String → Type 0
  pub Opened : Handle → Type 0
  pub joined : (name path : String) → S.inputs.secure_join dest name ≡ ok path → Inside path
  pub mkdir_safe :
      (path : String) (mode : ℕ) → Inside path → Preserves Safe (S.files.mkdir_all path mode)
  pub open_safe :
      (path : String) (mode : ℕ) → Inside path → Preserves Safe (S.inputs.open_file path mode)
  pub open_opened :
      (path : String) (mode : ℕ) (w : W) (f : Handle)
      → Inside path
      → (S.inputs.open_file path mode w).0 ≡ ok f
      → Opened f
  pub copy_safe : (f tr : Handle) → Opened f → Preserves Safe (S.inputs.copy_entry f tr)
  pub stat_safe : (path : String) → Preserves Safe (S.files.stat path)
  pub close_safe : (f : Handle) → Preserves Safe (S.files.close f)
  pub next_safe : (tr : Handle) → Preserves Safe (S.inputs.next_entry tr)
  pub gzip_safe : Preserves Safe S.inputs.new_gzip_reader

module _ {W : Type 0} {S : Services W} {dest : String} (Safe : W → Type 0)
    (K : Confines S dest Safe) where
  open-Triple :
      (path : String) (mode : ℕ)
      → K.Inside path
      → Triple
          (OnHost Safe)
          (call (S.inputs.open_file path mode))
          (λ f s. OnHost Safe s × K.Opened f)
          (OnHost Safe)
  open-Triple path mode inside =
      call-Triple (OnHost Safe) K.Opened (S.inputs.open_file path mode)
        (λ s h. K.open_safe path mode inside s.host h)
        (λ s f h e. K.open_opened path mode s.host f inside e)

  join-Triple :
      (name : String)
      → Triple
          (OnHost Safe)
          (lift (S.inputs.secure_join dest name))
          (λ path s. OnHost Safe s × K.Inside path)
          (OnHost Safe)
  join-Triple name = lift-Triple (OnHost Safe) K.Inside _ (λ path e. K.joined name path e)

  make_missing-Keeps :
      (path : String) (found : Bool)
      → K.Inside path
      → Keeps (OnHost Safe) (make_missing S path found)
  unfolding make_missing
  make_missing-Keeps path true inside = Triple-pure _ (λ s h. h)
  make_missing-Keeps path false inside = Keeps-host Safe _ (K.mkdir_safe path _ inside)

  extract_file-Keeps :
      (tr : Handle) (path : String) (mode : ℤ)
      → K.Inside path
      → Keeps (OnHost Safe) (extract_file S tr path mode)
  unfolding extract_file
  extract_file-Keeps tr path mode inside = Triple-bind (open-Triple path _ inside) λ f.
      Triple-given λ opened.
        Triple-bind (Keeps-attempt (Keeps-host Safe _ (K.copy_safe f tr opened))) λ copied.
          Triple-bind (Keeps-attempt (Keeps-host Safe _ (K.close_safe f)))
            λ _. Keeps-lift Safe copied

  extract_typed-Keeps :
      (tr : Handle) (path : String) (header : TarHeader) (is_dir is_reg : Bool)
      → K.Inside path
      → Keeps (OnHost Safe) (extract_typed S tr path header is_dir is_reg)
  unfolding extract_typed
  extract_typed-Keeps tr path header true is_reg inside =
      Triple-bind (Keeps-attempt (Keeps-host Safe _ (K.stat_safe path)))
        λ found. make_missing-Keeps path (succeeded found) inside
  extract_typed-Keeps tr path header false true inside =
      extract_file-Keeps tr path header.mode inside
  extract_typed-Keeps tr path header false false inside = Triple-pure _ (λ s h. h)

  pub extract_entry-Keeps :
      (tr : Handle) (entry : Option TarHeader) → Keeps (OnHost Safe) (extract_entry S dest tr entry)
  unfolding extract_entry
  extract_entry-Keeps tr none = Triple-pure _ (λ s h. h)
  extract_entry-Keeps tr (some header) =
      Triple-bind (join-Triple header.name)
        λ path. Triple-given λ inside. extract_typed-Keeps tr path header _ _ inside

  untar_round-Keeps :
      (tr : Handle) (again : Exec (State W) (Unit {0})) (entry : Outcome (Option TarHeader))
      → Keeps (OnHost Safe) again
      → Keeps (OnHost Safe) (untar_round S dest tr again entry)
  unfolding untar_round
  untar_round-Keeps tr again (ok entry) k = Triple-bind (extract_entry-Keeps tr entry) λ _. k
  untar_round-Keeps tr again (err e) k =
      Triple-if (is_eof e) (Triple-pure _ (λ s h. h)) (Keeps-lift Safe _)
  untar_round-Keeps tr again (halt n) k = Keeps-lift Safe _
  untar_round-Keeps tr again panic k = Keeps-lift Safe _
  untar_round-Keeps tr again diverge k = Keeps-lift Safe _

  untar_loop-Keeps : (fuel : ℕ) (tr : Handle) → Keeps (OnHost Safe) (untar_loop S fuel dest tr)
  unfolding untar_loop
  untar_loop-Keeps zero tr = Keeps-lift Safe _
  untar_loop-Keeps (suc fuel) tr =
      Triple-bind (Keeps-attempt (Keeps-host Safe _ (K.next_safe tr)))
        λ entry. untar_round-Keeps tr _ entry (untar_loop-Keeps fuel tr)

  -- Whatever the archive holds and however far it is read, `untar` keeps every property of the host that
  -- writes below the target directory cannot disturb: each entry's path is the one that SecureJoin gives.
  pub untar-Keeps : (fuel : ℕ) → Keeps (OnHost Safe) (untar S fuel dest)
  unfolding untar
  untar-Keeps fuel =
      Triple-bind (Keeps-host Safe _ K.gzip_safe)
        λ gzr. Keeps-defer (Keeps-host Safe _ (K.close_safe gzr)) (untar_loop-Keeps fuel _)
