-- ===== src/Reexec/Starting.antt =====
-- The start of the child in reexec.go, and the runs of the step relation.
use img.Common.{ℕ, String, true, false, some, List, ◌≡◌, refl, ◌∙◌, sym}
use img.Common.Exec.{Outcome, ok, err, halt, panic, diverge, attempt, ◌>>=◌, reflect}
use img.Services.{Services}
use img.Client.{State, call, lift}
use img.Reexec.{Handler, Watch, or_fatal, signal_turn, start_and_wait, wait_loop}
use img.Reexec.Signals.{
  Parent, first, starting, started, polling, ends, Step, here, next, start, start_fails, locate,
  locate_fails,
}
use img.Reexec.Observed.{Sight, Leaves, Starts, Observed}
use img.Reexec.Following.{
  IsSeen, Reaches, Follows, Runs, Runs-bind, Runs-attempt, ends-Halted, same-IsSeen,
}
use img.Reexec.Polling.{wait_loop-Runs}
use img.Reexec.Simulated.{Turned, is_leaving, signal_turn-Runs}

module _ {W : Type 0} (S : Services W) (V : Sight W) where
  -- What is known of the result of a call whose error ends the process.
  abbrev pub Handled :
      {A : Type 0} → (A → State W → Parent → Type 0) → Outcome A → State W → Parent → Type 0
  Handled Q (ok a) s p = Q a s p
  Handled Q (err e) s p = Step p (ends 1 p)
  Handled Q (halt n) s p = ⊥
  Handled Q panic s p = Unit
  Handled Q diverge s p = Unit

  or_fatal-Runs :
      {A : Type 0} (Q : A → State W → Parent → Type 0) (format : String) (o : Outcome A)
      (s : State W) (p : Parent)
      → Reaches V s p
      → Handled Q o s p
      → Runs V Q (or_fatal S format o) s
  unfolding or_fatal lift ◌>>=◌
  or_fatal-Runs Q format (ok a) s p r h = record { at = (p, r, h) }
  or_fatal-Runs Q format (err e) s p r h = record {
    at = ends-Halted 1 _ p (record { run = r.run; seen = r.seen }) h;
  }
  or_fatal-Runs Q format (halt n) s p r h = absurd h
  or_fatal-Runs Q format panic s p r h = record { at = (p, r) }
  or_fatal-Runs Q format diverge s p r h = record { at = (p, r) }

  -- The child was started, its group is not known, and the goroutine of the signal stands at `h`.
  pub record IsBegun (pid : ℕ) (h : Handler) (p : Parent) : Type 0 where
    pub phase : p.phase ≡ started
    pub pgid : p.pgid ≡ 0
    pub group : ℕ
    pub child : p.child ≡ some group
    pub exiting : p.exiting ≡ is_leaving h
    pub finds :
        (u : W) (g : ℕ) → V.child u ≡ some group → (S.processes.getpgid pid u).0 ≡ ok g → g ≡ group

  turn-IsBegun :
      (pid : ℕ) (h h' : Handler) (p q : Parent)
      → IsBegun pid h p
      → Turned p.phase p.pgid p.child h' q
      → IsBegun pid h' q
  turn-IsBegun pid h h' p q k t = record {
    phase = t.phase ∙ k.phase;
    pgid = t.pgid ∙ k.pgid;
    group = k.group;
    child = t.child ∙ k.child;
    exiting = t.exiting;
    finds = k.finds;
  }

  start-Follows :
      (h : Handler) (s : State W) (p : Parent)
      → Reaches V s p
      → p.phase ≡ starting
      → p.pgid ≡ 0
      → p.exiting ≡ is_leaving h
      → (v : W) (o : Outcome ℕ) → Starts V S s.host v o
      → Follows V (Handled (λ pid _. IsBegun pid h)) (reflect o) (record s { host = v })
  start-Follows h s p r e z x v (ok pid) k = (
    record p { phase = started; child = some k.group; running = true },
    record {
      run = next r.run (start k.group e k.nonzero refl);
      seen = record { child = k.child; killed = k.killed ∙ r.seen.killed; dead = λ y. cc };
    },
    record { phase = refl; pgid = z; group = k.group; child = refl; exiting = x; finds = k.finds },
  )
  start-Follows h s p r e z x v (err y) same =
      (p, record { run = r.run; seen = same-IsSeen V same r.seen }, start_fails e refl)
  start-Follows h s p r e z x v (halt n) same = absurd same
  start-Follows h s p r e z x v panic same =
      (p, record { run = r.run; seen = same-IsSeen V same r.seen })
  start-Follows h s p r e z x v diverge same =
      (p, record { run = r.run; seen = same-IsSeen V same r.seen })

  -- The group that was found is the child's.
  abbrev pub Located : Handler → ℕ → State W → Parent → Type 0
  Located h g s p = (p.phase ≡ started) × ((p.child ≡ some g) × (p.exiting ≡ is_leaving h))

  getpgid-Located :
      (pid : ℕ) (h : Handler) (s : State W) (p : Parent)
      → V.child s.host ≡ p.child
      → IsBegun pid h p
      → let r = S.processes.getpgid pid s.host in
        (o : Outcome ℕ)
        → r.0 ≡ o
        → Leaves V s.host r.1 o
        → Handled (Located h) o (record s { host = r.1 }) p
  getpgid-Located pid h s p c k (ok g) e leaves =
      let found = k.finds s.host g (c ∙ k.child) e in (k.phase, (cc, k.exiting))
  getpgid-Located pid h s p c k (err x) e leaves = locate_fails k.phase refl
  getpgid-Located pid h s p c k (halt n) e leaves = leaves
  getpgid-Located pid h s p c k panic e leaves = tt
  getpgid-Located pid h s p c k diverge e leaves = tt

  wait_loop-Located :
      Observed S V
      → (fuel g : ℕ) (h : Handler) (s : State W) (p : Parent) → Reaches V s p
      → Located h g s p
      → Runs V (λ _ _ _. ⊥) (wait_loop S fuel g 0 h) s
  wait_loop-Located L fuel g h s p r k =
      wait_loop-Runs S V L fuel g 0 h s (record p { phase = polling; pgid = g })
        (record {
          run = next r.run (locate g k.0 k.1.0 refl);
          seen = record { child = r.seen.child; killed = r.seen.killed; dead = r.seen.dead };
        })
        (record { phase = refl; pgid = refl; child = k.1.0; exiting = k.1.1 })

  begun-Runs :
      Observed S V
      → (fuel pid : ℕ) (h : Handler) (s : State W) (p : Parent) → Reaches V s p
      → IsBegun pid h p
      → Runs V
          (λ _ _ _. ⊥)
          (signal_turn S 0 h >>= λ behind. attempt (call (S.processes.getpgid pid)) >>= λ group.
            or_fatal S "getpgid error: %v" group >>= λ pgid. wait_loop S fuel pgid 0 behind)
          s
  begun-Runs L fuel pid h s p r k =
      Runs-bind s
        (rw (sym k.pgid) (signal_turn-Runs S V L h s p r (λ e. let f = k.phase in cc) k.exiting))
        λ h' st q r' t.
          let k' = turn-IsBegun pid h h' p q k t in
          Runs-bind st
            (Runs-attempt (Handled (Located h')) (S.processes.getpgid pid) st q r'
              (L.locate pid st.host)
              (getpgid-Located pid h' st q r'.seen.child k' _ refl (L.locate pid st.host)))
            λ o st' q' r'' m.
              Runs-bind st' (or_fatal-Runs (Located h') _ o st' q' r'' m)
                λ g. wait_loop-Located L fuel g h'

  start-Runs :
      Observed S V
      → (h : Handler) (args : List String) (s : State W) (p : Parent) → Reaches V s p
      → p.phase ≡ starting
      → p.pgid ≡ 0
      → p.exiting ≡ is_leaving h
      → Runs V
          (Handled (λ pid _. IsBegun pid h))
          (attempt (call (S.processes.start_self args "IMG_DO_UNSHARE=1")))
          s
  unfolding attempt call
  start-Runs L h args s p r e z x = record {
    at = start-Follows h s p r e z x _ _ (L.start args "IMG_DO_UNSHARE=1" s.host);
  }

  pub start_and_wait-Runs :
      Observed S V
      → (watch : Watch) (args : List String) (s : State W) → IsSeen V s.host first
      → is_leaving watch.handler ≡ false
      → Runs V (λ _ _ _. ⊥) (start_and_wait S watch args) s
  unfolding start_and_wait
  start_and_wait-Runs L watch args s seen fresh =
      Runs-bind s
        (signal_turn-Runs S V L watch.handler s first (record { run = here; seen = seen }) (λ e. cc)
          (sym fresh))
        λ h st q r t.
          Runs-bind st (start-Runs L h args st q r t.phase t.pgid t.exiting) λ o st' q' r' k.
            Runs-bind st' (or_fatal-Runs (λ pid _. IsBegun pid h) _ o st' q' r' k)
              λ pid. begun-Runs L watch.fuel pid h
