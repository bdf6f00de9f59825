-- ===== src/Reexec/Polling.antt =====
-- The loop of reexec.go over `Wait4`, and the runs of the step relation.
use img.Common.{ℕ, zero, suc, Bool-cases, true, false, some, ◌≡◌, refl, ◌∙◌, inl, inr, sym}
use img.Common.Exec.{Exec, Outcome, ok, err, halt, panic, diverge, Error, ◌>>=◌}
use img.Services.{Services}
use img.Client.{State, lift}
use img.Reexec.{Handler, is_no_child, exit_status, process_status, waited, wait_failed, wait_loop}
use img.Reexec.Signals.{Parent, polling, ends, next, reap, wait_fails}
use img.Reexec.Observed.{Sight, Leaves, Observed}
use img.Reexec.Following.{Reaches, Runs, Runs-bind, Runs-attempt, ends-Halted}
use img.Reexec.Simulated.{Turned, is_leaving, signal_turn-Runs}

module _ {W : Type 0} (S : Services W) (V : Sight W) where
  -- In the loop, where the goroutine of the signal stands at `h`.
  pub record IsPolling (g : ℕ) (h : Handler) (p : Parent) : Type 0 where
    pub phase : p.phase ≡ polling
    pub pgid : p.pgid ≡ g
    pub child : p.child ≡ some g
    pub exiting : p.exiting ≡ is_leaving h

  -- What is known of the result of `Wait4`.
  abbrev pub Polled : ℕ → Handler → Outcome ℕ → State W → Parent → Type 0
  Polled g h (ok ws) s p = IsPolling g h p
  Polled g h (err e) s p = IsPolling g h p × (is_no_child e ≡ true → V.alive s.host ≡ false)
  Polled g h (halt n) s p = ⊥
  Polled g h panic s p = Unit
  Polled g h diverge s p = Unit

  wait_failed-Runs :
      (ws : ℕ) (e : Error) (g : ℕ) (h : Handler) (s : State W) (p : Parent)
      → Reaches V s p
      → Polled g h (err e) s p
      → Runs V (λ _ _ _. ⊥) (wait_failed S ws e) s
  unfolding wait_failed ◌>>=◌
  wait_failed-Runs ws e g h s p r k = elim (Bool-cases (is_no_child e)) [
    | inl gone ↦ rw gone (record {
      at = (
        ends (process_status (exit_status ws)) (record p { running = false }),
        record {
          run = next r.run (reap ws k.0.phase refl);
          seen = record { child = r.seen.child; killed = r.seen.killed; dead = λ _. k.1 gone };
        },
        refl,
        inl refl,
      );
    })
    | inr other ↦ rw other (record {
      at = ends-Halted 1 _ p (record { run = r.run; seen = r.seen }) (wait_fails k.0.phase refl);
    })
  ]

  wait_group-Polled :
      Observed S V
      → (g : ℕ) (h : Handler) (s : State W) (p : Parent) → V.child s.host ≡ some g
      → IsPolling g h p
      → let r = S.processes.wait_group g s.host in
        (o : Outcome ℕ) → r.0 ≡ o → Leaves V s.host r.1 o → Polled g h o (record s { host = r.1 }) p
  wait_group-Polled L g h s p c k (ok ws) e leaves = k
  wait_group-Polled L g h s p c k (err x) e leaves = (k, L.gone g s.host x c e)
  wait_group-Polled L g h s p c k (halt n) e leaves = leaves
  wait_group-Polled L g h s p c k panic e leaves = tt
  wait_group-Polled L g h s p c k diverge e leaves = tt

  turn-IsPolling :
      (g : ℕ) (h h' : Handler) (p q : Parent)
      → IsPolling g h p
      → Turned p.phase p.pgid p.child h' q
      → IsPolling g h' q
  turn-IsPolling g h h' p q k t = record {
    phase = t.phase ∙ k.phase;
    pgid = t.pgid ∙ k.pgid;
    child = t.child ∙ k.child;
    exiting = t.exiting;
  }

  waited-Runs :
      (g : ℕ) (h : Handler) (more : ℕ → Exec (State W) (Unit {0}))
      → ((ws : ℕ) (s : State W) (p : Parent)
          → Reaches V s p
          → IsPolling g h p
          → Runs V (λ _ _ _. ⊥) (more ws) s)
      → (ws : ℕ) (o : Outcome ℕ) (s : State W) (p : Parent) → Reaches V s p
      → Polled g h o s p
      → Runs V (λ _ _ _. ⊥) (waited S more ws o) s
  unfolding waited lift
  waited-Runs g h more ih ws (ok ws') s p r k = ih ws' s p r k
  waited-Runs g h more ih ws (err e) s p r k = wait_failed-Runs ws e g h s p r k
  waited-Runs g h more ih ws (halt n) s p r k = absurd k
  waited-Runs g h more ih ws panic s p r k = record { at = (p, r) }
  waited-Runs g h more ih ws diverge s p r k = record { at = (p, r) }

  pub wait_loop-Runs :
      Observed S V
      → (fuel g ws : ℕ) (h : Handler) (s : State W) (p : Parent) → Reaches V s p
      → IsPolling g h p
      → Runs V (λ _ _ _. ⊥) (wait_loop S fuel g ws h) s
  unfolding wait_loop lift
  wait_loop-Runs L zero g ws h s p r k = record { at = (p, r) }
  wait_loop-Runs L (suc fuel) g ws h s p r k =
      Runs-bind s
        (rw (sym k.pgid) (signal_turn-Runs S V L h s p r (λ e. let f = k.phase in cc) k.exiting))
        λ h' st q r' t.
          let k' = turn-IsPolling g h h' p q k t in
          Runs-bind st
            (Runs-attempt (Polled g h') (S.processes.wait_group g) st q r' (L.wait g st.host) (
              wait_group-Polled L g h' st q (r'.seen.child ∙ k'.child) k' _ refl
                (L.wait g st.host)))
            λ o st' q' r''.
              waited-Runs g h' (λ ws'. wait_loop S fuel g ws' h')
                (λ ws' s' p'. wait_loop-Runs L fuel g ws' h' s' p') ws o st' q' r''
