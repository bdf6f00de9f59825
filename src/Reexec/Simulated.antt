-- ===== src/Reexec/Simulated.antt =====
-- The turns of reexec.go's goroutine that waits for a signal, and the runs of the step relation.
use img.Common.{ℕ, zero, suc, Bool, true, false, Option, some, ◌≡◌, ◌≢◌, refl, ◌∙◌, inl, inr}
use img.Common.Exec.{Outcome, ok, err, halt, panic, diverge, reflect, continue, ◌>>=◌}
use img.Services.{Services}
use img.Client.{State, call, print}
use img.Reexec.{Handler, quiet, coming, leaving, after_kill, leave, signal_turn}
use img.Reexec.Signals.{
  Phase, Parent, starting, started, polling, ended, next, interrupt_child, interrupt_own,
  kill_fails, exits, IsTracked, Reach-IsTracked, Reach-killed,
}
use img.Reexec.Observed.{Sight, IsKilled, Kills, Observed}
use img.Reexec.Following.{Reaches, Follows, Halted, Runs, ends-Halted, same-IsSeen}

abbrev pub is_leaving : Handler → Bool
is_leaving quiet = false
is_leaving (coming n sig m) = false
is_leaving (leaving m) = true

-- Where the group is not 0, the child has it.
known :
    (p : Parent)
    → IsTracked p
    → p.pgid ≢ 0
    → (f : Phase) → p.phase ≡ f
    → f ≢ ended
    → p.child ≡ some p.pgid
known p h ne starting e alive = absurd (ne (h.at_start e).0)
known p h ne started e alive = absurd (ne (h.at_started e))
known p h ne polling e alive = h.at_polling e
known p h ne ended e alive = absurd (alive refl)

-- What the turn of the signal's goroutine leaves: `h` is where that goroutine stands then.
pub record Turned (f : Phase) (g : ℕ) (c : Option ℕ) (h : Handler) (q : Parent) : Type 0 where
  pub phase : q.phase ≡ f
  pub pgid : q.pgid ≡ g
  pub child : q.child ≡ c
  pub exiting : q.exiting ≡ is_leaving h

module _ {W : Type 0} (S : Services W) (V : Sight W) where
  leave-Runs :
      (m : ℕ) (s : State W) (p : Parent)
      → Reaches V s p
      → p.phase ≢ ended
      → p.exiting ≡ true
      → Runs V (λ h _. Turned p.phase p.pgid p.child h) (leave S m) s
  unfolding leave ◌>>=◌
  leave-Runs zero s p r alive x = record { at = ends-Halted 0 s p r (exits alive x refl) }
  leave-Runs (suc m) s p r alive x = record {
    at = (p, r, record { phase = refl; pgid = refl; child = refl; exiting = x });
  }

  module _ (m : ℕ) (s : State W) (p : Parent) (r : Reaches V s p) (alive : p.phase ≢ ended)
      (x : p.exiting ≡ false) where
    -- The child's group was killed.
    child_killed :
        {v : W}
        → p.child ≡ some p.pgid
        → IsKilled V p.pgid s.host v
        → V.alive v ≡ false
        → Runs V (λ h _. Turned p.phase p.pgid p.child h) (leave S m) (record s { host = v })
    child_killed c k dead =
        leave-Runs m _ (record p { killed = some p.pgid; running = false; exiting = true })
          (record {
            run = next r.run (interrupt_child p.pgid alive x refl c refl);
            seen = record { child = k.child ∙ r.seen.child; killed = k.killed; dead = λ e. dead };
          })
          alive refl

    -- The process killed itself.
    own_killed :
        (n : ℕ) {v : W}
        → p.child ≢ some p.pgid
        → IsKilled V p.pgid s.host v
        → Halted V n (record s { host = v })
    own_killed n c k =
        let run = next r.run (interrupt_own alive x c refl) in
        (
          record p { phase = ended; killed = some p.pgid },
          record {
            run = run;
            seen = record {
              child = k.child ∙ r.seen.child;
              killed = k.killed;
              dead = λ e. k.dead (r.seen.dead e);
            };
          },
          refl,
          elim ((Reach-killed run).0 p.pgid refl) [ inl z ↦ inr (cc) | inr h ↦ absurd (c h.0) ],
        )

    kill-Follows :
        (v : W) (o : Outcome (Unit {0}))
        → Kills V p.pgid s.host v o
        → let rest = (λ (done : Outcome (Unit {0})). after_kill S p.pgid done >>= λ _. leave S m) in
          Follows V
            (λ h _. Turned p.phase p.pgid p.child h)
            (continue (reflect o) rest (record s { host = v })).0
            (continue (reflect o) rest (record s { host = v })).1
    unfolding after_kill ◌>>=◌
    kill-Follows v (ok u) k =
        let c = known p (Reach-IsTracked r.run) k.0 p.phase refl alive in
        (child_killed c k.1.0 (k.1.1 (r.seen.child ∙ c))).at
    kill-Follows v (err e) same =
        ends-Halted 1 _ p (record { run = r.run; seen = same-IsSeen V same r.seen })
          (kill_fails alive x refl)
    kill-Follows v (halt n) k = own_killed n (λ e. k.0 (r.seen.child ∙ e)) k.1
    kill-Follows v panic same = (p, record { run = r.run; seen = same-IsSeen V same r.seen })
    kill-Follows v diverge same = (p, record { run = r.run; seen = same-IsSeen V same r.seen })

  pub signal_turn-Runs :
      Observed S V
      → (h : Handler) (s : State W) (p : Parent) → Reaches V s p
      → p.phase ≢ ended
      → p.exiting ≡ is_leaving h
      → Runs V (λ h _. Turned p.phase p.pgid p.child h) (signal_turn S p.pgid h) s
  unfolding signal_turn call print ◌>>=◌
  signal_turn-Runs L quiet s p r alive x = record {
    at = (p, r, record { phase = refl; pgid = refl; child = refl; exiting = x });
  }
  signal_turn-Runs L (coming (suc n) sig m) s p r alive x = record {
    at = (p, r, record { phase = refl; pgid = refl; child = refl; exiting = x });
  }
  signal_turn-Runs L (coming zero sig m) s p r alive x = record {
    at =
        kill-Follows m _ p (record { run = r.run; seen = r.seen }) alive x _ _
          (L.kill p.pgid s.host);
  }
  signal_turn-Runs L (leaving m) s p r alive x = leave-Runs m s p r alive x
