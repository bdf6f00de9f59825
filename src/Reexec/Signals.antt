-- ===== src/Reexec/Signals.antt =====
-- reexec.go with its two goroutines: one starts the child and polls for it, the other waits for an
-- interrupt, in any order. They share `pgid`, which is 0 until the child's group is known.
use img.Common.{ℕ, Bool, true, false, Option, none, some, ◌≡◌, ◌≢◌, refl, ◌⊎◌, inl, inr}
use img.Reexec.{exit_status, process_status}

-- Where the goroutine stands that starts the child; `ended` is the end of the process.
pub data Phase : Type 0 where
  starting : Phase  -- before `cmd.Start`
  started : Phase  -- before `syscall.Getpgid`
  polling : Phase  -- in the loop over `Wait4`
  ended : Phase

pub record Parent : Type 0 where
  pub phase : Phase
  pub pgid : ℕ
  -- The child's process group, once it was started, and whether the child still runs.
  pub child : Option ℕ
  pub running : Bool
  -- Whether the goroutine of the signal is between `Kill` and `os.Exit`.
  pub exiting : Bool
  -- The argument of `syscall.Kill`, without its sign: 0 stands for the caller's own group.
  pub killed : Option ℕ
  pub status : Option ℕ

abbrev pub first : Parent
first = record {
  phase = starting;
  pgid = 0;
  child = none;
  running = false;
  exiting = false;
  killed = none;
  status = none;
}

-- `os.Exit`
abbrev pub ends : ℕ → Parent → Parent
ends n p = record p { phase = ended; status = some n }

-- One step of either goroutine. The environment chooses what the calls return, and the group of the
-- child is that of its own process (`Setpgid`), so it is not 0.
pub data Step (p q : Parent) : Type 0 where
  start :
      (g : ℕ)
      → p.phase ≡ starting
      → g ≢ 0
      → q ≡ record p { phase = started; child = some g; running = true }
      → Step p q
  start_fails : p.phase ≡ starting → q ≡ ends 1 p → Step p q
  locate :
      (g : ℕ)
      → p.phase ≡ started
      → p.child ≡ some g
      → q ≡ record p { phase = polling; pgid = g }
      → Step p q
  locate_fails : p.phase ≡ started → q ≡ ends 1 p → Step p q
  idle : p.phase ≡ polling → q ≡ p → Step p q
  -- The child has ended, and no child is left: its status is passed on.
  reap :
      (ws : ℕ)
      → p.phase ≡ polling
      → q ≡ ends (process_status (exit_status ws)) (record p { running = false })
      → Step p q
  wait_fails : p.phase ≡ polling → q ≡ ends 1 p → Step p q
  -- An interrupt: `Kill` of the group in `pgid`, which ends the child if it is the child's group.
  interrupt_child :
      (g : ℕ)
      → p.phase ≢ ended
      → p.exiting ≡ false
      → p.pgid ≡ g
      → p.child ≡ some g
      → q ≡ record p { killed = some g; running = false; exiting = true }
      → Step p q
  -- Before that, `Kill` ends this process and its group, and no `os.Exit` follows.
  interrupt_own :
      p.phase ≢ ended
      → p.exiting ≡ false
      → p.child ≢ some p.pgid
      → q ≡ record p { phase = ended; killed = some p.pgid }
      → Step p q
  kill_fails : p.phase ≢ ended → p.exiting ≡ false → q ≡ ends 1 p → Step p q
  exits : p.phase ≢ ended → p.exiting ≡ true → q ≡ ends 0 p → Step p q

pub data Reach : Parent → Type 0 where
  here : Reach first
  next : {p q : Parent} → Reach p → Step p q → Reach q

-- The group is known from the loop on, and is 0 before.
pub record IsTracked (p : Parent) : Type 0 where
  pub at_start : p.phase ≡ starting → (p.pgid ≡ 0) × ((p.child ≡ none) × (p.killed ≡ none))
  pub at_started : p.phase ≡ started → p.pgid ≡ 0
  pub at_polling : p.phase ≡ polling → p.child ≡ some p.pgid
  group : (g : ℕ) → p.killed ≡ some g → (g ≡ 0) ⊎ ((p.child ≡ some g) × (p.running ≡ false))
  pub nonzero : (g : ℕ) → p.child ≡ some g → g ≢ 0

first-IsTracked : IsTracked first
first-IsTracked = record {
  at_start = λ e. (refl, (refl, refl));
  at_started = λ e. refl;
  at_polling = λ e. cc;
  group = λ g e. cc;
  nonzero = λ g e. cc;
}

-- In an ended process only the last two fields say something.
over :
    (q : Parent)
    → q.phase ≡ ended
    → ((g : ℕ) → q.killed ≡ some g → (g ≡ 0) ⊎ ((q.child ≡ some g) × (q.running ≡ false)))
    → ((g : ℕ) → q.child ≡ some g → g ≢ 0)
    → IsTracked q
over q e group nonzero = record {
  at_start = λ f. cc;
  at_started = λ f. cc;
  at_polling = λ f. cc;
  group = group;
  nonzero = nonzero;
}

module _ (p : Parent) (h : IsTracked p) where
  unknown : (f : Phase) → p.phase ≡ f → p.phase ≢ ended → p.child ≢ some p.pgid → p.pgid ≡ 0
  unknown starting e alive c = (h.at_start e).0
  unknown started e alive c = h.at_started e
  unknown polling e alive c = absurd (c (h.at_polling e))
  unknown ended e alive c = absurd (alive e)

  -- The end of the process, with the child as it was or ended.
  quits : (n : ℕ) → IsTracked (ends n p)
  quits n = over _ refl h.group h.nonzero

  reaped_group : (g : ℕ) → p.killed ≡ some g → (g ≡ 0) ⊎ ((p.child ≡ some g) × (false ≡ false))
  reaped_group g e = elim (h.group g e) [ inl z ↦ inl z | inr c ↦ inr (c.0, refl) ]

Step-IsTracked : (p q : Parent) → Step p q → IsTracked p → IsTracked q
Step-IsTracked p q (start g e ne f) h = rw f (record {
  at_start = λ x. cc;
  at_started = λ x. (h.at_start e).0;
  at_polling = λ x. cc;
  group = λ i x. let none_killed = (h.at_start e).1.1 in absurd (cc);
  nonzero = λ i x z. absurd (ne (cc));
})
Step-IsTracked p q (start_fails e f) h = rw f (quits p h 1)
Step-IsTracked p q (locate g e c f) h = rw f (record {
  at_start = λ x. cc;
  at_started = λ x. cc;
  at_polling = λ x. c;
  group = h.group;
  nonzero = h.nonzero;
})
Step-IsTracked p q (locate_fails e f) h = rw f (quits p h 1)
Step-IsTracked p q (idle e f) h = rw f h
Step-IsTracked p q (reap ws e f) h = rw f (over _ refl (reaped_group p h) h.nonzero)
Step-IsTracked p q (wait_fails e f) h = rw f (quits p h 1)
Step-IsTracked p q (interrupt_child g e x s c f) h = rw f (record {
  at_start = λ y. let no_child = (h.at_start y).1.0 in absurd (cc);
  at_started = h.at_started;
  at_polling = h.at_polling;
  group = λ i y. inr (cc, refl);
  nonzero = h.nonzero;
})
Step-IsTracked p q (interrupt_own e x c f) h =
    let zero_group = unknown p h p.phase refl e c in rw f (over _ refl (λ i y. inl (cc)) h.nonzero)
Step-IsTracked p q (kill_fails e x f) h = rw f (quits p h 1)
Step-IsTracked p q (exits e x f) h = rw f (quits p h 0)

pub Reach-IsTracked : {p : Parent} → Reach p → IsTracked p
Reach-IsTracked here = first-IsTracked
Reach-IsTracked (next {p} {q} r st) = Step-IsTracked p q st (Reach-IsTracked r)

-- In every run and whenever the interrupt comes: what is killed is the child's own group, and then
-- the child does not run any more, or it is group 0; in the loop over `Wait4` it is the child's.
pub Reach-killed :
    {p : Parent}
    → Reach p
    → ((g : ℕ) → p.killed ≡ some g → (g ≡ 0) ⊎ ((p.child ≡ some g) × (p.running ≡ false)))
      × (p.phase ≡ polling → (p.child ≡ some p.pgid) × (p.pgid ≢ 0))
Reach-killed r =
    let h = Reach-IsTracked r in (h.group, λ e. (h.at_polling e, h.nonzero _ (h.at_polling e)))
