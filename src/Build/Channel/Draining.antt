-- ===== src/Build/Channel/Draining.antt =====
-- That the channel never holds the goroutines up for good.
use img.Common.{true, false, ◌≡◌, ◌⊎◌, refl, Bool-cases, inl, inr, ◌∙◌}
use img.Build.Channel.Closing.{Reach-IsFlowing}
use img.Build.Channel.{
  Reader, ready, handling, finished, Progress, Step, start, show, end_solver, cancel, stop_status,
  close, stop, IsForced, Steps, here, next, Reach,
}

-- Some forced steps lead to the end.
abbrev pub CanFinish : Progress → Type 0
CanFinish p =
    (q : Progress) × Steps p q × (q.reader ≡ finished) × (q.sent ≡ p.sent) × (q.closed ≡ true)

-- One more step in front, with which nothing is sent.
first_step :
    {p q : Progress} (st : Step p q) → IsForced st → q.sent ≡ p.sent → CanFinish q → CanFinish p
first_step st forced e (r, steps, done, same, shut) =
    (r, next st forced steps, done, same ∙ e, shut)

module _ (p : Progress) (e : p.reader ≡ ready) where
  closed-CanFinish : p.closed ≡ true → CanFinish p
  closed-CanFinish c = (_, next (stop c e refl) tt here, refl, refl, c)

module _ (p : Progress) (e : p.reader ≡ ready) (a : p.solver_done ≡ true) where
  ended-CanFinish : p.status_done ≡ true → CanFinish p
  ended-CanFinish b = elim (Bool-cases p.closed) [
    | inl c ↦ closed-CanFinish p e c
    | inr c ↦ first_step (close a b c refl) tt refl (closed-CanFinish _ e refl)
  ]

module _ (p : Progress) (e : p.reader ≡ ready) (s : p.started ≡ true)
    (a : p.solver_done ≡ true) where
  cancelled-CanFinish : p.status_done ≡ false → p.cancelled ≡ true → CanFinish p
  cancelled-CanFinish b c = first_step (stop_status s b c refl) tt refl (ended-CanFinish _ e a refl)

module _ (p : Progress) (e : p.reader ≡ ready) (s : p.started ≡ true)
    (a : p.solver_done ≡ true) where
  solved-CanFinish : (p.status_done ≡ false → (p.timer ≡ true) ⊎ (p.cancelled ≡ true)) → CanFinish p
  solved-CanFinish armed = elim (Bool-cases p.status_done) [
    | inl b ↦ ended-CanFinish p e a b
    | inr b ↦ elim (armed b) [
      | inl t ↦ first_step (cancel t refl) tt refl (cancelled-CanFinish _ e s a b refl)
      | inr c ↦ cancelled-CanFinish p e s a b c
    ]
  ]

-- `cancelStatus` is on its way, or was called, where the solver has ended and `Status` has not.
abbrev IsArmed : Progress → Type 0
IsArmed p = p.solver_done ≡ true → p.status_done ≡ false → (p.timer ≡ true) ⊎ (p.cancelled ≡ true)

module _ (p : Progress) (e : p.reader ≡ ready) (armed : IsArmed p) where
  started-CanFinish : p.started ≡ true → CanFinish p
  started-CanFinish s = elim (Bool-cases p.solver_done) [
    | inl a ↦ solved-CanFinish p e s a (armed a)
    | inr a ↦ first_step (end_solver s a refl) tt refl (solved-CanFinish _ e s refl (λ b. inl refl))
  ]

ready-CanFinish : (p : Progress) → p.reader ≡ ready → IsArmed p → CanFinish p
ready-CanFinish p e armed = elim (Bool-cases p.started) [
  | inl s ↦ started-CanFinish p e armed s
  | inr s ↦ first_step (start s refl) tt refl (started-CanFinish _ e armed refl)
]

reader-CanFinish :
    (p : Progress) (o : Reader)
    → p.reader ≡ o
    → IsArmed p
    → (p.reader ≡ finished → p.closed ≡ true)
    → CanFinish p
reader-CanFinish p ready e armed shut = ready-CanFinish p e armed
reader-CanFinish p (handling resp) e armed shut =
    first_step (show resp e refl) tt refl (ready-CanFinish _ refl armed)
reader-CanFinish p finished e armed shut = (p, here, e, refl, shut e)

-- No run gets stuck, even if `Status` sends nothing more and never returns of itself: from every state
-- that is reached, some steps without it, in which the controller's `Solve` returns and the timer
-- fires where they have not yet, lead to one in which `showProgress` has returned and the channel is
-- closed.
pub Reach-CanFinish : {p : Progress} → Reach p → CanFinish p
Reach-CanFinish {p} r =
    let h = Reach-IsFlowing r in reader-CanFinish p p.reader refl h.armed h.after_close
