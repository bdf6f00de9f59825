-- ===== src/Build/Channel/Closing.antt =====
-- What is shown when the channel is closed, and that it can be.
use mathlib.Core.List.{append-nil, append_assoc}
use img.Common.{true, false, List, [], ◌∷◌, ◌++◌, ◌≡◌, refl, sym, ap, ◌∙◌, ◌⊎◌, inl, inr}
use img.Common.Output.{Line}
use img.Build.{Attrs}
use img.Services.Progress.{StatusResponse}
use img.Build.Progress.{add_names, show_plain}
use img.Build.Channel.{
  Reader, ready, handling, finished, Progress, initial, response_lines, Step, fail, start, send,
  send_closed, show, end_solver, cancel, end_status, stop_status, close, stop, Reach, begin, then,
}

-- The names after some responses.
abbrev all_names : Attrs → List StatusResponse → Attrs
all_names names [] = names
all_names names (resp ∷ resps) = all_names (add_names names resp.vertexes) resps

show_plain-append :
    (names : Attrs) (before : List StatusResponse) (resp : StatusResponse)
    → show_plain names (before ++ (resp ∷ []))
      ≡ show_plain names before ++ response_lines (all_names names before) resp
unfolding show_plain
show_plain-append names [] resp = append-nil _
show_plain-append names (r ∷ before) resp =
    ap (λ l. response_lines names r ++ l)
      (show_plain-append (add_names names r.vertexes) before resp)
    ∙ sym (append_assoc (response_lines names r) _ _)

all_names-append :
    (names : Attrs) (before : List StatusResponse) (resp : StatusResponse)
    → all_names names (before ++ (resp ∷ [])) ≡ add_names (all_names names before) resp.vertexes
all_names-append names [] resp = refl
all_names-append names (r ∷ before) resp = all_names-append (add_names names r.vertexes) before resp

abbrev IsShown : Attrs → List StatusResponse → List Line → Type 0
IsShown names sent printed = (printed ≡ show_plain [] sent) × (names ≡ all_names [] sent)

-- Everything sent was shown, but for the response in hand.
abbrev IsCaught : Reader → Attrs → List StatusResponse → List Line → Type 0
IsCaught ready names sent printed = IsShown names sent printed
IsCaught (handling resp) names sent printed =
    (before : List StatusResponse) × (sent ≡ before ++ (resp ∷ [])) × IsShown names before printed
IsCaught finished names sent printed = IsShown names sent printed

pub record IsFlowing (p : Progress) : Type 0 where
  pub caught : IsCaught p.reader p.names p.sent p.printed
  pub safe : p.panicked ≡ false
  pub after_status : p.closed ≡ true → p.status_done ≡ true
  pub after_solver : p.closed ≡ true → p.solver_done ≡ true
  pub after_close : p.reader ≡ finished → p.closed ≡ true
  pub not_ended : p.started ≡ false → (p.status_done ≡ false) × (p.closed ≡ false)
  -- Behind the solver, `Status` has ended or will be cancelled.
  pub armed : p.solver_done ≡ true → p.status_done ≡ false → (p.timer ≡ true) ⊎ (p.cancelled ≡ true)

initial-IsFlowing : IsFlowing initial
unfolding show_plain
initial-IsFlowing = record {
  caught = (refl, refl);
  safe = refl;
  after_status = λ e. cc;
  after_solver = λ e. cc;
  after_close = λ e. cc;
  not_ended = λ e. (refl, refl);
  armed = λ e f. absurd (cc);
}

caught_up :
    (p : Progress) (resp : StatusResponse)
    → IsCaught (handling resp) p.names p.sent p.printed
    → IsShown (add_names p.names resp.vertexes) p.sent (p.printed ++ response_lines p.names resp)
caught_up p resp (before, e, (shown, named)) =
    rw (e, shown, named)
      (sym (show_plain-append [] before resp), sym (all_names-append [] before resp))

status_ends :
    (p : Progress) → p.started ≡ true → IsFlowing p → IsFlowing (record p { status_done = true })
status_ends p s h = record {
  caught = h.caught;
  safe = h.safe;
  after_status = λ x. refl;
  after_solver = h.after_solver;
  after_close = h.after_close;
  not_ended = λ x. absurd (cc);
  armed = λ x y. absurd (cc);
}

Step-IsFlowing : (p q : Progress) → Step p q → IsFlowing p → IsFlowing q
Step-IsFlowing p q (fail e f) h = rw f (record {
  caught = h.caught;
  safe = h.safe;
  after_status = λ x. refl;
  after_solver = λ x. refl;
  after_close = λ x. refl;
  not_ended = λ x. absurd (cc);
  armed = λ x y. absurd (cc);
})
Step-IsFlowing p q (start e f) h = rw f (record {
  caught = h.caught;
  safe = h.safe;
  after_status = h.after_status;
  after_solver = h.after_solver;
  after_close = h.after_close;
  not_ended = λ x. absurd (cc);
  armed = h.armed;
})
Step-IsFlowing p q (send resp s d c e f) h = rw f (record {
  caught = (p.sent, refl, rw e at h.caught);
  safe = h.safe;
  after_status = h.after_status;
  after_solver = h.after_solver;
  after_close = λ x. absurd (cc);
  not_ended = h.not_ended;
  armed = h.armed;
})
Step-IsFlowing p q (send_closed s d c f) h = let done = h.after_status c in absurd (cc)
Step-IsFlowing p q (show resp e f) h = rw f (record {
  caught = caught_up p resp (rw e at h.caught);
  safe = h.safe;
  after_status = h.after_status;
  after_solver = h.after_solver;
  after_close = λ x. absurd (cc);
  not_ended = h.not_ended;
  armed = h.armed;
})
Step-IsFlowing p q (end_solver s e f) h = rw f (record {
  caught = h.caught;
  safe = h.safe;
  after_status = h.after_status;
  after_solver = λ x. refl;
  after_close = h.after_close;
  not_ended = h.not_ended;
  armed = λ x y. inl refl;
})
Step-IsFlowing p q (end_status s e f) h = rw f (status_ends p s h)
Step-IsFlowing p q (cancel e f) h = rw f (record {
  caught = h.caught;
  safe = h.safe;
  after_status = h.after_status;
  after_solver = h.after_solver;
  after_close = h.after_close;
  not_ended = h.not_ended;
  armed = λ x y. inr refl;
})
Step-IsFlowing p q (stop_status s e c f) h = rw f (status_ends p s h)
Step-IsFlowing p q (close a b c f) h = rw f (record {
  caught = h.caught;
  safe = h.safe;
  after_status = λ x. b;
  after_solver = λ x. a;
  after_close = λ x. refl;
  not_ended = λ x. (let early = h.not_ended x in absurd (cc (early.0)));
  armed = h.armed;
})
Step-IsFlowing p q (stop c e f) h = rw f (record {
  caught = rw e at h.caught;
  safe = h.safe;
  after_status = h.after_status;
  after_solver = h.after_solver;
  after_close = λ x. c;
  not_ended = h.not_ended;
  armed = h.armed;
})

pub Reach-IsFlowing : {p : Progress} → Reach p → IsFlowing p
Reach-IsFlowing begin = initial-IsFlowing
Reach-IsFlowing (then {p} {q} r st) = Step-IsFlowing p q st (Reach-IsFlowing r)

-- In every run: nothing is sent after the channel is closed, so no `Send` panics.
pub Reach-safe : {p : Progress} → Reach p → p.panicked ≡ false
Reach-safe r = let h = Reach-IsFlowing r in h.safe
