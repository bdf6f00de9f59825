-- ===== src/Build/Channel.antt =====
-- The channel between `Solve` of client/solve.go and `showProgress` of build.go where standard error
-- is no console: what is sent, shown and closed, in any order in which the goroutines take turns.
pub mod Closing
pub mod Draining
use img.Common.{Bool, true, false, List, [], ◌∷◌, ◌++◌, ◌≡◌, map}
use img.Common.Output.{Line}
use img.Build.{Attrs, lookup}
use img.Services.Progress.{StatusResponse}
use img.Build.Progress.{add_names, log_line}

-- Where the goroutine of `showProgress` stands: at the head of `range ch`, in the body of the loop, or
-- behind it.
pub data Reader : Type 0 where
  ready : Reader
  handling : StatusResponse → Reader
  finished : Reader

pub record Progress : Type 0 where
  -- Whether `Solve` has started its two goroutines, or returned without them, and which have ended.
  pub started : Bool
  pub solver_done : Bool
  pub status_done : Bool
  -- Whether the three seconds run that follow the solver's end, and whether they have cancelled the
  -- context of `Status`.
  pub timer : Bool
  pub cancelled : Bool
  pub closed : Bool
  pub panicked : Bool
  pub reader : Reader
  -- `vtxNames`
  pub names : Attrs
  pub sent : List StatusResponse
  pub printed : List Line

abbrev pub initial : Progress
initial = record {
  started = false;
  solver_done = false;
  status_done = false;
  timer = false;
  cancelled = false;
  closed = false;
  panicked = false;
  reader = ready;
  names = [];
  sent = [];
  printed = [];
}

-- The body of the loop over the channel.
abbrev pub response_lines : Attrs → StatusResponse → List Line
response_lines names resp =
    map (λ v. log_line (lookup v.vertex (add_names names resp.vertexes)) v) resp.logs

-- One step of one goroutine. The channel has no buffer, so a response is sent where it is received.
pub data Step (p q : Progress) : Type 0 where
  -- `createController` fails, and the deferred `close(ch)` runs.
  fail :
      p.started ≡ false
      → q ≡ record p { started = true; solver_done = true; status_done = true; closed = true }
      → Step p q
  start : p.started ≡ false → q ≡ record p { started = true } → Step p q
  -- `Send`, which the controller's `Status` calls: `x.ch <- m`.
  send :
      (resp : StatusResponse)
      → p.started ≡ true
      → p.status_done ≡ false
      → p.closed ≡ false
      → p.reader ≡ ready
      → q ≡ record p { sent = p.sent ++ (resp ∷ []); reader = handling resp }
      → Step p q
  send_closed :
      p.started ≡ true
      → p.status_done ≡ false
      → p.closed ≡ true
      → q ≡ record p { panicked = true }
      → Step p q
  show :
      (resp : StatusResponse)
      → p.reader ≡ handling resp
      → q ≡ record p {
        reader = ready;
        names = add_names p.names resp.vertexes;
        printed = p.printed ++ response_lines p.names resp;
      }
      → Step p q
  -- The controller's `Solve` returns, and the deferred call starts the timer.
  end_solver :
      p.started ≡ true
      → p.solver_done ≡ false
      → q ≡ record p { solver_done = true; timer = true }
      → Step p q
  -- `<-time.After(3 * time.Second)` and `cancelStatus()`
  cancel : p.timer ≡ true → q ≡ record p { timer = false; cancelled = true } → Step p q
  -- The controller's `Status` returns, of itself or since its context is cancelled.
  end_status :
      p.started ≡ true → p.status_done ≡ false → q ≡ record p { status_done = true } → Step p q
  stop_status :
      p.started ≡ true
      → p.status_done ≡ false
      → p.cancelled ≡ true
      → q ≡ record p { status_done = true }
      → Step p q
  -- `eg.Wait` returns once both have ended, and the deferred `close(ch)` runs.
  close :
      p.solver_done ≡ true
      → p.status_done ≡ true
      → p.closed ≡ false
      → q ≡ record p { closed = true }
      → Step p q
  -- The channel is closed, and nothing is on its way.
  stop : p.closed ≡ true → p.reader ≡ ready → q ≡ record p { reader = finished } → Step p q

-- A step that does not wait for `Status` to send something or to return of itself.
abbrev pub IsForced : {p q : Progress} → Step p q → Type 0
IsForced (fail a b) = Unit
IsForced (start a b) = Unit
IsForced (send resp a b c d e) = ⊥
IsForced (send_closed a b c d) = ⊥
IsForced (show resp a b) = Unit
IsForced (end_solver a b c) = Unit
IsForced (cancel a b) = Unit
IsForced (end_status a b c) = ⊥
IsForced (stop_status a b c d) = Unit
IsForced (close a b c d) = Unit
IsForced (stop a b c) = Unit

-- Forced steps, one after the other.
pub data Steps : Progress → Progress → Type 0 where
  here : {p : Progress} → Steps p p
  next : {p q r : Progress} (st : Step p q) → IsForced st → Steps q r → Steps p r

pub data Reach : Progress → Type 0 where
  begin : Reach initial
  then : {p q : Progress} → Reach p → Step p q → Reach q
