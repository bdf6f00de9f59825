-- ===== src/Examples/Channels.antt =====
-- A build in which one response goes over the channel.
use img.Common.{false, none, [], ◌∷◌, ◌≡◌, refl}
use img.Services.Progress.{StatusResponse}
use img.Build.Channel.{
  handling, finished, Progress, start, send, show, end_solver, end_status, close, stop, Reach,
  begin, then,
}
use img.Build.Channel.Closing.{Reach-safe}
use img.Build.Channel.Draining.{CanFinish, Reach-CanFinish}

abbrev resp : StatusResponse
resp = record {
  vertexes =
      record {
        digest = "d";
        inputs = [];
        name = "one";
        started = none;
        completed = none;
        error = "";
        cached = false;
      }
      ∷ [];
  statuses = [];
  logs = record { vertex = "d"; stream = 1; msg = "hello"; timestamp = 0 } ∷ [];
}

abbrev sent : (p : Progress) × Reach p × (p.reader ≡ handling resp)
sent = (_, then (then begin (start refl refl)) (send resp refl refl refl refl refl), refl)

abbrev ended : (p : Progress) × Reach p × (p.reader ≡ finished) × (p.sent ≡ resp ∷ [])
ended = (
  _,
  then
      (then
        (then (then (then (sent.1) (show resp refl refl)) (end_status refl refl refl))
          (end_solver refl refl refl))
        (close refl refl refl refl))
      (stop refl refl refl),
  refl,
  refl,
)

Reach-safe_example : ended.0.panicked ≡ false
Reach-safe_example = Reach-safe ended.1

Reach-CanFinish_example : CanFinish sent.0
Reach-CanFinish_example = Reach-CanFinish sent.1
