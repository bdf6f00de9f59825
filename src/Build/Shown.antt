-- ===== src/Build/Shown.antt =====
-- `showProgress` of build.go, once the channel is closed: where standard error is a console all that
-- was sent is displayed (Build/Status), else the log messages are printed (Build/Progress).
use img.Common.{List, [], ◌∷◌, refl}
use img.Common.Exec.{Exec, Outcome, ok, err, halt, panic, diverge, pure, ◌>>=◌, ◌>>◌, attempt, gets}
use img.Common.Output.{Line}
use img.Common.Triple.{Keeps, Triple-bind, Triple-pure, Keeps-gets, Keeps-attempt}
use img.Services.{Services, Handle}
use img.Services.Laws.{IsLawful}
use img.Services.Solving.{Solving}
use img.Services.Solving.Laws.{IsSolving}
use img.Client.{State, call, lift, print}
use img.Client.Sessions.{IsSeen, Keeps-seen, Keeps-outcome, Triple-unseen}
use img.Build.Progress.{show_plain}
use img.Build.Status.{show_console}

module _ {W : Type 0} where
  unfoldable pub print_all : List Line → Exec (State W) (Unit {0})
  print_all [] = pure tt
  print_all (line ∷ lines) = do print line; print_all lines

  module _ (T : Solving W) where
    -- What follows the look for a console.
    unfoldable pub show_on : Outcome Handle → Exec (State W) (Unit {0})
    unfolding print_all show_plain show_console
    show_on (ok console) = do
      sent ← gets (λ s. s.channel)
      call (T.display console (show_console sent))
    show_on (err e) = do sent ← gets (λ s. s.channel); print_all (show_plain [] sent)
    show_on (halt n) = lift (halt n)
    show_on panic = lift panic
    show_on diverge = lift diverge

    unfoldable pub show_progress : Exec (State W) (Unit {0})
    unfolding show_on
    show_progress = do console ← attempt (call T.console); show_on console

module _ {W : Type 0} {S : Services W} {L : IsLawful S} {T : Solving W} (K : IsSolving L T)
    {R : State W → Type 0} (seen : IsSeen L R) where
  print_all-Keeps : (lines : List Line) → Keeps R (print_all lines)
  unfolding print_all print
  print_all-Keeps [] = Triple-pure tt (λ s h. h)
  print_all-Keeps (line ∷ lines) =
      Triple-bind (Triple-unseen L _ seen (λ s. refl) (λ s. refl)) λ _. print_all-Keeps lines

  show_on-Keeps : (o : Outcome Handle) → Keeps R (show_on T o)
  unfolding show_on
  show_on-Keeps (ok console) =
      Triple-bind (Keeps-gets _) λ sent. Keeps-seen L _ seen (K.display_quiet console _)
  show_on-Keeps (err e) = Triple-bind (Keeps-gets _) λ sent. print_all-Keeps _
  show_on-Keeps (halt n) = Keeps-outcome (halt n)
  show_on-Keeps panic = Keeps-outcome panic
  show_on-Keeps diverge = Keeps-outcome diverge

  -- It leaves the names and the client as they are.
  pub show_progress-Keeps : Keeps R (show_progress T)
  unfolding show_progress
  show_progress-Keeps =
      Triple-bind (Keeps-attempt (Keeps-seen L _ seen K.console_quiet))
        λ console. show_on-Keeps console
