-- ===== src/Examples/Children.antt =====
-- The re-execution, in the host in memory and outside its namespace.
use img.Common.{ℕ, ◌≤◌, arith, String, true, false, some, List, [], ◌∷◌, ◌≡◌, ◌≢◌, refl, ◌⊎◌}
use img.Common.Exec.{Exec, ok, halt, raise, errorf, ◌>>=◌}
use img.Services.{Services}
use img.Client.{State, call, lift}
use img.Command.{Globals}
use img.Flag
use img.Flag.{Parsed}
use img.Backend.{valid_backends}
use img.Fixture.{World, memory, give}
use img.Fixture.Data.{running, start, calm}
use img.Main.{contains, find, is_help, main, run_parsed}
use img.Main.Interface.{globals, parse_flags}
use img.Main.Interrupted.{levelled, main-interrupted}
use img.Main.Child.{run_parsed-child}
use img.Main.Commands.{commands, tag_command}
use img.Reexec.{Watch, coming, needs_reexec}
use img.Reexec.Interrupted.{signalled}
use img.Reexec.Waiting.{Idle, now, poll}
use img.Reexec.Signals
use img.Reexec.Signals.{
  Phase, Parent, Reach, here, next, locate, interrupt_child, exits, Reach-killed,
}
use img.Examples.Commands.{host}

abbrev outside : Services World
outside = record memory {
  processes = record memory.processes { getenv = λ k. give "" };
  workers = record memory.workers { parent_euid = give 1000 };
}

needs : needs_reexec outside running ≡ (ok true, running)
unfolding needs_reexec call ◌>>=◌
needs = refl

abbrev tagged : Parsed
tagged = record { settings = []; args = "a" ∷ "b" ∷ [] }

abbrev failing : Globals → List (String × String) → List String → Exec (State World) (Unit {0})
failing g settings args = raise (errorf "not run" [])

run_parsed-child_example :
    (run_parsed outside calm
        (commands host)
        ("tag" ∷ "a" ∷ "b" ∷ [])
        (tag_command host)
        tagged
        running
      ≡ run_parsed outside calm
          (commands host)
          ("tag" ∷ "a" ∷ "b" ∷ [])
          (record (tag_command host) { run = failing })
          tagged
          running)
    × ((run_parsed outside calm
          (commands host)
          ("tag" ∷ "a" ∷ "b" ∷ [])
          (tag_command host)
          tagged
          running).0
        ≢ ok tt)
run_parsed-child_example =
    run_parsed-child outside calm (commands host) ("tag" ∷ "a" ∷ "b" ∷ []) (tag_command host) tagged
      running running refl needs failing

-- The child's group is 7, and the interrupt comes in the loop.
abbrev interrupted : Parent
interrupted = record {
  phase = Phase.ended;
  pgid = 7;
  child = some 7;
  running = false;
  exiting = true;
  killed = some 7;
  status = some 0;
}

trace : Reach interrupted
trace =
    next
      (next (next (next here (Signals.start 7 refl (λ e. cc) refl)) (locate 7 refl refl refl))
        (interrupt_child 7 (λ e. cc) refl refl refl refl))
      (exits (λ e. cc) refl refl)

Reach-killed_example :
    ((g : ℕ)
      → interrupted.killed ≡ some g
      → (g ≡ 0) ⊎ ((interrupted.child ≡ some g) × (interrupted.running ≡ false)))
    × (interrupted.phase ≡ Phase.polling
        → (interrupted.child ≡ some interrupted.pgid) × (interrupted.pgid ≢ 0))
Reach-killed_example = Reach-killed trace

-- The signal comes behind one poll, and the next one finds the child killed.
abbrev polling : State World
polling = record running { host = record start { waits = 0 ∷ 9 ∷ [] } }

abbrev signal_after : Watch
signal_after = record { handler = coming 3 "interrupt" 2; fuel = 9 }

asks_none : is_help "tag" ("a" ∷ "b" ∷ []) ≡ false
asks_none = refl

finds_tag : find "tag" (commands host) ≡ some (tag_command host)
unfolding find
finds_tag = refl

parses_tag : parse_flags (tag_command host) ("a" ∷ "b" ∷ []) polling ≡ (ok tagged, polling)
unfolding parse_flags Flag.parse lift ◌>>=◌
parses_tag = refl

valid_tag : contains valid_backends (globals tagged.settings).backend ≡ true
unfolding contains Flag.setting
valid_tag = refl

needs_polling : needs_reexec outside polling ≡ (ok true, polling)
unfolding needs_reexec call ◌>>=◌
needs_polling = refl

polling-Idle : Idle outside 20 1 polling.host (record start { waits = 9 ∷ [] })
polling-Idle = poll refl (now _)

main-interrupted_example :
    (2 ≤ 1
      → (main outside signal_after (commands host) ("tag" ∷ "a" ∷ "b" ∷ []) polling).0 ≡ halt 0)
    × (2 ≤ 2
        → main outside signal_after (commands host) ("tag" ∷ "a" ∷ "b" ∷ []) polling
          ≡ (halt 255, signalled "interrupt" start (levelled tagged polling.host polling)))
unfolding needs_reexec Flag.setting
main-interrupted_example =
    main-interrupted outside (commands host) "tag" ("a" ∷ "b" ∷ []) polling asks_none
      (tag_command host) tagged finds_tag parses_tag valid_tag refl 20 20 needs_polling refl refl 1
      0 2 9 9 "interrupt" "no child processes" start (omega arith) polling-Idle refl (now _) refl
      refl refl
