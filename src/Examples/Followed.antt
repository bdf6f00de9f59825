-- ===== src/Examples/Followed.antt =====
-- A host in memory that keeps account of the child, at which `reexec` is followed.
use img.Common.{
  ℕ, zero, suc, Bool, true, false, Option, none, some, List, [], ◌∷◌, ◌≡◌, ◌≢◌, refl, ◌⊎◌,
}
use img.Common.Exec.{Outcome, ok, err, halt, ◌>>=◌, Error, Kind, foreign}
use img.Services.{Services}
use img.Client.{State, call}
use img.Fixture.{World, memory, give}
use img.Fixture.Data.{running, start}
use img.Reexec.{Watch, coming, needs_reexec, reexec}
use img.Reexec.Early.{reexec-early}
use img.Reexec.Observed.{Sight, IsSame, Observed, Leaves, Kills}
use img.Reexec.Following.{Follows}
use img.Reexec.Refined.{AtFirst, reexec-Follows}

-- The child has group 1.
abbrev child_of : Bool → Option ℕ
child_of true = some 1
child_of false = none

abbrev shows : Sight World
shows = record { child = λ w. child_of w.spawned; alive = λ w. w.living; killed = λ w. w.killed }

abbrev spawn : World → World
spawn w = record w { spawned = true; living = true }

-- `Kill` ends the process if the group is its own, and finds no third group.
abbrev kill : ℕ → World → Outcome (Unit {0}) × World
kill zero w = (halt 137, record w { killed = some 0 })
kill (suc zero) w = (ok tt, record w { killed = some 1; living = false })
kill (suc (suc n)) w = (err (foreign Kind.other "no such process"), w)

abbrev wait : List ℕ → World → Outcome ℕ × World
wait [] w = (err (foreign Kind.no_child "no child processes"), record w { living = false })
wait (ws ∷ more) w = (ok ws, record w { waits = more })

abbrev counting : Services World
counting = record memory {
  processes = record memory.processes {
    getenv = λ k. give "";
    start_self = λ args variable w. (ok 1, spawn w);
    getpgid = λ pid. give 1;
    kill_group = λ g w. kill g w;
    wait_group = λ g w. wait w.waits w;
  };
  workers = record memory.workers { parent_euid = give 1000 };
}

unchanged : (w : World) → IsSame shows w w
unchanged w = record { child = refl; killed = refl; dead = λ e. e }

not_own : (b : Bool) → child_of b ≢ some 0
not_own true e = cc
not_own false e = cc

kill-Kills : (g : ℕ) (w : World) → Kills shows g w (kill g w).1 (kill g w).0
kill-Kills zero w = (not_own w.spawned, record { child = refl; killed = refl; dead = λ e. e })
kill-Kills (suc zero) w =
    (λ e. cc, (record { child = refl; killed = refl; dead = λ e. refl }, λ e. refl))
kill-Kills (suc (suc n)) w = unchanged w

wait-Leaves : (l : List ℕ) (w : World) → Leaves shows w (wait l w).1 (wait l w).0
wait-Leaves [] w = record { child = refl; killed = refl; dead = λ e. refl }
wait-Leaves (ws ∷ more) w = record { child = refl; killed = refl; dead = λ e. e }

wait-gone :
    (l : List ℕ) (w : World) (e : Error) → (wait l w).0 ≡ err e → (wait l w).1.living ≡ false
wait-gone [] w e same = refl
wait-gone (ws ∷ more) w e same = absurd (cc)

counting-Observed : Observed counting shows
counting-Observed = record {
  getenv = λ k w. unchanged w;
  parent_euid = λ w. unchanged w;
  start = λ args variable w. record {
    group = 1;
    nonzero = λ e. cc;
    child = refl;
    killed = refl;
    finds = λ u g c e. cc;
  };
  locate = λ pid w. unchanged w;
  kill = kill-Kills;
  wait = λ g w. wait-Leaves w.waits w;
  gone = λ g w e c same none_left. wait-gone w.waits w e same;
}

-- The signal comes behind one poll.
abbrev counted : State World
counted = record running { host = record start { waits = 0 ∷ 9 ∷ [] } }

abbrev interrupted_once : Watch
interrupted_once = record { handler = coming 3 "interrupt" 0; fuel = 9 }

reexec-Follows_example :
    let r = reexec counting interrupted_once ("ls" ∷ []) counted in
    Follows shows AtFirst r.0 r.1
    × ((g : ℕ)
        → r.1.host.killed ≡ some g
        → (g ≡ 0) ⊎ ((child_of r.1.host.spawned ≡ some g) × (r.1.host.living ≡ false)))
reexec-Follows_example =
    reexec-Follows counting shows counting-Observed interrupted_once ("ls" ∷ []) counted
      (record { child = refl; killed = refl; dead = λ e. refl }) refl

needs : needs_reexec counting counted ≡ (ok true, counted)
unfolding needs_reexec call ◌>>=◌
needs = refl

reexec-early_example :
    let r =
      reexec counting (record { handler = coming 1 "interrupt" 0; fuel = 9 }) ("ls" ∷ []) counted in
    (r.0 ≡ halt 137)
    × (r.1.host.killed ≡ some 0)
    × ((g : ℕ) × (child_of r.1.host.spawned ≡ some g) × (g ≢ 0))
reexec-early_example =
    reexec-early counting-Observed ("ls" ∷ []) counted 1 137 0 9 "interrupt" needs refl refl
