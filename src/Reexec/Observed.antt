-- ===== src/Reexec/Observed.antt =====
-- What a host shows of the child of reexec.go, and what the calls that `reexec` makes do to that.
use img.Common.{ℕ, String, Bool, true, false, Option, some, List, ◌≡◌, ◌≢◌}
use img.Common.Exec.{Outcome, ok, err, halt, panic, diverge, Error}
use img.Services.{Services}
use img.Reexec.{is_no_child}

-- The group of the child once it was started, whether the child runs, and the group that was killed.
pub record Sight (W : Type 0) : Type 0 where
  pub child : W → Option ℕ
  pub alive : W → Bool
  pub killed : W → Option ℕ

module _ {W : Type 0} (V : Sight W) where
  -- From the first host to the second nothing is done to the child, which may end of itself.
  pub record IsSame (w v : W) : Type 0 where
    pub child : V.child v ≡ V.child w
    pub killed : V.killed v ≡ V.killed w
    pub dead : V.alive w ≡ false → V.alive v ≡ false

  -- A call that leaves the child alone and does not end this process.
  abbrev pub Leaves : {A : Type 0} → W → W → Outcome A → Type 0
  Leaves w v (ok a) = IsSame w v
  Leaves w v (err e) = IsSame w v
  Leaves w v (halt n) = ⊥
  Leaves w v panic = IsSame w v
  Leaves w v diverge = IsSame w v

  -- A call that does so and returns.
  abbrev pub Answers : {A : Type 0} → W → W → Outcome A → Type 0
  Answers w v (ok a) = IsSame w v
  Answers w v _ = ⊥

  -- A child that was started has a group of its own, and `Getpgid` of its process finds that group.
  pub record IsStarted (S : Services W) (w v : W) (pid : ℕ) : Type 0 where
    pub group : ℕ
    pub nonzero : group ≢ 0
    pub child : V.child v ≡ some group
    pub killed : V.killed v ≡ V.killed w
    pub finds :
        (u : W) (g : ℕ) → V.child u ≡ some group → (S.processes.getpgid pid u).0 ≡ ok g → g ≡ group

  abbrev pub Starts : Services W → W → W → Outcome ℕ → Type 0
  Starts S w v (ok pid) = IsStarted S w v pid
  Starts S w v (err e) = IsSame w v
  Starts S w v (halt n) = ⊥
  Starts S w v panic = IsSame w v
  Starts S w v diverge = IsSame w v

  -- `SIGKILL` to a group: only the caller's own group is named by 0 and ends the caller.
  pub record IsKilled (g : ℕ) (w v : W) : Type 0 where
    pub child : V.child v ≡ V.child w
    pub killed : V.killed v ≡ some g
    pub dead : V.alive w ≡ false → V.alive v ≡ false

  abbrev pub Kills : ℕ → W → W → Outcome (Unit {0}) → Type 0
  Kills g w v (ok _) = (g ≢ 0) × (IsKilled g w v × (V.child w ≡ some g → V.alive v ≡ false))
  Kills g w v (err e) = IsSame w v
  Kills g w v (halt n) = (V.child w ≢ some g) × IsKilled g w v
  Kills g w v panic = IsSame w v
  Kills g w v diverge = IsSame w v

-- The documented behaviour of the calls that `reexec` makes.
pub record Observed {W : Type 0} (S : Services W) (V : Sight W) : Type 0 where
  pub getenv : (key : String) (w : W) → let r = S.processes.getenv key w in Answers V w r.1 r.0
  pub parent_euid : (w : W) → let r = S.workers.parent_euid w in Answers V w r.1 r.0
  pub start :
      (args : List String) (variable : String) (w : W)
      → let r = S.processes.start_self args variable w in Starts V S w r.1 r.0
  pub locate : (pid : ℕ) (w : W) → let r = S.processes.getpgid pid w in Leaves V w r.1 r.0
  pub kill : (g : ℕ) (w : W) → let r = S.processes.kill_group g w in Kills V g w r.1 r.0
  pub wait : (g : ℕ) (w : W) → let r = S.processes.wait_group g w in Leaves V w r.1 r.0
  -- `ECHILD`: no process of the group is left.
  pub gone :
      (g : ℕ) (w : W) (e : Error)
      → V.child w ≡ some g
      → (S.processes.wait_group g w).0 ≡ err e
      → is_no_child e ≡ true
      → V.alive (S.processes.wait_group g w).1 ≡ false
