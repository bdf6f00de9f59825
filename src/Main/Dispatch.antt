-- ===== src/Main/Dispatch.antt =====
-- What is left of the embedded runc.
use img.Common.{String, false, List, ◌≡◌, refl}
use img.Common.Exec.{ok, err, halt, Error, ◌>>=◌}
use img.Services.{Services}
use img.Client.{State, call, lift, print}
use img.Command.{Globals}
use img.Binutils.{install_runc_binary}
use img.Reexec.{Watch}
use img.Main.Interface.{Command}
use img.Main.{run_with_runc}

module _ {W : Type 0} (S : Services W) (watch : Watch) (commands : List (Command W)) (c : Command W)
    (g : Globals) (settings : List (String × String)) (args : List String) (s s' : State W)
    (dir : String) (installed : install_runc_binary S s ≡ (ok (dir, ok tt), s')) where
  -- Where the embedded runc was installed, its directory is removed if the command succeeds; if the
  -- command fails the process ends with status 1 and the directory is not removed.
  pub run_with_runc-directory :
      ((c.run g settings args s').0 ≡ ok tt
        → ((run_with_runc S watch commands c g settings args false s).0 ≡ ok tt)
          × ((run_with_runc S watch commands c g settings args false s).1.host
              ≡ (S.files.remove_all dir (c.run g settings args s').1.host).1))
      × ((e : Error)
          → (c.run g settings args s').0 ≡ err e
          → ((run_with_runc S watch commands c g settings args false s).0 ≡ halt 1)
            × ((run_with_runc S watch commands c g settings args false s).1.host
                ≡ (c.run g settings args s').1.host))
  unfolding run_with_runc call print lift ◌>>=◌
  run_with_runc-directory = (
    λ e. (rw installed (rw e refl), rw installed (rw e refl)),
    λ x e. (rw installed (rw e refl), rw installed (rw e refl)),
  )
