-- ===== src/Binutils.antt =====
-- internal/binutils/binutils.go
pub mod Names
pub mod Installed
use img.Common.{String, Bool, true, false, [], ◌∷◌, ◌<>◌}
use img.Common.Exec.{
  Exec, Outcome, ok, err, halt, panic, diverge, caused, pure, ◌>>=◌, ◌>>◌, attempt, or_fail,
}
use img.Common.FilePath
use img.Services.{Services}
use img.Client.{State, call, lift, succeeded}

module _ {W : Type 0} (S : Services W) where
  open S.processes use {look_path, runc_version, asset, temp_dir, write_file, getenv, setenv}

  unfoldable pub version_works : Bool → Exec (State W) Bool
  version_works false = pure false
  version_works true = do answer ← attempt (call runc_version); pure (succeeded answer)

  -- `RuncBinaryExists`
  unfoldable pub runc_binary_exists : Exec (State W) Bool
  unfolding version_works
  runc_binary_exists = do found ← attempt (call (look_path "runc")); version_works (succeeded found)

  -- The part after the directory is made, in which the directory is returned beside any error.
  unfoldable pub install_in : String → String → Exec (State W) (Unit {0})
  install_in binary dir = do
    or_fail (caused "writing to temporary file for runc binary failed: %v" [])
        (call (write_file (FilePath.join (dir ∷ "runc" ∷ [])) binary 0o755))
    path ← call (getenv "PATH")
    call (setenv "PATH" (dir <> (":" <> path)))

  unfoldable pub install_after :
      String → Outcome String → Exec (State W) (String × Outcome (Unit {0}))
  unfolding install_in
  install_after binary (ok dir) = do done ← attempt (install_in binary dir); pure (dir, done)
  install_after binary (err e) =
      pure ("", err (caused "creating a temporary directory failed: %v" [] e))
  install_after binary (halt n) = lift (halt n)
  install_after binary panic = lift panic
  install_after binary diverge = lift diverge

  unfoldable pub install_asset : Outcome String → Exec (State W) (String × Outcome (Unit {0}))
  unfolding install_after
  install_asset (ok binary) = do
    dir ← attempt (call (temp_dir "img-runc"))
    install_after binary dir
  install_asset (err e) =
      pure ("", err (caused "retrieving runc binary asset data failed: %v" [] e))
  install_asset (halt n) = lift (halt n)
  install_asset panic = lift panic
  install_asset diverge = lift diverge

  -- `InstallRuncBinary`, which returns a directory beside its error.
  unfoldable pub install_runc_binary : Exec (State W) (String × Outcome (Unit {0}))
  unfolding install_asset
  install_runc_binary = install_asset (asset "runc")
