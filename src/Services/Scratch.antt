-- ===== src/Services/Scratch.antt =====
-- What the program relies on in temporary directories, as `os` and `ioutil` document them: a new one
-- holds nothing of the image store, so that writes below it and its removal leave the names alone.
use img.Common.{ℕ, String, [], ◌∷◌, ◌≡◌}
use img.Common.Exec.{ok}
use img.Common.FilePath
use img.Services.{Services}
use img.Services.Laws.{IsLawful, IsQuiet}

pub record IsScratch {W : Type 0} {S : Services W} (L : IsLawful S) : Type 0 where
  pub temp_quiet : (prefix : String) → IsQuiet L.tags (S.processes.temp_dir prefix)
  pub write_quiet :
      (prefix dir content : String) (mode : ℕ) (w : W)
      → (S.processes.temp_dir prefix w).0 ≡ ok dir
      → IsQuiet L.tags (S.processes.write_file (FilePath.join (dir ∷ "runc" ∷ [])) content mode)
  pub remove_quiet :
      (prefix dir : String) (w : W)
      → (S.processes.temp_dir prefix w).0 ≡ ok dir
      → IsQuiet L.tags (S.files.remove_all dir)
  -- `os.RemoveAll("")` removes nothing.
  pub remove_nothing : IsQuiet L.tags (S.files.remove_all "")
  pub setenv_quiet : (key value : String) → IsQuiet L.tags (S.processes.setenv key value)
  pub look_quiet : (name : String) → IsQuiet L.tags (S.processes.look_path name)
  pub version_quiet : IsQuiet L.tags S.processes.runc_version
