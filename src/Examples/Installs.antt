-- ===== src/Examples/Installs.antt =====
-- The installation of the embedded runc, in a host with an environment and files.
use img.Common.{ℕ, String, Bool, true, false, Option, none, some, [], ◌∷◌, ◌≡◌, refl, ◌==◌}
use img.Common.Exec.{Outcome, ok, err, Kind, foreign}
use img.Common.FilePath
use img.Common.Triple.{Triple}
use img.Services.{Services}
use img.Fixture.Data.{start}
use img.Binutils.{install_runc_binary}
use img.Binutils.Installed.{set_key, IsHosting, Host, Installs, install_runc_binary-Installs}
use img.Fixture.{World, memory}

abbrev looked : Bool → String → Outcome String
looked true path = ok path
looked false path = err (foreign Kind.not_exist "not found")

-- The directory that is made is first in PATH, and has an executable file of that name.
abbrev executable : Option (String × ℕ) → Bool
executable none = false
executable (some _) = true

abbrev hosting : Services World
hosting = record memory {
  processes = record memory.processes {
    getenv = λ k w. (ok (w.env k), w);
    setenv = λ k v w. (ok tt, record w { env = set_key k v w.env });
    write_file = λ p d m w. (ok tt, record w { files = set_key p (some (d, m)) w.files });
    look_path = λ name w. (
      looked (executable (w.files (FilePath.join ("/tmp/dir" ∷ name ∷ []))))
          (FilePath.join ("/tmp/dir" ∷ name ∷ [])),
      w,
    );
  };
}

written_elsewhere :
    (p q : String) (v : Option (String × ℕ)) (f : String → Option (String × ℕ))
    → (p == q) ≡ false
    → set_key p v f q ≡ f q
written_elsewhere p q v f ne = rw ne refl

found :
    (dir content name : String) (w : World)
    → dir ≡ "/tmp/dir"
    → w.files (FilePath.join (dir ∷ name ∷ [])) ≡ some (content, 0o755)
    → (hosting.processes.look_path name w).0 ≡ ok (FilePath.join (dir ∷ name ∷ []))
found dir content name w same file =
    let here : w.files (FilePath.join ("/tmp/dir" ∷ name ∷ [])) ≡ some (content, 0o755) =
      rw (← same) file in
    rw same (rw here refl)

hosting-IsHosting : IsHosting hosting
hosting-IsHosting = record {
  env = λ w. w.env;
  files = λ w. w.files;
  getenv_reads = λ k v w e. cc;
  getenv_env = λ k w. refl;
  getenv_files = λ k w. refl;
  setenv_sets = λ k v w e. refl;
  setenv_files = λ k v w. refl;
  temp_env = λ p w. refl;
  temp_files = λ p w. refl;
  write_writes = λ p c m w e. refl;
  write_env = λ p c m w. refl;
  write_elsewhere = λ p c m w q ne. written_elsewhere p q _ w.files ne;
  look_first = λ dir rest content name w (_, made) path file. found dir content name w (cc) file;
}

install_runc_binary-Installs_example :
    Triple
      (Host hosting-IsHosting start.env start.files)
      (install_runc_binary hosting)
      (Installs hosting-IsHosting start.env start.files "binary")
      (λ _. Unit)
install_runc_binary-Installs_example =
    install_runc_binary-Installs hosting-IsHosting start.env start.files "binary" refl
