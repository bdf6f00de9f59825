-- ===== src/Binutils/Installed.antt =====
-- internal/binutils/binutils.go: what an installation of the embedded runc leaves of the environment
-- and of the files, and that the search for runc then finds it.
use img.Common.{
  ℕ, String, Option, some, false, [], ◌∷◌, ◌<>◌, ◌==◌, eq_refl, ◌≡◌, refl, ◌∙◌, ap, if◌then◌else◌,
}
use img.Common.Exec.{Outcome, ok, err, halt, panic, diverge}
use img.Common.FilePath
use img.Common.Triple.{
  Triple, Post, Triple-bind, Triple-pure, Triple-or_fail, Triple-at, Triple-attempt, Triple-lax,
  Triple-given,
}
use img.Common.Ending.{Triple-outcome}
use img.Services.{Services}
use img.Client.{State, call, lift}
use img.Binutils.{install_in, install_after, install_asset, install_runc_binary}

abbrev pub runc_path : String → String
runc_path dir = FilePath.join (dir ∷ "runc" ∷ [])

abbrev pub set_key : {A : Type 0} → String → A → (String → A) → String → A
set_key k v f j = if k == j then v else f j

-- A directory that `ioutil.TempDir` made.
abbrev pub IsMade : {W : Type 0} → Services W → String → Type 0
IsMade {W} S dir = (w : W) × ((S.processes.temp_dir "img-runc" w).0 ≡ ok dir)

-- The environment of this process, and the files by path, with their contents and modes, as `os`,
-- `ioutil` and `exec` document them.
pub record IsHosting {W : Type 0} (S : Services W) : Type 0 where
  pub env : W → String → String
  pub files : W → String → Option (String × ℕ)
  pub getenv_reads : (k v : String) (w : W) → (S.processes.getenv k w).0 ≡ ok v → v ≡ env w k
  pub getenv_env : (k : String) (w : W) → env (S.processes.getenv k w).1 ≡ env w
  pub getenv_files : (k : String) (w : W) → files (S.processes.getenv k w).1 ≡ files w
  pub setenv_sets :
      (k v : String) (w : W)
      → (S.processes.setenv k v w).0 ≡ ok tt
      → env (S.processes.setenv k v w).1 ≡ set_key k v (env w)
  pub setenv_files : (k v : String) (w : W) → files (S.processes.setenv k v w).1 ≡ files w
  pub temp_env : (prefix : String) (w : W) → env (S.processes.temp_dir prefix w).1 ≡ env w
  pub temp_files : (prefix : String) (w : W) → files (S.processes.temp_dir prefix w).1 ≡ files w
  pub write_writes :
      (p content : String) (mode : ℕ) (w : W)
      → (S.processes.write_file p content mode w).0 ≡ ok tt
      → files (S.processes.write_file p content mode w).1
        ≡ set_key p (some (content, mode)) (files w)
  pub write_env :
      (p content : String) (mode : ℕ) (w : W)
      → env (S.processes.write_file p content mode w).1 ≡ env w
  pub write_elsewhere :
      (p content : String) (mode : ℕ) (w : W) (q : String)
      → (p == q) ≡ false
      → files (S.processes.write_file p content mode w).1 q ≡ files w q
  -- `exec.LookPath` takes an executable file of the first directory of PATH, one for temporary files
  -- being absolute and without a colon.
  pub look_first :
      (dir rest content name : String) (w : W)
      → IsMade S dir
      → env w "PATH" ≡ dir <> (":" <> rest)
      → files w (FilePath.join (dir ∷ name ∷ [])) ≡ some (content, 0o755)
      → (S.processes.look_path name w).0 ≡ ok (FilePath.join (dir ∷ name ∷ []))

-- The environment and the files of a state.
abbrev pub Host :
    {W : Type 0} {S : Services W}
    → IsHosting S
    → (String → String)
    → (String → Option (String × ℕ))
    → State W
    → Type 0
Host H e f s = (H.env s.host ≡ e) × (H.files s.host ≡ f)

module _ {W : Type 0} {S : Services W} (H : IsHosting S) (e : String → String)
    (f : String → Option (String × ℕ)) where
  -- No other file than that of runc below the directory has changed.
  abbrev pub Elsewhere : String → State W → Type 0
  Elsewhere dir s = (q : String) → (runc_path dir == q) ≡ false → H.files s.host q ≡ f q

  abbrev pub with_runc : String → String → String → Option (String × ℕ)
  with_runc binary dir = set_key (runc_path dir) (some (binary, 0o755)) f

  abbrev pub with_path : String → String → String
  with_path dir = set_key "PATH" (dir <> (":" <> e "PATH")) e

  write-Triple :
      (binary dir : String)
      → Triple
          (Host H e f)
          (call (S.processes.write_file (runc_path dir) binary 0o755))
          (λ _. Host H e (with_runc binary dir))
          (Elsewhere dir)
  unfolding call
  write-Triple binary dir =
      Triple-at _
        (λ s (he, hf) u r.
          (H.write_env _ _ _ s.host ∙ he, H.write_writes _ _ _ s.host r ∙ ap (set_key _ _) hf))
        (λ s (he, hf) q ne. H.write_elsewhere _ _ _ s.host q ne ∙ ap (λ g. g q) hf)

  path-Triple :
      (binary dir : String)
      → Triple
          (Host H e (with_runc binary dir))
          (call (S.processes.getenv "PATH"))
          (λ v s. Host H e (with_runc binary dir) s × (v ≡ e "PATH"))
          (Elsewhere dir)
  unfolding call
  path-Triple binary dir =
      Triple-at _
        (λ s (he, hf) v r. (
          (H.getenv_env _ s.host ∙ he, H.getenv_files _ s.host ∙ hf),
          H.getenv_reads _ v s.host r ∙ ap (λ g. g "PATH") he,
        ))
        (λ s (he, hf) q ne. ap (λ g. g q) (H.getenv_files _ s.host ∙ hf) ∙ rw ne refl)

  set-Triple :
      (binary dir : String)
      → Triple
          (Host H e (with_runc binary dir))
          (call (S.processes.setenv "PATH" (dir <> (":" <> e "PATH"))))
          (λ _. Host H (with_path dir) (with_runc binary dir))
          (Elsewhere dir)
  unfolding call
  set-Triple binary dir =
      Triple-at _
        (λ s (he, hf) u r.
          (H.setenv_sets _ _ s.host r ∙ ap (set_key _ _) he, H.setenv_files _ _ s.host ∙ hf))
        (λ s (he, hf) q ne. ap (λ g. g q) (H.setenv_files _ _ s.host ∙ hf) ∙ rw ne refl)

  install_in-Triple :
      (binary dir : String)
      → Triple
          (Host H e f)
          (install_in S binary dir)
          (λ _. Host H (with_path dir) (with_runc binary dir))
          (Elsewhere dir)
  unfolding install_in
  install_in-Triple binary dir = Triple-bind (Triple-or_fail _ (write-Triple binary dir)) λ _.
      Triple-bind (path-Triple binary dir) λ v. Triple-given λ same. rw same (set-Triple binary dir)

  -- The directory's `runc` is the binary and executable, PATH begins with the directory, all else of
  -- both is as it was, and the search for runc finds that file.
  abbrev pub IsInstalled : String → String → State W → Type 0
  IsInstalled binary dir s =
      Host H (with_path dir) (with_runc binary dir) s
      × ((S.processes.look_path "runc" s.host).0 ≡ ok (runc_path dir))

  found-Post :
      (binary dir : String)
      → IsMade S dir
      → (o : Outcome (Unit {0})) (s : State W)
      → Post (λ _. Host H (with_path dir) (with_runc binary dir)) (Elsewhere dir) o s
      → Post (λ _. IsInstalled binary dir) (Elsewhere dir) o s
  found-Post binary dir made (ok u) s h = (
    h,
    H.look_first dir (e "PATH") binary "runc" s.host made (ap (λ g. g "PATH") h.0)
        (ap (λ g. g (runc_path dir)) h.1 ∙ rw (eq_refl (runc_path dir)) refl),
  )
  found-Post binary dir made (err x) s h = h
  found-Post binary dir made (halt n) s h = h
  found-Post binary dir made panic s h = h
  found-Post binary dir made diverge s h = h

  -- What the directory and the error that come back say of the state.
  abbrev pub Installs : String → String × Outcome (Unit {0}) → State W → Type 0
  Installs binary (dir, o) s = Post (λ _. IsInstalled binary dir) (Elsewhere dir) o s

  install_after-Triple :
      (binary : String) (o : Outcome String)
      → ((dir : String) → o ≡ ok dir → IsMade S dir)
      → Triple (Host H e f) (install_after S binary o) (Installs binary) (λ _. Unit)
  unfolding install_after lift
  install_after-Triple binary (ok dir) made =
      Triple-bind (Triple-lax (Triple-attempt (install_in-Triple binary dir)))
        λ done. Triple-pure _ (λ s h. found-Post binary dir (made dir refl) done s h)
  install_after-Triple binary (err x) made = Triple-pure _ (λ s h q ne. ap (λ g. g q) h.1)
  install_after-Triple binary (halt n) made = record { at = λ s h. tt }
  install_after-Triple binary panic made = record { at = λ s h. tt }
  install_after-Triple binary diverge made = record { at = λ s h. tt }

  -- Where the program embeds runc: if InstallRuncBinary returns a directory and no error, the
  -- directory's runc is the embedded binary with mode 0755, PATH is the directory and then the old
  -- PATH, no other file and no other variable has changed, and LookPath then finds that file; if it
  -- returns a directory and an error, no file but the directory's runc has changed.
  pub install_runc_binary-Installs :
      (binary : String)
      → S.processes.asset "runc" ≡ ok binary
      → Triple (Host H e f) (install_runc_binary S) (Installs binary) (λ _. Unit)
  unfolding install_runc_binary install_asset call
  install_runc_binary-Installs binary embedded = rw embedded (
      Triple-bind
        (Triple-outcome {Q = λ o s. Host H e f s × ((dir : String) → o ≡ ok dir → IsMade S dir)} _
          (λ s (he, hf).
            ((H.temp_env _ s.host ∙ he, H.temp_files _ s.host ∙ hf), λ dir r. (s.host, r))))
        λ o. Triple-given λ made. install_after-Triple binary o made)
