-- ===== src/Build/Cleanup.antt =====
-- What `img build` read from the standard input is removed when `Run` is left.
use img.Common.{ℕ, String, true, false, List, [], ◌∷◌, ap, ◌≡◌, ◌==◌, refl}
use img.Common.Exec.{
  Exec, Outcome, ok, err, halt, panic, diverge, Error, caused, ◌>>=◌, or_fail, defer, after,
}
use img.Services.{Services}
use img.Client.{State, call}
use img.Command.{Globals}
use img.Build.{BuildCommand}
use img.Build.Stdin.{dockerfile_from_stdin}
use img.Build.Run.{Request, build_context, run_build}

-- The ways out of a function on which its deferred calls run.
abbrev pub Unwinds : {A : Type 0} → Outcome A → Type 0
Unwinds (ok a) = Unit
Unwinds (err e) = Unit
Unwinds (halt n) = ⊥
Unwinds panic = Unit
Unwinds diverge = ⊥

module _ {S B : Type 0} where
  after-last :
      (d : Exec S (Unit {0})) (o : Outcome B) (s : S)
      → Unwinds (after o d s).0
      → (after o d s).1 ≡ (d s).1
  after-last d (ok b) s h = refl
  after-last d (err e) s h = refl
  after-last d (halt n) s h = absurd h
  after-last d panic s h = refl
  after-last d diverge s h = absurd h

module _ {S A B : Type 0} where
  -- A call whose undoing is deferred: the undoing comes last.
  undone-last :
      (wrap : Error → Error) (m : Exec S A) (undo : A → Exec S (Unit {0})) (body : A → Exec S B)
      (a : A) (s : S)
      → (m s).0 ≡ ok a
      → Unwinds ((or_fail wrap m >>= λ x. defer (undo x) (body x)) s).0
      → (t : S) × (((or_fail wrap m >>= λ x. defer (undo x) (body x)) s).1 ≡ (undo a t).1)
  unfolding ◌>>=◌
  undone-last wrap m undo body a s e =
      rw e (λ h. ((body a (m s).1).1, after-last (undo a) (body a (m s).1).0 (body a (m s).1).1 h))

module _ {W : Type 0} (S : Services W) (fuel : ℕ) (solve : Request → Exec (State W) (Unit {0}))
    (g : Globals) (cmd : BuildCommand) where
  -- `img build -t NAME -f -` where the name is not empty: when the Dockerfile was read from the standard
  -- input into a temporary file, and `Run` is left in any way but the end of the process, the last call
  -- to the host is the one that removes the file.
  pub run_build-removes_dockerfile :
      (path dir : String) (rest : List String) (s : State W)
      → (cmd.tag == "") ≡ false
      → (cmd.dockerfile_path == "-") ≡ true
      → (dockerfile_from_stdin S s).0 ≡ ok path
      → Unwinds (run_build S fuel solve g cmd (dir ∷ rest) s).0
      → (w : W) × ((run_build S fuel solve g cmd (dir ∷ rest) s).1.host
          ≡ (S.files.remove_all path w).1)
  unfolding run_build call
  run_build-removes_dockerfile path dir rest s tagged stdin e =
      rw (tagged, stdin)
        (λ h.
          let (t, last) =
            undone-last (caused "reading dockerfile from stdin failed: %v" [])
              (dockerfile_from_stdin S) (λ p. call (S.files.remove_all p))
              (λ p. build_context S fuel solve g cmd dir p) path s e h in
          (t.host, ap (λ u. u.host) last))
