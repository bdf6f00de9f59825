-- ===== src/Main/Whole.antt =====
-- What `main` adds to a command's `Run`: in the process that the program started in its namespace it
-- only prints.
use img.Common.{String, true, false, List, [], ◌∷◌, ◌≡◌, refl, ◌==◌, ◌∙◌, Bool-cases, inl, inr}
use img.Common.Exec.{Outcome, ok, err, halt, panic, diverge, exit, pure, ◌>>=◌}
use img.Common.Output.{Line}
use img.Common.Triple.{
  Triple, Keeps, Post, Triple-bind, Triple-pure, Triple-given, Triple-attempt, Triple-exit,
  Triple-relax,
}
use img.Services.{Services}
use img.Services.Laws.{Tags, IsLawful}
use img.Client.{State, call, lift, print}
use img.Command.{Globals}
use img.Command.Tag.Names.{Named, Keeps-names}
use img.Flag
use img.Flag.{Parsed}
use img.Flag.Laws.{parse-plain}
use img.Reexec.{Watch, euid_test, unshare_test, needs_reexec, reexec}
use img.Main.{finish, run_command, run_with_runc, runc_ready, run_parsed, contains}
use img.Backend.{auto_backend}
use img.Main.Interface.{Command, default_state_directory, parse_flags, parsed_or_exit}

-- The flags as they are where none is given.
abbrev pub defaults : Globals
defaults = record { backend = auto_backend; state_dir = default_state_directory; debug = false }

abbrev pub given : List String → Parsed
given args = record { settings = []; args = args }

module _ {W : Type 0} (S : Services W) (watch : Watch) (all : List (Command W)) where
  -- What holds after a command holds after the lines of `main` that run it: they only print.
  pub run_command-Triple :
      (c : Command W) (g : Globals) (settings : List (String × String)) (args : List String)
      {P Q E : State W → Type 0}
      → Triple P (c.run g settings args) (λ _. Q) E
      → ((line : Line) → Keeps E (print line))
      → Triple P (run_command S watch all c g settings args) (λ _. Q) E
  unfolding run_command finish exit lift ◌>>=◌
  run_command-Triple c g settings args {Q = Q} {E = E} t stable =
      Triple-bind (Triple-attempt t) finished
    where
      finished :
          (o : Outcome (Unit {0})) → Triple (Post (λ _. Q) E o) (finish S watch all o) (λ _. Q) E
      finished (ok u) = Triple-pure tt (λ s h. h)
      finished (err e) = Triple-bind (stable _) λ _. Triple-exit 1
      finished (halt n) = record { at = λ s h. h }
      finished panic = record { at = λ s h. h }
      finished diverge = record { at = λ s h. h }

module _ {W : Type 0} {S : Services W} (L : IsLawful S) (t : Tags)
    (child : (w : W) → (S.processes.getenv "IMG_DO_UNSHARE" w).0 ≡ ok "1") where
  needs_reexec-names :
      Triple (Named L t) (needs_reexec S) (λ b s. Named L t s × (b ≡ false)) (Named L t)
  unfolding needs_reexec unshare_test euid_test call
  needs_reexec-names = Triple-bind (Keeps-names L t _ (L.getenv_quiet _)) λ testing.
      elim (Bool-cases (testing == "")) [
        | inl e ↦ rw e (
            Triple-bind marked
              λ v. Triple-given λ one. rw one (Triple-pure false (λ s h. (h, refl))))
        | inr e ↦ rw e (Triple-pure false (λ s h. (h, refl)))
      ]
    where
      marked :
          Triple
            (Named L t)
            (call (S.processes.getenv "IMG_DO_UNSHARE"))
            (λ v s. Named L t s × (v ≡ "1"))
            (Named L t)
      marked = record { at = λ s h. rw (child s.host) (L.getenv_quiet _ s.host ∙ h, refl) }

  pub reexec-names : (watch : Watch) (argv : List String) → Keeps (Named L t) (reexec S watch argv)
  unfolding reexec
  reexec-names watch argv =
      Triple-bind needs_reexec-names λ b. Triple-given λ no. rw no (Triple-pure tt (λ s h. h))

module _ {W : Type 0} {S : Services W} (L : IsLawful S) (t : Tags)
    (child : (w : W) → (S.processes.getenv "IMG_DO_UNSHARE" w).0 ≡ ok "1") (watch : Watch)
    (all : List (Command W)) (c : Command W) where
  ready-names : Triple (Named L t) (pure true) (λ b s. Named L t s × (b ≡ true)) (Named L t)
  ready-names = Triple-pure true (λ s h. (h, refl))

  -- A command that needs no runc.
  pub run_parsed-Triple :
      (argv args : List String) {Q E : State W → Type 0}
      → c.description.do_reexec ≡ true
      → c.description.requires_runc ≡ false
      → Triple (Named L t) (c.run defaults [] args) (λ _. Q) E
      → ((s : State W) → Named L t s → E s)
      → ((line : Line) → Keeps E (print line))
      → Triple (Named L t) (run_parsed S watch all argv c (given args)) (λ _. Q) E
  unfolding run_parsed run_with_runc runc_ready contains Flag.setting
  run_parsed-Triple argv args reexecs light run early stable =
      rw (reexecs, light)
        (Triple-bind (Triple-pure tt (λ s h. h)) λ _.
          Triple-bind (Triple-relax early (reexec-names L t child watch _)) λ _.
            Triple-bind (Triple-relax early ready-names) λ ready.
              Triple-given
                λ yes. rw yes (run_command-Triple S watch all c defaults [] args run stable))

  pub parse_flags-given :
      (arg : String) (args : List String)
      → Flag.shape arg ≡ Flag.plain
      → Triple
          (Named L t)
          (parse_flags c (arg ∷ args))
          (λ p s. Named L t s × (p ≡ given (arg ∷ args)))
          (Named L t)
  unfolding parse_flags parsed_or_exit lift ◌>>=◌
  parse_flags-given arg args plain_arg =
      rw (parse-plain (Flag.kind_of _) arg args plain_arg) (record { at = λ s h. (h, refl) })
