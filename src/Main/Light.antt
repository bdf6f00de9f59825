-- ===== src/Main/Light.antt =====
-- The whole program as a command that needs no runc, from what holds of the command's `Run`.
use mathlib.Core.Path.{subst}
use img.Common.{
  sym, ap, ◌∙◌, String, true, false, some, List, ◌∷◌, ◌≡◌, refl, ◌==◌, if◌then◌else◌, Bool-cases,
  inl, inr,
}
use img.Common.Exec.{Outcome, ok, err, halt, panic, diverge, pure, ◌>>=◌}
use img.Common.Output.{Line}
use img.Common.Triple.{Triple, Keeps, Post, Triple-bind, Triple-pure, Triple-given}
use img.Backend.{valid_backends}
use img.Services.{Services}
use img.Client.{State, call, lift, print}
use img.Command.{Globals}
use img.Flag
use img.Flag.{Parsed}
use img.Main.{contains, find, is_help, main, run_parsed, run_with_runc, runc_ready, set_level}
use img.Main.Interface.{Command, globals, flag_set, parse_flags, parsed_or_exit}
use img.Main.Whole.{run_command-Triple}
use img.Reexec.{Watch, euid_test, unshare_test, needs_reexec, reexec}

module _ {W : Type 0} (S : Services W) (P E : State W → Type 0)
    (reads : (v : String) → Triple P (call (S.processes.getenv v)) (λ _. P) E)
    (child : (w : W) → (S.processes.getenv "IMG_DO_UNSHARE" w).0 ≡ ok "1") where
  one-Post :
      (o : Outcome String) (s : State W)
      → o ≡ ok "1"
      → Post (λ _. P) E o s
      → Post (λ v st. P st × (v ≡ "1")) E o s
  one-Post (ok v) s e h = (h, cc)
  one-Post (err x) s e h = h
  one-Post (halt n) s e h = h
  one-Post panic s e h = h
  one-Post diverge s e h = h

  marked : Triple P (call (S.processes.getenv "IMG_DO_UNSHARE")) (λ v s. P s × (v ≡ "1")) E
  unfolding call
  marked = record { at = λ s h. one-Post _ _ (child s.host) ((reads "IMG_DO_UNSHARE").at s h) }

  needs_reexec-false : Triple P (needs_reexec S) (λ b s. P s × (b ≡ false)) E
  unfolding needs_reexec unshare_test euid_test
  needs_reexec-false = Triple-bind (reads _) λ testing. elim (Bool-cases (testing == "")) [
    | inl e ↦
        rw e (
          Triple-bind marked λ v. Triple-given λ one. rw one (Triple-pure false (λ s h. (h, refl))))
    | inr e ↦ rw e (Triple-pure false (λ s h. (h, refl)))
  ]

  -- In the process that the program started in its namespace, `reexec` comes back.
  pub reexec-Light :
      (watch : Watch) (argv : List String) → Triple P (reexec S watch argv) (λ _. P) E
  unfolding reexec
  reexec-Light watch argv =
      Triple-bind needs_reexec-false λ b. Triple-given λ no. rw no (Triple-pure tt (λ s h. h))

module _ {W : Type 0} (c : Command W) {P E : State W → Type 0} where
  parse_flags-parsed :
      (rest : List String) (p : Parsed)
      → Flag.parse (Flag.kind_of (flag_set c)) rest ≡ ok p
      → Triple P (parse_flags c rest) (λ p' s. P s × (p' ≡ p)) E
  unfolding parse_flags parsed_or_exit lift ◌>>=◌
  parse_flags-parsed rest p e = rw e (record { at = λ s h. (h, refl) })

module _ {W : Type 0} (S : Services W) (watch : Watch) (all : List (Command W)) (c : Command W)
    {P Q E : State W → Type 0} (stable : (line : Line) → Keeps E (print line)) where
  run_parsed-Light :
      (argv : List String) (p : Parsed)
      → c.description.requires_runc ≡ false
      → contains valid_backends (globals p.settings).backend ≡ true
      → Triple P (if c.description.do_reexec then reexec S watch argv else pure tt) (λ _. P) E
      → Triple P (c.run (globals p.settings) p.settings p.args) (λ _. Q) E
      → Triple P (run_parsed S watch all argv c p) (λ _. Q) E
  unfolding run_parsed run_with_runc runc_ready
  run_parsed-Light argv p light valid comes run =
      rw (light, valid)
        (Triple-bind (Triple-pure {Q = λ _. P} tt (λ s h. h)) λ _. Triple-bind comes λ _.
          Triple-bind (Triple-pure {Q = λ b s. P s × (b ≡ true)} true (λ s h. (h, refl)))
            λ ready. Triple-given λ yes. rw yes (run_command-Triple S watch all c _ _ _ run stable))

  -- The first word finds the command, and the words behind it parse and give the global flags.
  pub main-Light :
      (name : String) (rest : List String) (p : Parsed) (g : Globals)
      → is_help name rest ≡ false
      → find name all ≡ some c
      → Flag.parse (Flag.kind_of (flag_set c)) rest ≡ ok p
      → globals p.settings ≡ g
      → c.description.requires_runc ≡ false
      → contains valid_backends g.backend ≡ true
      → Triple P (set_level g.debug) (λ _. P) E
      → Triple P
          (if c.description.do_reexec then reexec S watch (name ∷ rest) else pure tt)
          (λ _. P)
          E
      → Triple P (c.run g p.settings p.args) (λ _. Q) E
      → Triple P (main S watch all (name ∷ rest)) (λ _. Q) E
  unfolding main
  main-Light name rest p g no_help found parses same light valid level comes run =
      let level' : Triple P (set_level (globals p.settings).debug) (λ _. P) E =
        subst (λ u. Triple P (set_level u.debug) (λ _. P) E) (sym same) level in
      let run' : Triple P (c.run (globals p.settings) p.settings p.args) (λ _. Q) E =
        subst (λ u. Triple P (c.run u p.settings p.args) (λ _. Q) E) (sym same) run in
      let valid' = ap (λ (u : Globals). contains valid_backends u.backend) same ∙ valid in
      rw no_help (
        rw found (
          Triple-bind (parse_flags-parsed c rest p parses) λ p'. Triple-given λ e.
            rw e
              (Triple-bind level' λ _. run_parsed-Light (name ∷ rest) p light valid' comes run')))
