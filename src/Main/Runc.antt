-- ===== src/Main/Runc.antt =====
-- What `main` adds to the `Run` of a command that needs runc: the embedded one is installed where the
-- host has none, and its directory is removed behind the command.
use img.Common.{String, Bool, true, false, List, ◌≡◌}
use img.Common.Exec.{Outcome, ok, err, halt, panic, diverge, exit, modify}
use img.Common.Group.Carried.{Triple-defer}
use img.Common.Output.{Line}
use img.Common.Triple.{
  Triple, Keeps, Triple-bind, Triple-pure, Triple-given, Triple-exit, Triple-relax, Triple-modify,
  Keeps-attempt,
}
use img.Services.{Services}
use img.Services.Laws.{Tags, IsLawful}
use img.Services.Scratch.{IsScratch}
use img.Backend.{valid_backends}
use img.Binutils.Names.{IsRemovable, runc_binary_exists-Keeps, install_runc_binary-Triple}
use img.Client.{State, call, lift, print, fatal}
use img.Client.Sessions.{IsSeen, Keeps-seen, Post-seen}
use img.Command.{Globals}
use img.Command.Tag.Names.{Named, Keeps-names}
use img.Flag.{Parsed}
use img.Reexec.{Watch}
use img.Main.{run_installed, run_with_runc, runc_ready, run_parsed, contains}
use img.Main.Interface.{Command, globals}
use img.Main.Whole.{run_command-Triple, reexec-names}

module _ {W : Type 0} {S : Services W} {L : IsLawful S} (M : IsScratch L) (t : Tags) (watch : Watch)
    (all : List (Command W)) (c : Command W) {Q E : State W → Type 0} (seen : IsSeen L Q)
    (seen_late : IsSeen L E) (early : (s : State W) → Named L t s → E s)
    (stable : (line : Line) → Keeps E (print line)) where
  run_installed-Triple :
      (g : Globals) (settings : List (String × String)) (args : List String) (dir : String)
      (o : Outcome (Unit {0}))
      → IsRemovable M t dir
      → Triple (Named L t) (c.run g settings args) (λ _. Q) E
      → Triple (Named L t) (run_installed S watch all c g settings args (dir, o)) (λ _. Q) E
  unfolding run_installed fatal print modify exit lift
  run_installed-Triple g settings args dir (ok u) removable run =
      Triple-defer (λ _. Q) E (call (S.files.remove_all dir))
        (λ b. Keeps-seen L _ (Post-seen L (λ _. seen) seen_late b) removable)
        (run_command-Triple S watch all c g settings args run stable)
  run_installed-Triple g settings args dir (err e) removable run = Triple-relax early (
      Triple-bind (Keeps-attempt (Keeps-names L t _ removable))
        λ _. Triple-bind (Triple-modify _ (λ s h. h)) λ _. Triple-exit 1)
  run_installed-Triple g settings args dir (halt n) removable run = record { at = λ s h. early s h }
  run_installed-Triple g settings args dir panic removable run = record { at = λ s h. early s h }
  run_installed-Triple g settings args dir diverge removable run = record { at = λ s h. early s h }

  -- A command that asks for the re-execution and for runc.
  pub run_parsed-Runc :
      (argv : List String) (p : Parsed)
      → c.description.do_reexec ≡ true
      → c.description.requires_runc ≡ true
      → contains valid_backends (globals p.settings).backend ≡ true
      → ((w : W) → (S.processes.getenv "IMG_DO_UNSHARE" w).0 ≡ ok "1")
      → Triple (Named L t) (c.run (globals p.settings) p.settings p.args) (λ _. Q) E
      → Triple (Named L t) (run_parsed S watch all argv c p) (λ _. Q) E
  unfolding run_parsed runc_ready run_with_runc
  run_parsed-Runc argv p reexecs needs valid child run =
      rw (reexecs, needs, valid)
        (Triple-bind (Triple-pure {Q = λ _. Named L t} tt (λ s h. h)) λ _.
          Triple-bind (Triple-relax early (reexec-names L t child watch argv)) λ _.
            Triple-bind (Triple-relax early (runc_binary_exists-Keeps M t))
              λ ready. with_runc ready)
    where
      with_runc :
          (ready : Bool)
          → Triple
              (Named L t)
              (run_with_runc S watch all c (globals p.settings) p.settings p.args ready)
              (λ _. Q)
              E
      with_runc true = run_command-Triple S watch all c _ _ _ run stable
      with_runc false =
          Triple-bind (Triple-relax early (install_runc_binary-Triple M t))
            λ (dir, o). Triple-given λ removable. run_installed-Triple _ _ _ dir o removable run
