-- ===== src/Examples/Refusing.antt =====
-- The whole program where it refuses to run a command, in the host in memory.
use img.Common.{arith, String, true, false, List, [], ◌∷◌, ◌≡◌, refl, eq_iff, ◌⊎◌, inl, inr}
use img.Common.Output.{text, logged}
use img.Command.{Globals}
use img.Fixture.Data.{running}
use img.Main.{contains}
use img.Main.Commands.{program}
use img.Main.Refusing.{
  IsOneOf, names, usage_lines, no_such, Refused, program-unknown, program-invalid,
}
use img.Main.Words.{global_words}
use img.Examples.Commands.{host}

absent : (ns : List String) (name : String) → contains ns name ≡ false → ¬ IsOneOf ns name
unfolding contains
absent [] name e h = h
absent (n ∷ ns) name e (inl same) = let yes = (eq_iff n name).1 (cc) in absurd (ground arith)
absent (n ∷ ns) name e (inr later) = absent ns name (ground arith) later

bogus : contains names "bogus" ≡ false
unfolding contains
bogus = refl

abbrev behind : List String
behind = "a" ∷ []

program-unknown_example :
    Refused (no_such "bogus" ∷ usage_lines) running (program host ("bogus" ∷ behind) running)
    ⊎ ((behind ≡ []) × Refused usage_lines running (program host ("bogus" ∷ behind) running))
program-unknown_example = program-unknown host "bogus" behind running (absent names "bogus" bogus)

abbrev odd : Globals
odd = record { backend = "zfs"; state_dir = "/tmp/img"; debug = true }

program-invalid_example :
    Refused
      (logged "%s is not a valid snapshots backend" (text "zfs" ∷ []) ∷ [])
      (record running { verbose = true })
      (program host ("build" ∷ global_words odd ("--" ∷ "." ∷ [])) running)
program-invalid_example =
    program-invalid host "build" odd ("." ∷ []) running (inl refl) (λ e. cc) (λ e. cc) (λ e. cc)
