-- ===== src/Main/Refusing.antt =====
-- The whole program where it refuses to run a command: an unknown name, and an odd backend.
use img.Common.{
  String, Bool-cases, true, false, none, some, List, [], ◌∷◌, ◌++◌, ◌≡◌, ◌≢◌, refl, arith, ap, sym,
  ◌∙◌, ◌==◌, eq_iff, if◌then◌else◌, ◌⊎◌, inl, inr, map,
}
use mathlib.Core.Path.{subst}
use mathlib.Core.List.{append-nil, append_assoc}
use img.Backend.{valid_backends}
use img.Common.Exec.{Outcome, ok, halt, ◌>>=◌}
use img.Common.Output.{Line, text, stderr, logged}
use img.Common.Text.{cut}
use img.Client.{State, lift, print, fatal}
use img.Command.{Globals}
use img.Flag
use img.Flag.{Spec, Parsed}
use img.Main.{contains, asks_help, find, main, set_level}
use img.Main.Commands.{Setup, commands, program}
use img.Main.Interface.{Command, globals, flag_set, parse_flags}
use img.Main.Words.{global_words, plain_line, parse-global_words, globals-plain_line}

-- The text is one of the list.
abbrev pub IsOneOf : List String → String → Type 0
IsOneOf [] name = ⊥
IsOneOf (n ∷ ns) name = (name ≡ n) ⊎ IsOneOf ns name

-- The commands, each with its line of help.
abbrev pub listed : List (String × String)
listed =
    ("build", "Build an image from a Dockerfile.")
    ∷ ("du", "Show image disk usage.")
    ∷ ("ls", "List images and digests.")
    ∷ ("login", "Log in to a Docker registry.")
    ∷ ("pull", "Pull an image or a repository from a registry.")
    ∷ ("push", "Push an image or a repository to a registry.")
    ∷ ("rm", "Remove one or more images.")
    ∷ ("save", "Save an image to a tar archive (streamed to STDOUT by default).")
    ∷ ("tag", "Create a tag TARGET_IMAGE that refers to SOURCE_IMAGE.")
    ∷ ("version", "Show the version information.")
    ∷ []

abbrev pub names : List String
names = map (λ (c : String × String). c.0) listed

abbrev pub usage_lines : List Line
usage_lines =
    stderr "Usage: %s <command>\n" (text "img" ∷ [])
    ∷ stderr "\n" []
    ∷ stderr "Commands:\n" []
    ∷ stderr "\n" []
    ∷ (map (λ (c : String × String). stderr "\t%s\t%s\n" (text c.0 ∷ text c.1 ∷ [])) listed
        ++ (stderr "\n" [] ∷ []))

module _ {W : Type 0} where
  find-none :
      (name : String) (cs : List (Command W))
      → ¬ IsOneOf (map (λ c. c.description.name) cs) name
      → find name cs ≡ none
  unfolding find
  find-none name [] h = refl
  find-none name (c ∷ cs) h = elim (Bool-cases (name == c.description.name)) [
    | inl e ↦ absurd (h (inl ((eq_iff name c.description.name).0 e)))
    | inr e ↦ rw e (find-none name cs (λ later. h (inr later)))
  ]

  find-some :
      (name : String) (cs : List (Command W))
      → IsOneOf (map (λ c. c.description.name) cs) name
      → (c : Command W) × (find name cs ≡ some c)
  unfolding find
  find-some name [] h = absurd h
  find-some name (c ∷ cs) h = elim (Bool-cases (name == c.description.name)) [
    | inl e ↦ rw e (c, refl)
    | inr e ↦ elim h [
      | inl same ↦ let yes = (eq_iff name c.description.name).1 same in absurd (cc)
      | inr later ↦ rw e (find-some name cs later)
    ]
  ]

-- What is printed one after the other.
abbrev snoc_all : List Line → List Line → List Line
snoc_all before [] = before
snoc_all before (l ∷ ls) = snoc_all (before ++ (l ∷ [])) ls

snoc_all-append : (before ls : List Line) → snoc_all before ls ≡ before ++ ls
snoc_all-append before [] = sym (append-nil before)
snoc_all-append before (l ∷ ls) = snoc_all-append (before ++ (l ∷ [])) ls ∙ append_assoc before _ _

abbrev pub no_such : String → Line
no_such name = stderr "%s: no such command\n" (text name ∷ [])

-- The end of the process with status 1 behind these lines, and nothing else.
abbrev pub Refused : {W : Type 0} → List Line → State W → Outcome (Unit {0}) × State W → Type 0
Refused lines s r = r ≡ (halt 1, record s { out = s.out ++ lines })

module _ {W : Type 0} (H : Setup W) where
  names-commands : map (λ (c : Command W). c.description.name) (commands H) ≡ names
  names-commands = refl

  unknown : (name : String) → ¬ IsOneOf names name → find name (commands H) ≡ none
  unknown name h = find-none name (commands H) h

  -- Whatever follows it and whatever the state is, a first word that is none of the names of the ten
  -- commands ends the process with status 1 and leaves all but the output as it was. Printed is that
  -- there is no such command, and behind it the usage text with one line for each of the ten; where
  -- nothing follows the word, it may be the usage text alone.
  pub program-unknown :
      (name : String) (rest : List String) (s : State W)
      → ¬ IsOneOf names name
      → Refused (no_such name ∷ usage_lines) s (program H (name ∷ rest) s)
        ⊎ ((rest ≡ []) × Refused usage_lines s (program H (name ∷ rest) s))
  unfolding program main print ◌>>=◌
  program-unknown name [] s h = elim (Bool-cases (asks_help name)) [
    | inl e ↦ inr (refl, rw (e, ← snoc_all-append s.out usage_lines) refl)
    | inr e ↦
        inl (rw (e, unknown name h, ← snoc_all-append s.out (no_such name ∷ usage_lines)) refl)
  ]
  program-unknown name (word ∷ rest) s h =
      inl (rw (unknown name h, ← snoc_all-append s.out (no_such name ∷ usage_lines)) refl)

  no_backend :
      (b : String) → b ≢ "auto" → b ≢ "native" → b ≢ "overlayfs" → contains valid_backends b ≡ false
  unfolding contains
  no_backend b a n o = ground (arith, eq_iff "auto" b, eq_iff "native" b, eq_iff "overlayfs" b)

  module _ (name : String) (word : String) (rest : List String) (s : State W) where
    -- Where the command is found, its flags parse and the backend is refused.
    stopped :
        (c : Command W) (p : Parsed) (g : Globals)
        → find name (commands H) ≡ some c
        → Flag.parse (Flag.kind_of (flag_set c)) (word ∷ rest) ≡ ok p
        → globals p.settings ≡ g
        → contains valid_backends g.backend ≡ false
        → Refused
            (logged "%s is not a valid snapshots backend" (text g.backend ∷ []) ∷ [])
            (record s { verbose = if g.debug then true else s.verbose })
            (program H (name ∷ word ∷ rest) s)
    unfolding program main set_level lift parse_flags print fatal ◌>>=◌
    stopped c p g found parsed same invalid =
        let invalid' : contains valid_backends (globals p.settings).backend ≡ false =
          ap (λ (u : Globals). contains valid_backends u.backend) same ∙ invalid in
        subst
          (λ u.
            Refused (logged "%s is not a valid snapshots backend" (text u.backend ∷ []) ∷ [])
              (record s { verbose = if u.debug then true else s.verbose })
              (program H (name ∷ word ∷ rest) s))
          same (rw (found, parsed, invalid') refl)

  -- Each of the ten commands, whatever its arguments, with all global flags and a backend that is none of
  -- the three, from any state: the process ends with status 1, all that is printed is the message on the
  -- backend, and nothing else changes but the log level, as -d says.
  pub program-invalid :
      (name : String) (g : Globals) (args : List String) (s : State W)
      → IsOneOf names name
      → g.backend ≢ "auto"
      → g.backend ≢ "native"
      → g.backend ≢ "overlayfs"
      → Refused
          (logged "%s is not a valid snapshots backend" (text g.backend ∷ []) ∷ [])
          (record s { verbose = if g.debug then true else s.verbose })
          (program H (name ∷ global_words g ("--" ∷ args)) s)
  unfolding Flag.parse Flag.kind_of cut
  program-invalid name g args s h a n o =
      let (c, found) = find-some name (commands H) h in
      stopped name "-state" _ s c (plain_line g args) g found
        (parse-global_words c.register g ("--" ∷ args) (record { settings = []; args = args }) refl)
        (globals-plain_line g args) (no_backend g.backend a n o)
