-- ===== src/Main/Words.antt =====
-- Command lines that give the global flags, and those of `img ls`, `img du` and `img login`.
use mathlib.Core.List.{append-nil, append_assoc}
use img.Flag.Slice.{set_all}
use img.Common.{sym, ◌==◌, ◌∙◌, String, Bool, true, false, List, [], ◌∷◌, ◌++◌, ◌≡◌, refl, ap}
use img.Common.Exec.{ok}
use img.Common.Text.{cut}
use img.Command.{Globals}
use img.Command.Listing.{list_flags}
use img.Command.Usage.{usage_flags}
use img.Flag
use img.Flag.{Parsed, Spec, add_setting}
use img.Login.{LoginCommand, login_flags}
use img.Main.CommandLine.{debug_words, debug_text}
use img.Main.Commands.{Setup, list_command, usage_command, login_command, login_fields}
use img.Main.Interface.{globals, global_flags, flag_set}

-- The global flags, each in both of the ways to give a value.
abbrev pub global_words : Globals → List String → List String
global_words g rest = "-state" ∷ g.state_dir ∷ "--backend" ∷ g.backend ∷ debug_words g.debug rest

abbrev pub global_settings : Globals → List (String × String) → List (String × String)
global_settings g more =
    ("state", g.state_dir) ∷ ("backend", g.backend) ∷ ("d", debug_text g.debug) ∷ more

parse-debug :
    (own : List Spec) (b : Bool) (rest : List String) (p : Parsed)
    → Flag.parse (Flag.kind_of (global_flags ++ own)) rest ≡ ok p
    → Flag.parse (Flag.kind_of (global_flags ++ own)) (debug_words b rest)
      ≡ ok (record p { settings = ("d", debug_text b) ∷ p.settings })
unfolding Flag.parse Flag.kind_of cut
parse-debug own true rest p e = ap (add_setting "d" "true") e
parse-debug own false rest p e = ap (add_setting "d" "false") e

pub parse-global_words :
    (own : List Spec) (g : Globals) (rest : List String) (p : Parsed)
    → Flag.parse (Flag.kind_of (global_flags ++ own)) rest ≡ ok p
    → Flag.parse (Flag.kind_of (global_flags ++ own)) (global_words g rest)
      ≡ ok (record p { settings = global_settings g p.settings })
unfolding Flag.parse Flag.kind_of cut
parse-global_words own g rest p e =
    ap (λ r. add_setting "state" g.state_dir (add_setting "backend" g.backend r))
      (parse-debug own g.debug rest p e)

-- A command with no flags of its own, and its arguments behind `--`.
abbrev pub plain_line : Globals → List String → Parsed
plain_line g args = record { settings = global_settings g []; args = args }

pub parse-plain_line :
    (g : Globals) (args : List String)
    → Flag.parse (Flag.kind_of (global_flags ++ [])) (global_words g ("--" ∷ args))
      ≡ ok (plain_line g args)
unfolding Flag.parse Flag.kind_of cut
parse-plain_line g args = parse-global_words [] g ("--" ∷ args) _ refl

-- `img ls`: one `-f` for each filter.
abbrev pub filter_words : List String → List String → List String
filter_words [] rest = "--" ∷ rest
filter_words (f ∷ fs) rest = "-f" ∷ f ∷ filter_words fs rest

abbrev pub filter_settings : List String → List (String × String)
filter_settings [] = []
filter_settings (f ∷ fs) = ("f", f) ∷ filter_settings fs

abbrev pub list_line : Globals → List String → List String → Parsed
list_line g fs args = record { settings = global_settings g (filter_settings fs); args = args }

parse-filter_words :
    {W : Type 0} (H : Setup W) (fs args : List String)
    → Flag.parse (Flag.kind_of (flag_set (list_command H))) (filter_words fs args)
      ≡ ok (record { settings = filter_settings fs; args = args })
unfolding Flag.parse Flag.kind_of list_flags cut
parse-filter_words H [] args = refl
parse-filter_words H (f ∷ fs) args = ap (add_setting "f" f) (parse-filter_words H fs args)

pub parse-list :
    {W : Type 0} (H : Setup W) (g : Globals) (fs args : List String)
    → Flag.parse (Flag.kind_of (flag_set (list_command H))) (global_words g (filter_words fs args))
      ≡ ok (list_line g fs args)
parse-list H g fs args = parse-global_words list_flags g _ _ (parse-filter_words H fs args)

-- `img du`
abbrev pub usage_line : Globals → String → List String → Parsed
usage_line g filter args = record { settings = global_settings g (("f", filter) ∷ []); args = args }

pub parse-usage :
    {W : Type 0} (H : Setup W) (g : Globals) (filter : String) (args : List String)
    → Flag.parse
        (Flag.kind_of (flag_set (usage_command H)))
        (global_words g ("-f" ∷ filter ∷ "--" ∷ args))
      ≡ ok (usage_line g filter args)
unfolding Flag.parse Flag.kind_of cut
parse-usage H g filter args = parse-global_words usage_flags g _ _ refl

-- `img login`
abbrev pub stdin_word : Bool → String
stdin_word true = "-password-stdin"
stdin_word false = "-password-stdin=0"

abbrev pub login_words : LoginCommand → List String → List String
login_words cmd args =
    "-u" ∷ cmd.user ∷ "-p" ∷ cmd.password ∷ stdin_word cmd.password_stdin ∷ "--" ∷ args

abbrev pub login_line : Globals → LoginCommand → List String → Parsed
login_line g cmd args = record {
  settings = global_settings g (
      ("u", cmd.user)
      ∷ ("p", cmd.password)
      ∷ ("password-stdin", debug_text cmd.password_stdin)
      ∷ []);
  args = args;
}

parse-login_words :
    {W : Type 0} (H : Setup W) (u p : String) (b : Bool) (args : List String)
    → Flag.parse
        (Flag.kind_of (flag_set (login_command H)))
        ("-u" ∷ u ∷ "-p" ∷ p ∷ stdin_word b ∷ "--" ∷ args)
      ≡ ok (record {
        settings = ("u", u) ∷ ("p", p) ∷ ("password-stdin", debug_text b) ∷ [];
        args = args;
      })
unfolding Flag.parse Flag.kind_of cut
parse-login_words H u p true args = refl
parse-login_words H u p false args = refl

pub parse-login :
    {W : Type 0} (H : Setup W) (g : Globals) (cmd : LoginCommand) (args : List String)
    → Flag.parse (Flag.kind_of (flag_set (login_command H))) (global_words g (login_words cmd args))
      ≡ ok (login_line g cmd args)
parse-login H g cmd args =
    parse-global_words login_flags g (login_words cmd args) _
      (parse-login_words H cmd.user cmd.password cmd.password_stdin args)

setting-filter_settings :
    (name default : String) (fs : List String)
    → ("f" == name) ≡ false
    → Flag.setting name default (filter_settings fs) ≡ default
unfolding Flag.setting
setting-filter_settings name default [] e = refl
setting-filter_settings name default (f ∷ fs) e =
    rw (Flag.setting, e) (setting-filter_settings name default fs e)

pub debug_text-lem : (b : Bool) → (debug_text b == "true") ≡ b
debug_text-lem true = refl
debug_text-lem false = refl

pub globals-plain_line :
    (g : Globals) (args : List String) → globals (plain_line g args).settings ≡ g
unfolding Flag.setting
globals-plain_line g args = rw (debug_text-lem g.debug) refl

pub globals-list :
    (g : Globals) (fs args : List String) → globals (list_line g fs args).settings ≡ g
unfolding Flag.setting
globals-list g fs args =
    rw
      (
        setting-filter_settings "backend" g.backend fs refl,
        setting-filter_settings "state" g.state_dir fs refl,
        setting-filter_settings "d" (debug_text g.debug) fs refl,
        debug_text-lem g.debug,
      )
      refl

set_all-filter_settings :
    (slice fs : List String) → set_all "f" slice (filter_settings fs) ≡ slice ++ fs
unfolding set_all
set_all-filter_settings slice [] = sym (append-nil slice)
set_all-filter_settings slice (f ∷ fs) =
    set_all-filter_settings (slice ++ (f ∷ [])) fs ∙ append_assoc slice (f ∷ []) fs

pub filters-list :
    (g : Globals) (fs args : List String) → set_all "f" [] (list_line g fs args).settings ≡ fs
unfolding set_all
filters-list g fs args = set_all-filter_settings [] fs

pub globals-usage :
    (g : Globals) (filter : String) (args : List String)
    → globals (usage_line g filter args).settings ≡ g
unfolding Flag.setting
globals-usage g filter args = rw (debug_text-lem g.debug) refl

pub filter-usage :
    (g : Globals) (filter : String) (args : List String)
    → Flag.setting "f" "" (usage_line g filter args).settings ≡ filter
unfolding Flag.setting
filter-usage g filter args = refl

pub globals-login :
    (g : Globals) (cmd : LoginCommand) (args : List String)
    → globals (login_line g cmd args).settings ≡ g
unfolding Flag.setting
globals-login g cmd args = rw (debug_text-lem g.debug) refl

-- The address is no flag.
pub login_fields-login :
    (g : Globals) (cmd : LoginCommand) (args : List String)
    → cmd.server_address ≡ ""
    → login_fields (login_line g cmd args).settings ≡ cmd
unfolding Flag.setting
login_fields-login g cmd args e = rw (debug_text-lem cmd.password_stdin) (rw e refl)
