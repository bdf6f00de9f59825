-- ===== src/Main/LoggingIn.antt =====
-- The whole program, called as `img login`.
use img.Common.{String, List, ◌∷◌, ◌≡◌, refl}
use img.Common.Triple.{Triple, Triple-pure, Triple-modify}
use img.Services.Accounts.{AuthConfig}
use img.Client.{print}
use img.Client.Backends.{IsValid}
use img.Client.Worker.Keeps.{OnHost}
use img.Command.{Globals}
use img.Login.{LoginCommand}
use img.Login.Credentials.{Stores, IsChosen, IsComplete, run_login-Triple}
use img.Main.{find, set_level}
use img.Main.Building.{valid_contained}
use img.Main.Commands.{Setup, watch, commands, login_command, program}
use img.Main.Light.{main-Light}
use img.Main.Words.{
  global_words, login_words, login_line, parse-login, globals-login, login_fields-login,
}

module _ {W : Type 0} (H : Setup W) {Before : W → Type 0} {Stored : AuthConfig → W → Type 0}
    (K : Stores H.services H.accounts Before Stored) (g : Globals) (valid : IsValid g.backend)
    (cmd : LoginCommand) (unnamed : cmd.server_address ≡ "") (args : List String) where
  -- The whole program as `img login` with all global flags, its own three and any arguments, over
  -- services in which only `Store` stores: if it returns, credentials were stored that have a user's
  -- name, the address that the arguments choose, and either a password or a token of the registry and
  -- not both; if it ends in any other way, none were stored. The address is Docker Hub's where there is
  -- no argument or the first is empty or Docker Hub's, and else the host name that the registry's
  -- library converts the first argument to.
  pub program-login :
      Triple
        (OnHost Before)
        (program H ("login" ∷ global_words g (login_words cmd args)))
        (λ _ s.
          (a : AuthConfig) × (address : String) × Stored a s.host
          × IsChosen H.accounts args address
          × IsComplete address a)
        (OnHost Before)
  unfolding program find set_level print
  program-login =
      main-Light H.services (watch H) (commands H) (login_command H)
        (λ line. Triple-modify {Q = OnHost Before} _ (λ s h. h)) "login"
        (global_words g (login_words cmd args)) (login_line g cmd args) g refl refl
        (parse-login H g cmd args) (globals-login g cmd args) refl (valid_contained g.backend valid)
        (Triple-modify {Q = OnHost Before} _ (λ s h. h))
        (Triple-pure {Q = λ _. OnHost Before} tt (λ s h. h))
        (rw (login_fields-login g cmd args unnamed) (run_login-Triple K g cmd args unnamed))
