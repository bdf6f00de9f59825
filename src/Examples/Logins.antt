-- ===== src/Examples/Logins.antt =====
-- `img login` at the terminal of the host in memory.
use img.Common.{false, none, some, [], ◌∷◌, ◌≡◌, refl}
use img.Common.Exec.{ok, ◌>>=◌}
use img.Common.Text.{trim_space}
use img.Services.Accounts.{AuthConfig}
use img.Client.{call, print}
use img.Fixture.{World, memory, desk}
use img.Fixture.Data.{running, usual}
use img.Login.{LoginCommand, run_login}
use img.Login.Credentials.{Stores}

abbrev asked : LoginCommand
asked = record { user = ""; password = ""; password_stdin = false; server_address = "" }

abbrev kept : AuthConfig
kept = record {
  username = "bob";
  password = "";
  auth = "";
  email = "";
  server_address = "r.example";
  identity_token = "token";
  registry_token = "";
}

runs :
    let r = run_login memory desk usual asked ("r.example" ∷ []) running in
    (r.0 ≡ ok tt) × (r.1.host.stored ≡ some kept)
unfolding run_login call ◌>>=◌ trim_space print
runs = (refl, refl)

abbrev pub IsFree : World → Type 0
IsFree w = w.stored ≡ none

abbrev pub Holds : AuthConfig → World → Type 0
Holds a w = w.stored ≡ some a

abbrev pub desk_stores : Stores memory desk IsFree Holds
desk_stores = record {
  stdin = λ w h. h;
  load = λ w h. h;
  get = λ d a w h. h;
  terminal = λ w h. h;
  save = λ w h. h;
  disable = λ i w h. h;
  restore = λ i w h. h;
  line = λ w h. h;
  registry = λ a b w h. h;
  token = λ r u w h. h;
  stored = λ d a c w h e. refl;
  unstored = λ d a c w h e. absurd (e refl);
}
