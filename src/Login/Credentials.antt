-- ===== src/Login/Credentials.antt =====
-- What `img login` stores.
use img.Common.{
  ℕ, String, Bool, List, [], ◌∷◌, ◌≡◌, ◌≢◌, refl, ◌==◌, eq_iff, if◌then◌else◌, ◌⊎◌, inl, inr,
  Bool-cases,
}
use img.Common.Exec.{Outcome, ok, err, halt, panic, diverge, exit, modify, ◌>>=◌}
use img.Common.Output.{Line}
use img.Common.Triple.{
  Triple, Keeps, Post, Triple-bind, Triple-pure, Triple-raise, Triple-or_fail, Triple-given,
  Triple-if, Triple-modify, Keeps-attempt,
}
use img.Services.{Services, Handle}
use img.Services.Accounts.{AuthConfig, Accounts}
use img.Client.{State, call, print}
use img.Client.Worker.Keeps.{Preserves, OnHost, Keeps-host, Keeps-lift}
use img.Command.{Globals}
use img.Login.{
  LoginCommand, server, with_token, required, default_docker_registry, line_or_exit, read_input,
  prompt_with_default, ask_user, ask_password, configure_auth, check_password, read_password,
  run_login,
}

-- `Before` holds of the host until credentials are stored, and `Stored a` where `a` was: the other
-- calls keep `Before`, and so does a `Store` that fails.
pub record Stores {W : Type 0} (S : Services W) (A : Accounts W) (Before : W → Type 0)
    (Stored : AuthConfig → W → Type 0) : Type 0 where
  pub stdin : Preserves Before S.inputs.read_stdin
  pub load : Preserves Before A.load_config
  pub get : (d : Handle) (address : String) → Preserves Before (A.get_auth_config d address)
  pub terminal : Preserves Before A.stdin_is_terminal
  pub save : Preserves Before A.save_state
  pub disable : (h : Handle) → Preserves Before (A.disable_echo h)
  pub restore : (h : Handle) → Preserves Before (A.restore_terminal h)
  pub line : Preserves Before A.read_line
  pub registry : (a : AuthConfig) (b : Bool) → Preserves Before (A.new_registry a b)
  pub token : (r : Handle) (url : String) → Preserves Before (A.token r url)
  pub stored :
      (d : Handle) (address : String) (a : AuthConfig) (w : W)
      → Before w
      → (A.store d address a w).0 ≡ ok tt
      → Stored a (A.store d address a w).1
  pub unstored :
      (d : Handle) (address : String) (a : AuthConfig) (w : W)
      → Before w
      → (A.store d address a w).0 ≢ ok tt
      → Before (A.store d address a w).1

required-Triple :
    {T : Type 0} {P : T → Type 0} (message value : String)
    → Triple P (required message value) (λ v s. P s × (v ≢ "")) P
unfolding required
required-Triple message value = elim (Bool-cases (value == "")) [
  | inl e ↦ rw e (Triple-raise _)
  | inr e ↦ rw e (Triple-pure value (λ s h. (h, λ same. let yes = (eq_iff value "").1 same in cc)))
]

-- The address that the default keeps and other servers are converted to.
abbrev pub address_of : {W : Type 0} → Accounts W → String → String
address_of A name = if name == default_docker_registry then name else A.convert_to_hostname name

abbrev pub IsConfigured : String → AuthConfig → Type 0
IsConfigured address a =
    (a.username ≢ "") × (a.password ≢ "") × (a.server_address ≡ address) × (a.identity_token ≡ "")

-- Either a password or a token of the registry, and never both.
abbrev pub IsComplete : String → AuthConfig → Type 0
IsComplete address a =
    (a.username ≢ "")
    × (a.server_address ≡ address)
    × (((a.password ≢ "") × (a.identity_token ≡ ""))
        ⊎ ((a.password ≡ "") × (a.identity_token ≢ "")))

with_token-IsComplete :
    (address : String) (a : AuthConfig) (token : String)
    → IsConfigured address a
    → IsComplete address (with_token a token)
unfolding with_token
with_token-IsComplete address a token (user, password, same, none) =
    elim (Bool-cases (token == "")) [
      | inl e ↦ rw e (user, same, inl (password, none))
      | inr e ↦ rw e (user, same, inr (refl, λ empty. let yes = (eq_iff token "").1 empty in cc))
    ]

-- The address that the arguments choose: Docker Hub's where the first one is missing, empty or Docker
-- Hub's, and else the host name of the first.
pub data IsChosen {W : Type 0} (A : Accounts W) : List String → String → Type 0 where
  none_given : IsChosen A [] "https://index.docker.io/v1/"
  empty_given : (more : List String) → IsChosen A ("" ∷ more) "https://index.docker.io/v1/"
  hub_given :
      (more : List String)
      → IsChosen A ("https://index.docker.io/v1/" ∷ more) "https://index.docker.io/v1/"
  other_given :
      (server : String) (more : List String)
      → server ≢ ""
      → server ≢ "https://index.docker.io/v1/"
      → IsChosen A (server ∷ more) (A.convert_to_hostname server)

module _ {W : Type 0} (A : Accounts W) where
  server-IsChosen :
      (cmd : LoginCommand) (args : List String)
      → cmd.server_address ≡ ""
      → IsChosen A args (address_of A (server cmd args))
  unfolding server
  server-IsChosen cmd [] unnamed = rw unnamed none_given
  server-IsChosen cmd (arg ∷ more) unnamed = elim (Bool-cases (arg == "")) [
    | inl e ↦ rw ((eq_iff arg "").0 e) (empty_given more)
    | inr e ↦ elim (Bool-cases (arg == default_docker_registry)) [
      | inl f ↦ rw ((eq_iff arg default_docker_registry).0 f) (hub_given more)
      | inr f ↦
          rw (e, f)
            (other_given arg more (λ x. let y = (eq_iff arg "").1 x in cc)
              (λ x. let y = (eq_iff arg default_docker_registry).1 x in cc))
    ]
  ]

module _ {W : Type 0} {S : Services W} {A : Accounts W} {Before : W → Type 0}
    {Stored : AuthConfig → W → Type 0} (K : Stores S A Before Stored) where
  print-Keeps : (line : Line) → Keeps (OnHost Before) (print line)
  unfolding print
  print-Keeps line = Triple-modify _ (λ s h. h)

  exit-Keeps : {T : Type 0} (n : ℕ) → Keeps {A = T} (OnHost Before) (exit n)
  unfolding exit ◌>>=◌
  exit-Keeps n = record { at = λ s h. h }

  line_or_exit-Keeps : (o : Outcome String) → Keeps (OnHost Before) (line_or_exit S A o)
  unfolding line_or_exit
  line_or_exit-Keeps (err e) = Triple-bind (print-Keeps _) λ _. exit-Keeps 1
  line_or_exit-Keeps (ok line) = Triple-pure line (λ s h. h)
  line_or_exit-Keeps (halt n) = Keeps-lift Before _
  line_or_exit-Keeps panic = Keeps-lift Before _
  line_or_exit-Keeps diverge = Keeps-lift Before _

  read_input-Keeps : Keeps (OnHost Before) (read_input S A)
  unfolding read_input
  read_input-Keeps =
      Triple-bind (Keeps-attempt (Keeps-host Before _ K.line)) λ line. line_or_exit-Keeps line

  ask_user-Keeps :
      (address configured user : String)
      → Keeps (OnHost Before) (ask_user S A address configured user)
  unfolding ask_user prompt_with_default
  ask_user-Keeps address configured user =
      Triple-if (user == "")
        (Triple-bind (Triple-if (address == _) (print-Keeps _) (Triple-pure tt (λ s h. h))) λ _.
          Triple-bind (Triple-if (configured == "") (print-Keeps _) (print-Keeps _))
            λ _. Triple-bind read_input-Keeps λ line. Triple-pure _ (λ s h. h))
        (Triple-pure user (λ s h. h))

  ask_password-Triple :
      (password : String)
      → Triple
          (OnHost Before)
          (ask_password S A password)
          (λ p s. OnHost Before s × (p ≢ ""))
          (OnHost Before)
  unfolding ask_password
  ask_password-Triple password = elim (Bool-cases (password == "")) [
    | inl e ↦ rw e (
        Triple-bind (Keeps-host Before _ K.save) λ old. Triple-bind (print-Keeps _) λ _.
          Triple-bind (Keeps-attempt (Keeps-host Before _ (K.disable old))) λ _.
            Triple-bind read_input-Keeps λ typed. Triple-bind (print-Keeps _) λ _.
              Triple-bind (Triple-or_fail _ (Keeps-host Before _ (K.restore old)))
                λ _. required-Triple _ typed)
    | inr e ↦
        rw e
          (Triple-pure password (λ s h. (h, λ same. let yes = (eq_iff password "").1 same in cc)))
  ]

  configure_auth-Triple :
      (user password name : String)
      → Triple
          (OnHost Before)
          (configure_auth S A user password name)
          (λ r s. OnHost Before s × IsConfigured (address_of A name) r.1)
          (OnHost Before)
  unfolding configure_auth
  configure_auth-Triple user password name =
      Triple-bind (Triple-or_fail _ (Keeps-host Before _ K.load)) λ d.
        Triple-bind (Triple-or_fail _ (Keeps-host Before _ (K.get d _))) λ auth.
          Triple-bind (Keeps-host Before _ K.terminal) λ terminal.
            Triple-bind (Triple-if _ (Triple-raise _) (Triple-pure tt (λ s h. h))) λ _.
              Triple-bind (ask_user-Keeps _ _ _) λ asked. Triple-bind (required-Triple _ asked) λ u.
                Triple-given λ named. Triple-bind (ask_password-Triple password) λ p.
                  Triple-given λ secret. Triple-pure _ (λ s h. (h, (named, secret, refl, refl)))

  read-Keeps :
      (cmd : LoginCommand)
      → Keeps (OnHost Before) (check_password S A cmd)
        × Keeps (OnHost Before) (read_password S A cmd)
  unfolding check_password read_password
  read-Keeps cmd = (
    Triple-if (cmd.password == "") (Triple-pure tt (λ s h. h)) (
        Triple-bind (print-Keeps _)
          λ _. Triple-if cmd.password_stdin (Triple-raise _) (Triple-pure tt (λ s h. h))),
    Triple-if cmd.password_stdin
        (Triple-if (cmd.user == "") (Triple-raise _)
          (Triple-bind (Keeps-host Before _ K.stdin) λ contents. Triple-pure _ (λ s h. h)))
        (Triple-pure _ (λ s h. h)),
  )

  store-Post :
      (d : Handle) (address : String) (a : AuthConfig) (s : State W)
      → Before s.host
      → (o : Outcome (Unit {0})) → (A.store d address a s.host).0 ≡ o
      → Post
          (λ _. OnHost (Stored a))
          (OnHost Before)
          o
          (record s { host = (A.store d address a s.host).1 })
  store-Post d address a s h (ok tt) e = K.stored d address a s.host h e
  store-Post d address a s h (err x) e = K.unstored d address a s.host h (λ f. cc)
  store-Post d address a s h (halt n) e = K.unstored d address a s.host h (λ f. cc)
  store-Post d address a s h panic e = K.unstored d address a s.host h (λ f. cc)
  store-Post d address a s h diverge e = K.unstored d address a s.host h (λ f. cc)

  store-Triple :
      (d : Handle) (address : String) (a : AuthConfig)
      → Triple (OnHost Before) (call (A.store d address a)) (λ _. OnHost (Stored a)) (OnHost Before)
  unfolding call
  store-Triple d address a = record { at = λ s h. store-Post d address a s h _ refl }

  -- `img login`, from any state and over services in which only `Store` stores: if it returns,
  -- credentials were stored that have a user's name, the address that the first argument chooses, and either a
  -- password or a token of the registry and not both; if it fails, in whatever way, none were
  -- stored.
  pub run_login-Triple :
      (g : Globals) (cmd : LoginCommand) (args : List String)
      → cmd.server_address ≡ ""
      → Triple
          (OnHost Before)
          (run_login S A g cmd args)
          (λ _ s.
            (a : AuthConfig) × (address : String) × Stored a s.host
            × IsChosen A args address
            × IsComplete address a)
          (OnHost Before)
  unfolding run_login print modify
  run_login-Triple g cmd args unnamed = Triple-bind (read-Keeps cmd).0 λ _.
      Triple-bind (read-Keeps cmd).1 λ password.
        Triple-bind (configure_auth-Triple cmd.user password (server cmd args)) λ r.
          Triple-given λ configured.
            Triple-bind (Triple-or_fail _ (Keeps-host Before _ (K.registry r.1 g.debug))) λ reg.
              Triple-bind (Triple-or_fail _ (Keeps-host Before _ (K.token reg _))) λ token.
                Triple-bind (Triple-or_fail _ (store-Triple r.0 _ (with_token r.1 token))) λ _.
                  Triple-modify _ (λ s h. (
                    with_token r.1 token,
                    address_of A (server cmd args),
                    h,
                    server-IsChosen A cmd args unnamed,
                    with_token-IsComplete _ r.1 token configured,
                  ))
