-- ===== src/Client/Sessions.antt =====
-- What the calls around a session leave of the names, and of what a body left.
use img.Common.{String, ◌≡◌, ◌∙◌, refl, ap}
use img.Common.Exec.{modify, Exec, Outcome, ok, err, halt, panic, diverge}
use img.Common.Group.Carried.{IsSound}
use img.Common.Triple.{
  Triple, Keeps, Post, keeps_all, Triple-bind, Triple-pure, Triple-or_fail, Keeps-gets,
  Triple-modify,
}
use img.Services.{Services, Context}
use img.Services.Laws.{Tags, IsLawful, IsQuiet}
use img.Client.{Client, State, call, lift, session}
use img.Client.Worker.Opens.{View, Keeps-call, get_session_manager-Keeps}

module _ {W : Type 0} {S : Services W} (L : IsLawful S) where
  -- A predicate that sees the names and the client, and nothing else of the state.
  abbrev pub IsSeen : (State W → Type 0) → Type 0
  IsSeen R = (s s' : State W) → L.tags s'.host ≡ L.tags s.host → s'.client ≡ s.client → R s → R s'

  pub Keeps-seen :
      {A : Type 0} {R : State W → Type 0} (m : Exec W A)
      → IsSeen R
      → IsQuiet L.tags m
      → Keeps R (call m)
  unfolding call
  Keeps-seen {R = R} m seen q = record {
    at = λ s h.
        keeps_all R (m s.host).0 (record s { host = (m s.host).1 })
          (seen s (record s { host = (m s.host).1 }) (q s.host) refl h);
  }

  pub Post-seen :
      {A : Type 0} {Q : A → State W → Type 0} {E : State W → Type 0}
      → ((a : A) → IsSeen (Q a))
      → IsSeen E
      → (o : Outcome A) → IsSeen (Post Q E o)
  Post-seen q e (ok a) = q a
  Post-seen q e (err x) = e
  Post-seen q e (halt n) = e
  Post-seen q e panic = e
  Post-seen q e diverge = e

  pub View-seen : (t : Tags) (r : String) → IsSeen (View L t r)
  View-seen t r s s' e c v = (e ∙ v.0, ap (λ (k : Client). k.root) c ∙ v.1)

  -- What only prints, or changes what the channel holds.
  pub Triple-unseen :
      {R : State W → Type 0} (f : State W → State W)
      → IsSeen R
      → ((s : State W) → (f s).host ≡ s.host)
      → ((s : State W) → (f s).client ≡ s.client)
      → Keeps R (modify f)
  Triple-unseen f seen host client =
      Triple-modify f (λ s h. seen s (f s) (ap L.tags (host s)) (client s) h)

  pub session-View : (t : Tags) (r : String) (ctx : Context) → Keeps (View L t r) (session S ctx)
  unfolding session
  session-View t r ctx = Triple-bind (Triple-or_fail _ (get_session_manager-Keeps L t r)) λ m.
      Triple-bind (Triple-or_fail _ (Keeps-call L t r _ (L.new_session_quiet ctx _ _))) λ s.
        Triple-bind (Keeps-gets _) λ dirs.
          Triple-bind (Keeps-call L t r _ (L.allow_sync_quiet s dirs)) λ _.
            Triple-bind (Keeps-call L t r _ (L.allow_auth_quiet s)) λ _. Triple-pure _ (λ st v. v)

module _ {W A : Type 0} where
  pub Keeps-outcome : {R : State W → Type 0} (o : Outcome A) → Keeps R (lift o)
  unfolding lift
  Keeps-outcome {R = R} o = record { at = λ s h. keeps_all R o s h }

  pub Triple-settled :
      {Q : A → State W → Type 0} {E : State W → Type 0} (o : Outcome A)
      → Triple (Post Q E o) (lift o) Q E
  unfolding lift
  Triple-settled o = record { at = λ s h. h }

  -- Where `Wait` returns nil, what the body left by returning holds.
  pub Triple-waited :
      {Q : A → State W → Type 0} {E : State W → Type 0} (body : Outcome A)
      (waited : Outcome (Unit {0}))
      → IsSound (body, waited)
      → ((s : State W) → Post Q E body s → E s)
      → Triple (Post Q E body) (lift waited) (λ _ s. (a : A) × Q a s) E
  unfolding lift
  Triple-waited {Q = Q} {E = E} body (ok tt) sound late =
      let (a, e) = sound refl in record { at = λ s h. (a, rw e at h) }
  Triple-waited body (err e) sound late = record { at = late }
  Triple-waited body (halt n) sound late = record { at = late }
  Triple-waited body panic sound late = record { at = late }
  Triple-waited body diverge sound late = record { at = late }
