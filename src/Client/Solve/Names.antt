-- ===== src/Client/Solve/Names.antt =====
-- `Solve` against the names of the image store as a map.
use img.Common.{String, Option, none, some, ◌≡◌, ◌⊎◌, refl, ◌∙◌, inl, inr}
use img.Common.Exec.{Exec, Outcome, ok, err, halt, panic, diverge, gets}
use img.Common.Group.{Schedule}
use img.Common.Group.Carried.{wait_both-Triple}
use img.Common.Triple.{
  Triple, Keeps, Post, Triple-bind, Triple-pure, Triple-or_fail, Triple-given, Triple-weaken,
  Triple-relax, Triple-modify, Triple-at, Triple-both, Keeps-gets, keeps_all,
}
use img.Services.{Services, Handle, Context, Descriptor}
use img.Services.Laws.{Tags, put_tag, IsLawful}
use img.Services.Solving.{SolveRequest, Solving}
use img.Services.Solving.Laws.{IsSolving}
use img.Build.{lookup}
use img.Client.{State, call, manager_or_new, get_session_manager, session}
use img.Client.Controller.{controller_or_new}
use img.Client.Controller.Opens.{Controls, create_controller-Triple}
use img.Client.Sessions.{
  IsSeen, Keeps-seen, Post-seen, View-seen, session-View, Triple-waited, Triple-unseen,
  Keeps-outcome,
}
use img.Client.Solve.{solve, report, follow_status}
use img.Client.Worker.Opens.{View, metadata_path}

module _ {W : Type 0} (S : Services W) where
  -- The client has made no controller yet.
  abbrev Uncontrolled : State W → Type 0
  Uncontrolled s = s.client.controller ≡ none

  host-Uncontrolled : {A : Type 0} (m : Exec W A) → Keeps Uncontrolled (call m)
  unfolding call
  host-Uncontrolled m = record {
    at = λ s h. keeps_all Uncontrolled (m s.host).0 (record s { host = (m s.host).1 }) h;
  }

  manager_or_new-Uncontrolled :
      (field : Option Handle) → Keeps Uncontrolled (manager_or_new S field)
  unfolding manager_or_new
  manager_or_new-Uncontrolled (some m) = Triple-pure m (λ s h. h)
  manager_or_new-Uncontrolled none =
      Triple-bind (host-Uncontrolled _)
        λ m. Triple-bind (Triple-modify _ (λ s h. h)) λ _. Triple-pure m (λ s h. h)

  session-Uncontrolled : (ctx : Context) → Keeps Uncontrolled (session S ctx)
  unfolding session get_session_manager
  session-Uncontrolled ctx =
      Triple-bind (Triple-or_fail _ (Triple-bind (Keeps-gets _) manager_or_new-Uncontrolled)) λ m.
        Triple-bind (Triple-or_fail _ (host-Uncontrolled _)) λ s. Triple-bind (Keeps-gets _) λ dirs.
          Triple-bind (host-Uncontrolled _)
            λ _. Triple-bind (host-Uncontrolled _) λ _. Triple-pure _ (λ st v. v)

module _ {W : Type 0} {S : Services W} {L : IsLawful S} {T : Solving W} (K : IsSolving L T)
    (t : Tags) (r : String) where
  -- The names are those of `t`, and the client has made no controller yet.
  abbrev pub Unmade : State W → Type 0
  Unmade s = View L t r s × (s.client.controller ≡ none)

  pub session-Unmade : (ctx : Context) → Keeps Unmade (session S ctx)
  session-Unmade ctx = Triple-both (session-View L t r ctx) (session-Uncontrolled S ctx)

  -- The one change that a build makes.
  abbrev pub Built : String → String → State W → Type 0
  Built n k s = (d : Descriptor) × View L (put_tag t (metadata_path r) n k (some d)) r s

  -- After a failure: no change, or that one.
  abbrev pub MaybeBuilt : String → String → State W → Type 0
  MaybeBuilt n k s = View L t r s ⊎ Built n k s

  made-Triple :
      Triple Unmade
        (gets (λ (s : State W). s.client.controller))
        (λ field s. View L t r s × (field ≡ none))
        (View L t r)
  unfolding gets
  made-Triple = record { at = λ s h. h }

  controlled-Triple :
      Triple
        (λ s. (c : Handle) × Controls K t r c s)
        (gets (λ (s : State W). s.client.controller))
        (λ made s.
          View L t r s × ((c : Handle) × (made ≡ some c) × (K.controller_file c ≡ metadata_path r)))
        (View L t r)
  unfolding gets
  controlled-Triple = record { at = λ s (c, (v, made, file)). (v, (c, made, file)) }

module _ {W : Type 0} {S : Services W} {L : IsLawful S} {T : Solving W} (K : IsSolving L T)
    (t : Tags) (r n k : String) where
  Built-seen : IsSeen L (Built K t r n k)
  Built-seen s s' e c (d, v) = (d, View-seen L _ r s s' e c v)

  MaybeBuilt-seen : IsSeen L (MaybeBuilt K t r n k)
  MaybeBuilt-seen s s' e c (inl v) = inl (View-seen L t r s s' e c v)
  MaybeBuilt-seen s s' e c (inr b) = inr (Built-seen s s' e c b)

  pub left_seen :
      (o : Outcome (Unit {0})) → IsSeen L (Post (λ _. Built K t r n k) (MaybeBuilt K t r n k) o)
  left_seen o = Post-seen L (λ _. Built-seen) MaybeBuilt-seen o

  pub left_MaybeBuilt :
      (o : Outcome (Unit {0})) (s : State W)
      → Post (λ _. Built K t r n k) (MaybeBuilt K t r n k) o s
      → MaybeBuilt K t r n k s
  left_MaybeBuilt (ok u) s h = inr h
  left_MaybeBuilt (err e) s h = h
  left_MaybeBuilt (halt c) s h = h
  left_MaybeBuilt panic s h = h
  left_MaybeBuilt diverge s h = h

module _ {W : Type 0} {S : Services W} {L : IsLawful S} {T : Solving W} (K : IsSolving L T)
    (t : Tags) (r : String) (ctx : Context) (n k : String) (spaced : ctx.namespace ≡ some n)
    (req : SolveRequest) (image : req.exporter ≡ "image")
    (named : lookup "name" req.exporter_attrs ≡ some k) where
  maybe :
      (c : Handle) (s : State W) (w : W)
      → K.controller_file c ≡ metadata_path r
      → View L t r s
      → (L.tags w ≡ L.tags s.host)
        ⊎ ((d : Descriptor) × (L.tags w
              ≡ put_tag (L.tags s.host) (K.controller_file c) n k (some d)))
      → MaybeBuilt K t r n k (record s { host = w })
  maybe c s w file v (inl e) = inl (e ∙ v.0, v.1)
  maybe c s w file v (inr (d, e)) = inr (d, (e ∙ rw (v.0, file) refl, v.1))

  solving-Triple :
      (c : Handle)
      → K.controller_file c ≡ metadata_path r
      → Triple (View L t r) (call (T.solve c ctx req)) (λ _. Built K t r n k) (MaybeBuilt K t r n k)
  unfolding call
  solving-Triple c file =
      Triple-at _
        (λ s v u e.
          let (d, tags) = K.exported c ctx n k req s.host spaced image named e in
          (d, (tags ∙ rw (v.0, file) refl, v.1)))
        (λ s v.
          maybe c s (T.solve c ctx req s.host).1 file v
            (K.exports_at_most c ctx n k req s.host spaced image named))

  -- The goroutine of `Status` leaves the names and the client as they are.
  follow_status-Keeps :
      (turn : Schedule) (c : Handle) {R : State W → Type 0}
      → IsSeen L R
      → Keeps R (follow_status S T turn (some c) req.ref)
  unfolding follow_status report
  follow_status-Keeps turn c {R = R} seen =
      Triple-bind {Q = λ _. R}
        (record { at = λ s h. (Keeps-seen L _ seen (K.status_quiet c req.ref)).at s h })
        λ r. Triple-bind (Triple-unseen L _ seen (λ s. refl) (λ s. refl)) λ _. Keeps-outcome r.1

  -- `Solve` over lawful services, by a client that has made no controller yet, whichever of the two
  -- calls returns first: if it returns, the name that the request exports refers to something in the
  -- client's metadata file, and no other name changed; if it fails, no name changed, or that one did.
  pub solve-Triple :
      (turn : Schedule)
      → Triple (Unmade K t r) (solve S T turn ctx req) (λ _. Built K t r n k) (MaybeBuilt K t r n k)
  unfolding solve controller_or_new
  solve-Triple turn = Triple-bind (Triple-relax (λ s. inl) (made-Triple K t r)) λ field.
      Triple-given λ unmade. rw unmade (
        Triple-bind (Triple-relax (λ s. inl) (create_controller-Triple K t r)) λ _.
          Triple-bind (Triple-relax (λ s. inl) (controlled-Triple K t r)) λ made.
            Triple-given λ (c, e, file). rw e (
              Triple-bind
                (wait_both-Triple (λ _. Built K t r n k) (MaybeBuilt K t r n k) _
                  (λ o. Triple-pure tt (λ s h. h)) _ turn
                  (Triple-or_fail _ (record { at = λ s v. (solving-Triple c file).at s v }))
                  (follow_status-Keeps turn c (View-seen L t r))
                  (λ o. follow_status-Keeps turn c (left_seen K t r n k o)) (λ s. inl)
                  (left_MaybeBuilt K t r n k))
                λ o. Triple-given λ sound.
                  Triple-weaken (Triple-waited o.0 o.1 sound (left_MaybeBuilt K t r n k o.0))
                    (λ _ s b. b.1)))
