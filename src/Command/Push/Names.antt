-- ===== src/Command/Push/Names.antt =====
-- `img push` against the names of the image store as a map.
use img.Common.{String, Bool, List, [], ◌∷◌, refl}
use img.Common.Exec.{Outcome, ok, err, halt, panic, diverge, modify}
use img.Common.Group.{Schedule, wait_both}
use img.Common.Group.Carried.{IsSound, wait_both-Triple}
use img.Common.Triple.{
  Triple, Post, Triple-bind, Triple-given, Triple-weaken, Triple-relax, Triple-modify,
}
use img.Services.{Services, Handle}
use img.Services.Laws.{Tags, IsLawful}
use img.Client.{State, call, print, set_client}
use img.Client.Backends.{IsValid, IsResolved}
use img.Client.Images
use img.Client.Images.Pushing.{IsPresent, push-Triple}
use img.Client.Sessions.{IsSeen, Keeps-seen, Post-seen, View-seen, session-View, Triple-waited}
use img.Client.Worker.Opens.{View, Keeps-call}
use img.Command.{Globals, buildkit_context}
use img.Command.Push.{run_push}
use img.Command.Tag.Names.{Named, new-names, backend_root}

module _ {W : Type 0} {S : Services W} (L : IsLawful S) (t : Tags) (g : Globals)
    (valid : IsValid g.backend) where
  -- The image is present in the metadata file of one of the backends, and no name changed.
  abbrev pub Pushed : String → State W → Type 0
  Pushed image s =
      Named L t s
      × ((b : String) × IsResolved b
          × IsPresent L t (backend_root g.state_dir b) (buildkit_context "") "buildkit" refl image)

  module _ (r : String) (id image : String) where
    abbrev Sent : Unit {0} → State W → Type 0
    Sent _ s = View L t r s × IsPresent L t r (buildkit_context id) "buildkit" refl image

    view : (o : Outcome (Unit {0})) (s : State W) → Post Sent (View L t r) o s → View L t r s
    view (ok u) s h = h.0
    view (err e) s h = h
    view (halt n) s h = h
    view panic s h = h
    view diverge s h = h

    Sent-seen : (o : Outcome (Unit {0})) → IsSeen L (Post Sent (View L t r) o)
    Sent-seen o =
        Post-seen L (λ u s s' e c h. (View-seen L t r s s' e c h.0, h.1)) (View-seen L t r) o

    group-Sent :
        (turn : Schedule) (sess dialer : Handle) (insecure : Bool)
        → Triple
            (View L t r)
            (wait_both turn
              (call (S.sessions.run sess (buildkit_context id) dialer))
              (call (S.sessions.close sess))
              (Images.push S (buildkit_context id) image insecure))
            (λ o s. Post Sent (View L t r) o.0 s × IsSound o)
            (View L t r)
    group-Sent turn sess dialer insecure =
        wait_both-Triple Sent (View L t r) _
          (λ o. Keeps-seen L _ (Sent-seen o) (L.close_quiet sess)) _ turn
          (push-Triple L t r (buildkit_context id) "buildkit" refl image insecure)
          (Keeps-call L t r _ (L.run_quiet sess _ dialer))
          (λ o. Keeps-seen L _ (Sent-seen o) (L.run_quiet sess _ dialer)) (λ s h. h) view

  pub run_push-Triple :
      (turn : Schedule) (insecure : Bool) (image : String) (more : List String)
      → Triple
          (Named L t)
          (run_push S turn g insecure (image ∷ more))
          (λ _. Pushed image)
          (Named L t)
  unfolding run_push print set_client modify
  run_push-Triple turn insecure image more =
      Triple-bind (new-names L t g.state_dir g.backend [] valid) λ c. Triple-given λ fresh.
        let r = backend_root g.state_dir c.backend in
        Triple-bind (Triple-modify _ (λ s h. (h, fresh.1))) λ _.
          Triple-relax (λ s (v : View L t r s). v.0)
            (Triple-bind (Triple-modify _ (λ s h. h)) λ _.
              Triple-bind (session-View L t r _) λ pair.
                Triple-bind (group-Sent r (S.sessions.id pair.0) image turn pair.0 pair.1 insecure)
                  λ o. Triple-given λ sound.
                    Triple-bind
                      (Triple-weaken
                        (Triple-waited o.0 o.1 sound (view r (S.sessions.id pair.0) image o.0))
                        (λ _ s (u, (v, present)). (v.0, (c.backend, fresh.0, present))))
                      λ _. Triple-modify {Q = Pushed image} _ (λ s h. h))
