-- ===== src/Command/Pull/Names.antt =====
-- `img pull` against the names of the image store as a map.
use img.Common.{String, some, List, [], ◌∷◌, ◌≡◌, ◌⊎◌, inl, inr, refl}
use img.Common.Exec.{Outcome, ok, err, halt, panic, diverge, modify}
use img.Common.Group.{Schedule, wait_both}
use img.Common.Group.Carried.{IsSound, wait_both-Triple}
use img.Common.Triple.{
  Triple, Post, Triple-bind, Triple-given, Triple-weaken, Triple-relax, Triple-modify,
}
use img.Services.{Services, Handle, Context, Descriptor}
use img.Services.Laws.{Tags, put_tag, IsLawful}
use img.Client.{State, call, print, set_client}
use img.Client.Backends.{IsValid, IsResolved}
use img.Client.Images.{ListedImage, pull}
use img.Client.Images.Pulling.{Pulled, Untouched, pull-Triple}
use img.Client.Images.Tagging.{Denotes}
use img.Client.Sessions.{
  IsSeen, Keeps-seen, Post-seen, View-seen, session-View, Keeps-outcome, Triple-settled,
}
use img.Client.Worker.Opens.{View, metadata_path, Keeps-call}
use img.Command.{Globals, buildkit_context}
use img.Command.Pull.{run_pull}
use img.Command.Tag.Names.{Named, new-names, backend_root}

module _ {W : Type 0} {S : Services W} (L : IsLawful S) (t : Tags) (r : String) (ctx : Context)
    (n : String) (spaced : ctx.namespace ≡ some n) (image : String) where
  abbrev Left : ListedImage → State W → Type 0
  Left l = Pulled L t r ctx n spaced image l.image.name l.image.target

  Left-seen : (l : ListedImage) → IsSeen L (Left l)
  Left-seen l s s' e c (name, v) = (name, View-seen L _ r s s' e c v)

  Untouched-seen : IsSeen L (Untouched L t r ctx n spaced image)
  Untouched-seen s s' e c (inl v) = inl (View-seen L t r s s' e c v)
  Untouched-seen s s' e c (inr (k, d, (name, v))) = inr (k, d, (name, View-seen L _ r s s' e c v))

  Left-Untouched :
      (o : Outcome ListedImage) (s : State W)
      → Post Left (Untouched L t r ctx n spaced image) o s
      → Untouched L t r ctx n spaced image s
  Left-Untouched (ok l) s h = inr (l.image.name, l.image.target, h)
  Left-Untouched (err e) s h = h
  Left-Untouched (halt c) s h = h
  Left-Untouched panic s h = h
  Left-Untouched diverge s h = h

  group-Triple :
      (turn : Schedule) (sess dialer : Handle) (run_ctx : Context)
      → Triple
          (View L t r)
          (wait_both turn
            (call (S.sessions.run sess run_ctx dialer))
            (call (S.sessions.close sess))
            (pull S ctx image))
          (λ o s. Post Left (Untouched L t r ctx n spaced image) o.0 s × IsSound o)
          (Untouched L t r ctx n spaced image)
  group-Triple turn sess dialer run_ctx =
      wait_both-Triple Left (Untouched L t r ctx n spaced image) _
        (λ o. Keeps-seen L _ (Post-seen L Left-seen Untouched-seen o) (L.close_quiet sess)) _ turn
        (pull-Triple L t r ctx n spaced image)
        (Keeps-call L t r _ (L.run_quiet sess run_ctx dialer))
        (λ o.
          Keeps-seen L _ (Post-seen L Left-seen Untouched-seen o) (L.run_quiet sess run_ctx dialer))
        (λ s. inl) Left-Untouched

module _ {W : Type 0} {S : Services W} (L : IsLawful S) (t : Tags) (g : Globals)
    (valid : IsValid g.backend) where
  -- In the metadata file of one of the backends the image's full name refers to what was pulled, and
  -- no other name of any file or namespace changed.
  abbrev pub Fetched : String → State W → Type 0
  Fetched image s =
      (b : String) × (k : String) × (d : Descriptor) × IsResolved b
      × Denotes S image k
      × (L.tags s.host
          ≡ put_tag t (metadata_path (backend_root g.state_dir b)) "buildkit" k (some d))

  abbrev pub MaybeFetched : String → State W → Type 0
  MaybeFetched image s = Named L t s ⊎ Fetched image s

  late :
      (image b : String)
      → IsResolved b
      → (ctx : Context) (spaced : ctx.namespace ≡ some "buildkit") (s : State W)
      → Untouched L t (backend_root g.state_dir b) ctx "buildkit" spaced image s
      → MaybeFetched image s
  late image b resolved ctx spaced s (inl v) = inl v.0
  late image b resolved ctx spaced s (inr (k, d, (name, v))) = inr (b, k, d, resolved, name, v.0)

  pub run_pull-Triple :
      (turn : Schedule) (image : String) (more : List String)
      → Triple
          (Named L t)
          (run_pull S turn g (image ∷ more))
          (λ _. Fetched image)
          (MaybeFetched image)
  unfolding run_pull print set_client modify
  run_pull-Triple turn image more =
      Triple-bind (Triple-relax (λ s. inl) (new-names L t g.state_dir g.backend [] valid)) λ c.
        Triple-given λ fresh.
          let r = backend_root g.state_dir c.backend in
          Triple-bind (Triple-modify _ (λ s h. (h, fresh.1))) λ _.
            Triple-bind (Triple-modify _ (λ s h. h)) λ _.
              Triple-bind (Triple-relax (λ s v. inl v.0) (session-View L t r _)) λ pair.
                Triple-relax
                  (late image c.backend fresh.0 (buildkit_context (S.sessions.id pair.0)) refl)
                  (Triple-bind
                    (group-Triple L t r (buildkit_context (S.sessions.id pair.0)) "buildkit" refl
                      image turn pair.0 pair.1 _)
                    λ o. Triple-given λ _.
                      Triple-bind
                        (Triple-relax
                          (Left-Untouched L t r (buildkit_context (S.sessions.id pair.0)) "buildkit"
                            refl image o.0)
                          (Keeps-outcome o.1))
                        λ _.
                          Triple-bind
                            (Triple-weaken (Triple-settled o.0) (λ l s h.
                              (c.backend, l.image.name, l.image.target, fresh.0, h.0, h.1.0)))
                            λ l.
                              Triple-bind (Triple-modify {Q = Fetched image} _ (λ s h. h))
                                λ _. Triple-modify _ (λ s h. h))
