-- ===== src/Build/Names.antt =====
-- `img build` against the names of the image store as a map, where neither the Dockerfile nor the
-- context comes from the standard input.
use img.Common.{ℕ, String, false, some, List, ◌∷◌, ◌≡◌, ◌⊎◌, refl, ap, ◌∙◌, ◌==◌, inl, inr}
use img.Common.Exec.{ok, modify}
use img.Common.Group.{Schedule, first_error}
use img.Common.Group.Carried.{first_error-ok, wait_both-Triple}
use img.Common.Triple.{
  Triple, Triple-bind, Triple-pure, Triple-raise, Triple-or_fail, Triple-given, Triple-weaken,
  Triple-relax, Triple-modify, Triple-if, Keeps-attempt,
}
use img.Services.{Services, Descriptor}
use img.Services.Laws.{Tags, put_tag, IsLawful}
use img.Services.Solving.{Solving}
use img.Services.Solving.Laws.{IsSolving}
use img.Client.{Client, State, print, set_client}
use img.Client.Backends.{IsValid, IsResolved}
use img.Client.Calls.{lift-Triple}
use img.Client.Images.Tagging.{Denotes}
use img.Client.Sessions.{IsSeen, Keeps-seen, View-seen, Triple-waited, Triple-unseen, Keeps-outcome}
use img.Client.Solve.Names.{
  Unmade, session-Unmade, MaybeBuilt, Built, left_seen, left_MaybeBuilt, solve-Triple,
}
use img.Client.Worker.Opens.{metadata_path}
use img.Command.{Globals, buildkit_context}
use img.Command.Tag.Names.{Named, new-names, backend_root}
use img.Build.{BuildCommand, lookup}
use img.Build.Shown.{show_progress-Keeps}
use img.Build.Run.{Request, build_with, build_in, build_context, run_build}
use img.Build.Solver.{solve_image, run_build_image}

module _ {W : Type 0} {S : Services W} {L : IsLawful S} {T : Solving W} (K : IsSolving L T)
    (t : Tags) (turn inner : Schedule) where
  Unmade-seen : (r : String) → IsSeen L (Unmade K t r)
  Unmade-seen r s s' e c (v, free) =
      (View-seen L t r s s' e c v, ap (λ (k : Client). k.controller) c ∙ free)

  -- From the session to the end of `eg.Wait`.
  solve_image-Triple :
      (r : String) (request : Request)
      → Triple
          (Unmade K t r)
          (solve_image S T turn inner request)
          (λ _. Built K t r "buildkit" request.tag)
          (MaybeBuilt K t r "buildkit" request.tag)
  unfolding solve_image lookup
  solve_image-Triple r request =
      let early : (s : State W) → Unmade K t r s → MaybeBuilt K t r "buildkit" request.tag s =
        λ s h. inl h.0 in
      Triple-bind (Triple-relax early (session-Unmade K t r _)) λ pair.
        Triple-bind (Triple-relax early (Keeps-seen L _ (Unmade-seen r) L.new_id_quiet)) λ id.
          let ctx = buildkit_context (S.sessions.id pair.0) in
          let seen = left_seen K t r "buildkit" request.tag in
          let late = left_MaybeBuilt K t r "buildkit" request.tag in
          Triple-bind
            (Triple-relax early (Triple-unseen L _ (Unmade-seen r) (λ s. refl) (λ s. refl)))
            λ _.
              Triple-bind
                (wait_both-Triple _ _ _ (λ o. Keeps-seen L _ (seen o) (L.close_quiet pair.0)) _ turn
                  (solve-Triple K t r ctx "buildkit" request.tag refl _ refl refl inner)
                  (Keeps-seen L _ (Unmade-seen r) (L.run_quiet pair.0 _ pair.1))
                  (λ o. Keeps-seen L _ (seen o) (L.run_quiet pair.0 _ pair.1)) early late)
                λ o. Triple-given λ sound.
                  Triple-bind
                    (Triple-relax (late o.0) (Keeps-attempt (show_progress-Keeps K (seen o.0))))
                    λ shown.
                      Triple-weaken
                        (Triple-waited o.0 (first_error o.1 shown)
                          (λ e. sound (first_error-ok o.1 shown e).0.1) (late o.0))
                        (λ _ s b. b.1)

module _ {W : Type 0} {S : Services W} {L : IsLawful S} {T : Solving W} (K : IsSolving L T)
    (t : Tags) (turn inner : Schedule) (fuel : ℕ) (g : Globals) (valid : IsValid g.backend) where
  -- In the metadata file of one of the backends `k` refers to something, and no other name of any
  -- file or namespace changed.
  abbrev pub Tagged : String → State W → Type 0
  Tagged k s =
      (b : String) × (d : Descriptor) × IsResolved b
      × (L.tags s.host
          ≡ put_tag t (metadata_path (backend_root g.state_dir b)) "buildkit" k (some d))

  abbrev pub MaybeTagged : String → State W → Type 0
  MaybeTagged k s = Named L t s ⊎ Tagged k s

  tagged :
      (b k : String)
      → IsResolved b
      → (s : State W) → Built K t (backend_root g.state_dir b) "buildkit" k s
      → Tagged k s
  tagged b k resolved s (d, v) = (b, d, resolved, v.0)

  maybe_tagged :
      (b k : String)
      → IsResolved b
      → (s : State W) → MaybeBuilt K t (backend_root g.state_dir b) "buildkit" k s
      → MaybeTagged k s
  maybe_tagged b k resolved s (inl v) = inl v.0
  maybe_tagged b k resolved s (inr h) = inr (tagged b k resolved s h)

  build_with-Triple :
      (cmd : BuildCommand) (tag dir path : String)
      → Triple
          (Named L t)
          (build_with S fuel (solve_image S T turn inner) g cmd tag dir path)
          (λ _. Tagged tag)
          (MaybeTagged tag)
  unfolding build_with set_client print modify
  build_with-Triple cmd tag dir path =
      Triple-bind (Triple-relax (λ s. inl) (new-names L t g.state_dir g.backend _ valid)) λ c.
        Triple-given λ fresh.
          let r = backend_root g.state_dir c.backend in
          Triple-bind (Triple-modify {Q = Unmade K t r} _ (λ s h. ((h, fresh.1), fresh.3))) λ _.
            Triple-relax (maybe_tagged c.backend tag fresh.0) (
              Triple-bind
                (Triple-relax (λ s h. inl h.0)
                  (lift-Triple (Unmade K t r) (λ _. Unit {0}) _ (λ a e. tt)))
                λ attrs. Triple-given λ _.
                  Triple-bind (Triple-modify {Q = Unmade K t r} _ (λ s h. h)) λ _.
                    Triple-bind (Triple-modify {Q = Unmade K t r} _ (λ s h. h)) λ _.
                      Triple-bind
                        (Triple-weaken (solve_image-Triple K t turn inner r _)
                          (λ _ s h. tagged c.backend tag fresh.0 s h))
                        λ _. Triple-modify {Q = Tagged tag} _ (λ s h. h))

  -- The full name that the flag `-t` stands for, as it is tagged.
  abbrev pub NamedBy : String → State W → Type 0
  NamedBy image s = (k : String) × Denotes S image k × Tagged k s

  abbrev pub MaybeNamedBy : String → State W → Type 0
  MaybeNamedBy image s = Named L t s ⊎ NamedBy image s

  named_by :
      (image p : String)
      → S.references.parse_normalized_named image ≡ ok p
      → (s : State W) → MaybeTagged (S.references.tag_name_only p) s
      → MaybeNamedBy image s
  named_by image p e s (inl h) = inl h
  named_by image p e s (inr h) = inr (S.references.tag_name_only p, (p, e, refl), h)

  build_in-Triple :
      (cmd : BuildCommand) (dir path : String)
      → Triple
          (Named L t)
          (build_in S fuel (solve_image S T turn inner) g cmd dir path)
          (λ _. NamedBy cmd.tag)
          (MaybeNamedBy cmd.tag)
  unfolding build_in
  build_in-Triple cmd dir path =
      Triple-bind
        (Triple-relax (λ s. inl)
          (Triple-or_fail _ (
            lift-Triple (Named L t) (λ p. S.references.parse_normalized_named cmd.tag ≡ ok p) _
              (λ p e. e))))
        λ p. Triple-given λ e.
          Triple-bind
            (Triple-relax (λ s. inl)
              (Triple-if (path == "") (Keeps-outcome _)
                (Triple-pure {Q = λ _. Named L t} _ (λ s h. h))))
            λ path'.
              Triple-weaken
                (Triple-relax (named_by cmd.tag p e) (build_with-Triple cmd _ dir path'))
                (λ _ s h. (_, (p, e, refl), h))

  -- `Run` where neither the Dockerfile nor the context comes from the standard input.
  pub run_build_image-Triple :
      (cmd : BuildCommand) (dir : String) (more : List String)
      → (cmd.dockerfile_path == "-") ≡ false
      → (dir == "-") ≡ false
      → Triple
          (Named L t)
          (run_build_image S T turn inner fuel g cmd (dir ∷ more))
          (λ _. NamedBy cmd.tag)
          (MaybeNamedBy cmd.tag)
  unfolding run_build_image run_build build_context
  run_build_image-Triple cmd dir more file path =
      rw (file, path)
        (Triple-if (cmd.tag == "") (Triple-relax (λ s. inl) (Triple-raise _)) (
          Triple-if (dir == "") (Triple-relax (λ s. inl) (Triple-raise _))
            (build_in-Triple cmd dir cmd.dockerfile_path)))
