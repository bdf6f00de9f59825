-- ===== src/Command/Tag/Total.antt =====
-- When `img tag` succeeds: over services that answer, exactly the answers of the image store matter.
use img.Common.{String, some, List, [], ◌∷◌, ◌≡◌, refl, ◌∙◌, inl, inr}
use img.Common.Exec.{Exec, ok, modify}
use img.Common.Triple.{Triple, Triple-bind, Triple-pure, Triple-given, Triple-modify}
use img.Services.{Services, Context, Descriptor}
use img.Services.Laws.{Tags, put_tag, IsLawful, IsQuiet}
use img.Services.Up.{IsUp}
use img.Services.Up
use img.Client.{Client, State, call, print, set_client, resolve_backend, new}
use img.Client.Backends.{IsResolved}
use img.Client.Images.{tag_image}
use img.Client.Images.Tagging.{Denotes}
use img.Client.Images.Total.{tag_image-ok}
use img.Client.Worker.Opens.{metadata_path}
use img.Client.Worker.Up.{Never, create_worker_opt-opens}
use img.Command.{Globals, buildkit_context}
use img.Command.Tag.{run_tag}
use img.Command.Tag.Names.{Named, backend_root}

-- A client of the backend of the flags, below its directory.
abbrev pub MadeBy : Globals → Client → Type 0
MadeBy g c = (c.backend ≡ g.backend) × (c.root ≡ backend_root g.state_dir g.backend)

module _ {W : Type 0} {S : Services W} {r : String} (L : IsLawful S) (U : IsUp S r) (t : Tags) where
  -- A call that answers and leaves the names alone.
  pub Returns-names :
      {A : Type 0} (m : Exec W A)
      → Up.Answers m
      → IsQuiet L.tags m
      → Triple (Named L t) (call m) (λ _. Named L t) Never
  unfolding call
  Returns-names m answers quiet = record {
    at = λ s h. let (a, e) = answers s.host in rw e (quiet s.host ∙ h);
  }

  -- `New` with a backend that is not `auto`.
  pub new-Up :
      (root backend : String)
      → IsResolved backend
      → Triple
          (Named L t)
          (new S root backend [])
          (λ c s. Named L t s × ((c.backend ≡ backend) × (c.root ≡ backend_root root backend)))
          Never
  unfolding new resolve_backend
  new-Up root backend (inl e) = rw e (
      Triple-bind
        (Triple-pure {Q = λ b s. Named L t s × (b ≡ "native")} "native" (λ s h. (h, refl)))
        λ b. Triple-given λ same.
          Triple-bind (Returns-names _ (U.mkdir _ _) (L.mkdir_quiet _ _))
            λ _. rw same (Triple-pure _ (λ s h. (h, (refl, refl)))))
  new-Up root backend (inr e) = rw e (
      Triple-bind
        (Triple-pure {Q = λ b s. Named L t s × (b ≡ "overlayfs")} "overlayfs" (λ s h. (h, refl)))
        λ b. Triple-given λ same.
          Triple-bind (Returns-names _ (U.mkdir _ _) (L.mkdir_quiet _ _))
            λ _. rw same (Triple-pure _ (λ s h. (h, (refl, refl)))))

module _ {W : Type 0} {S : Services W} (L : IsLawful S) (t : Tags) (g : Globals)
    (U : IsUp S (backend_root g.state_dir g.backend)) (resolved : IsResolved g.backend)
    (src dest k k' : String) (d : Descriptor) (from : Denotes S src k) (to : Denotes S dest k')
    (present : t (metadata_path (backend_root g.state_dir g.backend)) "buildkit" k ≡ some d) where
  -- The source is below the backend's directory, and the target refers to it too.
  abbrev pub WithTarget : State W → Type 0
  WithTarget s =
      L.tags s.host
      ≡ put_tag t (metadata_path (backend_root g.state_dir g.backend)) "buildkit" k' (some d)

  tag_image-at :
      (ctx : Context) (s : State W)
      → ctx.namespace ≡ some "buildkit"
      → Named L t s
      → MadeBy g s.client
      → ((tag_image S ctx src dest s).0 ≡ ok tt) × WithTarget (tag_image S ctx src dest s).1
  tag_image-at ctx s spaced names (backend, root) =
      let (opt, opened) = create_worker_opt-opens U s (rw backend resolved) root in
      let here : L.tags s.host (metadata_path s.client.root) "buildkit" k ≡ some d =
        rw (names, root) present in
      let both = tag_image-ok L ctx "buildkit" spaced src dest k k' d opt s from to opened here in
      (both.0, rw (← names, ← root) both.1)

  tag_image-Total :
      (ctx : Context)
      → ctx.namespace ≡ some "buildkit"
      → Triple
          (λ s. Named L t s × MadeBy g s.client)
          (tag_image S ctx src dest)
          (λ _. WithTarget)
          Never
  tag_image-Total ctx spaced = record {
    at = λ s (names, made). let (e, v) = tag_image-at ctx s spaced names made in rw e v;
  }

  -- `img tag` succeeds.
  pub run_tag-Total :
      (more : List String)
      → Triple (Named L t) (run_tag S g (src ∷ dest ∷ more)) (λ _. WithTarget) Never
  unfolding run_tag print set_client modify
  run_tag-Total more = Triple-bind (Returns-names L U t _ U.new_id L.new_id_quiet) λ id.
      Triple-bind (new-Up L U t g.state_dir g.backend resolved) λ c. Triple-given λ made.
        Triple-bind (Triple-modify {Q = λ s. Named L t s × MadeBy g s.client} _ (λ s h. (h, made)))
          λ _.
            Triple-bind (tag_image-Total (buildkit_context id) refl) λ _. Triple-modify _ (λ s h. h)
