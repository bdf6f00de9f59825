-- ===== src/Command/Remove/Total.antt =====
-- When `img rm` of one image succeeds, over services that answer.
use img.Common.{String, true, none, some, [], ◌∷◌, ◌≡◌, refl, ◌∙◌}
use img.Common.Exec.{modify}
use img.Common.Triple.{
  Triple, Triple-bind, Triple-pure, Triple-or_fail, Triple-given, Triple-modify,
}
use img.Services.{Services, Handle, Context, Descriptor}
use img.Services.Laws.{Tags, put_tag, IsLawful}
use img.Services.Up.{IsUp}
use img.Client.{State, call, print, set_client}
use img.Client.Backends.{IsResolved}
use img.Client.Images.{remove_image}
use img.Client.Images.Tagging.{Denotes}
use img.Client.Images.Total.{Here, parse_name-returns, worker_opt-returns, unchecked_store-returns}
use img.Client.Worker.Opens.{metadata_path}
use img.Client.Worker.Up.{Never, create_worker_opt-opens}
use img.Command.{Globals, buildkit_context}
use img.Command.Remove.{run_remove}
use img.Command.Tag.Names.{Named, backend_root}
use img.Command.Tag.Total.{MadeBy, Returns-names, new-Up}

module _ {W : Type 0} {S : Services W} (L : IsLawful S) (t : Tags) (g : Globals)
    (U : IsUp S (backend_root g.state_dir g.backend)) (resolved : IsResolved g.backend)
    (image k : String) (d : Descriptor) (from : Denotes S image k)
    (present : t (metadata_path (backend_root g.state_dir g.backend)) "buildkit" k ≡ some d) where
  abbrev pub Without : State W → Type 0
  Without s =
      L.tags s.host
      ≡ put_tag t (metadata_path (backend_root g.state_dir g.backend)) "buildkit" k none

  delete-returns :
      (ctx : Context) (h : Handle) (s : State W)
      → ctx.namespace ≡ some "buildkit"
      → Named L t s
      → s.client.root ≡ backend_root g.state_dir g.backend
      → L.file_of h ≡ metadata_path s.client.root
      → Triple (Here L s) (call (S.images.delete h ctx k true)) (λ _. Without) Never
  unfolding call
  delete-returns ctx h s spaced names root file = record {
    at = λ st v.
        let there : L.tags st.host (L.file_of h) "buildkit" k ≡ some d =
          rw (v.0, names, file, root) present in
        let (answer, left) = L.delete_found h ctx "buildkit" k d st.host spaced there in
        rw answer (left ∙ rw (v.0, names, file, root) refl);
  }

  remove_image-at :
      (ctx : Context) (s : State W)
      → ctx.namespace ≡ some "buildkit"
      → Named L t s
      → MadeBy g s.client
      → Triple (λ st. st ≡ s) (remove_image S ctx image) (λ _. Without) Never
  unfolding remove_image
  remove_image-at ctx s spaced names (backend, root) =
      let (opt, opened) = create_worker_opt-opens U s (rw backend resolved) root in
      Triple-bind (parse_name-returns S _ image k from) λ k₁. Triple-given λ e. rw e (
        Triple-bind (worker_opt-returns L s opt opened) λ o. Triple-given λ reads.
          Triple-bind (unchecked_store-returns L s o reads) λ h.
            Triple-given λ file. Triple-or_fail _ (delete-returns ctx h s spaced names root file))

  remove_image-Total :
      (ctx : Context)
      → ctx.namespace ≡ some "buildkit"
      → Triple
          (λ s. Named L t s × MadeBy g s.client)
          (remove_image S ctx image)
          (λ _. Without)
          Never
  remove_image-Total ctx spaced = record {
    at = λ s (names, made). (remove_image-at ctx s spaced names made).at s refl;
  }

  pub run_remove-Total : Triple (Named L t) (run_remove S g (image ∷ [])) (λ _. Without) Never
  unfolding run_remove print set_client modify
  run_remove-Total = Triple-bind (Returns-names L U t _ U.new_id L.new_id_quiet) λ id.
      Triple-bind (new-Up L U t g.state_dir g.backend resolved) λ c. Triple-given λ made.
        Triple-bind (Triple-modify {Q = λ s. Named L t s × MadeBy g s.client} _ (λ s h. (h, made)))
          λ _.
            Triple-bind (Triple-modify {Q = λ s. Named L t s × MadeBy g s.client} _ (λ s h. h)) λ _.
              Triple-bind (remove_image-Total (buildkit_context id) refl) λ _.
                Triple-bind (Triple-modify {Q = Without} _ (λ s h. h))
                  λ _. Triple-pure tt (λ s h. h)
