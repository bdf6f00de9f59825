-- ===== src/Client/Controller/Opens.antt =====
-- The controller that `createController` makes works on the metadata file of the client's worker.
use img.Common.{String, some, ◌≡◌, refl, ◌∙◌}
use img.Common.Exec.{modify}
use img.Common.Triple.{Triple, Triple-bind, Triple-or_fail, Triple-given, Triple-modify, Keeps-gets}
use img.Services.{Services, Handle}
use img.Services.Laws.{Tags, IsLawful}
use img.Services.Solving.{Solving}
use img.Services.Solving.Laws.{IsSolving}
use img.Client.{State}
use img.Client.Controller.{create_controller}
use img.Client.Images.Tagging.{Triple-lift}
use img.Client.Worker.Opens.{
  View, metadata_path, Keeps-call, Triple-call, get_session_manager-Keeps, create_worker_opt-Triple,
}

module _ {W : Type 0} {S : Services W} {L : IsLawful S} {T : Solving W} (K : IsSolving L T)
    (t : Tags) (r : String) where
  -- The names are those of `t`, and the client's controller keeps its images below `r`.
  abbrev pub Controls : Handle → State W → Type 0
  Controls c s =
      View L t r s × (s.client.controller ≡ some c) × (K.controller_file c ≡ metadata_path r)

  pub create_controller-Triple :
      Triple (View L t r) (create_controller S) (λ _ s. (c : Handle) × Controls c s) (View L t r)
  unfolding create_controller modify
  create_controller-Triple = Triple-bind (Triple-or_fail _ (get_session_manager-Keeps L t r)) λ sm.
      Triple-bind (Triple-or_fail _ (create_worker_opt-Triple L t r)) λ opt.
        Triple-given λ (store, stored, file).
          Triple-bind
            (Triple-or_fail _ (
              Triple-call L t r _ (λ h. K.worker_file h ≡ L.file_of store) (K.worker_quiet opt)
                (λ w h _ e. K.made_worker opt store h w stored e)))
            λ h. Triple-given λ works. Triple-bind (Triple-or_fail _ (Triple-lift L t r _)) λ wc.
              Triple-given λ e. Triple-bind (Keeps-gets _) λ root.
                Triple-bind (Keeps-call L t r _ (K.cache_quiet _)) λ cache.
                  Triple-bind
                    (Triple-or_fail _ (
                      Triple-call L t r _ (λ c. K.controller_file c ≡ K.worker_file h)
                        (K.controller_quiet _)
                        (λ w c _ f. K.made_controller _ h c w (K.added h wc e) f)))
                    λ c.
                      Triple-given
                        λ serves. Triple-modify _ (λ s v. (c, (v, refl, serves ∙ (works ∙ file))))
