-- ===== src/Command/Save/Writer.antt =====
-- The writer that `SaveImage` and the loop of `img save` share.
use img.Common.{String, List, ◌∷◌, ◌≡◌, ◌≢◌, refl}
use img.Common.Exec.{Outcome, ok, err, halt, panic, diverge}
use img.Common.Triple.{
  Triple, Post, Triple-bind, Triple-or_fail, Triple-lax, never_returns, anything,
}
use img.Services.{Services, Handle, Context, Descriptor}
use img.Client.{State, call}
use img.Client.Worker.Keeps.{Preserves, Pieces, OnHost, Keeps-host}
use img.Client.Images.{save_image}
use img.Client.Images.Parts.{parse_name-OnHost, worker_opt-OnHost, checked_store-OnHost}
use img.Command.{Globals, buildkit_context}
use img.Command.Save.{save_images, run_save}

-- What a writer does: a close that succeeds closes it, it stays closed, and an export to a closed
-- writer fails.
pub record Writers {W : Type 0} (S : Services W) : Type 1 where
  pub IsClosed : Handle → W → Type 0
  pub closes :
      (h : Handle) (w : W) → (S.files.close h w).0 ≡ ok tt → IsClosed h (S.files.close h w).1
  pub stays : (h : Handle) → Pieces S (IsClosed h)
  pub stays_get :
      (h store : Handle) (ctx : Context) (k : String)
      → Preserves (IsClosed h) (S.images.get store ctx k)
  pub refuses :
      (ctx : Context) (k : String) (content : Handle) (d : Descriptor) (h : Handle) (w : W)
      → IsClosed h w
      → (S.images.export ctx k content d h w).0 ≢ ok tt

module _ {W : Type 0} {S : Services W} (L : Writers S) (h : Handle) where
  closed-Post :
      (s : State W) (first : Outcome (Unit {0}))
      → (first ≡ ok tt → L.IsClosed h s.host)
      → (o : Outcome (Unit {0})) → first ≡ o
      → Post (λ _. OnHost (L.IsClosed h)) (λ _. Unit) o s
  closed-Post s first f (ok tt) e = f e
  closed-Post s first f (err x) e = tt
  closed-Post s first f (halt n) e = tt
  closed-Post s first f panic e = tt
  closed-Post s first f diverge e = tt

  close-closes :
      Triple (λ _. Unit) (call (S.files.close h)) (λ _. OnHost (L.IsClosed h)) (λ _. Unit)
  unfolding call
  close-closes = record {
    at = λ s _.
        closed-Post (record s { host = (S.files.close h s.host).1 }) (S.files.close h s.host).0
          (L.closes h s.host) (S.files.close h s.host).0 refl;
  }

  -- An export that returns leaves the writer closed.
  save_image-closes :
      (ctx : Context) (image : String)
      → Triple (λ _. Unit) (save_image S ctx image h) (λ _. OnHost (L.IsClosed h)) (λ _. Unit)
  unfolding save_image
  save_image-closes ctx image = Triple-bind (anything _) λ k. Triple-bind (anything _) λ opt.
      Triple-bind (anything _)
        λ store. Triple-bind (anything _) λ found. Triple-bind (anything _) λ _. close-closes

  refused-Post :
      (s : State W) (first : Outcome (Unit {0}))
      → first ≢ ok tt
      → (o : Outcome (Unit {0})) → first ≡ o
      → Post (λ _ _. ⊥) (λ _. Unit) o s
  refused-Post s first f (ok tt) e = f e
  refused-Post s first f (err x) e = tt
  refused-Post s first f (halt n) e = tt
  refused-Post s first f panic e = tt
  refused-Post s first f diverge e = tt

  export-refused :
      (ctx : Context) (k : String) (content : Handle) (d : Descriptor)
      → Triple
          (OnHost (L.IsClosed h))
          (call (S.images.export ctx k content d h))
          (λ _ _. ⊥)
          (λ _. Unit)
  unfolding call
  export-refused ctx k content d = record {
    at = λ s c.
        refused-Post (record s { host = (S.images.export ctx k content d h s.host).1 })
          (S.images.export ctx k content d h s.host).0 (L.refuses ctx k content d h s.host c)
          (S.images.export ctx k content d h s.host).0 refl;
  }

  -- To a closed writer no image is saved.
  save_image-refused :
      (ctx : Context) (image : String)
      → Triple (OnHost (L.IsClosed h)) (save_image S ctx image h) (λ _ _. ⊥) (λ _. Unit)
  unfolding save_image
  save_image-refused ctx image =
      Triple-bind (Triple-lax (parse_name-OnHost S (L.IsClosed h) image)) λ k.
        Triple-bind (Triple-lax (worker_opt-OnHost S (L.IsClosed h) (L.stays h))) λ opt.
          Triple-bind (Triple-lax (checked_store-OnHost S (L.IsClosed h) opt)) λ store.
            Triple-bind
              (Triple-lax
                (Triple-or_fail _ (Keeps-host (L.IsClosed h) _ (L.stays_get h store ctx k))))
              λ found.
                Triple-bind
                  (Triple-or_fail _ (export-refused ctx found.name opt.content_store found.target))
                  λ _. record { at = λ s c. absurd c }

  save_images-refused :
      (ctx : Context) (a b : String) (images : List String)
      → Triple (λ _. Unit) (save_images S ctx h (a ∷ b ∷ images)) (λ _ _. ⊥) (λ _. Unit)
  unfolding save_images
  save_images-refused ctx a b images =
      Triple-bind (save_image-closes ctx a)
        λ _. Triple-bind (save_image-refused ctx b) λ _. record { at = λ s c. absurd c }

module _ {W : Type 0} {S : Services W} (L : Writers S) where
  -- Over services in which a closed writer stays closed and an export to it fails, `img save` of two
  -- images or more does not succeed, whatever the images are and whatever it writes to.
  pub run_save-two :
      (g : Globals) (output a b : String) (images : List String) (s : State W)
      → (run_save S g output (a ∷ b ∷ images) s).0 ≢ ok tt
  unfolding run_save
  run_save-two g output a b images s =
      never_returns
        (Triple-bind (anything _) λ id. Triple-bind (anything _) λ c. Triple-bind (anything _) λ _.
          Triple-bind (anything _) λ w. save_images-refused L w (buildkit_context id) a b images)
        s tt tt
