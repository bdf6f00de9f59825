-- ===== src/Command/Remove/Sequence.antt =====
-- The loop of `img rm` over its arguments.
use img.Common.{String, none, some, List, [], ◌∷◌, ◌++◌, ◌≡◌, refl, ap}
use img.Common.Exec.{modify}
use img.Common.Output.{Line}
use img.Common.Triple.{
  Triple, Keeps, Triple-bind, Triple-pure, Triple-weaken, Triple-relax, Triple-modify,
}
use img.Services.{Services, Context, Descriptor}
use img.Services.Laws.{Tags, put_tag, IsLawful}
use img.Client.{State, print}
use img.Client.Worker.Opens.{View, metadata_path}
use img.Client.Images.Tagging.{Denotes, remove_image-Triple}
use img.Command.Remove.{remove_images}

module _ {W : Type 0} {S : Services W} (L : IsLawful S) (r : String) (ctx : Context) (n : String)
    (spaced : ctx.namespace ≡ some n) where
  -- The names are taken away one after the other, each present when its turn comes.
  abbrev pub Cleared : List String → Tags → Tags → Type 0
  Cleared [] t t' = t ≡ t'
  Cleared (image ∷ images) t t' =
      (k : String) × (d : Descriptor) × Denotes S image k
      × (t (metadata_path r) n k ≡ some d)
      × Cleared images (put_tag t (metadata_path r) n k none) t'

  abbrev pub AllCleared : List String → Tags → State W → Type 0
  AllCleared images t s = (t' : Tags) × Cleared images t t' × View L t' r s

  -- Some of the first images were removed, and nothing else.
  abbrev pub SomeCleared : List String → Tags → State W → Type 0
  SomeCleared images t s =
      (before : List String) × (rest : List String) × (before ++ rest ≡ images)
      × AllCleared before t s

  print-View : (t : Tags) (line : Line) → Keeps (View L t r) (print line)
  unfolding print modify
  print-View t line = Triple-modify _ (λ s h. h)

  nothing : (images : List String) (t : Tags) (s : State W) → View L t r s → SomeCleared images t s
  nothing images t s v = ([], images, refl, (t, refl, v))

  -- The loop of `img rm` over lawful services, from any state: if it returns, every image was present
  -- when its turn came and was removed, in their order, and no other name changed; if it fails, in
  -- whatever way, this holds of some of the first images, and nothing else was removed.
  pub remove_images-Triple :
      (images : List String) (t : Tags)
      → Triple
          (View L t r)
          (remove_images S ctx images)
          (λ _. AllCleared images t)
          (SomeCleared images t)
  unfolding remove_images
  remove_images-Triple [] t = Triple-pure tt (λ s v. (t, refl, v))
  remove_images-Triple (image ∷ images) t =
      Triple-bind (Triple-relax (nothing _ t) (print-View t _)) λ _.
        Triple-bind (Triple-relax (nothing _ t) (remove_image-Triple L t r ctx n spaced image)) λ _.
          record {
            at = λ s (k, d, name, found, v).
                let t' = put_tag t (metadata_path r) n k none in
                let others =
                  Triple-bind
                    (Triple-relax
                      (λ s v. (image ∷ [], images, refl, (t', (k, d, name, found, refl), v)))
                      (print-View t' _))
                    (λ _.
                      Triple-relax
                        (λ s (before, rest, e, (t₂, cleared, v)). (
                          image ∷ before,
                          rest,
                          ap (λ l. image ∷ l) e,
                          (t₂, (k, d, name, found, cleared), v),
                        ))
                        (Triple-weaken (remove_images-Triple images t')
                          (λ _ s (t₂, cleared, v). (t₂, (k, d, name, found, cleared), v)))) in
                others.at s v;
          }
