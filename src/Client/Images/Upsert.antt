-- ===== src/Client/Images/Upsert.antt =====
-- "Update the target image. Create it if it does not exist.", of client/tag.go and client/pull.go,
-- and the deletion of client/remove.go, over a lawful store.
use img.Common.{String, true, none, some, ◌≡◌, sym, ◌∙◌, ap, inl, inr, Option-cases}
use img.Common.Exec.{ok, ◌>>=◌}
use img.Common.Triple.{Triple, Post}
use img.Services.{Services, Handle, Context, Descriptor, Image}
use img.Services.Laws.{Tags, put_tag, IsLawful}
use img.Client.{State, call}
use img.Client.Worker.Opens.{View}
use img.Client.Images.{update_or_create}

module _ {W : Type 0} {S : Services W} (L : IsLawful S) (t : Tags) (r : String) (ctx : Context)
    (n : String) (spaced : ctx.namespace ≡ some n) (h : Handle) (E : State W → Type 0) where
  update_found :
      (img : Image) (d : Descriptor) (s : State W)
      → View L t r s
      → L.tags s.host (L.file_of h) n img.name ≡ some d
      → Post
          (λ _. View L (put_tag t (L.file_of h) n img.name (some img.target)) r)
          E
          (update_or_create S h ctx img s).0
          (update_or_create S h ctx img s).1
  unfolding update_or_create call ◌>>=◌
  update_found img d s v e =
      let (j, answer, names) = L.update_found h ctx n img d s.host spaced e in
      rw answer (names ∙ ap (λ u. put_tag u (L.file_of h) n img.name (some img.target)) v.0, v.1)

  update_missing :
      (img : Image) (s : State W)
      → View L t r s
      → L.tags s.host (L.file_of h) n img.name ≡ none
      → Post
          (λ _. View L (put_tag t (L.file_of h) n img.name (some img.target)) r)
          E
          (update_or_create S h ctx img s).0
          (update_or_create S h ctx img s).1
  unfolding update_or_create call ◌>>=◌
  update_missing img s v e =
      let (text, answer, names) = L.update_missing h ctx n img s.host spaced e in
      let w = (S.images.update h ctx img s.host).1 in
      let (j, made, names') =
        L.create_missing h ctx n img w spaced (ap (λ u. u (L.file_of h) n img.name) names ∙ e) in
      rw answer (
        rw made (
          names' ∙ ap (λ u. put_tag u (L.file_of h) n img.name (some img.target)) (names ∙ v.0),
          v.1,
        ))

  -- Afterwards the name refers to the target, and every other name to what it did.
  pub update_or_create-Triple :
      (img : Image)
      → Triple
          (View L t r)
          (update_or_create S h ctx img)
          (λ _. View L (put_tag t (L.file_of h) n img.name (some img.target)) r)
          E
  update_or_create-Triple img = record {
    at = λ s v. elim (Option-cases (L.tags s.host (L.file_of h) n img.name)) [
      | inl e ↦ update_missing img s v e
      | inr (d, e) ↦ update_found img d s v e
    ];
  }

module _ {W : Type 0} {S : Services W} (L : IsLawful S) (t : Tags) (r : String) (ctx : Context)
    (n : String) (spaced : ctx.namespace ≡ some n) (h : Handle) where
  delete-Post :
      (k : String) (s : State W)
      → View L t r s
      → Post
          (λ _ s'.
            (d : Descriptor) × (t (L.file_of h) n k ≡ some d)
            × View L (put_tag t (L.file_of h) n k none) r s')
          (View L t r)
          (call (S.images.delete h ctx k true) s).0
          (call (S.images.delete h ctx k true) s).1
  unfolding call
  delete-Post k s v = elim (Option-cases (L.tags s.host (L.file_of h) n k)) [
    | inl e ↦
        let (text, answer, names) = L.delete_missing h ctx n k s.host spaced e in
        rw answer (names ∙ v.0, v.1)
    | inr (d, e) ↦
        let (answer, names) = L.delete_found h ctx n k d s.host spaced e in
        rw answer (
          d,
          ap (λ (u : Tags). u (L.file_of h) n k) (sym v.0) ∙ e,
          (names ∙ ap (λ u. put_tag u (L.file_of h) n k none) v.0, v.1),
        )
  ]

  -- A deletion that succeeds took away a name that was there, and that name alone.
  pub delete-Triple :
      (k : String)
      → Triple
          (View L t r)
          (call (S.images.delete h ctx k true))
          (λ _ s'.
            (d : Descriptor) × (t (L.file_of h) n k ≡ some d)
            × View L (put_tag t (L.file_of h) n k none) r s')
          (View L t r)
  delete-Triple k = record { at = delete-Post k }

  -- What `Get` returns is what the name refers to.
  pub get_fact :
      (k : String) (w : W) (i : Image)
      → L.tags w ≡ t
      → (S.images.get h ctx k w).0 ≡ ok i
      → t (L.file_of h) n k ≡ some i.target
  get_fact k w i e got = elim (Option-cases (L.tags w (L.file_of h) n k)) [
    | inl absent ↦ let (text, answer) = L.get_missing h ctx n k w spaced absent in cc
    | inr (d, present) ↦
        let (j, answer, name, target) = L.get_found h ctx n k d w spaced present in
        ap (λ (u : Tags). u (L.file_of h) n k) (sym e)
        ∙ (present ∙ ap some (sym target ∙ ap (λ (i : Image). i.target) (same answer)))
  ]
    where
      same : {j : Image} → (S.images.get h ctx k w).0 ≡ ok j → j ≡ i
      same answer = cc
