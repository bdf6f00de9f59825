-- ===== src/Command/Save/Names.antt =====
-- `img save` against the names of the image store as a map and the exports that were made.
use img.Common.{
  String, Bool, Bool-cases, ◌≢◌, eq_iff, true, false, List, [], ◌∷◌, ◌++◌, ◌==◌, ◌≡◌, refl, inl,
  inr,
}
use img.Common.Exec.{Exec, modify}
use img.Common.Triple.{
  Triple, Triple-bind, Triple-given, Triple-relax, Triple-modify, Triple-pure, Triple-raise,
  Triple-weaken, Triple-both,
}
use img.Services.{Services, Handle}
use img.Services.Laws.{Tags, IsLawful, IsQuiet}
use img.Client.{State, call, set_client}
use img.Client.Backends.{IsValid, IsResolved, new-OnHost}
use img.Client.Worker.Keeps.{Preserves, Keeps-host}
use img.Client.Worker.Opens.{View, Keeps-call, Triple-call}
use img.Command.{Globals}
use img.Command.Save.Exports.{
  Export, Exports, Made, AreExports, both, both_keep, save_images-Triple,
}
use img.Command.Save.{stdout_writer, writer, run_save}
use img.Command.Tag.Names.{Named, Keeps-names, new-names, backend_root}

module _ {W : Type 0} {S : Services W} {L : IsLawful S} (X : Exports L) where
  -- What is written to is no metadata file: neither the file that is named nor, where none is, what
  -- stands behind the standard output.
  abbrev pub IsAside : String → Type 0
  IsAside output =
      (output ≢ "" → ¬ X.IsImageFile output) × (output ≡ "" → ¬ X.GoesIntoOne S.files.stdout)

module _ {W : Type 0} {S : Services W} {L : IsLawful S} (X : Exports L) (t : Tags)
    (r : String) where
  stdout_writer-Triple :
      (l : List Export) (b : Bool)
      → Triple
          (Made X t r l)
          (stdout_writer S b)
          (λ h s. Made X t r l s × (h ≡ S.files.stdout))
          (View L t r)
  unfolding stdout_writer
  stdout_writer-Triple l true = Triple-relax (λ s h. h.0) (Triple-raise _)
  stdout_writer-Triple l false = Triple-pure _ (λ s h. (h, refl))

  -- The standard output where no file is named.
  abbrev pub IsWriter : String → Handle → Type 0
  IsWriter output h = (output == "") ≡ true → h ≡ S.files.stdout

  create-Triple :
      (l : List Export) (output : String)
      → ¬ X.IsImageFile output
      → Triple
          (Made X t r l)
          (call (S.files.create output))
          (λ h s. Made X t r l s × ¬ X.GoesIntoOne h)
          (View L t r)
  create-Triple l output other =
      both X t r l
        (Triple-call L t r (S.files.create output) (λ h. ¬ X.GoesIntoOne h)
          (X.create_quiet output other) (λ w h same e. X.created output w h other e))
        (Keeps-host _ _ (X.create l output))

  writer-Triple :
      (l : List Export) (output : String)
      → IsAside X output
      → Triple
          (Made X t r l)
          (writer S output)
          (λ h s. Made X t r l s × (IsWriter output h × ¬ X.GoesIntoOne h))
          (View L t r)
  unfolding writer
  writer-Triple l output aside = elim (Bool-cases (output == "")) [
    | inl e ↦ rw e (
        Triple-weaken
          (Triple-bind
            (both_keep X t r l (Keeps-call L t r _ X.terminal_quiet)
              (Keeps-host _ _ (X.terminal l)))
            λ b. stdout_writer-Triple l b)
          (λ h s m. (m.0, (λ _. m.1, rw m.1 (aside.1 ((eq_iff output "").0 e))))))
    | inr e ↦ rw e (
        Triple-weaken (create-Triple l output (aside.0 (λ x. let y = (eq_iff output "").1 x in cc)))
          (λ h s m. (m.0, (λ x. cc, m.1))))
  ]

module _ {W : Type 0} {S : Services W} {L : IsLawful S} (X : Exports L) (t : Tags) (g : Globals)
    (valid : IsValid g.backend) (before : List Export) where
  -- The names, and the exports that were made before.
  abbrev pub Unsaved : State W → Type 0
  Unsaved s = Named L t s × (X.made s.host ≡ before)

  -- The exports of the images followed, over the metadata file of one of the backends, and no name
  -- changed.
  abbrev pub Saved : String → List String → State W → Type 0
  Saved output images s =
      Named L t s
      × ((b : String) × (h : Handle) × (es : List Export) × IsResolved b
          × IsWriter X t (backend_root g.state_dir b) output h
          × AreExports X t (backend_root g.state_dir b) h images es
          × (X.made s.host ≡ before ++ es))

  pub begun :
      {A : Type 0} (m : Exec W A)
      → IsQuiet L.tags m
      → Preserves (λ w. X.made w ≡ before) m
      → Triple Unsaved (call m) (λ _. Unsaved) (Named L t)
  begun m q k = Triple-relax (λ s h. h.0) (Triple-both (Keeps-names L t m q) (Keeps-host _ m k))

  pub run_save-Triple :
      (output : String)
      → IsAside X output
      → (images : List String)
      → Triple Unsaved (run_save S g output images) (λ _. Saved output images) (Named L t)
  unfolding run_save set_client modify
  run_save-Triple output aside [] = Triple-relax (λ s h. h.0) (Triple-raise _)
  run_save-Triple output aside (image ∷ images) =
      Triple-bind (begun _ L.new_id_quiet (X.new_id before)) λ id.
        Triple-bind
          (Triple-relax (λ s h. h.0)
            (Triple-weaken
              (Triple-both (new-names L t g.state_dir g.backend [] valid) (
                new-OnHost S (λ w. X.made w ≡ before) (X.probe before) (X.mkdir before) g.state_dir
                  g.backend [] valid))
              (λ c s h. ((h.0.0, h.1.0), h.0.1))))
          λ c. Triple-given {P = Unsaved} λ fresh.
            let r = backend_root g.state_dir c.backend in
            Triple-bind (Triple-modify {Q = Made X t r before} _ (λ s h. ((h.0, fresh.1), h.1)))
              λ _.
                Triple-relax (λ s (v : View L t r s). v.0)
                  (Triple-bind (writer-Triple X t r before output aside) λ w. Triple-given λ named.
                    Triple-weaken (save_images-Triple X t r id w named.1 (image ∷ images) before)
                      λ _ s (es, are, m). (m.0.0, (c.backend, w, es, fresh.0, named.0, are, m.1)))
