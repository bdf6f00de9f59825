-- ===== src/Examples/Listings.antt =====
-- `img ls` in a host in memory with one metadata file, which holds two images.
use img.Common.{
  String, Bool, true, false, Bool-cases, List, [], ◌∷◌, ◌≡◌, refl, ◌==◌, eq_iff, if◌then◌else◌, inl,
  inr, sym,
}
use img.Common.Exec.{Outcome, ok, err, Kind, foreign, ◌>>=◌}
use img.Common.FilePath
use img.Common.Int.{ℤ, pos}
use img.Common.Text.{same_code}
use img.Services.{Services, Image, Handle}
use img.Client.{call}
use img.Client.Images.Listing.{list_images}
use img.Command.{buildkit_context}
use img.Command.Listing.Table.{Lists}
use img.Fixture.{World, memory, meta_file, plain_image}
use img.Fixture.Data.{layer, running}

abbrev pub Any : World → Type 0
Any w = Unit {0}

-- A filter is the name of an image.
abbrev named : List Image → String → List Image
named [] f = []
named (i ∷ is) f = if i.name == f then i ∷ named is f else named is f

abbrev chosen : List Image → List String → List Image
chosen is [] = is
chosen is (f ∷ fs) = named is f

abbrev pub held : String → List String → List Image
held path fs =
    if path == meta_file then chosen (plain_image "a" layer ∷ plain_image "b" layer ∷ []) fs else []

abbrev content_dir : String
content_dir = "/tmp/img/runc/native/content"

abbrev pub weight : String → Image → ℤ
weight dir i = if dir == content_dir then pos 100 else pos 7

abbrev missing_file : {A : Type 0} → Outcome A
missing_file = err (foreign Kind.not_exist "no such file")

abbrev pub lister : Services World
lister = record memory {
  files = record memory.files { stat = λ p w. (if p == meta_file then ok tt else missing_file, w) };
  workers = record memory.workers {
    new_local_store = λ p w. (if p == content_dir then ok 12 else missing_file, w);
  };
  images = record memory.images {
    list = λ h ctx fs w. (if same_code h 13 then ok (held meta_file fs) else missing_file, w);
    image_size =
        λ i ctx h w. (if same_code h 12 then ok (weight content_dir i) else missing_file, w);
  };
}

lists :
    (list_images lister (buildkit_context "id") ("b" ∷ []) running).0
    ≡ ok (record { image = plain_image "b" layer; content_size = pos 100 } ∷ [])
unfolding list_images FilePath.join call ◌>>=◌
lists = refl

opens :
    (there : String) (n : Handle) (path : String) (h : Handle)
    → (if path == there then ok n else missing_file) ≡ ok h
    → there ≡ path
opens there n path h e = elim (Bool-cases (path == there)) [
  | inl f ↦ sym ((eq_iff path there).0 f)
  | inr f ↦ let none_found = rw f at e in absurd (cc)
]

answers : {A : Type 0} (b : Bool) (x y : A) → (if b then ok x else missing_file) ≡ ok y → y ≡ x
answers true x y e = cc
answers false x y e = absurd (cc)

misses :
    (path t : String) (fs : List String)
    → (if path == meta_file then ok tt else missing_file) ≡ err (foreign Kind.not_exist t)
    → held path fs ≡ []
misses path t fs e = elim (Bool-cases (path == meta_file)) [
  | inl f ↦ let found = rw f at e in absurd (cc)
  | inr f ↦ rw f refl
]

pub lister-Lists : Lists lister Any "/tmp/img" held weight false
lister-Lists = record {
  holds = record {
    stat_keeps = λ p w h. h;
    open_keeps = λ p w h. h;
    content_keeps = λ p w h. h;
    list_keeps = λ i ctx fs w h. h;
    size_keeps = λ i ctx c w h. h;
    missing = λ p w t fs h e. misses p t fs e;
    file_of = λ h. meta_file;
    file_of_bolt = λ p w h e. opens meta_file 13 p h e;
    file_of_db = λ h c ss. refl;
    file_of_store = λ h. refl;
    dir_of = λ h. content_dir;
    dir_of_local = λ p w h e. opens content_dir 12 p h e;
    selected = λ store ctx w fs l h spaced e. answers (same_code store 13) _ l e;
    sized = λ i ctx c w v h e. answers (same_code c 12) _ v e;
  };
  id_keeps = λ w h. h;
  mkdir_keeps = λ p m w h. h;
  probe_keeps = λ p w h. h;
  probes = λ w h. refl;
}
