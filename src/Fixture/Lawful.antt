-- ===== src/Fixture/Lawful.antt =====
-- The host in memory meets the laws of the services.
use img.Common.{String, true, Option, none, some, ◌≡◌, refl, ap, arith, eq_iff}
use img.Common.Exec.{ok, err, Kind, foreign}
use img.Services.{Handle, Context, Descriptor, Image}
use img.Services.Laws.{IsLawful, put_tag}
use img.Fixture.{World, memory, meta_file, in_space, got, plain_image}

pub opened :
    (path : String) (w : World) (h : Handle)
    → (memory.workers.open_bolt path 0 true w).0 ≡ ok h
    → meta_file ≡ path
opened path w h e = ground (arith, eq_iff path meta_file)

module _ (h : Handle) (ctx : Context) (n : String) (w : World)
    (spaced : ctx.namespace ≡ some n) where
  pub get_found :
      (k : String) (d : Descriptor)
      → w.names meta_file n k ≡ some d
      → (i : Image) × ((memory.images.get h ctx k w).0 ≡ ok i) × (i.name ≡ k) × (i.target ≡ d)
  get_found k d e = (plain_image k d, rw (spaced, e), refl, refl)

  pub get_missing :
      (k : String)
      → w.names meta_file n k ≡ none
      → (t : String) × ((memory.images.get h ctx k w).0 ≡ err (foreign Kind.not_found t))
  get_missing k e = ("not found", rw (spaced, e))

  pub update_found :
      (i : Image) (d : Descriptor)
      → w.names meta_file n i.name ≡ some d
      → (j : Image) × ((memory.images.update h ctx i w).0 ≡ ok j)
        × ((memory.images.update h ctx i w).1.names
            ≡ put_tag w.names meta_file n i.name (some i.target))
  update_found i d e = (i, rw (spaced, e), rw (spaced, e))

  pub update_missing :
      (i : Image)
      → w.names meta_file n i.name ≡ none
      → (t : String) × ((memory.images.update h ctx i w).0 ≡ err (foreign Kind.not_found t))
        × ((memory.images.update h ctx i w).1.names ≡ w.names)
  update_missing i e = ("not found", rw (spaced, e), rw (spaced, e))

  pub create_missing :
      (i : Image)
      → w.names meta_file n i.name ≡ none
      → (j : Image) × ((memory.images.create h ctx i w).0 ≡ ok j)
        × ((memory.images.create h ctx i w).1.names
            ≡ put_tag w.names meta_file n i.name (some i.target))
  create_missing i e = (i, rw (spaced, e), rw (spaced, e))

  pub delete_found :
      (k : String) (d : Descriptor)
      → w.names meta_file n k ≡ some d
      → ((memory.images.delete h ctx k true w).0 ≡ ok tt)
        × ((memory.images.delete h ctx k true w).1.names ≡ put_tag w.names meta_file n k none)
  delete_found k d e = (rw (spaced, e), rw (spaced, e))

  pub delete_missing :
      (k : String)
      → w.names meta_file n k ≡ none
      → (t : String) × ((memory.images.delete h ctx k true w).0 ≡ err (foreign Kind.not_found t))
        × ((memory.images.delete h ctx k true w).1.names ≡ w.names)
  delete_missing k e = ("not found", rw (spaced, e), rw (spaced, e))

pub got_quiet :
    (space : Option String) (k : String) (w : World)
    → (in_space space (λ n u. (got k (u.names meta_file n k), u)) w).1 ≡ w
got_quiet none k w = refl
got_quiet (some n) k w = refl

abbrev pub memory-IsLawful : IsLawful memory
memory-IsLawful = record {
  tags = λ w. w.names;
  file_of = λ h. meta_file;
  file_of_bolt = λ path mode ro w h e. opened path w h e;
  file_of_db = λ h c ss. refl;
  file_of_store = λ h. refl;
  get_found = λ h ctx n k d w spaced e. get_found h ctx n w spaced k d e;
  get_missing = λ h ctx n k w spaced e. get_missing h ctx n w spaced k e;
  get_quiet = λ h ctx k w. ap (λ (u : World). u.names) (got_quiet ctx.namespace k w);
  update_found = λ h ctx n i d w spaced e. update_found h ctx n w spaced i d e;
  update_missing = λ h ctx n i w spaced e. update_missing h ctx n w spaced i e;
  create_missing = λ h ctx n i w spaced e. create_missing h ctx n w spaced i e;
  delete_found = λ h ctx n k d w spaced e. delete_found h ctx n w spaced k d e;
  delete_missing = λ h ctx n k w spaced e. delete_missing h ctx n w spaced k e;
  getenv_quiet = λ v w. refl;
  new_id_quiet = λ w. refl;
  new_session_quiet = λ ctx name key w. refl;
  allow_sync_quiet = λ h dirs w. refl;
  allow_auth_quiet = λ h w. refl;
  run_quiet = λ h ctx d w. refl;
  close_quiet = λ h w. refl;
  mkdir_quiet = λ p mode w. refl;
  supported_quiet = λ p w. refl;
  manager_quiet = λ w. refl;
  metadata_quiet = λ p w. refl;
  euid_quiet = λ w. refl;
  native_quiet = λ p w. refl;
  overlay_quiet = λ p w. refl;
  runc_quiet = λ p b w. refl;
  local_quiet = λ p w. refl;
  bolt_quiet = λ p m b w. refl;
  init_quiet = λ h w. refl;
  id_quiet = λ p w. refl;
  now_returns = λ w. (5, refl);
  now_quiet = λ w. refl;
  push_quiet = λ ctx m c d k b w. refl;
  pull_quiet = λ p ctx w. refl;
  size_quiet = λ i ctx h w. refl;
}
