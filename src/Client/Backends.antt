-- ===== src/Client/Backends.antt =====
-- The backend that `New` puts into the client, the snapshotter for it, and the session manager.
use img.Common.{
  ℕ, String, Bool, true, false, Option, none, some, List, [], ◌∷◌, ◌≡◌, refl, ap, ◌⊎◌, inl, inr,
  arith, if◌then◌else◌,
}
use img.Common.Exec.{ok, caused, or_fail, ◌>>=◌}
use img.Common.FilePath
use img.Common.Triple.{
  Triple, Triple-bind, Triple-pure, Triple-given, Triple-weaken, Triple-modify, Keeps-attempt,
}
use img.Services.{Services, Handle}
use img.Backend.{auto_backend, native_backend, overlayfs_backend}
use img.Client.Calls.{debugf-Keeps}
use img.Client.{
  Client, State, call, print, succeeded, resolve_backend, new, manager_or_new, get_session_manager,
}
use img.Client.Worker.{create_snapshotter}
use img.Client.Worker.Keeps.{Preserves, OnHost, Keeps-host}

-- One of the three names that main.go lets through.
abbrev pub IsValid : String → Type 0
IsValid b = (b ≡ auto_backend) ⊎ (b ≡ native_backend) ⊎ (b ≡ overlayfs_backend)

abbrev pub IsResolved : String → Type 0
IsResolved b = (b ≡ native_backend) ⊎ (b ≡ overlayfs_backend)

pub picked : (b : Bool) → IsResolved (if b then overlayfs_backend else native_backend)
picked true = inr refl
picked false = inl refl

module _ {W : Type 0} (S : Services W) where
  -- A client that `New` makes from a valid backend has a backend that is not `auto`, a root that ends
  -- in it, and neither a session manager nor a controller yet.
  abbrev pub IsFresh : String → Client → Type 0
  IsFresh root c =
      IsResolved c.backend
      × (c.root ≡ FilePath.join (root ∷ "runc" ∷ c.backend ∷ []))
      × (c.session_manager ≡ none)
      × (c.controller ≡ none)

module _ {W : Type 0} (S : Services W) (P : W → Type 0)
    (probe : (path : String) → Preserves P (S.workers.overlay_supported path))
    (make : (path : String) (mode : ℕ) → Preserves P (S.files.mkdir_all path mode)) where
  resolve_backend-OnHost :
      (root backend : String)
      → IsValid backend
      → Triple
          (OnHost P)
          (resolve_backend S root backend)
          (λ b s. OnHost P s × IsResolved b)
          (OnHost P)
  unfolding resolve_backend print
  resolve_backend-OnHost root backend (inl e) = rw e (
      Triple-bind (Keeps-attempt (Keeps-host P _ (probe root))) λ supported.
        Triple-bind (debugf-Keeps (λ line. Triple-modify _ (λ s h. h)) _ _)
          λ _. Triple-pure _ (λ s h. (h, picked (succeeded supported))))
  resolve_backend-OnHost root backend (inr (inl e)) = rw e (Triple-pure _ (λ s h. (h, inl refl)))
  resolve_backend-OnHost root backend (inr (inr e)) = rw e (Triple-pure _ (λ s h. (h, inr refl)))

  -- `New` keeps what the probe of the kernel and the making of directories keep.
  pub new-OnHost :
      (root backend : String) (dirs : List (String × String))
      → IsValid backend
      → Triple
          (OnHost P)
          (new S root backend dirs)
          (λ c s. OnHost P s × IsFresh S root c)
          (OnHost P)
  unfolding new
  new-OnHost root backend dirs valid =
      Triple-bind (resolve_backend-OnHost (root) backend valid) λ b. Triple-given λ resolved.
        Triple-bind (Keeps-host P _ (make _ _))
          λ _. Triple-pure _ (λ s h. (h, (resolved, refl, refl, refl)))

module _ {W : Type 0} (S : Services W) where
  -- From any state and for each of the three valid backends: a client that `New` returns has the native
  -- or the overlayfs backend, keeps its data in `runc/<backend>` below the given directory, and has no
  -- session manager and no controller yet.
  pub new-Triple :
      (root backend : String) (dirs : List (String × String))
      → IsValid backend
      → Triple
          (OnHost (λ _. Unit {0}))
          (new S root backend dirs)
          (λ c _. IsFresh S root c)
          (OnHost (λ _. Unit {0}))
  new-Triple root backend dirs valid =
      Triple-weaken (new-OnHost S (λ _. Unit) (λ p w h. tt) (λ p m w h. tt) root backend dirs valid)
        (λ c s h. h.1)

  -- For a backend that is native or overlayfs, `createSnapshotter` is the call of that backend's
  -- constructor, its error wrapped, and the `default` case is not reached.
  create_snapshotter-resolved :
      (backend path : String)
      → IsResolved backend
      → ((backend ≡ native_backend)
          × (create_snapshotter S backend path
              ≡ or_fail
                  (caused "creating %s snapshotter failed: %v" (backend ∷ []))
                  (call (S.workers.new_native_snapshotter path))))
        ⊎ ((backend ≡ overlayfs_backend)
            × (create_snapshotter S backend path
                ≡ or_fail
                    (caused "creating %s snapshotter failed: %v" (backend ∷ []))
                    (call (S.workers.new_overlay_snapshotter path))))
  unfolding create_snapshotter
  create_snapshotter-resolved backend path (inl e) = inl (e, rw e refl)
  create_snapshotter-resolved backend path (inr e) = inr (e, rw e refl)

  manager_kept :
      (field : Option Handle) (s s' : State W) (m : Handle)
      → s.client.session_manager ≡ field
      → manager_or_new S field s ≡ (ok m, s')
      → s'.client.session_manager ≡ some m
  unfolding manager_or_new call ◌>>=◌
  manager_kept (some m') s s' m e h = ground arith
  manager_kept none s s' m e h = ground arith

  -- The session manager is made at most once: after a call that returns one, each later call returns
  -- the same one and changes nothing.
  pub get_session_manager-once :
      (s s' : State W) (m : Handle)
      → get_session_manager S s ≡ (ok m, s')
      → get_session_manager S s' ≡ (ok m, s')
  unfolding get_session_manager manager_or_new ◌>>=◌
  get_session_manager-once s s' m h =
      let kept : s'.client.session_manager ≡ some m =
        manager_kept s.client.session_manager s s' m refl h in
      ap (λ f. manager_or_new S f s') kept
