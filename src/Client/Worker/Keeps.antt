-- ===== src/Client/Worker/Keeps.antt =====
-- Predicates on the host that `createWorkerOpt` keeps, piece by piece.
use img.Common.{ℕ, String, Bool, Option, none, some, ◌==◌}
use img.Common.Exec.{Exec, Outcome}
use img.Common.Triple.{
  Keeps, keeps_all, Triple-bind, Triple-pure, Triple-raise, Triple-or_fail, Triple-if,
  Triple-modify, Keeps-gets,
}
use img.Services.{Services, Handle}
use img.Backend.{native_backend, overlayfs_backend}
use img.Client.{State, call, lift, manager_or_new, get_session_manager}
use img.Client.Worker.{create_snapshotter, open_metadata, create_worker_opt}

abbrev pub Preserves : {W A : Type 0} → (W → Type 0) → Exec W A → Type 0
Preserves {W = W} P m = (w : W) → P w → P (m w).1

pub record Pieces {W : Type 0} (S : Services W) (P : W → Type 0) : Type 0 where
  pub manager : Preserves P S.sessions.new_manager
  pub metadata : (p : String) → Preserves P (S.workers.new_metadata_store p)
  pub euid : Preserves P S.workers.parent_euid
  pub native : (p : String) → Preserves P (S.workers.new_native_snapshotter p)
  pub overlay : (p : String) → Preserves P (S.workers.new_overlay_snapshotter p)
  pub runc : (p : String) (b : Bool) → Preserves P (S.workers.new_runc_executor p b)
  pub local : (p : String) → Preserves P (S.workers.new_local_store p)
  pub bolt : (p : String) (m : ℕ) (b : Bool) → Preserves P (S.workers.open_bolt p m b)
  pub init : (h : Handle) → Preserves P (S.workers.init_db h)
  pub id : (p : String) → Preserves P (S.workers.worker_id p)

-- A property of the host, as one of the state.
abbrev pub OnHost : {W : Type 0} → (W → Type 0) → State W → Type 0
OnHost P s = P s.host

module _ {W : Type 0} (P : W → Type 0) where
  pub Keeps-host : {A : Type 0} (m : Exec W A) → Preserves P m → Keeps (OnHost P) (call m)
  unfolding call
  Keeps-host m q = record {
    at = λ s h. keeps_all (OnHost P) (m s.host).0 (record s { host = (m s.host).1 }) (q s.host h);
  }

  pub Keeps-lift : {A : Type 0} (o : Outcome A) → Keeps (OnHost P) (lift o)
  unfolding lift
  Keeps-lift o = record { at = λ s h. keeps_all (OnHost P) o s h }

module _ {W : Type 0} {S : Services W} (P : W → Type 0) (K : Pieces S P) where
  manager_or_new-OnHost : (field : Option Handle) → Keeps (OnHost P) (manager_or_new S field)
  unfolding manager_or_new
  manager_or_new-OnHost (some m) = Triple-pure m (λ s h. h)
  manager_or_new-OnHost none =
      Triple-bind (Keeps-host P _ K.manager)
        λ m. Triple-bind (Triple-modify _ (λ s h. h)) λ _. Triple-pure m (λ s h. h)

  pub get_session_manager-OnHost : Keeps (OnHost P) (get_session_manager S)
  unfolding get_session_manager
  get_session_manager-OnHost = Triple-bind (Keeps-gets _) manager_or_new-OnHost

  create_snapshotter-OnHost :
      (backend root : String) → Keeps (OnHost P) (create_snapshotter S backend root)
  unfolding create_snapshotter
  create_snapshotter-OnHost backend root =
      Triple-if (backend == native_backend) (Triple-or_fail _ (Keeps-host P _ (K.native root))) (
        Triple-if (backend == overlayfs_backend)
          (Triple-or_fail _ (Keeps-host P _ (K.overlay root))) (Triple-raise _))

  open_metadata-OnHost :
      (root backend : String) (content s : Handle)
      → Keeps (OnHost P) (open_metadata S root backend content s)
  unfolding open_metadata
  open_metadata-OnHost root backend content s =
      Triple-bind (Keeps-host P _ (K.bolt _ _ _))
        λ db. Triple-bind (Keeps-host P _ (K.init _)) λ _. Triple-pure _ (λ st h. h)

  pub create_worker_opt-OnHost : Keeps (OnHost P) (create_worker_opt S)
  unfolding create_worker_opt
  create_worker_opt-OnHost = Triple-bind get_session_manager-OnHost λ sm.
      Triple-bind (Keeps-gets _) λ root. Triple-bind (Keeps-gets _) λ backend.
        Triple-bind (Keeps-host P _ (K.metadata _)) λ md.
          Triple-bind (Keeps-host P _ K.euid) λ euid.
            Triple-bind (create_snapshotter-OnHost backend _) λ s.
              Triple-bind (Keeps-host P _ (K.runc _ _)) λ exe.
                Triple-bind (Keeps-host P _ (K.local _)) λ local.
                  Triple-bind (open_metadata-OnHost root backend local s)
                    λ mdb. Triple-bind (Keeps-host P _ (K.id _)) λ id. Triple-pure _ (λ st h. h)
