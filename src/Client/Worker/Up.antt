-- ===== src/Client/Worker/Up.antt =====
-- Over services that answer, `createWorkerOpt` returns for each of the two resolved backends.
use img.Common.{String, Option, none, some, ◌≡◌, ◌∙◌, inl, inr}
use img.Common.Exec.{Exec, ok, gets}
use img.Common.Triple.{
  Triple, Triple-bind, Triple-pure, Triple-or_fail, Triple-gets, Triple-given, Triple-modify,
  Triple-weaken, returns,
}
use img.Services.{Services, Handle, WorkerOpt}
use img.Services.Up.{IsUp}
use img.Services.Up
use img.Client.{Client, State, call, manager_or_new, get_session_manager}
use img.Client.Backends.{IsResolved}
use img.Client.Worker.{create_snapshotter, open_metadata, create_worker_opt}

module _ {W : Type 0} where
  abbrev pub Never : State W → Type 0
  Never _ = ⊥

  -- What is known of the client, which calls of the host leave alone.
  abbrev pub OnClient : (Client → Type 0) → State W → Type 0
  OnClient P s = P s.client

  pub Returns-call :
      {A : Type 0} (P : Client → Type 0) (m : Exec W A)
      → Up.Answers m
      → Triple (OnClient P) (call m) (λ _. OnClient P) Never
  unfolding call
  Returns-call P m answers = record { at = λ s h. let (a, e) = answers s.host in rw e h }

-- The client has one of the two backends, and works below that directory.
abbrev Below : String → Client → Type 0
Below r c = IsResolved c.backend × (c.root ≡ r)

module _ {W : Type 0} {S : Services W} {r : String} (U : IsUp S r) where
  manager_or_new-Up :
      (field : Option Handle)
      → Triple (OnClient (Below r)) (manager_or_new S field) (λ _. OnClient (Below r)) Never
  unfolding manager_or_new
  manager_or_new-Up (some m) = Triple-pure m (λ s h. h)
  manager_or_new-Up none = Triple-bind (Returns-call (Below r) _ U.manager) λ m.
      Triple-bind (Triple-modify {Q = OnClient (Below r)} _ (λ s h. h))
        λ _. Triple-pure m (λ s h. h)

  get_session_manager-Up :
      Triple (OnClient (Below r)) (get_session_manager S) (λ _. OnClient (Below r)) Never
  unfolding get_session_manager
  get_session_manager-Up =
      Triple-bind (Triple-weaken (Triple-gets _) (λ _ s h. h.0)) manager_or_new-Up

  create_snapshotter-Up :
      (backend path : String)
      → IsResolved backend
      → Triple
          (OnClient (Below r))
          (create_snapshotter S backend path)
          (λ _. OnClient (Below r))
          Never
  unfolding create_snapshotter
  create_snapshotter-Up backend path (inl e) =
      rw e (Triple-or_fail _ (Returns-call (Below r) _ (U.native path)))
  create_snapshotter-Up backend path (inr e) =
      rw e (Triple-or_fail _ (Returns-call (Below r) _ (U.overlay path)))

  open_metadata-Up :
      (root backend : String) (content s : Handle)
      → root ≡ r
      → Triple
          (OnClient (Below r))
          (open_metadata S root backend content s)
          (λ _. OnClient (Below r))
          Never
  unfolding open_metadata
  open_metadata-Up root backend content s e = rw e (
      Triple-bind (Returns-call (Below r) _ (U.bolt _))
        λ db. Triple-bind (Returns-call (Below r) _ (U.init _)) λ _. Triple-pure _ (λ st h. h))

  backend_of :
      Triple
        (OnClient (Below r))
        (gets (λ (s : State W). s.client.backend))
        (λ b s. OnClient (Below r) s × IsResolved b)
        Never
  backend_of = Triple-weaken (Triple-gets _) (λ b s (h, e). (h, rw e h.0))

  root_of :
      Triple
        (OnClient (Below r))
        (gets (λ (s : State W). s.client.root))
        (λ root s. OnClient (Below r) s × (root ≡ r))
        Never
  root_of = Triple-weaken (Triple-gets _) (λ root s (h, e). (h, e ∙ h.1))

  create_worker_opt-Up :
      Triple (OnClient (Below r)) (create_worker_opt S) (λ _. OnClient (Below r)) Never
  unfolding create_worker_opt
  create_worker_opt-Up = Triple-bind get_session_manager-Up λ sm. Triple-bind root_of λ root.
      Triple-given λ same. Triple-bind backend_of λ backend. Triple-given λ resolved.
        Triple-bind (Returns-call (Below r) _ (U.metadata _)) λ md.
          Triple-bind (Returns-call (Below r) _ U.euid) λ euid.
            Triple-bind (create_snapshotter-Up backend _ resolved) λ s.
              Triple-bind (Returns-call (Below r) _ (U.runc _ _)) λ exe.
                Triple-bind (Returns-call (Below r) _ (U.local _)) λ local.
                  Triple-bind (open_metadata-Up root backend local s same) λ mdb.
                    Triple-bind (Returns-call (Below r) _ (U.worker_id _))
                      λ id. Triple-pure _ (λ st h. h)

  -- The worker's pieces come back, whatever state the client that works there is in.
  pub create_worker_opt-opens :
      (s : State W)
      → IsResolved s.client.backend
      → s.client.root ≡ r
      → (opt : WorkerOpt) × ((create_worker_opt S s).0 ≡ ok opt)
  create_worker_opt-opens s resolved below =
      let (opt, e, _) = returns _ _ _ (create_worker_opt-Up.at s (resolved, below)) in (opt, e)
