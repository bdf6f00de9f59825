-- ===== src/Client/Picked.antt =====
-- The backend that `New` of client/client.go resolves, where it is known whether the kernel supports
-- overlay file systems.
use img.Common.{
  String, Bool, Bool-cases, true, false, List, ◌≡◌, ◌≢◌, inl, inr, ◌==◌, if◌then◌else◌, eq_iff,
}
use img.Common.Exec.{Exec}
use img.Common.Ending.{Triple-outcome}
use img.Common.Triple.{Triple, keeps_all, Triple-bind, Triple-pure, Triple-lax}
use img.Services.{Services}
use img.Backend.{auto_backend}
use img.Client.{succeeded, call, resolve_backend, new}
use img.Client.Worker.Keeps.{OnHost}

-- By whether overlay file systems are supported and by what was asked for.
pub data IsPicked : Bool → String → String → Type 0 where
  auto_overlay : IsPicked true "auto" "overlayfs"
  auto_native : IsPicked false "auto" "native"
  as_asked :
      (supported : Bool) (backend : String) → backend ≢ "auto" → IsPicked supported backend backend

module _ {S A : Type 0} where
  carried : (Fact : Type 0) (m : Exec S A) → Triple (λ _. Fact) m (λ _ _. Fact) (λ _. Fact)
  carried Fact m = record { at = λ s h. keeps_all (λ _. Fact) (m s).0 (m s).1 h }

module _ {W : Type 0} (S : Services W) (P : W → Type 0) (supported : Bool) (root : String)
    (probes : (w : W) → P w → succeeded (S.workers.overlay_supported root w).0 ≡ supported) where
  picks_auto : IsPicked supported "auto" (if supported then "overlayfs" else "native")
  picks_auto = elim supported as (λ k. IsPicked k "auto" (if k then "overlayfs" else "native")) [
    | true ↦ auto_overlay
    | false ↦ auto_native
  ]

  resolve_backend-Picked :
      (backend : String)
      → Triple
          (OnHost P)
          (resolve_backend S root backend)
          (λ b _. IsPicked supported backend b)
          (λ _. Unit)
  unfolding resolve_backend call
  resolve_backend-Picked backend = elim (Bool-cases (backend == auto_backend)) [
    | inl e ↦
        rw (e, (eq_iff backend "auto").0 e)
          (Triple-bind
            (Triple-outcome {Q = λ o _. succeeded o ≡ supported} _ (λ s h. probes s.host h))
            λ o.
              Triple-bind (Triple-lax (carried (succeeded o ≡ supported) _))
                λ _. Triple-pure _ (λ s h. rw h picks_auto))
    | inr e ↦ rw e (
        Triple-pure backend
          (λ s h. as_asked supported backend (λ x. let y = (eq_iff backend "auto").1 x in cc)))
  ]

  pub new-Picked :
      (backend : String) (dirs : List (String × String))
      → Triple
          (OnHost P)
          (new S root backend dirs)
          (λ c _. IsPicked supported backend c.backend)
          (λ _. Unit)
  unfolding new
  new-Picked backend dirs = Triple-bind (resolve_backend-Picked backend) λ b.
      Triple-bind (Triple-lax (carried (IsPicked supported backend b) _))
        λ _. Triple-pure _ (λ s h. h)
