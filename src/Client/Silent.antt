-- ===== src/Client/Silent.antt =====
-- The operations of the client that print nothing.
use img.Common.{refl, String, Bool, true, false, List, [], ◌∷◌, ◌≡◌, ◌==◌}
use img.Common.Exec.{◌>>=◌, Exec, pure}
use img.Common.Output.{Line, Arg}
use img.Common.Triple.{
  Keeps, keeps_all, Triple-bind, Triple-pure, Triple-or_fail, Triple-if, Keeps-gets, Keeps-attempt,
}
use img.Services.{Services, Handle, Context, Image}
use img.Backend.{auto_backend}
use img.Client.{State, call, debugf, resolve_backend, new}
use img.Client.Images.{ListedImage}
use img.Client.Images.Listing.{is_not_exist, list_sizes, list_database, list_images}

module _ {W : Type 0} (before : List Line) where
  -- The lines printed so far, where the log level is not that of `-d`.
  abbrev pub Said : State W → Type 0
  Said s = (s.verbose ≡ false) × (s.out ≡ before)

  debugf-Silent : (format : String) (args : List Arg) → Keeps Said (debugf format args)
  unfolding debugf ◌>>=◌
  debugf-Silent format args = record { at = λ s h. rw h.0 (refl, h.1) }

  pub Silent-call : {A : Type 0} (m : Exec W A) → Keeps Said (call m)
  unfolding call
  Silent-call m = record {
    at = λ s h. keeps_all Said (m s.host).0 (record s { host = (m s.host).1 }) h;
  }

module _ {W : Type 0} (S : Services W) (before : List Line) where
  pub new-Silent :
      (root backend : String) (dirs : List (String × String))
      → Keeps (Said before) (new S root backend dirs)
  unfolding new resolve_backend
  new-Silent root backend dirs =
      Triple-bind
        (Triple-if (backend == auto_backend)
          (Triple-bind (Keeps-attempt (Silent-call before _))
            λ o. Triple-bind (debugf-Silent before _ _) λ _. Triple-pure _ (λ s h. h))
          (Triple-pure _ (λ s h. h)))
        λ b. Triple-bind (Silent-call before _) λ _. Triple-pure _ (λ s h. h)

  list_sizes-Silent :
      (ctx : Context) (content : Handle) (listed : List ListedImage) (is : List Image)
      → Keeps (Said before) (list_sizes S ctx content listed is)
  unfolding list_sizes
  list_sizes-Silent ctx content listed [] = Triple-pure listed (λ s h. h)
  list_sizes-Silent ctx content listed (i ∷ is) =
      Triple-bind (Triple-or_fail _ (Silent-call before _)) λ v. list_sizes-Silent ctx content _ is

  list_database-Silent :
      (ctx : Context) (fs : List String) (path : String)
      → Keeps (Said before) (list_database S ctx fs path)
  unfolding list_database
  list_database-Silent ctx fs path = Triple-bind (Triple-or_fail _ (Silent-call before _)) λ db.
      Triple-bind (Keeps-gets _) λ root.
        Triple-bind (Triple-or_fail _ (Silent-call before _)) λ content.
          Triple-bind (Triple-or_fail _ (Silent-call before _))
            λ images. list_sizes-Silent ctx content [] images

  pub list_images-Silent :
      (ctx : Context) (fs : List String) → Keeps (Said before) (list_images S ctx fs)
  unfolding list_images
  list_images-Silent ctx fs = Triple-bind (Keeps-gets _) λ root.
      Triple-bind (Keeps-attempt (Silent-call before _)) λ found. chosen _ (is_not_exist found)
    where
      chosen :
          (path : String) (b : Bool)
          → Keeps (Said before) (elim b [ true ↦ pure [] | false ↦ list_database S ctx fs path ])
      chosen path true = Triple-pure _ (λ s h. h)
      chosen path false = list_database-Silent ctx fs path
