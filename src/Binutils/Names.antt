-- ===== src/Binutils/Names.antt =====
-- The search for runc and its installation leave the names of the image store alone.
use img.Common.{String, Bool, true, false, ◌≡◌, refl, ◌∙◌}
use img.Common.Exec.{Outcome, ok, err, halt, panic, diverge, attempt, reflect}
use img.Common.Triple.{
  Triple, Keeps, Triple-bind, Triple-pure, Triple-or_fail, Triple-given, Triple-at, Keeps-attempt,
}
use img.Services.{Services}
use img.Services.Laws.{Tags, IsLawful, IsQuiet}
use img.Services.Scratch.{IsScratch}
use img.Client.{call, lift, succeeded}
use img.Command.Tag.Names.{Named, Keeps-names}
use img.Binutils.{
  version_works, runc_binary_exists, install_in, install_after, install_asset, install_runc_binary,
}

reflect-inv : {A : Type 0} (o a : Outcome A) → reflect o ≡ ok a → o ≡ a
reflect-inv (ok x) a e = cc
reflect-inv (err x) a e = cc
reflect-inv (halt n) a e = cc
reflect-inv panic a e = cc
reflect-inv diverge a e = cc

module _ {W : Type 0} {S : Services W} {L : IsLawful S} (M : IsScratch L) (t : Tags) where
  version_works-Keeps : (found : Bool) → Keeps (Named L t) (version_works S found)
  unfolding version_works
  version_works-Keeps false = Triple-pure _ (λ s h. h)
  version_works-Keeps true =
      Triple-bind (Keeps-attempt (Keeps-names L t _ M.version_quiet)) λ o. Triple-pure _ (λ s h. h)

  pub runc_binary_exists-Keeps : Keeps (Named L t) (runc_binary_exists S)
  unfolding runc_binary_exists
  runc_binary_exists-Keeps =
      Triple-bind (Keeps-attempt (Keeps-names L t _ (M.look_quiet _)))
        λ o. version_works-Keeps (succeeded o)

  -- The directory can be removed again.
  abbrev pub IsRemovable : String → Type 0
  IsRemovable dir = IsQuiet L.tags (S.files.remove_all dir)

  install_in-Keeps :
      (binary dir : String) (w : W)
      → (S.processes.temp_dir "img-runc" w).0 ≡ ok dir
      → Keeps (Named L t) (install_in S binary dir)
  unfolding install_in
  install_in-Keeps binary dir w e =
      Triple-bind (Triple-or_fail _ (Keeps-names L t _ (M.write_quiet "img-runc" dir _ _ w e))) λ _.
        Triple-bind (Keeps-names L t _ (L.getenv_quiet _))
          λ path. Keeps-names L t _ (M.setenv_quiet _ _)

  -- A directory that was made.
  abbrev Fresh : Outcome String → Type 0
  Fresh o = (dir : String) → o ≡ ok dir → (w : W) × ((S.processes.temp_dir "img-runc" w).0 ≡ ok dir)

  install_after-Triple :
      (binary : String) (o : Outcome String)
      → Fresh o
      → Triple
          (Named L t)
          (install_after S binary o)
          (λ r s. Named L t s × IsRemovable r.0)
          (Named L t)
  unfolding install_after lift
  install_after-Triple binary (ok dir) fresh =
      let (w, e) = fresh dir refl in
      Triple-bind (Keeps-attempt (install_in-Keeps binary dir w e))
        λ done. Triple-pure _ (λ s h. (h, M.remove_quiet "img-runc" dir w e))
  install_after-Triple binary (err e) fresh = Triple-pure _ (λ s h. (h, M.remove_nothing))
  install_after-Triple binary (halt n) fresh = record { at = λ s h. h }
  install_after-Triple binary panic fresh = record { at = λ s h. h }
  install_after-Triple binary diverge fresh = record { at = λ s h. h }

  temp_dir-Fresh :
      Triple
        (Named L t)
        (attempt (call (S.processes.temp_dir "img-runc")))
        (λ o s. Named L t s × Fresh o)
        (Named L t)
  unfolding attempt call
  temp_dir-Fresh =
      Triple-at _
        (λ s h o e. (M.temp_quiet "img-runc" s.host ∙ h, λ dir f. (s.host, reflect-inv _ o e ∙ f)))
        (λ s h. M.temp_quiet "img-runc" s.host ∙ h)

  install_asset-Triple :
      (o : Outcome String)
      → Triple (Named L t) (install_asset S o) (λ r s. Named L t s × IsRemovable r.0) (Named L t)
  unfolding install_asset lift
  install_asset-Triple (ok binary) =
      Triple-bind temp_dir-Fresh λ o. Triple-given λ fresh. install_after-Triple binary o fresh
  install_asset-Triple (err e) = Triple-pure _ (λ s h. (h, M.remove_nothing))
  install_asset-Triple (halt n) = record { at = λ s h. h }
  install_asset-Triple panic = record { at = λ s h. h }
  install_asset-Triple diverge = record { at = λ s h. h }

  -- The directory that comes back, beside an error or not, can be removed.
  pub install_runc_binary-Triple :
      Triple (Named L t) (install_runc_binary S) (λ r s. Named L t s × IsRemovable r.0) (Named L t)
  unfolding install_runc_binary
  install_runc_binary-Triple = install_asset-Triple (S.processes.asset "runc")
