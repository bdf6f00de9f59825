-- ===== src/Examples/Saving.antt =====
-- `img save` as a whole program, in the host in memory.
use img.Common.{String, Bool, true, false, Option, none, some, List, [], ◌∷◌, ◌++◌, ◌≡◌, refl}
use img.Common.Exec.{ok}
use img.Common.Triple.{Triple}
use img.Client.Worker.Keeps.{Pieces}
use img.Command.Save.Exports.{Export, Exports}
use img.Fixture.{World, memory, meta_file, in_space, got, exported}
use img.Fixture.Lawful.{memory-IsLawful}

abbrev kept : (l : List Export) → Pieces memory (λ w. w.sent ≡ l)
kept l = record {
  manager = λ w c. c;
  metadata = λ p w c. c;
  euid = λ w c. c;
  native = λ p w c. c;
  overlay = λ p w c. c;
  runc = λ p b w c. c;
  local = λ p w c. c;
  bolt = λ p m b w c. c;
  init = λ h w c. c;
  id = λ p w c. c;
}

got_sent :
    (space : Option String) (k : String) (w : World)
    → (in_space space (λ n u. (got k (u.names meta_file n k), u)) w).1.sent ≡ w.sent
got_sent none k w = refl
got_sent (some n) k w = refl

exported_sent :
    (b : Bool) (e : Export) (w : World)
    → (exported b e w).0 ≡ ok tt
    → (exported b e w).1.sent ≡ w.sent ++ (e ∷ [])
exported_sent true e w same = absurd (cc)
exported_sent false e w same = refl

exported_names : (b : Bool) (e : Export) (w : World) → (exported b e w).1.names ≡ w.names
exported_names true e w = refl
exported_names false e w = refl

abbrev memory-Exports : Exports memory-IsLawful
memory-Exports = record {
  made = λ w. w.sent;
  pieces = kept;
  getenv = λ l v w c. c;
  new_id = λ l w c. c;
  probe = λ l p w c. c;
  mkdir = λ l p m w c. c;
  create = λ l p w c. c;
  terminal = λ l w c. c;
  get = λ l h ctx k w c. rw (got_sent ctx.namespace k w) c;
  close = λ l h w c. c;
  export = λ ctx name content target h w e. exported_sent (w.closed h) _ w e;
  IsImageFile = λ path. path ≡ meta_file;
  GoesIntoOne = λ h. ⊥;
  create_quiet = λ p other w. refl;
  created = λ p w h other e into. into;
  terminal_quiet = λ w. refl;
  close_quiet = λ h w. refl;
  export_quiet = λ ctx name content target h other w. exported_names (w.closed h) _ w;
}
