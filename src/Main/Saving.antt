-- ===== src/Main/Saving.antt =====
-- The whole program, called as `img save`.
use img.Common.{String, [], ◌∷◌, List}
use img.Common.Triple.{Triple}
use img.Command.{Globals}
use img.Command.Save.Exports.{Exports}
use img.Flag
use img.Flag.{Parsed}
use img.Main.Words.{global_settings}

-- `img save`
abbrev save_line : Globals → String → List String → Parsed
save_line g output args = record { settings = global_settings g (("o", output) ∷ []); args = args }
