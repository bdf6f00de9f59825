-- ===== src/Command/Usage.antt =====
-- diskusage.go: the table of records, the debug output, and the totals.
pub mod Totals
pub mod Table
use Prim.Native.Nat.{ℕ, zero, suc, ◌+◌}
use img.Common.{
  String, Bool, false, true, Option, none, some, List, [], ◌∷◌, ◌++◌, not, ltb, length, ◌<>◌, ◌==◌,
  if◌then◌else◌,
}
use img.Common.Exec.{Exec, pure, ◌>>=◌, ◌>>◌}
use img.Common.Int.{ℤ, pos, is_positive, add64}
use img.Common.Output.{Arg, text, bytes, flag, number, size, stdout}
use img.Services.{Services, UsageRecord}
use img.Client.{State, call, print, set_client, new}
use img.Client.Controller.{disk_usage}
use img.Flag.{Spec, takes_value}
use img.Command.{Description, Globals, buildkit_context}

abbrev pub usage_description : Description
usage_description = record {
  name = "du";
  args = "[OPTIONS]";
  short_help = "Show image disk usage.";
  long_help = "Show image disk usage.";
  hidden = false;
  do_reexec = true;
  requires_runc = false;
}

-- `Register`
abbrev pub usage_flags : List Spec
usage_flags =
    record {
      name = "f";
      usage = "Filter output based on conditions provided (snapshot ID supported)";
      default = "";
      kind = takes_value;
    }
    ∷ []

abbrev pub take : ℕ → List ℕ → List ℕ
take zero xs = []
take (suc n) [] = []
take (suc n) (x ∷ xs) = x ∷ take n xs

abbrev pub ellipsis : List ℕ
ellipsis = b'.' ∷ b'.' ∷ b'.' ∷ []

-- `if len(desc) > 50 { desc = desc[0:50] + "..." }`, on bytes.
unfoldable pub shorten : List ℕ → List ℕ
shorten desc = if ltb 50 (length desc) then take 50 desc ++ ellipsis else desc

unfoldable pub row_id : UsageRecord → String
row_id di = if di.is_mutable then di.id <> "*" else di.id

-- The two sums of the loop, `total` and `reclaimable`, in `int64`.
unfoldable pub totals : ℤ → ℤ → List UsageRecord → ℤ × ℤ
totals total reclaimable [] = (total, reclaimable)
totals total reclaimable (di ∷ du) =
    let counts = is_positive di.size in
    totals (if counts then add64 total di.size else total)
      (if counts
        then (if di.in_use then reclaimable else add64 reclaimable di.size)
        else reclaimable)
      du

module _ {W : Type 0} where
  -- The loop of the table.
  unfoldable pub print_rows : List UsageRecord → Exec (State W) (Unit {0})
  unfolding row_id shorten
  print_rows [] = pure tt
  print_rows (di ∷ du) = do
    print (
        stdout "%s\t%t\t%s\t%s\n" (
          text (row_id di)
          ∷ flag (not di.in_use)
          ∷ size di.size
          ∷ bytes (shorten di.description)
          ∷ []))
    print_rows du

  abbrev pub print_unless : Bool → String → Arg → Exec (State W) (Unit {0})
  print_unless true key value = pure tt
  print_unless false key value = print (stdout "%s:\t%v\n" (text key ∷ value ∷ []))

  unfoldable pub print_last_used : Option String → Exec (State W) (Unit {0})
  print_last_used none = pure tt
  print_last_used (some at) = print (stdout "%s:\t%v\n" (text "Last used" ∷ text at ∷ []))

  -- `printDebug`
  unfoldable pub print_debug : List UsageRecord → Exec (State W) (Unit {0})
  unfolding print_last_used
  print_debug [] = pure tt
  print_debug (di ∷ du) = do
    print (stdout "%s:\t%v\n" (text "ID" ∷ text di.id ∷ []))
    print_unless (di.parent == "") "Parent" (text di.parent)
    print (stdout "%s:\t%v\n" (text "Created at" ∷ text di.created_at ∷ []))
    print (stdout "%s:\t%v\n" (text "Mutable" ∷ flag di.is_mutable ∷ []))
    print (stdout "%s:\t%v\n" (text "Reclaimable" ∷ flag (not di.in_use) ∷ []))
    print (stdout "%s:\t%s\n" (text "Size" ∷ size di.size ∷ []))
    print_unless (ltb (length di.description) 1) "Description" (bytes di.description)
    print (stdout "%s:\t%d\n" (text "Usage count" ∷ number di.usage_count ∷ []))
    print_last_used di.last_used_at
    print (stdout "\n" [])
    print_debug du

  unfoldable pub print_totals : List UsageRecord → Exec (State W) (Unit {0})
  unfolding totals
  print_totals du = do
    let (total, reclaimable) = totals (pos 0) (pos 0) du
    print (stdout "Reclaimable:\t%s\n" (size reclaimable ∷ []))
    print (stdout "Total:\t%s\n" (size total ∷ []))

  unfoldable pub print_table : Bool → List UsageRecord → Exec (State W) (Unit {0})
  unfolding print_rows print_debug
  print_table true du = print_debug du
  print_table false du = do print (stdout "ID\tRECLAIMABLE\tSIZE\tDESCRIPTION\n" []); print_rows du

  -- `Run`, at the value of the flag `-f`. The arguments are not read.
  unfoldable pub run_usage : Services W → Globals → String → Exec (State W) (Unit {0})
  unfolding print_table print_totals new
  run_usage S g filter = do
    id ← call S.sessions.new_id
    c ← new S g.state_dir g.backend []
    set_client c
    du ← disk_usage S (buildkit_context id) filter
    print_table g.debug du
    if filter == "" then print_totals du else pure tt
