-- ===== src/Command/Usage/Table.antt =====
-- The table and the totals that `img du` prints.
use mathlib.Core.List.{append_assoc, append-nil}
use img.Common.{
  Bool, true, ℕ, false, String, List, [], ◌∷◌, ◌++◌, ◌≡◌, ◌≤◌, ◌<◌, ◌^◌, ◌<>◌, ◌==◌, not, refl, sym,
  ap, ◌∙◌, map, length, if◌then◌else◌,
}
use img.Common.Exec.{modify, pure}
use img.Common.Int.{pos}
use img.Common.Output.{Line, text, flag, size, bytes, stdout}
use img.Common.Triple.{
  Triple, Triple-bind, Triple-pure, Triple-given, Triple-weaken, Triple-modify, Triple-lax,
}
use img.Services.{Services, UsageRecord}
use img.Client.{State, print, set_client}
use img.Client.Controller.Silent.{Answers, disk_usage-Answers}
use img.Client.Silent.{Said, Silent-call, new-Silent}
use img.Command.{Globals}
use img.Command.Usage.{take, shorten, row_id, print_rows, print_totals, print_table, run_usage}
use img.Command.Usage.Totals.{sum_all, sum_unused, totals_lem, shorten_lem}

-- A description of at most 53 bytes that begins with the first 50 bytes of the record's, and is the
-- record's own where that has at most 50.
abbrev pub Describes : List ℕ → List ℕ → Type 0
Describes full desc =
    (length desc ≤ 53) × (take 50 desc ≡ take 50 full) × (length full ≤ 50 → desc ≡ full)

-- The row of a record: its identifier, with a star if it is mutable, whether it is not in use, its
-- size, and its description.
abbrev pub IsRow : UsageRecord → Line → Type 0
IsRow di line =
    (desc : List ℕ) × (line
      ≡ stdout "%s\t%t\t%s\t%s\n" (
          text (if di.is_mutable then di.id <> "*" else di.id)
          ∷ flag (not di.in_use)
          ∷ size di.size
          ∷ bytes desc
          ∷ []))
    × Describes di.description desc

-- One row for each record, in their order.
abbrev pub AreRows : List UsageRecord → List Line → Type 0
AreRows [] rows = rows ≡ []
AreRows (di ∷ du) rows =
    (line : Line) × (rest : List Line) × (rows ≡ line ∷ rest) × IsRow di line × AreRows du rest

abbrev pub usage_title : Line
usage_title = stdout "ID\tRECLAIMABLE\tSIZE\tDESCRIPTION\n" []

-- The two sums.
abbrev pub total_lines : Bool → List UsageRecord → List Line
total_lines true du =
    stdout "Reclaimable:\t%s\n" (size (pos (sum_unused du)) ∷ [])
    ∷ stdout "Total:\t%s\n" (size (pos (sum_all du)) ∷ [])
    ∷ []
total_lines false du = []

abbrev row : UsageRecord → Line
row di =
    stdout "%s\t%t\t%s\t%s\n"
      (text (row_id di) ∷ flag (not di.in_use) ∷ size di.size ∷ bytes (shorten di.description) ∷ [])

rows-AreRows : (du : List UsageRecord) → AreRows du (map row du)
unfolding row_id
rows-AreRows [] = refl
rows-AreRows (di ∷ du) = (
  row di,
  map row du,
  refl,
  (shorten di.description, refl, shorten_lem di.description),
  rows-AreRows du,
)

module _ {W : Type 0} where
  -- A line is printed.
  print-Said :
      (before : List Line) (line : Line)
      → Triple
          (Said {W = W} before)
          (print line)
          (λ _. Said (before ++ (line ∷ [])))
          (λ _. Unit {0})
  unfolding print modify
  print-Said before line = Triple-modify _ (λ s h. (h.0, ap (λ o. o ++ (line ∷ [])) h.1))

  print_rows-Triple :
      (du : List UsageRecord) (before : List Line)
      → Triple
          (Said {W = W} before)
          (print_rows du)
          (λ _. Said (before ++ map row du))
          (λ _. Unit {0})
  unfolding print_rows
  print_rows-Triple [] before = Triple-pure tt (λ s h. (h.0, h.1 ∙ sym (append-nil before)))
  print_rows-Triple (di ∷ du) before = Triple-bind (print-Said before (row di)) λ _.
      Triple-weaken (print_rows-Triple du (before ++ (row di ∷ [])))
        (λ _ s h. (h.0, h.1 ∙ append_assoc before _ _))

  print_totals-Triple :
      (du : List UsageRecord) (before : List Line)
      → sum_all du < 2 ^ 63
      → Triple
          (Said {W = W} before)
          (print_totals du)
          (λ _. Said (before ++ total_lines true du))
          (λ _. Unit {0})
  unfolding print_totals
  print_totals-Triple du before small = rw (totals_lem du small).0 (
      Triple-bind (print-Said before _) λ _.
        Triple-weaken (print-Said (before ++ (_ ∷ [])) _)
          (λ _ s h. (h.0, h.1 ∙ append_assoc before _ _)))

-- What is printed: the title, the rows and, if asked for, the totals.
abbrev pub Reported : {W : Type 0} → Bool → List UsageRecord → List Line → State W → Type 0
Reported all du before s =
    (rows : List Line) × AreRows du rows
    × (s.out ≡ before ++ (usage_title ∷ (rows ++ total_lines all du)))

module _ {W : Type 0} (du : List UsageRecord) (before : List Line)
    (small : sum_all du < 2 ^ 63) where
  ending :
      (all : Bool)
      → Triple
          (Said {W = W} (before ++ (usage_title ∷ map row du)))
          (if all then print_totals du else pure tt)
          (λ _. Reported all du before)
          (λ _. Unit {0})
  ending true =
      Triple-weaken (print_totals-Triple du (before ++ (usage_title ∷ map row du)) small)
        (λ _ s h. (map row du, rows-AreRows du, h.1 ∙ append_assoc before _ _))
  ending false = Triple-pure tt (λ s h. (
    map row du,
    rows-AreRows du,
    h.1 ∙ ap (λ l. before ++ (usage_title ∷ l)) (sym (append-nil _)),
  ))

module _ {W : Type 0} (S : Services W) (g : Globals) (plain : g.debug ≡ false) (filter : String)
    (du : List UsageRecord) (answers : Answers S filter du) (small : sum_all du < 2 ^ 63) where
  -- `img du` without -d, where every controller answers the filter with the same records, whose
  -- positive sizes add up to less than 2^63: if it returns, it has printed the title, one row for each
  -- record in their order and, if there is no filter, the sum of the positive sizes that are not in use
  -- and the sum of all of them, and nothing else. A row has the identifier, with a star if the record
  -- is mutable, whether it is not in use, the size, and at most 53 bytes that begin with the first 50
  -- of the description and are the whole of one that has at most 50.
  pub run_usage-Triple :
      (before : List Line)
      → Triple
          (Said before)
          (run_usage S g filter)
          (λ _. Reported (filter == "") du before)
          (λ _. Unit {0})
  unfolding run_usage print_table set_client modify
  run_usage-Triple before = rw plain (
      Triple-bind (Triple-lax (Silent-call before _)) λ id.
        Triple-bind (Triple-lax (new-Silent S before _ _ _)) λ c.
          Triple-bind (Triple-modify {Q = Said before} _ (λ s h. h)) λ _.
            Triple-bind (Triple-lax (disk_usage-Answers S before _ filter du answers)) λ l.
              Triple-given λ same. rw same (
                Triple-bind
                  (Triple-weaken {R = λ _. Said (before ++ (usage_title ∷ map row du))}
                    (Triple-bind (print-Said before usage_title)
                      λ _. print_rows-Triple du (before ++ (usage_title ∷ [])))
                    (λ _ s h. (h.0, h.1 ∙ append_assoc before _ _)))
                  λ _. ending du before small (filter == "")))
