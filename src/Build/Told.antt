-- ===== src/Build/Told.antt =====
-- What should be printed of the solver's messages, apart from how `showProgress` of build.go prints it.
use img.Common.{
  ℕ, String, true, false, Option, none, some, List, [], ◌∷◌, ◌++◌, ◌<>◌, ◌==◌, ◌≡◌, ◌≢◌, arith, map,
  eq_iff, if◌then◌else◌, Bool-cases, inl, inr,
}
use img.Common.Output.{Line, text, stdout, stderr}
use img.Common.Text.{has_suffix, same_code}
use img.Services.Progress.{Vertex, VertexLog, StatusResponse}
use img.Build.Progress.{
  shown_name, with_newline, log_line, show_plain, recent, push_all, described, show_plain-described,
}

-- What should be printed of a message, by the name of its vertex: "[name]: message" and the end of the
-- line, where "?" stands for a missing or empty name; to the standard output if the stream is 1.
pub data IsNamed : Option String → String → Type 0 where
  missing : IsNamed none "?"
  empty : IsNamed (some "") "?"
  named : (name : String) → name ≢ "" → IsNamed (some name) name

pub data IsEnded : String → String → Type 0 where
  ended : (s : String) → has_suffix b'\n' s ≡ true → IsEnded s s
  unended : (s : String) → has_suffix b'\n' s ≡ false → IsEnded s (s <> "\n")

pub data IsWritten : ℕ → String → Line → Type 0 where
  to_stdout : (s : String) → IsWritten 1 s (stdout "%s" (text s ∷ []))
  to_stderr : (n : ℕ) (s : String) → n ≢ 1 → IsWritten n s (stderr "%s" (text s ∷ []))

abbrev pub IsTold : Option String → VertexLog → Line → Type 0
IsTold vertex v line =
    (name : String) × (s : String) × IsNamed vertex name
    × IsEnded ("[" <> (name <> ("]: " <> v.msg))) s
    × IsWritten v.stream s line

-- The messages in their order, each with the name that the most recent vertex of its digest has when
-- its response comes, after the vertexes `seen`.
abbrev pub messages : List Vertex → List StatusResponse → List (Option String × VertexLog)
messages seen [] = []
messages seen (resp ∷ resps) =
    map (λ v. (recent v.vertex (push_all seen resp.vertexes), v)) resp.logs
    ++ messages (push_all seen resp.vertexes) resps

-- One line for each message.
pub data AreTold : List (Option String × VertexLog) → List Line → Type 0 where
  none_told : AreTold [] []
  one_told :
      (name : Option String) (v : VertexLog) (line : Line) {more : List (Option String × VertexLog)}
      {lines : List Line}
      → IsTold name v line
      → AreTold more lines
      → AreTold ((name, v) ∷ more) (line ∷ lines)

shown_name-IsNamed : (vertex : Option String) → IsNamed vertex (shown_name vertex)
unfolding shown_name
shown_name-IsNamed none = missing
shown_name-IsNamed (some name) = elim (Bool-cases (name == "")) [
  | inl e ↦ rw (e, (eq_iff name "").0 e) empty
  | inr e ↦ rw e (named name (λ x. let yes = (eq_iff name "").1 x in cc))
]

with_newline-IsEnded : (s : String) → IsEnded s (with_newline s)
unfolding with_newline
with_newline-IsEnded s = elim (Bool-cases (has_suffix b'\n' s)) [
  | inl e ↦ rw e (ended s e)
  | inr e ↦ rw e (unended s e)
]

written :
    (n : ℕ) (s : String)
    → IsWritten n s (if same_code n 1 then stdout "%s" (text s ∷ []) else stderr "%s" (text s ∷ []))
written n s = elim (Bool-cases (same_code n 1)) [
  | inl e ↦ let one : n ≡ 1 = ground arith in rw (e, one) (to_stdout s)
  | inr e ↦ rw e (to_stderr n s (λ one. ground arith))
]

log_line-IsTold : (vertex : Option String) (v : VertexLog) → IsTold vertex v (log_line vertex v)
unfolding log_line
log_line-IsTold vertex v =
    (shown_name vertex, _, shown_name-IsNamed vertex, with_newline-IsEnded _, written v.stream _)

AreTold-append :
    {a b : List (Option String × VertexLog)} {x y : List Line}
    → AreTold a x
    → AreTold b y
    → AreTold (a ++ b) (x ++ y)
AreTold-append none_told u = u
AreTold-append (one_told name v line t ts) u = one_told name v line t (AreTold-append ts u)

map-AreTold :
    (f : String → Option String) (logs : List VertexLog)
    → AreTold (map (λ v. (f v.vertex, v)) logs) (map (λ v. log_line (f v.vertex) v) logs)
map-AreTold f [] = none_told
map-AreTold f (v ∷ logs) =
    one_told (f v.vertex) v _ (log_line-IsTold (f v.vertex) v) (map-AreTold f logs)

described-AreTold :
    (seen : List Vertex) (resps : List StatusResponse)
    → AreTold (messages seen resps) (described seen resps)
described-AreTold seen [] = none_told
described-AreTold seen (resp ∷ resps) =
    AreTold-append (map-AreTold (λ d. recent d (push_all seen resp.vertexes)) resp.logs)
      (described-AreTold (push_all seen resp.vertexes) resps)

-- What is printed of the responses: the line of each message, once and in its order.
pub show_plain-AreTold :
    (resps : List StatusResponse) → AreTold (messages [] resps) (show_plain [] resps)
show_plain-AreTold resps = rw (show_plain-described resps) (described-AreTold [] resps)
