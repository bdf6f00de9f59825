-- ===== src/Build/Progress.antt =====
-- `showProgress` of build.go where standard error is no console: the log messages of the solver, as
-- they come over the channel until it is closed.
use package.text.Mathlib.TextLemmas.{cons-append}
use img.Common.{
  String, true, Option, none, some, List, [], ◌∷◌, ◌++◌, ◌<>◌, ◌==◌, ◌≡◌, refl, ap, ◌∙◌, map,
  if◌then◌else◌, Bool-cases, inl, inr,
}
use img.Common.Output.{Line, text, stdout, stderr}
use img.Common.Text.{has_suffix, same_code}
use img.Services.Progress.{Vertex, VertexLog, StatusResponse}
use img.Build.{Attrs, insert, lookup}
use img.Build.Attributes.{lookup-insert}

-- The first loop over a response: `vtxNames[v.Digest] = v.Name`.
unfoldable pub add_names : Attrs → List Vertex → Attrs
add_names names [] = names
add_names names (v ∷ vs) = add_names (insert v.digest v.name names) vs

-- `vtxNames[v.Vertex]`, which is empty for a missing key, and "?" in place of an empty name.
unfoldable pub shown_name : Option String → String
shown_name none = "?"
shown_name (some name) = if name == "" then "?" else name

unfoldable pub with_newline : String → String
with_newline log = if has_suffix b'\n' log then log else log <> "\n"

unfoldable pub log_line : Option String → VertexLog → Line
unfolding shown_name with_newline
log_line name v =
    let log = with_newline ("[" <> (shown_name name <> ("]: " <> v.msg))) in
    if same_code v.stream 1 then stdout "%s" (text log ∷ []) else stderr "%s" (text log ∷ [])

-- The loop over the channel.
unfoldable pub show_plain : Attrs → List StatusResponse → List Line
unfolding add_names log_line
show_plain names [] = []
show_plain names (resp ∷ resps) =
    let names' = add_names names resp.vertexes in
    let rest = show_plain names' resps in
    map (λ v. log_line (lookup v.vertex names') v) resp.logs ++ rest

-- The name that the most recent vertex of a digest has, the vertexes being listed latest first.
abbrev pub recent : String → List Vertex → Option String
recent d [] = none
recent d (v ∷ seen) = if v.digest == d then some v.name else recent d seen

abbrev pub push_all : List Vertex → List Vertex → List Vertex
push_all seen [] = seen
push_all seen (v ∷ vs) = push_all (v ∷ seen) vs

-- The lines of the messages after the vertexes `seen`.
abbrev pub described : List Vertex → List StatusResponse → List Line
described seen [] = []
described seen (resp ∷ resps) =
    map (λ v. log_line (recent v.vertex (push_all seen resp.vertexes)) v) resp.logs
    ++ described (push_all seen resp.vertexes) resps

lookup-add_names :
    (vs seen : List Vertex) (names : Attrs)
    → ((d : String) → lookup d names ≡ recent d seen)
    → (d : String) → lookup d (add_names names vs) ≡ recent d (push_all seen vs)
unfolding add_names
lookup-add_names [] seen names h d = h d
lookup-add_names (v ∷ vs) seen names h d =
    lookup-add_names vs (v ∷ seen) (insert v.digest v.name names)
      (λ e.
        lookup-insert v.digest e v.name names
        ∙ ap (λ o. if v.digest == e then some v.name else o) (h e))
      d

map-log_line :
    (f g : String → Option String) (logs : List VertexLog)
    → ((d : String) → f d ≡ g d)
    → map (λ v. log_line (f v.vertex) v) logs ≡ map (λ v. log_line (g v.vertex) v) logs
map-log_line f g [] h = refl
map-log_line f g (v ∷ logs) h = cc (h v.vertex, map-log_line f g logs h)

show_plain-from :
    (resps : List StatusResponse) (seen : List Vertex) (names : Attrs)
    → ((d : String) → lookup d names ≡ recent d seen)
    → show_plain names resps ≡ described seen resps
unfolding show_plain
show_plain-from [] seen names h = refl
show_plain-from (resp ∷ resps) seen names h =
    let known = lookup-add_names resp.vertexes seen names h in
    let rest =
      show_plain-from resps (push_all seen resp.vertexes) (add_names names resp.vertexes) known in
    let here =
      map-log_line (λ d. lookup d (add_names names resp.vertexes))
        (λ d. recent d (push_all seen resp.vertexes)) resp.logs known in
    cc (here, rest)

-- The log messages are printed once each and in their order, each under the name that the most
-- recent vertex of its digest had when it came.
pub show_plain-described : (resps : List StatusResponse) → show_plain [] resps ≡ described [] resps
unfolding lookup
show_plain-described resps = show_plain-from resps [] [] (λ d. refl)

has_suffix-newline : (s : String) → has_suffix b'\n' (s <> "\n") ≡ true
unfolding has_suffix
has_suffix-newline String.[] = refl
has_suffix-newline (String.◌∷◌ c String.[]) = rw (cons-append c String.[] "\n") refl
has_suffix-newline (String.◌∷◌ c (String.◌∷◌ d s)) =
    rw (cons-append c (String.◌∷◌ d s) "\n") (
      rw (cons-append d s "\n")
        (rw (cons-append d s "\n") at (has_suffix-newline (String.◌∷◌ d s))))

-- What is written for a message ends in a newline, and is the message itself where that ends in one.
with_newline_lem :
    (log : String)
    → (has_suffix b'\n' (with_newline log) ≡ true)
      × (has_suffix b'\n' log ≡ true → with_newline log ≡ log)
unfolding with_newline
with_newline_lem log = elim (Bool-cases (has_suffix b'\n' log)) [
  | inl e ↦ rw e (e, λ _. refl)
  | inr e ↦ rw e (has_suffix-newline log, λ f. absurd (cc f))
]
