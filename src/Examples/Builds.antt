-- ===== src/Examples/Builds.antt =====
-- The theorems on build.go, applied.
use package.text.Mathlib.Text.{starts_with}
use package.text.Mathlib.TextPositions.{starts_with-append}
use img.Common.{
  inl, inr, ◌⊎◌, sym, ◌∙◌, Bool-cases, ℕ, String, true, false, none, some, List, [], ◌∷◌, ◌≡◌, ◌↔◌,
  refl, ◌==◌, eq_iff, ◌<>◌,
}
use img.Common.Exec.{ok}
use img.Common.Text.{cut, has_suffix}
use img.Common.Output.{text, stdout, stderr}
use img.Common.Triple.{Keeps}
use img.Client.Worker.Keeps.{OnHost}
use img.Build.Untar.{untar}
use img.Build.Untar.Confined.{Confines, untar-Keeps}
use img.Fixture.{World, memory, popped}
use img.Services.{TarHeader}
use img.Common.FilePath
use img.Build.{Attrs, lookup, insert, add_build_args, first_attrs}
use img.Services.Progress.{Vertex, VertexLog, StatusResponse}
use img.Build.Progress.{show_plain}
use img.Build.Attributes.{WellFormed, add_build_args-ok_iff, first_attrs-add_build_args}

abbrev args : List String
args = "A=1" ∷ "B=x=y" ∷ "A=2" ∷ []

abbrev before : Attrs
before = ("filename", "Dockerfile") ∷ ("target", "") ∷ []

abbrev attrs : Attrs
attrs =
    ("build-arg:A", "2") ∷ ("build-arg:B", "x=y") ∷ ("filename", "Dockerfile") ∷ ("target", "") ∷ []

told : add_build_args (first_attrs "ctx/Dockerfile" "") args ≡ ok attrs
unfolding add_build_args first_attrs FilePath.base cut
told = refl

first_attrs-add_build_args_example :
    (lookup "filename" attrs ≡ some (FilePath.base "ctx/Dockerfile"))
    × (lookup "target" attrs ≡ some "")
    × (lookup "build-arg:A" attrs ≡ some "2")
    × (lookup "no-cache" attrs ≡ none)
unfolding cut
first_attrs-add_build_args_example =
    first_attrs-add_build_args "ctx/Dockerfile" "" "A" "no-cache" args attrs told refl refl refl

add_build_args-ok_iff_example :
    WellFormed args ↔ ((after : Attrs) × (add_build_args before args ≡ ok after))
add_build_args-ok_iff_example = add_build_args-ok_iff args before

-- The text of the file outside is what it was.
abbrev IsSafe : World → Type 0
IsSafe w = w.outside ≡ "root"

abbrev IsBelow : String → Type 0
IsBelow path = (rest : String) × (path ≡ "/tmp/dir" <> ("/" <> rest))

below_ne : (path : String) → IsBelow path → (path == "/etc/passwd") ≡ false
below_ne path (rest, e) = go (Bool-cases (path == "/etc/passwd"))
  where
    go :
        ((path == "/etc/passwd") ≡ true) ⊎ ((path == "/etc/passwd") ≡ false)
        → (path == "/etc/passwd") ≡ false
    go (inr ne) = ne
    go (inl same) =
        let passwd : "/tmp/dir" <> ("/" <> rest) ≡ "/etc/passwd" =
          sym e ∙ (eq_iff path "/etc/passwd").0 same in
        let prefixed : starts_with "/etc/passwd" "/tmp/dir" ≡ true =
          rw passwd at (starts_with-append "/tmp/dir" ("/" <> rest)) in
        cc prefixed

joined : (name path : String) → memory.inputs.secure_join "/tmp/dir" name ≡ ok path → IsBelow path
joined name path e = (name, same)
  where
    same : path ≡ "/tmp/dir" <> ("/" <> name)
    same = cc

popped_safe : (es : List TarHeader) (w : World) → IsSafe w → IsSafe (popped es w).1
popped_safe [] w safe = safe
popped_safe (e ∷ es) w safe = safe

abbrev memory_confines : Confines memory "/tmp/dir" IsSafe
memory_confines = record {
  Inside = IsBelow;
  Opened = λ f. Unit;
  joined = λ name path e. joined name path e;
  mkdir_safe = λ path mode inside w safe. safe;
  open_safe = λ path mode inside w safe. rw (below_ne path inside) safe;
  open_opened = λ path mode w f inside e. tt;
  copy_safe = λ f tr opened w safe. safe;
  stat_safe = λ path w safe. safe;
  close_safe = λ f w safe. safe;
  next_safe = λ tr w safe. popped_safe w.entries w safe;
  gzip_safe = λ w safe. safe;
}

untar-Keeps_example : Keeps (OnHost IsSafe) (untar memory 9 "/tmp/dir")
untar-Keeps_example = untar-Keeps IsSafe memory_confines 9

abbrev vertex : String → Vertex
vertex name = record {
  digest = "d";
  inputs = [];
  name = name;
  started = none;
  completed = none;
  error = "";
  cached = false;
}

abbrev log : String → ℕ → String → VertexLog
log d stream msg = record { vertex = d; stream = stream; msg = msg; timestamp = 0 }

-- A vertex that is renamed between two messages, and a message of a vertex that is not known.
abbrev responses : List StatusResponse
responses =
    record { vertexes = vertex "RUN make" ∷ []; statuses = []; logs = log "d" 1 "ok" ∷ [] }
    ∷ record {
      vertexes = vertex "RUN test" ∷ [];
      statuses = [];
      logs = log "d" 2 "bad\n" ∷ log "e" 1 "?" ∷ [];
    }
    ∷ []

shows : show_plain [] responses ≡ (
    stdout "%s" (text "[RUN make]: ok\n" ∷ [])
    ∷ stderr "%s" (text "[RUN test]: bad\n" ∷ [])
    ∷ stdout "%s" (text "[?]: ?\n" ∷ [])
    ∷ [])
unfolding show_plain has_suffix lookup insert
shows = refl
