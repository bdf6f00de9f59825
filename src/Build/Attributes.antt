-- ===== src/Build/Attributes.antt =====
-- What the build arguments put into the frontend's attributes.
use text.Mathlib.TextLemmas.{append_cancel_left}
use text.Mathlib.Text.{starts_with}
use text.Mathlib.TextPositions.{starts_with-append}
use img.Common.{
  String, true, false, Option, none, some, List, [], ◌∷◌, ◌≡◌, ◌≢◌, ◌↔◌, refl, sym, ◌∙◌, ap, arith,
  ◌==◌, eq_iff, if◌then◌else◌, ◌⊎◌, inl, inr, Option-cases, Bool-cases,
}
use img.Common.Exec.{ok, err, errorf}
use img.Common.Text.{cut}
use img.Common.FilePath
use img.Build.{Attrs, without, insert, lookup, arg_key, add_build_args, first_attrs}

lookup-without :
    (key other : String) (attrs : Attrs)
    → (key == other) ≡ false
    → lookup other (without key attrs) ≡ lookup other attrs
unfolding lookup without
lookup-without key other [] ne = refl
lookup-without key other (entry ∷ rest) ne =
    let tail = lookup-without key other rest ne in
    ground (arith, eq_iff key other, eq_iff key entry.0, eq_iff entry.0 other)

pub lookup-insert :
    (key other value : String) (attrs : Attrs)
    → lookup other (insert key value attrs)
      ≡ (if key == other then some value else lookup other attrs)
unfolding lookup insert
lookup-insert key other value attrs = elim (Bool-cases (key == other)) [
  | inl same ↦ rw same refl
  | inr ne ↦ rw ne (lookup-without key other attrs ne)
]

arg_key-eq : (k j : String) → (arg_key k == arg_key j) ≡ (k == j)
arg_key-eq k j = elim (Bool-cases (k == j)) [
  | inl same ↦ rw same ((eq_iff _ _).1 (ap arg_key ((eq_iff k j).0 same)))
  | inr other ↦ rw other (go (Bool-cases (arg_key k == arg_key j)) other)
]
  where
    go :
        ((arg_key k == arg_key j) ≡ true) ⊎ ((arg_key k == arg_key j) ≡ false)
        → (k == j) ≡ false
        → (arg_key k == arg_key j) ≡ false
    go (inl same) other =
        cc (other, (eq_iff k j).1 (append_cancel_left "build-arg:" k j ((eq_iff _ _).0 same)))
    go (inr e) other = e

arg_key-ne : (j key : String) → starts_with key "build-arg:" ≡ false → (arg_key j == key) ≡ false
arg_key-ne j key ne = go (Bool-cases (arg_key j == key))
  where
    go : ((arg_key j == key) ≡ true) ⊎ ((arg_key j == key) ≡ false) → (arg_key j == key) ≡ false
    go (inl same) =
        let prefixed : starts_with key "build-arg:" ≡ true =
          rw ((eq_iff (arg_key j) key).0 same) at (starts_with-append "build-arg:" j) in
        cc
    go (inr e) = e

-- The value that one argument gives to a name, and that all give it: the last one counts.
abbrev pub given : String → Option String → Option (String × String) → Option String
given k value none = value
given k value (some (j, v)) = if j == k then some v else value

abbrev pub argument : String → Option String → List String → Option String
argument k value [] = value
argument k value (arg ∷ args) = argument k (given k value (cut b'=' arg)) args

-- Every argument has an equals sign.
abbrev pub WellFormed : List String → Type 0
WellFormed [] = Unit
WellFormed (arg ∷ args) = (cut b'=' arg ≢ none) × WellFormed args

add-none :
    (attrs : Attrs) (arg : String) (args : List String)
    → cut b'=' arg ≡ none
    → add_build_args attrs (arg ∷ args) ≡ err (errorf "invalid build-arg value %s" (arg ∷ []))
unfolding add_build_args
add-none attrs arg args e = rw (e, add_build_args)

add-some :
    (attrs : Attrs) (arg : String) (args : List String) (k v : String)
    → cut b'=' arg ≡ some (k, v)
    → add_build_args attrs (arg ∷ args) ≡ add_build_args (insert (arg_key k) v attrs) args
unfolding add_build_args
add-some attrs arg args k v e = rw (e, add_build_args)

-- Where the loop returns, the attribute of a build argument has the value that the last argument of
-- that name gives it, or what it was before if there is none.
pub lookup-add_build_args :
    (k : String) (args : List String) (attrs attrs' : Attrs)
    → add_build_args attrs args ≡ ok attrs'
    → lookup (arg_key k) attrs' ≡ argument k (lookup (arg_key k) attrs) args
unfolding add_build_args
lookup-add_build_args k [] attrs attrs' h = cc
lookup-add_build_args k (arg ∷ args) attrs attrs' h = elim (Option-cases (cut b'=' arg)) [
  | inl e ↦ let failed = add-none attrs arg args e in cc
  | inr ((j, v), e) ↦ rw e (
      lookup-add_build_args k args (insert (arg_key j) v attrs) attrs'
        (sym (add-some attrs arg args j v e) ∙ h)
      ∙ ap (λ o. argument k o args)
          (lookup-insert (arg_key j) (arg_key k) v attrs
            ∙ ap (λ b. if b then some v else lookup (arg_key k) attrs) (arg_key-eq j k)))
]

-- The attributes that are no build argument keep their values.
pub lookup-add_build_args_ne :
    (key : String) (args : List String) (attrs attrs' : Attrs)
    → starts_with key "build-arg:" ≡ false
    → add_build_args attrs args ≡ ok attrs'
    → lookup key attrs' ≡ lookup key attrs
unfolding add_build_args
lookup-add_build_args_ne key [] attrs attrs' ne h = cc
lookup-add_build_args_ne key (arg ∷ args) attrs attrs' ne h = elim (Option-cases (cut b'=' arg)) [
  | inl e ↦ let failed = add-none attrs arg args e in cc
  | inr ((j, v), e) ↦
      lookup-add_build_args_ne key args (insert (arg_key j) v attrs) attrs' ne
        (sym (add-some attrs arg args j v e) ∙ h)
      ∙ (lookup-insert (arg_key j) key v attrs
          ∙ ap (λ b. if b then some v else lookup key attrs) (arg_key-ne j key ne))
]

-- The loop returns exactly where every argument has an equals sign.
pub add_build_args-ok_iff :
    (args : List String) (attrs : Attrs)
    → WellFormed args ↔ ((attrs' : Attrs) × (add_build_args attrs args ≡ ok attrs'))
unfolding add_build_args
add_build_args-ok_iff [] attrs = (λ _. (attrs, refl), λ _. tt)
add_build_args-ok_iff (arg ∷ args) attrs = elim (Option-cases (cut b'=' arg)) [
  | inl e ↦
      (λ (has, _). absurd (has e), λ (attrs', h). let failed = add-none attrs arg args e in cc)
  | inr ((j, v), e) ↦
      let step = add-some attrs arg args j v e in
      let (to, from) = add_build_args-ok_iff args (insert (arg_key j) v attrs) in
      (
        λ (_, all). let (attrs', h) = to all in (attrs', step ∙ h),
        λ (attrs', h). (λ absent. cc, from (attrs', sym step ∙ h)),
      )
]

-- The keys that `Run` sets itself are no build arguments.
own-ne : (key k : String) → starts_with key "build-arg:" ≡ false → (key == arg_key k) ≡ false
own-ne key k ne =
    let other = arg_key-ne k key ne in
    ground (arith, eq_iff key (arg_key k), eq_iff (arg_key k) key)

-- What the frontend is told, where the loop over the build arguments returns: `filename` is the base
-- name of the Dockerfile's path, `target` is the target, `build-arg:<name>` has the value of the last
-- argument of that name and is not there if there is none, and no other key is there.
pub first_attrs-add_build_args :
    (path target k key : String) (args : List String) (attrs : Attrs)
    → add_build_args (first_attrs path target) args ≡ ok attrs
    → starts_with key "build-arg:" ≡ false
    → ("filename" == key) ≡ false
    → ("target" == key) ≡ false
    → (lookup "filename" attrs ≡ some (FilePath.base path))
      × (lookup "target" attrs ≡ some target)
      × (lookup (arg_key k) attrs ≡ argument k none args)
      × (lookup key attrs ≡ none)
unfolding first_attrs lookup
first_attrs-add_build_args path target k key args attrs h ne no_file no_target =
    let kept = λ (j : String) (e : starts_with j "build-arg:" ≡ false).
      lookup-add_build_args_ne j args (first_attrs path target) attrs e h in
    (
      kept "filename" refl,
      kept "target" refl,
      lookup-add_build_args k args (first_attrs path target) attrs h
          ∙ ap (λ o. argument k o args)
              (rw (own-ne "filename" k refl, own-ne "target" k refl) refl),
      kept key ne ∙ rw (no_file, no_target) refl,
    )
