-- ===== src/Plan/Diff/Leaves.antt =====
-- packages/plan-engine/src/diff.ts, fieldDiffs: when two attribute objects have no differences.
use mathlib.Core.List.{Memᴰ}
use desired_state_protocol.Common.{
  ℕ, ◌≤◌, Bool, true, false, not, List, [], ◌∷◌, ◌++◌, map, filter, any, length, length-append,
  Option, none, some, JsString, StringMap, lookup, unique, unique_from, str_eq, str_eq_sound,
  starts_with, ◌≡◌, ◌≢◌, ◌⊎◌, inl, inr, refl, sym, ap, ◌∙◌, arith, mem-sort_by, Bool-cases,
  Option-cases, leb, All, js,
}
use desired_state_protocol.Protocol.Errors.{Result, return, throw}
use desired_state_protocol.Protocol.Results.{return_injective, >>=-eq-return, map_all, map_all-cons}
use desired_state_protocol.Protocol.Value.{Value, object, Entries, or_null}
use desired_state_protocol.Protocol.Plan.{FieldDiff, ResourceTypeDefinition}
use desired_state_protocol.Protocol.Paths.{flatten_value}
use desired_state_protocol.Protocol.Canonical.{canonical_equals}
use desired_state_protocol.Plan.Normalize.{compare_strings}
use desired_state_protocol.Plan.Diff.{
  is_ancestor_path, without_ancestors, keep_some, diff_unless, field_diff, changed_paths,
  field_diffs, immutable_fields_of,
}

starts_with-length : (s p : JsString) → starts_with s p ≡ true → length p ≤ length s
unfolding starts_with
starts_with-length s [] h = omega arith
starts_with-length [] (p ∷ ps) h = cc
starts_with-length (c ∷ s) (p ∷ ps) h = ground (arith, starts_with-length s ps)

is_ancestor_path-length : (a b : JsString) → length b ≤ length a → is_ancestor_path a b ≡ false
unfolding is_ancestor_path
is_ancestor_path-length [] [] h = refl
is_ancestor_path-length [] (c ∷ b) h = ground arith
is_ancestor_path-length (c ∷ a) b h = ground (
  arith,
  starts_with-length b ((c ∷ a) ++ js "."),
  starts_with-length b ((c ∷ a) ++ js "["),
  length-append (c ∷ a) (js "."),
  length-append (c ∷ a) (js "["),
)

abbrev AtMost : ℕ → List FieldDiff → Type 0
AtMost n diffs = All (λ d. length d.path ≤ n) diffs

AtMost-more : (n m : ℕ) (diffs : List FieldDiff) → n ≤ m → AtMost n diffs → AtMost m diffs
AtMost-more n m [] h all = tt
AtMost-more n m (d ∷ ds) h (one, all) = (omega arith, AtMost-more n m ds h all)

-- A difference with a longest path
longest :
    (first : FieldDiff) (diffs : List FieldDiff)
    → (d : FieldDiff) × Memᴰ d (first ∷ diffs) × AtMost (length d.path) (first ∷ diffs)
longest first [] = (first, Memᴰ.head refl, (omega arith, tt))
longest first (next ∷ diffs) =
    let (d, at_d, all) = longest next diffs in
    elim (Bool-cases (leb (length first.path) (length d.path))) [
      | inl h ↦ (d, Memᴰ.tail at_d, (ground arith, all))
      | inr h ↦ (
        first,
        Memᴰ.head refl,
        (
          omega arith,
          AtMost-more (length d.path) (length first.path) (next ∷ diffs) (ground arith) all,
        ),
      )
    ]

no_longer :
    (d : FieldDiff) (diffs : List FieldDiff)
    → AtMost (length d.path) diffs
    → any (λ other. is_ancestor_path d.path other.path) diffs ≡ false
no_longer d [] all = refl
no_longer d (e ∷ es) (one, all) =
    ground (arith, is_ancestor_path-length d.path e.path one, no_longer d es all)

filter_kept :
    (p : FieldDiff → Bool) (diffs : List FieldDiff) {d : FieldDiff}
    → Memᴰ d diffs
    → p d ≡ true
    → filter p diffs ≢ []
filter_kept p [] m h e = elim m [ ]
filter_kept p (x ∷ xs) (Memᴰ.head same) h e = let h' = ap p same in ground arith
filter_kept p (x ∷ xs) (Memᴰ.tail m) h e = let rest = filter_kept p xs m h in ground arith

without_ancestors-nil : (diffs : List FieldDiff) → without_ancestors diffs ≡ [] → diffs ≡ []
unfolding without_ancestors
without_ancestors-nil [] e = refl
without_ancestors-nil (first ∷ diffs) e =
    let (d, at_d, all) = longest first diffs in
    absurd (
      filter_kept
        (λ diff. not (any (λ other. is_ancestor_path diff.path other.path) (first ∷ diffs)))
        (first ∷ diffs) at_d (ap not (no_longer d (first ∷ diffs) all)) e)

mem-append_left : {A : Type 0} (xs ys : List A) {x : A} → Memᴰ x xs → Memᴰ x (xs ++ ys)
mem-append_left [] ys m = elim m [ ]
mem-append_left (y ∷ xs) ys (Memᴰ.head e) = Memᴰ.head e
mem-append_left (y ∷ xs) ys (Memᴰ.tail m) = Memᴰ.tail (mem-append_left xs ys m)

mem-append_right : {A : Type 0} (xs ys : List A) {x : A} → Memᴰ x ys → Memᴰ x (xs ++ ys)
mem-append_right [] ys m = m
mem-append_right (y ∷ xs) ys m = Memᴰ.tail (mem-append_right xs ys m)

-- A path that is the first, was seen before it or stands behind it
mem_behind_new :
    (y : JsString) (seen rest : List JsString) {x : JsString}
    → (any (λ z. str_eq z x) (y ∷ seen) ≡ true) ⊎ Memᴰ x rest
    → (any (λ z. str_eq z x) seen ≡ true) ⊎ Memᴰ x (y ∷ rest)
mem_behind_new y seen rest {x} (inr m) = inr (Memᴰ.tail m)
mem_behind_new y seen rest {x} (inl found) = elim (Bool-cases (str_eq y x)) [
  | inl same ↦ inr (Memᴰ.head (sym (str_eq_sound y x same)))
  | inr other ↦ inl (rw other at found)
]

mem-unique_from :
    (seen xs : List JsString) {x : JsString}
    → Memᴰ x xs
    → (any (λ y. str_eq y x) seen ≡ true) ⊎ Memᴰ x (unique_from str_eq seen xs)
unfolding unique_from
mem-unique_from seen [] m = elim m [ ]
mem-unique_from seen (y ∷ xs) {x} (Memᴰ.head e) = elim (Bool-cases (any (λ z. str_eq z y) seen)) [
  | inl found ↦ inl (rw e found)
  | inr new ↦ inr (rw new (Memᴰ.head e))
]
mem-unique_from seen (y ∷ xs) {x} (Memᴰ.tail m) = elim (Bool-cases (any (λ z. str_eq z y) seen)) [
  | inl found ↦ rw found (mem-unique_from seen xs m)
  | inr new ↦
      rw new
        (mem_behind_new y seen (unique_from str_eq (y ∷ seen) xs) (mem-unique_from (y ∷ seen) xs m))
]

mem-unique : (xs : List JsString) {x : JsString} → Memᴰ x xs → Memᴰ x (unique str_eq xs)
unfolding unique
mem-unique xs m = elim (mem-unique_from [] xs m) [ inl e ↦ cc | inr n ↦ n ]

mem-keys :
    (path : JsString) (leaves : StringMap Value) {v : Value}
    → lookup path leaves ≡ some v
    → Memᴰ path (map (λ e. e.0) leaves)
unfolding lookup
mem-keys path [] e = cc
mem-keys path ((k, w) ∷ leaves) e = elim (Bool-cases (str_eq k path)) [
  | inl same ↦ Memᴰ.head (sym (str_eq_sound k path same))
  | inr other ↦ Memᴰ.tail (mem-keys path leaves (rw other at e))
]

keep_some-nil :
    {A : Type 0} (x : Option A) (xs : List (Option A))
    → keep_some (x ∷ xs) ≡ []
    → (x ≡ none) × (keep_some xs ≡ [])
unfolding keep_some
keep_some-nil none xs e = (refl, e)
keep_some-nil (some a) xs e = cc

module _ (number_text : ℕ → JsString) where
  diff_unless-none :
      (path : JsString) (before after : Value) (immutable : Bool) (same : Result Bool)
      → diff_unless number_text path before after immutable same ≡ return none
      → same ≡ return true
  unfolding diff_unless
  diff_unless-none path before after immutable (return true) e = refl
  diff_unless-none path before after immutable (return false) e = cc
  diff_unless-none path before after immutable (throw t) e = cc

  abbrev IsSameAt : StringMap Value → StringMap Value → JsString → Type 0
  IsSameAt old new path =
      canonical_equals number_text (or_null (lookup path old)) (or_null (lookup path new))
      ≡ return true

  field_diff-none :
      (old new : StringMap Value) (immutable : List JsString) (path : JsString)
      → field_diff number_text old new immutable path ≡ return none
      → IsSameAt old new path
  unfolding field_diff
  field_diff-none old new immutable path e =
      diff_unless-none path (or_null (lookup path old)) (or_null (lookup path new)) _ _ e

  map_all-IsSameAt :
      (old new : StringMap Value) (immutable paths : List JsString)
      {diffs : List (Option FieldDiff)} {path : JsString}
      → map_all (field_diff number_text old new immutable) paths ≡ return diffs
      → keep_some diffs ≡ []
      → Memᴰ path paths
      → IsSameAt old new path
  map_all-IsSameAt old new immutable [] e k m = elim m [ ]
  map_all-IsSameAt old new immutable (p ∷ paths) {diffs} {path} e k m =
      let (d, rest, at_d, at_rest, same) =
        map_all-cons (field_diff number_text old new immutable) p paths e in
      let (is_none, others) = keep_some-nil d rest (rw same at k) in
      elim m [
        | Memᴰ.head q ↦ rw q (field_diff-none old new immutable p (at_d ∙ ap return is_none))
        | Memᴰ.tail n ↦ map_all-IsSameAt old new immutable paths at_rest others n
      ]

  mem-changed_paths :
      (old new : StringMap Value) (path : JsString)
      → Memᴰ path (map (λ e. e.0) old ++ map (λ e. e.0) new)
      → Memᴰ path (changed_paths number_text old new)
  unfolding changed_paths
  mem-changed_paths old new path m =
      let keys = map (λ e. e.0) old ++ map (λ e. e.0) new in
      mem-sort_by compare_strings (unique str_eq keys) (mem-unique keys m)

  absent-IsSameAt :
      (old new : StringMap Value) (path : JsString)
      → lookup path old ≡ none
      → lookup path new ≡ none
      → IsSameAt old new path
  unfolding canonical_equals str_eq
  absent-IsSameAt old new path a b = rw (a, b) refl

  -- Where two attribute objects have no differences, they agree at every path: each leaf of the one
  -- has the canonical text of the other's at that path, an absent leaf that of null.
  pub field_diffs-IsSameAt :
      (before after : Entries) (definition : Option ResourceTypeDefinition) (path : JsString)
      → field_diffs number_text before after definition ≡ return []
      → canonical_equals number_text
          (or_null (lookup path (flatten_value (object before))))
          (or_null (lookup path (flatten_value (object after))))
        ≡ return true
  unfolding field_diffs
  field_diffs-IsSameAt before after definition path e =
      let old = flatten_value (object before) in
      let new = flatten_value (object after) in
      let diff = field_diff number_text old new (immutable_fields_of definition) in
      let (diffs, all, same) =
        >>=-eq-return (map_all diff (changed_paths number_text old new))
          (λ diffs. return (without_ancestors (keep_some diffs))) e in
      let empty = without_ancestors-nil (keep_some diffs) (return_injective same) in
      let agree : Memᴰ path (map (λ e. e.0) old ++ map (λ e. e.0) new) → IsSameAt old new path =
        λ m.
          map_all-IsSameAt old new (immutable_fields_of definition)
            (changed_paths number_text old new) all empty (mem-changed_paths old new path m) in
      elim (Option-cases (lookup path old)) [
        | inr (v, found) ↦ agree (mem-append_left _ (map (λ e. e.0) new) (mem-keys path old found))
        | inl absent ↦ elim (Option-cases (lookup path new)) [
          | inr (v, found) ↦
              agree (mem-append_right (map (λ e. e.0) old) _ (mem-keys path new found))
          | inl absent_too ↦ absent-IsSameAt old new path absent absent_too
        ]
      ]
