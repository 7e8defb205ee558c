-- ===== src/Plan/Changes/Complete.antt =====
-- packages/plan-engine/src/diff.ts: which resources have a change.
use mathlib.Core.List.{Perm}
use mathlib.Core.Path.{ap₂}
use mathlib.Core.Bool.{Bool, ◌||◌}
use desired_state_protocol.Common.{
  arith, not, includes, insert, is_some, str_eq, if◌then◌else◌, lookup-insert, has_key, ℕ, lookup,
  filter, from_entries, List, [], ◌∷◌, ◌++◌, map, Option, none, some, JsString, ◌≡◌, refl, sym, ap,
  ◌∙◌, sort_by-perm, Perm-map, StringMap,
}
use desired_state_protocol.Protocol.Errors.{return}
use desired_state_protocol.Protocol.Results.{return_injective, >>=-eq-return, map_all, map_all-map}
use desired_state_protocol.Protocol.Plan.{PlanChange, FieldDiff}
use desired_state_protocol.Plan.Normalize.{NormalizedResource}
use desired_state_protocol.Plan.Diff.{
  DiffInput, DraftChange, definition_for, field_diffs, by_key_map,
}
use desired_state_protocol.Plan.Changes.{
  to_plan_change, to_changes, drafts_of, compute_changes, change_order, draft_for, draft_against,
  present_draft, gone, delete_draft, draft_id,
}

key_of : DraftChange → JsString
key_of draft = draft.resource.key

present_draft-key :
    (desired current : NormalizedResource) (fields immutable : List FieldDiff)
    → key_of (present_draft desired current fields immutable) ≡ desired.key
unfolding key_of present_draft
present_draft-key desired current [] immutable = refl
present_draft-key desired current (field ∷ fields) [] = refl
present_draft-key desired current (field ∷ fields) (first ∷ immutable) = refl

map_append : {A B : Type 0} (f : A → B) (xs ys : List A) → map f (xs ++ ys) ≡ map f xs ++ map f ys
map_append f [] ys = refl
map_append f (x ∷ xs) ys = ap (λ l. f x ∷ l) (map_append f xs ys)

deleted_keys :
    (resources : List NormalizedResource)
    → map key_of (map delete_draft resources) ≡ map (λ r. r.key) resources
unfolding key_of delete_draft
deleted_keys [] = refl
deleted_keys (resource ∷ resources) = ap (λ ks. resource.key ∷ ks) (deleted_keys resources)

is_some-if :
    {A : Type 0} (b : Bool) (a : A) (o : Option A)
    → is_some (if b then some a else o) ≡ (b || is_some o)
is_some-if b a o = ground arith

-- A resource is in the map of the resources by their keys when it is there already or one of them.
has_key-from_entries :
    (k : JsString) (resources : List NormalizedResource) (m : StringMap NormalizedResource)
    → has_key k (from_entries (map (λ r. (r.key, r)) resources) m)
      ≡ (has_key k m || includes (map (λ r. r.key) resources) k)
unfolding from_entries includes
has_key-from_entries k [] m = ground arith
has_key-from_entries k (r ∷ rest) m =
    let later = has_key-from_entries k rest (insert r.key r m) in
    let written =
      ap is_some (lookup-insert r.key k r m) ∙ is_some-if (str_eq r.key k) r (lookup k m) in
    ground arith

filter-same :
    {A : Type 0} (p q : A → Bool) (xs : List A) → ((x : A) → p x ≡ q x) → filter p xs ≡ filter q xs
filter-same p q [] h = refl
filter-same p q (x ∷ xs) h = let rest = filter-same p q xs h in let here = h x in ground arith

-- The current resources whose keys are none of the desired ones'
abbrev pub undesired : DiffInput → List NormalizedResource
undesired input = filter (λ r. not (includes (map (λ d. d.key) input.desired) r.key)) input.current

gone-undesired : (input : DiffInput) → gone input ≡ undesired input
unfolding gone by_key_map
gone-undesired input =
    filter-same _ _ input.current λ r. ap not (has_key-from_entries r.key input.desired [])

module _ (number_text : ℕ → JsString) where
  draft_against-key :
      (input : DiffInput) (desired : NormalizedResource) (current : Option NormalizedResource)
      {draft : DraftChange}
      → draft_against number_text input desired current ≡ return draft
      → key_of draft ≡ desired.key
  unfolding draft_against key_of
  draft_against-key input desired none e = ap key_of (sym (return_injective e))
  draft_against-key input desired (some current) e =
      let definition = definition_for input.resource_types desired in
      let (fields, _, same) =
        >>=-eq-return (field_diffs number_text current.attributes desired.attributes definition)
          (λ fields.
            return (present_draft desired current fields (filter (λ f. f.immutable) fields)))
          e in
      rw (← return_injective same)
        (present_draft-key desired current fields (filter (λ f. f.immutable) fields))

  drafts_of-keys :
      (input : DiffInput) {drafts : List DraftChange}
      → drafts_of number_text input ≡ return drafts
      → map key_of drafts ≡ map (λ r. r.key) input.desired ++ map (λ r. r.key) (gone input)
  unfolding drafts_of draft_for
  drafts_of-keys input e =
      let (described, drafted, same) =
        >>=-eq-return (map_all (draft_for number_text input) input.desired)
          (λ described. return (described ++ map delete_draft (gone input))) e in
      rw (← return_injective same) (
        map_append key_of described (map delete_draft (gone input))
        ∙ ap₂ (λ a b. a ++ b)
            (map_all-map (draft_for number_text input) key_of (λ r. r.key) input.desired
              (λ resource draft.
                draft_against-key input resource (lookup resource.key (by_key_map input.current))
                  {draft = draft})
              drafted)
            (deleted_keys (gone input)))

  module _ (sha256_hex : JsString → JsString) where
    plan_change_keys :
        (input : DiffInput) (ids : StringMap JsString) (all drafts : List DraftChange)
        → map (λ c. c.resource_key) (map (to_plan_change sha256_hex input ids all) drafts)
          ≡ map key_of drafts
    unfolding to_plan_change key_of
    plan_change_keys input ids all [] = refl
    plan_change_keys input ids all (draft ∷ drafts) =
        ap (λ ks. draft.resource.key ∷ ks) (plan_change_keys input ids all drafts)

    to_changes-keys :
        (input : DiffInput) (drafts : List DraftChange)
        → Perm (map (λ c. c.resource_key) (to_changes sha256_hex input drafts)) (map key_of drafts)
    unfolding to_changes
    to_changes-keys input drafts =
        let ids = from_entries (map (λ d. (d.resource.key, draft_id sha256_hex d)) drafts) [] in
        rw (← plan_change_keys input ids drafts drafts) (
          Perm-map (λ c. c.resource_key)
            (sort_by-perm change_order (map (to_plan_change sha256_hex input ids drafts) drafts)))

    -- The keys of the changes are, up to their order, those of the desired resources and those of
    -- the current resources whose key no desired resource has: each of these resources has one
    -- change.
    pub compute_changes-keys :
        (input : DiffInput) (changes : List PlanChange)
        → compute_changes number_text sha256_hex input ≡ return changes
        → Perm
            (map (λ c. c.resource_key) changes)
            (map (λ r. r.key) input.desired ++ map (λ r. r.key) (undesired input))
    unfolding compute_changes
    compute_changes-keys input changes computed =
        let (drafts, drafted, same) =
          >>=-eq-return (drafts_of number_text input)
            (λ drafts. return (to_changes sha256_hex input drafts)) computed in
        rw (← return_injective same, ← gone-undesired input, ← drafts_of-keys input drafted)
          (to_changes-keys input drafts)
