-- ===== src/Store/Owned.antt =====
-- packages/core/src/store/sqlite-store.ts: the owners of the fields behind an apply.
use desired_state_protocol.Common.{
  Bool, true, false, ◌&&◌, List, [], ◌∷◌, Option, none, some, JsString, str_eq, includes, any, All,
  ◌≡◌, refl, ap, ◌↔◌, arith, if◌then◌else◌,
}
use desired_state_protocol.Protocol.Plan.{OwnershipClaim}
use desired_state_protocol.Store.Table.{
  select, upsert, delete_where, select-upsert, select-delete_where, IsKeyed, merged, unless,
  delete_where-IsKeyed,
}
use desired_state_protocol.Store.Fields.{
  FieldKey, Fields, triple_eq, delete_paths, release_fields, claim_paths, claim_fields,
}
use desired_state_protocol.Store.Rows.{Store, record_ownership}
use desired_state_protocol.Store.Reserved.{triple_eq_iff}

-- Whether a claim is about a field
abbrev pub covers : OwnershipClaim → FieldKey → Bool
covers entry (scope, key, path) =
    str_eq entry.scope scope && (str_eq entry.resource_key key && includes entry.paths path)

abbrev pub gives_up : List OwnershipClaim → FieldKey → JsString → Bool
gives_up releases field held = any (λ e. str_eq held e.owner && covers e field) releases

merged_const : {V : Type 0} (v : V) (o : Option V) → merged (λ _. v) v o ≡ v
merged_const v none = refl
merged_const v (some w) = refl

unless_iff :
    {V : Type 0} (deletes : V → Bool) (o : Option V) (v : V)
    → (unless deletes o ≡ some v) ↔ ((o ≡ some v) × (deletes v ≡ false))
unless_iff deletes none v = ground arith
unless_iff deletes (some w) v =
    let same : some w ≡ some v → deletes w ≡ deletes v =
      λ e. ap (λ o. elim o [ none ↦ deletes v | some x ↦ deletes x ]) e in
    ground (arith, same)

select-claim_paths :
    (scope key owner : JsString) (paths : List JsString) (fields : Fields) (s k p : JsString)
    → select triple_eq (s, k, p) (claim_paths scope key owner paths fields) ≡ (
        if str_eq scope s && (str_eq key k && includes paths p)
        then some owner
        else select triple_eq (s, k, p) fields)
unfolding claim_paths includes
select-claim_paths scope key owner [] fields s k p = ground arith
select-claim_paths scope key owner (path ∷ paths) fields s k p = ground (
  arith,
  select-claim_paths scope key owner paths
      (upsert triple_eq (λ _. owner) (scope, key, path) owner fields) s k p,
  select-upsert triple_eq triple_eq_iff (λ _. owner) (scope, key, path) owner fields (s, k, p),
  merged_const owner (select triple_eq (scope, key, path) fields),
)

select-claim_fields :
    (owner : JsString) (claims : List OwnershipClaim) (fields : Fields) (field : FieldKey)
    → All (λ c. c.owner ≡ owner) claims
    → select triple_eq field (claim_fields claims fields)
      ≡ (if any (λ c. covers c field) claims then some owner else select triple_eq field fields)
unfolding claim_fields
select-claim_fields owner [] fields field own = refl
select-claim_fields owner (c ∷ claims) fields (s, k, p) (same, own) = ground (
  arith,
  same,
  select-claim_fields owner claims (claim_paths c.scope c.resource_key c.owner c.paths fields)
      (s, k, p) own,
  select-claim_paths c.scope c.resource_key c.owner c.paths fields s k p,
)

delete_paths-IsKeyed :
    (scope key owner : JsString) (paths : List JsString) (fields : Fields)
    → IsKeyed triple_eq fields
    → IsKeyed triple_eq (delete_paths scope key owner paths fields)
unfolding delete_paths
delete_paths-IsKeyed scope key owner [] fields keyed = keyed
delete_paths-IsKeyed scope key owner (path ∷ paths) fields keyed =
    delete_paths-IsKeyed scope key owner paths _ (
      delete_where-IsKeyed triple_eq triple_eq_iff (λ held. str_eq held owner) (scope, key, path)
        fields keyed)

select-delete_paths :
    (scope key owner : JsString) (paths : List JsString) (fields : Fields) (s k p held : JsString)
    → IsKeyed triple_eq fields
    → (select triple_eq (s, k, p) (delete_paths scope key owner paths fields) ≡ some held) ↔ (
        (select triple_eq (s, k, p) fields ≡ some held)
        × ((str_eq held owner && (str_eq scope s && (str_eq key k && includes paths p))) ≡ false))
unfolding delete_paths includes
select-delete_paths scope key owner [] fields s k p held keyed = ground arith
select-delete_paths scope key owner (path ∷ paths) fields s k p held keyed =
    let gone = delete_where triple_eq (λ held. str_eq held owner) (scope, key, path) fields in
    let keyed' : IsKeyed triple_eq gone =
      delete_where-IsKeyed triple_eq triple_eq_iff (λ held. str_eq held owner) (scope, key, path)
        fields keyed in
    ground (
      arith,
      select-delete_paths scope key owner paths gone s k p held keyed',
      triple_eq_iff (scope, key, path) (s, k, p),
      select-delete_where triple_eq triple_eq_iff (λ held. str_eq held owner) (scope, key, path)
          fields (s, k, p) keyed,
      unless_iff (λ held. str_eq held owner) (select triple_eq (scope, key, path) fields) held,
    )

by_claim :
    (claimed : Bool) (owner held : JsString) (o : Option JsString) {P : Type 0}
    → (o ≡ some held) ↔ P
    → ((if claimed then some owner else o) ≡ some held) ↔ (if claimed then owner ≡ held else P)
by_claim true owner held o h = ground arith
by_claim false owner held o h = h

select-release_fields :
    (releases : List OwnershipClaim) (fields : Fields) (field : FieldKey) (held : JsString)
    → IsKeyed triple_eq fields
    → (select triple_eq field (release_fields releases fields) ≡ some held)
      ↔ ((select triple_eq field fields ≡ some held) × (gives_up releases field held ≡ false))
unfolding release_fields
select-release_fields [] fields field held keyed = ground arith
select-release_fields (e ∷ releases) fields (s, k, p) held keyed =
    let gone = delete_paths e.scope e.resource_key e.owner e.paths fields in
    let keyed' : IsKeyed triple_eq gone =
      delete_paths-IsKeyed e.scope e.resource_key e.owner e.paths fields keyed in
    ground (
      arith,
      select-release_fields releases gone (s, k, p) held keyed',
      select-delete_paths e.scope e.resource_key e.owner e.paths fields s k p held keyed,
    )

-- When the ownership of an apply is recorded, whose claims are all one document's, exactly the
-- claimed fields belong to that document; of the others, a field has the owner that it had, unless
-- a release of that same owner gives it up. So no release drops the claim of another document.
pub record_ownership-owner :
    (owner : JsString) (claims releases : List OwnershipClaim) (store : Store) (field : FieldKey)
    (held : JsString)
    → IsKeyed triple_eq store.field_ownership
    → All (λ c. c.owner ≡ owner) claims
    → (select triple_eq field (record_ownership claims releases store).field_ownership ≡ some held)
      ↔ (if any (λ c. covers c field) claims
          then owner ≡ held
          else (select triple_eq field store.field_ownership ≡ some held)
            × (gives_up releases field held ≡ false))
unfolding record_ownership
record_ownership-owner owner claims releases store field held keyed own =
    let fields = release_fields releases store.field_ownership in
    rw (select-claim_fields owner claims fields field own) (
      by_claim (any (λ c. covers c field) claims) owner held _
        (select-release_fields releases store.field_ownership field held keyed))
