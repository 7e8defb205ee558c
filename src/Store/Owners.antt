-- ===== src/Store/Owners.antt =====
-- packages/core/src/store/sqlite-store.ts: whom ownershipFor names as the owner of a field.
use mathlib.Core.List.{Memᴰ}
use desired_state_protocol.Common.{
  Bool, true, List, [], ◌∷◌, ◌++◌, map, filter, none, some, JsString, str_eq, str_eq_sound,
  str_eq_refl, ◌&&◌, includes, sort_by, All, All-mem, All-of_mem, mem_of_filter, mem-filter,
  All-filter, All-map_pred, mem-sort_by, mem_of_sort_by, mem_of_lookup, mem_of_includes,
  includes-mem, All-map_of, mem-map_of, ◌≡◌, refl, sym, ap, ◌∙◌, arith, Bool-cases, inl, inr, subst,
  get_or, Ordering,
}
use desired_state_protocol.Protocol.Plan.{OwnershipClaim}
use desired_state_protocol.Plan.Ownership.Snapshot.{
  IsFreeOf, has_field, last_holder, holder_from-agreed,
}
use desired_state_protocol.Store.Table.{select, IsKeyed}
use desired_state_protocol.Store.Fields.{
  FieldKey, Fields, Bucket, triple_eq, bucket_rows, claim_of_bucket, before_nul, field_order,
}
use desired_state_protocol.Store.Buckets.{
  IsPlain, IsBucket, IsRow, bucket_rows-IsBucket, bucket_rows-HasPath,
}
use desired_state_protocol.Store.Rows.{Store, ownership_for}
use desired_state_protocol.Store.Reserved.{triple_eq_iff}

before_nul-joined : (key owner : JsString) → IsFreeOf 0 key → before_nul (key ++ 0 ∷ owner) ≡ key
unfolding before_nul IsFreeOf
before_nul-joined [] owner free = refl
before_nul-joined (c ∷ key) owner (differs, free) =
    let rest = before_nul-joined key owner free in ground arith

select-mem :
    (field : FieldKey) (t : Fields) {v : JsString}
    → select triple_eq field t ≡ some v
    → Memᴰ (field, v) t
unfolding select
select-mem field [] e = cc
select-mem field ((j, w) ∷ t) {v} e = elim (Bool-cases (triple_eq j field)) [
  | inl same ↦
      let e' : w ≡ v = ground arith in
      let e'' : j ≡ field = (triple_eq_iff j field).0 same in rw (e', e'') (Memᴰ.head refl)
  | inr differs ↦ Memᴰ.tail (select-mem field t (ground arith))
]

mem-select :
    (field : FieldKey) (t : Fields) {v : JsString}
    → IsKeyed triple_eq t
    → Memᴰ (field, v) t
    → select triple_eq field t ≡ some v
unfolding select IsKeyed
mem-select field [] keyed m = elim m [ ]
mem-select field ((j, w) ∷ t) {v} keyed (Memᴰ.head e) =
    let same : triple_eq j field ≡ true = (triple_eq_iff j field).1 (ap (λ r. r.0) (sym e)) in
    rw same (ap (λ r. some r.1) (sym e))
mem-select field ((j, w) ∷ t) {v} (fresh, keyed) (Memᴰ.tail m) =
    let later : select triple_eq field t ≡ some v = mem-select field t keyed m in
    elim (Bool-cases (triple_eq j field)) [
      | inl same ↦
          let e : j ≡ field = (triple_eq_iff j field).0 same in
          let absent : select triple_eq field t ≡ none =
            subst (λ k. select triple_eq k t ≡ none) e fresh in
          absurd (cc)
      | inr differs ↦ rw differs later
    ]

pub some-eq : {a b : JsString} → some a ≡ some b → a ≡ b
some-eq {a} e = ap (λ o. get_or o a) e

-- A claim is plain, and if it covers the field it is the holder's.
abbrev IsFair : JsString → JsString → JsString → OwnershipClaim → Type 0
IsFair key path held c = IsPlain c.resource_key × (has_field c key path ≡ true → c.owner ≡ held)

module _ (fields : Fields) (scope : JsString) (keyed : IsKeyed triple_eq fields) where
  bucket-IsFair :
      (key path held : JsString) (e : JsString × Bucket)
      → select triple_eq (scope, key, path) fields ≡ some held
      → IsBucket fields scope e
      → IsFair key path held (claim_of_bucket scope e)
  unfolding claim_of_bucket
  bucket-IsFair key path held (composite, (owner, paths)) found (k, plain, named, rows) =
      let name : before_nul composite ≡ k =
        ap before_nul named ∙ before_nul-joined k owner plain.0 in
      (
        subst IsPlain (sym name) plain,
        λ covered.
            let same : k ≡ key =
              sym name ∙ str_eq_sound (before_nul composite) key (ground arith) in
            let at_path = mem_of_includes paths path (ground arith) in
            let row = subst (λ j. Memᴰ ((scope, j, path), owner) fields) same (rows path at_path) in
            some-eq (sym (mem-select (scope, key, path) fields keyed row) ∙ found),
      )

  -- What the buckets of some rows say of a field that one of them holds
  pub buckets-holder :
      (rows : List (FieldKey × JsString)) (key path held : JsString)
      → All (IsRow fields scope) rows
      → Memᴰ ((scope, key, path), held) rows
      → IsPlain key
      → select triple_eq (scope, key, path) fields ≡ some held
      → let claims = map (claim_of_bucket scope) (bucket_rows rows []) in
        All (λ c. IsPlain c.resource_key) claims × (last_holder claims key path ≡ some held)
  unfolding claim_of_bucket
  buckets-holder rows key path held are_rows at_row plain found =
      let buckets = bucket_rows rows [] in
      let claims = map (claim_of_bucket scope) buckets in
      let fair : All (IsFair key path held) claims =
        All-map_of (claim_of_bucket scope) (IsFair key path held) buckets (
          All-map_pred (IsBucket fields scope) (λ e. IsFair key path held (claim_of_bucket scope e))
            buckets (λ e b. bucket-IsFair key path held e found b)
            (bucket_rows-IsBucket fields scope rows [] are_rows tt)) in
      let (b, at_b, at_path) = bucket_rows-HasPath rows scope key path held [] at_row in
      let mine =
        mem-map_of (claim_of_bucket scope) buckets (mem_of_lookup (key ++ 0 ∷ held) buckets at_b) in
      let name = before_nul-joined key held plain.0 in
      let same : str_eq (before_nul (key ++ 0 ∷ held)) key ≡ true =
        subst (λ k. str_eq k key ≡ true) (sym name) (str_eq_refl key) in
      let has : includes b.1 path ≡ true = includes-mem b.1 path at_path in
      let covering : has_field (claim_of_bucket scope (key ++ 0 ∷ held, b)) key path ≡ true =
        ground arith in
      (
        All-map_pred (IsFair key path held) (λ c. IsPlain c.resource_key) claims (λ c f. f.0) fair,
        holder_from-agreed none claims key path held
            (All-map_pred (IsFair key path held) (λ c. has_field c key path ≡ true → c.owner ≡ held)
              claims (λ c f. f.1) fair)
            (inr (claim_of_bucket scope (key ++ 0 ∷ held, b), mine, covering)),
      )

pub row-IsPlain :
    (field : FieldKey) (fields : Fields) {v : JsString}
    → All (λ row. IsPlain row.0.1) fields
    → select triple_eq field fields ≡ some v
    → IsPlain field.1
row-IsPlain field fields plain found =
    All-mem (λ row. IsPlain row.0.1) fields plain (select-mem field fields found)

-- The last claim of ownershipFor on a field of one of the keys is that of the owner in the table.
pub ownership_for-holder :
    (collate : JsString → JsString → Ordering) (scope : JsString) (keys : List JsString)
    (store : Store) (key path held : JsString)
    → IsKeyed triple_eq store.field_ownership
    → All (λ row. IsPlain row.0.1) store.field_ownership
    → Memᴰ key keys
    → select triple_eq (scope, key, path) store.field_ownership ≡ some held
    → All (λ c. IsPlain c.resource_key) (ownership_for collate scope keys store)
      × (last_holder (ownership_for collate scope keys store) key path ≡ some held)
unfolding ownership_for
ownership_for-holder collate scope [] store key path held keyed plain m found = elim m [ ]
ownership_for-holder collate scope (k ∷ keys) store key path held keyed plain m found =
    let fields = store.field_ownership in
    let asked : FieldKey × JsString → Bool =
      λ row. str_eq row.0.0 scope && includes (k ∷ keys) row.0.1 in
    let at_row : Memᴰ ((scope, key, path), held) fields =
      select-mem (scope, key, path) fields found in
    let chosen : asked ((scope, key, path), held) ≡ true =
      let own = str_eq_refl scope in let listed = includes-mem (k ∷ keys) key m in ground arith in
    let is_row : (row : FieldKey × JsString)
        → Memᴰ row (sort_by (field_order collate) (filter asked fields))
        → IsRow fields scope row =
      λ row n.
        let at_filter = mem_of_sort_by (field_order collate) (filter asked fields) n in
        let at_table = mem_of_filter asked fields at_filter in
        let passed : asked row ≡ true =
          All-mem (λ r. asked r ≡ true) (filter asked fields)
            (All-filter (λ r. asked r ≡ true) asked fields (λ r e. e)) at_filter in
        (
          at_table,
          str_eq_sound row.0.0 scope (ground arith),
          All-mem (λ r. IsPlain r.0.1) fields plain at_table,
        ) in
    buckets-holder fields scope keyed (sort_by (field_order collate) (filter asked fields)) key path
      held (All-of_mem (IsRow fields scope) _ is_row)
      (mem-sort_by (field_order collate) (filter asked fields)
        (mem-filter asked fields at_row chosen))
      (All-mem (λ r. IsPlain r.0.1) fields plain at_row) found
