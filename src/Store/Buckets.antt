-- ===== src/Store/Buckets.antt =====
-- packages/core/src/store/sqlite-store.ts: the buckets of ownershipFor, which hold the paths of a
-- resource and an owner, against the rows that they are made of.
use mathlib.Core.List.{Memᴰ}
use mathlib.Core.List.Memᴰ
use desired_state_protocol.Common.{
  true, List, [], ◌∷◌, ◌++◌, Option, none, some, JsString, StringMap, lookup, insert, get_or,
  str_eq, str_eq_sound, str_eq_refl, str_eq_iff, ◌&&◌, if◌then◌else◌, lookup-insert, All,
  All-lookup_entry, All-insert_entry, ◌≡◌, refl, sym, ap, ◌∙◌, arith, Bool-cases, inl, inr, subst,
}
use desired_state_protocol.Plan.Ownership.Snapshot.{IsFreeOf, str_eq-joined}
use desired_state_protocol.Store.Fields.{FieldKey, Fields, Bucket, bucket_rows}

joined-injective :
    (j k p q : JsString) → IsFreeOf 0 j → IsFreeOf 0 k → j ++ 0 ∷ p ≡ k ++ 0 ∷ q → (j ≡ k) × (p ≡ q)
joined-injective j k p q free_j free_k e =
    let same : (str_eq j k && str_eq p q) ≡ true =
      sym (str_eq-joined 0 j k p q free_j free_k) ∙ (str_eq_iff (j ++ 0 ∷ p) (k ++ 0 ∷ q)).1 e in
    (str_eq_sound j k (ground arith), str_eq_sound p q (ground arith))

-- A resource key has neither the unit that separates it from an owner, nor the space that separates
-- it from a path.
abbrev pub IsPlain : JsString → Type 0
IsPlain key = IsFreeOf 0 key × IsFreeOf 32 key

module _ (fields : Fields) (scope : JsString) where
  -- A bucket is named by a resource and its owner, who has each of its paths in the table.
  abbrev pub IsBucket : JsString × Bucket → Type 0
  IsBucket e =
      (key : JsString) × IsPlain key
      × (e.0 ≡ key ++ 0 ∷ e.1.0)
      × ((path : JsString) → Memᴰ path e.1.1 → Memᴰ ((scope, key, path), e.1.0) fields)

  -- A row of the table, of the scope, whose key has no separator
  abbrev pub IsRow : FieldKey × JsString → Type 0
  IsRow row = Memᴰ row fields × (row.0.0 ≡ scope) × IsPlain row.0.1

  -- The path of a row, in the bucket of its resource and owner
  extended :
      (key path owner : JsString) (o : Option Bucket)
      → IsPlain key
      → Memᴰ ((scope, key, path), owner) fields
      → ((b : Bucket) → o ≡ some b → IsBucket (key ++ 0 ∷ owner, b))
      → IsBucket
          (key ++ 0 ∷ owner, ((get_or o (owner, [])).0, (get_or o (owner, [])).1 ++ path ∷ []))
  extended key path owner none free m old = (key, free, refl, only)
    where
      only : (p : JsString) → Memᴰ p (path ∷ []) → Memᴰ ((scope, key, p), owner) fields
      only p (Memᴰ.head e) = subst (λ q. Memᴰ ((scope, key, q), owner) fields) (sym e) m
      only p (Memᴰ.tail n) = elim n [ ]
  extended key path owner (some (held, paths)) free m old =
      let (key', free', named, rows) = old (held, paths) refl in
      let (same, owned) = joined-injective key key' owner held free.0 free'.0 named in
      (key', free', named, more key' rows same owned)
    where
      more :
          (key' : JsString)
          → ((p : JsString) → Memᴰ p paths → Memᴰ ((scope, key', p), held) fields)
          → key ≡ key'
          → owner ≡ held
          → (p : JsString) → Memᴰ p (paths ++ path ∷ [])
          → Memᴰ ((scope, key', p), held) fields
      more key' rows same owned p n = elim (Memᴰ.append_cases paths n) [
        | inl before ↦ rows p before
        | inr (Memᴰ.head e) ↦ rw (← same, ← owned, e) m
        | inr (Memᴰ.tail none_left) ↦ elim none_left [ ]
      ]

  pub bucket_rows-IsBucket :
      (rows : List (FieldKey × JsString)) (m : StringMap Bucket)
      → All IsRow rows
      → All IsBucket m
      → All IsBucket (bucket_rows rows m)
  unfolding bucket_rows
  bucket_rows-IsBucket [] m h buckets = buckets
  bucket_rows-IsBucket (((s, key, path), owner) ∷ rows) m ((at_row, same, free), h) buckets =
      let at_row' = subst (λ t. Memᴰ ((t, key, path), owner) fields) same at_row in
      bucket_rows-IsBucket rows _ h (
        All-insert_entry IsBucket (key ++ 0 ∷ owner) _ m buckets (
          extended key path owner (lookup (key ++ 0 ∷ owner) m) free at_row'
            (λ b e. All-lookup_entry IsBucket (key ++ 0 ∷ owner) m buckets e)))

-- A path is in the bucket of that name
abbrev pub HasPath : JsString → JsString → StringMap Bucket → Type 0
HasPath composite path m = (b : Bucket) × (lookup composite m ≡ some b) × Memᴰ path b.1

abbrev put_path : JsString → JsString → JsString → StringMap Bucket → StringMap Bucket
put_path composite owner path m =
    let bucket = get_or (lookup composite m) (owner, []) in
    insert composite (bucket.0, bucket.1 ++ path ∷ []) m

put_path-HasPath :
    (composite owner path : JsString) (m : StringMap Bucket)
    → HasPath composite path (put_path composite owner path m)
put_path-HasPath composite owner path m =
    let bucket = get_or (lookup composite m) (owner, []) in
    let put : Bucket = (bucket.0, bucket.1 ++ path ∷ []) in
    (
      put,
      lookup-insert composite composite put m
          ∙ ap (λ b. if b then some put else lookup composite m) (str_eq_refl composite),
      Memᴰ.append_right bucket.1 (Memᴰ.head refl),
    )

put_path-keeps :
    (composite owner path name p : JsString) (m : StringMap Bucket)
    → HasPath name p m
    → HasPath name p (put_path composite owner path m)
put_path-keeps composite owner path name p m (b, found, at_p) =
    let bucket = get_or (lookup composite m) (owner, []) in
    let put : Bucket = (bucket.0, bucket.1 ++ path ∷ []) in
    let behind = lookup-insert composite name put m in
    elim (Bool-cases (str_eq composite name)) [
      | inl same ↦ (
        put,
        behind ∙ ap (λ t. if t then some put else lookup name m) same,
        Memᴰ.append_left (path ∷ []) (
            subst (λ o. Memᴰ p (get_or {A = Bucket} o (owner, [])).1)
              (sym (ap (λ k. lookup k m) (str_eq_sound composite name same) ∙ found)) at_p),
      )
      | inr differs ↦
          (b, behind ∙ ap (λ t. if t then some put else lookup name m) differs ∙ found, at_p)
    ]

bucket_rows-keeps :
    (rows : List (FieldKey × JsString)) (name p : JsString) (m : StringMap Bucket)
    → HasPath name p m
    → HasPath name p (bucket_rows rows m)
unfolding bucket_rows
bucket_rows-keeps [] name p m h = h
bucket_rows-keeps (((s, key, path), owner) ∷ rows) name p m h =
    bucket_rows-keeps rows name p _ (put_path-keeps (key ++ 0 ∷ owner) owner path name p m h)

-- Each row is in the bucket of its resource and owner.
pub bucket_rows-HasPath :
    (rows : List (FieldKey × JsString)) (s key path owner : JsString) (m : StringMap Bucket)
    → Memᴰ ((s, key, path), owner) rows
    → HasPath (key ++ 0 ∷ owner) path (bucket_rows rows m)
unfolding bucket_rows
bucket_rows-HasPath [] s key path owner m at_row = elim at_row [ ]
bucket_rows-HasPath (((t, k, p), o) ∷ rows) s key path owner m (Memᴰ.head e) =
    bucket_rows-keeps rows (key ++ 0 ∷ owner) path _ (
      subst (λ r. HasPath (r.0.1 ++ 0 ∷ r.1) r.0.2 (put_path (k ++ 0 ∷ o) o p m)) (sym e)
        (put_path-HasPath (k ++ 0 ∷ o) o p m))
bucket_rows-HasPath (((t, k, p), o) ∷ rows) s key path owner m (Memᴰ.tail n) =
    bucket_rows-HasPath rows s key path owner _ n
