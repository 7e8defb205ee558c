-- ===== src/Store/Table.antt =====
-- packages/core/src/store/sqlite-store.ts: tables with a primary key, as the statements use them.
use desired_state_protocol.Common.{
  Bool, true, ◌&&◌, List, [], ◌∷◌, Option, none, some, ◌≡◌, refl, ◌↔◌, inl, inr, arith,
  if◌then◌else◌, Bool-cases,
}

abbrev pub Table : Type 0 → Type 0 → Type 0
Table K V = List (K × V)

-- What `ON CONFLICT DO UPDATE` leaves of the row that is there, or the new row
abbrev pub merged : {V : Type 0} → (V → V) → V → Option V → V
merged update row none = row
merged update row (some old) = update old

-- What a DELETE leaves of the row that is there
abbrev pub unless : {V : Type 0} → (V → Bool) → Option V → Option V
unless deletes none = none
unless deletes (some v) = if deletes v then none else some v

module _ {K V : Type 0} (key_eq : K → K → Bool) where
  -- `SELECT ... WHERE key = ?`
  unfoldable pub select : K → Table K V → Option V
  select k [] = none
  select k ((j, v) ∷ t) = if key_eq j k then some v else select k t

  -- `INSERT ... ON CONFLICT(key) DO UPDATE`
  unfoldable pub upsert : (V → V) → K → V → Table K V → Table K V
  upsert update k v [] = (k, v) ∷ []
  upsert update k v ((j, w) ∷ t) =
      if key_eq j k then (j, update w) ∷ t else (j, w) ∷ upsert update k v t

  -- `DELETE ... WHERE key = ? AND ...`
  unfoldable pub delete_where : (V → Bool) → K → Table K V → Table K V
  delete_where deletes k [] = []
  delete_where deletes k ((j, w) ∷ t) =
      if key_eq j k && deletes w
      then delete_where deletes k t
      else (j, w) ∷ delete_where deletes k t

  -- The primary key: no two rows have the same
  unfoldable pub IsKeyed : Table K V → Type 0
  unfolding select
  IsKeyed [] = Unit
  IsKeyed ((k, v) ∷ t) = (select k t ≡ none) × IsKeyed t

module _ {K V : Type 0} (key_eq : K → K → Bool)
    (key_eq_iff : (a b : K) → (key_eq a b ≡ true) ↔ (a ≡ b)) where
  pub select-upsert :
      (update : V → V) (k : K) (v : V) (t : Table K V) (j : K)
      → select key_eq j (upsert key_eq update k v t)
        ≡ (if key_eq k j then some (merged update v (select key_eq k t)) else select key_eq j t)
  unfolding select upsert
  select-upsert update k v [] j = refl
  select-upsert update k v ((i, w) ∷ t) j =
      ground (arith, key_eq_iff k j, key_eq_iff i k, key_eq_iff i j, select-upsert update k v t j)

  pub select-delete_where :
      (deletes : V → Bool) (k : K) (t : Table K V) (j : K)
      → IsKeyed key_eq t
      → select key_eq j (delete_where key_eq deletes k t)
        ≡ (if key_eq k j then unless deletes (select key_eq k t) else select key_eq j t)
  unfolding select delete_where IsKeyed
  select-delete_where deletes k [] j keyed = ground arith
  select-delete_where deletes k ((i, w) ∷ t) j (fresh, keyed) = ground (
    arith,
    key_eq_iff k j,
    key_eq_iff i k,
    key_eq_iff i j,
    select-delete_where deletes k t j keyed,
  )

  pub delete_where-IsKeyed :
      (deletes : V → Bool) (k : K) (t : Table K V)
      → IsKeyed key_eq t
      → IsKeyed key_eq (delete_where key_eq deletes k t)
  unfolding select delete_where IsKeyed
  delete_where-IsKeyed deletes k [] keyed = tt
  delete_where-IsKeyed deletes k ((i, w) ∷ t) (fresh, keyed) =
      let rest = delete_where-IsKeyed deletes k t keyed in
      elim (Bool-cases (key_eq i k && deletes w)) [
        | inl gone ↦ rw gone rest
        | inr kept ↦
            rw kept (ground (arith, key_eq_iff k i, select-delete_where deletes k t i keyed), rest)
      ]
