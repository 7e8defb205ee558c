-- ===== src/Common/Sorting.antt =====
-- `xs.sort(compare)`: a stable sort by a three-way comparison, and what it keeps.
use Prim.Native.Nat.{Ordering, suc}
use native.Mathlib.Omega.{arith}
use desired_state_protocol.Common.Lists.{length}
use mathlib.Core.List.{List, [], ◌∷◌, Perm, Memᴰ}
use mathlib.Core.List.Perm
use mathlib.Core.List.{Permᴰ, map}
use mathlib.Core.Path.{ap, refl, ◌≡◌}
use mathlib.Core.Logic.{∥∥₁_map}

module _ {ℓ} {A : Type ℓ} where
  mem_behind :
      (x : A) (xs ys : List A) {y : A} → (Memᴰ y xs → Memᴰ y ys) → Memᴰ y (x ∷ xs) → Memᴰ y (x ∷ ys)
  mem_behind x xs ys f (Memᴰ.head e) = Memᴰ.head e
  mem_behind x xs ys f (Memᴰ.tail m) = Memᴰ.tail (f m)

  mem_exchange : (x z : A) (zs : List A) {y : A} → Memᴰ y (z ∷ x ∷ zs) → Memᴰ y (x ∷ z ∷ zs)
  mem_exchange x z zs (Memᴰ.head e) = Memᴰ.tail (Memᴰ.head e)
  mem_exchange x z zs (Memᴰ.tail (Memᴰ.head e)) = Memᴰ.head e
  mem_exchange x z zs (Memᴰ.tail (Memᴰ.tail m)) = Memᴰ.tail (Memᴰ.tail m)

  mem_swap :
      (x z : A) (zs us : List A) {y : A}
      → (Memᴰ y us → Memᴰ y (x ∷ zs))
      → Memᴰ y (z ∷ us)
      → Memᴰ y (x ∷ z ∷ zs)
  mem_swap x z zs us f m = mem_exchange x z zs (mem_behind z us (x ∷ zs) f m)

module _ {ℓ} {A : Type ℓ} (cmp : A → A → Ordering) where
  unfoldable pub insert_sorted : A → List A → List A
  insert_sorted x [] = x ∷ []
  insert_sorted x (y ∷ ys) =
      let later = y ∷ insert_sorted x ys in elim (cmp x y) [ Ordering.gt ↦ later | _ ↦ x ∷ y ∷ ys ]

  unfoldable pub sort_by : List A → List A
  unfolding insert_sorted
  sort_by [] = []
  sort_by (x ∷ xs) = insert_sorted x (sort_by xs)

module _ {ℓ} {A : Type ℓ} (cmp : A → A → Ordering) where
  insert_sorted-perm : (x : A) (xs : List A) → Perm (insert_sorted cmp x xs) (x ∷ xs)
  unfolding insert_sorted
  insert_sorted-perm x [] = Perm.rfl
  insert_sorted-perm x (y ∷ ys) =
      let ih = Perm.trans (Perm.cons y (insert_sorted-perm x ys)) (Perm.swap x y ys) in
      elim (cmp x y)
        as (λ o.
          Perm (elim o [ Ordering.gt ↦ y ∷ insert_sorted cmp x ys | _ ↦ x ∷ y ∷ ys ])
            (x ∷ y ∷ ys)) [ Ordering.gt ↦ ih | _ ↦ Perm.rfl ]

  pub sort_by-perm : (xs : List A) → Perm (sort_by cmp xs) xs
  unfolding sort_by
  sort_by-perm [] = Perm.rfl
  sort_by-perm (x ∷ xs) =
      Perm.trans (insert_sorted-perm x (sort_by cmp xs)) (Perm.cons x (sort_by-perm xs))

  mem_later :
      (x z : A) (zs : List A) {y : A}
      → (Memᴰ y (x ∷ zs) → Memᴰ y (insert_sorted cmp x zs))
      → Memᴰ y (x ∷ z ∷ zs)
      → Memᴰ y (z ∷ insert_sorted cmp x zs)
  mem_later x z zs rest (Memᴰ.head e) = Memᴰ.tail (rest (Memᴰ.head e))
  mem_later x z zs rest (Memᴰ.tail (Memᴰ.head e)) = Memᴰ.head e
  mem_later x z zs rest (Memᴰ.tail (Memᴰ.tail n)) = Memᴰ.tail (rest (Memᴰ.tail n))

  insert_sorted-mem :
      (x : A) (xs : List A) {y : A} → Memᴰ y (x ∷ xs) → Memᴰ y (insert_sorted cmp x xs)
  unfolding insert_sorted
  insert_sorted-mem x [] m = m
  insert_sorted-mem x (z ∷ zs) {y} m =
      let later = mem_later x z zs (insert_sorted-mem x zs) m in
      elim (cmp x z)
        as (λ o. Memᴰ y (elim o [ Ordering.gt ↦ z ∷ insert_sorted cmp x zs | _ ↦ x ∷ z ∷ zs ])) [
          | Ordering.gt ↦ later
          | _ ↦ m
        ]

  pub mem-sort_by : (xs : List A) {y : A} → Memᴰ y xs → Memᴰ y (sort_by cmp xs)
  unfolding sort_by
  mem-sort_by [] m = elim m [ ]
  mem-sort_by (x ∷ xs) (Memᴰ.head e) = insert_sorted-mem x (sort_by cmp xs) (Memᴰ.head e)
  mem-sort_by (x ∷ xs) (Memᴰ.tail m) =
      insert_sorted-mem x (sort_by cmp xs) (Memᴰ.tail (mem-sort_by xs m))

  mem_of_insert_sorted :
      (x : A) (xs : List A) {y : A} → Memᴰ y (insert_sorted cmp x xs) → Memᴰ y (x ∷ xs)
  unfolding insert_sorted
  mem_of_insert_sorted x [] m = m
  mem_of_insert_sorted x (z ∷ zs) {y} m =
      let ih : Memᴰ y (insert_sorted cmp x zs) → Memᴰ y (x ∷ zs) = mem_of_insert_sorted x zs in
      let split : Memᴰ y (insert_sorted cmp x (z ∷ zs)) → Memᴰ y (x ∷ z ∷ zs) =
        elim (cmp x z)
          as (λ o.
            Memᴰ y (elim o [ Ordering.gt ↦ z ∷ insert_sorted cmp x zs | _ ↦ x ∷ z ∷ zs ])
            → Memᴰ y (x ∷ z ∷ zs)) [
              | Ordering.gt ↦ mem_swap x z zs (insert_sorted cmp x zs) ih
              | _ ↦ λ n. n
            ] in
      split m

  pub mem_of_sort_by : (xs : List A) {y : A} → Memᴰ y (sort_by cmp xs) → Memᴰ y xs
  unfolding sort_by
  mem_of_sort_by [] m = m
  mem_of_sort_by (x ∷ xs) m =
      mem_behind x (sort_by cmp xs) xs (mem_of_sort_by xs)
        (mem_of_insert_sorted x (sort_by cmp xs) m)

module _ {ℓ κ} {A : Type ℓ} {B : Type κ} (f : A → B) where
  Permᴰ-map : {xs ys : List A} → Permᴰ xs ys → Permᴰ (map f xs) (map f ys)
  Permᴰ-map Permᴰ.nil = Permᴰ.nil
  Permᴰ-map (Permᴰ.cons e p) = Permᴰ.cons (ap f e) (Permᴰ-map p)
  Permᴰ-map (Permᴰ.swap e d) = Permᴰ.swap (ap f e) (ap f d)
  Permᴰ-map (Permᴰ.trans p q) = Permᴰ.trans (Permᴰ-map p) (Permᴰ-map q)

  pub Perm-map : {xs ys : List A} → Perm xs ys → Perm (map f xs) (map f ys)
  Perm-map {xs} {ys} p = ∥∥₁_map {B = Permᴰ (map f xs) (map f ys)} p Permᴰ-map

module _ {ℓ} {A : Type ℓ} (cmp : A → A → Ordering) where
  length-insert_sorted : (x : A) (xs : List A) → length (insert_sorted cmp x xs) ≡ suc (length xs)
  unfolding insert_sorted
  length-insert_sorted x [] = refl
  length-insert_sorted x (y ∷ ys) = ground (arith, length-insert_sorted x ys)

  pub length-sort_by : (xs : List A) → length (sort_by cmp xs) ≡ length xs
  unfolding sort_by
  length-sort_by [] = refl
  length-sort_by (x ∷ xs) =
      omega (arith, length-insert_sorted x (sort_by cmp xs), length-sort_by xs)
