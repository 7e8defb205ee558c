-- ===== src/Common/Lists.antt =====
-- JavaScript array methods over lists, with Boolean tests and native lengths.
use Prim.Native.Nat.{ℕ, zero, suc, ◌+◌, ◌≤◌}
use mathlib.Core.Path.{◌≡◌, refl, ap, sym, ◌∙◌, subst}
use mathlib.Core.Logic.{◌⊎◌, inl, inr}
use mathlib.Core.Bool.{Bool, true, false, ◌||◌}
use mathlib.Core.List.{List, [], ◌∷◌, ◌++◌, map, Memᴰ}
use mathlib.Core.Option.{Option, none, some}
use native.Mathlib.Omega.{arith}
use desired_state_protocol.Common.Tests.{if◌then◌else◌, Bool-cases}

module _ {ℓ} {A : Type ℓ} where
  abbrev pub length : List A → ℕ
  length [] = 0
  length (x ∷ xs) = suc (length xs)

  -- `xs.some(p)`
  abbrev pub any : (A → Bool) → List A → Bool
  any p [] = false
  any p (x ∷ xs) = p x || any p xs

  abbrev pub filter : (A → Bool) → List A → List A
  filter p [] = []
  filter p (x ∷ xs) = if p x then x ∷ filter p xs else filter p xs

  abbrev pub get_elem? : List A → ℕ → Option A
  get_elem? [] i = none
  get_elem? (x ∷ xs) zero = some x
  get_elem? (x ∷ xs) (suc i) = get_elem? xs i

  abbrev pub get_last? : List A → Option A
  get_last? [] = none
  get_last? (x ∷ []) = some x
  get_last? (x ∷ (y ∷ ys)) = get_last? (y ∷ ys)

  abbrev pub take : ℕ → List A → List A
  take zero xs = []
  take (suc n) [] = []
  take (suc n) (x ∷ xs) = x ∷ take n xs

  abbrev pub drop : ℕ → List A → List A
  drop zero xs = xs
  drop (suc n) [] = []
  drop (suc n) (x ∷ xs) = drop n xs

  -- A predicate that holds of every element, as a product.
  abbrev pub All {κ} : (A → Type κ) → List A → Type κ
  All P [] = Unit
  All P (x ∷ xs) = P x × All P xs

  pub length-append : (xs ys : List A) → length (xs ++ ys) ≡ length xs + length ys
  length-append [] ys = omega arith
  length-append (x ∷ xs) ys = omega (arith, length-append xs ys)

  pub any-append : (p : A → Bool) (xs ys : List A) → any p (xs ++ ys) ≡ (any p xs || any p ys)
  any-append p [] ys = refl
  any-append p (x ∷ xs) ys = ground (arith, any-append p xs ys)

  pub length-filter-le : (p : A → Bool) (xs : List A) → length (filter p xs) ≤ length xs
  length-filter-le p [] = omega arith
  length-filter-le p (x ∷ xs) = ground (arith, length-filter-le p xs)

  pub get_last?-snoc : (xs : List A) (x : A) → get_last? (xs ++ x ∷ []) ≡ some x
  get_last?-snoc [] x = refl
  get_last?-snoc (y ∷ []) x = refl
  get_last?-snoc (y ∷ (z ∷ zs)) x = get_last?-snoc (z ∷ zs) x

abbrev pub cons_present {ℓ} : {B : Type ℓ} → Option B → List B → List B
cons_present none ys = ys
cons_present (some y) ys = y ∷ ys

module _ {ℓ κ} {A : Type ℓ} {B : Type κ} where
  -- `xs.map(f).filter((y) => y !== undefined)`
  unfoldable pub filter_map : (A → Option B) → List A → List B
  filter_map f [] = []
  filter_map f (x ∷ xs) = cons_present (f x) (filter_map f xs)

-- A list is another one with some elements left out
pub data IsPart {ℓ} {A : Type ℓ} : List A → List A → Type ℓ where
  none_left : IsPart [] []
  keep : {x : A} {xs ys : List A} → IsPart xs ys → IsPart (x ∷ xs) (x ∷ ys)
  skip : {x : A} {xs ys : List A} → IsPart xs ys → IsPart xs (x ∷ ys)

module _ {ℓ} {A : Type ℓ} where
  pub filter-IsPart : (p : A → Bool) (xs : List A) → IsPart (filter p xs) xs
  filter-IsPart p [] = IsPart.none_left
  filter-IsPart p (x ∷ xs) = elim (Bool-cases (p x)) [
    | inl kept ↦ rw kept (IsPart.keep (filter-IsPart p xs))
    | inr left ↦ rw left (IsPart.skip (filter-IsPart p xs))
  ]

  pub mem_of_filter : (p : A → Bool) (xs : List A) {x : A} → Memᴰ x (filter p xs) → Memᴰ x xs
  mem_of_filter p xs m = mem_of_part (filter-IsPart p xs) m
    where
      mem_of_part : {ys zs : List A} {x : A} → IsPart ys zs → Memᴰ x ys → Memᴰ x zs
      mem_of_part IsPart.none_left m = m
      mem_of_part (IsPart.keep part) (Memᴰ.head e) = Memᴰ.head e
      mem_of_part (IsPart.keep part) (Memᴰ.tail m) = Memᴰ.tail (mem_of_part part m)
      mem_of_part (IsPart.skip part) m = Memᴰ.tail (mem_of_part part m)

  pub mem-filter :
      (p : A → Bool) (xs : List A) {x : A} → Memᴰ x xs → p x ≡ true → Memᴰ x (filter p xs)
  mem-filter p [] m h = elim m [ ]
  mem-filter p (y ∷ xs) (Memᴰ.head e) h =
      let h' : p y ≡ true = ap p (sym e) ∙ h in rw h' (Memᴰ.head e)
  mem-filter p (y ∷ xs) (Memᴰ.tail m) h = elim (Bool-cases (p y)) [
    | inl kept ↦ rw kept (Memᴰ.tail (mem-filter p xs m h))
    | inr left ↦ rw left (mem-filter p xs m h)
  ]

module _ {ℓ κ} {A : Type ℓ} (P : A → Type κ) where
  pub All-append : (xs ys : List A) → All P xs → All P ys → All P (xs ++ ys)
  All-append [] ys h k = k
  All-append (x ∷ xs) ys (p, h) k = (p, All-append xs ys h k)

  pub All-of_append : (xs ys : List A) → All P (xs ++ ys) → All P xs × All P ys
  All-of_append [] ys h = (tt, h)
  All-of_append (x ∷ xs) ys (p, h) = let (hx, hy) = All-of_append xs ys h in ((p, hx), hy)

  pub All-of_mem : (xs : List A) → ((x : A) → Memᴰ x xs → P x) → All P xs
  All-of_mem [] h = tt
  All-of_mem (x ∷ xs) h = (h x (Memᴰ.head refl), All-of_mem xs (λ y m. h y (Memᴰ.tail m)))

  -- What holds of every element holds of a member.
  pub All-mem : (xs : List A) {x : A} → All P xs → Memᴰ x xs → P x
  All-mem [] h m = elim m [ ]
  All-mem (y ∷ xs) (p, h) (Memᴰ.head e) = subst P (sym e) p
  All-mem (y ∷ xs) (p, h) (Memᴰ.tail m) = All-mem xs h m

  pub All-filter : (p : A → Bool) (xs : List A) → ((x : A) → p x ≡ true → P x) → All P (filter p xs)
  All-filter p [] h = tt
  All-filter p (x ∷ xs) h = elim (Bool-cases (p x)) [
    | inl e ↦ let rest = All-filter p xs h in let hx = h x e in ground arith
    | inr e ↦ let rest = All-filter p xs h in ground arith
  ]

module _ {ℓ κ μ} {A : Type ℓ} (P : A → Type κ) (Q : A → Type μ) where
  pub All-map_pred : (xs : List A) → ((x : A) → P x → Q x) → All P xs → All Q xs
  All-map_pred [] f h = tt
  All-map_pred (x ∷ xs) f (p, h) = (f x p, All-map_pred xs f h)

module _ {ℓ} {B : Type ℓ} where
  mem-cons_present :
      (o : Option B) (ys : List B) {y : B} → Memᴰ y (cons_present o ys) → (o ≡ some y) ⊎ Memᴰ y ys
  mem-cons_present none ys m = inr m
  mem-cons_present (some z) ys (Memᴰ.head e) = inl (ap some (sym e))
  mem-cons_present (some z) ys (Memᴰ.tail m) = inr m

  mem-tail_present : (o : Option B) {ys : List B} {y : B} → Memᴰ y ys → Memᴰ y (cons_present o ys)
  mem-tail_present none m = m
  mem-tail_present (some z) m = Memᴰ.tail m

module _ {ℓ κ} {A : Type ℓ} {B : Type κ} where
  -- What `filter_map` keeps is what the function gives of an element.
  pub mem_of_filter_map :
      (f : A → Option B) (xs : List A) {y : B}
      → Memᴰ y (filter_map f xs)
      → (x : A) × Memᴰ x xs × (f x ≡ some y)
  unfolding filter_map
  mem_of_filter_map f [] m = elim m [ ]
  mem_of_filter_map f (x ∷ xs) m = elim (mem-cons_present (f x) (filter_map f xs) m) [
    | inl e ↦ (x, Memᴰ.head refl, e)
    | inr later ↦ let (z, at_z, e) = mem_of_filter_map f xs later in (z, Memᴰ.tail at_z, e)
  ]

  pub mem-filter_map :
      (f : A → Option B) (xs : List A) {x : A} {y : B}
      → Memᴰ x xs
      → f x ≡ some y
      → Memᴰ y (filter_map f xs)
  unfolding filter_map
  mem-filter_map f [] m e = elim m [ ]
  mem-filter_map f (x ∷ xs) (Memᴰ.head here) e =
      let e' : f x ≡ some _ = ap f (sym here) ∙ e in rw e' (Memᴰ.head refl)
  mem-filter_map f (x ∷ xs) (Memᴰ.tail m) e = mem-tail_present (f x) (mem-filter_map f xs m e)

module _ {ℓ κ} {A : Type ℓ} {B : Type κ} (f : A → B) where
  pub All-map_of {μ} : (P : B → Type μ) (xs : List A) → All (λ x. P (f x)) xs → All P (map f xs)
  All-map_of P [] h = tt
  All-map_of P (x ∷ xs) (p, h) = (p, All-map_of P xs h)

  pub mem-map_of : (xs : List A) {x : A} → Memᴰ x xs → Memᴰ (f x) (map f xs)
  mem-map_of [] m = elim m [ ]
  mem-map_of (y ∷ xs) (Memᴰ.head e) = Memᴰ.head (ap f e)
  mem-map_of (y ∷ xs) (Memᴰ.tail m) = Memᴰ.tail (mem-map_of xs m)

module _ {ℓ} {A : Type ℓ} (same : A → A → Bool) where
  -- `[...new Set(xs)]`: the first of each
  unfoldable pub unique_from : List A → List A → List A
  unique_from seen [] = []
  unique_from seen (x ∷ xs) =
      let rest = unique_from (x ∷ seen) xs in
      let skipped = unique_from seen xs in if any (λ y. same y x) seen then skipped else x ∷ rest

  unfoldable pub unique : List A → List A
  unfolding unique_from
  unique xs = unique_from [] xs
