-- ===== src/Protocol/Results.antt =====
-- Chains of calls that may throw, and what a chain that returns has done.
use desired_state_protocol.Common.{Bool, true, false, List, [], ◌∷◌, ◌≡◌, refl, ap, sym, map, subst}
use desired_state_protocol.Protocol.Errors.{Result, return, throw, Thrown}

infixl 5 ◌>>=◌ ◌>>◌
abbrev pub ◌>>=◌ : {A B : Type 0} → Result A → (A → Result B) → Result B
return a >>= f = f a
throw e >>= f = throw e

abbrev pub ◌>>◌ : {B : Type 0} → Result (Unit {0}) → Result B → Result B
m >> k = m >>= λ _. k

abbrev pub throw_if : Bool → Thrown → Result (Unit {0})
throw_if true e = throw e
throw_if false e = return tt

-- A list of calls, the first of which to throw ends the walk
unfoldable pub map_all : {A B : Type 0} → (A → Result B) → List A → Result (List B)
map_all f [] = return []
map_all f (x ∷ xs) = do y ← f x; ys ← map_all f xs; return (y ∷ ys)

pub return_injective : {A : Type 0} {a b : A} → return a ≡ return b → a ≡ b
return_injective {a = a} e = ap (λ r. elim r [ return c ↦ c | throw _ ↦ a ]) e

pub >>=-eq-return :
    {A B : Type 0} (m : Result A) (f : A → Result B) {b : B}
    → (m >>= f) ≡ return b
    → (a : A) × (m ≡ return a) × (f a ≡ return b)
>>=-eq-return (return a) f h = (a, refl, h)
>>=-eq-return (throw e) f h = cc

pub throw_if-eq-return :
    {A : Type 0} (b : Bool) (e : Thrown) (rest : Result A) {a : A}
    → (throw_if b e >> rest) ≡ return a
    → (b ≡ false) × (rest ≡ return a)
throw_if-eq-return true e rest h = cc
throw_if-eq-return false e rest h = (refl, h)

pub map_all-cons :
    {A B : Type 0} (f : A → Result B) (x : A) (xs : List A) {ys : List B}
    → map_all f (x ∷ xs) ≡ return ys
    → (y : B) × (rest : List B) × (f x ≡ return y) × (map_all f xs ≡ return rest) × (ys ≡ y ∷ rest)
unfolding map_all
map_all-cons f x xs e =
    let (y, at_y, later) =
      >>=-eq-return (f x) (λ y. map_all f xs >>= λ rest. return (y ∷ rest)) e in
    let (rest, at_rest, same) = >>=-eq-return (map_all f xs) (λ rest. return (y ∷ rest)) later in
    (y, rest, at_y, at_rest, sym (return_injective same))

-- What each call keeps of its argument is kept along the list.
pub map_all-map :
    {A B C : Type 0} (f : A → Result B) (g : B → C) (h : A → C) (xs : List A) {ys : List B}
    → ((x : A) (y : B) → f x ≡ return y → g y ≡ h x)
    → map_all f xs ≡ return ys
    → map g ys ≡ map h xs
map_all-map f g h [] kept e = unfold map_all in ap (map g) (sym (return_injective e))
map_all-map f g h (x ∷ xs) kept e =
    let (y, rest, at_y, at_rest, same) = map_all-cons f x xs e in
    rw (same, kept x y at_y, map_all-map f g h xs kept at_rest) refl

-- What holds of the value of a call, if it returns
abbrev pub Ensures {ℓ} : {B : Type 0} → (B → Type ℓ) → Result B → Type ℓ
Ensures Q (return b) = Q b
Ensures Q (throw e) = Unit

pub bind-Ensures {ℓ} :
    {A B : Type 0} (Q : B → Type ℓ) (m : Result A) (f : A → Result B)
    → ((a : A) → m ≡ return a → Ensures Q (f a))
    → Ensures Q (m >>= f)
bind-Ensures Q (return a) f h = h a refl
bind-Ensures Q (throw e) f h = tt

pub Ensures-returned {ℓ} :
    {B : Type 0} (Q : B → Type ℓ) (m : Result B) {b : B} → Ensures Q m → m ≡ return b → Q b
Ensures-returned Q (return c) h e = subst Q (return_injective e) h
Ensures-returned Q (throw t) h e = cc
