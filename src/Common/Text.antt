-- ===== src/Common/Text.antt =====
-- JavaScript strings: sequences of UTF-16 code units, with their equality, order and prefixes.
use Prim.Native.Nat.{ℕ, zero, suc, ◌+◌, ◌/◌, ◌%◌, compare, Ordering}
use Prim.Native.Char.{code}
use Prim.Native.String.{String}
use mathlib.Core.Path.{◌≡◌, refl, ap₂, sym, subst}
use mathlib.Core.Logic.{◌↔◌, inl, inr}
use mathlib.Core.Bool.{Bool, true, false, ◌&&◌}
use mathlib.Core.List.{List, [], ◌∷◌, ◌++◌, Memᴰ}
use native.Mathlib.Omega.{arith}
use desired_state_protocol.Common.Tests.{Bool-cases, if◌then◌else◌, ◌==◌, ltb}
use desired_state_protocol.Common.Lists.{any}

abbrev pub JsString : Type 0
JsString = List ℕ

-- A literal of the source: they are ASCII, so that a character is one code unit.
abbrev pub js : String → JsString
js String.[] = []
js (String.◌∷◌ c s) = code c ∷ js s

-- `a === b`
unfoldable pub str_eq : JsString → JsString → Bool
str_eq [] [] = true
str_eq (a ∷ xs) (b ∷ ys) = a == b && str_eq xs ys
str_eq _ _ = false

pub str_eq_sound : (a b : JsString) → str_eq a b ≡ true → a ≡ b
unfolding str_eq
str_eq_sound [] [] h = refl
str_eq_sound (a ∷ xs) (b ∷ ys) h = ground (arith, str_eq_sound xs ys)
str_eq_sound [] (b ∷ ys) h = ground arith
str_eq_sound (a ∷ xs) [] h = ground arith

pub str_eq_refl : (a : JsString) → str_eq a a ≡ true
unfolding str_eq
str_eq_refl [] = refl
str_eq_refl (a ∷ xs) = ground (arith, str_eq_refl xs)

pub str_eq_iff : (a b : JsString) → (str_eq a b ≡ true) ↔ (a ≡ b)
str_eq_iff a b = (str_eq_sound a b, λ e. rw (← e) (str_eq_refl a))

-- `xs.includes(s)`
unfoldable pub includes : List JsString → JsString → Bool
includes xs s = any (λ x. str_eq x s) xs

pub mem_of_includes : (xs : List JsString) (x : JsString) → includes xs x ≡ true → Memᴰ x xs
unfolding includes
mem_of_includes [] x h = cc
mem_of_includes (y ∷ xs) x h = elim (Bool-cases (str_eq y x)) [
  | inl same ↦ Memᴰ.head (sym (str_eq_sound y x same))
  | inr differs ↦ Memᴰ.tail (mem_of_includes xs x (ground arith))
]

pub includes-mem : (xs : List JsString) (x : JsString) → Memᴰ x xs → includes xs x ≡ true
unfolding includes
includes-mem [] x m = elim m [ ]
includes-mem (y ∷ xs) x (Memᴰ.head e) =
    let same : str_eq y x ≡ true = subst (λ z. str_eq y z ≡ true) (sym e) (str_eq_refl y) in
    ground arith
includes-mem (y ∷ xs) x (Memᴰ.tail m) = let rest = includes-mem xs x m in ground arith

-- The order of `<` on strings: code unit by code unit, a proper prefix first.
unfoldable pub compare_units : JsString → JsString → Ordering
compare_units [] [] = Ordering.eq
compare_units [] (b ∷ ys) = Ordering.lt
compare_units (a ∷ xs) [] = Ordering.gt
compare_units (a ∷ xs) (b ∷ ys) =
    let rest = compare_units xs ys in
    elim (compare a b) [
      | Ordering.lt ↦ Ordering.lt
      | Ordering.eq ↦ rest
      | Ordering.gt ↦ Ordering.gt
    ]

pub compare_units_refl : (a : JsString) → compare_units a a ≡ Ordering.eq
unfolding compare_units
compare_units_refl [] = refl
compare_units_refl (a ∷ xs) = ground (arith, compare_units_refl xs)

pub compare_units-eq : (a b : JsString) → compare_units a b ≡ Ordering.eq → a ≡ b
unfolding compare_units
compare_units-eq [] [] h = refl
compare_units-eq [] (b ∷ ys) h = cc
compare_units-eq (a ∷ xs) [] h = cc
compare_units-eq (a ∷ xs) (b ∷ ys) h = ground (arith, compare_units-eq xs ys)

pub compare_units_flip :
    (a b : JsString) → compare_units a b ≡ Ordering.gt → compare_units b a ≡ Ordering.lt
unfolding compare_units
compare_units_flip [] [] h = cc
compare_units_flip [] (b ∷ ys) h = cc
compare_units_flip (a ∷ xs) [] h = refl
compare_units_flip (a ∷ xs) (b ∷ ys) h = ground (arith, compare_units_flip xs ys)

pub compare_units_trans :
    (a b c : JsString)
    → compare_units a b ≡ Ordering.lt
    → compare_units b c ≡ Ordering.lt
    → compare_units a c ≡ Ordering.lt
unfolding compare_units
compare_units_trans [] (b ∷ ys) (c ∷ zs) h k = refl
compare_units_trans [] [] c h k = cc
compare_units_trans (a ∷ xs) [] c h k = cc
compare_units_trans [] (b ∷ ys) [] h k = cc
compare_units_trans (a ∷ xs) (b ∷ ys) [] h k = cc
compare_units_trans (a ∷ xs) (b ∷ ys) (c ∷ zs) h k = ground (arith, compare_units_trans xs ys zs)

-- `s.startsWith(p)`
unfoldable pub starts_with : JsString → JsString → Bool
starts_with s [] = true
starts_with [] (p ∷ ps) = false
starts_with (c ∷ s) (p ∷ ps) = c == p && starts_with s ps

pub starts_with_append : (p s : JsString) → starts_with (p ++ s) p ≡ true
unfolding starts_with
starts_with_append [] s = refl
starts_with_append (c ∷ p) s = ground (arith, starts_with_append p s)

pub starts_with_sound : (s p : JsString) → starts_with s p ≡ true → (t : JsString) × (s ≡ p ++ t)
unfolding starts_with
starts_with_sound s [] h = (s, refl)
starts_with_sound [] (p ∷ ps) h = cc
starts_with_sound (c ∷ s) (p ∷ ps) h =
    let (same, rest) = let x : (c ≡ p) × (starts_with s ps ≡ true) = ground arith in x in
    let (t, e) = starts_with_sound s ps rest in (t, ap₂ (λ a l. a ∷ l) same e)

-- The decimal digits of a number, as `${n}` prints a safe natural number; a round for each digit.
decimal_from : ℕ → ℕ → JsString → JsString
decimal_from zero n out = out
decimal_from (suc fuel) n out =
    let rest = decimal_from fuel (n / 10) ((48 + n % 10) ∷ out) in
    if ltb n 10 then (48 + n) ∷ out else rest

unfoldable pub decimal : ℕ → JsString
unfolding decimal_from
decimal n = decimal_from (suc n) n []
