-- ===== src/Common/Keys.antt =====
-- Sorting by a string key: the result depends on the elements alone, not on their order.
use mathlib.Core.List.{List, [], ◌∷◌}
use mathlib.Core.Path.{◌≡◌, refl}
use mathlib.Core.Logic.{◌≢◌}
use Prim.Native.Nat.{Ordering}
use native.Mathlib.Omega.{arith}
use desired_state_protocol.Common.Text.{
  JsString, compare_units, compare_units-eq, compare_units_flip, compare_units_trans,
}
use desired_state_protocol.Common.Sorting.{insert_sorted}

compare_units_flip_lt :
    (a b : JsString) → compare_units a b ≡ Ordering.lt → compare_units b a ≡ Ordering.gt
unfolding compare_units
compare_units_flip_lt [] [] h = cc
compare_units_flip_lt [] (b ∷ ys) h = refl
compare_units_flip_lt (a ∷ xs) [] h = cc
compare_units_flip_lt (a ∷ xs) (b ∷ ys) h = ground (arith, compare_units_flip_lt xs ys)

module _ {A : Type 0} (key : A → JsString) where
  abbrev pub by_key : A → A → Ordering
  by_key a b = compare_units (key a) (key b)

  pub insert_sorted_comm :
      (x y : A) (l : List A)
      → key x ≢ key y
      → insert_sorted by_key x (insert_sorted by_key y l)
        ≡ insert_sorted by_key y (insert_sorted by_key x l)
  unfolding insert_sorted
  insert_sorted_comm x y [] ne = ground (
    arith,
    compare_units_flip (key x) (key y),
    compare_units_flip_lt (key x) (key y),
    compare_units-eq (key x) (key y),
  )
  insert_sorted_comm x y (z ∷ zs) ne = ground (
    arith,
    insert_sorted_comm x y zs ne,
    compare_units_flip (key x) (key y),
    compare_units_flip_lt (key x) (key y),
    compare_units-eq (key x) (key y),
    compare_units_flip (key x) (key z),
    compare_units_flip_lt (key x) (key z),
    compare_units-eq (key x) (key z),
    compare_units_flip (key y) (key z),
    compare_units_flip_lt (key y) (key z),
    compare_units-eq (key y) (key z),
    compare_units_trans (key x) (key y) (key z),
    compare_units_trans (key y) (key x) (key z),
    compare_units_trans (key x) (key z) (key y),
    compare_units_trans (key y) (key z) (key x),
  )
