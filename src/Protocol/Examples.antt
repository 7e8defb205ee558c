-- ===== src/Protocol/Examples.antt =====
-- Paths and patterns of the sources' comments, and the theorems there.
use desired_state_protocol.Common.{◌≡◌, refl, true, false, ◌++◌, ◌∷◌, js}
use desired_state_protocol.Protocol.Paths.{path_matches, normalize_path_pattern}
use desired_state_protocol.Protocol.Paths.Patterns.{path_matches_nested, path_matches-index}
use desired_state_protocol.Common.{decimal, compare_units}
use desired_state_protocol.Protocol.Errors.{return}
use desired_state_protocol.Protocol.Value.{
  Value, undefined, number, text, object, array, cons, nil, entry, end,
}
use desired_state_protocol.Protocol.Canonical.{canonicalize, hash_canonical}
use desired_state_protocol.Protocol.Canonical.Order.{
  swapped, objects, entries, itself, dropped, back, through, hash_canonical-Same,
}
use desired_state_protocol.Protocol.Canonical.Writable.{
  is_return, is_writable, canonicalize-is_writable,
}

patterns :
    (normalize_path_pattern (js "prices[0].currency") ≡ js "prices[].currency")
    × (normalize_path_pattern (js "a[x][12]b[") ≡ js "a[x][]b[")
    × (path_matches (js "prices[10].currency.code") (js "prices[].currency") ≡ true)
    × (path_matches (js "prices[10].currencies") (js "prices[].currency") ≡ false)
    × (path_matches (js "prices[10].currencies") (js "prices[].currenc*") ≡ true)
unfolding path_matches normalize_path_pattern
patterns = (refl, refl, refl, refl, refl)

path_matches_nested_example :
    (path_matches (js "spec") (js "spec") ≡ true)
    × (path_matches (js "spec" ++ b'.' ∷ js "name") (js "spec") ≡ true)
    × (path_matches (js "spec" ++ b'[' ∷ js "name") (js "spec") ≡ true)
path_matches_nested_example = path_matches_nested (js "spec") (js "name")

path_matches-index_example :
    path_matches (js "prices" ++ b'[' ∷ (js "0" ++ b']' ∷ js ".currency")) (js "prices[].currency")
    ≡ path_matches
        (js "prices" ++ b'[' ∷ (js "17" ++ b']' ∷ js ".currency"))
        (js "prices[].currency")
path_matches-index_example =
    path_matches-index (js "prices") (js ".currency") (js "prices[].currency") (js "0") (js "17")
      (refl, tt) (refl, (refl, tt)) (λ e. cc) (λ e. cc)

abbrev price_first : Value
price_first = object (
    entry (js "price") (number 0)
      (entry (js "name") (text (js "a\"b")) (entry (js "tags") (array (cons undefined nil)) end)))

abbrev name_first : Value
name_first = object (
    entry (js "name") (text (js "a\"b")) (
      entry (js "price") (number 0)
        (entry (js "none") undefined (entry (js "tags") (array (cons undefined nil)) end))))

canonical_text :
    canonicalize decimal price_first
    ≡ return (js "{\"name\":\"a\\\"b\",\"price\":0,\"tags\":[null]}")
unfolding canonicalize decimal compare_units
canonical_text = refl

hash_canonical-Same_example :
    (canonicalize decimal price_first ≡ canonicalize decimal name_first)
    × (hash_canonical decimal (λ t. t) price_first ≡ hash_canonical decimal (λ t. t) name_first)
hash_canonical-Same_example =
    hash_canonical-Same decimal (λ t. t)
      (objects (
        through (swapped (js "price") (js "name") (λ e. cc))
          (entries (js "name") itself (entries (js "price") itself (back dropped)))))

canonicalize-is_writable_example :
    is_return (canonicalize decimal price_first) ≡ is_writable price_first 100
canonicalize-is_writable_example = canonicalize-is_writable decimal price_first
