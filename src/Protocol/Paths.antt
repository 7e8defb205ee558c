-- ===== src/Protocol/Paths.antt =====
-- packages/protocol/src/paths.ts: attribute paths, their leaves and the patterns that match them.
pub mod Patterns
use desired_state_protocol.Common.{
  ℕ, suc, Bool, true, false, ◌&&◌, ◌||◌, not, List, [], ◌∷◌, ◌++◌, ◌==◌, leb, Option, none, some,
  JsString, js, decimal, StringMap, insert, starts_with, str_eq, any, get_last?, if◌then◌else◌,
}
use desired_state_protocol.Protocol.Value.{
  Value, undefined, array, object, Items, nil, cons, Entries, end, entry,
}

unfoldable pub join_path : JsString → JsString → JsString
join_path [] key = key
join_path (c ∷ parent) key = c ∷ parent ++ js "." ++ key

unfoldable pub join_index : JsString → ℕ → JsString
join_index parent index = parent ++ js "[" ++ decimal index ++ js "]"

unfoldable pub is_undefined : Value → Bool
is_undefined undefined = true
is_undefined _ = false

-- `entries.length === 0`, of the entries that are defined
unfoldable pub none_defined : Entries → Bool
none_defined end = true
none_defined (entry k v es) = is_undefined v && none_defined es

unfoldable mutual
  unfolding join_path join_index is_undefined none_defined insert

  pub walk : Value → JsString → StringMap Value → StringMap Value
  walk (array nil) path out = insert path (array nil) out
  walk (array (cons x xs)) path out = walk_items xs path 1 (walk x (join_index path 0) out)
  walk (object es) path out =
      let walked = walk_entries es path out in
      if none_defined es then insert path (object end) out else walked
  walk v path out = insert path v out

  pub walk_items : Items → JsString → ℕ → StringMap Value → StringMap Value
  walk_items nil path index out = out
  walk_items (cons x xs) path index out =
      walk_items xs path (suc index) (walk x (join_index path index) out)

  pub walk_entries : Entries → JsString → StringMap Value → StringMap Value
  walk_entries end path out = out
  walk_entries (entry k v es) path out =
      let walked = walk v (join_path path k) out in
      walk_entries es path (if is_undefined v then out else walked)

-- The leaves of a value by their paths, in the order of the walk
unfoldable pub flatten_value : Value → StringMap Value
unfolding walk
flatten_value v = walk v [] []

abbrev is_digit : ℕ → Bool
is_digit c = leb b'0' c && leb c b'9'

-- `path.replace(/\[\d+\]/g, '[]')`, one code unit at a time: `none` outside of a bracket, or what
-- was read behind an opening bracket.
unfoldable pub normalize_from : Option JsString → JsString → JsString
normalize_from none [] = []
normalize_from (some digits) [] = js "[" ++ digits
normalize_from none (c ∷ cs) =
    let opened = normalize_from (some []) cs in
    let copied = c ∷ normalize_from none cs in if c == b'[' then opened else copied
normalize_from (some []) (c ∷ cs) =
    let opened = js "[" ++ normalize_from (some []) cs in
    let longer = normalize_from (some (c ∷ [])) cs in
    let copied = js "[" ++ c ∷ normalize_from none cs in
    if c == b'[' then opened else if is_digit c then longer else copied
normalize_from (some (d ∷ ds)) (c ∷ cs) =
    let closed = js "[]" ++ normalize_from none cs in
    let opened = js "[" ++ (d ∷ ds) ++ normalize_from (some []) cs in
    let longer = normalize_from (some (d ∷ ds ++ c ∷ [])) cs in
    let copied = js "[" ++ (d ∷ ds) ++ c ∷ normalize_from none cs in
    if c == b']'
    then closed
    else if c == b'['
    then opened
    else if is_digit c
    then longer
    else copied

unfoldable pub normalize_path_pattern : JsString → JsString
unfolding normalize_from
normalize_path_pattern path = normalize_from none path

-- `s.endsWith('*')`
unfoldable pub ends_with_star : JsString → Bool
ends_with_star s = elim (get_last? s) [ none ↦ false | some c ↦ c == b'*' ]

-- `s.slice(0, -1)`
unfoldable pub drop_last : JsString → JsString
drop_last [] = []
drop_last (c ∷ []) = []
drop_last (c ∷ (d ∷ s)) = c ∷ drop_last (d ∷ s)

-- `pathMatches`, on what is normalized
unfoldable pub covers : JsString → JsString → Bool
unfolding ends_with_star drop_last starts_with str_eq
covers path pattern =
    if ends_with_star pattern
    then starts_with path (drop_last pattern)
    else if str_eq path pattern
    then true
    else starts_with path (pattern ++ js ".") || starts_with path (pattern ++ js "[")

unfoldable pub path_matches : JsString → JsString → Bool
unfolding covers normalize_path_pattern
path_matches path pattern = covers (normalize_path_pattern path) (normalize_path_pattern pattern)

unfoldable pub path_matches_any : JsString → List JsString → Bool
unfolding path_matches
path_matches_any path patterns = any (λ p. path_matches path p) patterns
