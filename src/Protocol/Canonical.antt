-- ===== src/Protocol/Canonical.antt =====
-- packages/protocol/src/canonical.ts and hash.ts: the canonical text of a value and its digest. How
-- ECMAScript prints a finite double and what the SHA-256 of a text is are parameters.
pub mod Order
pub mod Writable
use desired_state_protocol.Common.{
  ℕ, suc, Bool, true, false, not, ◌&&◌, ◌||◌, List, [], ◌∷◌, ◌++◌, ◌+◌, ◌/◌, ◌%◌, ◌^◌, ◌==◌, leb,
  ltb, map, JsString, js, str_eq, Ordering, by_key, sort_by, if◌then◌else◌,
}
use desired_state_protocol.Protocol.Errors.{
  Result, return, throw, dsp, dsp_error, document_too_deep, validation_failed,
}
use desired_state_protocol.Protocol.Value.{
  Value, undefined, null, bool, number, text, bigint, function, symbol, date, array, object, Items,
  nil, cons, Entries, end, entry, is_finite,
}
use desired_state_protocol.Protocol.Paths.{is_undefined}

abbrev pub max_depth : ℕ
max_depth = 100

abbrev hex_digit : ℕ → ℕ
hex_digit n = if ltb n 10 then 48 + n else 87 + n

abbrev hex_escape : ℕ → JsString
hex_escape c =
    js "\\u"
    ++ hex_digit (c / 4096 % 16)
      ∷ hex_digit (c / 256 % 16)
      ∷ hex_digit (c / 16 % 16)
      ∷ hex_digit (c % 16)
      ∷ []

abbrev is_high : ℕ → Bool
is_high c = leb 55296 c && ltb c 56320

abbrev is_low : ℕ → Bool
is_low c = leb 56320 c && ltb c 57344

-- A code unit of a JSON string that is not half of a surrogate pair
unfoldable escape_unit : ℕ → JsString
escape_unit c =
    if c == 34
    then js "\\\""
    else if c == 92
    then js "\\\\"
    else if c == 8
    then js "\\b"
    else if c == 9
    then js "\\t"
    else if c == 10
    then js "\\n"
    else if c == 12
    then js "\\f"
    else if c == 13
    then js "\\r"
    else if ltb c 32 || is_high c || is_low c
    then hex_escape c
    else c ∷ []

unfoldable quote_units : JsString → JsString
unfolding escape_unit
quote_units [] = []
quote_units (c ∷ []) = escape_unit c
quote_units (c ∷ d ∷ cs) =
    let paired = c ∷ d ∷ quote_units cs in
    let alone = escape_unit c ++ quote_units (d ∷ cs) in
    if is_high c && is_low d then paired else alone

-- `JSON.stringify` of a string
unfoldable pub quote : JsString → JsString
unfolding quote_units
quote s = js "\"" ++ quote_units s ++ js "\""

-- `texts.join(',')`
unfoldable pub join : List JsString → JsString
join [] = []
join (t ∷ []) = t
join (t ∷ u ∷ us) = t ++ js "," ++ join (u ∷ us)

-- A member's or an item's text in front of those that follow: the first to throw ends the walk.
unfoldable pub prepend : Result JsString → Result (List JsString) → Result (List JsString)
prepend (return t) (return ts) = return (t ∷ ts)
prepend (return t) (throw e) = throw e
prepend (throw e) _ = throw e

unfoldable pub collect : List (Result JsString) → Result (List JsString)
unfolding prepend
collect [] = return []
collect (r ∷ rs) = prepend r (collect rs)

unfoldable pub enclose : JsString → JsString → Result (List JsString) → Result JsString
unfolding join
enclose opening closing (return ts) = return (opening ++ join ts ++ closing)
enclose opening closing (throw e) = throw e

unfoldable pub at_depth : ℕ → Result JsString → Result JsString
at_depth depth written =
    if ltb max_depth depth
    then throw (dsp (dsp_error document_too_deep (js "JSON nesting exceeds 100 levels")))
    else written

abbrev pub Member : Type 0
Member = JsString × Result JsString

unfoldable pub keyed : JsString → Result JsString → Result JsString
unfolding quote
keyed key (return t) = return (quote key ++ js ":" ++ t)
keyed key (throw e) = throw e

abbrev pub member : JsString → Result JsString → Member
member key written = (key, keyed key written)

abbrev pub key_of : Member → JsString
key_of m = m.0

abbrev pub written_of : Member → Result JsString
written_of m = m.1

abbrev unsupported : JsString → Result JsString
unsupported message = throw (dsp (dsp_error validation_failed message))

module _ (number_text : ℕ → JsString) where
  unfoldable pub write_number : ℕ → Result JsString
  unfolding is_finite
  write_number bits =
      if is_finite bits
      then return (if bits == 2 ^ 63 then js "0" else number_text bits)
      else unsupported (js "Non-finite number cannot be canonicalized: " ++ number_text bits)

  unfoldable mutual
    unfolding write_number quote collect enclose at_depth keyed is_undefined sort_by

    pub write : Value → ℕ → Result JsString
    write undefined depth =
        at_depth depth (unsupported (js "Value of type undefined cannot be canonicalized"))
    write null depth = at_depth depth (return (js "null"))
    write (bool b) depth = at_depth depth (return (if b then js "true" else js "false"))
    write (number bits) depth = at_depth depth (write_number bits)
    write (text s) depth = at_depth depth (return (quote s))
    write bigint depth = at_depth depth (unsupported (js "BigInt values cannot be canonicalized"))
    write function depth =
        at_depth depth (unsupported (js "Value of type function cannot be canonicalized"))
    write symbol depth =
        at_depth depth (unsupported (js "Value of type symbol cannot be canonicalized"))
    write (date iso) depth = at_depth depth (return (quote iso))
    write (array items) depth =
        at_depth depth (enclose (js "[") (js "]") (collect (write_items items (suc depth))))
    write (object entries) depth = at_depth depth (
        enclose (js "{") (js "}")
          (collect (map written_of (sort_by (by_key key_of) (write_entries entries (suc depth))))))

    pub write_items : Items → ℕ → List (Result JsString)
    write_items nil depth = []
    write_items (cons v items) depth =
        let written = write v depth in
        (if is_undefined v then return (js "null") else written) ∷ write_items items depth

    pub write_entries : Entries → ℕ → List Member
    write_entries end depth = []
    write_entries (entry key v entries) depth =
        let others = write_entries entries depth in
        let own = member key (write v depth) in if is_undefined v then others else own ∷ others

  unfoldable pub canonicalize : Value → Result JsString
  unfolding write
  canonicalize v = write v 0

  -- A canonical text that neither side throws, compared
  same_text : Result JsString → Result JsString → Result Bool
  same_text (throw e) _ = throw e
  same_text (return a) (throw e) = throw e
  same_text (return a) (return b) = return (str_eq a b)

  unfoldable pub canonical_equals : Value → Value → Result Bool
  unfolding canonicalize same_text
  canonical_equals a b = same_text (canonicalize a) (canonicalize b)

  module _ (sha256_hex : JsString → JsString) where
    digest : Result JsString → Result JsString
    digest (return t) = return (js "sha256:" ++ sha256_hex t)
    digest (throw e) = throw e

    unfoldable pub hash_canonical : Value → Result JsString
    unfolding canonicalize digest
    hash_canonical v = digest (canonicalize v)
