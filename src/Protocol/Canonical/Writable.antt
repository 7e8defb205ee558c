-- ===== src/Protocol/Canonical/Writable.antt =====
-- packages/protocol/src/canonical.ts: which values have a canonical text.
use desired_state_protocol.Common.{
  ℕ, zero, suc, ◌+◌, Bool, true, false, ◌&&◌, ◌||◌, List, [], ◌∷◌, map, JsString, js, ◌≡◌, refl, ap,
  ◌∙◌, by_key, sort_by, insert_sorted, arith,
}
use desired_state_protocol.Protocol.Errors.{Result, return, throw}
use desired_state_protocol.Protocol.Value.{
  Value, undefined, null, bool, number, text, bigint, function, symbol, date, array, object, Items,
  nil, cons, Entries, end, entry, is_finite,
}
use desired_state_protocol.Protocol.Paths.{is_undefined}
use desired_state_protocol.Protocol.Canonical.{
  write, write_number, write_items, write_entries, canonicalize, collect, prepend, keyed, max_depth,
  enclose, at_depth, key_of, written_of, Member,
}

unfoldable pub is_return : Result JsString → Bool
is_return (return t) = true
is_return (throw e) = false

unfoldable are_returned : Result (List JsString) → Bool
are_returned (return t) = true
are_returned (throw e) = false

unfoldable all_return : List (Result JsString) → Bool
unfolding is_return
all_return [] = true
all_return (r ∷ rs) = is_return r && all_return rs

-- JSON data with at most `room` levels below it; what is undefined is only allowed inside of
-- arrays and objects.
unfoldable mutual
  unfolding is_finite is_undefined

  pub is_writable : Value → ℕ → Bool
  is_writable undefined room = false
  is_writable null room = true
  is_writable (bool b) room = true
  is_writable (number bits) room = is_finite bits
  is_writable (text s) room = true
  is_writable bigint room = false
  is_writable function room = false
  is_writable symbol room = false
  is_writable (date iso) room = true
  is_writable (array items) room = items_writable items room
  is_writable (object entries) room = entries_writable entries room

  pub items_writable : Items → ℕ → Bool
  items_writable nil room = true
  items_writable (cons v items) zero = is_undefined v && items_writable items zero
  items_writable (cons v items) (suc room) =
      (is_undefined v || is_writable v room) && items_writable items (suc room)

  pub entries_writable : Entries → ℕ → Bool
  entries_writable end room = true
  entries_writable (entry k v entries) zero = is_undefined v && entries_writable entries zero
  entries_writable (entry k v entries) (suc room) =
      (is_undefined v || is_writable v room) && entries_writable entries (suc room)

are_returned-collect : (rs : List (Result JsString)) → are_returned (collect rs) ≡ all_return rs
unfolding are_returned collect all_return prepend is_return
are_returned-collect [] = refl
are_returned-collect (r ∷ rs) = ground (arith, are_returned-collect rs)

is_return-enclose :
    (a b : JsString) (r : Result (List JsString)) → is_return (enclose a b r) ≡ are_returned r
unfolding enclose is_return are_returned
is_return-enclose a b (return ts) = refl
is_return-enclose a b (throw e) = refl

is_return-keyed : (k : JsString) (r : Result JsString) → is_return (keyed k r) ≡ is_return r
unfolding keyed is_return
is_return-keyed k (return ts) = refl
is_return-keyed k (throw e) = refl

all_return-insert :
    (x : Member) (ms : List Member)
    → all_return (map written_of (insert_sorted (by_key key_of) x ms))
      ≡ is_return x.1 && all_return (map written_of ms)
unfolding insert_sorted all_return
all_return-insert x [] = refl
all_return-insert x (y ∷ ys) = ground (arith, all_return-insert x ys)

all_return-sort_by :
    (ms : List Member)
    → all_return (map written_of (sort_by (by_key key_of) ms)) ≡ all_return (map written_of ms)
unfolding sort_by all_return
all_return-sort_by [] = refl
all_return-sort_by (x ∷ xs) =
    all_return-insert x (sort_by (by_key key_of) xs)
    ∙ ap (λ b. is_return x.1 && b) (all_return-sort_by xs)

at_depth-within : (depth room : ℕ) (r : Result JsString) → depth + room ≡ 100 → at_depth depth r ≡ r
unfolding at_depth
at_depth-within depth room r h = ground arith

is_return-bracketed :
    (opening closing : JsString) (rs : List (Result JsString)) (depth room : ℕ)
    → depth + room ≡ 100
    → is_return (at_depth depth (enclose opening closing (collect rs))) ≡ all_return rs
is_return-bracketed opening closing rs depth room h =
    rw (at_depth-within depth room (enclose opening closing (collect rs)) h)
      (is_return-enclose opening closing (collect rs) ∙ are_returned-collect rs)

at_depth-beyond :
    (depth : ℕ) (r : Result JsString) → depth ≡ 101 → is_return (at_depth depth r) ≡ false
unfolding at_depth is_return
at_depth-beyond depth r h = ground arith

module _ (number_text : ℕ → JsString) where
  is_return-write_number : (bits : ℕ) → is_return (write_number number_text bits) ≡ is_finite bits
  unfolding write_number is_return
  is_return-write_number bits = ground arith

  too_deep : (v : Value) (depth : ℕ) → depth ≡ 101 → is_return (write number_text v depth) ≡ false
  unfolding write
  too_deep undefined depth h = at_depth-beyond depth _ h
  too_deep null depth h = at_depth-beyond depth _ h
  too_deep (bool b) depth h = at_depth-beyond depth _ h
  too_deep (number bits) depth h = at_depth-beyond depth _ h
  too_deep (text s) depth h = at_depth-beyond depth _ h
  too_deep bigint depth h = at_depth-beyond depth _ h
  too_deep function depth h = at_depth-beyond depth _ h
  too_deep symbol depth h = at_depth-beyond depth _ h
  too_deep (date iso) depth h = at_depth-beyond depth _ h
  too_deep (array items) depth h = at_depth-beyond depth _ h
  too_deep (object entries) depth h = at_depth-beyond depth _ h

  mutual
    unfolding write write_items write_entries is_writable is_return all_return

    is_return-write :
        (v : Value) (depth room : ℕ)
        → depth + room ≡ 100
        → is_return (write number_text v depth) ≡ is_writable v room
    is_return-write undefined depth room h = rw (at_depth-within depth room _ h) refl
    is_return-write null depth room h = rw (at_depth-within depth room _ h) refl
    is_return-write (bool b) depth room h = rw (at_depth-within depth room _ h) refl
    is_return-write (number bits) depth room h =
        rw (at_depth-within depth room _ h) (is_return-write_number bits)
    is_return-write (text s) depth room h = rw (at_depth-within depth room _ h) refl
    is_return-write bigint depth room h = rw (at_depth-within depth room _ h) refl
    is_return-write function depth room h = rw (at_depth-within depth room _ h) refl
    is_return-write symbol depth room h = rw (at_depth-within depth room _ h) refl
    is_return-write (date iso) depth room h = rw (at_depth-within depth room _ h) refl
    is_return-write (array items) depth room h =
        let texts = write_items number_text items (suc depth) in
        is_return-bracketed (js "[") (js "]") texts depth room h
        ∙ all_return-items items depth room h
    is_return-write (object entries) depth room h =
        let members = write_entries number_text entries (suc depth) in
        let texts = map written_of (sort_by (by_key key_of) members) in
        is_return-bracketed (js "{") (js "}") texts depth room h
        ∙ all_return-sort_by members
        ∙ all_return-entries entries depth room h

    all_return-items :
        (items : Items) (depth room : ℕ)
        → depth + room ≡ 100
        → all_return (write_items number_text items (suc depth)) ≡ items_writable items room
    all_return-items nil depth room h = refl
    all_return-items (cons v items) depth zero h =
        ground (arith, too_deep v (suc depth), all_return-items items depth zero h)
    all_return-items (cons v items) depth (suc room) h =
        ground
          (arith, is_return-write v (suc depth) room, all_return-items items depth (suc room) h)

    all_return-entries :
        (entries : Entries) (depth room : ℕ)
        → depth + room ≡ 100
        → all_return (map written_of (write_entries number_text entries (suc depth)))
          ≡ entries_writable entries room
    all_return-entries end depth room h = refl
    all_return-entries (entry k v entries) depth zero h = ground (
      arith,
      too_deep v (suc depth),
      is_return-keyed k (write number_text v (suc depth)),
      all_return-entries entries depth zero h,
    )
    all_return-entries (entry k v entries) depth (suc room) h = ground (
      arith,
      is_return-write v (suc depth) room,
      is_return-keyed k (write number_text v (suc depth)),
      all_return-entries entries depth (suc room) h,
    )

  -- A value has a canonical text exactly if it is JSON data of at most 100 nested levels: finite
  -- numbers, no BigInt, function or symbol, and `undefined` only inside of arrays and objects.
  pub canonicalize-is_writable :
      (v : Value) → is_return (canonicalize number_text v) ≡ is_writable v max_depth
  unfolding canonicalize
  canonicalize-is_writable v = is_return-write v 0 100 refl
