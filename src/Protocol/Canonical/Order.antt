-- ===== src/Protocol/Canonical/Order.antt =====
-- packages/protocol/src/canonical.ts: what the canonical text does not depend on.
use desired_state_protocol.Common.{
  ℕ, suc, Bool, List, ◌∷◌, JsString, ◌≡◌, ◌≢◌, refl, sym, ◌∙◌, by_key, sort_by, insert_sorted_comm,
  if◌then◌else◌, arith,
}
use desired_state_protocol.Protocol.Errors.{Result}
use desired_state_protocol.Protocol.Value.{
  Value, undefined, array, object, Items, nil, cons, Entries, end, entry,
}
use desired_state_protocol.Protocol.Paths.{is_undefined}
use desired_state_protocol.Protocol.Canonical.{
  write, write_items, write_entries, canonicalize, hash_canonical, member, key_of, Member,
}

-- Values that differ, at any depth, in the order of the members of objects and in the members that
-- are undefined.
mutual
  pub data Same : Value → Value → Type 0 where
    itself : {v : Value} → Same v v
    arrays : {xs ys : Items} → SameItems xs ys → Same (array xs) (array ys)
    objects : {es fs : Entries} → SameEntries es fs → Same (object es) (object fs)

  pub data SameItems : Items → Items → Type 0 where
    no_items : SameItems nil nil
    items :
        {v w : Value} {xs ys : Items}
        → Same v w
        → SameItems xs ys
        → SameItems (cons v xs) (cons w ys)

  pub data SameEntries : Entries → Entries → Type 0 where
    no_entries : SameEntries end end
    entries :
        (key : JsString) {v w : Value} {es fs : Entries}
        → Same v w
        → SameEntries es fs
        → SameEntries (entry key v es) (entry key w fs)
    swapped :
        (k l : JsString) {v w : Value} {es : Entries}
        → k ≢ l
        → SameEntries (entry k v (entry l w es)) (entry l w (entry k v es))
    dropped : {k : JsString} {es : Entries} → SameEntries (entry k undefined es) es
    back : {es fs : Entries} → SameEntries es fs → SameEntries fs es
    through : {es fs gs : Entries} → SameEntries es fs → SameEntries fs gs → SameEntries es gs

Same-is_undefined : {v w : Value} → Same v w → is_undefined v ≡ is_undefined w
unfolding is_undefined
Same-is_undefined itself = refl
Same-is_undefined (arrays s) = refl
Same-is_undefined (objects s) = refl

abbrev sorted : List Member → List Member
sorted = sort_by (by_key key_of)

sorted-member :
    (key : JsString) {b c : Bool} {r q : Result JsString} (xs ys : List Member)
    → b ≡ c
    → r ≡ q
    → sorted xs ≡ sorted ys
    → sorted (if b then xs else member key r ∷ xs) ≡ sorted (if c then ys else member key q ∷ ys)
unfolding sort_by
sorted-member key xs ys e f g = ground arith

module _ (number_text : ℕ → JsString) where
  swapped_members :
      (k l : JsString) (v w : Value) (es : Entries) (depth : ℕ)
      → k ≢ l
      → sorted (write_entries number_text (entry k v (entry l w es)) depth)
        ≡ sorted (write_entries number_text (entry l w (entry k v es)) depth)
  unfolding write_entries sort_by
  swapped_members k l v w es depth ne =
      let swap =
        insert_sorted_comm key_of (member k (write number_text v depth))
          (member l (write number_text w depth)) (sorted (write_entries number_text es depth)) ne in
      ground (arith, swap)

  mutual
    unfolding write write_items write_entries sort_by is_undefined

    write-Same :
        {v w : Value}
        → Same v w
        → (depth : ℕ) → write number_text v depth ≡ write number_text w depth
    write-Same itself depth = refl
    write-Same (arrays s) depth = rw (write_items-SameItems s (suc depth)) refl
    write-Same (objects s) depth = rw (write_entries-SameEntries s (suc depth)) refl

    write_items-SameItems :
        {xs ys : Items}
        → SameItems xs ys
        → (depth : ℕ) → write_items number_text xs depth ≡ write_items number_text ys depth
    write_items-SameItems no_items depth = refl
    write_items-SameItems (items s rest) depth =
        rw (write-Same s depth, write_items-SameItems rest depth, Same-is_undefined s) refl

    write_entries-SameEntries :
        {es fs : Entries}
        → SameEntries es fs
        → (depth : ℕ)
        → sorted (write_entries number_text es depth) ≡ sorted (write_entries number_text fs depth)
    write_entries-SameEntries no_entries depth = refl
    write_entries-SameEntries (entries key {v} {w} {es} {fs} s rest) depth =
        let written = write-Same s depth in
        let others = write_entries-SameEntries rest depth in
        let shown = Same-is_undefined s in
        sorted-member key (write_entries number_text es depth) (write_entries number_text fs depth)
          shown written others
    write_entries-SameEntries (swapped k l {v} {w} {es} ne) depth =
        swapped_members k l v w es depth ne
    write_entries-SameEntries dropped depth = refl
    write_entries-SameEntries (back s) depth = sym (write_entries-SameEntries s depth)
    write_entries-SameEntries (through s t) depth =
        write_entries-SameEntries s depth ∙ write_entries-SameEntries t depth

  -- Values that differ only in the order of their objects' members, and in members that are
  -- undefined, at any depth, have one canonical text or throw one error, and have one hash.
  pub hash_canonical-Same :
      (sha256_hex : JsString → JsString) {v w : Value}
      → Same v w
      → (canonicalize number_text v ≡ canonicalize number_text w)
        × (hash_canonical number_text sha256_hex v ≡ hash_canonical number_text sha256_hex w)
  unfolding canonicalize hash_canonical
  hash_canonical-Same sha256_hex s = (write-Same s 0, rw (write-Same s 0) refl)
