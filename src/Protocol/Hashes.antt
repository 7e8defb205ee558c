-- ===== src/Protocol/Hashes.antt =====
-- packages/protocol/src/hash.ts and ids.ts: the spelling of hashes, and the ids derived from them.
use desired_state_protocol.Common.{
  ℕ, Bool, true, false, [], ◌∷◌, ◌↔◌, arith, ◌++◌, ◌&&◌, ◌||◌, not, any, ◌==◌, leb, length, take,
  drop, JsString, js, starts_with, if◌then◌else◌, ◌≡◌, refl,
}

abbrev pub hash_prefix : JsString
hash_prefix = js "sha256:"

unfoldable pub is_hex : ℕ → Bool
is_hex c = leb 48 c && leb c 57 || leb 97 c && leb c 102

-- `/^sha256:[0-9a-f]{64}$/.test(value)`
unfoldable pub is_hash : JsString → Bool
unfolding is_hex starts_with
is_hash value =
    let digest = drop 7 value in
    starts_with value hash_prefix && (length digest == 64) && not (any (λ c. not (is_hex c)) digest)

-- `shortHash(hash, count)`
unfoldable pub short_hash : JsString → ℕ → JsString
unfolding starts_with
short_hash hash count =
    if starts_with hash hash_prefix then take count (drop 7 hash) else take count hash

-- Whether `diff` is set behind the loop over the code units: two units differ when their `^` is not 0.
unfoldable pub units_differ : JsString → JsString → Bool
units_differ [] _ = false
units_differ (c ∷ a) [] = true
units_differ (c ∷ a) (d ∷ b) = let later = units_differ a b in not (c == d) || later

unfoldable pub hash_equals : JsString → JsString → Bool
unfolding units_differ
hash_equals a b = if not (length a == length b) then false else not (units_differ a b)

unfoldable pub plan_id_from_hash : JsString → JsString
unfolding starts_with
plan_id_from_hash plan_hash =
    let digest = if starts_with plan_hash hash_prefix then drop 7 plan_hash else plan_hash in
    js "plan_" ++ take 24 digest

-- The change id of a type, a key and an action, which U+0000 separates in what is hashed
unfoldable pub change_id :
    (JsString → JsString) → (resource_type resource_key action : JsString) → JsString
change_id sha256_hex resource_type resource_key action =
    js "chg_" ++ take 20 (sha256_hex (resource_type ++ 0 ∷ resource_key ++ 0 ∷ action))

units_differ-false : (a b : JsString) → length a ≡ length b → units_differ a b ≡ false → a ≡ b
unfolding units_differ
units_differ-false [] [] sized h = refl
units_differ-false [] (d ∷ b) sized h = ground arith
units_differ-false (c ∷ a) [] sized h = cc
units_differ-false (c ∷ a) (d ∷ b) sized h = ground (arith, units_differ-false a b (omega arith))

units_differ_refl : (a : JsString) → units_differ a a ≡ false
unfolding units_differ
units_differ_refl [] = refl
units_differ_refl (c ∷ a) = ground (arith, units_differ_refl a)

-- The comparison of hashes that takes the same time for all strings of a length is equality.
pub hash_equals_iff : (a b : JsString) → (hash_equals a b ≡ true) ↔ (a ≡ b)
unfolding hash_equals
hash_equals_iff a b = (
  λ h. units_differ-false a b (ground arith) (ground arith),
  λ e. rw (← e) (ground (arith, units_differ_refl a)),
)

spelled :
    (plan_id_from_hash (js "sha256:0123456789abcdef0123456789abcdef")
      ≡ js "plan_0123456789abcdef01234567")
    × (short_hash (js "sha256:0123456789abcdef") 12 ≡ js "0123456789ab")
    × (is_hash (js "sha256:0123") ≡ false)
    × (is_hash (js "sha256:0123456789abcdef0123456789abcdef0123456789abcdef0123456789abcdef")
        ≡ true)
unfolding plan_id_from_hash short_hash is_hash
spelled = (refl, refl, refl, refl)
