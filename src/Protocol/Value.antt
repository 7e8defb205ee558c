-- ===== src/Protocol/Value.antt =====
-- A JavaScript value of type `unknown`. A number is the 64 bits of its IEEE 754 double. Object
-- entries stand in insertion order.
use desired_state_protocol.Common.{
  ℕ, Bool, Option, none, some, JsString, zero, suc, ◌==◌, ◌+◌, ◌-◌, ◌*◌, ltb, if◌then◌else◌, ◌/◌,
  ◌%◌, ◌^◌, not,
}

mutual
  pub data Value : Type 0 where
    undefined : Value
    null : Value
    bool : Bool → Value
    number : (bits : ℕ) → Value
    text : JsString → Value
    bigint : Value
    function : Value
    symbol : Value
    date : (iso : JsString) → Value
    array : Items → Value
    object : Entries → Value

  pub data Items : Type 0 where
    nil : Items
    cons : Value → Items → Items

  pub data Entries : Type 0 where
    end : Entries
    entry : JsString → Value → Entries → Entries

-- `value ?? null` for an optional property
abbrev pub or_null : Option Value → Value
or_null none = null
or_null (some undefined) = null
or_null (some v) = v

-- `Number.isFinite`: the exponent field is not all ones.
unfoldable pub is_finite : ℕ → Bool
is_finite bits = not ((bits / 2 ^ 52) % 2048 == 2047)

-- The exponent of a number: how often it can be halved, in at most `fuel` rounds.
halvings : ℕ → ℕ → ℕ
halvings zero n = 0
halvings (suc fuel) n = let rest = suc (halvings fuel (n / 2)) in if ltb n 2 then 0 else rest

-- The double of a natural number below 2^53, which 53 halvings exhaust
unfoldable pub integer : ℕ → Value
unfolding halvings
integer zero = number 0
integer (suc n) =
    let e = halvings 53 (suc n) in number ((1023 + e) * 2 ^ 52 + (suc n - 2 ^ e) * 2 ^ (52 - e))
