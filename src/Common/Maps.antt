-- ===== src/Common/Maps.antt =====
-- `Map<string, V>`: entries in insertion order. A write to a present key keeps the entry's place.
use mathlib.Core.Path.{◌≡◌, refl, sym, subst, ap₂}
use mathlib.Core.Logic.{◌⊎◌, inl, inr}
use mathlib.Core.Bool.{Bool, false}
use mathlib.Core.Option.{Option, none, some}
use mathlib.Core.List.{List, [], ◌∷◌, map, Memᴰ}
use native.Mathlib.Omega.{arith}
use desired_state_protocol.Common.Tests.{if◌then◌else◌, is_some, Bool-cases}
use desired_state_protocol.Common.Lists.{All}
use desired_state_protocol.Common.Text.{JsString, str_eq, str_eq_iff, str_eq_refl, str_eq_sound}

abbrev pub StringMap {ℓ} : Type ℓ → Type ℓ
StringMap V = List (JsString × V)

module _ {ℓ} {V : Type ℓ} where
  unfoldable pub lookup : JsString → StringMap V → Option V
  lookup k [] = none
  lookup k ((j, v) ∷ m) = if str_eq j k then some v else lookup k m

  unfoldable pub insert : JsString → V → StringMap V → StringMap V
  insert k v [] = (k, v) ∷ []
  insert k v ((j, w) ∷ m) = if str_eq j k then (j, v) ∷ m else (j, w) ∷ insert k v m

  -- `new Map(entries)`
  unfoldable pub from_entries : List (JsString × V) → StringMap V → StringMap V
  unfolding insert
  from_entries [] m = m
  from_entries ((k, v) ∷ rest) m = from_entries rest (insert k v m)

  abbrev pub has_key : JsString → StringMap V → Bool
  has_key k m = is_some (lookup k m)

  abbrev pub values : StringMap V → List V
  values m = map (λ e. e.1) m

  pub lookup-insert :
      (k j : JsString) (v : V) (m : StringMap V)
      → lookup j (insert k v m) ≡ (if str_eq k j then some v else lookup j m)
  unfolding lookup insert
  lookup-insert k j v [] = refl
  lookup-insert k j v ((i, w) ∷ m) =
      ground (arith, str_eq_iff k j, str_eq_iff i k, str_eq_iff i j, lookup-insert k j v m)

  pub lookup-insert_self :
      (k : JsString) (v : V) (m : StringMap V) → lookup k (insert k v m) ≡ some v
  lookup-insert_self k v m = simp (lookup-insert, str_eq_refl)

  pub lookup-insert_ne :
      (k j : JsString) (v : V) (m : StringMap V)
      → str_eq k j ≡ false
      → lookup j (insert k v m) ≡ lookup j m
  lookup-insert_ne k j v m h = rw (lookup-insert k j v m, h)

  -- What holds of every value of a map holds of what a look-up finds.
  pub All-lookup {κ} :
      (P : V → Type κ) (k : JsString) (m : StringMap V) {v : V}
      → All P (values m)
      → lookup k m ≡ some v
      → P v
  unfolding lookup
  All-lookup P k [] h e = cc
  All-lookup P k ((j, w) ∷ m) {v} (p, h) e = elim (Bool-cases (str_eq j k)) [
    | inl same ↦ let e' : w ≡ v = ground arith in rw e' at p
    | inr other ↦ All-lookup P k m h (ground arith)
  ]

  pub All-insert {κ} :
      (P : V → Type κ) (k : JsString) (v : V) (m : StringMap V)
      → All P (values m)
      → P v
      → All P (values (insert k v m))
  unfolding insert
  All-insert P k v [] h p = (p, tt)
  All-insert P k v ((j, w) ∷ m) (q, h) p = elim (Bool-cases (str_eq j k)) [
    | inl same ↦ rw same (p, h)
    | inr other ↦ rw other (q, All-insert P k v m h p)
  ]

  -- What holds of every entry holds of the one that a look-up finds, and stays behind a write.
  pub All-lookup_entry {κ} :
      (P : JsString × V → Type κ) (k : JsString) (m : StringMap V) {v : V}
      → All P m
      → lookup k m ≡ some v
      → P (k, v)
  unfolding lookup
  All-lookup_entry P k [] h e = cc
  All-lookup_entry P k ((j, w) ∷ m) {v} (p, h) e = elim (Bool-cases (str_eq j k)) [
    | inl same ↦
        let e' : w ≡ v = ground arith in
        let e'' : j ≡ k = str_eq_sound j k same in rw (e', e'') at p
    | inr different ↦ All-lookup_entry P k m h (ground arith)
  ]

  pub All-insert_entry {κ} :
      (P : JsString × V → Type κ) (k : JsString) (v : V) (m : StringMap V)
      → All P m
      → P (k, v)
      → All P (insert k v m)
  unfolding insert
  All-insert_entry P k v [] h p = (p, tt)
  All-insert_entry P k v ((j, w) ∷ m) (q, h) p = elim (Bool-cases (str_eq j k)) [
    | inl same ↦ rw same (subst (λ i. P (i, v)) (sym (str_eq_sound j k same)) p, h)
    | inr different ↦ rw different (q, All-insert_entry P k v m h p)
  ]

  pub mem_of_lookup : (k : JsString) (m : StringMap V) {v : V} → lookup k m ≡ some v → Memᴰ (k, v) m
  unfolding lookup
  mem_of_lookup k [] e = cc
  mem_of_lookup k ((j, w) ∷ m) {v} e = elim (Bool-cases (str_eq j k)) [
    | inl same ↦
        let e' : w ≡ v = ground arith in
        Memᴰ.head (ap₂ (λ a b. (a, b)) (sym (str_eq_sound j k same)) (sym e'))
    | inr different ↦ Memᴰ.tail (mem_of_lookup k m (ground arith))
  ]

  pub lookup-mem :
      (k : JsString) (m : StringMap V) {v : V} → lookup k m ≡ some v → Memᴰ v (values m)
  unfolding lookup
  lookup-mem k [] e = cc
  lookup-mem k ((j, w) ∷ m) {v} e = elim (Bool-cases (str_eq j k)) [
    | inl same ↦ Memᴰ.head (ground arith)
    | inr other ↦ Memᴰ.tail (lookup-mem k m (ground arith))
  ]

  mem_first : (v w : V) (ws : List V) {x : V} → Memᴰ x (v ∷ ws) → (x ≡ v) ⊎ Memᴰ x (w ∷ ws)
  mem_first v w ws (Memᴰ.head e) = inl e
  mem_first v w ws (Memᴰ.tail n) = inr (Memᴰ.tail n)

  mem_later :
      (v w : V) (us ws : List V) {x : V}
      → (Memᴰ x us → (x ≡ v) ⊎ Memᴰ x ws)
      → Memᴰ x (w ∷ us)
      → (x ≡ v) ⊎ Memᴰ x (w ∷ ws)
  mem_later v w us ws rest (Memᴰ.head e) = inr (Memᴰ.head e)
  mem_later v w us ws rest (Memᴰ.tail n) = elim (rest n) [
    | inl e ↦ inl e
    | inr old ↦ inr (Memᴰ.tail old)
  ]

  -- A value of a map behind a write is the written one or an old one.
  pub mem-insert :
      (k : JsString) (v : V) (m : StringMap V) {x : V}
      → Memᴰ x (values (insert k v m))
      → (x ≡ v) ⊎ Memᴰ x (values m)
  unfolding insert
  mem-insert k v [] (Memᴰ.head e) = inl e
  mem-insert k v [] (Memᴰ.tail n) = elim n [ ]
  mem-insert k v ((j, w) ∷ m) {x} h =
      let ih : Memᴰ x (values (insert k v m)) → (x ≡ v) ⊎ Memᴰ x (values m) = mem-insert k v m in
      elim (Bool-cases (str_eq j k)) [
        | inl same ↦ mem_first v w (values m) (rw same at h)
        | inr other ↦ mem_later v w (values (insert k v m)) (values m) ih (rw other at h)
      ]
