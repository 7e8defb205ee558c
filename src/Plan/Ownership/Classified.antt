-- ===== src/Plan/Ownership/Classified.antt =====
-- packages/plan-engine/src/ownership.ts: which fields are claimed and which are in conflict.
use mathlib.Core.List.{Memᴰ}
use desired_state_protocol.Common.{
  false, List, [], ◌∷◌, Option, none, some, JsString, StringMap, lookup, str_eq, Bool-cases, ◌≡◌,
  ◌⊎◌, inl, inr, refl, sym, ap, ◌∙◌,
}
use desired_state_protocol.Protocol.Plan.{FieldConflict}
use desired_state_protocol.Plan.Ownership.{held_key, Found, place_path, classify}

abbrev pub clash : JsString → JsString → FieldConflict
clash path owner = record { path = path; owner = owner }

mem-place_path_taken :
    (owner path : JsString) (holder : Option JsString) (found : Found) {p : JsString}
    → Memᴰ p (place_path owner path holder found).taken
    → ((p ≡ path) × (holder ≡ none)) ⊎ Memᴰ p found.taken
unfolding place_path
mem-place_path_taken owner path none found (Memᴰ.head e) = inl (e, refl)
mem-place_path_taken owner path none found (Memᴰ.tail m) = inr m
mem-place_path_taken owner path (some o) found m = elim (Bool-cases (str_eq o owner)) [
  | inl same ↦ inr (rw same at m)
  | inr differs ↦ inr (rw differs at m)
]

mem-place_path_clashing :
    (owner path : JsString) (holder : Option JsString) (found : Found) {f : FieldConflict}
    → Memᴰ f (place_path owner path holder found).clashing
    → ((f.path ≡ path) × (holder ≡ some f.owner) × (str_eq f.owner owner ≡ false))
      ⊎ Memᴰ f found.clashing
unfolding place_path
mem-place_path_clashing owner path none found m = inr m
mem-place_path_clashing owner path (some o) found {f} m = elim (Bool-cases (str_eq o owner)) [
  | inl same ↦ inr (rw same at m)
  | inr differs ↦ elim (rw differs at m) [
    | Memᴰ.head e ↦ inl (
      ap (λ c. c.path) e,
      ap (λ c. some c.owner) (sym e),
      ap (λ c. str_eq c.owner owner) e ∙ differs,
    )
    | Memᴰ.tail n ↦ inr n
  ]
]

place_path_taken-mem :
    (owner path : JsString) (holder : Option JsString) (found : Found) {p : JsString}
    → Memᴰ p found.taken
    → Memᴰ p (place_path owner path holder found).taken
unfolding place_path
place_path_taken-mem owner path none found m = Memᴰ.tail m
place_path_taken-mem owner path (some o) found m = elim (Bool-cases (str_eq o owner)) [
  | inl same ↦ rw same m
  | inr differs ↦ rw differs m
]

place_path_clashing-mem :
    (owner path : JsString) (holder : Option JsString) (found : Found) {f : FieldConflict}
    → Memᴰ f found.clashing
    → Memᴰ f (place_path owner path holder found).clashing
unfolding place_path
place_path_clashing-mem owner path none found m = m
place_path_clashing-mem owner path (some o) found m = elim (Bool-cases (str_eq o owner)) [
  | inl same ↦ rw same m
  | inr differs ↦ rw differs (Memᴰ.tail m)
]

place_path_clashing-own :
    (owner path o : JsString) (found : Found)
    → str_eq o owner ≡ false
    → Memᴰ (clash path o) (place_path owner path (some o) found).clashing
unfolding place_path
place_path_clashing-own owner path o found differs = rw differs (Memᴰ.head refl)

module _ (held : StringMap JsString) (owner key : JsString) where
  abbrev pub who : JsString → Option JsString
  who path = lookup (held_key key path) held

  pub mem-taken :
      (paths : List JsString) {p : JsString}
      → Memᴰ p (classify held owner key paths).taken
      → Memᴰ p paths × (who p ≡ none)
  unfolding classify
  mem-taken [] m = elim m [ ]
  mem-taken (path ∷ paths) {p} m =
      elim (mem-place_path_taken owner path (who path) (classify held owner key paths) m) [
        | inl (e, free) ↦ (Memᴰ.head e, ap who e ∙ free)
        | inr later ↦ let (at_p, free) = mem-taken paths later in (Memᴰ.tail at_p, free)
      ]

  pub taken-mem :
      (paths : List JsString) {p : JsString}
      → Memᴰ p paths
      → who p ≡ none
      → Memᴰ p (classify held owner key paths).taken
  unfolding classify place_path
  taken-mem [] m free = elim m [ ]
  taken-mem (path ∷ paths) {p} (Memᴰ.head e) free = rw (← e, free) (Memᴰ.head refl)
  taken-mem (path ∷ paths) (Memᴰ.tail m) free =
      place_path_taken-mem owner path (who path) (classify held owner key paths)
        (taken-mem paths m free)

  pub mem-clashing :
      (paths : List JsString) {f : FieldConflict}
      → Memᴰ f (classify held owner key paths).clashing
      → Memᴰ f.path paths × (who f.path ≡ some f.owner) × (str_eq f.owner owner ≡ false)
  unfolding classify
  mem-clashing [] m = elim m [ ]
  mem-clashing (path ∷ paths) m =
      elim (mem-place_path_clashing owner path (who path) (classify held owner key paths) m) [
        | inl (e, holds, differs) ↦ (Memᴰ.head e, ap who e ∙ holds, differs)
        | inr later ↦
            let (at_p, holds, differs) = mem-clashing paths later in
            (Memᴰ.tail at_p, holds, differs)
      ]

  pub clashing-mem :
      (paths : List JsString) {p o : JsString}
      → Memᴰ p paths
      → who p ≡ some o
      → str_eq o owner ≡ false
      → Memᴰ (clash p o) (classify held owner key paths).clashing
  unfolding classify
  clashing-mem [] m holds differs = elim m [ ]
  clashing-mem (path ∷ paths) {p} {o} (Memᴰ.head e) holds differs =
      rw (← e, holds) (place_path_clashing-own owner p o (classify held owner key paths) differs)
  clashing-mem (path ∷ paths) (Memᴰ.tail m) holds differs =
      place_path_clashing-mem owner path (who path) (classify held owner key paths)
        (clashing-mem paths m holds differs)
