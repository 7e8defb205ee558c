-- ===== src/Protocol/Paths/Patterns.antt =====
-- What a path pattern covers.
use desired_state_protocol.Common.{
  ℕ, true, [], ◌∷◌, ◌++◌, ◌≡◌, refl, arith, Option, none, some, JsString, js, append_assoc, All,
  starts_with, starts_with_append, str_eq_refl, sym, ap, ◌∙◌, append-nil, ◌≢◌,
}
use desired_state_protocol.Protocol.Paths.{
  normalize_from, is_digit, normalize_path_pattern, drop_last, covers, path_matches,
}

normalize_from-dot :
    (m : Option JsString) (p r : JsString)
    → normalize_from m (p ++ b'.' ∷ r) ≡ normalize_from m p ++ b'.' ∷ normalize_from none r
unfolding normalize_from
normalize_from-dot none [] r = refl
normalize_from-dot (some []) [] r = refl
normalize_from-dot (some (d ∷ ds)) [] r = refl
normalize_from-dot none (c ∷ p) r =
    ground (arith, normalize_from-dot (some []) p r, normalize_from-dot none p r)
normalize_from-dot (some []) (c ∷ p) r = ground (
  arith,
  normalize_from-dot (some []) p r,
  normalize_from-dot none p r,
  normalize_from-dot (some (c ∷ [])) p r,
)
normalize_from-dot (some (d ∷ ds)) (c ∷ p) r =
    let rest = b'.' ∷ normalize_from none r in
    ground (
      arith,
      normalize_from-dot (some []) p r,
      normalize_from-dot none p r,
      normalize_from-dot (some (d ∷ ds ++ c ∷ [])) p r,
      append_assoc ds (normalize_from (some []) p) rest,
      append_assoc ds (c ∷ normalize_from none p) rest,
    )

normalize_from-open :
    (m : Option JsString) (p r : JsString)
    → normalize_from m (p ++ b'[' ∷ r) ≡ normalize_from m p ++ normalize_from (some []) r
unfolding normalize_from
normalize_from-open none [] r = refl
normalize_from-open (some []) [] r = refl
normalize_from-open (some (d ∷ ds)) [] r = refl
normalize_from-open none (c ∷ p) r =
    ground (arith, normalize_from-open (some []) p r, normalize_from-open none p r)
normalize_from-open (some []) (c ∷ p) r = ground (
  arith,
  normalize_from-open (some []) p r,
  normalize_from-open none p r,
  normalize_from-open (some (c ∷ [])) p r,
)
normalize_from-open (some (d ∷ ds)) (c ∷ p) r =
    let rest = normalize_from (some []) r in
    ground (
      arith,
      normalize_from-open (some []) p r,
      normalize_from-open none p r,
      normalize_from-open (some (d ∷ ds ++ c ∷ [])) p r,
      append_assoc ds (normalize_from (some []) p) rest,
      append_assoc ds (c ∷ normalize_from none p) rest,
    )

abbrev IsOpen : JsString → Type 0
IsOpen [] = ⊥
IsOpen (c ∷ s) = c ≡ b'['

-- What stands behind an opening bracket keeps the bracket.
normalize_from-IsOpen : (ds r : JsString) → IsOpen (normalize_from (some ds) r)
unfolding normalize_from
normalize_from-IsOpen ds [] = refl
normalize_from-IsOpen [] (c ∷ r) = ground (arith, normalize_from-IsOpen (c ∷ []) r)
normalize_from-IsOpen (d ∷ ds) (c ∷ r) = ground (arith, normalize_from-IsOpen (d ∷ ds ++ c ∷ []) r)

IsOpen-cons : (s : JsString) → IsOpen s → (t : JsString) × (s ≡ b'[' ∷ t)
IsOpen-cons [] h = absurd h
IsOpen-cons (c ∷ s) h = (s, ap (λ d. d ∷ s) h)

-- The digits of an index leave an empty pair of brackets.
normalize_from-digits :
    (d : ℕ) (ds is r : JsString)
    → All (λ c. is_digit c ≡ true) is
    → normalize_from (some (d ∷ ds)) (is ++ b']' ∷ r) ≡ js "[]" ++ normalize_from none r
unfolding normalize_from
normalize_from-digits d ds [] r h = refl
normalize_from-digits d ds (c ∷ is) r (h, hs) =
    ground (arith, normalize_from-digits d (ds ++ c ∷ []) is r hs)

-- A text is what stands before its last unit, and a rest.
drop_last-append : (s : JsString) → (t : JsString) × (s ≡ drop_last s ++ t)
unfolding drop_last
drop_last-append [] = ([], refl)
drop_last-append (c ∷ []) = (c ∷ [], refl)
drop_last-append (c ∷ (d ∷ s)) = let (t, e) = drop_last-append (d ∷ s) in (t, ap (λ l. c ∷ l) e)

starts_with-drop_last : (s u : JsString) → starts_with (s ++ u) (drop_last s) ≡ true
starts_with-drop_last s u =
    let (t, e) = drop_last-append s in
    let whole : s ++ u ≡ drop_last s ++ (t ++ u) =
      ap (λ l. l ++ u) e ∙ append_assoc (drop_last s) t u in
    rw whole (starts_with_append (drop_last s) (t ++ u))

covers_self : (p : JsString) → covers p p ≡ true
unfolding covers
covers_self p =
    let prefix : starts_with p (drop_last p) ≡ true =
      rw append-nil at (starts_with-drop_last p []) in
    ground (arith, str_eq_refl p)

covers_dot : (p r : JsString) → covers (p ++ b'.' ∷ r) p ≡ true
unfolding covers
covers_dot p r =
    let nested : starts_with (p ++ b'.' ∷ r) (p ++ js ".") ≡ true =
      rw (append_assoc p (js ".") r) at (starts_with_append (p ++ js ".") r) in
    ground (arith, starts_with-drop_last p (b'.' ∷ r))

covers_bracket : (p r : JsString) → covers (p ++ b'[' ∷ r) p ≡ true
unfolding covers
covers_bracket p r =
    let nested : starts_with (p ++ b'[' ∷ r) (p ++ js "[") ≡ true =
      rw (append_assoc p (js "[") r) at (starts_with_append (p ++ js "[") r) in
    ground (arith, starts_with-drop_last p (b'[' ∷ r))

-- A pattern matches the path that it spells, every field below it and every index below it.
pub path_matches_nested :
    (p r : JsString)
    → (path_matches p p ≡ true)
      × (path_matches (p ++ b'.' ∷ r) p ≡ true)
      × (path_matches (p ++ b'[' ∷ r) p ≡ true)
unfolding path_matches normalize_path_pattern
path_matches_nested p r =
    let (t, e) = IsOpen-cons _ (normalize_from-IsOpen [] r) in
    (
      covers_self (normalize_from none p),
      rw (normalize_from-dot none p r) (covers_dot (normalize_from none p) (normalize_from none r)),
      rw (normalize_from-open none p r, e) (covers_bracket (normalize_from none p) t),
    )

normalize_index :
    (p r i : JsString)
    → All (λ c. is_digit c ≡ true) i
    → i ≢ []
    → normalize_from none (p ++ b'[' ∷ (i ++ b']' ∷ r))
      ≡ normalize_from none p ++ (js "[]" ++ normalize_from none r)
unfolding normalize_from
normalize_index p r [] h ne = absurd (ne refl)
normalize_index p r (c ∷ i) (h, hs) ne =
    let inner : normalize_from (some []) (c ∷ (i ++ b']' ∷ r)) ≡ js "[]" ++ normalize_from none r =
      ground (arith, normalize_from-digits c [] i r hs) in
    normalize_from-open none p (c ∷ (i ++ b']' ∷ r)) ∙ ap (λ s. normalize_from none p ++ s) inner

-- An index matches as any other: the digits between the brackets do not count.
pub path_matches-index :
    (p r pattern i j : JsString)
    → All (λ c. is_digit c ≡ true) i
    → All (λ c. is_digit c ≡ true) j
    → i ≢ []
    → j ≢ []
    → path_matches (p ++ b'[' ∷ (i ++ b']' ∷ r)) pattern
      ≡ path_matches (p ++ b'[' ∷ (j ++ b']' ∷ r)) pattern
unfolding path_matches normalize_path_pattern
path_matches-index p r pattern i j hi hj ni nj =
    ap (λ s. covers s (normalize_from none pattern))
      (normalize_index p r i hi ni ∙ sym (normalize_index p r j hj nj))
