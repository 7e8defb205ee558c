-- ===== src/Policy/Verdict.antt =====
-- When a policy bundle allows a plan, and which decisions it records.
use mathlib.Core.List.Memᴰ
use mathlib.Core.List.{Memᴰ}
use desired_state_protocol.Common.{
  true, false, List, [], ◌∷◌, ◌++◌, ◌≡◌, refl, arith, Option, none, some, JsString, ◌⊎◌, ◌∙◌, ap,
  sym, subst, append_assoc, append-nil, cons_present, inl, inr, Option-cases, ◌↔◌, filter_map,
  mem_of_filter_map, mem-filter_map, mem_of_sort_by, mem-sort_by,
}
use desired_state_protocol.Protocol.Plan.{
  PlanChange, PolicyEffect, allow, deny, warn, require_approval, PolicyDecision,
}
use desired_state_protocol.Policy.Match.{PolicyRule, PolicyDocument, effective_changes}
use desired_state_protocol.Policy.Evaluate.{
  EvaluateInput, Tally, evaluate_rule, sorted_policies, tally_decision, tally_rule, tally_rules,
  tally_policies, evaluate_policies,
}

module _ (candidates : List PlanChange) (input : EvaluateInput) where
  -- The decisions of the rules of a policy that fire, in order
  abbrev fired_rules : PolicyDocument → List PolicyRule → List PolicyDecision
  fired_rules policy rules = filter_map (λ r. evaluate_rule policy r candidates input) rules

  fired : List PolicyDocument → List PolicyDecision
  fired [] = []
  fired (p ∷ ps) = fired_rules p p.rules ++ fired ps

  -- A rule of the policies fires with the decision.
  abbrev pub FiresIn : List PolicyDocument → PolicyDecision → Type 0
  FiresIn policies d =
      (policy : PolicyDocument) × (rule : PolicyRule) × Memᴰ policy policies
      × Memᴰ rule policy.rules
      × (evaluate_rule policy rule candidates input ≡ some d)

  mem-fired : (ps : List PolicyDocument) {d : PolicyDecision} → FiresIn ps d → Memᴰ d (fired ps)
  unfolding fired
  mem-fired [] (p, r, m, at_r, e) = elim m [ ]
  mem-fired (q ∷ ps) {d} (p, r, Memᴰ.head here, at_r, e) =
      let at_q : Memᴰ r q.rules = subst (λ x. Memᴰ r x.rules) here at_r in
      let fires = subst (λ x. evaluate_rule x r candidates input ≡ some d) here e in
      Memᴰ.append_left (fired ps)
        (mem-filter_map (λ x. evaluate_rule q x candidates input) q.rules at_q fires)
  mem-fired (q ∷ ps) (p, r, Memᴰ.tail m, at_r, e) =
      Memᴰ.append_right (fired_rules q q.rules) (mem-fired ps (p, r, m, at_r, e))

  mem_of_fired : (ps : List PolicyDocument) {d : PolicyDecision} → Memᴰ d (fired ps) → FiresIn ps d
  unfolding fired
  mem_of_fired [] m = elim m [ ]
  mem_of_fired (q ∷ ps) m = elim (Memᴰ.append_cases (fired_rules q q.rules) m) [
    | inl here ↦
        let (r, at_r, e) =
          mem_of_filter_map (λ x. evaluate_rule q x candidates input) q.rules here in
        (q, r, Memᴰ.head refl, at_r, e)
    | inr later ↦
        let (p, r, at_p, at_r, e) = mem_of_fired ps later in (p, r, Memᴰ.tail at_p, at_r, e)
  ]

-- Some decision denies.
abbrev pub Denies : List PolicyDecision → Type 0
Denies [] = ⊥
Denies (d ∷ ds) = (d.effect ≡ deny) ⊎ Denies ds

Denies-append : (xs ys : List PolicyDecision) → Denies (xs ++ ys) ↔ (Denies xs ⊎ Denies ys)
Denies-append [] ys = ground arith
Denies-append (x ∷ xs) ys = ground (arith, Denies-append xs ys)

cons_present-append :
    (o : Option PolicyDecision) (ys : List PolicyDecision)
    → cons_present o ys ≡ cons_present o [] ++ ys
cons_present-append none ys = refl
cons_present-append (some d) ys = refl

-- What a run of rules adds to a tally: the decisions `ds`.
abbrev Adds : List PolicyDecision → Tally → Tally → Type 0
Adds ds t t' =
    (t'.decisions ≡ t.decisions ++ ds) × ((t'.allowed ≡ false) ↔ ((t.allowed ≡ false) ⊎ Denies ds))

Adds-append :
    (xs ys : List PolicyDecision) (t u v : Tally) → Adds xs t u → Adds ys u v → Adds (xs ++ ys) t v
Adds-append xs ys t u v (e, a) (e', a') =
    (e' ∙ ap (λ l. l ++ ys) e ∙ append_assoc t.decisions xs ys, ground (arith, Denies-append xs ys))

module _ (sha256_hex : JsString → JsString) (candidates : List PlanChange)
    (input : EvaluateInput) where
  tally_decision-Adds :
      (policy : PolicyDocument) (rule : PolicyRule) (t : Tally) (d : PolicyDecision)
      (e : PolicyEffect)
      → d.effect ≡ e
      → Adds (d ∷ []) t (tally_decision sha256_hex policy rule candidates input t d e)
  unfolding tally_decision
  tally_decision-Adds policy rule t d allow h = (refl, ground arith)
  tally_decision-Adds policy rule t d deny h = (refl, ground arith)
  tally_decision-Adds policy rule t d warn h = (refl, ground arith)
  tally_decision-Adds policy rule t d require_approval h = (refl, ground arith)

  tally_rule-Adds :
      (policy : PolicyDocument) (rule : PolicyRule) (t : Tally)
      → Adds
          (cons_present (evaluate_rule policy rule candidates input) [])
          t
          (tally_rule sha256_hex policy candidates input t rule)
  unfolding tally_rule
  tally_rule-Adds policy rule t = elim (Option-cases (evaluate_rule policy rule candidates input)) [
    | inl quiet ↦ rw (quiet, tally_rule) (sym (append-nil t.decisions), ground arith)
    | inr (d, fires) ↦ rw (fires, tally_rule) (tally_decision-Adds policy rule t d d.effect refl)
  ]

  tally_rules-Adds :
      (policy : PolicyDocument) (rules : List PolicyRule) (t : Tally)
      → Adds
          (fired_rules candidates input policy rules)
          t
          (tally_rules sha256_hex policy candidates input t rules)
  unfolding tally_rules filter_map
  tally_rules-Adds policy [] t = (sym (append-nil t.decisions), ground arith)
  tally_rules-Adds policy (rule ∷ rules) t =
      let first = evaluate_rule policy rule candidates input in
      let later = fired_rules candidates input policy rules in
      let u = tally_rule sha256_hex policy candidates input t rule in
      let v = tally_rules sha256_hex policy candidates input u rules in
      subst (λ ds. Adds ds t v) (sym (cons_present-append first later))
        (Adds-append (cons_present first []) later t u v (tally_rule-Adds policy rule t)
          (tally_rules-Adds policy rules u))

  tally_policies-Adds :
      (policies : List PolicyDocument) (t : Tally)
      → Adds
          (fired candidates input policies)
          t
          (tally_policies sha256_hex candidates input t policies)
  unfolding tally_policies fired
  tally_policies-Adds [] t = (sym (append-nil t.decisions), ground arith)
  tally_policies-Adds (p ∷ ps) t =
      let u = tally_rules sha256_hex p candidates input t p.rules in
      Adds-append (fired_rules candidates input p p.rules) (fired candidates input ps) t u
        (tally_policies sha256_hex candidates input u ps) (tally_rules-Adds p p.rules t)
        (tally_policies-Adds ps u)

Denies-mem :
    (ds : List PolicyDecision) → Denies ds → (d : PolicyDecision) × Memᴰ d ds × (d.effect ≡ deny)
Denies-mem [] h = absurd h
Denies-mem (d ∷ ds) (inl e) = (d, Memᴰ.head refl, e)
Denies-mem (d ∷ ds) (inr h) = let (x, m, e) = Denies-mem ds h in (x, Memᴰ.tail m, e)

mem-Denies :
    (ds : List PolicyDecision) {d : PolicyDecision} → Memᴰ d ds → d.effect ≡ deny → Denies ds
mem-Denies [] m e = elim m [ ]
mem-Denies (x ∷ ds) (Memᴰ.head same) e = inl (rw (← same) e)
mem-Denies (x ∷ ds) (Memᴰ.tail m) e = inr (mem-Denies ds m e)

-- The rules of a bundle, in whatever order its policies stand.
FiresIn-sorted :
    (candidates : List PlanChange) (input : EvaluateInput) (bundle : List PolicyDocument)
    (d : PolicyDecision)
    → FiresIn candidates input (sorted_policies bundle) d ↔ FiresIn candidates input bundle d
unfolding sorted_policies
FiresIn-sorted candidates input bundle d = (
  λ (p, r, m, at_r, e). (p, r, mem_of_sort_by _ bundle m, at_r, e),
  λ (p, r, m, at_r, e). (p, r, mem-sort_by _ bundle m, at_r, e),
)

-- A decision is recorded exactly if a rule of a policy of the bundle fires with it on the effective
-- changes of the plan; and the plan is refused exactly if one of the decisions so fired denies.
pub evaluate_policies_verdict :
    (sha256_hex : JsString → JsString) (bundle : List PolicyDocument) (input : EvaluateInput)
    → let result = evaluate_policies sha256_hex bundle input in
      let Fires = FiresIn (effective_changes input.changes) input bundle in
      ((d : PolicyDecision)
        → (Memᴰ d result.decisions → Fires d) × (Fires d → Memᴰ d result.decisions))
      × (result.allowed ≡ false → (d : PolicyDecision) × Fires d × (d.effect ≡ deny))
      × ((d : PolicyDecision) → Fires d → d.effect ≡ deny → result.allowed ≡ false)
unfolding evaluate_policies
evaluate_policies_verdict sha256_hex bundle input =
    let candidates = effective_changes input.changes in
    let sorted = sorted_policies bundle in
    let start : Tally = record { decisions = []; approvals = []; allowed = true } in
    let (e, verdict) = tally_policies-Adds sha256_hex candidates input sorted start in
    let same = FiresIn-sorted candidates input bundle in
    (
      λ d. (
        λ m. (same d).0 (mem_of_fired candidates input sorted (subst (Memᴰ d) e m)),
        λ f. subst (Memᴰ d) (sym e) (mem-fired candidates input sorted ((same d).1 f)),
      ),
      λ refused.
          let (d, m, denied) = Denies-mem _ (only_right _ (verdict.0 refused)) in
          (d, (same d).0 (mem_of_fired candidates input sorted m), denied),
      λ d f denied.
          verdict.1 (inr (mem-Denies _ (mem-fired candidates input sorted ((same d).1 f)) denied)),
    )
  where
    only_right : (ds : List PolicyDecision) → (true ≡ false) ⊎ Denies ds → Denies ds
    only_right ds (inl absurd_start) = absurd (cc)
    only_right ds (inr h) = h
