-- ===== src/Plan/Graph/Rounds.antt =====
-- packages/plan-engine/src/graph.ts: the rounds that the loop takes.
use desired_state_protocol.Common.{
  ℕ, zero, suc, ◌+◌, ◌≤◌, Bool, true, false, List, [], ◌∷◌, length, length-append, length-sort_by,
  Option, none, some, JsString, StringMap, lookup, insert, get_or, Ordering, ℤ, pos, negsuc, pred_ℤ,
  ◌≡◌, refl, arith,
}
use desired_state_protocol.Plan.Graph.{
  Pass, Walk, push_ready, release, release_each, remaining, is_zero, positive, waiting, sort_if,
  round, rounds, start, walk_all,
}

abbrev one_if : Bool → ℕ
one_if true = 1
one_if false = 0

positive-pred_ℤ :
    (left : ℤ) → positive (pred_ℤ left) + one_if (is_zero (pred_ℤ left)) ≤ positive left
unfolding positive is_zero
positive-pred_ℤ (pos zero) = omega arith
positive-pred_ℤ (pos (suc zero)) = omega arith
positive-pred_ℤ (pos (suc (suc n))) = omega arith
positive-pred_ℤ (negsuc n) = omega arith

waiting-insert :
    (id : JsString) (left : ℤ) (indegree : StringMap ℤ)
    → left ≡ remaining id indegree
    → waiting (insert id left indegree) + one_if (is_zero left) ≤ waiting indegree
unfolding waiting insert remaining lookup positive is_zero
waiting-insert id left [] h = rw h (omega arith)
waiting-insert id left ((key, old) ∷ rest) h =
    ground (arith, positive-pred_ℤ old, waiting-insert id left rest)

module _ {T : Type 0} where
  abbrev load : Pass T → ℕ
  load pass = length pass.ready + waiting pass.indegree

  push_ready_le :
      (node : Option T) (pushed : Bool) (indegree : StringMap ℤ) (pass : Pass T)
      → load (push_ready node pushed indegree pass)
        ≤ length pass.ready + (waiting indegree + one_if pushed)
  unfolding push_ready
  push_ready_le (some node) true indegree pass = omega (arith, length-append pass.ready (node ∷ []))
  push_ready_le (some node) false indegree pass = omega arith
  push_ready_le none pushed indegree pass = omega arith

  release_le :
      (by_id : StringMap T) (id : JsString) (pass : Pass T)
      → load (release by_id id pass) ≤ load pass
  unfolding release
  release_le by_id id pass =
      let left = remaining id pass.indegree in
      omega (
        arith,
        push_ready_le (lookup id by_id) (is_zero left) (insert id left pass.indegree) pass,
        waiting-insert id left pass.indegree refl,
      )

  release_each_le :
      (by_id : StringMap T) (ids : List JsString) (pass : Pass T)
      → load (release_each by_id ids pass) ≤ load pass
  unfolding release_each
  release_each_le by_id [] pass = omega arith
  release_each_le by_id (id ∷ ids) pass =
      omega (arith, release_le by_id id pass, release_each_le by_id ids (release by_id id pass))

module _ {T : Type 0} (id_of : T → JsString) (dependencies_of : T → List JsString)
    (compare_nodes : T → T → Ordering) where
  abbrev weight : Walk T → ℕ
  weight walk = length walk.ready + waiting walk.indegree

  length-sort_if :
      (dirty : Bool) (xs : List T)
      → length (sort_if id_of dependencies_of compare_nodes dirty xs) ≡ length xs
  unfolding sort_if
  length-sort_if true xs = length-sort_by compare_nodes xs
  length-sort_if false xs = refl

  round_le :
      (by_id : StringMap T) (dependents : StringMap (List JsString)) (indegree : StringMap ℤ)
      (node : T) (ready done : List T)
      → weight (round id_of dependencies_of compare_nodes by_id dependents indegree node ready done)
        ≤ length ready + waiting indegree
  unfolding round
  round_le by_id dependents indegree node ready done =
      let pass : Pass T = record { indegree = indegree; ready = ready; dirty = false } in
      let ids = get_or (lookup (id_of node) dependents) [] in
      let after = release_each by_id ids pass in
      omega (arith, release_each_le by_id ids pass, length-sort_if after.dirty after.ready)

  rounds-ready :
      (by_id : StringMap T) (dependents : StringMap (List JsString)) (fuel : ℕ)
      (indegree : StringMap ℤ) (ready done : List T)
      → length ready + waiting indegree ≤ fuel
      → (rounds id_of dependencies_of compare_nodes by_id dependents fuel
          (record { indegree = indegree; ready = ready; done = done })).ready
        ≡ []
  unfolding rounds
  rounds-ready by_id dependents zero indegree [] done h = refl
  rounds-ready by_id dependents zero indegree (node ∷ ready) done h = ground arith
  rounds-ready by_id dependents (suc fuel) indegree [] done h = refl
  rounds-ready by_id dependents (suc fuel) indegree (node ∷ ready) done h =
      let next =
        round id_of dependencies_of compare_nodes by_id dependents indegree node ready done in
      let shorter = round_le by_id dependents indegree node ready done in
      rounds-ready by_id dependents fuel next.indegree next.ready next.done (omega arith)

  -- The loop ends with no node ready, within the rounds that it is given.
  pub walk_all-ready :
      (nodes : List T) → (walk_all id_of dependencies_of compare_nodes nodes).ready ≡ []
  unfolding walk_all
  walk_all-ready nodes =
      let walk = start id_of dependencies_of compare_nodes nodes in
      rounds-ready _ _ _ walk.indegree walk.ready walk.done (omega arith)
