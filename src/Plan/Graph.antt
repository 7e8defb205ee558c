-- ===== src/Plan/Graph.antt =====
-- packages/plan-engine/src/graph.ts, topologicalOrder. A node is given by its id and dependencies.
-- The error of a cycle is the result `cyclic`; findCycle, which words its message, is not modelled.
pub mod Rounds
mod Examples
use desired_state_protocol.Common.{
  ℕ, zero, suc, ◌+◌, Bool, true, false, not, List, [], ◌∷◌, ◌++◌, ◌==◌, map, filter, length, Option,
  none, some, JsString, StringMap, lookup, insert, from_entries, has_key, get_or, Ordering, sort_by,
  if◌then◌else◌, ℤ, pos, negsuc, pred_ℤ,
}

pub data Order (T : Type 0) : Type 0 where
  ordered : List T → Order T
  cyclic : Order T

-- The maps that the first loop fills: how many dependencies are left, and who waits for whom
pub record Counts : Type 0 where
  pub indegree : StringMap ℤ
  pub dependents : StringMap (List JsString)

unfoldable pub add_dependents :
    JsString → List JsString → StringMap (List JsString) → StringMap (List JsString)
unfolding lookup insert
add_dependents id [] dependents = dependents
add_dependents id (dependency ∷ dependencies) dependents =
    add_dependents id dependencies
      (insert dependency (get_or (lookup dependency dependents) [] ++ id ∷ []) dependents)

unfoldable pub is_zero : ℤ → Bool
is_zero (pos zero) = true
is_zero _ = false

-- `(indegree.get(id) ?? 0) - 1`
unfoldable pub remaining : JsString → StringMap ℤ → ℤ
unfolding lookup
remaining id indegree = pred_ℤ (get_or (lookup id indegree) (pos 0))

unfoldable pub positive : ℤ → ℕ
positive (pos (suc n)) = 1
positive _ = 0

-- The ids that still wait for something
unfoldable pub waiting : StringMap ℤ → ℕ
unfolding positive
waiting [] = 0
waiting ((id, left) ∷ indegree) = positive left + waiting indegree

-- A pass over the dependents of a node: what is left to wait for, who is ready, and whether the
-- pass pushed a node
pub record Pass (T : Type 0) : Type 0 where
  pub indegree : StringMap ℤ
  pub ready : List T
  pub dirty : Bool

pub record Walk (T : Type 0) : Type 0 where
  pub indegree : StringMap ℤ
  pub ready : List T
  pub done : List T

module _ {T : Type 0} where
  unfoldable pub push_ready : Option T → Bool → StringMap ℤ → Pass T → Pass T
  push_ready (some node) true indegree pass = record {
    indegree = indegree;
    ready = pass.ready ++ node ∷ [];
    dirty = true;
  }
  push_ready _ _ indegree pass = record {
    indegree = indegree;
    ready = pass.ready;
    dirty = pass.dirty;
  }

  unfoldable pub release : StringMap T → JsString → Pass T → Pass T
  unfolding push_ready remaining is_zero lookup insert
  release by_id id pass =
      let left = remaining id pass.indegree in
      push_ready (lookup id by_id) (is_zero left) (insert id left pass.indegree) pass

  unfoldable pub release_each : StringMap T → List JsString → Pass T → Pass T
  unfolding release
  release_each by_id [] pass = pass
  release_each by_id (id ∷ ids) pass = release_each by_id ids (release by_id id pass)

module _ {T : Type 0} (id_of : T → JsString) (dependencies_of : T → List JsString) where
  unfoldable pub nodes_by_id : List T → StringMap T
  unfolding from_entries
  nodes_by_id nodes = from_entries (map (λ node. (id_of node, node)) nodes) []

  -- The dependencies that are nodes of the graph
  unfoldable pub inner_dependencies : StringMap T → T → List JsString
  inner_dependencies by_id node = filter (λ d. has_key d by_id) (dependencies_of node)

  unfoldable pub count_node : StringMap T → T → Counts → Counts
  unfolding add_dependents insert inner_dependencies
  count_node by_id node counts =
      let deps = inner_dependencies by_id node in
      record {
        indegree = insert (id_of node) (pos (length deps)) counts.indegree;
        dependents = add_dependents (id_of node) deps counts.dependents;
      }

  unfoldable pub count_nodes : StringMap T → List T → Counts → Counts
  unfolding count_node
  count_nodes by_id [] counts = counts
  count_nodes by_id (node ∷ nodes) counts = count_nodes by_id nodes (count_node by_id node counts)

  unfoldable pub is_ready : StringMap ℤ → T → Bool
  unfolding lookup is_zero
  is_ready indegree node = is_zero (get_or (lookup (id_of node) indegree) (negsuc 0))

  module _ (compare_nodes : T → T → Ordering) where
    unfoldable pub sort_if : Bool → List T → List T
    unfolding sort_by
    sort_if dirty nodes = if dirty then sort_by compare_nodes nodes else nodes

    unfoldable pub round :
        StringMap T → StringMap (List JsString) → StringMap ℤ → T → List T → List T → Walk T
    unfolding release_each sort_if lookup
    round by_id dependents indegree node ready done =
        let pass =
          release_each by_id (get_or (lookup (id_of node) dependents) [])
            (record { indegree = indegree; ready = ready; dirty = false }) in
        record {
          indegree = pass.indegree;
          ready = sort_if pass.dirty pass.ready;
          done = done ++ node ∷ [];
        }

    -- `while (ready.length > 0)`, in at most the given rounds
    unfoldable pub rounds : StringMap T → StringMap (List JsString) → ℕ → Walk T → Walk T
    unfolding round
    rounds by_id dependents zero walk = walk
    rounds by_id dependents (suc fuel) walk = elim walk.ready [
      | [] ↦ walk
      | node ∷ ready ↦
          rounds by_id dependents fuel (round by_id dependents walk.indegree node ready walk.done)
    ]

    unfoldable pub start : List T → Walk T
    unfolding nodes_by_id count_nodes is_ready sort_by
    start nodes =
        let counts =
          count_nodes (nodes_by_id nodes) nodes (record { indegree = []; dependents = [] }) in
        record {
          indegree = counts.indegree;
          ready = sort_by compare_nodes (filter (λ node. is_ready counts.indegree node) nodes);
          done = [];
        }

    -- The loop, in a round for each node that is ready or waits: each round takes one that is ready,
    -- and what it pushes waits no longer.
    unfoldable pub walk_all : List T → Walk T
    unfolding start rounds waiting
    walk_all nodes =
        let walk = start nodes in
        let by_id = nodes_by_id nodes in
        let counts = count_nodes by_id nodes (record { indegree = []; dependents = [] }) in
        rounds by_id counts.dependents (length walk.ready + waiting walk.indegree) walk

    unfoldable pub topological_order : List T → Order T
    unfolding walk_all
    topological_order nodes =
        let done = (walk_all nodes).done in
        if length done == length nodes then ordered done else cyclic
