-- ===== src/Plan/Graph/Examples.antt =====
-- Orders of small graphs, and the theorem there. A node is the pair of its id and its dependencies.
use desired_state_protocol.Common.{
  List, [], ◌∷◌, JsString, js, Ordering, compare_units, str_eq, ◌≡◌, refl,
}
use desired_state_protocol.Plan.Graph.{ordered, cyclic, walk_all, topological_order}
use desired_state_protocol.Plan.Graph.Rounds.{walk_all-ready}

abbrev Node : Type 0
Node = JsString × List JsString

abbrev id_of : Node → JsString
id_of node = node.0

abbrev dependencies_of : Node → List JsString
dependencies_of node = node.1

abbrev by_id : Node → Node → Ordering
by_id a b = compare_units a.0 b.0

abbrev app : Node
app = (js "app", js "table" ∷ js "user" ∷ js "outside" ∷ [])

abbrev table : Node
table = (js "table", js "user" ∷ [])

abbrev user : Node
user = (js "user", [])

abbrev loop : Node
loop = (js "loop", js "loop" ∷ [])

orders :
    (topological_order id_of dependencies_of by_id (app ∷ table ∷ user ∷ [])
      ≡ ordered (user ∷ table ∷ app ∷ []))
    × (topological_order id_of dependencies_of by_id (user ∷ loop ∷ []) ≡ cyclic)
unfolding topological_order compare_units str_eq
orders = (refl, refl)

walk_all-ready_example : (walk_all id_of dependencies_of by_id (app ∷ loop ∷ user ∷ [])).ready ≡ []
walk_all-ready_example = walk_all-ready id_of dependencies_of by_id (app ∷ loop ∷ user ∷ [])
