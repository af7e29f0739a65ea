-- ===== src/Tests/Workflow.antt =====
-- internal/engine/workflow.go at the chain of three nodes.
use voce.Prelude.{
  any, ℕ, zero, suc, ◌+◌, ◌≤◌, ◌≡◌, refl, Bool, true, false, not, ◌==◌, some, List, [], ◌∷◌, ◌++◌,
  map, length, any, occurs, String,
}
use voce.Prelude.Int.{ℤ}
use voce.Engine.Config.{EventType, EdgeConfig}
use voce.Engine.Node.{BaseNode, new_base_node, add_next_node, add_next_port_node}
use voce.Engine.Node.Routes.{IsRouted, new_base_node-IsRouted}
use voce.Engine.Workflow.{
  State, WorkflowError, Workflow, Call, start_nodes, start_workflow, indices,
}
use voce.Engine.Workflow.Lifecycle.{
  Op, stop, resume, egress, read, run, start_workflow_rollback, run_stopped, is_end,
  start_failed_leaks,
}
use voce.Engine.Workflow.Egress.{written, delivered, held, run_accounts}
use voce.Engine.Workflow.Wiring.{node_at}
use voce.Tests.Graph.{chain, edge}

abbrev three_nodes : List BaseNode
three_nodes = new_base_node "in" ∷ new_base_node "mid" ∷ new_base_node "out" ∷ []

abbrev three_index : List (String × ℕ)
three_index = ("in", 0) ∷ ("mid", 1) ∷ ("out", 2) ∷ []

-- A pending workflow of the three nodes.
abbrev pub pending : Workflow
pending = record {
  config = chain;
  nodes = three_nodes;
  index_map = three_index;
  name_map = three_index;
  state = State.pending;
  workers = some 1;
  cancelled = false;
  output = [];
  output_closed = false;
  released = [];
}

-- It runs, and two packets wait.
abbrev busy : Workflow
busy = record pending { state = State.running; output = 5 ∷ 6 ∷ []; released = 4 ∷ [] }

abbrev last_fails : ℕ → Bool
last_fails n = not (n == 2)

start_workflow_rollback_example : start_workflow last_fails pending ≡ (
  record pending { state = State.stopped },
  map Call.start (0 ∷ 1 ∷ []) ++ (Call.start 2 ∷ map Call.stop (1 ∷ 0 ∷ [])),
  some WorkflowError.node_start_failed,
)
unfolding indices
start_workflow_rollback_example =
    start_workflow_rollback last_fails pending (0 ∷ 1 ∷ []) [] 2 refl refl (refl, (refl, tt)) refl

abbrev over : Workflow
over = record busy { state = State.stopped; cancelled = true; output = []; output_closed = true }

abbrev some_ops : List Op
some_ops = egress false 7 ∷ read ∷ egress false 8 ∷ stop ∷ resume ∷ []

run_stopped_example :
    ((run over some_ops).0.state ≡ State.stopped)
    × ((run over some_ops).1 ≡ [])
    × (length (run over some_ops).0.output ≤ 0)
    × ((run over some_ops).0.cancelled ≡ true)
run_stopped_example = run_stopped over some_ops refl

last_start_fails : (start_workflow last_fails pending).2 ≡ some WorkflowError.node_start_failed
unfolding start_workflow start_nodes indices
last_start_fails = refl

start_failed_leaks_example :
    (any is_end (start_workflow last_fails pending).1 ≡ false)
    × ((run (start_workflow last_fails pending).0 some_ops).0.cancelled ≡ false)
    × (any is_end (run (start_workflow last_fails pending).0 some_ops).1 ≡ false)
start_failed_leaks_example =
    start_failed_leaks last_fails pending some_ops refl refl last_start_fails

run_accounts_example :
    held (run busy some_ops).0 6 + occurs 6 (delivered busy some_ops)
    ≡ held busy 6 + occurs 6 (written some_ops)
run_accounts_example = run_accounts busy some_ops 6

abbrev port_edge : EdgeConfig
port_edge = record { source = "in"; source_port = ℤ.pos 3; target = "out"; type = EventType.signal }

abbrev two_edges : List EdgeConfig
two_edges = edge "in" "mid" ∷ port_edge ∷ []

abbrev wired_in : BaseNode
wired_in =
    add_next_port_node EventType.signal 2 (ℤ.pos 3)
      (add_next_node EventType.payload 1 (new_base_node "in"))

abbrev three_wired : List BaseNode
three_wired = wired_in ∷ new_base_node "mid" ∷ new_base_node "out" ∷ []

three_IsRouted : (i : ℕ) → IsRouted (node_at three_nodes i)
three_IsRouted zero = new_base_node-IsRouted "in"
three_IsRouted (suc zero) = new_base_node-IsRouted "mid"
three_IsRouted (suc (suc zero)) = new_base_node-IsRouted "out"
three_IsRouted (suc (suc (suc i))) = new_base_node-IsRouted ""
