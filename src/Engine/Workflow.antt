-- ===== src/Engine/Workflow.antt =====
-- internal/engine/workflow.go: the runtime instance of a graph. A method returns the new workflow, the
-- calls that it makes on its nodes, in order, and its error. What the plugins do is a parameter:
-- `build_ok` whether a builder builds, `starts` whether a node's Start succeeds. A packet is the
-- number of its object; `released` are those that went back to the pool.
pub mod Wiring
pub mod Lifecycle
pub mod Egress
use voce.Prelude.{
  ℕ, suc, ◌+◌, ◌/◌, Bool, true, false, not, ◌&&◌, ◌||◌, ◌==◌, ltb, if◌then◌else◌, str_eq, Option,
  none, some, List, [], ◌∷◌, ◌++◌, length, get_or, set, is_some, map, String,
}
use voce.Prelude.Int.{ℤ}
use voce.Prelude.Maps.{lookup, insert}
use voce.Prelude.Results.{Result, ok, err, ◌>>=◌, ◌>>◌, fail_if, or_fail}
use voce.Engine.Config.{SchedulerMode, NodeConfig, EdgeConfig, WorkflowConfig, Builder}
use voce.Engine.Graph.{Graph}
use voce.Engine.Node.{BaseNode, new_base_node, add_next_node, add_next_port_node}

pub data State : Type 0 where
  pending starting running paused stopped : State

pub data WorkflowError : Type 0 where
  duplicate_id duplicate_name builder_missing build_failed : WorkflowError
  source_not_found target_not_found : WorkflowError
  not_startable node_start_failed not_pausable not_resumable : WorkflowError
  not_running no_head node_not_found : WorkflowError

pub record Workflow : Type 0 where
  pub config : WorkflowConfig
  pub nodes : List BaseNode
  pub index_map : List (String × ℕ)
  pub name_map : List (String × ℕ)
  pub state : State
  pub workers : Option ℕ  -- the scheduler's, in worker-pool mode
  pub cancelled : Bool  -- whether its own cancel was called
  pub output : List ℕ
  pub output_closed : Bool
  pub released : List ℕ

abbrev pub output_buffer_size : ℕ
output_buffer_size = 1024

-- The number of workers that NewWorkflow asks of NewScheduler.
unfoldable pub worker_count : WorkflowConfig → ℕ → ℕ
worker_count config node_count =
    let workers = config.scheduler_workers in
    if ltb workers 1 || ltb node_count workers then (node_count + 3) / 4 else workers

-- NewScheduler corrects a count of zero.
unfoldable pub scheduler_workers : ℕ → ℕ
scheduler_workers n = if ltb n 1 then 1 else n

abbrev pub Tables : Type 0
Tables = List BaseNode × List (String × ℕ) × List (String × ℕ)

-- The loop of initNodes from node `i` on.
unfoldable pub init_nodes :
    (NodeConfig → Bool)
    → List (String × Builder)
    → ℕ
    → List NodeConfig
    → Tables
    → Result WorkflowError Tables
init_nodes build_ok builders i [] t = ok t
init_nodes build_ok builders i (n ∷ ns) (nodes, index_map, name_map) = do
  fail_if (is_some (lookup n.id index_map)) WorkflowError.duplicate_id
  fail_if (is_some (lookup n.name name_map)) WorkflowError.duplicate_name
  fail_if (not (is_some (lookup n.id builders))) WorkflowError.builder_missing
  fail_if (not (build_ok n)) WorkflowError.build_failed
  init_nodes build_ok builders (suc i) ns
      (nodes ++ (new_base_node n.name ∷ []), insert n.id i index_map, insert n.name i name_map)

abbrev port_zero : ℤ → Bool
port_zero (ℤ.pos n) = n == 0
port_zero (ℤ.negsuc n) = false

-- One round of wireNodes: edge by edge, the target joins the source's routes.
unfoldable pub wire_edge : EdgeConfig → ℕ → ℕ → List BaseNode → List BaseNode
wire_edge e from to nodes =
    let b = get_or nodes from (new_base_node "") in
    set nodes from (
      if port_zero e.source_port
      then add_next_node e.type to b
      else add_next_port_node e.type to e.source_port b)

unfoldable pub wire_nodes :
    List (String × ℕ) → List EdgeConfig → List BaseNode → Result WorkflowError (List BaseNode)
wire_nodes index_map [] nodes = ok nodes
wire_nodes index_map (e ∷ es) nodes = do
  from ← or_fail (lookup e.source index_map) WorkflowError.source_not_found
  to ← or_fail (lookup e.target index_map) WorkflowError.target_not_found
  wire_nodes index_map es (wire_edge e from to nodes)

abbrev pool_workers : SchedulerMode → ℕ → Option ℕ
pool_workers SchedulerMode.worker_pool n = some n
pool_workers SchedulerMode.thread_per_node n = none

unfoldable pub new_workflow :
    (NodeConfig → Bool) → Graph → List (String × Builder) → Result WorkflowError Workflow
unfolding worker_count scheduler_workers
new_workflow build_ok graph builders = do
  (nodes, index_map, name_map) ← init_nodes build_ok builders 0 graph.ordered_nodes ([], [], [])
  wired ← wire_nodes index_map graph.config.edges nodes
  ok (record {
    config = graph.config;
    nodes = wired;
    index_map = index_map;
    name_map = name_map;
    state = State.pending;
    workers =
        pool_workers graph.config.scheduler_mode
          (scheduler_workers (worker_count graph.config (length graph.ordered_nodes)));
    cancelled = false;
    output = [];
    output_closed = false;
    released = [];
  })

-- The calls that the workflow makes on its nodes and on its scheduler.
pub data Call : Type 0 where
  start ready stop pause resume : ℕ → Call
  input : ℕ → ℕ → Call  -- of a node and a value
  retain release : ℕ → Call  -- of a counted value
  stop_scheduler : Call

abbrev pub Outcome : Type 0
Outcome = Workflow × List Call × Option WorkflowError

-- The nodes' indices from `i` on.
unfoldable pub indices : ℕ → List BaseNode → List ℕ
indices i [] = []
indices i (b ∷ bs) = i ∷ indices (suc i) bs

abbrev pub all_nodes : Workflow → List ℕ
all_nodes w = indices 0 w.nodes

-- The loop of Start, which stops the started ones from the last to the first when a start fails.
-- `started` holds them in that order. The second part tells whether all have started.
unfoldable pub start_nodes : (ℕ → Bool) → List ℕ → List ℕ → List Call × Bool
start_nodes starts started [] = ([], true)
start_nodes starts started (n ∷ ns) =
    let (calls, all) = start_nodes starts (n ∷ started) ns in
    if starts n then (Call.start n ∷ calls, all) else (Call.start n ∷ map Call.stop started, false)

unfoldable pub start_workflow : (ℕ → Bool) → Workflow → Outcome
start_workflow starts w = elim w.state [
  | State.pending ↦
      let (calls, all) = start_nodes starts [] (all_nodes w) in
      if all
      then (record w { state = State.running }, calls ++ map Call.ready (all_nodes w), none)
      else (record w { state = State.stopped }, calls, some WorkflowError.node_start_failed)
  | _ ↦ (w, [], some WorkflowError.not_startable)
]

-- scheduler.Stop, where there is a scheduler.
abbrev pub stop_workers : Option ℕ → List Call
stop_workers none = []
stop_workers (some _) = Call.stop_scheduler ∷ []

unfoldable pub stop_workflow : Workflow → Outcome
stop_workflow w = elim w.state [
  | State.stopped ↦ (w, [], none)
  | _ ↦ (
    record w {
      state = State.stopped;
      cancelled = true;
      output = [];
      output_closed = true;
      released = w.output ++ w.released;
    },
    stop_workers w.workers ++ map Call.stop (all_nodes w),
    none,
  )
]

unfoldable pub pause_workflow : Workflow → Outcome
pause_workflow w = elim w.state [
  | State.running ↦ (record w { state = State.paused }, map Call.pause (all_nodes w), none)
  | _ ↦ (w, [], some WorkflowError.not_pausable)
]

unfoldable pub resume_workflow : Workflow → Outcome
resume_workflow w = elim w.state [
  | State.paused ↦ (record w { state = State.running }, map Call.resume (all_nodes w), none)
  | _ ↦ (w, [], some WorkflowError.not_resumable)
]

abbrev pub is_running : State → Bool
is_running State.running = true
is_running _ = false

-- Under ensureRunning.
abbrev when_running : Workflow → List Call × Option WorkflowError → Outcome
when_running w (calls, e) =
    if is_running w.state then (w, calls, e) else (w, [], some WorkflowError.not_running)

abbrev deliver : Option ℕ → ℕ → List Call × Option WorkflowError
deliver none item = ([], some WorkflowError.node_not_found)
deliver (some i) item = (Call.input i item ∷ [], none)

unfoldable pub send_to_node : Workflow → String → ℕ → Outcome
send_to_node w id item = when_running w (deliver (lookup id w.index_map) item)

unfoldable pub send_to_node_with_name : Workflow → String → ℕ → Outcome
send_to_node_with_name w name item = when_running w (deliver (lookup name w.name_map) item)

unfoldable pub send_to_head : Workflow → ℕ → Outcome
send_to_head w item = when_running w (
    if str_eq w.config.head ""
    then ([], some WorkflowError.no_head)
    else deliver (lookup w.config.head w.index_map) item)

unfoldable pub give_each : Bool → ℕ → List ℕ → List Call
give_each counted item [] = if counted then Call.release item ∷ [] else []
give_each counted item (n ∷ ns) =
    let others = give_each counted item ns in
    if counted then Call.retain item ∷ Call.input n item ∷ others else Call.input n item ∷ others

-- `counted` is whether the item is RefCountable.
unfoldable pub broadcast : Workflow → Bool → ℕ → Outcome
unfolding give_each
broadcast w counted item = when_running w (give_each counted item (all_nodes w), none)

-- Write, called by a node. The buffer takes a packet or drops it; a send on the closed channel panics
-- and is recovered, so the packet is released too. `over` is whether the select, where both cases
-- are ready, sees the context's end first.
unfoldable pub write : Bool → Workflow → ℕ → Workflow
write over w packet =
    let drop = record w { released = packet ∷ w.released } in
    if not (is_running w.state) || w.cancelled
    then drop
    else if over || w.output_closed
    then drop
    else if ltb (length w.output) output_buffer_size
    then record w { output = w.output ++ (packet ∷ []) }
    else drop

-- The reader of Output takes the oldest packet.
unfoldable pub read_output : Workflow → Workflow × Option ℕ
read_output w = elim w.output [ [] ↦ (w, none) | p ∷ ps ↦ (record w { output = ps }, some p) ]
