-- ===== src/Engine/Workflow/Lifecycle.antt =====
-- internal/engine/workflow.go: starting with rollback, the states, and what a stopped workflow does.
use voce.Prelude.{
  ℕ, ◌≡◌, refl, ap, ◌∙◌, ◌⊎◌, inl, inr, Bool, true, false, none, some, List, [], ◌∷◌, ◌++◌, map,
  any, arith, All, ◌<◌, ◌≤◌, length, String,
}
use mathlib.Core.List.{append_assoc, reverse, reverse-cons, append-nil}
use voce.Engine.Workflow.{
  State, WorkflowError, Workflow, Call, all_nodes, start_nodes, start_workflow, stop_workflow,
  pause_workflow, resume_workflow, send_to_node, send_to_node_with_name, send_to_head, broadcast,
  write, read_output, worker_count, scheduler_workers,
}
use voce.Engine.Config.{WorkflowConfig}

start_nodes-All :
    (starts : ℕ → Bool) (started ns : List ℕ)
    → All (λ n. starts n ≡ true) ns
    → start_nodes starts started ns ≡ (map Call.start ns, true)
unfolding start_nodes
start_nodes-All starts started [] all = refl
start_nodes-All starts started (n ∷ ns) all =
    ground (arith, all.0, start_nodes-All starts (n ∷ started) ns all.1)

start_nodes_failed :
    (starts : ℕ → Bool) (started xs ys : List ℕ) (n : ℕ)
    → All (λ m. starts m ≡ true) xs
    → starts n ≡ false
    → start_nodes starts started (xs ++ (n ∷ ys))
      ≡ (map Call.start xs ++ (Call.start n ∷ map Call.stop (reverse xs ++ started)), false)
unfolding start_nodes
start_nodes_failed starts started [] ys n all failed = ground (arith, failed)
start_nodes_failed starts started (x ∷ xs) ys n all failed =
    let back : reverse (x ∷ xs) ++ started ≡ reverse xs ++ (x ∷ started) =
      ap (λ l. l ++ started) (reverse-cons x xs) ∙ append_assoc (reverse xs) (x ∷ []) started in
    rw back (ground (arith, all.0, start_nodes_failed starts (x ∷ started) xs ys n all.1 failed))

-- A pending workflow whose nodes all start runs: each node is started, in the graph's order, and only
-- then is each told that all are ready.
pub start_workflow-All :
    (starts : ℕ → Bool) (w : Workflow)
    → w.state ≡ State.pending
    → All (λ n. starts n ≡ true) (all_nodes w)
    → start_workflow starts w ≡ (
      record w { state = State.running },
      map Call.start (all_nodes w) ++ map Call.ready (all_nodes w),
      none,
    )
unfolding start_workflow
start_workflow-All starts w fresh all =
    ground (arith, fresh, start_nodes-All starts [] (all_nodes w) all)

-- When a node of a pending workflow fails to start, the ones before it are stopped from the last
-- to the first, none is told that it is ready, the nodes after it are not touched, and the
-- workflow is stopped with an error.
pub start_workflow_rollback :
    (starts : ℕ → Bool) (w : Workflow) (xs ys : List ℕ) (n : ℕ)
    → w.state ≡ State.pending
    → all_nodes w ≡ xs ++ (n ∷ ys)
    → All (λ m. starts m ≡ true) xs
    → starts n ≡ false
    → start_workflow starts w ≡ (
      record w { state = State.stopped },
      map Call.start xs ++ (Call.start n ∷ map Call.stop (reverse xs)),
      some WorkflowError.node_start_failed,
    )
unfolding start_workflow
start_workflow_rollback starts w xs ys n fresh nodes all failed =
    let rolled = start_nodes_failed starts [] xs ys n all failed in
    ground (arith, fresh, nodes, rolled, append-nil (reverse xs))

-- What a client or a node may do with a workflow.
pub data Op : Type 0 where
  start : (ℕ → Bool) → Op
  stop pause resume : Op
  to_node : String → ℕ → Op
  to_name : String → ℕ → Op
  to_head : ℕ → Op
  to_all : Bool → ℕ → Op
  egress : Bool → ℕ → Op
  read : Op

unfoldable pub step : Workflow → Op → Workflow × List Call
step w (start starts) = let (w', calls, _) = start_workflow starts w in (w', calls)
step w stop = let (w', calls, _) = stop_workflow w in (w', calls)
step w pause = let (w', calls, _) = pause_workflow w in (w', calls)
step w resume = let (w', calls, _) = resume_workflow w in (w', calls)
step w (to_node id item) = let (w', calls, _) = send_to_node w id item in (w', calls)
step w (to_name name item) = let (w', calls, _) = send_to_node_with_name w name item in (w', calls)
step w (to_head item) = let (w', calls, _) = send_to_head w item in (w', calls)
step w (to_all counted item) = let (w', calls, _) = broadcast w counted item in (w', calls)
step w (egress over packet) = (write over w packet, [])
step w read = ((read_output w).0, [])

unfoldable pub run : Workflow → List Op → Workflow × List Call
run w [] = (w, [])
run w (op ∷ ops) =
    let (w', calls) = step w op in let (w'', more) = run w' ops in (w'', calls ++ more)

-- The transitions of the state diagram.
pub data Edge : State → State → Type 0 where
  begins : Edge State.pending State.running
  fails : Edge State.pending State.stopped
  pauses : Edge State.running State.paused
  resumes : Edge State.paused State.running
  stops : (s : State) → Edge s State.stopped

abbrev allowed : State → State → Bool
allowed State.pending State.starting = false
allowed State.pending State.paused = false
allowed State.pending _ = true
allowed State.running State.pending = false
allowed State.running State.starting = false
allowed State.running _ = true
allowed State.paused State.pending = false
allowed State.paused State.starting = false
allowed State.paused _ = true
allowed State.starting State.starting = true
allowed _ State.stopped = true
allowed _ _ = false

allowed-Edge : (s t : State) → allowed s t ≡ true → (t ≡ s) ⊎ Edge s t
allowed-Edge State.pending State.pending h = inl refl
allowed-Edge State.pending State.running h = inr begins
allowed-Edge State.running State.running h = inl refl
allowed-Edge State.running State.paused h = inr pauses
allowed-Edge State.paused State.paused h = inl refl
allowed-Edge State.paused State.running h = inr resumes
allowed-Edge State.starting State.starting h = inl refl
allowed-Edge State.stopped State.stopped h = inl refl
allowed-Edge s State.stopped h = inr (stops s)
allowed-Edge _ _ h = absurd (cc h)

allowed-step : (w : Workflow) (op : Op) → allowed w.state (step w op).0.state ≡ true
unfolding step start_workflow stop_workflow pause_workflow resume_workflow send_to_node
    send_to_node_with_name send_to_head broadcast write read_output
allowed-step w (start s) = ground arith
allowed-step w stop = ground arith
allowed-step w pause = ground arith
allowed-step w resume = ground arith
allowed-step w (to_node id item) = ground arith
allowed-step w (to_name name item) = ground arith
allowed-step w (to_head item) = ground arith
allowed-step w (to_all counted item) = ground arith
allowed-step w (egress over packet) = ground arith
allowed-step w read = ground arith

-- Each operation leaves the state alone or follows an edge of the diagram; none leads out of stopped.
pub step-Edge :
    (w : Workflow) (op : Op) → ((step w op).0.state ≡ w.state) ⊎ Edge w.state (step w op).0.state
step-Edge w op = allowed-Edge w.state (step w op).0.state (allowed-step w op)

step_stopped :
    (w : Workflow) (op : Op)
    → w.state ≡ State.stopped
    → ((step w op).0.state ≡ State.stopped)
      × ((step w op).1 ≡ [])
      × (length (step w op).0.output ≤ length w.output)
      × ((step w op).0.cancelled ≡ w.cancelled)
unfolding step start_workflow stop_workflow pause_workflow resume_workflow send_to_node
    send_to_node_with_name send_to_head broadcast write read_output
step_stopped w (start s) h = ground arith
step_stopped w stop h = ground arith
step_stopped w pause h = ground arith
step_stopped w resume h = ground arith
step_stopped w (to_node id item) h = ground arith
step_stopped w (to_name name item) h = ground arith
step_stopped w (to_head item) h = ground arith
step_stopped w (to_all counted item) h = ground arith
step_stopped w (egress over packet) h = ground arith
step_stopped w read h = ground arith

-- A stopped workflow stays stopped under any further operations, calls none of its nodes and takes no
-- packet into its output, and its context is as it was.
pub run_stopped :
    (w : Workflow) (ops : List Op)
    → w.state ≡ State.stopped
    → ((run w ops).0.state ≡ State.stopped)
      × ((run w ops).1 ≡ [])
      × (length (run w ops).0.output ≤ length w.output)
      × ((run w ops).0.cancelled ≡ w.cancelled)
unfolding run
run_stopped w [] h = (h, refl, omega arith, refl)
run_stopped w (op ∷ ops) h =
    let (still, silent, less, same) = step_stopped w op h in
    let (stays, quiet, fewer, alike) = run_stopped (step w op).0 ops still in
    (stays, rw silent quiet, omega (arith, less, fewer), alike ∙ same)

-- Among the calls, scheduler.Stop.
abbrev pub is_end : Call → Bool
is_end Call.stop_scheduler = true
is_end _ = false

stops_no_end : (ns : List ℕ) → any is_end (map Call.stop ns) ≡ false
stops_no_end [] = refl
stops_no_end (n ∷ ns) = stops_no_end ns

starts_no_end :
    (starts : ℕ → Bool) (started ns : List ℕ) → any is_end (start_nodes starts started ns).0 ≡ false
unfolding start_nodes
starts_no_end starts started [] = refl
starts_no_end starts started (n ∷ ns) =
    ground (arith, starts_no_end starts (n ∷ started) ns, stops_no_end started)

-- A failed start of a pending workflow neither cancels its context nor stops its scheduler, and no
-- later operation on the workflow does, whatever it is: Stop returns at once, since the state is
-- stopped already.
pub start_failed_leaks :
    (starts : ℕ → Bool) (w : Workflow) (ops : List Op)
    → w.state ≡ State.pending
    → w.cancelled ≡ false
    → (start_workflow starts w).2 ≡ some WorkflowError.node_start_failed
    → (any is_end (start_workflow starts w).1 ≡ false)
      × ((run (start_workflow starts w).0 ops).0.cancelled ≡ false)
      × (any is_end (run (start_workflow starts w).0 ops).1 ≡ false)
unfolding start_workflow
start_failed_leaks starts w ops fresh alive failed =
    let w' = (start_workflow starts w).0 in
    let over : w'.state ≡ State.stopped = ground (arith, fresh, failed) in
    let open_still : w'.cancelled ≡ false = ground (arith, fresh, alive, failed) in
    let after = run_stopped w' ops over in
    (
      ground (arith, fresh, failed, starts_no_end starts [] (all_nodes w)),
      after.3 ∙ open_still,
      ap (any is_end) after.1,
    )

-- The number of workers is at least one and, for a graph with nodes, at most one for each node.
pub worker_bounds :
    (config : WorkflowConfig) (n : ℕ)
    → 0 < n
    → (0 < scheduler_workers (worker_count config n))
      × (scheduler_workers (worker_count config n) ≤ n)
unfolding worker_count scheduler_workers
worker_bounds config n h = ground arith
