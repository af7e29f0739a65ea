-- ===== src/Engine/Workflow/Egress.antt =====
-- internal/engine/workflow.go: what becomes of the packets that the plugins publish.
use voce.Prelude.{
  ℕ, ◌+◌, ◌≤◌, ◌≡◌, ◌≢◌, Bool, true, ◌==◌, if◌then◌else◌, Option, none, some, List, [], ◌∷◌, ◌++◌,
  arith, length, length-append, occurs, occurs-append, list-cases, inl, inr,
}
use voce.Engine.Workflow.{
  State, Workflow, output_buffer_size, start_workflow, stop_workflow, pause_workflow,
  resume_workflow, send_to_node, send_to_node_with_name, send_to_head, broadcast, write,
  read_output,
}
use voce.Engine.Workflow.Lifecycle.{
  Op, start, stop, pause, resume, to_node, to_name, to_head, to_all, egress, read, step, run,
}

-- The packets that the plugins write in the course of the operations.
abbrev pub written : List Op → List ℕ
written [] = []
written (egress over packet ∷ ops) = packet ∷ written ops
written (_ ∷ ops) = written ops

abbrev first_of : Option ℕ → List ℕ
first_of none = []
first_of (some p) = p ∷ []

abbrev taken : Workflow → Op → List ℕ
taken w read = first_of (read_output w).1
taken w _ = []

-- The packets that the reader of the output gets.
unfoldable pub delivered : Workflow → List Op → List ℕ
delivered w [] = []
delivered w (op ∷ ops) = taken w op ++ delivered (step w op).0 ops

-- The packets waiting in the output and those given back to the pool.
abbrev pub held : Workflow → ℕ → ℕ
held w p = occurs p w.output + occurs p w.released

write_accounts :
    (over : Bool) (w : Workflow) (q p : ℕ)
    → held (write over w q) p ≡ held w p + (if q == p then 1 else 0)
unfolding write
write_accounts over w q p = ground (arith, occurs-append p w.output (q ∷ []))

step_accounts :
    (w : Workflow) (op : Op) (p : ℕ)
    → held (step w op).0 p + occurs p (taken w op) ≡ held w p + occurs p (written (op ∷ []))
unfolding step start_workflow stop_workflow pause_workflow resume_workflow send_to_node
    send_to_node_with_name send_to_head broadcast read_output
step_accounts w (start s) p = ground arith
step_accounts w stop p = ground (arith, occurs-append p w.output w.released)
step_accounts w pause p = ground arith
step_accounts w resume p = ground arith
step_accounts w (to_node id item) p = ground arith
step_accounts w (to_name name item) p = ground arith
step_accounts w (to_head item) p = ground arith
step_accounts w (to_all counted item) p = ground arith
step_accounts w (egress over q) p = omega (arith, write_accounts over w q p)
step_accounts w read p = elim (list-cases w.output) [
  | inl e ↦ ground (arith, e)
  | inr (q, qs, e) ↦ ground (arith, e)
]

occurs-written :
    (p : ℕ) (op : Op) (ops : List Op)
    → occurs p (written (op ∷ ops)) ≡ occurs p (written (op ∷ [])) + occurs p (written ops)
occurs-written p (egress over q) ops = omega arith
occurs-written p read ops = omega arith
occurs-written p _ ops = omega arith

-- Over any operations, each packet that is written is delivered, still waits in the output, or has
-- been given back to the pool, as often as it was written: none is lost and none is released twice.
pub run_accounts :
    (w : Workflow) (ops : List Op) (p : ℕ)
    → held (run w ops).0 p + occurs p (delivered w ops) ≡ held w p + occurs p (written ops)
unfolding run delivered
run_accounts w [] p = omega arith
run_accounts w (op ∷ ops) p = omega (
  arith,
  run_accounts (step w op).0 ops p,
  step_accounts w op p,
  occurs-written p op ops,
  occurs-append p (taken w op) (delivered (step w op).0 ops),
)

step_bounded :
    (w : Workflow) (op : Op)
    → length w.output ≤ output_buffer_size
    → length (step w op).0.output ≤ output_buffer_size
unfolding step start_workflow stop_workflow pause_workflow resume_workflow send_to_node
    send_to_node_with_name send_to_head broadcast write read_output
step_bounded w (start s) h = ground arith
step_bounded w stop h = ground arith
step_bounded w pause h = ground arith
step_bounded w resume h = ground arith
step_bounded w (to_node id item) h = ground arith
step_bounded w (to_name name item) h = ground arith
step_bounded w (to_head item) h = ground arith
step_bounded w (to_all counted item) h = ground arith
step_bounded w (egress over q) h = ground (arith, length-append w.output (q ∷ []))
step_bounded w read h = ground arith

-- From an output within its buffer on, over any operations, it never holds more packets than the
-- buffer has room for.
pub run_bounded :
    (w : Workflow) (ops : List Op)
    → length w.output ≤ output_buffer_size
    → length (run w ops).0.output ≤ output_buffer_size
unfolding run
run_bounded w [] h = h
run_bounded w (op ∷ ops) h = run_bounded (step w op).0 ops (step_bounded w op h)

-- Stopping a workflow that is not stopped gives every waiting packet back, closes the output and
-- ends the context.
pub stop_workflow_releases :
    (w : Workflow) (p : ℕ)
    → w.state ≢ State.stopped
    → let w' = (stop_workflow w).0 in
      (w'.output ≡ [])
      × (w'.output_closed ≡ true)
      × (w'.cancelled ≡ true)
      × (occurs p w'.released ≡ held w p)
unfolding stop_workflow
stop_workflow_releases w p h = ground (arith, occurs-append p w.output w.released)
