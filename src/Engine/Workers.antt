-- ===== src/Engine/Workers.antt =====
-- internal/engine/scheduler.go and node_scheduler.go: nodes that share the workers of a scheduler. A node
-- is a number, as is a value; the hash of a name is a parameter. A worker's tasks wait in two queues, and
-- `none` is a sender that waits for room, or a choice of the worker's select that is not ready.
pub mod Tasks
use voce.Prelude.{
  ℕ, ◌%◌, String, Bool, true, false, not, ◌&&◌, ◌||◌, ◌==◌, leb, ltb, if◌then◌else◌, Option, none,
  some, List, [], ◌∷◌, ◌++◌, length,
}
use voce.Engine.Loop.{Kind, ControlType}

pub data Task : Type 0 where
  event : ℕ → Kind → ℕ → Task
  control : ℕ → ControlType → Task

pub record Worker : Type 0 where
  pub queue_size : ℕ
  pub cancelled : Bool
  pub high : List Task
  pub normal : List Task

-- NewScheduler's numbers of workers and of places in a queue.
unfoldable pub queue_places : ℕ → ℕ
queue_places n = if n == 0 then 100 else n

unfoldable pub new_worker : ℕ → Worker
new_worker queue_size = record {
  queue_size = queue_size;
  cancelled = false;
  high = [];
  normal = [];
}

-- The worker of a node, where there are so many.
unfoldable pub select_worker : (String → ℕ) → ℕ → String → ℕ
select_worker hash workers name = hash name % workers

-- What a worker does: it calls a node, or gives a value back.
pub data Deed : Type 0 where
  call_event : ℕ → Kind → Bool → ℕ → Deed
  call_control : ℕ → ControlType → Deed
  give_back : Kind → ℕ → Deed

abbrev pub dropped : Kind → ℕ → List Deed
dropped Kind.audio v = Deed.give_back Kind.audio v ∷ []
dropped Kind.video v = Deed.give_back Kind.video v ∷ []
dropped _ v = []

-- SubmitToWorker; a value that a cancelled context keeps out is lost, and given back if it is counted.
unfoldable pub submit : ℕ → Kind → ℕ → Worker → Option (Worker × List Deed)
submit node Kind.signal v w =
    if w.cancelled
    then some (w, [])
    else if ltb (length w.high) w.queue_size
    then some (record w { high = w.high ++ (Task.event node Kind.signal v ∷ []) }, [])
    else none
submit node Kind.payload v w =
    if w.cancelled
    then some (w, [])
    else if ltb (length w.normal) w.queue_size
    then some (record w { normal = w.normal ++ (Task.event node Kind.payload v ∷ []) }, [])
    else none
submit node k v w = some (
    if w.cancelled || not (ltb (length w.normal) w.queue_size)
    then (w, dropped k v)
    else (record w { normal = w.normal ++ (Task.event node k v ∷ []) }, []))

unfoldable pub submit_control : ℕ → ControlType → Worker → Option Worker
submit_control node c w =
    if w.cancelled
    then some w
    else if ltb (length w.high) w.queue_size
    then some (record w { high = w.high ++ (Task.control node c ∷ []) })
    else none

-- Signals and payloads have a deadline.
abbrev pub has_deadline : Kind → Bool
has_deadline Kind.signal = true
has_deadline Kind.payload = true
has_deadline _ = false

-- execute, with the release at the end of processEvent.
unfoldable pub execute : Task → List Deed
execute (Task.control node c) = Deed.call_control node c ∷ []
execute (Task.event node k v) = Deed.call_event node k (has_deadline k) v ∷ dropped k v

abbrev pub given_up : List Task → List Deed
given_up [] = []
given_up (Task.control node c ∷ ts) = given_up ts
given_up (Task.event node k v ∷ ts) = dropped k v ++ given_up ts

-- The end of readLoop, with drain.
unfoldable pub leave_worker : Worker → Worker × List Deed
leave_worker w = (record w { high = []; normal = [] }, given_up w.high ++ given_up w.normal)

-- A turn of the worker's readLoop, which takes from the first or the second queue.
unfoldable pub work : Bool → Worker → Option (Worker × List Deed)
unfolding execute leave_worker
work first w =
    if w.cancelled
    then some (leave_worker w)
    else if first
    then elim w.high [ [] ↦ none | t ∷ ts ↦ some (record w { high = ts }, execute t) ]
    else elim w.normal [
      | [] ↦ none
      | t ∷ ts ↦ if length w.high == 0 then some (record w { normal = ts }, execute t) else none
    ]

-- schedulerNode: Stop tells whether it calls the plugin's OnStop.
unfoldable pub stop_scheduled : Bool → Bool × Bool
stop_scheduled running = (false, running)

-- schedulerNode's Input, for a node that runs or not in a context that is cancelled or not.
unfoldable pub input_scheduled : Bool → Bool → ℕ → Kind → ℕ → Worker → Option (Worker × List Deed)
input_scheduled running cancelled node k v w =
    if cancelled || not running then some (w, dropped k v) else submit node k v w
