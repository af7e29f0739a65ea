-- ===== src/Engine/Session.antt =====
-- internal/engine/session.go: the sessions of the engine. Time is the clock's reading in milliseconds.
pub mod Observers
pub mod Expiry
use voce.Prelude.{
  ℕ, suc, ◌+◌, ◌/◌, Bool, true, false, not, ltb, if◌then◌else◌, str_eq, Option, none, some, List,
  [], ◌∷◌, ◌++◌, length, map, String,
}
use voce.Prelude.Maps.{lookup, insert, erase}
use voce.Prelude.Results.{Result, ok, err, ◌>>=◌, ◌>>◌, fail_if, or_fail}
use voce.Engine.Config.{NodeConfig, WorkflowConfig, Builder}
use voce.Engine.Store.{StoreError, Resources, resolve_plugin_builders}
use voce.Engine.Graph.{Graph, GraphError, build_graph}
use voce.Engine.Workflow.{
  State, Workflow, WorkflowError, Call, new_workflow, start_workflow, stop_workflow,
}
use Observers.{Slots, new_slots, to_call}

pub record Session : Type 0 where
  pub key : String
  pub workflow : Workflow
  pub last_active : ℕ
  pub created_at : ℕ
  pub busy : Bool

-- The metric of active sessions goes up by `opened` and down by `closed`. `stopped` are the workflows
-- that the manager has stopped.
pub record SessionManager : Type 0 where
  pub sessions : List (String × Session)
  pub timeout : ℕ
  pub on_created : Slots
  pub on_deleted : Slots
  pub cancelled : Bool
  pub opened : ℕ
  pub closed : ℕ
  pub stopped : List Workflow

unfoldable pub new_session_manager : ℕ → SessionManager
new_session_manager timeout = record {
  sessions = [];
  timeout = timeout;
  on_created = new_slots;
  on_deleted = new_slots;
  cancelled = false;
  opened = 0;
  closed = 0;
  stopped = [];
}

pub data SessionError : Type 0 where
  config_not_found : SessionError
  in_store : StoreError → SessionError
  in_graph : GraphError → SessionError
  in_workflow : WorkflowError → SessionError

-- What an observer is told: its number and the session's key.
abbrev pub Notice : Type 0
Notice = ℕ × String

abbrev tell : List ℕ → String → List Notice
tell fns key = map (λ fn. (fn, key)) fns

abbrev pub unix : ℕ → ℕ
unix now = now / 1000

abbrev pub unix_milli : ℕ → ℕ
unix_milli now = now

-- deepMergeJSON: `merge` is what the JSON package makes of two documents, `none` for its errors.
unfoldable pub deep_merge_json : (String → String → Option String) → String → String → Option String
deep_merge_json merge base overlay =
    if str_eq base ""
    then some overlay
    else if str_eq overlay ""
    then some base
    else merge base overlay

-- One round of cloneAndMergeConfig: a node keeps its configuration when the merge fails.
unfoldable pub merge_node :
    (String → String → Option String) → List (String × String) → NodeConfig → NodeConfig
unfolding deep_merge_json
merge_node merge properties nd = elim (lookup nd.name properties) [
  | none ↦ nd
  | some overlay ↦ elim (deep_merge_json merge nd.config overlay) [
    | none ↦ nd
    | some merged ↦ record nd { config = merged }
  ]
]

unfoldable pub clone_and_merge_config :
    (String → String → Option String) → List (String × String) → WorkflowConfig → WorkflowConfig
clone_and_merge_config merge properties cfg = record cfg {
  nodes = map (merge_node merge properties) cfg.nodes;
}

abbrev in_result {ℓ} :
    {E : Type 0} {A : Type ℓ} → (E → SessionError) → Result E A → Result SessionError A
in_result wrap (ok a) = ok a
in_result wrap (err e) = err (wrap e)

abbrev started : Workflow × List Call × Option WorkflowError → Result SessionError Workflow
started (w, _, none) = ok w
started (w, _, some e) = err (SessionError.in_workflow e)

-- What a session is made with: the configurations by name, the JSON package's merge, the two orders in
-- which BuildGraph ranges over its map, and whether a node builds and starts.
pub record Setting : Type 0 where
  pub get_with_name : String → Option WorkflowConfig
  pub merge : String → String → Option String
  pub store : Resources
  pub roots : List String
  pub rest : List String
  pub build_ok : NodeConfig → Bool
  pub starts : ℕ → Bool

-- The part of CreateSession before the session is made.
unfoldable pub prepare_workflow :
    Setting → String → List (String × String) → Result SessionError Workflow
prepare_workflow env name properties = do
  cfg ← or_fail (env.get_with_name name) SessionError.config_not_found
  builders ←
      in_result SessionError.in_store (
        resolve_plugin_builders env.store []
          (clone_and_merge_config env.merge properties cfg).nodes)
  graph ←
      in_result SessionError.in_graph
        (build_graph env.roots env.rest (clone_and_merge_config env.merge properties cfg) builders)
  wf ← in_result SessionError.in_workflow (new_workflow env.build_ok graph builders)
  started (start_workflow env.starts wf)

unfoldable pub new_session : ℕ → String → Workflow → Session
new_session now key wf = record {
  key = key;
  workflow = wf;
  last_active = unix now;
  created_at = now;
  busy = false;
}

unfoldable pub create_session :
    Setting
    → ℕ
    → SessionManager
    → String
    → String
    → List (String × String)
    → Result SessionError (SessionManager × List Notice)
unfolding new_session
create_session env now sm key name properties = do
  wf ← prepare_workflow env name properties
  ok (
    record sm {
      sessions = insert key (new_session now key wf) sm.sessions;
      opened = suc sm.opened;
    },
    tell (to_call sm.on_created) key,
  )

abbrev update_activity : ℕ → Session → Session
update_activity now s = record s { last_active = unix_milli now }

unfoldable pub load_session : ℕ → SessionManager → String → SessionManager × Option Session
load_session now sm key = elim (lookup key sm.sessions) [
  | none ↦ (sm, none)
  | some s ↦ (
    record sm { sessions = insert key (update_activity now s) sm.sessions },
    some (update_activity now s),
  )
]

unfoldable pub remove_session : SessionManager → String → SessionManager × List Notice
remove_session sm key = elim (lookup key sm.sessions) [
  | none ↦ (sm, [])
  | some s ↦ (
    record sm {
      sessions = erase key sm.sessions;
      closed = suc sm.closed;
      stopped = (stop_workflow s.workflow).0 ∷ sm.stopped;
    },
    tell (to_call sm.on_deleted) key,
  )
]

-- `now - last < duration` on int64, with `last` moved to the right.
abbrev pub is_idle : ℕ → ℕ → Session → Bool
is_idle now duration s = not (ltb now (s.last_active + duration))

-- Cleanup's loop: the sessions that stay, and those to be stopped.
unfoldable pub sweep :
    ℕ → ℕ → List (String × Session) → List (String × Session) × List (String × Session)
sweep now duration [] = ([], [])
sweep now duration ((id, s) ∷ m) =
    let (stay, go) = sweep now duration m in
    if is_idle now duration s then (stay, (id, s) ∷ go) else ((id, s) ∷ stay, go)

abbrev tell_all : List ℕ → List (String × Session) → List Notice
tell_all fns [] = []
tell_all fns ((id, s) ∷ m) = tell fns s.key ++ tell_all fns m

abbrev pub stop_all : List (String × Session) → List Workflow
stop_all = map (λ e. (stop_workflow e.1.workflow).0)

unfoldable pub cleanup : ℕ → SessionManager → SessionManager × List Notice
cleanup now sm =
    let (stay, go) = sweep (unix_milli now) sm.timeout sm.sessions in
    (
      record sm {
        sessions = stay;
        closed = sm.closed + length go;
        stopped = stop_all go ++ sm.stopped;
      },
      tell_all (to_call sm.on_deleted) go,
    )

unfoldable pub stop_manager : SessionManager → SessionManager
stop_manager sm = record sm {
  sessions = [];
  cancelled = true;
  closed = sm.closed + length sm.sessions;
  stopped = stop_all sm.sessions ++ sm.stopped;
}

-- Acquire: compare-and-swap of the busy flag.
unfoldable pub acquire : Session → Session × Bool
acquire s = if s.busy then (s, false) else (record s { busy = true }, true)

unfoldable pub release : Session → Session
release s = record s { busy = false }
