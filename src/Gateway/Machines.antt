-- ===== src/Gateway/Machines.antt =====
-- internal/gateway/machine.go and manager.go: the machines that run workflows. A machine's pool is that
-- of Gateway/Pool. `Left` is what a cleanup does outside the registry. Go leaves the order of a range over
-- the machines open; here it is the order of the list.
pub mod Choice
use voce.Prelude.{
  ℕ, ◌+◌, ◌-◌, ◌%◌, ◌^◌, String, Bool, true, false, not, ◌&&◌, ◌==◌, ltb, if◌then◌else◌, str_eq,
  Option, none, some, List, [], ◌∷◌, length, map,
}
use voce.Prelude.Maps.{lookup, insert, erase}
use voce.Prelude.Results.{Result, ok, err, ◌>>=◌, ◌>>◌, fail_if}
use voce.Gateway.Session.{MachineState, machine_active}
use voce.Gateway.Pool.{Pool, PoolConfig, new_connection_pool}
use voce.Gateway.Pool.Calls.{start_min_connections, shutdown, ConnectionPoolSnapshot, snapshots}

pub record Machine : Type 0 where
  pub host : String
  pub port : ℕ
  pub pool : Pool
  pub socket : Option ℕ
  pub state : MachineState
  pub sessions : List (String × Unit {0})
  pub last_heartbeat : ℕ

pub data MachineError : Type 0 where
  not_active already_active id_conflict no_engine : MachineError

-- MachineState.String
unfoldable pub state_name : MachineState → String
state_name MachineState.active = "active"
state_name MachineState.suspended = "suspended"
state_name MachineState.terminated = "terminated"

-- NewMachine, with a pool that starts its connections.
unfoldable pub new_machine : PoolConfig → String → ℕ → Machine
new_machine config host port = record {
  host = host;
  port = port;
  pool = start_min_connections (new_connection_pool config);
  socket = none;
  state = MachineState.suspended;
  sessions = [];
  last_heartbeat = 0;
}

-- int32(len(m.sessions)), as its bit pattern
unfoldable pub session_count : Machine → ℕ
session_count m = length m.sessions % 2 ^ 32

unfoldable pub add_session : String → Machine → Machine
add_session key m = record m { sessions = insert key tt m.sessions }

unfoldable pub remove_session : String → Machine → Machine
remove_session key m = record m { sessions = erase key m.sessions }

unfoldable pub on_pong : ℕ → Machine → Machine
on_pong now m = record m { last_heartbeat = now }

unfoldable pub on_open : ℕ → ℕ → Machine → Machine
on_open now socket m = record m {
  last_heartbeat = now;
  socket = some socket;
  state = MachineState.active;
}

unfoldable pub on_close : Machine → Machine
on_close m = record m { state = MachineState.suspended; socket = none }

-- The socket that gets the ping.
unfoldable pub heartbeat : Machine → Result MachineError ℕ
heartbeat m = elim m.socket [
  | none ↦ err MachineError.not_active
  | some socket ↦ if machine_active m.state then ok socket else err MachineError.not_active
]

abbrev pub Machines : Type 0
Machines = List (String × Machine)

unfoldable pub store_machine : String → Machine → Machines → Machines
store_machine id m items = insert id m items

unfoldable pub delete_machine : String → Machines → Machines
delete_machine id items = erase id items

abbrev is_terminated : MachineState → Bool
is_terminated MachineState.terminated = true
is_terminated _ = false

unfoldable pub check_machine : Machine → String → ℕ → Result MachineError (Unit {0})
check_machine m host port = do
  fail_if (is_terminated m.state) MachineError.already_active
  fail_if (not (str_eq m.host host && (m.port == port))) MachineError.id_conflict

-- AcquireMachine: the registry and the machine. Without an engine, there is no pool for a new one.
unfoldable pub acquire_machine :
    Bool → PoolConfig → String → String → ℕ → Machines → Result MachineError (Machines × Machine)
acquire_machine has_engine config id host port items = elim (lookup id items) [
  | some existing ↦ check_machine existing host port >> ok (items, existing)
  | none ↦
      let machine = new_machine config host port in
      fail_if (not has_engine) MachineError.no_engine >> ok (insert id machine items, machine)
]

-- a < b of int32 numbers
abbrev pub int32_ltb : ℕ → ℕ → Bool
int32_ltb a b = ltb ((a + 2 ^ 31) % 2 ^ 32) ((b + 2 ^ 31) % 2 ^ 32)

abbrev pub max_int32 : ℕ
max_int32 = 2 ^ 31 - 1

-- The loop of LeastSessions, with the machine chosen so far and its number of sessions.
unfoldable pub least_among : Machines → Option Machine → ℕ → Option Machine × ℕ
least_among [] selected fewest = (selected, fewest)
least_among ((_, m) ∷ ms) selected fewest =
    let takes_it = machine_active m.state && int32_ltb (session_count m) fewest in
    least_among ms (if takes_it then some m else selected)
      (if takes_it then session_count m else fewest)

unfoldable pub least_sessions : Machines → Option Machine
least_sessions items = (least_among items none max_int32).0

-- Random: the first active machine of the range.
unfoldable pub random : Machines → Option Machine
random [] = none
random ((_, m) ∷ ms) = if machine_active m.state then some m else random ms

-- Whether cleanupMachines takes the machine.
unfoldable pub is_expired : ℕ → Machine → Bool
is_expired threshold m = ltb 0 m.last_heartbeat && ltb m.last_heartbeat threshold

unfoldable pub expired : ℕ → Machines → List String
expired threshold [] = []
expired threshold ((id, m) ∷ ms) =
    let rest = expired threshold ms in if is_expired threshold m then id ∷ rest else rest

-- What becomes of a machine that is taken: it ends, its sessions are given to the session manager's
-- Delete, in order, and its pool is shut down.
pub record Left : Type 0 where
  pub machine : Machine
  pub deleted : List String
  pub closed : List ℕ

unfoldable pub terminate : Machine → Left
terminate m =
    let (pool, _, closing) = shutdown m.pool in
    record {
      machine = record m { state = MachineState.terminated; pool = pool };
      deleted = map (λ s. s.0) m.sessions;
      closed = closing;
    }

-- The second loop of cleanupMachines.
unfoldable pub take_away : List String → Machines → Machines × List Left
take_away [] items = (items, [])
take_away (id ∷ ids) items = elim (lookup id items) [
  | none ↦ take_away ids items
  | some m ↦ let (items', more) = take_away ids (erase id items) in (items', terminate m ∷ more)
]

unfoldable pub cleanup_machines : ℕ → Machines → Machines × List Left
cleanup_machines threshold items = take_away (expired threshold items) items
