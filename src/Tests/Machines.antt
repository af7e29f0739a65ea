-- ===== src/Tests/Machines.antt =====
-- internal/gateway/manager.go at two machines, and internal/machine/pool.go at one connection.
use voce.Prelude.{ℕ, ◌≡◌, refl, length, true, none, some, [], ◌∷◌, if◌then◌else◌}
use voce.Prelude.Maps.{lookup, unique}
use voce.Gateway.Session.{MachineState, machine_active}
use voce.Gateway.Machines.{
  Machine, Machines, new_machine, session_count, least_among, least_sessions, cleanup_machines,
}
use voce.Gateway.Machines.Choice.{
  at_least, countable, is_silent, least_sessions_lem, lookup-cleanup_machines,
}
use voce.Tests.Pool.{config}
use voce.Protocol.Types.{ConnectionState}
use voce.Machine.{ConnectionManager, new_connection_manager, store, select}
use voce.Machine.Routes.{IsSelected, select-IsSelected}

abbrev busy_machine : Machine
busy_machine = record (new_machine config "10.0.0.1" 7001) {
  state = MachineState.active;
  sessions = ("ann", tt) ∷ ("bob", tt) ∷ [];
  last_heartbeat = 500;
}

abbrev free_machine : Machine
free_machine = record busy_machine { sessions = ("cid", tt) ∷ []; last_heartbeat = 100 }

abbrev two_machines : Machines
two_machines = ("one", busy_machine) ∷ ("two", free_machine) ∷ []

picks_free : least_sessions two_machines ≡ some free_machine
unfolding least_sessions least_among session_count
picks_free = refl

two_countable : countable two_machines ≡ true
unfolding countable
two_countable = refl

least_sessions_example :
    (machine_active free_machine.state ≡ true)
    × (at_least (length free_machine.sessions) two_machines ≡ true)
least_sessions_example = least_sessions_lem two_machines free_machine two_countable picks_free

two_unique : unique two_machines ≡ true
unfolding unique lookup
two_unique = refl

lookup-cleanup_machines_example :
    lookup "two" (cleanup_machines 200 two_machines).0
    ≡ (if is_silent 200 (lookup "two" two_machines) then none else lookup "two" two_machines)
lookup-cleanup_machines_example = lookup-cleanup_machines 200 two_machines "two" two_unique

abbrev up : ℕ → ConnectionState
up c = ConnectionState.active

abbrev pool_of_one : ConnectionManager
pool_of_one = store 7 new_connection_manager

select-IsSelected_example : IsSelected up (select up "ann" pool_of_one)
select-IsSelected_example = select-IsSelected up "ann" pool_of_one
