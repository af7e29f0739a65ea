-- ===== src/Tests/Pool.antt =====
-- internal/gateway/pool.go at pools of one connection and of two.
use voce.Prelude.{
  [], ◌∷◌, all, not, ◌||◌, ◌==◌, leb, is_some, if◌then◌else◌, ◌<◌, ◌≤◌, ◌≡◌, ◌⊎◌, ◌+◌, refl, true,
  none, some, length, arith,
}
use voce.Prelude.Int.{ℤ}
use voce.Prelude.Maps.{lookup, insert}
use voce.Protocol.Types.{ConnectionState}
use voce.Gateway.Pool.{
  PoolConfig, Pool, PooledConnection, ConnectionPriority, rank, new_connection_pool, find,
  select_locked, root, reserve_dial_locked, assign_pending_locked, assign_pending, attach_locked,
  revise, take_session, refresh, priority_locked,
}
use voce.Gateway.Pool.Items.{distinct}
use voce.Gateway.Pool.Calls.{
  pooled, bind, start_min_connections, dialled, begin_shutdown, clear_pool,
}
use voce.Gateway.Pool.Steps.{Reaches, here, then_step, binds, starts, dials, shuts}
use voce.Gateway.Pool.Attach.{IsConsistent, target}
use voce.Gateway.Pool.Reach.{Reaches-IsConsistent}
use voce.Gateway.Pool.Dials.{Reaches-limited}
use voce.Gateway.Pool.Balance.{bind_balances}
use voce.Gateway.Pool.Ended.{clear_pool_lasts}
use voce.Gateway.Pool.Pending.{IsServed}
use voce.Gateway.Pool.Served.{Reaches-IsServed}

abbrev pub config : PoolConfig
config = record {
  min_connections = ℤ.pos 1;
  target_sessions = ℤ.pos 0;
  max_sessions = ℤ.pos 2;
  max_connections = ℤ.pos 3;
  idle_timeout = ℤ.negsuc 4;
}

abbrev fresh : Pool
fresh = new_connection_pool config

abbrev started : Pool
started = start_min_connections fresh

abbrev waited : Pool
waited = (bind "ann" started).0

abbrev dialled_one : Pool
dialled_one = (dialled 7 ConnectionState.connecting waited).0

waited_dials : 0 < waited.pending_dials
unfolding bind start_min_connections new_connection_pool lookup select_locked root
    reserve_dial_locked
waited_dials = omega arith

new_object : find 7 waited.connections ≡ none
unfolding find bind start_min_connections new_connection_pool lookup select_locked root
    reserve_dial_locked
new_object = refl

reached : Reaches fresh dialled_one
reached =
    then_step _ _ _ (then_step _ _ _ (then_step _ _ _ (here _) (starts _)) (binds _ "ann"))
      (dials _ 7 waited_dials new_object)

Reaches-IsConsistent_example : IsConsistent dialled_one
Reaches-IsConsistent_example = Reaches-IsConsistent config dialled_one reached

Reaches-IsServed_example : IsServed dialled_one
Reaches-IsServed_example = Reaches-IsServed config dialled_one reached

limited_in_number : 0 < dialled_one.max_conns
unfolding dialled pooled refresh priority_locked bind start_min_connections new_connection_pool
    lookup insert select_locked root reserve_dial_locked assign_pending_locked assign_pending
    attach_locked revise take_session distinct find
limited_in_number = omega arith

Reaches-limited_example :
    (length dialled_one.connections + dialled_one.pending_dials ≤ dialled_one.max_conns)
    ⊎ (length dialled_one.connections + dialled_one.pending_dials ≤ dialled_one.min_conns)
Reaches-limited_example = Reaches-limited config dialled_one reached limited_in_number

-- The session that waited has the connection.
bound_to_it : lookup "ann" dialled_one.bindings ≡ some (some 7)
unfolding dialled pooled refresh priority_locked bind start_min_connections new_connection_pool
    lookup insert select_locked root reserve_dial_locked assign_pending_locked assign_pending
    attach_locked revise take_session distinct find
bound_to_it = refl

abbrev shutting : Pool
shutting = (begin_shutdown dialled_one).0

is_shut : shutting.closed ≡ true
unfolding begin_shutdown
is_shut = refl

abbrev called_again : Pool
called_again = (bind "bob" (clear_pool shutting).0).0

clear_pool_lasts_example :
    (lookup "ann" (clear_pool shutting).1
      ≡ (if is_some (lookup "ann" shutting.bindings) then some none else none))
    × (length called_again.connections ≡ 0)
    × (target (lookup "ann" called_again.bindings) ≡ none)
clear_pool_lasts_example =
    clear_pool_lasts config shutting called_again "ann" (then_step _ _ _ reached (shuts _)) is_shut
      (then_step _ _ _ (here _) (binds _ "bob"))

abbrev busy : PooledConnection
busy = record {
  id = 1;
  conn = 7;
  conn_state = ConnectionState.active;
  load = 1;
  priority = ConnectionPriority.active;
  idle_since = none;
  sessions = ("ann", tt) ∷ [];
}

abbrev free : PooledConnection
free = record busy { id = 2; conn = 8; load = 0; sessions = [] }

abbrev two : Pool
two = record dialled_one { connections = busy ∷ free ∷ []; bindings = ("ann", some 7) ∷ [] }

two_apart : distinct two.connections ≡ true
unfolding distinct find
two_apart = refl

bob_new : lookup "bob" two.bindings ≡ none
unfolding lookup
bob_new = refl

busy_there : find 7 two.connections ≡ some busy
unfolding find
busy_there = refl

bind_balances_example :
    (i : PooledConnection) × (find i.conn two.connections ≡ some i)
    × (i.priority ≡ ConnectionPriority.active)
    × (all (λ k. not (rank k.priority == 0) || leb i.load k.load) two.connections ≡ true)
    × (lookup "bob" (bind "bob" two).0.bindings ≡ some (some i.conn))
    × (lookup "bob" (bind "bob" two).0.routes ≡ some i.conn)
bind_balances_example = bind_balances "bob" two busy two_apart bob_new busy_there refl
