-- ===== src/Gateway/Pool/Calls.antt =====
-- internal/gateway/pool.go: the operations of a pool, each one locked section.
use voce.Prelude.{
  ℕ, suc, ◌+◌, ◌-◌, String, Bool, true, false, not, ◌&&◌, ◌||◌, ◌==◌, ltb, leb, if◌then◌else◌,
  Option, none, some, List, [], ◌∷◌, length, map,
}
use voce.Prelude.Maps.{lookup, insert, erase}
use voce.Protocol.Types.{ConnectionState}
use voce.Gateway.Pool.{
  PooledConnection, ConnectionPriority, Pool, rank, select_locked, refresh, find, revise, discard,
  take_session, attach_locked, assign_pending_locked, reserve_dial_locked, reserve_scale_locked,
}

-- Bind; the Boolean says whether a dial is started. The item's priority is read after attachLocked has
-- refreshed it.
unfoldable pub bind : String → Pool → Pool × Bool
bind key p = elim (lookup key p.bindings) [
  | some _ ↦ (p, false)
  | none ↦
      let bound = record p { bindings = insert key none p.bindings } in
      elim (select_locked bound) [
        | some i ↦
            let attached = attach_locked key i.conn bound in
            if rank (take_session bound.max_sessions key i).priority == 0
            then reserve_scale_locked attached
            else (attached, false)
        | none ↦ reserve_dial_locked bound
      ]
]

abbrev pub is_active : ConnectionState → Bool
is_active ConnectionState.active = true
is_active _ = false

-- What State() of a connection answers; no item of the pool is without its connection.
abbrev active_in : Pool → Option ℕ → Bool
active_in p none = false
active_in p (some c) = elim (find c p.connections) [
  | none ↦ false
  | some i ↦ is_active i.conn_state
]

-- TryBind: the pool, whether a dial is started, and whether the session is bound.
unfoldable pub try_bind : String → Pool → Pool × Bool × Bool
try_bind key p = elim (lookup key p.bindings) [
  | some b ↦ (p, false, active_in p b)
  | none ↦ elim (select_locked p) [
    | none ↦ let (p', dials) = reserve_dial_locked p in (p', dials, false)
    | some i ↦
        if not (rank i.priority == 0) || not (is_active i.conn_state)
        then (p, false, false)
        else let (p', dials) = reserve_scale_locked (
            attach_locked key i.conn
              (record p { bindings = insert key (some i.conn) p.bindings })) in
          (p', dials, true)
  ]
]

-- What Unbind does to the item of the session's route.
unfoldable pub lose_session : ℕ → ℕ → String → PooledConnection → PooledConnection
unfolding refresh
lose_session now most key i =
    let kept = record i { sessions = erase key i.sessions } in
    let less = if ltb 0 i.load then refresh most (record kept { load = i.load - 1 }) else kept in
    if less.load == 0 then record less { idle_since = some now } else less

unfoldable pub unbind : ℕ → String → Pool → Pool
unbind now key p =
    let gone = record p { bindings = erase key p.bindings } in
    elim (lookup key p.routes) [
      | none ↦ gone
      | some c ↦ assign_pending_locked (record gone {
        routes = erase key p.routes;
        connections = revise c (lose_session now p.max_sessions key) p.connections;
      })
    ]

-- The first section of startMinConnections: the dials that are reserved.
unfoldable pub start_min_connections : Pool → Pool
start_min_connections p = record p {
  pending_dials = p.pending_dials + (p.min_conns - (length p.connections + p.pending_dials));
}

-- startDial, where newConnection fails.
unfoldable pub dial_failed : Pool → Pool
dial_failed p = record p { pending_dials = p.pending_dials - 1 }

-- The item that startDial makes.
unfoldable pub pooled : ℕ → ℕ → ℕ → ConnectionState → PooledConnection
unfolding refresh
pooled most id c state = refresh most (record {
  id = id;
  conn = c;
  conn_state = state;
  load = 0;
  priority = ConnectionPriority.active;
  idle_since = none;
  sessions = [];
})

-- startDial, where newConnection gives a connection; the Boolean says whether it is closed again.
unfoldable pub dialled : ℕ → ConnectionState → Pool → Pool × Bool
dialled c state p =
    let waiting = record p { pending_dials = p.pending_dials - 1 } in
    if p.closed then (waiting, true) else (
      assign_pending_locked (record waiting {
        next_id = suc p.next_id;
        connections = pooled p.max_sessions (suc p.next_id) c state ∷ p.connections;
      }),
      false,
    )

-- p.bindings[key].conn.Store(nil), where there is such a binding
abbrev unset : String → List (String × Option ℕ) → List (String × Option ℕ)
unset key bs = elim (lookup key bs) [ none ↦ bs | some _ ↦ insert key none bs ]

-- A turn of the loop of removeLocked.
unfoldable pub drop_route : ℕ → String → Pool → Pool
drop_route c key p = elim (lookup key p.routes) [
  | none ↦ p
  | some d ↦
      if d == c
      then record p { routes = erase key p.routes; bindings = unset key p.bindings }
      else p
]

-- The loop of removeLocked over the item's sessions.
unfoldable pub drop_routes : ℕ → List (String × Unit {0}) → Pool → Pool
drop_routes c [] p = p
drop_routes c ((key, _) ∷ ss) p = drop_routes c ss (drop_route c key p)

-- removeLocked, for the item of a connection of the pool.
unfoldable pub remove_locked : PooledConnection → Pool → Pool
remove_locked i p =
    drop_routes i.conn i.sessions (record p { connections = discard i.conn p.connections })

-- syncConnectionState, when the connection's State() answers this.
unfoldable pub sync_connection_state : ℕ → Pool → Pool
sync_connection_state c p = elim (find c p.connections) [
  | none ↦ p
  | some i ↦ elim i.conn_state [
    | ConnectionState.closed ↦ assign_pending_locked (remove_locked i p)
    | _ ↦ record p { connections = revise c (refresh p.max_sessions) p.connections }
  ]
]

-- Whether cleanupIdle takes the item; `now` less the start of its idleness is the timeout or more.
abbrev pub expired : ℕ → Pool → PooledConnection → Bool
expired now p i = elim i.idle_since [
  | none ↦ false
  | some since ↦
      ltb p.min_conns (length p.connections) && (i.load == 0) && leb (since + p.idle_timeout) now
]

-- The loop of cleanupIdle, and the connections that it closes.
unfoldable pub cleanup : ℕ → List PooledConnection → Pool → Pool × List ℕ
cleanup now [] p = (p, [])
cleanup now (i ∷ is) p = elim (expired now p i) [
  | true ↦ let (p', closing) = cleanup now is (remove_locked i p) in (p', i.conn ∷ closing)
  | false ↦ cleanup now is p
]

unfoldable pub cleanup_idle : ℕ → Pool → Pool × List ℕ
cleanup_idle now p = cleanup now p.connections p

-- The start of Shutdown, before it takes the lock; the Boolean says whether it goes on.
unfoldable pub begin_shutdown : Pool → Pool × Bool
begin_shutdown p = (record p { closed = true }, not p.closed)

-- binding.conn.Store(nil)
abbrev pub let_go : String × Option ℕ → String × Option ℕ
let_go (key, _) = (key, none)

-- The section of Shutdown under the lock: the pool, the bindings that sessions still hold, each now
-- nil, and the connections that are closed next.
unfoldable pub clear_pool : Pool → Pool × List (String × Option ℕ) × List ℕ
clear_pool p = (
  record p { connections = []; routes = []; bindings = [] },
  map let_go p.bindings,
  map (λ i. i.conn) p.connections,
)

-- Shutdown, when no other goroutine comes between its two sections.
unfoldable pub shutdown : Pool → Pool × List (String × Option ℕ) × List ℕ
unfolding begin_shutdown clear_pool
shutdown p =
    let (begun, goes_on) = begin_shutdown p in if goes_on then clear_pool begun else (begun, [], [])

pub record ConnectionPoolSnapshot : Type 0 where
  pub id : ℕ
  pub state : ConnectionState
  pub sessions : ℕ
  pub idle_since : ℕ

abbrev unix_milli : Option ℕ → ℕ
unix_milli none = 0
unix_milli (some at) = at

unfoldable pub snapshots : Pool → List ConnectionPoolSnapshot
snapshots p =
    map
      (λ i. record {
        id = i.id;
        state = i.conn_state;
        sessions = i.load;
        idle_since = unix_milli i.idle_since;
      })
      p.connections
