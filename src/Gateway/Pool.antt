-- ===== src/Gateway/Pool.antt =====
-- internal/gateway/pool.go: the connections of one machine and the sessions that are bound to them.
-- A connection object is the number `conn`, and `conn_state` is what its State() answers. A route
-- points to an item by its connection. The heap of container/heap, which is repaired after each change
-- of a key, holds the items of `connections`, and its root is the least of them under `less`.
pub mod Heap
pub mod Items
pub mod Select
pub mod Calls
pub mod Steps
pub mod Sound
pub mod Attach
pub mod Detach
pub mod Remove
pub mod Consistent
pub mod Cleanup
pub mod Orders
pub mod Reach
pub mod Dials
pub mod Ended
pub mod Balance
pub mod Pending
pub mod Served
use voce.Prelude.{
  ℕ, suc, ◌+◌, ◌-◌, String, Bool, true, false, not, ◌&&◌, ◌||◌, ◌==◌, ltb, leb, if◌then◌else◌,
  Option, none, some, is_some, List, [], ◌∷◌, length,
}
use voce.Prelude.Int.{ℤ}
use voce.Prelude.Maps.{lookup, insert, erase}
use voce.Protocol.Types.{ConnectionState}

pub data ConnectionPriority : Type 0 where
  active connecting unavailable : ConnectionPriority

pub record PooledConnection : Type 0 where
  pub id : ℕ
  pub conn : ℕ
  pub conn_state : ConnectionState
  pub load : ℕ
  pub priority : ConnectionPriority
  pub idle_since : Option ℕ  -- `none` is the zero time
  pub sessions : List (String × Unit {0})

pub record PoolConfig : Type 0 where
  pub min_connections : ℤ
  pub target_sessions : ℤ
  pub max_sessions : ℤ
  pub max_connections : ℤ
  pub idle_timeout : ℤ

-- A binding is the connection that its session is to use, `none` for a nil pointer.
pub record Pool : Type 0 where
  pub min_conns : ℕ
  pub target_sessions : ℕ
  pub max_sessions : ℕ
  pub max_conns : ℕ
  pub idle_timeout : ℕ
  pub next_id : ℕ
  pub connections : List PooledConnection
  pub routes : List (String × ℕ)
  pub bindings : List (String × Option ℕ)
  pub closed : Bool
  pub pending_dials : ℕ

-- A setting that is not positive gets its default.
abbrev or_default : ℤ → ℕ → ℕ
or_default (ℤ.negsuc _) d = d
or_default (ℤ.pos n) d = if n == 0 then d else n

abbrev at_most : ℕ → ℕ → ℕ
at_most a b = if ltb b a then b else a

-- No limit, 0, for a number that is not positive.
abbrev limit : ℤ → ℕ
limit (ℤ.negsuc _) = 0
limit (ℤ.pos n) = n

-- newConnectionPool with defaultConnectionPoolConfig; times are in milliseconds.
unfoldable pub new_connection_pool : PoolConfig → Pool
new_connection_pool c =
    let most = or_default c.max_sessions 64 in
    record {
      min_conns = or_default c.min_connections 1;
      target_sessions = at_most (or_default c.target_sessions 16) most;
      max_sessions = most;
      max_conns = limit c.max_connections;
      idle_timeout = or_default c.idle_timeout 30000;
      next_id = 0;
      connections = [];
      routes = [];
      bindings = [];
      closed = false;
      pending_dials = 0;
    }

abbrev pub rank : ConnectionPriority → ℕ
rank ConnectionPriority.active = 0
rank ConnectionPriority.connecting = 1
rank ConnectionPriority.unavailable = 2

-- connectionMinHeap.Less
unfoldable pub less : PooledConnection → PooledConnection → Bool
less i j =
    if not (rank i.priority == rank j.priority)
    then ltb (rank i.priority) (rank j.priority)
    else if not (i.load == j.load)
    then ltb i.load j.load
    else ltb i.id j.id

-- The root of the heap.
unfoldable pub root : List PooledConnection → Option PooledConnection
root [] = none
root (i ∷ is) = elim (root is) [ none ↦ some i | some j ↦ if less j i then some j else some i ]

abbrev pub is_full : PooledConnection → Bool
is_full i = rank i.priority == 2

unfoldable pub select_locked : Pool → Option PooledConnection
select_locked p = elim (root p.connections) [
  | none ↦ none
  | some i ↦ if is_full i then none else some i
]

abbrev pub state_priority : ConnectionState → ConnectionPriority
state_priority ConnectionState.active = ConnectionPriority.active
state_priority ConnectionState.connecting = ConnectionPriority.connecting
state_priority _ = ConnectionPriority.unavailable

unfoldable pub priority_locked : ℕ → PooledConnection → ConnectionPriority
priority_locked most i =
    if leb most i.load then ConnectionPriority.unavailable else state_priority i.conn_state

-- refreshLocked, on the item itself.
unfoldable pub refresh : ℕ → PooledConnection → PooledConnection
refresh most i = record i { priority = priority_locked most i }

-- p.connections[conn]
unfoldable pub find : ℕ → List PooledConnection → Option PooledConnection
find c [] = none
find c (i ∷ is) = if i.conn == c then some i else find c is

-- A change to the item that a pointer leads to.
unfoldable pub revise :
    ℕ → (PooledConnection → PooledConnection) → List PooledConnection → List PooledConnection
revise c f [] = []
revise c f (i ∷ is) = if i.conn == c then f i ∷ is else i ∷ revise c f is

-- delete(p.connections, conn), and the heap.Remove of its item
unfoldable pub discard : ℕ → List PooledConnection → List PooledConnection
discard c [] = []
discard c (i ∷ is) = let rest = discard c is in if i.conn == c then is else i ∷ rest

-- What attachLocked does to its item.
unfoldable pub take_session : ℕ → String → PooledConnection → PooledConnection
unfolding refresh
take_session most key i =
    refresh most
      (record i { sessions = insert key tt i.sessions; load = suc i.load; idle_since = none })

unfoldable pub attach_locked : String → ℕ → Pool → Pool
attach_locked key c p = record p {
  routes = insert key c p.routes;
  connections = revise c (take_session p.max_sessions key) p.connections;
  bindings = insert key (some c) p.bindings;
}

-- The loop of assignPendingLocked, over the bindings in the order of the list.
unfoldable pub assign_pending : List (String × Option ℕ) → Pool → Pool
assign_pending [] p = p
assign_pending ((key, _) ∷ bs) p = elim (lookup key p.routes) [
  | some _ ↦ assign_pending bs p
  | none ↦ elim (select_locked p) [
    | none ↦ p
    | some i ↦ assign_pending bs (attach_locked key i.conn p)
  ]
]

unfoldable pub assign_pending_locked : Pool → Pool
assign_pending_locked p = assign_pending p.bindings p

-- The Boolean says whether a dial is started.
unfoldable pub reserve_dial_locked : Pool → Pool × Bool
reserve_dial_locked p =
    if ltb 0 p.pending_dials
      || p.closed
      || (ltb 0 p.max_conns && leb p.max_conns (length p.connections + p.pending_dials))
    then (p, false)
    else (record p { pending_dials = suc p.pending_dials }, true)

unfoldable pub reserve_scale_locked : Pool → Pool × Bool
reserve_scale_locked p = if ltb 0 p.pending_dials then (p, false) else elim (select_locked p) [
  | none ↦ (p, false)
  | some i ↦
      if not (rank i.priority == 0) || ltb i.load p.target_sessions
      then (p, false)
      else reserve_dial_locked p
]
