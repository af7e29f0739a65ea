-- ===== src/Machine.antt =====
-- internal/machine/pool.go and connection.go: on a machine, the connections from the gateway and the
-- sessions whose packets go back over them. A connection is the number of its object, and `live` is what
-- its State() answers. The heap of container/heap holds the items of `connections`, and its root is the
-- least of them by load and number.
pub mod Routes
pub mod Connection
use voce.Prelude.{
  ℕ, zero, suc, ◌-◌, String, Bool, true, false, not, ◌&&◌, ◌||◌, ◌==◌, ltb, if◌then◌else◌, Option,
  none, some, is_some, List, [], ◌∷◌, length,
}
use voce.Prelude.Maps.{lookup, insert, erase}
use voce.Protocol.PacketType
use voce.Protocol.Types.{ConnectionState}

pub record HeapConnection : Type 0 where
  pub id : ℕ
  pub conn : ℕ
  pub load : ℕ
  pub sessions : List (String × Unit {0})

pub record ConnectionManager : Type 0 where
  pub next_id : ℕ
  pub connections : List HeapConnection
  pub routes : List (String × ℕ)

abbrev pub is_active : ConnectionState → Bool
is_active ConnectionState.active = true
is_active _ = false

unfoldable pub new_connection_manager : ConnectionManager
new_connection_manager = record { next_id = 0; connections = []; routes = [] }

-- connectionMinHeap.Less
unfoldable pub less : HeapConnection → HeapConnection → Bool
less i j = if not (i.load == j.load) then ltb i.load j.load else ltb i.id j.id

-- The root of the heap.
unfoldable pub root : List HeapConnection → Option HeapConnection
root [] = none
root (i ∷ is) = elim (root is) [ none ↦ some i | some j ↦ if less j i then some j else some i ]

unfoldable pub find : ℕ → List HeapConnection → Option HeapConnection
find c [] = none
find c (i ∷ is) = if i.conn == c then some i else find c is

unfoldable pub discard : ℕ → List HeapConnection → List HeapConnection
discard c [] = []
discard c (i ∷ is) = let rest = discard c is in if i.conn == c then is else i ∷ rest

unfoldable pub revise :
    ℕ → (HeapConnection → HeapConnection) → List HeapConnection → List HeapConnection
revise c f [] = []
revise c f (i ∷ is) = let rest = revise c f is in if i.conn == c then f i ∷ is else i ∷ rest

-- Store
unfoldable pub store : ℕ → ConnectionManager → ConnectionManager
store c m = if is_some (find c m.connections) then m else record m {
  next_id = suc m.next_id;
  connections = record { id = suc m.next_id; conn = c; load = 0; sessions = [] } ∷ m.connections;
}

-- The loop of removeConnectionLocked over the item's sessions.
unfoldable pub drop_routes : ℕ → List (String × Unit {0}) → List (String × ℕ) → List (String × ℕ)
drop_routes c [] routes = routes
drop_routes c ((key, _) ∷ ss) routes = drop_routes c ss (elim (lookup key routes) [
  | none ↦ routes
  | some d ↦ if d == c then erase key routes else routes
])

-- removeConnectionLocked, for the connection of an item of the pool.
unfoldable pub remove_connection : ℕ → ConnectionManager → ConnectionManager
remove_connection c m = elim (find c m.connections) [
  | none ↦ m
  | some i ↦ record m {
    connections = discard c m.connections;
    routes = drop_routes c i.sessions m.routes;
  }
]

unfoldable pub add_session : String → HeapConnection → HeapConnection
add_session key i = record i { sessions = insert key tt i.sessions; load = suc i.load }

unfoldable pub release_session : String → HeapConnection → HeapConnection
release_session key i = record i { sessions = erase key i.sessions; load = i.load - 1 }

-- The loop of Select; each turn but the last evicts a connection.
unfoldable pub select_among :
    (ℕ → ConnectionState) → String → ℕ → ConnectionManager → ConnectionManager × Option ℕ
select_among live key zero m = (m, none)
select_among live key (suc turns) m = elim (root m.connections) [
  | none ↦ (m, none)
  | some i ↦ elim (is_active (live i.conn)) [
    | true ↦ (
      record m {
        routes = insert key i.conn m.routes;
        connections = revise i.conn (add_session key) m.connections;
      },
      some i.conn,
    )
    | false ↦ select_among live key turns (remove_connection i.conn m)
  ]
]

-- As many turns as there are connections, and one.
abbrev pub select_any :
    (ℕ → ConnectionState) → String → ConnectionManager → ConnectionManager × Option ℕ
select_any live key m = select_among live key (suc (length m.connections)) m

-- The answer for the route that the key has.
unfoldable pub select_at :
    (ℕ → ConnectionState) → String → ConnectionManager → Option ℕ → ConnectionManager × Option ℕ
select_at live key m none = select_any live key m
select_at live key m (some c) =
    if is_active (live c) then (m, some c) else select_any live key (remove_connection c m)

unfoldable pub select :
    (ℕ → ConnectionState) → String → ConnectionManager → ConnectionManager × Option ℕ
select live key m = select_at live key m (lookup key m.routes)

unfoldable pub lookup_route :
    (ℕ → ConnectionState) → String → ConnectionManager → ConnectionManager × Option ℕ
lookup_route live key m = elim (lookup key m.routes) [
  | none ↦ (m, none)
  | some c ↦ if is_active (live c) then (m, some c) else (remove_connection c m, none)
]

-- Release
unfoldable pub release : String → ConnectionManager → ConnectionManager
release key m = elim (lookup key m.routes) [
  | none ↦ m
  | some c ↦ record m {
    routes = erase key m.routes;
    connections = revise c (release_session key) m.connections;
  }
]

-- The second attempt of onSessionDelete, over the connection that Select gives.
abbrev second_attempt : (ℕ → Bool) → ConnectionManager × Option ℕ → ConnectionManager × List ℕ
second_attempt writes (m, none) = (m, [])
second_attempt writes (m, some c) = if writes c then (m, c ∷ []) else (remove_connection c m, [])

abbrev first_attempt :
    (ℕ → ConnectionState)
    → (ℕ → Bool)
    → String
    → ConnectionManager × Option ℕ
    → ConnectionManager × List ℕ
first_attempt live writes key (m, none) = (m, [])
first_attempt live writes key (m, some c) =
    if writes c
    then (m, c ∷ [])
    else second_attempt writes (select live key (remove_connection c m))

abbrev or_select :
    (ℕ → ConnectionState) → String → ConnectionManager × Option ℕ → ConnectionManager × Option ℕ
or_select live key (m, none) = select live key m
or_select live key (m, some c) = (m, some c)

-- onSessionDelete: the connections that took the packet that closes the session. Whether a connection
-- takes a write is left open.
unfoldable pub on_session_delete :
    (ℕ → ConnectionState) → (ℕ → Bool) → String → ConnectionManager → ConnectionManager × List ℕ
on_session_delete live writes key m =
    let (m', told) = first_attempt live writes key (or_select live key (lookup_route live key m)) in
    (release key m', told)

-- What handleMessage does with a packet; `known` is whether the session manager has the session.
pub data Handling : Type 0 where
  send_audio : List ℕ → Handling
  drop pause resume remove_session ignore : Handling

unfoldable pub handle_message : Bool → ℕ → List ℕ → Handling
handle_message known t content =
    if not known
    then Handling.drop
    else if t == PacketType.audio
    then Handling.send_audio content
    else if t == PacketType.pause
    then Handling.pause
    else if t == PacketType.resume
    then Handling.resume
    else if t == PacketType.close
    then Handling.remove_session
    else Handling.ignore
