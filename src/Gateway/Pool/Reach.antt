-- ===== src/Gateway/Pool/Reach.antt =====
-- internal/gateway/pool.go: every operation leaves the items, the routes and the bindings of a pool in
-- agreement, so they agree in each pool that a new one can come to.
use voce.Prelude.{
  ℕ, suc, ◌-◌, ◌≡◌, refl, ◌∙◌, subst⁻¹, String, true, false, none, some, List, ◌∷◌, arith, inl, inr,
  Option-cases, Bool-cases,
}
use voce.Prelude.Maps.{lookup}
use voce.Protocol.Types.{ConnectionState}
use voce.Gateway.Pool.{
  PooledConnection, PoolConfig, Pool, new_connection_pool, find, revise, refresh,
  assign_pending_locked,
}
use voce.Gateway.Pool.Calls.{pooled, dialled, remove_locked, sync_connection_state}
use voce.Gateway.Pool.Steps.{
  Change, observe, Step, binds, tries, unbinds, starts, fails, dials, changes, syncs, cleans, shuts,
  clears, ranges_bindings, ranges_connections, Reaches, Reaches_keeps,
}
use voce.Gateway.Pool.Items.{
  distinct, find-revise, distinct-revise, all-revise, all-find, find-conn,
}
use voce.Gateway.Pool.Sound.{is_closed, sound, refresh-sound, pooled-sound, observe-sound}
use voce.Gateway.Pool.Attach.{IsConsistent, holds, assign_pending_locked-IsConsistent}
use voce.Gateway.Pool.Detach.{unbind-IsConsistent}
use voce.Gateway.Pool.Remove.{remove_locked-IsConsistent}
use voce.Gateway.Pool.Cleanup.{
  cleanup_idle-IsConsistent, begin_shutdown-IsConsistent, clear_pool-IsConsistent,
}
use voce.Gateway.Pool.Orders.{bindings-IsConsistent, connections-IsConsistent}
use voce.Gateway.Pool.Consistent.{
  new-IsConsistent, bind-Bound, try_bind-Bound, Bound-IsConsistent, start_min-IsConsistent,
  dial_failed-IsConsistent, dials-IsConsistent,
}

-- A new connection under the pool's lock.
unfoldable pub added : ℕ → ConnectionState → Pool → Pool
added c state p = record p {
  pending_dials = p.pending_dials - 1;
  next_id = suc p.next_id;
  connections = pooled p.max_sessions (suc p.next_id) c state ∷ p.connections;
}

pub dialled_open :
    (c : ℕ) (state : ConnectionState) (p : Pool)
    → p.closed ≡ false
    → (dialled c state p).0 ≡ assign_pending_locked (added c state p)
unfolding dialled added
dialled_open c state p h = ground (arith, h)

pub dialled_closed :
    (c : ℕ) (state : ConnectionState) (p : Pool)
    → p.closed ≡ true
    → (dialled c state p).0 ≡ record p { pending_dials = p.pending_dials - 1 }
unfolding dialled
dialled_closed c state p h = ground (arith, h)

holds-pooled :
    (k : String) (most id c d : ℕ) (state : ConnectionState) (is : List PooledConnection)
    → find c is ≡ none
    → holds k d (pooled most id c state ∷ is) ≡ holds k d is
unfolding holds find pooled refresh lookup
holds-pooled k most id c d state is h = ground (arith, h)

distinct-pooled :
    (most id c : ℕ) (state : ConnectionState) (is : List PooledConnection)
    → find c is ≡ none
    → distinct is ≡ true
    → distinct (pooled most id c state ∷ is) ≡ true
unfolding distinct pooled refresh
distinct-pooled most id c state is h u = ground (arith, h, u)

added-IsConsistent :
    (c : ℕ) (p : Pool)
    → find c p.connections ≡ none
    → IsConsistent p
    → IsConsistent (added c ConnectionState.connecting p)
unfolding added
added-IsConsistent c p h v = record {
  room = v.room;
  items = ground (arith, v.items, pooled-sound p.max_sessions (suc p.next_id) c v.room);
  apart =
      distinct-pooled p.max_sessions (suc p.next_id) c ConnectionState.connecting p.connections h
        v.apart;
  routed = λ k d.
      holds-pooled k p.max_sessions (suc p.next_id) c d ConnectionState.connecting p.connections h
      ∙ v.routed k d;
  bound = v.bound;
}

dialled-IsConsistent :
    (c : ℕ) (p : Pool)
    → find c p.connections ≡ none
    → IsConsistent p
    → IsConsistent (dialled c ConnectionState.connecting p).0
dialled-IsConsistent c p h v = elim (Bool-cases p.closed) [
  | inl e ↦ rw (dialled_closed c ConnectionState.connecting p e) (dials-IsConsistent p _ v)
  | inr e ↦
      rw (dialled_open c ConnectionState.connecting p e)
        (assign_pending_locked-IsConsistent _ (added-IsConsistent c p h v))
]

holds-revise :
    (c : ℕ) (f : PooledConnection → PooledConnection) (is : List PooledConnection)
    → ((i : PooledConnection) → (f i).conn ≡ i.conn)
    → ((i : PooledConnection) → (f i).sessions ≡ i.sessions)
    → (k : String) (d : ℕ) → holds k d (revise c f is) ≡ holds k d is
unfolding holds
holds-revise c f is conns sessions k d = elim (Option-cases (find d is)) [
  | inl e ↦ ground (arith, e, find-revise c d f is conns)
  | inr (i, e) ↦ ground (arith, e, find-revise c d f is conns, sessions i)
]

-- A change to one item that leaves its connection and its sessions alone.
revise-IsConsistent :
    (c : ℕ) (f : PooledConnection → PooledConnection) (p : Pool)
    → ((i : PooledConnection) → (f i).conn ≡ i.conn)
    → ((i : PooledConnection) → (f i).sessions ≡ i.sessions)
    → ((i : PooledConnection) → sound p.max_sessions i ≡ true → sound p.max_sessions (f i) ≡ true)
    → IsConsistent p
    → IsConsistent (record p { connections = revise c f p.connections })
revise-IsConsistent c f p conns sessions sounds v = record {
  room = v.room;
  items =
      all-revise (sound p.max_sessions) c f p.connections
        (λ i found. sounds i (all-find (sound p.max_sessions) c i p.connections v.items found))
        v.items;
  apart = distinct-revise c f p.connections conns v.apart;
  routed = λ k d. holds-revise c f p.connections conns sessions k d ∙ v.routed k d;
  bound = v.bound;
}

observe-IsConsistent :
    (c : ℕ) (e : Change) (p : Pool)
    → IsConsistent p
    → IsConsistent (record p { connections = revise c (observe e) p.connections })
unfolding observe
observe-IsConsistent c e p v =
    revise-IsConsistent c (observe e) p (λ i. refl) (λ i. refl) (observe-sound p.max_sessions e) v

refresh-IsConsistent :
    (c : ℕ) (p : Pool)
    → IsConsistent p
    → IsConsistent (record p { connections = revise c (refresh p.max_sessions) p.connections })
unfolding refresh
refresh-IsConsistent c p v =
    revise-IsConsistent c (refresh p.max_sessions) p (λ i. refl) (λ i. refl)
      (refresh-sound p.max_sessions) v

-- What a notice from a connection comes to.
pub data Synced (c : ℕ) (p : Pool) : Pool → Type 0 where
  stranger : Synced c p p
  removed :
      (i : PooledConnection)
      → find i.conn p.connections ≡ some i
      → Synced c p (assign_pending_locked (remove_locked i p))
  updated : Synced c p (record p { connections = revise c (refresh p.max_sessions) p.connections })

pub sync-Synced : (c : ℕ) (p : Pool) → Synced c p (sync_connection_state c p)
unfolding sync_connection_state
sync-Synced c p = elim (Option-cases (find c p.connections)) [
  | inl e ↦
      let out : sync_connection_state c p ≡ p = ground (arith, e) in
      subst⁻¹ (Synced c p) out stranger
  | inr (i, e) ↦
      let itself = find-conn c i p.connections e in
      elim (Bool-cases (is_closed i.conn_state)) [
        | inl g ↦
            let out : sync_connection_state c p ≡ assign_pending_locked (remove_locked i p) =
              ground (arith, e, g) in
            subst⁻¹ (Synced c p) out (removed i (ground (arith, e, itself)))
        | inr g ↦
            let out : sync_connection_state c p
                ≡ record p { connections = revise c (refresh p.max_sessions) p.connections } =
              ground (arith, e, g) in
            subst⁻¹ (Synced c p) out updated
      ]
]

Synced-IsConsistent : (c : ℕ) (p q : Pool) → Synced c p q → IsConsistent p → IsConsistent q
Synced-IsConsistent c p q stranger v = v
Synced-IsConsistent c p q (removed i h) v =
    assign_pending_locked-IsConsistent _ (remove_locked-IsConsistent i p h v)
Synced-IsConsistent c p q updated v = refresh-IsConsistent c p v

pub Step-IsConsistent : (p q : Pool) → Step p q → IsConsistent p → IsConsistent q
Step-IsConsistent _ _ (binds p key) v = Bound-IsConsistent key p _ (bind-Bound key p) v
Step-IsConsistent _ _ (tries p key) v = Bound-IsConsistent key p _ (try_bind-Bound key p) v
Step-IsConsistent _ _ (unbinds p now key) v = unbind-IsConsistent now key p v
Step-IsConsistent _ _ (starts p) v = start_min-IsConsistent p v
Step-IsConsistent _ _ (fails p h) v = dial_failed-IsConsistent p v
Step-IsConsistent _ _ (dials p c h new) v = dialled-IsConsistent c p new v
Step-IsConsistent _ _ (changes p c e) v = observe-IsConsistent c e p v
Step-IsConsistent _ _ (syncs p c) v = Synced-IsConsistent c p _ (sync-Synced c p) v
Step-IsConsistent _ _ (cleans p now) v = cleanup_idle-IsConsistent now p v
Step-IsConsistent _ _ (shuts p) v = begin_shutdown-IsConsistent p v
Step-IsConsistent _ _ (clears p h) v = clear_pool-IsConsistent p v
Step-IsConsistent _ _ (ranges_bindings p bs same) v = bindings-IsConsistent p bs same v
Step-IsConsistent _ _ (ranges_connections p is same u n) v = connections-IsConsistent p is same u v

-- In a pool that a new one can come to, the items, the routes and the bindings agree: an item's load
-- is the number of its sessions and at most the limit, a session's route leads to the item that holds
-- it, and its binding has the connection of its route.
pub Reaches-IsConsistent :
    (c : PoolConfig) (p : Pool) → Reaches (new_connection_pool c) p → IsConsistent p
Reaches-IsConsistent c p r =
    Reaches_keeps IsConsistent Step-IsConsistent (new_connection_pool c) p r (new-IsConsistent c)
