-- ===== src/Gateway/Pool/Served.antt =====
-- internal/gateway/pool.go: no session waits while a connection has room, whatever happens.
use voce.Prelude.{
  ℕ, ◌≡◌, ◌≢◌, list-cases, refl, subst⁻¹, String, true, Option, some, List, ◌∷◌, arith, inl, inr,
}
use voce.Prelude.Maps.{lookup}
use voce.Protocol.Types.{ConnectionState}
use voce.Gateway.Pool.{
  PooledConnection, PoolConfig, Pool, new_connection_pool, is_full, priority_locked, find, revise,
  discard, refresh,
}
use voce.Gateway.Pool.Calls.{
  drop_routes, start_min_connections, dial_failed, remove_locked, expired, cleanup_idle,
  begin_shutdown, clear_pool,
}
use voce.Gateway.Pool.Steps.{
  Change, observe, Step, binds, tries, unbinds, starts, fails, dials, changes, syncs, cleans, shuts,
  clears, ranges_bindings, ranges_connections, Reaches, Reaches_keeps,
}
use voce.Gateway.Pool.Items.{all-revise, all-find, all-discard}
use voce.Gateway.Pool.Sound.{sound}
use voce.Gateway.Pool.Attach.{IsConsistent}
use voce.Gateway.Pool.Remove.{remove_locked-IsConsistent}
use voce.Gateway.Pool.Consistent.{bind-Bound, try_bind-Bound, new-IsConsistent}
use voce.Gateway.Pool.Cleanup.{cleanup_idle_keeps}
use voce.Gateway.Pool.Items.{distinct}
use voce.Gateway.Pool.Orders.{all_reordered}
use voce.Gateway.Pool.Reach.{Synced, sync-Synced, stranger, removed, updated, Step-IsConsistent}
use voce.Gateway.Pool.Pending.{
  waiting, IsServed, Bound-IsServed, unbind-IsServed, dialled-IsServed,
  assign_pending_locked-IsServed, dials-IsServed,
}

revise-IsServed :
    (c : ℕ) (f : PooledConnection → PooledConnection) (p : Pool)
    → ((i : PooledConnection)
        → find c p.connections ≡ some i
        → is_full i ≡ true
        → is_full (f i) ≡ true)
    → IsServed p
    → IsServed (record p { connections = revise c f p.connections })
unfolding IsServed waiting
revise-IsServed c f p fills v k h =
    all-revise is_full c f p.connections
      (λ i found. fills i found (all-find is_full c i p.connections (v k h) found)) (v k h)

observe-IsServed :
    (c : ℕ) (e : Change) (p : Pool)
    → IsServed p
    → IsServed (record p { connections = revise c (observe e) p.connections })
unfolding observe
observe-IsServed c e p v = revise-IsServed c (observe e) p (λ i found full. full) v

-- A full item is at its limit or closed, so it stays full.
refresh_full :
    (most : ℕ) (i : PooledConnection)
    → sound most i ≡ true
    → is_full i ≡ true
    → is_full (refresh most i) ≡ true
unfolding sound refresh priority_locked
refresh_full most i s f = ground (arith, s, f)

refresh-IsServed :
    (c : ℕ) (p : Pool)
    → IsConsistent p
    → IsServed p
    → IsServed (record p { connections = revise c (refresh p.max_sessions) p.connections })
refresh-IsServed c p w v =
    revise-IsServed c (refresh p.max_sessions) p
      (λ i found full.
        refresh_full p.max_sessions i
          (all-find (sound p.max_sessions) c i p.connections w.items found) full)
      v

Synced-IsServed : (c : ℕ) (p q : Pool) → Synced c p q → IsConsistent p → IsServed p → IsServed q
Synced-IsServed c p q stranger w v = v
Synced-IsServed c p q (removed i found) w v = assign_pending_locked-IsServed _
Synced-IsServed c p q updated w v = refresh-IsServed c p w v

-- An item that cleanupIdle takes has no sessions.
idle_load :
    (now : ℕ) (i : PooledConnection) (p : Pool) (x : String × Unit {0})
    (xs : List (String × Unit {0}))
    → sound p.max_sessions i ≡ true
    → expired now p i ≡ true
    → i.sessions ≢ x ∷ xs
unfolding sound
idle_load now i p x xs s e g = ground (arith, s, e, g)

remove_idle :
    (now : ℕ) (i : PooledConnection) (p : Pool)
    → IsConsistent p
    → find i.conn p.connections ≡ some i
    → expired now p i ≡ true
    → remove_locked i p ≡ record p { connections = discard i.conn p.connections }
unfolding remove_locked drop_routes sound
remove_idle now i p w found e =
    let s = all-find (sound p.max_sessions) i.conn i p.connections w.items found in
    elim (list-cases i.sessions) [
      | inl g ↦ ground (arith, g)
      | inr (x, xs, g) ↦ absurd (idle_load now i p x xs s e g)
    ]

discard-IsServed :
    (c : ℕ) (p : Pool) → IsServed p → IsServed (record p { connections = discard c p.connections })
unfolding IsServed waiting
discard-IsServed c p v k h = all-discard is_full c p.connections (v k h)

begin_shutdown-IsServed : (p : Pool) → IsServed p → IsServed (begin_shutdown p).0
unfolding IsServed waiting begin_shutdown
begin_shutdown-IsServed p v = v

clear_pool-IsServed : (p : Pool) → IsServed (clear_pool p).0
unfolding IsServed waiting clear_pool lookup
clear_pool-IsServed p k h = refl

bindings-IsServed :
    (p : Pool) (bs : List (String × Option ℕ))
    → ((k : String) → lookup k bs ≡ lookup k p.bindings)
    → IsServed p
    → IsServed (record p { bindings = bs })
unfolding IsServed waiting
bindings-IsServed p bs same v k h = ground (arith, h, same k, v k)

connections-IsServed :
    (p : Pool) (is : List PooledConnection)
    → ((c : ℕ) → find c is ≡ find c p.connections)
    → distinct is ≡ true
    → IsServed p
    → IsServed (record p { connections = is })
unfolding IsServed waiting
connections-IsServed p is same u v k h = all_reordered is_full p.connections is same u (v k h)

cleanup_idle-IsServed :
    (now : ℕ) (p : Pool) → IsConsistent p → IsServed p → IsServed (cleanup_idle now p).0
cleanup_idle-IsServed now p w v =
    (cleanup_idle_keeps (λ q. IsConsistent q × IsServed q)
      (λ now i q found e both. (
        remove_locked-IsConsistent i q found both.0,
        subst⁻¹ IsServed (remove_idle now i q both.0 found e) (discard-IsServed i.conn q both.1),
      ))
      now p w.apart (w, v)).1

Step-IsServed : (p q : Pool) → Step p q → IsConsistent p → IsServed p → IsServed q
unfolding start_min_connections dial_failed
Step-IsServed _ _ (binds p key) w v = Bound-IsServed key p _ (bind-Bound key p) w.apart v
Step-IsServed _ _ (tries p key) w v = Bound-IsServed key p _ (try_bind-Bound key p) w.apart v
Step-IsServed _ _ (unbinds p now key) w v = unbind-IsServed now key p v
Step-IsServed _ _ (starts p) w v = dials-IsServed p _ v
Step-IsServed _ _ (fails p dialling) w v = dials-IsServed p _ v
Step-IsServed _ _ (dials p c dialling new) w v = dialled-IsServed c ConnectionState.connecting p v
Step-IsServed _ _ (changes p c e) w v = observe-IsServed c e p v
Step-IsServed _ _ (syncs p c) w v = Synced-IsServed c p _ (sync-Synced c p) w v
Step-IsServed _ _ (cleans p now) w v = cleanup_idle-IsServed now p w v
Step-IsServed _ _ (shuts p) w v = begin_shutdown-IsServed p v
Step-IsServed _ _ (clears p h) w v = clear_pool-IsServed p
Step-IsServed _ _ (ranges_bindings p bs same) w v = bindings-IsServed p bs same v
Step-IsServed _ _ (ranges_connections p is same u n) w v = connections-IsServed p is same u v

new-IsServed : (c : PoolConfig) → IsServed (new_connection_pool c)
unfolding IsServed new_connection_pool
new-IsServed c k h = refl

-- In a pool that a new one can come to, a session that is bound but has no connection waits only
-- because no connection of the pool has room.
pub Reaches-IsServed : (c : PoolConfig) (p : Pool) → Reaches (new_connection_pool c) p → IsServed p
Reaches-IsServed c p r =
    (Reaches_keeps (λ q. IsConsistent q × IsServed q)
      (λ q s step v. (Step-IsConsistent q s step v.0, Step-IsServed q s step v.0 v.1))
      (new_connection_pool c) p r (new-IsConsistent c, new-IsServed c)).1
