-- ===== src/Gateway/Pool/Dials.antt =====
-- internal/gateway/pool.go: how many connections a pool has, with those that are being dialled.
use voce.Prelude.{
  ℕ, ◌+◌, ◌-◌, ◌<◌, ◌≤◌, ◌≡◌, ◌⊎◌, String, Bool, true, false, ◌||◌, ltb, leb, not, Option, some,
  List, arith, inl, inr, Option-cases, Bool-cases, length,
}
use voce.Prelude.Maps.{lookup}
use voce.Protocol.Types.{ConnectionState}
use voce.Gateway.Pool.{
  PooledConnection, PoolConfig, Pool, new_connection_pool, find, revise, discard, refresh,
  take_session, attach_locked, assign_pending_locked, reserve_dial_locked, reserve_scale_locked,
}
use voce.Gateway.Pool.Calls.{
  lose_session, unbind, start_min_connections, dial_failed, dialled, remove_locked, begin_shutdown,
  clear_pool,
}
use voce.Gateway.Pool.Steps.{
  observe, Step, binds, tries, unbinds, starts, fails, dials, changes, syncs, cleans, shuts, clears,
  ranges_bindings, ranges_connections, Reaches, Reaches_keeps,
}
use voce.Gateway.Pool.Items.{distinct, length-revise, length-discard}
use voce.Gateway.Pool.Attach.{IsConsistent, assign_pending_keeps}
use voce.Gateway.Pool.Detach.{detach, unbind_unrouted, unbind_routed}
use voce.Gateway.Pool.Remove.{drop_routes-IsSame}
use voce.Gateway.Pool.Consistent.{
  Bound, bind-Bound, try_bind-Bound, again, waits, refused, joins, scales, new-IsConsistent,
}
use voce.Gateway.Pool.Cleanup.{cleanup_idle_keeps}
use voce.Gateway.Pool.Reach.{
  added, dialled_open, dialled_closed, Synced, sync-Synced, stranger, removed, updated,
  Step-IsConsistent,
}

-- Where their number is limited, the connections and the dials are no more than the limit, or than the
-- number that the pool starts with.
unfoldable pub limited : Pool → Bool
limited p =
    not (ltb 0 p.max_conns)
    || leb (length p.connections + p.pending_dials) p.max_conns
    || leb (length p.connections + p.pending_dials) p.min_conns

attach_locked-limited :
    (key : String) (c : ℕ) (p : Pool) → limited p ≡ true → limited (attach_locked key c p) ≡ true
unfolding attach_locked limited
attach_locked-limited key c p h =
    ground (arith, h, length-revise c (take_session p.max_sessions key) p.connections)

assign_pending_locked-limited :
    (p : Pool) → limited p ≡ true → limited (assign_pending_locked p) ≡ true
unfolding assign_pending_locked
assign_pending_locked-limited p =
    assign_pending_keeps (λ q. limited q ≡ true)
      (λ key i q g e v. attach_locked-limited key i.conn q v) p.bindings p

reserve_dial-limited : (p : Pool) → limited p ≡ true → limited (reserve_dial_locked p).0 ≡ true
unfolding reserve_dial_locked limited
reserve_dial-limited p h = ground (arith, h)

reserve_scale-limited : (p : Pool) → limited p ≡ true → limited (reserve_scale_locked p).0 ≡ true
unfolding reserve_scale_locked
reserve_scale-limited p h = ground (arith, h, reserve_dial-limited p h)

rebind-limited :
    (bs : List (String × Option ℕ)) (p : Pool)
    → limited p ≡ true
    → limited (record p { bindings = bs }) ≡ true
unfolding limited
rebind-limited bs p h = h

Bound-limited : (key : String) (p q : Pool) → Bound key p q → limited p ≡ true → limited q ≡ true
Bound-limited key p q again h = h
Bound-limited key p q (waits e g) h = reserve_dial-limited _ (rebind-limited _ p h)
Bound-limited key p q refused h = reserve_dial-limited p h
Bound-limited key p q (joins i e g) h = attach_locked-limited key i.conn p h
Bound-limited key p q (scales i e g) h =
    reserve_scale-limited _ (attach_locked-limited key i.conn p h)

detach-limited :
    (now : ℕ) (key : String) (c : ℕ) (p : Pool)
    → limited p ≡ true
    → limited (detach now key c p) ≡ true
unfolding detach limited
detach-limited now key c p h =
    ground (arith, h, length-revise c (lose_session now p.max_sessions key) p.connections)

unbind-limited :
    (now : ℕ) (key : String) (p : Pool) → limited p ≡ true → limited (unbind now key p) ≡ true
unbind-limited now key p h = elim (Option-cases (lookup key p.routes)) [
  | inl e ↦ rw (unbind_unrouted now key p e) (rebind-limited _ p h)
  | inr (c, e) ↦
      rw (unbind_routed now key c p e)
        (assign_pending_locked-limited _ (detach-limited now key c p h))
]

start_min-limited : (p : Pool) → limited p ≡ true → limited (start_min_connections p) ≡ true
unfolding limited start_min_connections
start_min-limited p h = ground (arith, h)

fewer_dials-limited :
    (p : Pool)
    → limited p ≡ true
    → limited (record p { pending_dials = p.pending_dials - 1 }) ≡ true
unfolding limited
fewer_dials-limited p h = ground (arith, h)

added-limited :
    (c : ℕ) (state : ConnectionState) (p : Pool)
    → 0 < p.pending_dials
    → p.closed ≡ false
    → limited p ≡ true
    → limited (added c state p) ≡ true
unfolding limited added
added-limited c state p dialling still h = ground (arith, h, dialling, still)

dialled-limited :
    (c : ℕ) (state : ConnectionState) (p : Pool)
    → 0 < p.pending_dials
    → limited p ≡ true
    → limited (dialled c state p).0 ≡ true
dialled-limited c state p dialling h = elim (Bool-cases p.closed) [
  | inl e ↦ rw (dialled_closed c state p e) (fewer_dials-limited p h)
  | inr e ↦
      rw (dialled_open c state p e)
        (assign_pending_locked-limited _ (added-limited c state p dialling e h))
]

revise-limited :
    (c : ℕ) (f : PooledConnection → PooledConnection) (p : Pool)
    → limited p ≡ true
    → limited (record p { connections = revise c f p.connections }) ≡ true
unfolding limited
revise-limited c f p h = ground (arith, h, length-revise c f p.connections)

remove_locked-limited :
    (i : PooledConnection) (p : Pool)
    → find i.conn p.connections ≡ some i
    → limited p ≡ true
    → limited (remove_locked i p) ≡ true
unfolding remove_locked limited
remove_locked-limited i p found h =
    let fewer : Pool = record p { connections = discard i.conn p.connections } in
    let same = drop_routes-IsSame i.conn i.sessions fewer in
    ground (
      arith,
      h,
      length-discard i.conn i p.connections found,
      same.connections,
      same.max_conns,
      same.min_conns,
      same.pending_dials,
      same.closed,
    )

Synced-limited : (c : ℕ) (p q : Pool) → Synced c p q → limited p ≡ true → limited q ≡ true
Synced-limited c p q stranger h = h
Synced-limited c p q (removed i found) h =
    assign_pending_locked-limited _ (remove_locked-limited i p found h)
Synced-limited c p q updated h = revise-limited c (refresh p.max_sessions) p h

clear_pool-limited : (p : Pool) → limited p ≡ true → limited (clear_pool p).0 ≡ true
unfolding clear_pool limited
clear_pool-limited p h = ground (arith, h)

begin_shutdown-limited : (p : Pool) → limited p ≡ true → limited (begin_shutdown p).0 ≡ true
unfolding begin_shutdown limited
begin_shutdown-limited p h = h

connections-limited :
    (p : Pool) (is : List PooledConnection)
    → length is ≡ length p.connections
    → limited p ≡ true
    → limited (record p { connections = is }) ≡ true
unfolding limited
connections-limited p is n h = ground (arith, n, h)

abbrev IsWithin : Pool → Type 0
IsWithin p = IsConsistent p × (limited p ≡ true)

Step-limited :
    (p q : Pool) → Step p q → distinct p.connections ≡ true → limited p ≡ true → limited q ≡ true
unfolding dial_failed
Step-limited _ _ (binds p key) u h = Bound-limited key p _ (bind-Bound key p) h
Step-limited _ _ (tries p key) u h = Bound-limited key p _ (try_bind-Bound key p) h
Step-limited _ _ (unbinds p now key) u h = unbind-limited now key p h
Step-limited _ _ (starts p) u h = start_min-limited p h
Step-limited _ _ (fails p dialling) u h = fewer_dials-limited p h
Step-limited _ _ (dials p c dialling new) u h =
    dialled-limited c ConnectionState.connecting p dialling h
Step-limited _ _ (changes p c e) u h = revise-limited c (observe e) p h
Step-limited _ _ (syncs p c) u h = Synced-limited c p _ (sync-Synced c p) h
Step-limited _ _ (cleans p now) u h =
    cleanup_idle_keeps (λ q. limited q ≡ true)
      (λ now i q found e w. remove_locked-limited i q found w) now p u h
Step-limited _ _ (shuts p) u h = begin_shutdown-limited p h
Step-limited _ _ (clears p e) u h = clear_pool-limited p h
Step-limited _ _ (ranges_bindings p bs same) u h = rebind-limited bs p h
Step-limited _ _ (ranges_connections p is same apart n) u h = connections-limited p is n h

new-limited : (c : PoolConfig) → limited (new_connection_pool c) ≡ true
unfolding limited new_connection_pool
new-limited c = ground arith

all-limited : (c : PoolConfig) (p : Pool) → Reaches (new_connection_pool c) p → limited p ≡ true
all-limited c p r =
    (Reaches_keeps IsWithin
      (λ q s step v. (Step-IsConsistent q s step v.0, Step-limited q s step v.0.apart v.1))
      (new_connection_pool c) p r (new-IsConsistent c, new-limited c)).1

-- In a pool that a new one can come to and whose connections are limited in number, the connections
-- and the dials under way are together no more than the limit or the number that the pool starts with.
pub Reaches-limited :
    (c : PoolConfig) (p : Pool)
    → Reaches (new_connection_pool c) p
    → 0 < p.max_conns
    → (length p.connections + p.pending_dials ≤ p.max_conns)
      ⊎ (length p.connections + p.pending_dials ≤ p.min_conns)
unfolding limited
Reaches-limited c p r h = ground (arith, h, all-limited c p r)
