-- ===== src/Gateway/Pool/Ended.antt =====
-- internal/gateway/pool.go: a pool that was shut down gets no connection any more.
use voce.Prelude.{
  map, is_some, if◌then◌else◌, ℕ, ◌-◌, ◌≡◌, ◌≢◌, refl, String, Bool, true, false, ◌==◌, ◌&&◌,
  Option, none, some, List, [], ◌∷◌, arith, inl, inr, Option-cases, Bool-cases, length,
}
use voce.Prelude.Maps.{lookup}
use voce.Protocol.Types.{ConnectionState}
use voce.Gateway.Pool.{
  PooledConnection, PoolConfig, Pool, new_connection_pool, find, revise, discard, refresh,
  take_session, attach_locked, assign_pending_locked, reserve_dial_locked, reserve_scale_locked,
}
use voce.Gateway.Pool.Calls.{
  lose_session, unbind, start_min_connections, dial_failed, dialled, remove_locked, begin_shutdown,
  let_go, clear_pool,
}
use voce.Gateway.Pool.Steps.{
  observe, Step, binds, tries, unbinds, starts, fails, dials, changes, syncs, cleans, shuts, clears,
  ranges_bindings, ranges_connections, Reaches, Reaches_keeps,
}
use voce.Gateway.Pool.Items.{distinct, length-revise, length-discard}
use voce.Gateway.Pool.Attach.{IsConsistent, holds, leads, target, assign_pending_keeps}
use voce.Gateway.Pool.Detach.{detach, unbind_unrouted, unbind_routed}
use voce.Gateway.Pool.Remove.{drop_routes-IsSame}
use voce.Gateway.Pool.Consistent.{
  Bound, bind-Bound, try_bind-Bound, again, waits, refused, joins, scales,
}
use voce.Gateway.Pool.Cleanup.{cleanup_idle_keeps}
use voce.Gateway.Pool.Reach.{
  dialled_closed, Synced, sync-Synced, stranger, removed, updated, Step-IsConsistent,
  Reaches-IsConsistent,
}

-- Closed, and without connections.
unfoldable pub ended : Pool → Bool
ended p = p.closed && (length p.connections == 0)

ended_open : (p : Pool) → ended p ≡ true → p.closed ≢ false
unfolding ended
ended_open p h e = ground (arith, h, e)

attach_locked-ended :
    (key : String) (c : ℕ) (p : Pool) → ended p ≡ true → ended (attach_locked key c p) ≡ true
unfolding attach_locked ended
attach_locked-ended key c p h =
    ground (arith, h, length-revise c (take_session p.max_sessions key) p.connections)

assign_pending_locked-ended : (p : Pool) → ended p ≡ true → ended (assign_pending_locked p) ≡ true
unfolding assign_pending_locked
assign_pending_locked-ended p =
    assign_pending_keeps (λ q. ended q ≡ true) (λ key i q g e v. attach_locked-ended key i.conn q v)
      p.bindings p

reserve_dial-ended : (p : Pool) → ended p ≡ true → ended (reserve_dial_locked p).0 ≡ true
unfolding reserve_dial_locked ended
reserve_dial-ended p h = ground (arith, h)

reserve_scale-ended : (p : Pool) → ended p ≡ true → ended (reserve_scale_locked p).0 ≡ true
unfolding reserve_scale_locked
reserve_scale-ended p h = ground (arith, h, reserve_dial-ended p h)

rebind-ended :
    (bs : List (String × Option ℕ)) (p : Pool)
    → ended p ≡ true
    → ended (record p { bindings = bs }) ≡ true
unfolding ended
rebind-ended bs p h = h

Bound-ended : (key : String) (p q : Pool) → Bound key p q → ended p ≡ true → ended q ≡ true
Bound-ended key p q again h = h
Bound-ended key p q (waits e g) h = reserve_dial-ended _ (rebind-ended _ p h)
Bound-ended key p q refused h = reserve_dial-ended p h
Bound-ended key p q (joins i e g) h = attach_locked-ended key i.conn p h
Bound-ended key p q (scales i e g) h = reserve_scale-ended _ (attach_locked-ended key i.conn p h)

detach-ended :
    (now : ℕ) (key : String) (c : ℕ) (p : Pool) → ended p ≡ true → ended (detach now key c p) ≡ true
unfolding detach ended
detach-ended now key c p h =
    ground (arith, h, length-revise c (lose_session now p.max_sessions key) p.connections)

unbind-ended :
    (now : ℕ) (key : String) (p : Pool) → ended p ≡ true → ended (unbind now key p) ≡ true
unbind-ended now key p h = elim (Option-cases (lookup key p.routes)) [
  | inl e ↦ rw (unbind_unrouted now key p e) (rebind-ended _ p h)
  | inr (c, e) ↦
      rw (unbind_routed now key c p e) (assign_pending_locked-ended _ (detach-ended now key c p h))
]

start_min-ended : (p : Pool) → ended p ≡ true → ended (start_min_connections p) ≡ true
unfolding ended start_min_connections
start_min-ended p h = ground (arith, h)

fewer_dials-ended :
    (p : Pool) → ended p ≡ true → ended (record p { pending_dials = p.pending_dials - 1 }) ≡ true
unfolding ended
fewer_dials-ended p h = ground (arith, h)

dialled-ended :
    (c : ℕ) (state : ConnectionState) (p : Pool)
    → ended p ≡ true
    → ended (dialled c state p).0 ≡ true
dialled-ended c state p h = elim (Bool-cases p.closed) [
  | inl e ↦ rw (dialled_closed c state p e) (fewer_dials-ended p h)
  | inr e ↦ absurd (ended_open p h e)
]

revise-ended :
    (c : ℕ) (f : PooledConnection → PooledConnection) (p : Pool)
    → ended p ≡ true
    → ended (record p { connections = revise c f p.connections }) ≡ true
unfolding ended
revise-ended c f p h = ground (arith, h, length-revise c f p.connections)

remove_locked-ended :
    (i : PooledConnection) (p : Pool)
    → find i.conn p.connections ≡ some i
    → ended p ≡ true
    → ended (remove_locked i p) ≡ true
unfolding remove_locked ended
remove_locked-ended i p found h =
    let fewer : Pool = record p { connections = discard i.conn p.connections } in
    let same = drop_routes-IsSame i.conn i.sessions fewer in
    ground (
      arith,
      h,
      length-discard i.conn i p.connections found,
      same.connections,
      same.max_conns,
      same.min_conns,
      same.pending_dials,
      same.closed,
    )

Synced-ended : (c : ℕ) (p q : Pool) → Synced c p q → ended p ≡ true → ended q ≡ true
Synced-ended c p q stranger h = h
Synced-ended c p q (removed i found) h =
    assign_pending_locked-ended _ (remove_locked-ended i p found h)
Synced-ended c p q updated h = revise-ended c (refresh p.max_sessions) p h

clear_pool-ended : (p : Pool) → p.closed ≡ true → ended (clear_pool p).0 ≡ true
unfolding clear_pool ended
clear_pool-ended p h = ground (arith, h)

begin_shutdown-ended : (p : Pool) → ended p ≡ true → ended (begin_shutdown p).0 ≡ true
unfolding begin_shutdown ended
begin_shutdown-ended p h = ground (arith, h)

connections-ended :
    (p : Pool) (is : List PooledConnection)
    → length is ≡ length p.connections
    → ended p ≡ true
    → ended (record p { connections = is }) ≡ true
unfolding ended
connections-ended p is n h = ground (arith, n, h)

Step-ended :
    (p q : Pool) → Step p q → distinct p.connections ≡ true → ended p ≡ true → ended q ≡ true
unfolding dial_failed
Step-ended _ _ (binds p key) u h = Bound-ended key p _ (bind-Bound key p) h
Step-ended _ _ (tries p key) u h = Bound-ended key p _ (try_bind-Bound key p) h
Step-ended _ _ (unbinds p now key) u h = unbind-ended now key p h
Step-ended _ _ (starts p) u h = start_min-ended p h
Step-ended _ _ (fails p dialling) u h = fewer_dials-ended p h
Step-ended _ _ (dials p c dialling new) u h = dialled-ended c ConnectionState.connecting p h
Step-ended _ _ (changes p c e) u h = revise-ended c (observe e) p h
Step-ended _ _ (syncs p c) u h = Synced-ended c p _ (sync-Synced c p) h
Step-ended _ _ (cleans p now) u h =
    cleanup_idle_keeps (λ q. ended q ≡ true) (λ now i q found e w. remove_locked-ended i q found w)
      now p u h
Step-ended _ _ (shuts p) u h = begin_shutdown-ended p h
Step-ended _ _ (clears p e) u h = clear_pool-ended p e
Step-ended _ _ (ranges_bindings p bs same) u h = rebind-ended bs p h
Step-ended _ _ (ranges_connections p is same apart n) u h = connections-ended p is n h

no_item : (c : ℕ) (is : List PooledConnection) → length is ≡ 0 → find c is ≡ none
unfolding find
no_item c [] h = refl
no_item c (i ∷ is) h = absurd (omega (arith, h))

nothing_held :
    (k : String) (c : ℕ) (p : Pool)
    → IsConsistent p
    → length p.connections ≡ 0
    → lookup k p.routes ≢ some c
unfolding holds leads
nothing_held k c p v h e = ground (arith, e, v.routed k c, no_item c p.connections h)

unbound :
    (k : String) (p : Pool)
    → IsConsistent p
    → length p.connections ≡ 0
    → target (lookup k p.bindings) ≡ none
unbound k p v h = elim (Option-cases (lookup k p.routes)) [
  | inl e ↦ ground (arith, e, v.bound k)
  | inr (c, e) ↦ absurd (nothing_held k c p v h e)
]

-- The handles that sessions hold are those that were bound, each nil.
cleared_handle :
    (k : String) (bs : List (String × Option ℕ))
    → lookup k (map let_go bs) ≡ (if is_some (lookup k bs) then some none else none)
unfolding lookup
cleared_handle k [] = refl
cleared_handle k ((j, b) ∷ bs) = ground (arith, cleared_handle k bs)

abbrev IsEnded : Pool → Type 0
IsEnded p = IsConsistent p × (ended p ≡ true)

-- After Shutdown's locked section in a pool that a new one can come to, each session that was bound
-- holds a nil binding, and whatever happens to the pool since, it has no connection, and a binding
-- that it gives is nil too.
pub clear_pool_lasts :
    (c : PoolConfig) (p q : Pool) (k : String)
    → Reaches (new_connection_pool c) p
    → p.closed ≡ true
    → Reaches (clear_pool p).0 q
    → (lookup k (clear_pool p).1 ≡ (if is_some (lookup k p.bindings) then some none else none))
      × (length q.connections ≡ 0)
      × (target (lookup k q.bindings) ≡ none)
unfolding clear_pool ended
clear_pool_lasts c p q k before shut after =
    let start : IsEnded (clear_pool p).0 = (
      Step-IsConsistent p (clear_pool p).0 (clears p shut) (Reaches-IsConsistent c p before),
      clear_pool-ended p shut,
    ) in
    let (v, over) =
      Reaches_keeps IsEnded
        (λ r s step w. (Step-IsConsistent r s step w.0, Step-ended r s step w.0.apart w.1))
        (clear_pool p).0 q after start in
    let none_left : length q.connections ≡ 0 = ground (arith, over) in
    (cleared_handle k p.bindings, none_left, unbound k q v none_left)
