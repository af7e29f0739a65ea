-- ===== src/Gateway/Pool/Pending.antt =====
-- internal/gateway/pool.go: the sessions that wait for a connection.
use voce.Prelude.{
  ℕ, ◌≡◌, String, Bool, true, false, ◌&&◌, ◌||◌, not, if◌then◌else◌, Option, some, is_some, List,
  [], ◌∷◌, all, arith, inl, inr, Option-cases, Bool-cases, eq_iff, str_eq,
}
use voce.Prelude.Maps.{lookup, lookup-insert, lookup-erase}
use voce.Protocol.Types.{ConnectionState}
use voce.Gateway.Pool.{
  PooledConnection, Pool, is_full, select_locked, attach_locked, assign_pending,
  assign_pending_locked, reserve_dial_locked, reserve_scale_locked,
}
use voce.Gateway.Pool.Calls.{unbind, dialled}
use voce.Gateway.Pool.Items.{distinct, all-find}
use voce.Gateway.Pool.Select.{select_locked-none, select_locked-least}
use voce.Gateway.Pool.Attach.{assign_pending_keeps}
use voce.Gateway.Pool.Detach.{forget, unbind_unrouted, unbind_routed}
use voce.Gateway.Pool.Consistent.{
  Bound, reserve_dial_lem, reserve_scale_lem, again, waits, refused, joins, scales,
}
use voce.Gateway.Pool.Reach.{dialled_open, dialled_closed}

-- The session is bound and has no route.
unfoldable pub waiting : String → Pool → Bool
waiting k p = is_some (lookup k p.bindings) && not (is_some (lookup k p.routes))

-- A session waits only while no connection has room.
unfoldable pub IsServed : Pool → Type 0
IsServed p = (k : String) → waiting k p ≡ true → all is_full p.connections ≡ true

route-attach_locked :
    (key k : String) (c : ℕ) (p : Pool)
    → lookup k (attach_locked key c p).routes ≡ (if str_eq key k then some c else lookup k p.routes)
unfolding attach_locked
route-attach_locked key k c p = lookup-insert key k c p.routes

binding-attach_locked :
    (key k : String) (c : ℕ) (p : Pool)
    → lookup k (attach_locked key c p).bindings
      ≡ (if str_eq key k then some (some c) else lookup k p.bindings)
unfolding attach_locked
binding-attach_locked key k c p = lookup-insert key k (some c) p.bindings

routed_kept :
    (k : String) (bs : List (String × Option ℕ)) (p : Pool)
    → is_some (lookup k p.routes) ≡ true
    → is_some (lookup k (assign_pending bs p).routes) ≡ true
routed_kept k =
    assign_pending_keeps (λ q. is_some (lookup k q.routes) ≡ true)
      (λ key i q g e v. ground (arith, v, route-attach_locked key k i.conn q))

bound_before :
    (k : String) (bs : List (String × Option ℕ)) (p : Pool)
    → is_some (lookup k (assign_pending bs p).bindings) ≡ true
    → (is_some (lookup k p.bindings) || is_some (lookup k bs)) ≡ true
unfolding assign_pending lookup
bound_before k [] p h = ground (arith, h)
bound_before k ((key, b) ∷ bs) p h = elim (Option-cases (lookup key p.routes)) [
  | inr (c, e) ↦ ground (arith, h, e, bound_before k bs p)
  | inl e ↦ elim (Option-cases (select_locked p)) [
    | inl g ↦ ground (arith, h, e, g)
    | inr (i, g) ↦ ground (
      arith,
      h,
      e,
      g,
      bound_before k bs (attach_locked key i.conn p),
      binding-attach_locked key k i.conn p,
    )
  ]
]

-- After the loop, a session that it went over has a route or every connection is full.
assigned :
    (k : String) (bs : List (String × Option ℕ)) (p : Pool)
    → is_some (lookup k bs) ≡ true
    → is_some (lookup k (assign_pending bs p).routes) ≡ false
    → all is_full (assign_pending bs p).connections ≡ true
unfolding assign_pending lookup
assigned k [] p h n = absurd (cc h)
assigned k ((key, b) ∷ bs) p h n = elim (Option-cases (lookup key p.routes)) [
  | inr (c, e) ↦ ground (arith, h, n, e, eq_iff key k, assigned k bs p, routed_kept k bs p)
  | inl e ↦ elim (Option-cases (select_locked p)) [
    | inl g ↦ ground (arith, h, n, e, g, select_locked-none p)
    | inr (i, g) ↦ ground (
      arith,
      h,
      n,
      e,
      g,
      eq_iff key k,
      assigned k bs (attach_locked key i.conn p),
      routed_kept k bs (attach_locked key i.conn p),
      route-attach_locked key k i.conn p,
    )
  ]
]

pub assign_pending_locked-IsServed : (p : Pool) → IsServed (assign_pending_locked p)
unfolding IsServed waiting assign_pending_locked
assign_pending_locked-IsServed p k h =
    ground (arith, h, assigned k p.bindings p, bound_before k p.bindings p)

pub dials-IsServed : (p : Pool) (n : ℕ) → IsServed p → IsServed (record p { pending_dials = n })
unfolding IsServed waiting
dials-IsServed p n v = v

reserve_dial-IsServed : (p : Pool) → IsServed p → IsServed (reserve_dial_locked p).0
reserve_dial-IsServed p v = rw (reserve_dial_lem p) (dials-IsServed p _ v)

reserve_scale-IsServed : (p : Pool) → IsServed p → IsServed (reserve_scale_locked p).0
reserve_scale-IsServed p v = rw (reserve_scale_lem p) (dials-IsServed p _ v)

-- A session can wait only if the others could before.
chosen-IsServed :
    (key : String) (i : PooledConnection) (p : Pool)
    → distinct p.connections ≡ true
    → select_locked p ≡ some i
    → IsServed p
    → IsServed (attach_locked key i.conn p)
unfolding IsServed waiting
chosen-IsServed key i p u g v k h =
    let (found, free, _) = select_locked-least p i u g in
    ground (
      arith,
      h,
      free,
      v k,
      route-attach_locked key k i.conn p,
      binding-attach_locked key k i.conn p,
      all-find is_full i.conn i p.connections,
      found,
    )

full-IsServed : (p : Pool) → all is_full p.connections ≡ true → IsServed p
unfolding IsServed
full-IsServed p h k w = h

pub Bound-IsServed :
    (key : String) (p q : Pool)
    → Bound key p q
    → distinct p.connections ≡ true
    → IsServed p
    → IsServed q
Bound-IsServed key p q again u v = v
Bound-IsServed key p q (waits e g) u v =
    reserve_dial-IsServed _ (full-IsServed _ (select_locked-none p g))
Bound-IsServed key p q refused u v = reserve_dial-IsServed p v
Bound-IsServed key p q (joins i e g) u v = chosen-IsServed key i p u g v
Bound-IsServed key p q (scales i e g) u v = reserve_scale-IsServed _ (chosen-IsServed key i p u g v)

forget-IsServed : (key : String) (p : Pool) → IsServed p → IsServed (forget key p)
unfolding IsServed waiting
forget-IsServed key p v k h = ground (arith, h, v k, lookup-erase key k p.bindings)

pub unbind-IsServed : (now : ℕ) (key : String) (p : Pool) → IsServed p → IsServed (unbind now key p)
unbind-IsServed now key p v = elim (Option-cases (lookup key p.routes)) [
  | inl e ↦ rw (unbind_unrouted now key p e) (forget-IsServed key p v)
  | inr (c, e) ↦ rw (unbind_routed now key c p e) (assign_pending_locked-IsServed _)
]

pub dialled-IsServed :
    (c : ℕ) (state : ConnectionState) (p : Pool) → IsServed p → IsServed (dialled c state p).0
dialled-IsServed c state p v = elim (Bool-cases p.closed) [
  | inl e ↦ rw (dialled_closed c state p e) (dials-IsServed p _ v)
  | inr e ↦ rw (dialled_open c state p e) (assign_pending_locked-IsServed _)
]
