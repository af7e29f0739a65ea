-- ===== src/Gateway/Pool/Consistent.antt =====
-- internal/gateway/pool.go: a new pool's items, routes and bindings agree, as do those of a pool in which
-- dials are reserved and sessions bound.
use voce.Prelude.{
  ℕ, ◌≡◌, refl, subst⁻¹, String, ◌==◌, ◌&&◌, Option, none, some, List, [], ◌∷◌, arith, inl, inr,
  Option-cases, Bool-cases, eq_iff,
}
use voce.Prelude.Maps.{lookup, insert, lookup-insert}
use voce.Gateway.Pool.{
  PooledConnection, PoolConfig, Pool, new_connection_pool, rank, select_locked, find, take_session,
  attach_locked, reserve_dial_locked, reserve_scale_locked,
}
use voce.Gateway.Pool.Calls.{bind, try_bind, is_active, start_min_connections, dial_failed}
use voce.Gateway.Pool.Items.{distinct}
use voce.Gateway.Pool.Select.{select_locked-least}
use voce.Gateway.Pool.Attach.{IsConsistent, holds, leads, attach_locked-IsConsistent}

pub new-IsConsistent : (c : PoolConfig) → IsConsistent (new_connection_pool c)
unfolding new_connection_pool distinct holds leads find lookup
new-IsConsistent c = record {
  room = ground arith;
  items = refl;
  apart = refl;
  routed = λ k d. refl;
  bound = λ k. refl;
}

-- The number of dials plays no part.
pub dials-IsConsistent :
    (p : Pool) (n : ℕ) → IsConsistent p → IsConsistent (record p { pending_dials = n })
dials-IsConsistent p n v = record {
  room = v.room;
  items = v.items;
  apart = v.apart;
  routed = v.routed;
  bound = v.bound;
}

pub reserve_dial_lem :
    (p : Pool)
    → (reserve_dial_locked p).0
      ≡ record p { pending_dials = (reserve_dial_locked p).0.pending_dials }
unfolding reserve_dial_locked
reserve_dial_lem p = ground arith

pub reserve_scale_lem :
    (p : Pool)
    → (reserve_scale_locked p).0
      ≡ record p { pending_dials = (reserve_scale_locked p).0.pending_dials }
unfolding reserve_scale_locked
reserve_scale_lem p = ground (arith, reserve_dial_lem p)

pub reserve_dial-IsConsistent : (p : Pool) → IsConsistent p → IsConsistent (reserve_dial_locked p).0
reserve_dial-IsConsistent p v = rw (reserve_dial_lem p) (dials-IsConsistent p _ v)

pub reserve_scale-IsConsistent :
    (p : Pool) → IsConsistent p → IsConsistent (reserve_scale_locked p).0
reserve_scale-IsConsistent p v = rw (reserve_scale_lem p) (dials-IsConsistent p _ v)

insert_again :
    (k : String) (a b : Option ℕ) (m : List (String × Option ℕ))
    → insert k a (insert k b m) ≡ insert k a m
unfolding insert
insert_again k a b [] = ground (arith, eq_iff k k)
insert_again k a b ((j, w) ∷ m) = ground (arith, eq_iff k k, insert_again k a b m)

-- An attachment writes over the binding that was made just before.
pub attach_new :
    (key : String) (c : ℕ) (b : Option ℕ) (p : Pool)
    → attach_locked key c (record p { bindings = insert key b p.bindings }) ≡ attach_locked key c p
unfolding attach_locked
attach_new key c b p = ground (arith, insert_again key (some c) b p.bindings)

unrouted :
    (key : String) (p : Pool)
    → IsConsistent p
    → lookup key p.bindings ≡ none
    → lookup key p.routes ≡ none
unrouted key p v h = ground (arith, h, v.bound key)

pub new_binding-IsConsistent :
    (key : String) (p : Pool)
    → IsConsistent p
    → lookup key p.bindings ≡ none
    → IsConsistent (record p { bindings = insert key none p.bindings })
new_binding-IsConsistent key p v h = record {
  room = v.room;
  items = v.items;
  apart = v.apart;
  routed = v.routed;
  bound = λ k. ground (arith, h, eq_iff key k, v.bound k, lookup-insert key k none p.bindings);
}

pub select_bound :
    (p : Pool) (bs : List (String × Option ℕ))
    → select_locked (record p { bindings = bs }) ≡ select_locked p
unfolding select_locked
select_bound p bs = refl

pub chosen-IsConsistent :
    (key : String) (i : PooledConnection) (p : Pool)
    → IsConsistent p
    → lookup key p.bindings ≡ none
    → select_locked p ≡ some i
    → IsConsistent (attach_locked key i.conn p)
chosen-IsConsistent key i p v h g =
    let (found, free, _) = select_locked-least p i v.apart g in
    attach_locked-IsConsistent key i p found free (unrouted key p v h) v

-- What Bind comes to.
pub data Bound (key : String) (p : Pool) : Pool → Type 0 where
  again : Bound key p p
  waits :
      lookup key p.bindings ≡ none
      → select_locked p ≡ none
      → Bound key p (reserve_dial_locked (record p { bindings = insert key none p.bindings })).0
  refused : Bound key p (reserve_dial_locked p).0
  joins :
      (i : PooledConnection)
      → lookup key p.bindings ≡ none
      → select_locked p ≡ some i
      → Bound key p (attach_locked key i.conn p)
  scales :
      (i : PooledConnection)
      → lookup key p.bindings ≡ none
      → select_locked p ≡ some i
      → Bound key p (reserve_scale_locked (attach_locked key i.conn p)).0

pub bind-Bound : (key : String) (p : Pool) → Bound key p (bind key p).0
unfolding bind
bind-Bound key p =
    let new : Pool = record p { bindings = insert key none p.bindings } in
    let same = select_bound p (insert key none p.bindings) in
    elim (Option-cases (lookup key p.bindings)) [
      | inr (b, e) ↦
          let out : (bind key p).0 ≡ p = ground (arith, e) in subst⁻¹ (Bound key p) out again
      | inl e ↦ elim (Option-cases (select_locked p)) [
        | inl g ↦
            let out : (bind key p).0 ≡ (reserve_dial_locked new).0 = ground (arith, e, g, same) in
            subst⁻¹ (Bound key p) out (waits e g)
        | inr (i, g) ↦
            let attached = attach_new key i.conn none p in
            elim (Bool-cases (rank (take_session p.max_sessions key i).priority == 0)) [
              | inl r ↦
                  let out : (bind key p).0 ≡ (reserve_scale_locked (attach_locked key i.conn p)).0 =
                    ground (arith, e, g, r, same, attached) in
                  subst⁻¹ (Bound key p) out (scales i e g)
              | inr r ↦
                  let out : (bind key p).0 ≡ attach_locked key i.conn p =
                    ground (arith, e, g, r, same, attached) in
                  subst⁻¹ (Bound key p) out (joins i e g)
            ]
      ]
    ]

pub try_bind-Bound : (key : String) (p : Pool) → Bound key p (try_bind key p).0
unfolding try_bind
try_bind-Bound key p = elim (Option-cases (lookup key p.bindings)) [
  | inr (b, e) ↦
      let out : (try_bind key p).0 ≡ p = ground (arith, e) in subst⁻¹ (Bound key p) out again
  | inl e ↦ elim (Option-cases (select_locked p)) [
    | inl g ↦
        let out : (try_bind key p).0 ≡ (reserve_dial_locked p).0 = ground (arith, e, g) in
        subst⁻¹ (Bound key p) out refused
    | inr (i, g) ↦
        let attached = attach_new key i.conn (some i.conn) p in
        elim (Bool-cases ((rank i.priority == 0) && is_active i.conn_state)) [
          | inl r ↦
              let out : (try_bind key p).0 ≡ (reserve_scale_locked (attach_locked key i.conn p)).0 =
                ground (arith, e, g, r, attached) in
              subst⁻¹ (Bound key p) out (scales i e g)
          | inr r ↦
              let out : (try_bind key p).0 ≡ p = ground (arith, e, g, r) in
              subst⁻¹ (Bound key p) out again
        ]
  ]
]

pub Bound-IsConsistent :
    (key : String) (p q : Pool) → Bound key p q → IsConsistent p → IsConsistent q
Bound-IsConsistent key p q again v = v
Bound-IsConsistent key p q (waits h g) v =
    reserve_dial-IsConsistent _ (new_binding-IsConsistent key p v h)
Bound-IsConsistent key p q refused v = reserve_dial-IsConsistent p v
Bound-IsConsistent key p q (joins i h g) v = chosen-IsConsistent key i p v h g
Bound-IsConsistent key p q (scales i h g) v =
    reserve_scale-IsConsistent _ (chosen-IsConsistent key i p v h g)

pub start_min-IsConsistent : (p : Pool) → IsConsistent p → IsConsistent (start_min_connections p)
unfolding start_min_connections
start_min-IsConsistent p v = dials-IsConsistent p _ v

pub dial_failed-IsConsistent : (p : Pool) → IsConsistent p → IsConsistent (dial_failed p)
unfolding dial_failed
dial_failed-IsConsistent p v = dials-IsConsistent p _ v
