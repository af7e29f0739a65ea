-- ===== src/Gateway/Pool/Remove.antt =====
-- internal/gateway/pool.go: the items, the routes and the bindings still say the same when a connection
-- is taken out of the pool.
use voce.Prelude.{
  ℕ, ◌≡◌, refl, sym, ap, ◌∙◌, String, true, false, ◌==◌, ◌&&◌, if◌then◌else◌, none, some, is_some,
  List, [], ◌∷◌, arith, inl, inr, Option-cases, eq_iff, str_eq,
}
use voce.Prelude.Maps.{lookup, lookup-insert, lookup-erase}
use voce.Gateway.Pool.{PooledConnection, Pool, find, discard}
use voce.Gateway.Pool.Calls.{drop_route, drop_routes, remove_locked}
use voce.Gateway.Pool.Items.{distinct, find-discard, distinct-discard, all-discard}
use voce.Gateway.Pool.Sound.{sound}
use voce.Gateway.Pool.Attach.{IsConsistent, holds, leads, target}

route-drop_route :
    (c : ℕ) (key k : String) (p : Pool)
    → lookup k (drop_route c key p).routes
      ≡ (if str_eq key k && leads k c p.routes then none else lookup k p.routes)
unfolding drop_route leads
route-drop_route c key k p = elim (Option-cases (lookup key p.routes)) [
  | inl e ↦ ground (arith, e, eq_iff key k)
  | inr (d, e) ↦ ground (arith, e, eq_iff key k, lookup-erase key k p.routes)
]

binding-drop_route :
    (c : ℕ) (key k : String) (p : Pool)
    → target (lookup k (drop_route c key p).bindings)
      ≡ (if str_eq key k && leads k c p.routes then none else target (lookup k p.bindings))
unfolding drop_route leads
binding-drop_route c key k p = elim (Option-cases (lookup key p.routes)) [
  | inl e ↦ ground (arith, e, eq_iff key k)
  | inr (d, e) ↦ elim (Option-cases (lookup key p.bindings)) [
    | inl g ↦ ground (arith, e, g, eq_iff key k)
    | inr (b, g) ↦ ground (arith, e, g, eq_iff key k, lookup-insert key k none p.bindings)
  ]
]

route-drop_routes :
    (c : ℕ) (ss : List (String × Unit {0})) (k : String) (p : Pool)
    → lookup k (drop_routes c ss p).routes
      ≡ (if is_some (lookup k ss) && leads k c p.routes then none else lookup k p.routes)
unfolding drop_routes lookup leads
route-drop_routes c [] k p = refl
route-drop_routes c ((key, _) ∷ ss) k p =
    ground (arith, route-drop_routes c ss k (drop_route c key p), route-drop_route c key k p)

binding-drop_routes :
    (c : ℕ) (ss : List (String × Unit {0})) (k : String) (p : Pool)
    → target (lookup k (drop_routes c ss p).bindings)
      ≡ (if is_some (lookup k ss) && leads k c p.routes then none else target (lookup k p.bindings))
unfolding drop_routes lookup leads
binding-drop_routes c [] k p = refl
binding-drop_routes c ((key, _) ∷ ss) k p = ground (
  arith,
  binding-drop_routes c ss k (drop_route c key p),
  route-drop_route c key k p,
  binding-drop_route c key k p,
)

bound-drop_route :
    (c : ℕ) (key k : String) (p : Pool)
    → is_some (lookup k (drop_route c key p).bindings) ≡ is_some (lookup k p.bindings)
unfolding drop_route
bound-drop_route c key k p = elim (Option-cases (lookup key p.routes)) [
  | inl e ↦ ground (arith, e)
  | inr (d, e) ↦ elim (Option-cases (lookup key p.bindings)) [
    | inl g ↦ ground (arith, e, g)
    | inr (b, g) ↦ ground (arith, e, g, eq_iff key k, lookup-insert key k none p.bindings)
  ]
]

-- Which sessions are bound does not change.
pub bound-drop_routes :
    (c : ℕ) (ss : List (String × Unit {0})) (k : String) (p : Pool)
    → is_some (lookup k (drop_routes c ss p).bindings) ≡ is_some (lookup k p.bindings)
unfolding drop_routes
bound-drop_routes c [] k p = refl
bound-drop_routes c ((key, _) ∷ ss) k p =
    bound-drop_routes c ss k (drop_route c key p) ∙ bound-drop_route c key k p

-- All but the routes and the bindings.
pub record IsSame (p q : Pool) : Type 0 where
  pub connections : q.connections ≡ p.connections
  pub max_sessions : q.max_sessions ≡ p.max_sessions
  pub max_conns : q.max_conns ≡ p.max_conns
  pub min_conns : q.min_conns ≡ p.min_conns
  pub pending_dials : q.pending_dials ≡ p.pending_dials
  pub closed : q.closed ≡ p.closed

drop_route-IsSame : (c : ℕ) (key : String) (p : Pool) → IsSame p (drop_route c key p)
unfolding drop_route
drop_route-IsSame c key p = elim (Option-cases (lookup key p.routes)) [
  | inl e ↦ ground (arith, e)
  | inr (d, e) ↦ ground (arith, e)
]

pub drop_routes-IsSame :
    (c : ℕ) (ss : List (String × Unit {0})) (p : Pool) → IsSame p (drop_routes c ss p)
unfolding drop_routes
drop_routes-IsSame c [] p = ground arith
drop_routes-IsSame c ((key, _) ∷ ss) p =
    ground (arith, drop_routes-IsSame c ss (drop_route c key p), drop_route-IsSame c key p)

taken :
    (i : PooledConnection) (k : String) (d : ℕ) (p : Pool)
    → find i.conn p.connections ≡ some i
    → IsConsistent p
    → (if i.conn == d then false else holds k d p.connections) ≡ (
        if is_some (lookup k i.sessions) && leads k i.conn p.routes
        then false
        else leads k d p.routes)
unfolding holds leads
taken i k d p found v = elim (Option-cases (lookup k p.routes)) [
  | inl e ↦ ground (arith, e, found, v.routed k d, v.routed k i.conn)
  | inr (c, e) ↦ ground (arith, e, found, v.routed k d, v.routed k i.conn)
]

holds-discard :
    (k : String) (c d : ℕ) (is : List PooledConnection)
    → distinct is ≡ true
    → holds k d (discard c is) ≡ (if c == d then false else holds k d is)
unfolding holds
holds-discard k c d is u = ground (arith, find-discard c d is u)

leads-drop_routes :
    (c : ℕ) (ss : List (String × Unit {0})) (k : String) (d : ℕ) (p : Pool)
    → leads k d (drop_routes c ss p).routes
      ≡ (if is_some (lookup k ss) && leads k c p.routes then false else leads k d p.routes)
unfolding leads
leads-drop_routes c ss k d p = elim (Option-cases (lookup k p.routes)) [
  | inl e ↦ ground (arith, e, leads, route-drop_routes c ss k p)
  | inr (b, e) ↦ ground (arith, e, leads, route-drop_routes c ss k p)
]

pub remove_locked-IsConsistent :
    (i : PooledConnection) (p : Pool)
    → find i.conn p.connections ≡ some i
    → IsConsistent p
    → IsConsistent (remove_locked i p)
unfolding remove_locked
remove_locked-IsConsistent i p found v =
    let fewer = record p { connections = discard i.conn p.connections } in
    let same = drop_routes-IsSame i.conn i.sessions fewer in
    let kept = all-discard (sound p.max_sessions) i.conn p.connections v.items in
    record {
      room = ground (arith, same.max_sessions, v.room);
      items = ground (arith, same.max_sessions, same.connections, kept);
      apart = ground (arith, same.connections, distinct-discard i.conn p.connections v.apart);
      routed = λ k d.
          ap (holds k d) same.connections
          ∙ holds-discard k i.conn d p.connections v.apart
          ∙ taken i k d p found v
          ∙ sym (leads-drop_routes i.conn i.sessions k d fewer);
      bound = λ k. ground (
        arith,
        v.bound k,
        route-drop_routes i.conn i.sessions k fewer,
        binding-drop_routes i.conn i.sessions k fewer,
      );
    }
