-- ===== src/Gateway/Pool/Detach.antt =====
-- internal/gateway/pool.go: the items, the routes and the bindings still say the same when a session is
-- unbound and when a connection is taken out of the pool.
use voce.Prelude.{
  ℕ, ◌≡◌, sym, ◌∙◌, String, true, false, ◌==◌, ◌&&◌, if◌then◌else◌, none, some, is_some, List,
  arith, inl, inr, Option-cases, eq_iff, str_eq,
}
use voce.Prelude.Maps.{lookup, erase, lookup-erase}
use voce.Gateway.Pool.{PooledConnection, Pool, find, revise, refresh, assign_pending_locked}
use voce.Gateway.Pool.Calls.{lose_session, unbind}
use voce.Gateway.Pool.Items.{find-revise, distinct-revise, all-revise, all-find}
use voce.Gateway.Pool.Sound.{sound, lose_session-sound}
use voce.Gateway.Pool.Attach.{IsConsistent, holds, leads, assign_pending_locked-IsConsistent}

conn-lose_session :
    (now most : ℕ) (key : String) (i : PooledConnection)
    → (lose_session now most key i).conn ≡ i.conn
unfolding lose_session refresh
conn-lose_session now most key i = ground arith

sessions-lose_session :
    (now most : ℕ) (key : String) (i : PooledConnection)
    → (lose_session now most key i).sessions ≡ erase key i.sessions
unfolding lose_session refresh
sessions-lose_session now most key i = ground arith

holds-lose_session :
    (now most : ℕ) (key k : String) (c d : ℕ) (is : List PooledConnection)
    → holds k d (revise c (lose_session now most key) is)
      ≡ (if (c == d) && str_eq key k then false else holds k d is)
unfolding holds
holds-lose_session now most key k c d is = elim (Option-cases (find d is)) [
  | inl e ↦
      ground
        (arith, e, find-revise c d (lose_session now most key) is (conn-lose_session now most key))
  | inr (i, e) ↦ ground (
    arith,
    e,
    find-revise c d (lose_session now most key) is (conn-lose_session now most key),
    sessions-lose_session now most key i,
    lookup-erase key k i.sessions,
  )
]

leads-erase :
    (key k : String) (d : ℕ) (routes : List (String × ℕ))
    → leads k d (erase key routes) ≡ (if str_eq key k then false else leads k d routes)
unfolding leads
leads-erase key k d routes = ground (arith, lookup-erase key k routes)

-- What Unbind does before the sessions that wait are assigned.
unfoldable pub detach : ℕ → String → ℕ → Pool → Pool
detach now key c p = record p {
  bindings = erase key p.bindings;
  routes = erase key p.routes;
  connections = revise c (lose_session now p.max_sessions key) p.connections;
}

held :
    (key : String) (c : ℕ) (i : PooledConnection) (p : Pool)
    → lookup key p.routes ≡ some c
    → find c p.connections ≡ some i
    → IsConsistent p
    → is_some (lookup key i.sessions) ≡ true
unfolding holds leads
held key c i p route found v = ground (arith, found, route, v.routed key c)

detach_routed :
    (key k : String) (c d : ℕ) (p : Pool)
    → lookup key p.routes ≡ some c
    → IsConsistent p
    → (if (c == d) && str_eq key k then false else holds k d p.connections)
      ≡ (if str_eq key k then false else leads k d p.routes)
unfolding leads
detach_routed key k c d p route v = ground (arith, route, eq_iff key k, v.routed k d)

detach-IsConsistent :
    (now : ℕ) (key : String) (c : ℕ) (p : Pool)
    → lookup key p.routes ≡ some c
    → IsConsistent p
    → IsConsistent (detach now key c p)
unfolding detach
detach-IsConsistent now key c p route v =
    let loses = lose_session now p.max_sessions key in
    record {
      room = v.room;
      items =
          all-revise (sound p.max_sessions) c loses p.connections
            (λ i found.
              lose_session-sound now p.max_sessions key i
                (all-find (sound p.max_sessions) c i p.connections v.items found)
                (held key c i p route found v))
            v.items;
      apart =
          distinct-revise c loses p.connections (conn-lose_session now p.max_sessions key) v.apart;
      routed = λ k d.
          holds-lose_session now p.max_sessions key k c d p.connections
          ∙ detach_routed key k c d p route v
          ∙ sym (leads-erase key k d p.routes);
      bound = λ k.
          ground (arith, v.bound k, lookup-erase key k p.routes, lookup-erase key k p.bindings);
    }

-- What Unbind does to a session without a route.
abbrev pub forget : String → Pool → Pool
forget key p = record p { bindings = erase key p.bindings }

forget-IsConsistent :
    (key : String) (p : Pool)
    → lookup key p.routes ≡ none
    → IsConsistent p
    → IsConsistent (forget key p)
forget-IsConsistent key p e v = record {
  room = v.room;
  items = v.items;
  apart = v.apart;
  routed = v.routed;
  bound = λ k. ground (arith, e, eq_iff key k, v.bound k, lookup-erase key k p.bindings);
}

pub unbind_unrouted :
    (now : ℕ) (key : String) (p : Pool)
    → lookup key p.routes ≡ none
    → unbind now key p ≡ forget key p
unfolding unbind
unbind_unrouted now key p e = ground (arith, e)

pub unbind_routed :
    (now : ℕ) (key : String) (c : ℕ) (p : Pool)
    → lookup key p.routes ≡ some c
    → unbind now key p ≡ assign_pending_locked (detach now key c p)
unfolding unbind detach
unbind_routed now key c p e = ground (arith, e)

pub unbind-IsConsistent :
    (now : ℕ) (key : String) (p : Pool) → IsConsistent p → IsConsistent (unbind now key p)
unbind-IsConsistent now key p v = elim (Option-cases (lookup key p.routes)) [
  | inl e ↦ rw (unbind_unrouted now key p e) (forget-IsConsistent key p e v)
  | inr (c, e) ↦
      rw (unbind_routed now key c p e)
        (assign_pending_locked-IsConsistent _ (detach-IsConsistent now key c p e v))
]
