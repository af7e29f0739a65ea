-- ===== src/Gateway/Pool/Balance.antt =====
-- internal/gateway/pool.go: Bind spreads the sessions over the connections.
use voce.Prelude.{
  ◌≡◌, refl, String, true, false, not, ◌||◌, ◌==◌, leb, none, some, List, [], ◌∷◌, all, arith, inl,
  inr, Option-cases, Bool-cases, eq_iff,
}
use voce.Prelude.Maps.{lookup, insert, lookup-insert}
use voce.Gateway.Pool.{
  PooledConnection, ConnectionPriority, Pool, rank, is_full, less, select_locked, find,
  take_session, attach_locked,
}
use voce.Gateway.Pool.Calls.{bind}
use voce.Gateway.Pool.Heap.{least}
use voce.Gateway.Pool.Items.{distinct, all-find}
use voce.Gateway.Pool.Select.{select_locked-least, select_locked-none}
use voce.Gateway.Pool.Consistent.{reserve_scale_lem, attach_new, select_bound}

bind_attaches :
    (key : String) (i : PooledConnection) (p : Pool)
    → lookup key p.bindings ≡ none
    → select_locked p ≡ some i
    → ((bind key p).0.bindings ≡ (attach_locked key i.conn p).bindings)
      × ((bind key p).0.routes ≡ (attach_locked key i.conn p).routes)
unfolding bind
bind_attaches key i p e g =
    let same = select_bound p (insert key none p.bindings) in
    let attached = attach_new key i.conn none p in
    let scaled = reserve_scale_lem (attach_locked key i.conn p) in
    elim (Bool-cases (rank (take_session p.max_sessions key i).priority == 0)) [
      | inl r ↦ ground (arith, e, g, r, same, attached, scaled)
      | inr r ↦ ground (arith, e, g, r, same, attached)
    ]

-- Where an active item stands first in the heap's order, it is the active one with the least load.
least_load :
    (i : PooledConnection) (is : List PooledConnection)
    → i.priority ≡ ConnectionPriority.active
    → least i is ≡ true
    → all (λ k. not (rank k.priority == 0) || leb i.load k.load) is ≡ true
unfolding least less
least_load i [] a l = refl
least_load i (k ∷ is) a l = ground (arith, a, l, least_load i is a)

rank_zero : (q : ConnectionPriority) → (rank q == 0) ≡ true → q ≡ ConnectionPriority.active
rank_zero ConnectionPriority.active h = refl
rank_zero ConnectionPriority.connecting h = absurd (cc h)
rank_zero ConnectionPriority.unavailable h = absurd (cc h)

active_first :
    (i j : PooledConnection)
    → j.priority ≡ ConnectionPriority.active
    → not (less j i) ≡ true
    → (rank i.priority == 0) ≡ true
unfolding less
active_first i j a h = ground (arith, a, h)

not_full : (j : PooledConnection) → j.priority ≡ ConnectionPriority.active → is_full j ≡ false
not_full j a = ground (arith, a)

-- Where no two items have one connection, a session that is new to a pool with an active item that has
-- room gets at once the connection of an active item with the least load of them, as its binding and
-- as its route.
pub bind_balances :
    (key : String) (p : Pool) (j : PooledConnection)
    → distinct p.connections ≡ true
    → lookup key p.bindings ≡ none
    → find j.conn p.connections ≡ some j
    → j.priority ≡ ConnectionPriority.active
    → (i : PooledConnection) × (find i.conn p.connections ≡ some i)
      × (i.priority ≡ ConnectionPriority.active)
      × (all (λ k. not (rank k.priority == 0) || leb i.load k.load) p.connections ≡ true)
      × (lookup key (bind key p).0.bindings ≡ some (some i.conn))
      × (lookup key (bind key p).0.routes ≡ some i.conn)
unfolding attach_locked least
bind_balances key p j u new found a = elim (Option-cases (select_locked p)) [
  | inl e ↦ absurd (
      ground (
        arith,
        not_full j a,
        all-find is_full j.conn j p.connections (select_locked-none p e) found,
      ))
  | inr (i, e) ↦
      let (there, _, first) = select_locked-least p i u e in
      let before = all-find (λ k. not (less k i)) j.conn j p.connections first found in
      let active = rank_zero i.priority (active_first i j a before) in
      let (bound, routed) = bind_attaches key i p new e in
      (
        i,
        there,
        active,
        least_load i p.connections active first,
        ground (arith, bound, eq_iff key key, lookup-insert key key (some i.conn) p.bindings),
        ground (arith, routed, eq_iff key key, lookup-insert key key i.conn p.routes),
      )
]
