-- ===== src/Gateway/Pool/Select.antt =====
-- internal/gateway/pool.go: which item selectLocked gives.
use voce.Prelude.{
  ◌≡◌, refl, true, false, none, some, List, [], ◌∷◌, all, arith, inl, inr, Option-cases,
}
use voce.Gateway.Pool.{PooledConnection, Pool, is_full, less, root, select_locked, find}
use voce.Gateway.Pool.Heap.{least, root-least, root-none}
use voce.Gateway.Pool.Items.{distinct, find-root}

full_down :
    (i : PooledConnection) (is : List PooledConnection)
    → is_full i ≡ true
    → least i is ≡ true
    → all is_full is ≡ true
unfolding least less
full_down i [] f l = refl
full_down i (j ∷ is) f l = ground (arith, f, l, full_down i is)

-- Where no item is chosen, each is full.
pub select_locked-none : (p : Pool) → select_locked p ≡ none → all is_full p.connections ≡ true
unfolding select_locked
select_locked-none p h = elim (Option-cases (root p.connections)) [
  | inl e ↦ ground (arith, e, root-none p.connections)
  | inr (i, e) ↦ ground (arith, e, h, root-least i p.connections, full_down i p.connections)
]

-- Where no two items have one connection, the item that is chosen is one of the pool, it is not full,
-- and no other item stands before it by state, load and number.
pub select_locked-least :
    (p : Pool) (i : PooledConnection)
    → distinct p.connections ≡ true
    → select_locked p ≡ some i
    → (find i.conn p.connections ≡ some i) × (is_full i ≡ false) × (least i p.connections ≡ true)
unfolding select_locked
select_locked-least p i u h = elim (Option-cases (root p.connections)) [
  | inl e ↦ absurd (ground (arith, e, h))
  | inr (j, e) ↦ ground (arith, e, h, u, root-least j p.connections, find-root j p.connections)
]
