-- ===== src/Gateway/Pool/Heap.antt =====
-- internal/gateway/pool.go: the order of the heap, and the item that is chosen for a session.
use voce.Prelude.{
  ◌≡◌, refl, Bool, true, false, not, none, some, List, [], ◌∷◌, all, arith, inl, inr, Option-cases,
  Bool-cases,
}
use voce.Gateway.Pool.{PooledConnection, less, root}

-- No item of the list stands before this one in the heap's order.
unfoldable pub least : PooledConnection → List PooledConnection → Bool
least i is = all (λ j. not (less j i)) is

less_asym : (i j : PooledConnection) → less j i ≡ true → less i j ≡ false
unfolding less
less_asym i j h = ground (arith, h)

less_down : (i j k : PooledConnection) → less j i ≡ false → less k j ≡ false → less k i ≡ false
unfolding less
less_down i j k h g = ground (arith, h, g)

less_itself : (i : PooledConnection) → less i i ≡ false
unfolding less
less_itself i = ground arith

least_down :
    (i j : PooledConnection) (is : List PooledConnection)
    → less j i ≡ false
    → least j is ≡ true
    → least i is ≡ true
unfolding least
least_down i j [] h l = refl
least_down i j (k ∷ is) h l = ground (arith, h, l, less_down i j k h, least_down i j is h)

pub root-none : (is : List PooledConnection) → root is ≡ none → is ≡ []
unfolding root
root-none [] h = refl
root-none (i ∷ is) h = elim (Option-cases (root is)) [
  | inl e ↦ absurd (ground (arith, e, h))
  | inr (j, e) ↦ absurd (ground (arith, e, h))
]

-- The root is the least of the items.
pub root-least :
    (i : PooledConnection) (is : List PooledConnection) → root is ≡ some i → least i is ≡ true
unfolding root least
root-least i [] h = absurd (cc h)
root-least i (j ∷ is) h = elim (Option-cases (root is)) [
  | inl e ↦ ground (arith, e, h, root-none is, less_itself j)
  | inr (m, e) ↦ elim (Bool-cases (less m j)) [
    | inl g ↦ ground (arith, e, h, g, less_asym j m, root-least m is)
    | inr g ↦ ground (arith, e, h, g, less_itself j, root-least m is, least_down j m is)
  ]
]
