-- ===== src/Gateway/Pool/Items.antt =====
-- internal/gateway/pool.go: items found, changed and taken away by their connection.
use voce.Prelude.{
  ℕ, suc, ◌≡◌, refl, Bool, true, not, ◌&&◌, ◌==◌, if◌then◌else◌, none, some, is_some, List, [], ◌∷◌,
  length, all, arith, inl, inr, Option-cases, Bool-cases,
}
use mathlib.Core.Option.{map}
use voce.Gateway.Pool.{PooledConnection, find, revise, discard, less, root}

-- No two items have one connection.
unfoldable pub distinct : List PooledConnection → Bool
distinct [] = true
distinct (i ∷ is) = not (is_some (find i.conn is)) && distinct is

pub find-revise :
    (c d : ℕ) (f : PooledConnection → PooledConnection) (is : List PooledConnection)
    → ((i : PooledConnection) → (f i).conn ≡ i.conn)
    → find d (revise c f is) ≡ (if c == d then map f (find d is) else find d is)
unfolding find revise
find-revise c d f [] h = ground arith
find-revise c d f (i ∷ is) h = ground (arith, h i, find-revise c d f is h)

pub find-discard :
    (c d : ℕ) (is : List PooledConnection)
    → distinct is ≡ true
    → find d (discard c is) ≡ (if c == d then none else find d is)
unfolding find discard distinct
find-discard c d [] u = ground arith
find-discard c d (i ∷ is) u = ground (arith, u, find-discard c d is)

pub length-revise :
    (c : ℕ) (f : PooledConnection → PooledConnection) (is : List PooledConnection)
    → length (revise c f is) ≡ length is
unfolding revise
length-revise c f [] = refl
length-revise c f (i ∷ is) = ground (arith, length-revise c f is)

pub length-discard :
    (c : ℕ) (i : PooledConnection) (is : List PooledConnection)
    → find c is ≡ some i
    → suc (length (discard c is)) ≡ length is
unfolding find discard
length-discard c i [] h = absurd (cc h)
length-discard c i (j ∷ is) h = ground (arith, h, length-discard c i is)

pub distinct-revise :
    (c : ℕ) (f : PooledConnection → PooledConnection) (is : List PooledConnection)
    → ((i : PooledConnection) → (f i).conn ≡ i.conn)
    → distinct is ≡ true
    → distinct (revise c f is) ≡ true
unfolding distinct revise
distinct-revise c f [] h u = refl
distinct-revise c f (i ∷ is) h u =
    ground (arith, u, h i, find-revise c i.conn f is h, distinct-revise c f is h)

pub distinct-discard :
    (c : ℕ) (is : List PooledConnection) → distinct is ≡ true → distinct (discard c is) ≡ true
unfolding distinct discard
distinct-discard c [] u = refl
distinct-discard c (i ∷ is) u = ground (arith, u, find-discard c i.conn is, distinct-discard c is)

pub find-conn :
    (c : ℕ) (i : PooledConnection) (is : List PooledConnection) → find c is ≡ some i → i.conn ≡ c
unfolding find
find-conn c i [] h = absurd (cc h)
find-conn c i (j ∷ is) h = ground (arith, h, find-conn c i is)

module _ (P : PooledConnection → Bool) where
  pub all-find :
      (c : ℕ) (i : PooledConnection) (is : List PooledConnection)
      → all P is ≡ true
      → find c is ≡ some i
      → P i ≡ true
  unfolding find
  all-find c i [] a h = absurd (cc h)
  all-find c i (j ∷ is) a h = ground (arith, a, h, all-find c i is)

  pub all-discard :
      (c : ℕ) (is : List PooledConnection) → all P is ≡ true → all P (discard c is) ≡ true
  unfolding discard
  all-discard c [] a = refl
  all-discard c (j ∷ is) a = ground (arith, a, all-discard c is)

  pub all-revise :
      (c : ℕ) (f : PooledConnection → PooledConnection) (is : List PooledConnection)
      → ((i : PooledConnection) → find c is ≡ some i → P (f i) ≡ true)
      → all P is ≡ true
      → all P (revise c f is) ≡ true
  unfolding find revise
  all-revise c f [] h a = refl
  all-revise c f (j ∷ is) h a = elim (Bool-cases (j.conn == c)) [
    | inl e ↦ ground (arith, a, e, h j)
    | inr e ↦ ground (arith, a, e, all-revise c f is (λ i g. h i (ground (arith, e, g))))
  ]

pub find-root :
    (i : PooledConnection) (is : List PooledConnection)
    → distinct is ≡ true
    → root is ≡ some i
    → find i.conn is ≡ some i
unfolding root find distinct
find-root i [] u h = absurd (cc h)
find-root i (j ∷ is) u h = elim (Option-cases (root is)) [
  | inl e ↦ ground (arith, e, h)
  | inr (m, e) ↦ elim (Bool-cases (less m j)) [
    | inl g ↦ ground (arith, u, e, h, g, find-root m is)
    | inr g ↦ ground (arith, u, e, h, g)
  ]
]
