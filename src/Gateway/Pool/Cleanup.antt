-- ===== src/Gateway/Pool/Cleanup.antt =====
-- internal/gateway/pool.go: the loop of cleanupIdle, and a pool that is shut down.
use voce.Prelude.{
  ℕ, ◌<◌, ◌≤◌, ◌≡◌, min, refl, subst⁻¹, Bool, true, false, ◌==◌, ◌&&◌, leb, none, some, List, [],
  ◌∷◌, All, arith, inl, inr, Bool-cases, length,
}
use voce.Prelude.Maps.{lookup}
use voce.Gateway.Pool.{PooledConnection, Pool, find, discard}
use voce.Gateway.Pool.Calls.{
  remove_locked, expired, cleanup, cleanup_idle, begin_shutdown, clear_pool,
}
use voce.Gateway.Pool.Items.{distinct, find-discard, distinct-discard, length-discard}
use voce.Gateway.Pool.Attach.{IsConsistent, holds, leads}
use voce.Gateway.Pool.Remove.{remove_locked-IsConsistent, drop_routes-IsSame}

-- Each item of the one list is what the other has for its connection.
abbrev pub IsFindable : List PooledConnection → List PooledConnection → Type 0
IsFindable is js = All (λ i. find i.conn js ≡ some i) is

IsFindable-cons :
    (j : PooledConnection) (is js : List PooledConnection)
    → find j.conn is ≡ none
    → IsFindable is js
    → IsFindable is (j ∷ js)
unfolding find
IsFindable-cons j [] js h f = tt
IsFindable-cons j (i ∷ is) js h f =
    (ground (arith, h, f.0), IsFindable-cons j is js (ground (arith, h)) f.1)

pub distinct-IsFindable : (is : List PooledConnection) → distinct is ≡ true → IsFindable is is
unfolding find distinct
distinct-IsFindable [] u = tt
distinct-IsFindable (i ∷ is) u = (
  ground arith,
  IsFindable-cons i is is (ground (arith, u)) (distinct-IsFindable is (ground (arith, u))),
)

IsFindable-discard :
    (c : ℕ) (is js : List PooledConnection)
    → find c is ≡ none
    → distinct js ≡ true
    → IsFindable is js
    → IsFindable is (discard c js)
unfolding find
IsFindable-discard c [] js h u f = tt
IsFindable-discard c (i ∷ is) js h u f = (
  ground (arith, h, f.0, find-discard c i.conn js u),
  IsFindable-discard c is js (ground (arith, h)) u f.1,
)

pub connections-remove_locked :
    (i : PooledConnection) (p : Pool)
    → (remove_locked i p).connections ≡ discard i.conn p.connections
unfolding remove_locked
connections-remove_locked i p = (drop_routes-IsSame i.conn i.sessions _).connections

cleanup_nothing : (now : ℕ) (p : Pool) → (cleanup now [] p).0 ≡ p
unfolding cleanup
cleanup_nothing now p = refl

cleanup_kept :
    (now : ℕ) (i : PooledConnection) (is : List PooledConnection) (p : Pool)
    → expired now p i ≡ false
    → (cleanup now (i ∷ is) p).0 ≡ (cleanup now is p).0
unfolding cleanup
cleanup_kept now i is p h = ground (arith, h)

cleanup_taken :
    (now : ℕ) (i : PooledConnection) (is : List PooledConnection) (p : Pool)
    → expired now p i ≡ true
    → (cleanup now (i ∷ is) p).0 ≡ (cleanup now is (remove_locked i p)).0
unfolding cleanup
cleanup_taken now i is p h = ground (arith, h)

-- What each removal of an item of the pool keeps, the loop keeps.
pub cleanup_keeps :
    (P : Pool → Type 0) (now : ℕ)
    → ((i : PooledConnection) (p : Pool)
        → find i.conn p.connections ≡ some i
        → expired now p i ≡ true
        → P p
        → P (remove_locked i p))
    → (is : List PooledConnection) (p : Pool) → IsFindable is p.connections
    → distinct is ≡ true
    → distinct p.connections ≡ true
    → P p
    → P (cleanup now is p).0
unfolding distinct
cleanup_keeps P now step [] p f u w v = subst⁻¹ P (cleanup_nothing now p) v
cleanup_keeps P now step (i ∷ is) p f u w v = elim (Bool-cases (expired now p i)) [
  | inr e ↦
      subst⁻¹ P (cleanup_kept now i is p e)
        (cleanup_keeps P now step is p f.1 (ground (arith, u)) w v)
  | inl e ↦ subst⁻¹ P (cleanup_taken now i is p e) (
      cleanup_keeps P now step is (remove_locked i p)
        (subst⁻¹ (IsFindable is) (connections-remove_locked i p)
          (IsFindable-discard i.conn is p.connections (ground (arith, u)) w f.1))
        (ground (arith, u))
        (ground (arith, connections-remove_locked i p, distinct-discard i.conn p.connections w))
        (step i p f.0 e v))
]

pub cleanup_idle_keeps :
    (P : Pool → Type 0)
    → ((now : ℕ) (i : PooledConnection) (p : Pool)
        → find i.conn p.connections ≡ some i
        → expired now p i ≡ true
        → P p
        → P (remove_locked i p))
    → (now : ℕ) (p : Pool) → distinct p.connections ≡ true
    → P p
    → P (cleanup_idle now p).0
unfolding cleanup_idle
cleanup_idle_keeps P step now p u v =
    cleanup_keeps P now (step now) p.connections p (distinct-IsFindable p.connections u) u u v

pub cleanup_idle-IsConsistent :
    (now : ℕ) (p : Pool) → IsConsistent p → IsConsistent (cleanup_idle now p).0
cleanup_idle-IsConsistent now p v =
    cleanup_idle_keeps IsConsistent (λ now i q found e w. remove_locked-IsConsistent i q found w)
      now p v.apart v

-- A pool that has given up all it has.
unfoldable pub empty : Pool → Pool
empty p = record p { connections = []; routes = []; bindings = [] }

empty-IsConsistent : (p : Pool) → 0 < p.max_sessions → IsConsistent (empty p)
unfolding empty distinct holds leads find lookup
empty-IsConsistent p room = record {
  room = room;
  items = refl;
  apart = refl;
  routed = λ k d. refl;
  bound = λ k. refl;
}

pub begin_shutdown-IsConsistent : (p : Pool) → IsConsistent p → IsConsistent (begin_shutdown p).0
unfolding begin_shutdown
begin_shutdown-IsConsistent p v = record {
  room = v.room;
  items = v.items;
  apart = v.apart;
  routed = v.routed;
  bound = v.bound;
}

pub clear_pool-IsConsistent : (p : Pool) → IsConsistent p → IsConsistent (clear_pool p).0
unfolding clear_pool empty
clear_pool-IsConsistent p v = empty-IsConsistent p v.room

-- Still with the number that the pool starts with, or with all that it had.
unfoldable enough : ℕ → ℕ → Pool → Bool
enough least before p = (p.min_conns == least) && leb (min least before) (length p.connections)

min_conns-remove_locked :
    (i : PooledConnection) (p : Pool) → (remove_locked i p).min_conns ≡ p.min_conns
unfolding remove_locked
min_conns-remove_locked i p = (drop_routes-IsSame i.conn i.sessions _).min_conns

remove_locked-enough :
    (least before now : ℕ) (i : PooledConnection) (p : Pool)
    → find i.conn p.connections ≡ some i
    → expired now p i ≡ true
    → enough least before p ≡ true
    → enough least before (remove_locked i p) ≡ true
unfolding enough
remove_locked-enough least before now i p found e h = ground (
  arith,
  e,
  h,
  min_conns-remove_locked i p,
  connections-remove_locked i p,
  length-discard i.conn i p.connections found,
)

starts_enough : (p : Pool) → enough p.min_conns (length p.connections) p ≡ true
unfolding enough
starts_enough p = ground arith

-- Where no two items have one connection, the cleanup of idle connections leaves the number that the
-- pool starts with, or all if there are fewer.
pub cleanup_idle-length :
    (now : ℕ) (p : Pool)
    → distinct p.connections ≡ true
    → min p.min_conns (length p.connections) ≤ length (cleanup_idle now p).0.connections
unfolding enough
cleanup_idle-length now p u =
    let kept =
      cleanup_idle_keeps (λ q. enough p.min_conns (length p.connections) q ≡ true)
        (λ now i q found e w.
          remove_locked-enough p.min_conns (length p.connections) now i q found e w)
        now p u (starts_enough p) in
    ground (arith, kept)
