-- ===== src/Gateway/Pool/Orders.antt =====
-- internal/gateway/pool.go: the order in which a pool's maps are ranged over plays no part in how its
-- items, routes and bindings agree.
use voce.Prelude.{ℕ, ◌≡◌, refl, sym, ◌∙◌, String, Bool, true, Option, List, [], ◌∷◌, all, arith}
use voce.Prelude.Maps.{lookup}
use voce.Gateway.Pool.{PooledConnection, Pool, find}
use voce.Gateway.Pool.Items.{distinct, all-find}
use voce.Gateway.Pool.Sound.{sound}
use voce.Gateway.Pool.Attach.{IsConsistent, holds}
use voce.Gateway.Pool.Cleanup.{IsFindable, distinct-IsFindable}

module _ (P : PooledConnection → Bool) (is : List PooledConnection) where
  all-found :
      (js ks : List PooledConnection)
      → ((c : ℕ) → find c ks ≡ find c is)
      → all P is ≡ true
      → IsFindable js ks
      → all P js ≡ true
  all-found [] ks same a f = refl
  all-found (j ∷ js) ks same a f =
      ground (arith, all-find P j.conn j is a (sym (same j.conn) ∙ f.0), all-found js ks same a f.1)

  -- What each item has, each item has in another order.
  pub all_reordered :
      (js : List PooledConnection)
      → ((c : ℕ) → find c js ≡ find c is)
      → distinct js ≡ true
      → all P is ≡ true
      → all P js ≡ true
  all_reordered js same u a = all-found js js same a (distinct-IsFindable js u)

pub bindings-IsConsistent :
    (p : Pool) (bs : List (String × Option ℕ))
    → ((k : String) → lookup k bs ≡ lookup k p.bindings)
    → IsConsistent p
    → IsConsistent (record p { bindings = bs })
bindings-IsConsistent p bs same v = record {
  room = v.room;
  items = v.items;
  apart = v.apart;
  routed = v.routed;
  bound = λ k. ground (arith, same k, v.bound k);
}

pub connections-IsConsistent :
    (p : Pool) (is : List PooledConnection)
    → ((c : ℕ) → find c is ≡ find c p.connections)
    → distinct is ≡ true
    → IsConsistent p
    → IsConsistent (record p { connections = is })
unfolding holds
connections-IsConsistent p is same u v = record {
  room = v.room;
  items = all_reordered (sound p.max_sessions) p.connections is same u v.items;
  apart = u;
  routed = λ k c. ground (arith, same c, v.routed k c);
  bound = v.bound;
}
