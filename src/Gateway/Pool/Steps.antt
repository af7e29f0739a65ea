-- ===== src/Gateway/Pool/Steps.antt =====
-- internal/gateway/pool.go: what a pool can come to, one locked section after the other.
use voce.Prelude.{ℕ, ◌<◌, ◌≡◌, String, Option, List, true, none, length}
use voce.Prelude.Maps.{lookup}
use voce.Gateway.Pool.Items.{distinct}
use voce.Protocol.Types.{ConnectionState}
use voce.Gateway.Connection.{new_pool_connection, on_open, on_close, close}
use voce.Gateway.Pool.{PooledConnection, Pool, find, revise}
use voce.Gateway.Pool.Calls.{
  bind, try_bind, unbind, start_min_connections, dial_failed, dialled, sync_connection_state,
  cleanup_idle, begin_shutdown, clear_pool,
}

-- What happens to a connection object beside its pool.
pub data Change : Type 0 where
  opened lost closed : Change

-- Its state after OnOpen, OnClose or Close.
unfoldable pub after : Change → ConnectionState → ConnectionState
unfolding on_open on_close close
after opened s = (on_open (record { state = s; socket = none }) 0).0.state
after lost s = (on_close (record { state = s; socket = none })).0.state
after closed s = (close (record { state = s; socket = none })).0.state

unfoldable pub observe : Change → PooledConnection → PooledConnection
observe e i = record i { conn_state = after e i.conn_state }

-- The order in which a map is ranged over is open: before any step, the bindings and the connections may
-- come into another order. Another goroutine may act between the two sections of Shutdown.
-- A dial ends only after it was started, and the object that newConnection makes is in no pool yet.
pub data Step : Pool → Pool → Type 0 where
  binds : (p : Pool) (key : String) → Step p (bind key p).0
  tries : (p : Pool) (key : String) → Step p (try_bind key p).0
  unbinds : (p : Pool) (now : ℕ) (key : String) → Step p (unbind now key p)
  starts : (p : Pool) → Step p (start_min_connections p)
  fails : (p : Pool) → 0 < p.pending_dials → Step p (dial_failed p)
  dials :
      (p : Pool) (c : ℕ)
      → 0 < p.pending_dials
      → find c p.connections ≡ none
      → Step p (dialled c new_pool_connection.state p).0
  changes :
      (p : Pool) (c : ℕ) (e : Change)
      → Step p (record p { connections = revise c (observe e) p.connections })
  syncs : (p : Pool) (c : ℕ) → Step p (sync_connection_state c p)
  cleans : (p : Pool) (now : ℕ) → Step p (cleanup_idle now p).0
  shuts : (p : Pool) → Step p (begin_shutdown p).0
  clears : (p : Pool) → p.closed ≡ true → Step p (clear_pool p).0
  ranges_bindings :
      (p : Pool) (bs : List (String × Option ℕ))
      → ((k : String) → lookup k bs ≡ lookup k p.bindings)
      → Step p (record p { bindings = bs })
  ranges_connections :
      (p : Pool) (is : List PooledConnection)
      → ((c : ℕ) → find c is ≡ find c p.connections)
      → distinct is ≡ true
      → length is ≡ length p.connections
      → Step p (record p { connections = is })

pub data Reaches : Pool → Pool → Type 0 where
  here : (p : Pool) → Reaches p p
  then_step : (p q r : Pool) → Reaches p q → Step q r → Reaches p r

-- What each step keeps holds of all that a pool can come to.
pub Reaches_keeps :
    (P : Pool → Type 0)
    → ((p q : Pool) → Step p q → P p → P q)
    → (p q : Pool) → Reaches p q
    → P p
    → P q
Reaches_keeps P keeps _ _ (here p) v = v
Reaches_keeps P keeps _ _ (then_step p q r past s) v =
    keeps q r s (Reaches_keeps P keeps p q past v)
