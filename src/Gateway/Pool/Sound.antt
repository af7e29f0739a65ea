-- ===== src/Gateway/Pool/Sound.antt =====
-- internal/gateway/pool.go: what always holds of an item: its load counts its sessions and stays within
-- the limit, and it is not full while it can take a session.
use voce.Prelude.{
  ℕ, ◌<◌, ◌≡◌, String, Bool, true, false, not, ◌&&◌, ◌||◌, ◌==◌, leb, ltb, none, is_some, length,
  arith,
}
use voce.Prelude.Maps.{lookup, unique, unique-insert, unique-erase, length-insert, length-erase}
use voce.Protocol.Types.{ConnectionState}
use voce.Gateway.Pool.{PooledConnection, is_full, priority_locked, refresh, take_session}
use voce.Gateway.Pool.Calls.{lose_session, pooled}
use voce.Gateway.Pool.Steps.{Change, after, observe}

abbrev pub is_closed : ConnectionState → Bool
is_closed ConnectionState.closed = true
is_closed _ = false

abbrev is_unknown : ConnectionState → Bool
is_unknown ConnectionState.unknown = true
is_unknown _ = false

-- Its load is the number of its sessions, at most the limit; it is full at the limit, and otherwise
-- only when its connection is closed.
unfoldable pub sound : ℕ → PooledConnection → Bool
sound most i =
    (i.load == length i.sessions)
    && unique i.sessions
    && leb i.load most
    && (is_full i || ltb i.load most)
    && (not (is_full i) || leb most i.load || is_closed i.conn_state)
    && not (is_unknown i.conn_state)

pub refresh-sound :
    (most : ℕ) (i : PooledConnection) → sound most i ≡ true → sound most (refresh most i) ≡ true
unfolding sound refresh priority_locked
refresh-sound most i s = ground (arith, s)

pub take_session-sound :
    (most : ℕ) (key : String) (i : PooledConnection)
    → sound most i ≡ true
    → is_full i ≡ false
    → lookup key i.sessions ≡ none
    → sound most (take_session most key i) ≡ true
unfolding sound take_session refresh priority_locked
take_session-sound most key i s f h =
    ground (arith, s, f, h, length-insert key tt i.sessions, unique-insert key tt i.sessions)

pub lose_session-sound :
    (now most : ℕ) (key : String) (i : PooledConnection)
    → sound most i ≡ true
    → is_some (lookup key i.sessions) ≡ true
    → sound most (lose_session now most key i) ≡ true
unfolding sound lose_session refresh priority_locked
lose_session-sound now most key i s h =
    ground (arith, s, h, length-erase key i.sessions, unique-erase key i.sessions)

pub pooled-sound :
    (most id c : ℕ) → 0 < most → sound most (pooled most id c ConnectionState.connecting) ≡ true
unfolding sound pooled refresh priority_locked unique
pooled-sound most id c h = ground (arith, h)

pub observe-sound :
    (most : ℕ) (e : Change) (i : PooledConnection)
    → sound most i ≡ true
    → sound most (observe e i) ≡ true
unfolding sound observe after
observe-sound most e i s = ground (arith, s)
