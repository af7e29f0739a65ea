-- ===== src/Gateway/Sessions.antt =====
-- internal/gateway/session.go: the session manager. The sharded map is a map by its refinement in
-- Pkg/ShardedMap; its range is the order of the list. `active` is the gauge of active sessions, and
-- `Outcome` what a deletion does besides, in order.
use voce.Prelude.{
  ℕ, suc, ◌-◌, ◌≡◌, String, Bool, true, ◌&&◌, ltb, if◌then◌else◌, Option, none, some, is_some, List,
  [], ◌∷◌, ◌++◌, length, arith, inl, inr, Bool-cases,
}
use voce.Prelude.Maps.{
  lookup, insert, erase, unique, unique-insert, unique-erase, length-insert, length-erase,
}
use voce.Gateway.Session.{Session, Effect, close}

-- A session with the ID of its machine, and whether its binding has a connection.
pub record Entry : Type 0 where
  pub session : Session
  pub machine : Option String
  pub bound : Bool

pub record SessionManager : Type 0 where
  pub sessions : List (String × Entry)
  pub active : ℕ

pub record Outcome : Type 0 where
  pub key : String
  pub closing : List Effect
  pub unbound : Option String  -- the machine whose pool unbinds the session and that forgets it

abbrev new_session_manager : SessionManager
new_session_manager = record { sessions = []; active = 0 }

unfoldable pub store : String → Entry → SessionManager → SessionManager
store key e m = record {
  sessions = insert key e m.sessions;
  active = if is_some (lookup key m.sessions) then m.active else suc m.active;
}

unfoldable pub load : String → SessionManager → Option Entry
load key m = lookup key m.sessions

unfoldable pub delete : String → SessionManager → SessionManager × List Outcome
delete key m = elim (lookup key m.sessions) [
  | none ↦ (m, [])
  | some e ↦ (
    record { sessions = erase key m.sessions; active = m.active - 1 },
    record { key = key; closing = (close e.bound e.session).1; unbound = e.machine } ∷ [],
  )
]

unfoldable pub count : SessionManager → ℕ
count m = length m.sessions

-- The sessions that cleanup takes.
unfoldable pub expired : ℕ → List (String × Entry) → List String
expired threshold [] = []
expired threshold ((key, e) ∷ es) =
    let rest = expired threshold es in
    let last = e.session.last_active_at in
    if ltb 0 last && ltb last threshold then key ∷ rest else rest

unfoldable pub delete_all : List String → SessionManager → SessionManager × List Outcome
delete_all [] m = (m, [])
delete_all (key ∷ keys) m =
    let (m', out) = delete key m in let (m'', more) = delete_all keys m' in (m'', out ++ more)

unfoldable pub cleanup : ℕ → SessionManager → SessionManager × List Outcome
cleanup threshold m = delete_all (expired threshold m.sessions) m

-- The gauge is the number of sessions, and each stands once.
pub record IsCounted (m : SessionManager) : Type 0 where
  pub once : unique m.sessions ≡ true
  pub counted : m.active ≡ count m

store-IsCounted :
    (key : String) (e : Entry) (m : SessionManager) → IsCounted m → IsCounted (store key e m)
unfolding store count
store-IsCounted key e m v = record {
  once = unique-insert key e m.sessions v.once;
  counted = ground (arith, v.counted, length-insert key e m.sessions);
}

delete_unknown :
    (key : String) (m : SessionManager) → lookup key m.sessions ≡ none → (delete key m).0 ≡ m
unfolding delete
delete_unknown key m e = ground (arith, e)

delete_known :
    (key : String) (m : SessionManager)
    → is_some (lookup key m.sessions) ≡ true
    → (delete key m).0 ≡ record { sessions = erase key m.sessions; active = m.active - 1 }
unfolding delete
delete_known key m e = ground (arith, e)

fewer-IsCounted :
    (key : String) (m : SessionManager)
    → is_some (lookup key m.sessions) ≡ true
    → IsCounted m
    → IsCounted (record { sessions = erase key m.sessions; active = m.active - 1 })
unfolding count
fewer-IsCounted key m e v = record {
  once = unique-erase key m.sessions v.once;
  counted = ground (arith, e, v.counted, v.once, length-erase key m.sessions);
}

delete-IsCounted : (key : String) (m : SessionManager) → IsCounted m → IsCounted (delete key m).0
delete-IsCounted key m v = elim (Bool-cases (is_some (lookup key m.sessions))) [
  | inl e ↦ rw (delete_known key m e) (fewer-IsCounted key m e v)
  | inr e ↦ rw (delete_unknown key m (ground (arith, e))) v
]

delete_all-IsCounted :
    (keys : List String) (m : SessionManager) → IsCounted m → IsCounted (delete_all keys m).0
unfolding delete_all
delete_all-IsCounted [] m v = v
delete_all-IsCounted (key ∷ keys) m v =
    delete_all-IsCounted keys (delete key m).0 (delete-IsCounted key m v)

-- After a cleanup, the gauge is still the number of sessions, if it was before.
pub cleanup-IsCounted :
    (threshold : ℕ) (m : SessionManager) → IsCounted m → IsCounted (cleanup threshold m).0
unfolding cleanup
cleanup-IsCounted threshold m v = delete_all-IsCounted (expired threshold m.sessions) m v
