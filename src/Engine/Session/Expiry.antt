-- ===== src/Engine/Session/Expiry.antt =====
-- internal/engine/session.go: which sessions a cleanup ends, and the count of the live ones.
use voce.Prelude.{
  ℕ, suc, ◌+◌, ◌/◌, ◌≤◌, ◌<◌, ◌≡◌, refl, inl, inr, true, if◌then◌else◌, is_some, eq_iff, none, some,
  List, [], ◌∷◌, arith, length, String, Option-cases,
}
use voce.Prelude.Maps.{
  lookup, insert, lookup-insert, unique, unique-insert, unique-erase, length-insert, length-erase,
}
use voce.Prelude.Results.{ok, >>=-eq-ok}
use voce.Engine.Session.{
  Session, SessionManager, Setting, Notice, new_session_manager, is_idle, sweep, cleanup,
  new_session, create_session, load_session, remove_session, stop_manager, prepare_workflow,
}
use voce.Engine.Workflow.{Workflow}

module _ (now duration : ℕ) where
  lookup-sweep :
      (m : List (String × Session)) (key : String)
      → unique m ≡ true
      → lookup key (sweep now duration m).0 ≡ elim (lookup key m) [
        | none ↦ none
        | some s ↦ if is_idle now duration s then none else some s
      ]
  unfolding lookup sweep unique
  lookup-sweep [] key u = refl
  lookup-sweep ((id, s) ∷ m) key u = ground (arith, eq_iff id key, lookup-sweep m key)

  unique-sweep :
      (m : List (String × Session)) → unique m ≡ true → unique (sweep now duration m).0 ≡ true
  unfolding sweep unique
  unique-sweep [] u = refl
  unique-sweep ((id, s) ∷ m) u = ground (arith, unique-sweep m, lookup-sweep m id)

  length-sweep :
      (m : List (String × Session))
      → length (sweep now duration m).0 + length (sweep now duration m).1 ≡ length m
  unfolding sweep
  length-sweep [] = refl
  length-sweep ((id, s) ∷ m) = ground (arith, length-sweep m)

-- In a manager where keys stand once, a cleanup keeps exactly the sessions whose last activity lies
-- less than the timeout back.
pub lookup-cleanup :
    (now : ℕ) (sm : SessionManager) (key : String)
    → unique sm.sessions ≡ true
    → lookup key (cleanup now sm).0.sessions ≡ elim (lookup key sm.sessions) [
      | none ↦ none
      | some s ↦ if is_idle now sm.timeout s then none else some s
    ]
unfolding cleanup
lookup-cleanup now sm key u = lookup-sweep now sm.timeout sm.sessions key u

created :
    (env : Setting) (now : ℕ) (sm sm' : SessionManager) (key name : String)
    → (properties : List (String × String)) → (notices : List Notice)
    → create_session env now sm key name properties ≡ ok (sm', notices)
    → (wf : Workflow) × (sm'.sessions ≡ insert key (new_session now key wf) sm.sessions)
      × (sm'.timeout ≡ sm.timeout)
      × (sm'.opened ≡ suc sm.opened)
      × (sm'.closed ≡ sm.closed)
unfolding create_session
created env now sm sm' key name properties notices made =
    let (wf, _, e) = >>=-eq-ok (prepare_workflow env name properties) _ made in
    (wf, cc e, cc e, cc e, cc e)

-- In a manager where keys stand once, a session that is created at `now`, in milliseconds, and not loaded
-- is gone after a cleanup from `now / 1000` and the timeout on, which need not be after its creation:
-- CreateSession stores seconds, and Cleanup reads milliseconds.
pub fresh_session_expires :
    (env : Setting) (now later : ℕ) (sm sm' : SessionManager) (key name : String)
    → (properties : List (String × String)) → (notices : List Notice) → unique sm.sessions ≡ true
    → create_session env now sm key name properties ≡ ok (sm', notices)
    → now / 1000 + sm.timeout ≤ later
    → lookup key (cleanup later sm').0.sessions ≡ none
unfolding new_session
fresh_session_expires env now later sm sm' key name properties notices u made late =
    let (wf, e, timeout, _, _) = created env now sm sm' key name properties notices made in
    let u' : unique sm'.sessions ≡ true =
      ground (arith, e, unique-insert key (new_session now key wf) sm.sessions u) in
    let at : lookup key sm'.sessions ≡ some (new_session now key wf) =
      ground
        (arith, e, lookup-insert key key (new_session now key wf) sm.sessions, eq_iff key key) in
    ground (arith, lookup-cleanup later sm' key u', at, late, timeout)

-- In a manager where keys stand once, a session that is loaded survives a cleanup before the timeout
-- has passed since, with the activity that the load has noted.
pub loaded_session_stays :
    (now later : ℕ) (sm : SessionManager) (s : Session) (key : String)
    → unique sm.sessions ≡ true
    → lookup key sm.sessions ≡ some s
    → later < now + sm.timeout
    → lookup key (cleanup later (load_session now sm key).0).0.sessions
      ≡ (load_session now sm key).1
unfolding load_session
loaded_session_stays now later sm s key u there soon =
    let s' : Session = record s { last_active = now } in
    let sm' : SessionManager = record sm { sessions = insert key s' sm.sessions } in
    ground (
      arith,
      there,
      soon,
      eq_iff key key,
      unique-insert key s' sm.sessions u,
      lookup-insert key key s' sm.sessions,
      lookup-cleanup later sm' key,
    )

-- The managers that come about, with the number of sessions that were created under a key in use.
pub data Reach : ℕ → SessionManager → Type 0 where
  fresh : (timeout : ℕ) → Reach 0 (new_session_manager timeout)
  creates :
      (n : ℕ) (env : Setting) (now : ℕ) (sm sm' : SessionManager) (key name : String)
      → (properties : List (String × String)) → (notices : List Notice) → Reach n sm
      → create_session env now sm key name properties ≡ ok (sm', notices)
      → Reach (n + (if is_some (lookup key sm.sessions) then 1 else 0)) sm'
  loads :
      (n now : ℕ) (sm : SessionManager) (key : String)
      → Reach n sm
      → Reach n (load_session now sm key).0
  removes :
      (n : ℕ) (sm : SessionManager) (key : String) → Reach n sm → Reach n (remove_session sm key).0
  cleans : (n now : ℕ) (sm : SessionManager) → Reach n sm → Reach n (cleanup now sm).0
  stops : (n : ℕ) (sm : SessionManager) → Reach n sm → Reach n (stop_manager sm)

-- Keys stand once, and the metric of active sessions is the number of sessions, and `n` more.
abbrev pub IsBalanced : ℕ → SessionManager → Type 0
IsBalanced n sm = (unique sm.sessions ≡ true) × (sm.opened ≡ sm.closed + (length sm.sessions + n))

fresh-IsBalanced : (timeout : ℕ) → IsBalanced 0 (new_session_manager timeout)
unfolding new_session_manager unique
fresh-IsBalanced timeout = (refl, refl)

load-IsBalanced :
    (n now : ℕ) (sm : SessionManager) (key : String)
    → IsBalanced n sm
    → IsBalanced n (load_session now sm key).0
unfolding load_session
load-IsBalanced n now sm key (u, b) = elim (Option-cases (lookup key sm.sessions)) [
  | inl e ↦ ground (arith, e)
  | inr (s, e) ↦
      let s' : Session = record s { last_active = now } in
      ground (arith, e, unique-insert key s' sm.sessions, length-insert key s' sm.sessions)
]

remove-IsBalanced :
    (n : ℕ) (sm : SessionManager) (key : String)
    → IsBalanced n sm
    → IsBalanced n (remove_session sm key).0
unfolding remove_session
remove-IsBalanced n sm key (u, b) = elim (Option-cases (lookup key sm.sessions)) [
  | inl e ↦ ground (arith, e)
  | inr (s, e) ↦ ground (arith, e, unique-erase key sm.sessions, length-erase key sm.sessions u)
]

cleanup-IsBalanced :
    (n now : ℕ) (sm : SessionManager) → IsBalanced n sm → IsBalanced n (cleanup now sm).0
unfolding cleanup
cleanup-IsBalanced n now sm (u, b) = (
  unique-sweep now sm.timeout sm.sessions u,
  omega (arith, b, length-sweep now sm.timeout sm.sessions),
)

stop-IsBalanced : (n : ℕ) (sm : SessionManager) → IsBalanced n sm → IsBalanced n (stop_manager sm)
unfolding stop_manager unique
stop-IsBalanced n sm (u, b) = (refl, omega (arith, b))

-- In every manager that comes about, each key stands once, and the metric of active sessions, which
-- creation, removal, cleanup and the manager's stop adjust, is the number of its sessions, and one more
-- for each session that was created under a key that was in use.
pub Reach-IsBalanced : (n : ℕ) (sm : SessionManager) → Reach n sm → IsBalanced n sm
Reach-IsBalanced _ _ (fresh timeout) = fresh-IsBalanced timeout
Reach-IsBalanced _ _ (creates n env now sm sm' key name properties notices r made) =
    let (u, b) = Reach-IsBalanced n sm r in
    let (wf, e, _, opened, closed) = created env now sm sm' key name properties notices made in
    let s : Session = new_session now key wf in
    (
      ground (arith, e, unique-insert key s sm.sessions u),
      ground (arith, e, b, opened, closed, length-insert key s sm.sessions),
    )
Reach-IsBalanced _ _ (loads n now sm key r) = load-IsBalanced n now sm key (Reach-IsBalanced n sm r)
Reach-IsBalanced _ _ (removes n sm key r) = remove-IsBalanced n sm key (Reach-IsBalanced n sm r)
Reach-IsBalanced _ _ (cleans n now sm r) = cleanup-IsBalanced n now sm (Reach-IsBalanced n sm r)
Reach-IsBalanced _ _ (stops n sm r) = stop-IsBalanced n sm (Reach-IsBalanced n sm r)
