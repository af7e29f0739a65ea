-- ===== src/Gateway/Machines/Choice.antt =====
-- internal/gateway/manager.go: which machine a session gets, and which machines a cleanup leaves.
use voce.Prelude.{
  ℕ, ◌<◌, ◌≤◌, ◌^◌, length, ◌≡◌, refl, sym, ap, ◌∙◌, String, Bool, true, false, not, ◌&&◌, ◌||◌,
  ◌==◌, ltb, leb, if◌then◌else◌, str_eq, Option, none, some, List, [], ◌∷◌, arith, inl, inr,
  Option-cases, Bool-cases, eq_iff,
}
use voce.Prelude.Maps.{lookup, erase, unique, lookup-erase}
use voce.Gateway.Session.{machine_active}
use voce.Gateway.Machines.{
  Machine, Machines, int32_ltb, max_int32, session_count, least_among, least_sessions, is_expired,
  expired, take_away, cleanup_machines,
}

-- No active machine has fewer sessions than this.
unfoldable pub at_least : ℕ → Machines → Bool
at_least n [] = true
at_least n ((_, m) ∷ ms) =
    (not (machine_active m.state) || leb n (length m.sessions)) && at_least n ms

-- Fewer sessions are a bound too.
at_least_down : (a b : ℕ) (ms : Machines) → a ≤ b → at_least b ms ≡ true → at_least a ms ≡ true
unfolding at_least
at_least_down a b [] h g = refl
at_least_down a b ((_, m) ∷ ms) h g = ground (arith, h, g, at_least_down a b ms)

-- Each machine's number of sessions is an int32.
unfoldable pub countable : Machines → Bool
countable [] = true
countable ((_, m) ∷ ms) = ltb (length m.sessions) (2 ^ 31) && countable ms

session_count_lem :
    (m : Machine) → ltb (length m.sessions) (2 ^ 31) ≡ true → session_count m ≡ length m.sessions
unfolding session_count
session_count_lem m h = ground (arith, h)

int32_ltb_lem : (a b : ℕ) → a < 2 ^ 31 → b < 2 ^ 31 → int32_ltb a b ≡ ltb a b
int32_ltb_lem a b h g = ground (arith, h, g)

-- What the loop knows of the machine that it has chosen.
chosen : Option Machine → ℕ → Bool
chosen none n = n == max_int32
chosen (some m) n =
    machine_active m.state && (length m.sessions == n) && ltb (length m.sessions) (2 ^ 31)

chosen-some :
    (m : Machine)
    → machine_active m.state ≡ true
    → ltb (length m.sessions) (2 ^ 31) ≡ true
    → chosen (some m) (length m.sessions) ≡ true
unfolding chosen
chosen-some m h g = ground (arith, h, g)

chosen_small : (o : Option Machine) (n : ℕ) → chosen o n ≡ true → n < 2 ^ 31
unfolding chosen
chosen_small none n h = ground (arith, h)
chosen_small (some m) n h = ground (arith, h)

chosen_known :
    (m : Machine) (n : ℕ)
    → chosen (some m) n ≡ true
    → (machine_active m.state ≡ true) × (n ≡ length m.sessions)
unfolding chosen
chosen_known m n h = ground (arith, h)

least_among_lem :
    (ms : Machines) (selected : Option Machine) (n : ℕ)
    → countable ms ≡ true
    → chosen selected n ≡ true
    → (chosen (least_among ms selected n).0 (least_among ms selected n).1 ≡ true)
      × ((least_among ms selected n).1 ≤ n)
      × (at_least (least_among ms selected n).1 ms ≡ true)
unfolding least_among at_least countable
least_among_lem [] selected n small h = (h, omega arith, refl)
least_among_lem ((_, m) ∷ ms) selected n small h =
    let bound : ltb (length m.sessions) (2 ^ 31) ≡ true = ground (arith, small) in
    let others : countable ms ≡ true = ground (arith, small) in
    let count = session_count_lem m bound in
    let test =
      int32_ltb_lem (length m.sessions) n (ground (arith, bound)) (chosen_small selected n h) in
    elim (Bool-cases (machine_active m.state && ltb (length m.sessions) n)) [
      | inl e ↦
          let (known, fewer, rest) =
            least_among_lem ms (some m) (length m.sessions) others
              (chosen-some m (ground (arith, e)) bound) in
          ground (arith, e, count, test, known, fewer, rest)
      | inr e ↦
          let (known, fewer, rest) = least_among_lem ms selected n others h in
          ground (arith, e, count, test, known, fewer, rest)
    ]

-- Where each machine has fewer than 2^31 sessions, the machine for a new session is active, and no
-- active machine has fewer sessions.
pub least_sessions_lem :
    (items : Machines) (m : Machine)
    → countable items ≡ true
    → least_sessions items ≡ some m
    → (machine_active m.state ≡ true) × (at_least (length m.sessions) items ≡ true)
unfolding least_sessions chosen
least_sessions_lem items m small h =
    let (known, fewer, rest) = least_among_lem items none max_int32 small refl in
    let (active_one, count) =
      chosen_known m (least_among items none max_int32).1
        (ap (λ o. chosen o (least_among items none max_int32).1) (sym h) ∙ known) in
    (active_one, ap (λ n. at_least n items) (sym count) ∙ rest)

-- The text is one of the list.
unfoldable pub listed : String → List String → Bool
listed id [] = false
listed id (i ∷ is) = str_eq i id || listed id is

lookup-take_away :
    (id : String) (ids : List String) (items : Machines)
    → lookup id (take_away ids items).0 ≡ (if listed id ids then none else lookup id items)
unfolding take_away listed
lookup-take_away id [] items = refl
lookup-take_away id (i ∷ is) items = elim (Option-cases (lookup i items)) [
  | inl e ↦ ground (arith, e, eq_iff i id, lookup-take_away id is items)
  | inr (m, e) ↦
      ground
        (arith, e, eq_iff i id, lookup-take_away id is (erase i items), lookup-erase i id items)
]

-- A machine whose last heartbeat is known and before the threshold.
abbrev pub is_silent : ℕ → Option Machine → Bool
is_silent threshold none = false
is_silent threshold (some m) = ltb 0 m.last_heartbeat && ltb m.last_heartbeat threshold

listed-expired :
    (id : String) (threshold : ℕ) (items : Machines)
    → unique items ≡ true
    → listed id (expired threshold items) ≡ is_silent threshold (lookup id items)
unfolding listed expired is_expired lookup unique
listed-expired id threshold [] u = refl
listed-expired id threshold ((i, m) ∷ ms) u =
    ground (arith, u, eq_iff i id, listed-expired id threshold ms)

-- In a registry without a machine twice, a cleanup takes away the machines whose last heartbeat is
-- above zero and before the threshold, and no other.
pub lookup-cleanup_machines :
    (threshold : ℕ) (items : Machines) (id : String)
    → unique items ≡ true
    → lookup id (cleanup_machines threshold items).0
      ≡ (if is_silent threshold (lookup id items) then none else lookup id items)
unfolding cleanup_machines
lookup-cleanup_machines threshold items id u = ground (
  arith,
  lookup-take_away id (expired threshold items) items,
  listed-expired id threshold items u,
)
