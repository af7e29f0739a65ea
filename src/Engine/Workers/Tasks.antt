-- ===== src/Engine/Workers/Tasks.antt =====
-- internal/engine/scheduler.go: the order of a worker's tasks, and the fate of counted values.
use voce.Prelude.{
  ℕ, ◌+◌, ◌≡◌, refl, ap, Bool, true, false, some, List, [], ◌∷◌, ◌++◌, length, arith, inl, inr,
  list-cases,
}
use voce.Engine.Loop.{Kind, ControlType}
use voce.Engine.Workers.{
  Task, Worker, Deed, has_deadline, submit, dropped, execute, given_up, leave_worker, work,
}

-- One for a deed that gives such a value back.
abbrev pub returns : Kind → Deed → ℕ
returns Kind.audio (Deed.give_back Kind.audio v) = 1
returns Kind.video (Deed.give_back Kind.video v) = 1
returns _ _ = 0

unfoldable pub returned : Kind → List Deed → ℕ
returned k [] = 0
returned k (d ∷ ds) = returns k d + returned k ds

-- One for a task with such a value.
abbrev pub holds_value : Kind → Task → ℕ
holds_value Kind.audio (Task.event node Kind.audio v) = 1
holds_value Kind.video (Task.event node Kind.video v) = 1
holds_value _ _ = 0

unfoldable pub held : Kind → List Task → ℕ
held k [] = 0
held k (t ∷ ts) = holds_value k t + held k ts

held-append : (k : Kind) (xs ys : List Task) → held k (xs ++ ys) ≡ held k xs + held k ys
unfolding held
held-append k [] ys = omega arith
held-append k (x ∷ xs) ys = omega (arith, held-append k xs ys)

returned-append :
    (k : Kind) (xs ys : List Deed) → returned k (xs ++ ys) ≡ returned k xs + returned k ys
unfolding returned
returned-append k [] ys = omega arith
returned-append k (x ∷ xs) ys = omega (arith, returned-append k xs ys)

returned-dropped :
    (k j : Kind) (node v : ℕ) → returned k (dropped j v) ≡ holds_value k (Task.event node j v)
unfolding returned
returned-dropped Kind.signal Kind.signal node v = refl
returned-dropped Kind.signal Kind.payload node v = refl
returned-dropped Kind.signal Kind.audio node v = refl
returned-dropped Kind.signal Kind.video node v = refl
returned-dropped Kind.payload Kind.signal node v = refl
returned-dropped Kind.payload Kind.payload node v = refl
returned-dropped Kind.payload Kind.audio node v = refl
returned-dropped Kind.payload Kind.video node v = refl
returned-dropped Kind.audio Kind.signal node v = refl
returned-dropped Kind.audio Kind.payload node v = refl
returned-dropped Kind.audio Kind.audio node v = refl
returned-dropped Kind.audio Kind.video node v = refl
returned-dropped Kind.video Kind.signal node v = refl
returned-dropped Kind.video Kind.payload node v = refl
returned-dropped Kind.video Kind.audio node v = refl
returned-dropped Kind.video Kind.video node v = refl

holds_control : (k : Kind) (node : ℕ) (c : ControlType) → holds_value k (Task.control node c) ≡ 0
holds_control Kind.signal node c = refl
holds_control Kind.payload node c = refl
holds_control Kind.audio node c = refl
holds_control Kind.video node c = refl

returns_call : (k j : Kind) (node v : ℕ) (d : Bool) → returns k (Deed.call_event node j d v) ≡ 0
returns_call Kind.signal j node v d = refl
returns_call Kind.payload j node v d = refl
returns_call Kind.audio j node v d = refl
returns_call Kind.video j node v d = refl

returns_control : (k : Kind) (node : ℕ) (c : ControlType) → returns k (Deed.call_control node c) ≡ 0
returns_control Kind.signal node c = refl
returns_control Kind.payload node c = refl
returns_control Kind.audio node c = refl
returns_control Kind.video node c = refl

returned-execute : (k : Kind) (t : Task) → returned k (execute t) ≡ holds_value k t
unfolding returned execute
returned-execute k (Task.control node c) =
    omega (arith, returns_control k node c, holds_control k node c)
returned-execute k (Task.event node j v) =
    omega (arith, returns_call k j node v (has_deadline j), returned-dropped k j node v)

returned-given_up : (k : Kind) (ts : List Task) → returned k (given_up ts) ≡ held k ts
unfolding held returned
returned-given_up k [] = refl
returned-given_up k (Task.control node c ∷ ts) =
    omega (arith, holds_control k node c, returned-given_up k ts)
returned-given_up k (Task.event node j v ∷ ts) = omega (
  arith,
  returned-append k (dropped j v) (given_up ts),
  returned-dropped k j node v,
  returned-given_up k ts,
)

-- What waits in the two queues.
abbrev pub queued : Kind → Worker → ℕ
queued k w = held k w.high + held k w.normal

leave_accounts :
    (k : Kind) (w : Worker)
    → queued k (leave_worker w).0 + returned k (leave_worker w).1 ≡ queued k w
unfolding leave_worker held
leave_accounts k w = omega (
  arith,
  returned-append k (given_up w.high) (given_up w.normal),
  returned-given_up k w.high,
  returned-given_up k w.normal,
)

high_accounts :
    (k : Kind) (w : Worker) (t : Task) (ts : List Task)
    → w.high ≡ t ∷ ts
    → queued k (record w { high = ts }) + returned k (execute t) ≡ queued k w
unfolding held
high_accounts k w t ts e = omega (arith, returned-execute k t, ap (held k) e)

normal_accounts :
    (k : Kind) (w : Worker) (t : Task) (ts : List Task)
    → w.normal ≡ t ∷ ts
    → queued k (record w { normal = ts }) + returned k (execute t) ≡ queued k w
unfolding held
normal_accounts k w t ts e = omega (arith, returned-execute k t, ap (held k) e)

-- A turn of a worker, in either queue or at its end, gives each counted value back that it takes out.
pub work_accounts :
    (k : Kind) (first : Bool) (w : Worker) (out : Worker × List Deed)
    → work first w ≡ some out
    → queued k out.0 + returned k out.1 ≡ queued k w
unfolding work
work_accounts k true w out h = elim (list-cases w.high) [
  | inl e ↦ ground (arith, h, e, leave_accounts k w)
  | inr (t, ts, e) ↦ ground (arith, h, e, leave_accounts k w, high_accounts k w t ts e)
]
work_accounts k false w out h = elim (list-cases w.normal) [
  | inl e ↦ ground (arith, h, e, leave_accounts k w)
  | inr (t, ts, e) ↦ ground (arith, h, e, leave_accounts k w, normal_accounts k w t ts e)
]

-- A submission leaves each counted value in a queue or gives it back.
pub submit_accounts :
    (k : Kind) (node : ℕ) (j : Kind) (v : ℕ) (w : Worker) (out : Worker × List Deed)
    → submit node j v w ≡ some out
    → queued k out.0 + returned k out.1 ≡ queued k w + holds_value k (Task.event node j v)
unfolding submit held returned
submit_accounts k node Kind.signal v w out h = ground (
  arith,
  h,
  held-append k w.high (Task.event node Kind.signal v ∷ []),
  returned-dropped k Kind.signal node v,
)
submit_accounts k node Kind.payload v w out h = ground (
  arith,
  h,
  held-append k w.normal (Task.event node Kind.payload v ∷ []),
  returned-dropped k Kind.payload node v,
)
submit_accounts k node Kind.audio v w out h = ground (
  arith,
  h,
  held-append k w.normal (Task.event node Kind.audio v ∷ []),
  returned-dropped k Kind.audio node v,
)
submit_accounts k node Kind.video v w out h = ground (
  arith,
  h,
  held-append k w.normal (Task.event node Kind.video v ∷ []),
  returned-dropped k Kind.video node v,
)

-- The first queue goes first: a turn takes from the second only while the first is empty.
pub work_first :
    (w : Worker) (out : Worker × List Deed)
    → work false w ≡ some out
    → w.cancelled ≡ false
    → length w.high ≡ 0
unfolding work
work_first w out h live = elim (list-cases w.normal) [
  | inl e ↦ ground (arith, h, live, e)
  | inr (t, ts, e) ↦ ground (arith, h, live, e)
]
