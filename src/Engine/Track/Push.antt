-- ===== src/Engine/Track/Push.antt =====
-- internal/engine/multi.go: the drop strategies, and what becomes of the values of a track.
use voce.Prelude.{
  ℕ, zero, suc, ◌+◌, ◌≡◌, inl, inr, Bool, false, ◌==◌, if◌then◌else◌, none, some, List, [], ◌∷◌,
  ◌++◌, arith, length, occurs, occurs-append, list-cases, String, Option-cases,
}
use voce.Engine.Track.{
  Item, Track, take_oldest, push_drop_newest, push_block_if_full, push_drop_oldest, push_item,
  current_of, receive, finish, drain_track, interrupt, values,
}

-- With a live context a full channel of positive capacity lets its oldest item go for the new one,
-- within two rounds of the loop.
pub push_drop_oldest_lem :
    (t : Track) (item oldest : Item) (rest : List Item)
    → t.ch ≡ oldest ∷ rest
    → length t.ch ≡ t.room
    → push_drop_oldest 2 false t item
      ≡ some (record t { ch = rest ++ (item ∷ []); dropped = oldest.value ∷ t.dropped })
unfolding push_drop_oldest
push_drop_oldest_lem t item oldest rest e full = ground arith

-- What may happen to a track: a push, a receive of its read loop (paused or not), the end of a
-- handler, the loop that drains the channel when the read loop ends, and a signal.
pub data Event : Type 0 where
  pushes : Bool → Item → Event
  receives : Bool → Event
  finishes : Event
  drains : Event
  signal : String → Event

-- A push that waits leaves the track alone.
unfoldable pub happen : Track → Event → Track
happen t (pushes done item) = elim (push_item done t item) [ none ↦ t | some t' ↦ t' ]
happen t (receives paused) = receive paused t
happen t finishes = finish t
happen t drains = drain_track t
happen t (signal name) = interrupt name t

unfoldable pub run_track : Track → List Event → Track
run_track t [] = t
run_track t (e ∷ es) = run_track (happen t e) es

-- How often a value stands anywhere in a track.
abbrev pub holds : ℕ → Track → ℕ
holds v t =
    occurs v (values t.ch)
    + occurs v (current_of t.current)
    + occurs v t.dropped
    + occurs v t.handled

-- 1 for a push of the value that does not wait.
abbrev pub accepted : ℕ → Track → Event → ℕ
accepted v t (pushes done item) = elim (push_item done t item) [
  | none ↦ 0
  | some _ ↦ if item.value == v then 1 else 0
]
accepted v t _ = 0

unfoldable pub accepted_in : ℕ → Track → List Event → ℕ
accepted_in v t [] = 0
accepted_in v t (e ∷ es) = accepted v t e + accepted_in v (happen t e) es

values-snoc :
    (v : ℕ) (items : List Item) (item : Item)
    → occurs v (values (items ++ (item ∷ [])))
      ≡ occurs v (values items) + (if item.value == v then 1 else 0)
values-snoc v [] item = omega arith
values-snoc v (x ∷ items) item = omega (arith, values-snoc v items item)

holds-push_drop_newest :
    (v : ℕ) (done : Bool) (t : Track) (item : Item)
    → holds v (push_drop_newest done t item) ≡ holds v t + (if item.value == v then 1 else 0)
unfolding push_drop_newest
holds-push_drop_newest v done t item = ground (arith, values-snoc v t.ch item)

holds-push_block_if_full :
    (v : ℕ) (done : Bool) (t t' : Track) (item : Item)
    → push_block_if_full done t item ≡ some t'
    → holds v t' ≡ holds v t + (if item.value == v then 1 else 0)
unfolding push_block_if_full
holds-push_block_if_full v done t t' item h = ground (arith, values-snoc v t.ch item)

holds-take_oldest : (v : ℕ) (t : Track) → holds v (take_oldest t) ≡ holds v t
holds-take_oldest v t = elim (list-cases t.ch) [
  | inl e ↦ ground (arith, e)
  | inr (x, xs, e) ↦ ground (arith, e)
]

holds-push_drop_oldest :
    (v fuel : ℕ) (done : Bool) (t t' : Track) (item : Item)
    → push_drop_oldest fuel done t item ≡ some t'
    → holds v t' ≡ holds v t + (if item.value == v then 1 else 0)
unfolding push_drop_oldest
holds-push_drop_oldest v zero done t t' item h = absurd (cc h)
holds-push_drop_oldest v (suc fuel) done t t' item h = ground (
  arith,
  values-snoc v t.ch item,
  holds-take_oldest v t,
  holds-push_drop_oldest v fuel done (take_oldest t) t' item,
)

holds-push_item :
    (v : ℕ) (done : Bool) (t t' : Track) (item : Item)
    → push_item done t item ≡ some t'
    → holds v t' ≡ holds v t + (if item.value == v then 1 else 0)
unfolding push_item
holds-push_item v done t t' item h = ground (
  arith,
  holds-push_drop_newest v done t item,
  holds-push_block_if_full v done t t' item,
  holds-push_drop_oldest v 2 done t t' item,
)

holds-happen : (v : ℕ) (t : Track) (e : Event) → holds v (happen t e) ≡ holds v t + accepted v t e
unfolding happen receive finish drain_track interrupt
holds-happen v t (pushes done item) = elim (Option-cases (push_item done t item)) [
  | inl e ↦ ground (arith, e)
  | inr (t', e) ↦ ground (arith, e, holds-push_item v done t t' item e)
]
holds-happen v t (receives paused) = elim (list-cases t.ch) [
  | inl e ↦ ground (arith, e)
  | inr (x, xs, e) ↦ ground (arith, e)
]
holds-happen v t finishes = elim (Option-cases t.current) [
  | inl e ↦ ground (arith, e)
  | inr (x, e) ↦ ground (arith, e)
]
holds-happen v t drains = ground (arith, occurs-append v (values t.ch) t.dropped)
holds-happen v t (signal name) = ground arith

-- Whatever happens to a track, each value whose push did not wait is queued, in the hands of the
-- handler, dropped or handled, exactly as often as it was pushed: none is lost or released twice.
pub run_track_accounts :
    (v : ℕ) (t : Track) (es : List Event)
    → holds v (run_track t es) ≡ holds v t + accepted_in v t es
unfolding run_track accepted_in
run_track_accounts v t [] = omega arith
run_track_accounts v t (e ∷ es) =
    omega (arith, holds-happen v t e, run_track_accounts v (happen t e) es)
