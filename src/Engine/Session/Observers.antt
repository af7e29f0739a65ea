-- ===== src/Engine/Session/Observers.antt =====
-- internal/engine/session.go: the slots of observers. An observer is a number; a nil slot is `none`.
use voce.Prelude.{
  ℕ, zero, suc, ◌+◌, ◌-◌, ◌≤◌, ◌<◌, ◌≡◌, refl, ap, inl, inr, Bool-cases, ◌==◌, if◌then◌else◌,
  Option, none, some, List, [], ◌∷◌, ◌++◌, arith, length, set, replicate, get_or,
}

pub record Slots : Type 0 where
  pub observers : List (Option ℕ)
  pub count : ℕ

abbrev pub new_slots : Slots
new_slots = record { observers = replicate 4 none; count = 0 }

-- The index of the first nil slot, and the slots with `fn` there.
unfoldable pub fill_first : ℕ → ℕ → List (Option ℕ) → Option (ℕ × List (Option ℕ))
fill_first i fn [] = none
fill_first i fn (none ∷ os) = some (i, some fn ∷ os)
fill_first i fn (some g ∷ os) = elim (fill_first (suc i) fn os) [
  | none ↦ none
  | some (j, os') ↦ some (j, some g ∷ os')
]

-- addObserver; `none` stands for the index -1.
unfoldable pub add_observer : Slots → ℕ → Option ℕ × Slots
add_observer s fn =
    if s.count == length s.observers
    then (
      some (length s.observers),
      record { observers = s.observers ++ (some fn ∷ []); count = suc s.count },
    )
    else elim (fill_first 0 fn s.observers) [
      | none ↦ (none, s)
      | some (i, os) ↦ (some i, record { observers = os; count = suc s.count })
    ]

-- RemoveCreatedObserver and RemoveDeletedObserver, for an index that is not negative.
unfoldable pub remove_observer : Slots → ℕ → Slots
remove_observer s index = elim (get_or s.observers index none) [
  | none ↦ s
  | some _ ↦ record { observers = set s.observers index none; count = s.count - 1 }
]

-- The observers to call: none is looked for when the count is zero.
abbrev pub present : List (Option ℕ) → List ℕ
present [] = []
present (none ∷ os) = present os
present (some fn ∷ os) = fn ∷ present os

unfoldable pub to_call : Slots → List ℕ
to_call s = let fns = present s.observers in if s.count == 0 then [] else fns

-- The count is that of the slots in use.
abbrev pub IsCounted : Slots → Type 0
IsCounted s = s.count ≡ length (present s.observers)

present-length : (os : List (Option ℕ)) → length (present os) ≤ length os
present-length [] = omega arith
present-length (none ∷ os) = omega (arith, present-length os)
present-length (some fn ∷ os) = omega (arith, present-length os)

present-snoc :
    (os : List (Option ℕ)) (fn : ℕ)
    → length (present (os ++ (some fn ∷ []))) ≡ suc (length (present os))
present-snoc [] fn = refl
present-snoc (none ∷ os) fn = present-snoc os fn
present-snoc (some g ∷ os) fn = ap suc (present-snoc os fn)

get_or-snoc : (os : List (Option ℕ)) (o : Option ℕ) → get_or (os ++ (o ∷ [])) (length os) none ≡ o
get_or-snoc [] o = refl
get_or-snoc (x ∷ os) o = get_or-snoc os o

get_or_end : (os : List (Option ℕ)) → get_or os (length os) none ≡ none
get_or_end [] = refl
get_or_end (x ∷ os) = get_or_end os

get_or_other :
    (os : List (Option ℕ)) (k d : ℕ) → get_or os k (some d) ≡ none → get_or os k none ≡ none
get_or_other [] k d h = refl
get_or_other (x ∷ os) zero d h = h
get_or_other (x ∷ os) (suc k) d h = get_or_other os k d h

-- When a slot is free, the first one is filled.
fill_first_lem :
    (i fn : ℕ) (os : List (Option ℕ))
    → length (present os) < length os
    → (k : ℕ) × (get_or os k (some 0) ≡ none)
      × (fill_first i fn os ≡ some (i + k, set os k (some fn)))
      × (get_or (set os k (some fn)) k none ≡ some fn)
      × (length (present (set os k (some fn))) ≡ suc (length (present os)))
unfolding fill_first
fill_first_lem i fn [] h = absurd (omega (arith, h))
fill_first_lem i fn (none ∷ os) h = (0, refl, ground arith, refl, refl)
fill_first_lem i fn (some g ∷ os) h =
    let (k, free, fill, at, more) = fill_first_lem (suc i) fn os (omega (arith, h)) in
    (suc k, free, ground (arith, fill), at, ap suc more)

-- While the count is that of the slots in use, a new observer is always given a slot: its index is one
-- where no observer stood, it stands there afterwards, and the count stays right.
pub add_observer_lem :
    (s : Slots) (fn : ℕ)
    → IsCounted s
    → (k : ℕ) × ((add_observer s fn).0 ≡ some k)
      × (get_or s.observers k none ≡ none)
      × (get_or (add_observer s fn).1.observers k none ≡ some fn)
      × IsCounted (add_observer s fn).1
unfolding add_observer
add_observer_lem s fn counted = elim (Bool-cases (s.count == length s.observers)) [
  | inl full ↦ (
    length s.observers,
    ground (arith, full),
    get_or_end s.observers,
    ground (arith, full, get_or-snoc s.observers (some fn)),
    ground (arith, full, counted, present-snoc s.observers fn),
  )
  | inr free ↦
      let less : length (present s.observers) < length s.observers =
        ground (arith, free, counted, present-length s.observers) in
      let (k, empty, fill, at, more) = fill_first_lem 0 fn s.observers less in
      let fill' : fill_first 0 fn s.observers ≡ some (k, set s.observers k (some fn)) =
        ground (arith, fill) in
      (
        k,
        ground (arith, free, fill'),
        get_or_other s.observers k 0 empty,
        ground (arith, free, fill', at),
        ground (arith, free, fill', counted, more),
      )
]
