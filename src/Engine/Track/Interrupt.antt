-- ===== src/Engine/Track/Interrupt.antt =====
-- internal/engine/multi.go: a signal makes stale what a track has queued.
use voce.Prelude.{
  ℕ, zero, suc, ◌+◌, ◌≤◌, ◌<◌, ◌≡◌, refl, sym, ap, ◌∙◌, inl, inr, Bool, true, false, ◌&&◌, leb,
  none, some, List, [], ◌∷◌, ◌++◌, arith, length, any, All, list-cases, String, str_eq,
  Option-cases,
}
use voce.Engine.Track.{
  DropStrategy, Item, Track, new_stream, push_drop_newest, push_block_if_full, push_drop_oldest,
  push_item, receive, finish, drain_track, interrupt, int32_mod, values,
}
use voce.Engine.Track.Push.{Event, pushes, receives, finishes, drains, signal, happen, run_track}
use mathlib.Core.List.{reverse, reverse-cons, append_assoc}

-- Each item was stamped at or before the epoch.
unfoldable stamped : ℕ → List Item → Bool
stamped n [] = true
stamped n (x ∷ items) = leb x.epoch n && stamped n items

stamped-snoc :
    (n : ℕ) (items : List Item) (item : Item)
    → stamped n (items ++ (item ∷ [])) ≡ (stamped n items && leb item.epoch n)
unfolding stamped
stamped-snoc n [] item = ground arith
stamped-snoc n (x ∷ items) item = ground (arith, stamped-snoc n items item)

stamped-cons :
    (n : ℕ) (items : List Item) (x : Item)
    → stamped n (x ∷ items) ≡ (leb x.epoch n && stamped n items)
unfolding stamped
stamped-cons n items x = refl

start_stamped : stamped 0 [] ≡ true
unfolding stamped
start_stamped = refl

stamped-later :
    (m n : ℕ) (items : List Item) → m ≤ n → stamped m items ≡ true → stamped n items ≡ true
unfolding stamped
stamped-later m n [] h all = refl
stamped-later m n (x ∷ items) h all = ground (arith, stamped-later m n items h)

stamped-All :
    (m n : ℕ) (items : List Item) → m < n → stamped m items ≡ true → All (λ i. i.epoch < n) items
unfolding stamped
stamped-All m n [] h all = tt
stamped-All m n (x ∷ items) h all = (ground arith, stamped-All m n items h (ground arith))

-- The read loop's next `n` receives.
unfoldable pub receives_n : ℕ → Track → Track
receives_n zero t = t
receives_n (suc n) t = receives_n n (receive false t)

receives_stale :
    (t : Track) (items : List Item)
    → t.ch ≡ items
    → t.current ≡ none
    → All (λ i. i.epoch < t.epoch) items
    → receives_n (length items) t
      ≡ record t { ch = []; dropped = reverse (values items) ++ t.dropped }
unfolding receives_n receive
receives_stale t [] e idle all = ground (arith, e)
receives_stale t (x ∷ items) e idle all =
    let t' : Track = record t { ch = items; dropped = x.value ∷ t.dropped } in
    let back : reverse (x.value ∷ values items) ++ t.dropped
        ≡ reverse (values items) ++ (x.value ∷ t.dropped) =
      ap (λ l. l ++ t.dropped) (reverse-cons x.value (values items))
      ∙ append_assoc (reverse (values items)) (x.value ∷ []) t.dropped in
    rw back (ground (arith, e, receives_stale t' items refl idle all.1, all.0))

-- After `n` events: the epoch has not wrapped around, and no queued item is ahead of it.
abbrev IsAged : ℕ → Track → Type 0
IsAged n t = (t.epoch ≤ n) × (stamped t.epoch t.ch ≡ true)

stamped-push_drop_oldest :
    (fuel : ℕ) (done : Bool) (t t' : Track) (item : Item)
    → stamped t.epoch t.ch ≡ true
    → item.epoch ≤ t.epoch
    → push_drop_oldest fuel done t item ≡ some t'
    → (t'.epoch ≡ t.epoch) × (stamped t'.epoch t'.ch ≡ true)
unfolding push_drop_oldest
stamped-push_drop_oldest zero done t t' item all h e = absurd (cc e)
stamped-push_drop_oldest (suc fuel) done t t' item all h e = elim (list-cases t.ch) [
  | inl empty ↦
      ground
        (arith, empty, stamped-snoc t.epoch t.ch item, stamped-push_drop_oldest fuel done t t' item)
  | inr (x, xs, full) ↦
      let t'' : Track = record t { ch = xs; dropped = x.value ∷ t.dropped } in
      ground (
        arith,
        full,
        stamped-cons t.epoch xs x,
        stamped-snoc t.epoch t.ch item,
        stamped-push_drop_oldest fuel done t'' t' item,
      )
]

stamped-push_item :
    (done : Bool) (t t' : Track) (item : Item)
    → stamped t.epoch t.ch ≡ true
    → item.epoch ≤ t.epoch
    → push_item done t item ≡ some t'
    → (t'.epoch ≡ t.epoch) × (stamped t'.epoch t'.ch ≡ true)
unfolding push_item push_drop_newest push_block_if_full
stamped-push_item done t t' item all h e =
    ground (arith, stamped-snoc t.epoch t.ch item, stamped-push_drop_oldest 2 done t t' item)

-- Each push stamps its value with the epoch at that time or an earlier one.
abbrev loads : Track → Event → Bool
loads t (pushes done item) = leb item.epoch t.epoch
loads t _ = true

abbrev pub loaded : Track → List Event → Bool
loaded t [] = true
loaded t (e ∷ es) = loads t e && loaded (happen t e) es

happen-IsAged :
    (n : ℕ) (t : Track) (e : Event)
    → suc n < int32_mod
    → loads t e ≡ true
    → IsAged n t
    → IsAged (suc n) (happen t e)
unfolding happen receive finish drain_track interrupt stamped
happen-IsAged n t (pushes done item) small fine (old, all) =
    elim (Option-cases (push_item done t item)) [
      | inl e ↦ ground (arith, e)
      | inr (t', e) ↦
          ground (arith, e, fine, stamped-push_item done t t' item all (ground (arith, fine)) e)
    ]
happen-IsAged n t (receives paused) small fine (old, all) = elim (list-cases t.ch) [
  | inl e ↦ ground (arith, e)
  | inr (x, xs, e) ↦ ground (arith, e, stamped-cons t.epoch xs x)
]
happen-IsAged n t finishes small fine (old, all) = ground arith
happen-IsAged n t drains small fine (old, all) = ground arith
happen-IsAged n t (signal name) small fine (old, all) =
    ground (arith, stamped-later t.epoch (t.epoch + 1) t.ch)

run_track-IsAged :
    (n : ℕ) (t : Track) (es : List Event)
    → n + length es < int32_mod
    → loaded t es ≡ true
    → IsAged n t
    → IsAged (n + length es) (run_track t es)
unfolding run_track
run_track-IsAged n t [] small fine aged = ground arith
run_track-IsAged n t (e ∷ es) small fine aged =
    let (old, all) =
      run_track-IsAged (suc n) (happen t e) es (omega (arith, small)) (ground (arith, fine))
        (happen-IsAged n t e (omega (arith, small)) (ground (arith, fine)) aged) in
    (omega (arith, old), all)

interrupt_lem :
    (name : String) (t : Track)
    → any (λ s. str_eq s name) t.signals ≡ true
    → t.current ≡ none
    → t.epoch + 1 < int32_mod
    → interrupt name t ≡ record t { epoch = t.epoch + 1; cancel = false }
unfolding interrupt
interrupt_lem name t listed idle small = ground (arith, listed, idle, small)

-- From a new track on, with fewer than 2^32 - 1 events, whose pushes stamp values with the epoch of
-- that time or an earlier one: when a signal that the track listens to comes
-- while no handler runs, the read loop then drops the whole queue, in its order, and starts no handler.
pub interrupt_drops_queue :
    (size : ℕ) (strategy : DropStrategy) (signals : List String) (es : List Event) (t : Track)
    → (name : String) → length es + 1 < int32_mod
    → loaded (new_stream size strategy signals) es ≡ true
    → run_track (new_stream size strategy signals) es ≡ t
    → any (λ s. str_eq s name) t.signals ≡ true
    → t.current ≡ none
    → receives_n (length t.ch) (interrupt name t) ≡ record t {
      ch = [];
      epoch = t.epoch + 1;
      cancel = false;
      dropped = reverse (values t.ch) ++ t.dropped;
    }
unfolding new_stream
interrupt_drops_queue size strategy signals es t name small fine reached listed idle =
    let fresh : IsAged 0 (new_stream size strategy signals) = (omega arith, start_stamped) in
    let (old, all) =
      run_track-IsAged 0 (new_stream size strategy signals) es (omega (arith, small)) fine fresh in
    let young : t.epoch ≤ length es = rw (sym reached) (omega (arith, old)) in
    let whole : stamped t.epoch t.ch ≡ true = rw (sym reached) all in
    rw (interrupt_lem name t listed idle (omega (arith, young, small))) (
      receives_stale (record t { epoch = t.epoch + 1; cancel = false }) t.ch refl idle
        (stamped-All t.epoch (t.epoch + 1) t.ch (omega arith) whole))
