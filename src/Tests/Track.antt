-- ===== src/Tests/Track.antt =====
-- internal/engine/multi.go at a track with room for two values.
use voce.Prelude.{ℕ, ◌+◌, ◌≡◌, refl, true, false, some, List, [], ◌∷◌, ◌++◌, arith}
use mathlib.Core.List.{reverse}
use voce.Engine.Track.{
  DropStrategy, Item, Track, new_stream, push_drop_oldest, push_item, interrupt,
}
use voce.Engine.Track.Push.{
  Event, pushes, happen, run_track, holds, accepted_in, push_drop_oldest_lem, run_track_accounts,
}
use voce.Engine.Track.Interrupt.{receives_n, loaded, interrupt_drops_queue}

abbrev item : ℕ → Item
item value = record { epoch = 0; value = value }

abbrev small : Track
small = new_stream 2 DropStrategy.drop_oldest ("stop" ∷ [])

abbrev full : Track
full = record small { ch = item 2 ∷ item 3 ∷ []; dropped = 1 ∷ [] }

push_drop_oldest_example :
    push_drop_oldest 2 false full (item 4)
    ≡ some (record full { ch = item 3 ∷ item 4 ∷ []; dropped = 2 ∷ 1 ∷ [] })
unfolding new_stream
push_drop_oldest_example = push_drop_oldest_lem full (item 4) (item 2) (item 3 ∷ []) refl refl

abbrev three_pushes : List Event
three_pushes = pushes false (item 1) ∷ pushes false (item 2) ∷ pushes false (item 3) ∷ []

run_track_accounts_example :
    holds 1 (run_track small three_pushes) ≡ holds 1 small + accepted_in 1 small three_pushes
run_track_accounts_example = run_track_accounts 1 small three_pushes

reached_full : run_track small three_pushes ≡ full
unfolding run_track happen push_item push_drop_oldest new_stream
reached_full = refl

loaded_three : loaded small three_pushes ≡ true
unfolding happen push_item push_drop_oldest new_stream
loaded_three = refl

interrupt_drops_queue_example :
    receives_n 2 (interrupt "stop" full)
    ≡ record full { ch = []; epoch = 1; cancel = false; dropped = reverse (2 ∷ 3 ∷ []) ++ (1 ∷ []) }
unfolding new_stream
interrupt_drops_queue_example =
    interrupt_drops_queue 2 DropStrategy.drop_oldest ("stop" ∷ []) three_pushes full "stop"
      (omega arith) loaded_three reached_full refl refl
