-- ===== src/Tests/Loop.antt =====
-- internal/engine/node_loop.go at a node with a few values.
use voce.Prelude.{◌+◌, ◌≡◌, refl, true, false, some, List, [], ◌∷◌}
use voce.Engine.Loop.{
  Kind, LoopNode, Act, pick_signal, pick_audio, new_loop_node, process_event, quiet, choose, turn,
}
use voce.Engine.Loop.Turns.{media_calls, released, waiting, turn-quiet}
use voce.Engine.Loop.Accounts.{
  Event, starts, stops, inputs, turns, run, put_in, new_loop_node_accounts,
}

abbrev busy_node : LoopNode
busy_node = record new_loop_node {
  running = true;
  exited = false;
  signals = 1 ∷ [];
  audios = 2 ∷ [];
}

abbrev after_signal : LoopNode × List Act
after_signal = (record busy_node { signals = [] }, process_event Kind.signal true 1)

takes_signal : turn pick_signal busy_node ≡ some after_signal
unfolding turn choose new_loop_node
takes_signal = refl

busy_now : quiet busy_node ≡ false
unfolding new_loop_node
busy_now = refl

turn-quiet_example : media_calls after_signal.1 ≡ 0
turn-quiet_example = turn-quiet pick_signal busy_node after_signal busy_now takes_signal

abbrev short_life : List Event
short_life =
    starts true
    ∷ inputs true Kind.audio 5
    ∷ turns pick_audio
    ∷ inputs true Kind.audio 6
    ∷ stops
    ∷ turns pick_audio
    ∷ []

new_loop_node_accounts_example :
    waiting Kind.audio 6 (run short_life new_loop_node).0
      + released Kind.audio 6 (run short_life new_loop_node).1
    ≡ put_in Kind.audio 6 short_life
new_loop_node_accounts_example = new_loop_node_accounts Kind.audio 6 short_life refl
