-- ===== src/Tests/Gateway.antt =====
-- pkg/syncx and internal/gateway at concrete sessions and messages.
use voce.Prelude.{
  ℕ, ◌≡◌, refl, true, false, none, some, is_some, List, [], ◌∷◌, arith, String, Option, replicate,
}
use voce.Pkg.ShardedMap.{Shards, load, update, load-update}
use voce.Prelude.Slices.{bytes}
use voce.Protocol.PacketType
use voce.Protocol.Types.{ConnectionState}
use voce.Protocol.Packet.{Packet, unmarshal}
use voce.Gateway.Connection.{Connection, Output, write_packet}
use voce.Machine.Connection.{receive, receive-write_packet}
use voce.Gateway.Session.{
  SessionState, MachineState, Session, Effect, new_session, acquire, on_client_message,
}
use voce.Gateway.Session.Messages.{on_client_message-unmarshal}
use voce.Gateway.Session.States.{
  Event, opens, client_closes, pings, run, sent, run_closed, run_held, new_session_resumes,
}
use voce.Tests.Protocol.{text_packet, used_packet, text_bytes}

abbrev two_shards : Shards ℕ
two_shards = (("a", 1) ∷ []) ∷ (("b", 2) ∷ []) ∷ []

abbrev first_of_two : String → ℕ
first_of_two key = 0

-- Takes away what is there.
abbrev remove_it : Option ℕ → Option ℕ
remove_it _ = none

load-update_example :
    (load first_of_two (update first_of_two two_shards "a" remove_it).0 "a" ≡ none)
    × ((update first_of_two two_shards "a" remove_it).1
        ≡ is_some (load first_of_two two_shards "a"))
load-update_example = load-update first_of_two two_shards "a" "a" remove_it (omega arith)

abbrev active : Connection
active = record { state = ConnectionState.active; socket = some 9 }

abbrev key : List ℕ
key = replicate 16 5

receive-write_packet_example :
    (message : List ℕ) × (received : Packet) × (write_packet false used_packet.payload active key
        text_packet
      ≡ (Output.write_message 9 message ∷ [], none))
    × (receive true true used_packet message ≡ some (key, received))
    × (received.type ≡ text_packet.type)
    × (received.encode ≡ text_packet.encode)
    × (bytes received.payload ≡ bytes text_packet.payload)
receive-write_packet_example =
    receive-write_packet used_packet.payload active 9 key text_packet used_packet refl refl refl
      refl (omega arith)

abbrev ready : Session
ready = record {
  state = SessionState.ready;
  client = some 3;
  connect_count = 1;
  last_active_at = 100;
}

on_client_message-unmarshal_example :
    on_client_message MachineState.active (some active) 200 true text_bytes ready
    ≡ elim (unmarshal used_packet text_bytes).1 [
      | none ↦ (record ready { last_active_at = 200 }, Effect.forward text_bytes ∷ [])
      | some _ ↦ (ready, [])
    ]
on_client_message-unmarshal_example =
    on_client_message-unmarshal used_packet active 200 text_bytes ready refl (omega arith)

abbrev ended : Session
ended = record ready { state = SessionState.closed }

abbrev late : List Event
late = client_closes SessionState.closed SessionState.closed true ∷ pings 5 3 ∷ []

run_closed_example :
    ((run ended late).0.state ≡ SessionState.closed)
    × (sent PacketType.pause (run ended late).1 ≡ 0)
run_closed_example = run_closed ended late PacketType.pause refl (refl, (refl, tt))

acquired_new : (acquire (new_session 50)).1 ≡ true
unfolding acquire new_session
acquired_new = refl

run_held_example :
    (acquire (run (acquire (new_session 50)).0 (opens true 60 3 ∷ pings 70 3 ∷ [])).0).1 ≡ false
run_held_example =
    run_held (new_session 50) (opens true 60 3 ∷ pings 70 3 ∷ []) acquired_new (refl, (refl, tt))

abbrev comes_again : List Event
comes_again =
    opens true 60 3
    ∷ client_closes SessionState.ready SessionState.ready true
    ∷ opens true 80 4
    ∷ []

new_session_resumes_example : sent PacketType.resume (run (new_session 50) comes_again).1 ≡ 1
new_session_resumes_example =
    new_session_resumes 50 comes_again (refl, (refl, (refl, tt))) (omega arith)
