-- ===== src/Engine/Node.antt =====
-- internal/engine/node.go: the routing tables of a node, and what it sends downstream. A node is named
-- by its index in the workflow. `Input` of the next node is where a sent value arrives.
pub mod Routes
use voce.Prelude.{
  ℕ, suc, Bool, true, false, not, ◌&&◌, ◌||◌, ◌==◌, ltb, leb, if◌then◌else◌, Option, none, some,
  List, [], ◌∷◌, ◌++◌, length, replicate, get_or, set, contains, String,
}
use voce.Prelude.Int.{ℤ}
use voce.Engine.Config.{EventType}

pub record RouteTable : Type 0 where
  pub signals : List ℕ
  pub payloads : List ℕ
  pub audios : List ℕ
  pub videos : List ℕ

abbrev pub empty_table : RouteTable
empty_table = record { signals = []; payloads = []; audios = []; videos = [] }

abbrev pub max_port_count : ℕ
max_port_count = 12

-- `done` is whether the node's context is over.
pub record BaseNode : Type 0 where
  pub name : String
  pub table : RouteTable
  pub port_table : List RouteTable
  pub running : Bool
  pub done : Bool

pub new_base_node : String → BaseNode
new_base_node name = record {
  name = name;
  table = empty_table;
  port_table = replicate max_port_count empty_table;
  running = false;
  done = false;
}

-- Append, unless the node is there already.
unfoldable pub add_once : List ℕ → ℕ → List ℕ
add_once xs n = if contains xs n then xs else xs ++ (n ∷ [])

unfoldable pub add_route : EventType → ℕ → RouteTable → RouteTable
unfolding add_once
add_route EventType.signal n t = record t { signals = add_once t.signals n }
add_route EventType.payload n t = record t { payloads = add_once t.payloads n }
add_route EventType.audio n t = record t { audios = add_once t.audios n }
add_route EventType.video n t = record t { videos = add_once t.videos n }
add_route (EventType.other k) n t = t

unfoldable pub add_next_node : EventType → ℕ → BaseNode → BaseNode
add_next_node event next b = record b { table = add_route event next b.table }

-- A port that the array does not have is ignored.
abbrev pub in_ports : ℤ → Option ℕ
in_ports (ℤ.pos n) = if ltb n max_port_count then some n else none
in_ports (ℤ.negsuc n) = none

unfoldable pub add_next_port_node : EventType → ℕ → ℤ → BaseNode → BaseNode
add_next_port_node event next port b = elim (in_ports port) [
  | none ↦ b
  | some p ↦ record b {
    port_table = set b.port_table p (add_route event next (get_or b.port_table p empty_table));
    table = add_route event next b.table;
  }
]

-- The targets of a table for one type of event.
unfoldable pub routes : EventType → RouteTable → List ℕ
routes EventType.signal t = t.signals
routes EventType.payload t = t.payloads
routes EventType.audio t = t.audios
routes EventType.video t = t.videos
routes (EventType.other k) t = []

-- Audio and video are counted references.
abbrev pub is_counted : EventType → Bool
is_counted EventType.audio = true
is_counted EventType.video = true
is_counted _ = false

-- What one send does: how often the value is retained, and the nodes whose Input is then called.
pub record Sent : Type 0 where
  pub retains : ℕ
  pub inputs : List ℕ

abbrev pub nothing_sent : Sent
nothing_sent = record { retains = 0; inputs = [] }

abbrev pub is_empty {ℓ} : {A : Type ℓ} → List A → Bool
is_empty [] = true
is_empty (x ∷ xs) = false

unfoldable pub send_over : EventType → BaseNode → List ℕ → Sent
send_over event b targets =
    if is_empty targets || b.done || not b.running
    then nothing_sent
    else record { retains = if is_counted event then length targets else 0; inputs = targets }

-- SendSignal, SendPayload, SendAudio, SendVideo
unfoldable pub send : EventType → BaseNode → Sent
unfolding send_over
send event b = send_over event b (routes event b.table)

-- SendSignalToPort, SendPayloadToPort, SendAudioToPort, SendVideoToPort
unfoldable pub send_to_port : EventType → ℤ → BaseNode → Sent
unfolding send_over
send_to_port event port b = elim (in_ports port) [
  | none ↦ nothing_sent
  | some p ↦ send_over event b (routes event (get_or b.port_table p empty_table))
]
