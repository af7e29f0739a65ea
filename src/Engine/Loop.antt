-- ===== src/Engine/Loop.antt =====
-- internal/engine/node_loop.go and the plugin calls of node.go: the loop of a node. A value is a number.
-- `none` is a step that cannot be taken now: a sender that waits for room, or a choice of the loop's
-- select that is not ready. What the select takes among what is ready is an argument.
pub mod Turns
pub mod Accounts
use voce.Prelude.{
  ℕ, suc, ◌+◌, ◌≡◌, refl, Bool, true, false, not, ◌&&◌, ◌||◌, ◌==◌, ltb, if◌then◌else◌, Option,
  none, some, List, [], ◌∷◌, ◌++◌, length, arith, inl, inr, Option-cases, Bool-cases, list-cases,
  length-append,
}

pub data Kind : Type 0 where
  signal payload audio video : Kind

pub data ControlType : Type 0 where
  pause resume stop : ControlType

-- `exited` says that the loop has returned, or never ran.
pub record LoopNode : Type 0 where
  pub running : Bool
  pub cancelled : Bool
  pub exited : Bool
  pub controls : List ControlType
  pub signals : List ℕ
  pub payloads : List ℕ
  pub audios : List ℕ
  pub videos : List ℕ

-- What the plugin is called for, with whether it has a deadline, and what is given back.
pub data Act : Type 0 where
  on_start on_stop : Act
  on_event : Kind → Bool → ℕ → Act
  on_control : ControlType → Act
  release : Kind → ℕ → Act

abbrev ctrl_buffer_size : ℕ
ctrl_buffer_size = 8

abbrev signal_buffer_size : ℕ
signal_buffer_size = 12

abbrev payload_buffer_size : ℕ
payload_buffer_size = 24

abbrev audio_buffer_size : ℕ
audio_buffer_size = 64

abbrev video_buffer_size : ℕ
video_buffer_size = 24

unfoldable pub new_loop_node : LoopNode
new_loop_node = record {
  running = false;
  cancelled = false;
  exited = true;
  controls = [];
  signals = [];
  payloads = [];
  audios = [];
  videos = [];
}

-- Start, where the plugin's OnStart succeeds or fails; the Boolean says whether it did.
unfoldable pub start : Bool → LoopNode → LoopNode × List Act
start succeeds n =
    (if succeeds then record n { running = true; exited = false } else n, Act.on_start ∷ [])

unfoldable pub stop_node : LoopNode → LoopNode
stop_node n =
    if n.running
    then record n {
      running = false;
      controls =
          if ltb (length n.controls) ctrl_buffer_size
          then n.controls ++ (ControlType.stop ∷ [])
          else n.controls;
    }
    else n

-- Pause and Resume, with what the test of running has loaded.
unfoldable pub send_control : Bool → ControlType → LoopNode → Option LoopNode
send_control running c n =
    if not running || n.cancelled
    then some n
    else if ltb (length n.controls) ctrl_buffer_size
    then some (record n { controls = n.controls ++ (c ∷ []) })
    else none

-- Audio and video are counted.
abbrev given_back : Kind → ℕ → List Act
given_back Kind.audio v = Act.release Kind.audio v ∷ []
given_back Kind.video v = Act.release Kind.video v ∷ []
given_back _ v = []

-- The send on the channel of the value's kind.
unfoldable pub enqueue : Kind → ℕ → LoopNode → Option (LoopNode × List Act)
enqueue Kind.signal v n =
    if n.cancelled
    then some (n, [])
    else if ltb (length n.signals) signal_buffer_size
    then some (record n { signals = n.signals ++ (v ∷ []) }, [])
    else none
enqueue Kind.payload v n =
    if n.cancelled
    then some (n, [])
    else if ltb (length n.payloads) payload_buffer_size
    then some (record n { payloads = n.payloads ++ (v ∷ []) }, [])
    else none
enqueue Kind.audio v n =
    if not n.cancelled && ltb (length n.audios) audio_buffer_size
    then some (record n { audios = n.audios ++ (v ∷ []) }, [])
    else some (n, Act.release Kind.audio v ∷ [])
enqueue Kind.video v n =
    if not n.cancelled && ltb (length n.videos) video_buffer_size
    then some (record n { videos = n.videos ++ (v ∷ []) }, [])
    else some (n, Act.release Kind.video v ∷ [])

-- Input: `live` is what its test of the context and of running found, after which, before the send,
-- the loop may leave.
unfoldable pub input : Bool → Kind → ℕ → LoopNode → Option (LoopNode × List Act)
unfolding enqueue
input live k v n = if live then enqueue k v n else some (n, given_back k v)

abbrev pub releases : Kind → List ℕ → List Act
releases k [] = []
releases k (v ∷ vs) = Act.release k v ∷ releases k vs

-- The end of readLoop, with drainChannels.
unfoldable pub leave : LoopNode → LoopNode × List Act
leave n = (
  record n { running = false; exited = true; audios = []; videos = [] },
  Act.on_stop ∷ (releases Kind.audio n.audios ++ releases Kind.video n.videos),
)

-- processEvent: the call, then the release of a counted value.
unfoldable pub process_event : Kind → Bool → ℕ → List Act
process_event k deadline v = Act.on_event k deadline v ∷ given_back k v

pub data Pick : Type 0 where
  pick_control pick_signal pick_payload pick_audio pick_video : Pick

-- No control and no signal waits: the inner select.
abbrev pub quiet : LoopNode → Bool
quiet n = (length n.controls == 0) && (length n.signals == 0)

-- The select of a turn.
unfoldable pub choose : Pick → LoopNode → Option (LoopNode × List Act)
unfolding process_event
choose pick_control n = elim n.controls [
  | [] ↦ none
  | c ∷ cs ↦ elim c [
    | ControlType.stop ↦ some (leave (record n { controls = cs }))
    | c ↦ some (record n { controls = cs }, Act.on_control c ∷ [])
  ]
]
choose pick_signal n = elim n.signals [
  | [] ↦ none
  | v ∷ vs ↦ some (record n { signals = vs }, process_event Kind.signal true v)
]
choose pick_payload n = elim n.payloads [
  | [] ↦ none
  | v ∷ vs ↦
      if quiet n then some (record n { payloads = vs }, process_event Kind.payload true v) else none
]
choose pick_audio n = elim n.audios [
  | [] ↦ none
  | v ∷ vs ↦
      if quiet n then some (record n { audios = vs }, process_event Kind.audio false v) else none
]
choose pick_video n = elim n.videos [
  | [] ↦ none
  | v ∷ vs ↦
      if quiet n then some (record n { videos = vs }, process_event Kind.video false v) else none
]

-- A turn of readLoop.
unfoldable pub turn : Pick → LoopNode → Option (LoopNode × List Act)
turn pick n =
    if n.exited
    then none
    else if n.cancelled || not n.running
    then some (leave n)
    else choose pick n
