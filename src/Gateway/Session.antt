-- ===== src/Gateway/Session.antt =====
-- internal/gateway/session.go: the session between a client and a machine. A socket is the number of
-- its object. `Effect` is what a method does to the outside, in order. The connection of the session's
-- binding is an argument, `none` when there is none; whether a socket takes a write is left open.
pub mod States
pub mod Messages
use voce.Prelude.{
  ℕ, suc, ◌+◌, ◌-◌, ◌%◌, ◌^◌, Bool, true, false, not, ◌&&◌, ◌||◌, ◌==◌, ltb, if◌then◌else◌, Option,
  none, some, is_some, List, [], ◌∷◌, ◌++◌, length, get_or,
}
use voce.Protocol.PacketType
use voce.Protocol.Types.{ConnectionState, packet_header_size, magic_number1, magic_number2}
use voce.Protocol.Packet.{Packet, new_packet, PacketError, uint32_at, unmarshal_header}
use voce.Gateway.Connection.{Connection, is_active}

pub data SessionState : Type 0 where
  idle pending ready closing closed : SessionState

pub data MachineState : Type 0 where
  active suspended terminated : MachineState

pub record Session : Type 0 where
  pub state : SessionState
  pub client : Option ℕ
  pub connect_count : ℕ  -- int32
  pub last_active_at : ℕ

pub data Effect : Type 0 where
  close_client : ℕ → Effect
  packet_out : ℕ → Effect  -- a packet of this type, without payload, to the machine
  forward : List ℕ → Effect  -- a client's message to the machine
  to_client : ℕ → List ℕ → Effect
  pong : ℕ → Effect
  delete_session : Effect

unfoldable pub new_session : ℕ → Session
new_session now = record {
  state = SessionState.idle;
  client = none;
  connect_count = 0;
  last_active_at = now;
}

-- Acquire, with the compare-and-swap from idle to pending.
unfoldable pub acquire : Session → Session × Bool
acquire s = elim s.state [
  | SessionState.idle ↦ (record s { state = SessionState.pending }, true)
  | _ ↦ (s, false)
]

-- What Release does after it has loaded the state, which other goroutines may change before it
-- stores its own.
unfoldable pub release_loaded : SessionState → Session → Session × Bool
release_loaded loaded s = elim loaded [
  | SessionState.ready ↦ (record s { state = SessionState.idle }, true)
  | SessionState.pending ↦ (record s { state = SessionState.idle }, true)
  | _ ↦ (s, false)
]

-- Release, when nobody comes between.
unfoldable pub release : Session → Session × Bool
unfolding release_loaded
release s = release_loaded s.state s

abbrev close_client_of : Option ℕ → List Effect
close_client_of none = []
close_client_of (some socket) = Effect.close_client socket ∷ []

abbrev packet_on : Bool → ℕ → List Effect
packet_on false t = []
packet_on true t = Effect.packet_out t ∷ []

unfoldable pub close : Bool → Session → Session × List Effect
close bound s = elim s.state [
  | SessionState.closed ↦ (s, [])
  | _ ↦ (
    record s { state = SessionState.closed },
    close_client_of s.client ++ packet_on bound PacketType.close,
  )
]

-- connectCount is an atomic.Int32, kept as its bit pattern; the test is `count > 1` on signed numbers.
unfoldable pub on_client_open : Bool → ℕ → ℕ → Session → Session × List Effect
on_client_open bound now socket s =
    let count = suc s.connect_count % 2 ^ 32 in
    (
      record {
        state = SessionState.ready;
        client = some socket;
        connect_count = count;
        last_active_at = now;
      },
      packet_on (ltb 1 count && ltb count (2 ^ 31) && bound) PacketType.resume,
    )

-- `seen` is the state that the test on closed loads, `loaded` the one that Release loads after it.
unfoldable pub on_client_close :
    SessionState → SessionState → Bool → Session → Session × List Effect
unfolding release_loaded
on_client_close seen loaded bound s =
    let gone = record s { client = none } in
    elim seen [
      | SessionState.closed ↦ (gone, [])
      | _ ↦ ((release_loaded loaded gone).0, packet_on bound PacketType.pause)
    ]

unfoldable pub on_client_ping : ℕ → ℕ → Session → Session × List Effect
on_client_ping now socket s = (record s { last_active_at = now }, Effect.pong socket ∷ [])

abbrev pub machine_active : MachineState → Bool
machine_active MachineState.active = true
machine_active _ = false

abbrev conn_active : Option Connection → Bool
conn_active none = false
conn_active (some c) = is_active c.state

-- The tests of OnClientMessage on the bytes of a binary message.
unfoldable pub well_framed : List ℕ → Bool
unfolding uint32_at
well_framed message =
    not (ltb (length message) packet_header_size)
    && (get_or message 0 0 == magic_number1)
    && (get_or message 1 0 == magic_number2)
    && (uint32_at message 4 == (length message - packet_header_size) % 2 ^ 32)

unfoldable pub on_client_message :
    MachineState → Option Connection → ℕ → Bool → List ℕ → Session → Session × List Effect
on_client_message machine conn now binary message s =
    if not binary || not (well_framed message)
    then (s, [])
    else if not (machine_active machine) || not (conn_active conn)
    then (s, [])
    else (record s { last_active_at = now }, Effect.forward message ∷ [])

-- DispatchMessage, for the session that the key has, with the packet that the pool gives.
unfoldable pub dispatch_message : Packet → List ℕ → Session → Session × List Effect
unfolding unmarshal_header
dispatch_message packet message s =
    let (p, e) = unmarshal_header packet message in
    elim e [
      | some _ ↦ (s, [])
      | none ↦
          if p.type == PacketType.close
          then (
            record s { state = SessionState.closed },
            close_client_of s.client ++ (Effect.delete_session ∷ []),
          )
          else elim s.state [
            | SessionState.ready ↦ elim s.client [
              | none ↦ (s, [])
              | some socket ↦ (s, Effect.to_client socket message ∷ [])
            ]
            | _ ↦ (s, [])
          ]
    ]
