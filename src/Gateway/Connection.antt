-- ===== src/Gateway/Connection.antt =====
-- internal/gateway/connection.go: a data connection to a machine. A socket is the number of its
-- object; `outputs` is what the connection does to its socket and tells its observer, in order.
pub mod Framing
use voce.Prelude.{
  ℕ, ◌+◌, ◌-◌, Bool, true, false, not, ◌||◌, ◌==◌, ltb, if◌then◌else◌, Option, none, some, is_some,
  List, [], ◌∷◌, ◌++◌, length, take, drop, min,
}
use voce.Prelude.Slices.{Slice, bytes, sized, copy, copy_at}
use voce.Protocol.Types.{ConnectionState, session_key_size}
use voce.Protocol.Packet.{Packet, write_header}

pub record Connection : Type 0 where
  pub state : ConnectionState
  pub socket : Option ℕ

pub data Output : Type 0 where
  observe_open observe_close reconnect : Output
  close_socket : ℕ → Output
  write_message : ℕ → List ℕ → Output

pub data ConnectionError : Type 0 where
  not_active write_failed : ConnectionError

abbrev pub new_pool_connection : Connection
new_pool_connection = record { state = ConnectionState.connecting; socket = none }

-- OnOpen, with the compare-and-swap from connecting to active.
unfoldable pub on_open : Connection → ℕ → Connection × List Output
on_open c socket = elim c.state [
  | ConnectionState.connecting ↦
      (record { state = ConnectionState.active; socket = some socket }, Output.observe_open ∷ [])
  | _ ↦ (c, Output.close_socket socket ∷ [])
]

-- OnClose, with the compare-and-swap from active to connecting.
unfoldable pub on_close : Connection → Connection × List Output
on_close c = elim c.state [
  | ConnectionState.active ↦ (
    record { state = ConnectionState.connecting; socket = none },
    Output.observe_close ∷ Output.reconnect ∷ [],
  )
  | _ ↦ (c, [])
]

abbrev close_all : Option ℕ → List Output
close_all none = []
close_all (some socket) = Output.close_socket socket ∷ []

unfoldable pub close : Connection → Connection × List Output
close c = elim c.state [
  | ConnectionState.closed ↦ (c, [])
  | _ ↦ (
    record { state = ConnectionState.closed; socket = none },
    close_all c.socket ++ (Output.observe_close ∷ []),
  )
]

unfoldable pub required : List (List ℕ) → ℕ
required [] = session_key_size
required (b ∷ bs) = required bs + length b

-- The copies of `bs` into the buffer from `offset` on.
unfoldable pub fill : Slice → ℕ → List (List ℕ) → Slice
fill buffer offset [] = buffer
fill buffer offset (b ∷ bs) = fill (copy_at buffer offset b) (offset + length b) bs

-- The message that `write` puts together in a buffer of the pool.
unfoldable pub frame : Slice → List ℕ → List (List ℕ) → List ℕ
unfolding required fill
frame buffer key bs =
    bytes (
      fill (copy_at (sized buffer (required bs)) 0 (take session_key_size key)) session_key_size bs)

abbrev pub is_active : ConnectionState → Bool
is_active ConnectionState.active = true
is_active _ = false

-- `fails` is whether the socket's write fails.
unfoldable pub write :
    Bool → Slice → Connection → List ℕ → List (List ℕ) → List Output × Option ConnectionError
write fails buffer c key bs = elim c.socket [
  | none ↦ ([], some ConnectionError.not_active)
  | some socket ↦
      if not (is_active c.state)
      then ([], some ConnectionError.not_active)
      else if length bs == 0
      then ([], none)
      else if fails
      then ([], some ConnectionError.write_failed)
      else (Output.write_message socket (frame buffer key bs) ∷ [], none)
]

unfoldable pub write_packet :
    Bool → Slice → Connection → List ℕ → Packet → List Output × Option ConnectionError
unfolding write
write_packet fails buffer c key packet =
    write fails buffer c key ((write_header packet).header ∷ bytes packet.payload ∷ [])

-- OnMessage: the key and the data that are given to the dispatcher.
unfoldable pub on_message : Bool → List ℕ → Option (List ℕ × List ℕ)
on_message binary message =
    if not binary || ltb (length message) session_key_size
    then none
    else some (take session_key_size message, drop session_key_size message)
