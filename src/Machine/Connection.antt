-- ===== src/Machine/Connection.antt =====
-- internal/machine/connection.go: a connection from the gateway, on the machine. A socket is the number
-- of its object, and `fails` is whether it refuses a write.
use voce.Prelude.{
  ◌<◌, false, inl, inr, Bool-cases, [], ◌∷◌, ℕ, ◌≡◌, sym, ap, ◌∙◌, Bool, true, not, ◌||◌, ltb,
  if◌then◌else◌, Option, none, some, is_some, List, ◌++◌, arith, length, take, drop, length-append,
  take-append, drop-append,
}
use voce.Prelude.Slices.{Slice, bytes}
use voce.Protocol.Types.{ConnectionState, session_key_size}
use voce.Protocol.Packet.{Packet, u32_mod, marshal, write_header, unmarshal}
use voce.Machine.{ConnectionManager, is_active, store, remove_connection}
use voce.Gateway.Connection
use voce.Gateway.Connection.Framing.{on_message-write_packet}
use voce.Protocol.RoundTrip.{unmarshal-marshal}

pub record MachineConnection : Type 0 where
  pub state : ConnectionState
  pub socket : Option ℕ

unfoldable pub on_open : ℕ → ℕ → ConnectionManager → MachineConnection × ConnectionManager
on_open socket c m = (record { state = ConnectionState.active; socket = some socket }, store c m)

unfoldable pub on_close : ℕ → ConnectionManager → MachineConnection × ConnectionManager
on_close c m = (record { state = ConnectionState.closed; socket = none }, remove_connection c m)

-- Write: the socket and the message, or none for an error.
unfoldable pub write_out :
    (ℕ → List ℕ → Bool) → MachineConnection → List ℕ → Packet → Option (ℕ × List ℕ)
write_out fails c key packet = elim c.socket [
  | none ↦ none
  | some socket ↦
      let message = key ++ ((write_header packet).header ++ bytes packet.payload) in
      if not (is_active c.state)
      then none
      else if fails socket message
      then none
      else some (socket, message)
]

-- OnMessage: the key and the packet that the handler is called with; `acquired` is the packet that
-- AcquirePacket gives.
unfoldable pub receive : Bool → Bool → Packet → List ℕ → Option (List ℕ × Packet)
receive handled binary acquired body =
    if not binary || ltb (length body) session_key_size
    then none
    else if not handled
    then none
    else (let (packet, error) = unmarshal acquired (drop session_key_size body) in
        if is_some error then none else some (take session_key_size body, packet))

-- What an open connection writes, the gateway takes apart into the session's key and the packet's bytes.
pub on_message-write_out :
    (fails : ℕ → List ℕ → Bool) (c : MachineConnection) (socket : ℕ) (key : List ℕ)
    (packet : Packet) (message : List ℕ)
    → write_out fails c key packet ≡ some (socket, message)
    → length key ≡ session_key_size
    → Connection.on_message true message ≡ some (key, (marshal packet).1)
unfolding write_out Connection.on_message marshal
on_message-write_out fails c socket key packet message sent size =
    let head = (write_header packet).header in
    let body = bytes packet.payload in
    let front : take session_key_size (key ++ (head ++ body)) ≡ key =
      ap (λ n. take n (key ++ (head ++ body))) (sym size) ∙ take-append key (head ++ body) in
    let back : drop session_key_size (key ++ (head ++ body)) ≡ head ++ body =
      ap (λ n. drop n (key ++ (head ++ body))) (sym size) ∙ drop-append key (head ++ body) in
    ground (arith, sent, front, back, size, length-append key (head ++ body))

-- What the gateway's reader takes apart, the machine's takes apart too, where the packet is good.
receive-on_message :
    (acquired : Packet) (message key body : List ℕ)
    → Connection.on_message true message ≡ some (key, body)
    → (unmarshal acquired body).1 ≡ none
    → receive true true acquired message ≡ some (key, (unmarshal acquired body).0)
unfolding receive Connection.on_message
receive-on_message acquired message key body taken good =
    elim (Bool-cases (ltb (length message) session_key_size)) [
      | inl e ↦ absurd (ground (arith, taken, e))
      | inr e ↦
          let body_lem : drop session_key_size message ≡ body = ground (arith, taken, e) in
          let key_lem : take session_key_size message ≡ key = ground (arith, taken, e) in
          rw (body_lem, key_lem) (ground (arith, e, good))
    ]

-- What the gateway writes for a session on an active connection, with a packet whose size field is the
-- length of its payload, below 2^32, goes out as one message, from which the machine's handler gets the
-- session's key and a packet of the same type, encoding and payload, whatever the reused buffer and the
-- reused packet held before.
pub receive-write_packet :
    (buffer : Slice) (c : Connection.Connection) (socket : ℕ) (key : List ℕ)
    (packet acquired : Packet)
    → c.state ≡ ConnectionState.active
    → c.socket ≡ some socket
    → length key ≡ session_key_size
    → packet.size ≡ length (bytes packet.payload)
    → length (bytes packet.payload) < u32_mod
    → (message : List ℕ) × (received : Packet) × (Connection.write_packet false buffer c key packet
        ≡ (Connection.Output.write_message socket message ∷ [], none))
      × (receive true true acquired message ≡ some (key, received))
      × (received.type ≡ packet.type)
      × (received.encode ≡ packet.encode)
      × (bytes received.payload ≡ bytes packet.payload)
receive-write_packet buffer c socket key packet acquired up there size fits small =
    let (message, sent, taken) = on_message-write_packet buffer c socket key packet up there size in
    let (good, type, encode, _, payload) = unmarshal-marshal packet acquired fits small in
    let got = receive-on_message acquired message key (marshal packet).1 taken good in
    (message, (unmarshal acquired (marshal packet).1).0, sent, got, type, encode, payload)
