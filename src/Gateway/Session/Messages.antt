-- ===== src/Gateway/Session/Messages.antt =====
-- internal/gateway/session.go: which messages pass between client and machine.
use voce.Prelude.{
  ℕ, ◌+◌, ◌<◌, ◌≡◌, ◌↔◌, inl, inr, true, ◌==◌, if◌then◌else◌, none, some, List, [], ◌∷◌, ◌++◌,
  arith, length, Option-cases,
}
use voce.Prelude.Slices.{bytes}
use voce.Protocol.PacketType
use voce.Protocol.Types.{ConnectionState, packet_header_size}
use voce.Protocol.Packet.{Packet, marshal, unmarshal, u32_mod}
use voce.Protocol.RoundTrip.{unmarshal_accepts, unmarshal-marshal, unmarshal_header-unmarshal}
use voce.Gateway.Connection.{Connection}
use voce.Gateway.Session.{
  SessionState, MachineState, Session, Effect, well_framed, on_client_message, dispatch_message,
  close_client_of,
}

-- The gateway's own tests on a message shorter than 2^32 + 8 bytes pass exactly what Unmarshal accepts.
pub well_framed_iff :
    (p : Packet) (message : List ℕ)
    → length message < u32_mod + packet_header_size
    → (well_framed message ≡ true) ↔ ((unmarshal p message).1 ≡ none)
unfolding well_framed
well_framed_iff p message short = ground (arith, short, unmarshal_accepts p message)

-- With an active machine and connection, a binary message shorter than 2^32 + 8 bytes is forwarded
-- exactly when Unmarshal accepts it, and is forwarded whole; otherwise nothing is sent and the session
-- is as it was.
pub on_client_message-unmarshal :
    (p : Packet) (c : Connection) (now : ℕ) (message : List ℕ) (s : Session)
    → c.state ≡ ConnectionState.active
    → length message < u32_mod + packet_header_size
    → on_client_message MachineState.active (some c) now true message s
      ≡ elim (unmarshal p message).1 [
        | none ↦ (record s { last_active_at = now }, Effect.forward message ∷ [])
        | some _ ↦ (s, [])
      ]
unfolding on_client_message
on_client_message-unmarshal p c now message s up short =
    elim (Option-cases (unmarshal p message).1) [
      | inl e ↦ ground (arith, e, up, (well_framed_iff p message short).1 e)
      | inr (x, e) ↦ ground (arith, e, up, well_framed_iff p message short)
    ]

-- What reaches the client of a session that is ready.
abbrev pub reaching : Session → List ℕ → List Effect
reaching s message = elim s.state [
  | SessionState.ready ↦ elim s.client [
    | none ↦ []
    | some socket ↦ Effect.to_client socket message ∷ []
  ]
  | _ ↦ []
]

-- A packet that a machine sends: one of type close ends the session and its client's connection, and
-- any other reaches the client, whole, when the session is ready and has a client, and nobody otherwise.
pub dispatch_message-marshal :
    (p q : Packet) (s : Session)
    → p.size ≡ length (bytes p.payload)
    → length (bytes p.payload) < u32_mod
    → dispatch_message q (marshal p).1 s ≡ (
        if p.type == PacketType.close
        then (
          record s { state = SessionState.closed },
          close_client_of s.client ++ (Effect.delete_session ∷ []),
        )
        else (s, reaching s (marshal p).1))
unfolding dispatch_message
dispatch_message-marshal p q s counted short =
    let (taken, type, _, _, _) = unmarshal-marshal p q counted short in
    let (same, type', _, _) = unmarshal_header-unmarshal q (marshal p).1 in
    ground (arith, taken, type, same, type')
