-- ===== src/Tests/Protocol.antt =====
-- internal/protocol/packet.go at concrete packets.
use voce.Prelude.{ℕ, ◌≡◌, refl, none, List, [], ◌∷◌, arith, replicate}
use voce.Prelude.Slices.{bytes}
use voce.Protocol.PacketType
use voce.Protocol.Types.{encode_raw, encode_json}
use voce.Protocol.Packet.{Packet, marshal, unmarshal, uint32_at, check_header, read_header}
use voce.Protocol.RoundTrip.{unmarshal-marshal}

-- A text packet of three bytes, in a buffer with room for five.
abbrev pub text_packet : Packet
text_packet = record {
  type = PacketType.text;
  encode = encode_json;
  size = 3;
  payload = record { array = 72 ∷ 105 ∷ 33 ∷ 7 ∷ 7 ∷ []; len = 3 };
  header = replicate 8 0;
}

-- Its bytes on the wire.
abbrev pub text_bytes : List ℕ
text_bytes = 0x56 ∷ 0x43 ∷ PacketType.text ∷ encode_json ∷ 0 ∷ 0 ∷ 0 ∷ 3 ∷ 72 ∷ 105 ∷ 33 ∷ []

-- A packet that was used before, with a longer payload.
abbrev pub used_packet : Packet
used_packet = record {
  type = PacketType.audio;
  encode = encode_raw;
  size = 4;
  payload = record { array = 1 ∷ 2 ∷ 3 ∷ 4 ∷ []; len = 4 };
  header = replicate 8 0;
}

unmarshal-marshal_example :
    let r = unmarshal used_packet (marshal text_packet).1 in
    (r.1 ≡ none)
    × (r.0.type ≡ PacketType.text)
    × (r.0.encode ≡ encode_json)
    × (r.0.size ≡ 3)
    × (bytes r.0.payload ≡ 72 ∷ 105 ∷ 33 ∷ [])
unmarshal-marshal_example = unmarshal-marshal text_packet used_packet refl (omega arith)

text_bytes_accepted : (unmarshal used_packet text_bytes).1 ≡ none
unfolding unmarshal check_header read_header uint32_at
text_bytes_accepted = refl
