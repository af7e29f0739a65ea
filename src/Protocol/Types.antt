-- ===== src/Protocol/Types.antt =====
-- internal/protocol/packet.go (packet types and encodings) and types.go (connection states).
use voce.Protocol.PacketType
use voce.Prelude.{ℕ, ◌==◌, if◌then◌else◌, String}

abbrev pub packet_header_size : ℕ
packet_header_size = 8

abbrev pub magic_number1 : ℕ
magic_number1 = 0x56

abbrev pub magic_number2 : ℕ
magic_number2 = 0x43

abbrev pub session_key_size : ℕ
session_key_size = 16

-- PacketType.String
unfoldable pub packet_type_name : ℕ → String
packet_type_name t =
    if t == PacketType.audio
    then "audio"
    else if t == PacketType.error
    then "error"
    else if t == PacketType.text
    then "text"
    else if t == PacketType.close
    then "close"
    else if t == PacketType.pause
    then "pause"
    else if t == PacketType.resume
    then "resume"
    else if t == PacketType.interrupter
    then "interrupter"
    else if t == PacketType.caption
    then "caption"
    else if t == PacketType.user_speech_start
    then "user_speech_start"
    else if t == PacketType.user_speech_end
    then "user_speech_end"
    else if t == PacketType.agent_speech_start
    then "agent_speech_start"
    else if t == PacketType.agent_speech_end
    then "agent_speech_end"
    else "unknown"

abbrev pub encode_raw : ℕ
encode_raw = 0x00

abbrev pub encode_json : ℕ
encode_json = 0x01

pub data ConnectionState : Type 0 where
  unknown active connecting closed : ConnectionState
