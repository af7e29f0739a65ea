-- ===== src/Protocol/PacketType.antt =====
-- internal/protocol/packet.go: a PacketType is a byte; these are its named values.
use voce.Prelude.{ℕ}

abbrev pub audio : ℕ
audio = 0x01

abbrev pub error : ℕ
error = 0x02

abbrev pub text : ℕ
text = 0x03

abbrev pub close : ℕ
close = 0x04

abbrev pub pause : ℕ
pause = 0x05

abbrev pub resume : ℕ
resume = 0x06

abbrev pub interrupter : ℕ
interrupter = 0x11

abbrev pub caption : ℕ
caption = 0x12

abbrev pub user_speech_start : ℕ
user_speech_start = 0x13

abbrev pub user_speech_end : ℕ
user_speech_end = 0x14

abbrev pub agent_speech_start : ℕ
agent_speech_start = 0x15

abbrev pub agent_speech_end : ℕ
agent_speech_end = 0x16
