-- ===== src/Plugins/Sink.antt =====
-- internal/plugins/sink/plugin.go: what leaves the workflow for the client, with engine.Flow's Publish and
-- PublishFull as values.
use voce.Prelude.{
  ℕ, ◌≡◌, if◌then◌else◌, ◌==◌, str_eq, Option, none, some, List, [], length, arith, eq_iff,
}
use voce.Protocol.PacketType
use voce.Protocol.Types.{packet_type_name, encode_raw, encode_json}
use voce.Schema.Properties.{Named, Value, get}
use voce.Plugins.Sends.{
  signal_interrupter, signal_user_speech_start, signal_user_speech_end, signal_agent_speech_start,
  signal_agent_speech_end, payload_caption,
}

-- A packet's type, its encoding and its data.
pub record Publish : Type 0 where
  pub type : ℕ
  pub encoding : ℕ
  pub content : List ℕ

abbrev publish : ℕ → List ℕ → Publish
publish t content = record { type = t; encoding = encode_raw; content = content }

abbrev signal_packet : ℕ → Option Publish
signal_packet t = some (publish t [])

unfoldable pub on_signal : Named → Option Publish
on_signal s =
    if str_eq s.name signal_interrupter
    then signal_packet PacketType.interrupter
    else if str_eq s.name signal_user_speech_start
    then signal_packet PacketType.user_speech_start
    else if str_eq s.name signal_user_speech_end
    then signal_packet PacketType.user_speech_end
    else if str_eq s.name signal_agent_speech_start
    then signal_packet PacketType.agent_speech_start
    else if str_eq s.name signal_agent_speech_end
    then signal_packet PacketType.agent_speech_end
    else none

unfoldable pub on_audio : List ℕ → Publish
on_audio content = publish PacketType.audio content

abbrev bytes_of : Option Value → List ℕ
bytes_of (some (Value.byte_slice bs)) = bs
bytes_of _ = []

unfoldable pub on_payload : Named → Option Publish
on_payload p =
    let sub = bytes_of (get p.properties "caption") in
    if str_eq p.name payload_caption
    then if length sub == 0
      then none
      else some (record { type = PacketType.caption; encoding = encode_json; content = sub })
    else none

-- A signal that leaves the workflow leaves it as a packet without data whose type has the signal's name.
pub packet_type_name-on_signal :
    (s : Named) (p : Publish)
    → on_signal s ≡ some p
    → (packet_type_name p.type ≡ s.name) × (p.content ≡ [])
unfolding on_signal packet_type_name
packet_type_name-on_signal s p h = ground (
  arith,
  h,
  eq_iff s.name signal_interrupter,
  eq_iff s.name signal_user_speech_start,
  eq_iff s.name signal_user_speech_end,
  eq_iff s.name signal_agent_speech_start,
  eq_iff s.name signal_agent_speech_end,
)
