-- ===== src/Plugins/Sends.antt =====
-- internal/schema: the names of signals and payloads, and what a plugin gives to its flow.
use voce.Prelude.{ℕ, String, Bool, List}
use voce.Schema.Properties.{Named}

abbrev pub signal_interrupter : String
signal_interrupter = "interrupter"

abbrev pub signal_agent_speech_start : String
signal_agent_speech_start = "agent_speech_start"

abbrev pub signal_agent_speech_end : String
signal_agent_speech_end = "agent_speech_end"

abbrev pub signal_user_speech_start : String
signal_user_speech_start = "user_speech_start"

abbrev pub signal_user_speech_end : String
signal_user_speech_end = "user_speech_end"

abbrev pub payload_asr_result : String
payload_asr_result = "asr_result"

abbrev pub payload_caption : String
payload_caption = "caption"

abbrev pub payload_llm_chunk : String
payload_llm_chunk = "llm_chunk"

-- SendSignal and SendPayload of engine.Flow, with a value as it came, and with one of the plugin's own.
pub data Sends : Type 0 where
  signal : String → Sends
  pass_signal : Named → Sends
  pass_payload : Named → Sends
  chunk : List ℕ → Bool → Sends  -- a payload llm_chunk, with its sentence and is_final
