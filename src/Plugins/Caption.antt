-- ===== src/Plugins/Caption.antt =====
-- internal/plugins/caption/plugin.go: captions of what the user and the agent say; the agent's wait while
-- the user has not finished. Whether the JSON package takes a caption is a parameter.
pub mod Turns
use voce.Prelude.{
  ℕ, Bool, true, false, ◌||◌, ◌==◌, if◌then◌else◌, str_eq, String, List, [], ◌∷◌, ◌++◌, length,
}
use voce.Schema.Properties.{Named, get_text, get_boolean}
use voce.Plugins.Sends.{
  signal_interrupter, signal_user_speech_start, payload_asr_result, payload_llm_chunk,
}

pub data Role : Type 0 where
  user assistant : Role

pub record Caption : Type 0 where
  pub text : List ℕ
  pub role : Role
  pub is_final : Bool

pub record Captions : Type 0 where
  pub builder : List ℕ
  pub waiting_user_final : Bool
  pub pending_assistant_final : Bool

abbrev pub new_captions : Captions
new_captions = record { builder = []; waiting_user_final = false; pending_assistant_final = false }

unfoldable pub on_signal : Named → Captions → Captions
on_signal s e =
    if str_eq s.name signal_interrupter || str_eq s.name signal_user_speech_start
    then new_captions
    else e

module _ (marshals : Caption → Bool) where
  unfoldable pub send_caption : Caption → List Caption
  send_caption sub = if marshals sub then sub ∷ [] else []

  unfoldable pub flush_pending : Captions → Captions × List Caption
  flush_pending e = if length e.builder == 0 then (e, []) else (
    record e {
      builder = if e.pending_assistant_final then [] else e.builder;
      pending_assistant_final = false;
    },
    send_caption
        (record { text = e.builder; role = Role.assistant; is_final = e.pending_assistant_final }),
  )

  -- The case of a result of speech recognition.
  unfoldable pub on_asr : List ℕ → Bool → Captions → Captions × List Caption
  on_asr text final e =
      let sub : Caption = record { text = text; role = Role.user; is_final = final } in
      if final
      then (
        (flush_pending (record e { waiting_user_final = false })).0,
        send_caption sub ++ (flush_pending (record e { waiting_user_final = false })).1,
      )
      else (record e { waiting_user_final = true }, send_caption sub)

  -- The case of a chunk of what the agent says.
  unfoldable pub on_chunk : List ℕ → Bool → Captions → Captions × List Caption
  on_chunk sentence final e =
      let said = record e { builder = e.builder ++ sentence } in
      if e.waiting_user_final
      then (record said { pending_assistant_final = e.pending_assistant_final || final }, [])
      else (
        if final then record said { builder = [] } else said,
        send_caption
            (record { text = e.builder ++ sentence; role = Role.assistant; is_final = final }),
      )

  unfoldable pub on_payload : Named → Captions → Captions × List Caption
  on_payload payload e =
      if str_eq payload.name payload_asr_result
      then on_asr (get_text payload.properties "text" [])
          (get_boolean payload.properties "is_final" false) e
      else if str_eq payload.name payload_llm_chunk
      then on_chunk (get_text payload.properties "sentence" [])
          (get_boolean payload.properties "is_final" false) e
      else (e, [])
