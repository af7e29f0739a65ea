-- ===== src/Plugins/Tts.antt =====
-- internal/plugins/base/tts/base.go: speech that is cut into frames of one size. The bytes at the front of
-- the buffer that wait for a whole frame are `held`. The resampler is the caller's; a context that is
-- cancelled meanwhile ends the loop after so many turns.
pub mod Frames
use voce.Prelude.{
  ℕ, zero, suc, ◌+◌, ◌-◌, Bool, true, false, not, ◌&&◌, ◌||◌, ◌==◌, ltb, if◌then◌else◌, List, [],
  ◌∷◌, ◌++◌, all, length, take, drop, min, Option, none, some,
}
use voce.Schema.Properties.{Named, get_text, get_boolean}

pub record AudioStreamer : Type 0 where
  pub buffer_size : ℕ
  pub started : Bool
  pub held : List ℕ

pub data Sends : Type 0 where
  speech_start speech_end : Sends
  audio : List ℕ → Sends

unfoldable pub new_audio_streamer : ℕ → AudioStreamer
new_audio_streamer buffer_size = record { buffer_size = buffer_size; started = false; held = [] }

-- A turn of the loop of write: what is held, the data that is left, and the frames that are sent.
unfoldable pub turn : ℕ → List ℕ → List ℕ → List ℕ × List ℕ × List (List ℕ)
turn size held bytes =
    let read = min (size - length held) (length bytes) in
    let filled = held ++ take read bytes in
    if ltb (length bytes) size || not (length held == 0)
    then if length filled == size
      then ([], drop read bytes, filled ∷ [])
      else (filled, drop read bytes, [])
    else (held, drop size bytes, take size bytes ∷ [])

-- The loop, which the context ends after this many turns.
unfoldable pub pump : ℕ → ℕ → List ℕ → List ℕ → List ℕ × List ℕ × List (List ℕ)
pump zero size held bytes = (held, bytes, [])
pump (suc turns) size held bytes =
    let (held', bytes', sent) = turn size held bytes in
    let (held'', bytes'', more) = pump turns size held' bytes' in
    if length bytes == 0 then (held, bytes, []) else (held'', bytes'', sent ++ more)

abbrev pub audios : List (List ℕ) → List Sends
audios [] = []
audios (f ∷ fs) = Sends.audio f ∷ audios fs

-- write, with whether the context lives at the start and at the end.
unfoldable pub write : Bool → ℕ → Bool → List ℕ → Bool → AudioStreamer → AudioStreamer × List Sends
write alive turns alive_then bytes is_last s =
    let opens = not s.started && alive in
    let (held, _, sent) = pump (if alive then turns else 0) s.buffer_size s.held bytes in
    let start : List Sends = if opens then Sends.speech_start ∷ [] else [] in
    if is_last && alive_then
    then (
      record s { started = false; held = [] },
      start
          ++ (audios sent
              ++ ((if length held == 0 then [] else Sends.audio held ∷ [])
                  ++ (Sends.speech_end ∷ []))),
    )
    else (record s { started = s.started || alive; held = held }, start ++ audios sent)

unfoldable pub reset : AudioStreamer → AudioStreamer
reset s = record s { started = false; held = [] }

-- ParsePayload: the text and whether it is final, where there is something to speak. Unicode's white
-- space is a parameter.
unfoldable pub parse_payload : (ℕ → Bool) → Named → Option (List ℕ × Bool)
parse_payload is_space p =
    let final = get_boolean p.properties "is_final" false in
    let text = get_text p.properties "sentence" [] in
    if all is_space text && not final then none else some (text, final)
