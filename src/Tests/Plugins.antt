-- ===== src/Tests/Plugins.antt =====
-- internal/plugins at concrete texts.
use voce.Prelude.{
  arith, refl, ℕ, ◌<◌, ◌≡◌, ◌≢◌, Bool, true, false, ◌||◌, ◌==◌, ltb, leb, if◌then◌else◌, List, [],
  ◌∷◌, ◌++◌, length, any, none,
}
use voce.Plugins.MdFilter.{new_md_filter, filter}
use voce.Plugins.MdFilter.Chunks.{in_code, ticks, filter_fences}
use voce.Plugins.Caption.{Role, Caption, Captions, new_captions, send_caption, on_asr, on_chunk}
use voce.Plugins.Caption.Turns.{Chunks, said, on_chunks, on_asr-on_chunks, stale_final}
use voce.Plugins.Llm.{Message, new_cache_session, trim_space, process_message}
use voce.Plugins.Tts.{AudioStreamer}
use voce.Plugins.Tts.Frames.{frames, say, say_lem, concat as concat_frames}
use voce.Plugins.Llm.Sentences.{concat, spoken, spoken-process_message}
use voce.Plugins.Llm.History.{last, add_all, joined, add_all-new_cache_session}

-- A block of code between two fences.
filter_fences_example :
    filter (ticks 3 ++ (10 ∷ ((97 ∷ 42 ∷ []) ++ (ticks 4 ++ (98 ∷ []))))) new_md_filter ≡ (
      if leb 3 3
      then filter (98 ∷ []) (if leb 3 4 then new_md_filter else in_code)
      else filter (10 ∷ ((97 ∷ 42 ∷ []) ++ (ticks 4 ++ (98 ∷ [])))) new_md_filter)
filter_fences_example = filter_fences 3 4 98 (97 ∷ 42 ∷ []) [] refl refl

-- The JSON package takes every caption.
abbrev takes_all : Caption → Bool
takes_all c = true

abbrev two_chunks : Chunks
two_chunks = (104 ∷ [], false) ∷ (105 ∷ [], true) ∷ []

abbrev held : Captions
held = record { builder = 103 ∷ []; waiting_user_final = true; pending_assistant_final = false }

on_asr-on_chunks_example :
    ((on_chunks takes_all two_chunks held).1 ≡ [])
    × ((on_asr takes_all (119 ∷ []) true (on_chunks takes_all two_chunks held).0).1
        ≡ send_caption takes_all (record { text = 119 ∷ []; role = Role.user; is_final = true })
          ++ (if length ((103 ∷ []) ++ said two_chunks) == 0
              then []
              else send_caption takes_all (record {
                text = (103 ∷ []) ++ said two_chunks;
                role = Role.assistant;
                is_final = false || any (λ c. c.1) two_chunks;
              })))
on_asr-on_chunks_example = on_asr-on_chunks takes_all two_chunks (119 ∷ []) (103 ∷ []) false

abbrev word : List ℕ
word = 104 ∷ []

some_word : word ≢ []
some_word e = absurd (cc e)

stale_final_example :
    (on_asr takes_all
      (120 ∷ [])
      true
      (on_chunk takes_all word false
        (on_asr takes_all
          (120 ∷ [])
          false
          (on_asr takes_all
            (119 ∷ [])
            true
            (on_chunk takes_all [] true
              (on_asr takes_all (119 ∷ []) false new_captions).0).0).0).0).0).1
    ≡ send_caption takes_all (record { text = 120 ∷ []; role = Role.user; is_final = true })
      ++ send_caption takes_all (record { text = word; role = Role.assistant; is_final = true })
stale_final_example = stale_final takes_all (119 ∷ []) (120 ∷ []) word some_word

abbrev is_blank_rune : ℕ → Bool
is_blank_rune r = (r == 32) || (r == 10)

abbrev is_letter : ℕ → Bool
is_letter r = ltb 96 r

spoken-process_message_example :
    (rest : List ℕ) × (spoken
          (process_message is_blank_rune is_letter [] ((104 ∷ 33 ∷ []) ∷ (32 ∷ []) ∷ []) none)
        ++ rest
      ≡ concat ((104 ∷ 33 ∷ []) ∷ (32 ∷ []) ∷ []))
    × (((length rest == 0) || (length (trim_space is_blank_rune is_letter rest) == 0)) ≡ true)
spoken-process_message_example =
    spoken-process_message is_blank_rune is_letter [] ((104 ∷ 33 ∷ []) ∷ (32 ∷ []) ∷ [])

abbrev two_turns : List (List Message)
two_turns =
    (Message.user (97 ∷ []) ∷ Message.assistant (98 ∷ []) ∷ [])
    ∷ (Message.user (99 ∷ []) ∷ Message.assistant (100 ∷ []) ∷ [])
    ∷ []

add_all-new_cache_session_example :
    (add_all two_turns (new_cache_session 3)).messages ≡ last 3 (joined two_turns)
add_all-new_cache_session_example = add_all-new_cache_session 3 two_turns

-- A frame of four bytes, of which one is held.
abbrev streamer : AudioStreamer
streamer = record { buffer_size = 4; started = true; held = 9 ∷ [] }

one_held : 1 < streamer.buffer_size
one_held = omega arith

say_example :
    concat_frames (frames (say ((1 ∷ 2 ∷ []) ∷ (3 ∷ 4 ∷ 5 ∷ []) ∷ []) (6 ∷ []) streamer))
    ≡ (9 ∷ []) ++ (concat_frames ((1 ∷ 2 ∷ []) ∷ (3 ∷ 4 ∷ 5 ∷ []) ∷ []) ++ (6 ∷ []))
say_example = say_lem ((1 ∷ 2 ∷ []) ∷ (3 ∷ 4 ∷ 5 ∷ []) ∷ []) (6 ∷ []) streamer one_held
