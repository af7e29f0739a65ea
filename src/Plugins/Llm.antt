-- ===== src/Plugins/Llm.antt =====
-- internal/plugins/base/llm: a conversation with a language model. base.go cuts what the model streams
-- into sentences, session.go keeps the history. A text is the list of its runes; Unicode's classes are
-- parameters, and what the provider streams and answers is an argument.
pub mod Sentences
pub mod History
use voce.Prelude.{
  ℕ, ◌-◌, Bool, true, false, not, ◌&&◌, ◌||◌, ◌==◌, leb, ltb, if◌then◌else◌, Option, none, some,
  List, [], ◌∷◌, ◌++◌, any, all, contains, drop, length,
}
use voce.Prelude.Int.{ℤ}
use voce.Schema.Properties.{Named, get_text, get_boolean}

-- 。 ！ ？ ! ? and the ends of a line
unfoldable pub is_end : ℕ → Bool
is_end r = contains (0x3002 ∷ 0xFF01 ∷ 0xFF1F ∷ 0x21 ∷ 0x3F ∷ 0x0A ∷ 0x0D ∷ []) r

-- ， , ； ; ： : too
unfoldable pub is_boundary : ℕ → Bool
is_boundary r = is_end r || contains (0xFF0C ∷ 0x2C ∷ 0xFF1B ∷ 0x3B ∷ 0xFF1A ∷ 0x3A ∷ []) r

abbrev min_sentence_len : ℕ
min_sentence_len = 20

-- What the plugin sends: a sentence, and whether it is the last.
pub record Output : Type 0 where
  pub sentence : List ℕ
  pub is_final : Bool

pub data ProviderError : Type 0 where
  canceled failed : ProviderError

module _ (is_space is_letter_or_digit : ℕ → Bool) where
  abbrev trim_left : List ℕ → List ℕ
  trim_left [] = []
  trim_left (r ∷ rs) = let rest = trim_left rs in if is_space r then rest else r ∷ rs

  -- Without the white space at its end: the runes before which all is blank are dropped.
  abbrev trim_right : List ℕ → List ℕ
  trim_right [] = []
  trim_right (r ∷ rs) =
      let rest = trim_right rs in if is_space r && (length rest == 0) then [] else r ∷ rest

  -- strings.TrimSpace
  unfoldable pub trim_space : List ℕ → List ℕ
  trim_space s = trim_right (trim_left s)

  unfoldable pub should_split : List ℕ → ℕ → Bool
  unfolding is_end
  should_split s last_rune =
      let trimmed = trim_space s in
      if (length trimmed == 0) || not (any is_letter_or_digit trimmed)
      then false
      else is_end last_rune || leb min_sentence_len (length trimmed)

  -- A turn of the loop of parseSentences: the fragment, and the sentences that are complete.
  unfoldable pub parse_rune : ℕ → List ℕ → List ℕ × List (List ℕ)
  parse_rune char fragment =
      let str = fragment ++ (char ∷ []) in
      if is_boundary char && should_split str char then ([], str ∷ []) else (str, [])

  unfoldable pub parse_sentences : List ℕ → List ℕ → List ℕ × List (List ℕ)
  parse_sentences [] fragment = (fragment, [])
  parse_sentences (char ∷ content) fragment =
      let (fragment', done) = parse_rune char fragment in
      let (fragment'', more) = parse_sentences content fragment' in (fragment'', done ++ more)

  abbrev pub outputs : List (List ℕ) → List Output
  outputs [] = []
  outputs (s ∷ ss) = record { sentence = s; is_final = false } ∷ outputs ss

  -- The handler of processMessage over the chunks of the stream; one without content is passed over.
  unfoldable pub stream : List (List ℕ) → List ℕ → List ℕ × List Output
  stream [] fragment = (fragment, [])
  stream (chunk ∷ chunks) fragment =
      let (fragment', sentences) = parse_sentences chunk fragment in
      let (fragment'', more) = stream chunks fragment' in (fragment'', outputs sentences ++ more)

  -- How processMessage ends, with the fragment that is left and the error of the stream.
  unfoldable pub last_output : List ℕ → Option ProviderError → List ℕ → Output
  last_output failed_message error fragment =
      let rest : Output = record {
        sentence = if length (trim_space fragment) == 0 then [] else fragment;
        is_final = true;
      } in
      elim error [
        | some e ↦ elim e [
          | ProviderError.failed ↦
              if length failed_message == 0
              then rest
              else record { sentence = failed_message; is_final = true }
          | ProviderError.canceled ↦ rest
        ]
        | none ↦ rest
      ]

  unfoldable pub process_message : List ℕ → List (List ℕ) → Option ProviderError → List Output
  process_message failed_message chunks error =
      let (fragment, sent) = stream chunks [] in
      sent ++ (last_output failed_message error fragment ∷ [])

-- Whether OnPayload takes the payload as a message.
unfoldable pub takes : Named → Bool
takes d =
    get_boolean d.properties "is_final" false && not (length (get_text d.properties "text" []) == 0)

-- Init: a limit that is not positive is 10.
unfoldable pub history_limit : ℤ → ℕ
history_limit (ℤ.negsuc _) = 10
history_limit (ℤ.pos n) = if n == 0 then 10 else n

pub data Message : Type 0 where
  system user assistant : List ℕ → Message

pub record CacheSession : Type 0 where
  pub messages : List Message
  pub cap_size : ℕ

unfoldable pub new_cache_session : ℕ → CacheSession
new_cache_session cap_size = record { messages = []; cap_size = cap_size }

unfoldable pub add_message : List Message → CacheSession → CacheSession
add_message messages s =
    let all_messages = s.messages ++ messages in
    record s {
      messages =
          if ltb s.cap_size (length all_messages)
          then drop (length all_messages - s.cap_size) all_messages
          else all_messages;
    }

abbrev starts_with_system : List Message → Bool
starts_with_system (Message.system _ ∷ _) = true
starts_with_system _ = false

-- The messages that streamChat gives to the provider.
unfoldable pub chat_messages : List ℕ → List Message → CacheSession → List Message
chat_messages prompt messages s =
    let all_messages = s.messages ++ messages in
    if (length all_messages == 0) || starts_with_system all_messages || (length prompt == 0)
    then all_messages
    else Message.system prompt ∷ all_messages

-- What streamChat keeps: with an error, nothing.
unfoldable pub after_chat :
    List Message → List ℕ → Option ProviderError → CacheSession → CacheSession
after_chat messages answer error s = elim error [
  | some _ ↦ s
  | none ↦ add_message (messages ++ (Message.assistant answer ∷ [])) s
]
