-- ===== src/Plugins/Asr.antt =====
-- internal/plugins/base/asr/base.go: speech recognition by a provider that may be away. What the provider
-- answers is an argument, and `Asks` is what is asked of it, in order.
use voce.Prelude.{
  ℕ, ◌≡◌, refl, Bool, true, false, not, ◌&&◌, ◌==◌, if◌then◌else◌, Option, none, some, List, [],
  ◌∷◌, length, arith,
}
use voce.Schema.Properties.{
  Named, Value, Properties, SchemaError, get, last_of, snapshot, get_text, get_boolean, set,
  new_named, read_only,
}
use voce.Prelude.Results.{Result, ok, err, ◌>>=◌}
use voce.Plugins.Sends.{payload_asr_result}
use voce.Pkg.Buffers.{Backoff, new_backoff, try_now, reset, fail}

-- The language code and the stability mark go into no payload.
pub record UserTranscription : Type 0 where
  pub text : List ℕ
  pub final : Bool
  pub emotion : List ℕ

pub record Asr : Type 0 where
  pub paused : Bool
  pub backoff : Backoff

pub data Asks : Type 0 where
  start stop shutdown : Asks
  send_audio : List ℕ → Asks

-- OnStart: 500 ms, then up to 5 s.
unfoldable pub on_start : Asr → Asr
on_start e = record e { backoff = new_backoff 500000000 5000000000 }

unfoldable pub on_stop : Bool → List Asks
on_stop has_provider = if has_provider then Asks.shutdown ∷ [] else []

unfoldable pub on_pause : Bool → Asr → Asr × List Asks
on_pause connected e =
    if e.paused
    then (e, [])
    else (record e { paused = true }, if connected then Asks.stop ∷ [] else [])

unfoldable pub on_resume : Asr → Asr
on_resume e = record e { paused = false }

module _ (multiplied : ℕ → ℕ) where
  -- OnAudio, at this time, for a provider that is connected or not and would start or not.
  unfoldable pub on_audio : ℕ → Bool → Bool → List ℕ → Asr → Asr × List Asks
  on_audio now connected starts audio e =
      if e.paused
      then (e, [])
      else if connected
      then (e, Asks.send_audio audio ∷ [])
      else if not (try_now now e.backoff)
      then (e, [])
      else if starts
      then (record e { backoff = reset e.backoff }, Asks.start ∷ Asks.send_audio audio ∷ [])
      else (record e { backoff = fail multiplied now e.backoff }, Asks.start ∷ [])

-- UnpackSchema
unfoldable pub unpack_schema : Properties → UserTranscription
unpack_schema p = record {
  text = get_text p "text" [];
  final = get_boolean p "is_final" false;
  emotion = get_text p "emotion" [];
}

-- A pack of texts and Booleans into a new payload does not fail.
abbrev packed : Result SchemaError Properties → Named → Named
packed (ok p) n = record n { properties = p }
packed (err e) n = n

module _ (marshal : ℕ → Result SchemaError (List ℕ)) where
  -- PackSchema
  unfoldable pub pack_schema : UserTranscription → Properties → Result SchemaError Properties
  pack_schema u p = do
    p1 ← set marshal p "text" (Value.text u.text)
    p2 ← set marshal p1 "is_final" (Value.boolean u.final)
    set marshal p2 "emotion" (Value.text u.emotion)

  -- HandleTranscription: the payload that is sent, where there is something to tell.
  unfoldable pub handle_transcription : Option UserTranscription → Option Named
  handle_transcription none = none
  handle_transcription (some t) =
      if (length t.text == 0) && not t.final
      then none
      else some (
          read_only (
            packed (pack_schema t (new_named payload_asr_result).properties)
              (new_named payload_asr_result)))

-- What is sent of a transcription is unpacked as that transcription, where there is something to tell.
pub unpack-handle :
    (marshal : ℕ → Result SchemaError (List ℕ)) (t : UserTranscription)
    → ((length t.text == 0) && not t.final) ≡ false
    → (n : Named) × (handle_transcription marshal (some t) ≡ some n)
      × (unpack_schema n.properties ≡ t)
unfolding handle_transcription pack_schema unpack_schema set snapshot get_text get_boolean get
    last_of new_named read_only
unpack-handle marshal t told = (
  read_only (
      packed (pack_schema marshal t (new_named payload_asr_result).properties)
        (new_named payload_asr_result)),
  ground (arith, told),
  refl,
)
