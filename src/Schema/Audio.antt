-- ===== src/Schema/Audio.antt =====
-- internal/schema/audio.go with pkg/pool/pool.go: audio, counted and reused. `none` is the panic of a
-- write to a read-only object. The object that the pool gives is an argument, and the capacity of the
-- entries, which no view shows, is left out.
pub mod Views
use voce.Prelude.{
  ℕ, suc, ◌-◌, ◌*◌, ◌≡◌, refl, String, Bool, true, false, ltb, if◌then◌else◌, Option, none, some,
  List, [], ◌∷◌, length, arith, inl, inr, Bool-cases,
}
use voce.Prelude.Slices.{Slice, nil_slice, cap_of, bytes, reslice, copy, sized, bytes-sized-copy}
use voce.Schema.Properties.{Properties, new_properties, get, clone}

pub record Audio : Type 0 where
  pub properties : Properties
  pub name : String
  pub buffer : Slice
  pub sample_rate : ℕ
  pub channels : ℕ
  pub duration : ℕ
  pub count : ℕ

abbrev audio_recycle_cap : ℕ
audio_recycle_cap = 64 * 1024

-- What the pool makes when it has no object.
abbrev pub made_audio : Audio
made_audio = record {
  properties = new_properties;
  name = "";
  buffer = nil_slice;
  sample_rate = 0;
  channels = 0;
  duration = 0;
  count = 0;
}

-- NewAudio, with the object that the pool gives.
unfoldable pub new_audio : Audio → String → ℕ → ℕ → Audio
new_audio pooled name sample_rate channels = record pooled {
  name = name;
  sample_rate = sample_rate;
  channels = channels;
  count = 1;
}

unfoldable pub retain : Audio → Audio
retain a = record a { count = suc a.count }

-- Recycle
unfoldable pub recycle : Audio → Audio
recycle a = record {
  properties = new_properties;
  name = "";
  buffer = if ltb audio_recycle_cap (cap_of a.buffer) then nil_slice else reslice a.buffer 0;
  sample_rate = 0;
  channels = 0;
  duration = 0;
  count = 0;
}

-- Release; the Boolean says whether the object goes to the pool.
unfoldable pub release : Audio → Audio × Bool
release a = if ltb 1 a.count then (record a { count = a.count - 1 }, false) else (recycle a, true)

unfoldable pub set_bytes : List ℕ → Audio → Option Audio
set_bytes buf a =
    if a.properties.readonly
    then none
    else some (record a { buffer = copy (sized a.buffer (length buf)) buf })

unfoldable pub set_duration : ℕ → Audio → Option Audio
set_duration d a = if a.properties.readonly then none else some (record a { duration = d })

unfoldable pub set_sample_rate : ℕ → Audio → Option Audio
set_sample_rate sr a = if a.properties.readonly then none else some (record a { sample_rate = sr })

unfoldable pub set_channels : ℕ → Audio → Option Audio
set_channels c a = if a.properties.readonly then none else some (record a { channels = c })

unfoldable pub read_only : Audio → Audio
read_only a = record a { properties = record a.properties { readonly = true } }

abbrev with_duration : ℕ → Option Audio → Option Audio
with_duration d none = none
with_duration d (some a) = some (record a { duration = d })

-- copyTo
abbrev copy_to : Properties → Audio → Audio
copy_to from a = record a { properties = record a.properties { entries = from.entries } }

-- Mutable: itself, or a copy in the object that the pool gives.
unfoldable pub mutable : Audio → Audio → Option Audio
mutable pooled a =
    if a.properties.readonly
    then with_duration a.duration (
        set_bytes (bytes a.buffer)
          (copy_to a.properties (new_audio pooled a.name a.sample_rate a.channels)))
    else some a
