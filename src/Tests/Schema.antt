-- ===== src/Tests/Schema.antt =====
-- internal/schema at concrete values.
use voce.Prelude.{ℕ, ◌≡◌, refl, true, false, if◌then◌else◌, some, List, [], ◌∷◌, leb}
use voce.Prelude.Results.{Result, ok, err}
use voce.Schema.Properties.{Value, SchemaError, Properties}
use voce.Schema.Audio.{Audio, made_audio, recycle, read_only, mutable}
use voce.Schema.Audio.Views.{IsAlike, Holding, retains, releases, lasts, mutable-recycle}
use voce.Schema.Video.{Video, set_yuv, y_bytes, u_bytes, v_bytes}
use voce.Schema.Video.Planes.{planes-set_yuv}

-- The JSON package writes the number of a value as one byte, and fails at 0.
abbrev one_byte : ℕ → Result SchemaError (List ℕ)
one_byte n = if leb n 0 then err SchemaError.marshal_failed else ok (n ∷ [])

abbrev two_properties : Properties
two_properties = record {
  entries = ("text", Value.text (104 ∷ [])) ∷ ("is_final", Value.boolean false) ∷ [];
  readonly = false;
}

abbrev speech : Audio
speech = record made_audio {
  name = "input";
  buffer = record { array = 1 ∷ 2 ∷ 3 ∷ []; len = 2 };
  sample_rate = 16000;
  channels = 1;
  count = 2;
}

abbrev used : Audio
used = record made_audio { buffer = record { array = 9 ∷ 9 ∷ []; len = 2 }; duration = 20 }

mutable-recycle_example :
    (b : Audio) × (mutable (recycle used) (read_only speech) ≡ some b)
    × IsAlike speech b
    × (b.properties.readonly ≡ false)
    × (b.count ≡ 1)
mutable-recycle_example = mutable-recycle used speech

abbrev turns : List Holding
turns = retains ∷ releases ∷ releases ∷ []

turns_last : lasts speech.count turns ≡ true
unfolding lasts
turns_last = refl

-- A frame of four pixels, in an object of the small pool.
abbrev frame : Video
frame = record {
  properties = record { entries = []; readonly = false };
  name = "camera";
  height = 2;
  width = 2;
  yuv_data = record { array = 7 ∷ 7 ∷ []; len = 0 };
  duration = 40;
  count = 1;
}

planes-set_yuv_example :
    (w : Video) × (set_yuv (1 ∷ 2 ∷ 3 ∷ 4 ∷ []) (5 ∷ []) (6 ∷ []) frame ≡ some w)
    × (y_bytes w ≡ 1 ∷ 2 ∷ 3 ∷ 4 ∷ [])
    × (u_bytes w ≡ 5 ∷ [])
    × (v_bytes w ≡ 6 ∷ [])
planes-set_yuv_example =
    planes-set_yuv (1 ∷ 2 ∷ 3 ∷ 4 ∷ []) (5 ∷ []) (6 ∷ []) frame refl refl refl refl
