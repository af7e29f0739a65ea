-- ===== src/Schema/Audio/Views.antt =====
-- internal/schema/audio.go: what the readers of an audio see while it is copied and counted.
use voce.Prelude.{
  ℕ, suc, ◌+◌, ◌-◌, ◌≡◌, refl, String, Bool, true, false, leb, ltb, if◌then◌else◌, some, List, [],
  ◌∷◌, ◌&&◌, arith,
}
use voce.Prelude.Slices.{bytes, bytes-sized-copy}
use voce.Schema.Properties.{get}
use voce.Schema.Audio.{Audio, new_audio, retain, recycle, release, set_bytes, read_only, mutable}

-- What a reader sees of the one is what it sees of the other.
pub record IsAlike (a b : Audio) : Type 0 where
  pub name : b.name ≡ a.name
  pub bytes : bytes b.buffer ≡ bytes a.buffer
  pub sample_rate : b.sample_rate ≡ a.sample_rate
  pub channels : b.channels ≡ a.channels
  pub duration : b.duration ≡ a.duration
  pub properties : (key : String) → get b.properties key ≡ get a.properties key

-- The copy that Mutable makes of a read-only audio, in an object that was given back to the pool after
-- any use, shows what the audio shows, takes writes, and is held once.
pub mutable-recycle :
    (used a : Audio)
    → (b : Audio) × (mutable (recycle used) (read_only a) ≡ some b)
      × IsAlike a b
      × (b.properties.readonly ≡ false)
      × (b.count ≡ 1)
unfolding mutable recycle read_only new_audio set_bytes get
mutable-recycle used a = (
  _,
  refl,
  record {
    name = refl;
    bytes = bytes-sized-copy _ (bytes a.buffer);
    sample_rate = refl;
    channels = refl;
    duration = refl;
    properties = λ key. refl;
  },
  refl,
  refl,
)

-- What holders do with an audio.
pub data Holding : Type 0 where
  retains releases : Holding

unfoldable pub hold : Holding → Audio → Audio × Bool
hold retains a = (retain a, false)
hold releases a = release a

-- The audio after all of them, and how often it went to the pool.
unfoldable pub hold_all : List Holding → Audio → Audio × ℕ
hold_all [] a = (a, 0)
hold_all (h ∷ hs) a =
    let (a', pooled) = hold h a in
    let (a'', more) = hold_all hs a' in (a'', (if pooled then 1 else 0) + more)

-- Each release is of a count above one, starting from this count.
unfoldable pub lasts : ℕ → List Holding → Bool
lasts n [] = true
lasts n (retains ∷ hs) = lasts (suc n) hs
lasts n (releases ∷ hs) = ltb 1 n && lasts (n - 1) hs

unfoldable pub balance : ℕ → List Holding → ℕ
balance n [] = n
balance n (retains ∷ hs) = balance (suc n) hs
balance n (releases ∷ hs) = balance (n - 1) hs

-- While each release leaves a holder, an audio never goes to the pool, whatever the order of retains
-- and releases: its readers see what they saw, and its count is that of its holders. A release
-- after them recycles it exactly if it is that of the last holder.
pub hold_all_lem :
    (hs : List Holding) (a : Audio)
    → lasts a.count hs ≡ true
    → ((hold_all hs a).1 ≡ 0)
      × ((hold_all hs a).0 ≡ record a { count = balance a.count hs })
      × ((release (hold_all hs a).0).1 ≡ leb (balance a.count hs) 1)
unfolding hold_all hold lasts balance retain release
hold_all_lem [] a l = (refl, refl, ground arith)
hold_all_lem (retains ∷ hs) a l =
    let (never, same, last) = hold_all_lem hs (record a { count = suc a.count }) l in
    (omega (arith, never), same, last)
hold_all_lem (releases ∷ hs) a l =
    let more : ltb 1 a.count ≡ true = ground (arith, l) in
    let (never, same, last) =
      hold_all_lem hs (record a { count = a.count - 1 }) (ground (arith, l)) in
    rw more (omega (arith, never), same, last)
