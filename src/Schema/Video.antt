-- ===== src/Schema/Video.antt =====
-- internal/schema/video.go: frames in three planes, counted and reused, with a pool for each size. `none`
-- is the panic of a write to a read-only object. The object that a pool gives is an argument.
pub mod Planes
use voce.Prelude.{
  ℕ, suc, ◌+◌, ◌-◌, ◌*◌, ◌/◌, ◌≡◌, refl, String, Bool, true, false, ltb, leb, if◌then◌else◌, Option,
  none, some, List, [], ◌∷◌, length, take, drop,
}
use voce.Prelude.Slices.{Slice, nil_slice, cap_of, bytes, reslice, make, copy, copy_at, sized}
use voce.Schema.Properties.{Properties, new_properties}

pub record Video : Type 0 where
  pub properties : Properties
  pub name : String
  pub height : ℕ
  pub width : ℕ
  pub yuv_data : Slice
  pub duration : ℕ
  pub count : ℕ

abbrev sd_video_pixels : ℕ
sd_video_pixels = 640 * 480

abbrev hd_video_pixels : ℕ
hd_video_pixels = 1280 * 720

abbrev fhd_video_pixels : ℕ
fhd_video_pixels = 1920 * 1080

pub data VideoPool : Type 0 where
  sd hd fhd : VideoPool

-- The pool of acquireVideo and of releaseVideo.
unfoldable pub pool_of : ℕ → ℕ → VideoPool
pool_of height width =
    if leb (height * width) sd_video_pixels
    then VideoPool.sd
    else if leb (height * width) hd_video_pixels
    then VideoPool.hd
    else VideoPool.fhd

abbrev pool_pixels : VideoPool → ℕ
pool_pixels VideoPool.sd = sd_video_pixels
pool_pixels VideoPool.hd = hd_video_pixels
pool_pixels VideoPool.fhd = fhd_video_pixels

-- What a pool makes when it has no object.
unfoldable pub made_video : VideoPool → Video
made_video pool = record {
  properties = new_properties;
  name = "";
  height = 0;
  width = 0;
  yuv_data = make (pool_pixels pool * 3 / 2);
  duration = 0;
  count = 0;
}

-- NewVideo, with the object that the pool gives.
unfoldable pub new_video : Video → String → ℕ → ℕ → ℕ → Video
new_video pooled name height width duration = record pooled {
  name = name;
  height = height;
  width = width;
  duration = duration;
  count = 1;
}

-- Recycle
unfoldable pub recycle : Video → Video
recycle v = record {
  properties = new_properties;
  name = "";
  height = 0;
  width = 0;
  yuv_data = reslice v.yuv_data 0;
  duration = 0;
  count = 0;
}

unfoldable pub retain : Video → Video
retain v = record v { count = suc v.count }

-- Release, and the pool that gets the object.
unfoldable pub release : Video → Video × Option VideoPool
release v =
    if ltb 1 v.count
    then (record v { count = v.count - 1 }, none)
    else (recycle v, some (pool_of v.height v.width))

-- The part of the data from `start`, of `size` bytes, or nil.
abbrev plane : Video → ℕ → ℕ → List ℕ
plane v start size =
    if ltb v.yuv_data.len (start + size) then [] else take size (drop start (bytes v.yuv_data))

unfoldable pub y_bytes : Video → List ℕ
y_bytes v = plane v 0 (v.width * v.height)

unfoldable pub u_bytes : Video → List ℕ
u_bytes v = let pixels = v.width * v.height in plane v pixels (pixels / 4)

unfoldable pub v_bytes : Video → List ℕ
v_bytes v =
    let pixels = v.width * v.height in
    let size = pixels / 4 in
    if ltb v.yuv_data.len (pixels + size * 2)
    then []
    else take size (drop (pixels + size) (bytes v.yuv_data))

-- setData
unfoldable pub set_data : List ℕ → Video → Video
set_data src v = record v { yuv_data = copy (sized v.yuv_data (length src)) src }

-- The data that SetYUV leaves.
unfoldable pub filled : Slice → List ℕ → List ℕ → List ℕ → Slice
filled s ys us vs =
    copy_at (copy_at (copy_at (sized s (length ys + length us + length vs)) 0 ys) (length ys) us)
      (length ys + length us) vs

unfoldable pub set_yuv : List ℕ → List ℕ → List ℕ → Video → Option Video
set_yuv ys us vs v =
    if v.properties.readonly
    then none
    else some (record v { yuv_data = filled v.yuv_data ys us vs })

unfoldable pub set_duration : ℕ → Video → Option Video
set_duration d v = if v.properties.readonly then none else some (record v { duration = d })

unfoldable pub read_only : Video → Video
read_only v = record v { properties = record v.properties { readonly = true } }

abbrev copy_to : Properties → Video → Video
copy_to from v = record v { properties = record v.properties { entries = from.entries } }

-- Mutable: itself, or a copy in the object that the pool gives.
unfoldable pub mutable : Video → Video → Video
mutable pooled v =
    if v.properties.readonly
    then set_data (bytes v.yuv_data)
        (copy_to v.properties (new_video pooled v.name v.height v.width v.duration))
    else v
