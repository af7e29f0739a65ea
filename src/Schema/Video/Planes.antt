-- ===== src/Schema/Video/Planes.antt =====
-- internal/schema/video.go: the planes of a frame.
use voce.Prelude.{
  ℕ, ◌+◌, ◌*◌, ◌/◌, ◌≡◌, refl, sym, ap, ap₂, ◌∙◌, false, some, List, [], ◌++◌, length, take, drop,
  arith, length-append, take-append, drop-append,
}
use voce.Prelude.Slices.{Slice, bytes, copy_at, sized, sized-IsSlice, copy_at_lem}
use voce.Schema.Video.{Video, filled, y_bytes, u_bytes, v_bytes, set_yuv}
use mathlib.Core.List.{append_assoc, append-nil}

len-sized : (s : Slice) (n : ℕ) → (sized s n).len ≡ n
unfolding sized
len-sized s n = ground arith

bytes-filled :
    (s : Slice) (ys us vs : List ℕ)
    → ((filled s ys us vs).len ≡ length ys + length us + length vs)
      × (bytes (filled s ys us vs) ≡ (ys ++ us) ++ vs)
unfolding filled
bytes-filled s ys us vs =
    let total = length ys + length us + length vs in
    let start = sized s total in
    let size = len-sized s total in
    let (same, fits, first) =
      copy_at_lem start 0 ys (sized-IsSlice s total) (omega (arith, size)) in
    let (same', fits', second) =
      copy_at_lem (copy_at start 0 ys) (length ys) us fits (omega (arith, size, same)) in
    let (same'', fits'', third) =
      copy_at_lem (copy_at (copy_at start 0 ys) (length ys) us) (length ys + length us) vs fits'
        (omega (arith, size, same, same')) in
    let front : take (length ys) (copy_at start 0 ys).array ≡ ys =
      ap (λ n. take n (copy_at start 0 ys).array) (omega arith) ∙ first in
    (
      omega (arith, size, same, same', same''),
      ap (λ n. take n (filled s ys us vs).array) (omega (arith, size, same, same', same''))
          ∙ third
          ∙ ap (λ l. l ++ vs) (second ∙ ap (λ l. l ++ us) front),
    )

-- A part of a text, by where it starts and its length.
part :
    (content front middle rest : List ℕ) (start size : ℕ)
    → content ≡ front ++ (middle ++ rest)
    → start ≡ length front
    → size ≡ length middle
    → take size (drop start content) ≡ middle
part content front middle rest start size e at for =
    ap₂ take for (ap₂ drop at e ∙ drop-append front (middle ++ rest)) ∙ take-append middle rest

-- The planes that are written are the planes that are read, where the first has the frame's pixels and
-- the other two a quarter of them each; nothing of the data's former use is left.
pub planes-set_yuv :
    (ys us vs : List ℕ) (v : Video)
    → v.properties.readonly ≡ false
    → length ys ≡ v.width * v.height
    → length us ≡ v.width * v.height / 4
    → length vs ≡ v.width * v.height / 4
    → (w : Video) × (set_yuv ys us vs v ≡ some w)
      × (y_bytes w ≡ ys)
      × (u_bytes w ≡ us)
      × (v_bytes w ≡ vs)
unfolding set_yuv y_bytes u_bytes v_bytes
planes-set_yuv ys us vs v free ly lu lv =
    let (size, content) = bytes-filled v.yuv_data ys us vs in
    let w = record v { yuv_data = filled v.yuv_data ys us vs } in
    let shifted : (ys ++ us) ++ vs ≡ ys ++ (us ++ vs) = append_assoc ys us vs in
    let pixels = v.width * v.height in
    let first =
      part (bytes w.yuv_data) [] ys (us ++ vs) 0 pixels (content ∙ shifted) refl (sym ly) in
    let second =
      part (bytes w.yuv_data) ys us vs pixels (pixels / 4) (content ∙ shifted) (sym ly) (sym lu) in
    let third =
      part (bytes w.yuv_data) (ys ++ us) vs [] (pixels + pixels / 4) (pixels / 4)
        (content ∙ ap (λ l. (ys ++ us) ++ l) (sym (append-nil vs)))
        (omega (arith, length-append ys us, ly, lu)) (sym lv) in
    (
      w,
      ground (arith, free),
      ground (arith, size, ly, first),
      ground (arith, size, ly, lu, second),
      ground (arith, size, ly, lu, lv, third),
    )
