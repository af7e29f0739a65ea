-- ===== src/Prelude/Slices.antt =====
-- Go's byte slices that a program reuses: the whole underlying array, and the length in view.
-- Bytes past the length stay in the array, and a longer view shows them again.
use voce.Prelude.Lists.{
  length, take, drop, replicate, length-replicate, length-append, length-take, length-drop,
  take-append, take_all,
}
use voce.Prelude.Tests.{ltb, if◌then◌else◌, Bool-cases}
use Prim.Native.Nat.{ℕ, ◌+◌, ◌-◌, ◌≤◌, min}
use mathlib.Core.Path.{◌≡◌, refl, sym, ap, ap₂, ◌∙◌}
use mathlib.Core.Logic.{inl, inr}
use mathlib.Core.List.{List, [], ◌++◌, append_assoc}
use native.Mathlib.Omega.{arith}

pub record Slice : Type 0 where
  pub array : List ℕ
  pub len : ℕ

-- nil, and make([]byte, 0)
abbrev pub nil_slice : Slice
nil_slice = record { array = []; len = 0 }

-- cap(s)
abbrev pub cap_of : Slice → ℕ
cap_of s = length s.array

-- The bytes in view.
abbrev pub bytes : Slice → List ℕ
bytes s = take s.len s.array

-- make([]byte, n)
abbrev pub make : ℕ → Slice
make n = record { array = replicate n 0; len = n }

-- s[:n], where n is at most the capacity
abbrev pub reslice : Slice → ℕ → Slice
reslice s n = record s { len = n }

-- copy(s, src)
unfoldable pub copy : Slice → List ℕ → Slice
copy s src = let k = min s.len (length src) in record s { array = take k src ++ drop k s.array }

-- A buffer with room for `n` bytes in view: the old array where it is large enough.
unfoldable pub sized : Slice → ℕ → Slice
sized s n = if ltb (cap_of s) n then make n else reslice s n

-- What a sized buffer shows after the copy is the source: no byte of its former use is left.
pub bytes-copy : (s : Slice) (src : List ℕ) → s.len ≡ length src → bytes (copy s src) ≡ src
unfolding copy
bytes-copy s src e =
    let m : min s.len (length src) ≡ length src = omega arith in
    rw (m, e, take_all src (length src) (omega arith)) (take-append src _)

pub bytes-sized-copy : (s : Slice) (src : List ℕ) → bytes (copy (sized s (length src)) src) ≡ src
unfolding sized
bytes-sized-copy s src = elim (Bool-cases (ltb (cap_of s) (length src))) [
  | inl e ↦ rw e (bytes-copy (make (length src)) src refl)
  | inr e ↦ rw e (bytes-copy (reslice s (length src)) src refl)
]

-- The view never passes the capacity.
abbrev pub IsSlice : Slice → Type 0
IsSlice s = s.len ≤ cap_of s

pub sized-IsSlice : (s : Slice) (n : ℕ) → IsSlice (sized s n)
unfolding sized
sized-IsSlice s n = elim (Bool-cases (ltb (cap_of s) n)) [
  | inl e ↦ rw e (omega (arith, let z : ℕ = 0 in length-replicate n z))
  | inr e ↦ rw e (ground arith)
]

-- copy(s[offset:], src)
unfoldable pub copy_at : Slice → ℕ → List ℕ → Slice
copy_at s offset src =
    let k = min (s.len - offset) (length src) in
    record s { array = take offset s.array ++ (take k src ++ drop (offset + k) s.array) }

-- What a copy into the middle leaves before its end.
pub copy_at_lem :
    (s : Slice) (offset : ℕ) (src : List ℕ)
    → IsSlice s
    → offset + length src ≤ s.len
    → ((copy_at s offset src).len ≡ s.len)
      × IsSlice (copy_at s offset src)
      × (take (offset + length src) (copy_at s offset src).array ≡ take offset s.array ++ src)
unfolding copy_at
copy_at_lem s offset src fits room =
    let k : min (s.len - offset) (length src) ≡ length src = omega (arith, room) in
    let start = take offset s.array in
    let left = drop (offset + length src) s.array in
    let all : take (min (s.len - offset) (length src)) src ≡ src =
      rw k (take_all src (length src) (omega arith)) in
    let size : length (start ++ src) ≡ offset + length src =
      omega (arith, length-append start src, length-take offset s.array, fits, room) in
    let size' : s.len ≤ length (start ++ (src ++ left)) = omega (
      arith,
      length-append start (src ++ left),
      length-append src left,
      length-take offset s.array,
      length-drop (offset + length src) s.array,
      fits,
      room,
    ) in
    let front : take (offset + length src) (start ++ (src ++ left)) ≡ start ++ src =
      ap₂ take (sym size) (sym (append_assoc start src left)) ∙ take-append (start ++ src) left in
    let array : (copy_at s offset src).array ≡ start ++ (src ++ left) =
      ap₂ (λ l n. start ++ (l ++ drop (offset + n) s.array)) all k in
    (refl, rw array size', ap (take (offset + length src)) array ∙ front)
