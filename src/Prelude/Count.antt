-- ===== src/Prelude/Count.antt =====
-- How often a text stands in a list, and what stands before what.
use voce.Prelude.Tests.{if◌then◌else◌, str-cases}
use voce.Prelude.Lists.{length, keep}
use Prim.Native.Nat.{ℕ, suc, ◌+◌, ◌-◌, ◌≤◌, ◌<◌}
use Prim.Native.String.{String}
use mathlib.Core.Path.{◌≡◌, refl, ap}
use mathlib.Core.Logic.{inl, inr}
use mathlib.Core.Bool.{Bool, true, false}
use mathlib.Core.List.{List, [], ◌∷◌, ◌++◌}
use native.Mathlib.Omega.{arith}
use native.Mathlib.Decide.{dec_lt}
use text.Mathlib.Text.{◌==◌ as str_eq}
use text.Mathlib.TextEquality.{eq_iff}

unfoldable pub count : String → List String → ℕ
count k [] = 0
count k (x ∷ xs) = (if str_eq x k then 1 else 0) + count k xs

pub count-nil : (k : String) → count k [] ≡ 0
unfolding count
count-nil k = refl

pub count-cons :
    (k x : String) (xs : List String)
    → count k (x ∷ xs) ≡ (if str_eq x k then 1 else 0) + count k xs
unfolding count
count-cons k x xs = refl

pub count-append : (k : String) (xs ys : List String) → count k (xs ++ ys) ≡ count k xs + count k ys
unfolding count
count-append k [] ys = omega arith
count-append k (x ∷ xs) ys = omega (arith, count-append k xs ys)

pub count-keep :
    (p : String → Bool) (k : String) (xs : List String)
    → count k (keep p xs) ≡ (if p k then count k xs else 0)
unfolding count
count-keep p k [] = ground arith
count-keep p k (x ∷ xs) = elim (str-cases x k) [
  | inl (same, e) ↦ ground (arith, e, ap p same, count-keep p k xs)
  | inr (other, e) ↦ ground (arith, e, count-keep p k xs)
]

-- The list without the first `k`.
remove_one : String → List String → List String
remove_one k [] = []
remove_one k (x ∷ xs) = let rest = remove_one k xs in if str_eq x k then xs else x ∷ rest

length-remove_one :
    (k : String) (xs : List String) → 0 < count k xs → length xs ≡ suc (length (remove_one k xs))
unfolding count remove_one
length-remove_one k [] h = absurd (omega arith)
length-remove_one k (x ∷ xs) h = ground (arith, length-remove_one k xs)

count-remove_one :
    (k v : String) (xs : List String)
    → count v (remove_one k xs) ≡ (count v xs - (if str_eq k v then 1 else 0))
unfolding count remove_one
count-remove_one k v [] = ground arith
count-remove_one k v (x ∷ xs) =
    ground (arith, count-remove_one k v xs, eq_iff x k, eq_iff k v, eq_iff x v)

-- A list whose texts stand in another as often or more is no longer.
pub length-le_of_count :
    (xs ys : List String) → ((v : String) → count v xs ≤ count v ys) → length xs ≤ length ys
unfolding count
length-le_of_count [] ys h = omega arith
length-le_of_count (x ∷ xs) ys h =
    let here : 0 < count x ys = ground (arith, h x, eq_iff x x) in
    let fewer =
      length-le_of_count xs (remove_one x ys) (λ v. ground (arith, h v, count-remove_one x v ys)) in
    omega (arith, fewer, length-remove_one x ys here)

-- `u` stands before the first `v`.
unfoldable pub precedes : String → String → List String → Bool
precedes u v [] = false
precedes u v (x ∷ xs) =
    let later = precedes u v xs in if str_eq x v then false else if str_eq x u then true else later

pub precedes-append :
    (u v : String) (xs ys : List String) → precedes u v xs ≡ true → precedes u v (xs ++ ys) ≡ true
unfolding precedes
precedes-append u v [] ys h = cc
precedes-append u v (x ∷ xs) ys h = ground (arith, precedes-append u v xs ys)

pub precedes_new :
    (u v : String) (xs ys : List String)
    → 0 < count u xs
    → count v xs ≡ 0
    → precedes u v (xs ++ ys) ≡ true
unfolding precedes count
precedes_new u v [] ys h g = absurd (omega arith)
precedes_new u v (x ∷ xs) ys h g = ground (arith, precedes_new u v xs ys)

-- Of two such lists of one length, each text stands in both equally often.
pub count_eq_of_length :
    (xs ys : List String)
    → ((v : String) → count v xs ≤ count v ys)
    → length xs ≡ length ys
    → (v : String) → count v xs ≡ count v ys
unfolding count
count_eq_of_length xs ys h same v = elim (dec_lt (count v xs) (count v ys)) [
  | yes fewer ↦ absurd (
      omega
        (arith, same, length-le_of_count (v ∷ xs) ys (λ u. ground (arith, h u, fewer, eq_iff v u))))
  | no enough ↦ omega (arith, h v)
]
