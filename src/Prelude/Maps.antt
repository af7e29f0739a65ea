-- ===== src/Prelude/Maps.antt =====
-- Go maps with text keys, as association lists. A key stands once; `m[k] = v` on a present key
-- writes in place. The order of iteration, which Go leaves open, is an argument of the code that
-- ranges over a map.
use voce.Prelude.Tests.{if◌then◌else◌, is_some}
use voce.Prelude.Lists.{length}
use Prim.Native.Nat.{suc, ◌+◌}
use mathlib.Core.Bool.{Bool, true, not, ◌&&◌}
use Prim.Native.String.{String}
use mathlib.Core.Path.{◌≡◌, refl}
use mathlib.Core.Option.{Option, none, some}
use mathlib.Core.List.{List, [], ◌∷◌}
use native.Mathlib.Omega.{arith}
use text.Mathlib.Text.{◌==◌ as str_eq}
use text.Mathlib.TextEquality.{eq_iff}

module _ {ℓ} {V : Type ℓ} where
  -- v, ok := m[k]
  unfoldable pub lookup : String → List (String × V) → Option V
  lookup k [] = none
  lookup k ((j, v) ∷ m) = if str_eq j k then some v else lookup k m

  -- m[k] = v
  unfoldable pub insert : String → V → List (String × V) → List (String × V)
  insert k v [] = (k, v) ∷ []
  insert k v ((j, w) ∷ m) = if str_eq j k then (k, v) ∷ m else (j, w) ∷ insert k v m

  -- delete(m, k)
  unfoldable pub erase : String → List (String × V) → List (String × V)
  erase k [] = []
  erase k ((j, w) ∷ m) = let rest = erase k m in if str_eq j k then rest else (j, w) ∷ rest

  pub lookup-insert :
      (new key : String) (value : V) (m : List (String × V))
      → lookup key (insert new value m) ≡ (if str_eq new key then some value else lookup key m)
  unfolding lookup insert
  lookup-insert new key value [] = refl
  lookup-insert new key value ((head, w) ∷ rest) =
      ground
        (arith, lookup-insert new key value rest, eq_iff head key, eq_iff head new, eq_iff new key)

  pub lookup-erase :
      (k j : String) (m : List (String × V))
      → lookup j (erase k m) ≡ (if str_eq k j then none else lookup j m)
  unfolding lookup erase
  lookup-erase k j [] = ground arith
  lookup-erase k j ((i, w) ∷ m) =
      ground (arith, eq_iff k j, eq_iff i k, eq_iff i j, lookup-erase k j m)

-- Whether each key stands once.
module _ {ℓ} {V : Type ℓ} where
  unfoldable pub unique : List (String × V) → Bool
  unique [] = true
  unique ((j, v) ∷ m) = not (is_some (lookup j m)) && unique m

  pub unique-insert :
      (k : String) (v : V) (m : List (String × V)) → unique m ≡ true → unique (insert k v m) ≡ true
  unfolding insert lookup unique
  unique-insert k v [] u = refl
  unique-insert k v ((j, w) ∷ m) u =
      ground (arith, eq_iff j k, eq_iff k j, unique-insert k v m, lookup-insert k j v m)

  pub unique-erase :
      (k : String) (m : List (String × V)) → unique m ≡ true → unique (erase k m) ≡ true
  unfolding erase lookup unique
  unique-erase k [] u = refl
  unique-erase k ((j, w) ∷ m) u =
      ground (arith, eq_iff j k, eq_iff k j, unique-erase k m, lookup-erase k j m)

  pub length-insert :
      (k : String) (v : V) (m : List (String × V))
      → length (insert k v m) ≡ (if is_some (lookup k m) then length m else suc (length m))
  unfolding insert lookup
  length-insert k v [] = refl
  length-insert k v ((j, w) ∷ m) = ground (arith, length-insert k v m)

  pub length-erase :
      (k : String) (m : List (String × V))
      → unique m ≡ true
      → length (erase k m) + (if is_some (lookup k m) then 1 else 0) ≡ length m
  unfolding erase lookup unique
  length-erase k [] u = refl
  length-erase k ((j, w) ∷ m) u = ground (arith, eq_iff j k, length-erase k m)
