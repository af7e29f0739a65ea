-- ===== src/Prelude/Text.antt =====
-- strings.TrimSpace(s) == "": the text has no character but white space (Unicode's White_Space).
use voce.Prelude.Tests.{◌==◌, leb}
use Prim.Native.Nat.{ℕ}
use Prim.Native.Char.{code}
use Prim.Native.String.{String, [], ◌∷◌}
use mathlib.Core.Bool.{Bool, true, ◌&&◌, ◌||◌}

abbrev space_code : ℕ → Bool
space_code n =
    (leb 9 n && leb n 13)
    || (n == 32)
    || (n == 133)
    || (n == 160)
    || (n == 5760)
    || (leb 8192 n && leb n 8202)
    || (n == 8232)
    || (n == 8233)
    || (n == 8239)
    || (n == 8287)
    || (n == 12288)

unfoldable pub is_blank : String → Bool
is_blank [] = true
is_blank (c ∷ s) = let rest = is_blank s in space_code (code c) && rest
