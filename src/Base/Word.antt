-- ===== src/Base/Word.antt =====
-- 32-bit words of the ARM targets, error numbers, and the characters the texts are made of.
use Prim.Native.Nat.{ℕ, ◌-◌, ◌^◌}
use Prim.Native.Char.{code}
use Prim.Native.String.{String}
use mathlib.Core.Bool.{Bool, ◌&&◌}
use mathlib.Core.List.{List, [], ◌∷◌}
use witos.Base.Tests.{ltb, leb, if◌then◌else◌}
use witos.Base.Int.{ℤ, pos, negsuc}

-- The number that a bit pattern below 2 ^ 32 stands for as an `int` or `long`.
abbrev pub signed32 : ℕ → ℤ
signed32 w = if ltb w (2 ^ 31) then pos w else negsuc (2 ^ 32 - w - 1)

-- `ISDIGIT` of include/string.h.
abbrev pub is_digit : ℕ → Bool
is_digit c = leb b'0' c && leb c b'9'

-- The bytes of a text literal.
abbrev pub codes : String → List ℕ
codes String.[] = []
codes (String.◌∷◌ c s) = code c ∷ codes s
