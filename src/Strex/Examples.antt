-- ===== src/Strex/Examples.antt =====
-- Runs of the conversions, and the theorems at concrete values.
use witos.Base.{
  ℕ, ◌≡◌, ◌%◌, refl, pos, none, ◌==◌, if◌then◌else◌, [], ◌∷◌, ◌++◌, some, List, arith, length,
  negsuc, codes,
}
use witos.Strex.Ip.{str_to_ip, str_to_ip-val_to_dec_str}
use witos.Strex.Size.{hr_str_to_val, val_to_hr_str}
use witos.Strex.Units.{hr_str_to_val-val_to_hr_str}
use witos.Strex.Hex.{hex_str_to_val, val_to_hex_str}
use witos.Strex.Dec.{val_to_dec_str, dec_str_to_long, dec_fill}
use witos.Strex.Printed.{numbers-read_back}

numbers-read_back_example :
    ((s : List ℕ) × (val_to_hex_str 0xbeef ≡ some s) × (hex_str_to_val s ≡ some (length s, 0xbeef)))
    × ((s : List ℕ) × (val_to_dec_str (negsuc 41) ≡ some s)
        × (dec_str_to_long s ≡ some (length s, negsuc 41)))
numbers-read_back_example =
    numbers-read_back 0xbeef (negsuc 41) (omega arith) (omega arith) (omega arith)

hex_runs : hex_str_to_val (codes "dEad0") ≡ some (5, 0xdead0)
unfolding hex_str_to_val
hex_runs = refl

dec_runs : val_to_dec_str (negsuc 41) ≡ some (codes "-42")
unfolding val_to_dec_str dec_fill
dec_runs = refl

-- The least `long` is written with the characters in front of '0'.
least_long : val_to_dec_str (negsuc 0x7fff_ffff) ≡ some (codes "-./,),(-*,(")
unfolding val_to_dec_str dec_fill
least_long = refl

-- "192.168.1.20"
str_to_ip-val_to_dec_str_example :
    (s t u v : List ℕ) × (val_to_dec_str (pos 192) ≡ some s)
    × (val_to_dec_str (pos 168) ≡ some t)
    × (val_to_dec_str (pos 1) ≡ some u)
    × (val_to_dec_str (pos 20) ≡ some v)
    × (str_to_ip (s ++ b'.' ∷ (t ++ b'.' ∷ (u ++ b'.' ∷ v))) ≡ some (192 ∷ 168 ∷ 1 ∷ 20 ∷ []))
str_to_ip-val_to_dec_str_example =
    str_to_ip-val_to_dec_str 192 168 1 20 (omega arith) (omega arith) (omega arith) (omega arith)

-- 3 M, 5 K and 7 bytes.
hr_str_to_val-val_to_hr_str_example :
    (s : List ℕ) × (val_to_hr_str 3150855 ≡ some s)
    × (hr_str_to_val s ≡ (if 3150855 % 1024 == 0 then some 3150855 else none))
hr_str_to_val-val_to_hr_str_example = hr_str_to_val-val_to_hr_str 3150855 (omega arith)

bytes_refused : 3150855 % 1024 ≡ 7
bytes_refused = ground arith
