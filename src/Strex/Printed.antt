-- ===== src/Strex/Printed.antt =====
-- The printers of lib/extra/strex.c beside their readers.
use witos.Base.{ℕ, ◌<◌, ◌≡◌, ◌^◌, some, List, length, ℤ, pos_part, neg_part}
use witos.Strex.Hex.{hex_str_to_val, val_to_hex_str, hex_str_to_val-val_to_hex_str}
use witos.Strex.Dec.{val_to_dec_str, dec_str_to_long, dec_str_to_long-val_to_dec_str}

-- Numbers are written within the buffer and read back, with the number of characters as the
-- returned length: every 32-bit value in hexadecimal and every `long` but the least in decimal.
pub numbers-read_back :
    (val : ℕ) (v : ℤ)
    → val < 2 ^ 32
    → pos_part v < 2 ^ 31
    → neg_part v < 2 ^ 31
    → ((s : List ℕ) × (val_to_hex_str val ≡ some s) × (hex_str_to_val s ≡ some (length s, val)))
      × ((s : List ℕ) × (val_to_dec_str v ≡ some s) × (dec_str_to_long s ≡ some (length s, v)))
numbers-read_back val v word above below =
    (hex_str_to_val-val_to_hex_str val word, dec_str_to_long-val_to_dec_str v above below)
