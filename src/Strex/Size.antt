-- ===== src/Strex/Size.antt =====
-- hr_str_to_val and val_to_hr_str of lib/extra/strex.c: sizes with the units G, M, K and B.
use Prim.Native.Nat.{bit_and, bit_or}
use witos.Base.{
  ℕ, ◌+◌, ◌-◌, ◌*◌, ◌/◌, ◌%◌, ◌^◌, ◌||◌, Option, none, some, List, [], ◌∷◌, ◌++◌, ◌==◌,
  if◌then◌else◌, ◌>>=◌, is_digit, pos,
}
use witos.Strex.Dec.{val_to_dec_str}

pub record HrScan : Type 0 where
  pub mark : ℕ
  pub num : ℕ
  pub tmp : ℕ

-- G_MARK, M_MARK and K_MARK
abbrev pub g_mark : ℕ
g_mark = 128

abbrev pub m_mark : ℕ
m_mark = 64

abbrev pub k_mark : ℕ
k_mark = 32

-- The case of a unit: an error if it or a smaller one has come before.
unfoldable pub hr_unit : (not_before mark shift : ℕ) → HrScan → Option HrScan
hr_unit not_before mark shift st =
    if bit_and st.mark not_before == 0
    then some
        record { mark = bit_or st.mark mark; num = (st.num + st.tmp * 2 ^ shift) % 2 ^ 32; tmp = 0 }
    else none

-- The switch, but for the NUL.
unfoldable pub hr_round : (c : ℕ) → HrScan → Option HrScan
unfolding hr_unit
hr_round c st =
    if is_digit c
    then some record st { tmp = (st.tmp * 10 + (c - b'0')) % 2 ^ 32 }
    else if c == b'g' || c == b'G'
    then hr_unit (g_mark + m_mark + k_mark) g_mark 30 st
    else if c == b'm' || c == b'M'
    then hr_unit (m_mark + k_mark) m_mark 20 st
    else if c == b'k' || c == b'K'
    then hr_unit k_mark k_mark 10 st
    else none

unfoldable pub hr_scan : List ℕ → HrScan → Option ℕ
unfolding hr_round
hr_scan [] st = some ((st.num + st.tmp) % 2 ^ 32)
hr_scan (c ∷ s) st = hr_round c st >>= (λ next. hr_scan s next)

unfoldable pub hr_str_to_val : List ℕ → Option ℕ
unfolding hr_scan
hr_str_to_val str = hr_scan str (record { mark = 0; num = 0; tmp = 0 })

-- (val >> shift) & KB_MASK
unfoldable pub hr_sect : (val shift : ℕ) → ℕ
hr_sect val shift = bit_and (val / 2 ^ shift) 1023

-- One round of the loop: what is written.
unfoldable pub hr_part : (sect sign : ℕ) → Option (List ℕ)
hr_part sect sign =
    if sect == 0 then some [] else val_to_dec_str (pos sect) >>= (λ s. some (s ++ sign ∷ []))

unfoldable pub val_to_hr_str : ℕ → Option (List ℕ)
unfolding hr_part hr_sect
val_to_hr_str val = do
  g ← hr_part (hr_sect val 30) b'G'
  m ← hr_part (hr_sect val 20) b'M'
  k ← hr_part (hr_sect val 10) b'K'
  b ← hr_part (hr_sect val 0) b'B'
  some (g ++ (m ++ (k ++ b)))
