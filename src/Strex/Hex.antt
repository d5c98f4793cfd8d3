-- ===== src/Strex/Hex.antt =====
-- hex_str_to_val and val_to_hex_str of lib/extra/strex.c.
use witos.Base.{
  ℕ, zero, suc, ◌+◌, ◌-◌, ◌*◌, ◌/◌, ◌%◌, ◌^◌, ◌≤◌, ◌<◌, ◌≡◌, refl, ◌&&◌, Option, none, some, List,
  [], ◌∷◌, arith, ltb, leb, ◌==◌, if◌then◌else◌, ◌>>=◌, length, bit_and-mask, bit_or-fields, inl,
  inr, Bool-cases, ap, ◌∙◌,
}
use native.Mathlib.Nat.{pow-suc}
use mathlib.Core.Logic.{◌≢◌}
use Prim.Native.Nat.{bit_and, bit_or}

-- The digit of a character: the three branches of the loop.
hex_digit : ℕ → Option ℕ
hex_digit c =
    if leb b'0' c && leb c b'9'
    then some (c - b'0')
    else if leb b'a' c && leb c b'f'
    then some (c - b'a' + 10)
    else if leb b'A' c && leb c b'F'
    then some (c - b'A' + 10)
    else none

-- The loop: `tmp <<= 4; tmp |= digit`, and the count of digits is held to `sizeof(tmp) * 2`.
hex_scan : List ℕ → (len tmp : ℕ) → Option (ℕ × ℕ)
unfolding hex_digit
hex_scan [] len tmp = some (len, tmp)
hex_scan (c ∷ s) len tmp = do
  d ← hex_digit c
  if ltb 8 (len + 1) then none else hex_scan s (len + 1) (bit_or (tmp * 2 ^ 4 % 2 ^ 32) d)

-- The returned length, and `*val`.
unfoldable pub hex_str_to_val : List ℕ → Option (ℕ × ℕ)
unfolding hex_scan
hex_str_to_val s = hex_scan s 0 0

hex_char : ℕ → ℕ
hex_char num = if ltb num 10 then num + b'0' else num - 10 + b'a'

-- `buff` is filled from its end; the fuel is the room left in its `MAX_HEX_LEN` bytes, and `none` is
-- a write in front of it.
hex_fill : ℕ → ℕ → List ℕ → Option (List ℕ)
unfolding hex_char
hex_fill zero val buff = if val == 0 then some buff else none
hex_fill (suc room) val buff =
    let rest = hex_fill room (val / 2 ^ 4) (hex_char (bit_and val 0xf) ∷ buff) in
    if val == 0 then some buff else rest

abbrev max_hex_len : ℕ
max_hex_len = 9

pub val_to_hex_str : ℕ → Option (List ℕ)
unfolding hex_fill
val_to_hex_str val = hex_fill max_hex_len val []

hex_digit-hex_char : (d : ℕ) → d < 16 → hex_digit (hex_char d) ≡ some d
unfolding hex_digit hex_char
hex_digit-hex_char d h = ground arith

hex_scan-cons :
    (c d len tmp : ℕ) (s : List ℕ)
    → hex_digit c ≡ some d
    → len < 8
    → hex_scan (c ∷ s) len tmp ≡ hex_scan s (len + 1) (bit_or (tmp * 2 ^ 4 % 2 ^ 32) d)
unfolding hex_scan
hex_scan-cons c d len tmp s e h = rw e (ground arith)

hex_scan_long : (c len tmp : ℕ) (s : List ℕ) → 8 ≤ len → hex_scan (c ∷ s) len tmp ≡ none
unfolding hex_scan
hex_scan_long c len tmp s h = ground arith

-- Reading one more digit behind the digits of `v / 16` gives `v`.
shift_in : (v : ℕ) → v < 2 ^ 32 → bit_or (v / 2 ^ 4 * 2 ^ 4 % 2 ^ 32) (v % 16) ≡ v
shift_in v h =
    let e : v / 2 ^ 4 * 2 ^ 4 % 2 ^ 32 ≡ v / 2 ^ 4 * 2 ^ 4 = omega arith in
    rw e (omega (arith, bit_or-fields 4 (v / 2 ^ 4) (v % 16) (omega arith)))

-- The digits of `val` in front of `buff` are read back, for a value of at most `bound` digits.
record IsFilled (room bound val : ℕ) (buff : List ℕ) (s : List ℕ) : Type 0 where
  run : hex_fill room val buff ≡ some s
  count : ℕ
  few : count ≤ bound
  size : length s ≡ count + length buff
  read : hex_scan s 0 0 ≡ hex_scan buff count val

IsFilled-suc :
    (room bound val : ℕ) (buff s : List ℕ)
    → val ≢ 0
    → bound < 8
    → val < 2 ^ 32
    → IsFilled room bound (val / 2 ^ 4) (hex_char (bit_and val 0xf) ∷ buff) s
    → IsFilled (suc room) (suc bound) val buff s
unfolding hex_fill
IsFilled-suc room bound val buff s ne h word r = record {
  run = ground (arith, r.run);
  count = r.count + 1;
  few = omega (arith, r.few);
  size = omega (arith, r.size);
  read =
      r.read
      ∙ hex_scan-cons (hex_char (bit_and val 0xf)) (val % 16) r.count (val / 2 ^ 4) buff
          (rw (bit_and-mask 4 val) (hex_digit-hex_char (val % 16) (omega arith)))
          (omega (arith, r.few))
      ∙ ap (hex_scan buff (r.count + 1)) (shift_in val word);
}

hex_fill-IsFilled :
    (room bound val : ℕ) (buff : List ℕ)
    → bound ≤ room
    → bound ≤ 8
    → val < 16 ^ bound
    → val < 2 ^ 32
    → (s : List ℕ) × IsFilled room bound val buff s
unfolding hex_fill
hex_fill-IsFilled zero zero val buff small h fits word = (
  buff,
  record {
    run = ground arith;
    count = 0;
    few = omega arith;
    size = omega arith;
    read = ground arith;
  },
)
hex_fill-IsFilled zero (suc bound) val buff small h fits word = absurd (omega arith)
hex_fill-IsFilled (suc room) zero val buff small h fits word = (
  buff,
  record {
    run = ground arith;
    count = 0;
    few = omega arith;
    size = omega arith;
    read = ground arith;
  },
)
hex_fill-IsFilled (suc room) (suc bound) val buff small h fits word = elim (Bool-cases (val == 0)) [
  | inl done ↦ (
    buff,
    record {
      run = ground arith;
      count = 0;
      few = omega arith;
      size = omega arith;
      read = ground arith;
    },
  )
  | inr more ↦
      let (s, r) =
        hex_fill-IsFilled room bound (val / 2 ^ 4) (hex_char (bit_and val 0xf) ∷ buff) (omega arith)
          (omega arith) (omega (arith, pow-suc 16 bound)) (omega arith) in
      (s, IsFilled-suc room bound val buff s (ground arith) (omega arith) word r)
]

-- Every 32-bit value is written within the buffer and read back, with the number of characters as
-- the returned length.
pub hex_str_to_val-val_to_hex_str :
    (val : ℕ)
    → val < 2 ^ 32
    → (s : List ℕ) × (val_to_hex_str val ≡ some s) × (hex_str_to_val s ≡ some (length s, val))
unfolding hex_str_to_val val_to_hex_str hex_scan
hex_str_to_val-val_to_hex_str val h =
    let (s, r) = hex_fill-IsFilled max_hex_len 8 val [] (omega arith) (omega arith) h h in
    (s, r.run, r.read ∙ ground (arith, r.size))

-- The value zero is written as the empty text.
pub val_to_hex_str-zero : val_to_hex_str 0 ≡ some []
unfolding val_to_hex_str
val_to_hex_str-zero = refl
