-- ===== src/Strex/Dec.antt =====
-- val_to_dec_str, dec_str_to_long, dec_str_to_int and str_to_val of lib/extra/strex.c. A `long` is an
-- integer; the loops compute with its 32-bit pattern.
use native.Mathlib.Nat.{pow-suc}
use witos.Base.{
  ℕ, zero, suc, ◌+◌, ◌-◌, ◌*◌, ◌/◌, ◌%◌, ◌^◌, ◌<◌, ◌≡◌, refl, ◌≢◌, Bool, true, false, ◌&&◌, ◌||◌,
  Option, none, some, List, [], ◌∷◌, arith, ◌==◌, if◌then◌else◌, ◌>>=◌, length, inl, inr,
  Bool-cases, ap, ◌∙◌, ℤ, pos, negsuc, pos_part, neg_part, signed32, is_digit,
}
use witos.Strex.Hex.{hex_str_to_val}

-- `val % 10 + '0'`, where the remainder of a negative value is not positive.
dec_char : Bool → ℕ → ℕ
dec_char negative m = if negative then b'0' - m % 10 else m % 10 + b'0'

-- do { … } while (val): `m` is the magnitude of `val`, and the fuel is the room left in the
-- `MAX_DEC_LEN` bytes of `buff`.
unfoldable pub dec_fill : ℕ → Bool → (m : ℕ) → List ℕ → Option (List ℕ)
unfolding dec_char
dec_fill zero negative m buff = none
dec_fill (suc room) negative m buff =
    let buff' = dec_char negative m ∷ buff in
    let rest = dec_fill room negative (m / 10) buff' in if m / 10 == 0 then some buff' else rest

abbrev max_dec_len : ℕ
max_dec_len = 32

-- `-val` wraps at the least `long`, which stays negative.
unfoldable pub val_to_dec_str : ℤ → Option (List ℕ)
val_to_dec_str (pos n) = dec_fill max_dec_len false n []
val_to_dec_str (negsuc n) = do
  digits ← dec_fill max_dec_len (n + 1 == 2 ^ 31) (n + 1) []
  some (b'-' ∷ digits)

-- if ('-' == *num) num++;
skip_minus : List ℕ → Bool × List ℕ
skip_minus [] = (false, [])
skip_minus (c ∷ s) = if c == b'-' then (true, s) else (false, c ∷ s)

-- The loop: `tmp = 10 * tmp + *num - '0'` on the bit pattern.
unfoldable pub dec_scan : List ℕ → ℕ → Option ℕ
dec_scan [] tmp = some tmp
dec_scan (c ∷ s) tmp = if is_digit c then dec_scan s ((10 * tmp + (c - b'0')) % 2 ^ 32) else none

-- The returned length, and `*val`.
pub dec_str_to_long : List ℕ → Option (ℕ × ℤ)
dec_str_to_long s =
    let (minus, num) = skip_minus s in
    do
      tmp ← dec_scan num 0
      some (length s, signed32 (if minus then (2 ^ 32 - tmp) % 2 ^ 32 else tmp))

-- The same body with an `int`, which has the same 32 bits.
pub dec_str_to_int : List ℕ → Option (ℕ × ℤ)
dec_str_to_int s =
    let (minus, num) = skip_minus s in
    do
      tmp ← dec_scan num 0
      some (length s, signed32 (if minus then (2 ^ 32 - tmp) % 2 ^ 32 else tmp))

-- The bit pattern of a `long`: the cast to `unsigned long`.
abbrev pub pattern32 : ℤ → ℕ
pattern32 (pos n) = n
pattern32 (negsuc n) = 2 ^ 32 - 1 - n

str_to_val_dec : List ℕ → Option (ℕ × ℕ)
str_to_val_dec s = do (len, val) ← dec_str_to_long s; some (len, pattern32 val)

pub str_to_val : List ℕ → Option (ℕ × ℕ)
unfolding str_to_val_dec
str_to_val [] = str_to_val_dec []
str_to_val (c ∷ []) = str_to_val_dec (c ∷ [])
str_to_val (c ∷ x ∷ s) =
    if c == b'0' && (x == b'x' || x == b'X') then hex_str_to_val s else str_to_val_dec (c ∷ x ∷ s)

-- The digits of `m` in front of `buff`: at least one, and they are read back.
record IsFilled (m : ℕ) (buff : List ℕ) (c : ℕ) (s : List ℕ) : Type 0 where
  digit : is_digit c ≡ true
  read : dec_scan (c ∷ s) 0 ≡ dec_scan buff m

dec_scan-cons :
    (m : ℕ) (buff : List ℕ)
    → m < 2 ^ 32
    → dec_scan (dec_char false m ∷ buff) (m / 10) ≡ dec_scan buff m
unfolding dec_scan dec_char
dec_scan-cons m buff h =
    let e : (10 * (m / 10) + (m % 10 + b'0' - b'0')) % 2 ^ 32 ≡ m = omega arith in
    ground (arith, ap (dec_scan buff) e)

dec_char_digit : (m : ℕ) → is_digit (dec_char false m) ≡ true
unfolding dec_char
dec_char_digit m = ground arith

-- A value of two digits leaves room for the second.
dec_fill_room : (room m : ℕ) → m / 10 ≢ 0 → m < 2 ^ suc room → 0 < room
dec_fill_room zero m ne h = absurd (omega arith)
dec_fill_room (suc room) m ne h = omega arith

skip_minus_digit : (c : ℕ) (s : List ℕ) → is_digit c ≡ true → skip_minus (c ∷ s) ≡ (false, c ∷ s)
unfolding skip_minus
skip_minus_digit c s h = ground arith

dec_fill-IsFilled :
    (room m : ℕ) (buff : List ℕ)
    → m < 2 ^ room
    → m < 2 ^ 32
    → 0 < room
    → (c : ℕ) × (s : List ℕ) × (dec_fill room false m buff ≡ some (c ∷ s)) × IsFilled m buff c s
unfolding dec_fill
dec_fill-IsFilled zero m buff fits word h = absurd (omega arith)
dec_fill-IsFilled (suc room) m buff fits word h = elim (Bool-cases (m / 10 == 0)) [
  | inl done ↦
      let e : 0 ≡ m / 10 = ground arith in
      (
        dec_char false m,
        buff,
        rw done refl,
        record {
          digit = dec_char_digit m;
          read = ap (dec_scan (dec_char false m ∷ buff)) e ∙ dec_scan-cons m buff word;
        },
      )
  | inr more ↦
      let (c, s, run, r) =
        dec_fill-IsFilled room (m / 10) (dec_char false m ∷ buff) (omega (arith, pow-suc 2 room))
          (omega arith) (dec_fill_room room m (ground arith) fits) in
      (c, s, rw more run, record { digit = r.digit; read = r.read ∙ dec_scan-cons m buff word })
]

dec_scan-nil : (tmp : ℕ) → dec_scan [] tmp ≡ some tmp
unfolding dec_scan
dec_scan-nil tmp = refl

-- The digits that are written for a number that is not negative are read back by the loop.
pub val_to_dec_str-digits :
    (n : ℕ)
    → n < 2 ^ 32
    → (s : List ℕ) × (val_to_dec_str (pos n) ≡ some s) × (dec_scan s 0 ≡ some n)
unfolding val_to_dec_str
val_to_dec_str-digits n h =
    let (c, s, run, r) = dec_fill-IsFilled 32 n [] (omega arith) (omega arith) (omega arith) in
    (c ∷ s, run, r.read ∙ dec_scan-nil n)

signed32_pos : (n : ℕ) → n < 2 ^ 31 → signed32 n ≡ pos n
signed32_pos n h = ground arith

signed32_neg : (n : ℕ) → n + 1 < 2 ^ 31 → signed32 ((2 ^ 32 - (n + 1)) % 2 ^ 32) ≡ negsuc n
signed32_neg n h = ground arith

read_pos :
    (c n : ℕ) (s : List ℕ)
    → n < 2 ^ 31
    → is_digit c ≡ true
    → dec_scan (c ∷ s) 0 ≡ some n
    → dec_str_to_long (c ∷ s) ≡ some (length (c ∷ s), pos n)
unfolding dec_str_to_long
read_pos c n s h digit read =
    rw (skip_minus_digit c s digit, read) (ap (λ v. some (length (c ∷ s), v)) (signed32_pos n h))

read_neg :
    (n : ℕ) (s : List ℕ)
    → n + 1 < 2 ^ 31
    → dec_scan s 0 ≡ some (n + 1)
    → dec_str_to_long (b'-' ∷ s) ≡ some (length (b'-' ∷ s), negsuc n)
unfolding dec_str_to_long skip_minus
read_neg n s h read = rw read (ap (λ v. some (length (b'-' ∷ s), v)) (signed32_neg n h))

-- Every `long` but the least is written within the buffer and read back, with the number of
-- characters as the returned length.
pub dec_str_to_long-val_to_dec_str :
    (v : ℤ)
    → pos_part v < 2 ^ 31
    → neg_part v < 2 ^ 31
    → (s : List ℕ) × (val_to_dec_str v ≡ some s) × (dec_str_to_long s ≡ some (length s, v))
unfolding val_to_dec_str
dec_str_to_long-val_to_dec_str (pos n) h k =
    let (c, s, run, r) = dec_fill-IsFilled 32 n [] (omega arith) (omega arith) (omega arith) in
    (c ∷ s, run, read_pos c n s h r.digit (r.read ∙ dec_scan-nil n))
dec_str_to_long-val_to_dec_str (negsuc n) h k =
    let (c, s, run, r) =
      dec_fill-IsFilled 32 (n + 1) [] (omega arith) (omega arith) (omega arith) in
    let small : (n + 1 == 2 ^ 31) ≡ false = ground arith in
    (
      b'-' ∷ c ∷ s,
      rw (small, run) refl,
      read_neg n (c ∷ s) (omega arith) (r.read ∙ dec_scan-nil (n + 1)),
    )
