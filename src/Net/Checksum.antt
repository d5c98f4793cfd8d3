-- ===== src/Net/Checksum.antt =====
-- net_calc_checksum of driver/net/core/net.c. The buffer is a list of bytes; a 16-bit word of it is
-- read as on the little-endian targets.
use Prim.Native.Nat.{bit_and}
use witos.Base.{
  ℕ, ◌+◌, ◌-◌, ◌*◌, ◌/◌, ◌%◌, ◌^◌, ◌≤◌, ◌<◌, ◌≡◌, ap, ◌∙◌, List, [], ◌∷◌, ◌++◌, arith, length,
  bit_and-mask,
}

-- The loop over the words and the odd byte behind them; `chksum` is a __u32.
sum_words : List ℕ → (chksum : ℕ) → ℕ
sum_words [] chksum = chksum
sum_words (b ∷ []) chksum = (chksum + b) % 2 ^ 32
sum_words (lo ∷ hi ∷ buff) chksum = sum_words buff ((chksum + (lo + 256 * hi)) % 2 ^ 32)

-- (chksum & 0xffff) + (chksum >> 16)
fold_sum : ℕ → ℕ
fold_sum chksum = bit_and chksum 0xffff + chksum / 2 ^ 16

unfoldable pub net_calc_checksum : List ℕ → ℕ
unfolding sum_words fold_sum
net_calc_checksum buff = bit_and (fold_sum (fold_sum (sum_words buff 0))) 0xffff

-- The sum of the words with no bound.
total : List ℕ → ℕ
total [] = 0
total (b ∷ []) = b
total (lo ∷ hi ∷ buff) = lo + 256 * hi + total buff

abbrev pub AllBytes : List ℕ → Type 0
AllBytes [] = Unit {0}
AllBytes (b ∷ s) = (b < 256) × AllBytes s

-- A prefix of whole words.
abbrev pub IsEven : List ℕ → Type 0
IsEven [] = Unit {0}
IsEven (b ∷ []) = ⊥
IsEven (lo ∷ hi ∷ s) = IsEven s

total-bound : (s : List ℕ) → AllBytes s → total s ≤ 65535 * length s
unfolding total
total-bound [] h = omega arith
total-bound (b ∷ []) h = omega arith
total-bound (lo ∷ hi ∷ s) h = omega (arith, total-bound s h.1.1)

sum_words-total :
    (s : List ℕ) (n : ℕ) → AllBytes s → n + 65535 * length s < 2 ^ 32 → sum_words s n ≡ n + total s
unfolding sum_words total
sum_words-total [] n h small = omega arith
sum_words-total (b ∷ []) n h small = omega arith
sum_words-total (lo ∷ hi ∷ s) n h small =
    let e : (n + (lo + 256 * hi)) % 2 ^ 32 ≡ n + (lo + 256 * hi) = omega arith in
    rw e (sum_words-total s (n + (lo + 256 * hi)) h.1.1 (omega arith) ∙ omega arith)

fold_sum_lem : (n : ℕ) → fold_sum n ≡ n % 2 ^ 16 + n / 2 ^ 16
unfolding fold_sum
fold_sum_lem n = omega (arith, bit_and-mask 16 n)

-- A sum below 2 ^ 32 is folded to a value of 16 bits.
folded : ℕ → ℕ
folded n = n % 2 ^ 16 + n / 2 ^ 16

checksum-folded :
    (s : List ℕ)
    → AllBytes s
    → 65535 * length s < 2 ^ 32
    → net_calc_checksum s ≡ folded (folded (total s))
unfolding net_calc_checksum folded
checksum-folded s h small = omega (
  arith,
  total-bound s h,
  sum_words-total s 0 h (omega arith),
  fold_sum_lem (sum_words s 0),
  fold_sum_lem (fold_sum (sum_words s 0)),
  bit_and-mask 16 (fold_sum (fold_sum (sum_words s 0))),
)

total-append : (xs ys : List ℕ) → IsEven xs → total (xs ++ ys) ≡ total xs + total ys
unfolding total
total-append [] ys e = omega arith
total-append (b ∷ []) ys e = absurd e
total-append (lo ∷ hi ∷ xs) ys e = omega (arith, total-append xs ys e)

AllBytes-append : (xs ys : List ℕ) → AllBytes xs → AllBytes ys → AllBytes (xs ++ ys)
AllBytes-append [] ys h k = k
AllBytes-append (x ∷ xs) ys h k = (h.0, AllBytes-append xs ys h.1 k)

-- Adding the complement of a folded sum makes the folded sum all ones.
folded-complement : (n : ℕ) → n < 2 ^ 31 → folded (folded (n + (65535 - folded (folded n)))) ≡ 65535
unfolding folded
folded-complement n h = omega arith

length-field : (xs ys : List ℕ) (a b : ℕ) → length (xs ++ a ∷ b ∷ ys) ≡ length xs + length ys + 2
length-field [] ys a b = omega arith
length-field (x ∷ xs) ys a b = omega (arith, length-field xs ys a b)

AllBytes-field :
    (xs ys : List ℕ) (a b : ℕ)
    → AllBytes xs
    → AllBytes ys
    → a < 256
    → b < 256
    → AllBytes (xs ++ a ∷ b ∷ ys)
AllBytes-field xs ys a b hx hy ha hb = AllBytes-append xs (a ∷ b ∷ ys) hx (ha, (hb, hy))

total-field :
    (xs ys : List ℕ) (a b : ℕ)
    → IsEven xs
    → total (xs ++ a ∷ b ∷ ys) ≡ total xs + total ys + (a + 256 * b)
unfolding total
total-field xs ys a b even = omega (arith, total-append xs (a ∷ b ∷ ys) even)

folded-bound : (n : ℕ) → n < 2 ^ 31 → folded (folded n) < 2 ^ 16
unfolding folded
folded-bound n h = omega arith

field_total : (n d : ℕ) → d < 2 ^ 16 → n + (d % 256 + 256 * (d / 256)) ≡ n + d
field_total n d h = omega arith

-- Fewer than 2 ^ 15 bytes, with a checksum field at an even offset between them: when the field was
-- zero as the sum was taken and then got the complement of the sum, the receiver's sum is 0xffff.
pub checksum_verifies :
    (xs ys : List ℕ)
    → AllBytes xs
    → AllBytes ys
    → IsEven xs
    → length xs + length ys < 2 ^ 15
    → let d = 65535 - net_calc_checksum (xs ++ 0 ∷ 0 ∷ ys) in
      net_calc_checksum (xs ++ d % 256 ∷ d / 256 ∷ ys) ≡ 65535
checksum_verifies xs ys hx hy even small =
    let n = total xs + total ys in
    let bound : n < 2 ^ 31 = omega (arith, total-bound xs hx, total-bound ys hy) in
    let zeroed : net_calc_checksum (xs ++ 0 ∷ 0 ∷ ys) ≡ folded (folded n) =
      checksum-folded (xs ++ 0 ∷ 0 ∷ ys)
        (AllBytes-field xs ys 0 0 hx hy (omega arith) (omega arith))
        (omega (arith, length-field xs ys 0 0))
      ∙ ap (λ (t : ℕ). folded (folded t)) (omega (arith, total-field xs ys 0 0 even)) in
    let d = 65535 - net_calc_checksum (xs ++ 0 ∷ 0 ∷ ys) in
    let same : d ≡ 65535 - folded (folded n) = ap (λ (t : ℕ). 65535 - t) zeroed in
    let filled : net_calc_checksum (xs ++ d % 256 ∷ d / 256 ∷ ys) ≡ folded (folded (n + d)) =
      checksum-folded (xs ++ d % 256 ∷ d / 256 ∷ ys)
        (AllBytes-field xs ys (d % 256) (d / 256) hx hy (omega arith) (omega arith))
        (omega (arith, length-field xs ys (d % 256) (d / 256)))
      ∙ ap (λ (t : ℕ). folded (folded t))
          (omega (arith, total-field xs ys (d % 256) (d / 256) even)) in
    filled ∙ ap (λ (t : ℕ). folded (folded (n + t))) same ∙ folded-complement n bound
