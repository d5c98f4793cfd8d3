-- ===== src/Base/Bits.antt =====
-- The bit operations of C on the native numbers: a mask of low bits is a remainder, and `|` of
-- fields that share no bit is a sum.
use Prim.Native.Nat.{
  ℕ, zero, suc, ◌+◌, ◌-◌, ◌*◌, ◌/◌, ◌%◌, ◌^◌, ◌≤◌, ◌<◌, min, max, bit_and, bit_or, digits,
  bit_and-bitwise, bit_or-bitwise,
}
use mathlib.Core.Path.{◌≡◌, refl, ap}
use native.Mathlib.Nat.{pow-suc, one-le-pow}
use native.Mathlib.Omega.{arith}

-- One more round than needed changes no digit; `fuel` bounds the recursion.
rounds_agree :
    (end : ℕ → ℕ) (op : ℕ → ℕ → ℕ) (k x y extra : ℕ)
    → x ≤ k
    → digits end op (k + extra) x y ≡ digits end op k x y
rounds_agree end op zero zero y zero h = refl
rounds_agree end op zero zero y (suc extra) h =
    let e : 0 + suc extra ≡ suc extra = omega arith in rw e refl
rounds_agree end op zero (suc x) y extra h = absurd (omega arith)
rounds_agree end op (suc k) zero y extra h =
    let e : suc k + extra ≡ suc (k + extra) = omega arith in rw e refl
rounds_agree end op (suc k) (suc x) y extra h =
    let e : suc k + extra ≡ suc (k + extra) = omega arith in
    rw e (
      ap (λ (t : ℕ). t * 2 + op (suc x % 2) (y % 2))
        (rounds_agree end op k (suc x / 2) (y / 2) extra (omega arith)))

-- The digits of `x`, with as many rounds as `x` itself asks for.
rounds_enough :
    (end : ℕ → ℕ) (op : ℕ → ℕ → ℕ) (k x y : ℕ) → x ≤ k → digits end op k x y ≡ digits end op x x y
rounds_enough end op k x y h =
    let e : k ≡ x + (k - x) = omega arith in rw e (rounds_agree end op x x y (k - x) (omega arith))

pub bit_and_halves : (x y : ℕ) → bit_and x y ≡ bit_and (x / 2) (y / 2) * 2 + min (x % 2) (y % 2)
bit_and_halves zero y = omega (arith, bit_and-bitwise 0 y, bit_and-bitwise 0 (y / 2))
bit_and_halves (suc x) y = omega (
  arith,
  bit_and-bitwise (suc x) y,
  bit_and-bitwise (suc x / 2) (y / 2),
  rounds_enough (λ b. zero) min x (suc x / 2) (y / 2) (omega arith),
)

pub bit_or_halves : (x y : ℕ) → bit_or x y ≡ bit_or (x / 2) (y / 2) * 2 + max (x % 2) (y % 2)
bit_or_halves zero y = omega (arith, bit_or-bitwise 0 y, bit_or-bitwise 0 (y / 2))
bit_or_halves (suc x) y = omega (
  arith,
  bit_or-bitwise (suc x) y,
  bit_or-bitwise (suc x / 2) (y / 2),
  rounds_enough (λ b. b) max x (suc x / 2) (y / 2) (omega arith),
)

bit_and-zero_below : (bound x : ℕ) → x ≤ bound → bit_and x 0 ≡ 0
bit_and-zero_below bound zero h = refl
bit_and-zero_below zero (suc x) h = absurd (omega arith)
bit_and-zero_below (suc bound) (suc x) h =
    omega (arith, bit_and_halves (suc x) 0, bit_and-zero_below bound (suc x / 2) (omega arith))

bit_or-zero_below : (bound x : ℕ) → x ≤ bound → bit_or x 0 ≡ x
bit_or-zero_below bound zero h = refl
bit_or-zero_below zero (suc x) h = absurd (omega arith)
bit_or-zero_below (suc bound) (suc x) h =
    omega (arith, bit_or_halves (suc x) 0, bit_or-zero_below bound (suc x / 2) (omega arith))

-- A field moved up by one more bit.
field_up : (q k : ℕ) → q * 2 ^ suc k ≡ q * 2 ^ k * 2
field_up q k = omega (arith, ap (λ (t : ℕ). q * t) (pow-suc 2 k))

bit_and-low : (k q r : ℕ) → r < 2 ^ k → bit_and (q * 2 ^ k + r) (2 ^ k - 1) ≡ r
bit_and-low zero q r h =
    let e : q * 2 ^ 0 + r ≡ q = omega arith in
    rw e (omega (arith, bit_and-zero_below q q (omega arith)))
bit_and-low (suc k) q r h = ground (
  arith,
  pow-suc 2 k,
  one-le-pow k 2,
  field_up q k,
  bit_and_halves (q * 2 ^ suc k + r) (2 ^ suc k - 1),
  bit_and-low k q (r / 2) (omega (arith, pow-suc 2 k)),
)

-- `x & (2^k - 1)` is `x % 2^k`.
pub bit_and-mask : (k x : ℕ) → bit_and x (2 ^ k - 1) ≡ x % 2 ^ k
bit_and-mask k x = ground (arith, one-le-pow k 2, bit_and-low k (x / 2 ^ k) (x % 2 ^ k))

-- `(q << k) | r` is a sum when `r` has at most `k` bits.
pub bit_or-fields : (k q r : ℕ) → r < 2 ^ k → bit_or (q * 2 ^ k) r ≡ q * 2 ^ k + r
bit_or-fields zero q r h =
    let e : r ≡ 0 = omega arith in
    let e' : q * 2 ^ 0 ≡ q = omega arith in
    rw (e, e') (omega (arith, bit_or-zero_below q q (omega arith)))
bit_or-fields (suc k) q r h = ground (
  arith,
  field_up q k,
  bit_or_halves (q * 2 ^ suc k) r,
  bit_or-fields k q (r / 2) (omega (arith, pow-suc 2 k)),
)
