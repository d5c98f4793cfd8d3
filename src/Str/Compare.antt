-- ===== src/Str/Compare.antt =====
-- strcmp, strncmp, strcasecmp and memcmp of lib/std/string.c.
use witos.Base.{
  ℕ, zero, suc, ◌+◌, ◌<◌, ◌≡◌, refl, ◌∙◌, ◌≢◌, ◌↔◌, ◌⊎◌, inl, inr, Bool-cases, not, Option, none,
  some, List, [], ◌∷◌, arith, ◌==◌, if◌then◌else◌, length, take, ℤ, pos, sub_ℕ, IsNegative,
}
use witos.Memory.{Memory, IsStr, Holds}

-- The result of two bytes: `*pstr1 - *pstr2`, as an int.
unfoldable pub strcmp : ℕ → Memory → (pstr1 pstr2 : ℕ) → Option ℤ
strcmp zero m p q = none
strcmp (suc f) m p q =
    let rest = strcmp f m (p + 1) (q + 1) in
    if m p == m q then (if m p == 0 then some (pos 0) else rest) else some (sub_ℕ (m p) (m q))

-- The counter `n` starts at 1 and is compared with `count` only after a byte.
strncmp_loop : ℕ → Memory → (p q n count : ℕ) → Option ℤ
strncmp_loop zero m p q n count = none
strncmp_loop (suc f) m p q n count =
    let rest = strncmp_loop f m (p + 1) (q + 1) (n + 1) count in
    if m p == m q
    then (if m p == 0 then some (pos 0) else if n == count then some (pos 0) else rest)
    else some (sub_ℕ (m p) (m q))

unfoldable pub strncmp : ℕ → Memory → (pstr1 pstr2 count : ℕ) → Option ℤ
unfolding strncmp_loop
strncmp f m p q count = strncmp_loop f m p q 1 count

-- The body is that of `strcmp`: letters are compared with their case.
unfoldable pub strcasecmp : ℕ → Memory → (pstr1 pstr2 : ℕ) → Option ℤ
strcasecmp zero m p q = none
strcasecmp (suc f) m p q =
    let rest = strcasecmp f m (p + 1) (q + 1) in
    if m p == m q then (if m p == 0 then some (pos 0) else rest) else some (sub_ℕ (m p) (m q))

unfoldable pub memcmp : Memory → (dst src count : ℕ) → ℤ
memcmp m d s zero = pos 0
memcmp m d s (suc count) =
    if not (m d == m s) then sub_ℕ (m d) (m s) else memcmp m (d + 1) (s + 1) count

-- The order of texts, independent of the code: the first difference decides, a prefix is smaller.
abbrev pub Before : List ℕ → List ℕ → Type 0
Before s [] = ⊥
Before [] (d ∷ t) = Unit {0}
Before (c ∷ s) (d ∷ t) = (c < d) ⊎ ((c ≡ d) × Before s t)

-- What a comparison should say of two texts: zero exactly for equal ones, negative exactly if the
-- first stands before the second.
pub record Orders (s t : List ℕ) (z : ℤ) : Type 0 where
  pub equal : (z ≡ pos 0) ↔ (s ≡ t)
  pub less : IsNegative z ↔ Before s t

Orders-cons : (c d : ℕ) {s t : List ℕ} {z : ℤ} → c ≡ d → Orders s t z → Orders (c ∷ s) (d ∷ t) z
Orders-cons c d e o = ground arith

Orders-ne : (c d : ℕ) (s t : List ℕ) → c ≢ d → Orders (c ∷ s) (d ∷ t) (sub_ℕ c d)
Orders-ne c d s t ne = ground arith

-- `strcmp` on two terminated texts returns, in at most one round more than the bytes of the
-- first, and orders them.
pub strcmp-Orders :
    (f : ℕ) (m : Memory) (p q : ℕ) (s t : List ℕ)
    → IsStr m p s
    → IsStr m q t
    → length s < f
    → (z : ℤ) × (strcmp f m p q ≡ some z) × Orders s t z
unfolding strcmp
strcmp-Orders zero m p q s t hs ht fuel = absurd (omega arith)
strcmp-Orders (suc f) m p q [] [] hs ht fuel = (pos 0, ground arith, ground arith)
strcmp-Orders (suc f) m p q [] (d ∷ t) hs ht fuel = (sub_ℕ 0 d, ground arith, ground arith)
strcmp-Orders (suc f) m p q (c ∷ s) [] hs ht fuel = (sub_ℕ c 0, ground arith, ground arith)
strcmp-Orders (suc f) m p q (c ∷ s) (d ∷ t) hs ht fuel = elim (Bool-cases (c == d)) [
  | inl same ↦
      let (z, run, o) = strcmp-Orders f m (p + 1) (q + 1) s t hs.2 ht.2 (omega arith) in
      (z, ground arith, Orders-cons c d (ground arith) o)
  | inr differ ↦ (sub_ℕ c d, ground arith, Orders-ne c d s t (ground arith))
]

-- With `k + 1` bytes still to compare.
strncmp_loop-Orders :
    (f : ℕ) (m : Memory) (p q n count k : ℕ) (s t : List ℕ)
    → n + k ≡ count
    → IsStr m p s
    → IsStr m q t
    → length s < f
    → (z : ℤ) × (strncmp_loop f m p q n count ≡ some z) × Orders (take (suc k) s) (take (suc k) t) z
unfolding strncmp_loop
strncmp_loop-Orders zero m p q n count k s t e hs ht fuel = absurd (omega arith)
strncmp_loop-Orders (suc f) m p q n count k [] [] e hs ht fuel = (pos 0, ground arith, ground arith)
strncmp_loop-Orders (suc f) m p q n count k [] (d ∷ t) e hs ht fuel =
    (sub_ℕ 0 d, ground arith, ground arith)
strncmp_loop-Orders (suc f) m p q n count k (c ∷ s) [] e hs ht fuel =
    (sub_ℕ c 0, ground arith, ground arith)
strncmp_loop-Orders (suc f) m p q n count zero (c ∷ s) (d ∷ t) e hs ht fuel =
    elim (Bool-cases (c == d)) [
      | inl same ↦ (pos 0, ground arith, Orders-cons c d (ground arith) (ground arith))
      | inr differ ↦ (sub_ℕ c d, ground arith, Orders-ne c d [] [] (ground arith))
    ]
strncmp_loop-Orders (suc f) m p q n count (suc k) (c ∷ s) (d ∷ t) e hs ht fuel =
    elim (Bool-cases (c == d)) [
      | inl same ↦
          let (z, run, o) =
            strncmp_loop-Orders f m (p + 1) (q + 1) (n + 1) count k s t (omega arith) hs.2 ht.2
              (omega arith) in
          (z, ground arith, Orders-cons c d (ground arith) o)
      | inr differ ↦
          (sub_ℕ c d, ground arith, Orders-ne c d (take (suc k) s) (take (suc k) t) (ground arith))
    ]

-- For a `count` that is not zero, `strncmp` orders the two texts cut to their first `count` bytes.
pub strncmp-Orders :
    (f : ℕ) (m : Memory) (p q count : ℕ) (s t : List ℕ)
    → 0 < count
    → IsStr m p s
    → IsStr m q t
    → length s < f
    → (z : ℤ) × (strncmp f m p q count ≡ some z) × Orders (take count s) (take count t) z
unfolding strncmp
strncmp-Orders f m p q zero s t h hs ht fuel = absurd (omega arith)
strncmp-Orders f m p q (suc k) s t h hs ht fuel =
    strncmp_loop-Orders f m p q 1 (suc k) k s t (omega arith) hs ht fuel

strncmp_loop-strcmp :
    (f : ℕ) (m : Memory) (p q n count : ℕ)
    → count < n
    → strncmp_loop f m p q n count ≡ strcmp f m p q
unfolding strncmp_loop strcmp
strncmp_loop-strcmp zero m p q n count h = refl
strncmp_loop-strcmp (suc f) m p q n count h =
    ground (arith, strncmp_loop-strcmp f m (p + 1) (q + 1) (n + 1) count (omega arith))

-- With a `count` of zero `strncmp` does not compare zero bytes: it compares the whole texts, as
-- `strcmp` does.
pub strncmp-zero : (f : ℕ) (m : Memory) (p q : ℕ) → strncmp f m p q 0 ≡ strcmp f m p q
unfolding strncmp
strncmp-zero f m p q = strncmp_loop-strcmp f m p q 1 0 (omega arith)

-- `strcasecmp` gives the result of `strcmp` on every input: letters of different case differ.
pub strcasecmp-strcmp : (f : ℕ) (m : Memory) (p q : ℕ) → strcasecmp f m p q ≡ strcmp f m p q
unfolding strcasecmp strcmp
strcasecmp-strcmp zero m p q = refl
strcasecmp-strcmp (suc f) m p q = rw (strcasecmp-strcmp f m (p + 1) (q + 1))

-- `memcmp` orders two ranges of the same size, byte by byte, NUL bytes included.
pub memcmp-Orders :
    (m : Memory) (p q : ℕ) (s t : List ℕ)
    → Holds m p s
    → Holds m q t
    → length s ≡ length t
    → Orders s t (memcmp m p q (length s))
unfolding memcmp
memcmp-Orders m p q [] [] hs ht e = ground arith
memcmp-Orders m p q [] (d ∷ t) hs ht e = absurd (omega arith)
memcmp-Orders m p q (c ∷ s) [] hs ht e = absurd (omega arith)
memcmp-Orders m p q (c ∷ s) (d ∷ t) hs ht e = elim (Bool-cases (m p == m q)) [
  | inl same ↦
      rw same (
        Orders-cons c d (ground arith)
          (memcmp-Orders m (p + 1) (q + 1) s t hs.1 ht.1 (omega arith)))
  | inr differ ↦ rw (differ, hs.0, ht.0) (Orders-ne c d s t (ground arith))
]

-- What strncmp compares of a text: its first `count` bytes, but all of it for a `count` of zero.
abbrev pub cut : (count : ℕ) → List ℕ → List ℕ
cut zero s = s
cut (suc count) s = take (suc count) s

-- On two terminated texts of any lengths, with fuel of one round more than the bytes of the first:
-- `strcmp` and `strcasecmp` return and order them, letters of different case being different;
-- `strncmp` returns and orders what is left of them when they are cut to `count` bytes, and the
-- whole of them for a `count` of zero. `memcmp` orders any two ranges of one size, NUL bytes
-- included. A negative result means that the first byte that differs is less, or that only the first text
-- has ended, and zero that both are equal.
pub comparisons-Orders :
    (f : ℕ) (m : Memory) (p q count : ℕ) (s t : List ℕ) (x y : ℕ) (a b : List ℕ)
    → IsStr m p s
    → IsStr m q t
    → length s < f
    → Holds m x a
    → Holds m y b
    → length a ≡ length b
    → ((z : ℤ) × (strcmp f m p q ≡ some z) × (strcasecmp f m p q ≡ some z) × Orders s t z)
      × ((z : ℤ) × (strncmp f m p q count ≡ some z) × Orders (cut count s) (cut count t) z)
      × Orders a b (memcmp m x y (length a))
comparisons-Orders f m p q count s t x y a b hs ht fuel ha hb same =
    let (z, run, o) = strcmp-Orders f m p q s t hs ht fuel in
    (
      (z, run, strcasecmp-strcmp f m p q ∙ run, o),
      strncmp-cut count,
      memcmp-Orders m x y a b ha hb same,
    )
  where
    strncmp-cut : (n : ℕ) → (z : ℤ) × (strncmp f m p q n ≡ some z) × Orders (cut n s) (cut n t) z
    strncmp-cut zero =
        let (z, run, o) = strcmp-Orders f m p q s t hs ht fuel in (z, strncmp-zero f m p q ∙ run, o)
    strncmp-cut (suc n) = strncmp-Orders f m p q (suc n) s t (omega arith) hs ht fuel
