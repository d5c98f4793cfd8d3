-- ===== src/Str/Length.antt =====
-- strlen and strnlen of lib/std/string.c.
use witos.Base.{
  ℕ, zero, suc, ◌+◌, ◌-◌, ◌<◌, ◌≡◌, Option, none, some, List, [], ◌∷◌, arith, ltb, ◌==◌,
  if◌then◌else◌, ◌>>=◌, length,
}
use witos.Memory.{Memory, IsStr}

-- for (iter = src; *iter; iter++);
unfoldable pub scan_nul : ℕ → Memory → ℕ → Option ℕ
scan_nul zero m iter = none
scan_nul (suc f) m iter =
    let rest = scan_nul f m (iter + 1) in if m iter == 0 then some iter else rest

unfoldable pub strlen : ℕ → Memory → ℕ → Option ℕ
unfolding scan_nul
strlen f m src = do iter ← scan_nul f m src; some (iter - src)

-- for (iter = src; *iter && count; iter++, count--);
scan_nul_bounded : ℕ → Memory → ℕ → ℕ
scan_nul_bounded zero m iter = iter
scan_nul_bounded (suc count) m iter =
    if m iter == 0 then iter else scan_nul_bounded count m (iter + 1)

pub strnlen : Memory → ℕ → ℕ → ℕ
unfolding scan_nul_bounded
strnlen m src count = scan_nul_bounded count m src - src

pub scan_nul-IsStr :
    (f : ℕ) (m : Memory) (p : ℕ) (s : List ℕ)
    → IsStr m p s
    → length s < f
    → scan_nul f m p ≡ some (p + length s)
unfolding scan_nul
scan_nul-IsStr zero m p s h fuel = absurd (omega arith)
scan_nul-IsStr (suc f) m p [] h fuel = ground arith
scan_nul-IsStr (suc f) m p (c ∷ s) h fuel =
    ground (arith, scan_nul-IsStr f m (p + 1) s h.2 (omega arith))

-- On a terminated text, `strlen` returns the number of its bytes as soon as the loop may make one
-- round more than that.
pub strlen-length :
    (f : ℕ) (m : Memory) (p : ℕ) (s : List ℕ)
    → IsStr m p s
    → length s < f
    → strlen f m p ≡ some (length s)
unfolding strlen
strlen-length f m p s h fuel = rw (scan_nul-IsStr f m p s h fuel) (ground arith)

scan_nul_bounded-IsStr :
    (count : ℕ) (m : Memory) (p : ℕ) (s : List ℕ)
    → IsStr m p s
    → scan_nul_bounded count m p ≡ p + (if ltb (length s) count then length s else count)
unfolding scan_nul_bounded
scan_nul_bounded-IsStr zero m p s h = ground arith
scan_nul_bounded-IsStr (suc count) m p [] h = ground arith
scan_nul_bounded-IsStr (suc count) m p (c ∷ s) h =
    ground (arith, scan_nul_bounded-IsStr count m (p + 1) s h.2)

-- On a terminated text, `strnlen` returns the smaller of its length and `count`.
pub strnlen-min :
    (m : Memory) (p count : ℕ) (s : List ℕ)
    → IsStr m p s
    → strnlen m p count ≡ (if ltb (length s) count then length s else count)
unfolding strnlen
strnlen-min m p count s h = omega (arith, scan_nul_bounded-IsStr count m p s h)
