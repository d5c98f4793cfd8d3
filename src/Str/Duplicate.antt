-- ===== src/Str/Duplicate.antt =====
-- strdup of lib/std/string.c. malloc is an argument: what it returns for a size, and the memory behind
-- the call.
use witos.Base.{
  ℕ, ◌+◌, ◌<◌, ◌≡◌, refl, ◌≢◌, ◌⊎◌, false, Option, some, List, arith, ◌==◌, if◌then◌else◌, ◌>>=◌,
  length,
}
use witos.Memory.{Memory, IsStr, IsStr-frame}
use witos.Str.Length.{strlen, strlen-length}
use witos.Str.Copy.{strcpy, strcpy-moved}
use witos.Str.Concat.{IsStr-copy}

unfoldable pub strdup :
    ℕ → (malloc : ℕ → Memory → ℕ × Memory) → Memory → (s : ℕ) → Option (ℕ × Memory)
strdup f malloc m s = do
  len ← strlen f m s
  let block = malloc (len + 1) m
  if block.0 == 0 then some block else strcpy f block.1 block.0 s >>= (λ m'. some (block.0, m'))

-- When malloc gives a block apart from a terminated text and leaves the text as it is, strdup returns the
-- block with the text in it, and the first one stays.
pub strdup-IsStr :
    (f : ℕ) (malloc : ℕ → Memory → ℕ × Memory) (m : Memory) (s : ℕ) (t : List ℕ)
    → IsStr m s t
    → length t < f
    → (malloc (length t + 1) m).0 ≢ 0
    → IsStr (malloc (length t + 1) m).1 s t
    → (s + length t < (malloc (length t + 1) m).0) ⊎ ((malloc (length t + 1) m).0 + length t < s)
    → (m' : Memory) × (strdup f malloc m s ≡ some ((malloc (length t + 1) m).0, m'))
      × IsStr m' (malloc (length t + 1) m).0 t
      × IsStr m' s t
unfolding strdup
strdup-IsStr f malloc m s t h fuel given kept apart =
    let d = (malloc (length t + 1) m).0 in
    let m1 = (malloc (length t + 1) m).1 in
    let some_block : (d == 0) ≡ false = ground arith in
    let (m', run, out) = strcpy-moved f m1 d s t kept (ground arith) fuel in
    (
      m',
      rw (strdup, strlen-length f m s t h fuel, ◌>>=◌, some_block, run) refl,
      IsStr-copy m1 m' s d t (λ i le. ground (arith, out (d + i))) kept,
      IsStr-frame m1 m' s t (λ a lo hi. ground (arith, out a)) kept,
    )
