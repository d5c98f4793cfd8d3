-- ===== src/Str/Concat.antt =====
-- strcat and strncat of lib/std/string.c.
use witos.Base.{
  ℕ, suc, ◌+◌, ◌-◌, ◌≤◌, ◌<◌, ◌≡◌, refl, ◌≢◌, ◌⊎◌, Option, some, List, [], ◌∷◌, ◌++◌, arith, ◌>>=◌,
  length,
}
use native.Mathlib.Decide.{ℕ_discrete}
use witos.Memory.{Memory, IsStr}
use witos.Str.Length.{scan_nul, scan_nul-IsStr}
use witos.Str.Copy.{copy_text, copy_pad, copy_text-moved, copy_pad-padded}

unfoldable pub strcat : ℕ → Memory → (dst src : ℕ) → Option Memory
strcat f m dst src = do iter ← scan_nul f m dst; copy_text f m iter src

-- Both loops of `strncat` after the scan are those of `strncpy`.
unfoldable pub strncat : ℕ → Memory → (dst src count : ℕ) → Option Memory
strncat f m dst src count = do iter ← scan_nul f m dst; some (copy_pad count m iter src)

-- The same bytes at another address, or after a write, are the same text.
pub IsStr-copy :
    (m m' : Memory) (p q : ℕ) (s : List ℕ)
    → ((i : ℕ) → i ≤ length s → m' (q + i) ≡ m (p + i))
    → IsStr m p s
    → IsStr m' q s
IsStr-copy m m' p q [] same h = ground (arith, same 0)
IsStr-copy m m' p q (c ∷ s) same h = (
  ground (arith, same 0),
  h.1,
  IsStr-copy m m' (p + 1) (q + 1) s (λ i le. ground (arith, same (suc i))) h.2,
)

-- The same, with the bytes and the NUL given apart.
IsStr-pad :
    (m m' : Memory) (p q : ℕ) (s : List ℕ)
    → ((i : ℕ) → i < length s → m' (q + i) ≡ m (p + i))
    → m' (q + length s) ≡ 0
    → IsStr m p s
    → IsStr m' q s
IsStr-pad m m' p q [] same end h = ground arith
IsStr-pad m m' p q (c ∷ s) same end h = (
  ground (arith, same 0),
  h.1,
  IsStr-pad m m' (p + 1) (q + 1) s (λ i le. ground (arith, same (suc i))) (ground arith) h.2,
)

-- No byte of a text before its NUL is zero.
IsStr-ne-zero :
    (m : Memory) (p a : ℕ) (s : List ℕ) → IsStr m p s → p ≤ a → a < p + length s → m a ≢ 0
IsStr-ne-zero m p a [] h lo hi = absurd (omega arith)
IsStr-ne-zero m p a (c ∷ s) h lo hi = elim (ℕ_discrete a p) [
  | yes e ↦ rw (e, h.0) h.1
  | no ne ↦ IsStr-ne-zero m (p + 1) a s h.2 (omega arith) (omega arith)
]

IsStr-append :
    (m m' : Memory) (p : ℕ) (s t : List ℕ)
    → ((a : ℕ) → p ≤ a → a < p + length s → m' a ≡ m a)
    → IsStr m p s
    → IsStr m' (p + length s) t
    → IsStr m' p (s ++ t)
IsStr-append m m' p [] t same h k = let e : p + 0 ≡ p = omega arith in rw e at k
IsStr-append m m' p (c ∷ s) t same h k =
    let e : p + suc (length s) ≡ p + 1 + length s = omega arith in
    (
      ground (arith, same p),
      h.1,
      IsStr-append m m' (p + 1) s t (λ a lo hi. same a (omega arith) (omega arith)) h.2 (rw e at k),
    )

-- `strcat` appends a terminated text to another that it does not overlap: the joined text stands
-- at the destination, and no byte but those of the appended text and its NUL is written.
pub strcat-append :
    (f : ℕ) (m : Memory) (dst src : ℕ) (s t : List ℕ)
    → IsStr m dst s
    → IsStr m src t
    → (dst + length s ≤ src) ⊎ (src + length t < dst)
    → length s < f
    → length t < f
    → (m' : Memory) × (strcat f m dst src ≡ some m')
      × IsStr m' dst (s ++ t)
      × ((a : ℕ) → (a < dst + length s) ⊎ (dst + length s + length t < a) → m' a ≡ m a)
unfolding strcat
strcat-append f m dst src s t hs ht apart fs ft =
    let d = dst + length s in
    let (m', run, out) = copy_text-moved f m d src t ht (ground arith) ft in
    (
      m',
      rw (scan_nul-IsStr f m dst s hs fs) run,
      IsStr-append m m' dst s t (λ a lo hi. ground (arith, out a)) hs
          (IsStr-copy m m' src d t (λ i le. ground (arith, out (d + i))) ht),
      λ a away. ground (arith, out a),
    )

-- `strncat` with a `count` above the length of the source appends it whole.
pub strncat-append :
    (f : ℕ) (m : Memory) (dst src count : ℕ) (s t : List ℕ)
    → IsStr m dst s
    → IsStr m src t
    → (dst + length s + count ≤ src) ⊎ (src + length t < dst)
    → length s < f
    → length t < count
    → (m' : Memory) × (strncat f m dst src count ≡ some m') × IsStr m' dst (s ++ t)
unfolding strncat
strncat-append f m dst src count s t hs ht apart fs ft =
    let d = dst + length s in
    let m' = copy_pad count m d src in
    let out = λ (a : ℕ). copy_pad-padded count m d src a t ht (ground arith) in
    (
      m',
      rw (scan_nul-IsStr f m dst s hs fs) refl,
      IsStr-append m m' dst s t (λ a lo hi. ground (arith, out a)) hs
          (IsStr-pad m m' src d t (λ i le. ground (arith, out (d + i)))
            (ground (arith, out (d + length t))) ht),
    )

-- `strncat` with a `count` up to the length of the source writes no NUL: no byte before the end of
-- what it wrote is zero, and the byte behind it is what it was.
pub strncat_unterminated :
    (f : ℕ) (m : Memory) (dst src count : ℕ) (s t : List ℕ)
    → IsStr m dst s
    → IsStr m src t
    → (dst + length s + count ≤ src) ⊎ (src + length t < dst)
    → length s < f
    → count ≤ length t
    → (m' : Memory) × (strncat f m dst src count ≡ some m')
      × ((a : ℕ) → dst ≤ a → a < dst + length s + count → m' a ≢ 0)
      × (m' (dst + length s + count) ≡ m (dst + length s + count))
unfolding strncat
strncat_unterminated f m dst src count s t hs ht apart fs ft =
    let d = dst + length s in
    let m' = copy_pad count m d src in
    let out = λ (a : ℕ). copy_pad-padded count m d src a t ht (ground arith) in
    (
      m',
      rw (scan_nul-IsStr f m dst s hs fs) refl,
      λ a lo hi. ground (
        arith,
        out a,
        λ (p : a < dst + length s). IsStr-ne-zero m dst a s hs lo p,
        λ (p : dst + length s ≤ a).
            IsStr-ne-zero m src (src + (a - d)) t ht (omega arith) (omega arith),
      ),
      ground (arith, out (d + count)),
    )
