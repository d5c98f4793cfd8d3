-- ===== src/Str/Move.antt =====
-- memcpy, memmove and memset of lib/std/string.c.
use witos.Base.{
  ℕ, zero, suc, ◌+◌, ◌-◌, ◌%◌, ◌≤◌, ◌≡◌, ◌⊎◌, inl, inr, Bool-cases, arith, ltb, if◌then◌else◌,
}
use witos.Memory.{Memory, write, inside}

-- while (count > 0) { *d++ = *s++; count--; }
copy_up : ℕ → Memory → (d s : ℕ) → Memory
copy_up zero m d s = m
copy_up (suc count) m d s = copy_up count (write m d (m s)) (d + 1) (s + 1)

-- while (count > 0) { *--d = *--s; count--; }
copy_down : ℕ → Memory → (d s : ℕ) → Memory
copy_down zero m d s = m
copy_down (suc count) m d s = copy_down count (write m (d - 1) (m (s - 1))) (d - 1) (s - 1)

pub memcpy : Memory → (dst src count : ℕ) → Memory
unfolding copy_up
memcpy m dst src count = copy_up count m dst src

pub memmove : Memory → (dst src count : ℕ) → Memory
unfolding copy_up copy_down
memmove m dst src count =
    if ltb dst src then copy_up count m dst src else copy_down count m (dst + count) (src + count)

-- `*s = c` stores the low byte of the int.
fill : ℕ → Memory → ℕ → ℕ → Memory
fill zero m s c = m
fill (suc count) m s c = fill count (write m s (c % 256)) (s + 1) c

unfoldable pub memset : Memory → (src c count : ℕ) → Memory
unfolding fill
memset m src c count = fill count m src c

-- What a copy should leave: the `n` bytes from `src` as they were before, all else unchanged.
abbrev pub moved : Memory → (dst src n : ℕ) → Memory
moved m dst src n a = if inside dst n a then m (src + (a - dst)) else m a

copy_up-moved :
    (n : ℕ) (m : Memory) (d s a : ℕ) → (d ≤ s) ⊎ (s + n ≤ d) → copy_up n m d s a ≡ moved m d s n a
unfolding copy_up
copy_up-moved zero m d s a h = ground arith
copy_up-moved (suc n) m d s a h =
    ground (arith, copy_up-moved n (write m d (m s)) (d + 1) (s + 1) a (ground arith))

copy_down-moved :
    (n : ℕ) (m : Memory) (d s a : ℕ) → s ≤ d → copy_down n m (d + n) (s + n) a ≡ moved m d s n a
unfolding copy_down
copy_down-moved zero m d s a h = ground arith
copy_down-moved (suc n) m d s a h =
    let e : d + suc n - 1 ≡ d + n = omega arith in
    let e' : s + suc n - 1 ≡ s + n = omega arith in
    rw (e, e') (ground (arith, copy_down-moved n (write m (d + n) (m (s + n))) d s a h))

-- `memcpy` copies all bytes, and writes nowhere else, when the destination does not begin inside
-- the source.
pub memcpy-moved :
    (m : Memory) (dst src n a : ℕ)
    → (dst ≤ src) ⊎ (src + n ≤ dst)
    → memcpy m dst src n a ≡ moved m dst src n a
unfolding memcpy
memcpy-moved m dst src n a h = copy_up-moved n m dst src a h

-- `memmove` copies all bytes, and writes nowhere else, however the two ranges overlap.
pub memmove-moved : (m : Memory) (dst src n a : ℕ) → memmove m dst src n a ≡ moved m dst src n a
unfolding memmove
memmove-moved m dst src n a = elim (Bool-cases (ltb dst src)) [
  | inl up ↦ rw up (copy_up-moved n m dst src a (ground arith))
  | inr down ↦ rw down (copy_down-moved n m dst src a (ground arith))
]

fill_lem :
    (n : ℕ) (m : Memory) (s c a : ℕ) → fill n m s c a ≡ (if inside s n a then c % 256 else m a)
unfolding fill
fill_lem zero m s c a = ground arith
fill_lem (suc n) m s c a = ground (arith, fill_lem n (write m s (c % 256)) (s + 1) c a)

-- `memset` stores the low byte of its argument in exactly the bytes of the range.
pub memset_lem :
    (m : Memory) (src c n a : ℕ) → memset m src c n a ≡ (if inside src n a then c % 256 else m a)
unfolding memset
memset_lem m src c n a = fill_lem n m src c a
