-- ===== src/Str/Copy.antt =====
-- strcpy and strncpy of lib/std/string.c.
use witos.Base.{
  ℕ, zero, suc, ◌+◌, ◌-◌, ◌≤◌, ◌<◌, ◌≡◌, ◌⊎◌, Option, none, some, List, [], ◌∷◌, arith, ltb, ◌==◌,
  if◌then◌else◌, length,
}
use witos.Memory.{Memory, write, inside, IsStr, IsStr-frame}
use witos.Str.Move.{moved}

-- while ((*iter = *src) != '\0') { iter++; src++; }
unfoldable pub copy_text : ℕ → Memory → (iter src : ℕ) → Option Memory
copy_text zero m d s = none
copy_text (suc f) m d s =
    let m' = write m d (m s) in
    let rest = copy_text f m' (d + 1) (s + 1) in if m s == 0 then some m' else rest

pub strcpy : ℕ → Memory → (dst src : ℕ) → Option Memory
unfolding copy_text
strcpy f m dst src = copy_text f m dst src

-- while (n < count) { *iter++ = '\0'; n++; }
pad : ℕ → Memory → ℕ → Memory
pad zero m iter = m
pad (suc left) m iter = pad left (write m iter 0) (iter + 1)

-- while (n < count && (*iter = *src)) { iter++; src++; n++; }, then the padding; `left` is
-- `count - n`.
unfoldable pub copy_pad : ℕ → Memory → (iter src : ℕ) → Memory
unfolding pad
copy_pad zero m d s = m
copy_pad (suc left) m d s =
    let m' = write m d (m s) in
    let rest = copy_pad left m' (d + 1) (s + 1) in if m s == 0 then pad (suc left) m' d else rest

pub strncpy : Memory → (dst src count : ℕ) → Memory
unfolding copy_pad
strncpy m dst src count = copy_pad count m dst src

-- The bytes that `strncpy` should leave: the text, NULs behind it up to `count`, nothing else.
abbrev pub padded : Memory → (dst src count len : ℕ) → Memory
padded m dst src count len a =
    if inside dst count a then (if ltb (a - dst) len then m (src + (a - dst)) else 0) else m a

pad_lem : (n : ℕ) (m : Memory) (d a : ℕ) → pad n m d a ≡ (if inside d n a then 0 else m a)
unfolding pad
pad_lem zero m d a = ground arith
pad_lem (suc n) m d a = ground (arith, pad_lem n (write m d 0) (d + 1) a)

pub copy_text-moved :
    (f : ℕ) (m : Memory) (d s : ℕ) (t : List ℕ)
    → IsStr m s t
    → (d ≤ s) ⊎ (s + length t < d)
    → length t < f
    → (m' : Memory) × (copy_text f m d s ≡ some m')
      × ((a : ℕ) → m' a ≡ moved m d s (suc (length t)) a)
unfolding copy_text
copy_text-moved zero m d s t h apart fuel = absurd (omega arith)
copy_text-moved (suc f) m d s [] h apart fuel = (write m d (m s), ground arith, λ a. ground arith)
copy_text-moved (suc f) m d s (c ∷ t) h apart fuel =
    let later : IsStr (write m d (m s)) (s + 1) t =
      IsStr-frame m (write m d (m s)) (s + 1) t (λ a lo hi. ground arith) h.2 in
    let (m', run, out) =
      copy_text-moved f (write m d (m s)) (d + 1) (s + 1) t later (ground arith) (omega arith) in
    (m', ground arith, λ a. ground (arith, out a))

-- `strcpy` of a terminated text that the destination does not begin inside of copies the text with
-- its NUL, and writes nowhere else.
pub strcpy-moved :
    (f : ℕ) (m : Memory) (dst src : ℕ) (t : List ℕ)
    → IsStr m src t
    → (dst ≤ src) ⊎ (src + length t < dst)
    → length t < f
    → (m' : Memory) × (strcpy f m dst src ≡ some m')
      × ((a : ℕ) → m' a ≡ moved m dst src (suc (length t)) a)
unfolding strcpy
strcpy-moved f m dst src t h apart fuel = copy_text-moved f m dst src t h apart fuel

pub copy_pad-padded :
    (n : ℕ) (m : Memory) (d s a : ℕ) (t : List ℕ)
    → IsStr m s t
    → (d + n ≤ s) ⊎ (s + length t < d)
    → copy_pad n m d s a ≡ padded m d s n (length t) a
unfolding copy_pad
copy_pad-padded zero m d s a t h apart = ground arith
copy_pad-padded (suc n) m d s a [] h apart = ground (arith, pad_lem (suc n) (write m d (m s)) d a)
copy_pad-padded (suc n) m d s a (c ∷ t) h apart =
    let later : IsStr (write m d (m s)) (s + 1) t =
      IsStr-frame m (write m d (m s)) (s + 1) t (λ a lo hi. ground arith) h.2 in
    ground (arith, copy_pad-padded n (write m d (m s)) (d + 1) (s + 1) a t later (ground arith))

-- `strncpy` fills exactly `count` bytes: the text as far as it goes, then NULs.
pub strncpy-padded :
    (m : Memory) (dst src count a : ℕ) (t : List ℕ)
    → IsStr m src t
    → (dst + count ≤ src) ⊎ (src + length t < dst)
    → strncpy m dst src count a ≡ padded m dst src count (length t) a
unfolding strncpy
strncpy-padded m dst src count a t h apart = copy_pad-padded count m dst src a t h apart

-- Copies of a terminated text. When the destination does not begin inside of it, `strcpy` returns,
-- with fuel of one round more than its bytes, and copies it with its NUL. When `count` bytes of the
-- destination and the text do not overlap in the wrong order, `strncpy` fills exactly `count` bytes,
-- with the text as far as it goes and then NULs. Neither writes anywhere else.
pub copies-moved :
    (f : ℕ) (m : Memory) (dst src count : ℕ) (t : List ℕ)
    → IsStr m src t
    → (dst ≤ src) ⊎ (src + length t < dst)
    → (dst + count ≤ src) ⊎ (src + length t < dst)
    → length t < f
    → ((m' : Memory) × (strcpy f m dst src ≡ some m')
        × ((a : ℕ) → m' a ≡ moved m dst src (suc (length t)) a))
      × ((a : ℕ) → strncpy m dst src count a ≡ padded m dst src count (length t) a)
copies-moved f m dst src count t h apart far fuel =
    (strcpy-moved f m dst src t h apart fuel, λ a. strncpy-padded m dst src count a t h far)
