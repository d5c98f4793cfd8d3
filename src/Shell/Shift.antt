-- ===== src/Shell/Shift.antt =====
-- The loops of insert_one_key, backspace_one_key and delete_one_key in shell/shell.c, byte by byte.
use witos.Base.{
  ℕ, zero, suc, ◌+◌, ◌-◌, ◌<◌, ◌≡◌, ◌&&◌, List, [], ◌∷◌, ltb, leb, if◌then◌else◌, arith, length,
  ◌∙◌,
}
use witos.Memory.{Memory, write, Holds}
use witos.Shell.Line.{shift_up, shift_down}

pub shift_up_lem :
    (n : ℕ) (buf : Memory) (lo a : ℕ)
    → shift_up n buf lo a ≡ (if ltb lo a && leb a (lo + n) then buf (a - 1) else buf a)
unfolding shift_up
shift_up_lem zero buf lo a = ground arith
shift_up_lem (suc n) buf lo a =
    ground (arith, shift_up_lem n (write buf (lo + suc n) (buf (lo + n))) lo a)

pub shift_down_lem :
    (n : ℕ) (buf : Memory) (lo a : ℕ)
    → shift_down n buf lo a ≡ (if leb lo a && ltb a (lo + n) then buf (a + 1) else buf a)
unfolding shift_down
shift_down_lem zero buf lo a = ground arith
shift_down_lem (suc n) buf lo a =
    ground (arith, shift_down_lem n (write buf lo (buf (lo + 1))) (lo + 1) a)

-- Bytes that stand elsewhere afterwards.
same_at : (m m' : Memory) (p q : ℕ) → m' (q + 0) ≡ m (p + 0) → m' q ≡ m p
same_at m m' p q h = ground (arith, h)

later :
    (m m' : Memory) (p q i : ℕ)
    → m' (q + (i + 1)) ≡ m (p + (i + 1))
    → m' (q + 1 + i) ≡ m (p + 1 + i)
later m m' p q i h = ground (arith, h)

pub Holds-moved :
    (m m' : Memory) (p q : ℕ) (s : List ℕ)
    → ((i : ℕ) → i < length s → m' (q + i) ≡ m (p + i))
    → Holds m p s
    → Holds m' q s
Holds-moved m m' p q [] same h = h
Holds-moved m m' p q (c ∷ s) same h = (
  same_at m m' p q (same 0 (omega arith)) ∙ h.0,
  Holds-moved m m' (p + 1) (q + 1) s (λ i low. later m m' p q i (same (i + 1) (omega arith))) h.1,
)

-- The bytes of `r`, the last one first, end before address `length r`.
abbrev pub HoldsBack : Memory → List ℕ → Type 0
HoldsBack m [] = Unit {0}
HoldsBack m (c ∷ r) = (m (length r) ≡ c) × HoldsBack m r

pub HoldsBack-same :
    (m m' : Memory) (r : List ℕ)
    → ((i : ℕ) → i < length r → m' i ≡ m i)
    → HoldsBack m r
    → HoldsBack m' r
HoldsBack-same m m' [] same h = tt
HoldsBack-same m m' (c ∷ r) same h =
    (same (length r) (omega arith) ∙ h.0, HoldsBack-same m m' r (λ i low. same i (omega arith)) h.1)
