-- ===== src/Memory.antt =====
-- The byte-addressed memory that the C library routines read and write. An address is a number;
-- a `char` of the ARM targets is unsigned, so a byte is a number below 256.
use witos.Base.{
  ℕ, ◌+◌, ◌≤◌, ◌≡◌, ◌∙◌, ◌≢◌, Bool, ◌&&◌, List, [], ◌∷◌, arith, ltb, leb, ◌==◌, if◌then◌else◌,
  length,
}

abbrev pub Memory : Type 0
Memory = ℕ → ℕ

-- `*p = v`
abbrev pub write : Memory → ℕ → ℕ → Memory
write m p v a = if a == p then v else m a

-- The address lies in `[p, p + n)`.
abbrev pub inside : ℕ → ℕ → ℕ → Bool
inside p n a = leb p a && ltb a (p + n)

-- The bytes `s` stand at `p`.
abbrev pub Holds : Memory → ℕ → List ℕ → Type 0
Holds m p [] = Unit {0}
Holds m p (c ∷ s) = (m p ≡ c) × Holds m (p + 1) s

abbrev pub NoNul : List ℕ → Type 0
NoNul [] = Unit {0}
NoNul (c ∷ s) = (c ≢ 0) × NoNul s

-- A NUL-terminated text `s` stands at `p`.
abbrev pub IsStr : Memory → ℕ → List ℕ → Type 0
IsStr m p [] = m p ≡ 0
IsStr m p (c ∷ s) = (m p ≡ c) × (c ≢ 0) × IsStr m (p + 1) s

-- A text survives whatever is written elsewhere.
pub IsStr-frame :
    (m m' : Memory) (p : ℕ) (s : List ℕ)
    → ((a : ℕ) → p ≤ a → a ≤ p + length s → m' a ≡ m a)
    → IsStr m p s
    → IsStr m' p s
IsStr-frame m m' p [] same h = same p (omega arith) (omega arith) ∙ h
IsStr-frame m m' p (c ∷ s) same h = (
  same p (omega arith) (omega arith) ∙ h.0,
  h.1,
  IsStr-frame m m' (p + 1) s (λ a lo hi. same a (omega arith) (omega arith)) h.2,
)
