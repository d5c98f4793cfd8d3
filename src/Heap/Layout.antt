-- ===== src/Heap/Layout.antt =====
-- What the tags in memory stand for: a row of blocks, each with its size and whether it is in use.
use witos.Base.{
  ℕ, ◌+◌, ◌≤◌, ◌<◌, ◌≡◌, refl, Bool, true, false, List, [], ◌∷◌, ◌++◌, arith, if◌then◌else◌, ◌∙◌,
}

pub record Block : Type 0 where
  pub size : ℕ
  pub used : Bool

abbrev pub used_block : ℕ → Block
used_block n = record { size = n; used = true }

abbrev pub free_block : ℕ → Block
free_block n = record { size = n; used = false }

-- `curr_size` of a block, and `pre_size` of the block behind it.
abbrev pub tag : Block → ℕ
tag b = if b.used then b.size + 1 else b.size

-- Where a row that begins at `a` ends.
abbrev pub finish : ℕ → List Block → ℕ
finish a [] = a
finish a (b ∷ bs) = finish (a + 8 + b.size) bs

-- The tag of the last block, `t` if there is none.
abbrev pub last_tag : ℕ → List Block → ℕ
last_tag t [] = t
last_tag t (b ∷ bs) = last_tag (tag b) bs

-- The row `bs` stands in memory from `a` on, behind a block with tag `t`.
abbrev pub Row : (ℕ → ℕ) → (a t : ℕ) → List Block → Type 0
Row m a t [] = Unit {0}
Row m a t (b ∷ bs) = (m a ≡ t) × (m (a + 4) ≡ tag b) × Row m (a + 8 + b.size) (tag b) bs

pub finish-le : (a : ℕ) (bs : List Block) → a ≤ finish a bs
finish-le a [] = omega arith
finish-le a (b ∷ bs) = omega (arith, finish-le (a + 8 + b.size) bs)

pub finish-append : (a : ℕ) (xs ys : List Block) → finish a (xs ++ ys) ≡ finish (finish a xs) ys
finish-append a [] ys = refl
finish-append a (x ∷ xs) ys = finish-append (a + 8 + x.size) xs ys

pub last_tag-append :
    (t : ℕ) (xs ys : List Block) → last_tag t (xs ++ ys) ≡ last_tag (last_tag t xs) ys
last_tag-append t [] ys = refl
last_tag-append t (x ∷ xs) ys = last_tag-append (tag x) xs ys

-- A row depends only on the words of its own blocks.
pub Row-frame :
    (m m' : ℕ → ℕ) (a t : ℕ) (bs : List Block)
    → ((x : ℕ) → a ≤ x → x < finish a bs → m' x ≡ m x)
    → Row m a t bs
    → Row m' a t bs
Row-frame m m' a t [] same h = tt
Row-frame m m' a t (b ∷ bs) same h = (
  same a (omega arith) (omega (arith, finish-le (a + 8 + b.size) bs)) ∙ h.0,
  same (a + 4) (omega arith) (omega (arith, finish-le (a + 8 + b.size) bs)) ∙ h.1,
  Row-frame m m' (a + 8 + b.size) (tag b) bs (λ x lo hi. same x (omega arith) hi) h.2,
)

pub Row-append :
    (m : ℕ → ℕ) (a t : ℕ) (xs ys : List Block)
    → Row m a t xs
    → Row m (finish a xs) (last_tag t xs) ys
    → Row m a t (xs ++ ys)
Row-append m a t [] ys h k = k
Row-append m a t (x ∷ xs) ys h k = (h.0, h.1, Row-append m (a + 8 + x.size) (tag x) xs ys h.2 k)

pub Row-left : (m : ℕ → ℕ) (a t : ℕ) (xs ys : List Block) → Row m a t (xs ++ ys) → Row m a t xs
Row-left m a t [] ys h = tt
Row-left m a t (x ∷ xs) ys h = (h.0, h.1, Row-left m (a + 8 + x.size) (tag x) xs ys h.2)

pub Row-right :
    (m : ℕ → ℕ) (a t : ℕ) (xs ys : List Block)
    → Row m a t (xs ++ ys)
    → Row m (finish a xs) (last_tag t xs) ys
Row-right m a t [] ys h = h
Row-right m a t (x ∷ xs) ys h = Row-right m (a + 8 + x.size) (tag x) xs ys h.2
