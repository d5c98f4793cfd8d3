-- ===== src/Heap/FreeList.antt =====
-- The free list against the free blocks of a row: the same addresses, in any order.
use witos.Base.{
  ℕ, ◌+◌, ◌≤◌, ◌<◌, ◌≡◌, refl, false, List, [], ◌∷◌, ◌++◌, arith, if◌then◌else◌, ◌==◌, Bool-cases,
  inl, inr, some, none, leb, ap,
}
use witos.Heap.{Words, curr_size, list_del, first_fit}
use witos.Heap.Layout.{Block, finish}

-- How often an address occurs.
abbrev pub count : ℕ → List ℕ → ℕ
count x [] = 0
count x (y ∷ ys) = (if y == x then 1 else 0) + count x ys

-- The addresses of the free blocks of a row that begins at `a`.
abbrev pub free_addresses : ℕ → List Block → List ℕ
free_addresses a [] = []
free_addresses a (b ∷ bs) =
    if b.used then free_addresses (a + 8 + b.size) bs else a ∷ free_addresses (a + 8 + b.size) bs

pub count-append : (x : ℕ) (ys zs : List ℕ) → count x (ys ++ zs) ≡ count x ys + count x zs
count-append x [] zs = omega arith
count-append x (y ∷ ys) zs = omega (arith, count-append x ys zs)

pub count-free_addresses :
    (x a : ℕ) (xs ys : List Block)
    → count x (free_addresses a (xs ++ ys))
      ≡ count x (free_addresses a xs) + count x (free_addresses (finish a xs) ys)
count-free_addresses x a [] ys = omega arith
count-free_addresses x a (b ∷ bs) ys = ground (arith, count-free_addresses x (a + 8 + b.size) bs ys)

-- The block at a free address, with the blocks before and behind it.
pub record IsAt (r a : ℕ) (bs : List Block) : Type 0 where
  pub before : List Block
  pub block : Block
  pub behind : List Block
  pub row : bs ≡ before ++ block ∷ behind
  pub unused : block.used ≡ false
  pub address : r ≡ finish a before

IsAt-cons : (r a : ℕ) (b : Block) (bs : List Block) → IsAt r (a + 8 + b.size) bs → IsAt r a (b ∷ bs)
IsAt-cons r a b bs at = record {
  before = b ∷ at.before;
  block = at.block;
  behind = at.behind;
  row = ap (λ l. b ∷ l) at.row;
  unused = at.unused;
  address = at.address;
}

pub IsAt-count : (r a : ℕ) (bs : List Block) → 0 < count r (free_addresses a bs) → IsAt r a bs
IsAt-count r a [] h = absurd (omega arith)
IsAt-count r a (b ∷ bs) h = elim (Bool-cases b.used) [
  | inl used ↦ IsAt-cons r a b bs (IsAt-count r (a + 8 + b.size) bs (ground arith))
  | inr unused ↦ elim (Bool-cases (a == r)) [
    | inl here ↦ record {
      before = [];
      block = b;
      behind = bs;
      row = refl;
      unused = unused;
      address = ground arith;
    }
    | inr later ↦ IsAt-cons r a b bs (IsAt-count r (a + 8 + b.size) bs (ground arith))
  ]
]

-- Taking a region off the list takes away one occurrence.
pub count-list_del :
    (r x : ℕ) (l : List ℕ)
    → 0 < count r l
    → count x (list_del r l) + (if r == x then 1 else 0) ≡ count x l
unfolding list_del
count-list_del r x [] h = absurd (omega arith)
count-list_del r x (y ∷ ys) h = elim (Bool-cases (y == r)) [
  | inl here ↦ ground arith
  | inr later ↦ ground (arith, count-list_del r x ys (ground arith))
]

-- The region that the search returns is on the list and large enough.
pub first_fit_found :
    (m : Words) (n : ℕ) (l : List ℕ) {r : ℕ}
    → first_fit m n l ≡ some r
    → (0 < count r l) × (n ≤ curr_size m r)
unfolding first_fit
first_fit_found m n [] h = cc
first_fit_found m n (y ∷ ys) {r} h = elim (Bool-cases (leb n (curr_size m y))) [
  | inl fits ↦ ground arith
  | inr small ↦ ground (arith, first_fit_found m n ys {r = r} (rw small at h))
]

-- When the search returns nothing, every region of the list is too small.
pub first_fit_missing :
    (m : Words) (n r : ℕ) (l : List ℕ) → first_fit m n l ≡ none → 0 < count r l → curr_size m r < n
unfolding first_fit
first_fit_missing m n r [] h k = absurd (omega arith)
first_fit_missing m n r (y ∷ ys) h k = elim (Bool-cases (leb n (curr_size m y))) [
  | inl fits ↦ absurd (ground arith)
  | inr small ↦ elim (Bool-cases (y == r)) [
    | inl here ↦ ground arith
    | inr later ↦ first_fit_missing m n r ys (rw small at h) (ground arith)
  ]
]
