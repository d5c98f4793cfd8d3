-- ===== src/Heap/Valid.antt =====
-- The invariant of the heap: tags, free list and sizes agree with one row of blocks.
use mathlib.Core.List.{append_assoc}
use witos.Base.{
  ℕ, ◌+◌, ◌-◌, ◌*◌, ◌/◌, ◌%◌, ◌^◌, ◌≤◌, ◌<◌, ◌≡◌, refl, ◌⊎◌, inl, inr, Bool, true, Option, none,
  some, List, [], ◌∷◌, ◌++◌, arith, leb, ltb, ◌==◌, if◌then◌else◌, ◌∙◌, Bool-cases, bit_or-fields,
}
use Prim.Native.Nat.{bit_or}
use witos.Heap.{Words, store, Heap, align_down, region_set_size, heap_init}
use witos.Heap.Layout.{
  Block, used_block, free_block, tag, finish, last_tag, Row, Row-frame, Row-append, Row-left,
  Row-right,
}
use witos.Heap.FreeList.{count, free_addresses}

-- Each block is a multiple of the word and has room for a list node.
abbrev pub AllSized : List Block → Type 0
AllSized [] = Unit {0}
AllSized (b ∷ bs) = (b.size % 4 ≡ 0) × (8 ≤ b.size) × AllSized bs

-- No two neighbours are free; `u` says whether the block in front is in use.
abbrev pub Apart : Bool → List Block → Type 0
Apart u [] = Unit {0}
Apart u (b ∷ bs) = ((u ≡ true) ⊎ (b.used ≡ true)) × Apart b.used bs

abbrev pub last_used : Bool → List Block → Bool
last_used u [] = u
last_used u (b ∷ bs) = last_used b.used bs

-- The tail region: no size, in use.
abbrev pub tail : Block
tail = used_block 0

-- The heap from `start` on holds the blocks `bs`, in the order of their addresses.
pub record IsHeap (h : Heap) (start : ℕ) (bs : List Block) : Type 0 where
  pub row : Row h.mem start 1 (bs ++ tail ∷ [])
  pub sized : AllSized bs
  pub apart : Apart true bs
  pub listed : (x : ℕ) → count x h.free_list ≡ count x (free_addresses start bs)
  pub word : finish start bs + 8 ≤ 2 ^ 32

pub AllSized-append : (xs ys : List Block) → AllSized xs → AllSized ys → AllSized (xs ++ ys)
AllSized-append [] ys h k = k
AllSized-append (x ∷ xs) ys h k = (h.0, h.1, AllSized-append xs ys h.2 k)

pub AllSized-split : (xs ys : List Block) → AllSized (xs ++ ys) → AllSized xs × AllSized ys
AllSized-split [] ys h = (tt, h)
AllSized-split (x ∷ xs) ys h = let (l, r) = AllSized-split xs ys h.2 in ((h.0, h.1, l), r)

pub Apart-append :
    (u : Bool) (xs ys : List Block) → Apart u xs → Apart (last_used u xs) ys → Apart u (xs ++ ys)
Apart-append u [] ys h k = k
Apart-append u (x ∷ xs) ys h k = (h.0, Apart-append x.used xs ys h.1 k)

pub Apart-split :
    (u : Bool) (xs ys : List Block) → Apart u (xs ++ ys) → Apart u xs × Apart (last_used u xs) ys
Apart-split u [] ys h = (tt, h)
Apart-split u (x ∷ xs) ys h = let (l, r) = Apart-split x.used xs ys h.1 in ((h.0, l), r)

-- Every row in front of the tail has a first block.
pub behind-cons : (ys : List Block) → (n : Block) × (zs : List Block) × (ys ++ tail ∷ [] ≡ n ∷ zs)
behind-cons [] = (tail, [], refl)
behind-cons (y ∷ ys) = (y, ys ++ tail ∷ [], refl)

pub tail-out :
    (xs mid ys : List Block) → (xs ++ (mid ++ ys)) ++ tail ∷ [] ≡ xs ++ (mid ++ (ys ++ tail ∷ []))
tail-out xs mid ys = simp append_assoc

-- What `region_set_size` writes: the size, and the same behind the region.
pub region_set_size_lem :
    (m : Words) (r s x : ℕ)
    → region_set_size m r s x
      ≡ (if x == r + 8 + align_down 4 s then s else if x == r + 4 then s else m x)
unfolding region_set_size
region_set_size_lem m r s x = ground arith

pub bit_or-used : (s : ℕ) → s % 4 ≡ 0 → bit_or s 1 ≡ s + 1
bit_or-used s h =
    let e : s ≡ s / 4 * 2 ^ 2 = omega arith in rw e (bit_or-fields 2 (s / 4) 1 (omega arith))

-- A part of the row is replaced by another of the same span, and the tag behind it is renewed.
pub Row-replace :
    (m m' : Words) (a t : ℕ) (xs mid mid' : List Block) (n : Block) (ys : List Block)
    → Row m a t (xs ++ (mid ++ n ∷ ys))
    → finish (finish a xs) mid' ≡ finish (finish a xs) mid
    → Row m' (finish a xs) (last_tag t xs) mid'
    → m' (finish (finish a xs) mid) ≡ last_tag (last_tag t xs) mid'
    → ((x : ℕ) → x < finish a xs → m' x ≡ m x)
    → ((x : ℕ) → finish (finish a xs) mid < x → m' x ≡ m x)
    → Row m' a t (xs ++ (mid' ++ n ∷ ys))
Row-replace m m' a t xs mid mid' n ys h span new end low high =
    let r = finish a xs in
    let rest = Row-right m r (last_tag t xs) mid (n ∷ ys) (Row-right m a t xs (mid ++ n ∷ ys) h) in
    let back : Row m' (finish r mid) (last_tag (last_tag t xs) mid') (n ∷ ys) = (
      end,
      high (finish r mid + 4) (omega arith) ∙ rest.1,
      Row-frame m m' (finish r mid + 8 + n.size) (tag n) ys (λ x lo hi. high x (omega arith))
          rest.2,
    ) in
    Row-append m' a t xs (mid' ++ n ∷ ys)
      (Row-frame m m' a t xs (λ x lo hi. low x hi) (Row-left m a t xs (mid ++ n ∷ ys) h))
      (Row-append m' r (last_tag t xs) mid' (n ∷ ys) new (rw span back))

-- What `__heap_init` makes of a range whose ends are aligned to `first` and `end'`.
abbrev pub Inits : (made : Option Heap) → (first end' : ℕ) → Type 0
Inits made first end' =
    ((made ≡ none) × (end' ≤ first + 1024) × (end' ≤ (first + 1024) % 2 ^ 32))
    ⊎ ((h : Heap) × (n : ℕ) × (made ≡ some h)
        × IsHeap h first (free_block n ∷ [])
        × (first + 8 + n + 8 ≡ end'))
    ⊎ ((h : Heap) × (made ≡ some h)
        × (end' < first + 24)
        × (2 ^ 32 ≤ first + 1024)
        × ((first + 1024) % 2 ^ 32 < end'))

-- `__heap_init` aligns the start up, modulo 2 ^ 32, and the end down. It refuses a range only when it
-- has up to 1024 bytes. Otherwise it makes a heap of one free block, with the tail region behind it, that
-- fills the range, also for a shorter range whose start is less than 1024 bytes below 2 ^ 32; only when the
-- start is that high, and the end lies behind the sum that wraps around but less than 24 bytes behind the
-- start, or before it, it returns 0 without room for the two headers and a list node.
pub heap_init-IsHeap :
    (m : Words) (start end : ℕ)
    → end < 2 ^ 32
    → Inits (heap_init m start end) (align_down 4 ((start + 3) % 2 ^ 32)) (align_down 4 end)
unfolding heap_init
heap_init-IsHeap m start end word =
    let first = align_down 4 ((start + 3) % 2 ^ 32) in
    let end' = align_down 4 end in
    let tail = (end' + 2 ^ 32 - 8) % 2 ^ 32 in
    let size = (tail + 2 ^ 33 - first - 8) % 2 ^ 32 in
    let m' =
      store (store (store (store m first 1) (first + 4) size) tail size) ((tail + 4) % 2 ^ 32) 1 in
    elim (Bool-cases (leb end' ((first + 1024) % 2 ^ 32))) [
      | inl short ↦
          let refused : end' ≤ (first + 1024) % 2 ^ 32 = ground arith in
          inl (rw short refl, omega arith, refused)
      | inr long ↦
          let accepted : (first + 1024) % 2 ^ 32 < end' = ground arith in
          elim (Bool-cases (ltb end' (first + 24))) [
            | inl tight ↦
                let no_room : end' < first + 24 = ground arith in
                inr (
                  inr (
                    record { mem = m'; free_list = first ∷ [] },
                    rw long refl,
                    no_room,
                    omega arith,
                    accepted,
                  ))
            | inr wide ↦
                let room : first + 24 ≤ end' = ground arith in
                let at_end : tail ≡ end' - 8 = omega arith in
                let filled : size ≡ end' - 8 - first - 8 = omega arith in
                let last : (tail + 4) % 2 ^ 32 ≡ end' - 4 = omega arith in
                inr (
                  inl (
                    record { mem = m'; free_list = first ∷ [] },
                    end' - 8 - first - 8,
                    rw long refl,
                    record {
                      row = rw (last, filled, at_end) (ground arith);
                      sized = omega arith;
                      apart = (inl refl, tt);
                      listed = λ x. refl;
                      word = omega arith;
                    },
                    omega arith,
                  ))
          ]
    ]
