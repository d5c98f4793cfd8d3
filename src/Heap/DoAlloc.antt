-- ===== src/Heap/DoAlloc.antt =====
-- What `do_alloc` of mm/heap/malloc.c does to the row of blocks.
use witos.Base.{
  ℕ, ◌+◌, ◌-◌, ◌%◌, ◌≤◌, ◌<◌, ◌≡◌, refl, inl, inr, Bool, true, false, List, [], ◌∷◌, ◌++◌, arith,
  ltb, ◌==◌, if◌then◌else◌, ap, Bool-cases,
}
use witos.Heap.{Words, Heap, curr_size, get_successor, region_set_size, list_del, do_alloc}
use witos.Heap.Layout.{Block, used_block, free_block, finish, Row, finish-append, Row-right}
use witos.Heap.FreeList.{count, free_addresses, count-append, count-free_addresses, count-list_del}
use witos.Heap.Valid.{
  AllSized, Apart, last_used, IsHeap, AllSized-append, AllSized-split, Apart-append, Apart-split,
  behind-cons, region_set_size_lem, bit_or-used, Row-replace, tail-out,
}

-- What becomes of a free block of `size` bytes when `n` are taken: a rest that has room for a region
-- header becomes a free block.
abbrev pub allocated : (n size : ℕ) → List Block
allocated n size =
    if ltb (size - n) 16
    then used_block size ∷ []
    else used_block n ∷ free_block (size - n - 8) ∷ []

-- The region behind one that has just been given the size `n` and marked as used.
successor_used :
    (m : Words) (r n : ℕ) → n % 4 ≡ 0 → get_successor (region_set_size m r (n + 1)) r ≡ r + 8 + n
successor_used m r n h = ground (arith, region_set_size_lem m r (n + 1) (r + 4))

-- The state behind `do_alloc`, for a block of `s` bytes at `r`.
module _ (h : Heap) (r s n : ℕ) (size : curr_size h.mem r ≡ s) (fits : n ≤ s)
    (word : s % 4 ≡ 0) where
  whole-mem :
      s - n < 16
      → (x : ℕ)
      → (do_alloc h n r).mem x
        ≡ (if x == r + 8 + s then s + 1 else if x == r + 4 then s + 1 else h.mem x)
  unfolding do_alloc
  whole-mem small x =
      rw size (ground (arith, bit_or-used s word, region_set_size_lem h.mem r (s + 1) x))

  pub split-mem :
      16 ≤ s - n
      → n % 8 ≡ 0
      → (x : ℕ)
      → (do_alloc h n r).mem x ≡ (
          if x == r + 8 + s
          then s - n - 8
          else if x == r + 8 + n + 4
          then s - n - 8
          else if x == r + 8 + n
          then n + 1
          else if x == r + 4
          then n + 1
          else h.mem x)
  unfolding do_alloc
  split-mem large al x =
      let big : ltb (s - n) 16 ≡ false = ground arith in
      rw (size, big, bit_or-used n (omega arith), successor_used h.mem r n (omega arith))
        (ground (
          arith,
          region_set_size_lem (region_set_size h.mem r (n + 1)) (r + 8 + n) (s - n - 8) x,
          region_set_size_lem h.mem r (n + 1) x,
        ))

  whole-free_list : s - n < 16 → (do_alloc h n r).free_list ≡ list_del r h.free_list
  unfolding do_alloc
  whole-free_list small = let short : ltb (s - n) 16 ≡ true = ground arith in rw (size, short) refl

  split-free_list :
      16 ≤ s - n
      → n % 8 ≡ 0
      → (do_alloc h n r).free_list ≡ list_del r h.free_list ++ (r + 8 + n) ∷ []
  unfolding do_alloc
  split-free_list large al =
      let big : ltb (s - n) 16 ≡ false = ground arith in
      rw (size, big, bit_or-used n (omega arith), successor_used h.mem r n (omega arith)) refl

-- The row behind `do_alloc`, from the block that is taken on.
do_alloc-Row :
    (h : Heap) (a t n : ℕ) (xs ys : List Block) (b c : Block)
    → b.used ≡ false
    → n ≤ b.size
    → b.size % 4 ≡ 0
    → n % 8 ≡ 0
    → Row h.mem a t (xs ++ (b ∷ [] ++ c ∷ ys))
    → Row (do_alloc h n (finish a xs)).mem a t (xs ++ (allocated n b.size ++ c ∷ ys))
do_alloc-Row h a t n xs ys b c unused fits word al row =
    let r = finish a xs in
    let at = Row-right h.mem a t xs (b ∷ c ∷ ys) row in
    let size : curr_size h.mem r ≡ b.size = ground arith in
    elim (Bool-cases (ltb (b.size - n) 16)) [
      | inl small ↦
          let out = λ (x : ℕ). whole-mem h r b.size n size fits word (ground arith) x in
          rw small (
            Row-replace h.mem (do_alloc h n r).mem a t xs (b ∷ []) (used_block b.size ∷ []) c ys row
              refl (ground (arith, out r), ground (arith, out (r + 4)), tt)
              (ground (arith, out (r + 8 + b.size))) (λ x lt. ground (arith, out x))
              (λ x lt. ground (arith, out x)))
      | inr large ↦
          let out = λ (x : ℕ). split-mem h r b.size n size fits word (ground arith) al x in
          rw large (
            Row-replace h.mem (do_alloc h n r).mem a t xs (b ∷ [])
              (used_block n ∷ free_block (b.size - n - 8) ∷ []) c ys row (ground arith)
              (
                ground (arith, out r),
                ground (arith, out (r + 4)),
                (ground (arith, out (r + 8 + n)), ground (arith, out (r + 8 + n + 4)), tt),
              )
              (ground (arith, out (r + 8 + b.size))) (λ x lt. ground (arith, out x))
              (λ x lt. ground (arith, out x)))
    ]

do_alloc-listed :
    (h : Heap) (a n x : ℕ) (xs ys : List Block) (b : Block)
    → b.used ≡ false
    → n ≤ b.size
    → b.size % 4 ≡ 0
    → n % 8 ≡ 0
    → curr_size h.mem (finish a xs) ≡ b.size
    → ((z : ℕ) → count z h.free_list ≡ count z (free_addresses a (xs ++ b ∷ ys)))
    → count x (do_alloc h n (finish a xs)).free_list
      ≡ count x (free_addresses a (xs ++ (allocated n b.size ++ ys)))
do_alloc-listed h a n x xs ys b unused fits word al size listed =
    let r = finish a xs in
    let on_list : 0 < count r h.free_list =
      ground (arith, listed r, count-free_addresses r a xs (b ∷ ys)) in
    elim (Bool-cases (ltb (b.size - n) 16)) [
      | inl small ↦
          rw (small, whole-free_list h r b.size n size fits word (ground arith))
            (ground (
              arith,
              count-list_del r x h.free_list on_list,
              listed x,
              count-free_addresses x a xs (b ∷ ys),
              count-free_addresses x a xs (used_block b.size ∷ ys),
            ))
      | inr large ↦
          let span : r + 8 + n + 8 + (b.size - n - 8) ≡ r + 8 + b.size = ground arith in
          rw (large, split-free_list h r b.size n size fits word (ground arith) al)
            (ground (
              arith,
              count-append x (list_del r h.free_list) ((r + 8 + n) ∷ []),
              count-list_del r x h.free_list on_list,
              listed x,
              ap (λ (z : ℕ). count x (free_addresses z ys)) span,
              count-free_addresses x a xs (b ∷ ys),
              count-free_addresses x a xs (used_block n ∷ free_block (b.size - n - 8) ∷ ys),
            ))
    ]

-- The sizes, the neighbours and the span of what replaces the block.
allocated-AllSized :
    (n s : ℕ) (ys : List Block)
    → 8 ≤ n
    → n ≤ s
    → n % 8 ≡ 0
    → s % 4 ≡ 0
    → AllSized ys
    → AllSized (allocated n s ++ ys)
allocated-AllSized n s ys lo hi al word h = elim (Bool-cases (ltb (s - n) 16)) [
  | inl small ↦ rw small (word, omega arith, h)
  | inr large ↦ rw large (omega arith, lo, (ground arith, ground arith, h))
]

Apart-used : (ys : List Block) → Apart false ys → Apart true ys
Apart-used [] h = tt
Apart-used (y ∷ ys) h = (inl refl, h.1)

allocated-Apart :
    (u : Bool) (n s : ℕ) (ys : List Block) → Apart false ys → Apart u (allocated n s ++ ys)
allocated-Apart u n s ys h = elim (Bool-cases (ltb (s - n) 16)) [
  | inl small ↦ rw small (inr refl, Apart-used ys h)
  | inr large ↦ rw large (inr refl, (inl refl, h))
]

finish-allocated :
    (a n s : ℕ) (ys : List Block) → n ≤ s → finish a (allocated n s ++ ys) ≡ finish (a + 8 + s) ys
finish-allocated a n s ys h = elim (Bool-cases (ltb (s - n) 16)) [
  | inl small ↦ rw small refl
  | inr large ↦
      let span : a + 8 + n + 8 + (s - n - 8) ≡ a + 8 + s = ground arith in rw (large, span) refl
]

pub do_alloc-IsHeap :
    (h : Heap) (start n : ℕ) (xs ys : List Block) (b : Block)
    → IsHeap h start (xs ++ b ∷ ys)
    → b.used ≡ false
    → 8 ≤ n
    → n % 8 ≡ 0
    → n ≤ b.size
    → IsHeap (do_alloc h n (finish start xs)) start (xs ++ (allocated n b.size ++ ys))
do_alloc-IsHeap h start n xs ys b v unused lo al fits =
    let (c, zs, e) = behind-cons ys in
    let row = rw (tail-out xs (b ∷ []) ys, e) at v.row in
    let (before, (word, least, behind)) = AllSized-split xs (b ∷ ys) v.sized in
    let (left, right) = Apart-split true xs (b ∷ ys) v.apart in
    let at = Row-right h.mem start 1 xs (b ∷ c ∷ zs) row in
    record {
      row =
          rw (tail-out xs (allocated n b.size) ys, e)
            (do_alloc-Row h start 1 n xs zs b c unused fits word al row);
      sized =
          AllSized-append xs (allocated n b.size ++ ys) before
            (allocated-AllSized n b.size ys lo fits al word behind);
      apart =
          Apart-append true xs (allocated n b.size ++ ys) left
            (allocated-Apart (last_used true xs) n b.size ys (rw unused at right.1));
      listed = λ x. do_alloc-listed h start n x xs ys b unused fits word al (ground arith) v.listed;
      word = omega (
        arith,
        v.word,
        ap (λ (z : ℕ). z) (finish-append start xs (allocated n b.size ++ ys)),
        finish-allocated (finish start xs) n b.size ys fits,
        finish-append start xs (b ∷ ys),
      );
    }
