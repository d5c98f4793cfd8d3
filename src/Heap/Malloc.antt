-- ===== src/Heap/Malloc.antt =====
-- What `malloc` does to the row of blocks.
use witos.Base.{
  ℕ, ◌+◌, ◌%◌, ◌^◌, ◌≤◌, ◌<◌, ◌≡◌, refl, ◌⊎◌, inl, inr, true, false, none, some, List, [], ◌∷◌,
  ◌++◌, arith, ap, Option-cases,
}
use witos.Heap.{Words, Heap, list_node_align, curr_size, first_fit, do_alloc, malloc}
use witos.Heap.Layout.{Block, tag, finish, Row, Row-left, Row-right}
use witos.Heap.FreeList.{count, free_addresses, IsAt-count, first_fit_found, first_fit_missing}
use witos.Heap.DoAlloc.{allocated, do_alloc-IsHeap}
use witos.Heap.Valid.{tail, IsHeap, tail-out}

-- The aligned size of a request that fits the word.
list_node_align-bounds :
    (size : ℕ)
    → 0 < size
    → size + 7 < 2 ^ 32
    → (8 ≤ list_node_align size) × (list_node_align size % 8 ≡ 0) × (size ≤ list_node_align size)
list_node_align-bounds size h fits = omega arith

-- What `malloc` promises: the pointer leads to the payload of what was a free block with at least
-- `size` bytes; the block is in use now, at least `size` bytes of it, and no other block has changed.
pub record Allocated (start size : ℕ) (bs : List Block) (p : ℕ) (h' : Heap) : Type 0 where
  pub before : List Block
  pub block : Block
  pub behind : List Block
  pub was : bs ≡ before ++ block ∷ behind
  pub unused : block.used ≡ false
  pub enough : size ≤ list_node_align size
  pub fits : list_node_align size ≤ block.size
  pub pointer : p ≡ finish start before + 8
  pub heap : IsHeap h' start (before ++ (allocated (list_node_align size) block.size ++ behind))

-- No free block of the row has `size` bytes.
abbrev pub NoRoom : ℕ → List Block → Type 0
NoRoom size [] = Unit {0}
NoRoom size (b ∷ bs) = ((b.used ≡ true) ⊎ (b.size < size)) × NoRoom size bs

-- A free block whose tag is below `n` has fewer than `n` bytes.
NoRoom-first_fit :
    (m : Words) (a t n : ℕ) (bs : List Block)
    → Row m a t bs
    → ((r : ℕ) → 0 < count r (free_addresses a bs) → curr_size m r < n)
    → NoRoom n bs
NoRoom-first_fit m a t n [] row small = tt
NoRoom-first_fit m a t n (b ∷ bs) row small = (
  ground (arith, small a),
  NoRoom-first_fit m (a + 8 + b.size) (tag b) n bs row.2 (λ r on. small r (ground arith)),
)

curr_size_at :
    (m : Words) (a t : ℕ) (xs ys : List Block) (b : Block)
    → b.used ≡ false
    → Row m a t ((xs ++ b ∷ ys) ++ tail ∷ [])
    → curr_size m (finish a xs) ≡ b.size
curr_size_at m a t xs ys b unused row =
    let at = Row-right m a t xs (b ∷ (ys ++ tail ∷ [])) (rw (tail-out xs (b ∷ []) ys) at row) in
    ground arith

take_block :
    (h : Heap) (start size r : ℕ) (bs : List Block)
    → IsHeap h start bs
    → 0 < size
    → size + 7 < 2 ^ 32
    → first_fit h.mem (list_node_align size) h.free_list ≡ some r
    → Allocated start size bs (r + 8) (do_alloc h (list_node_align size) r)
take_block h start size r bs v pos word hit =
    let n = list_node_align size in
    let (lo, al, enough) = list_node_align-bounds size pos word in
    let (on, large) = first_fit_found h.mem n h.free_list hit in
    let at = IsAt-count r start bs (omega (arith, v.listed r)) in
    let v' = rw at.row at v in
    let fits : n ≤ at.block.size = omega (
      arith,
      curr_size_at h.mem start 1 at.before at.behind at.block at.unused v'.row,
      ap (λ (z : ℕ). curr_size h.mem z) at.address,
    ) in
    record {
      before = at.before;
      block = at.block;
      behind = at.behind;
      was = at.row;
      unused = at.unused;
      enough = enough;
      fits = fits;
      pointer = omega (arith, at.address);
      heap =
          rw at.address
            (do_alloc-IsHeap h start n at.before at.behind at.block v' at.unused lo al fits);
    }

-- `malloc` of a size above zero that does not overflow the alignment keeps the invariant. It returns
-- a block, or NULL with the heap unchanged; NULL only if no free block holds the aligned size.
pub malloc_lem :
    (h : Heap) (start size : ℕ) (bs : List Block)
    → IsHeap h start bs
    → 0 < size
    → size + 7 < 2 ^ 32
    → ((p : ℕ) × (h' : Heap) × (malloc h size ≡ (some p, h')) × Allocated start size bs p h')
      ⊎ ((malloc h size ≡ (none, h)) × NoRoom (list_node_align size) bs)
unfolding malloc
malloc_lem h start size bs v pos word =
    let n = list_node_align size in
    elim (Option-cases (first_fit h.mem n h.free_list)) [
      | inl miss ↦ inr (
        rw (miss, malloc) refl,
        NoRoom-first_fit h.mem start 1 n bs (Row-left h.mem start 1 bs (tail ∷ []) v.row)
            λ r on. first_fit_missing h.mem n r h.free_list miss (omega (arith, v.listed r)),
      )
      | inr (r, hit) ↦ inl (
        r + 8,
        do_alloc h n r,
        rw (hit, malloc) refl,
        take_block h start size r bs v pos word hit,
      )
    ]
