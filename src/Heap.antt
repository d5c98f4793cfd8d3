-- ===== src/Heap.antt =====
-- mm/heap/malloc.c: the boundary-tag allocator, with WORD_SIZE 4 as on the 32-bit targets. The memory
-- holds the word at each address; a `struct mem_region` at `r` has `pre_size` at `r`, `curr_size` at
-- `r + 4` and its list node at `r + 8`. The doubly linked free list of include/list.h is the list of
-- the addresses of its regions, in order; it is kept beside the memory, so that a write of a client into
-- a free region, which breaks the list in the program, is not seen here. Interrupts are off in `malloc`
-- and `free`.
pub mod Layout
pub mod FreeList
pub mod Valid
pub mod DoAlloc
pub mod Malloc
pub mod JoinSuccessor
pub mod JoinPredecessor
pub mod Free
pub mod Edge
mod Examples
use Prim.Native.Nat.{bit_or}
use witos.Base.{
  ℕ, ◌+◌, ◌-◌, ◌*◌, ◌/◌, ◌%◌, ◌^◌, Bool, Option, none, some, List, [], ◌∷◌, ◌++◌, ltb, leb, ◌==◌,
  if◌then◌else◌,
}

-- `x & ~(n - 1)` for a power `n` of two.
abbrev pub align_down : ℕ → ℕ → ℕ
align_down n x = x / n * n

-- LIST_NODE_ALIGN; the sum is a `size_t`.
abbrev pub list_node_align : ℕ → ℕ
list_node_align size = align_down 8 ((size + 7) % 2 ^ 32)

-- IS_FREE
abbrev pub is_free : ℕ → Bool
is_free size = size % 4 == 0

abbrev pub Words : Type 0
Words = ℕ → ℕ

abbrev pub store : Words → ℕ → ℕ → Words
store m p v a = if a == p then v else m a

pub record Heap : Type 0 where
  pub mem : Words
  -- g_free_region_list
  pub free_list : List ℕ

abbrev pub pre_size : Words → ℕ → ℕ
pre_size m r = m r

abbrev pub curr_size : Words → ℕ → ℕ
curr_size m r = m (r + 4)

-- GET_SIZE
abbrev pub get_size : Words → ℕ → ℕ
get_size m r = align_down 4 (curr_size m r)

abbrev pub get_successor : Words → ℕ → ℕ
get_successor m r = r + 8 + get_size m r

abbrev pub get_predecessor : Words → ℕ → ℕ
get_predecessor m r = r - align_down 4 (pre_size m r) - 8

unfoldable pub region_set_size : Words → (region size : ℕ) → Words
region_set_size m r size = let m' = store m (r + 4) size in store m' (get_successor m' r) size

-- list_del of the node of region `r`
unfoldable pub list_del : ℕ → List ℕ → List ℕ
list_del r [] = []
list_del r (x ∷ xs) = if x == r then xs else x ∷ list_del r xs

-- The list_for_each loop: the first region that is large enough.
unfoldable pub first_fit : Words → (alloc_size : ℕ) → List ℕ → Option ℕ
first_fit m n [] = none
first_fit m n (r ∷ rs) = if leb n (curr_size m r) then some r else first_fit m n rs

-- The code behind `do_alloc`.
unfoldable pub do_alloc : Heap → (alloc_size curr_region : ℕ) → Heap
do_alloc h n r =
    let free_list = list_del r h.free_list in
    let reset_size = curr_size h.mem r - n in
    if ltb reset_size 16
    then record {
      mem = region_set_size h.mem r (bit_or (curr_size h.mem r) 1);
      free_list = free_list;
    }
    else let m = region_set_size h.mem r (bit_or n 1) in
      let succ = get_successor m r in
      record { mem = region_set_size m succ (reset_size - 8); free_list = free_list ++ succ ∷ [] }

-- The pointer that is returned, `none` for NULL, and the heap.
unfoldable pub malloc : Heap → (size : ℕ) → Option ℕ × Heap
malloc h size = elim (first_fit h.mem (list_node_align size) h.free_list) [
  | none ↦ (none, h)
  | some r ↦ (some (r + 8), do_alloc h (list_node_align size) r)
]

-- The first `if` of `free`: a free successor is taken into the region.
unfoldable pub join_successor : Heap → (curr_region : ℕ) → Heap
join_successor h r =
    let succ = get_successor h.mem r in
    if is_free (curr_size h.mem succ)
    then record {
      mem = region_set_size h.mem r ((get_size h.mem r + curr_size h.mem succ + 8) % 2 ^ 32);
      free_list = list_del succ h.free_list;
    }
    else record h { mem = region_set_size h.mem r (get_size h.mem r) }

-- The second `if`: the region is taken into a free predecessor, or put on the list.
unfoldable pub join_predecessor : Heap → (curr_region : ℕ) → Heap
join_predecessor h r =
    if is_free (pre_size h.mem r)
    then (let prev = get_predecessor h.mem r in
        record h {
          mem =
              region_set_size h.mem prev ((curr_size h.mem prev + curr_size h.mem r + 8) % 2 ^ 32);
        })
    else record h { free_list = h.free_list ++ r ∷ [] }

unfoldable pub free : Heap → (p : ℕ) → Heap
free h p = let r = p - 8 in join_predecessor (join_successor h r) r

-- __heap_init: `none` for -EINVAL. The sums and differences are unsigned long. `first` is put on the
-- empty free list.
unfoldable pub heap_init : Words → (start end : ℕ) → Option Heap
heap_init m start end =
    let first = align_down 4 ((start + 3) % 2 ^ 32) in
    let end' = align_down 4 end in
    let tail = (end' + 2 ^ 32 - 8) % 2 ^ 32 in
    let size = (tail + 2 ^ 33 - first - 8) % 2 ^ 32 in
    if leb end' ((first + 1024) % 2 ^ 32)
    then none
    else some (record {
      mem =
          store (store (store (store m first 1) (first + 4) size) tail size) ((tail + 4) % 2 ^ 32)
            1;
      free_list = first ∷ [];
    })
