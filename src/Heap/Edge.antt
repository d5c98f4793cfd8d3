-- ===== src/Heap/Edge.antt =====
-- Requests of no size to malloc of mm/heap/malloc.c.
use witos.Base.{
  ℕ, ◌+◌, ◌-◌, ◌%◌, ◌^◌, ◌≤◌, ◌<◌, ◌≡◌, refl, ◌⊎◌, Option, some, List, ◌∷◌, arith, ap, ◌∙◌,
}
use witos.Heap.{Words, Heap, list_node_align, curr_size, get_successor, first_fit, do_alloc, malloc}
use witos.Heap.DoAlloc.{split-mem}

first_fit_zero : (m : Words) (r : ℕ) (rs : List ℕ) → first_fit m 0 (r ∷ rs) ≡ some r
unfolding first_fit
first_fit_zero m r rs = ground arith

-- `malloc` of zero bytes, and of a size that overflows the alignment, is not refused. It returns a
-- pointer with no payload: what it points to is the header of the next region.
pub malloc_no_payload :
    (h : Heap) (r size : ℕ) (rs : List ℕ)
    → h.free_list ≡ r ∷ rs
    → 16 ≤ curr_size h.mem r
    → curr_size h.mem r % 4 ≡ 0
    → (size ≡ 0) ⊎ (2 ^ 32 - 8 < size)
    → size < 2 ^ 32
    → ((malloc h size).0 ≡ some (r + 8)) × (get_successor (malloc h size).1.mem r ≡ r + 8)
unfolding malloc
malloc_no_payload h r size rs l large word none_or_all small =
    let n : list_node_align size ≡ 0 = omega arith in
    let hit : first_fit h.mem (list_node_align size) h.free_list ≡ some r =
      rw (n, l) (first_fit_zero h.mem r rs) in
    let run : malloc h size ≡ (some (r + 8), do_alloc h 0 r) =
      rw (hit, malloc) (ap (λ k. (some (r + 8), do_alloc h k r)) n) in
    let out =
      split-mem h r (curr_size h.mem r) 0 refl (omega arith) word (omega arith) refl (r + 4) in
    (
      ap (λ (t : Option ℕ × Heap). t.0) run,
      ap (λ (t : Option ℕ × Heap). get_successor t.1.mem r) run ∙ ground (arith, out),
    )
