-- ===== src/Heap/Examples.antt =====
-- Runs of the allocator on a heap of 2048 bytes, and the theorems at it.
use witos.Base.{ℕ, ◌≡◌, refl, ◌⊎◌, inl, none, some, List, [], ◌∷◌, arith, ◌==◌, if◌then◌else◌}
use witos.Heap.{
  Words, Heap, get_successor, malloc, free, join_successor, join_predecessor, heap_init,
  region_set_size,
}
use witos.Heap.Layout.{Block, used_block, free_block}
use witos.Heap.Valid.{IsHeap, Inits, heap_init-IsHeap}
use witos.Heap.Malloc.{Allocated, NoRoom, malloc_lem}
use witos.Heap.Free.{free-IsHeap}
use witos.Heap.Edge.{malloc_no_payload}

abbrev blank : Words
blank a = 0

-- One free block of 2032 bytes from address 4096 on.
abbrev fresh : Heap
fresh = record {
  mem = λ a.
      if a == 4100
      then 2032
      else if a == 4096
      then 1
      else if a == 6136
      then 2032
      else if a == 6140
      then 1
      else 0;
  free_list = 4096 ∷ [];
}

fresh-IsHeap : IsHeap fresh 4096 (free_block 2032 ∷ [])
fresh-IsHeap = record {
  row = omega arith;
  sized = omega arith;
  apart = (inl refl, tt);
  listed = λ x. refl;
  word = omega arith;
}

-- Two blocks in use, of 16 and 24 bytes, and a free rest.
abbrev shared : Heap
shared = record {
  mem = λ a.
      if a == 4096
      then 1
      else if a == 4100
      then 17
      else if a == 4120
      then 17
      else if a == 4124
      then 25
      else if a == 4152
      then 25
      else if a == 4156
      then 1976
      else if a == 6136
      then 1976
      else if a == 6140
      then 1
      else 0;
  free_list = 4152 ∷ [];
}

abbrev shared_blocks : List Block
shared_blocks = used_block 16 ∷ used_block 24 ∷ free_block 1976 ∷ []

shared-IsHeap : IsHeap shared 4096 shared_blocks
shared-IsHeap = record {
  row = omega arith;
  sized = omega arith;
  apart = ground arith;
  listed = λ x. refl;
  word = omega arith;
}

heap_init-IsHeap_example : Inits (heap_init blank 4093 6147) 4096 6144
heap_init-IsHeap_example = heap_init-IsHeap blank 4093 6147 (omega arith)

malloc_lem_example :
    ((p : ℕ) × (h' : Heap) × (malloc fresh 13 ≡ (some p, h'))
      × Allocated 4096 13 (free_block 2032 ∷ []) p h')
    ⊎ ((malloc fresh 13 ≡ (none, fresh)) × NoRoom 16 (free_block 2032 ∷ []))
malloc_lem_example =
    malloc_lem fresh 4096 13 (free_block 2032 ∷ []) fresh-IsHeap (omega arith) (omega arith)

free-IsHeap_example : IsHeap (free shared 4128) 4096 (used_block 16 ∷ free_block 2008 ∷ [])
free-IsHeap_example =
    free-IsHeap shared 4096 4128 (used_block 16 ∷ []) (free_block 1976 ∷ []) (used_block 24)
      shared-IsHeap refl refl

malloc_no_payload_example :
    ((malloc fresh 0).0 ≡ some 4104) × (get_successor (malloc fresh 0).1.mem 4096 ≡ 4104)
malloc_no_payload_example =
    malloc_no_payload fresh 4096 0 [] refl (omega arith) refl (inl refl) (omega arith)

-- The block between its neighbours, as it is put back.
free_runs : (free shared 4104).free_list ≡ 4152 ∷ 4096 ∷ []
unfolding free join_successor join_predecessor region_set_size
free_runs = refl
