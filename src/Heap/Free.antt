-- ===== src/Heap/Free.antt =====
-- What `free` of mm/heap/malloc.c does to the row of blocks.
use witos.Base.{
  ℕ, ◌+◌, ◌-◌, ◌≡◌, inl, inr, true, false, List, [], ◌∷◌, ◌++◌, arith, ap, ◌∙◌, sym, Bool-cases,
}
use witos.Heap.{Heap, join_successor, free}
use witos.Heap.Layout.{Block, finish}
use witos.Heap.Valid.{last_used, IsHeap}
use witos.Heap.JoinSuccessor.{joined_size, joined_behind, released, join_successor-Joined}
use witos.Heap.JoinPredecessor.{
  snoc-cases, join_front-used, join_front-free, last_used-snoc, put_on_list, take_in,
}

-- `free` of the payload of a block in use keeps the invariant. The block becomes free and is joined
-- with its free neighbours, and no other block changes.
pub free-IsHeap :
    (h : Heap) (start p : ℕ) (xs ys : List Block) (b : Block)
    → IsHeap h start (xs ++ b ∷ ys)
    → b.used ≡ true
    → p ≡ finish start xs + 8
    → IsHeap (free h p) start (released xs b.size ys)
unfolding free
free-IsHeap h start p xs ys b v used at =
    let r : p - 8 ≡ finish start xs = omega arith in
    let s = joined_size b.size ys in
    let zs = joined_behind ys in
    let j = join_successor-Joined h start xs ys b v used in
    elim (Bool-cases (last_used true xs)) [
      | inl front ↦
          rw (r, join_front-used s xs zs front)
            (put_on_list (join_successor h (finish start xs)) start s xs zs j front)
      | inr open_front ↦ elim (snoc-cases xs) [
        | inl e ↦ cc (ap (last_used true) e)
        | inr (ws, q, e) ↦
            let unused : q.used ≡ false =
              sym (last_used-snoc true ws q) ∙ sym (ap (last_used true) e) ∙ open_front in
            rw (r, e, join_front-free s ws zs q unused)
              (take_in (join_successor h (finish start (ws ++ q ∷ []))) start s ws zs q (rw e at j)
                unused)
      ]
    ]
