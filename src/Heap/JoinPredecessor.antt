-- ===== src/Heap/JoinPredecessor.antt =====
-- The second `if` of `free`, mm/heap/malloc.c: the block is joined with a free predecessor.
use mathlib.Core.List.{append_assoc}
use witos.Base.{
  ℕ, ◌+◌, ◌-◌, ◌%◌, ◌^◌, ◌<◌, ◌≡◌, refl, ◌⊎◌, inl, inr, Bool, true, false, not, List, [], ◌∷◌, ◌++◌,
  arith, ap, ◌∙◌,
}
use witos.Heap.{Heap, align_down, is_free, curr_size, pre_size, region_set_size, join_predecessor}
use witos.Heap.Layout.{
  Block, used_block, free_block, tag, finish, last_tag, finish-append, finish-le, Row-right,
}
use witos.Heap.FreeList.{count, free_addresses, count-append, count-free_addresses}
use witos.Heap.Valid.{
  AllSized, last_used, tail, IsHeap, AllSized-append, AllSized-split, Apart-append, Apart-split,
  behind-cons, tail-out,
}
use witos.Heap.JoinSuccessor.{join_front, Joined, set_size-Row}

-- A row is empty or has a last block.
pub snoc-cases :
    (xs : List Block) → (xs ≡ []) ⊎ ((ws : List Block) × (p : Block) × (xs ≡ ws ++ p ∷ []))
snoc-cases [] = inl refl
snoc-cases (x ∷ xs) = inr (elim (snoc-cases xs) [
  | inl e ↦ ([], x, ap (λ l. x ∷ l) e)
  | inr (ws, p, e) ↦ (x ∷ ws, p, ap (λ l. x ∷ l) e)
])

-- The tag in front of a block tells whether the block before it is free.
is_free-last_tag :
    (t : ℕ) (u : Bool) (xs : List Block)
    → is_free t ≡ not u
    → AllSized xs
    → is_free (last_tag t xs) ≡ not (last_used u xs)
is_free-last_tag t u [] e h = e
is_free-last_tag t u (x ∷ xs) e h = is_free-last_tag (tag x) x.used xs (ground arith) h.2

pub join_front-used :
    (s : ℕ) (xs ys : List Block)
    → last_used true xs ≡ true
    → join_front xs s ys ≡ xs ++ free_block s ∷ ys
join_front-used s [] ys h = refl
join_front-used s (p ∷ []) ys h = simp h
join_front-used s (p ∷ q ∷ xs) ys h = ap (λ l. p ∷ l) (join_front-used s (q ∷ xs) ys h)

pub join_front-free :
    (s : ℕ) (ws ys : List Block) (p : Block)
    → p.used ≡ false
    → join_front (ws ++ p ∷ []) s ys ≡ ws ++ free_block (p.size + s + 8) ∷ ys
join_front-free s [] ys p h = simp h
join_front-free s (w ∷ []) ys p h = simp h
join_front-free s (w ∷ x ∷ ws) ys p h = ap (λ l. w ∷ l) (join_front-free s (x ∷ ws) ys p h)

pub last_used-snoc : (u : Bool) (ws : List Block) (p : Block) → last_used u (ws ++ p ∷ []) ≡ p.used
last_used-snoc u [] p = refl
last_used-snoc u (w ∷ ws) p = last_used-snoc w.used ws p

-- The block before is in use, or there is none: the region goes to the end of the free list.
pub put_on_list :
    (h : Heap) (start s : ℕ) (xs ys : List Block)
    → Joined h start xs s ys
    → last_used true xs ≡ true
    → IsHeap (join_predecessor h (finish start xs)) start (xs ++ free_block s ∷ ys)
unfolding join_predecessor
put_on_list h start s xs ys j used =
    let r = finish start xs in
    let row = rw (tail-out xs (free_block s ∷ []) ys) at j.row in
    let at = Row-right h.mem start 1 xs (free_block s ∷ (ys ++ tail ∷ [])) row in
    let not_free : is_free (pre_size h.mem r) ≡ false =
      ground (arith, at.0, is_free-last_tag 1 true xs refl j.before) in
    rw not_free (record {
      row = j.row;
      sized = AllSized-append xs (free_block s ∷ ys) j.before (j.word_size, j.least, j.behind);
      apart = Apart-append true xs (free_block s ∷ ys) j.apart_before (inl used, j.apart_behind);
      listed = λ x. ground (
        arith,
        j.listed x,
        count-append x h.free_list (r ∷ []),
        count-free_addresses x start xs (free_block s ∷ ys),
        count-free_addresses x start xs (used_block s ∷ ys),
      );
      word = j.word;
    })

join_predecessor_free :
    (h : Heap) (q ps s : ℕ)
    → curr_size h.mem q ≡ ps
    → pre_size h.mem (q + 8 + ps) ≡ ps
    → curr_size h.mem (q + 8 + ps) ≡ s
    → ps % 4 ≡ 0
    → ps + s + 8 < 2 ^ 32
    → join_predecessor h (q + 8 + ps) ≡ record h { mem = region_set_size h.mem q (ps + s + 8) }
unfolding join_predecessor
join_predecessor_free h q ps s at_q pre curr word small =
    let free : is_free ps ≡ true = ground arith in
    let prev : q + 8 + ps - align_down 4 ps - 8 ≡ q = omega arith in
    let sum : (ps + s + 8) % 2 ^ 32 ≡ ps + s + 8 = omega arith in
    rw (pre, free, prev, at_q, curr, sum) refl

two-out :
    (ws ys : List Block) (p b : Block)
    → ((ws ++ p ∷ []) ++ b ∷ ys) ++ tail ∷ [] ≡ ws ++ (p ∷ b ∷ (ys ++ tail ∷ []))
two-out ws ys p b = simp append_assoc

-- The block before is free and takes the region in; it is on the list already.
pub take_in :
    (h : Heap) (start s : ℕ) (ws ys : List Block) (p : Block)
    → Joined h start (ws ++ p ∷ []) s ys
    → p.used ≡ false
    → IsHeap
        (join_predecessor h (finish start (ws ++ p ∷ [])))
        start
        (ws ++ free_block (p.size + s + 8) ∷ ys)
unfolding join_predecessor
take_in h start s ws ys p j unused =
    let q = finish start ws in
    let r : finish start (ws ++ p ∷ []) ≡ q + 8 + p.size = finish-append start ws (p ∷ []) in
    let (d, zs, e) = behind-cons ys in
    let (before, (p_word, p_least, _)) = AllSized-split ws (p ∷ []) j.before in
    let (left, right) = Apart-split true ws (p ∷ []) j.apart_before in
    let row = rw (two-out ws ys p (free_block s), e) at j.row in
    let at = Row-right h.mem start 1 ws (p ∷ free_block s ∷ d ∷ zs) row in
    let n = p.size + s + 8 in
    let span : q + 8 + p.size + 8 + s ≡ q + 8 + n = omega arith in
    let assoc = λ (b : Block). append_assoc ws (p ∷ []) (b ∷ ys) in
    let end : finish start ((ws ++ p ∷ []) ++ free_block s ∷ ys) ≡ finish (q + 8 + n) ys =
      ap (finish start) (assoc (free_block s))
      ∙ finish-append start ws (p ∷ free_block s ∷ ys)
      ∙ ap (λ (z : ℕ). finish z ys) span in
    let run =
      join_predecessor_free h q p.size s (ground arith) (ground arith) at.2.1 p_word
        (omega (arith, j.word, end, finish-le (q + 8 + n) ys)) in
    rw (r, run)
      (record {
        row =
            rw (tail-out ws (free_block n ∷ []) ys, e)
              (set_size-Row h.mem start 1 n ws (p ∷ free_block s ∷ []) zs d
                (omega (arith, j.word_size)) span at.0 row);
        sized =
            AllSized-append ws (free_block n ∷ ys) before
              (omega (arith, j.word_size), omega (arith, j.least), j.behind);
        apart =
            Apart-append true ws (free_block n ∷ ys) left (ground (arith, right.0), j.apart_behind);
        listed = λ x. ground (
          arith,
          j.listed x,
          ap (λ l. count x (free_addresses start l)) (assoc (used_block s)),
          count-free_addresses x start ws (p ∷ used_block s ∷ ys),
          count-free_addresses x start ws (free_block n ∷ ys),
          ap (λ (z : ℕ). count x (free_addresses z ys)) span,
        );
        word = omega (arith, j.word, end, finish-append start ws (free_block n ∷ ys));
      })
