-- ===== src/Heap/JoinSuccessor.antt =====
-- The first `if` of `free`, mm/heap/malloc.c: the block is joined with a free successor.
use witos.Base.{
  ℕ, ◌+◌, ◌%◌, ◌^◌, ◌≤◌, ◌<◌, ◌≡◌, refl, inl, inr, true, false, List, [], ◌∷◌, ◌++◌, arith,
  if◌then◌else◌, ap, sym, Bool-cases,
}
use witos.Heap.{
  Words, Heap, is_free, curr_size, get_size, get_successor, region_set_size, list_del,
  join_successor,
}
use witos.Heap.Layout.{
  Block, used_block, free_block, finish, last_tag, Row, finish-append, finish-le, Row-right,
}
use witos.Heap.FreeList.{count, free_addresses, count-free_addresses, count-list_del}
use witos.Heap.Valid.{
  AllSized, Apart, tail, IsHeap, AllSized-split, Apart-split, behind-cons, region_set_size_lem,
  Row-replace, tail-out,
}

-- A free successor is taken into a block of `s` bytes: the size, and the blocks behind it.
abbrev pub joined_size : ℕ → List Block → ℕ
joined_size s [] = s
joined_size s (c ∷ ys) = if c.used then s else s + c.size + 8

abbrev pub joined_behind : List Block → List Block
joined_behind [] = []
joined_behind (c ∷ ys) = if c.used then c ∷ ys else ys

-- A free block of `s` bytes behind `xs` is taken into a last block that is free.
abbrev pub join_front : List Block → ℕ → List Block → List Block
join_front [] s ys = free_block s ∷ ys
join_front (p ∷ []) s ys =
    if p.used then p ∷ free_block s ∷ ys else free_block (p.size + s + 8) ∷ ys
join_front (p ∷ q ∷ xs) s ys = p ∷ join_front (q ∷ xs) s ys

-- The blocks behind `free` of a block of `s` bytes between `xs` and `ys`.
abbrev pub released : List Block → ℕ → List Block → List Block
released xs s ys = join_front xs (joined_size s ys) (joined_behind ys)

module _ (h : Heap) (r s : ℕ) (size : curr_size h.mem r ≡ s + 1) (word : s % 4 ≡ 0) where
  join_successor-used :
      is_free (curr_size h.mem (r + 8 + s)) ≡ false
      → join_successor h r ≡ record h { mem = region_set_size h.mem r s }
  unfolding join_successor
  join_successor-used u =
      let e : get_successor h.mem r ≡ r + 8 + s = ground arith in
      let e' : get_size h.mem r ≡ s = ground arith in rw (e, u, e') refl

  join_successor-free :
      (c : ℕ)
      → curr_size h.mem (r + 8 + s) ≡ c
      → c % 4 ≡ 0
      → s + c + 8 < 2 ^ 32
      → join_successor h r ≡ record {
        mem = region_set_size h.mem r (s + c + 8);
        free_list = list_del (r + 8 + s) h.free_list;
      }
  unfolding join_successor
  join_successor-free c is_c f small =
      let e : get_successor h.mem r ≡ r + 8 + s = ground arith in
      let e' : get_size h.mem r ≡ s = ground arith in
      let free : is_free c ≡ true = ground arith in
      let sum : (s + c + 8) % 2 ^ 32 ≡ s + c + 8 = omega arith in rw (e, is_c, free, e', sum) refl

-- The state between the two steps: the block of `s` bytes has a free tag and is on no list.
pub record Joined (h : Heap) (start : ℕ) (xs : List Block) (s : ℕ) (ys : List Block) : Type 0 where
  pub row : Row h.mem start 1 ((xs ++ free_block s ∷ ys) ++ tail ∷ [])
  pub listed :
      (x : ℕ) → count x h.free_list ≡ count x (free_addresses start (xs ++ used_block s ∷ ys))
  pub word_size : s % 4 ≡ 0
  pub least : 8 ≤ s
  pub before : AllSized xs
  pub behind : AllSized ys
  pub apart_before : Apart true xs
  pub apart_behind : Apart false ys
  pub word : finish start (xs ++ free_block s ∷ ys) + 8 ≤ 2 ^ 32

-- The row after the size of the block at the end of `xs` has been set to `s`, which spans `mid`.
pub set_size-Row :
    (m : Words) (a t s : ℕ) (xs mid ys : List Block) (c : Block)
    → s % 4 ≡ 0
    → finish (finish a xs) mid ≡ finish a xs + 8 + s
    → m (finish a xs) ≡ last_tag t xs
    → Row m a t (xs ++ (mid ++ c ∷ ys))
    → Row (region_set_size m (finish a xs) s) a t (xs ++ (free_block s ∷ c ∷ ys))
set_size-Row m a t s xs mid ys c word span pre row =
    let r = finish a xs in
    let out = λ (x : ℕ). region_set_size_lem m r s x in
    Row-replace m (region_set_size m r s) a t xs mid (free_block s ∷ []) c ys row (sym span)
      (ground (arith, out r), ground (arith, out (r + 4)), tt)
      (rw span (ground (arith, out (r + 8 + s)))) (λ x lt. ground (arith, out x))
      (λ x lt. ground (arith, out x, span))

-- The successor is in use, be it a block or the tail.
Joined-used :
    (h : Heap) (start : ℕ) (xs ys zs : List Block) (b c : Block)
    → IsHeap h start (xs ++ b ∷ ys)
    → b.used ≡ true
    → ys ++ tail ∷ [] ≡ c ∷ zs
    → c.used ≡ true
    → c.size % 4 ≡ 0
    → Apart false ys
    → Joined (join_successor h (finish start xs)) start xs b.size ys
Joined-used h start xs ys zs b c v used e c_used c_word apart =
    let r = finish start xs in
    let s = b.size in
    let (before, (word, least, behind)) = AllSized-split xs (b ∷ ys) v.sized in
    let row = rw (tail-out xs (b ∷ []) ys, e) at v.row in
    let at = Row-right h.mem start 1 xs (b ∷ c ∷ zs) row in
    let size : curr_size h.mem r ≡ s + 1 = ground arith in
    let run = join_successor-used h r s size word (ground arith) in
    rw run (record {
      row =
          rw (tail-out xs (free_block s ∷ []) ys, e)
            (set_size-Row h.mem start 1 s xs (b ∷ []) zs c word refl at.0 row);
      listed = λ x. ground (
        arith,
        v.listed x,
        count-free_addresses x start xs (b ∷ ys),
        count-free_addresses x start xs (used_block s ∷ ys),
      );
      word_size = word;
      least = least;
      before = before;
      behind = behind;
      apart_before = (Apart-split true xs (b ∷ ys) v.apart).0;
      apart_behind = apart;
      word = omega (
        arith,
        v.word,
        finish-append start xs (b ∷ ys),
        finish-append start xs (free_block s ∷ ys),
      );
    })

-- The successor is free.
Joined-free :
    (h : Heap) (start : ℕ) (xs ys : List Block) (b c : Block)
    → IsHeap h start (xs ++ b ∷ c ∷ ys)
    → b.used ≡ true
    → c.used ≡ false
    → Joined (join_successor h (finish start xs)) start xs (b.size + c.size + 8) ys
Joined-free h start xs ys b c v used unused =
    let r = finish start xs in
    let s = b.size in
    let (d, zs, e) = behind-cons ys in
    let (before, (word, least, (c_word, c_least, behind))) =
      AllSized-split xs (b ∷ c ∷ ys) v.sized in
    let row = rw (tail-out xs (b ∷ c ∷ []) ys, e) at v.row in
    let at = Row-right h.mem start 1 xs (b ∷ c ∷ d ∷ zs) row in
    let size : curr_size h.mem r ≡ s + 1 = ground arith in
    let c_size : curr_size h.mem (r + 8 + s) ≡ c.size = ground arith in
    let span : r + 8 + s + 8 + c.size ≡ r + 8 + (s + c.size + 8) = omega arith in
    let bound : s + c.size + 8 < 2 ^ 32 =
      omega (
        arith,
        v.word,
        finish-append start xs (b ∷ c ∷ ys),
        finish-le (r + 8 + s + 8 + c.size) ys,
      ) in
    let run = join_successor-free h r s size word c.size c_size c_word bound in
    let on_list : 0 < count (r + 8 + s) h.free_list =
      ground
        (arith, v.listed (r + 8 + s), count-free_addresses (r + 8 + s) start xs (b ∷ c ∷ ys)) in
    rw run (record {
      row =
          rw (tail-out xs (free_block (s + c.size + 8) ∷ []) ys, e)
            (set_size-Row h.mem start 1 (s + c.size + 8) xs (b ∷ c ∷ []) zs d (omega arith) span
              at.0 row);
      listed = λ x. ground (
        arith,
        v.listed x,
        count-list_del (r + 8 + s) x h.free_list on_list,
        count-free_addresses x start xs (b ∷ c ∷ ys),
        count-free_addresses x start xs (used_block (s + c.size + 8) ∷ ys),
        ap (λ (z : ℕ). count x (free_addresses z ys)) span,
      );
      word_size = omega arith;
      least = omega arith;
      before = before;
      behind = behind;
      apart_before = (Apart-split true xs (b ∷ c ∷ ys) v.apart).0;
      apart_behind = rw unused at (Apart-split true xs (b ∷ c ∷ ys) v.apart).1.1.1;
      word = omega (
        arith,
        v.word,
        finish-append start xs (b ∷ c ∷ ys),
        finish-append start xs (free_block (s + c.size + 8) ∷ ys),
        ap (λ (z : ℕ). finish z ys) span,
      );
    })

Apart-unused :
    (c : Block) (ys : List Block) → c.used ≡ true → Apart true (c ∷ ys) → Apart false (c ∷ ys)
Apart-unused c ys used h = (inr used, h.1)

pub join_successor-Joined :
    (h : Heap) (start : ℕ) (xs ys : List Block) (b : Block)
    → IsHeap h start (xs ++ b ∷ ys)
    → b.used ≡ true
    → Joined
        (join_successor h (finish start xs))
        start
        xs
        (joined_size b.size ys)
        (joined_behind ys)
join_successor-Joined h start xs [] b v used =
    Joined-used h start xs [] [] b tail v used refl refl refl tt
join_successor-Joined h start xs (c ∷ ys) b v used = elim (Bool-cases c.used) [
  | inl c_used ↦
      let (_, (_, _, (word, _, _))) = AllSized-split xs (b ∷ c ∷ ys) v.sized in
      simp c_used (
        Joined-used h start xs (c ∷ ys) (ys ++ tail ∷ []) b c v used refl c_used word
          (inr c_used, (Apart-split true xs (b ∷ c ∷ ys) v.apart).1.1.1))
  | inr unused ↦ simp unused (Joined-free h start xs ys b c v used unused)
]
