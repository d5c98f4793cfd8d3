-- ===== src/Shell/Editor.antt =====
-- The keys of command_read_line in shell/shell.c against a text with a gap at the cursor.
use witos.Base.{
  ℕ, suc, ◌+◌, ◌-◌, ◌≡◌, subst, Bool, true, false, List, [], ◌∷◌, ltb, ◌==◌, if◌then◌else◌, arith,
  length,
}
use witos.Memory.{Memory, write, Holds}
use witos.Shell.Line.{
  Line, shift_up, shift_down, insert_one_key, backspace_one_key, delete_one_key, cmd_right_key,
  cmd_left_key, Key, printable, backspace, delete, left, right, home, end_, ctrl_c,
}
use witos.Shell.Shift.{shift_up_lem, shift_down_lem, Holds-moved, HoldsBack, HoldsBack-same}

-- The text before the cursor, the last character first, and the text from the cursor on.
pub record Gap : Type 0 where
  pub before : List ℕ
  pub after : List ℕ

-- The characters of the first list, put one by one before the second.
unfoldable pub rev_onto : List ℕ → List ℕ → List ℕ
rev_onto [] ys = ys
rev_onto (x ∷ xs) ys = rev_onto xs (x ∷ ys)

-- What a key does to a text.
unfoldable pub edit : Key → (before after : List ℕ) → Gap
edit (printable c) b a =
    if ltb (length b) 511
    then record { before = c ∷ b; after = a }
    else record { before = b; after = a }
edit backspace [] a = record { before = []; after = a }
edit backspace (c ∷ b) a = record { before = b; after = a }
edit delete b [] = record { before = b; after = [] }
edit delete b (c ∷ a) = record { before = b; after = a }
edit left [] a = record { before = []; after = a }
edit left (c ∷ b) a = record { before = b; after = c ∷ a }
edit right b [] = record { before = b; after = [] }
edit right b (c ∷ a) = record { before = c ∷ b; after = a }
edit home b a = record { before = []; after = rev_onto b a }
edit end_ b a = record { before = rev_onto a b; after = [] }
edit ctrl_c b a = record { before = []; after = [] }

-- The buffer and the cursor show the text.
abbrev pub Shows : Line → (before after : List ℕ) → Type 0
Shows l b a =
    (l.cur_pos ≡ length b)
    × (l.cur_max ≡ length b + length a)
    × HoldsBack l.buf b
    × Holds l.buf (length b) a

-- The branch that a test takes.
pub taken-Shows :
    (t : Bool) (x y : Line) (b a : List ℕ) → t ≡ true → Shows x b a → Shows (if t then x else y) b a
taken-Shows true x y b a e h = h
taken-Shows false x y b a e h = absurd (cc)

pub skipped-Shows :
    (t : Bool) (x y : Line) (b a : List ℕ)
    → t ≡ false
    → Shows y b a
    → Shows (if t then x else y) b a
skipped-Shows true x y b a e h = absurd (cc)
skipped-Shows false x y b a e h = h

pub branches-Shows :
    (t : Bool) (x y : Line) (g g' : Gap)
    → Shows x g.before g.after
    → Shows y g'.before g'.after
    → Shows (if t then x else y) (if t then g else g').before (if t then g else g').after
branches-Shows true x y g g' h k = h
branches-Shows false x y g g' h k = k

pub insert-Shows :
    (l : Line) (c : ℕ) (b a : List ℕ) → Shows l b a → Shows (insert_one_key c l) (c ∷ b) a
unfolding insert_one_key
insert-Shows l c b a (pos, max, front, back) =
    let m = shift_up (l.cur_max - l.cur_pos) l.buf l.cur_pos in
    (
      omega arith,
      omega arith,
      (
        ground (arith, pos),
        HoldsBack-same l.buf (write m l.cur_pos c) b
            (λ i low. ground (arith, pos, shift_up_lem (l.cur_max - l.cur_pos) l.buf l.cur_pos i))
            front,
      ),
      Holds-moved l.buf (write m l.cur_pos c) (length b) (suc (length b)) a
          (λ i low.
            let at : suc (length b) + i - 1 ≡ length b + i = omega arith in
            ground (
              arith,
              pos,
              max,
              at,
              shift_up_lem (l.cur_max - l.cur_pos) l.buf l.cur_pos (suc (length b) + i),
            ))
          back,
    )

pub backspace-Shows :
    (l : Line) (c : ℕ) (b a : List ℕ) → Shows l (c ∷ b) a → Shows (backspace_one_key l) b a
unfolding backspace_one_key
backspace-Shows l c b a (pos, max, front, back) =
    let m = shift_down (l.cur_max - l.cur_pos) l.buf (l.cur_pos - 1) in
    (
      omega arith,
      omega arith,
      HoldsBack-same l.buf (write m (l.cur_max - 1) 0) b
          (λ i low.
            ground
              (arith, pos, max, shift_down_lem (l.cur_max - l.cur_pos) l.buf (l.cur_pos - 1) i))
          front.1,
      Holds-moved l.buf (write m (l.cur_max - 1) 0) (suc (length b)) (length b) a
          (λ i low.
            let at : length b + i + 1 ≡ suc (length b) + i = omega arith in
            ground (
              arith,
              pos,
              max,
              at,
              shift_down_lem (l.cur_max - l.cur_pos) l.buf (l.cur_pos - 1) (length b + i),
            ))
          back,
    )

pub delete_last-Shows : (l : Line) (b : List ℕ) → Shows l b [] → Shows (delete_one_key l) b []
unfolding delete_one_key
delete_last-Shows l b (pos, max, front, back) =
    let e : (l.cur_pos == l.cur_max) ≡ true = ground arith in rw e (pos, max, front, back)

pub delete-Shows :
    (l : Line) (c : ℕ) (b a : List ℕ) → Shows l b (c ∷ a) → Shows (delete_one_key l) b a
unfolding delete_one_key
delete-Shows l c b a (pos, max, front, back) =
    let e : (l.cur_pos == l.cur_max) ≡ false = ground arith in
    let m = shift_down (l.cur_max - 1 - l.cur_pos) l.buf l.cur_pos in
    rw e (
      pos,
      omega arith,
      HoldsBack-same l.buf (write m l.cur_max 0) b
          (λ i low.
            ground (arith, pos, max, shift_down_lem (l.cur_max - 1 - l.cur_pos) l.buf l.cur_pos i))
          front,
      Holds-moved l.buf (write m l.cur_max 0) (length b + 1) (length b) a
          (λ i low.
            let at : length b + i + 1 ≡ length b + 1 + i = omega arith in
            ground (
              arith,
              pos,
              max,
              at,
              shift_down_lem (l.cur_max - 1 - l.cur_pos) l.buf l.cur_pos (length b + i),
            ))
          back.1,
    )

pub rev_onto-length : (xs ys : List ℕ) → length (rev_onto xs ys) ≡ length xs + length ys
unfolding rev_onto
rev_onto-length [] ys = omega arith
rev_onto-length (x ∷ xs) ys = omega (arith, rev_onto-length xs (x ∷ ys))

pub rev_onto-Holds :
    (m : Memory) (b a : List ℕ) → HoldsBack m b → Holds m (length b) a → Holds m 0 (rev_onto b a)
unfolding rev_onto
rev_onto-Holds m [] a front back = back
rev_onto-Holds m (c ∷ b) a front back =
    let e : suc (length b) ≡ length b + 1 = omega arith in
    rev_onto-Holds m b (c ∷ a) front.1 (front.0, subst (λ (n : ℕ). Holds m n a) e back)

pub rev_onto-HoldsBack :
    (m : Memory) (a b : List ℕ) → HoldsBack m b → Holds m (length b) a → HoldsBack m (rev_onto a b)
unfolding rev_onto
rev_onto-HoldsBack m [] b front back = front
rev_onto-HoldsBack m (c ∷ a) b front back =
    let e : length b + 1 ≡ suc (length b) = omega arith in
    rev_onto-HoldsBack m a (c ∷ b) (back.0, front) (subst (λ (n : ℕ). Holds m n a) e back.1)

pub left-Shows :
    (l : Line) (c : ℕ) (b a : List ℕ) → Shows l (c ∷ b) a → Shows (cmd_left_key l) b (c ∷ a)
unfolding cmd_left_key
left-Shows l c b a (pos, max, front, back) =
    let at : suc (length b) ≡ length b + 1 = omega arith in
    taken-Shows (ltb 0 l.cur_pos) (record l { cur_pos = l.cur_pos - 1 }) l b (c ∷ a) (ground arith)
      (omega arith, omega arith, front.1, (front.0, subst (λ (n : ℕ). Holds l.buf n a) at back))

pub right-Shows :
    (l : Line) (c : ℕ) (b a : List ℕ) → Shows l b (c ∷ a) → Shows (cmd_right_key l) (c ∷ b) a
unfolding cmd_right_key
right-Shows l c b a (pos, max, front, back) =
    let at : length b + 1 ≡ suc (length b) = omega arith in
    taken-Shows (ltb l.cur_pos l.cur_max) (record l { cur_pos = l.cur_pos + 1 }) l (c ∷ b) a
      (ground arith)
      (omega arith, omega arith, (back.0, front), subst (λ (n : ℕ). Holds l.buf n a) at back.1)
