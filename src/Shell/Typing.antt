-- ===== src/Shell/Typing.antt =====
-- Sequences of keys at the line editor of shell/shell.c.
use witos.Base.{
  ℕ, zero, suc, ◌+◌, ◌-◌, ◌≤◌, ◌<◌, ◌≡◌, sym, refl, subst, Bool-cases, List, [], ◌∷◌, ltb, ◌==◌,
  if◌then◌else◌, arith, length, inl, inr,
}
use witos.Memory.{Memory, Holds}
use witos.Shell.Line.{
  Line, insert_one_key, backspace_one_key, print_input, cmd_right_key, cmd_left_key, Key, printable,
  backspace, delete, left, right, home, end_, ctrl_c, handle_key, handle_keys, cleared,
}
use witos.Shell.Editor.{
  Gap, edit, Shows, taken-Shows, skipped-Shows, branches-Shows, insert-Shows, backspace-Shows,
  delete_last-Shows, delete-Shows, rev_onto-length, rev_onto-Holds, rev_onto-HoldsBack, left-Shows,
  right-Shows,
}

-- Each key does to the line what it does to the text that the line shows.
pub handle_key-Shows :
    (key : Key) (l : Line) (b a : List ℕ)
    → Shows l b a
    → Shows (handle_key key l) (edit key b a).before (edit key b a).after
unfolding handle_key edit print_input cmd_left_key cmd_right_key
handle_key-Shows (printable c) l b a h =
    let full : Gap = record { before = b; after = a } in
    let longer : Gap = record { before = c ∷ b; after = a } in
    subst
      (λ (n : ℕ).
        Shows (if ltb n 511 then insert_one_key c l else l)
          (if ltb (length b) 511 then longer else full).before
          (if ltb (length b) 511 then longer else full).after)
      (sym h.0)
      (branches-Shows (ltb (length b) 511) (insert_one_key c l) l longer full
        (insert-Shows l c b a h) h)
handle_key-Shows backspace l [] a h =
    skipped-Shows (ltb 0 l.cur_pos) (backspace_one_key l) l [] a (ground (arith, h.0)) h
handle_key-Shows backspace l (c ∷ b) a h =
    taken-Shows (ltb 0 l.cur_pos) (backspace_one_key l) l b a (ground (arith, h.0))
      (backspace-Shows l c b a h)
handle_key-Shows delete l b [] h = delete_last-Shows l b h
handle_key-Shows delete l b (c ∷ a) h = delete-Shows l c b a h
handle_key-Shows left l [] a h =
    skipped-Shows (ltb 0 l.cur_pos) (record l { cur_pos = l.cur_pos - 1 }) l [] a
      (ground (arith, h.0)) h
handle_key-Shows left l (c ∷ b) a h = left-Shows l c b a h
handle_key-Shows right l b [] (pos, max, front, back) =
    skipped-Shows (ltb l.cur_pos l.cur_max) (record l { cur_pos = l.cur_pos + 1 }) l b []
      (ground arith) (pos, max, front, back)
handle_key-Shows right l b (c ∷ a) h = right-Shows l c b a h
handle_key-Shows home l b a (pos, max, front, back) =
    (refl, omega (arith, rev_onto-length b a), tt, rev_onto-Holds l.buf b a front back)
handle_key-Shows end_ l b a (pos, max, front, back) = (
  omega (arith, rev_onto-length a b),
  omega (arith, rev_onto-length a b),
  rev_onto-HoldsBack l.buf a b front back,
  tt,
)
handle_key-Shows ctrl_c l b a h = (refl, refl, tt, tt)

unfoldable pub edits : List Key → (before after : List ℕ) → Gap
unfolding edit
edits [] b a = record { before = b; after = a }
edits (key ∷ keys) b a = edits keys (edit key b a).before (edit key b a).after

-- Any sequence of keys leaves a line that shows a text showing the text that the same edits make.
pub handle_keys-Shows :
    (keys : List Key) (l : Line) (b a : List ℕ)
    → Shows l b a
    → Shows (handle_keys keys l) (edits keys b a).before (edits keys b a).after
unfolding handle_keys edits
handle_keys-Shows [] l b a h = h
handle_keys-Shows (key ∷ keys) l b a h =
    handle_keys-Shows keys (handle_key key l) (edit key b a).before (edit key b a).after
      (handle_key-Shows key l b a h)

-- A character typed at the start of the line `n` times, with the cursor moved back each time.
abbrev pub typed_at_start : (n c : ℕ) → List Key
typed_at_start zero c = []
typed_at_start (suc n) c = printable c ∷ left ∷ typed_at_start n c

abbrev grown : (n c : ℕ) → List ℕ → List ℕ
grown zero c a = a
grown (suc n) c a = grown n c (c ∷ a)

edits-typed_at_start :
    (n c : ℕ) (a : List ℕ)
    → edits (typed_at_start n c) [] a ≡ (record { before = []; after = grown n c a })
unfolding edits edit
edits-typed_at_start zero c a = refl
edits-typed_at_start (suc n) c a = edits-typed_at_start n c (c ∷ a)

abbrev AllAre : ℕ → List ℕ → Type 0
AllAre c [] = Unit {0}
AllAre c (x ∷ s) = (x ≡ c) × AllAre c s

grown-AllAre : (n c : ℕ) (a : List ℕ) → AllAre c a → AllAre c (grown n c a)
grown-AllAre zero c a h = h
grown-AllAre (suc n) c a h = grown-AllAre n c (c ∷ a) (refl, h)

length-grown : (n c : ℕ) (a : List ℕ) → length (grown n c a) ≡ n + length a
length-grown zero c a = omega arith
length-grown (suc n) c a = omega (arith, length-grown n c (c ∷ a))

Holds-AllAre :
    (m : Memory) (p c i : ℕ) (s : List ℕ)
    → Holds m p s
    → AllAre c s
    → p ≤ i
    → i < p + length s
    → m i ≡ c
Holds-AllAre m p c i [] h all low high = absurd (omega arith)
Holds-AllAre m p c i (x ∷ s) h all low high = elim (Bool-cases (p == i)) [
  | inl e ↦ ground (arith, h.0, all.0)
  | inr e ↦ Holds-AllAre m (p + 1) c i s h.1 all.1 (ground arith) (omega arith)
]

-- The length of the line has no bound: a character typed n times before the text fills the first n
-- bytes from the buffer on, though the buffer has 512.
pub handle_keys_overrun : (n c i : ℕ) → i < n → (handle_keys (typed_at_start n c) cleared).buf i ≡ c
handle_keys_overrun n c i low =
    let line = handle_keys (typed_at_start n c) cleared in
    let shown : Shows line [] (grown n c []) =
      subst (λ (g : Gap). Shows line g.before g.after) (edits-typed_at_start n c [])
        (handle_keys-Shows (typed_at_start n c) cleared [] [] (refl, refl, tt, tt)) in
    Holds-AllAre line.buf 0 c i (grown n c []) shown.3 (grown-AllAre n c [] tt) (omega arith)
      (omega (arith, length-grown n c []))
