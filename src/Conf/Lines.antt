-- ===== src/Conf/Lines.antt =====
-- A configuration as the text of its lines, and how core/sysconf.c reads one of them.
use Prim.{Unit}
use witos.Base.{
  ℕ, zero, suc, ◌+◌, ◌-◌, ◌≤◌, ◌<◌, ◌≡◌, refl, ap, true, false, none, some, List, [], ◌∷◌, ◌++◌,
  ◌==◌, ◌>>=◌, get_or, take, drop, length, length-append, Option-cases, inl, inr, arith,
}
use witos.Memory.{NoNul}
use witos.Conf.{
  line_len, newline, c_text, scan_line, read_line, after_equals, skip_spaces, skip_quote,
  end_spaces, end_quote, copied, value_of,
}

abbrev pub text : List (List ℕ) → List ℕ
text [] = []
text (l ∷ ls) = l ++ newline ∷ text ls

abbrev pub NoNewline : List ℕ → Type 0
NoNewline [] = Unit
NoNewline (c ∷ l) = ((c == newline) ≡ false) × NoNewline l

-- Lines of text that fit into the buffer.
abbrev pub AreLines : List (List ℕ) → Type 0
AreLines [] = Unit
AreLines (l ∷ ls) = (NoNewline l × (length l < line_len) × NoNul l) × AreLines ls

pub c_text-NoNul : (l : List ℕ) → NoNul l → c_text l ≡ l
unfolding c_text
c_text-NoNul [] text_ = refl
c_text-NoNul (c ∷ l) text_ =
    let char : (c == 0) ≡ false = ground arith in rw (char, c_text-NoNul l text_.1) refl

scan_line-line :
    (room : ℕ) (l after : List ℕ)
    → NoNewline l
    → length l ≤ room
    → scan_line room (l ++ newline ∷ after) ≡ l
unfolding scan_line
scan_line-line zero [] after single fits = refl
scan_line-line zero (c ∷ l) after single fits = absurd (omega arith)
scan_line-line (suc room) [] after single fits = refl
scan_line-line (suc room) (c ∷ l) after single fits =
    rw single.0 (ap (λ (r : List ℕ). c ∷ r) (scan_line-line room l after single.1 (omega arith)))

drop-append : (p r : List ℕ) → drop (length p) (p ++ r) ≡ r
drop-append [] r = refl
drop-append (c ∷ p) r = drop-append p r

get_or-append : (p r : List ℕ) (c d : ℕ) → get_or (p ++ c ∷ r) (length p) d ≡ c
get_or-append [] r c d = refl
get_or-append (x ∷ p) r c d = get_or-append p r c d

pub read_line-line :
    (behind : ℕ) (before l after cfg : List ℕ)
    → NoNewline l
    → length l < line_len
    → cfg ≡ before ++ (l ++ newline ∷ after)
    → read_line behind cfg (length before) ≡ some (l, length before + (length l + 1))
unfolding read_line
read_line-line behind before l after cfg single fits at =
    let rest = drop-append before (l ++ newline ∷ after) in
    let long : (length (before ++ (l ++ newline ∷ after)) - length before == 0) ≡ false =
      ground
        (arith, length-append before (l ++ newline ∷ after), length-append l (newline ∷ after)) in
    let scanned : scan_line 511 (l ++ newline ∷ after) ≡ l =
      scan_line-line 511 l after single (omega arith) in
    rw (at, long, rest, scanned, get_or-append l after newline behind) refl

pub read_line-end :
    (behind : ℕ) (before cfg : List ℕ)
    → cfg ≡ before ++ []
    → read_line behind cfg (length before) ≡ none
unfolding read_line
read_line-end behind before cfg at =
    let short : (length (before ++ []) - length before == 0) ≡ true =
      ground (arith, length-append before []) in
    rw (at, short) refl

-- What is left of a text is no longer than the text.
after_equals-le : (l v : List ℕ) → after_equals l ≡ some v → length v ≤ length l
unfolding after_equals
after_equals-le [] v h = cc
after_equals-le (c ∷ l) v h = ground (arith, after_equals-le l v)

skip_spaces-le : (s : List ℕ) → length (skip_spaces s) ≤ length s
unfolding skip_spaces
skip_spaces-le [] = omega arith
skip_spaces-le (c ∷ s) = ground (arith, skip_spaces-le s)

skip_quote-le : (s : List ℕ) → length (skip_quote s) ≤ length s
unfolding skip_quote
skip_quote-le [] = omega arith
skip_quote-le (c ∷ s) = ground arith

take-all : (n : ℕ) (s : List ℕ) → length s ≤ n → take n s ≡ s
take-all zero [] le = refl
take-all zero (c ∷ s) le = absurd (omega arith)
take-all (suc n) [] le = refl
take-all (suc n) (c ∷ s) le = ap (λ (r : List ℕ). c ∷ r) (take-all n s (omega arith))

get_or-length : (l : List ℕ) → get_or l (length l) 0 ≡ 0
get_or-length [] = refl
get_or-length (c ∷ l) = get_or-length l

-- Nothing is taken off the end: the loop stops at the NUL.
end_stays : (l : List ℕ) → end_quote l (end_spaces l (length l)) ≡ length l
unfolding end_quote end_spaces
end_stays [] = refl
end_stays (c ∷ l) = rw (end_spaces, get_or-length l, end_quote, get_or-length l) refl

pub value_of-line :
    (l : List ℕ) → value_of l ≡ (after_equals l >>= (λ v. some (skip_quote (skip_spaces v))))
unfolding value_of copied
value_of-line l = elim (Option-cases (after_equals l)) [
  | inl e ↦ rw e refl
  | inr (v, e) ↦
      let start = skip_quote (skip_spaces v) in
      let short : length start ≤ length l =
        omega (arith, after_equals-le l v e, skip_spaces-le v, skip_quote-le (skip_spaces v)) in
      let whole : take (suc (length l) - (length l - length start)) start ≡ start =
        take-all _ start (omega arith) in
      rw (e, end_stays l, whole) refl
]
