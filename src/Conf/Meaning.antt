-- ===== src/Conf/Meaning.antt =====
-- conf_get_attr of core/sysconf.c against what a configuration says, without the code's own tests.
use mathlib.Core.Option.{none-ne-some}
use witos.Base.{
  ℕ, suc, ◌<◌, ◌≡◌, ◌≢◌, refl, sym, ap, subst, ◌∙◌, ◌⊎◌, inl, inr, true, Bool-cases, Option,
  Option-cases, none, some, List, [], ◌∷◌, ◌++◌, ◌==◌, get_or, replicate, length, ℤ, arith,
}
use witos.Conf.{
  after_attr, starts_attr, is_attr_string, after_equals, skip_spaces, skip_quote, enodata,
  conf_get_attr,
}
use witos.Conf.Lines.{text, AreLines}
use witos.Conf.Found.{written, value, expected, conf_get_attr_lem}

-- The name of an attribute stands somewhere in a line, with ' ' or '=' behind it.
pub record Names (attr l : List ℕ) : Type 0 where
  pub before : List ℕ
  pub mark : ℕ
  pub after : List ℕ
  pub there : l ≡ before ++ (attr ++ mark ∷ after)
  pub marked : (mark ≡ b' ') ⊎ (mark ≡ b'=')
  pub named : 0 < length attr

abbrev pub NoEquals : List ℕ → Type 0
NoEquals [] = Unit {0}
NoEquals (c ∷ l) = (c ≢ b'=') × NoEquals l

-- What the line of an attribute says: the text behind its first '=', the spaces there and one quote behind
-- them. Without a '=' the code reads behind NULL.
pub data Says (l : List ℕ) : Option (ℤ × Option (List ℕ)) → Type 0 where
  plain :
      (key v : List ℕ) (spaces : ℕ)
      → l ≡ key ++ b'=' ∷ (replicate spaces b' ' ++ v)
      → NoEquals key
      → get_or v 0 0 ≢ b' '
      → get_or v 0 0 ≢ b'"'
      → Says l (some (written v))
  quoted :
      (key v : List ℕ) (spaces : ℕ)
      → l ≡ key ++ b'=' ∷ (replicate spaces b' ' ++ b'"' ∷ v)
      → NoEquals key
      → Says l (some (written v))
  wild : NoEquals l → Says l none

-- The answer to a search: what the first line with the name says.
pub data Answers (attr : List ℕ) : List (List ℕ) → Option (ℤ × Option (List ℕ)) → Type 0 where
  missing : Answers attr [] (some (enodata, none))
  found :
      {l : List ℕ} {ls : List (List ℕ)} {r : Option (ℤ × Option (List ℕ))}
      → Names attr l
      → Says l r
      → Answers attr (l ∷ ls) r
  passed :
      {l : List ℕ} {ls : List (List ℕ)} {r : Option (ℤ × Option (List ℕ))}
      → ¬ Names attr l
      → Answers attr ls r
      → Answers attr (l ∷ ls) r

after_attr-some : (attr p r : List ℕ) → after_attr attr p ≡ some r → p ≡ attr ++ r
unfolding after_attr
after_attr-some [] p r h = cc
after_attr-some (a ∷ attr) [] r h = absurd (none-ne-some r h)
after_attr-some (a ∷ attr) (c ∷ p) r h = elim (Bool-cases (a == c)) [
  | inl e ↦ let same : c ≡ a = ground arith in rw (same, after_attr-some attr p r (rw e at h)) refl
  | inr e ↦ absurd (none-ne-some r (rw e at h))
]

after_attr-append : (attr r : List ℕ) → after_attr attr (attr ++ r) ≡ some r
unfolding after_attr
after_attr-append [] r = refl
after_attr-append (a ∷ attr) r =
    let itself : (a == a) ≡ true = ground arith in rw itself (after_attr-append attr r)

-- The line begins with the name.
starts_attr-Names : (attr p : List ℕ) → starts_attr attr p ≡ true → Names attr p
unfolding starts_attr
starts_attr-Names [] p h = absurd (ground arith)
starts_attr-Names (a ∷ attr) p h = elim (Option-cases (after_attr (a ∷ attr) p)) [
  | inl e ↦ let no_start = rw (starts_attr, e) at h in absurd (ground arith)
  | inr ([], e) ↦ let no_mark = rw (starts_attr, e) at h in absurd (ground arith)
  | inr (mark ∷ after, e) ↦
      let is_mark = rw (starts_attr, e) at h in
      record {
        before = [];
        mark = mark;
        after = after;
        there = after_attr-some (a ∷ attr) p (mark ∷ after) e;
        marked = ground arith;
        named = omega arith;
      }
]

starts_attr-true :
    (attr : List ℕ) (mark : ℕ) (after : List ℕ)
    → (mark ≡ b' ') ⊎ (mark ≡ b'=')
    → 0 < length attr
    → starts_attr attr (attr ++ mark ∷ after) ≡ true
unfolding starts_attr
starts_attr-true [] mark after marked named = absurd (omega arith)
starts_attr-true (a ∷ attr) mark after marked named =
    rw (starts_attr, after_attr-append (a ∷ attr) (mark ∷ after)) (ground arith)

is_attr_string-Names : (attr l : List ℕ) → is_attr_string attr l ≡ true → Names attr l
unfolding is_attr_string
is_attr_string-Names attr [] h = absurd (ground arith)
is_attr_string-Names attr (c ∷ l) h = elim (Bool-cases (starts_attr attr (c ∷ l))) [
  | inl e ↦ starts_attr-Names attr (c ∷ l) e
  | inr e ↦
      let later = is_attr_string-Names attr l (rw e at h) in
      record {
        before = c ∷ later.before;
        mark = later.mark;
        after = later.after;
        there = ap (λ (t : List ℕ). c ∷ t) later.there;
        marked = later.marked;
        named = later.named;
      }
]

is_attr_string-true :
    (attr before : List ℕ) (mark : ℕ) (after : List ℕ)
    → (mark ≡ b' ') ⊎ (mark ≡ b'=')
    → 0 < length attr
    → is_attr_string attr (before ++ (attr ++ mark ∷ after)) ≡ true
unfolding is_attr_string
is_attr_string-true [] [] mark after marked named = absurd (omega arith)
is_attr_string-true (a ∷ attr) [] mark after marked named =
    rw (is_attr_string, starts_attr-true (a ∷ attr) mark after marked named) refl
is_attr_string-true attr (c ∷ before) mark after marked named =
    let later = is_attr_string-true attr before mark after marked named in ground arith

-- A line splits at its first '='.
after_equals-none : (l : List ℕ) → after_equals l ≡ none → NoEquals l
unfolding after_equals
after_equals-none [] h = tt
after_equals-none (c ∷ l) h = elim (Bool-cases (c == b'=')) [
  | inl e ↦ absurd (none-ne-some l (sym (rw e at h)))
  | inr e ↦ (ground arith, after_equals-none l (rw e at h))
]

after_equals-some :
    (l v : List ℕ) → after_equals l ≡ some v → (key : List ℕ) × (l ≡ key ++ b'=' ∷ v) × NoEquals key
unfolding after_equals
after_equals-some [] v h = absurd (none-ne-some v h)
after_equals-some (c ∷ l) v h = elim (Bool-cases (c == b'=')) [
  | inl e ↦
      let same : c ≡ b'=' = ground arith in
      let whole : some l ≡ some v = rw e at h in
      let rest : l ≡ v = cc in ([], rw (same, rest) refl, tt)
  | inr e ↦
      let (key, split, free) = after_equals-some l v (rw e at h) in
      (c ∷ key, ap (λ (t : List ℕ). c ∷ t) split, (ground arith, free))
]

skip_spaces-split :
    (s : List ℕ)
    → (spaces : ℕ) × (s ≡ replicate spaces b' ' ++ skip_spaces s)
      × (get_or (skip_spaces s) 0 0 ≢ b' ')
unfolding skip_spaces
skip_spaces-split [] = (0, refl, omega arith)
skip_spaces-split (c ∷ s) = elim (Bool-cases (c == b' ')) [
  | inl e ↦
      let (spaces, split, free) = skip_spaces-split s in
      let same : c ≡ b' ' = ground arith in
      (suc spaces, rw (same, skip_spaces) (ap (λ (t : List ℕ). b' ' ∷ t) split), rw e free)
  | inr e ↦ (0, rw (skip_spaces, e) refl, rw (skip_spaces, e) (ground arith))
]

value-Says : (l : List ℕ) → Says l (value l)
unfolding skip_quote
value-Says l = elim (Option-cases (after_equals l)) [
  | inl e ↦ rw e (wild (after_equals-none l e))
  | inr (v, e) ↦
      let (key, split, free) = after_equals-some l v e in
      let (spaces, there, no_space) = skip_spaces-split v in
      rw e (
        without_quote key spaces (skip_spaces v)
          (split ∙ ap (λ (t : List ℕ). key ++ b'=' ∷ t) there) free no_space)
]
  where
    without_quote :
        (key : List ℕ) (spaces : ℕ) (s : List ℕ)
        → l ≡ key ++ b'=' ∷ (replicate spaces b' ' ++ s)
        → NoEquals key
        → get_or s 0 0 ≢ b' '
        → Says l (some (written (skip_quote s)))
    without_quote key spaces [] at free no_space =
        plain key [] spaces at free no_space (omega arith)
    without_quote key spaces (c ∷ s) at free no_space = elim (Bool-cases (c == b'"')) [
      | inl e ↦
          let same : c ≡ b'"' = ground arith in rw e (quoted key s spaces (rw same at at) free)
      | inr e ↦ rw e (plain key (c ∷ s) spaces at free no_space (ground arith))
    ]

expected-Answers : (attr : List ℕ) (ls : List (List ℕ)) → Answers attr ls (expected attr ls)
expected-Answers attr [] = missing
expected-Answers attr (l ∷ ls) = elim (Bool-cases (is_attr_string attr l)) [
  | inl e ↦ rw e (found (is_attr_string-Names attr l e) (value-Says l))
  | inr e ↦ rw e (
      passed
        (λ n.
          let is_there = is_attr_string-true attr n.before n.mark n.after n.marked n.named in
          let refused = rw n.there at e in absurd (ground arith))
        (expected-Answers attr ls))
]

-- In a configuration of lines of text with fewer than 512 bytes each, all ended by a newline, conf_get_attr
-- answers for the first line in which the name of the attribute stands, at any place and with ' ' or '='
-- behind it: it returns 0 and writes all that stands behind the first '=', but for spaces and one quote in
-- front of it, so that a closing quote and spaces at the end stay. Without such a line, and for an
-- empty name, it returns -ENODATA and writes nothing; when the line has no '=', it reads through a
-- wild pointer.
pub conf_get_attr-Answers :
    (behind : ℕ) (ls : List (List ℕ)) (attr : List ℕ)
    → AreLines ls
    → Answers attr ls (conf_get_attr behind (text ls) attr)
conf_get_attr-Answers behind ls attr are =
    subst (Answers attr ls) (sym (conf_get_attr_lem behind ls attr are)) (expected-Answers attr ls)
