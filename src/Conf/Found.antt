-- ===== src/Conf/Found.antt =====
-- conf_get_attr of core/sysconf.c on a configuration of lines.
use mathlib.Core.List.{append_assoc}
use witos.Base.{
  ℕ, zero, suc, ◌+◌, ◌-◌, ◌<◌, ◌≡◌, refl, sym, ap, ◌∙◌, Bool-cases, inl, inr, false, Option, none,
  some, List, [], ◌∷◌, ◌++◌, if◌then◌else◌, ltb, ◌>>=◌, length, length-append, ℤ, pos, arith,
}
use witos.Conf.{
  newline, c_text, read_line, is_attr_string, search_attr, after_equals, skip_spaces, skip_quote,
  value_of, enodata, conf_get_attr,
}
use witos.Conf.Lines.{text, AreLines, c_text-NoNul, read_line-line, read_line-end, value_of-line}

abbrev pub written : List ℕ → ℤ × Option (List ℕ)
written v = (pos 0, some v)

-- What is read of the line of an attribute: what stands behind its first '=', without spaces and one quote in
-- front of it. Without a '=' the code goes on behind NULL.
abbrev pub value : List ℕ → Option (ℤ × Option (List ℕ))
value line = after_equals line >>= (λ v. some (written (skip_quote (skip_spaces v))))

-- What is read, by the code's own tests: of the first line that passes is_attr_string.
abbrev pub expected : (attr : List ℕ) → List (List ℕ) → Option (ℤ × Option (List ℕ))
expected attr [] = some (enodata, none)
expected attr (l ∷ ls) =
    let rest = expected attr ls in if is_attr_string attr l then value l else rest

-- What follows search_attr.
abbrev answered : (behind : ℕ) → List ℕ → Option (ℕ × ℕ) → Option (ℤ × Option (List ℕ))
answered behind cfg found = elim found [
  | none ↦ some (enodata, none)
  | some (ret, offset) ↦ if ltb offset (ret + 1) then none else (do
    again ← read_line behind cfg (offset - (ret + 1))
    val ← value_of (c_text again.0)
    some (written val))
]

value_of-value : (l : List ℕ) → (value_of l >>= (λ val. some (written val))) ≡ value l
value_of-value l = rw (value_of-line l) (assoc (after_equals l))
  where
    assoc :
        (o : Option (List ℕ))
        → ((o >>= (λ v. some (skip_quote (skip_spaces v)))) >>= (λ val. some (written val)))
          ≡ (o >>= (λ v. some (written (skip_quote (skip_spaces v)))))
    assoc none = refl
    assoc (some v) = refl

search_attr-expected :
    (behind : ℕ) (attr before : List ℕ) (ls : List (List ℕ)) (cfg : List ℕ) (rounds : ℕ)
    → cfg ≡ before ++ text ls
    → AreLines ls
    → length ls < rounds
    → answered behind cfg (search_attr rounds behind cfg attr (length before)) ≡ expected attr ls
unfolding search_attr
search_attr-expected behind attr before ls cfg zero at are enough = absurd (omega arith)
search_attr-expected behind attr before [] cfg (suc rounds) at are enough =
    rw (search_attr, read_line-end behind before cfg at) refl
search_attr-expected behind attr before (l ∷ ls) cfg (suc rounds) at are enough =
    let read = read_line-line behind before l (text ls) cfg are.0.0 are.0.1 at in
    let plain = c_text-NoNul l are.0.2 in
    let back : length before + (length l + 1) - (length l + 1) ≡ length before = omega arith in
    let inside : ltb (length before + (length l + 1)) (length l + 1) ≡ false = ground arith in
    elim (Bool-cases (is_attr_string attr l)) [
      | inl found ↦
          let step : search_attr (suc rounds) behind cfg attr (length before)
              ≡ some (length l, length before + (length l + 1)) =
            rw (search_attr, read, ◌>>=◌, plain, found) refl in
          rw (step, found, inside, back, read, ◌>>=◌, plain) (value_of-value l)
      | inr other ↦
          let longer : length (before ++ (l ++ newline ∷ [])) ≡ length before + (length l + 1) =
            omega
              (arith, length-append before (l ++ newline ∷ []), length-append l (newline ∷ [])) in
          let at' : cfg ≡ (before ++ (l ++ newline ∷ [])) ++ text ls =
            at
            ∙ sym (
                append_assoc before (l ++ newline ∷ []) (text ls)
                ∙ ap (λ (t : List ℕ). before ++ t) (append_assoc l (newline ∷ []) (text ls))) in
          let later =
            search_attr-expected behind attr (before ++ (l ++ newline ∷ [])) ls cfg rounds at' are.1
              (omega arith) in
          let step : search_attr (suc rounds) behind cfg attr (length before)
              ≡ search_attr rounds behind cfg attr (length before + (length l + 1)) =
            rw (search_attr, read, ◌>>=◌, plain, other) refl in
          rw (step, other) (rw longer at later)
    ]

length-text : (ls : List (List ℕ)) → length ls < length (text ls) + 1
length-text [] = omega arith
length-text (l ∷ ls) = omega (arith, length-text ls, length-append l (newline ∷ text ls))

pub conf_get_attr_lem :
    (behind : ℕ) (ls : List (List ℕ)) (attr : List ℕ)
    → AreLines ls
    → conf_get_attr behind (text ls) attr ≡ expected attr ls
unfolding conf_get_attr
conf_get_attr_lem behind ls attr are =
    search_attr-expected behind attr [] ls (text ls) (length (text ls) + 1) refl are
      (length-text ls)
