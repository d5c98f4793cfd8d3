-- ===== src/Shell/Splitting.antt =====
-- command_translate of shell/shell.c splits a line as Words says.
use Prim.{tt}
use witos.Base.{
  ℕ, suc, ◌+◌, ◌≡◌, refl, Option, none, some, List, [], ◌∷◌, ◌==◌, length, Bool-cases, inl, inr,
  arith,
}
use witos.Memory.{NoNul, Memory, write}
use witos.Shell.Translate.{Translate, translate_end, translate_loop, command_translate}
use witos.Shell.Words.{
  Place, outside, bare, quoted, Split, split, AreWords, Agrees, Adds, Completes,
}
use witos.Shell.Steps.{
  Adds-space, Adds-quote, Adds-char, Completes-char, Completes-end, space_outside, quote_outside,
  char_outside, space_bare, quote_bare, char_bare, quote_quoted, char_quoted,
}

abbrev flag_of : Place → ℕ
flag_of outside = 0
flag_of bare = 1
flag_of quoted = 2

abbrev Reads : (base i : ℕ) → Place → Translate → Split → Translate → Type 0
Reads base i outside = Adds base i
Reads base i bare = Completes base i
Reads base i quoted = Completes base i

-- The rest of a line, read at `place`.
translate_loop-Agrees :
    (base : ℕ) (place : Place) (line : List ℕ) (i : ℕ) (s : Translate)
    → s.flag ≡ flag_of place
    → NoNul line
    → Agrees (Reads base i place) s (split place line) (translate_loop base line i s)
unfolding translate_loop translate_end
translate_loop-Agrees base outside [] i s flag text = (
  s,
  rw (translate_loop, translate_end, flag) refl,
  record {
    keeps = record { cells = λ a lt. refl; pointers = λ k lt. refl };
    argc = omega arith;
    words = tt;
  },
)
translate_loop-Agrees base bare [] i s flag text = (
  record s { cmd_line = write s.cmd_line (base + i) 0; argc = s.argc + 1 },
  ground arith,
  record {
    keeps = record { cells = λ a lt. ground arith; pointers = λ k lt. refl };
    argc = omega arith;
    pointer = refl;
    text = ground arith;
    words = tt;
  },
)
translate_loop-Agrees base quoted [] i s flag text = rw (translate_loop, translate_end, flag) refl
translate_loop-Agrees base outside (c ∷ line) i s flag text = elim (Bool-cases (c == b' ')) [
  | inl space ↦
      rw (space, space_outside base c i s flag space)
        (Adds-space base i s _ (split outside line)
          (translate_loop-Agrees base outside line (suc i) s flag text.1))
  | inr no_space ↦ elim (Bool-cases (c == b'"')) [
    | inl quote ↦
        rw (no_space, quote, quote_outside base c i s flag no_space quote)
          (Adds-quote base i s _ (split quoted line)
            (translate_loop-Agrees base quoted line (suc i) _ refl text.1))
    | inr no_quote ↦
        rw (no_space, no_quote, char_outside base c i s flag no_space no_quote)
          (Adds-char base i s _ (split bare line) c text.0
            (translate_loop-Agrees base bare line (suc i) _ refl text.1))
  ]
]
translate_loop-Agrees base bare (c ∷ line) i s flag text = elim (Bool-cases (c == b' ')) [
  | inl space ↦
      rw (space, space_bare base c i s flag space)
        (Completes-end base i s _ (split outside line)
          (translate_loop-Agrees base outside line (suc i) _ refl text.1))
  | inr no_space ↦ elim (Bool-cases (c == b'"')) [
    | inl quote ↦ rw (no_space, quote, quote_bare base c i s flag no_space quote) refl
    | inr no_quote ↦
        rw (no_space, no_quote, char_bare base c i s flag no_space no_quote)
          (Completes-char base i s _ (split bare line) c text.0
            (translate_loop-Agrees base bare line (suc i) _ flag text.1))
  ]
]
translate_loop-Agrees base quoted (c ∷ line) i s flag text = elim (Bool-cases (c == b'"')) [
  | inl quote ↦
      rw (quote, quote_quoted base c i s flag quote)
        (Completes-end base i s _ (split outside line)
          (translate_loop-Agrees base outside line (suc i) _ refl text.1))
  | inr no_quote ↦
      rw (no_quote, char_quoted base c i s flag no_quote)
        (Completes-char base i s _ (split quoted line) c text.0
          (translate_loop-Agrees base quoted line (suc i) _ flag text.1))
]

-- A line that is not split gives -EINVAL; else argv points to the words in order, each with its NUL.
abbrev pub Splits : Option Split → Option Translate → Type 0
Splits none l = l ≡ none
Splits (some r) l = (t : Translate) × (l ≡ some t) × (t.argc ≡ length r.1) × AreWords t 0 r.1

-- command_translate splits every line without NULs as `split` does: it returns -EINVAL for a quote in a
-- bare word and for a quote that is not closed, and else the number of words, with argv[0],
-- argv[1], … at the words in order, each with its NUL in cmd_line.
pub command_translate-Splits :
    (base : ℕ) (command_line : List ℕ) (cmd_line : Memory) (argv : ℕ → ℕ)
    → NoNul command_line
    → Splits (split outside command_line) (command_translate base command_line cmd_line argv)
unfolding command_translate
command_translate-Splits base command_line cmd_line argv text =
    from (split outside command_line)
      (translate_loop-Agrees base outside command_line 0 start refl text)
  where
    start : Translate
    start = record { cmd_line = cmd_line; argv = argv; argc = 0; flag = 0 }

    from :
        (o : Option Split)
        → Agrees (Adds base 0) start o (translate_loop base command_line 0 start)
        → Splits o (translate_loop base command_line 0 start)
    from none h = h
    from (some r) (t, run, a) = (t, run, omega (arith, a.argc), a.words)
