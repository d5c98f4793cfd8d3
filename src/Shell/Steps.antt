-- ===== src/Shell/Steps.antt =====
-- One byte of a line in command_translate of shell/shell.c, and what it adds to the words.
use witos.Base.{
  ℕ, suc, ◌+◌, ◌≡◌, refl, sym, ap, ◌≢◌, true, false, Option, none, some, ◌==◌, ◌>>=◌, Bool-cases,
  inl, inr, arith,
}
use witos.Memory.{write}
use witos.Shell.Translate.{Translate, end_word, take_space, take_quote, take_char, translate_char}
use witos.Shell.Words.{Split, next_word, longer, word_end, Agrees, Adds, Completes}

module _ (base i : ℕ) (s : Translate) (l : Option Translate) where
  pub Adds-space :
      (o : Option Split) → Agrees (Adds base (suc i)) s o l → Agrees (Adds base i) s o l
  Adds-space none h = h
  Adds-space (some r) (t, run, a) = (
    t,
    run,
    record {
      keeps = record { cells = λ b lt. a.keeps.cells b (omega arith); pointers = a.keeps.pointers };
      argc = a.argc;
      words = a.words;
    },
  )

  pub Adds-quote :
      (o : Option Split)
      → Agrees
          (Completes base (suc i))
          record s { argv = write s.argv s.argc (base + i + 1); flag = 2 }
          o
          l
      → Agrees (Adds base i) s (o >>= (λ r. some (next_word r))) l
  Adds-quote none h = h
  Adds-quote (some r) (t, run, c) =
      let here : t.argv s.argc ≡ base + suc i = ground (arith, c.pointer) in
      (
        t,
        run,
        record {
          keeps = record {
            cells = λ b lt. c.keeps.cells b (omega arith);
            pointers = λ k lt. ground (arith, c.keeps.pointers k lt);
          };
          argc = c.argc;
          words = (rw here c.text, c.words);
        },
      )

  pub Adds-char :
      (o : Option Split) (c : ℕ)
      → c ≢ 0
      → Agrees
          (Completes base (suc i))
          record s {
            cmd_line = write s.cmd_line (base + i) c;
            argv = write s.argv s.argc (base + i);
            flag = 1;
          }
          o
          l
      → Agrees (Adds base i) s (o >>= (λ r. some (next_word (longer c r)))) l
  Adds-char none c ne h = h
  Adds-char (some r) c ne (t, run, w) =
      let here : t.argv s.argc ≡ base + i = ground (arith, w.pointer) in
      let step : base + suc i ≡ base + i + 1 = omega arith in
      (
        t,
        run,
        record {
          keeps = record {
            cells = λ b lt. ground (arith, w.keeps.cells b);
            pointers = λ k lt. ground (arith, w.keeps.pointers k lt);
          };
          argc = w.argc;
          words =
              (rw here (ground (arith, w.keeps.cells (base + i)), ne, rw step at w.text), w.words);
        },
      )

  pub Completes-char :
      (o : Option Split) (c : ℕ)
      → c ≢ 0
      → Agrees (Completes base (suc i)) record s { cmd_line = write s.cmd_line (base + i) c } o l
      → Agrees (Completes base i) s (o >>= (λ r. some (longer c r))) l
  Completes-char none c ne h = h
  Completes-char (some r) c ne (t, run, w) =
      let step : base + suc i ≡ base + i + 1 = omega arith in
      (
        t,
        run,
        record {
          keeps = record {
            cells = λ b lt. ground (arith, w.keeps.cells b);
            pointers = w.keeps.pointers;
          };
          argc = w.argc;
          pointer = w.pointer;
          text = (ground (arith, w.keeps.cells (base + i)), ne, rw step at w.text);
          words = w.words;
        },
      )

  pub Completes-end :
      (o : Option Split)
      → Agrees (Adds base (suc i)) (end_word base i s) o l
      → Agrees (Completes base i) s (o >>= (λ r. some (word_end r))) l
  Completes-end none h = h
  Completes-end (some r) (t, run, a) =
      let next : s.argc + 1 ≡ suc s.argc = omega arith in
      (
        t,
        run,
        record {
          keeps = record {
            cells = λ b lt. ground (arith, a.keeps.cells b);
            pointers = λ k lt. a.keeps.pointers k (omega arith);
          };
          argc = omega (arith, a.argc);
          pointer = a.keeps.pointers s.argc (omega arith);
          text = ground (arith, a.keeps.cells (base + i));
          words = rw next at a.words;
        },
      )

module _ (base c i : ℕ) (s : Translate) where
  pub space_outside : s.flag ≡ 0 → (c == b' ') ≡ true → translate_char base c i s ≡ some s
  unfolding translate_char take_space
  space_outside flag space = ground arith

  pub quote_outside :
      s.flag ≡ 0
      → (c == b' ') ≡ false
      → (c == b'"') ≡ true
      → translate_char base c i s
        ≡ some record s { argv = write s.argv s.argc (base + i + 1); flag = 2 }
  unfolding translate_char take_quote
  quote_outside flag space quote = rw (translate_char, space, quote, take_quote, flag) refl

  pub char_outside :
      s.flag ≡ 0
      → (c == b' ') ≡ false
      → (c == b'"') ≡ false
      → translate_char base c i s
        ≡ some record s {
          cmd_line = write s.cmd_line (base + i) c;
          argv = write s.argv s.argc (base + i);
          flag = 1;
        }
  unfolding translate_char take_char
  char_outside flag space quote = rw (translate_char, space, quote, take_char, flag) refl

  pub space_bare :
      s.flag ≡ 1 → (c == b' ') ≡ true → translate_char base c i s ≡ some (end_word base i s)
  unfolding translate_char take_space
  space_bare flag space = rw (translate_char, space, take_space, flag) refl

  pub quote_bare :
      s.flag ≡ 1 → (c == b' ') ≡ false → (c == b'"') ≡ true → translate_char base c i s ≡ none
  unfolding translate_char take_quote
  quote_bare flag space quote = rw (translate_char, space, quote, take_quote, flag) refl

  pub char_bare :
      s.flag ≡ 1
      → (c == b' ') ≡ false
      → (c == b'"') ≡ false
      → translate_char base c i s ≡ some record s { cmd_line = write s.cmd_line (base + i) c }
  unfolding translate_char take_char
  char_bare flag space quote = rw (translate_char, space, quote, take_char, flag) refl

  pub quote_quoted :
      s.flag ≡ 2 → (c == b'"') ≡ true → translate_char base c i s ≡ some (end_word base i s)
  unfolding translate_char take_quote
  quote_quoted flag quote =
      let space : (c == b' ') ≡ false = ground arith in
      rw (translate_char, space, quote, take_quote, flag) refl

  pub char_quoted :
      s.flag ≡ 2
      → (c == b'"') ≡ false
      → translate_char base c i s ≡ some record s { cmd_line = write s.cmd_line (base + i) c }
  unfolding translate_char take_char take_space
  char_quoted flag quote = elim (Bool-cases (c == b' ')) [
    | inl space ↦
        let e : c ≡ b' ' = ground arith in
        rw (translate_char, space, take_space, flag)
          (ap (λ (x : ℕ). some record s { cmd_line = write s.cmd_line (base + i) x; flag = 2 })
            (sym e))
    | inr no_space ↦ rw (translate_char, no_space, quote, take_char, flag) refl
  ]
