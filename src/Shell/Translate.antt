-- ===== src/Shell/Translate.antt =====
-- command_translate of shell/shell.c, the branch of its #elif. The line is the list of its bytes before the
-- NUL. The static buffer cmd_line stands at `base` in a byte memory, argv is a function of the index;
-- the result -EINVAL is `none`, any other the state at the end, whose argc is returned.
use witos.Base.{ℕ, suc, ◌+◌, Option, none, some, List, [], ◌∷◌, ◌==◌, if◌then◌else◌, ◌>>=◌}
use witos.Memory.{Memory, write}

pub record Translate : Type 0 where
  pub cmd_line : Memory
  pub argv : ℕ → ℕ
  pub argc : ℕ
  pub flag : ℕ

module _ (base : ℕ) where
  -- cmd_line[i] = '\0'; argc++; flag = 0;
  abbrev pub end_word : ℕ → Translate → Translate
  end_word i s = record s { cmd_line = write s.cmd_line (base + i) 0; argc = s.argc + 1; flag = 0 }

  -- The three cases of the switch.
  unfoldable pub take_space : ℕ → Translate → Translate
  take_space i s =
      if s.flag == 0
      then s
      else if s.flag == 1
      then end_word i s
      else record s { cmd_line = write s.cmd_line (base + i) b' ' }

  unfoldable pub take_quote : ℕ → Translate → Option Translate
  take_quote i s =
      if s.flag == 0
      then some record s { argv = write s.argv s.argc (base + i + 1); flag = 2 }
      else if s.flag == 1
      then none
      else some (end_word i s)

  unfoldable pub take_char : (c : ℕ) → ℕ → Translate → Translate
  take_char c i s =
      let stored = write s.cmd_line (base + i) c in
      if s.flag == 0
      then record s { cmd_line = stored; argv = write s.argv s.argc (base + i); flag = 1 }
      else record s { cmd_line = stored }

  unfoldable pub translate_char : (c : ℕ) → ℕ → Translate → Option Translate
  translate_char c i s =
      if c == b' '
      then some (take_space i s)
      else if c == b'"'
      then take_quote i s
      else some (take_char c i s)

  -- What follows the loop.
  unfoldable pub translate_end : ℕ → Translate → Option Translate
  translate_end i s =
      if s.flag == 1
      then some record s { cmd_line = write s.cmd_line (base + i) 0; argc = s.argc + 1 }
      else if s.flag == 2
      then none
      else some s

  -- while (command_line[i]), from the index `i` on.
  unfoldable pub translate_loop : List ℕ → ℕ → Translate → Option Translate
  translate_loop [] i s = translate_end i s
  translate_loop (c ∷ rest) i s = translate_char c i s >>= translate_loop rest (suc i)

  unfoldable pub command_translate :
      (command_line : List ℕ) → (cmd_line : Memory) → (argv : ℕ → ℕ) → Option Translate
  command_translate command_line cmd_line argv =
      translate_loop command_line 0 record { cmd_line = cmd_line; argv = argv; argc = 0; flag = 0 }
