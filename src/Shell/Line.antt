-- ===== src/Shell/Line.antt =====
-- The keys of command_read_line in shell/shell.c. A Line holds the buffer that `buf` points to, at
-- address 0 with whatever lies behind its MAX_ARG_LEN bytes, and the cursor. What is printed is left
-- out. The Tab key, whose completion needs the table of commands, and the history keys are no keys
-- here.
use witos.Base.{ℕ, zero, suc, ◌+◌, ◌-◌, List, [], ◌∷◌, ltb, ◌==◌, if◌then◌else◌}
use witos.Memory.{Memory, write}

abbrev pub max_arg_len : ℕ
max_arg_len = 512

pub record Line : Type 0 where
  pub buf : Memory
  pub cur_pos : ℕ
  pub cur_max : ℕ

-- for (i = lo + n; i > lo; --i) buf[i] = buf[i - 1];
unfoldable pub shift_up : (n : ℕ) → Memory → (lo : ℕ) → Memory
shift_up zero buf lo = buf
shift_up (suc n) buf lo = shift_up n (write buf (lo + suc n) (buf (lo + n))) lo

-- for (i = lo; i < lo + n; ++i) buf[i] = buf[i + 1];
unfoldable pub shift_down : (n : ℕ) → Memory → (lo : ℕ) → Memory
shift_down zero buf lo = buf
shift_down (suc n) buf lo = shift_down n (write buf lo (buf (lo + 1))) (lo + 1)

unfoldable pub insert_one_key : (input_c : ℕ) → Line → Line
unfolding shift_up
insert_one_key input_c l = record {
  buf = write (shift_up (l.cur_max - l.cur_pos) l.buf l.cur_pos) l.cur_pos input_c;
  cur_pos = l.cur_pos + 1;
  cur_max = l.cur_max + 1;
}

unfoldable pub backspace_one_key : Line → Line
unfolding shift_down
backspace_one_key l = record {
  buf = write (shift_down (l.cur_max - l.cur_pos) l.buf (l.cur_pos - 1)) (l.cur_max - 1) 0;
  cur_pos = l.cur_pos - 1;
  cur_max = l.cur_max - 1;
}

unfoldable pub delete_one_key : Line → Line
unfolding shift_down
delete_one_key l = if l.cur_pos == l.cur_max then l else record {
  buf = write (shift_down (l.cur_max - 1 - l.cur_pos) l.buf l.cur_pos) l.cur_max 0;
  cur_pos = l.cur_pos;
  cur_max = l.cur_max - 1;
}

unfoldable pub print_input : (input_c : ℕ) → Line → Line
unfolding insert_one_key
print_input input_c l = if ltb l.cur_pos (max_arg_len - 1) then insert_one_key input_c l else l

unfoldable pub cmd_right_key : Line → Line
cmd_right_key l = if ltb l.cur_pos l.cur_max then record l { cur_pos = l.cur_pos + 1 } else l

unfoldable pub cmd_left_key : Line → Line
cmd_left_key l = if ltb 0 l.cur_pos then record l { cur_pos = l.cur_pos - 1 } else l

-- What the sequences of characters mean to the switch.
pub data Key : Type 0 where
  printable : ℕ → Key
  backspace : Key
  delete : Key
  left : Key
  right : Key
  home : Key
  end_ : Key
  ctrl_c : Key

-- The switch of command_read_line.
unfoldable pub handle_key : Key → Line → Line
unfolding print_input backspace_one_key delete_one_key cmd_right_key cmd_left_key
handle_key (printable input_c) l = print_input input_c l
handle_key backspace l = if ltb 0 l.cur_pos then backspace_one_key l else l
handle_key delete l = delete_one_key l
handle_key left l = cmd_left_key l
handle_key right l = cmd_right_key l
handle_key home l = record l { cur_pos = 0 }
handle_key end_ l = record l { cur_pos = l.cur_max }
handle_key ctrl_c l = record l { cur_pos = 0; cur_max = 0 }

unfoldable pub handle_keys : List Key → Line → Line
unfolding handle_key
handle_keys [] l = l
handle_keys (key ∷ keys) l = handle_keys keys (handle_key key l)

-- After memset(buf, 0, MAX_ARG_LEN).
abbrev pub cleared : Line
cleared = record { buf = λ a. 0; cur_pos = 0; cur_max = 0 }
