-- ===== src/Conf.antt =====
-- core/sysconf.c: the attributes of the board's configuration. The data of struct sysconfig is a list of
-- bytes, with the byte `behind` it in memory; its static variable is the offset that is passed along. A
-- text is the list of its bytes before the NUL. conf_add_attr, conf_set_attr and conf_del_attr do
-- nothing in the branch that is compiled.
pub mod Lines
pub mod Found
pub mod Meaning
mod Examples
use witos.Base.{
  ℕ, zero, suc, ◌+◌, ◌-◌, Bool, true, false, not, ◌&&◌, ◌||◌, Option, none, some, List, [], ◌∷◌,
  ltb, ◌==◌, if◌then◌else◌, ◌>>=◌, get_or, take, drop, length, ℤ, pos, negsuc,
}

abbrev pub line_len : ℕ
line_len = 512

abbrev pub newline : ℕ
newline = 0x0a

-- for (i = 0; i < size && i < line_len - 1; i++): what stands in `line` after it.
unfoldable pub scan_line : (room : ℕ) → (base : List ℕ) → List ℕ
scan_line zero base = []
scan_line (suc room) [] = []
scan_line (suc room) (c ∷ base) =
    let rest = scan_line room base in if c == newline then [] else c ∷ rest

-- _syscfg_read_line with `room + 1` bytes for the line: the line and the new offset; none is -ENODATA.
unfoldable pub read_line_in :
    (room : ℕ) → (behind : ℕ) → List ℕ → (offset : ℕ) → Option (List ℕ × ℕ)
read_line_in room behind cfg offset =
    let base = drop offset cfg in
    let line = scan_line room base in
    let i = length line in
    if length cfg - offset == 0
    then none
    else some (line, if get_or base i behind == newline then offset + (i + 1) else offset + i)

unfoldable pub read_line : (behind : ℕ) → List ℕ → (offset : ℕ) → Option (List ℕ × ℕ)
unfolding read_line_in
read_line behind cfg offset = read_line_in (line_len - 1) behind cfg offset

-- The text in a buffer of a line: a NUL in the configuration ends it.
unfoldable pub c_text : (line : List ℕ) → List ℕ
c_text [] = []
c_text (c ∷ line) = let rest = c_text line in if c == 0 then [] else c ∷ rest

-- !strncmp(attr, p, strlen(attr)) for an attr that is not empty, and what p has behind it.
unfoldable pub after_attr : (attr p : List ℕ) → Option (List ℕ)
after_attr [] p = some p
after_attr (a ∷ attr) [] = none
after_attr (a ∷ attr) (c ∷ p) = let rest = after_attr attr p in if a == c then rest else none

-- For an empty attr the count is 0, with which strncmp compares the whole texts, and p is not empty.
unfoldable pub starts_attr : (attr p : List ℕ) → Bool
starts_attr [] p = false
starts_attr (a ∷ attr) p = elim (after_attr (a ∷ attr) p) [
  | none ↦ false
  | some rest ↦ (get_or rest 0 0 == b' ') || (get_or rest 0 0 == b'=')
]

-- _is_attr_string: attr may stand anywhere in the line.
unfoldable pub is_attr_string : (attr string : List ℕ) → Bool
is_attr_string attr [] = false
is_attr_string attr (c ∷ string) = starts_attr attr (c ∷ string) || is_attr_string attr string

-- search_attr: the length of the line and the offset behind it; each round takes a byte at least.
unfoldable pub search_attr :
    (rounds : ℕ) → (behind : ℕ) → List ℕ → (attr : List ℕ) → (offset : ℕ) → Option (ℕ × ℕ)
search_attr zero behind cfg attr offset = none
search_attr (suc rounds) behind cfg attr offset = read_line behind cfg offset >>= (λ r.
    elim (is_attr_string attr (c_text r.0)) [
      | true ↦ some (length r.0, r.1)
      | false ↦ search_attr rounds behind cfg attr r.1
    ])

-- strchr(line, '=') and one further; none is a pointer behind NULL.
unfoldable pub after_equals : List ℕ → Option (List ℕ)
after_equals [] = none
after_equals (c ∷ line) = let rest = after_equals line in if c == b'=' then some line else rest

-- while (*start == ' ') start++;
unfoldable pub skip_spaces : List ℕ → List ℕ
skip_spaces [] = []
skip_spaces (c ∷ s) = let rest = skip_spaces s in if c == b' ' then rest else c ∷ s

-- if (*start == '"') start++;
unfoldable pub skip_quote : List ℕ → List ℕ
skip_quote [] = []
skip_quote (c ∷ s) = if c == b'"' then s else c ∷ s

-- while (end > line && *end == ' ') end--; `end` is an index of line.
unfoldable pub end_spaces : List ℕ → (end : ℕ) → ℕ
end_spaces line zero = zero
end_spaces line (suc end) =
    let rest = end_spaces line end in if get_or line (suc end) 0 == b' ' then rest else suc end

-- if (*end == '"') end--;
unfoldable pub end_quote : List ℕ → (end : ℕ) → ℕ
end_quote line end = if get_or line end 0 == b'"' then end - 1 else end

-- The text that the copy of the bytes from `start` to `end` leaves: it ends at the NUL of the line at the
-- latest. `start` is the text from a place of the line on.
unfoldable pub copied : (line start : List ℕ) → (end : ℕ) → List ℕ
copied line start end = take (suc end - (length line - length start)) start

-- What conf_get_attr writes to val and returns; none is a read through a wild pointer.
unfoldable pub value_of : (line : List ℕ) → Option (List ℕ)
value_of line = after_equals line >>= (λ behind_equals.
    let start = skip_quote (skip_spaces behind_equals) in
    let end = end_quote line (end_spaces line (length line)) in some (copied line start end))

abbrev pub enodata : ℤ
enodata = negsuc 60

unfoldable pub conf_get_attr :
    (behind : ℕ) → List ℕ → (attr : List ℕ) → Option (ℤ × Option (List ℕ))
conf_get_attr behind cfg attr = elim (search_attr (length cfg + 1) behind cfg attr 0) [
  | none ↦ some (enodata, none)
  | some (ret, offset) ↦ if ltb offset (ret + 1) then none else (do
    again ← read_line behind cfg (offset - (ret + 1))
    val ← value_of (c_text again.0)
    some (pos 0, some val))
]

-- !strcmp(s, t)
unfoldable pub same_text : (s t : List ℕ) → Bool
same_text [] [] = true
same_text [] (d ∷ t) = false
same_text (c ∷ s) [] = false
same_text (c ∷ s) (d ∷ t) = c == d && same_text s t

-- conf_check, on a magic text without NULs; sizeof counts its NUL.
unfoldable pub conf_check : (magic : List ℕ) → (behind : ℕ) → List ℕ → ℤ
conf_check magic behind cfg = elim (read_line_in (length magic + 1) behind cfg 0) [
  | none ↦ negsuc 21
  | some (line, offset) ↦
      if (length line == 0) || not (same_text magic (c_text line)) then negsuc 21 else pos 0
]

-- conf_add_attr, conf_set_attr and conf_del_attr, as they are compiled.
unfoldable pub conf_set_attr : List ℕ → (attr val : List ℕ) → ℤ × List ℕ
conf_set_attr cfg attr val = (pos 0, cfg)

unfoldable pub conf_add_attr : List ℕ → (attr val : List ℕ) → ℤ × List ℕ
conf_add_attr cfg attr val = (pos 0, cfg)

unfoldable pub conf_del_attr : List ℕ → (attr : List ℕ) → ℤ × List ℕ
conf_del_attr cfg attr = (pos 0, cfg)
