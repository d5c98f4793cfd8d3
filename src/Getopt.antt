-- ===== src/Getopt.antt =====
-- getopt_init, adjust_argv and getopt of lib/extra/getopt.c. argv is the list of its texts without
-- their NULs, argc its length; the variables of the file are the fields of Getopt. What is
-- printed is left out, and with it opterr.
pub mod Adjust
pub mod Words
pub mod Scan
pub mod Step
pub mod Parse
mod Examples
use witos.Base.{
  ℕ, zero, suc, ◌+◌, ◌-◌, ◌≡◌, ◌&&◌, ◌||◌, not, Option, none, some, List, [], ◌∷◌, ltb, leb, ◌==◌,
  if◌then◌else◌, length, get_or, set, drop, ℤ, pos, negsuc,
}

pub record Getopt : Type 0 where
  pub argv : List (List ℕ)
  pub optarg : Option (List ℕ)
  pub optind : ℕ
  pub optopt : ℕ
  pub opt_pos : ℕ
  pub non_arg_start : ℕ
  pub non_arg_end : ℕ

unfoldable pub getopt_init : Getopt → Getopt
getopt_init g = record g { optind = 1; opt_pos = 1; non_arg_start = 0; non_arg_end = 0 }

-- SWAP(argv[i], argv[i + 1])
unfoldable pub swap_args : ℕ → List (List ℕ) → List (List ℕ)
swap_args i argv = set (set argv i (get_or argv (suc i) [])) (suc i) (get_or argv i [])

-- while (i > non_arg_start): the rounds are `i - non_arg_start`.
unfoldable pub sink : (rounds : ℕ) → (i : ℕ) → List (List ℕ) → List (List ℕ)
sink zero i argv = argv
sink (suc rounds) i argv = sink rounds (i - 1) (swap_args (i - 1) argv)

-- while (n < optind): the rounds are `optind - n`.
unfoldable pub adjust_loop : (rounds : ℕ) → (n : ℕ) → Getopt → Getopt
adjust_loop zero n g = g
adjust_loop (suc rounds) n g = adjust_loop rounds (suc n) record g {
  argv = sink (n - g.non_arg_start) n g.argv;
  non_arg_start = suc g.non_arg_start;
  non_arg_end = suc g.non_arg_end;
}

unfoldable pub adjust_argv : Getopt → Getopt
adjust_argv g =
    if ltb 0 g.non_arg_start
    then adjust_loop (g.optind - (suc g.non_arg_end)) (suc g.non_arg_end) g
    else g

-- argv[optind]
abbrev pub current : Getopt → List ℕ
current g = get_or g.argv g.optind []

-- while (optind < argc && argv[optind][0] != '-'): the rounds are `argc - optind`.
unfoldable pub skip_args : (rounds : ℕ) → Getopt → Getopt
skip_args zero g = g
skip_args (suc rounds) g =
    let start = if g.non_arg_start == 0 then g.optind else g.non_arg_start in
    let rest =
      skip_args rounds
        record g { non_arg_end = g.optind; non_arg_start = start; optind = suc g.optind } in
    if ltb g.optind (length g.argv) && not (get_or (current g) 0 0 == b'-') then rest else g

-- strchr(opt_str, c), and what stands behind the place.
unfoldable pub find_option : ℕ → List ℕ → Option (List ℕ)
find_option c [] = none
find_option c (x ∷ s) = if x == c then some s else find_option c s

-- To the next character of argv[optind], or to the next text behind its last one.
unfoldable pub next_char : Getopt → Getopt
next_char g =
    if get_or (current g) (suc g.opt_pos) 0 == 0
    then record g { optind = suc g.optind; opt_pos = 1 }
    else record g { opt_pos = suc g.opt_pos }

abbrev pub unknown : ℕ → Getopt → ℤ × Getopt
unknown c g = (pos b'?', next_char record g { optopt = c })

-- The branches of an option with an argument; `behind` is what follows ':' in opt_str.
unfoldable pub take_argument :
    (opt_str : List ℕ) → (c : ℕ) → (behind : List ℕ) → Getopt → ℤ × Getopt
take_argument opt_str c behind g =
    let next = get_or g.argv (suc g.optind) [] in
    if not (get_or (current g) (suc g.opt_pos) 0 == 0)
    then (
      pos c,
      adjust_argv record g {
        optarg = some (drop (suc g.opt_pos) (current g));
        optind = suc g.optind;
        opt_pos = 1;
      },
    )
    else if leb (length g.argv) (suc g.optind) || (get_or next 0 0 == b'-')
    then (if get_or behind 0 0 == b':'
        then (pos c, adjust_argv record g { optarg = none; optind = suc g.optind; opt_pos = 1 })
        else (
          if get_or opt_str 0 0 == b':' then pos b':' else pos b'?',
          record g { optind = suc g.optind; optopt = c; opt_pos = 1 },
        ))
    else (
      pos c,
      adjust_argv record g { optarg = some next; optind = suc (suc g.optind); opt_pos = 1 },
    )

-- The character `c` of an option; `behind` is what follows it in opt_str.
unfoldable pub take_known : (opt_str : List ℕ) → (c : ℕ) → (behind : List ℕ) → Getopt → ℤ × Getopt
take_known opt_str c behind g =
    if get_or behind 0 0 == b':'
    then take_argument opt_str c (drop 1 behind) g
    else (pos c, adjust_argv record (next_char g) { optarg = none })

unfoldable pub take_option : (opt_str : List ℕ) → (c : ℕ) → Getopt → ℤ × Getopt
take_option opt_str c g = if c == b':' then unknown c g else elim (find_option c opt_str) [
  | none ↦ unknown c g
  | some behind ↦ take_known opt_str c behind g
]

-- The end of the options.
unfoldable pub no_option : Getopt → ℤ × Getopt
no_option g = (negsuc 0, if g.non_arg_start == 0 then g else record g { optind = g.non_arg_start })

unfoldable pub getopt_at : (opt_str : List ℕ) → Getopt → ℤ × Getopt
getopt_at opt_str g =
    if (g.opt_pos == 1) && (leb (length g.argv) g.optind || (get_or (current g) g.opt_pos 0 == 0))
    then no_option g
    else take_option opt_str (get_or (current g) g.opt_pos 0) g

unfoldable pub getopt : (opt_str : List ℕ) → Getopt → ℤ × Getopt
getopt opt_str g =
    getopt_at opt_str (if g.opt_pos == 1 then skip_args (length g.argv - g.optind) g else g)
