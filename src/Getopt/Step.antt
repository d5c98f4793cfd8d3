-- ===== src/Getopt/Step.antt =====
-- The calls of getopt of lib/extra/getopt.c that find an option.
use mathlib.Core.List.{append_assoc, append-nil}
use witos.Base.{
  ℕ, suc, ◌+◌, ◌<◌, ◌≡◌, refl, sym, ap, ◌∙◌, true, false, Option, none, some, List, [], ◌∷◌, ◌++◌,
  ◌==◌, leb, get_or, drop, length, length-append, pos, arith,
}
use witos.Getopt.{Getopt, getopt, take_known, take_argument, next_char, adjust_argv}
use witos.Getopt.Adjust.{Args}
use witos.Getopt.Words.{IsOption, IsPlain}
use witos.Getopt.Scan.{
  Passed, Passed-same, IsBetween, IsInside, adjust_argv-Passed, at_optind, length-argv, get_or-drop,
  get_or-drop_end, drop-suc, getopt-inside,
}

-- The call returns `c` with optarg `value`, and `opts` have moved in front of the passed texts.
pub record Takes (opt_str : List ℕ) (before args opts rest : Args) (c : ℕ) (value : Option (List ℕ))
    (g : Getopt) : Type 0 where
  pub next : Getopt
  pub call : getopt opt_str g ≡ (pos c, next)
  pub optarg : next.optarg ≡ value
  pub between : IsBetween (before ++ opts) args rest next

-- adjust_argv after the texts `opts` of an option.
Takes-adjust :
    (opt_str : List ℕ) (before args opts rest : Args) (c : ℕ) (value : Option (List ℕ))
    (g g' : Getopt)
    → getopt opt_str g ≡ (pos c, adjust_argv g')
    → g'.argv ≡ before ++ (args ++ (opts ++ rest))
    → g'.optind ≡ length before + length args + length opts
    → g'.opt_pos ≡ 1
    → g'.optarg ≡ value
    → 0 < length before
    → Passed before args g'
    → Takes opt_str before args opts rest c value g
Takes-adjust opt_str before args opts rest c value g g' call argv optind at_first optarg front
      passed =
    let (start, end, moved, later) =
      adjust_argv-Passed before args opts rest g' argv optind front passed in
    record {
      next = record g' {
        argv = before ++ (opts ++ (args ++ rest));
        non_arg_start = start;
        non_arg_end = end;
      };
      call = call ∙ ap (λ (x : Getopt). (pos c, x)) moved;
      optarg = optarg;
      between = record {
        argv = sym (append_assoc before opts (args ++ rest));
        optind = omega (arith, optind, length-append before opts);
        opt_pos = at_first;
        some_before = omega (arith, front, length-append before opts);
        passed = Passed-same (before ++ opts) args _ _ refl refl later;
      };
    }

module _ (opt_str : List ℕ) (before args rest : Args) (word : List ℕ) (c : ℕ) (g : Getopt) where
  -- A flag at the end of its text.
  pub getopt-last_flag :
      IsInside before args word (c ∷ []) rest g
      → IsOption opt_str c false
      → Takes opt_str before args (word ∷ []) rest c none g
  unfolding take_known next_char
  getopt-last_flag b o =
      let here : get_or g.argv g.optind [] ≡ word =
        at_optind before args rest word g b.argv b.optind in
      let end : get_or word (suc g.opt_pos) 0 ≡ 0 =
        get_or-drop_end word (suc g.opt_pos) (drop-suc word [] c g.opt_pos b.unread) in
      Takes-adjust opt_str before args (word ∷ []) rest c none g
        record g { optarg = none; optind = suc g.optind; opt_pos = 1 }
        (getopt-inside opt_str before args rest word [] c false g b o
          ∙ rw (take_known, o.colon, next_char, here, end) refl)
        b.argv (omega (arith, b.optind)) refl refl b.some_before
        (Passed-same before args g _ refl refl b.passed)

  -- An argument in the same text.
  pub getopt-joined :
      (v : ℕ) (vs : List ℕ)
      → IsInside before args word (c ∷ v ∷ vs) rest g
      → IsOption opt_str c true
      → (v == 0) ≡ false
      → Takes opt_str before args (word ∷ []) rest c (some (v ∷ vs)) g
  unfolding take_known take_argument
  getopt-joined v vs b o some_text =
      let here : get_or g.argv g.optind [] ≡ word =
        at_optind before args rest word g b.argv b.optind in
      let tail : drop (suc g.opt_pos) word ≡ v ∷ vs = drop-suc word (v ∷ vs) c g.opt_pos b.unread in
      let first : get_or word (suc g.opt_pos) 0 ≡ v = get_or-drop word vs v (suc g.opt_pos) tail in
      Takes-adjust opt_str before args (word ∷ []) rest c (some (v ∷ vs)) g
        record g { optarg = some (v ∷ vs); optind = suc g.optind; opt_pos = 1 }
        (getopt-inside opt_str before args rest word (v ∷ vs) c true g b o
          ∙ rw (take_known, o.colon, take_argument, here, first, some_text, tail) refl)
        b.argv (omega (arith, b.optind)) refl refl b.some_before
        (Passed-same before args g _ refl refl b.passed)

  -- An argument in the next text.
  pub getopt-apart :
      (s : List ℕ) (later : Args)
      → rest ≡ s ∷ later
      → IsInside before args word (c ∷ []) rest g
      → IsOption opt_str c true
      → IsPlain s
      → Takes opt_str before args (word ∷ s ∷ []) later c (some s) g
  unfolding take_known take_argument
  getopt-apart s later here_rest b o plain =
      let here : get_or g.argv g.optind [] ≡ word =
        at_optind before args rest word g b.argv b.optind in
      let end : get_or word (suc g.opt_pos) 0 ≡ 0 =
        get_or-drop_end word (suc g.opt_pos) (drop-suc word [] c g.opt_pos b.unread) in
      let argv : g.argv ≡ before ++ (args ++ (word ∷ s ∷ later)) = rw (b.argv, here_rest) refl in
      let next : get_or g.argv (suc g.optind) [] ≡ s =
        at_optind before (args ++ word ∷ []) later s record g { optind = suc g.optind }
          (argv ∙ ap (λ (l : Args). before ++ l) (sym (append_assoc args (word ∷ []) (s ∷ later))))
          (omega (arith, b.optind, length-append args (word ∷ []))) in
      let long : leb (length g.argv) (suc g.optind) ≡ false =
        ground (arith, length-argv before args (word ∷ s ∷ later) g argv, b.optind) in
      Takes-adjust opt_str before args (word ∷ s ∷ []) later c (some s) g
        record g { optarg = some s; optind = suc (suc g.optind); opt_pos = 1 }
        (getopt-inside opt_str before args rest word [] c true g b o
          ∙ rw (take_known, o.colon, take_argument, here, end, long, next, plain) refl)
        argv (omega (arith, b.optind)) refl refl b.some_before
        (Passed-same before args g _ refl refl b.passed)

  -- A flag with another character behind it.
  pub getopt-flag :
      (d : ℕ) (todo : List ℕ)
      → IsInside before args word (c ∷ d ∷ todo) rest g
      → IsOption opt_str c false
      → (d == 0) ≡ false
      → (g' : Getopt) × (getopt opt_str g ≡ (pos c, g'))
        × (g'.optarg ≡ none)
        × IsInside before args word (d ∷ todo) rest g'
  unfolding take_known next_char
  getopt-flag d todo b o more =
      let here : get_or g.argv g.optind [] ≡ word =
        at_optind before args rest word g b.argv b.optind in
      let tail : drop (suc g.opt_pos) word ≡ d ∷ todo =
        drop-suc word (d ∷ todo) c g.opt_pos b.unread in
      let next : get_or word (suc g.opt_pos) 0 ≡ d = get_or-drop word todo d (suc g.opt_pos) tail in
      let g2 : Getopt = record g { optarg = none; opt_pos = suc g.opt_pos } in
      let (start, end, moved, later) =
        adjust_argv-Passed before args [] (word ∷ rest) g2 b.argv (omega (arith, b.optind))
          b.some_before (Passed-same before args g g2 refl refl b.passed) in
      let g' : Getopt = record g2 {
        argv = before ++ (args ++ word ∷ rest);
        non_arg_start = start;
        non_arg_end = end;
      } in
      (
        g',
        getopt-inside opt_str before args rest word (d ∷ todo) c false g b o
            ∙ rw (take_known, o.colon, next_char, here, next, more)
                (ap (λ (x : Getopt). (pos c, x)) moved),
        refl,
        record {
          argv = refl;
          optind = b.optind;
          dash = b.dash;
          unread = tail;
          some_before = b.some_before;
          passed = rw (append-nil before) at (Passed-same (before ++ []) args _ g' refl refl later);
        },
      )
