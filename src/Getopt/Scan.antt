-- ===== src/Getopt/Scan.antt =====
-- One call of getopt of lib/extra/getopt.c between two texts, and inside one.
use mathlib.Core.List.{append_assoc}
use witos.Base.{
  ℕ, zero, suc, ◌+◌, ◌-◌, ◌<◌, ◌≡◌, refl, sym, ap, ◌∙◌, Bool, true, false, List, [], ◌∷◌, ◌++◌,
  ◌==◌, if◌then◌else◌, ltb, leb, ◌&&◌, get_or, drop, length, length-append, Bool-cases, inl, inr,
  arith,
}
use witos.Getopt.{
  Getopt, getopt, getopt_at, current, skip_args, take_option, take_known, adjust_argv,
}
use witos.Getopt.Adjust.{Args, adjust_argv-moves}
use witos.Getopt.Words.{IsOption, IsPlain}

-- The texts `args` that are passed over stand behind `before`, up to non_arg_end.
abbrev pub Passed : Args → Args → Getopt → Type 0
Passed before [] g = g.non_arg_start ≡ 0
Passed before (a ∷ args) g =
    (g.non_arg_start ≡ length before) × (suc g.non_arg_end ≡ length before + suc (length args))

pub Passed-same :
    (before args : Args) (g g' : Getopt)
    → g'.non_arg_start ≡ g.non_arg_start
    → g'.non_arg_end ≡ g.non_arg_end
    → Passed before args g
    → Passed before args g'
Passed-same before [] g g' start end passed = start ∙ passed
Passed-same before (a ∷ args) g g' start end passed = (start ∙ passed.0, ap suc end ∙ passed.1)

-- Between two texts: `rest` is not read yet.
pub record IsBetween (before args rest : Args) (g : Getopt) : Type 0 where
  pub argv : g.argv ≡ before ++ (args ++ rest)
  pub optind : g.optind ≡ length before + length args
  pub opt_pos : g.opt_pos ≡ 1
  pub some_before : 0 < length before
  pub passed : Passed before args g

-- Inside the text `word`, of which `todo` is not read yet.
pub record IsInside (before args : Args) (word todo : List ℕ) (rest : Args) (g : Getopt)
    : Type 0 where
  pub argv : g.argv ≡ before ++ (args ++ word ∷ rest)
  pub optind : g.optind ≡ length before + length args
  pub dash : (get_or word 0 0 == b'-') ≡ true
  pub unread : drop g.opt_pos word ≡ todo
  pub some_before : 0 < length before
  pub passed : Passed before args g

-- adjust_argv with `opts` between the passed texts and optind.
pub adjust_argv-Passed :
    (before args opts rest : Args) (g : Getopt)
    → g.argv ≡ before ++ (args ++ (opts ++ rest))
    → g.optind ≡ length before + length args + length opts
    → 0 < length before
    → Passed before args g
    → (start end : ℕ) × (adjust_argv g ≡ record g {
      argv = before ++ (opts ++ (args ++ rest));
      non_arg_start = start;
      non_arg_end = end;
    })
      × Passed (before ++ opts) args record g { non_arg_start = start; non_arg_end = end }
unfolding adjust_argv
adjust_argv-Passed before [] opts rest g at here front passed =
    (g.non_arg_start, g.non_arg_end, ground arith, passed)
adjust_argv-Passed before (a ∷ args) opts rest g at here front passed = (
  length before + length opts,
  g.non_arg_end + length opts,
  adjust_argv-moves before (a ∷ args) opts rest g at front passed.0 passed.1 here,
  (sym (length-append before opts), omega (arith, length-append before opts, passed.1)),
)

get_or-append : (p r : Args) (x : List ℕ) → get_or (p ++ x ∷ r) (length p) [] ≡ x
get_or-append [] r x = refl
get_or-append (y ∷ p) r x = get_or-append p r x

-- The text at optind.
pub at_optind :
    (before args rest : Args) (x : List ℕ) (g : Getopt)
    → g.argv ≡ before ++ (args ++ x ∷ rest)
    → g.optind ≡ length before + length args
    → get_or g.argv g.optind [] ≡ x
at_optind before args rest x g argv optind =
    let n : g.optind ≡ length (before ++ args) = omega (arith, length-append before args) in
    rw (argv, n, sym (append_assoc before args (x ∷ rest))) (get_or-append (before ++ args) rest x)

pub length-argv :
    (before args rest : Args) (g : Getopt)
    → g.argv ≡ before ++ (args ++ rest)
    → length g.argv ≡ length before + (length args + length rest)
length-argv before args rest g argv = omega (
  arith,
  ap (length {A = List ℕ}) argv,
  length-append before (args ++ rest),
  length-append args rest,
)

pub get_or-drop : (word todo : List ℕ) (c p : ℕ) → drop p word ≡ c ∷ todo → get_or word p 0 ≡ c
get_or-drop [] todo c zero e = cc
get_or-drop [] todo c (suc p) e = cc
get_or-drop (x ∷ word) todo c zero e = cc
get_or-drop (x ∷ word) todo c (suc p) e = get_or-drop word todo c p e

pub get_or-drop_end : (word : List ℕ) (p : ℕ) → drop p word ≡ [] → get_or word p 0 ≡ 0
get_or-drop_end [] zero e = refl
get_or-drop_end [] (suc p) e = refl
get_or-drop_end (x ∷ word) zero e = cc
get_or-drop_end (x ∷ word) (suc p) e = get_or-drop_end word p e

pub drop-suc : (word todo : List ℕ) (c p : ℕ) → drop p word ≡ c ∷ todo → drop (suc p) word ≡ todo
drop-suc [] todo c zero e = cc
drop-suc [] todo c (suc p) e = cc
drop-suc (x ∷ word) todo c zero e = cc
drop-suc (x ∷ word) todo c (suc p) e = drop-suc word todo c p e

-- A text that is no option is passed over.
passed_over : Getopt → Getopt
passed_over g = record g {
  non_arg_end = g.optind;
  non_arg_start = if g.non_arg_start == 0 then g.optind else g.non_arg_start;
  optind = suc g.optind;
}

Passed-passed_over :
    (before args : Args) (s : List ℕ) (g : Getopt)
    → g.optind ≡ length before + length args
    → 0 < length before
    → Passed before args g
    → Passed before (args ++ s ∷ []) (passed_over g)
unfolding passed_over
Passed-passed_over before [] s g here front passed = ground arith
Passed-passed_over before (a ∷ args) s g here front passed =
    (ground arith, ground (arith, length-append args (s ∷ [])))

pub getopt-plain :
    (opt_str : List ℕ) (before args rest : Args) (s : List ℕ) (g : Getopt)
    → IsBetween before args (s ∷ rest) g
    → IsPlain s
    → (g' : Getopt) × (getopt opt_str g ≡ getopt opt_str g')
      × IsBetween before (args ++ s ∷ []) rest g'
unfolding getopt skip_args passed_over
getopt-plain opt_str before args rest s g b plain =
    let long : length g.argv ≡ length before + (length args + suc (length rest)) =
      length-argv before args (s ∷ rest) g b.argv in
    let rounds : length g.argv - g.optind ≡ suc (length rest) = omega (arith, long, b.optind) in
    let fewer : length g.argv - suc g.optind ≡ length rest = omega (arith, long, b.optind) in
    let here : get_or g.argv g.optind [] ≡ s = at_optind before args rest s g b.argv b.optind in
    let more : ltb g.optind (length g.argv) ≡ true = ground (arith, long, b.optind) in
    (
      passed_over g,
      rw (b.opt_pos, rounds, fewer, skip_args, here, more, plain) refl,
      record {
        argv = b.argv ∙ ap (λ (l : Args). before ++ l) (sym (append_assoc args (s ∷ []) rest));
        optind = omega (arith, b.optind, length-append args (s ∷ []));
        opt_pos = b.opt_pos;
        some_before = b.some_before;
        passed = Passed-passed_over before args s g b.optind b.some_before b.passed;
      },
    )

-- At an option nothing is passed over.
skip_args-option :
    (rounds : ℕ) (g : Getopt) (word : List ℕ)
    → get_or g.argv g.optind [] ≡ word
    → (get_or word 0 0 == b'-') ≡ true
    → skip_args rounds g ≡ g
unfolding skip_args
skip_args-option zero g word here dash = refl
skip_args-option (suc rounds) g word here dash = elim (Bool-cases (ltb g.optind (length g.argv))) [
  | inl more ↦ rw (skip_args, more, here, dash) refl
  | inr over ↦ rw (skip_args, over) refl
]

and_false : (b : Bool) → (b && false) ≡ false
and_false true = refl
and_false false = refl

pub getopt-inside :
    (opt_str : List ℕ) (before args rest : Args) (word todo : List ℕ) (c : ℕ) (valued : Bool)
    (g : Getopt)
    → IsInside before args word (c ∷ todo) rest g
    → (o : IsOption opt_str c valued) → getopt opt_str g ≡ take_known opt_str c o.behind g
unfolding getopt getopt_at take_option
getopt-inside opt_str before args rest word todo c valued g b o =
    let long : length g.argv ≡ length before + (length args + suc (length rest)) =
      length-argv before args (word ∷ rest) g b.argv in
    let here : get_or g.argv g.optind [] ≡ word =
      at_optind before args rest word g b.argv b.optind in
    let char : get_or word g.opt_pos 0 ≡ c = get_or-drop word todo c g.opt_pos b.unread in
    let there : get_or (current g) g.opt_pos 0 ≡ c = rw here char in
    let more : leb (length g.argv) g.optind ≡ false = ground (arith, long, b.optind) in
    let stays = skip_args-option (length g.argv - g.optind) g word here b.dash in
    let same : (if g.opt_pos == 1 then skip_args (length g.argv - g.optind) g else g) ≡ g =
      elim (Bool-cases (g.opt_pos == 1)) [
        | inl first ↦ rw (first, stays) refl
        | inr later ↦ rw later refl
      ] in
    ap (getopt_at opt_str) same
    ∙ rw
        (
          getopt_at,
          here,
          char,
          more,
          o.not_nul,
          and_false (g.opt_pos == 1),
          take_option,
          o.not_colon,
          o.listed,
        )
        (ap (λ (x : ℕ). take_known opt_str x o.behind g) there)
