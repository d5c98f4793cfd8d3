-- ===== src/Getopt/Examples.antt =====
-- Runs of getopt, and the theorem at a concrete command line.
use Prim.{tt}
use witos.Base.{
  ℕ, suc, ◌+◌, ◌≡◌, true, false, refl, none, some, List, [], ◌∷◌, ◌++◌, length, pos, codes,
}
use witos.Getopt.{
  Getopt, getopt_init, getopt, getopt_at, skip_args, no_option, take_option, take_known,
  take_argument, find_option, next_char, adjust_argv, adjust_loop, sink, swap_args,
}
use witos.Getopt.Words.{
  Word, plain, flags, joined, apart, texts, found, options, plains, IsOption, run,
}
use witos.Getopt.Parse.{getopt-Words}

-- tftp x -va y -ofile z -l w
abbrev opt_str : List ℕ
opt_str = codes "avo:l::"

abbrev words : List Word
words =
    plain (codes "x")
    ∷ flags (codes "v") b'a'
    ∷ plain (codes "y")
    ∷ joined [] b'o' b'f' (codes "ile")
    ∷ plain (codes "z")
    ∷ apart [] b'l' (codes "w")
    ∷ []

abbrev before_init : (argv : List (List ℕ)) → Getopt
before_init argv = record {
  argv = argv;
  optarg = none;
  optind = 7;
  optopt = 0;
  opt_pos = 3;
  non_arg_start = 2;
  non_arg_end = 2;
}

a_IsOption : IsOption opt_str b'a' false
unfolding find_option
a_IsOption = record {
  not_nul = refl;
  not_colon = refl;
  behind = codes "vo:l::";
  listed = refl;
  colon = refl;
}

v_IsOption : IsOption opt_str b'v' false
unfolding find_option
v_IsOption = record {
  not_nul = refl;
  not_colon = refl;
  behind = codes "o:l::";
  listed = refl;
  colon = refl;
}

o_IsOption : IsOption opt_str b'o' true
unfolding find_option
o_IsOption = record {
  not_nul = refl;
  not_colon = refl;
  behind = codes ":l::";
  listed = refl;
  colon = refl;
}

l_IsOption : IsOption opt_str b'l' true
unfolding find_option
l_IsOption = record {
  not_nul = refl;
  not_colon = refl;
  behind = codes "::";
  listed = refl;
  colon = refl;
}

getopt-Words_example :
    (end : Getopt) × (run
        (suc (length (found words)))
        opt_str
        (getopt_init (before_init (codes "tftp" ∷ texts words)))
      ≡ some (found words, end))
    × (end.argv ≡ codes "tftp" ∷ (options words ++ plains words))
    × (end.optind ≡ 1 + length (options words))
getopt-Words_example =
    getopt-Words opt_str (codes "tftp") words (before_init (codes "tftp" ∷ texts words))
      (
        refl,
        (
          ((v_IsOption, tt), a_IsOption),
          (refl, ((tt, o_IsOption, refl), (refl, ((tt, l_IsOption, refl), tt)))),
        ),
      )
      refl

-- An option that is not listed is not moved, and stays between the plain texts: x -q y -a.
unlisted_stays :
    (end : Getopt) × (run 4 opt_str (
        getopt_init
          (before_init (codes "cmd" ∷ codes "x" ∷ codes "-q" ∷ codes "y" ∷ codes "-a" ∷ [])))
      ≡ some ((pos b'?', none) ∷ (pos b'a', none) ∷ [], end))
    × (end.argv ≡ codes "cmd" ∷ codes "-a" ∷ codes "x" ∷ codes "-q" ∷ codes "y" ∷ [])
    × (end.optind ≡ 2)
unfolding run getopt_init getopt getopt_at skip_args no_option take_option take_known take_argument
    find_option next_char adjust_argv adjust_loop sink swap_args
unlisted_stays = (_, refl, refl, refl)
