-- ===== src/Getopt/Parse.antt =====
-- The loop over getopt of lib/extra/getopt.c on a whole command line.
use mathlib.Core.List.{append_assoc}
use witos.Base.{
  ℕ, suc, ◌+◌, ◌-◌, ◌<◌, ◌≡◌, refl, ap, ◌∙◌, true, false, Option, none, some, List, [], ◌∷◌, ◌++◌,
  map, ◌==◌, leb, length, length-append, length-map, pos, arith,
}
use witos.Getopt.{Getopt, getopt, getopt_at, getopt_init, skip_args, no_option}
use witos.Getopt.Adjust.{Args}
use witos.Getopt.Words.{
  Word, plain, flags, joined, apart, clustered, texts, options, plains, Found, flag, found,
  AreFlags, AreWords, run,
}
use witos.Getopt.Scan.{Passed, IsBetween, IsInside, length-argv, getopt-plain}
use witos.Getopt.Step.{Takes, getopt-flag, getopt-last_flag, getopt-joined, getopt-apart}

-- The loop ends with these options, this argv and this optind.
abbrev Ran : List ℕ → (calls : ℕ) → List Found → Args → ℕ → Getopt → Type 0
Ran opt_str calls rs argv optind g =
    (end : Getopt) × (run calls opt_str g ≡ some (rs, end))
    × (end.argv ≡ argv)
    × (end.optind ≡ optind)

abbrev Parses : List ℕ → List Word → (before args : Args) → Getopt → Type 0
Parses opt_str ws before args g =
    Ran opt_str (suc (length (found ws))) (found ws) (before ++ (options ws ++ (args ++ plains ws)))
      (length before + length (options ws)) g

run-step :
    (opt_str : List ℕ) (n c : ℕ) (value : Option (List ℕ)) (rs : List Found) (argv : Args)
    (optind : ℕ) (g g' : Getopt)
    → getopt opt_str g ≡ (pos c, g')
    → g'.optarg ≡ value
    → Ran opt_str n rs argv optind g'
    → Ran opt_str (suc n) ((pos c, value) ∷ rs) argv optind g
unfolding run
run-step opt_str n c value rs argv optind g g' call optarg (end, later, at, here) = (
  end,
  rw (run, call, later) (ap (λ (v : Option (List ℕ)). some ((pos c, v) ∷ rs, end)) optarg),
  at,
  here,
)

-- The flags in front of the last option of a text.
run-flags :
    (opt_str : List ℕ) (before args rest : Args) (word fs tail : List ℕ) (c : ℕ) (g : Getopt)
    → AreFlags opt_str fs
    → (c == 0) ≡ false
    → IsInside before args word (fs ++ c ∷ tail) rest g
    → (g' : Getopt) × IsInside before args word (c ∷ tail) rest g'
      × ((n : ℕ) (rs : List Found) (argv : Args) (optind : ℕ)
          → Ran opt_str n rs argv optind g'
          → Ran opt_str (length fs + n) (map flag fs ++ rs) argv optind g)
run-flags opt_str before args rest word [] tail c g are some_char b =
    (g, b, λ n rs argv optind r. let e : 0 + n ≡ n = omega arith in rw e r)
run-flags opt_str before args rest word (f ∷ []) tail c g are some_char b =
    let (g', call, optarg, inside) =
      getopt-flag opt_str before args rest word f g c tail b are.0 some_char in
    (
      g',
      inside,
      λ n rs argv optind r.
          let e : 1 + n ≡ suc n = omega arith in
          rw e (run-step opt_str n f none rs argv optind g g' call optarg r),
    )
run-flags opt_str before args rest word (f ∷ d ∷ fs) tail c g are some_char b =
    let (g1, call, optarg, inside) =
      getopt-flag opt_str before args rest word f g d (fs ++ c ∷ tail) b are.0 are.1.0.not_nul in
    let (g', last, runs) =
      run-flags opt_str before args rest word (d ∷ fs) tail c g1 are.1 some_char inside in
    (
      g',
      last,
      λ n rs argv optind r.
          let e : suc (length (d ∷ fs)) + n ≡ suc (length (d ∷ fs) + n) = omega arith in
          rw e (
            run-step opt_str (length (d ∷ fs) + n) f none (map flag (d ∷ fs) ++ rs) argv optind g g1
              call optarg (runs n rs argv optind r)),
    )

run-same :
    (opt_str : List ℕ) (n : ℕ) (g g' : Getopt)
    → getopt opt_str g ≡ getopt opt_str g'
    → run (suc n) opt_str g ≡ run (suc n) opt_str g'
unfolding run
run-same opt_str n g g' same = rw (run, same) refl

-- A text of options, once its last option and its argument are taken.
run-text :
    (opt_str : List ℕ) (before args opts rest : Args) (fs tail : List ℕ) (c : ℕ)
    (value : Option (List ℕ)) (ws : List Word) (after : Args) (g : Getopt)
    → AreFlags opt_str fs
    → (c == 0) ≡ false
    → IsBetween before args (clustered fs c tail ∷ after) g
    → ((g' : Getopt)
        → IsInside before args (clustered fs c tail) (c ∷ tail) after g'
        → Takes opt_str before args opts rest c value g')
    → ((g' : Getopt)
        → IsBetween (before ++ opts) args rest g'
        → Parses opt_str ws (before ++ opts) args g')
    → Ran opt_str
        (suc (length ((map flag fs ++ (pos c, value) ∷ []) ++ found ws)))
        ((map flag fs ++ (pos c, value) ∷ []) ++ found ws)
        (before ++ ((opts ++ options ws) ++ (args ++ plains ws)))
        (length before + length (opts ++ options ws))
        g
run-text opt_str before args opts rest fs tail c value ws after g are some_char b takes parses =
    let inside : IsInside before args (clustered fs c tail) (fs ++ c ∷ tail) after g = record {
      argv = b.argv;
      optind = b.optind;
      dash = refl;
      unread = rw b.opt_pos refl;
      some_before = b.some_before;
      passed = b.passed;
    } in
    let (g1, last, runs) =
      run-flags opt_str before args after (clustered fs c tail) fs tail c g are some_char inside in
    let t = takes g1 last in
    let (end, ran, argv, optind) = parses t.next t.between in
    let all = runs (suc (suc (length (found ws)))) ((pos c, value) ∷ found ws) end.argv end.optind (
      run-step opt_str (suc (length (found ws))) c value (found ws) end.argv end.optind g1 t.next
        t.call t.optarg (end, ran, refl, refl)) in
    let grouped = append_assoc (map flag fs) ((pos c, value) ∷ []) (found ws) in
    let size : suc (length (map flag fs ++ (pos c, value) ∷ found ws))
        ≡ length fs + suc (suc (length (found ws))) =
      omega (arith, length-append (map flag fs) ((pos c, value) ∷ found ws), length-map fs flag) in
    let regroup : (before ++ opts) ++ (options ws ++ (args ++ plains ws))
        ≡ before ++ ((opts ++ options ws) ++ (args ++ plains ws)) =
      rw (
        append_assoc before opts (options ws ++ (args ++ plains ws)),
        append_assoc opts (options ws) (args ++ plains ws),
      ) in
    (
      all.0,
      rw (grouped, size) all.1,
      all.2 ∙ argv ∙ regroup,
      all.3 ∙ optind ∙ omega (arith, length-append before opts, length-append opts (options ws)),
    )

-- Behind the last text optind goes back to the first text that was passed over.
no_option-optind :
    (before args : Args) (g : Getopt)
    → g.optind ≡ length before + length args
    → 0 < length before
    → Passed before args g
    → (no_option g).1.optind ≡ length before
unfolding no_option
no_option-optind before [] g here front passed = ground arith
no_option-optind before (a ∷ args) g here front passed = ground arith

run-end :
    (opt_str : List ℕ) (before args : Args) (g : Getopt)
    → IsBetween before args [] g
    → Parses opt_str [] before args g
unfolding run getopt getopt_at skip_args no_option
run-end opt_str before args g b =
    let long : length g.argv ≡ length before + (length args + 0) =
      length-argv before args [] g b.argv in
    let rounds : length g.argv - g.optind ≡ 0 = omega (arith, long, b.optind) in
    let over : leb (length g.argv) g.optind ≡ true = ground (arith, long, b.optind) in
    let stops : getopt opt_str g ≡ no_option g =
      rw (getopt, b.opt_pos, rounds, skip_args, getopt_at, over) refl in
    let back = no_option-optind before args g b.optind b.some_before b.passed in
    ((no_option g).1, rw (run, stops) refl, ground (arith, b.argv), omega (arith, back))

run-words :
    (opt_str : List ℕ) (before args : Args) (ws : List Word) (g : Getopt)
    → AreWords opt_str ws
    → IsBetween before args (texts ws) g
    → Parses opt_str ws before args g
run-words opt_str before args [] g are b = run-end opt_str before args g b
run-words opt_str before args (plain s ∷ ws) g are b =
    let (g', same, between) = getopt-plain opt_str before args (texts ws) s g b are.0 in
    let (end, ran, argv, optind) = run-words opt_str before (args ++ s ∷ []) ws g' are.1 between in
    (
      end,
      run-same opt_str (length (found ws)) g g' same ∙ ran,
      argv
          ∙ ap (λ (l : Args). before ++ (options ws ++ l)) (append_assoc args (s ∷ []) (plains ws)),
      optind,
    )
run-words opt_str before args (flags fs c ∷ ws) g are b =
    run-text opt_str before args (clustered fs c [] ∷ []) (texts ws) fs [] c none ws (texts ws) g
      are.0.0 are.0.1.not_nul b
      (λ g' i. getopt-last_flag opt_str before args (texts ws) (clustered fs c []) c g' i are.0.1)
      (λ g' i. run-words opt_str (before ++ clustered fs c [] ∷ []) args ws g' are.1 i)
run-words opt_str before args (joined fs c v vs ∷ ws) g are b =
    run-text opt_str before args (clustered fs c (v ∷ vs) ∷ []) (texts ws) fs (v ∷ vs) c
      (some (v ∷ vs)) ws (texts ws) g are.0.0 are.0.1.not_nul b
      (λ g' i.
        getopt-joined opt_str before args (texts ws) (clustered fs c (v ∷ vs)) c g' v vs i are.0.1
          are.0.2)
      (λ g' i. run-words opt_str (before ++ clustered fs c (v ∷ vs) ∷ []) args ws g' are.1 i)
run-words opt_str before args (apart fs c s ∷ ws) g are b =
    run-text opt_str before args (clustered fs c [] ∷ s ∷ []) (texts ws) fs [] c (some s) ws
      (s ∷ texts ws) g are.0.0 are.0.1.not_nul b
      (λ g' i.
        getopt-apart opt_str before args (s ∷ texts ws) (clustered fs c []) c g' s (texts ws) refl i
          are.0.1 are.0.2)
      (λ g' i. run-words opt_str (before ++ clustered fs c [] ∷ s ∷ []) args ws g' are.1 i)

-- After getopt_init, the loop over getopt on a command line of plain texts and of options that opt_str lists
-- returns the options of all texts in order, each with its argument, and ends after one call more.
-- Then argv holds the name of the program, the texts of the options in order and the plain
-- texts in order, and optind is the index of the first plain text, or argc.
pub getopt-Words :
    (opt_str : List ℕ) (name : List ℕ) (ws : List Word) (g : Getopt)
    → AreWords opt_str ws
    → g.argv ≡ name ∷ texts ws
    → (end : Getopt) × (run (suc (length (found ws))) opt_str (getopt_init g)
        ≡ some (found ws, end))
      × (end.argv ≡ name ∷ (options ws ++ plains ws))
      × (end.optind ≡ 1 + length (options ws))
unfolding getopt_init
getopt-Words opt_str name ws g are argv =
    run-words opt_str (name ∷ []) [] ws (getopt_init g) are record {
      argv = argv;
      optind = refl;
      opt_pos = refl;
      some_before = omega arith;
      passed = refl;
    }
