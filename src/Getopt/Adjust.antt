-- ===== src/Getopt/Adjust.antt =====
-- adjust_argv of lib/extra/getopt.c: what its swaps make of argv.
use mathlib.Core.List.{append_assoc}
use witos.Base.{
  ℕ, zero, suc, ◌+◌, ◌-◌, ◌≡◌, refl, sym, ap, ◌∙◌, List, [], ◌∷◌, ◌++◌, true, arith, length,
  length-append, ltb, ◌<◌,
}
use witos.Getopt.{Getopt, swap_args, sink, adjust_loop, adjust_argv}

abbrev pub Args : Type 0
Args = List (List ℕ)

swap_args-append :
    (p rest : Args) (x y : List ℕ) → swap_args (length p) (p ++ x ∷ y ∷ rest) ≡ p ++ y ∷ x ∷ rest
unfolding swap_args
swap_args-append [] rest x y = refl
swap_args-append (z ∷ p) rest x y = ap (λ (l : Args). z ∷ l) (swap_args-append p rest x y)

-- A list that is not empty has a last element.
last_of :
    (k : ℕ) (l : Args)
    → length l ≡ suc k
    → (init : Args) × (y : List ℕ) × (l ≡ init ++ y ∷ []) × (length init ≡ k)
last_of k [] size = absurd (omega arith)
last_of zero (x ∷ []) size = ([], x, refl, refl)
last_of (suc k) (x ∷ []) size = absurd (omega arith)
last_of zero (x ∷ z ∷ l) size = absurd (omega arith)
last_of (suc k) (x ∷ z ∷ l) size =
    let (init, y, e, n) = last_of k (z ∷ l) (omega arith) in
    (x ∷ init, y, ap (λ (r : Args). x ∷ r) e, ap suc n)

-- The last element of `args` moved over.
split_last :
    (args init rest : Args) (y : List ℕ) → args ≡ init ++ y ∷ [] → args ++ rest ≡ init ++ y ∷ rest
split_last args init rest y e = rw (e, append_assoc init (y ∷ []) rest)

-- A text that sinks below `args` stands in front of them.
sink-moves :
    (k : ℕ) (before args rest : Args) (x : List ℕ)
    → length args ≡ k
    → sink k (length before + k) (before ++ (args ++ x ∷ rest)) ≡ before ++ x ∷ (args ++ rest)
unfolding sink
sink-moves zero before [] rest x size = refl
sink-moves zero before (y ∷ args) rest x size = absurd (omega arith)
sink-moves (suc k) before args rest x size =
    let (init, y, e, n) = last_of k args size in
    let i : length before + suc k - 1 ≡ length (before ++ init) =
      omega (arith, length-append before init) in
    let j : length (before ++ init) ≡ length before + k =
      omega (arith, length-append before init) in
    let regroup : before ++ (args ++ x ∷ rest) ≡ (before ++ init) ++ y ∷ x ∷ rest =
      ap (λ (l : Args). before ++ l) (split_last args init (x ∷ rest) y e)
      ∙ sym (append_assoc before init (y ∷ x ∷ rest)) in
    let later : sink k (length (before ++ init)) ((before ++ init) ++ x ∷ y ∷ rest)
        ≡ before ++ x ∷ (init ++ y ∷ rest) =
      rw (j, append_assoc before init (x ∷ y ∷ rest)) (sink-moves k before init (y ∷ rest) x n) in
    rw
      (i, regroup, swap_args-append (before ++ init) rest y x, later, split_last args init rest y e)

-- The loop moves `opts` in front of `args`.
adjust_loop-moves :
    (before args opts rest : Args) (g : Getopt)
    → g.argv ≡ before ++ (args ++ (opts ++ rest))
    → g.non_arg_start ≡ length before
    → adjust_loop (length opts) (length before + length args) g ≡ record g {
      argv = before ++ (opts ++ (args ++ rest));
      non_arg_start = length before + length opts;
      non_arg_end = g.non_arg_end + length opts;
    }
unfolding adjust_loop
adjust_loop-moves before args [] rest g at start = ground arith
adjust_loop-moves before args (x ∷ opts) rest g at start =
    let b = before ++ x ∷ [] in
    let longer : length b ≡ length before + 1 = length-append before (x ∷ []) in
    let off : length before + length args - length before ≡ length args = omega arith in
    let sunk : sink (length before + length args - g.non_arg_start) (length before + length args)
          g.argv
        ≡ before ++ x ∷ (args ++ (opts ++ rest)) =
      rw (at, start, off) (sink-moves (length args) before args (opts ++ rest) x refl) in
    let n : suc (length before + length args) ≡ length b + length args = omega (arith, longer) in
    let g' : Getopt = record g {
      argv = before ++ x ∷ (args ++ (opts ++ rest));
      non_arg_start = suc g.non_arg_start;
      non_arg_end = suc g.non_arg_end;
    } in
    let later =
      adjust_loop-moves b args opts rest g'
        (sym (append_assoc before (x ∷ []) (args ++ (opts ++ rest))))
        (omega (arith, longer, start)) in
    let whole = append_assoc before (x ∷ []) (opts ++ (args ++ rest)) in
    rw (adjust_loop, sunk, n) (later ∙ ground (arith, whole, longer))

-- When the texts `args` that are no options stand in argv from non_arg_start to non_arg_end, and the texts
-- `opts` between them and optind, adjust_argv moves `opts` in front of `args`, keeps the order of
-- both and all other texts in place, and non_arg_start and non_arg_end move along.
pub adjust_argv-moves :
    (before args opts rest : Args) (g : Getopt)
    → g.argv ≡ before ++ (args ++ (opts ++ rest))
    → 0 < length before
    → g.non_arg_start ≡ length before
    → suc g.non_arg_end ≡ length before + length args
    → g.optind ≡ length before + length args + length opts
    → adjust_argv g ≡ record g {
      argv = before ++ (opts ++ (args ++ rest));
      non_arg_start = length before + length opts;
      non_arg_end = g.non_arg_end + length opts;
    }
unfolding adjust_argv
adjust_argv-moves before args opts rest g at some_before start end here =
    let rounds : g.optind - suc g.non_arg_end ≡ length opts = omega arith in
    let some_args : ltb 0 g.non_arg_start ≡ true = ground arith in
    rw (some_args, rounds, end) (adjust_loop-moves before args opts rest g at start)
