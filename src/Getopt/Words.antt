-- ===== src/Getopt/Words.antt =====
-- Command lines as getopt of lib/extra/getopt.c understands them, and the loop of its callers.
use Prim.{Unit}
use witos.Base.{
  ℕ, zero, suc, ◌≡◌, Bool, true, false, Option, none, some, List, [], ◌∷◌, ◌++◌, map, ◌==◌,
  if◌then◌else◌, get_or, ℤ, pos, negsuc, ◌>>=◌,
}
use witos.Getopt.{Getopt, getopt, find_option}
use witos.Getopt.Adjust.{Args}

-- A text that is no option, and the options: the flags `fs` and then `c` in one text, where `c` is a flag
-- too, has its argument behind it in the text, or has it in the next text.
pub data Word : Type 0 where
  plain : (s : List ℕ) → Word
  flags : (fs : List ℕ) → (c : ℕ) → Word
  joined : (fs : List ℕ) → (c v : ℕ) → (vs : List ℕ) → Word
  apart : (fs : List ℕ) → (c : ℕ) → (s : List ℕ) → Word

abbrev pub clustered : List ℕ → ℕ → List ℕ → List ℕ
clustered fs c tail = b'-' ∷ (fs ++ c ∷ tail)

-- The texts of a word that belong to an option.
abbrev pub option_texts : Word → Args
option_texts (plain s) = []
option_texts (flags fs c) = clustered fs c [] ∷ []
option_texts (joined fs c v vs) = clustered fs c (v ∷ vs) ∷ []
option_texts (apart fs c s) = clustered fs c [] ∷ s ∷ []

abbrev pub plain_texts : Word → Args
plain_texts (plain s) = s ∷ []
plain_texts _ = []

abbrev pub texts : List Word → Args
texts [] = []
texts (w ∷ ws) = option_texts w ++ (plain_texts w ++ texts ws)

abbrev pub options : List Word → Args
options [] = []
options (w ∷ ws) = option_texts w ++ options ws

abbrev pub plains : List Word → Args
plains [] = []
plains (w ∷ ws) = plain_texts w ++ plains ws

-- An option that getopt returns, with optarg.
abbrev pub Found : Type 0
Found = ℤ × Option (List ℕ)

abbrev pub flag : ℕ → Found
flag c = (pos c, none)

abbrev pub word_found : Word → List Found
word_found (plain s) = []
word_found (flags fs c) = map flag fs ++ flag c ∷ []
word_found (joined fs c v vs) = map flag fs ++ (pos c, some (v ∷ vs)) ∷ []
word_found (apart fs c s) = map flag fs ++ (pos c, some s) ∷ []

abbrev pub found : List Word → List Found
found [] = []
found (w ∷ ws) = word_found w ++ found ws

-- A character of opt_str, with or without ':' behind it.
pub record IsOption (opt_str : List ℕ) (c : ℕ) (valued : Bool) : Type 0 where
  pub not_nul : (c == 0) ≡ false
  pub not_colon : (c == b':') ≡ false
  pub behind : List ℕ
  pub listed : find_option c opt_str ≡ some behind
  pub colon : (get_or behind 0 0 == b':') ≡ valued

abbrev pub AreFlags : List ℕ → List ℕ → Type 0
AreFlags opt_str [] = Unit
AreFlags opt_str (c ∷ fs) = IsOption opt_str c false × AreFlags opt_str fs

abbrev pub IsPlain : List ℕ → Type 0
IsPlain s = (get_or s 0 0 == b'-') ≡ false

abbrev pub IsWord : List ℕ → Word → Type 0
IsWord opt_str (plain s) = IsPlain s
IsWord opt_str (flags fs c) = AreFlags opt_str fs × IsOption opt_str c false
IsWord opt_str (joined fs c v vs) =
    AreFlags opt_str fs × IsOption opt_str c true × ((v == 0) ≡ false)
IsWord opt_str (apart fs c s) = AreFlags opt_str fs × IsOption opt_str c true × IsPlain s

abbrev pub AreWords : List ℕ → List Word → Type 0
AreWords opt_str [] = Unit
AreWords opt_str (w ∷ ws) = IsWord opt_str w × AreWords opt_str ws

abbrev is_end : ℤ → Bool
is_end (pos c) = false
is_end (negsuc n) = true

-- while ((ch = getopt(argc, argv, opt_str)) != -1), with what it collects and the state it leaves; at
-- most `calls` calls are made.
abbrev pub collect : Found → List Found × Getopt → List Found × Getopt
collect f r = (f ∷ r.0, r.1)

unfoldable pub run : (calls : ℕ) → List ℕ → Getopt → Option (List Found × Getopt)
run zero opt_str g = none
run (suc calls) opt_str g =
    let r = getopt opt_str g in
    let rest = run calls opt_str r.1 >>= (λ later. some (collect (r.0, r.1.optarg) later)) in
    if is_end r.0 then some ([], r.1) else rest
