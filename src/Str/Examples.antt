-- ===== src/Str/Examples.antt =====
-- Runs of the string routines on one memory, and the theorems at that memory.
use witos.Base.{ℕ, ◌<◌, ◌≡◌, refl, ◌⊎◌, inr, Option, some, List, [], ◌∷◌, ◌++◌, arith, get_or, ℤ}
use witos.Memory.{Memory, IsStr, Holds}
use witos.Str.Length.{strlen, strlen-length}
use witos.Str.Move.{memcpy, memmove, moved, memcpy-moved, memmove-moved}
use witos.Str.Copy.{strcpy, strncpy, padded, copies-moved}
use witos.Str.Concat.{strcat, strcat-append}
use witos.Str.Compare.{strcmp, strcasecmp, strncmp, memcmp, Orders, comparisons-Orders}
use witos.Str.Search.{strrchr, strstr, IsFirst, IsLast, searches-FirstLast}

-- "abab" at 0, "ba" at 5, zeros behind.
abbrev memory : Memory
memory a = get_or (97 ∷ 98 ∷ 97 ∷ 98 ∷ 0 ∷ 98 ∷ 97 ∷ 0 ∷ []) a 0

abbrev abab : List ℕ
abab = 97 ∷ 98 ∷ 97 ∷ 98 ∷ []

abbrev ba : List ℕ
ba = 98 ∷ 97 ∷ []

memory-abab : IsStr memory 0 abab
memory-abab = ground arith

memory-ba : IsStr memory 5 ba
memory-ba = ground arith

strlen_runs : strlen 5 memory 0 ≡ some 4
unfolding strlen
strlen_runs = refl

strlen-length_example : strlen 5 memory 0 ≡ some 4
strlen-length_example = strlen-length 5 memory 0 abab memory-abab (omega arith)

memcpy-moved_example : memcpy memory 10 0 4 11 ≡ 98
memcpy-moved_example = memcpy-moved memory 10 0 4 11 (inr (omega arith))

memmove-moved_example : memmove memory 1 0 4 2 ≡ 98
memmove-moved_example = memmove-moved memory 1 0 4 2

strcat-append_example :
    (m' : Memory) × (strcat 5 memory 5 0 ≡ some m')
    × IsStr m' 5 (ba ++ abab)
    × ((a : ℕ) → (a < 7) ⊎ (11 < a) → m' a ≡ memory a)
strcat-append_example =
    strcat-append 5 memory 5 0 ba abab memory-ba memory-abab (inr (omega arith)) (omega arith)
      (omega arith)

copies-moved_example :
    ((m' : Memory) × (strcpy 5 memory 10 0 ≡ some m') × ((a : ℕ) → m' a ≡ moved memory 10 0 5 a))
    × ((a : ℕ) → strncpy memory 10 0 6 a ≡ padded memory 10 0 6 4 a)
copies-moved_example =
    copies-moved 5 memory 10 0 6 abab memory-abab (inr (omega arith)) (inr (omega arith))
      (omega arith)

-- The ranges differ behind a NUL.
comparisons-Orders_example :
    ((z : ℤ) × (strcmp 5 memory 0 5 ≡ some z)
      × (strcasecmp 5 memory 0 5 ≡ some z)
      × Orders abab ba z)
    × ((z : ℤ) × (strncmp 5 memory 0 5 7 ≡ some z) × Orders abab ba z)
    × Orders (0 ∷ 98 ∷ []) (0 ∷ 0 ∷ []) (memcmp memory 4 7 2)
comparisons-Orders_example =
    comparisons-Orders 5 memory 0 5 7 abab ba 4 7 (0 ∷ 98 ∷ []) (0 ∷ 0 ∷ []) memory-abab memory-ba
      (omega arith) (ground arith) (ground arith) refl

searches-FirstLast_example :
    ((r : Option ℕ) × (strstr 5 memory 0 5 ≡ some r) × IsFirst (λ a. Holds memory a ba) 0 4 r)
    × ((r : Option ℕ) × (strrchr 5 memory 0 97 ≡ some r) × IsLast (λ a. memory a ≡ 97) 0 4 r)
searches-FirstLast_example =
    searches-FirstLast 5 memory 0 5 97 abab ba memory-abab memory-ba (omega arith) (omega arith)
