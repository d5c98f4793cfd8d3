-- ===== src/Str/Search.antt =====
-- strchr, strrchr, strstr and strcasestr of lib/std/string.c. The inner option is the pointer that is
-- returned, `none` for NULL; the outer one is `none` when the fuel runs out.
use witos.Base.{
  ℕ, zero, suc, ◌+◌, ◌-◌, ◌≤◌, ◌<◌, ◌≡◌, refl, ◌↔◌, inl, inr, Bool-cases, Option, none, some, List,
  [], ◌∷◌, arith, ◌==◌, if◌then◌else◌, ◌>>=◌, length,
}
use native.Mathlib.Decide.{ℕ_discrete}
use witos.Memory.{Memory, IsStr, Holds}
use witos.Str.Length.{scan_nul, scan_nul-IsStr}

pub strchr : ℕ → Memory → (src c : ℕ) → Option (Option ℕ)
strchr zero m iter c = none
strchr (suc f) m iter c =
    let rest = strchr f m (iter + 1) c in
    if m iter == 0 then some none else if m iter == c then some (some iter) else rest

-- while (iter > src) { iter--; if (*iter == c) return iter; }; the number is `iter - src`.
search_back : ℕ → Memory → (src c : ℕ) → Option ℕ
search_back zero m src c = none
search_back (suc k) m src c = if m (src + k) == c then some (src + k) else search_back k m src c

pub strrchr : ℕ → Memory → (src c : ℕ) → Option (Option ℕ)
unfolding search_back
strrchr f m src c = do iter ← scan_nul f m src; some (search_back (iter - src) m src c)

-- while (q[i] && q[i] == p[i]) i++;
match_length : ℕ → Memory → (p q i : ℕ) → Option ℕ
match_length zero m p q i = none
match_length (suc f) m p q i =
    let rest = match_length f m p q (i + 1) in
    if m (q + i) == 0 then some i else if m (q + i) == m (p + i) then rest else some i

-- The outer loop of `strstr`, with its own fuel; `g` is that of the inner loop.
find_text : ℕ → ℕ → Memory → (p q : ℕ) → Option (Option ℕ)
find_text zero g m p q = none
find_text (suc f) g m p q =
    let rest = find_text f g m (p + 1) q in
    if m p == 0
    then some none
    else do i ← match_length g m p q 0; if m (q + i) == 0 then some (some p) else rest

pub strstr : ℕ → Memory → (haystack needle : ℕ) → Option (Option ℕ)
unfolding match_length find_text
strstr f m haystack needle = find_text f f m haystack needle

-- The search that is a stub in the source: it returns NULL.
pub strcasestr : Memory → (haystack needle : ℕ) → Option ℕ
strcasestr m haystack needle = none

-- `r` is the first address of `[p, p + n)` at which `P` holds, `none` if there is none.
abbrev pub IsFirst : (ℕ → Type 0) → (p n : ℕ) → Option ℕ → Type 0
IsFirst P p n none = (a : ℕ) → p ≤ a → a < p + n → ¬ P a
IsFirst P p n (some q) = (p ≤ q) × (q < p + n) × P q × ((a : ℕ) → p ≤ a → a < q → ¬ P a)

-- The same for the last address.
abbrev pub IsLast : (ℕ → Type 0) → (p n : ℕ) → Option ℕ → Type 0
IsLast P p n none = (a : ℕ) → p ≤ a → a < p + n → ¬ P a
IsLast P p n (some q) = (p ≤ q) × (q < p + n) × P q × ((a : ℕ) → q < a → a < p + n → ¬ P a)

-- A first address behind `p` is the first of all when `p` itself does not do.
IsFirst-suc :
    (P : ℕ → Type 0) (p n : ℕ) (r : Option ℕ)
    → ¬ P p
    → IsFirst P (p + 1) n r
    → IsFirst P p (suc n) r
IsFirst-suc P p n none h first = λ a lo hi. elim (ℕ_discrete a p) [
  | yes e ↦ rw e h
  | no ne ↦ first a (omega arith) (omega arith)
]
IsFirst-suc P p n (some q) h (lo, hi, found, before) = (
  omega arith,
  omega arith,
  found,
  λ a low high. elim (ℕ_discrete a p) [ yes e ↦ rw e h | no ne ↦ before a (omega arith) high ],
)

-- `strchr` ends on a terminated text and returns the first place of the byte before the NUL, or
-- NULL if it does not occur there.
pub strchr-IsFirst :
    (f : ℕ) (m : Memory) (p c : ℕ) (s : List ℕ)
    → IsStr m p s
    → length s < f
    → (r : Option ℕ) × (strchr f m p c ≡ some r) × IsFirst (λ a. m a ≡ c) p (length s) r
unfolding strchr
strchr-IsFirst zero m p c s h fuel = absurd (omega arith)
strchr-IsFirst (suc f) m p c [] h fuel = (none, ground arith, λ a lo hi e. omega arith)
strchr-IsFirst (suc f) m p c (d ∷ s) h fuel = elim (Bool-cases (m p == c)) [
  | inl hit ↦ (
    some p,
    ground arith,
    (omega arith, omega arith, ground arith, λ a lo hi. absurd (omega arith)),
  )
  | inr miss ↦
      let (r, run, first) = strchr-IsFirst f m (p + 1) c s h.2 (omega arith) in
      (r, ground arith, IsFirst-suc (λ a. m a ≡ c) p (length s) r (ground arith) first)
]

-- The same at the other end.
IsLast-suc :
    (P : ℕ → Type 0) (p n : ℕ) (r : Option ℕ) → ¬ P (p + n) → IsLast P p n r → IsLast P p (suc n) r
IsLast-suc P p n none h last =
    λ a lo hi. elim (ℕ_discrete a (p + n)) [ yes e ↦ rw e h | no ne ↦ last a lo (omega arith) ]
IsLast-suc P p n (some q) h (lo, hi, found, behind) = (
  lo,
  omega arith,
  found,
  λ a low high. elim (ℕ_discrete a (p + n)) [ yes e ↦ rw e h | no ne ↦ behind a low (omega arith) ],
)

-- `strrchr`, once it has found the NUL, looks at `k` bytes.
search_back-IsLast :
    (k : ℕ) (m : Memory) (p c : ℕ) → IsLast (λ a. m a ≡ c) p k (search_back k m p c)
unfolding search_back
search_back-IsLast zero m p c = λ a lo hi e. omega arith
search_back-IsLast (suc k) m p c = elim (Bool-cases (m (p + k) == c)) [
  | inl hit ↦ rw hit (omega arith, omega arith, ground arith, λ a lo hi. absurd (omega arith))
  | inr miss ↦ rw miss (IsLast-suc (λ a. m a ≡ c) p k _ (ground arith) (search_back-IsLast k m p c))
]

-- `strrchr` ends on a terminated text and returns the last place of the byte before the NUL, or
-- NULL if it does not occur there.
pub strrchr-IsLast :
    (f : ℕ) (m : Memory) (p c : ℕ) (s : List ℕ)
    → IsStr m p s
    → length s < f
    → (r : Option ℕ) × (strrchr f m p c ≡ some r) × IsLast (λ a. m a ≡ c) p (length s) r
unfolding strrchr
strrchr-IsLast f m p c s h fuel =
    let e : p + length s - p ≡ length s = omega arith in
    (
      search_back (length s) m p c,
      rw (scan_nul-IsStr f m p s h fuel, e) refl,
      search_back-IsLast (length s) m p c,
    )

-- The inner loop stops at the end of the needle exactly if the needle stands there.
match_length-Holds :
    (f : ℕ) (m : Memory) (p q i : ℕ) (t : List ℕ)
    → IsStr m (q + i) t
    → length t < f
    → (j : ℕ) × (match_length f m p q i ≡ some j) × ((m (q + j) ≡ 0) ↔ Holds m (p + i) t)
unfolding match_length
match_length-Holds zero m p q i t h fuel = absurd (omega arith)
match_length-Holds (suc f) m p q i [] h fuel = (i, ground arith, ground arith)
match_length-Holds (suc f) m p q i (c ∷ t) h fuel = elim (Bool-cases (m (q + i) == m (p + i))) [
  | inl same ↦
      let e : q + i + 1 ≡ q + (i + 1) = omega arith in
      let e' : p + (i + 1) ≡ p + i + 1 = omega arith in
      let (j, run, both) = match_length-Holds f m p q (i + 1) t (rw e at h.2) (omega arith) in
      (j, ground arith, (λ z. (ground arith, rw e' at (both.0 z)), λ k. both.1 (rw (← e') at k.1)))
  | inr differ ↦ (i, ground arith, (λ z. ground arith, λ k. ground arith))
]

find_text-IsFirst :
    (f g : ℕ) (m : Memory) (p q : ℕ) (s t : List ℕ)
    → IsStr m p s
    → IsStr m q t
    → length s < f
    → length t < g
    → (r : Option ℕ) × (find_text f g m p q ≡ some r) × IsFirst (λ a. Holds m a t) p (length s) r
unfolding find_text
find_text-IsFirst zero g m p q s t hs ht fs ft = absurd (omega arith)
find_text-IsFirst (suc f) g m p q [] t hs ht fs ft = (none, ground arith, λ a lo hi k. omega arith)
find_text-IsFirst (suc f) g m p q (c ∷ s) t hs ht fs ft =
    let e : q ≡ q + 0 = omega arith in
    let e' : p + 0 ≡ p = omega arith in
    let (j, run, both) = match_length-Holds g m p q 0 t (rw e at ht) ft in
    elim (Bool-cases (m (q + j) == 0)) [
      | inl hit ↦ (
        some p,
        ground arith,
        (
          omega arith,
          omega arith,
          rw e' at (both.0 (ground arith)),
          λ a lo hi. absurd (omega arith),
        ),
      )
      | inr miss ↦
          let (r, found, first) = find_text-IsFirst f g m (p + 1) q s t hs.2 ht (omega arith) ft in
          (
            r,
            ground arith,
            IsFirst-suc (λ a. Holds m a t) p (length s) r
                (λ k. ground (arith, both.1 (rw (← e') at k))) first,
          )
    ]

-- `strstr` ends on terminated texts and returns the first address before the NUL of the haystack
-- at which the needle stands, or NULL if there is none.
pub strstr-IsFirst :
    (f : ℕ) (m : Memory) (p q : ℕ) (s t : List ℕ)
    → IsStr m p s
    → IsStr m q t
    → length s < f
    → length t < f
    → (r : Option ℕ) × (strstr f m p q ≡ some r) × IsFirst (λ a. Holds m a t) p (length s) r
unfolding strstr
strstr-IsFirst f m p q s t hs ht fs ft = find_text-IsFirst f f m p q s t hs ht fs ft

-- Searches in a terminated text. `strstr` for a terminated needle returns the first address before
-- the NUL at which the needle stands, `strrchr` the last one before the NUL with the byte; each
-- returns NULL if there is none. Both return, with fuel of one round more than the bytes of each text.
pub searches-FirstLast :
    (f : ℕ) (m : Memory) (p q c : ℕ) (s t : List ℕ)
    → IsStr m p s
    → IsStr m q t
    → length s < f
    → length t < f
    → ((r : Option ℕ) × (strstr f m p q ≡ some r) × IsFirst (λ a. Holds m a t) p (length s) r)
      × ((r : Option ℕ) × (strrchr f m p c ≡ some r) × IsLast (λ a. m a ≡ c) p (length s) r)
searches-FirstLast f m p q c s t hs ht fs ft =
    (strstr-IsFirst f m p q s t hs ht fs ft, strrchr-IsLast f m p c s hs fs)
