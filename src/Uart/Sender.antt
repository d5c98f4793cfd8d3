-- ===== src/Uart/Sender.antt =====
-- The packets of a kermit sender, as the protocol defines them: what lib/uart/kermit.c is compared with.
use witos.Base.{
  ℕ, zero, suc, ◌+◌, ◌-◌, ◌%◌, ◌<◌, ◌≡◌, refl, ap, ◌∙◌, ◌⊎◌, Bool, true, false, not, ◌&&◌, ◌||◌,
  List, [], ◌∷◌, ◌++◌, ◌==◌, ltb, if◌then◌else◌, Bool-cases, ==_iff, inl, inr, length, arith,
}
use witos.Uart.Kermit.{mark_start, key_sharp, key_term, enc_print, check_char, sum, unquote}

-- A control character, or DEL, in the low seven bits.
abbrev pub is_control : ℕ → Bool
is_control c = ltb (c % 128) 32 || c % 128 == 127

abbrev pub flip : ℕ → ℕ
flip c = if ltb (c % 128) 64 then c + 64 else c - 64

unfoldable pub quote : ℕ → List ℕ
quote c =
    if is_control c
    then key_sharp ∷ flip c ∷ []
    else if c % 128 == key_sharp
    then key_sharp ∷ c ∷ []
    else c ∷ []

abbrev pub quote_all : List ℕ → List ℕ
quote_all [] = []
quote_all (c ∷ text) = quote c ++ quote_all text

-- The fields that the check covers.
abbrev pub fields : (seq type_ : ℕ) → List ℕ → List ℕ
fields seq type_ text =
    enc_print (length (quote_all text) + 3) ∷ enc_print seq ∷ type_ ∷ quote_all text

abbrev pub packet : (seq type_ : ℕ) → List ℕ → List ℕ
packet seq type_ text =
    mark_start ∷ (fields seq type_ text ++ check_char (sum (fields seq type_ text)) ∷ key_term ∷ [])

-- What quoted characters must be for the receiver to read `c` from them.
abbrev read_back : (c : ℕ) → List ℕ → Bool
read_back c [] = false
read_back c (x ∷ []) = (x == c) && not (x == key_sharp) && not (x == key_term)
read_back c (x ∷ y ∷ []) = (x == key_sharp) && (unquote y == c) && not (y == key_term)
read_back c (x ∷ y ∷ z ∷ s) = false

abbrev pub all_below : (n : ℕ) → (ℕ → Bool) → Bool
all_below zero test = true
all_below (suc n) test = test n && all_below n test

pub all_below-test :
    (n : ℕ) (test : ℕ → Bool) (c : ℕ) → all_below n test ≡ true → c < n → test c ≡ true
all_below-test zero test c h lt = absurd (omega arith)
all_below-test (suc n) test c h lt = elim (Bool-cases (c == n)) [
  | inl e ↦ ap test ((==_iff c n).0 e) ∙ (let both = h in ground arith)
  | inr e ↦ all_below-test n test c (ground arith) (ground arith)
]

quotes_back : all_below 256 (λ c. read_back c (quote c)) ≡ true
unfolding unquote quote
quotes_back = refl

-- A character stands for itself, or for what unquote makes of the one behind a sharp.
abbrev pub Quotes : ℕ → List ℕ → Type 0
Quotes c s =
    ((s ≡ c ∷ []) × ((c == key_sharp) ≡ false) × ((c == key_term) ≡ false))
    ⊎ ((y : ℕ) × (s ≡ key_sharp ∷ y ∷ []) × (unquote y ≡ c) × ((y == key_term) ≡ false))

read_back-Quotes : (c : ℕ) (s : List ℕ) → read_back c s ≡ true → Quotes c s
read_back-Quotes c [] h = absurd (ground arith)
read_back-Quotes c (x ∷ []) h =
    let e : x ≡ c = ground arith in
    inl (rw e refl, rw (← e) (ground arith), rw (← e) (ground arith))
read_back-Quotes c (x ∷ y ∷ []) h =
    let e : x ≡ key_sharp = ground arith in inr (y, rw e refl, ground arith, ground arith)
read_back-Quotes c (x ∷ y ∷ z ∷ s) h = absurd (ground arith)

pub quote-Quotes : (c : ℕ) → c < 256 → Quotes c (quote c)
quote-Quotes c lt =
    read_back-Quotes c (quote c) (all_below-test 256 (λ d. read_back d (quote d)) c quotes_back lt)
