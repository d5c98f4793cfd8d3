-- ===== src/Shell/Words.antt =====
-- The words of a command line, by themselves, and what command_translate of shell/shell.c makes of them.
use Prim.{Unit}
use witos.Base.{
  ℕ, suc, ◌+◌, ◌≡◌, ◌<◌, Option, none, some, List, [], ◌∷◌, ◌==◌, if◌then◌else◌, length, ◌>>=◌,
}
use witos.Memory.{IsStr}
use witos.Shell.Translate.{Translate}

-- Between words, in a word, and in a word between quotes.
pub data Place : Type 0 where
  outside : Place
  bare : Place
  quoted : Place

-- What is left of the word, and the words behind it.
abbrev pub Split : Type 0
Split = List ℕ × List (List ℕ)

abbrev pub next_word : Split → Split
next_word r = ([], r.0 ∷ r.1)

abbrev pub longer : ℕ → Split → Split
longer c r = (c ∷ r.0, r.1)

abbrev pub word_end : Split → Split
word_end r = ([], r.1)

-- Words are separated by spaces or quotes. A quote ends no word that has none in front, and the last
-- one must be closed.
abbrev pub split : Place → List ℕ → Option Split
split outside [] = some ([], [])
split bare [] = some ([], [])
split quoted [] = none
split outside (c ∷ line) =
    let spaced = split outside line in
    let opened = split quoted line >>= (λ r. some (next_word r)) in
    let started = split bare line >>= (λ r. some (next_word (longer c r))) in
    if c == b' ' then spaced else if c == b'"' then opened else started
split bare (c ∷ line) =
    let ended = split outside line >>= (λ r. some (word_end r)) in
    let more = split bare line >>= (λ r. some (longer c r)) in
    if c == b' ' then ended else if c == b'"' then none else more
split quoted (c ∷ line) =
    let closed = split outside line >>= (λ r. some (word_end r)) in
    let more = split quoted line >>= (λ r. some (longer c r)) in if c == b'"' then closed else more

abbrev pub AreWords : Translate → (k : ℕ) → List (List ℕ) → Type 0
AreWords t k [] = Unit
AreWords t k (w ∷ ws) = IsStr t.cmd_line (t.argv k) w × AreWords t (suc k) ws

-- -EINVAL exactly for a line that is not split.
abbrev pub Agrees :
    (Translate → Split → Translate → Type 0) → Translate → Option Split → Option Translate → Type 0
Agrees P s none l = l ≡ none
Agrees P s (some r) l = (t : Translate) × (l ≡ some t) × P s r t

module _ (base i : ℕ) where
  -- What has been stored stays.
  pub record Keeps (s t : Translate) : Type 0 where
    pub cells : (a : ℕ) → a < base + i → t.cmd_line a ≡ s.cmd_line a
    pub pointers : (k : ℕ) → k < s.argc → t.argv k ≡ s.argv k

  -- Between words: the words are added.
  pub record Adds (s : Translate) (r : Split) (t : Translate) : Type 0 where
    pub keeps : Keeps s t
    pub argc : t.argc ≡ s.argc + length r.1
    pub words : AreWords t s.argc r.1

  -- In a word, to which argv[argc] points: it is completed, and the words behind it are added.
  pub record Completes (s : Translate) (r : Split) (t : Translate) : Type 0 where
    pub keeps : Keeps s t
    pub argc : t.argc ≡ s.argc + suc (length r.1)
    pub pointer : t.argv s.argc ≡ s.argv s.argc
    pub text : IsStr t.cmd_line (base + i) r.0
    pub words : AreWords t (suc s.argc) r.1
