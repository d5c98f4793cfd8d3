-- ===== src/Fs/Names.antt =====
-- The names that a path is made of, and the loop of path_walk as a pass over them.
use mathlib.Core.List.{append-nil, append_assoc}
use witos.Base.{
  ℕ, zero, suc, ◌+◌, ◌≤◌, ◌<◌, ◌≡◌, refl, ap, sym, ◌∙◌, false, none, some, ◌⊎◌, List, [], ◌∷◌, ◌++◌,
  ◌==◌, if◌then◌else◌, pos, length, Bool-cases, inl, inr, arith,
}
use witos.Fs.Store.{Fs, FsPath, InodeOps}
use witos.Fs.Walk.{
  slash, skip_slashes, scan_unit, is_error, Step, Walked, walk_step, go_on, walk_loop,
  starts_with_slash, path_walk,
}

-- A name that has come to its end; the empty one, between two slashes, is none.
abbrev pub flush : List ℕ → List (List ℕ) → List (List ℕ)
flush [] units = units
flush (c ∷ unit) units = (c ∷ unit) ∷ units

-- The text cut at its slashes; `unit` is what has been read of a name.
abbrev pub pieces : (unit : List ℕ) → List ℕ → List (List ℕ)
pieces unit [] = flush unit []
pieces unit (c ∷ s) = if c == slash then flush unit (pieces [] s) else pieces (unit ++ c ∷ []) s

abbrev pub names : List ℕ → List (List ℕ)
names path = pieces [] path

-- One step of the walk for every name, up to the first error.
abbrev pub walk_names : (ℕ → InodeOps) → List (List ℕ) → (nd next : FsPath) → Fs → Walked
walk_names i_ops [] nd next fs = some ((pos 0, nd), fs)
walk_names i_ops (unit ∷ units) nd next fs =
    go_on nd (λ n f. walk_names i_ops units n n f) (walk_step i_ops fs nd unit next)

names-skip_slashes : (path : List ℕ) → names (skip_slashes path) ≡ names path
unfolding skip_slashes
names-skip_slashes [] = refl
names-skip_slashes (c ∷ path) = elim (Bool-cases (c == slash)) [
  | inl h ↦ rw h (names-skip_slashes path)
  | inr h ↦ rw (h, h) refl
]

-- A name that has begun ends where scan_unit stops.
pieces-scan_unit :
    (c : ℕ) (unit s : List ℕ)
    → pieces (c ∷ unit) s ≡ (c ∷ (unit ++ (scan_unit s).0)) ∷ names (scan_unit s).1
unfolding scan_unit
pieces-scan_unit c unit [] = rw (append-nil unit) refl
pieces-scan_unit c unit (d ∷ s) = elim (Bool-cases (d == slash)) [
  | inl h ↦ rw (h, append-nil unit, h) refl
  | inr h ↦
      rw (h, pieces-scan_unit c (unit ++ d ∷ []) s, append_assoc unit (d ∷ []) (scan_unit s).0) refl
]

length-scan_unit : (s : List ℕ) → length (scan_unit s).1 ≤ length s
unfolding scan_unit
length-scan_unit [] = omega arith
length-scan_unit (c ∷ s) = elim (Bool-cases (c == slash)) [
  | inl h ↦ rw h (omega arith)
  | inr h ↦ rw h (omega (arith, length-scan_unit s))
]

length-skip_slashes : (path : List ℕ) → length (skip_slashes path) ≤ length path
unfolding skip_slashes
length-skip_slashes [] = omega arith
length-skip_slashes (c ∷ path) = elim (Bool-cases (c == slash)) [
  | inl h ↦ rw h (omega (arith, length-skip_slashes path))
  | inr h ↦ rw h (omega arith)
]

-- What is left before the next name: nothing, or a text that begins with no slash.
skip_slashes-cases :
    (path : List ℕ)
    → (skip_slashes path ≡ [])
      ⊎ ((c : ℕ) × (s : List ℕ) × (skip_slashes path ≡ c ∷ s) × ((c == slash) ≡ false))
unfolding skip_slashes
skip_slashes-cases [] = inl refl
skip_slashes-cases (c ∷ path) = elim (Bool-cases (c == slash)) [
  | inl h ↦ rw h (skip_slashes-cases path)
  | inr h ↦ rw h (inr (c, path, refl, h))
]

names_none : (path : List ℕ) → skip_slashes path ≡ [] → names path ≡ []
names_none path e = sym (names-skip_slashes path) ∙ ap names e

pub names_some :
    (path : List ℕ) (c : ℕ) (s : List ℕ)
    → skip_slashes path ≡ c ∷ s
    → (c == slash) ≡ false
    → names path ≡ (c ∷ (scan_unit s).0) ∷ names (scan_unit s).1
names_some path c s e h =
    sym (names-skip_slashes path) ∙ ap names e ∙ rw h (pieces-scan_unit c [] s)

length-rest :
    (path : List ℕ) (c : ℕ) (s : List ℕ)
    → skip_slashes path ≡ c ∷ s
    → length (scan_unit s).1 < length path
length-rest path c s e =
    omega (arith, ap (λ t. length t) e, length-skip_slashes path, length-scan_unit s)

module _ (i_ops : ℕ → InodeOps) where
  go_on-congruent :
      (nd : FsPath) (walk walk_ref : FsPath → Fs → Walked) (step : Step)
      → ((next : FsPath) (fs : Fs) → walk next fs ≡ walk_ref next fs)
      → go_on nd walk step ≡ go_on nd walk_ref step
  go_on-congruent nd walk walk_ref none h = refl
  go_on-congruent nd walk walk_ref (some (ret, next, fs)) h = elim (Bool-cases (is_error ret)) [
    | inl e ↦ rw e refl
    | inr e ↦ rw e (h next fs)
  ]

  walk_loop-walk_names :
      (rounds : ℕ) (path : List ℕ) (nd next : FsPath) (fs : Fs)
      → length path < rounds
      → walk_loop i_ops rounds path nd next fs ≡ walk_names i_ops (names path) nd next fs
  unfolding walk_loop
  walk_loop-walk_names zero path nd next fs h = absurd (omega arith)
  walk_loop-walk_names (suc rounds) path nd next fs h = elim (skip_slashes-cases path) [
    | inl e ↦ rw (e, names_none path e, walk_loop) refl
    | inr (c, s, e, h') ↦
        rw (e, names_some path c s e h', walk_loop)
          (go_on-congruent nd (λ n f. walk_loop i_ops rounds (scan_unit s).1 n n f) _ _
            (λ n f.
              walk_loop-walk_names rounds (scan_unit s).1 n n f
                (omega (arith, length-rest path c s e))))
  ]

  -- For every text, path_walk takes one step for each name between its slashes, from the root when
  -- the text begins with a slash and from the current directory otherwise, up to the first step that
  -- fails. Its loop ends whatever the text is.
  pub path_walk-walk_names :
      (path : List ℕ) (next : FsPath) (fs : Fs)
      → path_walk i_ops path next fs
        ≡ walk_names i_ops
            (names path)
            (if starts_with_slash path then fs.fs_root else fs.fs_pwd)
            next
            fs
  unfolding path_walk
  path_walk-walk_names path next fs =
      walk_loop-walk_names (length path + 1) path
        (if starts_with_slash path then fs.fs_root else fs.fs_pwd) next fs (omega arith)
