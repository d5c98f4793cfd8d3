-- ===== src/Fs/Handles.antt =====
-- The table of open files under open, close, read and write of fs/core/open.c.
use mathlib.Core.Option.{none-ne-some}
use witos.Base.{
  ℕ, zero, suc, ◌+◌, ◌≤◌, ◌<◌, ◌≡◌, ◌≢◌, refl, ap, subst, sym, ◌∙◌, true, false, Option, none, some,
  List, [], ◌==◌, leb, ℤ, pos, negsuc, if◌then◌else◌, Bool-cases, Option-cases, ==_iff, inl, inr,
  arith,
}
use witos.Fs.Store.{Fs, FsPath, InodeOps}
use witos.Fs.Walk.{is_error, path_walk}
use witos.Fs.Files.{
  max_fds, File, FileOps, FdArray, unused_from, get_unused_fd, fd_install, fget, dentry_open,
  sys_open, close, read, write,
}

-- `fd` is the lowest number from `start` on whose slot is free.
pub record IsLowest (fds : FdArray) (start fd : ℕ) : Type 0 where
  pub from_start : start ≤ fd
  pub free : fds fd ≡ none
  pub taken : (j : ℕ) → start ≤ j → j < fd → fds j ≢ none

-- What a search over `turns` slots from `start` on gives.
abbrev Lowest : FdArray → (start turns : ℕ) → Option ℕ → Type 0
Lowest fds start turns none = (j : ℕ) → start ≤ j → j < start + turns → fds j ≢ none
Lowest fds start turns (some fd) = IsLowest fds start fd × (fd < start + turns)

taken_from :
    (fds : FdArray) (start fd : ℕ) (fp : File)
    → fds start ≡ some fp
    → ((j : ℕ) → suc start ≤ j → j < fd → fds j ≢ none)
    → (j : ℕ) → start ≤ j
    → j < fd
    → fds j ≢ none
taken_from fds start fd fp e h j low high free = elim (Bool-cases (j == start)) [
  | inl same ↦
      let here : fds start ≡ none = ap fds (sym ((==_iff j start).0 same)) ∙ free in
      none-ne-some fp (sym here ∙ e)
  | inr other ↦ h j (ground arith) high free
]

Lowest-suc :
    (fds : FdArray) (start turns : ℕ) (found : Option ℕ) (fp : File)
    → fds start ≡ some fp
    → Lowest fds (suc start) turns found
    → Lowest fds start (suc turns) found
Lowest-suc fds start turns none fp e h =
    taken_from fds start (start + suc turns) fp e (λ j low high. h j low (omega arith))
Lowest-suc fds start turns (some fd) fp e (low, high) = (
  record {
    from_start = let le = low.from_start in omega arith;
    free = low.free;
    taken = taken_from fds start fd fp e low.taken;
  },
  omega arith,
)

unused_from-Lowest :
    (fds : FdArray) (start turns : ℕ) → Lowest fds start turns (unused_from fds start turns)
unfolding unused_from
unused_from-Lowest fds start zero = λ j low high. absurd (omega arith)
unused_from-Lowest fds start (suc turns) = elim (Option-cases (fds start)) [
  | inl e ↦
      rw (e, unused_from)
        (
          record { from_start = omega arith; free = e; taken = λ j low high. absurd (omega arith) },
          omega arith,
        )
  | inr (fp, e) ↦
      rw (e, unused_from)
        (Lowest-suc fds start turns _ fp e (unused_from-Lowest fds (suc start) turns))
]

get_unused_fd-Lowest :
    (fds : FdArray) (fd : ℕ) → get_unused_fd fds ≡ some fd → IsLowest fds 0 fd × (fd < max_fds)
unfolding get_unused_fd
get_unused_fd-Lowest fds fd e =
    subst (λ (o : Option ℕ). Lowest fds 0 max_fds o) e (unused_from-Lowest fds 0 max_fds)

module _ (f_ops : ℕ → FileOps) (fds : FdArray) where
  -- What has become of the table after open returned `ret`.
  abbrev pub Opens : ℤ → FdArray → Type 0
  Opens (negsuc e) opened = (j : ℕ) → opened j ≡ fds j
  Opens (pos fd) opened =
      IsLowest fds 0 fd
      × (fd < max_fds)
      × (opened fd ≢ none)
      × ((j : ℕ) → opened j ≡ (if j == fd then opened fd else fds j))
      × ((j : ℕ) → (close f_ops opened fd).1 j ≡ fds j)
      × ((size : ℕ) → (read f_ops (close f_ops opened fd).1 fd size).0.0 ≡ negsuc 1)
      × ((buff : List ℕ) → (write f_ops (close f_ops opened fd).1 fd buff).0 ≡ negsuc 1)
      × ((close f_ops (close f_ops opened fd).1 fd).0 ≡ negsuc 1)

  read_none :
      (t : FdArray) (fd size : ℕ) → fget t fd ≡ none → read f_ops t fd size ≡ ((negsuc 1, []), t)
  unfolding read
  read_none t fd size e = rw (e, read) refl

  write_none :
      (t : FdArray) (fd : ℕ) (buff : List ℕ)
      → fget t fd ≡ none
      → write f_ops t fd buff ≡ (negsuc 1, t)
  unfolding write
  write_none t fd buff e = rw (e, write) refl

  close_none : (t : FdArray) (fd : ℕ) → fget t fd ≡ none → close f_ops t fd ≡ (negsuc 1, t)
  unfolding close
  close_none t fd e = rw (e, close) refl

  unchanged : (ret : ℤ) → is_error ret ≡ true → Opens ret fds
  unchanged (pos n) h = absurd (ground arith)
  unchanged (negsuc n) h = λ j. refl

  close_some :
      (t : FdArray) (fd : ℕ) (fp : File)
      → fget t fd ≡ some fp
      → (close f_ops t fd).1 ≡ fd_install t fd none
  unfolding close
  close_some t fd fp e = rw (e, close) refl

  -- The slot of `fd` is given back, whatever close of the file returns.
  close-installed :
      (fd : ℕ) (fp : File) (j : ℕ)
      → fds fd ≡ none
      → fd < max_fds
      → (close f_ops (fd_install fds fd (some fp)) fd).1 j ≡ fds j
  close-installed fd fp j free small =
      let inside : leb max_fds fd ≡ false = ground arith in
      let itself : (fd == fd) ≡ true = ground arith in
      ap (λ (t : FdArray). t j)
        (close_some (fd_install fds fd (some fp)) fd fp (rw (inside, itself) refl))
      ∙ elim (Bool-cases (j == fd)) [
        | inl e ↦ rw e (sym free ∙ ap fds (sym ((==_iff j fd).0 e)))
        | inr e ↦ rw e refl
      ]

  fget-closed :
      (fd : ℕ) (fp : File)
      → fds fd ≡ none
      → fd < max_fds
      → fget (close f_ops (fd_install fds fd (some fp)) fd).1 fd ≡ none
  fget-closed fd fp free small =
      let inside : leb max_fds fd ≡ false = ground arith in
      rw inside (close-installed fd fp fd free small ∙ free)

  install-Opens :
      (fd : ℕ) (fp : File)
      → IsLowest fds 0 fd
      → fd < max_fds
      → Opens (pos fd) (fd_install fds fd (some fp))
  install-Opens fd fp low small =
      let itself : (fd == fd) ≡ true = ground arith in
      (
        low,
        small,
        λ e. none-ne-some fp (sym e ∙ rw itself refl),
        λ j. rw itself refl,
        λ j. close-installed fd fp j low.free small,
        λ size. ap (λ r. r.0.0) (read_none _ fd size (fget-closed fd fp low.free small)),
        λ buff. ap (λ r. r.0) (write_none _ fd buff (fget-closed fd fp low.free small)),
        ap (λ r. r.0) (close_none _ fd (fget-closed fd fp low.free small)),
      )

  dentry_open-some :
      (fs : Fs) (dir : ℕ) (fp : File) (inode : ℕ)
      → (fs.dentries dir).inode ≡ some inode
      → (r : ℤ × File) × (dentry_open f_ops fs dir fp ≡ some r)
  unfolding dentry_open
  dentry_open-some fs dir fp inode e = rw e (_, refl)

  opened_or_not :
      (walked : Fs) (fd : ℕ) (opened : ℤ × File)
      → IsLowest fds 0 fd × (fd < max_fds)
      → (r : ℤ × FdArray × Fs) × (some (
            if is_error opened.0
            then (opened.0, fds, walked)
            else (pos fd, fd_install fds fd (some opened.1), walked))
          ≡ some r)
        × Opens r.0 r.1
  opened_or_not walked fd opened (low, small) = elim (Bool-cases (is_error opened.0)) [
    | inl bad ↦ rw bad ((_, refl, unchanged opened.0 bad))
    | inr good ↦ rw good ((_, refl, install-Opens fd opened.1 low small))
  ]

  -- open takes a descriptor. When path_walk returns and the dentry that it leaves has an inode, open
  -- returns. With an error, the table of open files is as it was. Otherwise the result is the
  -- lowest free descriptor of the 256, its slot holds a file, and no other slot has changed;
  -- closing it makes the table what it was before, and a read, a write or a close of it after that
  -- gives -ENOENT.
  pub sys_open-Opens :
      (i_ops : ℕ → InodeOps) (path : List ℕ) (flags : ℕ) (next : FsPath) (fs : Fs) (ret : ℤ)
      (nd : FsPath) (walked : Fs) (inode : ℕ)
      → path_walk i_ops path next fs ≡ some ((ret, nd), walked)
      → (walked.dentries nd.dentry).inode ≡ some inode
      → (r : ℤ × FdArray × Fs) × (sys_open f_ops i_ops path flags next fds fs ≡ some r)
        × Opens r.0 r.1
  unfolding sys_open
  sys_open-Opens i_ops path flags next fs ret nd walked inode walk has =
      elim (Option-cases (get_unused_fd fds)) [
        | inl full ↦ rw full ((_, refl, λ j. refl))
        | inr (fd, e) ↦
            rw (e, walk)
              (elim (Bool-cases (is_error ret)) [
                | inl bad ↦ rw bad ((_, refl, unchanged ret bad))
                | inr good ↦
                    let fresh : File = record {
                      f_pos = 0;
                      flags = flags;
                      op = none;
                      f_dentry = 0;
                    } in
                    let (opened, d) = dentry_open-some walked nd.dentry fresh inode has in
                    rw (good, d) (opened_or_not walked fd opened (get_unused_fd-Lowest fds fd e))
              ])
      ]
