-- ===== src/Fs/Files.antt =====
-- The open files: get_unused_fd, fd_install and fget of fs/core/fs.c, and open, close, read, write and
-- lseek of fs/core/open.c. The file operations are the parameter `f_ops`; zalloc does not fail.
use witos.Base.{
  ℕ, zero, suc, Option, none, some, List, [], ◌==◌, ◌>>=◌, leb, if◌then◌else◌, ℤ, pos, negsuc,
}
use witos.Fs.Store.{Fs, FsPath, InodeOps}
use witos.Fs.Walk.{is_error, path_walk}

abbrev pub max_fds : ℕ
max_fds = 256

-- struct file; `op` is the number of its table of operations, none before it is set.
pub record File : Type 0 where
  pub f_pos : ℕ
  pub flags : ℕ
  pub op : Option ℕ
  pub f_dentry : ℕ

-- The functions of a table; none is a NULL entry. They may change the file that they are given.
pub record FileOps : Type 0 where
  pub open_ : Option (File → (inode : ℕ) → ℤ × File)
  pub close : Option (File → ℤ)
  pub read : Option (File → (size : ℕ) → (ℤ × List ℕ) × File)
  pub write : Option (File → List ℕ → ℤ × File)
  pub lseek : Option (File → (offset : ℤ) → (whence : ℕ) → ℤ × File)

-- fd_array
abbrev pub FdArray : Type 0
FdArray = ℕ → Option File

-- The loop of get_unused_fd, with the turns left.
unfoldable pub unused_from : FdArray → (fd turns : ℕ) → Option ℕ
unused_from fds fd zero = none
unused_from fds fd (suc turns) =
    let rest = unused_from fds (suc fd) turns in elim (fds fd) [ none ↦ some fd | some fp ↦ rest ]

-- none is -EBUSY.
unfoldable pub get_unused_fd : FdArray → Option ℕ
unfolding unused_from
get_unused_fd fds = unused_from fds 0 max_fds

abbrev pub fd_install : FdArray → ℕ → Option File → FdArray
fd_install fds fd fp i = if i == fd then fp else fds i

-- The argument is unsigned: a negative descriptor is a number above MAX_FDS.
abbrev pub fget : FdArray → ℕ → Option File
fget fds fd = if leb max_fds fd then none else fds fd

module _ (f_ops : ℕ → FileOps) where
  -- What the open function of the table makes of the file; none is a table without one.
  unfoldable pub call_open : Option (File → (inode : ℕ) → ℤ × File) → File → (inode : ℕ) → ℤ × File
  call_open none fp inode = (pos 0, fp)
  call_open (some f) fp inode = f fp inode

  -- __dentry_open; a dentry with no inode is a read through NULL.
  unfoldable pub dentry_open : Fs → (dir : ℕ) → File → Option (ℤ × File)
  unfolding call_open
  dentry_open fs dir fp = do
    inode ← (fs.dentries dir).inode
    let opened : File = record fp { f_dentry = dir; f_pos = 0; op = (fs.inodes inode).fop }
    some (elim (fs.inodes inode).fop [
      | none ↦ (negsuc 18, opened)
      | some table ↦ call_open (f_ops table).open_ opened inode
    ])

  -- The result, the open files and the store.
  abbrev pub Opened : Type 0
  Opened = Option (ℤ × FdArray × Fs)

  unfoldable pub sys_open :
      (ℕ → InodeOps) → List ℕ → (flags : ℕ) → (next : FsPath) → FdArray → Fs → Opened
  unfolding get_unused_fd dentry_open path_walk
  sys_open i_ops path flags next fds fs = elim (get_unused_fd fds) [
    | none ↦ some (negsuc 15, fds, fs)
    | some fd ↦ do
      ((ret, nd), walked) ← path_walk i_ops path next fs
      if is_error ret then some (ret, fds, walked) else (do
        let fresh : File = record { f_pos = 0; flags = flags; op = none; f_dentry = 0 }
        (opened, fp) ← dentry_open walked nd.dentry fresh
        some (
            if is_error opened
            then (opened, fds, walked)
            else (pos fd, fd_install fds fd (some fp), walked)))
  ]

  -- The table of an open file; the code reads `f_op` without a test, and it is set.
  unfoldable pub file_ops : File → Option FileOps
  file_ops fp = fp.op >>= (λ table. some (f_ops table))

  unfoldable pub close : FdArray → ℕ → ℤ × FdArray
  unfolding file_ops
  close fds fd = elim (fget fds fd) [
    | none ↦ (negsuc 1, fds)
    | some fp ↦ (
      elim (file_ops fp >>= (λ ops. ops.close)) [ none ↦ pos 0 | some f ↦ f fp ],
      fd_install fds fd none,
    )
  ]

  unfoldable pub read : FdArray → ℕ → (size : ℕ) → (ℤ × List ℕ) × FdArray
  unfolding file_ops
  read fds fd size = elim (fget fds fd) [
    | none ↦ ((negsuc 1, []), fds)
    | some fp ↦ elim (file_ops fp >>= (λ ops. ops.read)) [
      | none ↦ ((negsuc 1, []), fds)
      | some f ↦ let (result, after) = f fp size in (result, fd_install fds fd (some after))
    ]
  ]

  unfoldable pub write : FdArray → ℕ → List ℕ → ℤ × FdArray
  unfolding file_ops
  write fds fd buff = elim (fget fds fd) [
    | none ↦ (negsuc 1, fds)
    | some fp ↦ elim (file_ops fp >>= (λ ops. ops.write)) [
      | none ↦ (negsuc 1, fds)
      | some f ↦ let (ret, after) = f fp buff in (ret, fd_install fds fd (some after))
    ]
  ]

  -- The first test leaves the cases of `whence` behind it unused.
  unfoldable pub lseek : FdArray → ℕ → (offset : ℤ) → (whence : ℕ) → ℤ × FdArray
  unfolding file_ops
  lseek fds fd offset whence = elim (fget fds fd) [
    | none ↦ (negsuc 1, fds)
    | some fp ↦ elim (file_ops fp >>= (λ ops. ops.lseek)) [
      | none ↦ (negsuc 1, fds)
      | some f ↦ let (ret, after) = f fp offset whence in (ret, fd_install fds fd (some after))
    ]
  ]
