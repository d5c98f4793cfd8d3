-- ===== src/Fs/Walk.antt =====
-- path_walk of fs/core/open.c. A text is the list of its bytes before the NUL; the operations of the
-- inodes are the parameter `i_ops`.
use witos.Base.{
  ℕ, zero, suc, ◌+◌, Bool, true, false, ◌&&◌, Option, none, some, List, [], ◌∷◌, ◌==◌, ◌>>=◌,
  if◌then◌else◌, ℤ, pos, negsuc, length,
}
use witos.Fs.Store.{
  Fs, FsPath, Mount, InodeOps, d_alloc, dput, d_lookup, mount_at, same_name, lookup_mnt,
}

abbrev pub slash : ℕ
slash = b'/'

abbrev pub dot : List ℕ
dot = b'.' ∷ []

abbrev pub dot_dot : List ℕ
dot_dot = b'.' ∷ b'.' ∷ []

-- __follow_mount
unfoldable pub follow_mount : Fs → FsPath → Option FsPath
follow_mount fs path = elim (lookup_mnt fs path) [
  | none ↦ some path
  | some m ↦ mount_at fs.mounts m >>= (λ mount. some record { mnt = m; dentry = mount.root })
]

-- A path whose mount or dentry is NULL is none.
unfoldable pub follow_up : Fs → FsPath → Option FsPath
follow_up fs path = do
  mount ← mount_at fs.mounts path.mnt
  up ← mount.mnt_parent
  point ← mount.mountpoint
  some record { mnt = up; dentry = point }

abbrev pub is_error : ℤ → Bool
is_error (pos n) = false
is_error (negsuc n) = true

-- while ('/' == *path) path++;
unfoldable pub skip_slashes : List ℕ → List ℕ
skip_slashes [] = []
skip_slashes (c ∷ s) = if c == slash then skip_slashes s else c ∷ s

-- The characters up to the next slash, and the text from it on.
unfoldable pub scan_unit : List ℕ → List ℕ × List ℕ
scan_unit [] = ([], [])
scan_unit (c ∷ s) =
    let (unit, rest) = scan_unit s in if c == slash then ([], c ∷ s) else (c ∷ unit, rest)

abbrev pub has_parent : Mount → Bool
has_parent m = elim m.mnt_parent [ none ↦ false | some p ↦ true ]

unfoldable pub cannot_lookup : InodeOps → Bool
cannot_lookup ops = elim ops.lookup [ none ↦ true | some f ↦ false ]

-- What the loop of path_walk calls: the error number, `next` and the store afterwards.
abbrev pub Step : Type 0
Step = Option (ℤ × FsPath × Fs)

-- do_lookup for a child that is in the cache.
unfoldable pub lookup_cached : Fs → FsPath → (de : ℕ) → Step
unfolding follow_mount
lookup_cached fs nd de = do
  path ← follow_mount fs record { mnt = nd.mnt; dentry = de }
  some (pos 0, path, fs)

-- do_lookup for "..": it reads what `next` holds to see whether the walk stands at the root of a
-- mount.
unfoldable pub lookup_parent : Fs → (nd next : FsPath) → Step
unfolding follow_up
lookup_parent fs nd next = do
  mount ← mount_at fs.mounts next.mnt
  from ← if next.dentry == mount.root && has_parent mount then follow_up fs nd else some nd
  some (pos 0, record { mnt = from.mnt; dentry = (fs.dentries from.dentry).parent }, fs)

-- The result of path_walk: the error number, the path in `nd`, and the store.
abbrev pub Walked : Type 0
Walked = Option ((ℤ × FsPath) × Fs)

-- What follows a step: an error ends the walk, and `next` is copied to `nd` otherwise.
abbrev pub go_on : FsPath → (FsPath → Fs → Walked) → Step → Walked
go_on nd walk none = none
go_on nd walk (some (ret, next, fs)) = if is_error ret then some ((ret, nd), fs) else walk next fs

abbrev pub starts_with_slash : List ℕ → Bool
starts_with_slash [] = false
starts_with_slash (c ∷ s) = c == slash

module _ (i_ops : ℕ → InodeOps) where
  -- The table of the dentry's inode; none where a pointer on the way is NULL.
  unfoldable pub ops_of : Fs → (de : ℕ) → Option (ℕ × InodeOps)
  ops_of fs de = do
    dir ← (fs.dentries de).inode
    table ← (fs.inodes dir).op
    some (dir, i_ops table)

  -- real_lookup; a NULL lookup is not called, since path_walk has tested it.
  unfoldable pub real_lookup : Fs → (parent : ℕ) → List ℕ → Option ((ℤ × ℕ) × Fs)
  unfolding ops_of
  real_lookup fs parent unit =
      let (de, allocated) = d_alloc fs parent unit in
      do
        (dir, ops) ← ops_of allocated parent
        lookup ← ops.lookup
        let (ret, after) = lookup allocated dir de
        some ((ret, de), if is_error ret then dput after de else after)

  -- do_lookup for a name that is not in the cache of the directory.
  unfoldable pub lookup_missing : Fs → FsPath → List ℕ → FsPath → Step
  unfolding real_lookup follow_mount
  lookup_missing fs nd unit next = do
    r ← real_lookup fs nd.dentry unit
    if is_error r.0.0 then some (r.0.0, next, r.1) else (do
      path ← follow_mount r.1 record { mnt = nd.mnt; dentry = r.0.1 }
      some (pos 0, path, r.1))

  unfoldable pub do_lookup : Fs → (nd : FsPath) → List ℕ → (next : FsPath) → Step
  unfolding lookup_missing lookup_cached lookup_parent
  do_lookup fs nd unit next =
      if same_name unit dot
      then some (pos 0, nd, fs)
      else if same_name unit dot_dot
      then lookup_parent fs nd next
      else elim (d_lookup fs nd.dentry unit) [
        | none ↦ lookup_missing fs nd unit next
        | some de ↦ lookup_cached fs nd de
      ]

  -- The body of the loop of path_walk for one name.
  unfoldable pub walk_step : Fs → (nd : FsPath) → List ℕ → (next : FsPath) → Step
  unfolding ops_of cannot_lookup do_lookup
  walk_step fs nd unit next = do
    (dir, ops) ← ops_of fs nd.dentry
    if cannot_lookup ops then some (negsuc 19, next, fs) else do_lookup fs nd unit next

  -- The loop, with the number of rounds that it may make.
  unfoldable pub walk_loop : (rounds : ℕ) → List ℕ → (nd next : FsPath) → Fs → Walked
  unfolding walk_step
  walk_loop zero path nd next fs = none
  walk_loop (suc rounds) path nd next fs = elim (skip_slashes path) [
    | [] ↦ some ((pos 0, nd), fs)
    | c ∷ s ↦
        go_on nd (λ n f. walk_loop rounds (scan_unit s).1 n n f)
          (walk_step fs nd (c ∷ (scan_unit s).0) next)
  ]

  -- `next` is what the uninitialised variable of that name holds.
  unfoldable pub path_walk : List ℕ → (next : FsPath) → Fs → Walked
  unfolding walk_loop skip_slashes scan_unit
  path_walk path next fs =
      walk_loop (length path + 1) path (if starts_with_slash path then fs.fs_root else fs.fs_pwd)
        next fs
