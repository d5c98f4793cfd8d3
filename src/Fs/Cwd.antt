-- ===== src/Fs/Cwd.antt =====
-- sys_getcwd of fs/core/fs.c against path_walk of fs/core/open.c.
use mathlib.Core.List.{append-nil}
use witos.Base.{
  ℕ, suc, ◌+◌, ◌-◌, ◌<◌, ◌≡◌, refl, sym, ◌∙◌, true, some, ◌==◌, List, [], ◌∷◌, pos, length, ap,
  arith,
}
use witos.Fs.Store.{Fs, FsPath, Mount, InodeOps, mount_at}
use witos.Fs.Walk.{slash, path_walk, starts_with_slash}
use witos.Fs.Dirs.{path_stack_size, climb, sys_getcwd}
use witos.Fs.Names.{names, path_walk-walk_names}
use witos.Fs.Place.{
  Below, names_of, path_of, names-path_of, names_of-AllNames, walk_names-Below, climb-Below,
  cwd_text-path_of,
}

module _ (i_ops : ℕ → InodeOps) (fs : Fs) where
  -- The current directory stands below the root on the same mount, which is the mount of the root.
  pub record IsPlace (mount : Mount) (chain : List ℕ) : Type 0 where
    pub below : Below i_ops fs fs.fs_root.dentry chain fs.fs_pwd.dentry
    pub same_mount : fs.fs_pwd.mnt ≡ fs.fs_root.mnt
    pub mounted : mount_at fs.mounts fs.fs_pwd.mnt ≡ some mount
    pub mount_root : mount.root ≡ fs.fs_root.dentry

  climb-IsPlace :
      (rounds : ℕ) (mount : Mount) (chain : List ℕ)
      → IsPlace mount chain
      → length chain < path_stack_size
      → length chain < rounds
      → climb rounds fs fs.fs_pwd [] ≡ some chain
  unfolding climb
  climb-IsPlace rounds mount chain place small enough =
      let left = rounds - suc (length chain) in
      let split : rounds ≡ length chain + suc left = omega arith in
      let there : (fs.fs_root.dentry == fs.fs_root.dentry) ≡ true = ground arith in
      ap (λ (k : ℕ). climb k fs fs.fs_pwd []) split
      ∙ climb-Below i_ops fs (suc left) fs.fs_pwd.mnt mount fs.fs_root.dentry chain fs.fs_pwd.dentry
          [] place.below place.mounted place.mount_root (omega arith)
      ∙ rw (there, append-nil chain) refl

  -- A text that begins with a slash and has the names on the way.
  path_walk-place :
      (chain : List ℕ) (text : List ℕ) (next : FsPath)
      → Below i_ops fs fs.fs_root.dentry chain fs.fs_pwd.dentry
      → fs.fs_pwd.mnt ≡ fs.fs_root.mnt
      → starts_with_slash text ≡ true
      → names text ≡ names_of fs chain
      → path_walk i_ops text next fs ≡ some ((pos 0, fs.fs_pwd), fs)
  path_walk-place chain text next below same absolute cut =
      path_walk-walk_names i_ops text next fs
      ∙ rw (absolute, cut)
          (walk_names-Below i_ops fs fs.fs_root next chain fs.fs_pwd.dentry below
            ∙ rw (sym same) refl)

  -- When the current directory stands on the root mount below the root, by at most 255 cached entries
  -- with proper names and nothing mounted on them, each the first of its name in its directory, then
  -- sys_getcwd ends within one round more than there are entries; if the text and its NUL fit into
  -- the buffer, path_walk of the text that it writes comes back to the current directory and
  -- allocates nothing.
  pub sys_getcwd-path_walk :
      (mount : Mount) (chain : List ℕ) (rounds size : ℕ) (next : FsPath)
      → IsPlace mount chain
      → length chain < path_stack_size
      → length chain < rounds
      → length (path_of (names_of fs chain)) < size
      → (text : List ℕ) × (sys_getcwd rounds fs size ≡ some text)
        × (path_walk i_ops text next fs ≡ some ((pos 0, fs.fs_pwd), fs))
  unfolding sys_getcwd
  sys_getcwd-path_walk mount [] rounds size next place small enough room = (
    slash ∷ [],
    rw (climb-IsPlace rounds mount [] place small enough) refl,
    path_walk-place [] (slash ∷ []) next place.below place.same_mount refl refl,
  )
  sys_getcwd-path_walk mount (c ∷ chain) rounds size next place small enough room = (
    path_of (names_of fs (c ∷ chain)),
    rw (climb-IsPlace rounds mount (c ∷ chain) place small enough)
        (ap some (cwd_text-path_of fs size c chain room)),
    path_walk-place (c ∷ chain) _ next place.below place.same_mount refl (
        names-path_of _
          (names_of-AllNames i_ops fs fs.fs_root.dentry (c ∷ chain) fs.fs_pwd.dentry place.below)),
  )
