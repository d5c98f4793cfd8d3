-- ===== src/Fs/Missing.antt =====
-- What path_walk of fs/core/open.c makes of a name that a directory of the RAM file system does not
-- have.
use witos.Base.{
  ℕ, ◌≡◌, refl, ap, ◌∙◌, false, none, some, List, ◌∷◌, ◌==◌, pos, if◌then◌else◌, arith,
}
use witos.Fs.Store.{Fs, FsPath, d_alloc, d_lookup, lookup_mnt}
use witos.Fs.Walk.{
  slash, skip_slashes, real_lookup, lookup_missing, do_lookup, walk_step, path_walk, ops_of,
}
use witos.Fs.Dirs.{sys_chdir}
use witos.Fs.Ramfs.{dir_table, ramfs_lookup, ramfs_i_ops}
use witos.Fs.Names.{walk_names, path_walk-walk_names, names_some}
use witos.Fs.Place.{IsName, follow_mount-free}
use witos.Fs.Mkdir.{IsRamDir, allocated-inode, allocated-table, dir_table-lookup, itself}
use witos.Fs.Named.{path_walk-name}

path_walk-no_inode :
    (fs : Fs) (c : ℕ) (s : List ℕ) (next : FsPath)
    → (fs.dentries fs.fs_pwd.dentry).inode ≡ none
    → (c == slash) ≡ false
    → path_walk ramfs_i_ops (c ∷ s) next fs ≡ none
unfolding walk_step ops_of skip_slashes
path_walk-no_inode fs c s next h e =
    let first : skip_slashes (c ∷ s) ≡ c ∷ s = rw e refl in
    path_walk-walk_names ramfs_i_ops (c ∷ s) next fs
    ∙ ap
        (λ (units : List (List ℕ)).
          walk_names ramfs_i_ops units (if c == slash then fs.fs_root else fs.fs_pwd) next fs)
        (names_some (c ∷ s) c s first e)
    ∙ rw (e, h) refl

module _ (fs : Fs) (dir : ℕ) (unit : List ℕ) (ram : IsRamDir fs dir) where
  -- The store with the new dentry.
  abbrev missing : Fs
  missing = (d_alloc fs fs.fs_pwd.dentry unit).1

  missing-mounts : (path : FsPath) → lookup_mnt missing path ≡ lookup_mnt fs path
  unfolding d_alloc lookup_mnt
  missing-mounts path = refl

  missing-number : (d_alloc fs fs.fs_pwd.dentry unit).0 ≡ fs.dentry_count
  unfolding d_alloc
  missing-number = refl

  real_lookup-missing :
      real_lookup ramfs_i_ops fs fs.fs_pwd.dentry unit
      ≡ some ((pos 0, (d_alloc fs fs.fs_pwd.dentry unit).0), missing)
  unfolding real_lookup ramfs_i_ops ramfs_lookup
  real_lookup-missing =
      rw (allocated-inode fs dir unit 0 ram, allocated-table fs dir unit 0 ram) refl

  lookup_missing-free :
      (next : FsPath)
      → lookup_missing ramfs_i_ops fs fs.fs_pwd unit next
        ≡ some (
          pos 0,
          record { mnt = fs.fs_pwd.mnt; dentry = (d_alloc fs fs.fs_pwd.dentry unit).0 },
          missing,
        )
  unfolding lookup_missing
  lookup_missing-free next =
      rw
        (
          real_lookup-missing,
          follow_mount-free missing
              record { mnt = fs.fs_pwd.mnt; dentry = (d_alloc fs fs.fs_pwd.dentry unit).0 }
              (missing-mounts _ ∙ rw missing-number (ram.no_mount fs.fs_pwd.mnt)),
        )
        refl

  has_ops-pwd : ops_of ramfs_i_ops fs fs.fs_pwd.dentry ≡ some (dir, ramfs_i_ops dir_table)
  unfolding ops_of
  has_ops-pwd = rw (ram.has_inode, ram.has_table) refl

  path_walk-missing :
      (next : FsPath)
      → IsName unit
      → d_lookup fs fs.fs_pwd.dentry unit ≡ none
      → path_walk ramfs_i_ops unit next fs
        ≡ some (
          (pos 0, record { mnt = fs.fs_pwd.mnt; dentry = (d_alloc fs fs.fs_pwd.dentry unit).0 }),
          missing,
        )
  unfolding walk_step do_lookup
  path_walk-missing next name absent =
      path_walk-name unit name next fs
      ∙ rw (has_ops-pwd, dir_table-lookup, name.not_dot, name.not_dot_dot, absent)
          (rw (lookup_missing-free next) refl)

  missing-inode : (missing.dentries fs.dentry_count).inode ≡ none
  unfolding d_alloc
  missing-inode =
      let other : (fs.dentry_count == fs.fs_pwd.dentry) ≡ false =
        let lt = ram.pwd_below in ground arith in
      rw (other, itself fs dir unit 0 ram fs.dentry_count) refl

  -- In a directory of the RAM file system, with the store well formed, sys_chdir to a proper name that
  -- the directory does not have succeeds: the current directory is then a dentry without an inode.
  -- After that every path_walk of a text that begins with a character other than a slash reads
  -- through that NULL.
  pub sys_chdir_missing :
      (next : FsPath) (c : ℕ) (s : List ℕ) (garbage : FsPath)
      → IsName unit
      → d_lookup fs fs.fs_pwd.dentry unit ≡ none
      → (c == slash) ≡ false
      → (after : Fs) × (sys_chdir ramfs_i_ops unit next fs ≡ some (pos 0, after))
        × ((after.dentries after.fs_pwd.dentry).inode ≡ none)
        × (path_walk ramfs_i_ops (c ∷ s) garbage after ≡ none)
  unfolding sys_chdir
  sys_chdir_missing next c s garbage name absent relative =
      let nd : FsPath = record {
        mnt = fs.fs_pwd.mnt;
        dentry = (d_alloc fs fs.fs_pwd.dentry unit).0;
      } in
      let after : Fs = record missing { fs_pwd = nd } in
      let no_inode : (after.dentries after.fs_pwd.dentry).inode ≡ none =
        rw missing-number missing-inode in
      (
        after,
        rw (path_walk-missing next name absent) refl,
        no_inode,
        path_walk-no_inode after c s garbage no_inode relative,
      )
