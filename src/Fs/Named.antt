-- ===== src/Fs/Named.antt =====
-- What a name means to path_walk before and after sys_mkdir, on the RAM file system.
use Prim.Native.Nat.{bit_or}
use witos.Base.{
  ℕ, ◌≡◌, refl, ap, sym, ◌∙◌, true, false, Option, none, some, List, [], ◌∷◌, ◌++◌, ◌==◌, pos,
  if◌then◌else◌, Bool-cases, ==_iff, inl, inr, arith,
}
use witos.Fs.Store.{Fs, FsPath, same_name, d_lookup}
use witos.Fs.Walk.{walk_step, starts_with_slash, path_walk}
use witos.Fs.Dirs.{sys_mkdir, s_ifdir}
use witos.Fs.Ramfs.{dir_inode, ramfs_i_ops}
use witos.Fs.Names.{names, walk_names, path_walk-walk_names}
use witos.Fs.Place.{IsName, pieces-end, flush_some, walk_step-entry}
use witos.Fs.Mkdir.{
  IsRamDir, made, sys_mkdir-made, made-IsEntry, made-new, made-inode, d_lookup-made, made-subdirs,
  made-pwd, or_else,
}

same_name-equal : (a b : List ℕ) → same_name a b ≡ true → a ≡ b
same_name-equal [] [] h = refl
same_name-equal [] (y ∷ b) h = absurd (ground arith)
same_name-equal (x ∷ a) [] h = absurd (ground arith)
same_name-equal (x ∷ a) (y ∷ b) h = elim (Bool-cases (x == y)) [
  | inl e ↦
      let tails : same_name a b ≡ true = ground arith in
      rw ((==_iff x y).0 e, same_name-equal a b tails) refl
  | inr e ↦ absurd (ground arith)
]

or_else-none : (o : Option ℕ) → or_else o none ≡ o
or_else-none none = refl
or_else-none (some de) = refl

pub names-name : (unit : List ℕ) → IsName unit → names unit ≡ unit ∷ []
names-name unit n = pieces-end [] unit n.no_slash ∙ flush_some unit [] n.not_empty

relative : (unit : List ℕ) → IsName unit → starts_with_slash unit ≡ false
relative [] n = absurd (n.not_empty refl)
relative (c ∷ unit) n = n.no_slash.0

-- One name is one step from the current directory.
pub path_walk-name :
    (unit : List ℕ) (n : IsName unit) (next : FsPath) (fs : Fs)
    → path_walk ramfs_i_ops unit next fs ≡ walk_names ramfs_i_ops (unit ∷ []) fs.fs_pwd next fs
path_walk-name unit n next fs =
    path_walk-walk_names ramfs_i_ops unit next fs ∙ rw (names-name unit n, relative unit n) refl

module _ (fs : Fs) (dir : ℕ) (unit : List ℕ) (mode : ℕ) (ram : IsRamDir fs dir) where
  walk_step-made :
      (next : FsPath)
      → IsName unit
      → d_lookup fs fs.fs_pwd.dentry unit ≡ none
      → walk_step ramfs_i_ops (made fs dir unit mode) fs.fs_pwd unit next
        ≡ some
            (pos 0, record { mnt = fs.fs_pwd.mnt; dentry = fs.dentry_count }, made fs dir unit mode)
  walk_step-made next name absent =
      ap (λ d. walk_step ramfs_i_ops (made fs dir unit mode) fs.fs_pwd d.name next)
        (sym (made-new fs dir unit mode ram))
      ∙ walk_step-entry ramfs_i_ops (made fs dir unit mode) fs.fs_pwd next fs.dentry_count
          (made-IsEntry fs dir unit mode ram name absent)

  path_walk-made :
      (next : FsPath)
      → IsName unit
      → d_lookup fs fs.fs_pwd.dentry unit ≡ none
      → path_walk ramfs_i_ops unit next (made fs dir unit mode)
        ≡ some (
          (pos 0, record { mnt = fs.fs_pwd.mnt; dentry = fs.dentry_count }),
          made fs dir unit mode,
        )
  path_walk-made next name absent =
      path_walk-name unit name next (made fs dir unit mode)
      ∙ ap (λ (nd : FsPath). walk_names ramfs_i_ops (unit ∷ []) nd next (made fs dir unit mode))
          (made-pwd fs dir unit mode ram)
      ∙ rw (walk_step-made next name absent) refl

  added :
      (wanted : List ℕ)
      → d_lookup fs fs.fs_pwd.dentry unit ≡ none
      → or_else
          (d_lookup fs fs.fs_pwd.dentry wanted)
          (if same_name unit wanted then some fs.dentry_count else none)
        ≡ (if same_name unit wanted
            then some fs.dentry_count
            else d_lookup fs fs.fs_pwd.dentry wanted)
  added wanted absent = elim (Bool-cases (same_name unit wanted)) [
    | inl e ↦ rw e (
        ap (λ (o : Option ℕ). or_else o (some fs.dentry_count))
          (ap (λ (u : List ℕ). d_lookup fs fs.fs_pwd.dentry u) (sym (same_name-equal unit wanted e))
            ∙ absent))
    | inr e ↦ rw e (or_else-none _)
  ]

  -- A name that the directory has keeps its dentry.
  shadowed :
      (old : ℕ) (wanted : List ℕ)
      → d_lookup fs fs.fs_pwd.dentry unit ≡ some old
      → or_else
          (d_lookup fs fs.fs_pwd.dentry wanted)
          (if same_name unit wanted then some fs.dentry_count else none)
        ≡ d_lookup fs fs.fs_pwd.dentry wanted
  shadowed old wanted there = elim (Bool-cases (same_name unit wanted)) [
    | inl e ↦ rw (sym (same_name-equal unit wanted e), there) refl
    | inr e ↦ rw e (or_else-none _)
  ]

  -- In a directory of the RAM file system, with the store well formed, sys_mkdir of a proper name that
  -- the directory does not have makes a directory of that mode: path_walk of the name then
  -- comes to the new dentry, whose inode is the new one, and allocates nothing; every other name finds
  -- what it found before.
  pub sys_mkdir-path_walk :
      (next : FsPath)
      → IsName unit
      → d_lookup fs fs.fs_pwd.dentry unit ≡ none
      → (after : Fs) × (sys_mkdir ramfs_i_ops unit mode fs ≡ some (pos 0, after))
        × (path_walk ramfs_i_ops unit next after
            ≡ some ((pos 0, record { mnt = fs.fs_pwd.mnt; dentry = fs.dentry_count }), after))
        × ((after.dentries fs.dentry_count).inode ≡ some fs.inode_count)
        × (after.inodes fs.inode_count ≡ dir_inode (bit_or mode s_ifdir))
        × ((wanted : List ℕ)
            → d_lookup after fs.fs_pwd.dentry wanted ≡ (
                if same_name unit wanted
                then some fs.dentry_count
                else d_lookup fs fs.fs_pwd.dentry wanted))
  sys_mkdir-path_walk next name absent = (
    made fs dir unit mode,
    sys_mkdir-made fs dir unit mode ram name.no_slash,
    path_walk-made next name absent,
    ap (λ d. d.inode) (made-new fs dir unit mode ram),
    made-inode fs dir unit mode ram,
    λ wanted. d_lookup-made fs dir unit mode ram wanted ∙ added wanted absent,
  )

  -- sys_mkdir of a name that the directory already has succeeds as well, and adds a second entry that
  -- no name finds: every lookup in the directory has the result that it had before.
  pub sys_mkdir_duplicate :
      (old : ℕ)
      → IsName unit
      → d_lookup fs fs.fs_pwd.dentry unit ≡ some old
      → (after : Fs) × (sys_mkdir ramfs_i_ops unit mode fs ≡ some (pos 0, after))
        × ((after.dentries fs.fs_pwd.dentry).subdirs
            ≡ (fs.dentries fs.fs_pwd.dentry).subdirs ++ fs.dentry_count ∷ [])
        × ((wanted : List ℕ)
            → d_lookup after fs.fs_pwd.dentry wanted ≡ d_lookup fs fs.fs_pwd.dentry wanted)
  sys_mkdir_duplicate old name there = (
    made fs dir unit mode,
    sys_mkdir-made fs dir unit mode ram name.no_slash,
    made-subdirs fs dir unit mode ram,
    λ wanted. d_lookup-made fs dir unit mode ram wanted ∙ shadowed old wanted there,
  )
