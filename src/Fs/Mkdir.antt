-- ===== src/Fs/Mkdir.antt =====
-- sys_mkdir of fs/core/fs.c on the RAM file system of fs/ramfs/ramfs.c.
use Prim.{Unit}
use Prim.Native.Nat.{bit_or}
use witos.Base.{
  ℕ, ◌<◌, ◌≡◌, refl, ap, sym, ◌∙◌, true, false, Option, none, some, List, [], ◌∷◌, ◌++◌, ◌==◌, pos,
  if◌then◌else◌, Bool-cases, ==_iff, inl, inr, arith,
}
use witos.Fs.Store.{
  d_instantiate, Fs, FsPath, Dentry, same_name, d_alloc, find_child, d_lookup, lookup_mnt,
}
use witos.Fs.Walk.{cannot_lookup, skip_slashes, ops_of}
use witos.Fs.Dirs.{sys_mkdir, s_ifdir}
use witos.Fs.Ramfs.{dir_table, dir_inode, ramfs_alloc_inode, ramfs_mkdir, ramfs_i_ops}
use witos.Fs.Place.{NoSlash, IsName, IsEntry}

abbrev pub AllBelow : ℕ → List ℕ → Type 0
AllBelow bound [] = Unit {0}
AllBelow bound (x ∷ xs) = (x < bound) × AllBelow bound xs

-- The current directory and its inode, a directory of the RAM file system, are in the store, and so
-- are its entries and the root; nothing is mounted on the dentry that zalloc will return.
pub record IsRamDir (fs : Fs) (dir : ℕ) : Type 0 where
  pub pwd_below : fs.fs_pwd.dentry < fs.dentry_count
  pub subdirs_below : AllBelow fs.dentry_count (fs.dentries fs.fs_pwd.dentry).subdirs
  pub root_below : fs.fs_root.dentry < fs.dentry_count
  pub no_mount : (mnt : ℕ) → lookup_mnt fs record { mnt = mnt; dentry = fs.dentry_count } ≡ none
  pub has_inode : (fs.dentries fs.fs_pwd.dentry).inode ≡ some dir
  pub dir_below : dir < fs.inode_count
  pub has_table : (fs.inodes dir).op ≡ some dir_table

-- The entries of a directory are found by their names alone.
find_child-names :
    (f g : ℕ → Dentry) (bound : ℕ) (xs : List ℕ) (unit : List ℕ)
    → AllBelow bound xs
    → ((j : ℕ) → j < bound → (f j).name ≡ (g j).name)
    → find_child f xs unit ≡ find_child g xs unit
unfolding find_child
find_child-names f g bound [] unit h same = refl
find_child-names f g bound (x ∷ xs) unit (lt, h) same =
    rw (same x lt, find_child-names f g bound xs unit h same) refl

abbrev pub or_else : Option ℕ → Option ℕ → Option ℕ
or_else none other = other
or_else (some de) other = some de

find_child-append :
    (f : ℕ → Dentry) (xs : List ℕ) (de : ℕ) (unit : List ℕ)
    → find_child f (xs ++ de ∷ []) unit
      ≡ or_else (find_child f xs unit) (if same_name (f de).name unit then some de else none)
unfolding find_child
find_child-append f [] de unit = refl
find_child-append f (x ∷ xs) de unit = elim (Bool-cases (same_name (f x).name unit)) [
  | inl e ↦ rw e refl
  | inr e ↦ rw e (find_child-append f xs de unit)
]

skip_slashes-NoSlash : (unit : List ℕ) → NoSlash unit → skip_slashes unit ≡ unit
unfolding skip_slashes
skip_slashes-NoSlash [] h = refl
skip_slashes-NoSlash (c ∷ unit) (e, h) = rw e refl

same_name-itself : (unit : List ℕ) → same_name unit unit ≡ true
same_name-itself [] = refl
same_name-itself (c ∷ unit) =
    let same : (c == c) ≡ true = ground arith in rw same (same_name-itself unit)

pub dir_table-lookup : cannot_lookup (ramfs_i_ops dir_table) ≡ false
unfolding ramfs_i_ops cannot_lookup
dir_table-lookup = refl

-- The store that sys_mkdir leaves.
unfoldable pub made : Fs → (dir : ℕ) → List ℕ → (mode : ℕ) → Fs
made fs dir unit mode =
    let (de, allocated) = d_alloc fs fs.fs_pwd.dentry unit in
    (ramfs_mkdir allocated dir de (bit_or mode s_ifdir)).1

module _ (fs : Fs) (dir : ℕ) (unit : List ℕ) (mode : ℕ) (ram : IsRamDir fs dir) where
  not_new : (j : ℕ) → j < fs.dentry_count → (j == fs.dentry_count) ≡ false
  not_new j h = ground arith

  new_not : (j : ℕ) → j < fs.dentry_count → (fs.dentry_count == j) ≡ false
  new_not j h = ground arith

  new_inode : (fs.inode_count == dir) ≡ false
  new_inode = let lt = ram.dir_below in ground arith

  pub itself : (j : ℕ) → (j == j) ≡ true
  itself j = ground arith

  pub allocated-inode :
      ((d_alloc fs fs.fs_pwd.dentry unit).1.dentries fs.fs_pwd.dentry).inode ≡ some dir
  unfolding d_alloc
  allocated-inode = rw (itself fs.fs_pwd.dentry) ram.has_inode

  pub allocated-table : ((d_alloc fs fs.fs_pwd.dentry unit).1.inodes dir).op ≡ some dir_table
  unfolding d_alloc
  allocated-table = ram.has_table

  pub sys_mkdir-made :
      NoSlash unit → sys_mkdir ramfs_i_ops unit mode fs ≡ some (pos 0, made fs dir unit mode)
  unfolding made sys_mkdir ramfs_i_ops ramfs_mkdir
  sys_mkdir-made h = rw (skip_slashes-NoSlash unit h, allocated-inode, allocated-table) refl

  pub made-subdirs :
      ((made fs dir unit mode).dentries fs.fs_pwd.dentry).subdirs
      ≡ (fs.dentries fs.fs_pwd.dentry).subdirs ++ fs.dentry_count ∷ []
  unfolding made d_alloc ramfs_mkdir ramfs_alloc_inode d_instantiate
  made-subdirs = rw (not_new fs.fs_pwd.dentry ram.pwd_below, itself fs.fs_pwd.dentry) refl

  made-name_old :
      (j : ℕ)
      → j < fs.dentry_count
      → ((made fs dir unit mode).dentries j).name ≡ (fs.dentries j).name
  unfolding made d_alloc ramfs_mkdir ramfs_alloc_inode d_instantiate
  made-name_old j h = elim (Bool-cases (j == fs.fs_pwd.dentry)) [
    | inl e ↦
        rw (not_new j h, e) (ap (λ i. (fs.dentries i).name) (sym ((==_iff j fs.fs_pwd.dentry).0 e)))
    | inr e ↦ rw (not_new j h, e) refl
  ]

  pub made-new :
      (made fs dir unit mode).dentries fs.dentry_count
      ≡ record { name = unit; parent = fs.fs_pwd.dentry; subdirs = []; inode = some fs.inode_count }
  unfolding made d_alloc ramfs_mkdir ramfs_alloc_inode d_instantiate
  made-new = rw (itself fs.dentry_count, new_not fs.fs_pwd.dentry ram.pwd_below) refl

  pub made-inode : (made fs dir unit mode).inodes fs.inode_count ≡ dir_inode (bit_or mode s_ifdir)
  unfolding made d_alloc ramfs_mkdir ramfs_alloc_inode d_instantiate
  made-inode = rw (new_inode, itself fs.inode_count) refl

  made-table : ((made fs dir unit mode).inodes dir).op ≡ some dir_table
  unfolding made d_alloc ramfs_mkdir ramfs_alloc_inode d_instantiate
  made-table =
      let old : (dir == fs.inode_count) ≡ false = let lt = ram.dir_below in ground arith in
      rw (itself dir, old) ram.has_table

  made-has_inode : ((made fs dir unit mode).dentries fs.fs_pwd.dentry).inode ≡ some dir
  unfolding made d_alloc ramfs_mkdir ramfs_alloc_inode d_instantiate
  made-has_inode =
      rw (not_new fs.fs_pwd.dentry ram.pwd_below, itself fs.fs_pwd.dentry) ram.has_inode

  pub d_lookup-made :
      (wanted : List ℕ)
      → d_lookup (made fs dir unit mode) fs.fs_pwd.dentry wanted
        ≡ or_else
            (d_lookup fs fs.fs_pwd.dentry wanted)
            (if same_name unit wanted then some fs.dentry_count else none)
  unfolding d_lookup
  d_lookup-made wanted =
      rw
        (
          made-subdirs,
          find_child-append (made fs dir unit mode).dentries (fs.dentries fs.fs_pwd.dentry).subdirs
              fs.dentry_count wanted,
          made-new,
        )
        (ap
          (λ (o : Option ℕ).
            or_else o (if same_name unit wanted then some fs.dentry_count else none))
          (find_child-names (made fs dir unit mode).dentries fs.dentries fs.dentry_count
            (fs.dentries fs.fs_pwd.dentry).subdirs wanted ram.subdirs_below made-name_old))

  pub made-root : (made fs dir unit mode).fs_root ≡ fs.fs_root
  unfolding made d_alloc ramfs_mkdir ramfs_alloc_inode d_instantiate
  made-root = refl

  pub made-pwd : (made fs dir unit mode).fs_pwd ≡ fs.fs_pwd
  unfolding made d_alloc ramfs_mkdir ramfs_alloc_inode d_instantiate
  made-pwd = refl

  made-mounts : (path : FsPath) → lookup_mnt (made fs dir unit mode) path ≡ lookup_mnt fs path
  unfolding made d_alloc ramfs_mkdir ramfs_alloc_inode d_instantiate lookup_mnt
  made-mounts path = refl

  has_ops-made :
      ops_of ramfs_i_ops (made fs dir unit mode) fs.fs_pwd.dentry
      ≡ some (dir, ramfs_i_ops dir_table)
  unfolding ops_of
  has_ops-made = rw (made-has_inode, made-table) refl

  found-made :
      d_lookup fs fs.fs_pwd.dentry unit ≡ none
      → d_lookup (made fs dir unit mode) fs.fs_pwd.dentry unit ≡ some fs.dentry_count
  found-made absent = d_lookup-made unit ∙ rw (absent, same_name-itself unit) refl

  pub made-IsEntry :
      IsName unit
      → d_lookup fs fs.fs_pwd.dentry unit ≡ none
      → IsEntry ramfs_i_ops (made fs dir unit mode) fs.fs_pwd.dentry fs.dentry_count
  made-IsEntry name absent = record {
    ops = (dir, ramfs_i_ops dir_table);
    has_ops = has_ops-made;
    can_lookup = dir_table-lookup;
    is_name = rw made-new name;
    found = rw made-new (found-made absent);
    has_parent = ap (λ d. d.parent) made-new;
    no_mount = λ mnt. made-mounts _ ∙ ram.no_mount mnt;
    not_root = rw made-root (let lt = ram.root_below in ground arith);
  }
