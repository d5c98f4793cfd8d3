-- ===== src/Fs/Store.antt =====
-- The dentries, inodes and mounts of fs/core/fs.c, fs/core/open.c and fs/core/mount.c. A pointer to
-- one of them is its number in a store; a dentry that zalloc returns has the next number, and zalloc
-- does not fail. A name is the list of its bytes, which are no NULs. The function `none` of an operation
-- stands for a read through a NULL pointer.
use witos.Base.{
  ℕ, zero, suc, ◌+◌, Bool, true, false, ◌&&◌, Option, none, some, List, [], ◌∷◌, ◌++◌, ◌==◌,
  if◌then◌else◌, ℤ,
}

-- struct dentry; `parent` is the dentry itself for a root, `inode` is none for NULL.
pub record Dentry : Type 0 where
  pub name : List ℕ
  pub parent : ℕ
  pub subdirs : List ℕ
  pub inode : Option ℕ

-- struct inode; `op` is the number of its table of operations, and `fop` that of its file operations.
pub record Inode : Type 0 where
  pub size : ℕ
  pub mode : ℕ
  pub op : Option ℕ
  pub fop : Option ℕ

-- struct mount; the root mount has no parent and no mount point.
pub record Mount : Type 0 where
  pub mnt_parent : Option ℕ
  pub mountpoint : Option ℕ
  pub root : ℕ

-- struct path with its mount there.
pub record FsPath : Type 0 where
  pub mnt : ℕ
  pub dentry : ℕ

-- The dentries, the inodes, g_mount_list, and g_fs.
pub record Fs : Type 0 where
  pub dentries : ℕ → Dentry
  pub dentry_count : ℕ
  pub inodes : ℕ → Inode
  pub inode_count : ℕ
  pub mounts : List Mount
  pub fs_root : FsPath
  pub fs_pwd : FsPath

-- The functions of an inode's table; none is a NULL entry. The lookup gets the directory's inode and
-- the dentry to fill; so does mkdir, with the mode.
pub record InodeOps : Type 0 where
  pub lookup : Option (Fs → (dir de : ℕ) → ℤ × Fs)
  pub mkdir : Option (Fs → (dir de mode : ℕ) → ℤ × Fs)

abbrev pub set_dentry : Fs → ℕ → Dentry → Fs
set_dentry fs i d = record fs { dentries = λ j. if j == i then d else fs.dentries j }

abbrev pub set_inode : Fs → ℕ → Inode → Fs
set_inode fs i n = record fs { inodes = λ j. if j == i then n else fs.inodes j }

-- Two names of the same length, compared by strncmp.
abbrev pub same_name : List ℕ → List ℕ → Bool
same_name [] [] = true
same_name [] (b ∷ t) = false
same_name (a ∷ s) [] = false
same_name (a ∷ s) (b ∷ t) = a == b && same_name s t

-- __d_alloc: the new dentry, its own parent.
unfoldable pub root_dentry : (number : ℕ) → List ℕ → Dentry
root_dentry number str = record { name = str; parent = number; subdirs = []; inode = none }

-- The number of the new dentry, and the store.
unfoldable pub d_alloc : Fs → (parent : ℕ) → List ℕ → ℕ × Fs
unfolding root_dentry
d_alloc fs parent str =
    let de = fs.dentry_count in
    let child = record (root_dentry de str) { parent = parent } in
    let dir = fs.dentries parent in
    (
      de,
      set_dentry (set_dentry (record fs { dentry_count = de + 1 }) de child) parent
          (record dir { subdirs = dir.subdirs ++ de ∷ [] }),
    )

-- list_del(&dentry->d_child); the dentry is on the list of one directory, its parent.
abbrev pub list_del : ℕ → List ℕ → List ℕ
list_del de [] = []
list_del de (x ∷ xs) = if x == de then xs else x ∷ list_del de xs

unfoldable pub dput : Fs → (de : ℕ) → Fs
dput fs de =
    let parent = (fs.dentries de).parent in
    let dir = fs.dentries parent in
    set_dentry fs parent (record dir { subdirs = list_del de dir.subdirs })

unfoldable pub d_instantiate : Fs → (de inode : ℕ) → Fs
d_instantiate fs de inode = set_dentry fs de (record (fs.dentries de) { inode = some inode })

-- The loop of d_lookup over the children.
unfoldable pub find_child : (ℕ → Dentry) → List ℕ → (unit : List ℕ) → Option ℕ
find_child dentries [] unit = none
find_child dentries (de ∷ subdirs) unit =
    if same_name (dentries de).name unit then some de else find_child dentries subdirs unit

unfoldable pub d_lookup : Fs → (parent : ℕ) → List ℕ → Option ℕ
unfolding find_child
d_lookup fs parent unit = find_child fs.dentries (fs.dentries parent).subdirs unit

-- The mount of a number.
abbrev pub mount_at : List Mount → ℕ → Option Mount
mount_at [] i = none
mount_at (m ∷ ms) zero = some m
mount_at (m ∷ ms) (suc i) = mount_at ms i

abbrev pub is_dentry : ℕ → Option ℕ → Bool
is_dentry de none = false
is_dentry de (some p) = p == de

-- The loop of lookup_mnt, from number `i` on.
unfoldable pub find_mnt : List Mount → (i dentry : ℕ) → Option ℕ
find_mnt [] i dentry = none
find_mnt (m ∷ ms) i dentry =
    if is_dentry dentry m.mountpoint then some i else find_mnt ms (suc i) dentry

unfoldable pub lookup_mnt : Fs → FsPath → Option ℕ
unfolding find_mnt
lookup_mnt fs path = find_mnt fs.mounts 0 path.dentry
