-- ===== src/Fs/Ramfs.antt =====
-- fs/ramfs/ramfs.c: the tables of operations, its root, and the functions that they hold. zalloc does
-- not fail. The numbers of inodes from g_inode_count are not modelled.
use witos.Base.{ℕ, ◌+◌, Option, none, some, List, [], ◌∷◌, ◌==◌, if◌then◌else◌, ℤ, pos}
use witos.Fs.Store.{Fs, Inode, InodeOps, set_dentry, set_inode, d_instantiate, root_dentry}
use witos.Fs.Dirs.{FsType, s_ifdir}

-- The numbers of the tables.
abbrev pub dir_table : ℕ
dir_table = 1

abbrev pub reg_table : ℕ
reg_table = 2

-- ramfs_alloc_inode: the number of the new inode, all zero, and the store.
unfoldable pub ramfs_alloc_inode : Fs → Inode → ℕ × Fs
ramfs_alloc_inode fs inode = (
  fs.inode_count,
  set_inode (record fs { inode_count = fs.inode_count + 1 }) fs.inode_count inode,
)

-- The directory inode that ramfs_inode_create and ramfs_mkdir set up.
abbrev pub dir_inode : (mode : ℕ) → Inode
dir_inode mode = record { size = 0; mode = mode; op = some dir_table; fop = some dir_table }

-- Any name is found, and its dentry gets no inode.
unfoldable pub ramfs_lookup : Fs → (dir de : ℕ) → ℤ × Fs
ramfs_lookup fs dir de = (pos 0, fs)

unfoldable pub ramfs_mkdir : Fs → (parent de mode : ℕ) → ℤ × Fs
unfolding ramfs_alloc_inode d_instantiate
ramfs_mkdir fs parent de mode =
    let (inode, allocated) = ramfs_alloc_inode fs (dir_inode mode) in
    let named = d_instantiate allocated de inode in
    let dir = named.inodes parent in
    (pos 0, set_inode named parent (record dir { size = dir.size + 1 }))

-- ramfs_dir_inode_operations, and ramfs_reg_inode_operations, which is empty.
unfoldable pub ramfs_i_ops : ℕ → InodeOps
ramfs_i_ops table =
    if table == dir_table
    then record { lookup = some ramfs_lookup; mkdir = some ramfs_mkdir }
    else record { lookup = none; mkdir = none }

-- ramfs_mount
unfoldable pub ramfs_mount : Fs → (dev_name : List ℕ) → Option ℕ × Fs
unfolding ramfs_alloc_inode root_dentry
ramfs_mount fs dev_name =
    let (inode, allocated) = ramfs_alloc_inode fs (dir_inode s_ifdir) in
    let de = allocated.dentry_count in
    (
      some de,
      set_dentry (record allocated { dentry_count = de + 1 }) de
          (record (root_dentry de (b'/' ∷ [])) { inode = some inode }),
    )

-- "ramfs"
abbrev pub ramfs_fs_type : FsType
ramfs_fs_type = record { name = b'r' ∷ b'a' ∷ b'm' ∷ b'f' ∷ b's' ∷ []; mount = ramfs_mount }
