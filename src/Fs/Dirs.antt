-- ===== src/Fs/Dirs.antt =====
-- Directories and mounts: sys_mkdir, sys_chdir and sys_getcwd of fs/core/fs.c, and fs/core/mount.c.
-- zalloc does not fail.
use Prim.Native.Nat.{bit_or}
use witos.Base.{
  ℕ, zero, suc, ◌+◌, Option, none, some, List, [], ◌∷◌, ◌++◌, ◌==◌, ◌>>=◌, leb, if◌then◌else◌, ℤ,
  pos, negsuc, length,
}
use witos.Fs.Store.{Fs, FsPath, Dentry, InodeOps, d_alloc, dput, mount_at, same_name}
use witos.Fs.Walk.{slash, skip_slashes, is_error, ops_of, path_walk, follow_up}

abbrev pub path_stack_size : ℕ
path_stack_size = 256

abbrev pub s_ifdir : ℕ
s_ifdir = 0x4000

-- The first loop of sys_getcwd, with the number of rounds that it may make; the last dentry pushed
-- comes first.
unfoldable pub climb : (rounds : ℕ) → Fs → (cwd : FsPath) → (stack : List ℕ) → Option (List ℕ)
unfolding follow_up
climb zero fs cwd stack = none
climb (suc rounds) fs cwd stack = if cwd.dentry == fs.fs_root.dentry then some stack else do
  mount ← mount_at fs.mounts cwd.mnt
  if cwd.dentry == mount.root
      then follow_up fs cwd >>= (λ up. climb rounds fs up stack)
      else if leb path_stack_size (length stack + 1)
      then some (cwd.dentry ∷ stack)
      else climb rounds fs (record cwd { dentry = (fs.dentries cwd.dentry).parent })
          (cwd.dentry ∷ stack)

-- The second loop: what is written to `buff`. The size is compared after a name has been written.
unfoldable pub write_cwd : (ℕ → Dentry) → (size : ℕ) → List ℕ → (count : ℕ) → List ℕ
write_cwd dentries size [] count = []
write_cwd dentries size (de ∷ stack) count =
    let name = (dentries de).name in
    let rest = write_cwd dentries size stack (count + 1 + length name) in
    slash ∷ (name ++ (if leb size (count + 1 + length name) then [] else rest))

-- The text before the NUL; its length is returned.
unfoldable pub cwd_text : (ℕ → Dentry) → (size : ℕ) → List ℕ → List ℕ
unfolding write_cwd
cwd_text dentries size [] = slash ∷ []
cwd_text dentries size (de ∷ stack) = write_cwd dentries size (de ∷ stack) 0

unfoldable pub sys_getcwd : (rounds : ℕ) → Fs → (size : ℕ) → Option (List ℕ)
unfolding climb cwd_text
sys_getcwd rounds fs size =
    climb rounds fs fs.fs_pwd [] >>= (λ stack. some (cwd_text fs.dentries size stack))

module _ (i_ops : ℕ → InodeOps) where
  unfoldable pub sys_chdir : List ℕ → (next : FsPath) → Fs → Option (ℤ × Fs)
  unfolding path_walk
  sys_chdir path next fs = do
    ((ret, nd), after) ← path_walk i_ops path next fs
    some (ret, if is_error ret then after else record after { fs_pwd = nd })

  -- The entry `mkdir` of the table, if there is one.
  unfoldable pub call_mkdir :
      Fs → (dir de mode : ℕ) → Option (Fs → (dir de mode : ℕ) → ℤ × Fs) → ℤ × Fs
  call_mkdir fs dir de mode none = (negsuc 523, fs)
  call_mkdir fs dir de mode (some mkdir) = mkdir fs dir de mode

  -- vfs_mkdir on the inode of the directory `parent`.
  unfoldable pub vfs_mkdir : Fs → (parent de mode : ℕ) → Option (ℤ × Fs)
  unfolding ops_of call_mkdir
  vfs_mkdir fs parent de mode = do
    (dir, ops) ← ops_of i_ops fs parent
    some (call_mkdir fs dir de mode ops.mkdir)

  unfoldable pub sys_mkdir : List ℕ → (mode : ℕ) → Fs → Option (ℤ × Fs)
  unfolding vfs_mkdir
  sys_mkdir name mode fs =
      let parent = fs.fs_pwd.dentry in
      let (de, allocated) = d_alloc fs parent (skip_slashes name) in
      do
        (ret, after) ← vfs_mkdir allocated parent de (bit_or mode s_ifdir)
        some (ret, if is_error ret then dput after de else after)

-- struct file_system_type: `mount` gives the root dentry of what is on the device, or NULL.
pub record FsType : Type 0 where
  pub name : List ℕ
  pub mount : Fs → (dev_name : List ℕ) → Option ℕ × Fs

unfoldable pub get_fs_type : List FsType → List ℕ → Option FsType
get_fs_type [] name = none
get_fs_type (p ∷ types) name = if same_name p.name name then some p else get_fs_type types name

unfoldable pub register_filesystem : List FsType → FsType → ℤ × List FsType
unfolding get_fs_type
register_filesystem types fstype = elim (get_fs_type types fstype.name) [
  | some p ↦ (negsuc 15, types)
  | none ↦ (pos 0, types ++ fstype ∷ [])
]

-- The result of do_mount: an error number, or the root dentry.
pub data Mounted : Type 0 where
  root_at : ℕ → Mounted
  failed : ℤ → Mounted

unfoldable pub do_mount : List FsType → (type_ dev_name : List ℕ) → Fs → Mounted × Fs
unfolding get_fs_type
do_mount types type_ dev_name fs = elim (get_fs_type types type_) [
  | none ↦ (failed (negsuc 1), fs)
  | some fstype ↦
      let (root, after) = fstype.mount fs dev_name in
      elim root [ none ↦ (failed (negsuc 4), after) | some de ↦ (root_at de, after) ]
]

-- `mnt` gets the next number; the path of the root mount is NULL.
unfoldable pub add_mount : Fs → (root : ℕ) → Option FsPath → Fs
add_mount fs root path = record fs {
  mounts =
      fs.mounts
      ++ (record {
        mnt_parent = path >>= (λ p. some p.mnt);
        mountpoint = path >>= (λ p. some p.dentry);
        root = root;
      })
        ∷ [];
}

unfoldable pub sys_mount :
    (ℕ → InodeOps) → List FsType → (dev_name path type_ : List ℕ) → FsPath → Fs → Option (ℤ × Fs)
unfolding do_mount add_mount path_walk
sys_mount i_ops types dev_name path type_ next fs = do
  ((ret, nd), walked) ← path_walk i_ops path next fs
  if is_error ret
      then some (ret, walked)
      else (let (result, after) = do_mount types type_ dev_name walked in
          some (elim result [
            | failed err ↦ (err, after)
            | root_at de ↦ (pos 0, add_mount after de (some nd))
          ]))

unfoldable pub mount_root : List FsType → (dev_name type_ : List ℕ) → Fs → ℤ × Fs
unfolding do_mount add_mount
mount_root types dev_name type_ fs =
    let (result, after) = do_mount types type_ dev_name fs in
    elim result [
      | failed err ↦ (err, after)
      | root_at de ↦
          let sysroot : FsPath = record { mnt = length after.mounts; dentry = de } in
          (pos 0, record (add_mount after de none) { fs_root = sysroot; fs_pwd = sysroot })
    ]
