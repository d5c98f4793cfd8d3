-- ===== src/Fs/Examples.antt =====
-- A RAM file system with the directories /usr and /usr/bin.
use Prim.{tt}
use Prim.Native.Nat.{bit_or}
use witos.Base.{ℕ, ◌≡◌, refl, none, some, List, [], ◌∷◌, ◌==◌, ℤ, pos, if◌then◌else◌, codes, arith}
use witos.Fs.Store.{Fs, FsPath, Dentry, Mount, same_name, d_lookup, lookup_mnt, find_mnt}
use witos.Fs.Walk.{ops_of, cannot_lookup, path_walk}
use witos.Fs.Dirs.{sys_getcwd, sys_mkdir, sys_chdir, s_ifdir}
use witos.Fs.Files.{File, FileOps, FdArray, sys_open}
use witos.Fs.Ramfs.{dir_table, dir_inode, ramfs_i_ops}
use witos.Fs.Names.{walk_names, path_walk-walk_names}
use witos.Fs.Place.{IsName, IsEntry}
use witos.Fs.Cwd.{IsPlace, sys_getcwd-path_walk}
use witos.Fs.Mkdir.{IsRamDir}
use witos.Fs.Named.{sys_mkdir-path_walk, sys_mkdir_duplicate}
use witos.Fs.Missing.{sys_chdir_missing}
use witos.Fs.Listing.{OpenDir, ramfs_opendir, read_all, ramfs_readdir-entries_of}
use witos.Fs.Handles.{Opens, sys_open-Opens}

abbrev usr : List ℕ
usr = codes "usr"

abbrev bin : List ℕ
bin = codes "bin"

abbrev lib : List ℕ
lib = codes "lib"

abbrev tree_dentries : ℕ → Dentry
tree_dentries j =
    if j == 0
    then record { name = codes "/"; parent = 0; subdirs = 1 ∷ []; inode = some 0 }
    else if j == 1
    then record { name = usr; parent = 0; subdirs = 2 ∷ []; inode = some 1 }
    else record { name = bin; parent = 1; subdirs = []; inode = some 2 }

abbrev root_mount : Mount
root_mount = record { mnt_parent = none; mountpoint = none; root = 0 }

-- The current directory is the dentry `pwd`.
abbrev tree : (pwd : ℕ) → Fs
tree pwd = record {
  dentries = tree_dentries;
  dentry_count = 3;
  inodes = λ j. dir_inode s_ifdir;
  inode_count = 3;
  mounts = root_mount ∷ [];
  fs_root = record { mnt = 0; dentry = 0 };
  fs_pwd = record { mnt = 0; dentry = pwd };
}

-- What `next` holds before it is set.
abbrev garbage : FsPath
garbage = record { mnt = 7; dentry = 9 }

usr-IsName : IsName usr
usr-IsName = record {
  not_empty = λ e. ground arith;
  no_slash = (refl, (refl, (refl, tt)));
  not_dot = refl;
  not_dot_dot = refl;
}

bin-IsName : IsName bin
bin-IsName = record {
  not_empty = λ e. ground arith;
  no_slash = (refl, (refl, (refl, tt)));
  not_dot = refl;
  not_dot_dot = refl;
}

lib-IsName : IsName lib
lib-IsName = record {
  not_empty = λ e. ground arith;
  no_slash = (refl, (refl, (refl, tt)));
  not_dot = refl;
  not_dot_dot = refl;
}

path_walk-walk_names_example :
    path_walk ramfs_i_ops (codes "//usr/bin/") garbage (tree 2)
    ≡ walk_names ramfs_i_ops (usr ∷ bin ∷ []) (tree 2).fs_root garbage (tree 2)
path_walk-walk_names_example =
    path_walk-walk_names ramfs_i_ops (codes "//usr/bin/") garbage (tree 2)

usr-IsEntry : IsEntry ramfs_i_ops (tree 2) 0 1
unfolding ops_of cannot_lookup ramfs_i_ops d_lookup lookup_mnt find_mnt
usr-IsEntry = record {
  ops = (0, ramfs_i_ops dir_table);
  has_ops = refl;
  can_lookup = refl;
  is_name = usr-IsName;
  found = refl;
  has_parent = refl;
  no_mount = λ mnt. refl;
  not_root = refl;
}

bin-IsEntry : IsEntry ramfs_i_ops (tree 2) 1 2
unfolding ops_of cannot_lookup ramfs_i_ops d_lookup lookup_mnt find_mnt
bin-IsEntry = record {
  ops = (1, ramfs_i_ops dir_table);
  has_ops = refl;
  can_lookup = refl;
  is_name = bin-IsName;
  found = refl;
  has_parent = refl;
  no_mount = λ mnt. refl;
  not_root = refl;
}

bin-IsPlace : IsPlace ramfs_i_ops (tree 2) root_mount (1 ∷ 2 ∷ [])
bin-IsPlace = record {
  below = (usr-IsEntry, (bin-IsEntry, refl));
  same_mount = refl;
  mounted = refl;
  mount_root = refl;
}

sys_getcwd-path_walk_example :
    (text : List ℕ) × (sys_getcwd 3 (tree 2) 10 ≡ some text)
    × (path_walk ramfs_i_ops text garbage (tree 2) ≡ some ((pos 0, (tree 2).fs_pwd), tree 2))
sys_getcwd-path_walk_example =
    sys_getcwd-path_walk ramfs_i_ops (tree 2) root_mount (1 ∷ 2 ∷ []) 3 10 garbage bin-IsPlace
      (omega arith) (omega arith) (omega arith)

bin-IsRamDir : IsRamDir (tree 2) 2
unfolding lookup_mnt find_mnt
bin-IsRamDir = record {
  pwd_below = omega arith;
  subdirs_below = tt;
  root_below = omega arith;
  no_mount = λ mnt. refl;
  has_inode = refl;
  dir_below = omega arith;
  has_table = refl;
}

root-IsRamDir : IsRamDir (tree 0) 0
unfolding lookup_mnt find_mnt
root-IsRamDir = record {
  pwd_below = omega arith;
  subdirs_below = (omega arith, tt);
  root_below = omega arith;
  no_mount = λ mnt. refl;
  has_inode = refl;
  dir_below = omega arith;
  has_table = refl;
}

lib_absent : d_lookup (tree 2) 2 lib ≡ none
unfolding d_lookup
lib_absent = refl

usr_there : d_lookup (tree 0) 0 usr ≡ some 1
unfolding d_lookup
usr_there = refl

sys_mkdir-path_walk_example :
    (after : Fs) × (sys_mkdir ramfs_i_ops lib 0x1ed (tree 2) ≡ some (pos 0, after))
    × (path_walk ramfs_i_ops lib garbage after
        ≡ some ((pos 0, record { mnt = 0; dentry = 3 }), after))
    × ((after.dentries 3).inode ≡ some 3)
    × (after.inodes 3 ≡ dir_inode (bit_or 0x1ed s_ifdir))
    × ((wanted : List ℕ)
        → d_lookup after 2 wanted
          ≡ (if same_name lib wanted then some 3 else d_lookup (tree 2) 2 wanted))
sys_mkdir-path_walk_example =
    sys_mkdir-path_walk (tree 2) 2 lib 0x1ed bin-IsRamDir garbage lib-IsName lib_absent

sys_mkdir_duplicate_example :
    (after : Fs) × (sys_mkdir ramfs_i_ops usr 0x1ed (tree 0) ≡ some (pos 0, after))
    × ((after.dentries 0).subdirs ≡ 1 ∷ 3 ∷ [])
    × ((wanted : List ℕ) → d_lookup after 0 wanted ≡ d_lookup (tree 0) 0 wanted)
sys_mkdir_duplicate_example =
    sys_mkdir_duplicate (tree 0) 0 usr 0x1ed root-IsRamDir 1 usr-IsName usr_there

sys_chdir_missing_example :
    (after : Fs) × (sys_chdir ramfs_i_ops lib garbage (tree 2) ≡ some (pos 0, after))
    × ((after.dentries after.fs_pwd.dentry).inode ≡ none)
    × (path_walk ramfs_i_ops usr garbage after ≡ none)
sys_chdir_missing_example =
    sys_chdir_missing (tree 2) 2 lib bin-IsRamDir garbage b'u' (codes "sr") garbage lib-IsName
      lib_absent refl

-- A table without functions.
abbrev no_f_ops : ℕ → FileOps
no_f_ops table = record { open_ = none; close = none; read = none; write = none; lseek = none }

abbrev standard_file : File
standard_file = record { f_pos = 0; flags = 0; op = some 1; f_dentry = 0 }

-- Two descriptors are taken.
abbrev two_open : FdArray
two_open fd = if fd == 0 then some standard_file else if fd == 1 then some standard_file else none

walk_to_bin :
    path_walk ramfs_i_ops (codes "/usr/bin") garbage (tree 2)
    ≡ some ((pos 0, record { mnt = 0; dentry = 2 }), tree 2)
unfolding path_walk ramfs_i_ops d_lookup lookup_mnt find_mnt ops_of cannot_lookup
walk_to_bin = refl

sys_open-Opens_example :
    (r : ℤ × FdArray × Fs) × (sys_open no_f_ops ramfs_i_ops
        (codes "/usr/bin")
        0
        garbage
        two_open
        (tree 2)
      ≡ some r)
    × Opens no_f_ops two_open r.0 r.1
sys_open-Opens_example =
    sys_open-Opens no_f_ops two_open ramfs_i_ops (codes "/usr/bin") 0 garbage (tree 2) (pos 0)
      record { mnt = 0; dentry = 2 } (tree 2) 2 walk_to_bin refl

-- Each directory of the tree has one entry.
abbrev sized : Fs
sized = record (tree 0) { inodes = λ j. record (dir_inode s_ifdir) { size = 1 } }

abbrev root_dir : OpenDir
root_dir = record { f_pos = 0; f_dentry = 0; private_data = 5 }

ramfs_readdir-entries_of_example :
    read_all 2 sized (ramfs_opendir root_dir)
    ≡ some (record { d_name = usr; d_type = s_ifdir } ∷ [])
ramfs_readdir-entries_of_example = ramfs_readdir-entries_of sized root_dir 0 refl refl refl
