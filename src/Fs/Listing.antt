-- ===== src/Fs/Listing.antt =====
-- ramfs_opendir and ramfs_readdir of fs/ramfs/ramfs.c. Of what filldir is handed the name and the mode
-- of the inode are kept, the mode before filldir cuts it to the one byte of d_type; the numbers of
-- inodes are not modelled. A read through NULL or past the end of the list is none.
use mathlib.Core.List.{append_assoc}
use witos.Base.{
  ℕ, zero, suc, ◌+◌, ◌≡◌, refl, ap, subst, sym, ◌∙◌, true, false, Option, none, some, List, [], ◌∷◌,
  ◌++◌, ◌>>=◌, Option-cases, inl, inr, leb, if◌then◌else◌, length, length-append, get_elem?, arith,
}
use witos.Fs.Store.{Fs}

-- What ramfs uses of struct file; `private_data` counts the steps from the first entry of d_subdirs.
pub record OpenDir : Type 0 where
  pub f_pos : ℕ
  pub f_dentry : ℕ
  pub private_data : ℕ

pub record Entry : Type 0 where
  pub d_name : List ℕ
  pub d_type : ℕ

unfoldable pub ramfs_opendir : OpenDir → OpenDir
ramfs_opendir fp = record fp { private_data = 0 }

abbrev pub entry : Fs → (de inode : ℕ) → Entry
entry fs de inode = record { d_name = (fs.dentries de).name; d_type = (fs.inodes inode).mode }

-- The entry that the call fills in; no entry is the result 0.
unfoldable pub ramfs_readdir : Fs → OpenDir → Option (Option Entry × OpenDir)
ramfs_readdir fs fp = do
  dir ← (fs.dentries fp.f_dentry).inode
  if leb (fs.inodes dir).size fp.f_pos then some (none, fp) else (do
    de ← get_elem? (fs.dentries fp.f_dentry).subdirs fp.private_data
    inode ← (fs.dentries de).inode
    some (
      some (entry fs de inode),
      record fp { private_data = fp.private_data + 1; f_pos = fp.f_pos + 1 },
    ))

-- The entries of the children, each of which must have an inode.
abbrev pub entries_of : Fs → List ℕ → Option (List Entry)
entries_of fs [] = some []
entries_of fs (de ∷ children) =
    (fs.dentries de).inode
    >>= (λ inode. entries_of fs children >>= (λ more. some (entry fs de inode ∷ more)))

-- Calls of ramfs_readdir up to the result 0, of which there are at most `calls`.
abbrev pub read_all : (calls : ℕ) → Fs → OpenDir → Option (List Entry)
read_all zero fs fp = none
read_all (suc calls) fs fp = ramfs_readdir fs fp >>= (λ r. elim r.0 [
  | none ↦ some []
  | some e ↦ read_all calls fs r.1 >>= (λ more. some (e ∷ more))
])

get_elem?-length :
    (before : List ℕ) (de : ℕ) (after : List ℕ)
    → get_elem? (before ++ de ∷ after) (length before) ≡ some de
get_elem?-length [] de after = refl
get_elem?-length (x ∷ before) de after = get_elem?-length before de after

-- The calls that are left when the entries `before` have been read.
read_all-rest :
    (fs : Fs) (directory dir : ℕ) (before after : List ℕ)
    → (fs.dentries directory).inode ≡ some dir
    → (fs.dentries directory).subdirs ≡ before ++ after
    → (fs.inodes dir).size ≡ length before + length after
    → read_all
        (suc (length after))
        fs
        record { f_pos = length before; f_dentry = directory; private_data = length before }
      ≡ entries_of fs after
unfolding ramfs_readdir
read_all-rest fs directory dir before [] has children size =
    let all : leb (fs.inodes dir).size (length before) ≡ true = ground arith in
    rw (read_all, ramfs_readdir, has, all) refl
read_all-rest fs directory dir before (de ∷ after) has children size =
    let more : leb (fs.inodes dir).size (length before) ≡ false = ground arith in
    let at : get_elem? (fs.dentries directory).subdirs (length before) ≡ some de =
      ap (λ (l : List ℕ). get_elem? l (length before)) children
      ∙ get_elem?-length before de after in
    let away : (fs.dentries directory).subdirs ≡ (before ++ de ∷ []) ++ after =
      children ∙ sym (append_assoc before (de ∷ []) after) in
    let count : length (before ++ de ∷ []) ≡ length before + 1 = length-append before (de ∷ []) in
    let later =
      subst
        (λ (n : ℕ).
          read_all (suc (length after)) fs
            record { f_pos = n; f_dentry = directory; private_data = n }
          ≡ entries_of fs after)
        count
        (read_all-rest fs directory dir (before ++ de ∷ []) after has away
          (omega (arith, count, size))) in
    elim (Option-cases (fs.dentries de).inode) [
      | inl gone ↦ rw (read_all, ramfs_readdir, has, more, at, entries_of, gone) refl
      | inr (i, here) ↦ rw (read_all, ramfs_readdir, has, more, at, here, later) refl
    ]

-- In a directory of the RAM file system whose size is the number of its entries, opendir and as many
-- calls of readdir as there are entries give the name and the mode of each of them, in order, and
-- one more call gives the end; if an entry has no inode, they read through NULL.
pub ramfs_readdir-entries_of :
    (fs : Fs) (fp : OpenDir) (dir : ℕ)
    → (fs.dentries fp.f_dentry).inode ≡ some dir
    → (fs.inodes dir).size ≡ length (fs.dentries fp.f_dentry).subdirs
    → fp.f_pos ≡ 0
    → read_all (suc (length (fs.dentries fp.f_dentry).subdirs)) fs (ramfs_opendir fp)
      ≡ entries_of fs (fs.dentries fp.f_dentry).subdirs
unfolding ramfs_opendir
ramfs_readdir-entries_of fs fp dir has size start =
    ap
      (λ (p : ℕ).
        read_all (suc (length (fs.dentries fp.f_dentry).subdirs)) fs
          record { f_pos = p; f_dentry = fp.f_dentry; private_data = 0 })
      start
    ∙ read_all-rest fs fp.f_dentry dir [] (fs.dentries fp.f_dentry).subdirs has refl
        (size ∙ omega arith)
