-- ===== src/Fs/Place.antt =====
-- Where a directory stands: the chain of cached entries from the root down to it, and what sys_getcwd
-- and path_walk make of that chain.
use Prim.{Unit, tt}
use mathlib.Core.List.{append-nil, append_assoc}
use witos.Base.{
  ℕ, suc, ◌+◌, ◌<◌, ◌≡◌, ◌≢◌, refl, ap, ◌∙◌, false, none, some, List, [], ◌∷◌, ◌++◌, ◌==◌, leb, pos,
  length, arith, length-append,
}
use witos.Fs.Store.{Fs, FsPath, Mount, InodeOps, same_name, d_lookup, mount_at, lookup_mnt}
use witos.Fs.Walk.{
  slash, dot, dot_dot, follow_mount, lookup_cached, do_lookup, ops_of, cannot_lookup, walk_step,
}
use witos.Fs.Dirs.{path_stack_size, climb, write_cwd, cwd_text}
use witos.Fs.Names.{pieces, names, flush, walk_names}

-- A name without slashes.
abbrev pub NoSlash : List ℕ → Type 0
NoSlash [] = Unit {0}
NoSlash (c ∷ s) = ((c == slash) ≡ false) × NoSlash s

-- A name that a directory entry can have.
pub record IsName (unit : List ℕ) : Type 0 where
  pub not_empty : unit ≢ []
  pub no_slash : NoSlash unit
  pub not_dot : same_name unit dot ≡ false
  pub not_dot_dot : same_name unit dot_dot ≡ false

module _ (i_ops : ℕ → InodeOps) (fs : Fs) where
  -- `de` is what the name of `de` finds in the directory `parent`, and nothing is mounted on it.
  pub record IsEntry (parent de : ℕ) : Type 0 where
    pub ops : ℕ × InodeOps
    pub has_ops : ops_of i_ops fs parent ≡ some ops
    pub can_lookup : cannot_lookup ops.1 ≡ false
    pub is_name : IsName (fs.dentries de).name
    pub found : d_lookup fs parent (fs.dentries de).name ≡ some de
    pub has_parent : (fs.dentries de).parent ≡ parent
    pub no_mount : (mnt : ℕ) → lookup_mnt fs record { mnt = mnt; dentry = de } ≡ none
    pub not_root : (de == fs.fs_root.dentry) ≡ false

  -- The entries on the way from `top` down to `de`.
  abbrev pub Below : (top : ℕ) → List ℕ → (de : ℕ) → Type 0
  Below top [] de = top ≡ de
  Below top (c ∷ chain) de = IsEntry top c × Below c chain de

abbrev pub names_of : Fs → List ℕ → List (List ℕ)
names_of fs [] = []
names_of fs (c ∷ chain) = (fs.dentries c).name ∷ names_of fs chain

-- A slash before every name.
abbrev pub path_of : List (List ℕ) → List ℕ
path_of [] = []
path_of (unit ∷ units) = slash ∷ (unit ++ path_of units)

-- A name that ends at a slash or at the end of the text.
pieces-name :
    (unit name rest : List ℕ)
    → NoSlash name
    → pieces unit (name ++ slash ∷ rest) ≡ flush (unit ++ name) (names rest)
pieces-name unit [] rest h = rw (append-nil unit) refl
pieces-name unit (c ∷ name) rest (e, h) =
    rw (e, pieces-name (unit ++ c ∷ []) name rest h, append_assoc unit (c ∷ []) name) refl

pub pieces-end : (unit name : List ℕ) → NoSlash name → pieces unit name ≡ flush (unit ++ name) []
pieces-end unit [] h = rw (append-nil unit) refl
pieces-end unit (c ∷ name) (e, h) =
    rw (e, pieces-end (unit ++ c ∷ []) name h, append_assoc unit (c ∷ []) name) refl

pub flush_some :
    (unit : List ℕ) (units : List (List ℕ)) → unit ≢ [] → flush unit units ≡ unit ∷ units
flush_some [] units h = absurd (h refl)
flush_some (c ∷ unit) units h = refl

abbrev pub AllNames : List (List ℕ) → Type 0
AllNames [] = Unit {0}
AllNames (unit ∷ units) = IsName unit × AllNames units

-- The text of a path is cut into the names it was made of.
pub names-path_of : (units : List (List ℕ)) → AllNames units → names (path_of units) ≡ units
names-path_of [] h = refl
names-path_of (unit ∷ []) (n, h) =
    rw (append-nil unit, pieces-end [] unit n.no_slash, flush_some unit [] n.not_empty) refl
names-path_of (unit ∷ next ∷ units) (n, h) =
    rw (pieces-name [] unit (next ++ path_of units) n.no_slash)
      (flush_some unit _ n.not_empty ∙ ap (λ t. unit ∷ t) (names-path_of (next ∷ units) h))

pub follow_mount-free :
    (fs : Fs) (path : FsPath) → lookup_mnt fs path ≡ none → follow_mount fs path ≡ some path
unfolding follow_mount
follow_mount-free fs path e = rw (e, follow_mount) refl

pub lookup_cached-free :
    (fs : Fs) (nd : FsPath) (c : ℕ)
    → lookup_mnt fs record { mnt = nd.mnt; dentry = c } ≡ none
    → lookup_cached fs nd c ≡ some (pos 0, record { mnt = nd.mnt; dentry = c }, fs)
unfolding lookup_cached
lookup_cached-free fs nd c e = rw (follow_mount-free fs _ e) refl

module _ (i_ops : ℕ → InodeOps) (fs : Fs) where
  pub walk_step-entry :
      (nd next : FsPath) (c : ℕ)
      → IsEntry i_ops fs nd.dentry c
      → walk_step i_ops fs nd (fs.dentries c).name next
        ≡ some (pos 0, record { mnt = nd.mnt; dentry = c }, fs)
  unfolding walk_step do_lookup
  walk_step-entry nd next c e =
      rw (e.has_ops, e.can_lookup, e.is_name.not_dot, e.is_name.not_dot_dot, e.found)
        (lookup_cached-free fs nd c (e.no_mount nd.mnt))

  pub walk_names-Below :
      (nd next : FsPath) (chain : List ℕ) (de : ℕ)
      → Below i_ops fs nd.dentry chain de
      → walk_names i_ops (names_of fs chain) nd next fs
        ≡ some ((pos 0, record { mnt = nd.mnt; dentry = de }), fs)
  walk_names-Below nd next [] de h = rw h refl
  walk_names-Below nd next (c ∷ chain) de (e, h) =
      rw (walk_step-entry nd next c e)
        (walk_names-Below record { mnt = nd.mnt; dentry = c } _ chain de h)

  pub names_of-AllNames :
      (top : ℕ) (chain : List ℕ) (de : ℕ)
      → Below i_ops fs top chain de
      → AllNames (names_of fs chain)
  names_of-AllNames top [] de h = tt
  names_of-AllNames top (c ∷ chain) de (e, h) = (e.is_name, names_of-AllNames c chain de h)

  -- The first loop of sys_getcwd goes up the chain.
  pub climb-Below :
      (rounds : ℕ) (mnt : ℕ) (mount : Mount) (top : ℕ) (chain : List ℕ) (de : ℕ) (stack : List ℕ)
      → Below i_ops fs top chain de
      → mount_at fs.mounts mnt ≡ some mount
      → mount.root ≡ fs.fs_root.dentry
      → length chain + length stack < path_stack_size
      → climb (length chain + rounds) fs record { mnt = mnt; dentry = de } stack
        ≡ climb rounds fs record { mnt = mnt; dentry = top } (chain ++ stack)
  unfolding climb
  climb-Below rounds mnt mount top [] de stack h m r small =
      let none_left : 0 + rounds ≡ rounds = omega arith in rw (h, none_left) refl
  climb-Below rounds mnt mount top (c ∷ chain) de stack (e, h) m r small =
      let up : suc (length chain) + rounds ≡ length chain + suc rounds = omega arith in
      let below_mount : (c == mount.root) ≡ false = rw r e.not_root in
      let not_full : leb path_stack_size (length (chain ++ stack) + 1) ≡ false =
        ground (arith, length-append chain stack) in
      rw (up, climb-Below (suc rounds) mnt mount c chain de stack h m r (omega arith))
        (rw (e.not_root, m, below_mount) (rw (e.has_parent, not_full) refl))

-- The second loop of sys_getcwd writes the names, for which there is room.
write_cwd-path_of :
    (fs : Fs) (size : ℕ) (chain : List ℕ) (count : ℕ)
    → count + length (path_of (names_of fs chain)) < size
    → write_cwd fs.dentries size chain count ≡ path_of (names_of fs chain)
unfolding write_cwd
write_cwd-path_of fs size [] count h = refl
write_cwd-path_of fs size (c ∷ chain) count h =
    let name = (fs.dentries c).name in
    let room : length (name ++ path_of (names_of fs chain))
        ≡ length name + length (path_of (names_of fs chain)) =
      length-append name (path_of (names_of fs chain)) in
    let more : leb size (count + 1 + length name) ≡ false = ground (arith, room) in
    rw (more, write_cwd-path_of fs size chain (count + 1 + length name) (omega (arith, room))) refl

pub cwd_text-path_of :
    (fs : Fs) (size : ℕ) (c : ℕ) (chain : List ℕ)
    → length (path_of (names_of fs (c ∷ chain))) < size
    → cwd_text fs.dentries size (c ∷ chain) ≡ path_of (names_of fs (c ∷ chain))
unfolding cwd_text
cwd_text-path_of fs size c chain h = write_cwd-path_of fs size (c ∷ chain) 0 (omega arith)
