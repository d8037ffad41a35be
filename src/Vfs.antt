-- ===== src/Vfs.antt =====
-- kernel/fs/vfs.h and kernel/fs/filebase.c: the tree of the virtual file system and the search of a
-- path. Nodes are kept at addresses; a string is the list of its bytes without the NUL. The functions of
-- a file system, which are called through pointers, are a record that `drivers` finds.
pub mod Files
pub mod Opens
pub mod Handles
pub mod Opened
pub mod Placed
pub mod Counts
pub mod Bounds
pub mod Paths
pub mod Grow
pub mod Create
mod Tests
use han_os.Base.{
  ℕ, zero, suc, ◌+◌, ◌-◌, Bool, true, false, not, ◌&&◌, ◌||◌, Option, none, some, List, [], ◌∷◌,
  ◌++◌, ltb, ◌==◌, if◌then◌else◌, take, bit_and, nonzero,
}
use han_os.Time.{Tm}

pub data NodeType : Type 0 where
  vfs_node_file vfs_node_folder vfs_node_block_device vfs_node_char_device vfs_node_mountpoint :
      NodeType

pub data OpenMode : Type 0 where
  vfs_mode_read vfs_mode_write vfs_mode_readwrite : OpenMode

-- `vfs_dirent_t`
pub record Dirent : Type 0 where
  pub type : NodeType
  pub tm : Tm
  pub name : List ℕ

-- `vfs_tnode_t`
pub record Tnode : Type 0 where
  pub name : List ℕ
  pub inode : ℕ
  pub parent : Option ℕ

-- `vfs_inode_t`; `fs` is the address of its file system, unless NULL.
pub record Inode : Type 0 where
  pub type : NodeType
  pub size : ℕ
  pub perms : ℕ
  pub uid : ℕ
  pub refcount : ℕ
  pub tm : Tm
  pub fs : Option ℕ
  pub ident : ℕ
  pub mountpoint : Option ℕ
  pub child : List ℕ

-- `vfs_node_desc_t`
pub record Desc : Type 0 where
  pub path : List ℕ
  pub tnode : ℕ
  pub inode : ℕ
  pub mode : OpenMode
  pub seek_pos : ℕ

-- The nodes, the next free address of each kind, the static lists of vfs.c, and what the file systems
-- keep elsewhere, as on a disk.
pub record Store : Type 0 where
  pub tnodes : ℕ → Tnode
  pub inodes : ℕ → Inode
  pub next_tnode : ℕ
  pub next_inode : ℕ
  pub fslist : List ℕ
  pub openfiles : List (Option Desc)
  pub media : ℕ → ℕ

-- `vfs_fsinfo_t`: what the functions do to the store and return, where `none` and `false` are a failure.
pub record Fs : Type 0 where
  pub name : List ℕ
  pub istemp : Bool
  pub mount : Option ℕ → Store → ℕ × Store
  pub open_node : ℕ → List ℕ → Store → Option ℕ × Store
  pub mknode : ℕ → Store → Store
  pub read : ℕ → ℕ → ℕ → Store → Option (List ℕ) × Store
  pub write : ℕ → ℕ → ℕ → List ℕ → Store → Bool × Store
  pub sync : ℕ → Store → Store
  pub refresh : ℕ → Store → Store
  pub getdent : ℕ → ℕ → Store → Option Dirent × Store

abbrev pub vfs_max_name_len : ℕ
vfs_max_name_len = 256

abbrev pub no_create : ℕ
no_create = 1

abbrev pub create : ℕ
create = 2

abbrev pub err_on_exist : ℕ
err_on_exist = 4

-- `vfs_root`, the first node.
abbrev pub vfs_root : ℕ
vfs_root = 0

abbrev pub folder_type : NodeType → Bool
folder_type vfs_node_folder = true
folder_type vfs_node_mountpoint = true
folder_type _ = false

abbrev pub is_traversable : Inode → Bool
is_traversable x = folder_type x.type

-- The inode of a tree node.
abbrev pub inode_of : Store → ℕ → Inode
inode_of s n = s.inodes ((s.tnodes n).inode)

abbrev pub put_inode : ℕ → Inode → Store → Store
put_inode a v s = record s { inodes = λ i. if i == a then v else s.inodes i }

abbrev pub put_tnode : ℕ → Tnode → Store → Store
put_tnode a v s = record s { tnodes = λ i. if i == a then v else s.tnodes i }

abbrev no_tm : Tm
no_tm = record {
  sec = 0;
  min = 0;
  hour = 0;
  mday = 0;
  mon = 0;
  year = 0;
  wday = 0;
  yday = 0;
  isdst = 0;
}

unfoldable pub vfs_alloc_inode : NodeType → ℕ → ℕ → Option ℕ → Option ℕ → Store → ℕ × Store
vfs_alloc_inode type perms uid fs mountpoint s = (
  s.next_inode,
  record (put_inode s.next_inode
      (record {
        type = type;
        size = 0;
        perms = perms;
        uid = uid;
        refcount = 0;
        tm = no_tm;
        fs = fs;
        ident = 0;
        mountpoint = mountpoint;
        child = [];
      })
      s) { next_inode = s.next_inode + 1 },
)

unfoldable pub vfs_alloc_tnode : List ℕ → ℕ → Option ℕ → Store → ℕ × Store
vfs_alloc_tnode name inode parent s = (
  s.next_tnode,
  record (put_tnode s.next_tnode
      (record { name = take vfs_max_name_len name; inode = inode; parent = parent }) s) {
        next_tnode = s.next_tnode + 1;
      },
)

abbrev pub is_empty {ℓ} : {A : Type ℓ} → List A → Bool
is_empty [] = true
is_empty (x ∷ xs) = false

abbrev pub same_bytes : List ℕ → List ℕ → Bool
same_bytes [] [] = true
same_bytes [] (y ∷ ys) = false
same_bytes (x ∷ xs) [] = false
same_bytes (x ∷ xs) (y ∷ ys) = x == y && same_bytes xs ys

-- `strncmp(a, b, sizeof(name)) == 0`
abbrev pub same_name : List ℕ → List ℕ → Bool
same_name a b = same_bytes (take vfs_max_name_len a) (take vfs_max_name_len b)

abbrev push_head : ℕ → List (List ℕ) → List (List ℕ)
push_head c [] = (c ∷ []) ∷ []
push_head c (t ∷ ts) = (c ∷ t) ∷ ts

-- The tokens between the slashes of a path.
unfoldable pub tokens : List ℕ → List (List ℕ)
tokens [] = [] ∷ []
tokens (c ∷ cs) = let rest = tokens cs in if c == b'/' then [] ∷ rest else push_head c rest

-- The loop over the children of a node.
unfoldable pub find_child : Store → List ℕ → List ℕ → Option ℕ
find_child s token [] = none
find_child s token (n ∷ ns) =
    let rest = find_child s token ns in if same_name (s.tnodes n).name token then some n else rest

-- The variables of the search: the node, whether the last token was found, the token, and whether
-- `curr_index` is past the end of the path.
pub record Walk : Type 0 where
  pub curr : ℕ
  pub foundnode : Bool
  pub tmpbuff : List ℕ
  pub past : Bool

-- After the children of the node are searched.
abbrev pub go_into : Option ℕ → Walk → Walk
go_into none w = w
go_into (some n) w = record w { curr = n; foundnode = true }

-- The loop of `vfs_path_to_node`. Nothing follows a slash at the end of the path.
unfoldable pub walk : Store → List (List ℕ) → Walk → Walk
walk s [] w = w
walk s (t ∷ ts) w =
    let w' = record w { foundnode = false; tmpbuff = t; past = is_empty ts } in
    let rest = walk s ts (go_into (find_child s t (inode_of s w.curr).child) w') in
    if is_empty ts && is_empty t
    then record w { past = false }
    else (if not (is_traversable (inode_of s w.curr)) then w' else rest)

-- The search from the root, for a path without its leading slash.
unfoldable pub search_path : Store → List ℕ → Walk
search_path s path =
    walk s (tokens path) (record { curr = vfs_root; foundnode = true; tmpbuff = []; past = false })

-- `if (fs != NULL) fs->mknode(new_tnode)`
unfoldable pub tell_fs : (ℕ → Fs) → Option ℕ → ℕ → Store → Store
tell_fs drivers none n s = s
tell_fs drivers (some f) n s = (drivers f).mknode n s

-- A new node under `curr`.
unfoldable pub add_node : (ℕ → Fs) → List ℕ → NodeType → ℕ → Store → ℕ × Store
add_node drivers name create_type curr s =
    let at : ℕ = (s.tnodes curr).inode in
    let dir = s.inodes at in
    let (i, s1) = vfs_alloc_inode create_type 511 0 dir.fs dir.mountpoint s in
    let (n, s2) = vfs_alloc_tnode name i (some at) s1 in
    let s3 = put_inode at (record (s2.inodes at) { child = (s2.inodes at).child ++ (n ∷ []) }) s2 in
    (n, tell_fs drivers dir.fs n s3)

-- What follows the loop.
unfoldable pub settle_path : (ℕ → Fs) → ℕ → NodeType → Walk → Store → Option ℕ × Store
settle_path drivers mode create_type w s =
    if not w.foundnode
    then (if is_traversable (inode_of s w.curr) && nonzero (bit_and mode create) && w.past
        then (let (n, s') = add_node drivers w.tmpbuff create_type w.curr s in (some n, s'))
        else (none, s))
    else (if nonzero (bit_and mode err_on_exist) then (none, s) else (some w.curr, s))

unfoldable pub vfs_path_to_node : (ℕ → Fs) → List ℕ → ℕ → NodeType → Store → Option ℕ × Store
vfs_path_to_node drivers [] mode create_type s = (none, s)
vfs_path_to_node drivers (c ∷ path) mode create_type s =
    if not (c == b'/')
    then (none, s)
    else settle_path drivers mode create_type (search_path s path) s

-- The descriptor of a handle, which is read as a `size_t`.
unfoldable pub desc_at : List (Option Desc) → ℕ → Option Desc
desc_at [] h = none
desc_at (fd ∷ fds) zero = fd
desc_at (fd ∷ fds) (suc h) = desc_at fds h

abbrev pub vfs_handle_to_fd : Store → ℕ → Option Desc
vfs_handle_to_fd s h = desc_at s.openfiles h
