-- ===== src/Vfs/Opens.antt =====
-- kernel/fs/vfs.c: the operations on paths. An outer `none` is an access through NULL, or outside a
-- string; a status of -1 is `false`. The lock is left out.
use han_os.Base.{
  ℕ, zero, suc, ◌+◌, ◌-◌, Bool, true, false, not, ◌&&◌, ◌||◌, Option, none, some, List, [], ◌∷◌,
  ◌++◌, ltb, ◌==◌, if◌then◌else◌, take, get_or, length, u32,
}
use han_os.Vfs.{
  NodeType, vfs_node_folder, vfs_node_block_device, OpenMode, Desc, Store, Fs, no_create, create,
  err_on_exist, vfs_root, inode_of, put_inode, put_tnode, is_empty, same_bytes, vfs_alloc_inode,
  vfs_path_to_node, vfs_handle_to_fd,
}

pub vfs_register_fs : ℕ → Store → Store
vfs_register_fs fs s = record s { fslist = s.fslist ++ (fs ∷ []) }

-- The names of file systems have 16 bytes.
pub get_fs_loop : (ℕ → Fs) → List ℕ → List ℕ → Option ℕ
get_fs_loop drivers name [] = none
get_fs_loop drivers name (f ∷ fs) =
    let rest = get_fs_loop drivers name fs in
    if same_bytes (take 16 name) (take 16 (drivers f).name) then some f else rest

pub vfs_get_fs : (ℕ → Fs) → List ℕ → Store → Option ℕ
vfs_get_fs drivers name s = get_fs_loop drivers name s.fslist

-- `vfs_init`; `fat32` is the address of that file system.
pub vfs_init : (ℕ → Fs) → ℕ → Store → Store
vfs_init drivers fat32 s =
    let (i, s1) = vfs_alloc_inode vfs_node_folder 511 0 none none s in
    let s2 = put_tnode vfs_root (record (s1.tnodes vfs_root) { inode = i }) s1 in
    let s3 = vfs_register_fs fat32 s2 in
    let (dev, s4) =
      vfs_path_to_node drivers (b'/' ∷ b'd' ∷ b'e' ∷ b'v' ∷ []) create vfs_node_folder s3 in
    let (disk, s5) =
      vfs_path_to_node drivers (b'/' ∷ b'd' ∷ b'i' ∷ b's' ∷ b'k' ∷ []) create vfs_node_folder s4 in
    s5

abbrev pub is_some {ℓ} : {A : Type ℓ} → Option A → Bool
is_some none = false
is_some (some a) = true

-- The flags of `vfs_create` are `CREATE | ERR_ON_EXIST`.
unfoldable pub vfs_create : (ℕ → Fs) → List ℕ → NodeType → Store → Bool × Store
vfs_create drivers path type s =
    let (n, s') = vfs_path_to_node drivers path (create + err_on_exist) type s in (is_some n, s')

abbrev pub block_device : NodeType → Bool
block_device vfs_node_block_device = true
block_device _ = false

-- `VFS_NODE_FOLDER`, which a mount point is not.
abbrev pub plain_folder : NodeType → Bool
plain_folder vfs_node_folder = true
plain_folder _ = false

-- The mount at `path`, with the inode of the device.
pub mount_at : (ℕ → Fs) → ℕ → Option ℕ → List ℕ → Store → Bool × Store
mount_at drivers f dev path s =
    let (at, s1) = vfs_path_to_node drivers path no_create vfs_node_folder s in
    elim at [
      | none ↦ (false, s1)
      | some n ↦
          if not (plain_folder (inode_of s1 n).type) || not (is_empty (inode_of s1 n).child)
          then (false, s1)
          else (let (i, s2) = (drivers f).mount dev s1 in
              (
                true,
                put_inode i (record (s2.inodes i) { mountpoint = some n })
                    (put_tnode n (record (s2.tnodes n) { inode = i }) s2),
              ))
    ]

pub vfs_mount : (ℕ → Fs) → List ℕ → List ℕ → List ℕ → Store → Bool × Store
vfs_mount drivers device path fsname s = elim (vfs_get_fs drivers fsname s) [
  | none ↦ (false, s)
  | some f ↦
      if (drivers f).istemp
      then mount_at drivers f none path s
      else (let (dev, s1) = vfs_path_to_node drivers device no_create vfs_node_folder s in
          elim dev [
            | none ↦ (false, s1)
            | some n ↦
                if block_device (inode_of s1 n).type
                then mount_at drivers f (some (s1.tnodes n).inode) path s1
                else (false, s1)
          ])
]

-- The loop of `vfs_get_parent_dir`, from index `idx`.
pub cut_loop : ℕ → List ℕ → List ℕ
cut_loop zero parent = parent
cut_loop (suc k) parent =
    let rest = cut_loop k parent in
    if get_or parent (suc k) 0 == b'/' then take (suc k) parent else rest

-- An empty path is read before its beginning.
pub vfs_get_parent_dir : List ℕ → Option (List ℕ)
vfs_get_parent_dir [] = none
vfs_get_parent_dir (c ∷ cs) =
    let idx : ℕ = length cs in
    some (cut_loop (if ltb 0 idx && get_or (c ∷ cs) idx 0 == b'/' then idx - 1 else idx) (c ∷ cs))

-- The loop of `vfs_open` that goes back to a parent that exists: it ends with the node, if any.
pub visit_back : ℕ → (ℕ → Fs) → List ℕ → Store → Option (Option ℕ)
visit_back zero drivers curpath s = none
visit_back (suc fuel) drivers curpath s = elim (vfs_get_parent_dir curpath) [
  | none ↦ none
  | some parent ↦
      let rest = visit_back fuel drivers parent s in
      if same_bytes curpath parent
      then some none
      else (let (pn, s') = vfs_path_to_node drivers parent no_create vfs_node_folder s in
          elim pn [ none ↦ rest | some n ↦ some (some n) ])
]

-- The file system of the parent `pn`, if any, looks for the path.
unfoldable pub ask_fs : (ℕ → Fs) → List ℕ → ℕ → Option ℕ → Store → Option ℕ × Store
ask_fs drivers path pn none s = (none, s)
ask_fs drivers path pn (some f) s = (drivers f).open_node (s.tnodes pn).inode path s

-- After the loop; a node is read although none was found.
unfoldable pub ask_parent :
    (ℕ → Fs) → List ℕ → Option (Option ℕ) → Store → Option (Option ℕ × Store)
ask_parent drivers path none s = none
ask_parent drivers path (some none) s = none
ask_parent drivers path (some (some pn)) s = some (ask_fs drivers path pn (inode_of s pn).fs s)

unfoldable pub find_or_ask : (ℕ → Fs) → List ℕ → Option ℕ → Store → Option (Option ℕ × Store)
find_or_ask drivers path (some n) s = some (some n, s)
find_or_ask drivers path none s =
    ask_parent drivers path (visit_back (length path + 1) drivers path s) s

-- The node of `vfs_open`, which the file system of a parent may find.
unfoldable pub find_node : (ℕ → Fs) → List ℕ → Store → Option (Option ℕ × Store)
find_node drivers path s =
    let (req, s1) = vfs_path_to_node drivers path no_create vfs_node_folder s in
    find_or_ask drivers path req s1

-- A descriptor of the node, at the end of the list.
unfoldable pub open_fd : List ℕ → OpenMode → ℕ → Store → ℕ × Store
open_fd path mode n s =
    let i : ℕ = (s.tnodes n).inode in
    let s1 = put_inode i (record (s.inodes i) { refcount = u32 ((s.inodes i).refcount + 1) }) s in
    let fd : Desc = record { path = path; tnode = n; inode = i; mode = mode; seek_pos = 0 } in
    (length s1.openfiles, record s1 { openfiles = s1.openfiles ++ (some fd ∷ []) })

-- The handle, or `none` for -1.
unfoldable pub vfs_open : (ℕ → Fs) → List ℕ → OpenMode → Store → Option (Option ℕ × Store)
vfs_open drivers path mode s = elim (find_node drivers path s) [
  | none ↦ none
  | some (none, s1) ↦ some (none, s1)
  | some (some n, s1) ↦ (let (h, s2) = open_fd path mode n s1 in some (some h, s2))
]

-- The loop of `vfs_refresh` over the entries of the directory from `pos` on: it ends only when the
-- file system says so, which the fuel stands for.
pub dents_loop : ℕ → (ℕ → Fs) → ℕ → Desc → ℕ → Store → Option Store
dents_loop zero drivers f fd pos s = none
dents_loop (suc fuel) drivers f fd pos s =
    let (dirent, s1) = (drivers f).getdent fd.inode pos s in
    elim dirent [
      | none ↦ some s1
      | some de ↦
          let (tn, s2) = vfs_path_to_node drivers (fd.path ++ (b'/' ∷ de.name)) create de.type s1 in
          elim tn [
            | none ↦ none
            | some n ↦
                let i : ℕ = (s2.tnodes n).inode in
                dents_loop fuel drivers f fd (pos + 1)
                  (put_inode i (record (s2.inodes i) { tm = de.tm }) s2)
          ]
    ]

pub vfs_refresh : ℕ → (ℕ → Fs) → ℕ → Store → Option (Bool × Store)
vfs_refresh fuel drivers h s = elim (vfs_handle_to_fd s h) [
  | none ↦ some (false, s)
  | some fd ↦ elim (s.inodes fd.inode).fs [
    | none ↦ none
    | some f ↦ elim (dents_loop fuel drivers f fd 0 ((drivers f).refresh fd.inode s)) [
      | none ↦ none
      | some s' ↦ some (true, s')
    ]
  ]
]
