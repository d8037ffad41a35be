-- ===== src/Vfs/Tests.antt =====
-- A small tree, and a file system in memory.
use han_os.Base.{
  ℕ, ◌≡◌, inl, inr, refl, true, false, ◌==◌, if◌then◌else◌, arith, Bool-cases, some, none, List, [],
  ◌∷◌, ◌++◌,
}
use han_os.Time.{Tm}
use han_os.Vfs.{
  create, NodeType, vfs_node_file, vfs_node_folder, vfs_mode_read, Fs, Inode, Store, no_create,
  vfs_path_to_node, vfs_root, tokens, find_child, inode_of, walk, search_path, settle_path,
}
use han_os.Vfs.Files.{read_len}
use han_os.Vfs.Opens.{vfs_create}
use han_os.Vfs.Opened.{opens, Counted}
use han_os.Vfs.Placed.{Placed, path_to_node-Placed}
use han_os.Vfs.Counts.{open_op, close_op, seek_op, getdent_op, run, StepPlaced, run-Counted}
use han_os.Vfs.Grow.{IsTree, IsQuiet}
use han_os.Vfs.Paths.{descend}
use han_os.Vfs.Create.{path_to_node-vfs_create}

abbrev clock : Tm
clock = record {
  sec = 0;
  min = 0;
  hour = 0;
  mday = 1;
  mon = 0;
  year = 70;
  wday = 4;
  yday = 0;
  isdst = 0;
}

-- A file system without files of its own.
abbrev silent_fs : Fs
silent_fs = record {
  name = [];
  istemp = true;
  mount = λ dev s. (0, s);
  open_node = λ i path s. (none, s);
  mknode = λ n s. s;
  read = λ i pos len s. (none, s);
  write = λ i pos len b s. (false, s);
  sync = λ i s. s;
  refresh = λ i s. s;
  getdent = λ i pos s. (none, s);
}

abbrev drivers : ℕ → Fs
drivers f = silent_fs

silent-IsQuiet : IsQuiet silent_fs
silent-IsQuiet = record {
  quiet_tnodes = λ n s. refl;
  quiet_next_tnode = λ n s. refl;
  quiet_next_inode = λ n s. refl;
  quiet_type = λ n i s. refl;
  quiet_child = λ n i s. refl;
}

abbrev new_inode : NodeType → List ℕ → ℕ → Inode
new_inode type child refcount = record {
  type = type;
  size = 2;
  perms = 511;
  uid = 0;
  refcount = refcount;
  tm = clock;
  fs = some 0;
  ident = 0;
  mountpoint = none;
  child = child;
}

-- The root and the folder `/dev`.
abbrev small_tree : Store
small_tree = record {
  tnodes = λ n.
      if n == 1
      then record { name = b'd' ∷ b'e' ∷ b'v' ∷ []; inode = 1; parent = some 0 }
      else record { name = []; inode = 0; parent = none };
  inodes =
      λ i. if i == 0 then new_inode vfs_node_folder (1 ∷ []) 0 else new_inode vfs_node_folder [] 0;
  next_tnode = 2;
  next_inode = 2;
  fslist = [];
  openfiles = [];
  media = λ i. 0;
}

small_tree-IsTree : IsTree small_tree
small_tree-IsTree = record {
  root_in = omega arith;
  inode_in = λ n h. (elim (Bool-cases (n == 1)) [
    | inl one ↦ rw one (omega arith)
    | inr other ↦ rw other (omega arith)
  ]);
  child_in =
      λ i h. (elim (Bool-cases (i == 0)) [ inl root ↦ rw root refl | inr other ↦ rw other refl ]);
}

tokens_of_x :
    tokens (b'd' ∷ b'e' ∷ b'v' ∷ b'/' ∷ b'x' ∷ [])
    ≡ ((b'd' ∷ b'e' ∷ b'v' ∷ []) ∷ []) ++ ((b'x' ∷ []) ∷ [])
unfolding tokens
tokens_of_x = refl

leads_to_dev : descend small_tree vfs_root ((b'd' ∷ b'e' ∷ b'v' ∷ []) ∷ []) ≡ some 1
unfolding descend find_child
leads_to_dev = refl

missing_x : find_child small_tree (b'x' ∷ []) (inode_of small_tree 1).child ≡ none
unfolding find_child
missing_x = refl

-- A folder that is missing is skipped: a search for `/no/dev` finds `/dev`.
skipped_folder :
    vfs_path_to_node drivers
      (b'/' ∷ b'n' ∷ b'o' ∷ b'/' ∷ b'd' ∷ b'e' ∷ b'v' ∷ [])
      no_create
      vfs_node_file
      small_tree
    ≡ (some 1, small_tree)
unfolding vfs_path_to_node search_path settle_path walk tokens find_child
skipped_folder = refl

-- A position past the end makes the length that is read wrap around.
wrapped_len : read_len 10 4 8 ≡ some 18446744073709551610
unfolding read_len
wrapped_len = refl

-- `/dev/x` is created and found.
path_to_node-vfs_create_example :
    (s' : Store) × (vfs_create drivers
        (b'/' ∷ b'd' ∷ b'e' ∷ b'v' ∷ b'/' ∷ b'x' ∷ [])
        vfs_node_file
        small_tree
      ≡ (true, s'))
    × (vfs_path_to_node drivers
          (b'/' ∷ b'd' ∷ b'e' ∷ b'v' ∷ b'/' ∷ b'x' ∷ [])
          no_create
          vfs_node_file
          s'
        ≡ (some 2, s'))
    × IsTree s'
path_to_node-vfs_create_example =
    path_to_node-vfs_create drivers (b'd' ∷ b'e' ∷ b'v' ∷ b'/' ∷ b'x' ∷ []) (b'x' ∷ [])
      ((b'd' ∷ b'e' ∷ b'v' ∷ []) ∷ []) vfs_node_file vfs_node_file small_tree 1
      (λ f. silent-IsQuiet) small_tree-IsTree tokens_of_x refl leads_to_dev refl missing_x

-- The tree with a file system, which is asked for nodes.
abbrev mounted_tree : Store
mounted_tree = record small_tree { inodes = λ i. record (small_tree.inodes i) { fs = some 0 } }

mounted_tree-Counted : Counted mounted_tree
unfolding opens
mounted_tree-Counted i = elim (Bool-cases (i == 0)) [
  | inl root ↦ rw root refl
  | inr other ↦ rw other refl
]

mounted_tree-Placed : Placed mounted_tree
unfolding opens
mounted_tree-Placed = record {
  counted = mounted_tree-Counted;
  new_inodes = λ i h. refl;
  nodes_in = λ n. (elim (Bool-cases (n == 1)) [
    | inl one ↦ rw one (omega arith)
    | inr other ↦ rw other (omega arith)
  ]);
}

-- A file system that makes the node that it is asked for, as `fat32_open` does when the file is there.
abbrev making_fs : Fs
making_fs = record silent_fs {
  open_node = λ i path s. vfs_path_to_node drivers path create vfs_node_file s;
}

run-Counted_example : StepPlaced (
    run
      (λ f. making_fs)
      (open_op (b'/' ∷ b'd' ∷ b'e' ∷ b'v' ∷ b'/' ∷ b'x' ∷ []) vfs_mode_read
        ∷ getdent_op 0
        ∷ seek_op 0 1
        ∷ close_op 0
        ∷ close_op 0
        ∷ [])
      mounted_tree)
run-Counted_example =
    run-Counted (λ f. making_fs)
      (open_op (b'/' ∷ b'd' ∷ b'e' ∷ b'v' ∷ b'/' ∷ b'x' ∷ []) vfs_mode_read
        ∷ getdent_op 0
        ∷ seek_op 0 1
        ∷ close_op 0
        ∷ close_op 0
        ∷ [])
      mounted_tree
      (λ f i path s p. path_to_node-Placed drivers path create vfs_node_file s (λ f n s p. p) p)
      mounted_tree-Placed
