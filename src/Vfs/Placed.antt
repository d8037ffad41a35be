-- ===== src/Vfs/Placed.antt =====
-- The reference counts of a store whose next inode is a new one, over one operation. A file system
-- that makes nodes when it is asked for one keeps them.
use han_os.Base.{
  ℕ, ◌+◌, ◌≤◌, ◌<◌, ◌≡◌, refl, inl, inr, not, ◌||◌, ◌&&◌, leb, ◌==◌, arith, Bool-cases,
  Option-cases, Option, some, none, List, [], ◌∷◌, length, bit_and, nonzero,
}
use han_os.Vfs.{
  Desc, Store, OpenMode, NodeType, desc_at, is_traversable, vfs_alloc_inode, vfs_alloc_tnode, Fs,
  Walk, tell_fs, put_inode, inode_of, add_node, settle_path, vfs_path_to_node, create, err_on_exist,
}
use han_os.Vfs.Files.{vfs_close, vfs_seek, vfs_getdent, put_fd, read_only}
use han_os.Vfs.Opens.{open_fd}
use han_os.Vfs.Handles.{closed, vfs_close-fd}
use han_os.Vfs.Opened.{
  Counted, opens, opens-append, opens-set, opens-set_same, open_fd-Counted, vfs_close-Counted,
  vfs_close-invalid, vfs_seek-Counted, vfs_seek-invalid, vfs_seek-fd, vfs_getdent-Counted,
  vfs_getdent-invalid, vfs_getdent-fd,
}

-- Every reference count is the number of open handles, and nodes and handles lead to inodes below the
-- next one.
pub record Placed (s : Store) : Type 0 where
  pub counted : Counted s
  pub new_inodes : (i : ℕ) → s.next_inode ≤ i → opens i s.openfiles ≡ 0
  pub nodes_in : (n : ℕ) → (s.tnodes n).inode < s.next_inode

-- The same nodes, and no handle more.
record NoMore (s s' : Store) : Type 0 where
  same_next : s'.next_inode ≡ s.next_inode
  same_tnodes : s'.tnodes ≡ s.tnodes
  no_more : (i : ℕ) → opens i s'.openfiles ≤ opens i s.openfiles

Placed-NoMore : (s s' : Store) → Counted s' → NoMore s s' → Placed s → Placed s'
Placed-NoMore s s' c k p = record {
  counted = c;
  new_inodes = λ i h.
      (let below = k.no_more i in
        let none_open = p.new_inodes i (rw (← k.same_next) h) in omega (arith, below, none_open));
  nodes_in = λ n. rw (k.same_next, k.same_tnodes) (p.nodes_in n);
}

pub open_fd-Placed :
    (path : List ℕ) (mode : OpenMode) (n : ℕ) (s : Store)
    → Placed s
    → Placed (open_fd path mode n s).1
unfolding open_fd
open_fd-Placed path mode n s p =
    let fd : Desc = record {
      path = path;
      tnode = n;
      inode = (s.tnodes n).inode;
      mode = mode;
      seek_pos = 0;
    } in
    record {
      counted = open_fd-Counted path mode n s p.counted;
      new_inodes =
          λ i h. ground (arith, opens-append i s.openfiles fd, p.new_inodes i h, p.nodes_in n, h);
      nodes_in = p.nodes_in;
    }

closed-NoMore :
    (h : ℕ) (fd : Desc) (s : Store) → desc_at s.openfiles h ≡ some fd → NoMore s (closed h fd s)
unfolding closed
closed-NoMore h fd s e = record {
  same_next = refl;
  same_tnodes = refl;
  no_more = λ i. omega (arith, opens-set i s.openfiles h fd e);
}

put_fd-NoMore :
    (h pos : ℕ) (fd : Desc) (s : Store)
    → desc_at s.openfiles h ≡ some fd
    → NoMore s (put_fd h (some (record fd { seek_pos = pos })) s)
put_fd-NoMore h pos fd s e = record {
  same_next = refl;
  same_tnodes = refl;
  no_more =
      λ i. omega (arith, opens-set_same i s.openfiles h fd (record fd { seek_pos = pos }) e refl);
}

NoMore-refl : (s : Store) → NoMore s s
NoMore-refl s = record { same_next = refl; same_tnodes = refl; no_more = λ i. omega arith }

pub vfs_close-Placed : (h : ℕ) (s : Store) → Placed s → Placed (vfs_close h s).1
vfs_close-Placed h s p =
    Placed-NoMore s (vfs_close h s).1 (vfs_close-Counted h s p.counted)
      (elim (Option-cases (desc_at s.openfiles h)) [
        | inl invalid ↦ rw (vfs_close-invalid h s invalid) (NoMore-refl s)
        | inr (fd, valid) ↦ rw (vfs_close-fd h fd s valid) (closed-NoMore h fd s valid)
      ])
      p

pub vfs_seek-Placed : (h pos : ℕ) (s : Store) → Placed s → Placed (vfs_seek h pos s).1
vfs_seek-Placed h pos s p =
    Placed-NoMore s (vfs_seek h pos s).1 (vfs_seek-Counted h pos s p.counted)
      (elim (Option-cases (desc_at s.openfiles h)) [
        | inl invalid ↦ rw (vfs_seek-invalid h pos s invalid) (NoMore-refl s)
        | inr (fd, valid) ↦
            rw (vfs_seek-fd h pos fd s valid)
              (elim (Bool-cases (leb (s.inodes fd.inode).size pos && read_only fd.mode)) [
                | inl refused ↦ rw refused (NoMore-refl s)
                | inr moved ↦ rw moved (put_fd-NoMore h pos fd s valid)
              ])
      ])
      p

pub vfs_getdent-Placed : (h : ℕ) (s : Store) → Placed s → Placed (vfs_getdent h s).1
vfs_getdent-Placed h s p =
    Placed-NoMore s (vfs_getdent h s).1 (vfs_getdent-Counted h s p.counted)
      (elim (Option-cases (desc_at s.openfiles h)) [
        | inl invalid ↦ rw (vfs_getdent-invalid h s invalid) (NoMore-refl s)
        | inr (fd, valid) ↦
            rw (vfs_getdent-fd h fd s valid)
              (elim (Bool-cases (
                not (is_traversable (s.inodes fd.inode))
                || leb (length (s.inodes fd.inode).child) fd.seek_pos)) [
                  | inl nothing ↦ rw nothing (NoMore-refl s)
                  | inr one ↦ rw one (put_fd-NoMore h (fd.seek_pos + 1) fd s valid)
                ])
      ])
      p

-- What `vfs_path_to_node` does to make a node: a new inode has no handle.
pub alloc_inode-Placed :
    (type : NodeType) (perms uid : ℕ) (fs mountpoint : Option ℕ) (s : Store)
    → Placed s
    → Placed (vfs_alloc_inode type perms uid fs mountpoint s).1
unfolding vfs_alloc_inode
alloc_inode-Placed type perms uid fs mountpoint s p = record {
  counted = λ i. ground (arith, p.counted i, p.new_inodes i);
  new_inodes = λ i h. p.new_inodes i (omega (arith, h));
  nodes_in = λ n. omega (arith, p.nodes_in n);
}

pub alloc_tnode-Placed :
    (name : List ℕ) (inode : ℕ) (parent : Option ℕ) (s : Store)
    → inode < s.next_inode
    → Placed s
    → Placed (vfs_alloc_tnode name inode parent s).1
unfolding vfs_alloc_tnode
alloc_tnode-Placed name inode parent s h p = record {
  counted = p.counted;
  new_inodes = p.new_inodes;
  nodes_in = λ n. ground (arith, p.nodes_in n, h);
}

-- A file system that is told of a new node keeps the counts.
abbrev pub KeepsNodes : (ℕ → Fs) → Type 0
KeepsNodes drivers = (f n : ℕ) (s : Store) → Placed s → Placed ((drivers f).mknode n s)

tell_fs-Placed :
    (drivers : ℕ → Fs) (fs : Option ℕ) (n : ℕ) (s : Store)
    → KeepsNodes drivers
    → Placed s
    → Placed (tell_fs drivers fs n s)
unfolding tell_fs
tell_fs-Placed drivers none n s keeps p = p
tell_fs-Placed drivers (some f) n s keeps p = keeps f n s p

child-Placed :
    (at : ℕ) (child : List ℕ) (s : Store)
    → Placed s
    → Placed (put_inode at (record (s.inodes at) { child = child }) s)
child-Placed at child s p = record {
  counted = λ i. ground (arith, p.counted i, p.counted at);
  new_inodes = p.new_inodes;
  nodes_in = p.nodes_in;
}

add_node-Placed :
    (drivers : ℕ → Fs) (name : List ℕ) (type : NodeType) (curr : ℕ) (s : Store)
    → KeepsNodes drivers
    → Placed s
    → Placed (add_node drivers name type curr s).1
unfolding add_node vfs_alloc_inode vfs_alloc_tnode
add_node-Placed drivers name type curr s keeps p =
    let at : ℕ = (s.tnodes curr).inode in
    let dir = s.inodes at in
    let s1 = (vfs_alloc_inode type 511 0 dir.fs dir.mountpoint s).1 in
    let s2 = (vfs_alloc_tnode name s.next_inode (some at) s1).1 in
    tell_fs-Placed drivers dir.fs s.next_tnode _ keeps (
      child-Placed at _ s2 (
        alloc_tnode-Placed name s.next_inode (some at) s1 (omega arith)
          (alloc_inode-Placed type 511 0 dir.fs dir.mountpoint s p)))

settle_path-Placed :
    (drivers : ℕ → Fs) (mode : ℕ) (type : NodeType) (w : Walk) (s : Store)
    → KeepsNodes drivers
    → Placed s
    → Placed (settle_path drivers mode type w s).1
unfolding settle_path
settle_path-Placed drivers mode type w s keeps p = elim (Bool-cases w.foundnode) [
  | inl found ↦ elim (Bool-cases (nonzero (bit_and mode err_on_exist))) [
    | inl refused ↦ rw (found, refused) p
    | inr kept ↦ rw (found, kept) p
  ]
  | inr missing ↦
      elim (Bool-cases
        (is_traversable (inode_of s w.curr) && nonzero (bit_and mode create) && w.past)) [
          | inl made ↦ rw (missing, made) (add_node-Placed drivers w.tmpbuff type w.curr s keeps p)
          | inr refused ↦ rw (missing, refused) p
        ]
]

-- `vfs_path_to_node` keeps the counts, also when it makes a node.
pub path_to_node-Placed :
    (drivers : ℕ → Fs) (path : List ℕ) (mode : ℕ) (type : NodeType) (s : Store)
    → KeepsNodes drivers
    → Placed s
    → Placed (vfs_path_to_node drivers path mode type s).1
unfolding vfs_path_to_node
path_to_node-Placed drivers [] mode type s keeps p = p
path_to_node-Placed drivers (c ∷ path) mode type s keeps p = elim (Bool-cases (c == b'/')) [
  | inl rooted ↦ rw rooted (settle_path-Placed drivers mode type _ s keeps p)
  | inr other ↦ rw other p
]
