-- ===== src/Vfs/Grow.antt =====
-- What a new node changes in the tree.
use han_os.Base.{
  ℕ, ◌+◌, ◌<◌, ◌≡◌, inl, inr, refl, ◌∙◌, ap, Bool, true, false, ◌&&◌, ltb, ◌==◌, if◌then◌else◌,
  arith, Bool-cases, Option, some, none, List, [], ◌∷◌, ◌++◌, take,
}
use han_os.Vfs.{
  Fs, Tnode, NodeType, Store, vfs_root, add_node, tell_fs, vfs_alloc_inode, vfs_alloc_tnode,
}

abbrev pub below : ℕ → List ℕ → Bool
below k [] = true
below k (n ∷ ns) = ltb n k && below k ns

-- Every node that is reached has been allocated.
pub record IsTree (s : Store) : Type 0 where
  pub root_in : vfs_root < s.next_tnode
  pub inode_in : (n : ℕ) → n < s.next_tnode → (s.tnodes n).inode < s.next_inode
  pub child_in : (i : ℕ) → i < s.next_inode → below s.next_tnode (s.inodes i).child ≡ true

-- What a file system may do when a node is made: it changes neither the tree nor the allocation.
pub record IsQuiet (f : Fs) : Type 0 where
  pub quiet_tnodes : (n : ℕ) (s : Store) → (f.mknode n s).tnodes ≡ s.tnodes
  pub quiet_next_tnode : (n : ℕ) (s : Store) → (f.mknode n s).next_tnode ≡ s.next_tnode
  pub quiet_next_inode : (n : ℕ) (s : Store) → (f.mknode n s).next_inode ≡ s.next_inode
  pub quiet_type : (n i : ℕ) (s : Store) → ((f.mknode n s).inodes i).type ≡ (s.inodes i).type
  pub quiet_child : (n i : ℕ) (s : Store) → ((f.mknode n s).inodes i).child ≡ (s.inodes i).child

-- The tree after a node of that name was added under the node `p`.
pub record Grown (s s' : Store) (p : ℕ) (name : List ℕ) : Type 0 where
  pub old_tnodes : (m : ℕ) → m < s.next_tnode → s'.tnodes m ≡ s.tnodes m
  pub new_name : (s'.tnodes s.next_tnode).name ≡ take 256 name
  pub new_inode : (s'.tnodes s.next_tnode).inode ≡ s.next_inode
  pub types : (i : ℕ) → i < s.next_inode → (s'.inodes i).type ≡ (s.inodes i).type
  pub children :
      (i : ℕ)
      → i < s.next_inode
      → (s'.inodes i).child ≡ (
          if i == (s.tnodes p).inode
          then (s.inodes i).child ++ (s.next_tnode ∷ [])
          else (s.inodes i).child)
  pub no_children : (s'.inodes s.next_inode).child ≡ []
  pub tnodes_up : s'.next_tnode ≡ s.next_tnode + 1
  pub inodes_up : s'.next_inode ≡ s.next_inode + 1

-- The store before the file system is told.
made : List ℕ → NodeType → ℕ → Store → Store
made name type p s =
    let at : ℕ = (s.tnodes p).inode in
    let (i, s1) = vfs_alloc_inode type 511 0 (s.inodes at).fs (s.inodes at).mountpoint s in
    let (n, s2) = vfs_alloc_tnode name i (some at) s1 in
    record s2 {
      inodes = λ j.
          if j == at
          then record (s2.inodes at) { child = (s2.inodes at).child ++ (n ∷ []) }
          else s2.inodes j;
    }

made-Grown :
    (name : List ℕ) (type : NodeType) (p : ℕ) (s : Store)
    → (s.tnodes p).inode < s.next_inode
    → Grown s (made name type p s) p name
unfolding made vfs_alloc_inode vfs_alloc_tnode
made-Grown name type p s h = record {
  old_tnodes = λ m hm. (let e : (m == s.next_tnode) ≡ false = ground arith in rw e refl);
  new_name = (let e : (s.next_tnode == s.next_tnode) ≡ true = ground arith in rw e refl);
  new_inode = (let e : (s.next_tnode == s.next_tnode) ≡ true = ground arith in rw e refl);
  types = λ i hi.
      (let at_old : ((s.tnodes p).inode == s.next_inode) ≡ false = ground arith in
        let old : (i == s.next_inode) ≡ false = ground arith in
        elim (Bool-cases (i == (s.tnodes p).inode)) [
          | inl here ↦ (let e : i ≡ (s.tnodes p).inode = ground arith in rw (here, at_old, e) refl)
          | inr away ↦ rw (away, old) refl
        ]);
  children = λ i hi.
      (let at_old : ((s.tnodes p).inode == s.next_inode) ≡ false = ground arith in
        let old : (i == s.next_inode) ≡ false = ground arith in
        elim (Bool-cases (i == (s.tnodes p).inode)) [
          | inl here ↦
              (let e : i ≡ (s.tnodes p).inode = ground arith in rw (here, at_old) (rw e refl))
          | inr away ↦ rw (away, old) refl
        ]);
  no_children =
      (let new : (s.next_inode == s.next_inode) ≡ true = ground arith in
        let away : (s.next_inode == (s.tnodes p).inode) ≡ false = ground arith in
        rw (away, new) refl);
  tnodes_up = refl;
  inodes_up = refl;
}

-- A file system that is told changes none of this.
told-Grown :
    (f : Fs) (n : ℕ) (s s' : Store) (p : ℕ) (name : List ℕ)
    → IsQuiet f
    → Grown s s' p name
    → Grown s (f.mknode n s') p name
told-Grown f n s s' p name q g = record {
  old_tnodes = λ m hm. ap (λ (h : ℕ → _). h m) (q.quiet_tnodes n s') ∙ g.old_tnodes m hm;
  new_name = ap (λ (h : ℕ → _). (h s.next_tnode).name) (q.quiet_tnodes n s') ∙ g.new_name;
  new_inode = ap (λ (h : ℕ → _). (h s.next_tnode).inode) (q.quiet_tnodes n s') ∙ g.new_inode;
  types = λ i hi. q.quiet_type n i s' ∙ g.types i hi;
  children = λ i hi. q.quiet_child n i s' ∙ g.children i hi;
  no_children = q.quiet_child n s.next_inode s' ∙ g.no_children;
  tnodes_up = q.quiet_next_tnode n s' ∙ g.tnodes_up;
  inodes_up = q.quiet_next_inode n s' ∙ g.inodes_up;
}

tell_fs-Grown :
    (drivers : ℕ → Fs) (fs : Option ℕ) (n : ℕ) (s s' : Store) (p : ℕ) (name : List ℕ)
    → ((f : ℕ) → IsQuiet (drivers f))
    → Grown s s' p name
    → Grown s (tell_fs drivers fs n s') p name
unfolding tell_fs
tell_fs-Grown drivers none n s s' p name quiet g = g
tell_fs-Grown drivers (some f) n s s' p name quiet g =
    told-Grown (drivers f) n s s' p name (quiet f) g

pub add_node-Grown :
    (drivers : ℕ → Fs) (name : List ℕ) (type : NodeType) (p : ℕ) (s : Store)
    → ((f : ℕ) → IsQuiet (drivers f))
    → (s.tnodes p).inode < s.next_inode
    → (s' : Store) × (add_node drivers name type p s ≡ (s.next_tnode, s')) × Grown s s' p name
unfolding add_node made vfs_alloc_inode vfs_alloc_tnode
add_node-Grown drivers name type p s quiet h = (
  tell_fs drivers (s.inodes (s.tnodes p).inode).fs s.next_tnode (made name type p s),
  refl,
  tell_fs-Grown drivers (s.inodes (s.tnodes p).inode).fs s.next_tnode s (made name type p s) p name
      quiet (made-Grown name type p s h),
)

below-up : (k : ℕ) (ns : List ℕ) → below k ns ≡ true → below (k + 1) ns ≡ true
below-up k [] b = refl
below-up k (n ∷ ns) b = ground (arith, below-up k ns (ground (arith, b)))

below-append : (k : ℕ) (ns : List ℕ) → below k ns ≡ true → below (k + 1) (ns ++ (k ∷ [])) ≡ true
below-append k [] b = ground arith
below-append k (n ∷ ns) b = ground (arith, below-append k ns (ground (arith, b)))

pub IsTree-Grown : (s s' : Store) (p : ℕ) (name : List ℕ) → IsTree s → Grown s s' p name → IsTree s'
IsTree-Grown s s' p name v g = record {
  root_in = omega (arith, v.root_in, g.tnodes_up);
  inode_in = λ n hn. elim (Bool-cases (ltb n s.next_tnode)) [
    | inl old ↦
        (let h : n < s.next_tnode = ground arith in
          omega
            (arith, v.inode_in n h, ap (λ (t : Tnode). t.inode) (g.old_tnodes n h), g.inodes_up))
    | inr new ↦
        (let e : n ≡ s.next_tnode = ground (arith, g.tnodes_up) in
          rw e (omega (arith, g.new_inode, g.inodes_up)))
  ];
  child_in = λ i hi. elim (Bool-cases (ltb i s.next_inode)) [
    | inl old ↦
        (let h : i < s.next_inode = ground arith in
          rw (g.tnodes_up, g.children i h)
            (elim (Bool-cases (i == (s.tnodes p).inode)) [
              | inl here ↦ rw here (below-append s.next_tnode _ (v.child_in i h))
              | inr away ↦ rw away (below-up s.next_tnode _ (v.child_in i h))
            ]))
    | inr new ↦
        (let e : i ≡ s.next_inode = ground (arith, g.inodes_up) in rw (e, g.no_children) refl)
  ];
}
