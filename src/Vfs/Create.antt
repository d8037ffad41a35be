-- ===== src/Vfs/Create.antt =====
-- A node that is created is found under its path.
use han_os.Base.{
  ℕ, zero, suc, ◌<◌, ◌≡◌, inl, inr, refl, ◌∙◌, ap, true, false, ◌==◌, arith, Bool-cases, Option,
  some, none, List, [], ◌∷◌, ◌++◌, take,
}
use han_os.Vfs.{
  Fs, NodeType, Store, no_create, vfs_root, is_traversable, inode_of, is_empty, same_name,
  same_bytes, tokens, find_child, vfs_path_to_node, folder_type,
}
use han_os.Vfs.Opens.{vfs_create}
use han_os.Vfs.Paths.{descend, descend-some, path_to_node-descend, path_to_node-create}
use han_os.Vfs.Grow.{below, IsTree, IsQuiet, Grown, add_node-Grown, IsTree-Grown}

-- The children of a node, looked at in two stores with the same names.
find_child-same :
    (s s' : Store) (t : List ℕ) (ns : List ℕ)
    → ((m : ℕ) → m < s.next_tnode → s'.tnodes m ≡ s.tnodes m)
    → below s.next_tnode ns ≡ true
    → find_child s' t ns ≡ find_child s t ns
unfolding find_child
find_child-same s s' t [] same b = refl
find_child-same s s' t (n ∷ ns) same b =
    let here : s'.tnodes n ≡ s.tnodes n = same n (ground (arith, b)) in
    let rest = find_child-same s s' t ns same (ground (arith, b)) in rw (here, rest) refl

find_child-append :
    (s : Store) (t : List ℕ) (ns : List ℕ) (x m : ℕ)
    → find_child s t ns ≡ some m
    → find_child s t (ns ++ (x ∷ [])) ≡ some m
unfolding find_child
find_child-append s t [] x m e = absurd (ground (arith, e))
find_child-append s t (n ∷ ns) x m e = elim (Bool-cases (same_name (s.tnodes n).name t)) [
  | inl hit ↦ rw hit (rw hit at e)
  | inr miss ↦ rw miss (find_child-append s t ns x m (rw miss at e))
]

find_child-last :
    (s : Store) (t : List ℕ) (ns : List ℕ) (x : ℕ)
    → find_child s t ns ≡ none
    → same_name (s.tnodes x).name t ≡ true
    → find_child s t (ns ++ (x ∷ [])) ≡ some x
unfolding find_child
find_child-last s t [] x e hit = rw hit refl
find_child-last s t (n ∷ ns) x e hit = elim (Bool-cases (same_name (s.tnodes n).name t)) [
  | inl here ↦ absurd (ground (arith, rw here at e))
  | inr miss ↦ rw miss (find_child-last s t ns x (rw miss at e) hit)
]

-- What is found below a node that has been allocated has been allocated.
find_child-below :
    (s : Store) (t : List ℕ) (k : ℕ) (ns : List ℕ) (m : ℕ)
    → below k ns ≡ true
    → find_child s t ns ≡ some m
    → m < k
unfolding find_child
find_child-below s t k [] m b e = absurd (ground (arith, e))
find_child-below s t k (n ∷ ns) m b e = elim (Bool-cases (same_name (s.tnodes n).name t)) [
  | inl hit ↦ (let found : some n ≡ some m = rw hit at e in ground (arith, found, b))
  | inr miss ↦ find_child-below s t k ns m (ground (arith, b)) (rw miss at e)
]

descend-below :
    (s : Store) (n q : ℕ) (ts : List (List ℕ))
    → IsTree s
    → n < s.next_tnode
    → descend s n ts ≡ some q
    → q < s.next_tnode
unfolding descend
descend-below s n q [] v h e = ground (arith, e)
descend-below s n q (t ∷ ts) v h e =
    let (dir, (m, found, rest)) = descend-some s n q t ts e in
    descend-below s m q ts v
      (find_child-below s t s.next_tnode (inode_of s n).child m (v.child_in _ (v.inode_in n h))
        found)
      rest

-- One step of a search, before and after.
step-Grown :
    (s s' : Store) (p n m : ℕ) (name t : List ℕ)
    → IsTree s
    → Grown s s' p name
    → n < s.next_tnode
    → find_child s t (inode_of s n).child ≡ some m
    → find_child s' t (inode_of s' n).child ≡ some m
step-Grown s s' p n m name t v g h e =
    let i : ℕ = (s.tnodes n).inode in
    let hi : i < s.next_inode = v.inode_in n h in
    let kept = find_child-same s s' t (s.inodes i).child g.old_tnodes (v.child_in i hi) ∙ e in
    rw (inode_of, g.old_tnodes n h, g.children i hi)
      (elim (Bool-cases (i == (s.tnodes p).inode)) [
        | inl here ↦ rw here (find_child-append s' t (s.inodes i).child s.next_tnode m kept)
        | inr away ↦ rw away kept
      ])

traversable-Grown :
    (s s' : Store) (p n : ℕ) (name : List ℕ)
    → IsTree s
    → Grown s s' p name
    → n < s.next_tnode
    → is_traversable (inode_of s n) ≡ true
    → is_traversable (inode_of s' n) ≡ true
traversable-Grown s s' p n name v g h e =
    rw (inode_of, g.old_tnodes n h)
      (ap folder_type (g.types (s.tnodes n).inode (v.inode_in n h)) ∙ e)

descend-Grown :
    (s s' : Store) (p n q : ℕ) (name : List ℕ) (ts : List (List ℕ))
    → IsTree s
    → Grown s s' p name
    → n < s.next_tnode
    → descend s n ts ≡ some q
    → descend s' n ts ≡ some q
unfolding descend
descend-Grown s s' p n q name [] v g h e = e
descend-Grown s s' p n q name (t ∷ ts) v g h e =
    let (dir, (m, found, rest)) = descend-some s n q t ts e in
    let hm =
      find_child-below s t s.next_tnode (inode_of s n).child m (v.child_in _ (v.inode_in n h))
        found in
    rw (traversable-Grown s s' p n name v g h dir, step-Grown s s' p n m name t v g h found)
      (descend-Grown s s' p m q name ts v g hm rest)

same_bytes_refl : (t : List ℕ) → same_bytes t t ≡ true
same_bytes_refl [] = refl
same_bytes_refl (c ∷ t) = ground (arith, same_bytes_refl t)

take-take : (k : ℕ) (t : List ℕ) → take k (take k t) ≡ take k t
take-take zero t = refl
take-take (suc k) [] = refl
take-take (suc k) (c ∷ t) = ap (λ xs. c ∷ xs) (take-take k t)

-- In a tree whose nodes are all allocated, a new path whose folders exist can be created; a search of
-- the path then finds the node that was made, and the tree is again one of allocated nodes. The file
-- system that is told of the node may change neither the tree nor the allocation.
pub path_to_node-vfs_create :
    (drivers : ℕ → Fs) (path t : List ℕ) (ts : List (List ℕ)) (type type' : NodeType) (s : Store)
    (p : ℕ)
    → ((f : ℕ) → IsQuiet (drivers f))
    → IsTree s
    → tokens path ≡ ts ++ (t ∷ [])
    → is_empty t ≡ false
    → descend s vfs_root ts ≡ some p
    → is_traversable (inode_of s p) ≡ true
    → find_child s t (inode_of s p).child ≡ none
    → (s' : Store) × (vfs_create drivers (b'/' ∷ path) type s ≡ (true, s'))
      × (vfs_path_to_node drivers (b'/' ∷ path) no_create type' s' ≡ (some s.next_tnode, s'))
      × IsTree s'
unfolding vfs_create
path_to_node-vfs_create drivers path t ts type type' s p quiet v split whole leads dir missing =
    let hp = descend-below s vfs_root p ts v v.root_in leads in
    let at : ℕ = (s.tnodes p).inode in
    let h_at : at < s.next_inode = v.inode_in p hp in
    let (s', adds, g) = add_node-Grown drivers t type p s quiet h_at in
    let leads' = descend-Grown s s' p vfs_root p t ts v g v.root_in leads in
    let at_itself : (at == at) ≡ true = ground arith in
    let no_old =
      find_child-same s s' t (s.inodes at).child g.old_tnodes (v.child_in at h_at) ∙ missing in
    let named : same_name (s'.tnodes s.next_tnode).name t ≡ true =
      rw (g.new_name, take-take 256 t) (same_bytes_refl (take 256 t)) in
    let finds : find_child s' t (inode_of s' p).child ≡ some s.next_tnode =
      rw (inode_of, g.old_tnodes p hp, g.children at h_at, at_itself)
        (find_child-last s' t (s.inodes at).child s.next_tnode no_old named) in
    (
      s',
      rw (path_to_node-create drivers path t ts type s p split whole leads dir missing, adds) refl,
      path_to_node-descend drivers path t ts type' s' p split whole leads'
            (traversable-Grown s s' p p t v g hp dir)
          ∙ ap (λ (o : Option ℕ). (o, s')) finds,
      IsTree-Grown s s' p t v g,
    )
