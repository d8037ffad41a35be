-- ===== src/Vfs/Paths.antt =====
-- What the search of a path finds.
use han_os.Base.{
  ℕ, ◌+◌, ◌≡◌, inl, inr, refl, true, false, ◌==◌, if◌then◌else◌, arith, Bool-cases, Option-cases,
  Option, some, none, List, [], ◌∷◌, ◌++◌,
}
use han_os.Vfs.{
  Fs, NodeType, Store, Walk, no_create, create, err_on_exist, vfs_root, is_traversable, inode_of,
  is_empty, go_into, tokens, find_child, walk, search_path, add_node, settle_path, vfs_path_to_node,
}

settle_path-no_create :
    (drivers : ℕ → Fs) (type : NodeType) (w : Walk) (s : Store)
    → settle_path drivers no_create type w s ≡ (if w.foundnode then (some w.curr, s) else (none, s))
unfolding settle_path
settle_path-no_create drivers type w s = elim (Bool-cases w.foundnode) [
  | inl found ↦ rw found refl
  | inr missing ↦ elim (Bool-cases (is_traversable (inode_of s w.curr))) [
    | inl dir ↦ rw (missing, dir) refl
    | inr no_dir ↦ rw (missing, no_dir) refl
  ]
]

-- A search changes nothing.
pub path_to_node-no_create :
    (drivers : ℕ → Fs) (path : List ℕ) (type : NodeType) (s : Store)
    → (vfs_path_to_node drivers path no_create type s).1 ≡ s
unfolding vfs_path_to_node
path_to_node-no_create drivers [] type s = refl
path_to_node-no_create drivers (c ∷ path) type s = elim (Bool-cases (c == b'/')) [
  | inl slash ↦
      rw (slash, settle_path-no_create drivers type (search_path s path) s)
        (elim (Bool-cases (search_path s path).foundnode) [
          | inl found ↦ rw found refl
          | inr missing ↦ rw missing refl
        ])
  | inr other ↦ rw other refl
]

-- The node that a chain of folders leads to from `n`, where every one of them exists.
unfoldable pub descend : Store → ℕ → List (List ℕ) → Option ℕ
descend s n [] = some n
descend s n (t ∷ ts) =
    if is_traversable (inode_of s n)
    then elim (find_child s t (inode_of s n).child) [ none ↦ none | some m ↦ descend s m ts ]
    else none

pub descend-some :
    (s : Store) (n p : ℕ) (t : List ℕ) (ts : List (List ℕ))
    → descend s n (t ∷ ts) ≡ some p
    → (is_traversable (inode_of s n) ≡ true)
      × ((m : ℕ) × (find_child s t (inode_of s n).child ≡ some m) × (descend s m ts ≡ some p))
unfolding descend
descend-some s n p t ts e = elim (Bool-cases (is_traversable (inode_of s n))) [
  | inr no_dir ↦ absurd (ground (arith, e))
  | inl dir ↦ elim (Option-cases (find_child s t (inode_of s n).child)) [
    | inl missing ↦ absurd (ground (arith, e))
    | inr (m, found) ↦ (dir, (m, found, rw (dir, found) at e))
  ]
]

-- A search of the last token `t`, at node `p`.
last_walk : ℕ → List ℕ → Walk
last_walk p t = record { curr = p; foundnode = false; tmpbuff = t; past = true }

is_empty-snoc : (ts : List (List ℕ)) (t : List ℕ) → is_empty (ts ++ (t ∷ [])) ≡ false
is_empty-snoc [] t = refl
is_empty-snoc (x ∷ ts) t = refl

walk-descend :
    (s : Store) (ts : List (List ℕ)) (t : List ℕ) (w : Walk) (p : ℕ)
    → descend s w.curr ts ≡ some p
    → is_traversable (inode_of s p) ≡ true
    → is_empty t ≡ false
    → walk s (ts ++ (t ∷ [])) w ≡ go_into (find_child s t (inode_of s p).child) (last_walk p t)
unfolding walk last_walk descend
walk-descend s [] t w p e dir whole =
    let here : w.curr ≡ p = ground (arith, e) in rw (here, dir, whole) refl
walk-descend s (x ∷ ts) t w p e dir whole =
    let (at_dir, (m, found, below)) = descend-some s w.curr p x ts e in
    rw (is_empty-snoc ts t, at_dir, found) (walk-descend s ts t _ p below dir whole)

-- A path whose folders exist is searched to its end: the node found is the child of that name of the
-- last folder, if any.
pub path_to_node-descend :
    (drivers : ℕ → Fs) (path t : List ℕ) (ts : List (List ℕ)) (type : NodeType) (s : Store) (p : ℕ)
    → tokens path ≡ ts ++ (t ∷ [])
    → is_empty t ≡ false
    → descend s vfs_root ts ≡ some p
    → is_traversable (inode_of s p) ≡ true
    → vfs_path_to_node drivers (b'/' ∷ path) no_create type s
      ≡ (find_child s t (inode_of s p).child, s)
unfolding vfs_path_to_node search_path last_walk
path_to_node-descend drivers path t ts type s p split whole leads dir =
    let w0 : Walk = record { curr = vfs_root; foundnode = true; tmpbuff = []; past = false } in
    let ends = walk-descend s ts t w0 p leads dir whole in
    rw (split, ends, settle_path-no_create drivers type _ s)
      (elim (Option-cases (find_child s t (inode_of s p).child)) [
        | inl missing ↦ rw missing refl
        | inr (m, found) ↦ rw found refl
      ])

-- The same search with `CREATE`, where no child has the name.
pub path_to_node-create :
    (drivers : ℕ → Fs) (path t : List ℕ) (ts : List (List ℕ)) (type : NodeType) (s : Store) (p : ℕ)
    → tokens path ≡ ts ++ (t ∷ [])
    → is_empty t ≡ false
    → descend s vfs_root ts ≡ some p
    → is_traversable (inode_of s p) ≡ true
    → find_child s t (inode_of s p).child ≡ none
    → vfs_path_to_node drivers (b'/' ∷ path) (create + err_on_exist) type s
      ≡ (let (n, s') = add_node drivers t type p s in (some n, s'))
unfolding vfs_path_to_node search_path last_walk settle_path
path_to_node-create drivers path t ts type s p split whole leads dir missing =
    let w0 : Walk = record { curr = vfs_root; foundnode = true; tmpbuff = []; past = false } in
    let ends = walk-descend s ts t w0 p leads dir whole in rw (split, ends, missing, dir) refl
