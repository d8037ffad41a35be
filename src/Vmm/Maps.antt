-- ===== src/Vmm/Maps.antt =====
-- A page that is mapped is found by the processor.
use han_os.Base.{
  get_or, append-nil, append_assoc, ◌⊎◌, ◌^◌, inr, ℕ, ◌+◌, ◌*◌, ◌/◌, ◌%◌, ◌<◌, ◌≡◌, ◌≢◌, inl, inr,
  refl, sym, ◌∙◌, ap, true, ◌==◌, arith, Bool-cases, Option, some, List, [], ◌∷◌, ◌++◌, length,
  length-append,
}
use han_os.Mm.Pages.{page_free}
use han_os.Vmm.{
  Vm, is_present, make_table_entry, page_of, at, put_word, descend_tables, index, upper_indices,
  map_page,
}
use han_os.Vmm.Room.{Room}
use han_os.Vmm.Walks.{
  all_low, lookup-suc, base, reach, lookup, Owns, is_present-odd, make_table_entry_lem, slot_ne,
}
use han_os.Vmm.Fresh.{indices}
use han_os.Vmm.Descent.{descend_tables-Descended}

-- A table of the last level is none of the upper ones.
level_ne :
    (k n : ℕ) (path q : List ℕ) (owner : ℕ → Option (List ℕ))
    → owner k ≡ some path
    → owner n ≡ some q
    → length path < length q
    → k ≢ n
level_ne k n path q owner own own' shorter e =
    let same : path ≡ q = ap indices (sym own ∙ (ap owner e ∙ own')) in
    let lengths = ap length same in omega (arith, shorter, lengths)

-- A word that is written to a table of the last level changes no walk through the upper ones.
reach-put_word :
    (is : List ℕ) (s : Vm) (root k n j w : ℕ) (path q : List ℕ) (owner : ℕ → Option (List ℕ))
    → Owns s root owner
    → owner k ≡ some path
    → owner n ≡ some q
    → length q ≡ 3
    → length path + length is ≡ 3
    → all_low is ≡ true
    → j < 512
    → reach (put_word s.words (at (base n) j) w) k is ≡ reach s.words k is
unfolding reach
reach-put_word [] s root k n j w path q owner v own last three depth low hj = refl
reach-put_word (i ∷ is) s root k n j w path q owner v own last three depth low hj =
    let hi : i < 512 = ground (arith, low) in
    let away =
      slot_ne k i n j hi hj
        (inl (level_ne k n path q owner own last (omega (arith, depth, three)))) in
    rw away (elim (Bool-cases (is_present (s.words (at (base k) i)))) [
      | inl here ↦
          let below = v.points k i path own (omega (arith, depth)) hi here in
          let longer : length (path ++ (i ∷ [])) ≡ length path + 1 = length-append path (i ∷ []) in
          rw here (
            reach-put_word is s root _ n j w (path ++ (i ∷ [])) q owner v below last three
              (omega (arith, depth, longer)) (ground (arith, low)) hj)
      | inr missing ↦ rw missing refl
    ])

-- The same for the tables that the entries point to.
put_word-Owns :
    (s : Vm) (root n j w : ℕ) (q : List ℕ) (owner : ℕ → Option (List ℕ))
    → Owns s root owner
    → owner n ≡ some q
    → length q ≡ 3
    → j < 512
    → Owns (record s { words = put_word s.words (at (base n) j) w }) root owner
put_word-Owns s root n j w q owner v last three hj = record {
  root_at = v.root_at;
  root_owner = v.root_owner;
  low = v.low;
  points = λ k i path own short hi p.
      (let away =
          slot_ne k i n j hi hj
            (inl (level_ne k n path q owner own last (omega (arith, short, three)))) in
        let p' : is_present (s.words (at (base k) i)) ≡ true = rw away at p in
        rw away (v.points k i path own short hi p'));
  used = v.used;
  bytes = v.bytes;
  limit = v.limit;
}

-- It changes nothing that is found elsewhere.
lookup-put_word :
    (xs : List ℕ) (s : Vm) (root k n j i w : ℕ) (path q : List ℕ) (owner : ℕ → Option (List ℕ))
    → Owns s root owner
    → owner k ≡ some path
    → owner n ≡ some q
    → length q ≡ 3
    → length path + length xs ≡ 3
    → all_low xs ≡ true
    → j < 512
    → i < 512
    → (path ++ xs ≢ q) ⊎ (i ≢ j)
    → lookup (put_word s.words (at (base n) j) w) k xs i ≡ lookup s.words k xs i
unfolding lookup reach
lookup-put_word [] s root k n j i w path q owner v own last three depth low hj hi ne =
    let other : (k ≢ n) ⊎ (i ≢ j) = (elim ne [
      | inl paths ↦ inl (λ e. paths (append-nil path ∙ ap indices (sym own ∙ (ap owner e ∙ last))))
      | inr entries ↦ inr entries
    ]) in
    rw (slot_ne k i n j hi hj other) refl
lookup-put_word (x ∷ xs) s root k n j i w path q owner v own last three depth low hj hi ne =
    let hx : x < 512 = ground (arith, low) in
    let away =
      slot_ne k x n j hx hj
        (inl (level_ne k n path q owner own last (omega (arith, depth, three)))) in
    let longer : length (path ++ (x ∷ [])) ≡ length path + 1 = length-append path (x ∷ []) in
    let ne' : ((path ++ (x ∷ [])) ++ xs ≢ q) ⊎ (i ≢ j) = rw (append_assoc path (x ∷ []) xs) ne in
    rw (lookup-suc (put_word s.words (at (base n) j) w) k x i xs, lookup-suc s.words k x i xs, away)
      (elim (Bool-cases (is_present (s.words (at (base k) x)))) [
        | inl here ↦ rw here (
            lookup-put_word xs s root _ n j i w (path ++ (x ∷ [])) q owner v
              (v.points k x path own (omega (arith, depth)) hx here) last three
              (omega (arith, depth, longer)) (ground (arith, low)) hj hi ne')
        | inr missing ↦ rw missing refl
      ])

-- Addresses of different pages have different indices.
indices_ne :
    (a b : ℕ)
    → a / 4096 % 2 ^ 36 ≢ b / 4096 % 2 ^ 36
    → (upper_indices a ≢ upper_indices b) ⊎ (index 12 a ≢ index 12 b)
indices_ne a b ne = elim (Bool-cases (index 12 a == index 12 b)) [
  | inr last ↦ inr (ground arith)
  | inl same ↦ inl (λ e.
      (let last : index 12 a ≡ index 12 b = ground arith in
        let first : index 39 a ≡ index 39 b = ap (λ xs. get_or xs 0 0) e in
        let second : index 30 a ≡ index 30 b = ap (λ xs. get_or xs 1 0) e in
        let third : index 21 a ≡ index 21 b = ap (λ xs. get_or xs 2 0) e in
        omega (arith, ne, last, first, second, third)))
]

map_page-next :
    (vaddr paddr flags table : ℕ) (s s' : Vm)
    → descend_tables (upper_indices vaddr) s.pml4 s ≡ some (table, s')
    → map_page vaddr paddr flags s
      ≡ some (record s' {
        words =
            put_word s'.words (at table (index 12 vaddr)) (make_table_entry (page_of paddr) flags);
      })
unfolding map_page
map_page-next vaddr paddr flags table s s' e = rw (e, map_page)

lookup-some :
    (words : ℕ → ℕ) (root n j : ℕ) (is : List ℕ)
    → reach words root is ≡ some n
    → is_present (words (at (base n) j)) ≡ true
    → lookup words root is j ≡ some (words (at (base n) j))
unfolding lookup
lookup-some words root n j is e here = rw (e, lookup, here)

-- A page is mapped when three pages of memory are free for tables: the processor then finds the
-- physical page with its flags at the address, it finds at the address of any other page what it found
-- before, and the tables are again those of an address space. The flags are those of an entry that is
-- present.
pub map_page-lookup :
    (vaddr paddr flags other root : ℕ) (s : Vm) (owner : ℕ → Option (List ℕ))
    → Owns s root owner
    → Room 3 s.mm.phys_limit (page_free s.mm.bitmap)
    → flags < 4096
    → flags % 2 ≡ 1
    → other / 4096 % 2 ^ 36 ≢ vaddr / 4096 % 2 ^ 36
    → (s' : Vm) × (owner' : ℕ → Option (List ℕ)) × (map_page vaddr paddr flags s ≡ some s')
      × (lookup s'.words root (upper_indices vaddr) (index 12 vaddr)
          ≡ some (paddr / 4096 * 4096 + flags))
      × (lookup s'.words root (upper_indices other) (index 12 other)
          ≡ lookup s.words root (upper_indices other) (index 12 other))
      × Owns s' root owner'
map_page-lookup vaddr paddr flags other root s owner v room hf odd ne =
    let js = upper_indices other in
    let i : ℕ = index 12 other in
    let hi : i < 512 = omega arith in
    let low_js : all_low js ≡ true = ground arith in
    let is = upper_indices vaddr in
    let j : ℕ = index 12 vaddr in
    let hj : j < 512 = omega arith in
    let low : all_low is ≡ true = ground arith in
    let (n, s3, owner', walks, d) =
      descend_tables-Descended is s root root [] owner v v.root_owner (omega arith) low room in
    let w : ℕ = make_table_entry (page_of paddr) flags in
    let w_is : w ≡ paddr / 4096 * 4096 + flags =
      make_table_entry_lem (page_of paddr) flags hf ∙ omega arith in
    let here : (at (base n) j == at (base n) j) ≡ true = ground arith in
    let there : put_word s3.words (at (base n) j) w (at (base n) j) ≡ w = rw here refl in
    let present : is_present w ≡ true = is_present-odd w ∙ rw w_is (ground (arith, odd)) in
    let reaches =
      reach-put_word is s3 root root n j w [] is owner' d.owns d.owns.root_owner d.new_owner refl
        refl low hj
      ∙ d.reaches in
    (
      record s3 { words = put_word s3.words (at (base n) j) w },
      owner',
      map_page-next vaddr paddr flags (base n) s s3
          (ap (λ t. descend_tables is t s) v.root_at ∙ walks),
      lookup-some _ root n j is reaches (rw there present) ∙ ap (λ e. some e) (there ∙ w_is),
      lookup-put_word js s3 root root n j i w [] is owner' d.owns d.owns.root_owner d.new_owner refl
            refl low_js hj hi (indices_ne other vaddr ne)
          ∙ d.same_lookup js i refl low_js hi,
      put_word-Owns s3 root n j w is owner' d.owns d.new_owner refl hj,
    )
