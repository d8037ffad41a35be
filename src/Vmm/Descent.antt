-- ===== src/Vmm/Descent.antt =====
-- The walk of `map_page` down the tables.
use han_os.Base.{
  ℕ, suc, ◌+◌, ◌/◌, ◌≤◌, ◌<◌, ◌≡◌, inl, inr, refl, sym, ◌∙◌, ap, true, false, arith, Bool-cases,
  Option-cases, Option, some, List, [], ◌∷◌, ◌++◌, length, length-append, append-nil, append_assoc,
}
use han_os.Mm.{MemInfo, pmm_get, phys_to_virt}
use han_os.Mm.Pages.{page_free}
use han_os.Vmm.{Vm, is_present, page_of, at, new_table, next_table, descend_tables}
use han_os.Vmm.Take.{pmm_get-Took}
use han_os.Vmm.Room.{Room, Room-Took, Room-less, pmm_get-total}
use han_os.Vmm.Walks.{all_low, lookup, base, reach, reach-suc, Owns}
use han_os.Vmm.Fresh.{new_table-with_table, with_table, grown}
use han_os.Vmm.Tables.{Stepped, present_at, present-Stepped, absent-Stepped}

abbrev pub HasRoom : ℕ → Vm → Type 0
HasRoom c s = Room c s.mm.phys_limit (page_free s.mm.bitmap)

next_table-present :
    (s : Vm) (slot : ℕ)
    → is_present (s.words slot) ≡ true
    → next_table slot s ≡ some (phys_to_virt (page_of (s.words slot)), s)
unfolding next_table
next_table-present s slot e = rw e refl

next_table-absent :
    (s : Vm) (slot a : ℕ) (mm : MemInfo)
    → is_present (s.words slot) ≡ false
    → pmm_get 1 0 s.mm ≡ some (a, mm)
    → next_table slot s ≡ some (new_table slot a mm s)
unfolding next_table
next_table-absent s slot a mm e found = rw (e, next_table, found)

next_table-Stepped :
    (c : ℕ) (s : Vm) (root k i : ℕ) (path : List ℕ) (owner : ℕ → Option (List ℕ))
    → Owns s root owner
    → owner k ≡ some path
    → length path < 3
    → i < 512
    → HasRoom (suc c) s
    → (n : ℕ) × (s' : Vm) × (owner' : ℕ → Option (List ℕ)) × (next_table (at (base k) i) s
        ≡ some (base n, s'))
      × Stepped s s' root owner owner' k i n path
      × HasRoom c s'
next_table-Stepped c s root k i path owner v own short hi room =
    elim (Bool-cases (is_present (s.words (at (base k) i)))) [
      | inl here ↦
          let st = present-Stepped s root k i path owner v own short hi here in
          let low = v.low _ _ st.new_owner in
          (
            s.words (at (base k) i) / 4096,
            s,
            owner,
            next_table-present s (at (base k) i) here
                ∙ ap (λ t. some (t, s)) (present_at (s.words (at (base k) i)) low),
            st,
            Room-less c _ _ room,
          )
      | inr missing ↦ elim (Option-cases (pmm_get 1 0 s.mm)) [
        | inl panics ↦ absurd (pmm_get-total c s.mm v.limit room panics)
        | inr ((a, mm'), found) ↦
            let (aligned, t) = pmm_get-Took a s.mm mm' v.bytes v.limit found in
            let n : ℕ = a / 4096 in
            (
              n,
              with_table s mm' k i n,
              grown owner n (path ++ (i ∷ [])),
              next_table-absent s (at (base k) i) a mm' missing found
                  ∙ ap (λ (r : ℕ × Vm). some r) (new_table-with_table s mm' root k i a aligned t),
              absent-Stepped s mm' root k i n path owner v t own short hi missing,
              Room-Took c n s.mm mm' t room,
            )
      ]
    ]

-- After a walk from the table at page `k` along `is` to the table at page `n`.
pub record Descended (s s' : Vm) (root : ℕ) (owner owner' : ℕ → Option (List ℕ)) (k n : ℕ)
    (is path : List ℕ) : Type 0 where
  pub owns : Owns s' root owner'
  pub new_owner : owner' n ≡ some (path ++ is)
  pub kept : (m : ℕ) (q : List ℕ) → owner m ≡ some q → owner' m ≡ some q
  pub reaches : reach s'.words k is ≡ some n
  pub same_words :
      (m j : ℕ) (q : List ℕ)
      → owner m ≡ some q
      → j < 512
      → is_present (s.words (at (base m) j)) ≡ true
      → s'.words (at (base m) j) ≡ s.words (at (base m) j)
  pub same_lookup :
      (xs : List ℕ) (j : ℕ)
      → length xs ≡ 3
      → all_low xs ≡ true
      → j < 512
      → lookup s'.words root xs j ≡ lookup s.words root xs j

descend_tables-next :
    (i t t' : ℕ) (is : List ℕ) (s s' : Vm)
    → next_table (at t i) s ≡ some (t', s')
    → descend_tables (i ∷ is) t s ≡ descend_tables is t' s'
unfolding descend_tables
descend_tables-next i t t' is s s' e = rw (e, descend_tables)

pub descend_tables-Descended :
    (is : List ℕ) (s : Vm) (root k : ℕ) (path : List ℕ) (owner : ℕ → Option (List ℕ))
    → Owns s root owner
    → owner k ≡ some path
    → length path + length is ≤ 3
    → all_low is ≡ true
    → HasRoom (length is) s
    → (n : ℕ) × (s' : Vm) × (owner' : ℕ → Option (List ℕ)) × (descend_tables is (base k) s
        ≡ some (base n, s'))
      × Descended s s' root owner owner' k n is path
unfolding descend_tables reach
descend_tables-Descended [] s root k path owner v own depth low room = (
  k,
  s,
  owner,
  refl,
  record {
    owns = v;
    new_owner = own ∙ ap (λ (q : List ℕ). some q) (sym (append-nil path));
    kept = λ m q e. e;
    reaches = refl;
    same_words = λ m j q e hj p. refl;
    same_lookup = λ xs j three low_xs hj. refl;
  },
)
descend_tables-Descended (i ∷ is) s root k path owner v own depth low room =
    let hi : i < 512 = ground (arith, low) in
    let low' : all_low is ≡ true = ground (arith, low) in
    let (n1, s1, owner1, steps, st, room1) =
      next_table-Stepped (length is) s root k i path owner v own (omega (arith, depth)) hi room in
    let longer : length (path ++ (i ∷ [])) ≡ length path + 1 = length-append path (i ∷ []) in
    let (n, s', owner', walks, d) =
      descend_tables-Descended is s1 root n1 (path ++ (i ∷ [])) owner1 st.owns st.new_owner
        (omega (arith, depth, longer)) low' room1 in
    let entry = d.same_words k i path (st.kept k path own) hi st.goes in
    (
      n,
      s',
      owner',
      descend_tables-next i (base k) (base n1) is s s1 steps ∙ walks,
      record {
        owns = d.owns;
        new_owner = d.new_owner ∙ ap (λ (q : List ℕ). some q) (append_assoc path (i ∷ []) is);
        kept = λ m q e. d.kept m q (st.kept m q e);
        reaches = reach-suc s'.words k i n1 is (rw entry st.goes) (rw entry st.leads) ∙ d.reaches;
        same_words = λ m j q e hj p.
            (let first = st.same_words m j q e hj p in
              d.same_words m j q (st.kept m q e) hj (rw first p) ∙ first);
        same_lookup = λ xs j three low_xs hj.
            d.same_lookup xs j three low_xs hj ∙ st.same_lookup xs j three low_xs hj;
      },
    )
