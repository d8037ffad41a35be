-- ===== src/Vmm/Tables.antt =====
-- One step down the tables, with a new table where there was none.
use han_os.Base.{
  ℕ, ◌+◌, ◌*◌, ◌/◌, ◌^◌, ◌<◌, ◌≡◌, inl, inr, refl, sym, ◌∙◌, true, false, ◌&&◌, ◌==◌, arith,
  Bool-cases, Option, some, List, [], ◌∷◌, ◌++◌, length,
}
use han_os.Mm.{MemInfo, phys_to_virt}
use han_os.Vmm.{Vm, is_present, page_of, at}
use han_os.Vmm.Take.{Took}
use han_os.Vmm.Walks.{all_low, lookup, base, Owns, is_present-odd}
use han_os.Vmm.Fresh.{
  with_table, grown, word_new, word_old, old_ne, grown_old, grown_new, grown-Owns,
  lookup-with_table,
}

-- After a step from the table at page `k` through entry `i` to the table at page `n`.
pub record Stepped (s s' : Vm) (root : ℕ) (owner owner' : ℕ → Option (List ℕ)) (k i n : ℕ)
    (path : List ℕ) : Type 0 where
  pub owns : Owns s' root owner'
  pub new_owner : owner' n ≡ some (path ++ (i ∷ []))
  pub kept : (m : ℕ) (q : List ℕ) → owner m ≡ some q → owner' m ≡ some q
  pub goes : is_present (s'.words (at (base k) i)) ≡ true
  pub leads : s'.words (at (base k) i) / 4096 ≡ n
  pub same_words :
      (m j : ℕ) (q : List ℕ)
      → owner m ≡ some q
      → j < 512
      → is_present (s.words (at (base m) j)) ≡ true
      → s'.words (at (base m) j) ≡ s.words (at (base m) j)
  pub same_lookup :
      (xs : List ℕ) (j : ℕ)
      → length xs ≡ 3
      → all_low xs ≡ true
      → j < 512
      → lookup s'.words root xs j ≡ lookup s.words root xs j

pub present_at : (e : ℕ) → e / 4096 < 2 ^ 35 → phys_to_virt (page_of e) ≡ base (e / 4096)
present_at e h = omega (arith, h)

-- The entry is present.
pub present-Stepped :
    (s : Vm) (root k i : ℕ) (path : List ℕ) (owner : ℕ → Option (List ℕ))
    → Owns s root owner
    → owner k ≡ some path
    → length path < 3
    → i < 512
    → is_present (s.words (at (base k) i)) ≡ true
    → Stepped s s root owner owner k i (s.words (at (base k) i) / 4096) path
present-Stepped s root k i path owner v own short hi here = record {
  owns = v;
  new_owner = v.points k i path own short hi here;
  kept = λ m q e. e;
  goes = here;
  leads = refl;
  same_words = λ m j q e hj p. refl;
  same_lookup = λ xs j three low hj. refl;
}

pub absent-Stepped :
    (s : Vm) (mm' : MemInfo) (root k i n : ℕ) (path : List ℕ) (owner : ℕ → Option (List ℕ))
    → Owns s root owner
    → Took s.mm mm' n
    → owner k ≡ some path
    → length path < 3
    → i < 512
    → is_present (s.words (at (base k) i)) ≡ false
    → Stepped s (with_table s mm' k i n) root owner (grown owner n (path ++ (i ∷ []))) k i n path
absent-Stepped s mm' root k i n path owner v t own short hi missing =
    let there = word_new s.words k i n in
    record {
      owns = grown-Owns s mm' root k i n path owner v t own hi;
      new_owner = grown_new n (path ++ (i ∷ [])) owner;
      kept = λ m q e. grown_old s mm' root n m q (path ++ (i ∷ [])) owner v t e;
      goes = rw there (is_present-odd (n * 4096 + 7) ∙ ground arith);
      leads = rw there (omega arith);
      same_words = λ m j q e hj p.
          word_old s.words k i n m j hi hj (old_ne s mm' root n m q owner v t e)
            (elim (Bool-cases (m == k && j == i)) [
              | inl slot ↦
                  let is_k : m ≡ k = ground arith in
                  let is_i : j ≡ i = ground arith in
                  absurd (ground (arith, sym missing ∙ rw (is_k, is_i) at p))
              | inr other ↦ ground arith
            ]);
      same_lookup = λ xs j three low hj.
          lookup-with_table xs s mm' root k i n root j path [] owner v t own short hi missing
            v.root_owner (omega (arith, three)) low hj;
    }
