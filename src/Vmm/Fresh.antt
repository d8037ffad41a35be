-- ===== src/Vmm/Fresh.antt =====
-- The tables after a new one is made: what it owns, and what is found through it.
use han_os.Base.{
  length-append, ℕ, ◌+◌, ◌*◌, ◌/◌, ◌<◌, ◌≡◌, ◌≢◌, ◌⊎◌, inl, inr, refl, sym, ◌∙◌, ap, true, false,
  ◌&&◌, ltb, leb, ◌==◌, if◌then◌else◌, arith, Bool-cases, Option, none, some, List, [], ◌∷◌, ◌++◌,
  length,
}
use han_os.Mm.{MemInfo, phys_to_virt, virt_to_phys}
use han_os.Mm.Pages.{page_free}
use han_os.Vmm.{Vm, is_present, make_table_entry, at, put_word, clear_page, new_table}
use han_os.Vmm.Take.{Took}
use han_os.Vmm.Walks.{
  all_low, lookup, lookup-suc, reach, base, Owns, is_present-odd, make_table_entry_lem, slot_ne,
}

abbrev pub grown : (ℕ → Option (List ℕ)) → ℕ → List ℕ → ℕ → Option (List ℕ)
grown owner n path m = if m == n then some path else owner m

-- The words after a table is made at page `n`.
abbrev pub new_words : (ℕ → ℕ) → ℕ → ℕ → ℕ → ℕ → ℕ
new_words words k i n = put_word (clear_page words (base n)) (at (base k) i) (n * 4096 + 7)

pub word_new : (words : ℕ → ℕ) (k i n : ℕ) → new_words words k i n (at (base k) i) ≡ n * 4096 + 7
word_new words k i n =
    (let here : (at (base k) i == at (base k) i) ≡ true = ground arith in rw here refl)

-- An entry of another table, or another entry of this one.
pub word_old :
    (words : ℕ → ℕ) (k i n m j : ℕ)
    → i < 512
    → j < 512
    → m ≢ n
    → (m ≢ k) ⊎ (j ≢ i)
    → new_words words k i n (at (base m) j) ≡ words (at (base m) j)
word_old words k i n m j hi hj other ne =
    let away = slot_ne m j k i hj hi ne in
    let outside : (leb (base n) (at (base m) j) && ltb (at (base m) j) (base n + 4096)) ≡ false =
      ground (arith, other) in
    rw (away, outside) refl

-- An entry of the new table.
word_zero :
    (words : ℕ → ℕ) (k i n j : ℕ)
    → i < 512
    → j < 512
    → k ≢ n
    → new_words words k i n (at (base n) j) ≡ 0
word_zero words k i n j hi hj other =
    let away : (at (base n) j == at (base k) i) ≡ false =
      slot_ne n j k i hj hi (inl (λ e. other (sym e))) in
    let inside : (leb (base n) (at (base n) j) && ltb (at (base n) j) (base n + 4096)) ≡ true =
      ground arith in
    rw (away, inside) refl

-- The state after a table is made at page `n`.
abbrev pub with_table : Vm → MemInfo → ℕ → ℕ → ℕ → Vm
with_table s mm' k i n = record s { words = new_words s.words k i n; mm = mm' }

-- The new entry is no free page, and the owner of an old table is not that of the new one.
pub old_ne :
    (s : Vm) (mm' : MemInfo) (root n m : ℕ) (q : List ℕ) (owner : ℕ → Option (List ℕ))
    → Owns s root owner
    → Took s.mm mm' n
    → owner m ≡ some q
    → m ≢ n
old_ne s mm' root n m q owner v t own e =
    let free : page_free s.mm.bitmap m ≡ true = rw e t.was_free in
    ground (arith, v.used m q own, free)

pub grown_old :
    (s : Vm) (mm' : MemInfo) (root n m : ℕ) (q path : List ℕ) (owner : ℕ → Option (List ℕ))
    → Owns s root owner
    → Took s.mm mm' n
    → owner m ≡ some q
    → grown owner n path m ≡ some q
grown_old s mm' root n m q path owner v t own =
    let away : (m == n) ≡ false = ground (arith, old_ne s mm' root n m q owner v t own) in
    rw away own

pub grown_new :
    (n : ℕ) (path : List ℕ) (owner : ℕ → Option (List ℕ)) → grown owner n path n ≡ some path
grown_new n path owner = (let here : (n == n) ≡ true = ground arith in rw here refl)

absent_zero : is_present 0 ≡ false
absent_zero = is_present-odd 0

abbrev pub indices : Option (List ℕ) → List ℕ
indices none = []
indices (some path) = path

-- Entry `i` of the table `k`, which is new, and the other entries of the old tables.
points_old :
    (s : Vm) (mm' : MemInfo) (root k i n m j : ℕ) (path q : List ℕ) (owner : ℕ → Option (List ℕ))
    → Owns s root owner
    → Took s.mm mm' n
    → owner k ≡ some path
    → owner m ≡ some q
    → length q < 3
    → i < 512
    → j < 512
    → is_present (new_words s.words k i n (at (base m) j)) ≡ true
    → grown owner n (path ++ (i ∷ [])) (new_words s.words k i n (at (base m) j) / 4096)
      ≡ some (q ++ (j ∷ []))
points_old s mm' root k i n m j path q owner v t own owned short hi hj p =
    elim (Bool-cases (m == k && j == i)) [
      | inl slot ↦
          let is_k : m ≡ k = ground arith in
          let is_i : j ≡ i = ground arith in
          let same : q ≡ path = ap indices (sym owned ∙ (ap owner is_k ∙ own)) in
          let page : (n * 4096 + 7) / 4096 ≡ n = omega arith in
          rw (is_k, is_i, word_new s.words k i n, page, same) (grown_new n (path ++ (i ∷ [])) owner)
      | inr other ↦
          let ne : (m ≢ k) ⊎ (j ≢ i) = ground arith in
          let old = word_old s.words k i n m j hi hj (old_ne s mm' root n m q owner v t owned) ne in
          let p' : is_present (s.words (at (base m) j)) ≡ true = rw old at p in
          rw old (
            grown_old s mm' root n _ (q ++ (j ∷ [])) (path ++ (i ∷ [])) owner v t
              (v.points m j q owned short hj p'))
    ]

pub grown-Owns :
    (s : Vm) (mm' : MemInfo) (root k i n : ℕ) (path : List ℕ) (owner : ℕ → Option (List ℕ))
    → Owns s root owner
    → Took s.mm mm' n
    → owner k ≡ some path
    → i < 512
    → Owns (with_table s mm' k i n) root (grown owner n (path ++ (i ∷ [])))
grown-Owns s mm' root k i n path owner v t own hi = record {
  root_at = v.root_at;
  root_owner = grown_old s mm' root n root [] _ owner v t v.root_owner;
  low = λ m q e. (elim (Bool-cases (m == n)) [
    | inl here ↦ (let is_n : m ≡ n = ground arith in omega (arith, is_n, t.low))
    | inr away ↦ v.low m q (rw away at e)
  ]);
  points = λ m j q e short hj p. (elim (Bool-cases (m == n)) [
    | inl here ↦
        let is_n : m ≡ n = ground arith in
        let zero_there =
          word_zero s.words k i n j hi hj (old_ne s mm' root n k path owner v t own) in
        let p0 : is_present (new_words s.words k i n (at (base n) j)) ≡ true = rw is_n at p in
        absurd (ground (arith, sym absent_zero ∙ rw zero_there at p0))
    | inr away ↦
        let owned : owner m ≡ some q = rw away at e in
        points_old s mm' root k i n m j path q owner v t own owned short hi hj p
  ]);
  used = λ m q e. (elim (Bool-cases (m == n)) [
    | inl here ↦ (let is_n : m ≡ n = ground arith in rw is_n t.is_used)
    | inr away ↦ t.others m (v.used m q (rw away at e))
  ]);
  bytes = t.bytes;
  limit = omega (arith, t.same_limit, v.limit);
}

-- The code's new table is that of the model's words.
pub new_table-with_table :
    (s : Vm) (mm' : MemInfo) (root k i a : ℕ)
    → a ≡ a / 4096 * 4096
    → Took s.mm mm' (a / 4096)
    → new_table (at (base k) i) a mm' s ≡ (base (a / 4096), with_table s mm' k i (a / 4096))
unfolding new_table
new_table-with_table s mm' root k i a aligned t =
    let table : phys_to_virt a ≡ base (a / 4096) = omega (arith, t.address) in
    let entry : make_table_entry (virt_to_phys (base (a / 4096))) 7 ≡ a / 4096 * 4096 + 7 =
      make_table_entry_lem _ 7 (omega arith) ∙ omega (arith, t.address) in
    rw (table, entry) refl

-- Nothing is found through the new table.
lookup-new :
    (words : ℕ → ℕ) (k i n j : ℕ) (xs : List ℕ)
    → i < 512
    → j < 512
    → k ≢ n
    → all_low xs ≡ true
    → lookup (new_words words k i n) n xs j ≡ none
unfolding lookup reach
lookup-new words k i n j [] hi hj ne low = rw (word_zero words k i n j hi hj ne, absent_zero) refl
lookup-new words k i n j (x ∷ xs) hi hj ne low =
    rw
      (
        lookup-suc (new_words words k i n) n x j xs,
        word_zero words k i n x hi (ground (arith, low)) ne,
        absent_zero,
      )
      refl

-- What is found from an old table is as before.
pub lookup-with_table :
    (xs : List ℕ) (s : Vm) (mm' : MemInfo) (root k i n m j : ℕ) (path q : List ℕ)
    (owner : ℕ → Option (List ℕ))
    → Owns s root owner
    → Took s.mm mm' n
    → owner k ≡ some path
    → length path < 3
    → i < 512
    → is_present (s.words (at (base k) i)) ≡ false
    → owner m ≡ some q
    → length q + length xs ≡ 3
    → all_low xs ≡ true
    → j < 512
    → lookup (new_words s.words k i n) m xs j ≡ lookup s.words m xs j
unfolding lookup reach
lookup-with_table [] s mm' root k i n m j path q owner v t own short hi missing own_m depth low hj =
    let other : m ≢ k = (λ e.
      (let same : q ≡ path = ap indices (sym own_m ∙ (ap owner e ∙ own)) in
        let lengths = ap length same in omega (arith, short, depth, lengths))) in
    rw (word_old s.words k i n m j hi hj (old_ne s mm' root n m q owner v t own_m) (inl other)) refl
lookup-with_table (x ∷ xs) s mm' root k i n m j path q owner v t own short hi missing own_m depth
      low hj =
    let hx : x < 512 = ground (arith, low) in
    rw (lookup-suc (new_words s.words k i n) m x j xs, lookup-suc s.words m x j xs)
      (elim (Bool-cases (m == k && x == i)) [
        | inl slot ↦
            let is_k : m ≡ k = ground arith in
            let is_i : x ≡ i = ground arith in
            let page : (n * 4096 + 7) / 4096 ≡ n = omega arith in
            let here : is_present (n * 4096 + 7) ≡ true =
              is_present-odd (n * 4096 + 7) ∙ ground arith in
            rw (is_k, is_i, word_new s.words k i n, here, page, missing)
              (lookup-new s.words k i n j xs hi hj (old_ne s mm' root n k path owner v t own)
                (ground (arith, low)))
        | inr other ↦
            rw
              (word_old s.words k i n m x hi hx (old_ne s mm' root n m q owner v t own_m)
                (ground arith))
              (elim (Bool-cases (is_present (s.words (at (base m) x)))) [
                | inl here ↦
                    let below = v.points m x q own_m (omega (arith, depth)) hx here in
                    let longer : length (q ++ (x ∷ [])) ≡ length q + 1 = length-append q (x ∷ []) in
                    rw here (
                      lookup-with_table xs s mm' root k i n _ j path (q ++ (x ∷ [])) owner v t own
                        short hi missing below (omega (arith, depth, longer)) (ground (arith, low))
                        hj)
                | inr gone ↦ rw gone refl
              ])
      ])
