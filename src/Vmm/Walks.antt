-- ===== src/Vmm/Walks.antt =====
-- What the processor finds in the tables, and how entries and their addresses are told apart.
use han_os.Base.{
  ap, ◌∙◌, Bool, ◌&&◌, ltb, ℕ, ◌+◌, ◌*◌, ◌/◌, ◌%◌, ◌^◌, ◌<◌, ◌≡◌, ◌≢◌, ◌⊎◌, inl, inr, refl, true,
  false, not, ◌==◌, if◌then◌else◌, arith, Option, none, some, List, [], ◌∷◌, ◌++◌, length,
  bit_and-low, bit_or-low,
}
use han_os.Mm.Pages.{AreBytes, page_free}
use han_os.Vmm.{Vm, is_present, make_table_entry, page_of, at}

-- The address of a physical page in the direct map.
abbrev pub base : ℕ → ℕ
base k = 0xffff800000000000 + k * 4096

-- The page of the table that the indices lead to from the table at page `k`.
unfoldable pub reach : (ℕ → ℕ) → ℕ → List ℕ → Option ℕ
reach words k [] = some k
reach words k (i ∷ is) =
    let e : ℕ = words (at (base k) i) in
    let rest = reach words (e / 4096) is in if is_present e then rest else none

-- The entry of a page: through the upper tables along `is`, and entry `j` of the last.
abbrev pub leaf : (ℕ → ℕ) → ℕ → Option ℕ → Option ℕ
leaf words j none = none
leaf words j (some k) =
    if is_present (words (at (base k) j)) then some (words (at (base k) j)) else none

unfoldable pub lookup : (ℕ → ℕ) → ℕ → List ℕ → ℕ → Option ℕ
lookup words root is j = leaf words j (reach words root is)

-- The tables of an address space: `owner` knows the indices that lead to each of them. An entry of an
-- upper table that is present points to the table of its indices, and no table is free memory.
pub record Owns (s : Vm) (root : ℕ) (owner : ℕ → Option (List ℕ)) : Type 0 where
  pub root_at : s.pml4 ≡ base root
  pub root_owner : owner root ≡ some []
  pub low : (k : ℕ) (path : List ℕ) → owner k ≡ some path → k < 2 ^ 35
  pub points :
      (k i : ℕ) (path : List ℕ)
      → owner k ≡ some path
      → length path < 3
      → i < 512
      → is_present (s.words (at (base k) i)) ≡ true
      → owner (s.words (at (base k) i) / 4096) ≡ some (path ++ (i ∷ []))
  pub used : (k : ℕ) (path : List ℕ) → owner k ≡ some path → page_free s.mm.bitmap k ≡ false
  pub bytes : AreBytes s.mm.bitmap
  pub limit : s.mm.phys_limit + 3 * 4096 < 2 ^ 46

-- An entry is present when it is odd.
pub is_present-odd : (e : ℕ) → is_present e ≡ not (e % 2 == 0)
unfolding is_present
is_present-odd e = rw (bit_and-low e 1) refl

pub make_table_entry_lem :
    (address flags : ℕ)
    → flags < 4096
    → make_table_entry address flags ≡ address / 4096 * 4096 + flags
unfolding make_table_entry
make_table_entry_lem address flags h =
    bit_or-low (page_of address) flags 12 (omega arith) (omega (arith, h))

-- The slots of two entries are different.
pub slot_ne :
    (k i m j : ℕ) → i < 512 → j < 512 → (k ≢ m) ⊎ (i ≢ j) → (at (base k) i == at (base m) j) ≡ false
slot_ne k i m j hi hj ne =
    let apart : at (base k) i ≢ at (base m) j = (elim ne [
      | inl pages ↦ omega (arith, pages)
      | inr entries ↦ omega (arith, entries)
    ]) in
    ground (arith, apart)

pub reach-suc :
    (words : ℕ → ℕ) (k i n : ℕ) (is : List ℕ)
    → is_present (words (at (base k) i)) ≡ true
    → words (at (base k) i) / 4096 ≡ n
    → reach words k (i ∷ is) ≡ reach words n is
unfolding reach
reach-suc words k i n is here e = rw (here, e) refl

-- Every index is one of the 512 entries.
abbrev pub all_low : List ℕ → Bool
all_low [] = true
all_low (i ∷ is) = ltb i 512 && all_low is

leaf_if :
    (words : ℕ → ℕ) (j : ℕ) (b : Bool) (o : Option ℕ)
    → leaf words j (if b then o else none) ≡ (if b then leaf words j o else none)
leaf_if words j true o = refl
leaf_if words j false o = refl

reach-step :
    (words : ℕ → ℕ) (k i : ℕ) (is : List ℕ)
    → reach words k (i ∷ is) ≡ (
        if is_present (words (at (base k) i))
        then reach words (words (at (base k) i) / 4096) is
        else none)
unfolding reach
reach-step words k i is = refl

pub lookup-suc :
    (words : ℕ → ℕ) (k i j : ℕ) (is : List ℕ)
    → lookup words k (i ∷ is) j ≡ (
        if is_present (words (at (base k) i))
        then lookup words (words (at (base k) i) / 4096) is j
        else none)
unfolding lookup
lookup-suc words k i j is =
    ap (leaf words j) (reach-step words k i is)
    ∙ leaf_if words j (is_present (words (at (base k) i)))
        (reach words (words (at (base k) i) / 4096) is)
