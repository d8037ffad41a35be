-- ===== src/Mm/Bits.antt =====
-- What the two writes of the bitmap do to one byte.
use han_os.Base.{
  ℕ, ◌-◌, ◌<◌, ◌≡◌, refl, Bool, true, false, not, ◌||◌, ◌&&◌, arith, ltb, ltb→lt, ◌==◌, same,
  same_iff, all_below, all_below_sound, bit_and, bit_or, bit_set, ◌<<<◌,
}

-- Every byte, every bit written and every bit read, by evaluation.
abbrev or_law : ℕ → ℕ → ℕ → Bool
or_law k j b = same (bit_set (bit_or b (1 <<< k)) j) (k == j || bit_set b j)

abbrev and_law : ℕ → ℕ → ℕ → Bool
and_law k j b = same (bit_set (bit_and b (255 - (1 <<< k))) j) (not (k == j) && bit_set b j)

abbrev bytes_law : ℕ → ℕ → Bool
bytes_law k b = ltb (bit_or b (1 <<< k)) 256 && ltb (bit_and b (255 - (1 <<< k))) 256

table3 : (law : ℕ → ℕ → ℕ → Bool) → Bool
unfolding all_below
table3 law = all_below 8 (λ k. all_below 8 (λ j. all_below 256 (λ b. law k j b)))

table3_sound :
    (law : ℕ → ℕ → ℕ → Bool) (k j b : ℕ)
    → table3 law ≡ true
    → k < 8
    → j < 8
    → b < 256
    → law k j b ≡ true
unfolding table3
table3_sound law k j b h hk hj hb =
    all_below_sound 256 (law k j) b
      (all_below_sound 8 (λ j'. all_below 256 (law k j')) j
        (all_below_sound 8 (λ k'. all_below 8 (λ j'. all_below 256 (law k' j'))) k h hk) hj)
      hb

or_table : table3 or_law ≡ true
unfolding table3
or_table = refl

and_table : table3 and_law ≡ true
unfolding table3
and_table = refl

bytes_table : all_below 8 (λ k. all_below 256 (λ b. bytes_law k b)) ≡ true
unfolding all_below
bytes_table = refl

pub bit_set-bit_or :
    (k j b : ℕ) → k < 8 → j < 8 → b < 256 → bit_set (bit_or b (1 <<< k)) j ≡ (k == j || bit_set b j)
bit_set-bit_or k j b hk hj hb = (same_iff _ _).0 (table3_sound or_law k j b or_table hk hj hb)

pub bit_set-bit_and :
    (k j b : ℕ)
    → k < 8
    → j < 8
    → b < 256
    → bit_set (bit_and b (255 - (1 <<< k))) j ≡ (not (k == j) && bit_set b j)
bit_set-bit_and k j b hk hj hb = (same_iff _ _).0 (table3_sound and_law k j b and_table hk hj hb)

zero_table : all_below 8 (λ j. same (bit_set 0 j) false) ≡ true
unfolding all_below
zero_table = refl

bytes_sound : (k b : ℕ) → k < 8 → b < 256 → bytes_law k b ≡ true
bytes_sound k b hk hb =
    all_below_sound 256 (bytes_law k) b
      (all_below_sound 8 (λ k'. all_below 256 (bytes_law k')) k bytes_table hk) hb

&&-left : (a b : Bool) → (a && b) ≡ true → a ≡ true
&&-left a b h = ground arith

&&-right : (a b : Bool) → (a && b) ≡ true → b ≡ true
&&-right a b h = ground arith

pub bit_or-lt : (k b : ℕ) → k < 8 → b < 256 → bit_or b (1 <<< k) < 256
bit_or-lt k b hk hb = ltb→lt _ _ (&&-left _ _ (bytes_sound k b hk hb))

pub bit_and-lt : (k b : ℕ) → k < 8 → b < 256 → bit_and b (255 - (1 <<< k)) < 256
bit_and-lt k b hk hb = ltb→lt _ _ (&&-right _ _ (bytes_sound k b hk hb))

pub bit_set_zero : (k : ℕ) → k < 8 → bit_set 0 k ≡ false
bit_set_zero k h =
    (same_iff _ _).0 (all_below_sound 8 (λ j. same (bit_set 0 j) false) k zero_table h)
