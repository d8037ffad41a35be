-- ===== src/Text/Block.antt =====
-- `memset`, `memcpy` and `memcmp` on blocks of memory.
use han_os.Base.{
  ℕ, zero, suc, ◌+◌, ◌-◌, ◌≤◌, ◌<◌, ◌≡◌, ◌⊎◌, ◌↔◌, refl, ◌∙◌, true, ◌==◌, ltb, leb, if◌then◌else◌,
  arith, Bool-cases, inl, inr,
}
use han_os.Text.{poke, memset_loop, memset, memcpy_loop, memcpy, memcmp_loop, memcmp}

memset_loop_lem :
    (n addr val i q : ℕ) (m : ℕ → ℕ)
    → memset_loop n addr val i m q
      ≡ (if leb (addr + i) q then (if ltb q (addr + i + n) then val else m q) else m q)
unfolding memset_loop
memset_loop_lem zero addr val i q m = ground arith
memset_loop_lem (suc n) addr val i q m =
    memset_loop_lem n addr val (i + 1) q (poke m (addr + i) val) ∙ ground arith

-- `memset` writes the value to the bytes of the block, and to no other.
pub memset_lem :
    (addr val len q : ℕ) (m : ℕ → ℕ)
    → memset addr val len m q
      ≡ (if leb addr q then (if ltb q (addr + len) then val else m q) else m q)
unfolding memset
memset_lem addr val len q m = memset_loop_lem len addr val 0 q m ∙ ground arith

memcpy_loop_lem :
    (n dst src i q : ℕ) (m : ℕ → ℕ)
    → (dst ≤ src) ⊎ (src + (i + n) ≤ dst)
    → memcpy_loop n dst src i m q ≡ (
        if leb (dst + i) q then (if ltb q (dst + i + n) then m (src + (q - dst)) else m q) else m q)
unfolding memcpy_loop
memcpy_loop_lem zero dst src i q m apart = ground arith
memcpy_loop_lem (suc n) dst src i q m apart =
    memcpy_loop_lem n dst src (i + 1) q (poke m (dst + i) (m (src + i))) (ground arith)
    ∙ ground arith

-- `memcpy` copies upwards: when the destination is not above the source, or above its end, each byte
-- of the block has the value that the byte of the source had before, and no other byte has changed.
pub memcpy_lem :
    (dst src len q : ℕ) (m : ℕ → ℕ)
    → (dst ≤ src) ⊎ (src + len ≤ dst)
    → memcpy dst src len m q
      ≡ (if leb dst q then (if ltb q (dst + len) then m (src + (q - dst)) else m q) else m q)
unfolding memcpy
memcpy_lem dst src len q m apart = memcpy_loop_lem len dst src 0 q m (ground arith) ∙ ground arith

from_first :
    (m : ℕ → ℕ) (s1 s2 i n k : ℕ)
    → m (s1 + i) ≡ m (s2 + i)
    → ((j : ℕ) → i + 1 ≤ j → j < i + 1 + n → m (s1 + j) ≡ m (s2 + j))
    → i ≤ k
    → k < i + suc n
    → m (s1 + k) ≡ m (s2 + k)
from_first m s1 s2 i n k first later h1 h2 = elim (Bool-cases (i == k)) [
  | inl here ↦ (let e : i ≡ k = ground arith in rw e at first)
  | inr there ↦ later k (ground arith) (omega arith)
]

memcmp_loop_lem :
    (n : ℕ) (m : ℕ → ℕ) (s1 s2 i : ℕ)
    → (memcmp_loop n m s1 s2 i ≡ true) ↔ ((k : ℕ) → i ≤ k → k < i + n → m (s1 + k) ≡ m (s2 + k))
unfolding memcmp_loop
memcmp_loop_lem zero m s1 s2 i = ((λ _ k h1 h2. absurd (omega arith)), λ _. refl)
memcmp_loop_lem (suc n) m s1 s2 i =
    let rest = memcmp_loop_lem n m s1 s2 (i + 1) in
    elim (Bool-cases (m (s1 + i) == m (s2 + i))) [
      | inl equal ↦ rw equal (
        (λ e k h1 h2. from_first m s1 s2 i n k (ground arith) (rest.0 e) h1 h2),
        λ all. rest.1 (λ k h1 h2. all k (omega arith) (omega arith)),
      )
      | inr differ ↦ rw differ (
        (λ e. absurd (ground arith)),
        λ all. (let same_byte = all i (omega arith) (omega arith) in absurd (ground arith)),
      )
    ]

-- `memcmp` is true exactly when the blocks have the same bytes.
pub memcmp_lem :
    (m : ℕ → ℕ) (s1 s2 len : ℕ)
    → (memcmp m s1 s2 len ≡ true) ↔ ((k : ℕ) → k < len → m (s1 + k) ≡ m (s2 + k))
unfolding memcmp
memcmp_lem m s1 s2 len =
    let same = memcmp_loop_lem len m s1 s2 0 in
    (
      (λ e k h. same.0 e k (omega arith) (omega arith)),
      λ all. same.1 (λ k h1 h2. all k (omega arith)),
    )
