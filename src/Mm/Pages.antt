-- ===== src/Mm/Pages.antt =====
-- The bitmap of mm.c read as a set of free pages: what each of its loops does to that set.
use han_os.Base.{
  ℕ, zero, suc, ◌+◌, ◌*◌, ◌/◌, ◌%◌, ◌^◌, ◌<◌, ◌≡◌, refl, ◌∙◌, ℕ_discrete, Bool, true, false, ◌&&◌,
  arith, ltb, leb, ◌==◌, if◌then◌else◌, u64, bit_or, bit_set, ◌<<<◌,
}
use han_os.Mm.{
  MemInfo, page_size, rounds, byte_of, bit_of, update, mark_one, markused_loop, isfree_loop,
  free_one, free_loop, bitmap_isfree,
}
use han_os.Mm.Bits.{bit_set-bit_or, bit_set-bit_and, bit_or-lt, bit_and-lt}

-- Every cell of the bitmap is a byte.
abbrev pub AreBytes : (ℕ → ℕ) → Type 0
AreBytes bm = (i : ℕ) → bm i < 256

-- Page number `p` is free.
unfoldable pub page_free : (ℕ → ℕ) → ℕ → Bool
page_free bm p = bit_set (bm (p / 8)) (p % 8)

-- Page `q` is one of the `n` pages from `p` on.
abbrev pub in_run : ℕ → ℕ → ℕ → Bool
in_run p n q = leb p q && ltb q (p + n)

-- The code's loop visits as many pages as it is asked for, if the end is an address.
pub rounds_exact : (addr n : ℕ) → addr + n * page_size < 2 ^ 64 → rounds addr n ≡ n
rounds_exact addr n h = ground arith

-- One bit written at page `i / 4096`, seen from page `q`.
update_page :
    (bm : ℕ → ℕ) (i q v : ℕ) (b : Bool)
    → bit_set v (q % 8) ≡ (if bit_of i == q % 8 then b else bit_set (bm (byte_of i)) (q % 8))
    → page_free (update bm (byte_of i) v) q ≡ (if i / 4096 == q then b else page_free bm q)
unfolding page_free
update_page bm i q v b h = ground arith

pub page_free-mark_one :
    (bm : ℕ → ℕ) (i q : ℕ)
    → AreBytes bm
    → page_free (mark_one bm i) q ≡ (if i / 4096 == q then false else page_free bm q)
page_free-mark_one bm i q bytes = update_page bm i q _ false (
    bit_set-bit_and (bit_of i) (q % 8) (bm (byte_of i)) (omega arith) (omega arith) (bytes _)
    ∙ ground arith)

pub mark_one-AreBytes : (bm : ℕ → ℕ) (i : ℕ) → AreBytes bm → AreBytes (mark_one bm i)
mark_one-AreBytes bm i bytes j =
    ground (arith, bit_and-lt (bit_of i) (bm (byte_of i)) (omega arith) (bytes _), bytes j)

-- The bitmap after one round of the loop of `pmm_free`.
abbrev free_bit : (ℕ → ℕ) → ℕ → ℕ → ℕ
free_bit bm i = update bm (byte_of i) (bit_or (bm (byte_of i)) (1 <<< bit_of i))

page_free-free_bit :
    (bm : ℕ → ℕ) (i q : ℕ)
    → AreBytes bm
    → page_free (free_bit bm i) q ≡ (if i / 4096 == q then true else page_free bm q)
page_free-free_bit bm i q bytes = update_page bm i q _ true (
    bit_set-bit_or (bit_of i) (q % 8) (bm (byte_of i)) (omega arith) (omega arith) (bytes _)
    ∙ ground arith)

free_bit-AreBytes : (bm : ℕ → ℕ) (i : ℕ) → AreBytes bm → AreBytes (free_bit bm i)
free_bit-AreBytes bm i bytes j =
    ground (arith, bit_or-lt (bit_of i) (bm (byte_of i)) (omega arith) (bytes _), bytes j)

-- A whole loop of `bitmap_markused`.
pub markused_loop-AreBytes : (n i : ℕ) (bm : ℕ → ℕ) → AreBytes bm → AreBytes (markused_loop n i bm)
unfolding markused_loop
markused_loop-AreBytes zero i bm bytes = bytes
markused_loop-AreBytes (suc n) i bm bytes =
    markused_loop-AreBytes n (i + 4096) (mark_one bm i) (mark_one-AreBytes bm i bytes)

pub page_free-markused_loop :
    (n i : ℕ) (bm : ℕ → ℕ) (q : ℕ)
    → AreBytes bm
    → page_free (markused_loop n i bm) q ≡ (if in_run (i / 4096) n q then false else page_free bm q)
unfolding markused_loop
page_free-markused_loop zero i bm q bytes = ground arith
page_free-markused_loop (suc n) i bm q bytes = ground (
  arith,
  page_free-markused_loop n (i + 4096) (mark_one bm i) q (mark_one-AreBytes bm i bytes),
  page_free-mark_one bm i q bytes,
)

-- A run of pages that are all free.
unfoldable pub all_free : (ℕ → ℕ) → ℕ → ℕ → Bool
all_free bm p zero = true
all_free bm p (suc n) = page_free bm p && all_free bm (p + 1) n

pub isfree_loop-eq-all_free : (n i : ℕ) (bm : ℕ → ℕ) → isfree_loop n i bm ≡ all_free bm (i / 4096) n
unfolding isfree_loop all_free page_free
isfree_loop-eq-all_free zero i bm = refl
isfree_loop-eq-all_free (suc n) i bm =
    let next : (i + 4096) / 4096 ≡ i / 4096 + 1 = omega arith in
    let byte : byte_of i ≡ i / 4096 / 8 = omega arith in
    rw (isfree_loop-eq-all_free n (i + 4096) bm, next, byte) (ground arith)

pub all_free_elim :
    (bm : ℕ → ℕ) (p n q : ℕ) → all_free bm p n ≡ true → in_run p n q ≡ true → page_free bm q ≡ true
unfolding all_free
all_free_elim bm p zero q h r = absurd (ground arith)
all_free_elim bm p (suc n) q h r = elim (ℕ_discrete p q) [
  | yes e ↦ ground arith
  | no ne ↦ ground (arith, all_free_elim bm (p + 1) n q)
]

pub all_free_intro :
    (bm : ℕ → ℕ) (p n : ℕ)
    → ((q : ℕ) → in_run p n q ≡ true → page_free bm q ≡ true)
    → all_free bm p n ≡ true
unfolding all_free
all_free_intro bm p zero h = refl
all_free_intro bm p (suc n) h =
    rw (h p (ground arith), all_free_intro bm (p + 1) n (λ q r. h q (ground arith)))

-- One round of `pmm_free`: the page is free after it, and counted if it was not free before.
isfree_one :
    (m : MemInfo) (i : ℕ) → i + 4096 < 2 ^ 64 → bitmap_isfree m i 1 ≡ page_free m.bitmap (i / 4096)
unfolding bitmap_isfree all_free
isfree_one m i h = rw (rounds_exact i 1 h) (isfree_loop-eq-all_free 1 i m.bitmap ∙ ground arith)

pub free_one_lem :
    (m : MemInfo) (i : ℕ)
    → i + 4096 < 2 ^ 64
    → ((free_one i m).bitmap ≡ free_bit m.bitmap i)
      × ((free_one i m).free_size
          ≡ (if page_free m.bitmap (i / 4096) then m.free_size else u64 (m.free_size + 4096)))
      × ((free_one i m).phys_limit ≡ m.phys_limit)
unfolding free_one
free_one_lem m i h = ground (arith, isfree_one m i h)

pub free_one-AreBytes :
    (m : MemInfo) (i : ℕ) → i + 4096 < 2 ^ 64 → AreBytes m.bitmap → AreBytes (free_one i m).bitmap
free_one-AreBytes m i h bytes = rw ((free_one_lem m i h).0) (free_bit-AreBytes m.bitmap i bytes)

pub page_free-free_one :
    (m : MemInfo) (i q : ℕ)
    → i + 4096 < 2 ^ 64
    → AreBytes m.bitmap
    → page_free (free_one i m).bitmap q ≡ (if i / 4096 == q then true else page_free m.bitmap q)
page_free-free_one m i q h bytes =
    rw ((free_one_lem m i h).0) (page_free-free_bit m.bitmap i q bytes)

pub free_loop-AreBytes :
    (n i : ℕ) (m : MemInfo)
    → i + n * 4096 < 2 ^ 64
    → AreBytes m.bitmap
    → AreBytes (free_loop n i m).bitmap
unfolding free_loop
free_loop-AreBytes zero i m h bytes = bytes
free_loop-AreBytes (suc n) i m h bytes =
    free_loop-AreBytes n (i + 4096) (free_one i m) (omega arith)
      (free_one-AreBytes m i (omega arith) bytes)

pub page_free-free_loop :
    (n i : ℕ) (m : MemInfo) (q : ℕ)
    → i + n * 4096 < 2 ^ 64
    → AreBytes m.bitmap
    → page_free (free_loop n i m).bitmap q
      ≡ (if in_run (i / 4096) n q then true else page_free m.bitmap q)
unfolding free_loop
page_free-free_loop zero i m q h bytes = ground arith
page_free-free_loop (suc n) i m q h bytes = ground (
  arith,
  page_free-free_loop n (i + 4096) (free_one i m) q (omega arith)
      (free_one-AreBytes m i (omega arith) bytes),
  page_free-free_one m i q (omega arith) bytes,
)
