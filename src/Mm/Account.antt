-- ===== src/Mm/Account.antt =====
-- `free_size` of mm.c counts the free pages, and each operation keeps it so.
use han_os.Base.{
  ℕ, zero, suc, ◌+◌, ◌*◌, ◌/◌, ◌^◌, ◌≤◌, ◌<◌, ◌≡◌, refl, ◌∙◌, Bool, true, false, arith, ◌==◌,
  if◌then◌else◌, Bool-cases, inl, inr, ℕ_discrete,
}
use han_os.Mm.{MemInfo, mark_one, markused_loop, free_one, free_loop, pmm_alloc, pmm_free}
use han_os.Mm.Pages.{
  AreBytes, page_free, all_free, all_free_intro, all_free_elim, markused_loop-AreBytes,
  page_free-mark_one, mark_one-AreBytes, page_free-free_one, free_one_lem, free_one-AreBytes,
}
use han_os.Mm.Alloc.{InRange, pmm_alloc_lem, pmm_free_lem}

abbrev pub as_number : Bool → ℕ
as_number true = 1
as_number false = 0

-- The number of free pages below page `limit`.
unfoldable pub count_free : (ℕ → ℕ) → ℕ → ℕ
count_free bm zero = 0
count_free bm (suc limit) = as_number (page_free bm limit) + count_free bm limit

pub count_free_le : (bm : ℕ → ℕ) (limit : ℕ) → count_free bm limit ≤ limit
unfolding count_free
count_free_le bm zero = omega arith
count_free_le bm (suc limit) = ground (arith, count_free_le bm limit)

-- Two bitmaps that differ at page `p` at most.
module _ (bm bm' : ℕ → ℕ) (p : ℕ) (b : Bool)
    (change : (q : ℕ) → page_free bm' q ≡ (if p == q then b else page_free bm q)) where
  count_free_above : (limit : ℕ) → limit ≤ p → count_free bm' limit ≡ count_free bm limit
  unfolding count_free
  count_free_above zero h = refl
  count_free_above (suc limit) h =
      ground (arith, change limit, count_free_above limit (omega arith))

  count_free_change :
      (limit : ℕ)
      → p < limit
      → count_free bm' limit + as_number (page_free bm p) ≡ count_free bm limit + as_number b
  unfolding count_free
  count_free_change zero h = absurd (omega arith)
  count_free_change (suc limit) h = elim (ℕ_discrete p limit) [
    | yes e ↦ ground (arith, change limit, count_free_above limit (omega arith))
    | no ne ↦ ground (arith, change limit, count_free_change limit (omega arith))
  ]

-- `free_size` is the size of the free pages below page `limit`, and all of these have addresses.
pub record Accounts (limit : ℕ) (m : MemInfo) : Type 0 where
  pub bytes : AreBytes m.bitmap
  pub counted : m.free_size ≡ 4096 * count_free m.bitmap limit
  pub addresses : limit * 4096 < 2 ^ 64

count_free-mark_one :
    (bm : ℕ → ℕ) (i limit : ℕ)
    → AreBytes bm
    → i / 4096 < limit
    → page_free bm (i / 4096) ≡ true
    → count_free (mark_one bm i) limit + 1 ≡ count_free bm limit
count_free-mark_one bm i limit bytes h free = ground (
  arith,
  count_free_change bm (mark_one bm i) (i / 4096) false (λ q. page_free-mark_one bm i q bytes) limit
      h,
)

all_free-mark_one :
    (n i : ℕ) (bm : ℕ → ℕ)
    → AreBytes bm
    → all_free bm (i / 4096) (suc n) ≡ true
    → all_free (mark_one bm i) ((i + 4096) / 4096) n ≡ true
all_free-mark_one n i bm bytes free = all_free_intro (mark_one bm i) ((i + 4096) / 4096) n λ q r.
    page_free-mark_one bm i q bytes
    ∙ ground (arith, all_free_elim bm (i / 4096) (suc n) q free (ground arith))

-- Taking a run of free pages takes as many from the count.
count_free-markused_loop :
    (n i limit : ℕ) (bm : ℕ → ℕ)
    → AreBytes bm
    → i / 4096 + n ≤ limit
    → all_free bm (i / 4096) n ≡ true
    → count_free (markused_loop n i bm) limit + n ≡ count_free bm limit
unfolding markused_loop
count_free-markused_loop zero i limit bm bytes h free = omega arith
count_free-markused_loop (suc n) i limit bm bytes h free = ground (
  arith,
  count_free-markused_loop n (i + 4096) limit (mark_one bm i) (mark_one-AreBytes bm i bytes)
      (omega arith) (all_free-mark_one n i bm bytes free),
  count_free-mark_one bm i limit bytes (omega arith)
      (all_free_elim bm (i / 4096) (suc n) (i / 4096) free (ground arith)),
)

free_one-Accounts :
    (limit i : ℕ) (m : MemInfo)
    → i / 4096 < limit
    → Accounts limit m
    → Accounts limit (free_one i m)
free_one-Accounts limit i m h a =
    let (bits, size, _) = free_one_lem m i (omega (arith, a.addresses)) in
    record {
      bytes = free_one-AreBytes m i (omega (arith, a.addresses)) a.bytes;
      counted = ground (
        arith,
        size,
        a.counted,
        a.addresses,
        count_free_le m.bitmap limit,
        count_free_change m.bitmap (free_one i m).bitmap (i / 4096) true
            (λ q. page_free-free_one m i q (omega (arith, a.addresses)) a.bytes) limit h,
        count_free_le (free_one i m).bitmap limit,
      );
      addresses = a.addresses;
    }

free_loop-Accounts :
    (n i limit : ℕ) (m : MemInfo)
    → i / 4096 + n ≤ limit
    → Accounts limit m
    → Accounts limit (free_loop n i m)
unfolding free_loop
free_loop-Accounts zero i limit m h a = a
free_loop-Accounts (suc n) i limit m h a =
    free_loop-Accounts n (i + 4096) limit (free_one i m) (omega arith)
      (free_one-Accounts limit i m (omega arith) a)

-- `pmm_free` of pages below the limit keeps the account, whether or not they were free.
pub pmm_free-Accounts :
    (addr n limit : ℕ) (m : MemInfo)
    → addr / 4096 + n ≤ limit
    → Accounts limit m
    → Accounts limit (pmm_free addr n m)
pmm_free-Accounts addr n limit m h a =
    rw (pmm_free_lem addr n m (omega (arith, a.addresses))) (free_loop-Accounts n addr limit m h a)

-- `pmm_alloc` of pages below the limit keeps the account, whether or not it succeeds.
pub pmm_alloc-Accounts :
    (addr n limit : ℕ) (m : MemInfo)
    → addr / 4096 + n ≤ limit
    → Accounts limit m
    → Accounts limit (pmm_alloc addr n m).1
pmm_alloc-Accounts addr n limit m h a =
    let fits : InRange addr n = omega (arith, a.addresses) in
    elim (Bool-cases (all_free m.bitmap (addr / 4096) n)) [
      | inl e ↦
          rw (pmm_alloc_lem addr n m fits, e)
            (record {
              bytes = markused_loop-AreBytes n addr m.bitmap a.bytes;
              counted = omega (
                arith,
                a.counted,
                a.addresses,
                count_free_le m.bitmap limit,
                count_free-markused_loop n addr limit m.bitmap a.bytes h e,
              );
              addresses = a.addresses;
            })
      | inr e ↦ rw (pmm_alloc_lem addr n m fits, e) a
    ]
