-- ===== src/Mm/Get.antt =====
-- `pmm_get` of mm.c takes the first run of free pages at or after its base address.
use han_os.Base.{
  ℕ, zero, suc, ◌+◌, ◌-◌, ◌*◌, ◌/◌, ◌^◌, ◌<◌, ◌≡◌, ◌∙◌, Bool, true, false, arith, Option, none,
  some, Bool-cases, inl, inr, ap, sym,
}
use han_os.Mm.{MemInfo, page_size, pmm_alloc, get_loop, pmm_get}
use han_os.Mm.Pages.{all_free}
use han_os.Mm.Alloc.{pmm_alloc_lem}

-- `result` is the first of the `tries` runs of `n` pages that start at page `p`, `p + 1`, ...
abbrev pub FirstFit : MemInfo → ℕ → ℕ → ℕ → Option (ℕ × MemInfo) → Type 0
FirstFit m n i tries none = (k : ℕ) → k < tries → all_free m.bitmap (i / 4096 + k) n ≡ false
FirstFit m n i tries (some (a, m')) =
    (k : ℕ) × (k < tries)
    × (a ≡ i + k * 4096)
    × (all_free m.bitmap (i / 4096 + k) n ≡ true)
    × ((j : ℕ) → j < k → all_free m.bitmap (i / 4096 + j) n ≡ false)
    × (m' ≡ (pmm_alloc a n m).1)

-- One more failed try in front.
FirstFit-suc :
    (m : MemInfo) (n i tries : ℕ) (r : Option (ℕ × MemInfo))
    → all_free m.bitmap (i / 4096) n ≡ false
    → FirstFit m n (i + 4096) tries r
    → FirstFit m n i (suc tries) r
FirstFit-suc m n i tries none used fit = failed
  where
    failed : (k : ℕ) → k < suc tries → all_free m.bitmap (i / 4096 + k) n ≡ false
    failed zero h = ap (λ t. all_free m.bitmap t n) (omega arith) ∙ used
    failed (suc k) h = ap (λ t. all_free m.bitmap t n) (omega arith) ∙ fit k (omega arith)
FirstFit-suc m n i tries (some (a, m')) used (k, in_time, at, free, before, after) = (
  suc k,
  omega arith,
  omega arith,
  ap (λ t. all_free m.bitmap t n) (omega arith) ∙ free,
  earlier,
  after,
)
  where
    earlier : (j : ℕ) → j < suc k → all_free m.bitmap (i / 4096 + j) n ≡ false
    earlier zero h = ap (λ t. all_free m.bitmap t n) (omega arith) ∙ used
    earlier (suc j) h = ap (λ t. all_free m.bitmap t n) (omega arith) ∙ before j (omega arith)

get_loop-FirstFit :
    (tries i n : ℕ) (m : MemInfo)
    → i + (tries + n) * 4096 < 2 ^ 64
    → FirstFit m n i tries (get_loop tries i n m)
unfolding get_loop
get_loop-FirstFit zero i n m h = λ k lt. absurd (omega arith)
get_loop-FirstFit (suc tries) i n m h = elim (Bool-cases (all_free m.bitmap (i / 4096) n)) [
  | inl e ↦
      rw (pmm_alloc_lem i n m (omega arith), e)
        (
          0,
          omega arith,
          omega arith,
          ap (λ t. all_free m.bitmap t n) (omega arith) ∙ e,
          (λ j lt. absurd (omega arith)),
          (let out = pmm_alloc_lem i n m (omega arith) in
              ap (λ (r : Bool × MemInfo). r.1) (sym (rw e at out))),
        )
  | inr e ↦
      rw (pmm_alloc_lem i n m (omega arith), e)
        (FirstFit-suc m n i tries _ e (get_loop-FirstFit tries (i + 4096) n m (omega arith)))
]

-- `pmm_get` returns the first address among `baseaddr`, `baseaddr + PAGE_SIZE`, ... below the
-- physical limit at which `numpages` pages are free, with those pages allocated as `pmm_alloc`
-- does; it panics exactly when there is none.
pub pmm_get-FirstFit :
    (n base : ℕ) (m : MemInfo)
    → base + m.phys_limit + (n + 1) * 4096 < 2 ^ 64
    → FirstFit m n base ((m.phys_limit - base + page_size - 1) / page_size) (pmm_get n base m)
unfolding pmm_get
pmm_get-FirstFit n base m h = get_loop-FirstFit _ base n m (omega arith)

-- The pages that `pmm_get` finds.
pub record Found (n : ℕ) (m : MemInfo) (a : ℕ) (m' : MemInfo) : Type 0 where
  pub aligned : a / 4096 * 4096 ≡ a
  pub inside : a < m.phys_limit + 4096
  pub were_free : all_free m.bitmap (a / 4096) n ≡ true
  pub taken : m' ≡ (pmm_alloc a n m).1

pub pmm_get-Found :
    (n a : ℕ) (m m' : MemInfo)
    → m.phys_limit + (n + 1) * 4096 < 2 ^ 64
    → pmm_get n 0 m ≡ some (a, m')
    → Found n m a m'
pmm_get-Found n a m m' h e =
    let (k, hk, at, free, before, alloc) = (rw e at (pmm_get-FirstFit n 0 m (omega arith))) in
    record {
      aligned = omega (arith, at);
      inside = omega (arith, at, hk);
      were_free = (let here : a / 4096 ≡ 0 + k = omega (arith, at) in rw here free);
      taken = alloc;
    }
