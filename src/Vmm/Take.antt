-- ===== src/Vmm/Take.antt =====
-- What taking one page for a table leaves of the physical memory.
use han_os.Base.{
  ℕ, ◌+◌, ◌*◌, ◌/◌, ◌^◌, ◌<◌, ◌≡◌, ◌≢◌, inl, inr, refl, sym, ◌∙◌, true, false, arith, Bool-cases,
  some,
}
use han_os.Mm.{MemInfo, pmm_get, pmm_alloc}
use han_os.Mm.Pages.{AreBytes, page_free, in_run, all_free, all_free_elim}
use han_os.Mm.Alloc.{InRange, pmm_alloc_lem, pmm_alloc-pages, pmm_alloc-AreBytes}
use han_os.Mm.Get.{pmm_get-Found}

-- What taking page `n` leaves.
pub record Took (mm mm' : MemInfo) (n : ℕ) : Type 0 where
  pub was_free : page_free mm.bitmap n ≡ true
  pub is_used : page_free mm'.bitmap n ≡ false
  pub others : (m : ℕ) → page_free mm.bitmap m ≡ false → page_free mm'.bitmap m ≡ false
  pub same_pages : (m : ℕ) → m ≢ n → page_free mm'.bitmap m ≡ page_free mm.bitmap m
  pub bytes : AreBytes mm'.bitmap
  pub same_limit : mm'.phys_limit ≡ mm.phys_limit
  pub low : n < 2 ^ 35
  pub address : n * 4096 < 2 ^ 46

phys_limit-pmm_alloc :
    (a n : ℕ) (mm : MemInfo) → InRange a n → (pmm_alloc a n mm).1.phys_limit ≡ mm.phys_limit
phys_limit-pmm_alloc a n mm h = elim (Bool-cases (all_free mm.bitmap (a / 4096) n)) [
  | inl e ↦ rw (pmm_alloc_lem a n mm h, e) refl
  | inr e ↦ rw (pmm_alloc_lem a n mm h, e) refl
]

pub pmm_get-Took :
    (a : ℕ) (mm mm' : MemInfo)
    → AreBytes mm.bitmap
    → mm.phys_limit + 3 * 4096 < 2 ^ 46
    → pmm_get 1 0 mm ≡ some (a, mm')
    → (a ≡ a / 4096 * 4096) × Took mm mm' (a / 4096)
pmm_get-Took a mm mm' bytes limit e =
    let f = pmm_get-Found 1 a mm mm' (omega arith) e in
    let range : InRange a 1 = omega (arith, f.inside) in
    let taken = pmm_alloc-pages a 1 mm range bytes in
    let done : (pmm_alloc a 1 mm).0 ≡ true = taken.0 ∙ f.were_free in
    let pages = taken.1 done in
    let itself : in_run (a / 4096) 1 (a / 4096) ≡ true = ground arith in
    (
      sym f.aligned,
      record {
        was_free = all_free_elim mm.bitmap (a / 4096) 1 (a / 4096) f.were_free itself;
        is_used = rw f.taken (pages (a / 4096) ∙ rw itself refl);
        others = λ m old. rw f.taken (pages m ∙ rw old (ground arith));
        same_pages = λ m ne.
            (let outside : in_run (a / 4096) 1 m ≡ false = ground (arith, ne) in
              rw f.taken (pages m ∙ rw outside refl));
        bytes = rw f.taken (pmm_alloc-AreBytes a 1 mm range bytes);
        same_limit = rw f.taken (phys_limit-pmm_alloc a 1 mm range);
        low = omega (arith, f.inside);
        address = omega (arith, f.inside);
      },
    )
