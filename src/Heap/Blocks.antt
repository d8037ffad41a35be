-- ===== src/Heap/Blocks.antt =====
-- The blocks of the heap: what a new block takes, and that freeing gives it back.
use han_os.Base.{
  ℕ, ◌+◌, ◌*◌, ◌/◌, ◌^◌, ◌<◌, ◌≡◌, inl, inr, refl, sym, ◌∙◌, ap, true, ◌==◌, arith, Option-cases,
  Option, some, none, u64, subst,
}
use han_os.Mm.{MemInfo, page_size, num_pages, pmm_get, pmm_alloc, phys_to_virt, virt_to_phys}
use han_os.Mm.Pages.{AreBytes, page_free, all_free}
use han_os.Mm.Alloc.{InRange, pmm_alloc-pages, pmm_free-pmm_alloc}
use han_os.Mm.Get.{pmm_get-Found}
use han_os.Heap.{Heap, meta_of, put_meta, kmalloc, kmfree}

-- What a call of `kmalloc` relies on: a bitmap of bytes, and addresses below the higher half.
pub record IsReady (size : ℕ) (h : Heap) : Type 0 where
  pub bytes : AreBytes h.mm.bitmap
  pub counted : h.mm.free_size < 2 ^ 64
  pub addresses : h.mm.phys_limit + size + 3 * 4096 < 2 ^ 46

-- The block at page `page` of physical memory: what a successful call of `kmalloc` has done.
pub record Made (size : ℕ) (h : Heap) (p page : ℕ) (h' : Heap) : Type 0 where
  pub place : p ≡ 0xffff800000000000 + page * 4096 + 4096
  pub inside : page * 4096 + size + 4096 < 2 ^ 47
  pub were_free : all_free h.mm.bitmap page (num_pages size + 1) ≡ true
  pub taken : h'.mm ≡ (pmm_alloc (page * 4096) (num_pages size + 1) h.mm).1
  pub recorded :
      h'.meta ≡ put_meta h.meta (meta_of p) (record { numpages = num_pages size; size = size })
  pub same_bytes : h'.bytes ≡ h.bytes

kmalloc-none :
    (size : ℕ) (h : Heap) → pmm_get (u64 (num_pages size + 1)) 0 h.mm ≡ none → kmalloc size h ≡ none
unfolding kmalloc
kmalloc-none size h e = rw (e, kmalloc)

made : ℕ → ℕ → MemInfo → Heap → ℕ × Heap
made size a mm h = (
  u64 (phys_to_virt a + page_size),
  record h {
    mm = mm;
    meta = put_meta h.meta (phys_to_virt a) (record { numpages = num_pages size; size = size });
  },
)

kmalloc-some :
    (size a : ℕ) (mm : MemInfo) (h : Heap)
    → pmm_get (u64 (num_pages size + 1)) 0 h.mm ≡ some (a, mm)
    → kmalloc size h ≡ some (made size a mm h)
unfolding kmalloc made
kmalloc-some size a mm h e = rw (e, kmalloc)

made-Made :
    (size a : ℕ) (mm : MemInfo) (h : Heap)
    → IsReady size h
    → pmm_get (u64 (num_pages size + 1)) 0 h.mm ≡ some (a, mm)
    → Made size h (made size a mm h).0 (a / 4096) (made size a mm h).1
unfolding made
made-Made size a mm h r e =
    let small = r.addresses in
    let count : u64 (num_pages size + 1) ≡ num_pages size + 1 = omega arith in
    let f = pmm_get-Found (num_pages size + 1) a h.mm mm (omega arith) (rw count at e) in
    let low : a < 2 ^ 46 = omega (arith, f.inside) in
    let page : a / 4096 * 4096 ≡ a = f.aligned in
    let back : meta_of (u64 (phys_to_virt a + page_size)) ≡ phys_to_virt a = omega arith in
    record {
      place = omega arith;
      inside = omega (arith, f.inside);
      were_free = f.were_free;
      taken = rw page f.taken;
      recorded = rw back refl;
      same_bytes = refl;
    }

abbrev pub value_or : ℕ × Heap → Option (ℕ × Heap) → ℕ × Heap
value_or v none = v
value_or v (some w) = w

-- A call of `kmalloc` that does not panic gives a block of pages that were free.
pub kmalloc-Made :
    (size p : ℕ) (h h' : Heap)
    → IsReady size h
    → kmalloc size h ≡ some (p, h')
    → (page : ℕ) × Made size h p page h'
kmalloc-Made size p h h' r e = elim (Option-cases (pmm_get (u64 (num_pages size + 1)) 0 h.mm)) [
  | inl panics ↦ absurd (ground (arith, e, kmalloc-none size h panics))
  | inr ((a, mm), found) ↦
      let same : some (made size a mm h) ≡ some (p, h') =
        sym (kmalloc-some size a mm h found) ∙ e in
      subst (λ (v : ℕ × Heap). (page : ℕ) × Made size h v.0 page v.1) (ap (value_or (p, h')) same)
        (a / 4096, made-Made size a mm h r found)
]

-- The address that the pages of a block are freed at.
pub meta_of-block :
    (p page : ℕ)
    → p ≡ 0xffff800000000000 + page * 4096 + 4096
    → page * 4096 + 4096 < 2 ^ 47
    → virt_to_phys (meta_of p) ≡ page * 4096
meta_of-block p page e h = omega (arith, e, h)

-- A block that `kmalloc` gave and `kmfree` takes back leaves every page of physical memory free or
-- used as before, and the count of free bytes.
pub kmfree-kmalloc :
    (size p : ℕ) (h h' : Heap)
    → IsReady size h
    → kmalloc size h ≡ some (p, h')
    → ((q : ℕ) → page_free (kmfree p h').mm.bitmap q ≡ page_free h.mm.bitmap q)
      × ((kmfree p h').mm.free_size ≡ h.mm.free_size)
unfolding kmfree
kmfree-kmalloc size p h h' r e =
    let (page, b) = kmalloc-Made size p h h' r e in
    let small = r.addresses in
    let n : ℕ = num_pages size + 1 in
    let count : u64 n ≡ n = omega arith in
    let range : InRange (page * 4096) n = omega (arith, b.inside) in
    let taken = pmm_alloc-pages (page * 4096) n h.mm range r.bytes in
    let at_page : page * 4096 / 4096 ≡ page = omega arith in
    let done : (pmm_alloc (page * 4096) n h.mm).0 ≡ true = taken.0 ∙ rw at_page b.were_free in
    let back = pmm_free-pmm_alloc (page * 4096) n h.mm range r.bytes r.counted done in
    let here : (meta_of p == meta_of p) ≡ true = ground arith in
    let numpages_is : (h'.meta (meta_of p)).numpages ≡ num_pages size =
      rw (b.recorded, here) refl in
    rw (numpages_is, count, meta_of-block p page b.place (omega (arith, b.inside)), b.taken) back
