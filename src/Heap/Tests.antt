-- ===== src/Heap/Tests.antt =====
-- A heap of sixteen free pages.
use han_os.Base.{ℕ, ◌+◌, ◌≡◌, refl, arith, Option, some, none, ◌⊎◌, inl, inr, if◌then◌else◌, ◌==◌}
use han_os.Mm.{MemInfo, pmm_get, pmm_alloc}
use han_os.Mm.Pages.{AreBytes, page_free}
use han_os.Heap.{Heap, kmalloc, kmfree, kmrealloc}
use han_os.Heap.Blocks.{IsReady, kmfree-kmalloc}
use han_os.Heap.Realloc.{IsBlock, kmrealloc-bytes}

abbrev sixteen : MemInfo
sixteen = record {
  phys_limit = 0x10000;
  total_size = 0x10000;
  free_size = 0xc000;
  bitmap_base = 0;
  bitmap = λ i. if i == 0 then 0xfc else (if i == 1 then 0xff else 0);
}

-- The first two pages are a block of 100 bytes.
abbrev heap : Heap
heap = record { mm = sixteen; meta = λ d. record { numpages = 1; size = 100 }; bytes = λ i. i }

abbrev block : ℕ
block = 0xffff800000001000

abbrev heap_of : Option (ℕ × Heap) → Heap
heap_of none = heap
heap_of (some (p, h)) = h

sixteen-AreBytes : AreBytes sixteen.bitmap
sixteen-AreBytes i = ground arith

ready : IsReady 5000 heap
ready = record { bytes = sixteen-AreBytes; counted = omega arith; addresses = omega arith }

makes_third_page : kmalloc 5000 heap ≡ some (0xffff800000003000, heap_of (kmalloc 5000 heap))
unfolding kmalloc pmm_get pmm_alloc
makes_third_page = refl

kmfree-kmalloc_example :
    ((q : ℕ)
      → page_free (kmfree 0xffff800000003000 (heap_of (kmalloc 5000 heap))).mm.bitmap q
        ≡ page_free sixteen.bitmap q)
    × ((kmfree 0xffff800000003000 (heap_of (kmalloc 5000 heap))).mm.free_size ≡ 0xc000)
kmfree-kmalloc_example = kmfree-kmalloc 5000 0xffff800000003000 heap _ ready makes_third_page

block-IsBlock : IsBlock heap block 0 100
unfolding page_free
block-IsBlock = record {
  place = refl;
  inside = omega arith;
  used = λ q h.
      (let e : (q ≡ 0) ⊎ (q ≡ 1) = ground arith in
        elim e [ inl first ↦ rw first refl | inr second ↦ rw second refl ]);
  recorded = refl;
}

grows_block :
    kmrealloc block 5000 heap ≡ some (0xffff800000003000, heap_of (kmrealloc block 5000 heap))
unfolding kmalloc pmm_get pmm_alloc kmrealloc
grows_block = refl

kmrealloc-bytes_example :
    (heap_of (kmrealloc block 5000 heap)).bytes (0xffff800000003000 + 42) ≡ heap.bytes (block + 42)
kmrealloc-bytes_example =
    kmrealloc-bytes block 0 100 5000 0xffff800000003000 42 heap _ ready block-IsBlock grows_block
      (omega arith)
