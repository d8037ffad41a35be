-- ===== src/Heap.antt =====
-- kernel/lib/kmalloc.c: the heap of the kernel. A block is a run of pages, of which the first holds the
-- size and the address that is returned is that of the second. The sizes are kept by the address of
-- that first page, apart from the bytes; a caller that writes in front of its block is not modelled.
pub mod Blocks
pub mod Realloc
mod Tests
use han_os.Base.{
  ℕ, ◌+◌, ◌-◌, ◌^◌, Bool, true, false, Option, none, some, ltb, ◌==◌, if◌then◌else◌, u64,
}
use han_os.Mm.{MemInfo, page_size, num_pages, pmm_get, pmm_free, phys_to_virt, virt_to_phys}
use han_os.Text.{memcpy}

abbrev pub userspace_offset : ℕ
userspace_offset = 0x1000

-- `metadata_t`
pub record Metadata : Type 0 where
  pub numpages : ℕ
  pub size : ℕ

pub record Heap : Type 0 where
  pub mm : MemInfo
  pub meta : ℕ → Metadata
  pub bytes : ℕ → ℕ

abbrev pub put_meta : (ℕ → Metadata) → ℕ → Metadata → ℕ → Metadata
put_meta meta d v i = if i == d then v else meta i

-- The page in front of a block.
abbrev pub meta_of : ℕ → ℕ
meta_of addr = u64 (addr + 2 ^ 64 - page_size)

-- The block at the pages that `pmm_get` found; `d` is the address that the code uses for them.
abbrev new_block : ℕ → ℕ → MemInfo → Heap → ℕ × Heap
new_block size d mm h = (
  u64 (d + page_size),
  record h {
    mm = mm;
    meta = put_meta h.meta d (record { numpages = num_pages size; size = size });
  },
)

-- `none` is the kernel panic of `pmm_get`.
unfoldable pub kmalloc : ℕ → Heap → Option (ℕ × Heap)
kmalloc size h = elim (pmm_get (u64 (num_pages size + 1)) 0 h.mm) [
  | none ↦ none
  | some (a, mm) ↦ some (new_block size (phys_to_virt a) mm h)
]

unfoldable pub kmfree : ℕ → Heap → Heap
kmfree addr h =
    let d : ℕ = meta_of addr in
    record h { mm = pmm_free (virt_to_phys d) (u64 ((h.meta d).numpages + 1)) h.mm }

-- `addr` is NULL where it is 0.
unfoldable pub kmrealloc : ℕ → ℕ → Heap → Option (ℕ × Heap)
kmrealloc addr newsize h =
    let d : ℕ = meta_of addr in
    let old : ℕ = (h.meta d).size in
    if addr == 0
    then kmalloc newsize h
    else (if num_pages old == num_pages newsize
        then some (
          addr,
          record h {
            meta = put_meta h.meta d (record { numpages = num_pages newsize; size = newsize });
          },
        )
        else elim (kmalloc newsize h) [
          | none ↦ none
          | some (new, h') ↦ some (
            new,
            kmfree addr (record h' {
              bytes = memcpy new addr (if ltb newsize old then newsize else old) h'.bytes;
            }),
          )
        ])

-- User memory is not offset.
pub umalloc : ℕ → Heap → Option (ℕ × Heap)
umalloc size h = elim (pmm_get (u64 (num_pages size + 1)) userspace_offset h.mm) [
  | none ↦ none
  | some (a, mm) ↦ some (new_block size a mm h)
]

pub umfree : ℕ → Heap → Heap
umfree addr h =
    let d : ℕ = meta_of addr in record h { mm = pmm_free d (u64 ((h.meta d).numpages + 1)) h.mm }
