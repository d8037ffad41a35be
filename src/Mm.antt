-- ===== src/Mm.antt =====
-- kernel/core/mm.c, the physical memory manager: a bitmap with one bit for a page, 1 for free.
-- `kmem_info.bitmap[i]` is `bitmap i`: the bytes from the pointer on, also beyond the bitmap's end,
-- since the code checks no bound. Addresses are uint64_t. The tables of virtual memory are in Vmm.
pub mod Bits
pub mod Pages
pub mod Alloc
pub mod Account
pub mod Get
pub mod Init
mod Tests
use han_os.Base.{
  ℕ, zero, suc, ◌+◌, ◌-◌, ◌*◌, ◌/◌, ◌%◌, ◌^◌, Bool, true, false, not, ◌||◌, ◌&&◌, Option, none,
  some, List, [], ◌∷◌, ltb, leb, ◌==◌, if◌then◌else◌, u64, ◌<<<◌, bit_and, bit_or, bit_set,
}

abbrev pub page_size : ℕ
page_size = 4096

abbrev pub bmp_pages_per_byte : ℕ
bmp_pages_per_byte = 8

-- NUM_PAGES
abbrev pub num_pages : ℕ → ℕ
num_pages num = u64 (num + page_size - 1) / page_size

-- `mem_info_t`; `bitmap_base` is the pointer itself, a virtual address.
pub record MemInfo : Type 0 where
  pub phys_limit : ℕ
  pub total_size : ℕ
  pub free_size : ℕ
  pub bitmap_base : ℕ
  pub bitmap : ℕ → ℕ

abbrev pub byte_of : ℕ → ℕ
byte_of i = i / (page_size * bmp_pages_per_byte)

abbrev pub bit_of : ℕ → ℕ
bit_of i = (i / page_size) % bmp_pages_per_byte

-- One byte of the bitmap written.
abbrev pub update : (ℕ → ℕ) → ℕ → ℕ → ℕ → ℕ
update f i v j = if i == j then v else f j

-- The rounds of `for (i = addr; i < addr + numpages * PAGE_SIZE; i += PAGE_SIZE)`: none if the
-- uint64_t end wraps round to the start or below.
abbrev pub rounds : ℕ → ℕ → ℕ
rounds addr numpages =
    let end_addr : ℕ = u64 (addr + u64 (numpages * page_size)) in
    if ltb addr end_addr then (end_addr - addr + page_size - 1) / page_size else 0

-- `bitmap[...] &= ~(1 << k)`, stored in a uint8_t
abbrev pub mark_one : (ℕ → ℕ) → ℕ → ℕ → ℕ
mark_one bm i = update bm (byte_of i) (bit_and (bm (byte_of i)) (255 - (1 <<< bit_of i)))

pub markused_loop : ℕ → ℕ → (ℕ → ℕ) → ℕ → ℕ
markused_loop zero i bm = bm
markused_loop (suc n) i bm = markused_loop n (i + page_size) (mark_one bm i)

pub bitmap_markused : MemInfo → ℕ → ℕ → MemInfo
unfolding markused_loop
bitmap_markused m addr numpages = record m {
  bitmap = markused_loop (rounds addr numpages) addr m.bitmap;
}

pub isfree_loop : ℕ → ℕ → (ℕ → ℕ) → Bool
isfree_loop zero i bm = true
isfree_loop (suc n) i bm =
    let rest = isfree_loop n (i + page_size) bm in
    if bit_set (bm (byte_of i)) (bit_of i) then rest else false

pub bitmap_isfree : MemInfo → ℕ → ℕ → Bool
unfolding isfree_loop
bitmap_isfree m addr numpages = isfree_loop (rounds addr numpages) addr m.bitmap

-- The body of the loop of `pmm_free`. `bitmap_isfree(i, 1)` is called as the code calls it.
pub free_one : ℕ → MemInfo → MemInfo
unfolding bitmap_isfree
free_one i m =
    let m' =
      if bitmap_isfree m i 1 then m else record m { free_size = u64 (m.free_size + page_size) } in
    record m' {
      bitmap = update m'.bitmap (byte_of i) (bit_or (m'.bitmap (byte_of i)) (1 <<< bit_of i));
    }

pub free_loop : ℕ → ℕ → MemInfo → MemInfo
unfolding free_one
free_loop zero i m = m
free_loop (suc n) i m = free_loop n (i + page_size) (free_one i m)

pub pmm_free : ℕ → ℕ → MemInfo → MemInfo
unfolding free_loop
pmm_free addr numpages m = free_loop (rounds addr numpages) addr m

unfoldable pub pmm_alloc : ℕ → ℕ → MemInfo → Bool × MemInfo
unfolding bitmap_isfree bitmap_markused
pmm_alloc addr numpages m =
    if not (bitmap_isfree m addr numpages)
    then (false, m)
    else (let m' = bitmap_markused m addr numpages in
        (true, record m' { free_size = u64 (m'.free_size + 2 ^ 64 - u64 (numpages * page_size)) }))

-- The search of `pmm_get`, one round for each address tried; `none` is the kernel panic.
pub get_loop : ℕ → ℕ → ℕ → MemInfo → Option (ℕ × MemInfo)
unfolding pmm_alloc
get_loop zero i numpages m = none
get_loop (suc n) i numpages m =
    let rest = get_loop n (i + page_size) numpages m in
    let (done, m') = pmm_alloc i numpages m in if done then some (i, m') else rest

-- The addresses `baseaddr`, `baseaddr + PAGE_SIZE`, ... below `phys_limit`.
unfoldable pub pmm_get : ℕ → ℕ → MemInfo → Option (ℕ × MemInfo)
unfolding get_loop
pmm_get numpages baseaddr m =
    get_loop ((m.phys_limit - baseaddr + page_size - 1) / page_size) baseaddr numpages m

-- LIMINE_MEMMAP_*: the types of an entry of the boot loader's memory map.
pub data MemType : Type 0 where
  usable reserved acpi_reclaimable acpi_nvs bad_memory : MemType
  bootloader_reclaimable kernel_and_modules framebuffer : MemType

pub record Entry : Type 0 where
  pub base : ℕ
  pub len : ℕ
  pub type : MemType

abbrev pub is_usable : MemType → Bool
is_usable usable = true
is_usable _ = false

abbrev pub counts_as_total : MemType → Bool
counts_as_total usable = true
counts_as_total bootloader_reclaimable = true
counts_as_total acpi_reclaimable = true
counts_as_total kernel_and_modules = true
counts_as_total _ = false

-- MEM_VIRT_OFFSET, PHYS_TO_VIRT, VIRT_TO_PHYS
abbrev pub mem_virt_offset : ℕ
mem_virt_offset = 0xffff800000000000

abbrev pub phys_to_virt : ℕ → ℕ
phys_to_virt a = u64 (a + mem_virt_offset)

abbrev pub virt_to_phys : ℕ → ℕ
virt_to_phys a = u64 (a + 2 ^ 64 - mem_virt_offset)

-- The first loop of `pmm_init`: the limit and the size of the memory.
pub scan_entry : Entry → MemInfo → MemInfo
scan_entry e m =
    let new_limit : ℕ = u64 (e.base + e.len) in
    let m1 = if ltb m.phys_limit new_limit then record m { phys_limit = new_limit } else m in
    if counts_as_total e.type then record m1 { total_size = u64 (m1.total_size + e.len) } else m1

pub scan_limits : List Entry → MemInfo → MemInfo
scan_limits [] m = m
scan_limits (e ∷ es) m = scan_limits es (scan_entry e m)

-- `entry->base + entry->length <= 0x100000`
abbrev pub is_low : Entry → Bool
is_low e = leb (u64 (e.base + e.len)) 0x100000

-- The second loop: the first usable entry above 1 MiB that the bitmap fits in.
pub place_bitmap : ℕ → List Entry → ℕ → ℕ
place_bitmap bm_size [] base = base
place_bitmap bm_size (e ∷ es) base =
    if not (is_low e) && (leb bm_size e.len && is_usable e.type)
    then phys_to_virt e.base
    else place_bitmap bm_size es base

-- The third loop: usable entries above 1 MiB are freed.
pub populate : List Entry → MemInfo → MemInfo
populate [] m = m
populate (e ∷ es) m =
    populate es
      (if not (is_low e) && is_usable e.type then pmm_free e.base (num_pages e.len) m else m)

-- `memset(bitmap, 0, bm_size)`
abbrev pub cleared : ℕ → (ℕ → ℕ) → ℕ → ℕ
cleared bm_size bm i = if ltb i bm_size then 0 else bm i

-- `ram a i` is the byte at address `a + i` before the call; `m` is the state at the call.
pub pmm_init : (ℕ → ℕ → ℕ) → List Entry → MemInfo → MemInfo
pmm_init ram entries m =
    let m1 = scan_limits entries (record m { phys_limit = 0; total_size = 0; free_size = 0 }) in
    let bm_size : ℕ = m1.phys_limit / (page_size * bmp_pages_per_byte) in
    let base = place_bitmap bm_size entries m1.bitmap_base in
    let m2 = record m1 { bitmap_base = base; bitmap = cleared bm_size (ram base) } in
    (pmm_alloc (virt_to_phys base) (num_pages bm_size) (populate entries m2)).1
