-- ===== src/Vmm.antt =====
-- kernel/core/mm.c, virtual memory: the tables of pages. A word of memory is found by its address in
-- the direct map, which is where the code reads and writes tables; the mapping of one page runs over
-- four tables, from the root down. The registers of the processor are left out.
pub mod Walks
pub mod Take
pub mod Room
pub mod Fresh
pub mod Tables
pub mod Descent
pub mod Maps
mod Tests
use han_os.Base.{
  ℕ, zero, suc, ◌+◌, ◌-◌, ◌*◌, ◌/◌, ◌%◌, ◌^◌, Bool, true, false, not, ◌&&◌, ◌||◌, Option, none,
  some, List, [], ◌∷◌, ltb, leb, ◌==◌, if◌then◌else◌, bit_and, bit_or, nonzero, u64, min,
}
use han_os.Mm.{
  MemInfo, MemType, usable, kernel_and_modules, framebuffer, Entry, is_usable, page_size, num_pages,
  pmm_get, pmm_free, phys_to_virt, virt_to_phys,
}

abbrev pub vmm_flag_present : ℕ
vmm_flag_present = 1

abbrev pub vmm_flags_default : ℕ
vmm_flags_default = 3

abbrev pub vmm_flags_usermode : ℕ
vmm_flags_usermode = 7

abbrev pub mm_size : ℕ
mm_size = 268435456

-- `kaddrspace.PML4`, the words of memory, and the physical pages.
pub record Vm : Type 0 where
  pub words : ℕ → ℕ
  pub pml4 : ℕ
  pub mm : MemInfo

-- `(vaddr >> shift) & 0x1ff`
abbrev pub index : ℕ → ℕ → ℕ
index shift vaddr = vaddr / 2 ^ shift % 512

-- `address & ~(0xfff)`
abbrev pub page_of : ℕ → ℕ
page_of address = address / 4096 * 4096

unfoldable pub make_table_entry : ℕ → ℕ → ℕ
make_table_entry address flags = bit_or (page_of address) flags

unfoldable pub is_present : ℕ → Bool
is_present entry = nonzero (bit_and entry vmm_flag_present)

-- The address of entry `i` of a table.
abbrev pub at : ℕ → ℕ → ℕ
at table i = table + i * 8

abbrev pub put_word : (ℕ → ℕ) → ℕ → ℕ → ℕ → ℕ
put_word words a v b = if b == a then v else words b

-- `memset(table, 0, PAGE_SIZE)`
abbrev pub clear_page : (ℕ → ℕ) → ℕ → ℕ → ℕ
clear_page words table b = if leb table b && ltb b (table + page_size) then 0 else words b

-- A new table for the entry at `slot`.
unfoldable pub new_table : ℕ → ℕ → MemInfo → Vm → ℕ × Vm
new_table slot a mm s =
    let table : ℕ = phys_to_virt a in
    (
      table,
      record s {
        words =
            put_word (clear_page s.words table) slot
              (make_table_entry (virt_to_phys table) vmm_flags_usermode);
        mm = mm;
      },
    )

-- The table that the entry at `slot` points to, which is made if it is missing; `none` is a panic.
unfoldable pub next_table : ℕ → Vm → Option (ℕ × Vm)
next_table slot s =
    if is_present (s.words slot)
    then some (phys_to_virt (page_of (s.words slot)), s)
    else elim (pmm_get 1 0 s.mm) [ none ↦ none | some (a, mm) ↦ some (new_table slot a mm s) ]

-- The three blocks of `map_page`, one after the other: from a table down along the indices.
unfoldable pub descend_tables : List ℕ → ℕ → Vm → Option (ℕ × Vm)
descend_tables [] table s = some (table, s)
descend_tables (i ∷ is) table s = elim (next_table (at table i) s) [
  | none ↦ none
  | some (table', s') ↦ descend_tables is table' s'
]

abbrev pub upper_indices : ℕ → List ℕ
upper_indices vaddr = index 39 vaddr ∷ index 30 vaddr ∷ index 21 vaddr ∷ []

unfoldable pub map_page : ℕ → ℕ → ℕ → Vm → Option Vm
map_page vaddr paddr flags s = elim (descend_tables (upper_indices vaddr) s.pml4 s) [
  | none ↦ none
  | some (table, s') ↦ some (record s' {
    words = put_word s'.words (at table (index 12 vaddr)) (make_table_entry (page_of paddr) flags);
  })
]

-- `*entry & ~(0x1ff)` of `unmap_page`, which is not the mask of `map_page`.
abbrev pub unmap_table : ℕ → ℕ
unmap_table entry = phys_to_virt (entry / 512 * 512)

-- Whether the first `n` entries of a table are 0.
pub all_zero : ℕ → ℕ → (ℕ → ℕ) → Bool
all_zero zero table words = true
all_zero (suc n) table words = let rest = all_zero n table words in words (at table n) == 0 && rest

-- The entry at `slot` is dropped with the table that it points to.
abbrev pub drop_table : ℕ → ℕ → Vm → Vm
drop_table slot table s = record s {
  words = put_word s.words slot 0;
  mm = pmm_free (virt_to_phys table) 1 s.mm;
}

-- From the first write on: the entry is cleared, and the tables that become empty are dropped.
pub clear_entry : ℕ → ℕ → ℕ → ℕ → ℕ → Vm → Vm
clear_entry vaddr pdpt pd pt slot s =
    let s1 = record s { words = put_word s.words slot 0 } in
    let s2 = drop_table (at pd (index 21 vaddr)) pt s1 in
    let s3 = drop_table (at pdpt (index 30 vaddr)) pd s2 in
    let s4 = drop_table (at s.pml4 (index 39 vaddr)) pdpt s3 in
    if not (all_zero 512 pt s1.words)
    then s1
    else (if not (all_zero 512 pd s2.words)
        then s2
        else (if not (all_zero 512 pdpt s3.words) then s3 else s4))

pub unmap_page : ℕ → Vm → Vm
unmap_page vaddr s =
    let e4 : ℕ = s.words (at s.pml4 (index 39 vaddr)) in
    let pdpt : ℕ = unmap_table e4 in
    let e3 : ℕ = s.words (at pdpt (index 30 vaddr)) in
    let pd : ℕ = unmap_table e3 in
    let e2 : ℕ = s.words (at pd (index 21 vaddr)) in
    let pt : ℕ = unmap_table e2 in
    let slot : ℕ = at pt (index 12 vaddr) in
    if is_present e4 && (is_present e3 && (is_present e2 && is_present (s.words slot)))
    then clear_entry vaddr pdpt pd pt slot s
    else s

-- The rounds of the two loops, `i` being the offset.
pub unmap_loop : ℕ → ℕ → ℕ → Vm → Vm
unmap_loop zero i vaddr s = s
unmap_loop (suc n) i vaddr s = unmap_loop n (i + page_size) vaddr (unmap_page (u64 (vaddr + i)) s)

pub vmm_unmap : ℕ → ℕ → Vm → Vm
vmm_unmap vaddr np s = unmap_loop ((u64 (np * page_size) + page_size - 1) / page_size) 0 vaddr s

unfoldable pub map_loop : ℕ → ℕ → ℕ → ℕ → ℕ → Vm → Option Vm
map_loop zero i vaddr paddr flags s = some s
map_loop (suc n) i vaddr paddr flags s =
    elim (map_page (u64 (vaddr + i)) (u64 (paddr + i)) flags s) [
      | none ↦ none
      | some s' ↦ map_loop n (i + page_size) vaddr paddr flags s'
    ]

unfoldable pub vmm_map : ℕ → ℕ → ℕ → ℕ → Vm → Option Vm
vmm_map vaddr paddr np flags s =
    map_loop ((u64 (np * page_size) + page_size - 1) / page_size) 0 vaddr paddr flags s

abbrev pub is_kernel : MemType → Bool
is_kernel kernel_and_modules = true
is_kernel _ = false

abbrev pub is_framebuffer : MemType → Bool
is_framebuffer framebuffer = true
is_framebuffer _ = false

-- The body of the loop of `vmm_init` over the memory map.
pub map_entry : ℕ → ℕ → Entry → Vm → Option Vm
map_entry virtual_base physical_base e s =
    if is_kernel e.type
    then vmm_map (u64 (virtual_base + e.base + 2 ^ 64 - physical_base)) e.base (num_pages e.len)
        vmm_flags_default s
    else (if is_framebuffer e.type
          || (not (is_usable e.type) && (leb mm_size e.base || ltb mm_size (u64 (e.base + e.len))))
        then vmm_map (phys_to_virt e.base) e.base (num_pages e.len) vmm_flags_default s
        else some s)

pub map_entries : ℕ → ℕ → List Entry → Vm → Option Vm
map_entries virtual_base physical_base [] s = some s
map_entries virtual_base physical_base (e ∷ es) s =
    elim (map_entry virtual_base physical_base e s) [
      | none ↦ none
      | some s' ↦ map_entries virtual_base physical_base es s'
    ]

-- `vmm_init`; `table` is the page that `kmalloc` returns for the root.
pub vmm_init : ℕ → ℕ → ℕ → List Entry → Vm → Option Vm
vmm_init table virtual_base physical_base entries s =
    let s1 = record s { pml4 = table; words = clear_page s.words table } in
    let n : ℕ = num_pages (min s.mm.phys_limit mm_size) in
    elim (vmm_map 0xffffffff80000000 0 n vmm_flags_usermode s1) [
      | none ↦ none
      | some s2 ↦ elim (vmm_map 0xffff800000000000 0 n vmm_flags_default s2) [
        | none ↦ none
        | some s3 ↦ map_entries virtual_base physical_base entries s3
      ]
    ]
