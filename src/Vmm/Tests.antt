-- ===== src/Vmm/Tests.antt =====
-- An address space with an empty root.
use Prim.{tt}
use han_os.Base.{
  ℕ, ◌+◌, ◌*◌, ◌/◌, ◌≡◌, refl, arith, Option, some, none, List, [], ◌==◌, if◌then◌else◌,
}
use han_os.Mm.{MemInfo}
use han_os.Mm.Pages.{AreBytes, page_free}
use han_os.Vmm.{Vm, is_present, map_page, upper_indices, index}
use han_os.Vmm.Room.{Room}
use han_os.Vmm.Walks.{lookup, Owns}
use han_os.Vmm.Maps.{map_page-lookup}

abbrev sixteen : MemInfo
sixteen = record {
  phys_limit = 0x10000;
  total_size = 0x10000;
  free_size = 0xc000;
  bitmap_base = 0;
  bitmap = λ i. if i == 0 then 0xfc else (if i == 1 then 0xff else 0);
}

abbrev empty : Vm
empty = record { words = λ b. 0; pml4 = 0xffff800000001000; mm = sixteen }

-- The root is the only table.
abbrev only_root : ℕ → Option (List ℕ)
only_root k = if k == 1 then some [] else none

sixteen-AreBytes : AreBytes sixteen.bitmap
sixteen-AreBytes i = ground arith

only_1 : (k : ℕ) (path : List ℕ) → only_root k ≡ some path → k ≡ 1
only_1 k path e = ground arith

empty-Owns : Owns empty 1 only_root
unfolding page_free is_present
empty-Owns = record {
  root_at = refl;
  root_owner = refl;
  low = λ k path e. (let one = only_1 k path e in omega (arith, one));
  points = λ k i path e short hi p. absurd (ground (arith, p));
  used = λ k path e. (let one = only_1 k path e in rw one refl);
  bytes = sixteen-AreBytes;
  limit = omega arith;
}

has_room : Room 3 0x10000 (page_free sixteen.bitmap)
unfolding Room page_free
has_room = (2, omega arith, refl, (3, omega arith, refl, (4, omega arith, refl, tt)))

map_page-lookup_example :
    (s' : Vm) × (owner' : ℕ → Option (List ℕ)) × (map_page 0x400000 0x5000 7 empty ≡ some s')
    × (lookup s'.words 1 (upper_indices 0x400000) (index 12 0x400000)
        ≡ some (0x5000 / 4096 * 4096 + 7))
    × (lookup s'.words 1 (upper_indices 0x800000) (index 12 0x800000)
        ≡ lookup empty.words 1 (upper_indices 0x800000) (index 12 0x800000))
    × Owns s' 1 owner'
map_page-lookup_example =
    map_page-lookup 0x400000 0x5000 7 0x800000 1 empty only_root empty-Owns has_room (omega arith)
      refl (omega arith)
