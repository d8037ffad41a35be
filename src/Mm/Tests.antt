-- ===== src/Mm/Tests.antt =====
-- Runs of mm.c on small memories, and its theorems at concrete inputs.
use han_os.Base.{
  ℕ, ◌+◌, ◌*◌, ◌/◌, ◌^◌, ◌<◌, ◌≤◌, ◌≡◌, refl, true, false, not, ◌&&◌, arith, some, none, List, [],
  ◌∷◌, if◌then◌else◌, ◌==◌,
}
use han_os.Mm.{
  MemInfo, Entry, usable, reserved, pmm_alloc, pmm_free, pmm_get, pmm_init, scan_entry, scan_limits,
  place_bitmap, virt_to_phys, num_pages,
}
use han_os.Mm.Pages.{AreBytes, page_free, in_run, all_free}
use han_os.Mm.Alloc.{pmm_alloc-pages, pmm_free-pmm_alloc}
use han_os.Mm.Account.{Accounts, count_free, pmm_alloc-Accounts, pmm_free-Accounts}
use han_os.Mm.Get.{FirstFit, pmm_get-FirstFit}
use han_os.Mm.Init.{
  Fits, has_room, covered, bitmap_size, bitmap_place, in_bitmap, pmm_init-Accounts, pmm_init-pages,
}

-- Sixteen pages; the first four and the last eight are free.
abbrev small : MemInfo
small = record {
  phys_limit = 0x10000;
  total_size = 0x10000;
  free_size = 0xc000;
  bitmap_base = 0;
  bitmap = λ i. if i == 0 then 0x0f else (if i == 1 then 0xff else 0);
}

small-AreBytes : AreBytes small.bitmap
small-AreBytes i = ground arith

small-Accounts : Accounts 16 small
unfolding count_free page_free
small-Accounts = record { bytes = small-AreBytes; counted = refl; addresses = omega arith }

get_skips_used : (let r = pmm_get 5 0 small in r ≡ some (0x8000, (pmm_alloc 0x8000 5 small).1))
unfolding pmm_get pmm_alloc
get_skips_used = refl

get_fails : pmm_get 9 0 small ≡ none
unfolding pmm_get
get_fails = refl

alloc_counts : (pmm_alloc 0x1000 2 small).1.free_size ≡ 0xa000
unfolding pmm_alloc
alloc_counts = refl

pmm_alloc-pages_example :
    ((pmm_alloc 0x1000 2 small).0 ≡ all_free small.bitmap 1 2)
    × ((pmm_alloc 0x1000 2 small).0 ≡ true
        → (q : ℕ)
        → page_free (pmm_alloc 0x1000 2 small).1.bitmap q
          ≡ (if in_run 1 2 q then false else page_free small.bitmap q))
    × ((pmm_alloc 0x1000 2 small).0 ≡ false → (pmm_alloc 0x1000 2 small).1 ≡ small)
pmm_alloc-pages_example = pmm_alloc-pages 0x1000 2 small (omega arith) small-AreBytes

alloc_succeeds : (pmm_alloc 0x1000 2 small).0 ≡ true
unfolding pmm_alloc
alloc_succeeds = refl

pmm_free-pmm_alloc_example :
    ((q : ℕ)
      → page_free (pmm_free 0x1000 2 (pmm_alloc 0x1000 2 small).1).bitmap q
        ≡ page_free small.bitmap q)
    × ((pmm_free 0x1000 2 (pmm_alloc 0x1000 2 small).1).free_size ≡ 0xc000)
pmm_free-pmm_alloc_example =
    pmm_free-pmm_alloc 0x1000 2 small (omega arith) small-AreBytes (omega arith) alloc_succeeds

pmm_alloc-Accounts_example : Accounts 16 (pmm_alloc 0x1000 2 small).1
pmm_alloc-Accounts_example = pmm_alloc-Accounts 0x1000 2 16 small (omega arith) small-Accounts

pmm_free-Accounts_example : Accounts 16 (pmm_free 0x3000 3 small)
pmm_free-Accounts_example = pmm_free-Accounts 0x3000 3 16 small (omega arith) small-Accounts

pmm_get-FirstFit_example : FirstFit small 5 0 16 (pmm_get 5 0 small)
pmm_get-FirstFit_example = pmm_get-FirstFit 5 0 small (omega arith)

-- Four MiB, of which the upper two are usable.
abbrev map : List Entry
map =
    record { base = 0; len = 0x200000; type = reserved }
    ∷ record { base = 0x200000; len = 0x200000; type = usable }
    ∷ []

abbrev unset : MemInfo
unset = record { phys_limit = 0; total_size = 0; free_size = 0; bitmap_base = 0; bitmap = λ i. 0 }

abbrev blank : ℕ → ℕ → ℕ
blank a i = 0

map-has_room : has_room (bitmap_size map unset) map ≡ true
unfolding has_room scan_limits scan_entry
map-has_room = refl

map-Fits : Fits (bitmap_size map unset * 8) map
unfolding scan_limits scan_entry
map-Fits = ((λ h. cc), ((λ h. omega arith), tt))

map_small : (scan_limits map unset).phys_limit < 2 ^ 64
unfolding scan_limits scan_entry
map_small = omega arith

map_inside :
    virt_to_phys (bitmap_place map unset) / 4096 + num_pages (bitmap_size map unset)
    ≤ bitmap_size map unset * 8
unfolding scan_limits scan_entry place_bitmap
map_inside = omega arith

pmm_init-Accounts_example : Accounts (bitmap_size map unset * 8) (pmm_init blank map unset)
pmm_init-Accounts_example =
    pmm_init-Accounts blank map unset (λ a i. omega arith) map_small map-Fits map-has_room
      map_inside

map_pages : 600 < bitmap_size map unset * 8
unfolding scan_limits scan_entry
map_pages = omega arith

pmm_init-pages_example :
    page_free (pmm_init blank map unset).bitmap 600
    ≡ (covered map 600 && not (in_bitmap map unset 600))
pmm_init-pages_example =
    pmm_init-pages blank map unset (λ a i. omega arith) map_small map-Fits map-has_room map_inside
      600 map_pages
