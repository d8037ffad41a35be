-- ===== src/Mm/Init.antt =====
-- `pmm_init` of mm.c: which pages are free after it, and that the count is right.
use han_os.Base.{
  ℕ, zero, suc, ◌+◌, ◌*◌, ◌/◌, ◌^◌, ◌≤◌, ◌<◌, ◌≡◌, refl, ◌∙◌, Bool, true, false, not, ◌&&◌, ◌||◌,
  arith, Bool-cases, inl, inr, List, [], ◌∷◌, if◌then◌else◌, ltb, leb, ◌%◌,
}
use han_os.Mm.{
  MemInfo, Entry, num_pages, phys_to_virt, virt_to_phys, is_low, is_usable, scan_entry, scan_limits,
  place_bitmap, populate, cleared, pmm_init, pmm_free,
}
use han_os.Mm.Pages.{AreBytes, page_free, in_run, all_free, all_free_intro}
use han_os.Mm.Bits.{bit_set_zero}
use han_os.Mm.Alloc.{pmm_alloc-pages, pmm_free-pages}
use han_os.Mm.Account.{Accounts, count_free, pmm_free-Accounts, pmm_alloc-Accounts}

-- The entries that `pmm_init` frees: usable, and above 1 MiB.
abbrev pub takes : Entry → Bool
takes e = not (is_low e) && is_usable e.type

-- Page `q` belongs to an entry that `pmm_init` frees.
pub covered : List Entry → ℕ → Bool
covered [] q = false
covered (e ∷ es) q = (takes e && in_run (e.base / 4096) (num_pages e.len) q) || covered es q

-- Every entry that is freed ends below page `limit`, and its numbers do not wrap.
abbrev pub Fits : ℕ → List Entry → Type 0
Fits limit [] = Unit {0}
Fits limit (e ∷ es) =
    (takes e ≡ true → (e.base / 4096 + num_pages e.len ≤ limit) × (e.base + e.len + 4096 < 2 ^ 64))
    × Fits limit es

-- The bitmap finds room in an entry that is freed.
unfoldable pub has_room : ℕ → List Entry → Bool
has_room bm_size [] = false
has_room bm_size (e ∷ es) =
    (not (is_low e) && (leb bm_size e.len && is_usable e.type)) || has_room bm_size es

or_chain :
    (a b c : Bool) → (if a then true else (if b then true else c)) ≡ (if b || a then true else c)
or_chain a b c = ground arith

or_false : (a : Bool) → (if a then true else false) ≡ a
or_false a = ground arith

and_not : (a b : Bool) → (if a then false else b) ≡ (b && not a)
and_not a b = ground arith

-- One round of the third loop.
abbrev freed : Entry → MemInfo → MemInfo
freed e m = if takes e then pmm_free e.base (num_pages e.len) m else m

freed-Accounts :
    (limit : ℕ) (e : Entry) (m : MemInfo)
    → (takes e ≡ true → e.base / 4096 + num_pages e.len ≤ limit)
    → Accounts limit m
    → Accounts limit (freed e m)
freed-Accounts limit e m f a = elim (Bool-cases (takes e)) [
  | inl t ↦ rw t (pmm_free-Accounts e.base (num_pages e.len) limit m (f t) a)
  | inr t ↦ rw t a
]

page_free-freed :
    (limit : ℕ) (e : Entry) (m : MemInfo) (q : ℕ)
    → (takes e ≡ true → e.base / 4096 + num_pages e.len ≤ limit)
    → Accounts limit m
    → page_free (freed e m).bitmap q ≡ (
        if takes e && in_run (e.base / 4096) (num_pages e.len) q
        then true
        else page_free m.bitmap q)
page_free-freed limit e m q f a = elim (Bool-cases (takes e)) [
  | inl t ↦
      rw t (pmm_free-pages e.base (num_pages e.len) m (omega (arith, f t, a.addresses)) a.bytes q)
  | inr t ↦ rw t
]

populate-Accounts :
    (limit : ℕ) (es : List Entry) (m : MemInfo)
    → Fits limit es
    → Accounts limit m
    → Accounts limit (populate es m)
unfolding populate
populate-Accounts limit [] m f a = a
populate-Accounts limit (e ∷ es) m f a =
    populate-Accounts limit es (freed e m) f.1 (freed-Accounts limit e m (λ t. (f.0 t).0) a)

page_free-populate :
    (limit : ℕ) (es : List Entry) (m : MemInfo) (q : ℕ)
    → Fits limit es
    → Accounts limit m
    → page_free (populate es m).bitmap q ≡ (if covered es q then true else page_free m.bitmap q)
unfolding populate covered
page_free-populate limit [] m q f a = refl
page_free-populate limit (e ∷ es) m q f a =
    page_free-populate limit es (freed e m) q f.1 (freed-Accounts limit e m (λ t. (f.0 t).0) a)
    ∙ rw (page_free-freed limit e m q (λ t. (f.0 t).0) a)
        (or_chain (covered es q) (takes e && in_run (e.base / 4096) (num_pages e.len) q) _)

-- The pages of the bitmap lie in the entry that it is placed in.
place_bitmap-covered :
    (limit bm_size base : ℕ) (es : List Entry)
    → Fits limit es
    → has_room bm_size es ≡ true
    → (q : ℕ)
    → in_run (virt_to_phys (place_bitmap bm_size es base) / 4096) (num_pages bm_size) q ≡ true
    → covered es q ≡ true
unfolding place_bitmap has_room covered
place_bitmap-covered limit bm_size base [] f room q r = cc
place_bitmap-covered limit bm_size base (e ∷ es) f room q r =
    elim (Bool-cases (not (is_low e) && (leb bm_size e.len && is_usable e.type))) [
      | inl here ↦
          let t : takes e ≡ true = ground arith in
          let size : bm_size ≤ e.len = ground arith in
          let at : place_bitmap bm_size (e ∷ es) base ≡ phys_to_virt e.base = rw here in
          let r' : in_run (virt_to_phys (phys_to_virt e.base) / 4096) (num_pages bm_size) q ≡ true =
            rw at at r in
          let inside : in_run (e.base / 4096) (num_pages e.len) q ≡ true = ground (arith, f.0 t) in
          rw (t, inside)
      | inr there ↦
          let later : place_bitmap bm_size (e ∷ es) base ≡ place_bitmap bm_size es base =
            rw there in
          let r' : in_run (virt_to_phys (place_bitmap bm_size es base) / 4096) (num_pages bm_size) q
              ≡ true =
            rw later at r in
          let more : has_room bm_size (e ∷ es) ≡ has_room bm_size es = rw there in
          let room' : has_room bm_size es ≡ true = rw more at room in
          rw (place_bitmap-covered limit bm_size base es f.1 room' q r') (ground arith)
    ]

-- The first loop leaves the count of free bytes alone.
scan_entry-free_size : (e : Entry) (m : MemInfo) → (scan_entry e m).free_size ≡ m.free_size
unfolding scan_entry
scan_entry-free_size e m = ground arith

scan_limits-free_size : (es : List Entry) (m : MemInfo) → (scan_limits es m).free_size ≡ m.free_size
unfolding scan_limits
scan_limits-free_size [] m = refl
scan_limits-free_size (e ∷ es) m =
    scan_limits-free_size es (scan_entry e m) ∙ scan_entry-free_size e m

-- The state before the first loop, and the bytes of the bitmap.
abbrev pub reset : MemInfo → MemInfo
reset m = record m { phys_limit = 0; total_size = 0; free_size = 0 }

abbrev pub bitmap_size : List Entry → MemInfo → ℕ
bitmap_size es m = (scan_limits es (reset m)).phys_limit / 32768

abbrev pub bitmap_place : List Entry → MemInfo → ℕ
bitmap_place es m = place_bitmap (bitmap_size es m) es (scan_limits es (reset m)).bitmap_base

-- The state with the bitmap in place and cleared.
abbrev placed : (ℕ → ℕ → ℕ) → List Entry → MemInfo → MemInfo
placed ram es m = record (scan_limits es (reset m)) {
  bitmap_base = bitmap_place es m;
  bitmap = cleared (bitmap_size es m) (ram (bitmap_place es m));
}

page_free-cleared :
    (size : ℕ) (bm : ℕ → ℕ) (q : ℕ) → q < size * 8 → page_free (cleared size bm) q ≡ false
unfolding page_free
page_free-cleared size bm q h =
    let inside : ltb (q / 8) size ≡ true = ground arith in
    rw inside (bit_set_zero (q % 8) (omega arith))

count_free-cleared :
    (size : ℕ) (bm : ℕ → ℕ) (limit : ℕ) → limit ≤ size * 8 → count_free (cleared size bm) limit ≡ 0
unfolding count_free
count_free-cleared size bm zero h = refl
count_free-cleared size bm (suc limit) h = ground (
  arith,
  page_free-cleared size bm limit (omega arith),
  count_free-cleared size bm limit (omega arith),
)

placed-Accounts :
    (ram : ℕ → ℕ → ℕ) (es : List Entry) (m : MemInfo)
    → ((a : ℕ) → AreBytes (ram a))
    → (scan_limits es (reset m)).phys_limit < 2 ^ 64
    → Accounts (bitmap_size es m * 8) (placed ram es m)
placed-Accounts ram es m bytes fits = record {
  bytes = λ i. ground (arith, bytes (bitmap_place es m) i);
  counted =
      scan_limits-free_size es (reset m)
      ∙ omega (
        arith,
        count_free-cleared (bitmap_size es m) (ram (bitmap_place es m)) (bitmap_size es m * 8)
            (omega arith),
      );
  addresses = omega arith;
}

-- The pages of the bitmap itself.
abbrev pub in_bitmap : List Entry → MemInfo → ℕ → Bool
in_bitmap es m = in_run (virt_to_phys (bitmap_place es m) / 4096) (num_pages (bitmap_size es m))

module _ (ram : ℕ → ℕ → ℕ) (es : List Entry) (m : MemInfo) (bytes : (a : ℕ) → AreBytes (ram a))
    (small : (scan_limits es (reset m)).phys_limit < 2 ^ 64) (fits : Fits (bitmap_size es m * 8) es)
    (room : has_room (bitmap_size es m) es ≡ true)
    (inside : virt_to_phys (bitmap_place es m) / 4096 + num_pages (bitmap_size es m)
      ≤ bitmap_size es m * 8) where
  -- After `pmm_init` the count of free bytes is right, for a memory map whose freed entries end
  -- within the pages that the bitmap has bits for, and which has room for the bitmap.
  pub pmm_init-Accounts : Accounts (bitmap_size es m * 8) (pmm_init ram es m)
  unfolding pmm_init
  pmm_init-Accounts =
      pmm_alloc-Accounts _ _ _ _ inside
        (populate-Accounts _ es _ fits (placed-Accounts ram es m bytes small))

  -- Under the same conditions a page that the bitmap has a bit for is free after `pmm_init`
  -- exactly when a usable entry above 1 MiB covers it and it does not hold the bitmap itself.
  pub pmm_init-pages :
      (q : ℕ)
      → q < bitmap_size es m * 8
      → page_free (pmm_init ram es m).bitmap q ≡ (covered es q && not (in_bitmap es m q))
  unfolding pmm_init
  pmm_init-pages q h =
      let a = populate-Accounts _ es _ fits (placed-Accounts ram es m bytes small) in
      let before : (p : ℕ)
          → p < bitmap_size es m * 8
          → page_free (populate es (placed ram es m)).bitmap p ≡ covered es p =
        λ p lt.
          page_free-populate _ es _ p fits (placed-Accounts ram es m bytes small)
          ∙ rw (page_free-cleared _ _ p lt) (or_false (covered es p)) in
      let free : all_free (populate es (placed ram es m)).bitmap
            (virt_to_phys (bitmap_place es m) / 4096) (num_pages (bitmap_size es m))
          ≡ true =
        all_free_intro _ _ _
          (λ p r. before p (ground arith) ∙ place_bitmap-covered _ _ _ es fits room p r) in
      let taken =
        pmm_alloc-pages (virt_to_phys (bitmap_place es m)) (num_pages (bitmap_size es m))
          (populate es (placed ram es m)) (omega (arith, a.addresses)) a.bytes in
      taken.1 (taken.0 ∙ free) q ∙ rw (before q h) (and_not (in_bitmap es m q) (covered es q))
