-- ===== src/Mm/Alloc.antt =====
-- `pmm_alloc` and `pmm_free` of mm.c on the set of free pages.
use han_os.Base.{
  ℕ, zero, suc, ◌+◌, ◌-◌, ◌*◌, ◌/◌, ◌^◌, ◌<◌, ◌≡◌, refl, ◌∙◌, true, false, arith, if◌then◌else◌,
  u64, Bool-cases, inl, inr, ap,
}
use han_os.Mm.{
  MemInfo, page_size, markused_loop, free_one, free_loop, bitmap_isfree, bitmap_markused, pmm_alloc,
  pmm_free,
}
use han_os.Mm.Pages.{
  AreBytes, page_free, in_run, rounds_exact, all_free, isfree_loop-eq-all_free, all_free_elim,
  markused_loop-AreBytes, page_free-markused_loop, free_loop-AreBytes, page_free-free_loop,
  free_one_lem, page_free-free_one, free_one-AreBytes,
}

-- A run of pages whose end is a 64-bit address.
abbrev pub InRange : ℕ → ℕ → Type 0
InRange addr n = addr + n * page_size < 2 ^ 64

pub bitmap_isfree-eq-all_free :
    (m : MemInfo) (addr n : ℕ)
    → InRange addr n
    → bitmap_isfree m addr n ≡ all_free m.bitmap (addr / 4096) n
unfolding bitmap_isfree
bitmap_isfree-eq-all_free m addr n h =
    rw (rounds_exact addr n h) (isfree_loop-eq-all_free n addr m.bitmap)

-- What `pmm_alloc` returns, in terms of the run of pages.
pub pmm_alloc_lem :
    (addr n : ℕ) (m : MemInfo)
    → InRange addr n
    → pmm_alloc addr n m ≡ (
        if all_free m.bitmap (addr / 4096) n
        then (
          true,
          record m {
            bitmap = markused_loop n addr m.bitmap;
            free_size = u64 (m.free_size + 2 ^ 64 - n * 4096);
          },
        )
        else (false, m))
unfolding pmm_alloc bitmap_markused
pmm_alloc_lem addr n m h =
    let small : u64 (n * 4096) ≡ n * 4096 = omega arith in
    elim (Bool-cases (all_free m.bitmap (addr / 4096) n)) [
      | inl e ↦ rw (bitmap_isfree-eq-all_free m addr n h, e, rounds_exact addr n h, small)
      | inr e ↦ rw (bitmap_isfree-eq-all_free m addr n h, e)
    ]

-- `pmm_alloc` of a run of pages succeeds exactly when every page of the run is free. If it
-- succeeds, the pages of the run are used after it and every other page is as before; if it
-- fails, the state is as before.
pub pmm_alloc-pages :
    (addr n : ℕ) (m : MemInfo)
    → InRange addr n
    → AreBytes m.bitmap
    → ((pmm_alloc addr n m).0 ≡ all_free m.bitmap (addr / 4096) n)
      × ((pmm_alloc addr n m).0 ≡ true
          → (q : ℕ)
          → page_free (pmm_alloc addr n m).1.bitmap q
            ≡ (if in_run (addr / 4096) n q then false else page_free m.bitmap q))
      × ((pmm_alloc addr n m).0 ≡ false → (pmm_alloc addr n m).1 ≡ m)
pmm_alloc-pages addr n m h bytes = elim (Bool-cases (all_free m.bitmap (addr / 4096) n)) [
  | inl e ↦
      rw (pmm_alloc_lem addr n m h, e)
        (refl, λ _ q. page_free-markused_loop n addr m.bitmap q bytes, λ (p : true ≡ false). cc)
  | inr e ↦ rw (pmm_alloc_lem addr n m h, e) (refl, (λ (p : false ≡ true). cc), λ _. refl)
]

pub pmm_alloc-AreBytes :
    (addr n : ℕ) (m : MemInfo)
    → InRange addr n
    → AreBytes m.bitmap
    → AreBytes (pmm_alloc addr n m).1.bitmap
pmm_alloc-AreBytes addr n m h bytes = elim (Bool-cases (all_free m.bitmap (addr / 4096) n)) [
  | inl e ↦ rw (pmm_alloc_lem addr n m h, e) (markused_loop-AreBytes n addr m.bitmap bytes)
  | inr e ↦ rw (pmm_alloc_lem addr n m h, e) bytes
]

pub pmm_free_lem :
    (addr n : ℕ) (m : MemInfo) → InRange addr n → pmm_free addr n m ≡ free_loop n addr m
unfolding pmm_free
pmm_free_lem addr n m h = rw (rounds_exact addr n h)

pub pmm_free-AreBytes :
    (addr n : ℕ) (m : MemInfo)
    → InRange addr n
    → AreBytes m.bitmap
    → AreBytes (pmm_free addr n m).bitmap
pmm_free-AreBytes addr n m h bytes =
    rw (pmm_free_lem addr n m h) (free_loop-AreBytes n addr m h bytes)

-- `pmm_free` makes every page of the run free, and leaves every other page as it was.
pub pmm_free-pages :
    (addr n : ℕ) (m : MemInfo)
    → InRange addr n
    → AreBytes m.bitmap
    → (q : ℕ)
    → page_free (pmm_free addr n m).bitmap q
      ≡ (if in_run (addr / 4096) n q then true else page_free m.bitmap q)
pmm_free-pages addr n m h bytes q =
    rw (pmm_free_lem addr n m h) (page_free-free_loop n addr m q h bytes)

-- Freeing pages none of which is free counts each of them.
free_size-free_loop :
    (n i : ℕ) (m : MemInfo)
    → i + n * 4096 < 2 ^ 64
    → AreBytes m.bitmap
    → m.free_size < 2 ^ 64
    → ((q : ℕ) → in_run (i / 4096) n q ≡ true → page_free m.bitmap q ≡ false)
    → (free_loop n i m).free_size ≡ u64 (m.free_size + n * 4096)
unfolding free_loop
free_size-free_loop zero i m h bytes fits used = omega arith
free_size-free_loop (suc n) i m h bytes fits used =
    let first : (free_one i m).free_size ≡ u64 (m.free_size + 4096) =
      ground (arith, free_one_lem m i (omega arith), used (i / 4096) (ground arith)) in
    let later : (q : ℕ)
        → in_run ((i + 4096) / 4096) n q ≡ true
        → page_free (free_one i m).bitmap q ≡ false =
      λ q r. page_free-free_one m i q (omega arith) bytes ∙ ground (arith, used q (ground arith)) in
    free_size-free_loop n (i + 4096) (free_one i m) (omega arith)
      (free_one-AreBytes m i (omega arith) bytes) (omega arith) later
    ∙ omega arith

-- A run that `pmm_alloc` took and `pmm_free` gives back leaves every page, and the count of free
-- bytes, as before the call of `pmm_alloc`.
pub pmm_free-pmm_alloc :
    (addr n : ℕ) (m : MemInfo)
    → InRange addr n
    → AreBytes m.bitmap
    → m.free_size < 2 ^ 64
    → (pmm_alloc addr n m).0 ≡ true
    → ((q : ℕ) → page_free (pmm_free addr n (pmm_alloc addr n m).1).bitmap q ≡ page_free m.bitmap q)
      × ((pmm_free addr n (pmm_alloc addr n m).1).free_size ≡ m.free_size)
pmm_free-pmm_alloc addr n m h bytes fits done =
    let taken = pmm_alloc-pages addr n m h bytes in
    let bytes' = pmm_alloc-AreBytes addr n m h bytes in
    let free : all_free m.bitmap (addr / 4096) n ≡ true = ground (arith, taken.0) in
    let size : (pmm_alloc addr n m).1.free_size ≡ u64 (m.free_size + 2 ^ 64 - n * 4096) =
      rw (pmm_alloc_lem addr n m h, free) in
    (
      (λ q.
          pmm_free-pages addr n (pmm_alloc addr n m).1 h bytes' q
          ∙ ground (arith, taken.1 done q, all_free_elim m.bitmap (addr / 4096) n q free)),
      (ap (λ (s : MemInfo). s.free_size) (pmm_free_lem addr n (pmm_alloc addr n m).1 h)
          ∙ free_size-free_loop n addr (pmm_alloc addr n m).1 h bytes' (rw size (omega arith))
              (λ q r. taken.1 done q ∙ rw r)
          ∙ rw size (omega arith)),
    )
