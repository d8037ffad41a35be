-- ===== src/Heap/Realloc.antt =====
-- What `kmrealloc` keeps of a block.
use han_os.Base.{
  ℕ, ◌+◌, ◌-◌, ◌*◌, ◌^◌, ◌≤◌, ◌<◌, ◌≡◌, ◌⊎◌, inl, inr, refl, sym, ◌∙◌, ap, true, false, ltb, leb,
  ◌==◌, if◌then◌else◌, arith, Bool-cases, Option-cases, some, none, min, subst,
}
use han_os.Mm.{num_pages}
use han_os.Mm.Pages.{page_free, in_run, all_free_elim}
use han_os.Text.{memcpy}
use han_os.Text.Block.{memcpy_lem}
use han_os.Heap.{Heap, meta_of, put_meta, kmalloc, kmfree, kmrealloc}
use han_os.Heap.Blocks.{IsReady, Made, kmalloc-Made, value_or}

-- A block of `size` bytes that was allocated: its pages are used, and its size is recorded.
pub record IsBlock (h : Heap) (addr page size : ℕ) : Type 0 where
  pub place : addr ≡ 0xffff800000000000 + page * 4096 + 4096
  pub inside : page * 4096 + size + 4096 < 2 ^ 47
  pub used : (q : ℕ) → in_run page (num_pages size + 1) q ≡ true → page_free h.mm.bitmap q ≡ false
  pub recorded : (h.meta (meta_of addr)).size ≡ size

-- The copy of the bytes, and the freeing of the old block.
moved : ℕ → ℕ → ℕ → Heap → Heap
moved addr new len h = kmfree addr (record h { bytes = memcpy new addr len h.bytes })

moved_bytes :
    (addr new len : ℕ) (h : Heap) → (moved addr new len h).bytes ≡ memcpy new addr len h.bytes
unfolding moved kmfree
moved_bytes addr new len h = refl

kmrealloc-same :
    (addr newsize size : ℕ) (h : Heap)
    → (addr == 0) ≡ false
    → (h.meta (meta_of addr)).size ≡ size
    → (num_pages size == num_pages newsize) ≡ true
    → kmrealloc addr newsize h
      ≡ some (
        addr,
        record h {
          meta =
              put_meta h.meta
                (meta_of addr)
                (record { numpages = num_pages newsize; size = newsize });
        },
      )
unfolding kmrealloc
kmrealloc-same addr newsize size h e size_is same = rw (e, size_is, same)

kmrealloc-none :
    (addr newsize size : ℕ) (h : Heap)
    → (addr == 0) ≡ false
    → (h.meta (meta_of addr)).size ≡ size
    → (num_pages size == num_pages newsize) ≡ false
    → kmalloc newsize h ≡ none
    → kmrealloc addr newsize h ≡ none
unfolding kmrealloc
kmrealloc-none addr newsize size h e size_is other panics =
    rw (e, size_is, other, panics, kmrealloc)

kmrealloc-moved :
    (addr newsize size new : ℕ) (h h1 : Heap)
    → (addr == 0) ≡ false
    → (h.meta (meta_of addr)).size ≡ size
    → (num_pages size == num_pages newsize) ≡ false
    → kmalloc newsize h ≡ some (new, h1)
    → kmrealloc addr newsize h
      ≡ some (new, moved addr new (if ltb newsize size then newsize else size) h1)
unfolding kmrealloc moved
kmrealloc-moved addr newsize size new h h1 e size_is other makes =
    rw (e, size_is, other, makes, kmrealloc, size_is) refl

-- The new block lies below the old one, or above its end.
apart :
    (addr page size new new_page newsize : ℕ) (h h1 : Heap)
    → IsBlock h addr page size
    → Made newsize h new new_page h1
    → (new ≤ addr) ⊎ (addr + size ≤ new)
apart addr page size new new_page newsize h h1 old b = elim (Bool-cases (ltb page new_page)) [
  | inr below ↦ (let le : new_page ≤ page = ground arith in inl (omega (arith, old.place, b.place)))
  | inl above ↦
      let free : page_free h.mm.bitmap new_page ≡ true =
        all_free_elim h.mm.bitmap new_page (num_pages newsize + 1) new_page b.were_free
          (ground arith) in
      elim (Bool-cases (in_run page (num_pages size + 1) new_page)) [
        | inl within ↦ absurd (ground (arith, free, old.used new_page within))
        | inr beyond ↦
            let past : page + num_pages size + 1 ≤ new_page = ground arith in
            let enough : size ≤ num_pages size * 4096 = omega (arith, old.inside) in
            inr (omega (arith, old.place, b.place))
      ]
]

-- A block that is made larger or smaller, and perhaps moved, keeps the bytes that both sizes have.
pub kmrealloc-bytes :
    (addr page size newsize p i : ℕ) (h h' : Heap)
    → IsReady newsize h
    → IsBlock h addr page size
    → kmrealloc addr newsize h ≡ some (p, h')
    → i < min size newsize
    → h'.bytes (p + i) ≡ h.bytes (addr + i)
kmrealloc-bytes addr page size newsize p i h h' r old e hi =
    let some_addr : (addr == 0) ≡ false = ground (arith, old.place) in
    elim (Bool-cases (num_pages size == num_pages newsize)) [
      | inl same ↦
          let it_is =
            ap (value_or (p, h'))
              (sym (kmrealloc-same addr newsize size h some_addr old.recorded same) ∙ e) in
          subst (λ (v : ℕ × Heap). v.1.bytes (v.0 + i) ≡ h.bytes (addr + i)) it_is refl
      | inr other ↦ elim (Option-cases (kmalloc newsize h)) [
        | inl panics ↦ absurd (
            ground (
              arith,
              sym (kmrealloc-none addr newsize size h some_addr old.recorded other panics) ∙ e,
            ))
        | inr ((new, h1), makes) ↦
            let len : ℕ = if ltb newsize size then newsize else size in
            let (new_page, b) = kmalloc-Made newsize new h h1 r makes in
            let it_is = ap (value_or (p, h')) (
              sym (kmrealloc-moved addr newsize size new h h1 some_addr old.recorded other makes)
              ∙ e) in
            let apart_by : (new ≤ addr) ⊎ (addr + len ≤ new) =
              ground (arith, apart addr page size new new_page newsize h h1 old b) in
            let copied = memcpy_lem new addr len (new + i) h1.bytes apart_by in
            subst (λ (v : ℕ × Heap). v.1.bytes (v.0 + i) ≡ h.bytes (addr + i)) it_is
              (rw (moved_bytes addr new len h1) (
                let from : leb new (new + i) ≡ true = ground arith in
                let to : ltb (new + i) (new + len) ≡ true = ground arith in
                let at : new + i - new ≡ i = omega arith in
                copied ∙ rw (from, to, at, b.same_bytes) refl))
      ]
    ]
