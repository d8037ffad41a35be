-- ===== src/Vmm/Room.antt =====
-- Pages that are left for new tables.
use Prim.{Unit, tt}
use han_os.Base.{
  ℕ, zero, suc, ◌+◌, ◌*◌, ◌^◌, ◌<◌, ◌≡◌, ◌≢◌, inl, inr, ◌∙◌, Bool, true, false, ◌==◌, if◌then◌else◌,
  arith, Bool-cases, none,
}
use han_os.Mm.{MemInfo, pmm_get}
use han_os.Mm.Pages.{page_free, all_free}
use han_os.Mm.Get.{pmm_get-FirstFit}
use han_os.Vmm.Take.{Took}

abbrev pub without : ℕ → (ℕ → Bool) → ℕ → Bool
without p f q = if q == p then false else f q

-- At least `c` pages below `limit` are free.
unfoldable pub Room : ℕ → ℕ → (ℕ → Bool) → Type 0
Room zero limit f = Unit {0}
Room (suc c) limit f = (p : ℕ) × (p * 4096 < limit) × (f p ≡ true) × Room c limit (without p f)

Room-mono :
    (c limit : ℕ) (f g : ℕ → Bool)
    → ((q : ℕ) → f q ≡ true → g q ≡ true)
    → Room c limit f
    → Room c limit g
unfolding Room
Room-mono zero limit f g h r = tt
Room-mono (suc c) limit f g h (p, below, free, rest) = (
  p,
  below,
  h p free,
  Room-mono c limit (without p f) (without p g)
      (λ q e. (elim (Bool-cases (q == p)) [
        | inl here ↦ absurd (ground (arith, rw here at e))
        | inr away ↦ rw away (h q (rw away at e))
      ]))
      rest,
)

-- One page less.
Room-without : (c limit n : ℕ) (f : ℕ → Bool) → Room (suc c) limit f → Room c limit (without n f)
unfolding Room
Room-without zero limit n f r = tt
Room-without (suc c) limit n f (p, below, free, rest) = elim (Bool-cases (p == n)) [
  | inl here ↦ (let e : p ≡ n = ground arith in rw e at rest)
  | inr away ↦ (
    p,
    below,
    rw away free,
    Room-mono c limit (without n (without p f)) (without p (without n f))
        (λ q e. (elim (Bool-cases (q == n)) [
          | inl taken ↦ absurd (ground (arith, rw taken at e))
          | inr kept ↦ elim (Bool-cases (q == p)) [
            | inl first ↦ absurd (ground (arith, rw (kept, first) at e))
            | inr later ↦ rw (later, kept) (rw (kept, later) at e)
          ]
        ]))
        (Room-without c limit n (without p f) rest),
  )
]

-- Where a page is free, `pmm_get` finds one.
pub pmm_get-total :
    (c : ℕ) (mm : MemInfo)
    → mm.phys_limit + 3 * 4096 < 2 ^ 46
    → Room (suc c) mm.phys_limit (page_free mm.bitmap)
    → pmm_get 1 0 mm ≢ none
unfolding Room all_free
pmm_get-total c mm limit (p, below, free, rest) fails =
    let nowhere = (rw fails at (pmm_get-FirstFit 1 0 mm (omega arith))) in
    let used = nowhere p (omega (arith, below)) in ground (arith, free, used)

pub Room-Took :
    (c n : ℕ) (mm mm' : MemInfo)
    → Took mm mm' n
    → Room (suc c) mm.phys_limit (page_free mm.bitmap)
    → Room c mm'.phys_limit (page_free mm'.bitmap)
Room-Took c n mm mm' t r = rw t.same_limit (
    Room-mono c mm.phys_limit (without n (page_free mm.bitmap)) (page_free mm'.bitmap)
      (λ q e. (elim (Bool-cases (q == n)) [
        | inl here ↦ absurd (ground (arith, rw here at e))
        | inr away ↦ t.same_pages q (ground arith) ∙ rw away at e
      ]))
      (Room-without c mm.phys_limit n (page_free mm.bitmap) r))

pub Room-less : (c limit : ℕ) (f : ℕ → Bool) → Room (suc c) limit f → Room c limit f
unfolding Room
Room-less zero limit f r = tt
Room-less (suc c) limit f (p, below, free, rest) =
    (p, below, free, Room-less c limit (without p f) rest)
