-- ===== src/Ring.antt =====
-- A byte ring of `cap` cells read as a queue. kernel/device/keyboard/keyboard.c and
-- kernel/lib/klog.c both keep one: they write at an end that steps round the array.
use han_os.Base.{
  ℕ, zero, suc, ◌+◌, ◌-◌, ◌≤◌, ◌<◌, ◌≡◌, ◌≢◌, refl, ap, ap₂, arith, List, [], ◌∷◌, ◌++◌, length,
  get_or, set, get_or-set_self, get_or-set_ne, ltb, ◌==◌, if◌then◌else◌,
}

-- One step round the ring.
abbrev pub step : ℕ → ℕ → ℕ
step cap i = if i + 1 == cap then 0 else i + 1

-- The cell `k` steps on.
abbrev pub ahead : ℕ → ℕ → ℕ → ℕ
ahead cap i k = if ltb (i + k) cap then i + k else i + k - cap

-- The `n` bytes from cell `i` on.
unfoldable pub window : ℕ → List ℕ → ℕ → ℕ → List ℕ
window cap buf i zero = []
window cap buf i (suc n) = get_or buf i 0 ∷ window cap buf (step cap i) n

pub length-window : (cap : ℕ) (buf : List ℕ) (i n : ℕ) → length (window cap buf i n) ≡ n
unfolding window
length-window cap buf i zero = refl
length-window cap buf i (suc n) = ap suc (length-window cap buf (step cap i) n)

-- A window that is not empty, seen from its first byte.
pub window_first :
    (cap : ℕ) (buf : List ℕ) (i n : ℕ)
    → n ≢ 0
    → window cap buf i n ≡ get_or buf i 0 ∷ window cap buf (step cap i) (n - 1)
unfolding window
window_first cap buf i zero h = absurd (h refl)
window_first cap buf i (suc n) h =
    let e : n ≡ suc n - 1 = omega arith in
    ap (λ k. get_or buf i 0 ∷ window cap buf (step cap i) k) e

-- A byte written just past a window that does not fill the ring makes the window longer.
pub window-set :
    (cap : ℕ) (buf : List ℕ) (x i n at : ℕ)
    → cap ≤ length buf
    → i < cap
    → n < cap
    → at ≡ ahead cap i n
    → window cap (set buf at x) i (suc n) ≡ window cap buf i n ++ (x ∷ [])
unfolding window
window-set cap buf x i zero at room hi hn e =
    let here : at ≡ i = ground arith in
    rw here (ap (λ v. v ∷ []) (get_or-set_self buf i x 0 (omega arith)))
window-set cap buf x i (suc n) at room hi hn e =
    let apart : at ≢ i = ground arith in
    let inside : step cap i < cap = ground arith in
    let there : at ≡ ahead cap (step cap i) n = ground arith in
    ap₂ ◌∷◌ (get_or-set_ne buf x 0 apart)
      (window-set cap buf x (step cap i) n at room inside (omega arith) there)
