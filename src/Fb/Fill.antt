-- ===== src/Fb/Fill.antt =====
-- Loops that write every pixel of some rows.
use han_os.Base.{
  ℕ, ◌+◌, ◌<◌, ◌≡◌, ◌∙◌, ◌&&◌, ltb, leb, ◌==◌, if◌then◌else◌, arith, for_loop, for_loop_inv,
}
use han_os.Fb.{Fb, fb_putpixel}
use han_os.Fb.Pixels.{Shows, Shows-putpixel}

-- One look of the screen for another.
pub Shows-look :
    (fb s : Fb) (look look' : ℕ → ℕ → ℕ)
    → Shows fb s look
    → ((x y : ℕ) → x < fb.width → y < fb.height → look x y ≡ look' x y)
    → Shows fb s look'
Shows-look fb s look look' h same = record {
  drawable = h.drawable;
  same_width = h.same_width;
  same_height = h.same_height;
  pixels = λ x y hx hy. h.pixels x y hx hy ∙ same x y hx hy;
}

-- Row `y` as far as column `j` has the colours `colour`.
abbrev pub part_row : (ℕ → ℕ → ℕ) → (ℕ → ℕ) → ℕ → ℕ → ℕ → ℕ → ℕ
part_row look colour y j x y' = if y' == y && ltb x j then colour x else look x y'

-- A loop over a row, which writes `colour x` at `x`; the colour may be read from the screen.
pub row_loop :
    (fb s : Fb) (look : ℕ → ℕ → ℕ) (colour : ℕ → ℕ) (y : ℕ) (source : ℕ → Fb → ℕ)
    → y < fb.height
    → ((x : ℕ) (s' : Fb)
        → x < fb.width
        → Shows fb s' (part_row look colour y x)
        → source x s' ≡ colour x)
    → Shows fb s look
    → Shows fb
        (for_loop fb.width (λ x s'. fb_putpixel x y (source x s') s') s)
        (part_row look colour y fb.width)
row_loop fb s look colour y source hy reads h =
    for_loop_inv (λ x s'. Shows fb s' (part_row look colour y x))
      (λ x s'. fb_putpixel x y (source x s') s') fb.width
      (λ x s' hx p.
        Shows-look fb _ _ _ (Shows-putpixel fb s' _ x y (source x s') p hx hy)
          (λ x2 y2 k l. ground (arith, reads x s' hx p)))
      s (Shows-look fb s look _ h (λ x y' hx' hy'. ground arith))

-- The rows from `top` on, `n` of them, have the look `new`.
abbrev pub rows_of : (ℕ → ℕ → ℕ) → (ℕ → ℕ → ℕ) → ℕ → ℕ → ℕ → ℕ → ℕ
rows_of look new top n x y = if leb top y && ltb y (top + n) then new x y else look x y

-- A loop over rows, each of which is written whole.
pub rows_loop :
    (fb s : Fb) (look new : ℕ → ℕ → ℕ) (top n : ℕ) (body : ℕ → Fb → Fb)
    → ((k : ℕ) (s' : Fb)
        → k < n
        → Shows fb s' (rows_of look new top k)
        → Shows fb
            (body k s')
            (part_row (rows_of look new top k) (λ x. new x (top + k)) (top + k) fb.width))
    → Shows fb s look
    → Shows fb (for_loop n body s) (rows_of look new top n)
rows_loop fb s look new top n body row h =
    for_loop_inv (λ k s'. Shows fb s' (rows_of look new top k)) body n
      (λ k s' hk p. Shows-look fb _ _ _ (row k s' hk p) (λ x y hx hy. ground arith)) s
      (Shows-look fb s look _ h (λ x y hx hy. ground arith))
