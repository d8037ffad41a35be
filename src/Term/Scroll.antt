-- ===== src/Term/Scroll.antt =====
-- What scrolling and clearing make of the pixels.
use han_os.Base.{
  ℕ, ◌+◌, ◌-◌, ◌*◌, ◌^◌, ◌≤◌, ◌<◌, ◌≡◌, refl, ◌∙◌, false, ltb, if◌then◌else◌, arith, for_loop,
  fun_ext, ap,
}
use han_os.Fb.{Fb, fb_getpixel}
use han_os.Fb.Pixels.{Shows}
use han_os.Fb.Fill.{row_loop, rows_of, rows_loop, Shows-look}
use han_os.Term.{Term, scroll_rows, scroll_fb, term_clear, copy_row, fill_row, is_unknown}

-- The first loop: as far as row `top`, the rows are those 16 below.
copied :
    (fb s : Fb) (look : ℕ → ℕ → ℕ) (top : ℕ)
    → top + 16 ≤ fb.height
    → Shows fb s look
    → Shows fb (for_loop top (copy_row fb.width) s) (rows_of look (λ x y. look x (y + 16)) 0 top)
copied fb s look top h shown =
    rows_loop fb s look (λ x y. look x (y + 16)) 0 top (copy_row fb.width)
      (λ k s' hk p.
        Shows-look fb _ _ _
          (row_loop fb s' _ (λ x. look x (k + 16)) k (λ x. fb_getpixel x (k + 16)) (omega arith)
            (λ x s2 hx p2. p2.pixels x (k + 16) hx (omega arith) ∙ ground arith) p)
          (λ x y hx hy. ground arith))
      shown

-- The rows from `top` on get one colour.
filled :
    (fb s : Fb) (look : ℕ → ℕ → ℕ) (color top n : ℕ)
    → top + n ≤ fb.height
    → Shows fb s look
    → Shows fb
        (for_loop n (λ k. fill_row fb.width color (top + k)) s)
        (rows_of look (λ x y. color) top n)
filled fb s look color top n h shown =
    rows_loop fb s look (λ x y. color) top n (λ k. fill_row fb.width color (top + k))
      (λ k s' hk p.
        row_loop fb s' _ (λ x. color) (top + k) (λ x s2. color) (omega arith) (λ x s2 hx p2. refl)
          p)
      shown

-- A scroll of a terminal whose cursor is on the last line, or below it, moves the pixels up by one
-- line of text, and the rows from the old last line on get the background colour.
pub scroll_fb-Shows :
    (t : Term) (look : ℕ → ℕ → ℕ)
    → Shows t.fb t.fb look
    → 1 ≤ t.cursor_y
    → t.cursor_y * 16 ≤ t.fb.height
    → t.fb.height < 2 ^ 32
    → Shows t.fb
        (scroll_fb t)
        (λ x y. if ltb y ((t.cursor_y - 1) * 16) then look x (y + 16) else t.bgcolor)
unfolding scroll_fb
scroll_fb-Shows t look shown some_row fits small =
    let top : ℕ = (t.cursor_y - 1) * 16 in
    let top_is : scroll_rows t ≡ top = omega arith in
    let inside : top + 16 ≤ t.fb.height = omega arith in
    rw top_is (
      Shows-look t.fb _ _ _
        (filled t.fb _ _ t.bgcolor top (t.fb.height - top) (omega arith)
          (copied t.fb t.fb look top inside shown))
        (λ x y hx hy. ground arith))

-- Clearing gives every pixel the background colour.
pub term_clear-Shows :
    (t : Term) (look : ℕ → ℕ → ℕ)
    → is_unknown t.state ≡ false
    → Shows t.fb t.fb look
    → Shows t.fb (term_clear t).fb (λ x y. t.bgcolor)
unfolding term_clear
term_clear-Shows t look known shown =
    let rows : (λ (k : ℕ). fill_row t.fb.width t.bgcolor (0 + k)) ≡ fill_row t.fb.width t.bgcolor =
      fun_ext (λ k. ap (fill_row t.fb.width t.bgcolor) (omega arith)) in
    rw (known, ← rows)
      (Shows-look t.fb _ _ _ (filled t.fb t.fb look t.bgcolor 0 t.fb.height (omega arith) shown)
        (λ x y hx hy. ground arith))
