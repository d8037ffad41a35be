-- ===== src/Fb/Pixels.antt =====
-- Pixels that are read and written on a framebuffer with a back buffer of its own.
use native.Mathlib.Nat.{mul-le-mul_left}
use han_os.Base.{
  ℕ, ◌+◌, ◌*◌, ◌^◌, ◌≤◌, ◌<◌, ◌≡◌, ◌≢◌, inl, inr, refl, sym, ◌∙◌, true, false, ◌&&◌, ltb, ◌==◌,
  if◌then◌else◌, arith, Bool-cases,
}
use han_os.Fb.{Fb, fb_putpixel, fb_getpixel, tested, offset_of}

-- The rows of pixels follow one another inside the back buffer, which is not the screen.
pub record IsDrawable (fb : Fb) : Type 0 where
  pub apart : fb.addr ≢ fb.backbuffer
  pub row_fits : fb.width * 4 ≤ fb.pitch
  pub rows_fit : fb.pitch * fb.height ≤ fb.backbuffer_len
  pub len_in : fb.backbuffer_len < 2 ^ 32

-- Of two rows the pixels of the upper one come first.
row_above : (p x y x' y' : ℕ) → x * 4 < p → y < y' → p * y + x * 4 < p * y' + x' * 4
row_above p x y x' y' hx hy =
    let more : p * (y + 1) ≤ p * y' = mul-le-mul_left p (omega arith) in omega (arith, more)

-- The offset of a pixel on the screen.
abbrev place : Fb → ℕ → ℕ → ℕ
place fb x y = fb.pitch * y + x * 4

place-lt :
    (fb : Fb) (x y : ℕ)
    → IsDrawable fb
    → x < fb.width
    → y < fb.height
    → place fb x y < fb.backbuffer_len
place-lt fb x y d hx hy =
    let row = row_above fb.pitch x y 0 fb.height (omega (arith, d.row_fits)) hy in
    omega (arith, row, d.rows_fit)

offset_is :
    (fb : Fb) (x y : ℕ)
    → IsDrawable fb
    → x < fb.width
    → y < fb.height
    → offset_of fb x y ≡ place fb x y
offset_is fb x y d hx hy = let inside = place-lt fb x y d hx hy in omega (arith, inside, d.len_in)

tested_is :
    (fb : Fb) (x y : ℕ)
    → IsDrawable fb
    → x < fb.width
    → y < fb.height
    → tested fb x y ≡ place fb x y
tested_is fb x y d hx hy = let inside = place-lt fb x y d hx hy in omega (arith, inside, d.len_in)

place_ne :
    (fb : Fb) (x y x' y' : ℕ)
    → IsDrawable fb
    → x < fb.width
    → x' < fb.width
    → (x == x' && y == y') ≡ false
    → place fb x y ≢ place fb x' y'
place_ne fb x y x' y' d hx hx' other same = elim (Bool-cases (ltb y y')) [
  | inl above ↦
      let h = row_above fb.pitch x y x' y' (omega (arith, d.row_fits)) (ground arith) in
      omega (arith, h, same)
  | inr not_above ↦ elim (Bool-cases (ltb y' y)) [
    | inl below ↦
        let h = row_above fb.pitch x' y' x y (omega (arith, d.row_fits)) (ground arith) in
        omega (arith, h, same)
    | inr not_below ↦
        let row : y ≡ y' = ground arith in
        let column : x ≡ x' =
          (let e : fb.pitch * y' + x * 4 ≡ fb.pitch * y' + x' * 4 = rw row at same in
            omega (arith, e)) in
        ground arith
  ]
]

look_at :
    (fb : Fb) (x y : ℕ)
    → IsDrawable fb
    → x < fb.width
    → y < fb.height
    → fb_getpixel x y fb ≡ fb.back (place fb x y)
unfolding fb_getpixel
look_at fb x y d hx hy =
    let apart : (fb.addr == fb.backbuffer) ≡ false = ground (arith, d.apart) in
    let inside : ltb (place fb x y) fb.backbuffer_len ≡ true =
      ground (arith, place-lt fb x y d hx hy) in
    rw (apart, tested_is fb x y d hx hy, offset_is fb x y d hx hy, inside) refl

with_pixel : (fb : Fb) (x y color : ℕ) → Fb
with_pixel fb x y color = record fb { back = λ i. if i == place fb x y then color else fb.back i }

putpixel_is :
    (fb : Fb) (x y color : ℕ)
    → IsDrawable fb
    → x < fb.width
    → y < fb.height
    → fb_putpixel x y color fb ≡ with_pixel fb x y color
unfolding fb_putpixel with_pixel
putpixel_is fb x y color d hx hy =
    let apart : (fb.addr == fb.backbuffer) ≡ false = ground (arith, d.apart) in
    let inside : ltb (place fb x y) fb.backbuffer_len ≡ true =
      ground (arith, place-lt fb x y d hx hy) in
    rw (apart, tested_is fb x y d hx hy, offset_is fb x y d hx hy, inside) refl

-- What is on the screen of `s`, which has the shape of `fb`.
pub record Shows (fb s : Fb) (look : ℕ → ℕ → ℕ) : Type 0 where
  pub drawable : IsDrawable s
  pub same_width : s.width ≡ fb.width
  pub same_height : s.height ≡ fb.height
  pub pixels : (x y : ℕ) → x < fb.width → y < fb.height → fb_getpixel x y s ≡ look x y

read_after :
    (fb s : Fb) (look : ℕ → ℕ → ℕ) (x y color x2 y2 : ℕ)
    → Shows fb s look
    → x < s.width
    → y < s.height
    → x2 < fb.width
    → y2 < fb.height
    → fb_getpixel x2 y2 (with_pixel s x y color)
      ≡ (if x == x2 && y == y2 then color else look x2 y2)
unfolding with_pixel
read_after fb s look x y color x2 y2 h hx hy k2 l2 =
    let d = h.drawable in
    let k2' : x2 < s.width = omega (arith, k2, h.same_width) in
    let l2' : y2 < s.height = omega (arith, l2, h.same_height) in
    let d' : IsDrawable (with_pixel s x y color) = record {
      apart = d.apart;
      row_fits = d.row_fits;
      rows_fit = d.rows_fit;
      len_in = d.len_in;
    } in
    let old = sym (look_at s x2 y2 d k2' l2') ∙ h.pixels x2 y2 k2 l2 in
    look_at (with_pixel s x y color) x2 y2 d' k2' l2' ∙ elim (Bool-cases (x == x2 && y == y2)) [
      | inl here ↦
          let column : x ≡ x2 = ground arith in
          let row : y ≡ y2 = ground arith in
          let hit : (place s x2 y2 == place s x y) ≡ true = rw (column, row) (ground arith) in
          rw (here, hit) refl
      | inr away ↦
          let ne = place_ne s x y x2 y2 d hx k2' away in
          let miss : (place s x2 y2 == place s x y) ≡ false = ground (arith, ne) in
          rw (away, miss) old
    ]

-- One pixel is written.
pub Shows-putpixel :
    (fb s : Fb) (look : ℕ → ℕ → ℕ) (x y color : ℕ)
    → Shows fb s look
    → x < fb.width
    → y < fb.height
    → Shows fb (fb_putpixel x y color s) (λ x' y'. if x == x' && y == y' then color else look x' y')
unfolding with_pixel
Shows-putpixel fb s look x y color h hx hy =
    let d = h.drawable in
    let hx' : x < s.width = omega (arith, hx, h.same_width) in
    let hy' : y < s.height = omega (arith, hy, h.same_height) in
    rw (putpixel_is s x y color d hx' hy') (record {
      drawable = record {
        apart = d.apart;
        row_fits = d.row_fits;
        rows_fit = d.rows_fit;
        len_in = d.len_in;
      };
      same_width = h.same_width;
      same_height = h.same_height;
      pixels = λ x2 y2 k2 l2. read_after fb s look x y color x2 y2 h hx' hy' k2 l2;
    })
