-- ===== src/Fb.antt =====
-- kernel/device/display/fb.c: a framebuffer with its back buffer. Both are functions from byte
-- offsets to 32-bit pixels; a buffer's pointer is kept as its address, since the code compares the
-- two. The font table of asc16.c is an argument.
pub mod Pixels
pub mod Fill
use han_os.Base.{
  ℕ, zero, suc, ◌+◌, ◌*◌, ◌/◌, Bool, true, false, Option, none, some, List, [], ◌∷◌, ltb, ◌==◌,
  if◌then◌else◌, u32, bit_and, nonzero, for_loop,
}

abbrev pub default_fgcolor : ℕ
default_fgcolor = 0xC0C0C0

abbrev pub default_bgcolor : ℕ
default_bgcolor = 0x000000

-- `fb_info_t`, with what the two buffers hold.
pub record Fb : Type 0 where
  pub addr : ℕ
  pub width : ℕ
  pub height : ℕ
  pub pitch : ℕ
  pub backbuffer : ℕ
  pub backbuffer_len : ℕ
  pub front : ℕ → ℕ
  pub back : ℕ → ℕ

-- `fb->pitch * y + x * 4`, the offset that is tested, and the one that is accessed.
abbrev pub tested : Fb → ℕ → ℕ → ℕ
tested fb x y = u32 (u32 (fb.pitch * y) + u32 (x * 4))

abbrev pub offset_of : Fb → ℕ → ℕ → ℕ
offset_of fb x y = u32 (fb.pitch * y) + x * 4

pub fb_putpixel : ℕ → ℕ → ℕ → Fb → Fb
fb_putpixel x y color fb =
    if fb.addr == fb.backbuffer
    then fb
    else (if ltb (tested fb x y) fb.backbuffer_len
        then record fb { back = λ i. if i == offset_of fb x y then color else fb.back i }
        else fb)

pub fb_getpixel : ℕ → ℕ → Fb → ℕ
fb_getpixel x y fb =
    if fb.addr == fb.backbuffer
    then 0
    else (if ltb (tested fb x y) fb.backbuffer_len then fb.back (offset_of fb x y) else 0)

-- The masks of `fb_putch`, from the left.
abbrev pub mask_of : ℕ → ℕ
mask_of zero = 128
mask_of (suc k) = mask_of k / 2

-- `fb_putch`: 16 rows of 8 pixels.
pub fb_putch : (ℕ → ℕ) → ℕ → ℕ → ℕ → ℕ → ℕ → Fb → Fb
fb_putch font x y fgcolor bgcolor ch fb =
    if fb.addr == fb.backbuffer
    then fb
    else for_loop 16
        (λ i. for_loop 8 (λ k.
          fb_putpixel (u32 (x + k)) (u32 (y + i))
            (if nonzero (bit_and (font (ch * 16 + i)) (mask_of k)) then fgcolor else bgcolor)))
        fb

-- `fb_putzh` draws nothing: its body is disabled.
pub fb_putzh : Fb → Fb
fb_putzh fb = fb

-- The pixels of the back buffer are copied to the screen.
pub fb_refresh : Fb → Fb
fb_refresh fb =
    if fb.addr == fb.backbuffer
    then fb
    else record fb { front = λ i. if ltb i fb.backbuffer_len then fb.back i else fb.front i }

-- `fb_init(fb, NULL)`; `buffer` is the block that `kmalloc` returns, and `held` what is in it.
pub fb_init_back : ℕ → (ℕ → ℕ) → Fb → Fb
fb_init_back buffer held fb =
    if fb.addr == fb.backbuffer
    then record fb {
      backbuffer = buffer;
      back = λ i. if ltb i fb.backbuffer_len then fb.front i else held i;
    }
    else fb

-- `fb_init(fb, s)` with the address, width, height and pitch of `s`; `screen` is what the memory at
-- that address holds. While the back buffer is the screen itself nothing is drawn.
pub fb_init : ℕ → ℕ → ℕ → ℕ → (ℕ → ℕ) → Fb → Fb
fb_init address width height pitch screen fb =
    let fb' = record fb {
      addr = address;
      width = u32 width;
      height = u32 height;
      pitch = u32 pitch;
      backbuffer_len = u32 (u32 height * u32 pitch);
      backbuffer = address;
      front = screen;
      back = screen;
    } in
    fb_refresh
      (for_loop fb'.width (λ x. for_loop fb'.height (λ y. fb_putpixel x y default_bgcolor)) fb')
