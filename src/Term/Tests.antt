-- ===== src/Term/Tests.antt =====
-- A terminal of ten columns and four rows.
use han_os.Base.{◌+◌, ◌*◌, ◌≡◌, refl, false, some, [], ◌∷◌, replicate, arith, ltb, if◌then◌else◌}
use han_os.Fb.{Fb, fb_getpixel}
use han_os.Fb.Pixels.{IsDrawable, Shows}
use han_os.Term.{Term, idle, term_print, term_putch, scroll_fb}
use han_os.Term.Cursor.{Fits, Printed}
use han_os.Term.Print.{term_print-Printed}
use han_os.Term.Escape.{IsValid, Put, term_putch-Put}
use han_os.Term.Colors.{putch_all, between, putch_all-set_color}
use han_os.Term.Scroll.{scroll_fb-Shows}

abbrev screen : Fb
screen = record {
  addr = 4096;
  width = 80;
  height = 64;
  pitch = 320;
  backbuffer = 8192;
  backbuffer_len = 20480;
  front = λ i. 0;
  back = λ i. i;
}

abbrev terminal : Term
terminal = record {
  fb = screen;
  fgcolor = 7;
  bgcolor = 0;
  width = 10;
  height = 4;
  cursor_x = 9;
  cursor_y = 3;
  state = idle;
  cparams = replicate 16 0;
  cparamcount = 0;
  lastch = 0;
  last_qu_char = false;
}

terminal-Fits : Fits terminal
terminal-Fits = ground arith

terminal-IsValid : IsValid terminal
terminal-IsValid = record {
  fits = terminal-Fits;
  sixteen = refl;
  counted = omega arith;
  one_param = λ e. ground arith;
  held_back = λ e. ground arith;
}

screen-IsDrawable : IsDrawable screen
screen-IsDrawable = ground arith

screen-Shows : Shows screen screen (λ x y. fb_getpixel x y screen)
screen-Shows = record {
  drawable = screen-IsDrawable;
  same_width = refl;
  same_height = refl;
  pixels = λ x y hx hy. refl;
}

term_print-Printed_example :
    (t' : Term) × (term_print (λ i. i) b'A' terminal ≡ some t') × Printed terminal t'
term_print-Printed_example = term_print-Printed (λ i. i) b'A' terminal terminal-Fits

term_putch-Put_example : Put b'A' terminal (term_putch (λ i. i) b'A' terminal)
term_putch-Put_example = term_putch-Put (λ i. i) b'A' terminal terminal-IsValid

scroll_fb-Shows_example :
    Shows screen
      (scroll_fb terminal)
      (λ x y. if ltb y (2 * 16) then fb_getpixel x (y + 16) screen else 0)
scroll_fb-Shows_example =
    scroll_fb-Shows terminal (λ x y. fb_getpixel x y screen) screen-Shows (omega arith)
      (omega arith) (omega arith)

-- The colour 12.
putch_all-set_color_example :
    putch_all (λ i. i) (b'?' ∷ b'[' ∷ 49 ∷ 50 ∷ b'm' ∷ []) (between terminal 5 [])
    ≡ some (record terminal {
      fgcolor = 0x77FF77;
      state = idle;
      last_qu_char = false;
      cparams = 12 ∷ [];
      cparamcount = 0;
    })
putch_all-set_color_example =
    putch_all-set_color (λ i. i) 1 2 5 terminal [] (omega arith) (omega arith)
