-- ===== src/Term.antt =====
-- kernel/device/display/term.c: a terminal on a framebuffer. The functions work on the terminal that
-- their `mode` names; the two terminals share nothing but the static variables of `Terms`.
pub mod Cursor
pub mod Print
pub mod Escape
pub mod Colors
pub mod Scroll
pub mod Terms
mod Tests
use han_os.Base.{
  ℕ, zero, suc, ◌+◌, ◌-◌, ◌*◌, ◌/◌, ◌%◌, ◌^◌, Bool, true, false, not, ◌&&◌, ◌||◌, Option, none,
  some, List, [], ◌∷◌, length, get_or, set, ltb, leb, ◌==◌, if◌then◌else◌, u32, for_loop,
}
use han_os.Fb.{
  Fb, fb_putpixel, fb_getpixel, fb_putch, fb_putzh, fb_refresh, fb_init, fb_init_back,
  default_fgcolor, default_bgcolor,
}

pub data State : Type 0 where
  unknown idle cmd param : State

-- `term_info_t`
pub record Term : Type 0 where
  pub fb : Fb
  pub fgcolor : ℕ
  pub bgcolor : ℕ
  pub width : ℕ
  pub height : ℕ
  pub cursor_x : ℕ
  pub cursor_y : ℕ
  pub state : State
  pub cparams : List ℕ
  pub cparamcount : ℕ
  pub lastch : ℕ
  pub last_qu_char : Bool

abbrev pub font_width : ℕ
font_width = 8

abbrev pub font_height : ℕ
font_height = 16

abbrev pub font_colors : List ℕ
font_colors = 0x000000 ∷ 0xFF7777 ∷ 0x77FF77 ∷ 0xFFFF77 ∷ 0x7777FF ∷ 0xC0C0C0 ∷ []

abbrev pub is_unknown : State → Bool
is_unknown unknown = true
is_unknown _ = false

-- What a function returns with the terminal: `none` is an access outside `cparams`.
abbrev pub Result : Type 0
Result = Option (Bool × Term)

-- The labels `err` and `succ`.
abbrev pub err : Term → Result
err t = some (false, record t { state = idle; cparamcount = 0 })

abbrev pub succ : Term → Result
succ t = some (true, record t { state = idle; cparamcount = 0 })

-- The colours that a parameter selects.
pub set_color : ℕ → Term → Term
set_color p t =
    if p == 0
    then record t { fgcolor = default_fgcolor; bgcolor = default_bgcolor }
    else (if leb 10 p && leb p 15
        then record t { fgcolor = get_or font_colors (p - 10) 0 }
        else (if leb 20 p && leb p 25
            then record t { bgcolor = get_or font_colors (p - 20) 0 }
            else t))

-- The branch of STATE_PARAM. A number that leaves 32 bits is undefined in C; it wraps here.
pub parse_param : ℕ → Term → Result
parse_param byte t =
    if byte == b';'
    then (if ltb t.cparamcount (length t.cparams)
        then some (
          true,
          record t { cparams = set t.cparams t.cparamcount 0; cparamcount = t.cparamcount + 1 },
        )
        else none)
    else (if byte == b'm'
        then succ (set_color (get_or t.cparams 0 0) t)
        else (if leb b'0' byte && leb byte b'9'
            then (let i : ℕ = t.cparamcount - 1 in
                some (
                  true,
                  record t {
                    cparams = set t.cparams i (u32 (get_or t.cparams i 0 * 10 + (byte - b'0')));
                  },
                ))
            else err t))

pub parse_state : State → ℕ → Term → Result
parse_state unknown byte t = err t
parse_state idle byte t =
    if byte == b'?'
    then (if not t.last_qu_char
        then some (true, record t { state = cmd; last_qu_char = true })
        else err (record t { last_qu_char = false }))
    else err t
parse_state cmd byte t =
    if byte == b'['
    then some (true, record t { cparamcount = 1; cparams = set t.cparams 0 0; state = param })
    else err t
parse_state param byte t = parse_param byte t

pub term_parse_cmd : ℕ → Term → Result
term_parse_cmd byte t =
    if is_unknown t.state
    then some (false, t)
    else (if ltb 0xA0 byte && t.lastch == 0
        then succ (record t { lastch = byte })
        else parse_state t.state byte t)

-- A row of pixels copied from the row 16 below, and a row of one colour.
abbrev pub copy_row : ℕ → ℕ → Fb → Fb
copy_row width y = for_loop width (λ x s. fb_putpixel x y (fb_getpixel x (y + font_height) s) s)

abbrev pub fill_row : ℕ → ℕ → ℕ → Fb → Fb
fill_row width color y = for_loop width (λ x s. fb_putpixel x y color s)

-- `(cursor_y - 1) * FONT_HEIGHT`
abbrev pub scroll_rows : Term → ℕ
scroll_rows t = u32 (u32 (t.cursor_y + 2 ^ 32 - 1) * font_height)

pub scroll_fb : Term → Fb
scroll_fb t =
    let top : ℕ = scroll_rows t in
    for_loop (t.fb.height - top) (λ k. fill_row t.fb.width t.bgcolor (top + k))
      (for_loop top (copy_row t.fb.width) t.fb)

pub term_scroll : Term → Term
term_scroll t = if is_unknown t.state then t else record t { fb = scroll_fb t }

pub term_clear : Term → Term
term_clear t = if is_unknown t.state then t else record t {
  fb = for_loop t.fb.height (fill_row t.fb.width t.bgcolor) t.fb;
  cursor_x = 0;
  cursor_y = 0;
}

-- `term_scroll(term_act); term_act->cursor_y--;`
pub scroll_up : Term → Term
scroll_up t = (let t' = term_scroll t in record t' { cursor_y = u32 (t'.cursor_y + 2 ^ 32 - 1) })

-- A line is begun when `full`, and the screen scrolled when it was the last.
pub next_line : Bool → Term → Term
next_line full t =
    let t' = if full then record t { cursor_x = 0; cursor_y = t.cursor_y + 1 } else t in
    if leb t'.height t'.cursor_y then scroll_up t' else t'

-- The two halves of the default case: one byte, and the second of two.
pub print_char : (ℕ → ℕ) → ℕ → Term → Term
print_char font c t =
    let t' = next_line (leb t.width t.cursor_x) t in
    record t' {
      fb =
          fb_putch font (u32 (t'.cursor_x * font_width)) (u32 (t'.cursor_y * font_height))
            t'.fgcolor t'.bgcolor c t'.fb;
      cursor_x = t'.cursor_x + 1;
    }

pub print_wide : ℕ → Term → Term
print_wide c t =
    let t' = next_line (leb (u32 (t.width + 2 ^ 32 - 1)) t.cursor_x) t in
    record t' { lastch = 0; fb = fb_putzh t'.fb; cursor_x = t'.cursor_x + 2 }

pub print_newline : Term → Term
print_newline t = record t { cursor_x = 0; cursor_y = t.cursor_y + 1 }

pub print_tab : Term → Term
print_tab t =
    let x : ℕ = t.cursor_x + (if t.cursor_x % 4 == 0 then 0 else 4 - t.cursor_x % 4) in
    if ltb t.width x
    then record t { cursor_x = x - t.width; cursor_y = t.cursor_y + 1 }
    else record t { cursor_x = x }

-- The loop at the end of `term_print`; each round takes a row off, so the row is fuel enough.
pub settle_loop : ℕ → Term → Option Term
settle_loop zero t = none
settle_loop (suc fuel) t =
    let rest = settle_loop fuel (scroll_up t) in
    if leb t.height t.cursor_y && not (t.cursor_y == t.height && t.cursor_x == 0)
    then rest
    else some t

-- The `switch` of `term_print` and the loop after it.
pub print_case : (ℕ → ℕ) → ℕ → Term → Option Term
print_case font c t =
    let t' =
      if c == 10
      then print_newline t
      else (if c == 9
          then print_tab t
          else (if leb c 0xA0 || t.lastch == 0 then print_char font c t else print_wide c t)) in
    settle_loop (t'.cursor_y + 1) t'

-- `term_print` but for the backspace.
pub print_byte : (ℕ → ℕ) → ℕ → Term → Option Term
print_byte font c t =
    let t' = if t.cursor_y == t.height && not (c == 0) then scroll_up t else t in
    if c == 0 then some t' else print_case font c t'

pub term_print : (ℕ → ℕ) → ℕ → Term → Option Term
term_print font c t =
    if c == 8
    then elim (print_byte font b' ' t) [
      | none ↦ none
      | some t' ↦ some (record t' { cursor_x = t'.cursor_x - 1 - 1 })
    ]
    else print_byte font c t

-- `term_putch` after a character that is not held back.
pub putch_plain : (ℕ → ℕ) → ℕ → Term → Option Term
putch_plain font c t = elim (term_parse_cmd c (record t { last_qu_char = false })) [
  | none ↦ none
  | some (true, t') ↦ some t'
  | some (false, t') ↦ term_print font c t'
]

pub term_putch : (ℕ → ℕ) → ℕ → Term → Option Term
term_putch font c t =
    if is_unknown t.state
    then some t
    else (if t.last_qu_char && not (c == b'[')
        then elim (term_print font b'?' (record t { state = idle })) [
          | none ↦ none
          | some t' ↦ putch_plain font c (record t' { last_qu_char = false })
        ]
        else putch_plain font c t)
