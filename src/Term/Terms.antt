-- ===== src/Term/Terms.antt =====
-- kernel/device/display/term.c: the two terminals, which of them is shown, and the cursor character.
use han_os.Base.{
  ℕ, ◌+◌, ◌-◌, ◌*◌, ◌/◌, ◌^◌, Bool, not, ◌&&◌, Option, some, none, ◌==◌, leb, if◌then◌else◌, u32,
}
use han_os.Fb.{fb_putch, fb_refresh, fb_init, fb_init_back, default_fgcolor, default_bgcolor}
use han_os.Keyboard.{term_mode_info, term_mode_cli}
use han_os.Klog.{Klog, klog_buffer_size, refresh_loop}
use han_os.Term.{Term, idle, is_unknown, font_width, font_height, term_scroll, term_clear}
use han_os.Term.Colors.{putch_all}

abbrev pub term_mode_unknown : ℕ
term_mode_unknown = 3

-- The static variables of term.c; the lock is left out.
pub record Terms : Type 0 where
  pub info : Term
  pub cli : Term
  pub active_mode : ℕ
  pub cursor : ℕ

-- The terminal that a mode names.
pub term_of : ℕ → Terms → Term
term_of mode s = if mode == term_mode_info then s.info else s.cli

pub with_term : ℕ → Term → Terms → Terms
with_term mode t s = if mode == term_mode_info then record s { info = t } else record s { cli = t }

pub term_set_cursor : ℕ → Terms → Terms
term_set_cursor c s = record s { cursor = c }

pub term_get_mode : Terms → ℕ
term_get_mode s = s.active_mode

-- `fb_refresh` of the terminal that is shown.
pub show_active : Bool → Term → Term
show_active shown t =
    if shown && not (is_unknown t.state) then record t { fb = fb_refresh t.fb } else t

-- The branch of `term_refresh` that draws the cursor, at `x` and `y`.
pub draw_cursor : (ℕ → ℕ) → ℕ → ℕ → ℕ → Term → Term
draw_cursor font c x y t = record t {
  fb = fb_putch font (u32 (x * font_width)) (u32 (y * font_height)) t.fgcolor t.bgcolor c t.fb;
}

pub refresh_cursor : (ℕ → ℕ) → ℕ → Bool → Term → Term
refresh_cursor font c shown t =
    let t1 = show_active shown t in
    let full : Bool = leb t1.width t1.cursor_x in
    let x : ℕ = if full then 0 else t1.cursor_x in
    let y : ℕ = if full then u32 (t1.cursor_y + 1) else t1.cursor_y in
    if leb t1.height y
    then (let t2 = term_scroll t1 in
        draw_cursor font c x (u32 (y + 2 ^ 32 - 1))
          (record t2 { cursor_y = u32 (t2.cursor_y + 2 ^ 32 - 1) }))
    else draw_cursor font c x y t1

pub term_refresh : (ℕ → ℕ) → ℕ → Terms → Terms
term_refresh font mode s =
    let t = term_of mode s in
    let shown : Bool = mode == s.active_mode in
    if not (mode == term_mode_info) && not (s.cursor == 0)
    then with_term mode (refresh_cursor font s.cursor shown t) s
    else with_term mode (show_active shown t) s

-- A round of `term_init`, with the address, width, height and pitch of the screen, and what it holds.
pub init_term : (ℕ → ℕ) → ℕ → ℕ → ℕ → ℕ → (ℕ → ℕ) → ℕ → Terms → Terms
init_term font address width height pitch screen mode s =
    let t = term_of mode s in
    let fb' = fb_init address width height pitch screen t.fb in
    let t' = record t {
      fb = fb';
      width = fb'.width / font_width;
      height = fb'.height / font_height;
      fgcolor = default_fgcolor;
      bgcolor = default_bgcolor;
      state = idle;
      cursor_x = 0;
      cursor_y = 0;
      lastch = 0;
    } in
    term_refresh font mode (with_term mode (term_clear t') s)

pub term_init : (ℕ → ℕ) → ℕ → ℕ → ℕ → ℕ → (ℕ → ℕ) → Terms → Terms
term_init font address width height pitch screen s =
    init_term font address width height pitch screen term_mode_cli
      (init_term font address width height pitch screen term_mode_info s)

-- `klog_refresh` with its calls of the terminal, of the log `k`.
pub redraw : (ℕ → ℕ) → ℕ → Klog → Terms → Option Terms
redraw font mode k s =
    if not (term_get_mode s == term_mode_unknown)
    then some (term_refresh font mode s)
    else elim (refresh_loop klog_buffer_size k.start k) [
      | none ↦ none
      | some cs ↦ elim (putch_all font cs (term_clear (term_of mode s))) [
        | none ↦ none
        | some t ↦ some (term_refresh font mode (with_term mode t s))
      ]
    ]

-- `term_start`; the two back buffers are the blocks that `kmalloc` returns, with what is in them.
pub term_start : (ℕ → ℕ) → ℕ → ℕ → (ℕ → ℕ) → Klog → Klog → Terms → Option Terms
term_start font buffer buffer2 held log_info log_cli s =
    let info' = record s.info { fb = fb_init_back buffer held s.info.fb } in
    let cli' = record s.cli { fb = fb_init_back buffer2 held s.cli.fb } in
    elim (redraw font term_mode_info log_info (record s { info = info'; cli = cli' })) [
      | none ↦ none
      | some s2 ↦ elim (redraw font term_mode_cli log_cli s2) [
        | none ↦ none
        | some s3 ↦ some (record s3 { active_mode = term_mode_info })
      ]
    ]

pub term_switch : ℕ → Terms → Terms
term_switch mode s = record s { active_mode = mode }
