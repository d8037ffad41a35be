-- ===== src/Term/Cursor.antt =====
-- The cursor of a terminal stays on the screen, or at the start of the line below it.
use han_os.Base.{
  ℕ, zero, suc, ◌+◌, ◌-◌, ◌^◌, ◌≤◌, ◌<◌, ◌≡◌, inl, inr, refl, ◌∙◌, Bool, true, false, not, ◌&&◌,
  leb, ◌==◌, if◌then◌else◌, arith, Bool-cases, some, u32,
}
use han_os.Term.{
  Term, term_scroll, scroll_up, next_line, print_char, print_wide, print_newline, print_tab,
  settle_loop,
}

-- The screen has room for a tab stop and the cursor is on it, or at the start of the next line.
pub record Fits (t : Term) : Type 0 where
  pub columns : 4 ≤ t.width
  pub rows : 1 ≤ t.height
  pub width_in : t.width < 2 ^ 29
  pub height_in : t.height < 2 ^ 29
  pub column_in : t.cursor_x ≤ t.width
  pub row_in : t.cursor_y ≤ t.height
  pub at_start : t.cursor_y ≡ t.height → t.cursor_x ≡ 0

-- What printing leaves alone.
pub record SameState (t t' : Term) : Type 0 where
  pub same_width : t'.width ≡ t.width
  pub same_height : t'.height ≡ t.height
  pub same_state : t'.state ≡ t.state
  pub same_cparams : t'.cparams ≡ t.cparams
  pub same_count : t'.cparamcount ≡ t.cparamcount
  pub same_qu : t'.last_qu_char ≡ t.last_qu_char
  pub same_fgcolor : t'.fgcolor ≡ t.fgcolor
  pub same_bgcolor : t'.bgcolor ≡ t.bgcolor

pub SameState-refl : (t : Term) → SameState t t
SameState-refl t = record {
  same_width = refl;
  same_height = refl;
  same_state = refl;
  same_cparams = refl;
  same_count = refl;
  same_qu = refl;
  same_fgcolor = refl;
  same_bgcolor = refl;
}

-- A scroll changes the pixels and the row only.
pub record Scrolled (t t' : Term) : Type 0 where
  pub others : SameState t t'
  pub same_column : t'.cursor_x ≡ t.cursor_x
  pub row_above : t'.cursor_y ≡ u32 (t.cursor_y + 2 ^ 32 - 1)
  pub same_lastch : t'.lastch ≡ t.lastch

pub scroll_up-Scrolled : (t : Term) → Scrolled t (scroll_up t)
unfolding scroll_up term_scroll
scroll_up-Scrolled t = ground arith

next_line_lem :
    (full : Bool) (t : Term)
    → Fits t
    → t.cursor_y < t.height
    → (leb t.width t.cursor_x ≡ true → full ≡ true)
    → SameState t (next_line full t)
      × ((next_line full t).cursor_y < t.height)
      × ((next_line full t).cursor_x ≡ (if full then 0 else t.cursor_x))
      × ((next_line full t).lastch ≡ t.lastch)
unfolding next_line
next_line_lem full t v in_rows edge =
    ground (arith, scroll_up-Scrolled (record t { cursor_x = 0; cursor_y = t.cursor_y + 1 }))

-- What printing makes of a terminal.
pub record Printed (t t' : Term) : Type 0 where
  pub fits : Fits t'
  pub kept : SameState t t'

pub print_char-Printed :
    (font : ℕ → ℕ) (c : ℕ) (t : Term)
    → Fits t
    → t.cursor_y < t.height
    → Printed t (print_char font c t)
unfolding print_char
print_char-Printed font c t v h = ground (arith, next_line_lem (leb t.width t.cursor_x) t)

pub print_wide-Printed :
    (c : ℕ) (t : Term) → Fits t → t.cursor_y < t.height → Printed t (print_wide c t)
unfolding print_wide
print_wide-Printed c t v h =
    ground (arith, next_line_lem (leb (u32 (t.width + 2 ^ 32 - 1)) t.cursor_x) t)

pub print_newline-Printed :
    (t : Term) → Fits t → t.cursor_y < t.height → Printed t (print_newline t)
unfolding print_newline
print_newline-Printed t v h = ground arith

-- A tab may leave the cursor inside the line below the screen.
pub record Loose (t : Term) : Type 0 where
  pub columns : 4 ≤ t.width
  pub rows : 1 ≤ t.height
  pub width_in : t.width < 2 ^ 29
  pub height_in : t.height < 2 ^ 29
  pub column_in : t.cursor_x ≤ t.width
  pub row_in : t.cursor_y ≤ t.height

pub print_tab-Loose :
    (t : Term) → Fits t → t.cursor_y < t.height → Loose (print_tab t) × SameState t (print_tab t)
unfolding print_tab
print_tab-Loose t v h = ground arith

pub Fits-Loose : (t : Term) → Fits t → Loose t
Fits-Loose t v = ground arith

settle_done :
    (fuel : ℕ) (t : Term)
    → (leb t.height t.cursor_y && not (t.cursor_y == t.height && t.cursor_x == 0)) ≡ false
    → settle_loop (suc fuel) t ≡ some t
unfolding settle_loop
settle_done fuel t e = rw e

settle_more :
    (fuel : ℕ) (t : Term)
    → (leb t.height t.cursor_y && not (t.cursor_y == t.height && t.cursor_x == 0)) ≡ true
    → settle_loop (suc fuel) t ≡ settle_loop fuel (scroll_up t)
unfolding settle_loop
settle_more fuel t e = rw e

-- The loop after the `switch` ends, with the cursor on the screen.
pub settle_loop-Printed :
    (fuel : ℕ) (t : Term)
    → Loose t
    → t.cursor_y < fuel
    → (t' : Term) × (settle_loop fuel t ≡ some t') × Printed t t'
settle_loop-Printed zero t v h = absurd (omega arith)
settle_loop-Printed (suc zero) t v h =
    (t, settle_done zero t (ground arith), record { fits = ground arith; kept = SameState-refl t })
settle_loop-Printed (suc (suc fuel)) t v h =
    elim (Bool-cases (leb t.height t.cursor_y && not (t.cursor_y == t.height && t.cursor_x == 0))) [
      | inl over ↦ (
        scroll_up t,
        settle_more (suc fuel) t over
            ∙ settle_done fuel (scroll_up t) (ground (arith, scroll_up-Scrolled t)),
        record {
          fits = ground (arith, scroll_up-Scrolled t);
          kept = (scroll_up-Scrolled t).others;
        },
      )
      | inr inside ↦ (
        t,
        settle_done (suc fuel) t inside,
        record { fits = ground arith; kept = SameState-refl t },
      )
    ]
