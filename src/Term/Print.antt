-- ===== src/Term/Print.antt =====
-- `term_print` and `term_putch` keep the cursor on the screen.
use han_os.Base.{
  ℕ, ◌+◌, ◌-◌, ◌<◌, ◌≡◌, inl, inr, refl, ◌∙◌, true, false, not, ◌&&◌, ◌||◌, leb, ◌==◌, arith,
  Bool-cases, some,
}
use han_os.Term.{
  Term, scroll_up, print_char, print_wide, print_newline, print_tab, settle_loop, print_case,
  print_byte, term_print,
}
use han_os.Term.Cursor.{
  Fits, SameState, SameState-refl, Printed, Loose, Fits-Loose, scroll_up-Scrolled,
  print_char-Printed, print_wide-Printed, print_newline-Printed, print_tab-Loose,
  settle_loop-Printed,
}

SameState-trans : (t u w : Term) → SameState t u → SameState u w → SameState t w
SameState-trans t u w a b = record {
  same_width = b.same_width ∙ a.same_width;
  same_height = b.same_height ∙ a.same_height;
  same_state = b.same_state ∙ a.same_state;
  same_cparams = b.same_cparams ∙ a.same_cparams;
  same_count = b.same_count ∙ a.same_count;
  same_qu = b.same_qu ∙ a.same_qu;
  same_fgcolor = b.same_fgcolor ∙ a.same_fgcolor;
  same_bgcolor = b.same_bgcolor ∙ a.same_bgcolor;
}

-- A part of the `switch`, with the loop after it.
settled :
    (t u : Term)
    → Loose u
    → SameState t u
    → (t' : Term) × (settle_loop (u.cursor_y + 1) u ≡ some t') × Printed t t'
settled t u v same =
    let (t', settles, printed) = settle_loop-Printed (u.cursor_y + 1) u v (omega arith) in
    (t', settles, record { fits = printed.fits; kept = SameState-trans t u t' same printed.kept })

print_case-Printed :
    (font : ℕ → ℕ) (c : ℕ) (t : Term)
    → Fits t
    → t.cursor_y < t.height
    → (t' : Term) × (print_case font c t ≡ some t') × Printed t t'
unfolding print_case
print_case-Printed font c t v h = elim (Bool-cases (c == 10)) [
  | inl newline ↦
      let p = print_newline-Printed t v h in
      rw newline (settled t (print_newline t) (Fits-Loose _ p.fits) p.kept)
  | inr other ↦ elim (Bool-cases (c == 9)) [
    | inl tab ↦ let p = print_tab-Loose t v h in rw (other, tab) (settled t (print_tab t) p.0 p.1)
    | inr char ↦ elim (Bool-cases (leb c 0xA0 || t.lastch == 0)) [
      | inl one ↦
          let p = print_char-Printed font c t v h in
          rw (other, char, one) (settled t (print_char font c t) (Fits-Loose _ p.fits) p.kept)
      | inr two ↦
          let p = print_wide-Printed c t v h in
          rw (other, char, two) (settled t (print_wide c t) (Fits-Loose _ p.fits) p.kept)
    ]
  ]
]

print_byte-Printed :
    (font : ℕ → ℕ) (c : ℕ) (t : Term)
    → Fits t
    → (t' : Term) × (print_byte font c t ≡ some t') × Printed t t'
unfolding print_byte
print_byte-Printed font c t v = elim (Bool-cases (c == 0)) [
  | inl nothing ↦
      let stays : (t.cursor_y == t.height && not (c == 0)) ≡ false = ground arith in
      rw (stays, nothing) (t, refl, record { fits = v; kept = SameState-refl t })
  | inr char ↦ elim (Bool-cases (t.cursor_y == t.height)) [
    | inl below ↦
        let goes : (t.cursor_y == t.height && not (c == 0)) ≡ true = ground arith in
        let up = scroll_up-Scrolled t in
        let v' : Fits (scroll_up t) = ground (arith, scroll_up-Scrolled t) in
        let h' : (scroll_up t).cursor_y < (scroll_up t).height =
          ground (arith, scroll_up-Scrolled t) in
        let (t', prints, printed) = print_case-Printed font c (scroll_up t) v' h' in
        rw (goes, char)
          (
            t',
            prints,
            record {
              fits = printed.fits;
              kept = SameState-trans t (scroll_up t) t' up.others printed.kept;
            },
          )
    | inr on_screen ↦
        let stays : (t.cursor_y == t.height && not (c == 0)) ≡ false = ground arith in
        rw (stays, char) (print_case-Printed font c t v (ground arith))
  ]
]

term_print-back :
    (font : ℕ → ℕ) (c : ℕ) (t t' : Term)
    → (c == 8) ≡ true
    → print_byte font b' ' t ≡ some t'
    → term_print font c t ≡ some (record t' { cursor_x = t'.cursor_x - 1 - 1 })
unfolding term_print
term_print-back font c t t' e prints = rw (e, prints, term_print)

term_print-byte :
    (font : ℕ → ℕ) (c : ℕ) (t : Term) → (c == 8) ≡ false → term_print font c t ≡ print_byte font c t
unfolding term_print
term_print-byte font c t e = rw e

-- `term_print` of any byte ends, with the cursor on the screen or at the start of the line below it,
-- and changes neither the size of the terminal, its colours nor the state of its parser.
pub term_print-Printed :
    (font : ℕ → ℕ) (c : ℕ) (t : Term)
    → Fits t
    → (t' : Term) × (term_print font c t ≡ some t') × Printed t t'
term_print-Printed font c t v = elim (Bool-cases (c == 8)) [
  | inl back ↦
      let (t', prints, printed) = print_byte-Printed font b' ' t v in
      (
        record t' { cursor_x = t'.cursor_x - 1 - 1 },
        term_print-back font c t t' back prints,
        record { fits = ground (arith, printed.fits); kept = ground (arith, printed.kept) },
      )
  | inr other ↦ rw (term_print-byte font c t other) (print_byte-Printed font c t v)
]
