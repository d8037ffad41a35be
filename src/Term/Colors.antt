-- ===== src/Term/Colors.antt =====
-- The escape sequences that select a colour.
use han_os.Base.{
  ℕ, ◌+◌, ◌-◌, ◌*◌, ◌<◌, ◌≡◌, refl, ◌∙◌, true, false, ◌&&◌, ltb, leb, ◌==◌, arith, Option, some,
  none, List, zero, suc, ◌≤◌, get_or, Bool-cases, inl, inr, if◌then◌else◌, [], ◌∷◌, u32,
}
use han_os.Term.Escape.{putch_done}
use han_os.Term.{
  Term, font_colors, idle, param, set_color, parse_param, parse_state, term_parse_cmd, putch_plain,
  term_putch,
}

-- The bytes of a text, one after the other.
pub putch_all : (ℕ → ℕ) → List ℕ → Term → Option Term
putch_all font [] t = some t
putch_all font (c ∷ cs) t = elim (term_putch font c t) [
  | none ↦ none
  | some t' ↦ putch_all font cs t'
]

-- A terminal between two sequences, and in the middle of the first parameter.
abbrev pub between : Term → ℕ → List ℕ → Term
between t p ps = record t { state = idle; last_qu_char = false; cparams = p ∷ ps }

abbrev pub in_param : Term → ℕ → List ℕ → Term
in_param t p ps = record t {
  state = param;
  last_qu_char = false;
  cparams = p ∷ ps;
  cparamcount = 1;
}

parse_digit :
    (d p : ℕ) (t : Term) (ps : List ℕ)
    → d < 10
    → term_parse_cmd (d + 48) (in_param t p ps) ≡ some (true, in_param t (u32 (p * 10 + d)) ps)
unfolding term_parse_cmd parse_state parse_param
parse_digit d p t ps h =
    let ascii : ltb 0xA0 (d + 48) ≡ false = ground arith in
    let not_semicolon : (d + 48 == b';') ≡ false = ground arith in
    let not_letter : (d + 48 == b'm') ≡ false = ground arith in
    let digit : (leb b'0' (d + 48) && leb (d + 48) b'9') ≡ true = ground arith in
    let back : d + 48 - 48 ≡ d = omega arith in
    rw (ascii, not_semicolon, not_letter, digit, back) refl

term_putch-digit :
    (font : ℕ → ℕ) (d p : ℕ) (t : Term) (ps : List ℕ)
    → d < 10
    → term_putch font (d + 48) (in_param t p ps) ≡ some (in_param t (u32 (p * 10 + d)) ps)
unfolding term_putch
term_putch-digit font d p t ps h =
    putch_done font (d + 48) (in_param t p ps) (in_param t (u32 (p * 10 + d)) ps)
      (parse_digit d p t ps h)

putch_all-some :
    (font : ℕ → ℕ) (c : ℕ) (cs : List ℕ) (t t' : Term)
    → term_putch font c t ≡ some t'
    → putch_all font (c ∷ cs) t ≡ putch_all font cs t'
unfolding putch_all
putch_all-some font c cs t t' e = rw (e, putch_all)

opening :
    (font : ℕ → ℕ) (p : ℕ) (t : Term) (ps cs : List ℕ)
    → putch_all font (b'?' ∷ b'[' ∷ cs) (between t p ps) ≡ putch_all font cs (in_param t 0 ps)
unfolding putch_all term_putch putch_plain term_parse_cmd parse_state
opening font p t ps cs = refl

closing :
    (font : ℕ → ℕ) (p : ℕ) (t : Term) (ps : List ℕ)
    → putch_all font (b'm' ∷ []) (in_param t p ps)
      ≡ some (record (set_color p (in_param t p ps)) { state = idle; cparamcount = 0 })
unfolding putch_all term_putch putch_plain term_parse_cmd parse_state parse_param
closing font p t ps = refl

-- The colour of a digit: black, red, green, yellow, blue and light white.
abbrev pub palette : ℕ → ℕ
palette zero = 0x000000
palette (suc zero) = 0xFF7777
palette (suc (suc zero)) = 0x77FF77
palette (suc (suc (suc zero))) = 0xFFFF77
palette (suc (suc (suc (suc zero)))) = 0x7777FF
palette (suc (suc (suc (suc (suc n))))) = 0xC0C0C0

-- The colours after a number of two digits: 00 selects light white on black, 1 and a digit up to 5 the
-- colour of the characters, and 2 and such a digit that of the background.
abbrev pub foreground : ℕ → ℕ → ℕ → ℕ
foreground a b old =
    if a == 0 && b == 0 then 0xC0C0C0 else (if a == 1 && leb b 5 then palette b else old)

abbrev pub background : ℕ → ℕ → ℕ → ℕ
background a b old =
    if a == 0 && b == 0 then 0x000000 else (if a == 2 && leb b 5 then palette b else old)

font_colors_lem : (b : ℕ) → b ≤ 5 → get_or font_colors b 0 ≡ palette b
font_colors_lem zero h = refl
font_colors_lem (suc zero) h = refl
font_colors_lem (suc (suc zero)) h = refl
font_colors_lem (suc (suc (suc zero))) h = refl
font_colors_lem (suc (suc (suc (suc zero)))) h = refl
font_colors_lem (suc (suc (suc (suc (suc zero))))) h = refl
font_colors_lem (suc (suc (suc (suc (suc (suc b)))))) h = absurd (omega arith)

set_color-none :
    (n : ℕ) (t : Term)
    → (n == 0) ≡ false
    → leb 10 n && leb n 15 ≡ false
    → leb 20 n && leb n 25 ≡ false
    → set_color n t ≡ t
unfolding set_color
set_color-none n t some_color fg bg = rw (set_color, some_color, fg, bg) refl

set_color-foreground :
    (b : ℕ) (t : Term) → b ≤ 5 → set_color (10 + b) t ≡ record t { fgcolor = palette b }
unfolding set_color
set_color-foreground b t h =
    let some_color : (10 + b == 0) ≡ false = ground arith in
    let fg : leb 10 (10 + b) && leb (10 + b) 15 ≡ true = ground arith in
    let back : 10 + b - 10 ≡ b = omega arith in
    rw (set_color, some_color, fg, back, font_colors_lem b h) refl

set_color-background :
    (b : ℕ) (t : Term) → b ≤ 5 → set_color (20 + b) t ≡ record t { bgcolor = palette b }
unfolding set_color
set_color-background b t h =
    let some_color : (20 + b == 0) ≡ false = ground arith in
    let fg : leb 10 (20 + b) && leb (20 + b) 15 ≡ false = ground arith in
    let bg : leb 20 (20 + b) && leb (20 + b) 25 ≡ true = ground arith in
    let back : 20 + b - 20 ≡ b = omega arith in
    rw (set_color, some_color, fg, bg, back, font_colors_lem b h) refl

set_color_lem :
    (a b : ℕ) (t : Term)
    → a < 10
    → b < 10
    → set_color (a * 10 + b) t
      ≡ record t { fgcolor = foreground a b t.fgcolor; bgcolor = background a b t.bgcolor }
unfolding set_color
set_color_lem zero zero t ha hb = refl
set_color_lem zero (suc b) t ha hb =
    let some_digit : (suc b == 0) ≡ false = ground arith in
    rw some_digit (set_color-none (0 * 10 + suc b) t (ground arith) (ground arith) (ground arith))
set_color_lem (suc zero) b t ha hb = elim (Bool-cases (leb b 5)) [
  | inl low ↦ rw low (set_color-foreground b t (ground arith))
  | inr high ↦ rw high (set_color-none (10 + b) t (ground arith) (ground arith) (ground arith))
]
set_color_lem (suc (suc zero)) b t ha hb = elim (Bool-cases (leb b 5)) [
  | inl low ↦ rw low (set_color-background b t (ground arith))
  | inr high ↦ rw high (set_color-none (20 + b) t (ground arith) (ground arith) (ground arith))
]
set_color_lem (suc (suc (suc a))) b t ha hb =
    let not_00 : (suc (suc (suc a)) == 0) ≡ false = ground arith in
    let not_1 : (suc (suc (suc a)) == 1) ≡ false = ground arith in
    let not_2 : (suc (suc (suc a)) == 2) ≡ false = ground arith in
    rw (not_00, not_1, not_2)
      (set_color-none (suc (suc (suc a)) * 10 + b) t (ground arith) (ground arith) (ground arith))

-- A question mark, a bracket, two digits and the letter m print nothing: they select the colours of the
-- two digits, those of `foreground` and `background`, and the parser is idle again with the number as
-- its first parameter. Nothing else of the terminal changes.
pub putch_all-set_color :
    (font : ℕ → ℕ) (a b p : ℕ) (t : Term) (ps : List ℕ)
    → a < 10
    → b < 10
    → putch_all font (b'?' ∷ b'[' ∷ (a + 48) ∷ (b + 48) ∷ b'm' ∷ []) (between t p ps)
      ≡ some (record t {
        fgcolor = foreground a b t.fgcolor;
        bgcolor = background a b t.bgcolor;
        state = idle;
        last_qu_char = false;
        cparams = (a * 10 + b) ∷ ps;
        cparamcount = 0;
      })
putch_all-set_color font a b p t ps ha hb =
    let tens : u32 (0 * 10 + a) ≡ a = omega arith in
    let number : u32 (a * 10 + b) ≡ a * 10 + b = omega arith in
    opening font p t ps ((a + 48) ∷ (b + 48) ∷ b'm' ∷ [])
    ∙ (putch_all-some font (a + 48) _ _ (in_param t a ps)
          (rw tens at (term_putch-digit font a 0 t ps ha))
        ∙ (putch_all-some font (b + 48) _ _ (in_param t (a * 10 + b) ps)
              (rw number at (term_putch-digit font b a t ps hb))
            ∙ (closing font (a * 10 + b) t ps
                ∙ rw (set_color_lem a b (in_param t (a * 10 + b) ps) ha hb) refl)))
