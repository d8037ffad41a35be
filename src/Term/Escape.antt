-- ===== src/Term/Escape.antt =====
-- The parser of escape sequences, and `term_putch` on top of it.
use han_os.Base.{
  ℕ, ◌+◌, ◌-◌, ◌*◌, ◌≤◌, ◌≡◌, ◌⊎◌, inl, inr, refl, sym, ◌∙◌, Bool, true, false, not, ◌&&◌, ltb, leb,
  ◌==◌, arith, Bool-cases, Option, some, none, length, length-set, get_or, ap, u32,
}
use han_os.Term.{
  Term, State, unknown, idle, cmd, param, Result, set_color, parse_param, parse_state,
  term_parse_cmd, term_print, putch_plain, term_putch, is_unknown,
}
use han_os.Term.Cursor.{Fits, Printed}
use han_os.Term.Print.{term_print-Printed}

-- What every call of `term_putch` relies on and keeps.
pub record IsValid (t : Term) : Type 0 where
  pub fits : Fits t
  pub sixteen : length t.cparams ≡ 16
  pub counted : t.cparamcount ≤ 16
  pub one_param : t.state ≡ param → 1 ≤ t.cparamcount
  pub held_back : t.last_qu_char ≡ true → t.state ≡ cmd

-- The bytes that write outside `cparams`: a 17th parameter.
pub record Overflows (c : ℕ) (t : Term) : Type 0 where
  pub in_params : t.state ≡ param
  pub separator : c ≡ b';'
  pub all_used : t.cparamcount ≡ 16

Fits-set_color : (p : ℕ) (t : Term) → Fits t → Fits (set_color p t)
unfolding set_color
Fits-set_color p t v = ground arith

IsValid-set_color : (p : ℕ) (t : Term) → IsValid t → IsValid (set_color p t)
unfolding set_color
IsValid-set_color p t v = ground arith

set_color_qu : (p : ℕ) (t : Term) → (set_color p t).last_qu_char ≡ t.last_qu_char
unfolding set_color
set_color_qu p t = ground arith

-- A result that is valid, or the access outside the array.
abbrev pub Parsed : ℕ → Term → Result → Type 0
Parsed c t r =
    ((b : Bool) × (t' : Term) × (r ≡ some (b, t')) × IsValid t') ⊎ (Overflows c t × (r ≡ none))

parse_param-Parsed :
    (c : ℕ) (t : Term)
    → IsValid t
    → t.last_qu_char ≡ false
    → t.state ≡ param
    → Parsed c t (parse_param c t)
unfolding parse_param
parse_param-Parsed c t v q e = elim (Bool-cases (c == b';')) [
  | inl separator ↦ elim (Bool-cases (ltb t.cparamcount (length t.cparams))) [
    | inl room ↦
        rw (separator, room)
          (inl (true, _, refl, ground (arith, length-set t.cparams t.cparamcount 0)))
    | inr full ↦ rw (separator, full) (inr (ground arith, refl))
  ]
  | inr no_separator ↦ elim (Bool-cases (c == b'm')) [
    | inl letter ↦
        let p : ℕ = get_or t.cparams 0 0 in
        rw (no_separator, letter)
          (inl (true, _, refl, ground (arith, IsValid-set_color p t, set_color_qu p t)))
    | inr no_letter ↦ elim (Bool-cases (leb b'0' c && leb c b'9')) [
      | inl digit ↦
          let i : ℕ = t.cparamcount - 1 in
          let n : ℕ = u32 (get_or t.cparams i 0 * 10 + (c - b'0')) in
          rw (no_separator, no_letter, digit)
            (inl (true, _, refl, ground (arith, length-set t.cparams i n)))
      | inr other ↦ rw (no_separator, no_letter, other) (inl (false, _, refl, ground arith))
    ]
  ]
]

parse_state-Parsed :
    (s : State) (c : ℕ) (t : Term)
    → IsValid t
    → t.last_qu_char ≡ false
    → t.state ≡ s
    → Parsed c t (parse_state s c t)
unfolding parse_state
parse_state-Parsed unknown c t v q e = inl (false, _, refl, ground arith)
parse_state-Parsed idle c t v q e = elim (Bool-cases (c == b'?')) [
  | inl mark ↦ rw (mark, q) (inl (true, _, refl, ground arith))
  | inr other ↦ rw other (inl (false, _, refl, ground arith))
]
parse_state-Parsed cmd c t v q e = elim (Bool-cases (c == b'[')) [
  | inl bracket ↦ rw bracket (inl (true, _, refl, ground (arith, length-set t.cparams 0 0)))
  | inr other ↦ rw other (inl (false, _, refl, ground arith))
]
parse_state-Parsed param c t v q e = parse_param-Parsed c t v q e

term_parse_cmd-Parsed :
    (c : ℕ) (t : Term) → IsValid t → t.last_qu_char ≡ false → Parsed c t (term_parse_cmd c t)
unfolding term_parse_cmd
term_parse_cmd-Parsed c t v q = elim (Bool-cases (is_unknown t.state)) [
  | inl off ↦ rw off (inl (false, t, refl, v))
  | inr known ↦ elim (Bool-cases (ltb 0xA0 c && t.lastch == 0)) [
    | inl half ↦ rw (known, half) (inl (true, _, refl, ground arith))
    | inr whole ↦ rw (known, whole) (parse_state-Parsed t.state c t v q refl)
  ]
]

IsValid-Printed : (t t' : Term) → IsValid t → Printed t t' → IsValid t'
IsValid-Printed t t' v p = record {
  fits = p.fits;
  sixteen = ap length p.kept.same_cparams ∙ v.sixteen;
  counted = omega (arith, v.counted, p.kept.same_count);
  one_param = λ e. omega (arith, v.one_param (sym p.kept.same_state ∙ e), p.kept.same_count);
  held_back = λ e. p.kept.same_state ∙ v.held_back (sym p.kept.same_qu ∙ e);
}

-- A terminal after a byte, or the access outside the array.
abbrev pub Put : ℕ → Term → Option Term → Type 0
Put c t r = ((t' : Term) × (r ≡ some t') × IsValid t') ⊎ (Overflows c t × (r ≡ none))

pub putch_done :
    (font : ℕ → ℕ) (c : ℕ) (t t' : Term)
    → term_parse_cmd c (record t { last_qu_char = false }) ≡ some (true, t')
    → putch_plain font c t ≡ some t'
unfolding putch_plain
putch_done font c t t' e = rw (e, putch_plain)

putch_print :
    (font : ℕ → ℕ) (c : ℕ) (t t' : Term)
    → term_parse_cmd c (record t { last_qu_char = false }) ≡ some (false, t')
    → putch_plain font c t ≡ term_print font c t'
unfolding putch_plain
putch_print font c t t' e = rw (e, putch_plain)

putch_none :
    (font : ℕ → ℕ) (c : ℕ) (t : Term)
    → term_parse_cmd c (record t { last_qu_char = false }) ≡ none
    → putch_plain font c t ≡ none
unfolding putch_plain
putch_none font c t e = rw (e, putch_plain)

putch_plain-Put : (font : ℕ → ℕ) (c : ℕ) (t : Term) → IsValid t → Put c t (putch_plain font c t)
putch_plain-Put font c t v =
    let t0 = record t { last_qu_char = false } in
    let v0 : IsValid t0 = ground arith in
    elim (term_parse_cmd-Parsed c t0 v0 refl) [
      | inl (true, t', parses, v') ↦ inl (t', putch_done font c t t' parses, v')
      | inl (false, t', parses, v') ↦
          let (t2, prints, printed) = term_print-Printed font c t' v'.fits in
          inl (t2, putch_print font c t t' parses ∙ prints, IsValid-Printed t' t2 v' printed)
      | inr (over, parses) ↦ inr (
        record { in_params = over.in_params; separator = over.separator; all_used = over.all_used },
        putch_none font c t parses,
      )
    ]

putch_resend :
    (font : ℕ → ℕ) (c : ℕ) (t t' : Term)
    → is_unknown t.state ≡ false
    → (t.last_qu_char && not (c == b'[')) ≡ true
    → term_print font b'?' (record t { state = idle }) ≡ some t'
    → term_putch font c t ≡ putch_plain font c (record t' { last_qu_char = false })
unfolding term_putch
putch_resend font c t t' known held e = rw (known, held, e, term_putch)

-- A terminal that is valid stays so under every byte, and the byte is handled to the end, but for
-- one case: a semicolon after 16 parameters writes outside the array of parameters.
pub term_putch-Put : (font : ℕ → ℕ) (c : ℕ) (t : Term) → IsValid t → Put c t (term_putch font c t)
unfolding term_putch
term_putch-Put font c t v = elim (Bool-cases (is_unknown t.state)) [
  | inl off ↦ rw off (inl (t, refl, v))
  | inr known ↦ elim (Bool-cases (t.last_qu_char && not (c == b'['))) [
    | inl held ↦
        let t0 = record t { state = idle } in
        let (t', prints, printed) = term_print-Printed font b'?' t0 (ground arith) in
        let t1 = record t' { last_qu_char = false } in
        let v1 : IsValid t1 = record {
          fits = ground (arith, printed.fits);
          sixteen = ap length printed.kept.same_cparams ∙ v.sixteen;
          counted = omega (arith, v.counted, printed.kept.same_count);
          one_param = λ e. ground (arith, sym printed.kept.same_state ∙ e);
          held_back = λ e. ground arith;
        } in
        rw (putch_resend font c t t' known held prints) (elim (putch_plain-Put font c t1 v1) [
          | inl done ↦ inl done
          | inr (over, fails) ↦
              absurd (ground (arith, sym printed.kept.same_state ∙ over.in_params))
        ])
    | inr plain ↦ rw (known, plain) (putch_plain-Put font c t v)
  ]
]
