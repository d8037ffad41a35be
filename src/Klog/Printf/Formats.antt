-- ===== src/Klog/Printf/Formats.antt =====
-- `klog_vprintf_core` on the decimal conversions, as in the time stamp of a line of the log.
use han_os.Base.{
  replicate, [], if◌then◌else◌, ℕ, ◌+◌, ◌-◌, ◌*◌, ◌^◌, ◌≤◌, ◌<◌, ◌≡◌, refl, ◌∙◌, Bool, true, ◌&&◌,
  some, List, ◌∷◌, ◌++◌, length, ◌⊎◌, ltb, leb, ◌==◌, arith, u32,
}
use han_os.Klog.{Klog, put_all}
use han_os.Klog.Printf.{
  Arg, word, Place, Printing, outside, opened, in_width, vprintf_step, vprintf_loop, convert,
  convert_word, klog_vprintf_core, klog_putint, putint_text,
}
use han_os.Klog.Printf.Width.{putint_text-digits}
use han_os.Klog.Hex.{read_digits}
use han_os.Klog.Dec.{digit_values}

-- One character of a format that is not undefined.
vprintf_loop-next :
    (c : ℕ) (s : List ℕ) (scan : Place) (args : List Arg) (k : Klog) (p : Printing)
    → vprintf_step c scan args k ≡ some p
    → vprintf_loop (c ∷ s) scan args k ≡ vprintf_loop s p.scan p.args p.log
unfolding vprintf_loop
vprintf_loop-next c s scan args k p e = rw (vprintf_loop, e) refl

-- The characters of a width.
step-first :
    (a : ℕ) (args : List Arg) (k : Klog)
    → a ≤ 9
    → vprintf_step (48 + a) opened args k
      ≡ some (record { log = k; scan = in_width (a == 0) a; args = args })
unfolding vprintf_step
step-first a args k h =
    let digit : (leb 48 (48 + a) && leb (48 + a) 57) ≡ true = ground arith in
    let lead : ((48 + a) == 48) ≡ (a == 0) = ground arith in
    let value : 48 + a - 48 ≡ a = omega arith in rw (vprintf_step, digit, lead, value) refl

step-second :
    (a b : ℕ) (zero_filling : Bool) (args : List Arg) (k : Klog)
    → a ≤ 9
    → b ≤ 9
    → vprintf_step (48 + b) (in_width zero_filling a) args k
      ≡ some (record { log = k; scan = in_width zero_filling (a * 10 + b); args = args })
unfolding vprintf_step
step-second a b zero_filling args k ha hb =
    let digit : (leb 48 (48 + b) && leb (48 + b) 57) ≡ true = ground arith in
    let value : u32 (u32 (a * 10) + (48 + b - 48)) ≡ a * 10 + b = omega arith in
    rw (vprintf_step, digit, value) refl

step-d :
    (n width : ℕ) (zero_filling : Bool) (cs : List ℕ) (args : List Arg) (k : Klog)
    → width < 100
    → putint_text n width zero_filling ≡ some cs
    → vprintf_step b'd' (in_width zero_filling width) (word n ∷ args) k
      ≡ some (record { log = put_all cs k; scan = outside; args = args })
unfolding vprintf_step convert convert_word klog_putint
step-d n width zero_filling cs args k h printed =
    let small : ltb width (2 ^ 31) ≡ true = ground arith in
    rw (vprintf_step, convert, convert_word, klog_putint, small, printed) refl

-- A conversion `%d` with a width of two characters, of which the first may be the 0 that fills with
-- zeros, takes the next argument and puts its sign, its padding and its digits, which are those of the
-- magnitude; the rest of the format follows. Below 10 ^ 18 the padding is what the width has left
-- after as many characters as there are digits, or one less for a negative number.
pub klog_vprintf_core-putint_text :
    (n a b : ℕ) (s : List ℕ) (args : List Arg) (k : Klog)
    → n < 2 ^ 64
    → a ≤ 9
    → b ≤ 9
    → (w : ℕ) × (cs : List ℕ) × (klog_vprintf_core
          (b'%' ∷ (48 + a) ∷ (48 + b) ∷ b'd' ∷ s)
          (word n ∷ args)
          k
        ≡ klog_vprintf_core s args (
            put_all
              ((if leb (2 ^ 63) n then b'-' ∷ [] else [])
                ++ (replicate
                      ((a * 10 + b) - (if leb (2 ^ 63) n then w - 1 else w))
                      (if a == 0 then b'0' else b' ')
                    ++ cs))
              k))
      × (read_digits 10 0 (digit_values cs) ≡ (if leb (2 ^ 63) n then 2 ^ 64 - n else n))
      × ((w ≡ length cs) ⊎ (10 ^ 18 ≤ (if leb (2 ^ 63) n then 2 ^ 64 - n else n)))
unfolding klog_vprintf_core vprintf_loop vprintf_step
klog_vprintf_core-putint_text n a b s args k h ha hb =
    let lead : Bool = a == 0 in
    let (w, cs, printed, value, count) = putint_text-digits n (a * 10 + b) (a == 0) h in
    (
      w,
      cs,
      vprintf_loop-next (48 + a) ((48 + b) ∷ b'd' ∷ s) opened (word n ∷ args) k _
            (step-first a (word n ∷ args) k ha)
          ∙ vprintf_loop-next (48 + b) (b'd' ∷ s) (in_width lead a) (word n ∷ args) k _
              (step-second a b lead (word n ∷ args) k ha hb)
          ∙ vprintf_loop-next b'd' s (in_width lead (a * 10 + b)) (word n ∷ args) k _
              (step-d n (a * 10 + b) lead _ args k (omega arith) printed),
      value,
      count,
    )
