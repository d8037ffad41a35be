-- ===== src/Klog/Printf/Tests.antt =====
-- Runs of the formats of klog.c, and their theorem at a concrete number.
use han_os.Base.{
  replicate, ℕ, ◌-◌, ◌^◌, ◌≤◌, ◌≡◌, refl, ◌⊎◌, arith, true, false, none, some, List, [], ◌∷◌, ◌++◌,
  length,
}
use han_os.Klog.{Klog, klog_init, put_all, putint_digits, div_loop, digits_loop}
use han_os.Klog.Hex.{read_digits}
use han_os.Klog.Dec.{digit_values}
use han_os.Klog.Printf.{
  word, width_loop, putint_text, klog_vprintf_core, vprintf_loop, vprintf_step,
}
use han_os.Klog.Printf.Formats.{klog_vprintf_core-putint_text}

abbrev fresh : Klog
fresh = klog_init []

padded_text : putint_text 42 5 false ≡ some (b' ' ∷ b' ' ∷ b' ' ∷ b'4' ∷ b'2' ∷ [])
unfolding putint_text width_loop putint_digits div_loop digits_loop
padded_text = refl

-- A negative number gets two characters more than its width.
negative_text : putint_text (2 ^ 64 - 5) 2 true ≡ some (b'-' ∷ b'0' ∷ b'0' ∷ b'5' ∷ [])
unfolding putint_text width_loop putint_digits div_loop digits_loop
negative_text = refl

-- For 10 ^ 18 the loop counts 20 digits where there are 19.
long_text : width_loop 64 (10 ^ 18) 1 9 ≡ some 20
unfolding width_loop
long_text = refl

-- A format that ends in `%` is read past its end.
open_format : klog_vprintf_core (b'%' ∷ []) [] fresh ≡ none
unfolding klog_vprintf_core vprintf_loop vprintf_step
open_format = refl

klog_vprintf_core-putint_text_example :
    (w : ℕ) × (cs : List ℕ) × (klog_vprintf_core
        (b'%' ∷ b'0' ∷ b'4' ∷ b'd' ∷ b'-' ∷ [])
        (word 42 ∷ [])
        fresh
      ≡ klog_vprintf_core (b'-' ∷ []) [] (put_all (replicate (4 - w) b'0' ++ cs) fresh))
    × (read_digits 10 0 (digit_values cs) ≡ 42)
    × ((w ≡ length cs) ⊎ (10 ^ 18 ≤ 42))
klog_vprintf_core-putint_text_example =
    klog_vprintf_core-putint_text 42 0 4 (b'-' ∷ []) [] fresh (omega arith) (omega arith)
      (omega arith)
