-- ===== src/Klog/Tests.antt =====
-- Runs of klog.c, and its theorems at a concrete log.
use han_os.Base.{ℕ, ◌≡◌, refl, arith, true, some, [], ◌∷◌, ◌++◌, length-replicate}
use han_os.Klog.{
  Klog, klog_init, klog_putch, klog_refresh, put_all, hex_loop, putint_digits, div_loop,
  digits_loop, klog_puts, padding,
}
use han_os.Klog.Ring.{IsValid, contents, last, klog_refresh-contents, put_all-contents}

abbrev fresh : Klog
fresh = klog_init []

fresh-IsValid : IsValid fresh
unfolding klog_init
fresh-IsValid = record {
  room = length-replicate {A = ℕ} 65536 0;
  start_in = omega arith;
  end_in = omega arith;
}

greeting : (klog_puts (b'o' ∷ b'k' ∷ []) 4 fresh).sent ≡ b'o' ∷ b'k' ∷ b' ' ∷ b' ' ∷ []
unfolding klog_puts put_all padding klog_putch klog_init
greeting = refl

byte_text : hex_loop 16 0 0x1ae 2 ≡ b'A' ∷ b'E' ∷ []
unfolding hex_loop
byte_text = refl

put_all-contents_example :
    IsValid (put_all (b'o' ∷ b'k' ∷ []) fresh)
    × (contents (put_all (b'o' ∷ b'k' ∷ []) fresh)
        ≡ last 65535 (contents fresh ++ (b'o' ∷ b'k' ∷ [])))
put_all-contents_example = put_all-contents (b'o' ∷ b'k' ∷ []) fresh fresh-IsValid

klog_refresh-contents_example :
    klog_refresh true fresh ≡ some (record fresh { sent = contents fresh })
klog_refresh-contents_example = klog_refresh-contents fresh fresh-IsValid

decimal_text : putint_digits 1905 ≡ some (b'1' ∷ b'9' ∷ b'0' ∷ b'5' ∷ [])
unfolding putint_digits div_loop digits_loop
decimal_text = refl
