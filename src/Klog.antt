-- ===== src/Klog.antt =====
-- kernel/lib/klog.c: the log of a terminal, a ring of characters that the terminal is redrawn from,
-- and the printing of numbers into it. There are two logs, one for each terminal, that nothing
-- connects: the functions here take the one that `mode` names. A call of `term_putch` is a character
-- of the list `sent`.
pub mod Ring
pub mod Hex
pub mod Dec
pub mod Printf
pub mod Lines
mod Tests
use han_os.Base.{
  ℕ, zero, suc, ◌+◌, ◌-◌, ◌*◌, ◌/◌, ◌%◌, Bool, true, false, not, ◌&&◌, ◌||◌, Option, none, some,
  List, [], ◌∷◌, ◌++◌, ltb, leb, ◌==◌, if◌then◌else◌, get_or, set, length, replicate, u8, u64, ◌/◌,
  ◌%◌, bit_and, ◌>>>◌,
}

abbrev pub klog_buffer_size : ℕ
klog_buffer_size = 65536

-- `klog_info_t`, and what was sent to the terminal; the lock and the unused `term` are left out.
pub record Klog : Type 0 where
  pub buff : List ℕ
  pub start : ℕ
  pub end : ℕ
  pub sent : List ℕ

-- The indices after a character is written.
abbrev pub next_end : Klog → ℕ
next_end k = if leb klog_buffer_size (k.end + 1) then 0 else k.end + 1

abbrev pub pushed_start : Klog → ℕ
pushed_start k = if next_end k == k.start then k.start + 1 else k.start

pub klog_putch : ℕ → Klog → Klog
klog_putch i k = record {
  buff = set k.buff k.end i;
  end = next_end k;
  start = if leb klog_buffer_size (pushed_start k) then 0 else pushed_start k;
  sent = k.sent ++ (i ∷ []);
}

pub klog_init : List ℕ → Klog
klog_init sent = record { buff = replicate klog_buffer_size 0; start = 0; end = 0; sent = sent }

-- The two conditions that end the loop of `klog_refresh`, at index `i`.
abbrev pub at_end : Klog → ℕ → Bool
at_end k i = if leb k.start k.end then leb k.end i else leb k.end i && ltb i k.start

abbrev pub wrapped : ℕ → ℕ
wrapped i = if leb klog_buffer_size i then 0 else i

-- The loop of `klog_refresh`: the characters that it sends to the terminal; `none` is the end of the
-- fuel.
pub refresh_loop : ℕ → ℕ → Klog → Option (List ℕ)
refresh_loop zero i k = none
refresh_loop (suc fuel) i k =
    let rest = refresh_loop fuel (wrapped i + 1) k in
    if at_end k (wrapped i)
    then some []
    else elim rest [ none ↦ none | some cs ↦ some (get_or k.buff (wrapped i) 0 ∷ cs) ]

-- `klog_refresh`, with as many rounds as the ring has cells: `unknown` is whether the terminal's mode
-- is TERM_MODE_UNKNOWN. Then the terminal is cleared and the characters are sent to it again.
pub klog_refresh : Bool → Klog → Option Klog
klog_refresh false k = some k
klog_refresh true k = elim (refresh_loop klog_buffer_size k.start k) [
  | none ↦ none
  | some cs ↦ some (record k { sent = cs })
]

-- The characters that a function prints, put one by one.
pub put_all : List ℕ → Klog → Klog
put_all [] k = k
put_all (c ∷ cs) k = put_all cs (klog_putch c k)

-- The characters of `klog_puts` for a string without its end: spaces fill the width.
pub padding : ℕ → List ℕ
padding zero = []
padding (suc n) = b' ' ∷ padding n

pub klog_puts : List ℕ → ℕ → Klog → Klog
klog_puts s width k = put_all (padding (width - length s)) (put_all s k)

-- The character of a digit of `klog_puthex`.
abbrev pub hex_char : ℕ → ℕ
hex_char digit = if leb digit 9 then digit + 48 else digit - 10 + 65

-- The loop of `klog_puthex` by the rounds left: `i` is four times the rounds after this one.
pub hex_loop : ℕ → ℕ → ℕ → ℕ → List ℕ
hex_loop zero cnt n width = []
hex_loop (suc rounds) cnt n width =
    let rest = hex_loop rounds (cnt + 1) n width in
    if ltb 0 width && leb (cnt + 1 + width) 16
    then rest
    else hex_char (bit_and (n >>> (4 * rounds)) 0xF) ∷ rest

pub klog_puthex : ℕ → ℕ → Klog → Klog
klog_puthex n width k = put_all (hex_loop 16 0 n width) k

-- The last loop of `klog_putint`, which prints the digits of a number below `div`.
pub digits_loop : ℕ → ℕ → ℕ → Option (List ℕ)
digits_loop zero n div = none
digits_loop (suc fuel) n div =
    let digit : ℕ = u8 ((n % div - n % (div / 10)) / (div / 10)) in
    let rest = digits_loop fuel n (div / 10) in
    if leb 10 div then elim rest [ none ↦ none | some cs ↦ some ((digit + 48) ∷ cs) ] else some []

-- The loop before it: the first power of ten above the number.
pub div_loop : ℕ → ℕ → ℕ → Option ℕ
div_loop zero temp div = none
div_loop (suc fuel) temp div =
    let rest = div_loop fuel (temp / 10) (u64 (div * 10)) in if ltb 0 temp then rest else some div

-- The digits that `klog_putint` prints of a number that is not negative: at most 19.
pub putint_digits : ℕ → Option (List ℕ)
putint_digits n = elim (div_loop 20 n 1) [ none ↦ none | some div ↦ digits_loop 20 n div ]
