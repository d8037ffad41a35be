-- ===== src/Klog/Printf.antt =====
-- kernel/lib/klog.c: `klog_putint`, which pads a signed number to a width, and the formats of
-- `klog_vprintf_core`, read character by character.
pub mod Width
pub mod Formats
mod Tests
use han_os.Base.{
  ℕ, zero, suc, ◌+◌, ◌-◌, ◌*◌, ◌%◌, ◌^◌, Bool, false, ◌&&◌, ◌||◌, Option, none, some, List, [], ◌∷◌,
  ◌++◌, ltb, leb, ◌==◌, if◌then◌else◌, replicate, u32, u64,
}
use han_os.Klog.{Klog, klog_putch, klog_puts, klog_puthex, put_all, putint_digits}

-- Whether `a` is above `b` when the 64 bits of both are read as `int64_t`.
abbrev pub signed_above : ℕ → ℕ → Bool
signed_above a b = ltb (u64 (b + 2 ^ 63)) (u64 (a + 2 ^ 63))

-- The first loop of `klog_putint`, which counts the digits in `n_width`: `i` is a row of nines.
pub width_loop : ℕ → ℕ → ℕ → ℕ → Option ℕ
width_loop zero n_val n_width i = none
width_loop (suc fuel) n_val n_width i =
    let rest = width_loop fuel n_val (n_width + 1) (u64 (u64 (i * 10) + 9)) in
    if signed_above n_val i && ltb i (2 ^ 64 - 1) then rest else some n_width

-- The sign of the 64 bits of an `int64_t`, and its value without the sign.
abbrev pub is_negative : ℕ → Bool
is_negative n = leb (2 ^ 63) n

abbrev pub magnitude : ℕ → ℕ
magnitude n = if is_negative n then 2 ^ 64 - n else n

abbrev pub sign : ℕ → List ℕ
sign n = if is_negative n then b'-' ∷ [] else []

-- The width that is left for a number: one less when it is negative.
abbrev pub counted_width : ℕ → ℕ → ℕ
counted_width n n_width = if is_negative n then n_width - 1 else n_width

abbrev pub fill : ℕ → ℕ → Bool → List ℕ
fill n_width width zero_filling = replicate (width - n_width) (if zero_filling then b'0' else b' ')

abbrev pub lone_zero : ℕ → List ℕ
lone_zero n = if n == 0 then b'0' ∷ [] else []

-- The characters that `klog_putint` puts for the 64 bits `n`.
pub putint_text : ℕ → ℕ → Bool → Option (List ℕ)
putint_text n width zero_filling = elim (width_loop 64 (magnitude n) 1 9) [
  | none ↦ none
  | some n_width ↦ elim (putint_digits (magnitude n)) [
    | none ↦ none
    | some cs ↦
        some (sign n ++ (fill (counted_width n n_width) width zero_filling ++ (lone_zero n ++ cs)))
  ]
]

pub klog_putint : ℕ → ℕ → Bool → Klog → Option Klog
klog_putint n width zero_filling k = elim (putint_text n width zero_filling) [
  | none ↦ none
  | some cs ↦ some (put_all cs k)
]

-- An argument of a format: a word, or a string without its end.
pub data Arg : Type 0 where
  word : ℕ → Arg
  text : List ℕ → Arg

-- Where the loop of `klog_vprintf_core` stands: outside a conversion, right after its `%`, or in its
-- width.
pub data Place : Type 0 where
  outside : Place
  opened : Place
  in_width : Bool → ℕ → Place

-- The state of `klog_vprintf_core`: the log, the place, and the arguments that are left.
pub record Printing : Type 0 where
  pub log : Klog
  pub scan : Place
  pub args : List Arg

-- A width as the printers take it, which is an `int`: a negative one pads nothing.
abbrev int_width : ℕ → ℕ
int_width width = if ltb width (2 ^ 31) then width else 0

abbrev bool_text : ℕ → List ℕ
bool_text n =
    if n == 0 then b'f' ∷ b'a' ∷ b'l' ∷ b's' ∷ b'e' ∷ [] else b't' ∷ b'r' ∷ b'u' ∷ b'e' ∷ []

-- The conversions of a word: `d`, `x`, `c` and `b`. `none` stands for what is undefined.
convert_word : ℕ → Bool → ℕ → ℕ → Klog → Option Klog
convert_word c zero_filling width n k =
    if c == b'd'
    then klog_putint n width zero_filling k
    else if c == b'x'
    then some (klog_puthex n width k)
    else if c == b'c'
    then some (klog_putch (n % 256) k)
    else if c == b'b'
    then some (klog_puts (bool_text (u32 n)) 0 k)
    else none

convert_text : ℕ → ℕ → List ℕ → Klog → Option Klog
convert_text c width s k = if c == b's' then some (klog_puts s width k) else none

-- Whether a conversion takes an argument; `%` prints itself, and any other character nothing.
abbrev takes_arg : ℕ → Bool
takes_arg c = c == b'd' || (c == b'x' || (c == b's' || (c == b'c' || c == b'b')))

print_percent : ℕ → Klog → Klog
print_percent c k = if c == b'%' then klog_putch c k else k

convert : ℕ → Bool → ℕ → List Arg → Klog → Option Printing
convert c zero_filling width args k =
    if takes_arg c
    then elim args [
      | [] ↦ none
      | word n ∷ rest ↦ elim (convert_word c zero_filling width n k) [
        | none ↦ none
        | some l ↦ some (record { log = l; scan = outside; args = rest })
      ]
      | text s ∷ rest ↦ elim (convert_text c width s k) [
        | none ↦ none
        | some l ↦ some (record { log = l; scan = outside; args = rest })
      ]
    ]
    else some (record { log = print_percent c k; scan = outside; args = args })

abbrev is_digit : ℕ → Bool
is_digit c = leb b'0' c && leb c b'9'

-- One character of the format.
pub vprintf_step : ℕ → Place → List Arg → Klog → Option Printing
vprintf_step c outside args k =
    if c == b'%'
    then some (record { log = k; scan = opened; args = args })
    else some (record { log = klog_putch c k; scan = outside; args = args })
vprintf_step c opened args k =
    if is_digit c
    then some (record { log = k; scan = in_width (c == b'0') (c - 48); args = args })
    else convert c false 0 args k
vprintf_step c (in_width zero_filling width) args k =
    if is_digit c
    then some (record {
      log = k;
      scan = in_width zero_filling (u32 (u32 (width * 10) + (c - 48)));
      args = args;
    })
    else convert c zero_filling (int_width width) args k

-- The characters of a format one by one. A format that ends inside a conversion is read past its
-- end: `none`.
vprintf_loop : List ℕ → Place → List Arg → Klog → Option Klog
vprintf_loop [] outside args k = some k
vprintf_loop [] opened args k = none
vprintf_loop [] (in_width zero_filling width) args k = none
vprintf_loop (c ∷ s) scan args k = elim (vprintf_step c scan args k) [
  | none ↦ none
  | some p ↦ vprintf_loop s p.scan p.args p.log
]

pub klog_vprintf_core : List ℕ → List Arg → Klog → Option Klog
klog_vprintf_core s args k = vprintf_loop s outside args k
