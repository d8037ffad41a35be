-- ===== src/Klog/Hex.antt =====
-- `klog_puthex` prints the hexadecimal digits of a number.
use han_os.Base.{ℕ, ◌+◌, ◌-◌, ◌*◌, ◌&&◌, List, [], ◌∷◌, ltb, leb, if◌then◌else◌}

-- A numeral in base `b` read from its digits, the first one the highest.
unfoldable pub read_digits : ℕ → ℕ → List ℕ → ℕ
read_digits b acc [] = acc
read_digits b acc (d ∷ ds) = read_digits b (acc * b + d) ds

-- The digits that the loop prints: with a width from 1 to 16 that many, else all.
abbrev pub printed : ℕ → ℕ → ℕ
printed rounds width = if ltb 0 width && ltb width rounds then width else rounds

abbrev pub digit_of : ℕ → ℕ
digit_of c = if leb c 57 then c - 48 else c - 55

pub digits_of : List ℕ → List ℕ
digits_of [] = []
digits_of (c ∷ cs) = digit_of c ∷ digits_of cs
