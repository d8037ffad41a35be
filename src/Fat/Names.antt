-- ===== src/Fat/Names.antt =====
-- The names of kernel/fs/fat32.h and the comparison of a name with a path in fat32.c. A string is the list
-- of its bytes without the NUL; the bounds of the arrays that hold names are not checked.
pub mod Short
pub mod Long
use han_os.Base.{
  ℕ, zero, suc, ◌+◌, ◌-◌, ◌*◌, ◌/◌, ◌%◌, ◌^◌, Bool, true, false, not, ◌&&◌, ◌||◌, List, [], ◌∷◌,
  ◌++◌, ltb, leb, ◌==◌, if◌then◌else◌, bit_and, nonzero, length, get_or, drop, min, u32,
}
use han_os.Text.{toupper}
use han_os.Fat.{FatEntry}

-- `fn` or `ext`: `n` bytes from offset `k`, cut at the first space or NUL.
unfoldable pub cut_name : ℕ → (ℕ → ℕ) → ℕ → List ℕ
cut_name zero b k = []
cut_name (suc n) b k =
    (let rest = cut_name n b (k + 1) in if b k == 0x20 || b k == 0 then [] else b k ∷ rest)

abbrev pub add_ext : List ℕ → List ℕ → List ℕ
add_ext fn [] = fn
add_ext fn (c ∷ ext) = fn ++ (b'.' ∷ c ∷ ext)

unfoldable pub fat32_get_short_filename : (ℕ → ℕ) → List ℕ
fat32_get_short_filename file_name_and_ext =
    add_ext (cut_name 8 file_name_and_ext 0) (cut_name 3 file_name_and_ext 8)

-- Character `i` of the 13 that `fat32_name_copy` takes from an entry of a long name, every second
-- byte of `name1`, `name2` and `name3`.
abbrev pub lfn_char : (ℕ → ℕ) → ℕ → ℕ
lfn_char lfne i =
    if ltb i 5
    then lfne (1 + 2 * i)
    else (if ltb i 11 then lfne (14 + 2 * (i - 5)) else lfne (28 + 2 * (i - 11)))

-- The characters from `i` on up to the NUL, which `strcat` then replaces.
unfoldable pub lfn_text : ℕ → (ℕ → ℕ) → ℕ → List ℕ
lfn_text zero lfne i = []
lfn_text (suc n) lfne i =
    let rest = lfn_text n lfne (i + 1) in
    if lfn_char lfne i == 0 then [] else lfn_char lfne i ∷ rest

-- The loop of `fat32_get_long_filename`, by the entries up to the last one. The entry at hand is at
-- offset `at` of the buffer.
unfoldable pub lfn_loop : ℕ → (ℕ → ℕ) → ℕ → ℕ → ℕ → List ℕ → ℕ × List ℕ
lfn_loop zero buf at count entry_num fname = (0, fname)
lfn_loop (suc n) buf at count entry_num fname =
    let lfne : ℕ → ℕ = λ q. buf (at + q) in
    let idx = bit_and (lfne 0) 0x3f in
    let fname' = lfn_text 13 lfne 0 ++ fname in
    let entry_num' = if nonzero (bit_and (lfne 0) 0x40) then idx else entry_num in
    let rest = lfn_loop n buf (at + 32) (count + 1) entry_num' fname' in
    if idx == 1 && count + 1 == entry_num' then (count + 1, fname') else rest

-- The number of entries, or 0, and the name, for the entry at offset `at` and `n` entries from it to the last.
unfoldable pub fat32_get_long_filename : ℕ → (ℕ → ℕ) → ℕ → ℕ × List ℕ
fat32_get_long_filename n buf at = lfn_loop n buf at 0 0 []

-- `strchrnul` on a list: the offset after the first `c`, or that of the end.
unfoldable pub after_char : ℕ → List ℕ → ℕ
after_char c [] = 0
after_char c (x ∷ xs) = (let rest = after_char c xs in if x == c then 1 else suc rest)

-- Byte `i` of the buffer `name`, before the letters are made large. `before` is the byte in memory before the
-- path, which is read when that is empty.
unfoldable pub path_name : ℕ → List ℕ → ℕ → ℕ
path_name before path i =
    let ext = after_char b'.' path in
    let dotted = get_or (before ∷ path) ext 0 == b'.' in
    let base_len = if dotted then min (ext - 1) 8 else min (length path) 8 in
    let ext_len = if dotted then min (length path - ext) 3 else 0 in
    if ltb i base_len
    then get_or path i 0
    else (if leb 8 i && ltb (i - 8) ext_len then get_or path (ext + (i - 8)) 0 else 0x20)

unfoldable pub equal_loop : ℕ → ℕ → (ℕ → ℕ) → (ℕ → ℕ) → Bool
equal_loop zero i a b = true
equal_loop (suc n) i a b =
    (let rest = equal_loop n (i + 1) a b in if a i == b i then rest else false)

unfoldable pub fat32_compare_entry_and_path : FatEntry → ℕ → List ℕ → Bool
fat32_compare_entry_and_path ent before path =
    equal_loop 11 0 ent.name (λ i. toupper (path_name before path i))
