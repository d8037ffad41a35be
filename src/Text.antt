-- ===== src/Text.antt =====
-- kernel/lib/string.c and memutils.c: strings and blocks of memory. The memory is a function from
-- addresses to bytes, and a string is an address. The loops that have no bound in C take fuel; `none`
-- is its end.
pub mod Copy
pub mod Compare
pub mod Block
mod Tests
use han_os.Base.{
  ℕ, zero, suc, ◌+◌, ◌-◌, ◌≤◌, ◌<◌, Bool, true, false, not, ◌&&◌, ◌||◌, Option, none, some, ltb,
  leb, ◌==◌, if◌then◌else◌,
}

-- One byte written.
abbrev pub poke : (ℕ → ℕ) → ℕ → ℕ → ℕ → ℕ
poke m p v q = if p == q then v else m q

pub strlen_loop : ℕ → (ℕ → ℕ) → ℕ → ℕ → Option ℕ
strlen_loop zero m s len = none
strlen_loop (suc fuel) m s len =
    let rest = strlen_loop fuel m s (len + 1) in if m (s + len) == 0 then some len else rest

pub strlen : ℕ → (ℕ → ℕ) → ℕ → Option ℕ
strlen fuel m s = strlen_loop fuel m s 0

-- The two characters whose difference `strcmp` returns.
pub strcmp_loop : ℕ → (ℕ → ℕ) → ℕ → ℕ → ℕ → Option (ℕ × ℕ)
strcmp_loop zero m a b i = none
strcmp_loop (suc fuel) m a b i =
    let rest = strcmp_loop fuel m a b (i + 1) in
    if not (m (a + i) == m (b + i)) || (m (a + i) == 0 || m (b + i) == 0)
    then some (m (a + i), m (b + i))
    else rest

pub strcmp : ℕ → (ℕ → ℕ) → ℕ → ℕ → Option (ℕ × ℕ)
strcmp fuel m a b = strcmp_loop fuel m a b 0

-- `strncmp`, by the rounds left; two equal characters stand for the 0 at the end.
pub strncmp_loop : ℕ → (ℕ → ℕ) → ℕ → ℕ → ℕ → ℕ × ℕ
strncmp_loop zero m a b i = (0, 0)
strncmp_loop (suc rounds) m a b i =
    let rest = strncmp_loop rounds m a b (i + 1) in
    if not (m (a + i) == m (b + i)) || (m (a + i) == 0 || m (b + i) == 0)
    then (m (a + i), m (b + i))
    else rest

pub strncmp : (ℕ → ℕ) → ℕ → ℕ → ℕ → ℕ × ℕ
strncmp m a b len = strncmp_loop len m a b 0

-- The loop of `strcpy` and `strcat`: `i` is the index into `dest`, which is `ahead` of that into
-- `src`. The test reads the memory after the write.
pub copy_loop : ℕ → ℕ → ℕ → ℕ → ℕ → (ℕ → ℕ) → Option (ℕ × (ℕ → ℕ))
copy_loop zero dest src ahead i m = none
copy_loop (suc fuel) dest src ahead i m =
    let m' = poke m (dest + i) (m (src + (i - ahead))) in
    let rest = copy_loop fuel dest src ahead (i + 1) m' in
    if m' (src + (i - ahead)) == 0 then some (i, m') else rest

pub strcpy : ℕ → ℕ → ℕ → (ℕ → ℕ) → Option (ℕ × (ℕ → ℕ))
strcpy fuel dest src m = copy_loop fuel dest src 0 0 m

pub strcat : ℕ → ℕ → ℕ → (ℕ → ℕ) → Option (ℕ × (ℕ → ℕ))
strcat fuel dest src m = elim (strlen fuel m dest) [
  | none ↦ none
  | some dest_len ↦ copy_loop fuel dest src dest_len dest_len m
]

-- The address after the first `c` of the string, or of its end.
pub strchrnul : ℕ → (ℕ → ℕ) → ℕ → ℕ → Option ℕ
strchrnul zero m s c = none
strchrnul (suc fuel) m s c =
    let rest = strchrnul fuel m (s + 1) c in
    if m s == 0 then some s else (if m s == c then some (s + 1) else rest)

unfoldable pub islower : ℕ → Bool
islower c = leb b'a' c && leb c b'z'

pub tolower : ℕ → ℕ
tolower c = if leb 0x41 c && leb c 0x5a then c + 0x20 else c

unfoldable pub toupper : ℕ → ℕ
unfolding islower
toupper c = if islower c then c - (b'a' - b'A') else c

-- `rep movsb`: the bytes are copied one by one, upwards.
pub memcpy_loop : ℕ → ℕ → ℕ → ℕ → (ℕ → ℕ) → ℕ → ℕ
memcpy_loop zero dst src i m = m
memcpy_loop (suc n) dst src i m = memcpy_loop n dst src (i + 1) (poke m (dst + i) (m (src + i)))

pub memcpy : ℕ → ℕ → ℕ → (ℕ → ℕ) → ℕ → ℕ
memcpy dst src len m = memcpy_loop len dst src 0 m

pub memset_loop : ℕ → ℕ → ℕ → ℕ → (ℕ → ℕ) → ℕ → ℕ
memset_loop zero addr val i m = m
memset_loop (suc n) addr val i m = memset_loop n addr val (i + 1) (poke m (addr + i) val)

pub memset : ℕ → ℕ → ℕ → (ℕ → ℕ) → ℕ → ℕ
memset addr val len m = memset_loop len addr val 0 m

pub memcmp_loop : ℕ → (ℕ → ℕ) → ℕ → ℕ → ℕ → Bool
memcmp_loop zero m s1 s2 i = true
memcmp_loop (suc n) m s1 s2 i =
    let rest = memcmp_loop n m s1 s2 (i + 1) in
    if not (m (s1 + i) == m (s2 + i)) then false else rest

pub memcmp : (ℕ → ℕ) → ℕ → ℕ → ℕ → Bool
memcmp m s1 s2 len = memcmp_loop len m s1 s2 0
