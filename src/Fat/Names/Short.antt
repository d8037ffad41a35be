-- ===== src/Fat/Names/Short.antt =====
-- Short names of fat32.h: the name that is shown, and the path that finds it.
use han_os.Base.{
  ℕ, zero, suc, ◌+◌, ◌-◌, ◌≤◌, ◌<◌, ◌≡◌, refl, sym, ◌∙◌, ap, arith, inl, inr, ◌⊎◌, Bool, true,
  false, not, ◌&&◌, ◌||◌, ltb, leb, ◌==◌, if◌then◌else◌, Bool-cases, List, [], ◌∷◌, ◌++◌, length,
  get_or, min, length-append, append-nil,
}
use han_os.Text.{toupper, islower}
use han_os.Fat.{FatEntry}
use han_os.Fat.Names.{
  cut_name, add_ext, fat32_get_short_filename, after_char, path_name, equal_loop,
  fat32_compare_entry_and_path,
}

-- A character of a short name: no lower case letter, no space, NUL or dot.
abbrev pub plain : ℕ → Bool
plain c = not (c == 0x20) && (not (c == 0) && (not (c == b'.') && not (leb b'a' c && leb c b'z')))

abbrev pub slice : (ℕ → ℕ) → ℕ → ℕ → List ℕ
slice b k zero = []
slice b k (suc n) = b k ∷ slice b (k + 1) n

-- Eleven bytes with a name of `m` characters and an extension of `e`, padded with spaces.
pub record IsShort (b : ℕ → ℕ) (m e : ℕ) : Type 0 where
  pub base_some : 0 < m
  pub base_in : m ≤ 8
  pub ext_in : e ≤ 3
  pub base_plain : (i : ℕ) → i < m → plain (b i) ≡ true
  pub base_pad : (i : ℕ) → m ≤ i → i < 8 → b i ≡ 0x20
  pub ext_plain : (i : ℕ) → i < e → plain (b (8 + i)) ≡ true
  pub ext_pad : (i : ℕ) → e ≤ i → i < 3 → b (8 + i) ≡ 0x20

cut_name_lem :
    (n m k : ℕ) (b : ℕ → ℕ)
    → m ≤ n
    → ((i : ℕ) → i < m → plain (b (k + i)) ≡ true)
    → (m < n → b (k + m) ≡ 0x20)
    → cut_name n b k ≡ slice b k m
unfolding cut_name
cut_name_lem zero zero k b h chars pad = refl
cut_name_lem zero (suc m) k b h chars pad = absurd (omega arith)
cut_name_lem (suc n) zero k b h chars pad =
    let e : k ≡ k + 0 = omega arith in
    let here : b k ≡ 0x20 = ap b e ∙ pad (omega arith) in rw here refl
cut_name_lem (suc n) (suc m) k b h chars pad =
    let e : k ≡ k + 0 = omega arith in
    let here : plain (b k) ≡ true = ap (λ x. plain (b x)) e ∙ chars 0 (omega arith) in
    let kept : (b k == 0x20) || (b k == 0) ≡ false = ground arith in
    rw kept (
      ap (λ r. b k ∷ r)
        (cut_name_lem n m (k + 1) b (omega arith)
          (λ i hi.
            (let next : k + 1 + i ≡ k + suc i = omega arith in
              rw next (chars (suc i) (omega arith))))
          (λ lt. (let next : k + 1 + m ≡ k + suc m = omega arith in rw next (pad (omega arith))))))

-- The name that is shown.
abbrev pub shown : (ℕ → ℕ) → ℕ → ℕ → List ℕ
shown b m e = add_ext (slice b 0 m) (slice b 8 e)

pub get_short_filename_lem :
    (b : ℕ → ℕ) (m e : ℕ) → IsShort b m e → fat32_get_short_filename b ≡ shown b m e
unfolding fat32_get_short_filename
get_short_filename_lem b m e s =
    let base : cut_name 8 b 0 ≡ slice b 0 m =
      cut_name_lem 8 m 0 b s.base_in
        (λ i hi. (let z : 0 + i ≡ i = omega arith in rw z (s.base_plain i hi)))
        (λ h. (let z : 0 + m ≡ m = omega arith in rw z (s.base_pad m (omega arith) h))) in
    let ext : cut_name 3 b 8 ≡ slice b 8 e =
      cut_name_lem 3 e 8 b s.ext_in s.ext_plain (λ h. s.ext_pad e (omega arith) h) in
    rw (base, ext) refl

length-slice : (b : ℕ → ℕ) (k n : ℕ) → length (slice b k n) ≡ n
length-slice b k zero = refl
length-slice b k (suc n) = ap suc (length-slice b (k + 1) n)

get_or-slice :
    (b : ℕ → ℕ) (k n i : ℕ) (rest : List ℕ) → i < n → get_or (slice b k n ++ rest) i 0 ≡ b (k + i)
get_or-slice b k zero i rest h = absurd (omega arith)
get_or-slice b k (suc n) zero rest h = (let e : k ≡ k + 0 = omega arith in ap b e)
get_or-slice b k (suc n) (suc i) rest h =
    let next : k + 1 + i ≡ k + suc i = omega arith in
    get_or-slice b (k + 1) n i rest (omega arith) ∙ ap b next

get_or-after :
    (b : ℕ → ℕ) (k n i : ℕ) (rest : List ℕ) (d : ℕ)
    → get_or (slice b k n ++ rest) (n + i) d ≡ get_or rest i d
get_or-after b k zero i rest d = (let z : 0 + i ≡ i = omega arith in rw z refl)
get_or-after b k (suc n) i rest d =
    let z : suc n + i ≡ suc (n + i) = omega arith in rw z (get_or-after b (k + 1) n i rest d)

-- The dot comes right after the base.
after_char-slice :
    (b : ℕ → ℕ) (k n : ℕ) (rest : List ℕ)
    → ((i : ℕ) → i < n → plain (b (k + i)) ≡ true)
    → after_char b'.' (slice b k n ++ rest) ≡ n + after_char b'.' rest
unfolding after_char
after_char-slice b k zero rest chars = omega arith
after_char-slice b k (suc n) rest chars =
    let e : k ≡ k + 0 = omega arith in
    let here : plain (b k) ≡ true = ap (λ x. plain (b x)) e ∙ chars 0 (omega arith) in
    let no_dot : (b k == b'.') ≡ false = ground arith in
    let rest_is = after_char-slice b (k + 1) n rest (λ i hi.
      (let next : k + 1 + i ≡ k + suc i = omega arith in rw next (chars (suc i) (omega arith)))) in
    rw no_dot (omega (arith, rest_is))

equal_loop_lem :
    (n k : ℕ) (a b : ℕ → ℕ) → ((i : ℕ) → i < k + n → a i ≡ b i) → equal_loop n k a b ≡ true
unfolding equal_loop
equal_loop_lem zero k a b same = refl
equal_loop_lem (suc n) k a b same =
    let here : (a k == b k) ≡ true = (let e = same k (omega arith) in ground arith) in
    rw here (equal_loop_lem n (k + 1) a b (λ i h. same i (omega arith)))

-- The buffer of a path without a dot, and of one with it.
path_name-plain :
    (before : ℕ) (path : List ℕ) (k i : ℕ)
    → after_char b'.' path ≡ k
    → (get_or (before ∷ path) k 0 == b'.') ≡ false
    → length path ≤ 8
    → path_name before path i ≡ (if ltb i (length path) then get_or path i 0 else 0x20)
unfolding path_name
path_name-plain before path k i at dot short =
    let len : min (length path) 8 ≡ length path = omega arith in
    rw (at, dot, len)
      (elim (Bool-cases (ltb i (length path))) [ inl h ↦ rw h refl | inr h ↦ rw h (ground arith) ])

path_name-dotted :
    (before : ℕ) (path : List ℕ) (k e i : ℕ)
    → after_char b'.' path ≡ suc k
    → (get_or (before ∷ path) (suc k) 0 == b'.') ≡ true
    → k ≤ 8
    → length path ≡ suc k + e
    → e ≤ 3
    → path_name before path i ≡ (
        if ltb i k
        then get_or path i 0
        else (if leb 8 i && ltb (i - 8) e then get_or path (suc k + (i - 8)) 0 else 0x20))
unfolding path_name
path_name-dotted before path k e i at dot base size ext =
    let base_len : min (suc k - 1) 8 ≡ k = omega arith in
    let ext_len : min (suc k + e - suc k) 3 ≡ e = omega arith in
    rw (at, dot, size, base_len, ext_len) refl

get_or-own : (b : ℕ → ℕ) (k n i : ℕ) → i < n → get_or (slice b k n) i 0 ≡ b (k + i)
get_or-own b k n i h =
    ap (λ l. get_or l i 0) (sym (append-nil (slice b k n))) ∙ get_or-slice b k n i [] h

get_or-last : (b : ℕ → ℕ) (before m : ℕ) → 0 < m → get_or (before ∷ slice b 0 m) m 0 ≡ b (m - 1)
get_or-last b before zero h = absurd (omega arith)
get_or-last b before (suc n) h =
    let z : 0 + n ≡ suc n - 1 = omega arith in get_or-own b 0 (suc n) n (omega arith) ∙ ap b z

-- The bytes after the base and the extension.
space_after :
    (b : ℕ → ℕ) (m e i : ℕ)
    → IsShort b m e
    → i < 11
    → m ≤ i
    → leb 8 i && ltb (i - 8) e ≡ false
    → 0x20 ≡ b i
space_after b m e i s h past out = elim (Bool-cases (ltb i 8)) [
  | inl base ↦ sym (s.base_pad i past (ground arith))
  | inr ext ↦
      (let at : i ≡ 8 + (i - 8) = ground arith in
        sym (ap b at ∙ s.ext_pad (i - 8) (ground arith) (omega arith)))
]

base_plain-from : (b : ℕ → ℕ) (m e i : ℕ) → IsShort b m e → i < m → plain (b (0 + i)) ≡ true
base_plain-from b m e i s h = (let z : 0 + i ≡ i = omega arith in rw z (s.base_plain i h))

-- Every byte of the name is a character or a space.
shown_or_space :
    (b : ℕ → ℕ) (m e i : ℕ) → IsShort b m e → i < 11 → (plain (b i) ≡ true) ⊎ (b i ≡ 0x20)
shown_or_space b m e i s h = elim (Bool-cases (ltb i 8)) [
  | inl base ↦ elim (Bool-cases (ltb i m)) [
    | inl char ↦ inl (s.base_plain i (ground arith))
    | inr pad ↦ inr (s.base_pad i (ground arith) (ground arith))
  ]
  | inr ext ↦
      let at : i ≡ 8 + (i - 8) = ground arith in
      elim (Bool-cases (ltb (i - 8) e)) [
        | inl char ↦ inl (ap (λ x. plain (b x)) at ∙ s.ext_plain (i - 8) (ground arith))
        | inr pad ↦ inr (ap b at ∙ s.ext_pad (i - 8) (ground arith) (omega arith))
      ]
]

toupper-shown : (b : ℕ → ℕ) (m e i : ℕ) → IsShort b m e → i < 11 → toupper (b i) ≡ b i
unfolding toupper islower
toupper-shown b m e i s h = elim (shown_or_space b m e i s h) [
  | inl char ↦ ground arith
  | inr space ↦ rw space refl
]

path_name-shown :
    (b : ℕ → ℕ) (m e before i : ℕ) → IsShort b m e → i < 11 → path_name before (shown b m e) i ≡ b i
unfolding after_char
path_name-shown b m zero before i s hi =
    let path = slice b 0 m in
    let same : path ++ [] ≡ path = append-nil path in
    let chars = λ (i : ℕ) (h : i < m). base_plain-from b m 0 i s h in
    let whole = after_char-slice b 0 m [] chars in
    let at : after_char b'.' path ≡ m = ap (after_char b'.') (sym same) ∙ (whole ∙ omega arith) in
    let final : get_or (before ∷ path) m 0 ≡ b (m - 1) = get_or-last b before m s.base_some in
    let char = s.base_plain (m - 1) (omega (arith, s.base_some)) in
    let last : (get_or (before ∷ path) m 0 == b'.') ≡ false = rw final (ground arith) in
    let size = length-slice b 0 m in
    path_name-plain before path m i at last (omega (arith, size, s.base_in))
    ∙ rw size (elim (Bool-cases (ltb i m)) [
      | inl h ↦ rw h (let z : 0 + i ≡ i = omega arith in get_or-own b 0 m i (ground arith) ∙ ap b z)
      | inr h ↦ rw h (space_after b m 0 i s hi (ground arith) (ground arith))
    ])
path_name-shown b m (suc e) before i s hi =
    let rest = b'.' ∷ slice b 8 (suc e) in
    let path = slice b 0 m ++ rest in
    let chars = λ (i : ℕ) (h : i < m). base_plain-from b m (suc e) i s h in
    let at : after_char b'.' path ≡ suc m = after_char-slice b 0 m rest chars ∙ omega arith in
    let dot_at : get_or path m 0 ≡ b'.' =
      (let z : m ≡ m + 0 = omega arith in
        ap (λ k. get_or path k 0) z ∙ get_or-after b 0 m 0 rest 0) in
    let dot : (get_or (before ∷ path) (suc m) 0 == b'.') ≡ true = rw dot_at refl in
    let size : length path ≡ suc m + suc e =
      omega
        (arith, length-append (slice b 0 m) rest, length-slice b 0 m, length-slice b 8 (suc e)) in
    path_name-dotted before path m (suc e) i at dot s.base_in size s.ext_in
    ∙ elim (Bool-cases (ltb i m)) [
      | inl h ↦
          rw h
            (let z : 0 + i ≡ i = omega arith in get_or-slice b 0 m i rest (ground arith) ∙ ap b z)
      | inr h ↦ rw h (elim (Bool-cases (leb 8 i && ltb (i - 8) (suc e))) [
        | inl in_ext ↦ rw in_ext (
            let past : suc m + (i - 8) ≡ m + suc (i - 8) = omega arith in
            let back : 8 + (i - 8) ≡ i = ground arith in
            ap (λ k. get_or path k 0) past
            ∙ (get_or-after b 0 m (suc (i - 8)) rest 0
                ∙ (get_or-own b 8 (suc e) (i - 8) (ground arith) ∙ ap b back)))
        | inr out ↦ rw out (space_after b m (suc e) i s hi (ground arith) out)
      ])
    ]

-- A file is found under the name that is shown for it. For an entry whose name is padded with spaces and
-- has no lower case letter, comparing it with the path that `fat32_get_short_filename` gives succeeds.
pub compare-get_short_filename :
    (ent : FatEntry) (m e before : ℕ)
    → IsShort ent.name m e
    → fat32_compare_entry_and_path ent before (fat32_get_short_filename ent.name) ≡ true
unfolding fat32_compare_entry_and_path
compare-get_short_filename ent m e before s = rw (get_short_filename_lem ent.name m e s) (
    equal_loop_lem 11 0 ent.name (λ i. toupper (path_name before (shown ent.name m e) i))
      (λ i h. sym (
        ap toupper (path_name-shown ent.name m e before i s (omega arith))
        ∙ toupper-shown ent.name m e i s (omega arith))))
