-- ===== src/Fat/Names/Long.antt =====
-- Long names of fat32.h: what the entries of a name are decoded to.
use han_os.Base.{
  ℕ, zero, suc, ◌+◌, ◌-◌, ◌*◌, ◌/◌, ◌%◌, ◌≤◌, ◌<◌, ◌≡◌, ◌≢◌, refl, ◌∙◌, ap, arith, inl, inr, Bool,
  true, false, not, ◌&&◌, ltb, ◌==◌, if◌then◌else◌, Bool-cases, List, [], ◌∷◌, ◌++◌, length, get_or,
  take, drop, bit_and, bit_and-low, nonzero, all_below, all_below_sound, length-take,
  take-append-drop,
}
use han_os.Fat.Names.{lfn_char, lfn_text, lfn_loop, fat32_get_long_filename}

abbrev pub no_nul : List ℕ → Bool
no_nul [] = true
no_nul (c ∷ cs) = if c == 0 then false else no_nul cs

-- The characters of a list, a NUL after it, and 0xff after that.
abbrev pub padded : List ℕ → ℕ → ℕ
padded p i = if ltb i (length p) then get_or p i 0 else (if i == length p then 0 else 0xff)

-- Byte `o` of an entry with the sequence number `s` and the characters `p`, as a file system writes it:
-- characters of two bytes, in three fields.
abbrev pub lfn_byte : ℕ → List ℕ → ℕ → ℕ
lfn_byte s p o =
    if o == 0
    then s
    else (if ltb o 11
        then (if o % 2 == 1 then padded p (o / 2) else 0)
        else (if o == 11
            then 0x0f
            else (if ltb o 14
                then 0
                else (if ltb o 26
                    then (if o % 2 == 0 then padded p ((o - 14) / 2 + 5) else 0)
                    else (if ltb o 28
                        then 0
                        else (if o % 2 == 0 then padded p ((o - 28) / 2 + 11) else 0))))))

-- The entries of a name, the last part first: entry `j` of `n` has the number `n - j`, the first one marked.
abbrev pub lfn_bytes : ℕ → List ℕ → ℕ → ℕ
lfn_bytes n name q =
    let i = n - q / 32 in
    lfn_byte (if q / 32 == 0 then i + 64 else i) (take 13 (drop (13 * (i - 1)) name)) (q % 32)

lfn_char-byte : (s : ℕ) (p : List ℕ) (i : ℕ) → i < 13 → lfn_char (lfn_byte s p) i ≡ padded p i
lfn_char-byte s p zero h = refl
lfn_char-byte s p (suc zero) h = refl
lfn_char-byte s p (suc (suc zero)) h = refl
lfn_char-byte s p (suc (suc (suc zero))) h = refl
lfn_char-byte s p (suc (suc (suc (suc zero)))) h = refl
lfn_char-byte s p (suc (suc (suc (suc (suc zero))))) h = refl
lfn_char-byte s p (suc (suc (suc (suc (suc (suc zero)))))) h = refl
lfn_char-byte s p (suc (suc (suc (suc (suc (suc (suc zero))))))) h = refl
lfn_char-byte s p (suc (suc (suc (suc (suc (suc (suc (suc zero)))))))) h = refl
lfn_char-byte s p (suc (suc (suc (suc (suc (suc (suc (suc (suc zero))))))))) h = refl
lfn_char-byte s p (suc (suc (suc (suc (suc (suc (suc (suc (suc (suc zero)))))))))) h = refl
lfn_char-byte s p (suc (suc (suc (suc (suc (suc (suc (suc (suc (suc (suc zero))))))))))) h = refl
lfn_char-byte s p (suc (suc (suc (suc (suc (suc (suc (suc (suc (suc (suc (suc zero)))))))))))) h =
    refl
lfn_char-byte s p (suc (suc (suc (suc (suc (suc (suc (suc (suc (suc (suc (suc (suc i)))))))))))))
      h =
    absurd (omega arith)

lfn_char-same :
    (f g : ℕ → ℕ) (i : ℕ) → i < 13 → ((q : ℕ) → q < 32 → f q ≡ g q) → lfn_char f i ≡ lfn_char g i
lfn_char-same f g i h same = elim (Bool-cases (ltb i 5)) [
  | inl low ↦ rw low (same (1 + 2 * i) (ground arith))
  | inr high ↦ rw high (elim (Bool-cases (ltb i 11)) [
    | inl mid ↦ rw mid (same (14 + 2 * (i - 5)) (ground arith))
    | inr last ↦ rw last (same (28 + 2 * (i - 11)) (omega arith))
  ])
]

lfn_text_lem :
    (n i : ℕ) (lfne : ℕ → ℕ) (p : List ℕ)
    → length p ≤ n
    → no_nul p ≡ true
    → ((k : ℕ) → k < n → lfn_char lfne (i + k) ≡ padded p k)
    → lfn_text n lfne i ≡ p
unfolding lfn_text
lfn_text_lem zero i lfne [] h some chars = refl
lfn_text_lem zero i lfne (c ∷ p) h some chars = absurd (omega arith)
lfn_text_lem (suc n) i lfne [] h some chars =
    let here : lfn_char lfne i ≡ 0 =
      (let e : i ≡ i + 0 = omega arith in ap (lfn_char lfne) e ∙ chars 0 (omega arith)) in
    rw here refl
lfn_text_lem (suc n) i lfne (c ∷ p) h some chars =
    let here : lfn_char lfne i ≡ c =
      (let e : i ≡ i + 0 = omega arith in
        let head : padded (c ∷ p) 0 ≡ c = ground arith in
        ap (lfn_char lfne) e ∙ chars 0 (omega arith) ∙ head) in
    let char : (c == 0) ≡ false = ground arith in
    rw (here, char)
      (ap (λ r. c ∷ r)
        (lfn_text_lem n (i + 1) lfne p (omega arith) (ground arith) (λ k hk.
          (let next : i + 1 + k ≡ i + suc k = omega arith in
            rw next (chars (suc k) (omega arith) ∙ ground arith)))))

no_nul-take : (n : ℕ) (cs : List ℕ) → no_nul cs ≡ true → no_nul (take n cs) ≡ true
no_nul-take zero cs h = refl
no_nul-take (suc n) [] h = refl
no_nul-take (suc n) (c ∷ cs) h = ground (arith, no_nul-take n cs)

no_nul-drop : (n : ℕ) (cs : List ℕ) → no_nul cs ≡ true → no_nul (drop n cs) ≡ true
no_nul-drop zero cs h = h
no_nul-drop (suc n) [] h = refl
no_nul-drop (suc n) (c ∷ cs) h = no_nul-drop n cs (ground arith)

take-nil : (n : ℕ) → take {A = ℕ} n [] ++ [] ≡ []
take-nil zero = refl
take-nil (suc n) = refl

take-append-next : (n m : ℕ) (cs : List ℕ) → take n (drop m cs) ++ drop (m + n) cs ≡ drop m cs
take-append-next n zero cs = (let e : 0 + n ≡ n = omega arith in rw e (take-append-drop n cs))
take-append-next n (suc m) [] = (let e : suc m + n ≡ suc (m + n) = omega arith in rw e (take-nil n))
take-append-next n (suc m) (c ∷ cs) =
    let e : suc m + n ≡ suc (m + n) = omega arith in rw e (take-append-next n m cs)

drop-all : (n : ℕ) (cs : List ℕ) → length cs ≤ n → drop n cs ≡ []
drop-all zero [] h = refl
drop-all zero (c ∷ cs) h = absurd (omega arith)
drop-all (suc n) [] h = refl
drop-all (suc n) (c ∷ cs) h = drop-all n cs (omega arith)

-- The two fields of a sequence number.
numbers_tested :
    all_below 64 (λ i. not (nonzero (bit_and i 0x40)) && nonzero (bit_and (i + 64) 0x40)) ≡ true
unfolding all_below
numbers_tested = refl

marked : ℕ → ℕ → ℕ
marked n i = if n - i == 0 then i + 64 else i

marked-idx : (n i : ℕ) → i < 64 → bit_and (marked n i) 0x3f ≡ i
unfolding marked
marked-idx n i h = bit_and-low (if n - i == 0 then i + 64 else i) 6 ∙ ground arith

marked-first : (n i : ℕ) → i < 64 → nonzero (bit_and (marked n i) 0x40) ≡ n - i == 0
unfolding marked
marked-first n i h =
    let tested =
      all_below_sound 64 (λ i. not (nonzero (bit_and i 0x40)) && nonzero (bit_and (i + 64) 0x40)) i
        numbers_tested h in
    elim (Bool-cases (n - i == 0)) [
      | inl e ↦ rw e (ground (arith, tested))
      | inr e ↦ rw e (ground (arith, tested))
    ]

lfn_bytes-at :
    (n i q : ℕ) (name : List ℕ)
    → i ≤ n
    → q < 32
    → lfn_bytes n name (32 * (n - i) + q)
      ≡ lfn_byte (marked n i) (take 13 (drop (13 * (i - 1)) name)) q
unfolding marked
lfn_bytes-at n i q name h hq =
    let entry : (32 * (n - i) + q) / 32 ≡ n - i = omega arith in
    let offset : (32 * (n - i) + q) % 32 ≡ q = omega arith in
    let number : n - (n - i) ≡ i = omega arith in rw (entry, offset, number) refl

-- The text of an entry is its part of the name.
lfn_bytes-text :
    (n i : ℕ) (name : List ℕ)
    → i ≤ n
    → no_nul name ≡ true
    → lfn_text 13 (λ q. lfn_bytes n name (32 * (n - i) + q)) 0 ≡ take 13 (drop (13 * (i - 1)) name)
lfn_bytes-text n i name h some =
    let p = take 13 (drop (13 * (i - 1)) name) in
    lfn_text_lem 13 0 (λ q. lfn_bytes n name (32 * (n - i) + q)) p
      (omega (arith, length-take 13 (drop (13 * (i - 1)) name)))
      (no_nul-take 13 (drop (13 * (i - 1)) name) (no_nul-drop (13 * (i - 1)) name some))
      (λ k hk.
        (let e : 0 + k ≡ k = omega arith in
          rw e (
            lfn_char-same _ (lfn_byte (marked n i) p) k hk (λ q hq. lfn_bytes-at n i q name h hq)
            ∙ lfn_char-byte (marked n i) p k hk)))

lfn_loop_lem :
    (rounds n i entry_num : ℕ) (name : List ℕ)
    → 0 < i
    → i ≤ n
    → n < 64
    → i ≤ rounds
    → (i < n → entry_num ≡ n)
    → no_nul name ≡ true
    → lfn_loop rounds (lfn_bytes n name) (32 * (n - i)) (n - i) entry_num (drop (13 * i) name)
      ≡ (n, name)
unfolding lfn_loop
lfn_loop_lem zero n i entry_num name pos hi hn hr known some = absurd (omega arith)
lfn_loop_lem (suc r) n i entry_num name pos hi hn hr known some =
    let text = lfn_bytes-text n i name hi some in
    let number : lfn_bytes n name (32 * (n - i) + 0) ≡ marked n i =
      lfn_bytes-at n i 0 name hi (omega arith) in
    let joined : take 13 (drop (13 * (i - 1)) name) ++ drop (13 * i) name
        ≡ drop (13 * (i - 1)) name =
      (let e : 13 * i ≡ 13 * (i - 1) + 13 = omega arith in
        rw e (take-append-next 13 (13 * (i - 1)) name)) in
    let entries : (if n - i == 0 then i else entry_num) ≡ n = elim (Bool-cases (n - i == 0)) [
      | inl e ↦ rw e (ground arith)
      | inr e ↦ rw e (known (ground arith))
    ] in
    rw (text, joined, number, marked-idx n i (omega arith), marked-first n i (omega arith), entries)
      (elim (Bool-cases (i == 1)) [
        | inl end ↦
            let at_end : (n - i + 1 == n) ≡ true = ground arith in
            let all : n - i + 1 ≡ n = ground arith in
            let none_left : 13 * (i - 1) ≡ 0 = ground arith in rw (end, at_end, all, none_left) refl
        | inr more ↦
            let left : i ≢ 1 = ground arith in
            let count : n - (i - 1) ≡ n - i + 1 = omega arith in
            let at : 32 * (n - i + 1) ≡ 32 * (n - i) + 32 = omega arith in
            let rest =
              lfn_loop_lem r n (i - 1) n name (omega arith) (omega arith) hn (omega arith)
                (λ _. refl) some in
            let here = rw (count, at) at rest in rw more here
      ])

-- The entries of a name give it back. For every name of at most 255 bytes, none of them NUL, that is in
-- the buffer as a file system writes it, in at most 20 entries with the last part first,
-- `fat32_get_long_filename` returns the number of the entries and the whole name.
pub get_long_filename-lfn_bytes :
    (n rounds : ℕ) (name : List ℕ)
    → 0 < n
    → n ≤ rounds
    → length name ≤ 13 * n
    → n ≤ 20
    → length name < 256
    → no_nul name ≡ true
    → fat32_get_long_filename rounds (lfn_bytes n name) 0 ≡ (n, name)
unfolding fat32_get_long_filename
get_long_filename-lfn_bytes n rounds name pos enough fits few small some =
    let count : n - n ≡ 0 = omega arith in
    let rest =
      lfn_loop_lem rounds n n 0 name pos (omega arith) (omega arith) enough
        (λ h. absurd (omega arith)) some in
    let whole = rw (count, drop-all (13 * n) name fits) at rest in whole
