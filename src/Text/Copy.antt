-- ===== src/Text/Copy.antt =====
-- The string functions on strings as lists of characters.
use han_os.Base.{
  ℕ, zero, suc, ◌+◌, ◌-◌, ◌≤◌, ◌<◌, ◌≡◌, ◌≢◌, ◌⊎◌, refl, ap, ◌∙◌, true, false, some, List, [], ◌∷◌,
  ◌++◌, length, ◌==◌, arith, inl,
}
use han_os.Text.{poke, strlen_loop, strlen, copy_loop, strcpy, strcat}

-- The string at `p` is `xs`: the characters, none of them 0, and a 0 after them.
abbrev pub Holds : (ℕ → ℕ) → ℕ → List ℕ → Type 0
Holds m p [] = m p ≡ 0
Holds m p (x ∷ xs) = (m p ≡ x) × (x ≢ 0) × Holds m (p + 1) xs

strlen_loop_lem :
    (fuel : ℕ) (m : ℕ → ℕ) (s len : ℕ) (xs : List ℕ)
    → length xs < fuel
    → Holds m (s + len) xs
    → strlen_loop fuel m s len ≡ some (len + length xs)
unfolding strlen_loop
strlen_loop_lem zero m s len xs h holds = absurd (omega arith)
strlen_loop_lem (suc fuel) m s len [] h holds =
    let done : (m (s + len) == 0) ≡ true = ground arith in
    let e : len ≡ len + 0 = omega arith in rw done (ap some e)
strlen_loop_lem (suc fuel) m s len (x ∷ xs) h (at, nonzero, rest) =
    let more : (m (s + len) == 0) ≡ false = ground arith in
    let e : s + len + 1 ≡ s + (len + 1) = omega arith in
    let sum : len + 1 + length xs ≡ len + suc (length xs) = omega arith in
    rw (more, strlen_loop_lem fuel m s (len + 1) xs (omega arith) (rw e at rest)) (ap some sum)

-- `strlen` of a string ends with the number of its characters.
pub strlen_lem :
    (fuel : ℕ) (m : ℕ → ℕ) (s : ℕ) (xs : List ℕ)
    → length xs < fuel
    → Holds m s xs
    → strlen fuel m s ≡ some (length xs)
unfolding strlen
strlen_lem fuel m s xs h holds =
    let e : s ≡ s + 0 = omega arith in
    strlen_loop_lem fuel m s 0 xs h (rw e at holds) ∙ ap some (omega arith)

-- A write before or after a string.
Holds-poke :
    (m : ℕ → ℕ) (q v p : ℕ) (xs : List ℕ)
    → (q < p) ⊎ (p + length xs < q)
    → Holds m p xs
    → Holds (poke m q v) p xs
Holds-poke m q v p [] apart h = ground arith
Holds-poke m q v p (x ∷ xs) apart (at, nonzero, rest) =
    (ground arith, nonzero, Holds-poke m q v (p + 1) xs (ground arith) rest)

-- What a copy of `xs` to `d` leaves: the string is there, and nothing else has changed.
pub record Copied (m m' : ℕ → ℕ) (d : ℕ) (xs : List ℕ) : Type 0 where
  pub there : Holds m' d xs
  pub elsewhere : (q : ℕ) → (q < d) ⊎ (d + length xs < q) → m' q ≡ m q

copy_loop_lem :
    (fuel dest src ahead i : ℕ) (m : ℕ → ℕ) (d p : ℕ) (xs : List ℕ)
    → d ≡ dest + i
    → p ≡ src + (i - ahead)
    → ahead ≤ i
    → length xs < fuel
    → Holds m p xs
    → (d + length xs < p) ⊎ (p + length xs < d)
    → (m' : ℕ → ℕ) × (copy_loop fuel dest src ahead i m ≡ some (i + length xs, m'))
      × Copied m m' d xs
unfolding copy_loop
copy_loop_lem zero dest src ahead i m d p xs ed ep hi h holds apart = absurd (omega arith)
copy_loop_lem (suc fuel) dest src ahead i m d p [] ed ep hi h holds apart =
    let done : (poke m (dest + i) (m (src + (i - ahead))) (src + (i - ahead)) == 0) ≡ true =
      rw (← ed, ← ep) (ground arith) in
    let e : i ≡ i + 0 = omega arith in
    (
      poke m (dest + i) (m (src + (i - ahead))),
      rw (done, ← e) refl,
      rw (← ed, ← ep) (record { there = ground arith; elsewhere = λ q out. ground arith }),
    )
copy_loop_lem (suc fuel) dest src ahead i m d p (x ∷ xs) ed ep hi h (at, nonzero, rest) apart =
    let m1 = poke m (dest + i) (m (src + (i - ahead))) in
    let more : (m1 (src + (i - ahead)) == 0) ≡ false = rw (← ed, ← ep) (ground arith) in
    let kept : Holds m1 (p + 1) xs = Holds-poke m (dest + i) _ (p + 1) xs (ground arith) rest in
    let (m', copies, copied) =
      copy_loop_lem fuel dest src ahead (i + 1) m1 (d + 1) (p + 1) xs (omega arith) (omega arith)
        (omega arith) (omega arith) kept (ground arith) in
    let first : m' d ≡ x =
      copied.elsewhere d (inl (omega arith)) ∙ rw (← ed, ← ep) (ground arith) in
    let e : i + 1 + length xs ≡ i + suc (length xs) = omega arith in
    (
      m',
      rw (more, copies, e),
      record {
        there = (first, nonzero, copied.there);
        elsewhere = λ q out. copied.elsewhere q (ground arith) ∙ rw (← ed) (ground arith);
      },
    )

-- `strcpy` of a string to a place apart from it ends with its length; the copy is there, and nothing
-- outside the copy has changed.
pub strcpy-Copied :
    (fuel dest src : ℕ) (m : ℕ → ℕ) (xs : List ℕ)
    → length xs < fuel
    → Holds m src xs
    → (dest + length xs < src) ⊎ (src + length xs < dest)
    → (m' : ℕ → ℕ) × (strcpy fuel dest src m ≡ some (length xs, m')) × Copied m m' dest xs
unfolding strcpy
strcpy-Copied fuel dest src m xs h holds apart =
    let (m', copies, copied) =
      copy_loop_lem fuel dest src 0 0 m dest src xs (omega arith) (omega arith) (omega arith) h
        holds apart in
    let e : 0 + length xs ≡ length xs = omega arith in (m', rw e at copies, copied)

Holds-append :
    (m m' : ℕ → ℕ) (p : ℕ) (xs ys : List ℕ)
    → Holds m p xs
    → ((q : ℕ) → q < p + length xs → m' q ≡ m q)
    → Holds m' (p + length xs) ys
    → Holds m' p (xs ++ ys)
Holds-append m m' p [] ys hx same hy = (let e : p + 0 ≡ p = omega arith in rw e at hy)
Holds-append m m' p (x ∷ xs) ys (at, nonzero, rest) same hy =
    let e : p + suc (length xs) ≡ p + 1 + length xs = omega arith in
    (
      same p (omega arith) ∙ at,
      nonzero,
      Holds-append m m' (p + 1) xs ys rest (λ q h. same q (omega arith)) (rw e at hy),
    )

strcat-strlen :
    (fuel dest src n : ℕ) (m : ℕ → ℕ)
    → strlen fuel m dest ≡ some n
    → strcat fuel dest src m ≡ copy_loop fuel dest src n n m
unfolding strcat
strcat-strlen fuel dest src n m e = rw (e, strcat)

-- `strcat` of a string to another, with the room for both apart from the source, ends with the
-- length of both; the two strings are at the destination, one after the other, and nothing but the
-- end of the first string and the room after it has changed.
pub strcat-Copied :
    (fuel dest src : ℕ) (m : ℕ → ℕ) (xs ys : List ℕ)
    → length xs < fuel
    → length ys < fuel
    → Holds m dest xs
    → Holds m src ys
    → (dest + length xs + length ys < src) ⊎ (src + length ys < dest)
    → (m' : ℕ → ℕ) × (strcat fuel dest src m ≡ some (length xs + length ys, m'))
      × Holds m' dest (xs ++ ys)
      × Copied m m' (dest + length xs) ys
strcat-Copied fuel dest src m xs ys hx hy first second apart =
    let n : ℕ = length xs in
    let (m', copies, copied) =
      copy_loop_lem fuel dest src n n m (dest + n) src ys refl (omega arith) (omega arith) hy second
        (ground arith) in
    (
      m',
      strcat-strlen fuel dest src n m (strlen_lem fuel m dest xs hx first) ∙ copies,
      Holds-append m m' dest xs ys first (λ q h. copied.elsewhere q (inl h)) copied.there,
      copied,
    )
