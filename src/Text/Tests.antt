-- ===== src/Text/Tests.antt =====
-- Runs of string.c and memutils.c, and their theorems at a concrete memory.
use han_os.Base.{ℕ, ◌≡◌, refl, arith, some, List, [], ◌∷◌, inl}
use han_os.Text.{poke, strcat, strchrnul, toupper, memset}
use han_os.Text.Copy.{Holds, Copied, strcat-Copied}
use han_os.Text.Block.{memset_lem}

-- "ab" at 100 and "c" at 200.
abbrev two_texts : ℕ → ℕ
two_texts = poke (poke (poke (λ q. 0) 100 b'a') 101 b'b') 200 b'c'

abbrev ab : List ℕ
ab = b'a' ∷ b'b' ∷ []

abbrev just_c : List ℕ
just_c = b'c' ∷ []

ab-Holds : Holds two_texts 100 ab
ab-Holds = (refl, omega arith, (refl, omega arith, refl))

just_c-Holds : Holds two_texts 200 just_c
just_c-Holds = (refl, omega arith, refl)

upper_case : toupper b'q' ≡ b'Q'
unfolding toupper
upper_case = refl

-- The address after the match.
next_after : strchrnul 5 two_texts 100 b'a' ≡ some 101
unfolding strchrnul
next_after = refl

strcat-Copied_example :
    (m' : ℕ → ℕ) × (strcat 3 100 200 two_texts ≡ some (3, m'))
    × Holds m' 100 (b'a' ∷ b'b' ∷ b'c' ∷ [])
    × Copied two_texts m' 102 just_c
strcat-Copied_example =
    strcat-Copied 3 100 200 two_texts ab just_c (omega arith) (omega arith) ab-Holds just_c-Holds
      (inl (omega arith))

memset_lem_example : memset 100 7 2 two_texts 101 ≡ 7
memset_lem_example = memset_lem 100 7 2 101 two_texts
