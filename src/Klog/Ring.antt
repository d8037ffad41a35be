-- ===== src/Klog/Ring.antt =====
-- The ring of klog.c keeps the last 65535 characters, and `klog_refresh` sends exactly them.
use han_os.Base.{
  ℕ, zero, suc, ◌+◌, ◌-◌, ◌≤◌, ◌<◌, ◌≡◌, refl, ◌∙◌, sym, ap, ap₂, true, false, some, List, [], ◌∷◌,
  ◌++◌, length, length-set, length-append, drop, length-drop, set, leb, ◌==◌, if◌then◌else◌, arith,
  append-nil, append_assoc, Bool-cases, inl, inr,
}
use han_os.Ring.{step, ahead, window, window-set, length-window}
use han_os.Klog.{
  Klog, klog_buffer_size, next_end, klog_putch, klog_refresh, refresh_loop, at_end, wrapped,
  put_all,
}

pub record IsValid (k : Klog) : Type 0 where
  pub room : length k.buff ≡ klog_buffer_size
  pub start_in : k.start < klog_buffer_size
  pub end_in : k.end < klog_buffer_size

-- The number of characters in the ring.
abbrev pub count : Klog → ℕ
count k = if leb k.start k.end then k.end - k.start else k.end + klog_buffer_size - k.start

abbrev pub contents : Klog → List ℕ
contents k = window klog_buffer_size k.buff k.start (count k)

klog_putch-IsValid : (c : ℕ) (k : Klog) → IsValid k → IsValid (klog_putch c k)
unfolding klog_putch
klog_putch-IsValid c k v = ground (arith, length-set k.buff k.end c)

refresh_from :
    (fuel n i : ℕ) (k : Klog)
    → IsValid k
    → i ≤ klog_buffer_size
    → n < fuel
    → ahead klog_buffer_size (wrapped i) n ≡ k.end
    → n ≤ count k
    → refresh_loop fuel i k ≡ some (window klog_buffer_size k.buff (wrapped i) n)
unfolding refresh_loop window
refresh_from zero n i k v hi h e hn = absurd (omega arith)
refresh_from (suc fuel) zero i k v hi h e hn =
    let done : at_end k (wrapped i) ≡ true = ground arith in rw done
refresh_from (suc fuel) (suc n) i k v hi h e hn =
    let more : at_end k (wrapped i) ≡ false = ground arith in
    let inside : wrapped i < klog_buffer_size = ground arith in
    let e' : ahead klog_buffer_size (wrapped (wrapped i + 1)) n ≡ k.end = ground arith in
    let same : wrapped (wrapped i + 1) ≡ step klog_buffer_size (wrapped i) = ground arith in
    rw (
      more,
      refresh_from fuel n (wrapped i + 1) k v (omega arith) (omega arith) e' (omega arith),
      same,
    )

-- A redraw of the terminal ends, and sends it exactly the characters in the ring, oldest first.
pub klog_refresh-contents :
    (k : Klog) → IsValid k → klog_refresh true k ≡ some (record k { sent = contents k })
unfolding klog_refresh
klog_refresh-contents k v =
    let at_start : wrapped k.start ≡ k.start = ground arith in
    let to_end : ahead klog_buffer_size (wrapped k.start) (count k) ≡ k.end = ground arith in
    let all : refresh_loop klog_buffer_size k.start k ≡ some (contents k) = rw at_start at (
      refresh_from klog_buffer_size (count k) k.start k v (omega (arith, v.start_in)) (ground arith)
        to_end (omega arith)) in
    rw (klog_refresh, all)

-- The last `n` of a list.
abbrev pub last : ℕ → List ℕ → List ℕ
last n cs = drop (length cs - n) cs

contents-klog_putch :
    (c : ℕ) (k : Klog) → IsValid k → contents (klog_putch c k) ≡ last 65535 (contents k ++ (c ∷ []))
unfolding klog_putch window
contents-klog_putch c k v =
    let longer : length (contents k ++ (c ∷ [])) ≡ count k + 1 =
      omega (
        arith,
        length-append (contents k) (c ∷ []),
        length-window 65536 k.buff k.start (count k),
      ) in
    let grown : window 65536 (set k.buff k.end c) k.start (suc (count k)) ≡ contents k ++ (c ∷ []) =
      window-set 65536 k.buff c k.start (count k) k.end (omega (arith, v.room)) v.start_in
        (ground arith) (ground arith) in
    let k' = klog_putch c k in
    let all : List ℕ = contents k ++ (c ∷ []) in
    elim (Bool-cases (next_end k == k.start)) [
      | inl full ↦
          let start_is : k'.start ≡ step 65536 k.start = ground arith in
          let count_is : count k' ≡ count k = ground arith in
          let one_over : 1 ≡ length all - 65535 = ground arith in
          ap₂ (λ i n. window 65536 (set k.buff k.end c) i n) start_is count_is
          ∙ (ap (λ l. drop 1 l) grown ∙ ap (λ j. drop j all) one_over)
      | inr space ↦
          let start_is : k'.start ≡ k.start = ground arith in
          let count_is : count k' ≡ suc (count k) = ground arith in
          let none_over : 0 ≡ length all - 65535 = ground arith in
          ap₂ (λ i n. window 65536 (set k.buff k.end c) i n) start_is count_is
          ∙ (grown ∙ ap (λ j. drop j all) none_over)
    ]

drop_nil : (j : ℕ) → drop {A = ℕ} j [] ≡ []
drop_nil zero = refl
drop_nil (suc j) = refl

drop-drop : (j i : ℕ) (xs : List ℕ) → drop j (drop i xs) ≡ drop (i + j) xs
drop-drop j zero xs = (let e : zero + j ≡ j = omega arith in rw e)
drop-drop j (suc i) [] = drop_nil j ∙ sym (drop_nil (suc i + j))
drop-drop j (suc i) (x ∷ xs) =
    (let e : suc i + j ≡ suc (i + j) = omega arith in rw e (drop-drop j i xs))

drop-append : (i : ℕ) (xs ys : List ℕ) → i ≤ length xs → drop i xs ++ ys ≡ drop i (xs ++ ys)
drop-append zero xs ys h = refl
drop-append (suc i) [] ys h = absurd (omega arith)
drop-append (suc i) (x ∷ xs) ys h = drop-append i xs ys (omega arith)

last-append : (n : ℕ) (xs ys : List ℕ) → last n (last n xs ++ ys) ≡ last n (xs ++ ys)
last-append n xs ys =
    let i : ℕ = length xs - n in
    let j : ℕ = length (drop i xs ++ ys) - n in
    let e : i + j ≡ length (xs ++ ys) - n =
      omega (arith, length-append (drop i xs) ys, length-append xs ys, length-drop i xs) in
    ap (λ l. drop j l) (drop-append i xs ys (omega arith))
    ∙ (drop-drop j i (xs ++ ys) ∙ ap (λ m. drop m (xs ++ ys)) e)

put_all-IsValid : (cs : List ℕ) (k : Klog) → IsValid k → IsValid (put_all cs k)
unfolding put_all
put_all-IsValid [] k v = v
put_all-IsValid (c ∷ cs) k v = put_all-IsValid cs (klog_putch c k) (klog_putch-IsValid c k v)

contents-put_all :
    (cs : List ℕ) (k : Klog) → IsValid k → contents (put_all cs k) ≡ last 65535 (contents k ++ cs)
unfolding put_all
contents-put_all [] k v =
    let all_fit : 0 ≡ length (contents k) - 65535 =
      ground (arith, length-window 65536 k.buff k.start (count k)) in
    rw append-nil (ap (λ j. drop j (contents k)) all_fit)
contents-put_all (c ∷ cs) k v =
    contents-put_all cs (klog_putch c k) (klog_putch-IsValid c k v)
    ∙ rw (contents-klog_putch c k v) (
        last-append 65535 (contents k ++ (c ∷ [])) cs
        ∙ ap (λ l. last 65535 l) (append_assoc (contents k) (c ∷ []) cs))

-- After any number of characters the ring holds the last 65535 of what it held and what was put,
-- in order, and its indices stay inside the buffer.
pub put_all-contents :
    (cs : List ℕ) (k : Klog)
    → IsValid k
    → IsValid (put_all cs k) × (contents (put_all cs k) ≡ last 65535 (contents k ++ cs))
put_all-contents cs k v = (put_all-IsValid cs k v, contents-put_all cs k v)
