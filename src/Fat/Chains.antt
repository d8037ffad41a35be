-- ===== src/Fat/Chains.antt =====
-- The chain of clusters of a file in the table of fat32.h.
use han_os.Base.{
  ℕ, zero, suc, ◌+◌, ◌/◌, ◌^◌, ◌≤◌, ◌<◌, ◌≡◌, ◌≢◌, ◌∙◌, arith, inl, inr, Bool, true, false, ◌&&◌,
  ltb, leb, ◌==◌, if◌then◌else◌, Bool-cases, List, [], ◌∷◌,
}
use han_os.Fat.{fat32_get_next_cluster, free_cluster_loop, fat32_get_free_cluster}

abbrev pub outside : ℕ → List ℕ → Bool
outside x [] = true
outside x (c ∷ cs) = if x == c then false else outside x cs

-- A table entry that leads to the cluster `d`: neither free nor an end.
unfoldable pub leads : ℕ → ℕ → Bool
leads fat_len d = leb 2 d && ltb d (fat_len / 4) && ltb d 0x0fff_ffff

-- The clusters of a file, each of them in the table and leading to the next, the last to none.
pub data IsChain (fat : ℕ → ℕ) (fat_len : ℕ) : List ℕ → Type 0 where
  last : {c : ℕ} → leads fat_len c ≡ true → fat c ≡ 0x0fff_ffff → IsChain fat fat_len (c ∷ [])
  link :
      {c d : ℕ} {cs : List ℕ}
      → leads fat_len c ≡ true
      → fat c ≡ d
      → IsChain fat fat_len (d ∷ cs)
      → IsChain fat fat_len (c ∷ d ∷ cs)

pub next_last :
    (fat : ℕ → ℕ) (fat_len c : ℕ) → fat c ≡ 0x0fff_ffff → fat32_get_next_cluster c fat fat_len ≡ 0
unfolding fat32_get_next_cluster
next_last fat fat_len c e = ground arith

pub leads-bound :
    (fat_len d : ℕ) → leads fat_len d ≡ true → (2 ≤ d) × (d < fat_len / 4) × (d < 0x0fff_ffff)
unfolding leads
leads-bound fat_len d h = ground arith

pub next_link :
    (fat : ℕ → ℕ) (fat_len c d : ℕ)
    → leads fat_len c ≡ true
    → leads fat_len d ≡ true
    → fat c ≡ d
    → fat32_get_next_cluster c fat fat_len ≡ d
unfolding fat32_get_next_cluster leads
next_link fat fat_len c d hc hd e = rw e (ground arith)

pub head_leads :
    {fat : ℕ → ℕ} {fat_len c : ℕ} {cs : List ℕ}
    → IsChain fat fat_len (c ∷ cs)
    → leads fat_len c ≡ true
head_leads (last h e) = h
head_leads (link h e rest) = h

pub chain_leads :
    {fat : ℕ → ℕ} {fat_len : ℕ} {cs : List ℕ} (x : ℕ)
    → IsChain fat fat_len cs
    → outside x cs ≡ false
    → leads fat_len x ≡ true
chain_leads x (last {c = c} h e) inside = (let same : x ≡ c = ground arith in rw same h)
chain_leads {fat_len = fat_len} x (link {c = c} h e rest) inside = elim (Bool-cases (x == c)) [
  | inl here ↦ (let same : x ≡ c = ground arith in rw same h)
  | inr later ↦ chain_leads x rest (ground arith)
]

-- A table that agrees on the clusters of a chain has the chain.
pub IsChain-same :
    {fat fat' : ℕ → ℕ} {fat_len : ℕ} {cs : List ℕ} (x : ℕ)
    → outside x cs ≡ true
    → ((c : ℕ) → c ≢ x → fat' c ≡ fat c)
    → IsChain fat fat_len cs
    → IsChain fat' fat_len cs
IsChain-same {cs = []} x out same chain = elim chain [ ]
IsChain-same {cs = c ∷ []} x out same (last h e) = last h (same c (ground arith) ∙ e)
IsChain-same {cs = c ∷ d ∷ cs} x out same (link h e rest) =
    link h (same c (ground arith) ∙ e) (IsChain-same x (ground arith) same rest)

free_cluster_loop_lem :
    (n i k : ℕ) (fat : ℕ → ℕ)
    → i ≤ k
    → k < i + n
    → k < 2 ^ 32
    → fat k ≡ 0
    → ((j : ℕ) → j < k → fat j ≢ 0)
    → free_cluster_loop n i fat ≡ k
unfolding free_cluster_loop
free_cluster_loop_lem zero i k fat lo hi small free first = absurd (omega arith)
free_cluster_loop_lem (suc n) i k fat lo hi small free first = elim (Bool-cases (i == k)) [
  | inl here ↦ (let e : i ≡ k = ground arith in ground arith)
  | inr later ↦
      let before : i < k = ground arith in
      let used : (fat i == 0) ≡ false = (let no = first i before in ground arith) in
      rw used (free_cluster_loop_lem n (i + 1) k fat (omega arith) (omega arith) small free first)
]

-- The first free cluster is found.
pub get_free_cluster_lem :
    (k fat_len : ℕ) (fat : ℕ → ℕ)
    → k < fat_len
    → k < 2 ^ 32
    → fat k ≡ 0
    → ((j : ℕ) → j < k → fat j ≢ 0)
    → fat32_get_free_cluster fat fat_len ≡ k
unfolding fat32_get_free_cluster
get_free_cluster_lem k fat_len fat hk small free first =
    free_cluster_loop_lem fat_len 0 k fat (omega arith) (omega arith) small free first
