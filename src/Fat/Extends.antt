-- ===== src/Fat/Extends.antt =====
-- A new cluster of `fat32_write` of fat32.c: the chains and the table.
use han_os.Base.{
  ℕ, ◌+◌, ◌-◌, ◌*◌, ◌/◌, ◌%◌, ◌<◌, ◌≡◌, ◌≢◌, refl, ◌∙◌, ap, arith, inl, inr, ◌⊎◌, true, false, ◌==◌,
  Bool-cases, List, [], ◌∷◌, ◌++◌,
}
use han_os.Fat.{Ident, Volume, done, fat32_get_free_cluster}
use han_os.Fat.Chains.{
  IsChain, last, link, leads, leads-bound, head_leads, outside, chain_leads, IsChain-same,
  get_free_cluster_lem,
}
use han_os.Fat.Content.{IsVolume}
use han_os.Fat.Tables.{
  IsTable, sector_no_lem, written_table, write_table_lem, written_table-cluster, written_table-byte,
}
use han_os.Fat.Disk.{
  cluster_lba, put_table_word, fat_bytes, fat_sector_no, write_table, add_cluster,
}

-- The first cluster that is free.
pub record IsFirstFree (fat : ℕ → ℕ) (fat_len k : ℕ) : Type 0 where
  pub in_table : leads fat_len k ≡ true
  pub free : fat k ≡ 0
  pub least : (j : ℕ) → j < k → fat j ≢ 0

-- The table with the cluster `k` after the cluster `c`.
abbrev pub linked : ℕ → ℕ → (ℕ → ℕ) → ℕ → ℕ
linked c k fat = put_table_word k 0x0fff_ffff (put_table_word c k fat)

-- A chain that ends in `c` goes on to `k`.
IsChain-linked :
    (fat : ℕ → ℕ) (fat_len c k : ℕ) (cs : List ℕ)
    → leads fat_len k ≡ true
    → outside c cs ≡ true
    → outside k (cs ++ (c ∷ [])) ≡ true
    → IsChain fat fat_len (cs ++ (c ∷ []))
    → IsChain (linked c k fat) fat_len (cs ++ (c ∷ k ∷ []))
IsChain-linked fat fat_len c k [] hk out away (last h e) =
    link h (ground arith) (last hk (ground arith))
IsChain-linked fat fat_len c k (x ∷ []) hk out away (link h e rest) =
    link h (ground (arith, e)) (IsChain-linked fat fat_len c k [] hk refl (ground arith) rest)
IsChain-linked fat fat_len c k (x ∷ y ∷ cs) hk out away (link h e rest) =
    link h (ground (arith, e))
      (IsChain-linked fat fat_len c k (y ∷ cs) hk (ground arith) (ground arith) rest)

-- A chain that has neither of the two stays as it was.
IsChain-elsewhere :
    (fat : ℕ → ℕ) (fat_len c k : ℕ) (ds : List ℕ)
    → outside c ds ≡ true
    → outside k ds ≡ true
    → IsChain fat fat_len ds
    → IsChain (linked c k fat) fat_len ds
IsChain-elsewhere fat fat_len c k ds oc ok chain =
    IsChain-same {fat = put_table_word c k fat} k ok (λ x ne. ground arith)
      (IsChain-same {fat = fat} c oc (λ x ne. ground arith) chain)

-- The sector of the table that has the word of a cluster is written, unless the word begins a sector.
word_sector : (x b : ℕ) → x % 128 ≢ 0 → b < 4 → (x * 4 + b) / 512 ≡ (x * 4 + 511) / 512 - 1
word_sector x b ne h = (let some : 0 < x % 128 = ground arith in omega arith)

-- The volume after the cluster `k` was added after `c`.
pub record Extended (id : Ident) (v v' : Volume) (c k : ℕ) : Type 0 where
  pub table_is : v'.fat ≡ linked c k v.fat
  pub clusters :
      (x p : ℕ)
      → leads id.fat_len x ≡ true
      → v'.disk (cluster_lba id.bs x * 512 + p) ≡ v.disk (cluster_lba id.bs x * 512 + p)
  pub on_disk :
      (x b : ℕ)
      → (x ≡ c) ⊎ (x ≡ k)
      → x % 128 ≢ 0
      → b < 4
      → v'.disk (id.bs.fat_begin_lba * 512 + (x * 4 + b)) ≡ fat_bytes v'.fat (x * 4 + b)

add_cluster-one :
    (id : Ident) (c k : ℕ) (v : Volume) (v1 : Volume)
    → fat32_get_free_cluster v.fat id.fat_len ≡ k
    → write_table id.bs (fat_sector_no id.bs c) (record v { fat = linked c k v.fat }) ≡ done v1
    → (fat_sector_no id.bs k == fat_sector_no id.bs c) ≡ true
    → add_cluster id c v ≡ done (k, v1)
unfolding add_cluster
add_cluster-one id c k v v1 free first same = rw (free, first, same) refl

add_cluster-two :
    (id : Ident) (c k : ℕ) (v : Volume) (v1 v2 : Volume)
    → fat32_get_free_cluster v.fat id.fat_len ≡ k
    → write_table id.bs (fat_sector_no id.bs c) (record v { fat = linked c k v.fat }) ≡ done v1
    → (fat_sector_no id.bs k == fat_sector_no id.bs c) ≡ false
    → write_table id.bs (fat_sector_no id.bs k) v1 ≡ done v2
    → add_cluster id c v ≡ done (k, v2)
unfolding add_cluster
add_cluster-two id c k v v1 v2 free first other second = rw (free, first, other, second) refl

add_cluster-Extended :
    (id : Ident) (v : Volume) (c k : ℕ)
    → IsVolume id.bs id.fat_len
    → IsTable id.bs id.fat_len
    → leads id.fat_len c ≡ true
    → IsFirstFree v.fat id.fat_len k
    → (v' : Volume) × (add_cluster id c v ≡ done (k, v')) × Extended id v v' c k
add_cluster-Extended id v c k ok table hc free =
    let bs = id.bs in
    let (from, below, small) = leads-bound id.fat_len k free.in_table in
    let found =
      get_free_cluster_lem k id.fat_len v.fat (omega arith) (omega arith) free.free free.least in
    let (nc, cpos, cbound) = sector_no_lem bs id.fat_len ok table c hc in
    let (nk, kpos, kbound) = sector_no_lem bs id.fat_len ok table k free.in_table in
    let v0 : Volume = record v { fat = linked c k v.fat } in
    let v1 = written_table bs id.fat_len ok table (fat_sector_no bs c) v0 in
    let v2 = written_table bs id.fat_len ok table (fat_sector_no bs k) v1 in
    let first = write_table_lem bs id.fat_len ok table (fat_sector_no bs c) v0 cpos cbound in
    let second = write_table_lem bs id.fat_len ok table (fat_sector_no bs k) v1 kpos kbound in
    elim (Bool-cases (fat_sector_no bs k == fat_sector_no bs c)) [
      | inl same ↦ (
        v1,
        add_cluster-one id c k v v1 found first same,
        record {
          table_is = refl;
          clusters = λ x p h.
              written_table-cluster bs id.fat_len ok table (fat_sector_no bs c) v0 x p cpos cbound
                h;
          on_disk = λ x b which ne hb.
              (let at : (x * 4 + b) / 512 == fat_sector_no bs c - 1 ≡ true = elim which [
                | inl e ↦ ground (arith, nc, word_sector x b ne hb, ap (λ y. (y * 4 + 511) / 512) e)
                | inr e ↦ ground (arith, nk, word_sector x b ne hb, ap (λ y. (y * 4 + 511) / 512) e)
              ] in
                written_table-byte bs id.fat_len ok table (fat_sector_no bs c) v0 (x * 4 + b) cpos
                  cbound
                ∙ rw at refl);
        },
      )
      | inr other ↦ (
        v2,
        add_cluster-two id c k v v1 v2 found first other second,
        record {
          table_is = refl;
          clusters = λ x p h.
              written_table-cluster bs id.fat_len ok table (fat_sector_no bs k) v1 x p kpos kbound h
              ∙ written_table-cluster bs id.fat_len ok table (fat_sector_no bs c) v0 x p cpos cbound
                  h;
          on_disk = λ x b which ne hb.
              written_table-byte bs id.fat_len ok table (fat_sector_no bs k) v1 (x * 4 + b) kpos
                kbound
              ∙ elim which [
                | inl e ↦
                    let there = word_sector x b ne hb in
                    let away : (x * 4 + b) / 512 == fat_sector_no bs k - 1 ≡ false =
                      ground (arith, nc, nk, there, ap (λ y. (y * 4 + 511) / 512) e) in
                    let at : (x * 4 + b) / 512 == fat_sector_no bs c - 1 ≡ true =
                      ground (arith, nc, there, ap (λ y. (y * 4 + 511) / 512) e) in
                    rw away (
                      written_table-byte bs id.fat_len ok table (fat_sector_no bs c) v0 (x * 4 + b)
                        cpos cbound
                      ∙ rw at refl)
                | inr e ↦
                    let there = word_sector x b ne hb in
                    let at : (x * 4 + b) / 512 == fat_sector_no bs k - 1 ≡ true =
                      ground (arith, nk, there, ap (λ y. (y * 4 + 511) / 512) e) in
                    rw at refl
              ];
        },
      )
    ]

-- A free cluster is in no chain.
free-outside :
    (fat : ℕ → ℕ) (fat_len k : ℕ) (ds : List ℕ)
    → fat k ≡ 0
    → IsChain fat fat_len ds
    → outside k ds ≡ true
free-outside fat fat_len k [] free chain = elim chain [ ]
free-outside fat fat_len k (d ∷ []) free (last h e) = elim (Bool-cases (k == d)) [
  | inl here ↦ (let same : k ≡ d = ground arith in absurd (omega (arith, e, free, ap fat same)))
  | inr away ↦ rw away refl
]
free-outside fat fat_len k (d ∷ x ∷ ds) free (link h e rest) = elim (Bool-cases (k == d)) [
  | inl here ↦
      (let same : k ≡ d = ground arith in
        absurd (omega (arith, e, free, ap fat same, leads-bound fat_len x (head_leads rest))))
  | inr away ↦ rw away (free-outside fat fat_len k (x ∷ ds) free rest)
]

outside-append : (c : ℕ) (cs : List ℕ) → outside c (cs ++ (c ∷ [])) ≡ false
outside-append c [] = ground arith
outside-append c (x ∷ cs) = ground (arith, outside-append c cs)

-- Where a file ends in the cluster `c`, the allocation ends without an overrun and gives the file the first
-- free cluster after it, which is in no other chain. Every other chain that does not pass through `c` is as
-- before, no byte of any cluster changes, and the new words of the table are on the disk too, unless
-- they stand at the beginning of a sector.
pub add_cluster-IsChain :
    (id : Ident) (v : Volume) (c k : ℕ) (cs ds : List ℕ)
    → IsVolume id.bs id.fat_len
    → IsTable id.bs id.fat_len
    → IsFirstFree v.fat id.fat_len k
    → IsChain v.fat id.fat_len (cs ++ (c ∷ []))
    → outside c cs ≡ true
    → IsChain v.fat id.fat_len ds
    → outside c ds ≡ true
    → (v' : Volume) × (add_cluster id c v ≡ done (k, v'))
      × IsChain v'.fat id.fat_len (cs ++ (c ∷ k ∷ []))
      × IsChain v'.fat id.fat_len ds
      × (outside k ds ≡ true)
      × Extended id v v' c k
add_cluster-IsChain id v c k cs ds ok table free chain once other apart =
    let hc = chain_leads c chain (outside-append c cs) in
    let own = free-outside v.fat id.fat_len k (cs ++ (c ∷ [])) free.free chain in
    let out = free-outside v.fat id.fat_len k ds free.free other in
    let (v', adds, ext) = add_cluster-Extended id v c k ok table hc free in
    (
      v',
      adds,
      rw ext.table_is (IsChain-linked v.fat id.fat_len c k cs free.in_table once own chain),
      rw ext.table_is (IsChain-elsewhere v.fat id.fat_len c k ds apart out other),
      out,
      ext,
    )
