-- ===== src/Fat/Writes.antt =====
-- The loop of `fat32_write` of fat32.c over the clusters that a file has.
use han_os.Base.{
  ℕ, zero, suc, ◌+◌, ◌-◌, ◌*◌, ◌≤◌, ◌<◌, ◌≡◌, ◌≢◌, refl, ◌∙◌, ap, arith, inl, inr, Bool, true,
  false, ◌&&◌, ltb, leb, ◌==◌, Bool-cases, List, [], ◌∷◌, length,
}
use han_os.Ata.{ata_pio_write28}
use han_os.Fat.{Ident, Volume, done, fat32_get_next_cluster}
use han_os.Fat.Chains.{IsChain, last, link, leads, leads-bound, next_link, head_leads, outside}
use han_os.Fat.Content.{cluster_size, content, IsVolume, write_cluster, blit-apart}
use han_os.Fat.Disk.{cluster_lba, write_chain, next_or_new}

-- No cluster stands in the list twice.
abbrev pub distinct : List ℕ → Bool
distinct [] = true
distinct (c ∷ cs) = outside c cs && distinct cs

-- The disk after the bytes of `dd` from `pos` on were written to the clusters `cs`: those have them, and
-- every other cluster has what it had.
pub record Stored (id : Ident) (v v' : Volume) (cs : List ℕ) (dd : ℕ → ℕ) (pos : ℕ) : Type 0 where
  pub table : v'.fat ≡ v.fat
  pub bytes :
      (k : ℕ) → k < length cs * cluster_size id.bs → content id.bs v'.disk cs k ≡ dd (pos + k)
  pub others :
      (x p : ℕ)
      → leads id.fat_len x ≡ true
      → outside x cs ≡ true
      → p < cluster_size id.bs
      → v'.disk (cluster_lba id.bs x * 512 + p) ≡ v.disk (cluster_lba id.bs x * 512 + p)

module _ (id : Ident) (total : ℕ) (dd : ℕ → ℕ) (ok : IsVolume id.bs id.fat_len) where
  -- The volume after a cluster is written.
  abbrev step_write : ℕ → ℕ → Volume → Volume
  step_write c pos v = record v {
    disk = ata_pio_write28 (cluster_lba id.bs c) id.bs.sectors_per_cluster dd pos v.disk;
  }

  write_chain-last :
      (fuel c pos : ℕ) (v : Volume)
      → total ≡ pos + cluster_size id.bs
      → write_chain (suc fuel) id total dd c pos v ≡ done (step_write c pos v)
  unfolding write_chain
  write_chain-last fuel c pos v e =
      let fits : ltb total (pos + 512 * id.bs.sectors_per_cluster) ≡ false = ground arith in
      let end : leb total (pos + id.bs.bytes_per_sector * id.bs.sectors_per_cluster) ≡ true =
        rw ok.sector_bytes (ground arith) in
      rw (fits, end) refl

  write_chain-link :
      (fuel c d pos : ℕ) (v : Volume)
      → fat32_get_next_cluster c v.fat id.fat_len ≡ d
      → 0 < d
      → pos + cluster_size id.bs < total
      → write_chain (suc fuel) id total dd c pos v
        ≡ write_chain fuel id total dd d (pos + cluster_size id.bs) (step_write c pos v)
  unfolding write_chain next_or_new
  write_chain-link fuel c d pos v e positive room =
      let fits : ltb total (pos + 512 * id.bs.sectors_per_cluster) ≡ false = ground arith in
      let more : leb total (pos + id.bs.bytes_per_sector * id.bs.sectors_per_cluster) ≡ false =
        rw ok.sector_bytes (ground arith) in
      let linked : (d == 0) ≡ false = ground arith in
      rw (fits, more, e, linked, ok.sector_bytes) refl

  -- The cluster that is written has the bytes of the buffer, the others are as before.
  step_write-own :
      (c pos p : ℕ) (v : Volume)
      → leads id.fat_len c ≡ true
      → p < cluster_size id.bs
      → (step_write c pos v).disk (cluster_lba id.bs c * 512 + p) ≡ dd (pos + p)
  step_write-own c pos p v h hp =
      write_cluster id.bs id.fat_len c pos dd v.disk (cluster_lba id.bs c * 512 + p) ok h
      ∙ ground arith

  step_write-other :
      (c x pos p : ℕ) (v : Volume)
      → leads id.fat_len c ≡ true
      → leads id.fat_len x ≡ true
      → x ≢ c
      → p < cluster_size id.bs
      → (step_write c pos v).disk (cluster_lba id.bs x * 512 + p)
        ≡ v.disk (cluster_lba id.bs x * 512 + p)
  step_write-other c x pos p v h hx ne hp =
      write_cluster id.bs id.fat_len c pos dd v.disk (cluster_lba id.bs x * 512 + p) ok h
      ∙ blit-apart id.bs id.fat_len c x dd pos (cluster_size id.bs) v.disk p ok h hx ne hp
          (omega arith)

  Stored-last :
      (c pos : ℕ) (v : Volume)
      → leads id.fat_len c ≡ true
      → Stored id v (step_write c pos v) (c ∷ []) dd pos
  unfolding content
  Stored-last c pos v h = record {
    table = refl;
    bytes = λ k hk.
        (let here : ltb k (cluster_size id.bs) ≡ true = ground arith in
          rw here (step_write-own c pos k v h (ground arith)));
    others = λ x p hx out hp. step_write-other c x pos p v h hx (ground arith) hp;
  }

  Stored-cons :
      (c pos : ℕ) (cs : List ℕ) (v v' : Volume)
      → leads id.fat_len c ≡ true
      → outside c cs ≡ true
      → Stored id (step_write c pos v) v' cs dd (pos + cluster_size id.bs)
      → Stored id v v' (c ∷ cs) dd pos
  unfolding content
  Stored-cons c pos cs v v' h out st = record {
    table = st.table;
    bytes = λ k hk. elim (Bool-cases (ltb k (cluster_size id.bs))) [
      | inl here ↦
          rw here (st.others c k h out (ground arith) ∙ step_write-own c pos k v h (ground arith))
      | inr later ↦
          let from : cluster_size id.bs ≤ k = ground arith in
          let at : pos + cluster_size id.bs + (k - cluster_size id.bs) ≡ pos + k = omega arith in
          rw later (st.bytes (k - cluster_size id.bs) (omega arith) ∙ ap dd at)
    ];
    others = λ x p hx away hp.
        st.others x p hx (ground arith) hp ∙ step_write-other c x pos p v h hx (ground arith) hp;
  }

  -- A chain that is as long as the buffer is written to its end.
  pub write_chain-Stored :
      (fuel c : ℕ) (cs : List ℕ) (pos : ℕ) (v : Volume)
      → IsChain v.fat id.fat_len (c ∷ cs)
      → distinct (c ∷ cs) ≡ true
      → length cs < fuel
      → total ≡ pos + suc (length cs) * cluster_size id.bs
      → (v' : Volume) × (write_chain fuel id total dd c pos v ≡ done v')
        × Stored id v v' (c ∷ cs) dd pos
  write_chain-Stored zero c cs pos v chain apart enough size = absurd (omega arith)
  write_chain-Stored (suc fuel) c [] pos v (last h e) apart enough size =
      (step_write c pos v, write_chain-last fuel c pos v (omega arith), Stored-last c pos v h)
  write_chain-Stored (suc fuel) c (d ∷ cs) pos v (link h e rest) apart enough size =
      let hd = head_leads rest in
      let (from, below, small) = leads-bound id.fat_len d hd in
      let more : suc (suc (length cs)) * cluster_size id.bs
          ≡ cluster_size id.bs + suc (length cs) * cluster_size id.bs =
        omega arith in
      let some : 0 < cluster_size id.bs = omega (arith, ok.some_sectors) in
      let (v', runs, st) =
        write_chain-Stored fuel d cs (pos + cluster_size id.bs) (step_write c pos v) rest
          (ground arith) (omega arith) (omega (arith, size, more)) in
      (
        v',
        write_chain-link fuel c d pos v (next_link v.fat id.fat_len c d h hd e) (omega arith)
              (omega (arith, size, more, some))
            ∙ runs,
        Stored-cons c pos (d ∷ cs) v v' h (ground arith) st,
      )
