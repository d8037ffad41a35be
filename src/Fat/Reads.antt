-- ===== src/Fat/Reads.antt =====
-- `fat32_read` of fat32.c against the bytes of a file.
use han_os.Base.{
  ℕ, zero, suc, ◌+◌, ◌-◌, ◌*◌, ◌/◌, ◌^◌, ◌≤◌, ◌<◌, ◌≡◌, refl, sym, ◌∙◌, arith, inl, inr, true,
  false, ltb, ◌==◌, Bool-cases, List, [], ◌∷◌, length, u64, min,
}
use han_os.Ata.{blit, ata_pio_read28}
use han_os.Fat.{BsInfo, Ident, Volume, DiskResult, done, overrun, fat32_get_next_cluster}
use han_os.Fat.Chains.{IsChain, last, link, leads-bound, next_last, next_link, head_leads}
use han_os.Fat.Content.{
  cluster_size, content, IsVolume, read_cluster, filled_with, filled-nil, filled-cons,
}
use han_os.Fat.Disk.{cluster_lba, read_chain, fat32_read, buffer_len}

module _ (id : Ident) (v : Volume) (total : ℕ) (ok : IsVolume id.bs id.fat_len) where
  -- The buffer after a round.
  abbrev step_read : ℕ → ℕ → (ℕ → ℕ) → ℕ → ℕ
  step_read c pos dd = ata_pio_read28 v.disk (cluster_lba id.bs c) id.bs.sectors_per_cluster pos dd

  read_chain-last :
      (fuel c pos : ℕ) (dd : ℕ → ℕ)
      → fat32_get_next_cluster c v.fat id.fat_len ≡ 0
      → pos + cluster_size id.bs ≤ total
      → read_chain (suc fuel) id v total c pos dd ≡ done (step_read c pos dd)
  unfolding read_chain
  read_chain-last fuel c pos dd e room =
      let fits : ltb total (pos + 512 * id.bs.sectors_per_cluster) ≡ false = ground arith in
      rw (fits, e) refl

  read_chain-link :
      (fuel c d pos : ℕ) (dd : ℕ → ℕ)
      → fat32_get_next_cluster c v.fat id.fat_len ≡ d
      → 0 < d
      → pos + cluster_size id.bs ≤ total
      → read_chain (suc fuel) id v total c pos dd
        ≡ read_chain fuel id v total d (pos + cluster_size id.bs) (step_read c pos dd)
  unfolding read_chain
  read_chain-link fuel c d pos dd e positive room =
      let fits : ltb total (pos + 512 * id.bs.sectors_per_cluster) ≡ false = ground arith in
      let more : (d == 0) ≡ false = ground arith in rw (fits, e, more, ok.sector_bytes) refl

  read_chain-overrun :
      (fuel c pos : ℕ) (dd : ℕ → ℕ)
      → total < pos + cluster_size id.bs
      → read_chain (suc fuel) id v total c pos dd ≡ overrun
  unfolding read_chain
  read_chain-overrun fuel c pos dd short =
      let out : ltb total (pos + 512 * id.bs.sectors_per_cluster) ≡ true = ground arith in
      rw out refl

  -- A chain that fits into the buffer is read to its end.
  pub read_chain_lem :
      (fuel c : ℕ) (cs : List ℕ) (pos : ℕ) (dd : ℕ → ℕ)
      → IsChain v.fat id.fat_len (c ∷ cs)
      → length cs < fuel
      → pos + suc (length cs) * cluster_size id.bs ≤ total
      → (dd' : ℕ → ℕ) × (read_chain fuel id v total c pos dd ≡ done dd')
        × ((q : ℕ) → dd' q ≡ filled_with id.bs v.disk (c ∷ cs) pos dd q)
  read_chain_lem zero c cs pos dd chain enough room = absurd (omega arith)
  read_chain_lem (suc fuel) c [] pos dd (last h e) enough room = (
    step_read c pos dd,
    read_chain-last fuel c pos dd (next_last v.fat id.fat_len c e) (omega arith),
    λ q.
        sym (filled-nil id.bs v.disk (pos + cluster_size id.bs) (step_read c pos dd) q)
        ∙ filled-cons id.bs v.disk c [] pos dd (step_read c pos dd) q
            (read_cluster id.bs id.fat_len c pos v.disk dd q ok h),
  )
  read_chain_lem (suc fuel) c (d ∷ cs) pos dd (link h e rest) enough room =
      let hd = head_leads rest in
      let (from, below, small) = leads-bound id.fat_len d hd in
      let size : suc (suc (length cs)) * cluster_size id.bs
          ≡ cluster_size id.bs + suc (length cs) * cluster_size id.bs =
        omega arith in
      let (dd', runs, shows) =
        read_chain_lem fuel d cs (pos + cluster_size id.bs) (step_read c pos dd) rest (omega arith)
          (omega (arith, size, room)) in
      (
        dd',
        read_chain-link fuel c d pos dd (next_link v.fat id.fat_len c d h hd e) (omega arith)
              (omega (arith, size, room))
            ∙ runs,
        λ q.
            shows q
            ∙ filled-cons id.bs v.disk c (d ∷ cs) pos dd (step_read c pos dd) q
                (read_cluster id.bs id.fat_len c pos v.disk dd q ok h),
      )

  -- A chain that does not is read past the end of the buffer.
  read_chain-short :
      (fuel c : ℕ) (cs : List ℕ) (pos : ℕ) (dd : ℕ → ℕ)
      → IsChain v.fat id.fat_len (c ∷ cs)
      → length cs < fuel
      → total < pos + suc (length cs) * cluster_size id.bs
      → read_chain fuel id v total c pos dd ≡ overrun
  read_chain-short zero c cs pos dd chain enough short = absurd (omega arith)
  read_chain-short (suc fuel) c [] pos dd (last h e) enough short =
      read_chain-overrun fuel c pos dd (omega arith)
  read_chain-short (suc fuel) c (d ∷ cs) pos dd (link h e rest) enough short =
      let size : suc (suc (length cs)) * cluster_size id.bs
          ≡ cluster_size id.bs + suc (length cs) * cluster_size id.bs =
        omega arith in
      elim (Bool-cases (ltb total (pos + cluster_size id.bs))) [
        | inl out ↦ read_chain-overrun fuel c pos dd (ground arith)
        | inr fits ↦
            let hd = head_leads rest in
            let (from, below, small) = leads-bound id.fat_len d hd in
            let room : pos + cluster_size id.bs ≤ total = ground arith in
            read_chain-link fuel c d pos dd (next_link v.fat id.fat_len c d h hd e) (omega arith)
              room
            ∙ read_chain-short fuel d cs (pos + cluster_size id.bs) (step_read c pos dd) rest
                (omega arith) (omega (arith, size, short))
      ]

-- The buffer of a request that ends at `end`.
pub buffer_len_lem :
    (bs : BsInfo) (end : ℕ)
    → bs.bytes_per_sector ≡ 512
    → end < 2 ^ 63
    → (end ≤ buffer_len bs (u64 end)) × (buffer_len bs (u64 end) ≡ (end + 511) / 512 * 512)
buffer_len_lem bs end e h =
    let same : buffer_len bs (u64 end) ≡ (end + 511) / 512 * 512 = rw e (omega arith) in
    rw same (omega arith, refl)

-- What `fat32_read` does with a file of the clusters `c ∷ cs`.
pub data HasRead (id : Ident) (v : Volume) (cs : List ℕ) (offset len total : ℕ) (buff : ℕ → ℕ)
    : DiskResult (ℕ × (ℕ → ℕ)) → Type 0 where
  read_done :
      {buff' : ℕ → ℕ}
      → length cs * cluster_size id.bs ≤ total
      → ((i : ℕ)
          → i < len
          → offset + i < length cs * cluster_size id.bs
          → buff' i ≡ content id.bs v.disk cs (offset + i))
      → ((i : ℕ) → len ≤ i → buff' i ≡ buff i)
      → HasRead id v cs offset len total buff (done (len, buff'))
  read_past : total < length cs * cluster_size id.bs → HasRead id v cs offset len total buff overrun

pub fat32_read-done :
    (fuel : ℕ) (id : Ident) (v : Volume) (offset len total : ℕ) (junk dd buff : ℕ → ℕ)
    → buffer_len id.bs (u64 (offset + len)) ≡ total
    → offset + len ≤ total
    → read_chain fuel id v total id.entry.cluster_begin 0 junk ≡ done dd
    → fat32_read fuel id v offset len junk buff ≡ done (len, blit dd offset len 0 buff)
unfolding fat32_read
fat32_read-done fuel id v offset len total junk dd buff size room runs =
    let whole : min (total - offset) len ≡ len = omega arith in rw (size, whole, runs) refl

fat32_read-overrun :
    (fuel : ℕ) (id : Ident) (v : Volume) (offset len total : ℕ) (junk buff : ℕ → ℕ)
    → buffer_len id.bs (u64 (offset + len)) ≡ total
    → read_chain fuel id v total id.entry.cluster_begin 0 junk ≡ overrun
    → fat32_read fuel id v offset len junk buff ≡ overrun
unfolding fat32_read
fat32_read-overrun fuel id v offset len total junk buff size runs = rw (size, runs) refl

-- Reading a file always ends. If the sectors asked for cover all clusters of the file, it returns the
-- whole length and gives the caller exactly the bytes of the file from the offset on, and leaves the rest of
-- the caller's buffer. If they do not, it writes past the end of the buffer that it has allocated.
pub fat32_read-HasRead :
    (fuel : ℕ) (id : Ident) (v : Volume) (cs : List ℕ) (offset len : ℕ) (junk buff : ℕ → ℕ)
    → IsVolume id.bs id.fat_len
    → IsChain v.fat id.fat_len (id.entry.cluster_begin ∷ cs)
    → length cs < fuel
    → offset + len < 2 ^ 63
    → HasRead id v
        (id.entry.cluster_begin ∷ cs)
        offset
        len
        ((offset + len + 511) / 512 * 512)
        buff
        (fat32_read fuel id v offset len junk buff)
fat32_read-HasRead fuel id v cs offset len junk buff ok chain enough small =
    let total : ℕ = (offset + len + 511) / 512 * 512 in
    let first = id.entry.cluster_begin in
    let (room, size) = buffer_len_lem id.bs (offset + len) ok.sector_bytes small in
    elim (Bool-cases (ltb total (suc (length cs) * cluster_size id.bs))) [
      | inl short ↦
          let more : total < suc (length cs) * cluster_size id.bs = ground arith in
          rw
            (fat32_read-overrun fuel id v offset len total junk buff size
              (read_chain-short id v total ok fuel first cs 0 junk chain enough (omega arith)))
            (read_past more)
      | inr fits ↦
          let enough_room : suc (length cs) * cluster_size id.bs ≤ total = ground arith in
          let (dd, runs, shows) =
            read_chain_lem id v total ok fuel first cs 0 junk chain enough (omega arith) in
          rw (fat32_read-done fuel id v offset len total junk dd buff size (omega arith) runs) (
            read_done enough_room (λ i hi hc. ground (arith, shows (offset + i)))
              (λ i hi. ground arith))
    ]
