-- ===== src/Fat/Content.antt =====
-- The bytes of a file on the disk of fat32.c: those of its clusters, one after the other.
use han_os.Base.{
  ℕ, suc, ◌+◌, ◌-◌, ◌*◌, ◌/◌, ◌^◌, ◌≤◌, ◌<◌, ◌≡◌, refl, ◌∙◌, ap, arith, inl, inr, true, false, ltb,
  if◌then◌else◌, Bool-cases, List, [], ◌∷◌, length, u32, ◌≢◌,
}
use han_os.Ata.{blit, ata_pio_read28, ata_pio_write28}
use han_os.Ata.Transfer.{ata_pio_read28_lem, ata_pio_write28_lem}
use han_os.Fat.{BsInfo}
use han_os.Fat.Chains.{leads, leads-bound, outside}
use han_os.Fat.Disk.{cluster_lba}

abbrev pub cluster_size : BsInfo → ℕ
cluster_size bs = 512 * bs.sectors_per_cluster

-- The byte at a position of a file.
unfoldable pub content : BsInfo → (ℕ → ℕ) → List ℕ → ℕ → ℕ
content bs disk [] k = 0
content bs disk (c ∷ cs) k =
    let rest = content bs disk cs (k - cluster_size bs) in
    if ltb k (cluster_size bs) then disk (cluster_lba bs c * 512 + k) else rest

-- A volume whose sectors are those of the disk and whose clusters lie on it.
pub record IsVolume (bs : BsInfo) (fat_len : ℕ) : Type 0 where
  pub sector_bytes : bs.bytes_per_sector ≡ 512
  pub some_sectors : 0 < bs.sectors_per_cluster
  pub few_sectors : bs.sectors_per_cluster < 256
  pub on_disk : bs.cluster_begin_lba + fat_len / 4 * bs.sectors_per_cluster ≤ 2 ^ 28

product_le : (a b s : ℕ) → a < b → a * s + s ≤ b * s
product_le a b s h = grind arith

pub cluster_lba_lem :
    (bs : BsInfo) (fat_len c : ℕ)
    → IsVolume bs fat_len
    → leads fat_len c ≡ true
    → (cluster_lba bs c ≡ bs.cluster_begin_lba + (c - 2) * bs.sectors_per_cluster)
      × (cluster_lba bs c + bs.sectors_per_cluster ≤ 2 ^ 28)
unfolding cluster_lba
cluster_lba_lem bs fat_len c v h =
    let (from, below, small) = leads-bound fat_len c h in
    let less : u32 (c + 2 ^ 32 - 2) ≡ c - 2 = omega arith in
    let room = product_le (c - 2) (fat_len / 4) bs.sectors_per_cluster (omega arith) in
    rw less (omega (arith, v.on_disk, room), omega (arith, v.on_disk, room))

-- The command of the loop copies a whole cluster.
pub read_cluster :
    (bs : BsInfo) (fat_len c target : ℕ) (disk buf : ℕ → ℕ) (q : ℕ)
    → IsVolume bs fat_len
    → leads fat_len c ≡ true
    → ata_pio_read28 disk (cluster_lba bs c) bs.sectors_per_cluster target buf q
      ≡ blit disk (cluster_lba bs c * 512) (cluster_size bs) target buf q
read_cluster bs fat_len c target disk buf q v h =
    let size : bs.sectors_per_cluster * 512 ≡ cluster_size bs = omega arith in
    ata_pio_read28_lem disk (cluster_lba bs c) bs.sectors_per_cluster target buf q
      (omega (arith, (cluster_lba_lem bs fat_len c v h).1, v.some_sectors)) v.few_sectors
    ∙ ap (λ n. blit disk (cluster_lba bs c * 512) n target buf q) size

-- The bytes of a file as they come to stand in a buffer.
abbrev pub filled_with : BsInfo → (ℕ → ℕ) → List ℕ → ℕ → (ℕ → ℕ) → ℕ → ℕ
filled_with bs disk cs pos dd = blit (content bs disk cs) 0 (length cs * cluster_size bs) pos dd

pub filled-nil :
    (bs : BsInfo) (disk : ℕ → ℕ) (pos : ℕ) (dd : ℕ → ℕ) (q : ℕ)
    → filled_with bs disk [] pos dd q ≡ dd q
filled-nil bs disk pos dd q = ground arith

pub filled-cons :
    (bs : BsInfo) (disk : ℕ → ℕ) (c : ℕ) (cs : List ℕ) (pos : ℕ) (dd dd1 : ℕ → ℕ) (q : ℕ)
    → dd1 q ≡ blit disk (cluster_lba bs c * 512) (cluster_size bs) pos dd q
    → filled_with bs disk cs (pos + cluster_size bs) dd1 q ≡ filled_with bs disk (c ∷ cs) pos dd q
unfolding content
filled-cons bs disk c cs pos dd dd1 q e =
    let more : suc (length cs) * cluster_size bs ≡ cluster_size bs + length cs * cluster_size bs =
      omega arith in
    let back : q - (pos + cluster_size bs) ≡ q - pos - cluster_size bs = omega arith in
    rw (more, e, back) (ground arith)

-- The command that writes a whole cluster.
pub write_cluster :
    (bs : BsInfo) (fat_len c source : ℕ) (buf disk : ℕ → ℕ) (q : ℕ)
    → IsVolume bs fat_len
    → leads fat_len c ≡ true
    → ata_pio_write28 (cluster_lba bs c) bs.sectors_per_cluster buf source disk q
      ≡ blit buf source (cluster_size bs) (cluster_lba bs c * 512) disk q
write_cluster bs fat_len c source buf disk q v h =
    let size : bs.sectors_per_cluster * 512 ≡ cluster_size bs = omega arith in
    ata_pio_write28_lem (cluster_lba bs c) bs.sectors_per_cluster buf source disk q
      (omega (arith, (cluster_lba_lem bs fat_len c v h).1, v.some_sectors)) v.few_sectors
    ∙ ap (λ n. blit buf source n (cluster_lba bs c * 512) disk q) size

-- Two clusters have no byte in common.
pub cluster_apart :
    (bs : BsInfo) (fat_len c d : ℕ)
    → IsVolume bs fat_len
    → leads fat_len c ≡ true
    → leads fat_len d ≡ true
    → c < d
    → cluster_lba bs c * 512 + cluster_size bs ≤ cluster_lba bs d * 512
cluster_apart bs fat_len c d v hc hd less =
    let (from, _, _) = leads-bound fat_len c hc in
    let room = product_le (c - 2) (d - 2) bs.sectors_per_cluster (omega arith) in
    omega
      (arith, room, (cluster_lba_lem bs fat_len c v hc).0, (cluster_lba_lem bs fat_len d v hd).0)

-- Writing a cluster, or a part of it, leaves the bytes of every other one.
pub blit-apart :
    (bs : BsInfo) (fat_len c x : ℕ) (buf : ℕ → ℕ) (source n : ℕ) (disk : ℕ → ℕ) (p : ℕ)
    → IsVolume bs fat_len
    → leads fat_len c ≡ true
    → leads fat_len x ≡ true
    → x ≢ c
    → p < cluster_size bs
    → n ≤ cluster_size bs
    → blit buf source n (cluster_lba bs c * 512) disk (cluster_lba bs x * 512 + p)
      ≡ disk (cluster_lba bs x * 512 + p)
blit-apart bs fat_len c x buf source n disk p v hc hx ne hp hn = elim (Bool-cases (ltb x c)) [
  | inl below ↦ (let room = cluster_apart bs fat_len x c v hx hc (ground arith) in ground arith)
  | inr above ↦ (let room = cluster_apart bs fat_len c x v hc hx (ground arith) in ground arith)
]

-- A disk that has the same bytes in the clusters of a file has the same file.
pub content-same :
    (bs : BsInfo) (disk disk' : ℕ → ℕ) (cs : List ℕ) (k : ℕ)
    → 0 < cluster_size bs
    → ((x p : ℕ)
        → outside x cs ≡ false
        → p < cluster_size bs
        → disk' (cluster_lba bs x * 512 + p) ≡ disk (cluster_lba bs x * 512 + p))
    → content bs disk' cs k ≡ content bs disk cs k
unfolding content
content-same bs disk disk' [] k pos same = refl
content-same bs disk disk' (c ∷ cs) k pos same = elim (Bool-cases (ltb k (cluster_size bs))) [
  | inl here ↦ rw here (same c k (ground arith) (ground arith))
  | inr later ↦ rw later (
      content-same bs disk disk' cs (k - cluster_size bs) pos
        (λ x p out hp. same x p (ground arith) hp))
]
