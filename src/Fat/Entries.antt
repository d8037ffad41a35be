-- ===== src/Fat/Entries.antt =====
-- The directory entries that fat32.c writes and reads.
use han_os.Base.{
  ℕ, ◌+◌, ◌-◌, ◌*◌, ◌/◌, ◌%◌, ◌^◌, ◌≤◌, ◌<◌, ◌≡◌, refl, ◌∙◌, ap, ap₂, arith, inl, inr, ◌⊎◌, true,
  false, ◌&&◌, ltb, leb, Bool-cases, u8, bit_and-low, bit_or-low,
}
use han_os.Ata.{blit, ata_pio_write28}
use han_os.Ata.Transfer.{ata_pio_read28_lem, ata_pio_write28_lem}
use han_os.Fat.{BsInfo, FatEntry, done}
use han_os.Fat.Disk.{
  cluster_lba, first_sector, entry_at, put_entry, fat32_read_entry, fat32_write_entry, read16,
  read32,
}

module _ (de : ℕ) (src : FatEntry) (dd : ℕ → ℕ) where
  put_entry-outside : (q : ℕ) → (q < de) ⊎ (de + 32 ≤ q) → put_entry de src dd q ≡ dd q
  unfolding put_entry
  put_entry-outside q (inl h) = ground arith
  put_entry-outside q (inr h) = ground arith

  put_entry-kept : (k : ℕ) → 12 ≤ k → k < 20 → put_entry de src dd (de + k) ≡ dd (de + k)
  unfolding put_entry
  put_entry-kept k lo hi = ground arith

  put_entry-name : (k : ℕ) → k < 11 → put_entry de src dd (de + k) ≡ src.name k
  unfolding put_entry
  put_entry-name k h = (let e : de + k - de ≡ k = omega arith in ground arith)

  put_entry-attribute : put_entry de src dd (de + 11) ≡ u8 src.attribute
  unfolding put_entry
  put_entry-attribute = ground arith

  put_entry-size :
      src.file_size_bytes < 2 ^ 32 → read32 (put_entry de src dd) (de + 28) ≡ src.file_size_bytes
  unfolding put_entry
  put_entry-size h = ground arith

  put_entry-high : read16 (put_entry de src dd) (de + 20) ≡ src.cluster_begin / 65536 % 65536
  unfolding put_entry
  put_entry-high = rw (bit_and-low (src.cluster_begin / 65536) 16) (ground arith)

  put_entry-low : read16 (put_entry de src dd) (de + 26) ≡ src.cluster_begin % 65536
  unfolding put_entry
  put_entry-low = rw (bit_and-low src.cluster_begin 16) (ground arith)

first_sector_lem :
    (bs : BsInfo) (cluster : ℕ) (disk : ℕ → ℕ) (q : ℕ)
    → cluster_lba bs cluster < 2 ^ 28
    → q < 512
    → first_sector bs cluster disk q ≡ disk (cluster_lba bs cluster * 512 + q)
unfolding first_sector
first_sector_lem bs cluster disk q hl hq =
    ata_pio_read28_lem disk (cluster_lba bs cluster) 1 0 (λ _. 0) q hl (omega arith) ∙ ground arith

-- The sector of a directory as `fat32_write_entry` writes it back.
abbrev pub new_sector : BsInfo → FatEntry → (ℕ → ℕ) → ℕ → ℕ
new_sector bs src disk =
    put_entry (src.dir_entry_index * 32) src (first_sector bs src.dir_entry_cluster disk)

-- The disk after that.
abbrev pub entry_written : BsInfo → FatEntry → (ℕ → ℕ) → ℕ → ℕ
entry_written bs src disk =
    ata_pio_write28 (cluster_lba bs src.dir_entry_cluster) 1 (new_sector bs src disk) 0 disk

pub write_entry_lem :
    (bs : BsInfo) (src : FatEntry) (disk : ℕ → ℕ)
    → src.dir_entry_index < 16
    → fat32_write_entry bs src disk ≡ done (entry_written bs src disk)
unfolding fat32_write_entry
write_entry_lem bs src disk hi =
    let inside : leb 16 src.dir_entry_index ≡ false = ground arith in rw inside refl

pub entry_written_lem :
    (bs : BsInfo) (src : FatEntry) (disk : ℕ → ℕ) (q : ℕ)
    → cluster_lba bs src.dir_entry_cluster < 2 ^ 28
    → entry_written bs src disk q
      ≡ blit (new_sector bs src disk) 0 512 (cluster_lba bs src.dir_entry_cluster * 512) disk q
entry_written_lem bs src disk q hl =
    ata_pio_write28_lem (cluster_lba bs src.dir_entry_cluster) 1 (new_sector bs src disk) 0 disk q
      hl (omega arith)

pub entry_written-inside :
    (bs : BsInfo) (src : FatEntry) (disk : ℕ → ℕ) (k : ℕ)
    → cluster_lba bs src.dir_entry_cluster < 2 ^ 28
    → k < 512
    → entry_written bs src disk (cluster_lba bs src.dir_entry_cluster * 512 + k)
      ≡ new_sector bs src disk k
entry_written-inside bs src disk k hl hk =
    let at : ℕ = cluster_lba bs src.dir_entry_cluster * 512 in
    let here : leb at (at + k) && ltb (at + k) (at + 512) ≡ true = ground arith in
    let back : 0 + (at + k - at) ≡ k = omega arith in
    entry_written_lem bs src disk (at + k) hl ∙ rw (here, back) refl

-- Outside of the entry the disk is as it was.
pub entry_written-outside :
    (bs : BsInfo) (src : FatEntry) (disk : ℕ → ℕ) (q : ℕ)
    → cluster_lba bs src.dir_entry_cluster < 2 ^ 28
    → (q < cluster_lba bs src.dir_entry_cluster * 512 + src.dir_entry_index * 32)
      ⊎ (cluster_lba bs src.dir_entry_cluster * 512 + src.dir_entry_index * 32 + 32 ≤ q)
    → entry_written bs src disk q ≡ disk q
entry_written-outside bs src disk q hl away =
    let at : ℕ = cluster_lba bs src.dir_entry_cluster * 512 in
    entry_written_lem bs src disk q hl ∙ elim (Bool-cases (leb at q && ltb q (at + 512))) [
      | inl here ↦
          let back : at + (q - at) ≡ q = ground arith in
          let below : q - at < 512 = ground arith in
          let zero_more : 0 + (q - at) ≡ q - at = omega arith in
          rw (here, zero_more)
            (put_entry-outside (src.dir_entry_index * 32) src _ (q - at)
                (elim away [ inl h ↦ inl (omega arith) | inr h ↦ inr (omega arith) ])
              ∙ first_sector_lem bs src.dir_entry_cluster disk (q - at) hl below
              ∙ ap disk back)
      | inr there ↦ rw there refl
    ]

-- An entry as it was given to be written.
pub record SameEntry (e src : FatEntry) : Type 0 where
  pub name_is : (k : ℕ) → k < 11 → e.name k ≡ src.name k
  pub attribute_is : e.attribute ≡ src.attribute
  pub cluster_is : e.cluster_begin ≡ src.cluster_begin
  pub size_is : e.file_size_bytes ≡ src.file_size_bytes

module _ (src : FatEntry) (index cluster : ℕ) (new old : ℕ → ℕ)
    (same : (k : ℕ)
      → k < 32
      → new (index * 32 + k) ≡ put_entry (index * 32) src old (index * 32 + k)) where
  read16-same :
      (k : ℕ)
      → k < 31
      → read16 new (index * 32 + k) ≡ read16 (put_entry (index * 32) src old) (index * 32 + k)
  read16-same k h =
      let next : index * 32 + k + 1 ≡ index * 32 + (k + 1) = omega arith in
      rw next (ap₂ (λ a b. a + b * 256) (same k (omega arith)) (same (k + 1) (omega arith)))

  read32-same :
      read32 new (index * 32 + 28) ≡ read32 (put_entry (index * 32) src old) (index * 32 + 28)
  read32-same =
      let next : index * 32 + 28 + 2 ≡ index * 32 + 30 = omega arith in
      rw next
        (ap₂ (λ a b. a + b * 65536) (read16-same 28 (omega arith)) (read16-same 30 (omega arith)))

  -- A sector with the bytes that were put there has the entry.
  entry_at-SameEntry :
      src.attribute < 2 ^ 8
      → src.cluster_begin < 2 ^ 32
      → src.file_size_bytes < 2 ^ 32
      → SameEntry (entry_at new cluster index) src
  entry_at-SameEntry ha hc hs =
      let high = read16-same 20 (omega arith) ∙ put_entry-high (index * 32) src old in
      let low = read16-same 26 (omega arith) ∙ put_entry-low (index * 32) src old in
      let shifted : src.cluster_begin / 65536 % 65536 * 2 ^ 16 % 2 ^ 32
          ≡ src.cluster_begin / 65536 * 65536 =
        omega arith in
      record {
        name_is = λ k h. same k (omega arith) ∙ put_entry-name (index * 32) src old k h;
        attribute_is =
            same 11 (omega arith) ∙ put_entry-attribute (index * 32) src old ∙ omega arith;
        cluster_is =
            rw (high, low, shifted)
              (bit_or-low (src.cluster_begin / 65536 * 65536) (src.cluster_begin % 65536) 16
                  (omega arith) (omega arith)
                ∙ omega arith);
        size_is = read32-same ∙ put_entry-size (index * 32) src old hs;
      }

-- What is read from the disk after that.
abbrev pub entry_after : BsInfo → FatEntry → (ℕ → ℕ) → FatEntry
entry_after bs src disk =
    entry_at (first_sector bs src.dir_entry_cluster (entry_written bs src disk))
      src.dir_entry_cluster src.dir_entry_index

pub read_entry-entry_written :
    (bs : BsInfo) (src : FatEntry) (disk : ℕ → ℕ)
    → cluster_lba bs src.dir_entry_cluster < 2 ^ 28
    → src.dir_entry_index < 16
    → src.attribute < 2 ^ 8
    → src.cluster_begin < 2 ^ 32
    → src.file_size_bytes < 2 ^ 32
    → (fat32_read_entry bs (entry_written bs src disk) src.dir_entry_cluster src.dir_entry_index
        ≡ done (entry_after bs src disk))
      × SameEntry (entry_after bs src disk) src
unfolding fat32_read_entry
read_entry-entry_written bs src disk hl hi ha hc hs =
    let cluster = src.dir_entry_cluster in
    let index = src.dir_entry_index in
    let disk' = entry_written bs src disk in
    let inside : leb 16 index ≡ false = ground arith in
    (
      rw inside refl,
      entry_at-SameEntry src index cluster (first_sector bs cluster disk')
          (first_sector bs cluster disk)
          (λ k h.
            first_sector_lem bs cluster disk' (index * 32 + k) hl (omega arith)
            ∙ entry_written-inside bs src disk (index * 32 + k) hl (omega arith))
          ha hc hs,
    )

-- An entry that is written is read back as it was, with all bits of its first cluster and of its size.
-- Nothing else of the disk changes but its 32 bytes, and of these not the times of its making.
pub read_entry-write_entry :
    (bs : BsInfo) (src : FatEntry) (disk : ℕ → ℕ)
    → cluster_lba bs src.dir_entry_cluster < 2 ^ 28
    → src.dir_entry_index < 16
    → src.attribute < 2 ^ 8
    → src.cluster_begin < 2 ^ 32
    → src.file_size_bytes < 2 ^ 32
    → (disk' : ℕ → ℕ) × (e : FatEntry) × (fat32_write_entry bs src disk ≡ done disk')
      × (fat32_read_entry bs disk' src.dir_entry_cluster src.dir_entry_index ≡ done e)
      × SameEntry e src
      × ((q : ℕ)
          → (q < cluster_lba bs src.dir_entry_cluster * 512 + src.dir_entry_index * 32)
            ⊎ (cluster_lba bs src.dir_entry_cluster * 512 + src.dir_entry_index * 32 + 32 ≤ q)
          → disk' q ≡ disk q)
      × ((k : ℕ)
          → 12 ≤ k
          → k < 20
          → disk' (cluster_lba bs src.dir_entry_cluster * 512 + (src.dir_entry_index * 32 + k))
            ≡ disk (cluster_lba bs src.dir_entry_cluster * 512 + (src.dir_entry_index * 32 + k)))
read_entry-write_entry bs src disk hl hi ha hc hs =
    let (reads, same) = read_entry-entry_written bs src disk hl hi ha hc hs in
    (
      entry_written bs src disk,
      entry_after bs src disk,
      write_entry_lem bs src disk hi,
      reads,
      same,
      λ q away. entry_written-outside bs src disk q hl away,
      λ k lo hk.
          entry_written-inside bs src disk (src.dir_entry_index * 32 + k) hl (omega arith)
          ∙ put_entry-kept (src.dir_entry_index * 32) src _ k lo hk
          ∙ first_sector_lem bs src.dir_entry_cluster disk (src.dir_entry_index * 32 + k) hl
              (omega arith),
    )
