-- ===== src/Fat/Tables.antt =====
-- The sectors of the table that fat32.c writes to the disk.
use han_os.Base.{
  ℕ, ◌+◌, ◌-◌, ◌*◌, ◌/◌, ◌≤◌, ◌<◌, ◌≡◌, ◌≢◌, refl, ◌∙◌, arith, inl, inr, true, false, ◌&&◌, ltb,
  leb, ◌==◌, if◌then◌else◌, Bool-cases, u32,
}
use han_os.Ata.{blit, ata_pio_write28}
use han_os.Ata.Transfer.{ata_pio_write28_lem}
use han_os.Fat.{BsInfo, Volume, done}
use han_os.Fat.Chains.{leads, leads-bound}
use han_os.Fat.Content.{IsVolume, cluster_lba_lem}
use han_os.Fat.Disk.{cluster_lba, fat_bytes, fat_sector_no, write_table}

-- A table that lies before the clusters.
pub record IsTable (bs : BsInfo) (fat_len : ℕ) : Type 0 where
  pub table_len : fat_len ≡ bs.sectors_per_fat * 512
  pub before : bs.fat_begin_lba + bs.sectors_per_fat ≤ bs.cluster_begin_lba

module _ (bs : BsInfo) (fat_len : ℕ) (ok : IsVolume bs fat_len) (table : IsTable bs fat_len) where
  pub sector_no_lem :
      (c : ℕ)
      → leads fat_len c ≡ true
      → (fat_sector_no bs c ≡ (c * 4 + 511) / 512)
        × (0 < fat_sector_no bs c)
        × (fat_sector_no bs c ≤ bs.sectors_per_fat)
  sector_no_lem c h =
      let (from, below, small) = leads-bound fat_len c h in
      let plain : fat_sector_no bs c ≡ (c * 4 + 511) / 512 = rw ok.sector_bytes (omega arith) in
      (plain, omega (arith, plain), omega (arith, plain, table.table_len))

  -- The disk after a sector of the table is written.
  abbrev pub written_table : ℕ → Volume → Volume
  written_table n v = record v {
    disk = ata_pio_write28 (bs.fat_begin_lba + n - 1) 1 (fat_bytes v.fat) ((n - 1) * 512) v.disk;
  }

  pub write_table_lem :
      (n : ℕ) (v : Volume)
      → 0 < n
      → n ≤ bs.sectors_per_fat
      → write_table bs n v ≡ done (written_table n v)
  unfolding write_table
  write_table_lem n v pos bound =
      let some : (n == 0) ≡ false = ground arith in
      let at : u32 (bs.fat_begin_lba + n - 1) ≡ bs.fat_begin_lba + n - 1 =
        omega (arith, ok.on_disk, table.before) in
      rw (some, at, ok.sector_bytes) refl

  written_table_lem :
      (n : ℕ) (v : Volume) (q : ℕ)
      → 0 < n
      → n ≤ bs.sectors_per_fat
      → (written_table n v).disk q
        ≡ blit (fat_bytes v.fat) ((n - 1) * 512) 512 ((bs.fat_begin_lba + n - 1) * 512) v.disk q
  written_table_lem n v q pos bound =
      ata_pio_write28_lem (bs.fat_begin_lba + n - 1) 1 (fat_bytes v.fat) ((n - 1) * 512) v.disk q
        (omega (arith, ok.on_disk, table.before)) (omega arith)

  -- It leaves the clusters,
  pub written_table-cluster :
      (n : ℕ) (v : Volume) (x p : ℕ)
      → 0 < n
      → n ≤ bs.sectors_per_fat
      → leads fat_len x ≡ true
      → (written_table n v).disk (cluster_lba bs x * 512 + p) ≡ v.disk (cluster_lba bs x * 512 + p)
  written_table-cluster n v x p pos bound h =
      let (at, room) = cluster_lba_lem bs fat_len x ok h in
      let past : (bs.fat_begin_lba + n - 1) * 512 + 512 ≤ cluster_lba bs x * 512 =
        omega (arith, at, table.before) in
      written_table_lem n v (cluster_lba bs x * 512 + p) pos bound ∙ ground arith

  -- and the table has its bytes in that sector, and in no other one new ones.
  pub written_table-byte :
      (n : ℕ) (v : Volume) (k : ℕ)
      → 0 < n
      → n ≤ bs.sectors_per_fat
      → (written_table n v).disk (bs.fat_begin_lba * 512 + k)
        ≡ (if k / 512 == n - 1 then fat_bytes v.fat k else v.disk (bs.fat_begin_lba * 512 + k))
  written_table-byte n v k pos bound =
      let at : ℕ = (bs.fat_begin_lba + n - 1) * 512 in
      written_table_lem n v (bs.fat_begin_lba * 512 + k) pos bound
      ∙ elim (Bool-cases (k / 512 == n - 1)) [
        | inl here ↦
            let same : k / 512 ≡ n - 1 = ground arith in
            let inside : leb at (bs.fat_begin_lba * 512 + k)
                  && ltb (bs.fat_begin_lba * 512 + k) (at + 512)
                ≡ true =
              (let lo : at ≤ bs.fat_begin_lba * 512 + k = omega arith in
                let hi : bs.fat_begin_lba * 512 + k < at + 512 = omega arith in ground arith) in
            let index : (n - 1) * 512 + (bs.fat_begin_lba * 512 + k - at) ≡ k = omega arith in
            rw (here, inside, index) refl
        | inr away ↦
            let other : k / 512 ≢ n - 1 = ground arith in
            let outer : leb at (bs.fat_begin_lba * 512 + k)
                  && ltb (bs.fat_begin_lba * 512 + k) (at + 512)
                ≡ false =
              elim (Bool-cases (
                leb at (bs.fat_begin_lba * 512 + k)
                && ltb (bs.fat_begin_lba * 512 + k) (at + 512))) [
                  | inl both ↦
                      let lo : at ≤ bs.fat_begin_lba * 512 + k = ground arith in
                      let hi : bs.fat_begin_lba * 512 + k < at + 512 = ground arith in
                      absurd (other (omega arith))
                  | inr neither ↦ neither
                ] in
            rw (away, outer) refl
      ]
