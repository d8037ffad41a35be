-- ===== src/Fat/Mounts/Found.antt =====
-- What `fat32_mount` of fat32.c finds on a disk with a FAT32 partition.
use han_os.Base.{
  ℕ, zero, suc, ◌+◌, ◌*◌, ◌/◌, ◌^◌, ◌≤◌, ◌<◌, ◌≡◌, refl, ◌∙◌, ap, ap₂, arith, inl, inr, true, false,
  ◌==◌, Bool-cases, u32,
}
use han_os.Ata.{ata_pio_read28}
use han_os.Ata.Transfer.{ata_pio_read28_lem}
use han_os.Fat.{BsInfo, Ident}
use han_os.Fat.Content.{IsVolume}
use han_os.Fat.Disk.{read16, read32}
use han_os.Fat.Tables.{IsTable}
use han_os.Fat.Mounts.{
  ident_of, mounted, partition_type, lba_start, is_fat32, sector_at, boot_info, load_table,
  mount_partition, mount_loop, fat32_mount,
}

-- The bytes of the boot sector.
abbrev pub boot_bytes : (ℕ → ℕ) → ℕ → ℕ → ℕ
boot_bytes disk start q = disk (start * 512 + q)

-- A disk whose first FAT32 partition is number `i`, begins at the sector `start`, and has `sectors` sectors in
-- its table, all of them within what a command can address.
pub record HasFat32 (disk : ℕ → ℕ) (i start sectors : ℕ) : Type 0 where
  pub signature_0 : disk 510 ≡ 0x55
  pub signature_1 : disk 511 ≡ 0xaa
  pub number : i < 4
  pub type : is_fat32 (partition_type disk i) ≡ true
  pub first : (j : ℕ) → j < i → is_fat32 (partition_type disk j) ≡ false
  pub start_is : lba_start disk i ≡ start
  pub no_table_16 : read16 (boot_bytes disk start) 22 ≡ 0
  pub no_total_16 : read16 (boot_bytes disk start) 19 ≡ 0
  pub sector_bytes : read16 (boot_bytes disk start) 11 ≡ 512
  pub some_sectors : 0 < boot_bytes disk start 13
  pub few_sectors : boot_bytes disk start 13 < 256
  pub some_tables : 0 < boot_bytes disk start 16
  pub table_sectors : read32 (boot_bytes disk start) 36 ≡ sectors
  pub start_in : start < 2 ^ 28
  pub room :
      start
        + read16 (boot_bytes disk start) 14
        + boot_bytes disk start 16 * sectors
        + sectors * 128 * boot_bytes disk start 13
      ≤ 2 ^ 28

sector_at_lem :
    (disk : ℕ → ℕ) (lba q : ℕ)
    → lba < 2 ^ 28
    → q < 512
    → sector_at disk lba q ≡ disk (lba * 512 + q)
sector_at_lem disk lba q hl hq =
    ata_pio_read28_lem disk lba 1 0 (λ _. 0) q hl (omega arith) ∙ ground arith

read32-agree : (f g : ℕ → ℕ) (k : ℕ) → ((q : ℕ) → q < k + 4 → f q ≡ g q) → read32 f k ≡ read32 g k
read32-agree f g k same =
    ap₂ (λ a b. a + b * 65536)
      (ap₂ (λ a b. a + b * 256) (same k (omega arith)) (same (k + 1) (omega arith)))
      (ap₂ (λ a b. a + b * 256) (same (k + 2) (omega arith)) (same (k + 2 + 1) (omega arith)))

boot_info-agree :
    (f g : ℕ → ℕ) (start : ℕ)
    → ((q : ℕ) → q < 512 → f q ≡ g q)
    → boot_info f start ≡ boot_info g start
unfolding boot_info
boot_info-agree f g start same =
    let at = λ (q : ℕ) (h : q < 512). same q h in
    rw
      (
        same 11 (omega arith),
        same 12 (omega arith),
        same 13 (omega arith),
        same 14 (omega arith),
        same 15 (omega arith),
        same 16 (omega arith),
        same 32 (omega arith),
        same 33 (omega arith),
        same 34 (omega arith),
        same 35 (omega arith),
        same 36 (omega arith),
        same 37 (omega arith),
        same 38 (omega arith),
        same 39 (omega arith),
        same 44 (omega arith),
        same 45 (omega arith),
        same 46 (omega arith),
        same 47 (omega arith),
      )
      refl

mount_loop_lem :
    (n i k : ℕ) (mbr disk junk : ℕ → ℕ)
    → i ≤ k
    → k < i + n
    → is_fat32 (partition_type mbr k) ≡ true
    → ((j : ℕ) → j < k → is_fat32 (partition_type mbr j) ≡ false)
    → mount_loop n i mbr disk junk ≡ mount_partition disk (lba_start mbr k) junk
unfolding mount_loop
mount_loop_lem zero i k mbr disk junk lo hi type first = absurd (omega arith)
mount_loop_lem (suc n) i k mbr disk junk lo hi type first = elim (Bool-cases (i == k)) [
  | inl here ↦ (let e : i ≡ k = ground arith in rw (e, type) refl)
  | inr later ↦
      let before : i < k = ground arith in
      rw (first i before)
        (mount_loop_lem n (i + 1) k mbr disk junk (omega arith) (omega arith) type first)
]

mount_partition_lem :
    (disk junk : ℕ → ℕ) (start : ℕ)
    → start < 2 ^ 28
    → read16 (boot_bytes disk start) 22 ≡ 0
    → read16 (boot_bytes disk start) 19 ≡ 0
    → mount_partition disk start junk
      ≡ mounted
          (ident_of (boot_info (boot_bytes disk start) start))
          (load_table (boot_info (boot_bytes disk start) start) disk junk)
unfolding mount_partition
mount_partition_lem disk junk start hs table total =
    let same = λ (q : ℕ) (h : q < 512). sector_at_lem disk start q hs h in
    let no_table : read16 (sector_at disk start) 22 ≡ 0 =
      ap₂ (λ a b. a + b * 256) (same 22 (omega arith)) (same 23 (omega arith)) ∙ table in
    let no_total : read16 (sector_at disk start) 19 ≡ 0 =
      ap₂ (λ a b. a + b * 256) (same 19 (omega arith)) (same 20 (omega arith)) ∙ total in
    let info = boot_info-agree (sector_at disk start) (boot_bytes disk start) start same in
    rw (no_table, no_total, info) refl

fat32_mount_lem :
    (disk junk : ℕ → ℕ) (i start sectors : ℕ)
    → HasFat32 disk i start sectors
    → fat32_mount disk junk
      ≡ mounted
          (ident_of (boot_info (boot_bytes disk start) start))
          (load_table (boot_info (boot_bytes disk start) start) disk junk)
unfolding fat32_mount
fat32_mount_lem disk junk i start sectors h =
    let mbr = sector_at disk 0 in
    let same : (q : ℕ) → q < 512 → mbr q ≡ disk q = λ q hq.
      (let z : 0 * 512 + q ≡ q = omega arith in
        sector_at_lem disk 0 q (omega arith) hq ∙ ap disk z) in
    let typed : (j : ℕ)
        → j < 4
        → is_fat32 (partition_type mbr j) ≡ is_fat32 (partition_type disk j) =
      λ j hj. ap is_fat32 (same (446 + 16 * j + 4) (omega arith)) in
    let at : lba_start mbr i ≡ start =
      read32-agree mbr disk (446 + 16 * i + 8) (λ q hq. same q (omega (arith, h.number)))
      ∙ h.start_is in
    let found =
      mount_loop_lem 4 0 i mbr disk junk (omega arith) (omega (arith, h.number))
        (typed i h.number ∙ h.type) (λ j hj. typed j (omega (arith, h.number)) ∙ h.first j hj) in
    rw (same 510 (omega arith), same 511 (omega arith), h.signature_0, h.signature_1)
      (found
        ∙ (ap (λ s. mount_partition disk s junk) at
            ∙ mount_partition_lem disk junk start h.start_in h.no_table_16 h.no_total_16))

-- The table in memory is that of the disk.
load_table_lem :
    (bs : BsInfo) (disk junk : ℕ → ℕ) (k sectors : ℕ)
    → bs.sectors_per_fat ≡ sectors
    → sectors < 256
    → bs.fat_begin_lba < 2 ^ 28
    → k < sectors * 128
    → load_table bs disk junk k ≡ read32 disk (bs.fat_begin_lba * 512 + 4 * k)
load_table_lem bs disk junk k sectors size few low hk =
    let at : ℕ = bs.fat_begin_lba * 512 in
    let buf = ata_pio_read28 disk bs.fat_begin_lba bs.sectors_per_fat 0 junk in
    let byte : (q : ℕ) → q < sectors * 512 → buf q ≡ disk (at + q) = λ q hq.
      ata_pio_read28_lem disk bs.fat_begin_lba bs.sectors_per_fat 0 junk q low
        (omega (arith, size, few))
      ∙ ground (arith, size) in
    let next : at + (4 * k + 1) ≡ at + 4 * k + 1 = omega arith in
    let third : at + (4 * k + 2) ≡ at + 4 * k + 2 = omega arith in
    let fourth : at + (4 * k + 2 + 1) ≡ at + 4 * k + 2 + 1 = omega arith in
    ap₂ (λ a b. a + b * 65536)
      (ap₂ (λ a b. a + b * 256) (byte (4 * k) (omega arith))
        (byte (4 * k + 1) (omega arith) ∙ ap disk next))
      (ap₂ (λ a b. a + b * 256) (byte (4 * k + 2) (omega arith) ∙ ap disk third)
        (byte (4 * k + 2 + 1) (omega arith) ∙ ap disk fourth))

-- The areas of the volume, from the fields of the boot sector.
abbrev boot_of : (ℕ → ℕ) → ℕ → BsInfo
boot_of disk start = boot_info (boot_bytes disk start) start

boot_info-areas :
    (disk : ℕ → ℕ) (i start sectors : ℕ)
    → HasFat32 disk i start sectors
    → ((boot_of disk start).fat_begin_lba ≡ start + read16 (boot_bytes disk start) 14)
      × ((boot_of disk start).cluster_begin_lba
          ≡ start + read16 (boot_bytes disk start) 14 + boot_bytes disk start 16 * sectors)
      × ((ident_of (boot_of disk start)).fat_len ≡ sectors * 512)
      × (sectors * 128 ≤ 2 ^ 28)
unfolding boot_info
boot_info-areas disk i start sectors h =
    let b = boot_bytes disk start in
    let table : boot_bytes disk start 16 * read32 b 36 ≡ boot_bytes disk start 16 * sectors =
      ap (λ x. boot_bytes disk start 16 * x) h.table_sectors in
    let many : sectors * 128 ≤ sectors * 128 * b 13 = (let pos = h.some_sectors in grind arith) in
    let begin : u32 (start + read16 b 14) ≡ start + read16 b 14 = omega (arith, h.room) in
    let size : read32 b 36 * read16 b 11 ≡ sectors * 512 =
      ap₂ (λ x y. x * y) h.table_sectors h.sector_bytes in
    (
      begin,
      rw (begin, table) (omega (arith, h.room)),
      rw size (omega (arith, h.room, many)),
      omega (arith, h.room, many),
    )

boot_info-IsVolume :
    (disk : ℕ → ℕ) (i start sectors : ℕ)
    → HasFat32 disk i start sectors
    → IsVolume (boot_of disk start) (ident_of (boot_of disk start)).fat_len
      × IsTable (boot_of disk start) (ident_of (boot_of disk start)).fat_len
unfolding boot_info
boot_info-IsVolume disk i start sectors h =
    let (fat_at, cluster_at, len, bound) = boot_info-areas disk i start sectors h in
    let entries : sectors * 512 / 4 ≡ sectors * 128 = omega arith in
    let one : sectors ≤ boot_bytes disk start 16 * sectors =
      (let pos = h.some_tables in grind arith) in
    let at : (boot_of disk start).sectors_per_fat ≡ sectors = h.table_sectors in
    (
      record {
        sector_bytes = h.sector_bytes;
        some_sectors = h.some_sectors;
        few_sectors = h.few_sectors;
        on_disk = rw (len, entries, cluster_at) h.room;
      },
      record {
        table_len = rw (len, at) refl;
        before = rw at (omega (arith, one, fat_at, cluster_at));
      },
    )

-- Mounting a disk whose first FAT32 partition lies where commands can address it, with at most 255 sectors in
-- its table, does not panic. The ident has its areas where the boot sector says, clusters on the disk and
-- the table before them, and the memory has the words of the first table.
pub fat32_mount-IsVolume :
    (disk junk : ℕ → ℕ) (i start sectors : ℕ)
    → HasFat32 disk i start sectors
    → sectors < 256
    → (id : Ident) × (fat : ℕ → ℕ) × (fat32_mount disk junk ≡ mounted id fat)
      × IsVolume id.bs id.fat_len
      × IsTable id.bs id.fat_len
      × (id.fat_len ≡ sectors * 512)
      × (id.bs.sectors_per_cluster ≡ boot_bytes disk start 13)
      × (id.bs.root_dir_first_cluster ≡ read32 (boot_bytes disk start) 44)
      × (id.bs.fat_begin_lba ≡ start + read16 (boot_bytes disk start) 14)
      × (id.bs.cluster_begin_lba ≡ id.bs.fat_begin_lba + boot_bytes disk start 16 * sectors)
      × ((k : ℕ) → k < sectors * 128 → fat k ≡ read32 disk (id.bs.fat_begin_lba * 512 + 4 * k))
unfolding boot_info
fat32_mount-IsVolume disk junk i start sectors h few =
    let (fat_at, cluster_at, len, bound) = boot_info-areas disk i start sectors h in
    let (volume, table) = boot_info-IsVolume disk i start sectors h in
    let one : sectors ≤ boot_bytes disk start 16 * sectors =
      (let pos = h.some_tables in grind arith) in
    (
      ident_of (boot_of disk start),
      load_table (boot_of disk start) disk junk,
      fat32_mount_lem disk junk i start sectors h,
      volume,
      table,
      len,
      refl,
      refl,
      fat_at,
      cluster_at ∙ omega (arith, fat_at),
      λ k hk.
          load_table_lem (boot_of disk start) disk junk k sectors h.table_sectors few
            (omega (arith, fat_at, h.room, one, hk)) hk,
    )
