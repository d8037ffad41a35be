-- ===== src/Fat/Mounts/Tests.antt =====
-- A disk with one small FAT32 partition.
use han_os.Base.{
  ℕ, zero, suc, ◌+◌, ◌*◌, ◌<◌, ◌≡◌, refl, arith, false, ◌==◌, if◌then◌else◌, List, [], ◌∷◌,
}
use han_os.Fat.{Ident}
use han_os.Fat.Content.{IsVolume}
use han_os.Fat.Tables.{IsTable}
use han_os.Fat.Disk.{read32}
use han_os.Fat.Mounts.{mounted, is_fat32, partition_type, fat32_mount}
use han_os.Fat.Mounts.Found.{HasFat32, fat32_mount-IsVolume}

-- The bytes that are not 0: the second partition, its boot sector, and the signature.
abbrev listed_byte : List (ℕ × ℕ) → ℕ → ℕ
listed_byte [] q = 0
listed_byte ((at, b) ∷ rest) q = (let later = listed_byte rest q in if q == at then b else later)

abbrev small_disk : ℕ → ℕ
small_disk = listed_byte (
    (450, 0x83)
    ∷ (466, 0x0c)
    ∷ (470, 1)
    ∷ (510, 0x55)
    ∷ (511, 0xaa)
    ∷ (524, 2)
    ∷ (525, 1)
    ∷ (526, 1)
    ∷ (528, 2)
    ∷ (548, 1)
    ∷ (556, 2)
    ∷ [])

linux_first : (j : ℕ) → j < 1 → is_fat32 (partition_type small_disk j) ≡ false
linux_first zero h = refl
linux_first (suc j) h = absurd (omega arith)

small-HasFat32 : HasFat32 small_disk 1 1 1
small-HasFat32 = record {
  signature_0 = refl;
  signature_1 = refl;
  number = omega arith;
  type = refl;
  first = linux_first;
  start_is = refl;
  no_table_16 = refl;
  no_total_16 = refl;
  sector_bytes = refl;
  some_sectors = omega arith;
  few_sectors = omega arith;
  some_tables = omega arith;
  table_sectors = refl;
  start_in = omega arith;
  room = omega arith;
}

fat32_mount-IsVolume_example :
    (id : Ident) × (fat : ℕ → ℕ) × (fat32_mount small_disk (λ _. 0) ≡ mounted id fat)
    × IsVolume id.bs id.fat_len
    × IsTable id.bs id.fat_len
    × (id.fat_len ≡ 512)
    × (id.bs.sectors_per_cluster ≡ 1)
    × (id.bs.root_dir_first_cluster ≡ 2)
    × (id.bs.fat_begin_lba ≡ 2)
    × (id.bs.cluster_begin_lba ≡ id.bs.fat_begin_lba + 2)
    × ((k : ℕ) → k < 128 → fat k ≡ read32 small_disk (id.bs.fat_begin_lba * 512 + 4 * k))
fat32_mount-IsVolume_example =
    fat32_mount-IsVolume small_disk (λ _. 0) 1 1 1 small-HasFat32 (omega arith)
