-- ===== src/Fat/Mounts.antt =====
-- `fat32_mount` of kernel/fs/fat32.c: the partition table and the boot sector. The device is given, and the
-- node that `vfs_alloc_inode` makes is that of the virtual file system.
pub mod Found
mod Tests
use han_os.Base.{
  ℕ, zero, suc, ◌+◌, ◌-◌, ◌*◌, ◌/◌, ◌%◌, ◌^◌, ◌≤◌, ◌<◌, ◌≡◌, ◌≢◌, refl, sym, ◌∙◌, ap, arith, inl,
  inr, Bool, true, false, not, ◌&&◌, ◌||◌, ltb, leb, ◌==◌, if◌then◌else◌, Bool-cases, u32,
  all_below,
}
use han_os.Ata.{blit, ata_pio_read28}
use han_os.Ata.Transfer.{ata_pio_read28_lem}
use han_os.Fat.{BsInfo, FatEntry, Ident, Volume}
use han_os.Fat.Content.{IsVolume}
use han_os.Fat.Disk.{read16, read32}
use han_os.Fat.Tables.{IsTable}

-- `create_ident`: all zero.
abbrev pub create_ident : Ident
create_ident = record {
  bs = record {
    bytes_per_sector = 0;
    sectors_per_cluster = 0;
    reserved_sector_count = 0;
    num_fats = 0;
    sectors_per_fat = 0;
    root_dir_first_cluster = 0;
    fat_begin_lba = 0;
    cluster_begin_lba = 0;
    total_sectors = 0;
  };
  entry = record {
    name = λ _. 0;
    attribute = 0;
    cluster_begin = 0;
    file_size_bytes = 0;
    dir_entry_cluster = 0;
    dir_entry_index = 0;
  };
  fat_len = 0;
}

-- How a mount ends: with the ident and the memory from its table on, or in `kpanic`.
pub data Mounted : Type 0 where
  mounted : Ident → (ℕ → ℕ) → Mounted
  panicked : Mounted

-- The fields of `mbr_t`: four partitions of 16 bytes from byte 446 on.
abbrev pub partition_type : (ℕ → ℕ) → ℕ → ℕ
partition_type mbr i = mbr (446 + 16 * i + 4)

abbrev pub lba_start : (ℕ → ℕ) → ℕ → ℕ
lba_start mbr i = read32 mbr (446 + 16 * i + 8)

abbrev pub is_fat32 : ℕ → Bool
is_fat32 type = type == 0x0b || (type == 0x0c || type == 0x1c)

-- One sector, as a buffer of zeros has it afterwards.
abbrev pub sector_at : (ℕ → ℕ) → ℕ → ℕ → ℕ
sector_at disk lba = ata_pio_read28 disk lba 1 0 (λ _. 0)

-- `fat32_bs_info_t` from the fields of `fat_bs_t` and of its `fat_extbs_32_t`.
unfoldable pub boot_info : (ℕ → ℕ) → ℕ → BsInfo
boot_info dd start =
    let fat_begin = u32 (start + read16 dd 14) in
    record {
      bytes_per_sector = read16 dd 11;
      sectors_per_cluster = dd 13;
      reserved_sector_count = read16 dd 14;
      num_fats = dd 16;
      sectors_per_fat = read32 dd 36;
      root_dir_first_cluster = read32 dd 44;
      fat_begin_lba = fat_begin;
      cluster_begin_lba = u32 (fat_begin + dd 16 * read32 dd 36);
      total_sectors = read32 dd 32;
    }

-- The words of the table, where `junk` is what `kmalloc` returned.
abbrev pub load_table : BsInfo → (ℕ → ℕ) → (ℕ → ℕ) → ℕ → ℕ
load_table bs disk junk k =
    read32 (ata_pio_read28 disk bs.fat_begin_lba bs.sectors_per_fat 0 junk) (4 * k)

abbrev pub ident_of : BsInfo → Ident
ident_of bs = record create_ident {
  bs = bs;
  fat_len = u32 (bs.sectors_per_fat * bs.bytes_per_sector);
}

-- What is done for a FAT32 partition.
unfoldable pub mount_partition : (ℕ → ℕ) → ℕ → (ℕ → ℕ) → Mounted
mount_partition disk start junk =
    let dd = sector_at disk start in
    let bs = boot_info dd start in
    if not (read16 dd 22 == 0) || not (read16 dd 19 == 0)
    then panicked
    else mounted (ident_of bs) (load_table bs disk junk)

-- `for (int i = 0; i < 4; i++)`, by the rounds left
unfoldable pub mount_loop : ℕ → ℕ → (ℕ → ℕ) → (ℕ → ℕ) → (ℕ → ℕ) → Mounted
mount_loop zero i mbr disk junk = mounted create_ident (λ _. 0)
mount_loop (suc n) i mbr disk junk =
    let rest = mount_loop n (i + 1) mbr disk junk in
    if is_fat32 (partition_type mbr i) then mount_partition disk (lba_start mbr i) junk else rest

unfoldable pub fat32_mount : (ℕ → ℕ) → (ℕ → ℕ) → Mounted
fat32_mount disk junk =
    let mbr = sector_at disk 0 in
    if mbr 510 == 0x55 && mbr 511 == 0xaa
    then mount_loop 4 0 mbr disk junk
    else mounted create_ident (λ _. 0)
