-- ===== src/Fat.antt =====
-- kernel/fs/fat32.h and fat32.c: the table of clusters, the entries of a directory, and what the file
-- system does with them. A block of bytes is a function from offsets, the table one from clusters.
pub mod Disk
pub mod Chains
pub mod Content
pub mod Entries
pub mod Reads
pub mod Writes
pub mod Saves
pub mod Refine
pub mod Tables
pub mod Extends
pub mod Names
pub mod Mounts
pub mod Dirs
mod Tests
use han_os.Base.{
  ℕ, zero, suc, ◌+◌, ◌-◌, ◌*◌, ◌/◌, ◌%◌, ◌^◌, Bool, true, false, not, ◌&&◌, ◌||◌, List, [], ◌∷◌,
  ltb, leb, ◌==◌, if◌then◌else◌, u8, u32, u64, bit_and, bit_or, ◌>>>◌, ◌<<<◌,
}
use han_os.Cmos.{secs_of_years, secs_of_month, pred64}
use han_os.Time.{Tm, localtime}

abbrev pub fat32_attr_directory : ℕ
fat32_attr_directory = 0x10

abbrev pub fat32_attr_longname : ℕ
fat32_attr_longname = 0x0f

-- `fat32_bs_info_t`
pub record BsInfo : Type 0 where
  pub bytes_per_sector : ℕ
  pub sectors_per_cluster : ℕ
  pub reserved_sector_count : ℕ
  pub num_fats : ℕ
  pub sectors_per_fat : ℕ
  pub root_dir_first_cluster : ℕ
  pub fat_begin_lba : ℕ
  pub cluster_begin_lba : ℕ
  pub total_sectors : ℕ

-- `fat32_entry_t`
pub record FatEntry : Type 0 where
  pub name : ℕ → ℕ
  pub attribute : ℕ
  pub cluster_begin : ℕ
  pub file_size_bytes : ℕ
  pub dir_entry_cluster : ℕ
  pub dir_entry_index : ℕ

-- `fat32_ident_t`. Its table is in the volume, since all idents of a mount share it.
pub record Ident : Type 0 where
  pub bs : BsInfo
  pub entry : FatEntry
  pub fat_len : ℕ

-- What the files of a mount share: the memory from the table on, in words, and the disk.
pub record Volume : Type 0 where
  pub fat : ℕ → ℕ
  pub disk : ℕ → ℕ

-- What a loop over clusters ends with: a result, an access outside of its buffer, or nothing after
-- the rounds given.
pub data DiskResult {ℓ} (A : Type ℓ) : Type ℓ where
  done : A → DiskResult A
  overrun : DiskResult A
  endless : DiskResult A

unfoldable pub fat32_get_next_cluster : ℕ → (ℕ → ℕ) → ℕ → ℕ
fat32_get_next_cluster cluster fat fat_len =
    if leb (fat_len / 4) cluster
    then 0
    else (if leb 0xffff_fff8 (fat cluster)
        then 0
        else (if fat cluster == 0x0fff_ffff then 0 else fat cluster))

-- `for (size_t i = 0; i < fat_len; i++)`, by the rounds left
unfoldable pub free_cluster_loop : ℕ → ℕ → (ℕ → ℕ) → ℕ
free_cluster_loop zero i fat = 0
free_cluster_loop (suc n) i fat =
    (let rest = free_cluster_loop n (i + 1) fat in if fat i == 0 then u32 i else rest)

unfoldable pub fat32_get_free_cluster : (ℕ → ℕ) → ℕ → ℕ
fat32_get_free_cluster fat fat_len = free_cluster_loop fat_len 0 fat

-- One line of `fat32_checksum`.
abbrev pub checksum_step : ℕ → ℕ → ℕ
checksum_step s c = u8 (s <<< 7 + s >>> 1 + c)

unfoldable pub fat32_checksum : (ℕ → ℕ) → ℕ
fat32_checksum name =
    let s = u8 (name 0) in
    let s = checksum_step s (name 1) in
    let s = checksum_step s (name 2) in
    let s = checksum_step s (name 3) in
    let s = checksum_step s (name 4) in
    let s = checksum_step s (name 5) in
    let s = checksum_step s (name 6) in
    let s = checksum_step s (name 7) in
    let s = checksum_step s (name 8) in
    let s = checksum_step s (name 9) in checksum_step s (name 10)

-- `fat_dir_entry_t`
pub record DirEntry : Type 0 where
  pub file_name_and_ext : ℕ → ℕ
  pub attribute : ℕ
  pub create_time : ℕ
  pub create_date : ℕ
  pub last_visit_date : ℕ
  pub cluster_num_high : ℕ
  pub modify_time : ℕ
  pub modify_date : ℕ
  pub cluster_num_low : ℕ
  pub file_size_bytes : ℕ

-- The time that `fat32_get_datetime` computes. The ints of a month or a day of 0 become unsigned with
-- their sign.
unfoldable pub modify_seconds : DirEntry → ℕ
modify_seconds de =
    let year = bit_and de.modify_date 0xfe00 >>> 9 + 1980 in
    let month = bit_and de.modify_date 0x01e0 >>> 5 in
    let day = bit_and de.modify_date 0x001f in
    let hour = bit_and de.modify_time 0xf800 >>> 11 in
    let min = bit_and de.modify_time 0x07e0 >>> 5 in
    let sec = bit_and de.modify_time 0x001f * 2 in
    u64 (
      secs_of_years (year - 1)
      + secs_of_month (pred64 month) year
      + u64 (pred64 day * 86400)
      + hour * 3600
      + min * 60
      + sec)

unfoldable pub fat32_get_datetime : DirEntry → Tm → Tm
unfolding modify_seconds
fat32_get_datetime de t = localtime (modify_seconds de) t
