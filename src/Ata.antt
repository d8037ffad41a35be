-- ===== src/Ata.antt =====
-- kernel/device/storage/ata.c: the transfer of sectors. The disk is what the drive keeps, a function
-- from byte addresses to bytes; a buffer in memory is a function from its offsets. The ports, the waits
-- and the polling are the drive's side of it: a command moves the sectors that it names.
pub mod Transfer
mod Tests
use han_os.Base.{
  ℕ, zero, suc, ◌+◌, ◌-◌, ◌*◌, ◌/◌, ◌%◌, ◌^◌, Bool, ◌&&◌, ltb, leb, if◌then◌else◌, u8, u32,
}

-- `n` bytes copied from offset `from` of `src` to offset `to` of `dst`.
abbrev pub blit : (ℕ → ℕ) → ℕ → ℕ → ℕ → (ℕ → ℕ) → ℕ → ℕ
blit src from n to dst q = if leb to q && ltb q (to + n) then src (from + (q - to)) else dst q

-- The loop of `ata_pio_read28`, by the rounds left: a sector of 512 bytes in each.
unfoldable pub read_sectors : ℕ → (ℕ → ℕ) → ℕ → ℕ → (ℕ → ℕ) → ℕ → ℕ
read_sectors zero disk sector target buf = buf
read_sectors (suc n) disk sector target buf =
    read_sectors n disk (sector + 1) (target + 512) (blit disk (sector * 512) 512 target buf)

-- The command has 28 bits for the first sector and 8 for the count.
unfoldable pub ata_pio_read28 : (ℕ → ℕ) → ℕ → ℕ → ℕ → (ℕ → ℕ) → ℕ → ℕ
ata_pio_read28 disk lba sector_count target buf =
    read_sectors (u8 sector_count) disk (lba % 2 ^ 28) target buf

-- The loop of `ata_pio_write28`.
unfoldable pub write_sectors : ℕ → ℕ → (ℕ → ℕ) → ℕ → (ℕ → ℕ) → ℕ → ℕ
write_sectors zero sector buf source disk = disk
write_sectors (suc n) sector buf source disk =
    write_sectors n (sector + 1) buf (source + 512) (blit buf source 512 (sector * 512) disk)

unfoldable pub ata_pio_write28 : ℕ → ℕ → (ℕ → ℕ) → ℕ → (ℕ → ℕ) → ℕ → ℕ
ata_pio_write28 lba sector_count buf source disk =
    write_sectors (u8 sector_count) (lba % 2 ^ 28) buf source disk
