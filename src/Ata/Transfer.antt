-- ===== src/Ata/Transfer.antt =====
-- A transfer of ata.c as one copy of all its bytes.
use han_os.Base.{ℕ, zero, suc, ◌+◌, ◌*◌, ◌%◌, ◌^◌, ◌<◌, ◌≡◌, refl, sym, ◌∙◌, arith, leb, u8}
use han_os.Ata.{blit, read_sectors, ata_pio_read28, write_sectors, ata_pio_write28}

-- A copy of nothing.
pub blit-zero : (src : ℕ → ℕ) (from to : ℕ) (dst : ℕ → ℕ) (q : ℕ) → blit src from 0 to dst q ≡ dst q
blit-zero src from to dst q = ground arith

-- Two copies, the second right after the first, are one.
pub blit-blit :
    (src : ℕ → ℕ) (from n m to : ℕ) (dst : ℕ → ℕ) (q : ℕ)
    → blit src (from + n) m (to + n) (blit src from n to dst) q ≡ blit src from (n + m) to dst q
blit-blit src from n m to dst q = let e : leb (to + n) q ≡ leb (to + n) q = refl in ground arith

pub read_sectors_lem :
    (n : ℕ) (disk : ℕ → ℕ) (sector target : ℕ) (buf : ℕ → ℕ) (q : ℕ)
    → read_sectors n disk sector target buf q ≡ blit disk (sector * 512) (n * 512) target buf q
unfolding read_sectors
read_sectors_lem zero disk sector target buf q = sym (blit-zero disk (sector * 512) target buf q)
read_sectors_lem (suc n) disk sector target buf q =
    let next : (sector + 1) * 512 ≡ sector * 512 + 512 = omega arith in
    let size : suc n * 512 ≡ 512 + n * 512 = omega arith in
    read_sectors_lem n disk (sector + 1) (target + 512) (blit disk (sector * 512) 512 target buf) q
    ∙ rw (next, size) (blit-blit disk (sector * 512) 512 (n * 512) target buf q)

pub write_sectors_lem :
    (n sector : ℕ) (buf : ℕ → ℕ) (source : ℕ) (disk : ℕ → ℕ) (q : ℕ)
    → write_sectors n sector buf source disk q ≡ blit buf source (n * 512) (sector * 512) disk q
unfolding write_sectors
write_sectors_lem zero sector buf source disk q = sym (blit-zero buf source (sector * 512) disk q)
write_sectors_lem (suc n) sector buf source disk q =
    let next : (sector + 1) * 512 ≡ sector * 512 + 512 = omega arith in
    let size : suc n * 512 ≡ 512 + n * 512 = omega arith in
    write_sectors_lem n (sector + 1) buf (source + 512) (blit buf source 512 (sector * 512) disk) q
    ∙ rw (next, size) (blit-blit buf source 512 (n * 512) (sector * 512) disk q)

-- A command whose sector and count fit into its fields copies that many sectors.
pub ata_pio_read28_lem :
    (disk : ℕ → ℕ) (lba n target : ℕ) (buf : ℕ → ℕ) (q : ℕ)
    → lba < 2 ^ 28
    → n < 256
    → ata_pio_read28 disk lba n target buf q ≡ blit disk (lba * 512) (n * 512) target buf q
unfolding ata_pio_read28
ata_pio_read28_lem disk lba n target buf q hl hn =
    let l : lba % 2 ^ 28 ≡ lba = omega arith in
    let c : u8 n ≡ n = omega arith in rw (l, c) (read_sectors_lem n disk lba target buf q)

pub ata_pio_write28_lem :
    (lba n : ℕ) (buf : ℕ → ℕ) (source : ℕ) (disk : ℕ → ℕ) (q : ℕ)
    → lba < 2 ^ 28
    → n < 256
    → ata_pio_write28 lba n buf source disk q ≡ blit buf source (n * 512) (lba * 512) disk q
unfolding ata_pio_write28
ata_pio_write28_lem lba n buf source disk q hl hn =
    let l : lba % 2 ^ 28 ≡ lba = omega arith in
    let c : u8 n ≡ n = omega arith in rw (l, c) (write_sectors_lem n lba buf source disk q)
