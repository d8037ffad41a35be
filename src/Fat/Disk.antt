-- ===== src/Fat/Disk.antt =====
-- The functions of fat32.c that read and write the entries and the clusters of the disk. The buffers
-- that a function allocates start as `junk`, and an access outside of them ends as `overrun`.
use han_os.Base.{
  ℕ, zero, suc, ◌+◌, ◌-◌, ◌*◌, ◌/◌, ◌%◌, ◌^◌, ltb, leb, ◌==◌, if◌then◌else◌, u8, u32, u64, bit_and,
  bit_or, ◌>>>◌, ◌<<<◌, min,
}
use han_os.Ata.{blit, ata_pio_read28, ata_pio_write28}
use han_os.Fat.{
  BsInfo, FatEntry, Ident, Volume, DiskResult, done, overrun, endless, fat32_get_next_cluster,
  fat32_get_free_cluster,
}

abbrev pub and_then {ℓ κ} :
    {A : Type ℓ} {B : Type κ} → DiskResult A → (A → DiskResult B) → DiskResult B
and_then (done a) f = f a
and_then overrun f = overrun
and_then endless f = endless

-- The first sector of a cluster.
unfoldable pub cluster_lba : BsInfo → ℕ → ℕ
cluster_lba bs cluster =
    u32 (bs.cluster_begin_lba + u32 (cluster + 2 ^ 32 - 2) * bs.sectors_per_cluster)

-- The bytes of a directory entry, or of a table, at an offset.
abbrev pub read16 : (ℕ → ℕ) → ℕ → ℕ
read16 b k = b k + b (k + 1) * 256

abbrev pub read32 : (ℕ → ℕ) → ℕ → ℕ
read32 b k = read16 b k + read16 b (k + 2) * 65536

abbrev pub put_byte : ℕ → ℕ → (ℕ → ℕ) → ℕ → ℕ
put_byte k v b q = if q == k then u8 v else b q

abbrev pub write16 : ℕ → ℕ → (ℕ → ℕ) → ℕ → ℕ
write16 k v b = put_byte (k + 1) (v / 256) (put_byte k v b)

abbrev pub write32 : ℕ → ℕ → (ℕ → ℕ) → ℕ → ℕ
write32 k v b = write16 (k + 2) (v / 65536) (write16 k v b)

-- `uint8_t dd[512]` with the first sector of a cluster.
unfoldable pub first_sector : BsInfo → ℕ → (ℕ → ℕ) → ℕ → ℕ
first_sector bs cluster disk = ata_pio_read28 disk (cluster_lba bs cluster) 1 0 (λ _. 0)

-- What `fat32_read_entry` takes from `de[index]`.
abbrev pub entry_at : (ℕ → ℕ) → ℕ → ℕ → FatEntry
entry_at dd cluster index = record {
  name = λ k. dd (index * 32 + k);
  attribute = dd (index * 32 + 11);
  cluster_begin = bit_or (u32 (read16 dd (index * 32 + 20) <<< 16)) (read16 dd (index * 32 + 26));
  file_size_bytes = read32 dd (index * 32 + 28);
  dir_entry_cluster = cluster;
  dir_entry_index = index;
}

-- The buffer has 16 places.
unfoldable pub fat32_read_entry : BsInfo → (ℕ → ℕ) → ℕ → ℕ → DiskResult FatEntry
fat32_read_entry bs disk cluster index =
    if leb 16 index then overrun else done (entry_at (first_sector bs cluster disk) cluster index)

-- The bytes that `fat32_write_entry` changes in the sector.
unfoldable pub put_entry : ℕ → FatEntry → (ℕ → ℕ) → ℕ → ℕ
put_entry de src dd =
    let named : ℕ → ℕ = blit src.name 0 11 de dd in
    let with_attribute : ℕ → ℕ = put_byte (de + 11) src.attribute named in
    let with_high : ℕ → ℕ =
      write16 (de + 20) (bit_and (src.cluster_begin >>> 16) 0xffff) with_attribute in
    let with_low : ℕ → ℕ = write16 (de + 26) (bit_and src.cluster_begin 0xffff) with_high in
    write32 (de + 28) src.file_size_bytes with_low

unfoldable pub fat32_write_entry : BsInfo → FatEntry → (ℕ → ℕ) → DiskResult (ℕ → ℕ)
fat32_write_entry bs src disk =
    let cluster = src.dir_entry_cluster in
    let index = src.dir_entry_index in
    let dd = put_entry (index * 32) src (first_sector bs cluster disk) in
    if leb 16 index then overrun else done (ata_pio_write28 (cluster_lba bs cluster) 1 dd 0 disk)

abbrev pub div_roundup : ℕ → ℕ → ℕ
div_roundup a b = (a + (b - 1)) / b

-- The bytes of the buffer that `fat32_read` and `fat32_write` allocate.
abbrev pub buffer_len : BsInfo → ℕ → ℕ
buffer_len bs end = u64 (div_roundup end bs.bytes_per_sector * bs.bytes_per_sector)

-- The loop of `fat32_read`. A sector has 512 bytes on the disk.
unfoldable pub read_chain : ℕ → Ident → Volume → ℕ → ℕ → ℕ → (ℕ → ℕ) → DiskResult (ℕ → ℕ)
read_chain zero id v total cluster readlen dd = endless
read_chain (suc fuel) id v total cluster readlen dd =
    let spc = id.bs.sectors_per_cluster in
    let dd' = ata_pio_read28 v.disk (cluster_lba id.bs cluster) spc readlen dd in
    let next = fat32_get_next_cluster cluster v.fat id.fat_len in
    let rest = read_chain fuel id v total next (readlen + id.bs.bytes_per_sector * spc) dd' in
    if ltb total (readlen + 512 * spc) then overrun else (if next == 0 then done dd' else rest)

-- The length that is returned, and the caller's buffer after the call.
unfoldable pub fat32_read :
    ℕ → Ident → Volume → ℕ → ℕ → (ℕ → ℕ) → (ℕ → ℕ) → DiskResult (ℕ × (ℕ → ℕ))
fat32_read fuel id v offset len junk buff =
    let total = buffer_len id.bs (u64 (offset + len)) in
    let retlen = min (total - offset) len in
    and_then (read_chain fuel id v total id.entry.cluster_begin 0 junk)
      (λ dd. done (retlen, blit dd offset retlen 0 buff))

abbrev pub put_table_word : ℕ → ℕ → (ℕ → ℕ) → ℕ → ℕ
put_table_word k v m q = if q == k then v else m q

-- The table as bytes.
abbrev pub fat_bytes : (ℕ → ℕ) → ℕ → ℕ
fat_bytes fat q = u8 (fat (q / 4) / 256 ^ (q % 4))

abbrev pub fat_sector_no : BsInfo → ℕ → ℕ
fat_sector_no bs cluster = u32 (u32 (cluster * 4) + (bs.bytes_per_sector - 1)) / bs.bytes_per_sector

-- One sector of the table written; sector 0 would be read from before the table.
unfoldable pub write_table : BsInfo → ℕ → Volume → DiskResult Volume
write_table bs sector_no v =
    let source : ℕ = (sector_no - 1) * bs.bytes_per_sector in
    let lba : ℕ = u32 (bs.fat_begin_lba + sector_no - 1) in
    if sector_no == 0
    then overrun
    else done (record v { disk = ata_pio_write28 lba 1 (fat_bytes v.fat) source v.disk })

-- A new cluster at the end of the chain, and the sectors of the table that change.
unfoldable pub add_cluster : Ident → ℕ → Volume → DiskResult (ℕ × Volume)
add_cluster id cluster v =
    let temp_cluster = fat32_get_free_cluster v.fat id.fat_len in
    let fat' =
      put_table_word temp_cluster 0x0fff_ffff (put_table_word cluster temp_cluster v.fat) in
    let sector = fat_sector_no id.bs cluster in
    let temp_sector = fat_sector_no id.bs temp_cluster in
    and_then (write_table id.bs sector (record v { fat = fat' })) (λ v1.
      if temp_sector == sector
      then done (temp_cluster, v1)
      else and_then (write_table id.bs temp_sector v1) (λ v2. done (temp_cluster, v2)))

unfoldable pub next_or_new : Ident → ℕ → Volume → DiskResult (ℕ × Volume)
next_or_new id cluster v =
    let temp_cluster = fat32_get_next_cluster cluster v.fat id.fat_len in
    if temp_cluster == 0 then add_cluster id cluster v else done (temp_cluster, v)

-- The loop of `fat32_write`.
unfoldable pub write_chain : ℕ → Ident → ℕ → (ℕ → ℕ) → ℕ → ℕ → Volume → DiskResult Volume
write_chain zero id total dd cluster writelen v = endless
write_chain (suc fuel) id total dd cluster writelen v =
    let spc = id.bs.sectors_per_cluster in
    let disk' = ata_pio_write28 (cluster_lba id.bs cluster) spc dd writelen v.disk in
    let v1 : Volume = record v { disk = disk' } in
    let writelen' = writelen + id.bs.bytes_per_sector * spc in
    let rest =
      and_then (next_or_new id cluster v1)
        (λ (next, v2). write_chain fuel id total dd next writelen' v2) in
    if ltb total (writelen + 512 * spc)
    then overrun
    else (if leb total writelen' then done v1 else rest)

-- The last lines of `fat32_write`.
unfoldable pub update_entry : ℕ → Ident → Volume → DiskResult (Ident × Volume)
update_entry end id v =
    let entry' : FatEntry = record (id.entry) { file_size_bytes = u32 end } in
    if ltb id.entry.file_size_bytes end
    then and_then (fat32_write_entry id.bs entry' v.disk)
        (λ disk'. done (record id { entry = entry' }, record v { disk = disk' }))
    else done (id, v)

unfoldable pub fat32_write :
    ℕ → Ident → Volume → ℕ → ℕ → (ℕ → ℕ) → (ℕ → ℕ) → DiskResult (ℕ × Ident × Volume)
fat32_write fuel id v offset len junk buff =
    let end = u64 (offset + len) in
    let total = buffer_len id.bs end in
    and_then (fat32_read fuel id v 0 total junk junk) (λ (_, dd).
      and_then (write_chain fuel id total (blit buff 0 len offset dd) id.entry.cluster_begin 0 v)
        (λ v1.
          and_then (update_entry end id v1)
            (λ (id', v2). done (min (total - offset) len, id', v2))))
