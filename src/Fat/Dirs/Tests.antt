-- ===== src/Fat/Dirs/Tests.antt =====
-- A small directory.
use han_os.Base.{
  ℕ, zero, suc, ◌+◌, ◌*◌, ◌≤◌, ◌<◌, ◌≡◌, refl, arith, true, false, ◌&&◌, ◌||◌, ltb, ◌==◌,
  if◌then◌else◌, List, [], ◌∷◌, some, all_below, all_below_sound, bit_and, ==_iff, length,
}
use han_os.Ata.{ata_pio_read28, read_sectors}
use han_os.Time.{Tm}
use han_os.Fat.{BsInfo, Ident, Volume, done}
use han_os.Fat.Chains.{leads}
use han_os.Fat.Content.{IsVolume}
use han_os.Fat.Disk.{cluster_lba, first_sector}
use han_os.Fat.Names.{fat32_get_short_filename, cut_name, after_char}
use han_os.Fat.Names.Short.{IsShort, plain}
use han_os.Fat.Dirs.{Item, fat32_refresh, fat32_getdent, fat32_parse_path}
use han_os.Fat.Dirs.Listing.{dirent_at, listed, dir_buffer, getdent-refresh}
use han_os.Fat.Dirs.Paths.{Passed, removed, root_at, is_plain_entry, parse_path-get_short_filename}

abbrev dir_bs : BsInfo
dir_bs = record {
  bytes_per_sector = 512;
  sectors_per_cluster = 1;
  reserved_sector_count = 1;
  num_fats = 2;
  sectors_per_fat = 1;
  root_dir_first_cluster = 2;
  fat_begin_lba = 2;
  cluster_begin_lba = 4;
  total_sectors = 200;
}

abbrev dir_id : Ident
dir_id = record {
  bs = dir_bs;
  entry = record {
    name = λ _. 0x20;
    attribute = 0x10;
    cluster_begin = 2;
    file_size_bytes = 0;
    dir_entry_cluster = 0;
    dir_entry_index = 0;
  };
  fat_len = 512;
}

-- The directory of cluster 2: a removed entry, and the file A.TXT.
abbrev dir_byte : ℕ → ℕ
dir_byte q =
    if q == 2048
    then 0xe5
    else (if q == 2059
        then 0x20
        else (if q == 2080
            then b'A'
            else (if ltb 2080 q && ltb q 2088
                then 0x20
                else (if q == 2088 || q == 2090
                    then b'T'
                    else (if q == 2089 then b'X' else (if q == 2091 then 0x20 else 0))))))

abbrev dir_volume : Volume
dir_volume = record { fat = λ _. 0x0fff_ffff; disk = dir_byte }

dir-IsVolume : IsVolume dir_bs 512
dir-IsVolume = record {
  sector_bytes = refl;
  some_sectors = omega arith;
  few_sectors = omega arith;
  on_disk = omega arith;
}

abbrev some_date : Tm
some_date = record {
  sec = 0;
  min = 0;
  hour = 0;
  mday = 1;
  mon = 0;
  year = 70;
  wday = 4;
  yday = 0;
  isdst = 0;
}

flags_tested :
    all_below 16 (λ i. bit_and (dir_byte (cluster_lba dir_bs 2 * 512 + (i * 32 + 11))) 0x0f == 0)
    ≡ true
unfolding all_below cluster_lba
flags_tested = refl

no_flags :
    (i : ℕ) → i < 16 * 1 → bit_and (dir_byte (cluster_lba dir_bs 2 * 512 + (i * 32 + 11))) 0x0f ≡ 0
no_flags i h =
    let test =
      all_below_sound 16
        (λ i. bit_and (dir_byte (cluster_lba dir_bs 2 * 512 + (i * 32 + 11))) 0x0f == 0) i
        flags_tested (omega arith) in
    (==_iff (bit_and (dir_byte (cluster_lba dir_bs 2 * 512 + (i * 32 + 11))) 0x0f) 0).0 test

getdent-refresh_example :
    (filelist' : List Item) × (fat32_refresh 17 dir_id dir_volume 7 (λ _. 0) some_date []
      ≡ done filelist')
    × (fat32_getdent filelist' 7 1
        ≡ dirent_at (listed 16 7 some_date (dir_buffer dir_id dir_volume (λ _. 0)) 0) 1)
    × (fat32_getdent filelist' 8 1 ≡ fat32_getdent [] 8 1)
unfolding leads
getdent-refresh_example =
    getdent-refresh 16 dir_id dir_volume 7 8 1 (λ _. 0) some_date [] dir-IsVolume refl refl
      (omega arith) no_flags refl (omega arith)

abbrev file_byte : ℕ → ℕ
file_byte = (root_at dir_id dir_volume 1).name

bytes_tested :
    (plain (file_byte 0) ≡ true)
    × (all_below 8 (λ i. i == 0 || file_byte i == 0x20) ≡ true)
    × (all_below 3 (λ i. plain (file_byte (8 + i))) ≡ true)
unfolding all_below first_sector ata_pio_read28 read_sectors cluster_lba
bytes_tested = (refl, refl, refl)

name_plain : (i : ℕ) → i < 1 → plain (file_byte i) ≡ true
name_plain zero h = bytes_tested.0
name_plain (suc i) h = absurd (omega arith)

name_pad : (i : ℕ) → 1 ≤ i → i < 8 → file_byte i ≡ 0x20
name_pad i lo hi =
    let test = all_below_sound 8 (λ i. i == 0 || file_byte i == 0x20) i bytes_tested.1 hi in
    let later : (i == 0) ≡ false = ground arith in (==_iff (file_byte i) 0x20).0 (rw later at test)

file-IsShort : IsShort file_byte 1 3
file-IsShort = record {
  base_some = omega arith;
  base_in = omega arith;
  ext_in = omega arith;
  base_plain = name_plain;
  base_pad = name_pad;
  ext_plain = λ i h. all_below_sound 3 (λ i. plain (file_byte (8 + i))) i bytes_tested.2 h;
  ext_pad = λ i lo hi. absurd (omega arith);
}

file_found :
    (is_plain_entry (root_at dir_id dir_volume 1) ≡ true)
    × (after_char b'/' (fat32_get_short_filename file_byte)
        ≡ length (fat32_get_short_filename file_byte))
unfolding first_sector ata_pio_read28 read_sectors cluster_lba fat32_get_short_filename cut_name
    after_char
file_found = (refl, refl)

first_removed :
    (j : ℕ) → j < 1 → Passed 0 (fat32_get_short_filename file_byte) (root_at dir_id dir_volume j)
unfolding first_sector ata_pio_read28 read_sectors cluster_lba
first_removed zero h = removed refl refl
first_removed (suc j) h = absurd (omega arith)

parse_path-get_short_filename_example :
    fat32_parse_path 2 dir_id dir_volume 0
      (b'/' ∷ fat32_get_short_filename (root_at dir_id dir_volume 1).name)
    ≡ done (some (root_at dir_id dir_volume 1))
parse_path-get_short_filename_example =
    parse_path-get_short_filename 2 dir_id dir_volume 0 1 1 3 (omega arith) (omega arith)
      (omega arith) file-IsShort file_found.0 file_found.1 first_removed
