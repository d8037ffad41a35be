-- ===== src/Fat/Tests.antt =====
-- A small volume: a directory in cluster 2, a file in the clusters 3 and 4, and a free cluster 5.
use han_os.Base.{
  ℕ, zero, suc, ◌+◌, ◌*◌, ◌%◌, ◌≤◌, ◌<◌, ◌≡◌, ◌≢◌, refl, ◌⊎◌, true, arith, List, [], ◌∷◌,
}
use Prim.{tt}
use han_os.Fat.{BsInfo, FatEntry, Ident, Volume, done}
use han_os.Fat.Chains.{IsChain, last, link, leads, outside}
use han_os.Fat.Content.{IsVolume, content}
use han_os.Fat.Disk.{
  cluster_lba, fat32_read, fat32_write, fat32_read_entry, fat32_write_entry, add_cluster,
}
use han_os.Fat.Reads.{HasRead, fat32_read-HasRead}
use han_os.Fat.Saves.{IsFile, Saved, resized, fat32_write-Saved}
use han_os.Fat.Refine.{WriteCall, File, Represents, run_writes, write_files, fat32_read-run_writes}
use han_os.Fat.Tables.{IsTable}
use han_os.Fat.Extends.{IsFirstFree, Extended, add_cluster-IsChain}
use han_os.Fat.Entries.{SameEntry, read_entry-write_entry}
use han_os.Fat.Names.{fat32_get_long_filename}
use han_os.Fat.Names.Long.{lfn_bytes, get_long_filename-lfn_bytes}

abbrev small_bs : BsInfo
small_bs = record {
  bytes_per_sector = 512;
  sectors_per_cluster = 1;
  reserved_sector_count = 1;
  num_fats = 2;
  sectors_per_fat = 1;
  root_dir_first_cluster = 2;
  fat_begin_lba = 2;
  cluster_begin_lba = 4;
  total_sectors = 200;
}

abbrev file_entry : FatEntry
file_entry = record {
  name = λ _. b'A';
  attribute = 0x20;
  cluster_begin = 3;
  file_size_bytes = 700;
  dir_entry_cluster = 2;
  dir_entry_index = 1;
}

abbrev file_id : Ident
file_id = record { bs = small_bs; entry = file_entry; fat_len = 512 }

abbrev small_fat : ℕ → ℕ
small_fat zero = 0x0fff_fff8
small_fat (suc zero) = 0x0fff_ffff
small_fat (suc (suc zero)) = 0x0fff_ffff
small_fat (suc (suc (suc zero))) = 4
small_fat (suc (suc (suc (suc zero)))) = 0x0fff_ffff
small_fat (suc (suc (suc (suc (suc c))))) = 0

abbrev small_volume : Volume
small_volume = record { fat = small_fat; disk = λ q. q % 256 }

small-IsVolume : IsVolume small_bs 512
small-IsVolume = record {
  sector_bytes = refl;
  some_sectors = omega arith;
  few_sectors = omega arith;
  on_disk = omega arith;
}

small-IsTable : IsTable small_bs 512
small-IsTable = record { table_len = refl; before = omega arith }

small-IsChain : IsChain small_fat 512 (3 ∷ 4 ∷ [])
unfolding leads
small-IsChain = link refl refl (last refl refl)

small-IsFile : IsFile file_id small_volume (3 ∷ 4 ∷ [])
unfolding leads
small-IsFile = record {
  chain = small-IsChain;
  apart = refl;
  dir_leads = refl;
  dir_apart = refl;
  dir_index = omega arith;
  attribute_in = omega arith;
  begin_in = omega arith;
}

abbrev small_file : File
small_file = record { bytes = content small_bs small_volume.disk (3 ∷ 4 ∷ []); size = 700 }

small-Represents : Represents file_id small_volume (3 ∷ 4 ∷ []) small_file
small-Represents = record { file = small-IsFile; size_is = refl; bytes_are = λ k hk. refl }

abbrev two_writes : List WriteCall
two_writes =
    record { offset = 600; len = 400; buff = λ i. 7 }
    ∷ record { offset = 100; len = 900; buff = λ i. 8 }
    ∷ []

fat32_read-run_writes_example :
    (id' : Ident) × (v' : Volume) × (buff' : ℕ → ℕ) × (run_writes 2 file_id small_volume
        (λ _. 0)
        two_writes
      ≡ done (id', v'))
    × (id'.entry.file_size_bytes ≡ (write_files two_writes small_file).size)
    × (fat32_read 2 id' v' 500 500 (λ _. 0) (λ _. 0) ≡ done (500, buff'))
    × ((i : ℕ) → i < 500 → buff' i ≡ (write_files two_writes small_file).bytes (500 + i))
fat32_read-run_writes_example =
    fat32_read-run_writes 2 file_id small_volume (4 ∷ []) (λ _. 0) two_writes small_file 500 500
      (λ _. 0) small-IsVolume small-Represents (omega arith)
      ((refl, omega arith), ((refl, omega arith), tt)) (refl, omega arith)

fat32_read-HasRead_example :
    HasRead file_id small_volume
      (3 ∷ 4 ∷ [])
      500
      200
      1024
      (λ _. 0)
      (fat32_read 2 file_id small_volume 500 200 (λ _. 0) (λ _. 0))
fat32_read-HasRead_example =
    fat32_read-HasRead 2 file_id small_volume (4 ∷ []) 500 200 (λ _. 0) (λ _. 0) small-IsVolume
      small-IsChain (omega arith) (omega arith)

fat32_write-Saved_example :
    (v' : Volume) × (fat32_write 2 file_id small_volume 600 400 (λ _. 0) (λ _. 7)
      ≡ done (400, resized file_id 1000, v'))
    × Saved file_id small_volume v' (3 ∷ 4 ∷ []) 600 400 (λ _. 7)
fat32_write-Saved_example =
    fat32_write-Saved 2 file_id small_volume (4 ∷ []) 600 400 (λ _. 0) (λ _. 7) small-IsVolume
      small-IsFile (omega arith) (omega arith) refl

used_below : (j : ℕ) → j < 5 → small_fat j ≢ 0
used_below zero h = λ e. absurd (omega (arith, e))
used_below (suc zero) h = λ e. absurd (omega (arith, e))
used_below (suc (suc zero)) h = λ e. absurd (omega (arith, e))
used_below (suc (suc (suc zero))) h = λ e. absurd (omega (arith, e))
used_below (suc (suc (suc (suc zero)))) h = λ e. absurd (omega (arith, e))
used_below (suc (suc (suc (suc (suc j))))) h = absurd (omega arith)

five-IsFirstFree : IsFirstFree small_fat 512 5
unfolding leads
five-IsFirstFree = record { in_table = refl; free = refl; least = used_below }

add_cluster-IsChain_example :
    (v' : Volume) × (add_cluster file_id 4 small_volume ≡ done (5, v'))
    × IsChain v'.fat 512 (3 ∷ 4 ∷ 5 ∷ [])
    × IsChain v'.fat 512 (2 ∷ [])
    × (outside 5 (2 ∷ []) ≡ true)
    × Extended file_id small_volume v' 4 5
unfolding leads
add_cluster-IsChain_example =
    add_cluster-IsChain file_id small_volume 4 5 (3 ∷ []) (2 ∷ []) small-IsVolume small-IsTable
      five-IsFirstFree small-IsChain refl (last refl refl) refl

abbrev long_name : List ℕ
long_name =
    b'a' ∷ b'_' ∷ b'l' ∷ b'o' ∷ b'n' ∷ b'g' ∷ b'_' ∷ b'f' ∷ b'i' ∷ b'l' ∷ b'e' ∷ b'_' ∷ b'n' ∷ b'a'
    ∷ b'm' ∷ b'e' ∷ b'.' ∷ b't' ∷ b'x' ∷ b't' ∷ []

get_long_filename-lfn_bytes_example :
    fat32_get_long_filename 16 (lfn_bytes 2 long_name) 0 ≡ (2, long_name)
get_long_filename-lfn_bytes_example =
    get_long_filename-lfn_bytes 2 16 long_name (omega arith) (omega arith) (omega arith)
      (omega arith) (omega arith) refl

abbrev new_entry : FatEntry
new_entry = record {
  name = λ k. b'A' + k;
  attribute = 0x21;
  cluster_begin = 0x12345;
  file_size_bytes = 0xabcdef;
  dir_entry_cluster = 2;
  dir_entry_index = 3;
}

read_entry-write_entry_example :
    (disk' : ℕ → ℕ) × (e : FatEntry) × (fat32_write_entry small_bs new_entry small_volume.disk
      ≡ done disk')
    × (fat32_read_entry small_bs disk' 2 3 ≡ done e)
    × SameEntry e new_entry
    × ((q : ℕ)
        → (q < cluster_lba small_bs 2 * 512 + 3 * 32)
          ⊎ (cluster_lba small_bs 2 * 512 + 3 * 32 + 32 ≤ q)
        → disk' q ≡ small_volume.disk q)
    × ((k : ℕ)
        → 12 ≤ k
        → k < 20
        → disk' (cluster_lba small_bs 2 * 512 + (3 * 32 + k))
          ≡ small_volume.disk (cluster_lba small_bs 2 * 512 + (3 * 32 + k)))
unfolding cluster_lba
read_entry-write_entry_example =
    read_entry-write_entry small_bs new_entry small_volume.disk (omega arith) (omega arith)
      (omega arith) (omega arith) (omega arith)
