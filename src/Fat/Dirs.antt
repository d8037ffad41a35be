-- ===== src/Fat/Dirs.antt =====
-- Directories in kernel/fs/fat32.c: the list of files, the search of a path, and the empty operations.
-- `DiskResult` tells an access outside of a buffer from a search that ends.
pub mod Listing
pub mod Paths
mod Tests
use han_os.Base.{
  ℕ, zero, suc, ◌+◌, ◌-◌, ◌*◌, ◌/◌, ◌%◌, ◌^◌, Bool, true, false, not, ◌&&◌, ◌||◌, List, [], ◌∷◌,
  ◌++◌, Option, none, some, ltb, leb, ◌==◌, if◌then◌else◌, bit_and, nonzero, length, drop, take,
  u32,
}
use han_os.Ata.{blit, ata_pio_read28}
use han_os.Time.{Tm}
use han_os.Vfs.{Dirent, NodeType, vfs_node_file, vfs_node_folder}
use han_os.Fat.{
  BsInfo, FatEntry, Ident, Volume, DiskResult, done, overrun, endless, DirEntry,
  fat32_attr_directory, fat32_attr_longname, fat32_get_next_cluster, fat32_get_datetime,
}
use han_os.Fat.Disk.{cluster_lba, read16, read32, fat32_read_entry}
use han_os.Fat.Names.{
  fat32_get_short_filename, fat32_get_long_filename, after_char, fat32_compare_entry_and_path,
}

-- `fat32_ident_item_t`; the parent is the address of an inode.
pub record Item : Type 0 where
  pub entry : DirEntry
  pub tm : Tm
  pub name : List ℕ
  pub parent : ℕ

-- The directory entry at an offset of a buffer.
abbrev pub dir_entry : (ℕ → ℕ) → ℕ → DirEntry
dir_entry buf at = record {
  file_name_and_ext = λ k. buf (at + k);
  attribute = buf (at + 11);
  create_time = read16 buf (at + 14);
  create_date = read16 buf (at + 16);
  last_visit_date = read16 buf (at + 18);
  cluster_num_high = read16 buf (at + 20);
  modify_time = read16 buf (at + 22);
  modify_date = read16 buf (at + 24);
  cluster_num_low = read16 buf (at + 26);
  file_size_bytes = read32 buf (at + 28);
}

-- The state of the loop over the entries of a buffer.
pub record Scan : Type 0 where
  pub buf : ℕ → ℕ
  pub len : ℕ
  pub index : ℕ
  pub filelist : List Item

pub data Round : Type 0 where
  again : Scan → Round
  leave : Scan → Round
  outside_buffer : Round

-- The end of a round: entry `index` is added to the list, under its short name if `fn` is empty. `junk` is
-- what the new item's date was.
unfoldable pub add_item : ℕ → Tm → ℕ → List ℕ → Scan → Round
add_item this junk index fn s =
    let fe = dir_entry s.buf (index * 32) in
    let name : List ℕ = elim fn [
      | [] ↦ fat32_get_short_filename fe.file_name_and_ext
      | c ∷ rest ↦ c ∷ rest
    ] in
    let item : Item = record {
      entry = fe;
      tm = fat32_get_datetime fe junk;
      name = name;
      parent = this;
    } in
    if leb (s.len / 32) index
    then outside_buffer
    else again (record s { index = index + 1; filelist = s.filelist ++ (item ∷ []) })

-- More data for a long name that goes on in the next cluster.
unfoldable pub load_more : Ident → Volume → ℕ → Scan → Round
load_more id v cluster s =
    let cluster_len = id.bs.sectors_per_cluster * id.bs.bytes_per_sector in
    let kept = s.len - s.index * 32 in
    let buf' : ℕ → ℕ = blit s.buf (s.index * 32) kept 0 (λ _. 0) in
    let buf'' =
      ata_pio_read28 v.disk (cluster_lba id.bs cluster) id.bs.sectors_per_cluster (s.index * 32)
        buf' in
    if cluster == 0 || leb 0xffff_fff8 cluster
    then leave s
    else (if ltb (s.len + cluster_len - s.index * 32) (s.index * 32 + cluster_len)
        then outside_buffer
        else again (record s { buf = buf''; len = s.len + cluster_len - s.index * 32; index = 0 }))

-- One round of the inner loop of `fat32_refresh`; `cluster` is the next one of the directory.
unfoldable pub scan_round : Ident → Volume → ℕ → Tm → ℕ → Scan → Round
scan_round id v this junk cluster s =
    let attribute = s.buf (s.index * 32 + 11) in
    let (count, fn) = fat32_get_long_filename (s.len / 32 - s.index) s.buf (s.index * 32) in
    let long = add_item this junk (s.index + count) fn s in
    let short = add_item this junk s.index [] s in
    let more = load_more id v cluster s in
    if leb (s.len / 32) s.index
    then leave s
    else (if attribute == 0
        then again (record s { index = s.index + 1 })
        else (if nonzero (bit_and attribute fat32_attr_longname)
            then (if ltb 0 count then long else more)
            else short))

unfoldable pub scan_loop : ℕ → Ident → Volume → ℕ → Tm → ℕ → Scan → DiskResult Scan
scan_loop zero id v this junk cluster s = endless
scan_loop (suc fuel) id v this junk cluster s = elim (scan_round id v this junk cluster s) [
  | again s' ↦ scan_loop fuel id v this junk cluster s'
  | leave s' ↦ done s'
  | outside_buffer ↦ overrun
]

-- The outer loop, a cluster of the directory in each round.
unfoldable pub clusters_loop : ℕ → Ident → Volume → ℕ → Tm → ℕ → Scan → DiskResult (List Item)
clusters_loop zero id v this junk cluster s = endless
clusters_loop (suc fuel) id v this junk cluster s =
    let buf' =
      ata_pio_read28 v.disk (cluster_lba id.bs cluster) id.bs.sectors_per_cluster 0 s.buf in
    let next = fat32_get_next_cluster cluster v.fat id.fat_len in
    elim (scan_loop (suc fuel) id v this junk next (record s { buf = buf'; index = 0 })) [
      | done s' ↦
          (let rest = clusters_loop fuel id v this junk next s' in
            if next == 0 || leb 0xffff_fff8 next then done s'.filelist else rest)
      | overrun ↦ overrun
      | endless ↦ endless
    ]

-- The list of files after the call. `this` is the address of the inode.
unfoldable pub fat32_refresh :
    ℕ → Ident → Volume → ℕ → (ℕ → ℕ) → Tm → List Item → DiskResult (List Item)
fat32_refresh fuel id v this junk tm filelist =
    let cluster_len = id.bs.sectors_per_cluster * id.bs.bytes_per_sector in
    let first = if ltb id.entry.cluster_begin 2 then 2 else id.entry.cluster_begin in
    clusters_loop fuel id v this tm first
      (record { buf = junk; len = cluster_len; index = 0; filelist = filelist })

-- What is copied to the caller; `name` is cut to the array when the node is made.
abbrev pub dirent_of : Item → Dirent
dirent_of item = record {
  type =
      if nonzero (bit_and item.entry.attribute fat32_attr_directory)
      then vfs_node_folder
      else vfs_node_file;
  tm = item.tm;
  name = item.name;
}

-- `for (size_t i = 0; i < vec_length(&fat32.filelist); i++)`
unfoldable pub getdent_loop : List Item → ℕ → ℕ → ℕ → Option Dirent
getdent_loop [] this num pos = none
getdent_loop (item ∷ items) this num pos =
    let skipped = getdent_loop items this num pos in
    let rest = getdent_loop items this (num + 1) pos in
    if not (item.parent == this)
    then skipped
    else (if num == pos then some (dirent_of item) else rest)

unfoldable pub fat32_getdent : List Item → ℕ → ℕ → Option Dirent
fat32_getdent filelist this pos = getdent_loop filelist this 0 pos

-- A round of the search of `fat32_parse_path`.
pub data Search : Type 0 where
  next_entry : ℕ → ℕ → List ℕ → Search
  found_entry : FatEntry → Search
  no_entry : Search

-- What is done for an entry that has been read: the first component of the path is cut off, whether it is
-- the entry's or not. `before` is the byte in memory before `sub_elem`.
unfoldable pub try_entry : ℕ → ℕ → ℕ → List ℕ → FatEntry → Search
try_entry before cluster i path ent =
    let slash = after_char b'/' path in
    let sub_elem = take (slash - 1) path in
    let path' = drop (length sub_elem + 1) path in
    if slash == length path
    then (if fat32_compare_entry_and_path ent before path
        then found_entry ent
        else next_entry cluster (i + 1) path)
    else (if fat32_compare_entry_and_path ent before sub_elem
        then next_entry ent.cluster_begin 1 path'
        else next_entry cluster (i + 1) path')

-- The tests on the kind of the entry.
unfoldable pub visit_entry : ℕ → ℕ → ℕ → List ℕ → FatEntry → Search
visit_entry before cluster i path ent =
    let first = ent.name 0 in
    let ent' : FatEntry = record ent { name = λ k. if k == 0 then 0xe5 else ent.name k } in
    if bit_and ent.attribute 0x0f == 0x0f
    then next_entry cluster (i + 1) path
    else (if first == 0xe5
        then next_entry cluster (i + 1) path
        else (if first == 0x05
            then try_entry before cluster i path ent'
            else try_entry before cluster i path ent))

-- The step to the next cluster of the directory.
unfoldable pub search_round : Ident → Volume → ℕ → ℕ → ℕ → List ℕ → FatEntry → Search
search_round id v before cluster i path ent =
    let spc = id.bs.sectors_per_cluster in
    let next = fat32_get_next_cluster cluster v.fat id.fat_len in
    if i == spc * 16
    then (if leb id.bs.total_sectors (u32 (next * spc + 16))
        then no_entry
        else visit_entry before next 0 path ent)
    else visit_entry before cluster i path ent

-- The entry of zeros that stands for a failure is `none`.
unfoldable pub search_loop : ℕ → Ident → Volume → ℕ → ℕ → ℕ → List ℕ → DiskResult (Option FatEntry)
search_loop zero id v before cluster i path = endless
search_loop (suc fuel) id v before cluster i path = elim (fat32_read_entry id.bs v.disk cluster i) [
  | done ent ↦ elim (search_round id v before cluster i path ent) [
    | next_entry cluster' i' path' ↦ search_loop fuel id v before cluster' i' path'
    | found_entry e ↦ done (some e)
    | no_entry ↦ done none
  ]
  | overrun ↦ overrun
  | endless ↦ endless
]

-- The root directory, for the path `/`.
abbrev pub root_entry : Ident → FatEntry
root_entry id = record {
  name = λ k. if k == 0 then 0x20 else 0;
  attribute = fat32_attr_directory;
  cluster_begin = id.bs.root_dir_first_cluster;
  file_size_bytes = 0;
  dir_entry_cluster = 0;
  dir_entry_index = 0;
}

-- An empty path is read past its end.
unfoldable pub fat32_parse_path : ℕ → Ident → Volume → ℕ → List ℕ → DiskResult (Option FatEntry)
fat32_parse_path fuel id v before [] = overrun
fat32_parse_path fuel id v before (c ∷ path) =
    let rest = search_loop fuel id v before id.bs.root_dir_first_cluster 0 path in
    if c == b'/' && length path == 0 then done (some (root_entry id)) else rest
