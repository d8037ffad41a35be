-- ===== src/Fat/Saves.antt =====
-- `fat32_write` of fat32.c against a file as a function from positions to bytes.
use han_os.Base.{
  ℕ, suc, ◌+◌, ◌-◌, ◌*◌, ◌/◌, ◌^◌, ◌≤◌, ◌<◌, ◌≡◌, ◌≢◌, refl, ◌∙◌, ap, ◌⊎◌, arith, inl, inr, true,
  ltb, Bool-cases, List, ◌∷◌, length, u32, u64, min, max,
}
use han_os.Ata.{blit}
use han_os.Fat.{FatEntry, Ident, Volume, done}
use han_os.Fat.Chains.{IsChain, leads, outside, chain_leads}
use han_os.Fat.Content.{cluster_size, content, IsVolume, cluster_lba_lem, blit-apart, content-same}
use han_os.Fat.Reads.{read_chain_lem, buffer_len_lem, fat32_read-done}
use han_os.Fat.Writes.{distinct, Stored, write_chain-Stored}
use han_os.Fat.Entries.{
  entry_written, entry_written-outside, entry_written_lem, write_entry_lem,
  read_entry-entry_written, entry_after, new_sector,
}
use han_os.Fat.Disk.{
  cluster_lba, fat32_read_entry, fat32_write, fat32_read, write_chain, update_entry, buffer_len,
}

-- An open file of the clusters `cs`, and the place of its directory entry, which is in none of them.
pub record IsFile (id : Ident) (v : Volume) (cs : List ℕ) : Type 0 where
  pub chain : IsChain v.fat id.fat_len cs
  pub apart : distinct cs ≡ true
  pub dir_leads : leads id.fat_len id.entry.dir_entry_cluster ≡ true
  pub dir_apart : outside id.entry.dir_entry_cluster cs ≡ true
  pub dir_index : id.entry.dir_entry_index < 16
  pub attribute_in : id.entry.attribute < 2 ^ 8
  pub begin_in : id.entry.cluster_begin < 2 ^ 32

-- The file with a size.
abbrev pub resized : Ident → ℕ → Ident
resized id n = record id { entry = record (id.entry) { file_size_bytes = n } }

-- What is left of the disk when the size of the file is brought up to date.
record Updated (id : Ident) (v v' : Volume) (end : ℕ) : Type 0 where
  table : v'.fat ≡ v.fat
  on_disk :
      id.entry.file_size_bytes < end
      → (e : FatEntry) × (fat32_read_entry id.bs v'.disk id.entry.dir_entry_cluster
            id.entry.dir_entry_index
          ≡ done e)
        × (e.file_size_bytes ≡ end)
  others :
      (x p : ℕ)
      → leads id.fat_len x ≡ true
      → x ≢ id.entry.dir_entry_cluster
      → p < cluster_size id.bs
      → v'.disk (cluster_lba id.bs x * 512 + p) ≡ v.disk (cluster_lba id.bs x * 512 + p)
  entries :
      (p : ℕ)
      → (p < id.entry.dir_entry_index * 32) ⊎ (id.entry.dir_entry_index * 32 + 32 ≤ p)
      → v'.disk (cluster_lba id.bs id.entry.dir_entry_cluster * 512 + p)
        ≡ v.disk (cluster_lba id.bs id.entry.dir_entry_cluster * 512 + p)

update_entry-Updated :
    (id : Ident) (v w : Volume) (cs : List ℕ) (end : ℕ)
    → IsVolume id.bs id.fat_len
    → IsFile id w cs
    → end < 2 ^ 32
    → (v' : Volume) × (update_entry end id v
        ≡ done (resized id (max id.entry.file_size_bytes end), v'))
      × Updated id v v' end
unfolding update_entry
update_entry-Updated id v w cs end ok f small =
    let entry' : FatEntry = record (id.entry) { file_size_bytes = u32 end } in
    let same : u32 end ≡ end = omega arith in
    let n : ℕ = max id.entry.file_size_bytes end in
    let (at, room) = cluster_lba_lem id.bs id.fat_len id.entry.dir_entry_cluster ok f.dir_leads in
    let low : cluster_lba id.bs id.entry.dir_entry_cluster < 2 ^ 28 =
      omega (arith, room, ok.some_sectors) in
    elim (Bool-cases (ltb id.entry.file_size_bytes end)) [
      | inl grows ↦
          let (reads, is_entry) =
            read_entry-entry_written id.bs entry' v.disk low f.dir_index f.attribute_in f.begin_in
              (omega arith) in
          let grown : n ≡ u32 end = ground arith in
          (
            record v { disk = entry_written id.bs entry' v.disk },
            rw (grows, write_entry_lem id.bs entry' v.disk f.dir_index, grown) refl,
            record {
              table = refl;
              on_disk = λ _. (entry_after id.bs entry' v.disk, reads, is_entry.size_is ∙ same);
              others = λ x p hx ne hp.
                  entry_written_lem id.bs entry' v.disk (cluster_lba id.bs x * 512 + p) low
                  ∙ blit-apart id.bs id.fat_len id.entry.dir_entry_cluster x
                      (new_sector id.bs entry' v.disk) 0 512 v.disk p ok f.dir_leads hx ne hp
                      (omega (arith, ok.some_sectors));
              entries = λ p away.
                  entry_written-outside id.bs entry' v.disk
                    (cluster_lba id.bs id.entry.dir_entry_cluster * 512 + p) low
                    (elim away [ inl h ↦ inl (omega arith) | inr h ↦ inr (omega arith) ]);
            },
          )
      | inr enough ↦ (
        v,
        (let kept : n ≡ id.entry.file_size_bytes = ground arith in rw (enough, kept) refl),
        record {
          table = refl;
          on_disk = λ h. absurd (ground arith);
          others = λ x p hx ne hp. refl;
          entries = λ p away. refl;
        },
      )
    ]

-- What `fat32_write` leaves behind: the table is the same, the file has the new bytes at its offset
-- and its old ones elsewhere, a new size is in its directory entry, and the clusters of other files and
-- the other entries in the cluster of its directory are as they were.
pub record Saved (id : Ident) (v v' : Volume) (cs : List ℕ) (offset len : ℕ) (buff : ℕ → ℕ)
    : Type 0 where
  pub table : v'.fat ≡ v.fat
  pub bytes :
      (k : ℕ)
      → k < length cs * cluster_size id.bs
      → content id.bs v'.disk cs k ≡ blit buff 0 len offset (content id.bs v.disk cs) k
  pub on_disk :
      id.entry.file_size_bytes < offset + len
      → (e : FatEntry) × (fat32_read_entry id.bs v'.disk id.entry.dir_entry_cluster
            id.entry.dir_entry_index
          ≡ done e)
        × (e.file_size_bytes ≡ offset + len)
  pub others :
      (x p : ℕ)
      → leads id.fat_len x ≡ true
      → x ≢ id.entry.dir_entry_cluster
      → outside x cs ≡ true
      → p < cluster_size id.bs
      → v'.disk (cluster_lba id.bs x * 512 + p) ≡ v.disk (cluster_lba id.bs x * 512 + p)
  pub entries :
      (p : ℕ)
      → p < cluster_size id.bs
      → (p < id.entry.dir_entry_index * 32) ⊎ (id.entry.dir_entry_index * 32 + 32 ≤ p)
      → v'.disk (cluster_lba id.bs id.entry.dir_entry_cluster * 512 + p)
        ≡ v.disk (cluster_lba id.bs id.entry.dir_entry_cluster * 512 + p)

fat32_write-done :
    (fuel : ℕ) (id id' : Ident) (v v1 v2 : Volume) (offset len total : ℕ) (junk dd buff : ℕ → ℕ)
    → u64 (offset + len) ≡ offset + len
    → buffer_len id.bs (offset + len) ≡ total
    → offset + len ≤ total
    → fat32_read fuel id v 0 total junk junk ≡ done (total, dd)
    → write_chain fuel id total (blit buff 0 len offset dd) id.entry.cluster_begin 0 v ≡ done v1
    → update_entry (offset + len) id v1 ≡ done (id', v2)
    → fat32_write fuel id v offset len junk buff ≡ done (len, id', v2)
unfolding fat32_write
fat32_write-done fuel id id' v v1 v2 offset len total junk dd buff end size room reads writes
      updates =
    let whole : min (total - offset) len ≡ len = omega arith in
    rw (end, size, reads, writes, updates, whole) refl

-- What the loop stores is the file with the new bytes.
Saved-Stored :
    (id : Ident) (v v1 v2 : Volume) (cs : List ℕ) (offset len : ℕ) (dd buff : ℕ → ℕ)
    → IsVolume id.bs id.fat_len
    → IsFile id v cs
    → ((k : ℕ) → k < length cs * cluster_size id.bs → dd k ≡ content id.bs v.disk cs k)
    → Stored id v v1 cs (blit buff 0 len offset dd) 0
    → Updated id v1 v2 (offset + len)
    → Saved id v v2 cs offset len buff
Saved-Stored id v v1 v2 cs offset len dd buff ok f shows st up = record {
  table = up.table ∙ st.table;
  bytes = λ k hk.
      content-same id.bs v1.disk v2.disk cs k (omega (arith, ok.some_sectors)) (λ x p inside hp.
        up.others x p (chain_leads x f.chain inside)
          (λ e. absurd (let same = ap (λ y. outside y cs) e in ground (arith, f.dir_apart))) hp)
      ∙ st.bytes k hk
      ∙ ground (arith, shows k hk);
  on_disk = up.on_disk;
  others = λ x p hx ne out hp. up.others x p hx ne hp ∙ st.others x p hx out hp;
  entries = λ p hp away.
      up.entries p away ∙ st.others id.entry.dir_entry_cluster p f.dir_leads f.dir_apart hp;
}

-- A write that ends in the last sector of the last cluster of the file ends and returns the whole length. The
-- file then has the new bytes at the offset and the old ones elsewhere, its size has grown as needed, in
-- memory and in the directory entry on the disk. The table, the clusters outside the file and its
-- directory, and the other entries in the cluster of its directory entry are unchanged.
pub fat32_write-Saved :
    (fuel : ℕ) (id : Ident) (v : Volume) (cs : List ℕ) (offset len : ℕ) (junk buff : ℕ → ℕ)
    → IsVolume id.bs id.fat_len
    → IsFile id v (id.entry.cluster_begin ∷ cs)
    → length cs < fuel
    → offset + len < 2 ^ 32
    → (offset + len + 511) / 512 * 512 ≡ suc (length cs) * cluster_size id.bs
    → (v' : Volume) × (fat32_write fuel id v offset len junk buff
        ≡ done (len, resized id (max id.entry.file_size_bytes (offset + len)), v'))
      × Saved id v v' (id.entry.cluster_begin ∷ cs) offset len buff
fat32_write-Saved fuel id v cs offset len junk buff ok f enough small fits =
    let first = id.entry.cluster_begin in
    let total : ℕ = (offset + len + 511) / 512 * 512 in
    let end : u64 (offset + len) ≡ offset + len = omega arith in
    let (room, size) = buffer_len_lem id.bs (offset + len) ok.sector_bytes (omega arith) in
    let (again, same) = buffer_len_lem id.bs total ok.sector_bytes (omega arith) in
    let whole : (total + 511) / 512 * 512 ≡ total = omega arith in
    let zero_more : 0 + total ≡ total = omega arith in
    let (dd0, runs, shows) =
      read_chain_lem id v total ok fuel first cs 0 junk f.chain enough (omega arith) in
    let dd = blit dd0 0 total 0 junk in
    let (v1, writes, st) =
      write_chain-Stored id total (blit buff 0 len offset dd) ok fuel first cs 0 v f.chain f.apart
        enough (omega arith) in
    let id' = resized id (max id.entry.file_size_bytes (offset + len)) in
    let (v2, updates, up) = update_entry-Updated id v1 v (first ∷ cs) (offset + len) ok f small in
    (
      v2,
      fat32_write-done fuel id id' v v1 v2 offset len total junk dd buff end (rw end at size)
          (omega arith)
          (fat32_read-done fuel id v 0 total total junk dd0 junk (rw zero_more (same ∙ whole))
            (omega arith) runs)
          writes updates,
      Saved-Stored id v v1 v2 (first ∷ cs) offset len dd buff ok f (λ k hk. ground (arith, shows k))
          st up,
    )
