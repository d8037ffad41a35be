-- ===== src/Fat/Refine.antt =====
-- The files of fat32.c as files of bytes: any sequence of writes, and a read after it.
use Prim.{Unit}
use han_os.Base.{
  ℕ, suc, ◌+◌, ◌*◌, ◌/◌, ◌^◌, ◌<◌, ◌≡◌, refl, ◌∙◌, ap, arith, List, [], ◌∷◌, length, max,
}
use han_os.Ata.{blit}
use han_os.Fat.{BsInfo, Ident, Volume, DiskResult, done}
use han_os.Fat.Content.{cluster_size, content, IsVolume}
use han_os.Fat.Disk.{fat32_read, fat32_write, and_then}
use han_os.Fat.Reads.{read_chain_lem, buffer_len_lem, fat32_read-done}
use han_os.Fat.Saves.{IsFile, Saved, resized, fat32_write-Saved}

-- A call of `fat32_write`.
pub record WriteCall : Type 0 where
  pub offset : ℕ
  pub len : ℕ
  pub buff : ℕ → ℕ

unfoldable pub run_writes :
    ℕ → Ident → Volume → (ℕ → ℕ) → List WriteCall → DiskResult (Ident × Volume)
run_writes fuel id v junk [] = done (id, v)
run_writes fuel id v junk (p ∷ ps) =
    and_then (fat32_write fuel id v p.offset p.len junk p.buff)
      (λ (_, id', v'). run_writes fuel id' v' junk ps)

-- The abstract file: its bytes and its size.
pub record File : Type 0 where
  pub bytes : ℕ → ℕ
  pub size : ℕ

abbrev pub write_file : WriteCall → File → File
write_file p f = record {
  bytes = blit p.buff 0 p.len p.offset f.bytes;
  size = max f.size (p.offset + p.len);
}

abbrev pub write_files : List WriteCall → File → File
write_files [] f = f
write_files (p ∷ ps) f = write_files ps (write_file p f)

-- The sectors up to `end` are those of `n` clusters.
abbrev pub Covers : BsInfo → ℕ → ℕ → Type 0
Covers bs n end = ((end + 511) / 512 * 512 ≡ n * cluster_size bs) × (end < 2 ^ 32)

abbrev pub AllCover : BsInfo → ℕ → List WriteCall → Type 0
AllCover bs n [] = Unit
AllCover bs n (p ∷ ps) = Covers bs n (p.offset + p.len) × AllCover bs n ps

-- The disk has the bytes and the size of the abstract file.
pub record Represents (id : Ident) (v : Volume) (cs : List ℕ) (f : File) : Type 0 where
  pub file : IsFile id v cs
  pub size_is : id.entry.file_size_bytes ≡ f.size
  pub bytes_are :
      (k : ℕ) → k < length cs * cluster_size id.bs → content id.bs v.disk cs k ≡ f.bytes k

-- A write on the disk does what the write of the abstract file does.
Represents-Saved :
    (id : Ident) (v v' : Volume) (cs : List ℕ) (p : WriteCall) (f : File)
    → Represents id v cs f
    → Saved id v v' cs p.offset p.len p.buff
    → Represents
        (resized id (max id.entry.file_size_bytes (p.offset + p.len)))
        v'
        cs
        (write_file p f)
Represents-Saved id v v' cs p f r s = record {
  file = record {
    chain = rw s.table r.file.chain;
    apart = r.file.apart;
    dir_leads = r.file.dir_leads;
    dir_apart = r.file.dir_apart;
    dir_index = r.file.dir_index;
    attribute_in = r.file.attribute_in;
    begin_in = r.file.begin_in;
  };
  size_is = ap (λ n. max n (p.offset + p.len)) r.size_is;
  bytes_are = λ k hk. s.bytes k hk ∙ ground (arith, r.bytes_are k hk);
}

run_writes-Represents :
    (fuel : ℕ) (id : Ident) (v : Volume) (cs : List ℕ) (junk : ℕ → ℕ) (ps : List WriteCall)
    (f : File)
    → IsVolume id.bs id.fat_len
    → Represents id v (id.entry.cluster_begin ∷ cs) f
    → length cs < fuel
    → AllCover id.bs (suc (length cs)) ps
    → (n : ℕ) × (v' : Volume) × (run_writes fuel id v junk ps ≡ done (resized id n, v'))
      × Represents (resized id n) v' (id.entry.cluster_begin ∷ cs) (write_files ps f)
unfolding run_writes
run_writes-Represents fuel id v cs junk [] f ok r enough all =
    (id.entry.file_size_bytes, v, refl, r)
run_writes-Represents fuel id v cs junk (p ∷ ps) f ok r enough (now, later) =
    let (v1, writes, saved) =
      fat32_write-Saved fuel id v cs p.offset p.len junk p.buff ok r.file enough now.1 now.0 in
    let id1 = resized id (max id.entry.file_size_bytes (p.offset + p.len)) in
    let (n, v2, runs, shows) =
      run_writes-Represents fuel id1 v1 cs junk ps (write_file p f) ok
        (Represents-Saved id v v1 (id.entry.cluster_begin ∷ cs) p f r saved) enough later in
    (n, v2, rw writes runs, shows)

-- The files of a volume implement files of bytes, for calls that end in the last sector of the last cluster
-- of the file. After any number of writes of that kind, each write has ended without an overrun, a read
-- of that kind returns the bytes that the abstract file then has at its offset, and the size that is kept is
-- the abstract one.
pub fat32_read-run_writes :
    (fuel : ℕ) (id : Ident) (v : Volume) (cs : List ℕ) (junk : ℕ → ℕ) (ps : List WriteCall)
    (f : File) (offset len : ℕ) (buff : ℕ → ℕ)
    → IsVolume id.bs id.fat_len
    → Represents id v (id.entry.cluster_begin ∷ cs) f
    → length cs < fuel
    → AllCover id.bs (suc (length cs)) ps
    → Covers id.bs (suc (length cs)) (offset + len)
    → (id' : Ident) × (v' : Volume) × (buff' : ℕ → ℕ) × (run_writes fuel id v junk ps
        ≡ done (id', v'))
      × (id'.entry.file_size_bytes ≡ (write_files ps f).size)
      × (fat32_read fuel id' v' offset len junk buff ≡ done (len, buff'))
      × ((i : ℕ) → i < len → buff' i ≡ (write_files ps f).bytes (offset + i))
fat32_read-run_writes fuel id v cs junk ps f offset len buff ok r enough all (fits, small) =
    let (n, v', runs, shows) = run_writes-Represents fuel id v cs junk ps f ok r enough all in
    let id' = resized id n in
    let first = id.entry.cluster_begin in
    let total : ℕ = (offset + len + 511) / 512 * 512 in
    let (room, size) = buffer_len_lem id.bs (offset + len) ok.sector_bytes (omega arith) in
    let (dd, reads, has) =
      read_chain_lem id' v' total ok fuel first cs 0 junk shows.file.chain enough (omega arith) in
    (
      id',
      v',
      blit dd offset len 0 buff,
      runs,
      shows.size_is,
      fat32_read-done fuel id' v' offset len total junk dd buff size (omega arith) reads,
      λ i hi. ground (arith, has (offset + i), shows.bytes_are (offset + i)),
    )
