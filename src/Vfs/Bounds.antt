-- ===== src/Vfs/Bounds.antt =====
-- Reading within a file.
use han_os.Base.{
  ℕ, ◌+◌, ◌-◌, ◌^◌, ◌≤◌, ◌<◌, ◌≡◌, inl, inr, refl, true, false, ◌&&◌, ltb, ◌==◌, if◌then◌else◌,
  arith, Bool-cases, Option, some, none, List, [], u64, min,
}
use han_os.Vfs.{Fs, Desc, Store, desc_at}
use han_os.Vfs.Files.{vfs_read, read_at, read_result, read_len}

-- At a position inside the file a read is cut to what is left.
pub read_len-min :
    (pos size len : ℕ)
    → pos ≤ size
    → size < 2 ^ 64
    → pos + len < 2 ^ 64
    → read_len pos size len
      ≡ (if pos == size && ltb 0 len then none else some (min len (size - pos)))
unfolding read_len
read_len-min pos size len h hs hl = elim (Bool-cases (ltb size (u64 (pos + len)))) [
  | inl over ↦
      let more : size < pos + len = ground arith in
      let cut : u64 (size + 2 ^ 64 - pos) ≡ size - pos = omega arith in
      let least : min len (size - pos) ≡ size - pos = omega arith in
      rw (over, cut, least)
        (elim (Bool-cases (size - pos == 0)) [
          | inl nothing ↦
              let end : (pos == size && ltb 0 len) ≡ true = ground arith in rw (nothing, end) refl
          | inr something ↦
              let no_end : (pos == size && ltb 0 len) ≡ false = ground arith in
              rw (something, no_end) refl
        ])
  | inr within ↦
      let enough : pos + len ≤ size = ground arith in
      let least : min len (size - pos) ≡ len = omega arith in
      let no_end : (pos == size && ltb 0 len) ≡ false = ground arith in
      rw (within, least, no_end) refl
]

-- A read that ends inside the file is not cut.
pub read_len-inside :
    (pos size len : ℕ) → pos + len ≤ size → pos + len < 2 ^ 64 → read_len pos size len ≡ some len
unfolding read_len
read_len-inside pos size len h hl =
    let within : ltb size (u64 (pos + len)) ≡ false = ground arith in rw within refl

pub read_at-some :
    (drivers : ℕ → Fs) (fd : Desc) (o fs : Option ℕ) (len f : ℕ) (bytes : List ℕ) (s : Store)
    → o ≡ some len
    → fs ≡ some f
    → ((drivers f).read fd.inode fd.seek_pos len s).0 ≡ some bytes
    → read_at drivers fd o fs s ≡ some (len, bytes, ((drivers f).read fd.inode fd.seek_pos len s).1)
unfolding read_at
read_at-some drivers fd o fs len f bytes s cut has_fs reads = rw (cut, has_fs, reads) refl

pub vfs_read-fd :
    (drivers : ℕ → Fs) (h len : ℕ) (s : Store) (fd : Desc)
    → desc_at s.openfiles h ≡ some fd
    → vfs_read drivers h len s
      ≡ read_at drivers fd
          (read_len fd.seek_pos (s.inodes fd.inode).size len)
          (s.inodes fd.inode).fs
          s
unfolding vfs_read
vfs_read-fd drivers h len s fd e = rw (e, vfs_read)

-- A read at a position inside the file asks the file system for the bytes that were wanted or for all
-- that are left, whichever are fewer, and returns their number; at the end of the file it returns 0.
pub vfs_read-min :
    (drivers : ℕ → Fs) (h len f : ℕ) (s : Store) (fd : Desc)
    → desc_at s.openfiles h ≡ some fd
    → (s.inodes fd.inode).fs ≡ some f
    → fd.seek_pos ≤ (s.inodes fd.inode).size
    → (s.inodes fd.inode).size < 2 ^ 64
    → fd.seek_pos + len < 2 ^ 64
    → vfs_read drivers h len s ≡ (
        if fd.seek_pos == (s.inodes fd.inode).size && ltb 0 len
        then some (0, [], s)
        else (let l : ℕ = min len ((s.inodes fd.inode).size - fd.seek_pos) in
            let (status, s') = (drivers f).read fd.inode fd.seek_pos l s in
            read_result l status s'))
unfolding read_at
vfs_read-min drivers h len f s fd valid has_fs inside hs hl =
    let cut = read_len-min fd.seek_pos (s.inodes fd.inode).size len inside hs hl in
    rw (vfs_read-fd drivers h len s fd valid, cut, has_fs)
      (elim (Bool-cases (fd.seek_pos == (s.inodes fd.inode).size && ltb 0 len)) [
        | inl end ↦ rw end refl
        | inr more ↦ rw more refl
      ])
