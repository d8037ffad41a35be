-- ===== src/Vfs/Files.antt =====
-- kernel/fs/vfs.c: the operations on handles. An outer `none` is a call through NULL; a status of -1 is
-- `false`. The lock is left out.
use han_os.Base.{
  ℕ, ◌+◌, ◌-◌, ◌^◌, Bool, true, false, not, ◌&&◌, Option, none, some, List, [], ltb, leb, ◌==◌,
  if◌then◌else◌, get_or, length, set, u32, u64,
}
use han_os.Vfs.{
  OpenMode, vfs_mode_read, Dirent, Desc, Store, Fs, is_traversable, inode_of, put_inode,
  vfs_handle_to_fd,
}

abbrev pub read_only : OpenMode → Bool
read_only vfs_mode_read = true
read_only _ = false

-- `fs->sync(inode)`
abbrev pub sync_inode : (ℕ → Fs) → ℕ → Store → Option Store
sync_inode drivers i s = elim (s.inodes i).fs [ none ↦ none | some f ↦ some ((drivers f).sync i s) ]

unfoldable pub vfs_chmod : (ℕ → Fs) → ℕ → ℕ → Store → Option (Bool × Store)
vfs_chmod drivers h newperms s = elim (vfs_handle_to_fd s h) [
  | none ↦ some (false, s)
  | some fd ↦
      if read_only fd.mode
      then some (false, s)
      else elim (sync_inode drivers fd.inode
          (put_inode fd.inode (record (s.inodes fd.inode) { perms = newperms }) s)) [
            | none ↦ none
            | some s' ↦ some (true, s')
          ]
]

-- The length that a read is cut to: `none` where the position is the end of the file. The sums and
-- the difference are of 64 bits.
unfoldable pub read_len : ℕ → ℕ → ℕ → Option ℕ
read_len seek_pos size len =
    if ltb size (u64 (seek_pos + len))
    then (let l : ℕ = u64 (size + 2 ^ 64 - seek_pos) in if l == 0 then none else some l)
    else some len

-- What a read returns when the file system has put bytes into the buffer, or has failed.
abbrev pub read_result : ℕ → Option (List ℕ) → Store → Option (ℕ × List ℕ × Store)
read_result len none s = some (0, [], s)
read_result len (some bytes) s = some (len, bytes, s)

unfoldable pub read_at : (ℕ → Fs) → Desc → Option ℕ → Option ℕ → Store → Option (ℕ × List ℕ × Store)
read_at drivers fd none fs s = some (0, [], s)
read_at drivers fd (some len) none s = none
read_at drivers fd (some len) (some f) s =
    let (status, s') = (drivers f).read fd.inode fd.seek_pos len s in read_result len status s'

-- What a read returns, with the bytes.
unfoldable pub vfs_read : (ℕ → Fs) → ℕ → ℕ → Store → Option (ℕ × List ℕ × Store)
vfs_read drivers h len s = elim (vfs_handle_to_fd s h) [
  | none ↦ some (0, [], s)
  | some fd ↦
      read_at drivers fd (read_len fd.seek_pos (s.inodes fd.inode).size len) (s.inodes fd.inode).fs
        s
]

-- The file is made larger when `len` bytes at the position do not fit.
unfoldable pub expand : (ℕ → Fs) → ℕ → ℕ → Store → Option Store
expand drivers i end s =
    if ltb (s.inodes i).size end
    then sync_inode drivers i (put_inode i (record (s.inodes i) { size = end }) s)
    else some s

unfoldable pub write_at : (ℕ → Fs) → Desc → ℕ → List ℕ → Option ℕ → Store → Option (ℕ × Store)
write_at drivers fd len buff none s = none
write_at drivers fd len buff (some f) s =
    let (done, s') = (drivers f).write fd.inode fd.seek_pos len buff s in
    some ((if done then len else 0), s')

unfoldable pub vfs_write : (ℕ → Fs) → ℕ → ℕ → List ℕ → Store → Option (ℕ × Store)
vfs_write drivers h len buff s = elim (vfs_handle_to_fd s h) [
  | none ↦ some (0, s)
  | some fd ↦
      if read_only fd.mode
      then some (0, s)
      else elim (expand drivers fd.inode (u64 (fd.seek_pos + len)) s) [
        | none ↦ none
        | some s1 ↦ write_at drivers fd len buff (s1.inodes fd.inode).fs s1
      ]
]

abbrev pub put_fd : ℕ → Option Desc → Store → Store
put_fd h fd s = record s { openfiles = set s.openfiles h fd }

unfoldable pub vfs_seek : ℕ → ℕ → Store → Bool × Store
vfs_seek h pos s = elim (vfs_handle_to_fd s h) [
  | none ↦ (false, s)
  | some fd ↦
      if leb (s.inodes fd.inode).size pos && read_only fd.mode
      then (false, s)
      else (true, put_fd h (some (record fd { seek_pos = pos })) s)
]

unfoldable pub vfs_close : ℕ → Store → Bool × Store
vfs_close h s = elim (vfs_handle_to_fd s h) [
  | none ↦ (false, s)
  | some fd ↦
      let i : ℕ = fd.inode in
      let s1 =
        put_inode i (record (s.inodes i) { refcount = u32 ((s.inodes i).refcount + 2 ^ 32 - 1) })
          s in
      (true, put_fd h none s1)
]

-- What `vfs_getdent` returns: -1, 0 at the end, and 1 with the entry.
pub data GetDent : Type 0 where
  failed finished : GetDent
  entry : Dirent → GetDent

-- The entry of a child, and the position after it.
unfoldable pub vfs_getdent : ℕ → Store → GetDent × Store
vfs_getdent h s = elim (vfs_handle_to_fd s h) [
  | none ↦ (failed, s)
  | some fd ↦
      let dir = s.inodes fd.inode in
      if not (is_traversable dir)
      then (failed, s)
      else (if leb (length dir.child) fd.seek_pos
          then (finished, s)
          else (let n : ℕ = get_or dir.child fd.seek_pos 0 in
              (
                entry (record {
                  type = (inode_of s n).type;
                  tm = (inode_of s n).tm;
                  name = (s.tnodes n).name;
                }),
                put_fd h (some (record fd { seek_pos = fd.seek_pos + 1 })) s,
              )))
]
