-- ===== src/Vfs/Handles.antt =====
-- What opening and closing make of the handles and of the reference counts.
use han_os.Base.{
  ℕ, zero, suc, ◌+◌, ◌-◌, ◌^◌, ◌<◌, ◌≡◌, ◌≢◌, inl, inr, refl, sym, ◌∙◌, true, ◌==◌, if◌then◌else◌,
  arith, Bool-cases, Option, some, none, List, [], ◌∷◌, ◌++◌, length, set, u32,
}
use han_os.Vfs.{Fs, Inode, Desc, Store, OpenMode, put_inode, desc_at, vfs_handle_to_fd}
use han_os.Vfs.Files.{vfs_close}
use han_os.Vfs.Opens.{find_node, open_fd, vfs_open}

desc_at-append :
    (fds : List (Option Desc)) (fd : Option Desc) → desc_at (fds ++ (fd ∷ [])) (length fds) ≡ fd
unfolding desc_at
desc_at-append [] fd = refl
desc_at-append (x ∷ fds) fd = desc_at-append fds fd

desc_at-append_ne :
    (fds : List (Option Desc)) (fd : Option Desc) (h : ℕ)
    → h ≢ length fds
    → desc_at (fds ++ (fd ∷ [])) h ≡ desc_at fds h
unfolding desc_at
desc_at-append_ne [] fd zero ne = absurd (ne refl)
desc_at-append_ne [] fd (suc h) ne = refl
desc_at-append_ne (x ∷ fds) fd zero ne = refl
desc_at-append_ne (x ∷ fds) fd (suc h) ne = desc_at-append_ne fds fd h (omega (arith, ne))

desc_at-set : (fds : List (Option Desc)) (h : ℕ) → desc_at (set fds h none) h ≡ none
unfolding desc_at
desc_at-set [] h = refl
desc_at-set (x ∷ fds) zero = refl
desc_at-set (x ∷ fds) (suc h) = desc_at-set fds h

desc_at-set_ne :
    (fds : List (Option Desc)) (fd : Option Desc) (h h' : ℕ)
    → h' ≢ h
    → desc_at (set fds h fd) h' ≡ desc_at fds h'
unfolding desc_at
desc_at-set_ne [] fd h h' ne = refl
desc_at-set_ne (x ∷ fds) fd zero zero ne = absurd (ne refl)
desc_at-set_ne (x ∷ fds) fd zero (suc h') ne = refl
desc_at-set_ne (x ∷ fds) fd (suc h) zero ne = refl
desc_at-set_ne (x ∷ fds) fd (suc h) (suc h') ne = desc_at-set_ne fds fd h h' (omega (arith, ne))

pub vfs_open-fd :
    (drivers : ℕ → Fs) (path : List ℕ) (mode : OpenMode) (s s1 : Store) (n : ℕ)
    → find_node drivers path s ≡ some (some n, s1)
    → vfs_open drivers path mode s ≡ some (some (length s1.openfiles), (open_fd path mode n s1).1)
unfolding vfs_open open_fd
vfs_open-fd drivers path mode s s1 n e = rw (e, vfs_open)

unfoldable pub closed : ℕ → Desc → Store → Store
closed h fd s =
    record (put_inode fd.inode
      (record (s.inodes fd.inode) { refcount = u32 ((s.inodes fd.inode).refcount + 2 ^ 32 - 1) })
      s) { openfiles = set s.openfiles h none }

pub vfs_close-fd :
    (h : ℕ) (fd : Desc) (s : Store)
    → desc_at s.openfiles h ≡ some fd
    → vfs_close h s ≡ (true, closed h fd s)
unfolding vfs_close closed
vfs_close-fd h fd s e = rw (e, vfs_close)

-- The store after a file is opened and closed again.
pub record Restored (s s' : Store) : Type 0 where
  pub same_inodes : (i : ℕ) → s'.inodes i ≡ s.inodes i
  pub same_tnodes : s'.tnodes ≡ s.tnodes
  pub same_handles : (h : ℕ) → vfs_handle_to_fd s' h ≡ vfs_handle_to_fd s h

count_back :
    (v : Inode)
    → v.refcount < 2 ^ 32
    → record v { refcount = u32 (u32 (v.refcount + 1) + 2 ^ 32 - 1) } ≡ v
count_back v h =
    let e : u32 (u32 (v.refcount + 1) + 2 ^ 32 - 1) ≡ v.refcount = omega arith in rw e refl

restored_inode :
    (i at : ℕ) (s : Store)
    → (s.inodes at).refcount < 2 ^ 32
    → (if i == at
        then record (s.inodes at) { refcount = u32 (u32 ((s.inodes at).refcount + 1) + 2 ^ 32 - 1) }
        else (if i == at
            then record (s.inodes at) { refcount = u32 ((s.inodes at).refcount + 1) }
            else s.inodes i))
      ≡ s.inodes i
restored_inode i at s h = elim (Bool-cases (i == at)) [
  | inl here ↦
      (let e : i ≡ at = ground arith in rw (e) (rw (count_back (s.inodes at) h) (ground arith)))
  | inr away ↦ rw away refl
]

desc_at-length : (fds : List (Option Desc)) → desc_at fds (length fds) ≡ none
unfolding desc_at
desc_at-length [] = refl
desc_at-length (x ∷ fds) = desc_at-length fds

forgotten :
    (fds : List (Option Desc)) (fd : Option Desc) (h : ℕ)
    → desc_at (set (fds ++ (fd ∷ [])) (length fds) none) h ≡ desc_at fds h
forgotten fds fd h = elim (Bool-cases (h == length fds)) [
  | inl here ↦
      let e : h ≡ length fds = ground arith in
      rw e (desc_at-set (fds ++ (fd ∷ [])) (length fds) ∙ sym (desc_at-length fds))
  | inr away ↦
      let ne : h ≢ length fds = ground arith in
      desc_at-set_ne (fds ++ (fd ∷ [])) none (length fds) h ne ∙ desc_at-append_ne fds fd h ne
]

-- A file that is opened and closed again leaves every node, every reference count below 2^32 and every
-- handle as they were when its node was found.
pub vfs_close-vfs_open :
    (drivers : ℕ → Fs) (path : List ℕ) (mode : OpenMode) (s s1 : Store) (n : ℕ)
    → find_node drivers path s ≡ some (some n, s1)
    → (s1.inodes (s1.tnodes n).inode).refcount < 2 ^ 32
    → (h : ℕ) × (s2 : Store) × (s3 : Store) × (vfs_open drivers path mode s ≡ some (some h, s2))
      × (vfs_close h s2 ≡ (true, s3))
      × Restored s1 s3
unfolding open_fd closed
vfs_close-vfs_open drivers path mode s s1 n found small =
    let i : ℕ = (s1.tnodes n).inode in
    let fd : Desc = record { path = path; tnode = n; inode = i; mode = mode; seek_pos = 0 } in
    let s2 = (open_fd path mode n s1).1 in
    (
      length s1.openfiles,
      s2,
      closed (length s1.openfiles) fd s2,
      vfs_open-fd drivers path mode s s1 n found,
      vfs_close-fd (length s1.openfiles) fd s2 (desc_at-append s1.openfiles (some fd)),
      record {
        same_inodes = λ j.
            (let same_key : (i == i) ≡ true = ground arith in
              rw same_key (restored_inode j i s1 small));
        same_tnodes = refl;
        same_handles = forgotten s1.openfiles (some fd);
      },
    )
