-- ===== src/Vfs/Opened.antt =====
-- The reference counts of the inodes against the list of open files, over one operation.
use han_os.Base.{
  ℕ, zero, suc, ◌+◌, ◌≡◌, inl, inr, refl, sym, ◌∙◌, ap, true, false, not, ◌&&◌, ◌||◌, leb, ◌==◌,
  if◌then◌else◌, arith, Bool-cases, Option-cases, Option, some, none, List, [], ◌∷◌, ◌++◌, length,
  set, u32,
}
use han_os.Vfs.{is_traversable, Desc, Store, OpenMode, desc_at}
use han_os.Vfs.Files.{vfs_close, vfs_seek, vfs_getdent, put_fd, read_only}
use han_os.Vfs.Opens.{open_fd}
use han_os.Vfs.Handles.{closed, vfs_close-fd}

-- How many open handles refer to an inode.
unfoldable pub opens : ℕ → List (Option Desc) → ℕ
opens i [] = 0
opens i (none ∷ fds) = opens i fds
opens i (some fd ∷ fds) = (if fd.inode == i then 1 else 0) + opens i fds

-- Every reference count is the number of open handles.
abbrev pub Counted : Store → Type 0
Counted s = (i : ℕ) → (s.inodes i).refcount ≡ u32 (opens i s.openfiles)

pub opens-append :
    (i : ℕ) (fds : List (Option Desc)) (fd : Desc)
    → opens i (fds ++ (some fd ∷ [])) ≡ opens i fds + (if fd.inode == i then 1 else 0)
unfolding opens
opens-append i [] fd = omega arith
opens-append i (none ∷ fds) fd = opens-append i fds fd
opens-append i (some x ∷ fds) fd = omega (arith, opens-append i fds fd)

pub opens-set :
    (i : ℕ) (fds : List (Option Desc)) (h : ℕ) (fd : Desc)
    → desc_at fds h ≡ some fd
    → opens i fds ≡ opens i (set fds h none) + (if fd.inode == i then 1 else 0)
unfolding opens desc_at
opens-set i [] h fd e = absurd (ground arith)
opens-set i (none ∷ fds) zero fd e = absurd (ground arith)
opens-set i (some x ∷ fds) zero fd e = ground arith
opens-set i (none ∷ fds) (suc h) fd e = opens-set i fds h fd e
opens-set i (some x ∷ fds) (suc h) fd e = omega (arith, opens-set i fds h fd e)

pub open_fd-Counted :
    (path : List ℕ) (mode : OpenMode) (n : ℕ) (s : Store)
    → Counted s
    → Counted (open_fd path mode n s).1
unfolding open_fd
open_fd-Counted path mode n s c i = ground (
  arith,
  opens-append i s.openfiles
      (record { path = path; tnode = n; inode = (s.tnodes n).inode; mode = mode; seek_pos = 0 }),
  c i,
  c (s.tnodes n).inode,
)

closed-Counted :
    (h : ℕ) (fd : Desc) (s : Store)
    → desc_at s.openfiles h ≡ some fd
    → Counted s
    → Counted (closed h fd s)
unfolding closed
closed-Counted h fd s e c i = ground (arith, opens-set i s.openfiles h fd e, c i, c fd.inode)

-- A descriptor that is replaced by one of the same inode.
pub opens-set_same :
    (i : ℕ) (fds : List (Option Desc)) (h : ℕ) (fd fd' : Desc)
    → desc_at fds h ≡ some fd
    → fd'.inode ≡ fd.inode
    → opens i (set fds h (some fd')) ≡ opens i fds
unfolding opens desc_at
opens-set_same i [] h fd fd' e same = refl
opens-set_same i (none ∷ fds) zero fd fd' e same = absurd (ground arith)
opens-set_same i (some x ∷ fds) zero fd fd' e same = ground arith
opens-set_same i (none ∷ fds) (suc h) fd fd' e same = opens-set_same i fds h fd fd' e same
opens-set_same i (some x ∷ fds) (suc h) fd fd' e same =
    omega (arith, opens-set_same i fds h fd fd' e same)

pub vfs_close-invalid :
    (h : ℕ) (s : Store) → desc_at s.openfiles h ≡ none → vfs_close h s ≡ (false, s)
unfolding vfs_close
vfs_close-invalid h s e = rw (e, vfs_close)

pub vfs_close-Counted : (h : ℕ) (s : Store) → Counted s → Counted (vfs_close h s).1
vfs_close-Counted h s c = elim (Option-cases (desc_at s.openfiles h)) [
  | inl invalid ↦ rw (vfs_close-invalid h s invalid) c
  | inr (fd, valid) ↦ rw (vfs_close-fd h fd s valid) (closed-Counted h fd s valid c)
]

pub vfs_seek-invalid :
    (h pos : ℕ) (s : Store) → desc_at s.openfiles h ≡ none → vfs_seek h pos s ≡ (false, s)
unfolding vfs_seek
vfs_seek-invalid h pos s e = rw (e, vfs_seek)

pub vfs_seek-fd :
    (h pos : ℕ) (fd : Desc) (s : Store)
    → desc_at s.openfiles h ≡ some fd
    → vfs_seek h pos s ≡ (
        if leb (s.inodes fd.inode).size pos && read_only fd.mode
        then (false, s)
        else (true, put_fd h (some (record fd { seek_pos = pos })) s))
unfolding vfs_seek
vfs_seek-fd h pos fd s e = rw (e, vfs_seek)

-- The descriptor of a handle is replaced by one of the same inode.
put_fd-Counted :
    (h pos : ℕ) (fd : Desc) (s : Store)
    → desc_at s.openfiles h ≡ some fd
    → Counted s
    → Counted (put_fd h (some (record fd { seek_pos = pos })) s)
put_fd-Counted h pos fd s valid c i =
    c i ∙ ap u32 (sym (opens-set_same i s.openfiles h fd (record fd { seek_pos = pos }) valid refl))

pub vfs_seek-Counted : (h pos : ℕ) (s : Store) → Counted s → Counted (vfs_seek h pos s).1
vfs_seek-Counted h pos s c = elim (Option-cases (desc_at s.openfiles h)) [
  | inl invalid ↦ rw (vfs_seek-invalid h pos s invalid) c
  | inr (fd, valid) ↦
      rw (vfs_seek-fd h pos fd s valid)
        (elim (Bool-cases (leb (s.inodes fd.inode).size pos && read_only fd.mode)) [
          | inl refused ↦ rw refused c
          | inr moved ↦ rw moved (put_fd-Counted h pos fd s valid c)
        ])
]

pub vfs_getdent-invalid :
    (h : ℕ) (s : Store) → desc_at s.openfiles h ≡ none → (vfs_getdent h s).1 ≡ s
unfolding vfs_getdent
vfs_getdent-invalid h s e = rw (e, vfs_getdent)

pub vfs_getdent-fd :
    (h : ℕ) (fd : Desc) (s : Store)
    → desc_at s.openfiles h ≡ some fd
    → (vfs_getdent h s).1 ≡ (
        if not (is_traversable (s.inodes fd.inode))
          || leb (length (s.inodes fd.inode).child) fd.seek_pos
        then s
        else put_fd h (some (record fd { seek_pos = fd.seek_pos + 1 })) s)
unfolding vfs_getdent
vfs_getdent-fd h fd s e = elim (Bool-cases (is_traversable (s.inodes fd.inode))) [
  | inr no_dir ↦ rw (e, vfs_getdent, no_dir)
  | inl dir ↦ elim (Bool-cases (leb (length (s.inodes fd.inode).child) fd.seek_pos)) [
    | inl end ↦ rw (e, vfs_getdent, dir, end)
    | inr more ↦ rw (e, vfs_getdent, dir, more)
  ]
]

pub vfs_getdent-Counted : (h : ℕ) (s : Store) → Counted s → Counted (vfs_getdent h s).1
vfs_getdent-Counted h s c = elim (Option-cases (desc_at s.openfiles h)) [
  | inl invalid ↦ rw (vfs_getdent-invalid h s invalid) c
  | inr (fd, valid) ↦
      rw (vfs_getdent-fd h fd s valid)
        (elim (Bool-cases (
          not (is_traversable (s.inodes fd.inode))
          || leb (length (s.inodes fd.inode).child) fd.seek_pos)) [
            | inl nothing ↦ rw nothing c
            | inr one ↦ rw one (put_fd-Counted h (fd.seek_pos + 1) fd s valid c)
          ])
]
