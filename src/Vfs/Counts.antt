-- ===== src/Vfs/Counts.antt =====
-- The reference counts over sequences of operations.
use han_os.Base.{
  ℕ, ◌+◌, ◌≡◌, inl, inr, refl, Option-cases, Option, some, none, List, [], ◌∷◌, length,
}
use Prim.{Unit, tt}
use han_os.Vfs.{vfs_node_folder, Fs, Store, OpenMode}
use han_os.Vfs.Files.{vfs_close, vfs_seek, vfs_getdent}
use han_os.Vfs.Opens.{find_node, find_or_ask, ask_parent, ask_fs, visit_back, vfs_open}
use han_os.Vfs.Handles.{vfs_open-fd}
use han_os.Vfs.Paths.{path_to_node-no_create}
use han_os.Vfs.Placed.{
  Placed, open_fd-Placed, vfs_close-Placed, vfs_seek-Placed, vfs_getdent-Placed,
}

-- The operations on handles that do not call the file system, and opening a path.
pub data Op : Type 0 where
  open_op : List ℕ → OpenMode → Op
  close_op : ℕ → Op
  seek_op : ℕ → ℕ → Op
  getdent_op : ℕ → Op

abbrev left : Option (Option ℕ × Store) → Option Store
left none = none
left (some (h, s)) = some s

-- What the operations leave, whatever they return; `none` is an access through NULL.
pub step : (ℕ → Fs) → Op → Store → Option Store
step drivers (open_op path mode) s = left (vfs_open drivers path mode s)
step drivers (close_op h) s = some (vfs_close h s).1
step drivers (seek_op h pos) s = some (vfs_seek h pos s).1
step drivers (getdent_op h) s = some (vfs_getdent h s).1

-- What a file system may do when it is asked for a node: it opens and closes nothing, but may make
-- nodes.
abbrev pub KeepsCounts : (ℕ → Fs) → Type 0
KeepsCounts drivers =
    (f i : ℕ) (path : List ℕ) (s : Store) → Placed s → Placed ((drivers f).open_node i path s).1

-- The store of a result keeps the counts, unless there was an access through NULL.
abbrev AllPlaced : Option (Option ℕ × Store) → Type 0
AllPlaced none = Unit {0}
AllPlaced (some (n, s)) = Placed s

ask_fs-Placed :
    (drivers : ℕ → Fs) (path : List ℕ) (pn : ℕ) (fs : Option ℕ) (s : Store)
    → KeepsCounts drivers
    → Placed s
    → Placed (ask_fs drivers path pn fs s).1
unfolding ask_fs
ask_fs-Placed drivers path pn none s keeps c = c
ask_fs-Placed drivers path pn (some f) s keeps c = keeps f (s.tnodes pn).inode path s c

ask_parent-Placed :
    (drivers : ℕ → Fs) (path : List ℕ) (parent : Option (Option ℕ)) (s : Store)
    → KeepsCounts drivers
    → Placed s
    → AllPlaced (ask_parent drivers path parent s)
unfolding ask_parent
ask_parent-Placed drivers path none s keeps c = tt
ask_parent-Placed drivers path (some none) s keeps c = tt
ask_parent-Placed drivers path (some (some pn)) s keeps c =
    ask_fs-Placed drivers path pn _ s keeps c

find_or_ask-Placed :
    (drivers : ℕ → Fs) (path : List ℕ) (req : Option ℕ) (s : Store)
    → KeepsCounts drivers
    → Placed s
    → AllPlaced (find_or_ask drivers path req s)
unfolding find_or_ask
find_or_ask-Placed drivers path (some n) s keeps c = c
find_or_ask-Placed drivers path none s keeps c =
    ask_parent-Placed drivers path (visit_back (length path + 1) drivers path s) s keeps c

find_node-Placed :
    (drivers : ℕ → Fs) (path : List ℕ) (s : Store)
    → KeepsCounts drivers
    → Placed s
    → AllPlaced (find_node drivers path s)
unfolding find_node
find_node-Placed drivers path s keeps c =
    find_or_ask-Placed drivers path _ _ keeps
      (rw (path_to_node-no_create drivers path vfs_node_folder s) c)

vfs_open-none :
    (drivers : ℕ → Fs) (path : List ℕ) (mode : OpenMode) (s s1 : Store)
    → find_node drivers path s ≡ some (none, s1)
    → vfs_open drivers path mode s ≡ some (none, s1)
unfolding vfs_open
vfs_open-none drivers path mode s s1 e = rw (e, vfs_open)

vfs_open-fault :
    (drivers : ℕ → Fs) (path : List ℕ) (mode : OpenMode) (s : Store)
    → find_node drivers path s ≡ none
    → vfs_open drivers path mode s ≡ none
unfolding vfs_open
vfs_open-fault drivers path mode s e = rw (e, vfs_open)

-- The result of an operation keeps the counts.
abbrev pub StepPlaced : Option Store → Type 0
StepPlaced none = Unit {0}
StepPlaced (some s) = Placed s

step-open_op :
    (drivers : ℕ → Fs) (path : List ℕ) (mode : OpenMode) (s : Store) (o : Option (Option ℕ × Store))
    → vfs_open drivers path mode s ≡ o
    → step drivers (open_op path mode) s ≡ left o
unfolding step
step-open_op drivers path mode s o e = rw e refl

open_op-Placed :
    (drivers : ℕ → Fs) (path : List ℕ) (mode : OpenMode) (s : Store)
    → KeepsCounts drivers
    → Placed s
    → StepPlaced (step drivers (open_op path mode) s)
open_op-Placed drivers path mode s keeps c = elim (Option-cases (find_node drivers path s)) [
  | inl fault ↦
      rw (step-open_op drivers path mode s _ (vfs_open-fault drivers path mode s fault)) tt
  | inr ((none, s1), found) ↦
      rw (step-open_op drivers path mode s _ (vfs_open-none drivers path mode s s1 found))
        (rw found at (find_node-Placed drivers path s keeps c))
  | inr ((some n, s1), found) ↦
      rw (step-open_op drivers path mode s _ (vfs_open-fd drivers path mode s s1 n found))
        (open_fd-Placed path mode n s1 (rw found at (find_node-Placed drivers path s keeps c)))
]

step-Placed :
    (drivers : ℕ → Fs) (op : Op) (s : Store)
    → KeepsCounts drivers
    → Placed s
    → StepPlaced (step drivers op s)
unfolding step
step-Placed drivers (open_op path mode) s keeps c = open_op-Placed drivers path mode s keeps c
step-Placed drivers (close_op h) s keeps c = vfs_close-Placed h s c
step-Placed drivers (seek_op h pos) s keeps c = vfs_seek-Placed h pos s c
step-Placed drivers (getdent_op h) s keeps c = vfs_getdent-Placed h s c

-- A sequence of operations, as far as the first access through NULL.
pub run : (ℕ → Fs) → List Op → Store → Option Store
run drivers [] s = some s
run drivers (op ∷ ops) s = elim (step drivers op s) [ none ↦ none | some s' ↦ run drivers ops s' ]

run-next :
    (drivers : ℕ → Fs) (op : Op) (ops : List Op) (s s' : Store)
    → step drivers op s ≡ some s'
    → run drivers (op ∷ ops) s ≡ run drivers ops s'
unfolding run
run-next drivers op ops s s' e = rw (e, run)

run-fault :
    (drivers : ℕ → Fs) (op : Op) (ops : List Op) (s : Store)
    → step drivers op s ≡ none
    → run drivers (op ∷ ops) s ≡ none
unfolding run
run-fault drivers op ops s e = rw (e, run)

-- Over every sequence of calls that open, close, seek and list, in any order and with valid handles or
-- not, the reference count of every inode is the number of handles open on it, and an inode that is
-- made next has none. A file system that is asked for a node may make nodes, but must keep this.
pub run-Counted :
    (drivers : ℕ → Fs) (ops : List Op) (s : Store)
    → KeepsCounts drivers
    → Placed s
    → StepPlaced (run drivers ops s)
unfolding run
run-Counted drivers [] s keeps c = c
run-Counted drivers (op ∷ ops) s keeps c = elim (Option-cases (step drivers op s)) [
  | inl fault ↦ rw (run-fault drivers op ops s fault) tt
  | inr (s', goes) ↦
      rw (run-next drivers op ops s s' goes)
        (run-Counted drivers ops s' keeps (rw goes at (step-Placed drivers op s keeps c)))
]
