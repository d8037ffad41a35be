-- ===== src/Fat/Dirs/Listing.antt =====
-- What `fat32_refresh` of fat32.c lists, and what `fat32_getdent` then gives.
use han_os.Base.{
  ℕ, zero, suc, ◌+◌, ◌*◌, ◌/◌, ◌≤◌, ◌<◌, ◌≡◌, ◌≢◌, refl, sym, ◌∙◌, ap, arith, inl, inr, true, false,
  ltb, leb, ◌==◌, if◌then◌else◌, Bool-cases, List, [], ◌∷◌, ◌++◌, Option, none, some, append-nil,
  append_assoc, bit_and,
}
use han_os.Ata.{blit, ata_pio_read28}
use han_os.Time.{Tm}
use han_os.Vfs.{Dirent}
use han_os.Fat.{Ident, Volume, done, fat32_get_datetime, fat32_get_next_cluster}
use han_os.Fat.Chains.{leads, leads-bound, next_last}
use han_os.Fat.Content.{IsVolume, cluster_size, read_cluster}
use han_os.Fat.Disk.{cluster_lba}
use han_os.Fat.Names.{fat32_get_short_filename}
use han_os.Fat.Dirs.{
  Item, Scan, again, leave, dir_entry, add_item, scan_round, scan_loop, clusters_loop,
  fat32_refresh, dirent_of, getdent_loop, fat32_getdent,
}

-- The items of a directory, in the order of the list.
abbrev pub items_of : ℕ → List Item → List Item
items_of this [] = []
items_of this (item ∷ items) =
    let rest = items_of this items in if item.parent == this then item ∷ rest else rest

abbrev pub dirent_at : List Item → ℕ → Option Dirent
dirent_at [] pos = none
dirent_at (item ∷ items) zero = some (dirent_of item)
dirent_at (item ∷ items) (suc pos) = dirent_at items pos

getdent_loop_lem :
    (items : List Item) (this num k : ℕ)
    → getdent_loop items this num (num + k) ≡ dirent_at (items_of this items) k
unfolding getdent_loop
getdent_loop_lem [] this num k = refl
getdent_loop_lem (item ∷ items) this num zero = elim (Bool-cases (item.parent == this)) [
  | inl own ↦ (let here : (num == num + 0) ≡ true = ground arith in rw (own, here) refl)
  | inr other ↦ rw other (getdent_loop_lem items this num zero)
]
getdent_loop_lem (item ∷ items) this num (suc k) = elim (Bool-cases (item.parent == this)) [
  | inl own ↦
      let later : (num == num + suc k) ≡ false = ground arith in
      let next : num + suc k ≡ num + 1 + k = omega arith in
      rw (own, later, next) (getdent_loop_lem items this (num + 1) k)
  | inr other ↦ rw other (getdent_loop_lem items this num (suc k))
]

-- An entry under its short name.
abbrev pub short_item : ℕ → Tm → (ℕ → ℕ) → ℕ → Item
short_item this junk buf i = record {
  entry = dir_entry buf (i * 32);
  tm = fat32_get_datetime (dir_entry buf (i * 32)) junk;
  name = fat32_get_short_filename (λ k. buf (i * 32 + k));
  parent = this;
}

-- The entries `i`, ..., `i + n - 1` of a buffer whose attribute is not 0, removed ones among them, each as
-- an item of the list.
unfoldable pub listed : ℕ → ℕ → Tm → (ℕ → ℕ) → ℕ → List Item
listed zero this junk buf i = []
listed (suc n) this junk buf i =
    let rest = listed n this junk buf (i + 1) in
    if buf (i * 32 + 11) == 0 then rest else short_item this junk buf i ∷ rest

module _ (id : Ident) (v : Volume) (this : ℕ) (junk : Tm) (cluster : ℕ) where
  round-end : (s : Scan) → s.len / 32 ≤ s.index → scan_round id v this junk cluster s ≡ leave s
  unfolding scan_round
  round-end s h = (let over : leb (s.len / 32) s.index ≡ true = ground arith in rw over refl)

  round-free :
      (s : Scan)
      → s.index < s.len / 32
      → (s.buf (s.index * 32 + 11) == 0) ≡ true
      → scan_round id v this junk cluster s ≡ again (record s { index = s.index + 1 })
  unfolding scan_round
  round-free s h free =
      let more : leb (s.len / 32) s.index ≡ false = ground arith in rw (more, free) refl

  round-short :
      (s : Scan)
      → s.index < s.len / 32
      → (s.buf (s.index * 32 + 11) == 0) ≡ false
      → bit_and (s.buf (s.index * 32 + 11)) 0x0f ≡ 0
      → scan_round id v this junk cluster s
        ≡ again (record s {
          index = s.index + 1;
          filelist = s.filelist ++ (short_item this junk s.buf s.index ∷ []);
        })
  unfolding scan_round add_item
  round-short s h used short =
      let more : leb (s.len / 32) s.index ≡ false = ground arith in rw (more, used, short) refl

  loop-again :
      (fuel : ℕ) (s s' : Scan)
      → scan_round id v this junk cluster s ≡ again s'
      → scan_loop (suc fuel) id v this junk cluster s ≡ scan_loop fuel id v this junk cluster s'
  unfolding scan_loop
  loop-again fuel s s' e = rw (scan_loop, e) refl

  loop-leave :
      (fuel : ℕ) (s s' : Scan)
      → scan_round id v this junk cluster s ≡ leave s'
      → scan_loop (suc fuel) id v this junk cluster s ≡ done s'
  unfolding scan_loop
  loop-leave fuel s s' e = rw (scan_loop, e) refl

  -- The state after the entries that are left.
  abbrev scanned : ℕ → Scan → Scan
  scanned n s = record s {
    index = s.len / 32;
    filelist = s.filelist ++ listed n this junk s.buf s.index;
  }

  scan_loop_lem :
      (fuel n : ℕ) (s : Scan)
      → n < fuel
      → s.index + n ≡ s.len / 32
      → ((i : ℕ) → i < s.len / 32 → bit_and (s.buf (i * 32 + 11)) 0x0f ≡ 0)
      → scan_loop fuel id v this junk cluster s ≡ done (scanned n s)
  unfolding listed
  scan_loop_lem zero n s h e short = absurd (omega arith)
  scan_loop_lem (suc fuel) zero s h e short =
      let end : s.len / 32 ≡ s.index = omega arith in
      loop-leave fuel s s (round-end s (omega arith)) ∙ rw (end, append-nil s.filelist) refl
  scan_loop_lem (suc fuel) (suc n) s h e short =
      elim (Bool-cases (s.buf (s.index * 32 + 11) == 0)) [
        | inl free ↦
            loop-again fuel s (record s { index = s.index + 1 }) (round-free s (omega arith) free)
            ∙ (scan_loop_lem fuel n (record s { index = s.index + 1 }) (omega arith) (omega arith)
                  short
                ∙ rw free refl)
        | inr used ↦
            loop-again fuel s
              (record s {
                index = s.index + 1;
                filelist = s.filelist ++ (short_item this junk s.buf s.index ∷ []);
              })
              (round-short s (omega arith) used (short s.index (omega arith)))
            ∙ (scan_loop_lem fuel n
                  (record s {
                    index = s.index + 1;
                    filelist = s.filelist ++ (short_item this junk s.buf s.index ∷ []);
                  })
                  (omega arith) (omega arith) short
                ∙ rw (used, append_assoc s.filelist (short_item this junk s.buf s.index ∷ [])) refl)
      ]

items_of-append :
    (this : ℕ) (xs ys : List Item) → items_of this (xs ++ ys) ≡ items_of this xs ++ items_of this ys
items_of-append this [] ys = refl
items_of-append this (x ∷ xs) ys = elim (Bool-cases (x.parent == this)) [
  | inl own ↦ rw own (ap (λ r. x ∷ r) (items_of-append this xs ys))
  | inr other ↦ rw other (items_of-append this xs ys)
]

items_of-listed :
    (n this : ℕ) (junk : Tm) (buf : ℕ → ℕ) (i : ℕ)
    → items_of this (listed n this junk buf i) ≡ listed n this junk buf i
unfolding listed
items_of-listed zero this junk buf i = refl
items_of-listed (suc n) this junk buf i = elim (Bool-cases (buf (i * 32 + 11) == 0)) [
  | inl free ↦ rw free (items_of-listed n this junk buf (i + 1))
  | inr used ↦
      let own : (this == this) ≡ true = ground arith in
      rw (used, own)
        (ap (λ r. short_item this junk buf i ∷ r) (items_of-listed n this junk buf (i + 1)))
]

items_of-other :
    (n this other : ℕ) (junk : Tm) (buf : ℕ → ℕ) (i : ℕ)
    → this ≢ other
    → items_of other (listed n this junk buf i) ≡ []
unfolding listed
items_of-other zero this other junk buf i ne = refl
items_of-other (suc n) this other junk buf i ne =
    let away : (this == other) ≡ false = ground arith in
    elim (Bool-cases (buf (i * 32 + 11) == 0)) [
      | inl free ↦ rw free (items_of-other n this other junk buf (i + 1) ne)
      | inr used ↦ rw (used, away) (items_of-other n this other junk buf (i + 1) ne)
    ]

blit-inside :
    (src : ℕ → ℕ) (from n : ℕ) (dst : ℕ → ℕ) (q : ℕ)
    → q < n
    → blit src from n 0 dst q ≡ src (from + q)
blit-inside src from n dst q h = ground arith

-- The buffer with the cluster of a directory.
abbrev pub dir_buffer : Ident → Volume → (ℕ → ℕ) → ℕ → ℕ
dir_buffer id v junk =
    ata_pio_read28 v.disk (cluster_lba id.bs id.entry.cluster_begin) id.bs.sectors_per_cluster 0
      junk

clusters_loop-last :
    (fuel : ℕ) (id : Ident) (v : Volume) (this : ℕ) (tm : Tm) (cluster : ℕ) (s s' : Scan)
    → fat32_get_next_cluster cluster v.fat id.fat_len ≡ 0
    → scan_loop (suc fuel) id v this tm 0 (record s {
      buf = ata_pio_read28 v.disk (cluster_lba id.bs cluster) id.bs.sectors_per_cluster 0 s.buf;
      index = 0;
    })
      ≡ done s'
    → clusters_loop (suc fuel) id v this tm cluster s ≡ done s'.filelist
unfolding clusters_loop
clusters_loop-last fuel id v this tm cluster s s' next scan =
    rw (clusters_loop, next, scan, next) refl

fat32_refresh-from :
    (fuel : ℕ) (id : Ident) (v : Volume) (this len : ℕ) (junk : ℕ → ℕ) (tm : Tm)
    (filelist : List Item)
    → ltb id.entry.cluster_begin 2 ≡ false
    → id.bs.sectors_per_cluster * id.bs.bytes_per_sector ≡ len
    → fat32_refresh fuel id v this junk tm filelist
      ≡ clusters_loop fuel id v this tm id.entry.cluster_begin
          (record { buf = junk; len = len; index = 0; filelist = filelist })
unfolding fat32_refresh
fat32_refresh-from fuel id v this len junk tm filelist kept size = rw (kept, size) refl

refresh-listed :
    (fuel : ℕ) (id : Ident) (v : Volume) (this : ℕ) (junk : ℕ → ℕ) (tm : Tm) (filelist : List Item)
    → IsVolume id.bs id.fat_len
    → leads id.fat_len id.entry.cluster_begin ≡ true
    → v.fat id.entry.cluster_begin ≡ 0x0fff_ffff
    → 16 * id.bs.sectors_per_cluster ≤ fuel
    → ((i : ℕ)
        → i < 16 * id.bs.sectors_per_cluster
        → bit_and (v.disk (cluster_lba id.bs id.entry.cluster_begin * 512 + (i * 32 + 11))) 0x0f
          ≡ 0)
    → fat32_refresh (suc fuel) id v this junk tm filelist
      ≡ done (filelist ++ listed (16 * id.bs.sectors_per_cluster) this tm (dir_buffer id v junk) 0)
refresh-listed fuel id v this junk tm filelist ok h end enough short =
    let c = id.entry.cluster_begin in
    let n : ℕ = 16 * id.bs.sectors_per_cluster in
    let (from, below, small) = leads-bound id.fat_len c h in
    let kept : ltb c 2 ≡ false = ground arith in
    let alone = next_last v.fat id.fat_len c end in
    let size : id.bs.sectors_per_cluster * id.bs.bytes_per_sector ≡ n * 32 =
      rw ok.sector_bytes (omega arith) in
    let s0 : Scan = record {
      buf = dir_buffer id v junk;
      len = n * 32;
      index = 0;
      filelist = filelist;
    } in
    let whole : n * 32 / 32 ≡ n = omega arith in
    let scan = scan_loop_lem id v this tm 0 (suc fuel) n s0 (omega arith) (omega arith) (λ i hi.
      (let inside : i < n = omega arith in
        let byte =
          read_cluster id.bs id.fat_len c 0 v.disk junk (i * 32 + 11) ok h
          ∙ blit-inside v.disk (cluster_lba id.bs c * 512) (cluster_size id.bs) junk (i * 32 + 11)
              (omega arith) in
        ap (λ b. bit_and b 0x0f) byte ∙ short i inside)) in
    fat32_refresh-from (suc fuel) id v this (n * 32) junk tm filelist kept size
    ∙ (clusters_loop-last fuel id v this tm c
        (record { buf = junk; len = n * 32; index = 0; filelist = filelist })
        (scanned id v this tm 0 n s0) alone scan)

-- A directory of one cluster is listed as it is on the disk when none of its entries has an attribute bit of
-- a long name (read-only, hidden, system or label), which the code takes for a part of a long name. For a
-- directory that is not in the list yet, refreshing ends, and after it `fat32_getdent` gives at each position
-- the entry that stands there in the order of the disk among those whose attribute is not 0, removed
-- ones included, with its short name and the kind of the node, and fails after the last one. What it gives
-- for other directories does not change.
pub getdent-refresh :
    (fuel : ℕ) (id : Ident) (v : Volume) (this other pos : ℕ) (junk : ℕ → ℕ) (tm : Tm)
    (filelist : List Item)
    → IsVolume id.bs id.fat_len
    → leads id.fat_len id.entry.cluster_begin ≡ true
    → v.fat id.entry.cluster_begin ≡ 0x0fff_ffff
    → 16 * id.bs.sectors_per_cluster ≤ fuel
    → ((i : ℕ)
        → i < 16 * id.bs.sectors_per_cluster
        → bit_and (v.disk (cluster_lba id.bs id.entry.cluster_begin * 512 + (i * 32 + 11))) 0x0f
          ≡ 0)
    → items_of this filelist ≡ []
    → this ≢ other
    → (filelist' : List Item) × (fat32_refresh (suc fuel) id v this junk tm filelist
        ≡ done filelist')
      × (fat32_getdent filelist' this pos
          ≡ dirent_at
              (listed (16 * id.bs.sectors_per_cluster) this tm (dir_buffer id v junk) 0)
              pos)
      × (fat32_getdent filelist' other pos ≡ fat32_getdent filelist other pos)
unfolding fat32_getdent
getdent-refresh fuel id v this other pos junk tm filelist ok h end enough short new ne =
    let n : ℕ = 16 * id.bs.sectors_per_cluster in
    let items = listed n this tm (dir_buffer id v junk) 0 in
    let z : pos ≡ 0 + pos = omega arith in
    let get : (xs : List Item) (d : ℕ) → getdent_loop xs d 0 pos ≡ dirent_at (items_of d xs) pos =
      λ xs d. ap (getdent_loop xs d 0) z ∙ getdent_loop_lem xs d 0 pos in
    (
      filelist ++ items,
      refresh-listed fuel id v this junk tm filelist ok h end enough short,
      get (filelist ++ items) this
          ∙ rw
              (
                items_of-append this filelist items,
                new,
                items_of-listed n this tm (dir_buffer id v junk) 0,
              )
              refl,
      get (filelist ++ items) other
          ∙ (rw
              (
                items_of-append other filelist items,
                items_of-other n this other tm (dir_buffer id v junk) 0 ne,
                append-nil (items_of other filelist),
              )
              (sym (get filelist other))),
    )
