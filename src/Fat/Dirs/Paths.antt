-- ===== src/Fat/Dirs/Paths.antt =====
-- The search of fat32.c for a file of the root directory.
use han_os.Base.{
  ℕ, zero, suc, ◌+◌, ◌*◌, ◌<◌, ◌≡◌, refl, sym, ◌∙◌, ap, arith, Bool, true, false, not, ◌&&◌, leb,
  ◌==◌, if◌then◌else◌, List, ◌∷◌, Option, none, some, bit_and, length,
}
use han_os.Fat.{FatEntry, Ident, Volume, DiskResult, done}
use han_os.Fat.Disk.{first_sector, entry_at, fat32_read_entry}
use han_os.Fat.Names.{after_char, fat32_get_short_filename, fat32_compare_entry_and_path}
use han_os.Fat.Names.Short.{IsShort, compare-get_short_filename, get_short_filename_lem, shown}
use han_os.Fat.Dirs.{
  Search, next_entry, found_entry, no_entry, try_entry, visit_entry, search_round, search_loop,
  fat32_parse_path,
}

-- The entry at a place of the root directory.
abbrev pub root_at : Ident → Volume → ℕ → FatEntry
root_at id v i =
    entry_at (first_sector id.bs id.bs.root_dir_first_cluster v.disk) id.bs.root_dir_first_cluster i

-- An entry that the search looks at as it is.
abbrev pub is_plain_entry : FatEntry → Bool
is_plain_entry e =
    not (bit_and e.attribute 0x0f == 0x0f) && (not (e.name 0 == 0xe5) && not (e.name 0 == 0x05))

-- An entry that the search passes by: a part of a long name, a removed one, or one with another name.
pub data Passed (before : ℕ) (path : List ℕ) (e : FatEntry) : Type 0 where
  long_name : bit_and e.attribute 0x0f ≡ 0x0f → Passed before path e
  removed : (bit_and e.attribute 0x0f == 0x0f) ≡ false → e.name 0 ≡ 0xe5 → Passed before path e
  other_name :
      is_plain_entry e ≡ true
      → fat32_compare_entry_and_path e before path ≡ false
      → Passed before path e

visit_entry-plain :
    (before cluster i : ℕ) (path : List ℕ) (e : FatEntry)
    → is_plain_entry e ≡ true
    → visit_entry before cluster i path e ≡ try_entry before cluster i path e
unfolding visit_entry
visit_entry-plain before cluster i path e h =
    let a : (bit_and e.attribute 0x0f == 0x0f) ≡ false = ground arith in
    let b : (e.name 0 == 0xe5) ≡ false = ground arith in
    let c : (e.name 0 == 0x05) ≡ false = ground arith in rw (a, b, c) refl

try_entry-top :
    (before cluster i : ℕ) (path : List ℕ) (e : FatEntry)
    → after_char b'/' path ≡ length path
    → try_entry before cluster i path e ≡ (
        if fat32_compare_entry_and_path e before path
        then found_entry e
        else next_entry cluster (i + 1) path)
unfolding try_entry
try_entry-top before cluster i path e top =
    let at_end : (after_char b'/' path == length path) ≡ true = ground arith in rw at_end refl

visit-passed :
    (before cluster i : ℕ) (path : List ℕ) (e : FatEntry)
    → after_char b'/' path ≡ length path
    → Passed before path e
    → visit_entry before cluster i path e ≡ next_entry cluster (i + 1) path
unfolding visit_entry
visit-passed before cluster i path e top (long_name h) = rw h refl
visit-passed before cluster i path e top (removed a h) = rw (a, h) refl
visit-passed before cluster i path e top (other_name plain other) =
    visit_entry-plain before cluster i path e plain
    ∙ (try_entry-top before cluster i path e top ∙ rw other refl)

module _ (id : Ident) (v : Volume) (before : ℕ) (path : List ℕ)
    (some_sectors : 0 < id.bs.sectors_per_cluster) where
  search-step :
      (fuel i : ℕ) (r : Search)
      → i < 16
      → visit_entry before id.bs.root_dir_first_cluster i path (root_at id v i) ≡ r
      → search_loop (suc fuel) id v before id.bs.root_dir_first_cluster i path
        ≡ (elim r as (λ _. DiskResult (Option FatEntry)) [
          | next_entry cluster' i' path' ↦ search_loop fuel id v before cluster' i' path'
          | found_entry e ↦ done (some e)
          | no_entry ↦ done none
        ])
  unfolding search_loop search_round fat32_read_entry
  search-step fuel i r h visit =
      let inside : leb 16 i ≡ false = ground arith in
      let here : (i == id.bs.sectors_per_cluster * 16) ≡ false = ground arith in
      rw (search_loop, inside, here, visit) refl

  search_loop_lem :
      (fuel n i : ℕ)
      → n < fuel
      → i + n < 16
      → after_char b'/' path ≡ length path
      → ((j : ℕ) → j < i + n → Passed before path (root_at id v j))
      → is_plain_entry (root_at id v (i + n)) ≡ true
      → fat32_compare_entry_and_path (root_at id v (i + n)) before path ≡ true
      → search_loop fuel id v before id.bs.root_dir_first_cluster i path
        ≡ done (some (root_at id v (i + n)))
  search_loop_lem zero n i h bound top passed plain match = absurd (omega arith)
  search_loop_lem (suc fuel) zero i h bound top passed plain match =
      let z : i + 0 ≡ i = omega arith in
      let plain' = rw z at plain in
      let match' = rw z at match in
      search-step fuel i (found_entry (root_at id v i)) (omega arith) (
        visit_entry-plain before id.bs.root_dir_first_cluster i path (root_at id v i) plain'
        ∙ (try_entry-top before id.bs.root_dir_first_cluster i path (root_at id v i) top
            ∙ rw match' refl))
      ∙ ap (λ k. done (some (root_at id v k))) (sym z)
  search_loop_lem (suc fuel) (suc n) i h bound top passed plain match =
      let z : i + suc n ≡ i + 1 + n = omega arith in
      search-step fuel i (next_entry id.bs.root_dir_first_cluster (i + 1) path) (omega arith) (
        visit-passed before id.bs.root_dir_first_cluster i path (root_at id v i) top
          (passed i (omega arith)))
      ∙ (search_loop_lem fuel n (i + 1) (omega arith) (omega arith) top
            (λ j hj. passed j (omega arith)) (rw z at plain) (rw z at match)
          ∙ ap (λ k. done (some (root_at id v k))) (sym z))

shown_some : (b : ℕ → ℕ) (m e : ℕ) → 0 < m → (length (shown b m e) == 0) ≡ false
shown_some b zero e h = absurd (omega arith)
shown_some b (suc m) zero h = ground arith
shown_some b (suc m) (suc e) h = ground arith

-- A file of the root directory is found by its name. Where one of the first 16 entries has a short name that
-- is padded with spaces and the search passes by the entries before it, the path of `/` and the name
-- that is shown for it ends in that entry, after as many rounds as there are entries up to it.
pub parse_path-get_short_filename :
    (fuel : ℕ) (id : Ident) (v : Volume) (before n m e : ℕ)
    → 0 < id.bs.sectors_per_cluster
    → n < fuel
    → n < 16
    → IsShort (root_at id v n).name m e
    → is_plain_entry (root_at id v n) ≡ true
    → after_char b'/' (fat32_get_short_filename (root_at id v n).name)
      ≡ length (fat32_get_short_filename (root_at id v n).name)
    → ((j : ℕ)
        → j < n
        → Passed before (fat32_get_short_filename (root_at id v n).name) (root_at id v j))
    → fat32_parse_path fuel id v before (b'/' ∷ fat32_get_short_filename (root_at id v n).name)
      ≡ done (some (root_at id v n))
unfolding fat32_parse_path
parse_path-get_short_filename fuel id v before n m e spc enough bound name plain top passed =
    let path = fat32_get_short_filename (root_at id v n).name in
    let z : 0 + n ≡ n = omega arith in
    let some_chars : (length path == 0) ≡ false =
      rw (get_short_filename_lem (root_at id v n).name m e name)
        (shown_some (root_at id v n).name m e name.base_some) in
    let match = compare-get_short_filename (root_at id v n) m e before name in
    let found =
      search_loop_lem id v before path spc fuel n 0 enough (omega arith) top
        (λ j hj. passed j (omega arith)) (rw z plain) (rw z match) in
    rw some_chars (found ∙ ap (λ k. done (some (root_at id v k))) z)
