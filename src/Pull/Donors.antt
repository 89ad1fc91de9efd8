-- ===== src/Pull/Donors.antt =====
-- block_reuse.go: the cache of the blocks that the files of a directory have.
pub mod Rows
pub mod Kept
pub mod Cache
use cross_sync.Pull.{block_size_at}
use cross_sync.Text.{slash}
use cross_sync.Scanner.{parent_path}
use cross_sync.Table.{Table, contains, delete, insert, lookup}
use cross_sync.Engine.State.{View, Engine, is_in_flight}
use cross_sync.Index.Files.{FileName, Result, FileInfo, err, ok}
use cross_sync.Hash.{Bytes}
use cross_sync.Pull.Start.{DonorLoc, is_donor_entry}
use cross_sync.Base.{
  nat_eq, list_eq, List, [], Bool, Option, false, if◌then◌else◌, leb, length, ltb, none, not, some,
  true, ℕ, ◌++◌, ◌+◌, ◌==◌, ◌||◌, ◌∷◌,
}
use cross_sync.Index.Query.{list_all, list_prefix}

abbrev pub max_donor_files_per_dir : ℕ
max_donor_files_per_dir = 500

abbrev pub max_donor_blocks_per_dir : ℕ
max_donor_blocks_per_dir = 20_000

abbrev pub max_owners_per_block : ℕ
max_owners_per_block = 2

abbrev pub max_donor_dirs : ℕ
max_donor_dirs = 64

abbrev pub Locs : Type 0
Locs = Table Bytes (List DonorLoc)

-- `donorState`
pub record DonorState : Type 0 where
  pub dirs : Table FileName Locs
  pub order : List FileName

-- The walk of one directory: its map, and how many files and blocks are in it.
pub record DonorWalk : Type 0 where
  pub locs : Locs
  pub files : ℕ
  pub blocks : ℕ

abbrev pub or_no_owners : Option (List DonorLoc) → List DonorLoc
or_no_owners none = []
or_no_owners (some owners) = owners

abbrev pub owners_of : Bytes → Locs → List DonorLoc
owners_of k locs = or_no_owners (lookup k locs)

abbrev pub offers : FileName → List DonorLoc → Bool
offers name [] = false
offers name (loc ∷ locs) = loc.name == name || offers name locs

-- Two candidates are enough, and a file offers a block once.
abbrev pub is_spare : FileInfo → Bytes → DonorWalk → Bool
is_spare fi h w =
    leb max_owners_per_block (length (owners_of h w.locs)) || offers fi.name (owners_of h w.locs)

abbrev pub with_owner : FileInfo → ℕ → Bytes → DonorWalk → DonorWalk
with_owner fi i h w = record w {
  locs =
      insert h
        (owners_of h w.locs
          ++ (record { name = fi.name; index = i; size = block_size_at fi i } ∷ []))
        w.locs;
  blocks = w.blocks + 1;
}

-- The blocks of a file from index `i` on, and whether the walk goes on.
unfoldable pub offer_blocks : FileInfo → ℕ → List Bytes → DonorWalk → DonorWalk × Bool
offer_blocks fi i [] w = (w, true)
offer_blocks fi i (h ∷ hs) w =
    let skipped = offer_blocks fi (i + 1) hs w in
    let w' = with_owner fi i h w in
    let offered = offer_blocks fi (i + 1) hs w' in
    if is_spare fi h w
    then skipped
    else if leb max_donor_blocks_per_dir w'.blocks
    then (w', false)
    else offered

-- `parentDir`
abbrev pub parent_dir : FileName → FileName
parent_dir name = elim (parent_path name) [ none ↦ [] | some dir ↦ dir ]

-- The function that `dirDonors` walks the index with.
unfoldable pub offer_file : Engine → FileName → FileInfo → DonorWalk → DonorWalk × Bool
unfolding offer_blocks parent_path
offer_file e dir fi w =
    if not (is_donor_entry fi) || not (parent_dir fi.name == dir)
    then (w, true)
    else if leb max_donor_files_per_dir w.files || leb max_donor_blocks_per_dir w.blocks
    then (w, false)
    else if is_in_flight e fi.name
    then (w, true)
    else offer_blocks fi 0 fi.blocks (record w { files = w.files + 1 })

unfoldable pub offer_files : Engine → FileName → List FileInfo → DonorWalk → DonorWalk
unfolding offer_file
offer_files e dir [] w = w
offer_files e dir (fi ∷ fis) w =
    let (w', goes_on) = offer_file e dir fi w in
    let rest = offer_files e dir fis w' in if goes_on then rest else w'

abbrev pub found_rows : Result (List FileInfo) → List FileInfo
found_rows (err x) = []
found_rows (ok rows) = rows

-- The rows that the walk meets; a listing that fails counts as an empty one.
abbrev pub rows_of_dir : Engine → FileName → List FileInfo
rows_of_dir e dir =
    if length dir == 0
    then found_rows (list_all e.ix)
    else found_rows (list_prefix e.ix (dir ++ (slash ∷ [])))

unfoldable pub build_locs : Engine → FileName → Locs
unfolding offer_files
build_locs e dir =
    (offer_files e dir (rows_of_dir e dir) (record { locs = []; files = 0; blocks = 0 })).locs

-- A directory of the order moves to its end.
abbrev pub without_first : FileName → List FileName → List FileName
without_first dir [] = []
without_first dir (d ∷ ds) = if d == dir then ds else d ∷ without_first dir ds

abbrev pub to_young_end : FileName → List FileName → List FileName
to_young_end dir order = if contains dir order then without_first dir order ++ (dir ∷ []) else order

-- `for len(st.order) > maxDonorDirs`
unfoldable pub evict : Table FileName Locs → List FileName → DonorState
evict dirs [] = record { dirs = dirs; order = [] }
evict dirs (oldest ∷ order) =
    let rest = evict (delete oldest dirs) order in
    if ltb max_donor_dirs (length (oldest ∷ order))
    then rest
    else record { dirs = dirs; order = oldest ∷ order }

-- What the cache has of the directory, or a new map.
abbrev pub served : Engine → DonorState → FileName → Option Locs → DonorState × Locs
served e st dir (some locs) = (record st { order = to_young_end dir st.order }, locs)
served e st dir none =
    let locs = build_locs e dir in (evict (insert dir locs st.dirs) (st.order ++ (dir ∷ [])), locs)

-- `dirDonors`
unfoldable pub dir_donors : Engine → DonorState → FileName → DonorState × Locs
dir_donors e st dir = served e st dir (lookup dir st.dirs)

-- `resetDonorIndex`
abbrev pub reset_donor_index : DonorState
reset_donor_index = record { dirs = []; order = [] }
