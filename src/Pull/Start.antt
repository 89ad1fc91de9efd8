-- ===== src/Pull/Start.antt =====
-- engine.go and block_reuse.go: a pull from its start, over the stager's temp and what stands on the disk, and
-- its end. The stat and the bytes of local files are parameters.
use cross_sync.Text.{sort_strings}
use cross_sync.Engine.Global.{global_from}
use cross_sync.Engine.Moves.{content_key}
use cross_sync.Index.Store.{put}
use cross_sync.Hash.{Bytes, block_size_for_size, effective_block_size}
use cross_sync.Base.{
  ℕ, nat_eq, list_eq, Bool, List, Option, [], false, if◌then◌else◌, length, none, not, some, true,
  ◌&&◌, ◌*◌, ◌++◌, ◌+◌, ◌==◌, ◌||◌, ◌∷◌,
}
use cross_sync.Temp.{Content, DiskWrites, read_at, truncate}
use cross_sync.Table.{Table, insert, lookup}
use cross_sync.Index.Files.{
  FileInfo, FileName, Result, block_missing, err, file, is_deletion, kind_beq, not_indexed, ok,
  staging_failed,
}
use cross_sync.Index.Query.{get, list_all}
use cross_sync.Engine.State.{Engine, is_in_flight}
use cross_sync.Pull.{
  Pull, BlockNeed, block_size_at, fill_from_local_copy, is_complete, need_blocks, write_local_block,
  has_no_blocks,
}

-- The temp that an aborted pull left, whether it opens again, and whether a new one can be made.
pub record Staging : Type 0 where
  pub path_works : Bool
  pub staged : Option Content
  pub reopens : Bool
  pub creates : Bool
  pub truncates : Bool

-- A local file: the size and whether it is a directory, and its bytes if it opens.
pub record LocalFile : Type 0 where
  pub size : ℕ
  pub is_dir : Bool
  pub content : Option Content

abbrev pub LocalFiles : Type 0
LocalFiles = FileName → Option LocalFile

abbrev pub is_donor_entry : FileInfo → Bool
is_donor_entry fi =
    not fi.deleted && kind_beq fi.type file && not (fi.size == 0) && not (length fi.blocks == 0)

abbrev pub names_at : Bytes → Table Bytes (List FileName) → List FileName
names_at k names = elim (lookup k names) [ none ↦ [] | some ns ↦ ns ]

-- `reuseCandidates`: the map from content to names that a round builds on first use.
unfoldable pub reuse_map : List FileInfo → Table Bytes (List FileName) → Table Bytes (List FileName)
unfolding content_key
reuse_map [] names = names
reuse_map (fi ∷ fis) names = reuse_map fis (
    if is_donor_entry fi
    then insert (content_key fi) (names_at (content_key fi) names ++ (fi.name ∷ [])) names
    else names)

unfoldable pub reuse_candidates : Engine → Bytes → List FileName
unfolding reuse_map
reuse_candidates e key = elim (list_all e.ix) [
  | err x ↦ []
  | ok rows ↦ sort_strings (names_at key (reuse_map rows []))
]

-- `bs <= 0`, where the block size follows from the file's size.
abbrev pub block_size_or_rule : FileInfo → ℕ
block_size_or_rule fi = if fi.block_size == 0 then block_size_for_size fi.size else fi.block_size

abbrev pub stat_fits : Option LocalFile → ℕ → Bool
stat_fits none size = false
stat_fits (some f) size = not f.is_dir && f.size == size

abbrev pub entry_fits : FileInfo → FileInfo → Bool
entry_fits want fi =
    not fi.deleted
    && kind_beq fi.type file
    && fi.size == want.size
    && length fi.blocks == length want.blocks
    && block_size_or_rule fi == block_size_or_rule want

abbrev pub can_give : LocalFiles → Engine → FileInfo → FileName → Bool
can_give files e want name =
    if name == want.name || is_in_flight e name then false else elim (get e.ix name) [
      | err x ↦ false
      | ok none ↦ false
      | ok (some fi) ↦ entry_fits want fi && stat_fits (files name) want.size
    ]

-- The loop of `localCopyDonor`.
unfoldable pub first_donor : LocalFiles → Engine → FileInfo → List FileName → Option FileName
first_donor files e want [] = none
first_donor files e want (n ∷ ns) =
    let rest = first_donor files e want ns in if can_give files e want n then some n else rest

-- `localCopyDonor`
unfoldable pub local_copy_donor : LocalFiles → Engine → FileInfo → Option FileName
unfolding first_donor
local_copy_donor files e want =
    if has_no_blocks want
    then none
    else first_donor files e want (reuse_candidates e (content_key want))

abbrev pub content_of : LocalFiles → FileName → Option Content
content_of files name = elim (files name) [ none ↦ none | some f ↦ f.content ]

abbrev pub opened : LocalFiles → Option FileName → Option (FileName × Option Content)
opened files none = none
opened files (some name) = some (name, content_of files name)

abbrev pub none_written : List Bytes → List Bool
none_written [] = []
none_written (h ∷ hs) = false ∷ none_written hs

-- A block of `BlockNeed` found in a local file: `donorLoc`.
pub record DonorLoc : Type 0 where
  pub name : FileName
  pub index : ℕ
  pub size : ℕ

abbrev pub other_owner : FileName → List DonorLoc → Option DonorLoc
other_owner self [] = none
other_owner self (loc ∷ locs) = if loc.name == self then other_owner self locs else some loc

module _ (sum : Bytes → Bytes) where
  -- The loop of `StartPull` that checks a staged temp, from block `i` on.
  unfoldable pub verify_staged : FileInfo → Content → ℕ → List Bytes → List Bool
  verify_staged fi temp i [] = []
  verify_staged fi temp i (h ∷ hs) =
      let rest = verify_staged fi temp (i + 1) hs in
      elim (read_at temp (i * effective_block_size fi.block_size) (block_size_at fi i)) [
        | none ↦ false ∷ none_written hs
        | some bytes ↦ if sum bytes == h then true ∷ rest else false ∷ none_written hs
      ]

  abbrev pub new_pull : FileName → FileInfo → ℕ → Content → List Bool → Pull
  new_pull name info peer temp written = record {
    name = name;
    info = info;
    temp = temp;
    written = written;
    peer = peer;
    donor = none;
    reused = 0;
  }

  -- A temp of another size is not trusted; a new one is the old bytes, cut or filled up.
  unfoldable pub open_temp : Staging → FileName → FileInfo → ℕ → Result Pull
  unfolding verify_staged
  open_temp st name global peer =
      let fresh : Content → Result Pull = λ old.
        if st.creates && st.truncates
        then ok (new_pull name global peer (truncate global.size old) (none_written global.blocks))
        else err staging_failed in
      elim st.staged [
        | none ↦ fresh (record { size = 0; byte = λ i. 0 })
        | some old ↦
            if old.size == global.size && st.reopens
            then ok (new_pull name global peer old (verify_staged global old 0 global.blocks))
            else fresh old
      ]

  module _ (disk : DiskWrites) (files : LocalFiles) where
    -- `preparePull`
    unfoldable pub prepare : Engine → Result Pull → Result Pull
    prepare e (err x) = err x
    prepare e (ok p) =
        ok (fill_from_local_copy sum disk (opened files (local_copy_donor files e p.info)) p)

    -- `StartPull`
    unfoldable pub start_pull : Staging → Engine → FileName → ℕ → Result Pull
    unfolding open_temp prepare
    start_pull st e name peer = elim (get e.ix name) [
      | err x ↦ err x
      | ok found ↦ elim (global_from e.peers found name) [
        | none ↦ err not_indexed
        | some (global, is_local) ↦
            if global.deleted
            then err is_deletion
            else if not st.path_works
            then err staging_failed
            else prepare e (open_temp st name global peer)
      ]
    ]

    -- One round of `FillBlocksFromLocal`: the donor that is open, with its bytes, and the pull after it.
    unfoldable pub reuse_block :
        (Bytes → List DonorLoc)
        → BlockNeed
        → FileName × Option Content
        → Pull
        → (FileName × Option Content) × Pull
    reuse_block owners need (current, source) p = elim (other_owner p.name (owners need.hash)) [
      | none ↦ ((current, source), p)
      | some loc ↦
          let now : Option Content =
            if loc.name == current then source else content_of files loc.name in
          elim now [
            | none ↦ ((current, none), p)
            | some content ↦
                elim (read_at content (loc.index * effective_block_size p.info.block_size)
                  loc.size) [
                    | none ↦ ((loc.name, some content), p)
                    | some bytes ↦ (
                      (loc.name, some content),
                      (write_local_block sum disk p need.index bytes).0,
                    )
                  ]
          ]
    ]

    unfoldable pub reuse_loop :
        (Bytes → List DonorLoc) → List BlockNeed → FileName × Option Content → Pull → Pull
    unfolding reuse_block
    reuse_loop owners [] open_donor p = p
    reuse_loop owners (need ∷ needs) open_donor p =
        let (next, p') = reuse_block owners need open_donor p in reuse_loop owners needs next p'

    -- `FillBlocksFromLocal`, over the map that `dirDonors` has of the file's directory.
    unfoldable pub fill_blocks_from_local : (Bytes → List DonorLoc) → Pull → Pull
    unfolding reuse_loop
    fill_blocks_from_local owners p = reuse_loop owners (need_blocks p) ([], none) p

-- `adoptObservedStat`, of a stat that may fail.
unfoldable pub adopt_observed_stat : Option FileInfo → FileInfo → FileInfo
adopt_observed_stat none fi = fi
adopt_observed_stat (some st) fi = record fi {
  size = st.size;
  modified_s = st.modified_s;
  modified_ns = st.modified_ns;
  mode = st.mode;
}

-- `Finish`: `commits` says whether syncing, closing and renaming the temp works; `observed` is the stat
-- of the file then.
unfoldable pub finish_pull : Bool → Option FileInfo → Engine → Pull → Engine × Result FileInfo
unfolding is_complete adopt_observed_stat
finish_pull commits observed e p =
    if not (is_complete p.written)
    then (e, err block_missing)
    else if not commits
    then (e, err staging_failed)
    else (let (ix, result) = put e.ix (adopt_observed_stat observed p.info) in
        (record e { ix = ix }, result))
