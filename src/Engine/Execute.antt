-- ===== src/Engine/Execute.antt =====
-- engine.go: `Execute`, which preserves the local file before a remote change replaces it. What it does on the
-- disk is the interface `DiskOps`; events and log lines are left out.
pub mod Copied
use cross_sync.Index.Query.{get}
use cross_sync.Version.{Vector}
use cross_sync.Index.Files.{Result, FileName, FileInfo, err, file, ok, staging_failed}
use cross_sync.Hash.{Bytes}
use cross_sync.Engine.Local.{store, deleted, next_version}
use cross_sync.Engine.State.{Engine}
use cross_sync.Base.{
  nat_eq, list_eq, Bool, List, Option, [], false, if◌then◌else◌, none, not, some, ℕ,
}
use cross_sync.Engine.Overwrite.{OverwritePlan}

-- The block size and the hashes of a file, the versioning archive, the rename of a file, and a stat.
pub record DiskOps (S : Type 0) : Type 0 where
  pub hash_file : S → FileName → Option (ℕ × List Bytes)
  pub archive : S → FileName → S
  pub move : S → FileName → FileName → S × Bool
  pub stat : S → FileName → Option FileInfo

-- The engine and the disk of its folder.
pub record Folder (S : Type 0) : Type 0 where
  pub engine : Engine
  pub disk : S

abbrev pub current_of : Result (Option FileInfo) → Option FileInfo
current_of (err x) = none
current_of (ok found) = found

abbrev pub hashes_or_none : Option (ℕ × List Bytes) → ℕ × List Bytes
hashes_or_none none = (0, [])
hashes_or_none (some hashes) = hashes

abbrev pub conflict_entry : FileName → FileInfo → Vector → ℕ × List Bytes → FileInfo
conflict_entry name st version (block_size, blocks) = record {
  name = name;
  size = st.size;
  modified_s = st.modified_s;
  modified_ns = st.modified_ns;
  mode = st.mode;
  type = file;
  deleted = false;
  invalid = false;
  version = version;
  sequence = 0;
  block_size = block_size;
  blocks = blocks;
}

abbrev pub as_copy : Result FileInfo → Result (Option FileInfo)
as_copy (err x) = err x
as_copy (ok fi) = ok (some fi)

module _ {S : Type 0} (d : DiskOps S) where
  -- The end of `Execute`: the copy stands on the disk, and its entry is written.
  unfoldable pub index_copy :
      OverwritePlan → ℕ × List Bytes → Engine → S → Folder S × Result (Option FileInfo)
  unfolding store get
  index_copy plan hashes e disk = elim (d.stat disk plan.conflict_name) [
    | none ↦ (record { engine = e; disk = disk }, err staging_failed)
    | some st ↦
        let version = next_version e.node_id (current_of (get e.ix plan.conflict_name)) in
        let (e', result) = store e (conflict_entry plan.conflict_name st version hashes) in
        (record { engine = e'; disk = disk }, as_copy result)
  ]

  abbrev pub archived : OverwritePlan → S → S
  archived plan disk = if plan.archive_local then d.archive disk plan.name else disk

  -- `Execute`
  unfoldable pub execute : OverwritePlan → Folder S → Folder S × Result (Option FileInfo)
  unfolding index_copy
  execute plan f =
      let disk = archived plan f.disk in
      let (moved, works) = d.move disk plan.name plan.conflict_name in
      let hashes = hashes_or_none (d.hash_file f.disk plan.name) in
      if not plan.make_conflict_copy
      then (record f { disk = disk }, ok none)
      else if not works
      then (record f { disk = moved }, err staging_failed)
      else index_copy plan hashes f.engine moved
