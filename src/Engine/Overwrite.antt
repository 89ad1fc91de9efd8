-- ===== src/Engine/Overwrite.antt =====
-- engine.go: moves, deletions and overwrites that a peer asks for. Relocating a file on disk is the
-- stager's, a parameter that says whether it worked, and so are the stat of the result and the name of a
-- conflict copy.
use cross_sync.Base.{
  ℕ, list_eq, nat_eq, List, Bool, [], false, if◌then◌else◌, none, not, some, true, ◌&&◌, ◌==◌, ◌∷◌,
}
use cross_sync.Table.{lookup}
use cross_sync.Text.{sort_strings}
use cross_sync.Index.Files.{
  FileInfo, FileName, Result, tombstone, content_differs, err, not_indexed, ok, relocate_failed,
  same_path, source_gone, target_indexed,
}
use cross_sync.Version.{Vector, bump, compare, same_version, concurrent}
use cross_sync.Index.Query.{list_all, list, get}
use cross_sync.Engine.State.{View, Engine, is_in_flight}
use cross_sync.Engine.Content.{same_content}
use cross_sync.Engine.Global.{global_from}
use cross_sync.Engine.Pending.{is_send_only}
use cross_sync.Engine.Local.{store, then_store}
use cross_sync.Engine.Gate.{release_move}
use cross_sync.Engine.Views.{view_of}
use cross_sync.Engine.Moves.{Move}

-- What the disk does for a move: whether the relocation worked, and the stat fields of an entry as they
-- are observed after it.
pub record Disk : Type 0 where
  pub relocates : FileName → FileName → Bool
  pub observed : FileInfo → FileInfo

-- The outcome of a move: done, or the local copy was released.
pub data Moved : Type 0 where
  relocated : Moved
  released : Moved

abbrev pub report {ℓ} : {A : Type ℓ} → Moved → Engine × Result A → Engine × Result Moved
report m (e, err x) = (e, err x)
report m (e, ok a) = (e, ok m)

abbrev pub outside_gate : Engine → FileName → Bool
outside_gate e name = elim e.include [
  | none ↦ false
  | some match_name ↦ not (match_name name false)
]

-- `applyMove`, from the lookup of the target on.
unfoldable pub move_live : Disk → Engine → Move → FileInfo → Engine × Result Moved
unfolding store release_move
move_live disk e m local = elim (get e.ix m.to_name) [
  | err x ↦ (e, err x)
  | ok (some there) ↦ (e, err target_indexed)
  | ok none ↦
      if outside_gate e m.to_name
      then report released (release_move e m.from_name local)
      else if not (disk.relocates m.from_name m.to_name)
      then (e, err relocate_failed)
      else report relocated (
          then_store (disk.observed m.global)
            (store e (tombstone m.from_name local.type (bump local.version e.node_id))))
]

-- `applyMove`
unfoldable pub apply_move : Disk → Engine → Move → Engine × Result Moved
unfolding move_live
apply_move disk e m =
    if m.from_name == m.to_name then (e, err same_path) else elim (get e.ix m.from_name) [
      | err x ↦ (e, err x)
      | ok none ↦ (e, err source_gone)
      | ok (some local) ↦
          if local.deleted
          then (e, err source_gone)
          else if not (same_content local m.global)
          then (e, err content_differs)
          else move_live disk e m local
    ]

-- The names of the walk that are live here, not in flight, and deleted globally.
abbrev pub doomed_at : Engine → FileName → FileInfo → Bool
doomed_at e n fi = if is_in_flight e n then false else elim (global_from e.peers (some fi) n) [
  | none ↦ false
  | some (global, is_local) ↦ global.deleted
]

abbrev pub is_doomed : Engine → FileInfo → Bool
is_doomed e fi = doomed_at e fi.name fi

unfoldable pub doomed : Engine → List FileInfo → List FileName
doomed e [] = []
doomed e (fi ∷ fis) = let rest = doomed e fis in if is_doomed e fi then fi.name ∷ rest else rest

-- `PendingDeletions`
unfoldable pub pending_deletions : Engine → Result (List FileName)
unfolding doomed
pending_deletions e =
    if is_send_only e.direction
    then ok []
    else elim (list e.ix) [ err x ↦ err x | ok fis ↦ ok (sort_strings (doomed e fis)) ]

-- The entries that differ from a peer's view.
unfoldable pub differing : View → List FileInfo → List FileInfo
differing view [] = []
differing view (fi ∷ fis) =
    let rest = differing view fis in
    elim (lookup fi.name view) [
      | none ↦ fi ∷ rest
      | some pf ↦ if same_version pf.version fi.version then rest else fi ∷ rest
    ]

-- `DiffForPeer`
unfoldable pub diff_for_peer : Engine → ℕ → Result (List FileInfo)
unfolding differing
diff_for_peer e peer = elim (list_all e.ix) [
  | err x ↦ err x
  | ok fis ↦ ok (differing (view_of peer e.peers) fis)
]

-- `ConflictPolicy`
pub data ConflictPolicy : Type 0 where
  conflict_copy conflict_versioning : ConflictPolicy

-- `OverwritePlan`
pub record OverwritePlan : Type 0 where
  pub name : FileName
  pub global : FileInfo
  pub delete : Bool
  pub archive_local : Bool
  pub make_conflict_copy : Bool
  pub conflict_name : FileName

abbrev pub bare_plan : FileName → FileInfo → OverwritePlan
bare_plan name global = record {
  name = name;
  global = global;
  delete = global.deleted;
  archive_local = false;
  make_conflict_copy = false;
  conflict_name = [];
}

abbrev pub is_concurrent : Vector → Vector → Bool
is_concurrent a b = elim (compare a b) [ concurrent ↦ true | _ ↦ false ]

-- The plan for a local entry that is live.
unfoldable pub plan_live :
    (FileInfo → FileName) → ConflictPolicy → Bool → FileName → FileInfo → FileInfo → OverwritePlan
plan_live conflict_name policy versioning name local global =
    let conflict = is_concurrent global.version local.version && not (same_content local global) in
    let plan = record (bare_plan name global) { archive_local = versioning } in
    let copied = record plan { make_conflict_copy = true; conflict_name = conflict_name local } in
    elim policy [
      | conflict_versioning ↦ plan
      | conflict_copy ↦ if conflict && not versioning then copied else plan
    ]

-- `PlanOverwrite`, where `versioning` says that a versioning type other than `none` is configured.
unfoldable pub plan_overwrite :
    (FileInfo → FileName) → ConflictPolicy → Bool → Engine → FileName → Result OverwritePlan
unfolding plan_live
plan_overwrite conflict_name policy versioning e name = elim (get e.ix name) [
  | err x ↦ err x
  | ok found ↦ elim (global_from e.peers found name) [
    | none ↦ err not_indexed
    | some (global, is_local) ↦ elim found [
      | none ↦ ok (bare_plan name global)
      | some local ↦
          if local.deleted
          then ok (bare_plan name global)
          else ok (plan_live conflict_name policy versioning name local global)
    ]
  ]
]
