-- ===== src/Engine/Local.antt =====
-- engine.go: local changes that the scanner found become index entries. Log lines and events are left
-- out. A change that fails leaves the state at the point of the failure.
use cross_sync.Base.{
  ℕ, list_eq, nat_eq, List, Option, Bool, [], false, if◌then◌else◌, none, not, some, true, ◌==◌,
  ◌∷◌,
}
use cross_sync.Index.Files.{
  FileInfo, FileName, Result, Kind, tombstone, content_differs, err, ok, same_path, source_gone,
  target_indexed, unhandled_kind,
}
use cross_sync.Index.Query.{get}
use cross_sync.Version.{Vector, bump, new}
use cross_sync.Index.Store.{put, put_batch}
use cross_sync.Engine.State.{Engine, Direction, receive_only}
use cross_sync.Engine.Views.{hooked}
use cross_sync.Engine.Content.{same_content}

-- scanner.go, `ChangeKind` and `Change`.
pub data ChangeKind : Type 0 where
  unchanged added modified deleted skipped renamed touched : ChangeKind

pub record Change : Type 0 where
  pub kind : ChangeKind
  pub info : FileInfo
  pub from_name : FileName
  pub out_of_gate : Bool

abbrev pub is_receive_only : Direction → Bool
is_receive_only receive_only = true
is_receive_only _ = false

-- `Put` on the engine's index, and the hook.
unfoldable pub store : Engine → FileInfo → Engine × Result FileInfo
store e fi = (hooked e (put e.ix fi).0, (put e.ix fi).1)

unfoldable pub store_batch : Engine → List FileInfo → Engine × Result (Unit {0})
store_batch e fis = (hooked e (put_batch e.ix fis).0, (put_batch e.ix fis).1)

-- The stat of a touched file.
abbrev pub with_stat : FileInfo → FileInfo → FileInfo
with_stat current fi = record current {
  size = fi.size;
  modified_s = fi.modified_s;
  modified_ns = fi.modified_ns;
  mode = fi.mode;
}

abbrev pub next_version : ℕ → Option FileInfo → Vector
next_version node_id none = bump new node_id
next_version node_id (some current) = bump current.version node_id

abbrev pub type_of : Option FileInfo → FileInfo → Kind
type_of none fi = fi.type
type_of (some current) fi = current.type

-- The switch of `planChange` on the kind: the entry to write.
unfoldable pub written : ℕ → ChangeKind → FileInfo → Option FileInfo → Option FileInfo
written node_id deleted fi current =
    some (tombstone fi.name (type_of current fi) (next_version node_id current))
written node_id added fi current = some (record fi { version = next_version node_id current })
written node_id modified fi current = some (record fi { version = next_version node_id current })
written node_id _ fi current = none

abbrev pub stored : Engine × Result FileInfo → Engine × Result (Option FileInfo)
stored (e, err x) = (e, err x)
stored (e, ok fi) = (e, ok (some fi))

abbrev pub quietly : Engine × Result FileInfo → Engine × Result (Option FileInfo)
quietly (e, err x) = (e, err x)
quietly (e, ok fi) = (e, ok none)

-- The touched case of `ApplyLocalChange`.
unfoldable pub apply_touched : Engine → FileInfo → Engine × Result (Option FileInfo)
unfolding store
apply_touched e fi = elim (get e.ix fi.name) [
  | err x ↦ (e, err x)
  | ok none ↦ (e, ok none)
  | ok (some current) ↦ quietly (store e (with_stat current fi))
]

-- The other cases of `ApplyLocalChange`, with a switch of their own.
unfoldable pub apply_other : Engine → ChangeKind → FileInfo → Engine × Result (Option FileInfo)
unfolding store
apply_other e kind fi = elim (get e.ix fi.name) [
  | err x ↦ (e, err x)
  | ok current ↦
      let version = next_version e.node_id current in
      elim kind [
        | deleted ↦ stored (store e (tombstone fi.name (type_of current fi) version))
        | added ↦ stored (store e (record fi { version = version }))
        | modified ↦ stored (store e (record fi { version = version }))
        | _ ↦ (e, err unhandled_kind)
      ]
]

-- `ApplyLocalChange`
unfoldable pub apply_local_change :
    Engine → ChangeKind → FileInfo → Engine × Result (Option FileInfo)
unfolding apply_touched apply_other
apply_local_change e kind fi = if is_receive_only e.direction then (e, ok none) else elim kind [
  | skipped ↦ (e, ok none)
  | touched ↦ apply_touched e fi
  | k ↦ apply_other e k fi
]

abbrev pub renamed_to : FileInfo → Vector → FileInfo
renamed_to to version = record to { version = version; sequence = 0 }

-- The second write of a rename, after the tombstone.
abbrev pub then_store : FileInfo → Engine × Result FileInfo → Engine × Result (Option FileInfo)
then_store out (e, err x) = (e, err x)
then_store out (e, ok fi) = stored (store e out)

-- `ApplyLocalRename`, from the lookup of the target on.
unfoldable pub rename_live :
    Engine → FileInfo → FileName → FileInfo → Engine × Result (Option FileInfo)
unfolding store
rename_live e old from_name to = elim (get e.ix to.name) [
  | err x ↦ (e, err x)
  | ok (some there) ↦ (e, err target_indexed)
  | ok none ↦
      let version = bump old.version e.node_id in
      then_store (renamed_to to version) (store e (tombstone from_name old.type version))
]

unfoldable pub apply_local_rename : Engine → FileName → FileInfo → Engine × Result (Option FileInfo)
unfolding rename_live
apply_local_rename e from_name to =
    if is_receive_only e.direction
    then (e, ok none)
    else if from_name == to.name
    then (e, err same_path)
    else elim (get e.ix from_name) [
      | err x ↦ (e, err x)
      | ok none ↦ (e, err source_gone)
      | ok (some old) ↦
          let renamed_entry = rename_live e old from_name to in
          if old.deleted
          then (e, err source_gone)
          else if not (same_content old to)
          then (e, err content_differs)
          else renamed_entry
    ]

-- `planChange`
unfoldable pub plan_change : Engine → ChangeKind → FileInfo → Option FileInfo
unfolding written
plan_change e kind fi = elim (get e.ix fi.name) [
  | err x ↦ none
  | ok current ↦ written e.node_id kind fi current
]

-- `planRename`
unfoldable pub plan_target : Engine → FileInfo → FileName → FileInfo → Option (List FileInfo)
plan_target e old from_name to = elim (get e.ix to.name) [
  | err x ↦ none
  | ok (some there) ↦ none
  | ok none ↦
      let version = bump old.version e.node_id in
      some (tombstone from_name old.type version ∷ renamed_to to version ∷ [])
]

unfoldable pub plan_rename : Engine → FileName → FileInfo → Option (List FileInfo)
unfolding plan_target
plan_rename e from_name to = if from_name == to.name then none else elim (get e.ix from_name) [
  | err x ↦ none
  | ok none ↦ none
  | ok (some old) ↦
      if old.deleted
      then none
      else if not (same_content old to)
      then none
      else plan_target e old from_name to
]
