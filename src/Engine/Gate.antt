-- ===== src/Engine/Gate.antt =====
-- gate_release.go: renames whose target is outside the include gate wait for the peers that owned the
-- old path. The list is that of the state, as it is once it was loaded; moving the local copy is the
-- file system's.
use cross_sync.Base.{
  ℕ, list_eq, nat_eq, List, Option, Bool, [], false, if◌then◌else◌, length, none, not, some, true,
  ◌&&◌, ◌++◌, ◌==◌, ◌∷◌,
}
use cross_sync.Table.{Table, lookup}
use cross_sync.Index.Files.{FileInfo, FileName, Result, tombstone, err, not_indexed, ok}
use cross_sync.Index.Store.{remove}
use cross_sync.Index.Query.{get}
use cross_sync.Version.{bump}
use cross_sync.Text.{sort_strings}
use cross_sync.Hash.{Bytes}
use cross_sync.Engine.State.{View, Engine, PendingRelease, save_releases}
use cross_sync.Engine.Content.{sort_keys}
use cross_sync.Engine.Views.{hooked}
use cross_sync.Engine.Local.{store}

-- `equalBlocks`, with `bytes.Equal` on each pair.
unfoldable pub equal_blocks : List Bytes → List Bytes → Bool
equal_blocks [] [] = true
equal_blocks [] (y ∷ ys) = false
equal_blocks (x ∷ xs) [] = false
equal_blocks (x ∷ xs) (y ∷ ys) = x == y && equal_blocks xs ys

abbrev pub is_live : Option FileInfo → Bool
is_live none = false
is_live (some fi) = not fi.deleted

-- The peers whose view has the path live.
unfoldable pub owners : FileName → Table ℕ View → List ℕ
owners name [] = []
owners name ((id, view) ∷ peers) =
    let rest = owners name peers in if is_live (lookup name view) then id ∷ rest else rest

-- `recordReleaseLocked`
unfoldable pub record_release : Engine → FileName → FileName → ℕ → List Bytes → Engine
unfolding owners
record_release e from_name to_name size blocks = record e {
  releases =
      e.releases
      ++ (record {
        from_name = from_name;
        to_name = to_name;
        size = size;
        blocks = blocks;
        peers = sort_keys (owners from_name e.peers);
      }
          ∷ []);
}

-- `RecordOutOfGateRename`
unfoldable pub record_out_of_gate_rename : Engine → FileName → FileName → Engine × Result (Unit {0})
unfolding record_release save_releases
record_out_of_gate_rename e from_name to_name = elim (get e.ix to_name) [
  | err x ↦ (e, err x)
  | ok none ↦ (e, err not_indexed)
  | ok (some fi) ↦
      let saved = save_releases (record_release e from_name to_name fi.size fi.blocks) in
      if fi.deleted then (e, err not_indexed) else saved
]

unfoldable pub pending_releases : Engine → ℕ
pending_releases e = length e.releases

-- What one peer's view says of a release.
unfoldable pub peer_confirms : PendingRelease → Option View → Bool
unfolding equal_blocks
peer_confirms rel none = false
peer_confirms rel (some view) = elim (lookup rel.to_name view) [
  | none ↦ not (is_live (lookup rel.from_name view))
  | some to ↦
      if not to.deleted
      then to.size == rel.size && equal_blocks to.blocks rel.blocks
      else not (is_live (lookup rel.from_name view))
]

-- `releaseConfirmedLocked`
unfoldable pub release_confirmed : Table ℕ View → PendingRelease → List ℕ → Bool
unfolding peer_confirms
release_confirmed peers rel [] = true
release_confirmed peers rel (p ∷ ps) =
    let rest = release_confirmed peers rel ps in
    if peer_confirms rel (lookup p peers) then rest else false

-- `Delete` of one row, with the hook.
unfoldable pub forget : Engine → FileName → Engine × Result (Unit {0})
forget e name = (hooked e (remove e.ix name).0, (remove e.ix name).1)

-- Both rows of a release leave the index.
abbrev pub then_forget : FileName → Engine × Result (Unit {0}) → Engine × Result (Unit {0})
then_forget name (e, err x) = (e, err x)
then_forget name (e, ok u) = forget e name

unfoldable pub forget_both : Engine → PendingRelease → Engine × Result (Unit {0})
unfolding forget
forget_both e rel = then_forget rel.from_name (forget e rel.to_name)

-- The loop: the releases that stay, those that went, and the error that ended it.
unfoldable pub confirm_loop :
    Engine → List PendingRelease → Engine × List PendingRelease × List FileName × Result (Unit {0})
unfolding release_confirmed forget_both
confirm_loop e [] = (e, [], [], ok tt)
confirm_loop e (rel ∷ rels) =
    if not (release_confirmed e.peers rel rel.peers)
    then (let (f, stays, gone, r) = confirm_loop e rels in (f, rel ∷ stays, gone, r))
    else (let (f, done) = forget_both e rel in
        elim done [
          | err x ↦ (f, [], [], err x)
          | ok u ↦
              let (g, stays, gone, r) = confirm_loop f rels in (g, stays, rel.to_name ∷ gone, r)
        ])

-- The list is saved when some release is gone.
abbrev pub kept_list : Engine → List PendingRelease → Engine × Result (Unit {0})
kept_list e stays =
    let saved = save_releases (record e { releases = stays }) in
    if length stays == length e.releases then (e, ok tt) else saved

abbrev pub then_names :
    List FileName → Engine × Result (Unit {0}) → Engine × List FileName × Result (Unit {0})
then_names gone (e, err x) = (e, gone, err x)
then_names gone (e, ok u) = (e, sort_strings gone, ok tt)

-- `ConfirmReleases`
unfoldable pub confirm_releases : Engine → Engine × List FileName × Result (Unit {0})
unfolding confirm_loop save_releases
confirm_releases e =
    let (f, stays, gone, r) = confirm_loop e e.releases in
    elim r [ err x ↦ (f, gone, err x) | ok u ↦ then_names gone (kept_list f stays) ]

-- `releaseMoveLocked`: the tombstone of the old path. A success is reported as `ErrMoveReleased`.
unfoldable pub release_move : Engine → FileName → FileInfo → Engine × Result FileInfo
unfolding store
release_move e from_name old = store e (tombstone from_name old.type (bump old.version e.node_id))
