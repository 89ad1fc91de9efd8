-- ===== src/Engine/Views.antt =====
-- engine.go and peerview_exchange.go: the views of the peers' indexes, and the names whose pending
-- state each change puts in doubt. Cloning an entry changes nothing here: entries are values.
use cross_sync.Index.Store.{names_of}
use cross_sync.Index.Files.{Index, FileName, FileInfo}
use cross_sync.Base.{
  ℕ, list_eq, nat_eq, Bool, List, [], false, if◌then◌else◌, length, none, some, true, ◌++◌, ◌==◌,
  ◌∷◌, ◌||◌,
}
use cross_sync.Engine.State.{
  View, Engine, PendingDirty, PendingRelease, mark_all, mark_names, save_releases,
}
use cross_sync.Table.{Table, add, contains, delete, has_key, insert, lookup}

abbrev pub view_of : ℕ → Table ℕ View → View
view_of peer peers = elim (lookup peer peers) [ none ↦ [] | some v ↦ v ]

-- `view[f.Name] = f.Clone()` for each entry.
unfoldable pub store_all : List FileInfo → View → View
store_all [] view = view
store_all (f ∷ fs) view = store_all fs (insert f.name f view)

-- The sweep of a full view: what stays, and the names that go.
unfoldable pub sweep : List FileName → View → View × List FileName
sweep seen [] = ([], [])
sweep seen ((n, f) ∷ view) =
    let (stays, gone) = sweep seen view in
    if contains n seen then ((n, f) ∷ stays, gone) else (stays, n ∷ gone)

abbrev pub swept : List FileInfo → Bool → View → View × List FileName
swept files update view = if update then (view, []) else sweep (names_of files) view

-- A view that did not exist puts every name in doubt.
abbrev pub mark_new : ℕ → Table ℕ View → PendingDirty → PendingDirty
mark_new peer peers d = if has_key peer peers then d else mark_all d

unfoldable pub set_peer_index : Engine → ℕ → List FileInfo → Bool → Engine
unfolding mark_names has_key
set_peer_index e peer files update =
    let (stays, gone) = swept files update (view_of peer e.peers) in
    record e {
      peers = insert peer (store_all files stays) e.peers;
      pend = mark_names (gone ++ names_of files) (mark_new peer e.peers e.pend);
    }

unfoldable pub set_peer_index_append : Engine → ℕ → List FileInfo → Engine
unfolding mark_names has_key
set_peer_index_append e peer files = record e {
  peers = insert peer (store_all files (view_of peer e.peers)) e.peers;
  pend = mark_names (names_of files) (mark_new peer e.peers e.pend);
}

-- `PeerCount`
unfoldable pub peer_count : Engine → ℕ → ℕ
peer_count e peer = length (view_of peer e.peers)

unfoldable pub begin_exchange : Engine → ℕ → Engine
begin_exchange e peer = record e { view_pending = add peer e.view_pending; pend = mark_all e.pend }

unfoldable pub without : ℕ → List ℕ → List ℕ
without k [] = []
without k (j ∷ js) = let rest = without k js in if j == k then rest else j ∷ rest

unfoldable pub end_exchange : Engine → ℕ → ℕ → Engine
unfolding without
end_exchange e peer now = record e {
  view_pending = without peer e.view_pending;
  view_at = insert peer now e.view_at;
  pend = mark_all e.pend;
}

unfoldable pub peer_views_pending : Engine → Bool
peer_views_pending e = elim e.view_pending [ [] ↦ false | p ∷ ps ↦ true ]

-- `dropPeerFromReleasesLocked`; the list is saved when it has changed, and an error of that is logged.
unfoldable pub drop_peer : ℕ → List PendingRelease → List PendingRelease
unfolding without
drop_peer peer [] = []
drop_peer peer (r ∷ rs) = record r { peers = without peer r.peers } ∷ drop_peer peer rs

unfoldable pub waits_for : ℕ → List PendingRelease → Bool
waits_for peer [] = false
waits_for peer (r ∷ rs) = contains peer r.peers || waits_for peer rs

unfoldable pub drop_from_releases : Engine → ℕ → Engine
unfolding drop_peer waits_for save_releases
drop_from_releases e peer =
    let dropped = record e { releases = drop_peer peer e.releases } in
    if waits_for peer e.releases then (save_releases dropped).0 else dropped

-- `CleanupPeerIndex`
unfoldable pub cleanup_peer_index : Engine → ℕ → Engine
unfolding drop_from_releases
cleanup_peer_index e peer =
    drop_from_releases (record e { peers = delete peer e.peers; pend = mark_all e.pend }) peer

-- `SetInFlight`, of the names of the list: those that entered or left the gate are marked.
unfoldable pub set_of : List FileName → List FileName
set_of [] = []
set_of (n ∷ ns) = add n (set_of ns)

unfoldable pub difference : List FileName → List FileName → List FileName
difference [] others = []
difference (n ∷ ns) others =
    let rest = difference ns others in if contains n others then rest else n ∷ rest

unfoldable pub set_in_flight : Engine → List FileName → Engine
unfolding set_of difference mark_names
set_in_flight e list =
    let m = set_of list in
    record e {
      in_flight = m;
      pend = mark_names (difference m e.in_flight) (mark_names (difference e.in_flight m) e.pend);
    }

-- The write hook: the engine marks each name that a write of the index touched.
unfoldable pub hooked : Engine → Index → Engine
unfolding mark_names
hooked e ix = record e { ix = record ix { touched = [] }; pend = mark_names ix.touched e.pend }
