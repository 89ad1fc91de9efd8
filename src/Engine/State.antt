-- ===== src/Engine/State.antt =====
-- engine.go, `Engine`, and pending_incremental.go, `pendingDirty`: the state. Maps are association
-- lists in the order in which a loop visits them; every statement about them holds for any order.
use cross_sync.Hash.{Bytes}
use cross_sync.Base.{
  ℕ, list_eq, nat_eq, Bool, List, Option, [], false, if◌then◌else◌, true, ◌==◌, ◌∷◌, none,
}
use cross_sync.Table.{Table, add, contains}
use cross_sync.Index.Store.{exec}
use cross_sync.Index.Files.{Result, FileInfo, FileName, Index, database, err, ok}

-- The configured direction; the empty string means the first.
pub data Direction : Type 0 where
  send_receive send_only receive_only : Direction

abbrev pub View : Type 0
View = Table FileName FileInfo

-- `pendingCache`: `pulls` and `ups` are the lists handed out, `pull_set` and `up_set` the same as sets.
-- `built_at` is `none` for the zero time.
pub record PendingCache : Type 0 where
  pub pulls : List FileName
  pub ups : List FileName
  pub pull_set : List FileName
  pub up_set : List FileName
  pub indexed : ℕ
  pub built_at : Option ℕ
  pub valid : Bool

pub record PendingDirty : Type 0 where
  pub names : List FileName
  pub all : Bool

-- `pendingRelease`
pub record PendingRelease : Type 0 where
  pub from_name : FileName
  pub to_name : FileName
  pub size : ℕ
  pub blocks : List Bytes
  pub peers : List ℕ

-- `include` is the matcher of the include gate: a name, and whether it is a directory.
pub record Engine : Type 0 where
  pub node_id : ℕ
  pub direction : Direction
  pub include : Option (FileName → Bool → Bool)
  pub ix : Index
  pub peers : Table ℕ View
  pub view_pending : List ℕ
  pub view_at : Table ℕ ℕ
  pub in_flight : List FileName
  pub cache : PendingCache
  pub pend : PendingDirty
  pub incremental : Bool
  pub releases : List PendingRelease

abbrev pub is_in_flight : Engine → FileName → Bool
is_in_flight e name = contains name e.in_flight

-- `markPendingDirty`, `markPendingNames` and `markPendingAll`
unfoldable pub mark_name : FileName → PendingDirty → PendingDirty
mark_name name d = if name == [] then d else record d { names = add name d.names }

unfoldable pub mark_names : List FileName → PendingDirty → PendingDirty
unfolding mark_name
mark_names [] d = d
mark_names (n ∷ ns) d = mark_names ns (mark_name n d)

abbrev pub mark_all : PendingDirty → PendingDirty
mark_all d = record d { all = true }

-- `takePendingDirty`: the queued names and the flag, and the emptied queue.
unfoldable pub take_dirty : PendingDirty → List FileName × Bool × PendingDirty
take_dirty d = (d.names, d.all, record { names = []; all = false })

-- `New`, with the direction and the include gate that the node sets afterwards.
unfoldable pub new_engine : ℕ → Direction → Option (FileName → Bool → Bool) → Index → Engine
new_engine node_id direction gate ix = record {
  node_id = node_id;
  direction = direction;
  include = gate;
  ix = ix;
  peers = [];
  view_pending = [];
  view_at = [];
  in_flight = [];
  cache = record {
    pulls = [];
    ups = [];
    pull_set = [];
    up_set = [];
    indexed = 0;
    built_at = none;
    valid = false;
  };
  pend = record { names = []; all = false };
  incremental = true;
  releases = [];
}

-- `saveReleasesLocked`: one statement of the index, `SetMeta`, writes the list. Its bytes are left out.
unfoldable pub save_releases : Engine → Engine × Result (Unit {0})
save_releases e = (record e { ix = (exec e.ix).1 }, if (exec e.ix).0 then err database else ok tt)
