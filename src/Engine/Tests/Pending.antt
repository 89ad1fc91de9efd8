-- ===== src/Engine/Tests/Pending.antt =====
-- pending_incremental.go and engine.go: the lists of pending work on a small engine.
use cross_sync.Engine.Execute.Copied.{Preserves, execute-Preserves}
use cross_sync.Engine.Execute.{Folder, DiskOps, execute}
use cross_sync.Engine.Overwrite.{OverwritePlan, bare_plan, pending_deletions}
use cross_sync.Engine.Views.{peer_views_pending, begin_exchange, cleanup_peer_index, set_in_flight}
use cross_sync.Base.{nat_eq, list_eq, List, [], false, none, refl, some, true, ◌∷◌, ◌≡◌, ℕ, ◌+◌, ap}
use cross_sync.Table.{lookup, add, contains}
use cross_sync.Index.Files.{FileInfo, database, err, ok}
use cross_sync.Index.Tests.{
  a_file, name_a, name_b, empty_index, empty_index-IsSound, filled, filled-IsSound,
}
use cross_sync.Engine.State.{Engine, new_engine, send_receive}
use cross_sync.Engine.Events.{
  Event, steps, Served, steps-Served, asks, begins, ends, full_view, gates, stores, touches,
}
use cross_sync.Engine.Refresh.{need_pulls, ensure_pending, rebuild}
use cross_sync.Engine.Ensure.{Ensured, ensure_pending-Ensured}
use cross_sync.Engine.Coherent.{Coherent}
use cross_sync.Engine.Preserve.{set_in_flight-Coherent}
use cross_sync.Engine.Views.{set_in_flight, begin_exchange, cleanup_peer_index, peer_views_pending}
use cross_sync.Engine.Overwrite.{pending_deletions, OverwritePlan, bare_plan}
use cross_sync.Engine.Marks.{mark_stays}
use cross_sync.Engine.Lost.{failure_forgets, answering}

-- A history with a peer that has two files, one of them newer.
abbrev a_history : List Event
a_history =
    full_view 7 (a_file name_a ((1, 2) ∷ []) ∷ a_file name_b ((7, 1) ∷ []) ∷ []) false
    ∷ asks 5
    ∷ stores (a_file name_b ((1, 1) ∷ []))
    ∷ gates (name_b ∷ [])
    ∷ touches (a_file name_b [])
    ∷ begins 7
    ∷ asks 6
    ∷ ends 7 9
    ∷ []

steps-Served_example : Served (steps (new_engine 1 send_receive none filled) a_history) 20
steps-Served_example =
    steps-Served 1 send_receive none filled a_history 20 filled-IsSound refl
      (tt, (tt, (refl, (tt, (tt, (tt, (tt, (tt, tt))))))))

abbrev an_engine : Engine
an_engine = record {
  node_id = 1;
  direction = send_receive;
  include = none;
  ix = filled;
  peers = (7, (name_a, a_file name_a ((1, 2) ∷ [])) ∷ []) ∷ [];
  view_pending = [];
  view_at = [];
  in_flight = [];
  cache = record {
    pulls = [];
    ups = [];
    pull_set = [];
    up_set = [];
    indexed = 1;
    built_at = some 5;
    valid = false;
  };
  pend = record { names = name_a ∷ []; all = false };
  incremental = true;
  releases = [];
}

-- Nothing is indexed: the lists are first_walk, then a name that the peer offers goes into the stability gate
-- and waits in the queue.
abbrev empty_engine : Engine
empty_engine = record an_engine { ix = empty_index [] }

abbrev first_walk : Engine
first_walk = (ensure_pending empty_engine 20).0

empty_not_valid : Coherent empty_engine
empty_not_valid valid quiet = cc

built_by_walk : Ensured empty_engine (ensure_pending empty_engine 20)
built_by_walk = ensure_pending-Ensured empty_engine 20 (empty_index-IsSound []) refl empty_not_valid

abbrev with_queue : Engine
with_queue = set_in_flight first_walk (name_a ∷ [])

queued : (with_queue.cache.valid ≡ true) × (with_queue.pend.names ≡ name_a ∷ [])
unfolding ensure_pending set_in_flight rebuild cross_sync.Engine.Pending.compute_need_pulls
    cross_sync.Index.Query.list_all cross_sync.Engine.Pending.compute_uploads
    cross_sync.Engine.Pending.authoritative contains add
queued = (refl, refl)

-- The queued name was looked up: a walk would have stamped the lists with the new time.
looked_up :
    ((ensure_pending with_queue 21).0.cache.built_at ≡ some 20)
    × ((ensure_pending with_queue 21).0.pend.names ≡ [])
unfolding ensure_pending set_in_flight rebuild cross_sync.Engine.Pending.compute_need_pulls
    cross_sync.Index.Query.list_all cross_sync.Engine.Pending.compute_uploads
    cross_sync.Engine.Pending.authoritative contains add cross_sync.Engine.Refresh.revise
    cross_sync.Index.Query.get
looked_up = (refl, refl)

ensure_pending-Ensured_example : Ensured with_queue (ensure_pending with_queue 21)
unfolding set_in_flight
ensure_pending-Ensured_example =
    ensure_pending-Ensured with_queue 21 (rw built_by_walk.same_ix (empty_index-IsSound []))
      (ap (λ x. x.readable) built_by_walk.same_ix)
      (set_in_flight-Coherent first_walk (name_a ∷ []) built_by_walk.coherent)

-- A trusted cache, a queued name, and an index that does not answer.
abbrev a_broken_engine : Engine
a_broken_engine =
    answering false (record an_engine { cache = record (an_engine.cache) { valid = true } })

failure_forgets_example :
    ((need_pulls a_broken_engine 20).1 ≡ err database)
    × ((need_pulls (answering true (need_pulls a_broken_engine 20).0) 30).1 ≡ ok [])
failure_forgets_example =
    failure_forgets a_broken_engine 20 30 5 name_a [] refl refl refl refl refl refl

-- The peer leaves in the middle of an exchange; another one goes through a whole exchange after that.
abbrev later_events : List Event
later_events = begins 8 ∷ full_view 8 (a_file name_b [] ∷ []) false ∷ ends 8 12 ∷ asks 15 ∷ []

mark_stays_example :
    (lookup 7
        (cleanup_peer_index
          (begin_exchange (steps (new_engine 1 send_receive none filled) a_history) 7)
          7).peers
      ≡ none)
    × (peer_views_pending (
          steps
            (cleanup_peer_index
              (begin_exchange (steps (new_engine 1 send_receive none filled) a_history) 7)
              7)
            later_events)
        ≡ true)
mark_stays_example =
    mark_stays 1 send_receive none filled a_history later_events 7 filled-IsSound refl
      (tt, (tt, (refl, (tt, (tt, (tt, (tt, (tt, tt)))))))) (tt, (tt, (tt, (tt, tt))))
      (tt, (tt, (refl, (tt, tt))))

-- The peer's entry is concurrent with the local one, and one byte longer.
abbrev their_edit : FileInfo
their_edit = record (a_file name_a ((7, 1) ∷ [])) { size = 4; modified_s = 200 }

abbrev a_conflict : Engine
a_conflict = record an_engine { peers = (7, (name_a, their_edit) ∷ []) ∷ [] }

-- The peer has deleted the file, knowing the local version.
abbrev a_doomed : Engine
a_doomed = record an_engine {
  peers = (7, (name_a, record (a_file name_a ((1, 2) ∷ [])) { deleted = true }) ∷ []) ∷ [];
}

one_doomed : pending_deletions a_doomed ≡ ok (name_a ∷ [])
unfolding pending_deletions cross_sync.Index.Query.list cross_sync.Text.sort_strings contains
    cross_sync.Engine.Global.global_from cross_sync.Engine.Global.global_loop lookup
    cross_sync.Engine.Global.pick cross_sync.Version.compare add cross_sync.Version.get
one_doomed = refl

-- A disk on which every rename works: it counts them.
abbrev a_disk : DiskOps ℕ
a_disk = record {
  hash_file = λ n name. some (131_072, (8 ∷ []) ∷ []);
  archive = λ n name. n;
  move = λ n from to. (n + 1, true);
  stat = λ n name. some their_edit;
}

abbrev a_copy_plan : OverwritePlan
a_copy_plan = record (bare_plan name_a their_edit) {
  make_conflict_copy = true;
  conflict_name = name_b;
}

abbrev a_folder : Folder ℕ
a_folder = record { engine = a_conflict; disk = 0 }

execute-Preserves_example :
    Preserves a_disk a_copy_plan a_folder
      (execute a_disk a_copy_plan a_folder).0
      (execute a_disk a_copy_plan a_folder).1
execute-Preserves_example = execute-Preserves a_disk a_copy_plan a_folder
