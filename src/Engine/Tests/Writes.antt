-- ===== src/Engine/Tests/Writes.antt =====
-- engine.go and gate_release.go: local changes, batches and releases on a small engine.
use cross_sync.Hash.{flatten}
use cross_sync.Engine.Pending.{local_map}
use cross_sync.Index.Query.{list_all, select}
use cross_sync.Engine.Views.{hooked}
use cross_sync.Index.Store.{
  put_batch, alloc_sequence, batch_loop, commit, exec, sequenced, touch, transact,
}
use cross_sync.Base.{
  nat_eq, list_eq, List, [], arith, false, none, refl, some, true, ◌∷◌, ◌≡◌, All, ℕ,
}
use cross_sync.Table.{lookup, insert, has_key, contains, Table}
use cross_sync.Version
use cross_sync.Version.{compare, bump, greater}
use cross_sync.Index.Files.{FileInfo, file, ok, tombstone}
use cross_sync.Index.Written.{content, latest}
use cross_sync.Index.Tests.{a_file, name_a, name_b, filled, filled-IsSound}
use cross_sync.Engine.State.{Engine, new_engine, PendingRelease, send_receive, View}
use cross_sync.Engine.Local.{
  plan_change, plan_rename, apply_local_change, apply_local_rename, Change, modified, renamed,
  skipped, store_batch, touched, written,
}
use cross_sync.Engine.Planned.{
  Follows, Agrees, apply_local_change-plan_change, apply_local_rename-plan_rename,
}
use cross_sync.Engine.Supersede.{plan_change_wins}
use cross_sync.Engine.Batch.{write_chunks}
use cross_sync.Engine.Chunks.{content-write_chunks}
use cross_sync.Engine.Gate.{confirm_releases}
use cross_sync.Engine.Confirm.{confirm_releases_lem}
use cross_sync.Engine.Winner.{chosen}
use cross_sync.Engine.Moves.{
  plan_moves, Move, add_source, add_target, content_key, format_decimal, gather_sources,
  gather_targets, live_files, moves_of, pair_of, place_move, sort_moves,
}
use cross_sync.Engine.Relocate.{plan_moves_lem, IsMove}
use cross_sync.Engine.Global.{global_from, held}

abbrev a_device : Engine
a_device = record (new_engine 1 send_receive none filled) {
  peers = (7, (name_a, a_file name_a ((1, 1) ∷ [])) ∷ []) ∷ [];
}

abbrev an_edit : FileInfo
an_edit = record (a_file name_a []) { size = 5 }

apply_local_change-plan_change_example :
    Follows a_device
      (plan_change a_device modified an_edit)
      (apply_local_change a_device modified an_edit)
unfolding new_engine
apply_local_change-plan_change_example =
    apply_local_change-plan_change a_device modified an_edit refl refl

abbrev new_place : FileInfo
new_place = a_file name_b []

apply_local_rename-plan_rename_example :
    Agrees a_device
      (plan_rename a_device name_a new_place)
      (apply_local_rename a_device name_a new_place)
unfolding new_engine
apply_local_rename-plan_rename_example =
    apply_local_rename-plan_rename a_device name_a new_place refl

abbrev our_row : FileInfo
our_row = record (a_file name_a ((1, 1) ∷ [])) { sequence = 1 }

abbrev edited : FileInfo
edited = record an_edit { version = (1, 2) ∷ [] }

plan_change_wins_example :
    (edited.name ≡ name_a)
    × (compare edited.version our_row.version ≡ greater)
    × (chosen (global_from a_device.peers (some edited) name_a) ≡ some edited)
unfolding new_engine plan_change written bump cross_sync.Index.Query.get Version.get lookup insert
    held
plan_change_wins_example =
    plan_change_wins a_device modified an_edit our_row edited refl (omega arith)
      ((λ k. omega arith), tt) refl

abbrev three_files : List FileInfo
three_files = a_file name_a [] ∷ a_file name_b [] ∷ an_edit ∷ []

content-write_chunks_example :
    content name_a (write_chunks 2 3 a_device three_files).0.ix.files
    ≡ latest name_a three_files (content name_a a_device.ix.files)
unfolding new_engine write_chunks store_batch put_batch transact batch_loop commit exec sequenced
    alloc_sequence touch hooked
content-write_chunks_example =
    content-write_chunks 2 3 a_device three_files name_a (omega arith) (omega arith) refl

abbrev some_changes : List Change
some_changes =
    record { kind = modified; info = an_edit; from_name = []; out_of_gate = false }
    ∷ record { kind = skipped; info = new_place; from_name = []; out_of_gate = false }
    ∷ record { kind = renamed; info = an_edit; from_name = name_a; out_of_gate = true }
    ∷ record { kind = touched; info = an_edit; from_name = []; out_of_gate = false }
    ∷ []

-- The peer's view moves on, and another peer joins that has the new path.
abbrev later_views : Table ℕ View
later_views =
    (9, (name_b, a_file name_b ((1, 1) ∷ [])) ∷ [])
    ∷ (7, (name_a, a_file name_a ((1, 2) ∷ [])) ∷ [])
    ∷ []

abbrev a_release : PendingRelease
a_release = record { from_name = 99 ∷ []; to_name = name_b; size = 3; blocks = []; peers = [] }

abbrev a_waiting : Engine
a_waiting = record a_device { releases = a_release ∷ [] }

confirm_releases_lem_example :
    (lookup name_a (confirm_releases a_waiting).0.ix.files ≡ lookup name_a a_waiting.ix.files)
    × ((confirm_releases a_waiting).0.peers ≡ a_waiting.peers)
confirm_releases_lem_example =
    confirm_releases_lem a_waiting name_a ((λ confirmed. ((λ h. cc), (λ h. cc))), tt)

-- The peer has moved the file.
abbrev moved_view : View
moved_view =
    (name_a, tombstone name_a file ((7, 1) ∷ (1, 1) ∷ []))
    ∷ (name_b, a_file name_b ((7, 1) ∷ (1, 1) ∷ []))
    ∷ []

abbrev a_follower : Engine
a_follower = record a_device { peers = (7, moved_view) ∷ [] }

plan_moves_run :
    plan_moves a_follower 7
    ≡ ok (
        record {
          from_name = name_a;
          to_name = name_b;
          global = a_file name_b ((7, 1) ∷ (1, 1) ∷ []);
        }
        ∷ [])
unfolding new_engine plan_moves list_all select live_files local_map gather_sources gather_targets
    add_source add_target content_key format_decimal flatten pair_of moves_of sort_moves place_move
    lookup insert has_key contains
plan_moves_run = refl

plan_moves_lem_example :
    (ms : List Move) × (plan_moves a_follower 7 ≡ ok ms) × All (IsMove a_follower moved_view) ms
unfolding new_engine lookup
plan_moves_lem_example =
    plan_moves_lem a_follower 7 moved_view filled-IsSound refl refl refl (refl, (refl, tt))
