-- ===== src/Session/Tests.antt =====
-- session.go: runs on a small index and a peer with an old view.
use cross_sync.Text.{has_prefix}
use cross_sync.Base.{
  nat_eq, list_eq, [], arith, false, none, refl, true, ◌∷◌, ◌≡◌, length, ℕ, ◌+◌, ◌↔◌,
}
use cross_sync.Table.{lookup, contains}
use cross_sync.Index.Files.{FileName}
use cross_sync.Index.Query.{select, list}
use cross_sync.Index.Written.{content}
use cross_sync.Index.Tests.{a_file, name_b, filled, filled-IsSound, empty_index}
use cross_sync.Engine.State.{Engine, new_engine, send_receive}
use cross_sync.Engine.Views.{view_of}
use cross_sync.Session.{receive, send_index, messages, IndexMsg}
use cross_sync.Session.Exchange.{exchange_completes, broken_exchange_pending}
use cross_sync.Session.Guard.{
  deletion_weight_lem, Blocks, Counts, IsLive, LiesBelow, yielded, guard_blocks_deletes,
  deletion_weight, count_beneath, count_live, is_beneath,
}

-- The receiver remembers another file of the peer.
abbrev a_receiver : Engine
a_receiver = record (new_engine 2 send_receive none (empty_index [])) {
  peers = (1, (name_b, a_file name_b []) ∷ []) ∷ [];
}

exchange_completes_example :
    let r =
      receive a_receiver 1 7 false
        (send_index 1 1 filled false [] (messages (select (λ fi. true) filled.files))) in
    (r.1 ≡ true)
    × ((n : FileName) → lookup n (view_of 1 r.0.peers) ≡ content n filled.files)
    × (contains 1 r.0.view_pending ≡ false)
exchange_completes_example =
    exchange_completes 1 1 filled [] a_receiver 1 7 refl (omega arith) filled-IsSound

abbrev a_frame : IndexMsg
a_frame = record { files = []; update = false; index_id = []; max_seq = 2; final = false }

broken_exchange_pending_example :
    ((receive a_receiver 1 7 false (a_frame ∷ a_frame ∷ [])).1 ≡ false)
    × (contains 1 (receive a_receiver 1 7 false (a_frame ∷ a_frame ∷ [])).0.view_pending ≡ true)
broken_exchange_pending_example =
    broken_exchange_pending a_receiver 1 7 a_frame (a_frame ∷ []) refl (refl, (refl, tt))

-- The directory `a` holds one live file, so its deletion weighs two.
deletion_weight_run :
    guard_blocks_deletes 2
      (deletion_weight filled (name_b ∷ (97 ∷ []) ∷ [])).0
      (deletion_weight filled (name_b ∷ (97 ∷ []) ∷ [])).1
      50
      0
    ≡ true
unfolding guard_blocks_deletes deletion_weight count_beneath count_live is_beneath has_prefix list
    select
deletion_weight_run = refl

deletion_weight_lem_example :
    (live : ℕ) × (below : ℕ) × Counts IsLive (yielded (list filled)) live
    × Counts (λ fi. IsLive fi × LiesBelow ((97 ∷ []) ∷ []) fi.name) (yielded (list filled)) below
    × ((guard_blocks_deletes 2
            (deletion_weight filled ((97 ∷ []) ∷ [])).0
            (deletion_weight filled ((97 ∷ []) ∷ [])).1
            50
            0
          ≡ true)
        ↔ Blocks 2 live (length {A = FileName} ((97 ∷ []) ∷ []) + below) 50 0)
deletion_weight_lem_example = deletion_weight_lem 2 50 0 filled ((97 ∷ []) ∷ [])
