-- ===== src/PullBatch/Tests.antt =====
-- pull_batch.go: two files of one block each, under a budget of one block. The node is a counter of
-- commits.
use cross_sync.Text.{lex_lt}
use cross_sync.Engine.State.{Engine, new_engine, send_receive}
use cross_sync.PullBatch.Order.{
  order_pulls, collect_sizes, peer_sizes, place_name, smallest, sort_names,
}
use cross_sync.PullBatch.Order.Sizes.{size_in}
use cross_sync.PullBatch.Order.Sorted.{IsSorted, order_pulls-IsSorted, times}
use cross_sync.PullBatch.Starved.{StillWaits, starved_forever}
use cross_sync.Table.{lookup, delete, insert, contains}
use cross_sync.PullBatch.Answers.{Lands, handle-Lands}
use cross_sync.PullBatch.Runs.{all_needs, IsRequest, plan_pulls_lem}
use cross_sync.Temp.{write_at, overlay}
use cross_sync.Base.{
  ℕ, nat_eq, list_eq, All, List, [], arith, false, inl, map, none, refl, some, true, ◌+◌, ◌∷◌, ◌≡◌,
  if◌then◌else◌,
}
use cross_sync.Index.Files.{FileInfo, FileName}
use cross_sync.Index.Tests.{a_file, name_a, name_b, empty_index}
use cross_sync.Pull.{
  Pull, BlockNeed, block_size_at, mark_run, needs_from, receive_blocks, verify_run,
}
use cross_sync.Pull.Tests.{same_bytes, whole_writes}
use cross_sync.PullBatch.{
  PullBatch, Host, Tuning, PullJob, active, admit, answered, complete, fill_window, handle, job_of,
  other_message, plan_loop, plan_pulls, pulling, response, run_batch, run_cap, send_next, start,
  start_begun, take_run, waiting,
}

abbrev one_block : FileName → FileInfo
one_block name = record (a_file name []) { size = 2; block_size = 2; blocks = (1 ∷ 2 ∷ []) ∷ [] }

abbrev fresh_pull : FileName → Pull
fresh_pull name = record {
  name = name;
  info = one_block name;
  temp = record { size = 2; byte = λ i. 0 };
  written = false ∷ [];
  peer = 7;
  donor = none;
  reused = 0;
}

abbrev counting : Host ℕ
counting = record {
  paused = λ n. false;
  begin = λ n name. (n, pulling (fresh_pull name));
  finish = λ n pull. (n + 1, true);
  announce = λ n name. (n, true);
  merge = λ n msg. (n, true);
  report = λ n name. n;
  clear = λ n name. n;
}

abbrev narrow : Tuning
narrow = record { k = 2; run_bytes = 2; budget = 2; window = 8 }

abbrev empty_batch : PullBatch ℕ
empty_batch = record {
  host = 0;
  jobs = [];
  next_job = 1;
  in_flight = [];
  inflight_bytes = 0;
  next_id = 1;
  faults = [];
  requests = [];
}

-- The first file was committed, and the second was never asked for.
abbrev stuck : PullBatch ℕ
stuck = record {
  host = 1;
  jobs = (2, job_of counting narrow same_bytes whole_writes name_b (fresh_pull name_b)) ∷ [];
  next_job = 3;
  in_flight = [];
  inflight_bytes = 0;
  next_id = 2;
  faults = [];
  requests = record { id = 1; name = name_a; offset = 0; size = 2 } ∷ [];
}

stuck_run :
    run_batch counting narrow same_bytes whole_writes empty_batch
      (name_a ∷ name_b ∷ [])
      (some (response 1 (1 ∷ 2 ∷ []) 0) ∷ [])
    ≡ waiting stuck []
unfolding run_batch admit start start_begun fill_window send_next complete handle answered take_run
    receive_blocks verify_run mark_run block_size_at needs_from plan_pulls plan_loop write_at
    overlay lookup insert delete active
stuck_run = refl

starved_forever_example :
    StillWaits counting narrow same_bytes whole_writes
      (λ s m. refl)
      stuck
      []
      (run_batch counting narrow same_bytes whole_writes stuck []
        (map some (response 2 (1 ∷ 2 ∷ []) 0 ∷ other_message ∷ [])))
starved_forever_example =
    starved_forever counting narrow same_bytes whole_writes (λ s m. refl) stuck []
      (response 2 (1 ∷ 2 ∷ []) 0 ∷ other_message ∷ [])
      (record { open_jobs = λ e. omega arith; idle = refl; full = inl refl })

abbrev three_needs : List BlockNeed
three_needs =
    record { index = 0; offset = 0; size = 2; hash = [] }
    ∷ record { index = 1; offset = 2; size = 2; hash = [] }
    ∷ record { index = 3; offset = 6; size = 2; hash = [] }
    ∷ []

plan_pulls_lem_example :
    (all_needs (plan_pulls three_needs 4) ≡ three_needs)
    × All (IsRequest (run_cap 4)) (plan_pulls three_needs 4)
plan_pulls_lem_example = plan_pulls_lem three_needs 4

abbrev first_job : PullJob
first_job = record (job_of counting narrow same_bytes whole_writes name_a (fresh_pull name_a)) {
  sent = 1;
}

abbrev asking : PullBatch ℕ
asking = record stuck {
  jobs = (1, first_job) ∷ stuck.jobs;
  in_flight = (1, record { job = 1; run = 0 }) ∷ [];
  inflight_bytes = 2;
}

handle-Lands_example :
    Lands counting narrow same_bytes whole_writes asking
      (handle counting narrow same_bytes whole_writes asking (response 1 (1 ∷ 2 ∷ []) 0)).0
      first_job
      (record { job = 1; run = 0 })
      (1 ∷ 2 ∷ [])
unfolding lookup plan_pulls needs_from
handle-Lands_example =
    handle-Lands counting narrow same_bytes whole_writes asking 1 (1 ∷ 2 ∷ []) 0
      (record { job = 1; run = 0 }) first_job _ refl refl refl

abbrev sized : FileName → ℕ → FileName × FileInfo
sized name size = (name, record (a_file name []) { size = size })

-- The peer has `b` with 9 bytes and `c` with 3, and nothing of `a`.
abbrev a_chooser : Engine
a_chooser = record (new_engine 1 send_receive none (empty_index [])) {
  peers = (7, sized name_b 9 ∷ sized (99 ∷ []) 3 ∷ []) ∷ [];
}

small_first :
    order_pulls smallest a_chooser 7 (name_a ∷ name_b ∷ (99 ∷ []) ∷ [])
    ≡ (99 ∷ []) ∷ name_b ∷ name_a ∷ []
unfolding order_pulls peer_sizes collect_sizes sort_names place_name lookup insert lex_lt new_engine
small_first = refl

order_pulls-IsSorted_example :
    ((n : FileName)
      → times n (order_pulls smallest a_chooser 7 (name_a ∷ name_b ∷ (99 ∷ []) ∷ []))
        ≡ times n (name_a ∷ name_b ∷ (99 ∷ []) ∷ []))
    × ((n : FileName)
        → lookup n (peer_sizes a_chooser 7 (name_a ∷ name_b ∷ (99 ∷ []) ∷ [])) ≡ (
            if contains n (name_a ∷ name_b ∷ (99 ∷ []) ∷ [])
            then size_in (lookup 7 a_chooser.peers) n
            else none))
    × IsSorted smallest
        (peer_sizes a_chooser 7 (name_a ∷ name_b ∷ (99 ∷ []) ∷ []))
        (order_pulls smallest a_chooser 7 (name_a ∷ name_b ∷ (99 ∷ []) ∷ []))
order_pulls-IsSorted_example =
    order_pulls-IsSorted smallest a_chooser 7 (name_a ∷ name_b ∷ (99 ∷ []) ∷ []) refl
