-- ===== src/PullBatch.antt =====
-- internal/node/pull_batch.go: the pulls of one folder over one connection, several files at a time. What a batch
-- asks of the folder's engine and of the node is the interface `Host`. A job is known by its number; it is
-- dead when it no longer stands in `jobs`. Log lines are left out.
pub mod Runs
pub mod Order
pub mod Starved
pub mod Answers
pub mod Tests
use cross_sync.Temp.{DiskWrites}
use cross_sync.Hash.{Bytes, max_block_size}
use cross_sync.Base.{
  ℕ, nat_eq, list_eq, Bool, List, Option, [], false, get_elem?, if◌then◌else◌, leb, length, ltb,
  none, not, some, suc, take, true, zero, ◌&&◌, ◌++◌, ◌+◌, ◌-◌, ◌==◌, ◌||◌, ◌∷◌,
}
use cross_sync.Table.{Table, insert, delete, lookup}
use cross_sync.Index.Files.{FileName}
use cross_sync.Pull.{Pull, BlockNeed, need_blocks, receive_blocks}
use cross_sync.Session.{IndexMsg}

-- `pullRun`
pub record PullRun : Type 0 where
  pub needs : List BlockNeed
  pub offset : ℕ
  pub size : ℕ

abbrev pub run_of : BlockNeed → PullRun
run_of need = record { needs = need ∷ []; offset = need.offset; size = need.size }

abbrev pub extended : PullRun → BlockNeed → PullRun
extended run need = record run { needs = run.needs ++ (need ∷ []); size = run.size + need.size }

abbrev pub last_index : ℕ → List BlockNeed → ℕ
last_index i [] = i
last_index i (need ∷ needs) = last_index need.index needs

-- The next block in the file, and neither the run's cap nor the peer's limit is passed.
abbrev pub joins : ℕ → PullRun → BlockNeed → Bool
joins max_run run need =
    need.index == last_index 0 run.needs + 1
    && leb (run.size + need.size) max_run
    && leb (run.size + need.size) max_block_size

-- The loop of `planPulls`.
unfoldable pub plan_loop : ℕ → PullRun → List BlockNeed → List PullRun
plan_loop max_run cur [] = cur ∷ []
plan_loop max_run cur (need ∷ needs) =
    let rest =
      plan_loop max_run (if joins max_run cur need then extended cur need else run_of need) needs in
    if joins max_run cur need then rest else cur ∷ rest

abbrev pub run_cap : ℕ → ℕ
run_cap max_run = if max_run == 0 then max_block_size else max_run

-- `planPulls`
unfoldable pub plan_pulls : List BlockNeed → ℕ → List PullRun
unfolding plan_loop
plan_pulls [] max_run = []
plan_pulls (need ∷ needs) max_run = plan_loop (run_cap max_run) (run_of need) needs

-- `pullJob`
pub record PullJob : Type 0 where
  pub name : FileName
  pub pull : Pull
  pub runs : List PullRun
  pub sent : ℕ
  pub received : ℕ
  pub total : ℕ

-- `pullRef`
pub record PullRef : Type 0 where
  pub job : ℕ
  pub run : ℕ

-- `protocol.Request`, without the folder.
pub record Request : Type 0 where
  pub id : ℕ
  pub name : FileName
  pub offset : ℕ
  pub size : ℕ

-- The messages of the peer: `protocol.Response`, an index frame, and those that are ignored.
pub data Message : Type 0 where
  response : ℕ → Bytes → ℕ → Message
  index_update : IndexMsg → Message
  other_message : Message

-- How a name begins: done, with whether the connection took the update that says so, or a pull.
pub data Begun : Type 0 where
  handled : Bool → Begun
  pulling : Pull → Begun

-- What the engine and the node do for a batch. `begin` is `start` up to the missing blocks, `finish` is
-- `Finish`, `announce` is `sendIndexUpdate`; `merge` and `announce` say whether the connection holds.
pub record Host (S : Type 0) : Type 0 where
  pub paused : S → Bool
  pub begin : S → FileName → S × Begun
  pub finish : S → Pull → S × Bool
  pub announce : S → FileName → S × Bool
  pub merge : S → IndexMsg → S × Bool
  pub report : S → FileName → S
  pub clear : S → FileName → S

-- The configured numbers, and `pullWindowSize`.
pub record Tuning : Type 0 where
  pub k : ℕ
  pub run_bytes : ℕ
  pub budget : ℕ
  pub window : ℕ

-- `pullBatch`. `faults` says of each request whether sending it fails; `requests` are those sent.
pub record PullBatch (S : Type 0) : Type 0 where
  pub host : S
  pub jobs : Table ℕ PullJob
  pub next_job : ℕ
  pub in_flight : Table ℕ PullRef
  pub inflight_bytes : ℕ
  pub next_id : ℕ
  pub faults : List Bool
  pub requests : List Request

abbrev pub resp_no_error : ℕ
resp_no_error = 0

abbrev pub resp_no_such_file : ℕ
resp_no_such_file = 2

abbrev pub resp_invalid_file : ℕ
resp_invalid_file = 3

module _ {S : Type 0} (h : Host S) (t : Tuning) (sum : Bytes → Bytes) (disk : DiskWrites) where
  abbrev pub request_of : ℕ → PullJob → PullRun → Request
  request_of id job run = record { id = id; name = job.name; offset = run.offset; size = run.size }

  abbrev pub is_full : PullBatch S → PullRun → Bool
  is_full b run = not (b.inflight_bytes == 0) && ltb t.budget (b.inflight_bytes + run.size)

  abbrev pub failing : List Bool → Bool
  failing [] = false
  failing (f ∷ fs) = f

  abbrev pub later : List Bool → List Bool
  later [] = []
  later (f ∷ fs) = fs

  -- `sendNext`: the batch and the job after it, and whether the connection holds.
  unfoldable pub send_next : PullBatch S → ℕ → PullJob → PullBatch S × PullJob × Bool
  send_next b id job = elim (get_elem? job.runs job.sent) [
    | none ↦ (b, job, true)
    | some run ↦
        if is_full b run
        then (b, job, true)
        else if failing b.faults
        then (record b { next_id = b.next_id + 1; faults = later b.faults }, job, false)
        else (
          record b {
            in_flight = insert b.next_id (record { job = id; run = job.sent }) b.in_flight;
            inflight_bytes = b.inflight_bytes + run.size;
            next_id = b.next_id + 1;
            faults = later b.faults;
            requests = b.requests ++ (request_of b.next_id job run ∷ []);
          },
          record job { sent = job.sent + 1 },
          true,
        )
  ]

  -- The loop of `start` that fills a job's window, of at most `window` rounds.
  unfoldable pub fill_window : ℕ → PullBatch S → ℕ → PullJob → PullBatch S × PullJob × Bool
  fill_window zero b id job = (b, job, true)
  fill_window (suc fuel) b id job =
      let (b', job', holds) = send_next b id job in
      let rest = fill_window fuel b' id job' in
      if not holds || job'.sent == job.sent then (b', job', holds) else rest

  -- `complete`
  unfoldable pub complete : PullBatch S → ℕ → PullJob → PullBatch S × Bool
  complete b id job =
      let (host, finished) = h.finish b.host job.pull in
      let (told, holds) = h.announce (h.clear host job.name) job.name in
      if finished
      then (record b { jobs = delete id b.jobs; host = told }, holds)
      else (record b { jobs = delete id b.jobs; host = h.report host job.name }, true)

  -- `abandon`
  unfoldable pub abandon : PullBatch S → ℕ → PullBatch S
  abandon b id = record b { jobs = delete id b.jobs }

  -- `abortAll`
  unfoldable pub abort_all : PullBatch S → PullBatch S
  abort_all b = record b { jobs = [] }

  abbrev pub job_of : FileName → Pull → PullJob
  job_of name pull = record {
    name = name;
    pull = pull;
    runs = plan_pulls (need_blocks pull) t.run_bytes;
    sent = 0;
    received = 0;
    total = length (need_blocks pull);
  }

  -- A job that was just given its window takes a slot.
  abbrev pub admitted : ℕ → PullBatch S × PullJob × Bool → PullBatch S × Bool
  admitted id (b, job, false) = (b, false)
  admitted id (b, job, true) = (record b { jobs = b.jobs ++ ((id, job) ∷ []) }, true)

  -- `start`, of a name that began.
  unfoldable pub start_begun : PullBatch S → FileName → Begun → PullBatch S × Bool
  start_begun b name (handled holds) = (b, holds)
  start_begun b name (pulling pull) =
      let id = b.next_job in
      let b' = record b { next_job = id + 1 } in
      if length (need_blocks pull) == 0
      then complete b' id (job_of name pull)
      else admitted id (fill_window t.window b' id (job_of name pull))

  -- `start`
  unfoldable pub start : PullBatch S → FileName → PullBatch S × Bool
  start b name =
      let (host, begun) = h.begin b.host name in start_begun (record b { host = host }) name begun

  -- `active`
  unfoldable pub active : Table ℕ PullJob → FileName → Bool
  active [] name = false
  active ((id, job) ∷ jobs) name = job.name == name || active jobs name

  -- The loop of `run` that admits names: the batch, the names left, and whether the connection holds.
  unfoldable pub admit : PullBatch S → List FileName → PullBatch S × List FileName × Bool
  admit b [] = (b, [], true)
  admit b (name ∷ names) =
      let (b', holds) = start b name in
      let skipped = admit b names in
      let started = admit b' names in
      if leb t.k (length b.jobs)
      then (b, name ∷ names, true)
      else if h.paused b.host
      then (b, [], true)
      else if active b.jobs name
      then skipped
      else if holds
      then started
      else (abort_all b', names, false)

  -- An answer with bytes, for a run of a job that is alive.
  unfoldable pub take_run : PullBatch S → ℕ → PullJob → PullRun → Bytes → PullBatch S × Bool
  take_run b id job run bytes =
      let b' = record b { inflight_bytes = b.inflight_bytes - run.size } in
      let (pull, good) = receive_blocks sum disk job.pull (last_index 0 (take 1 run.needs)) bytes in
      let job' = record job { pull = pull; received = job.received + length run.needs } in
      let (sent, job'', holds) = send_next b' id job' in
      if not (length bytes == run.size) || not good
      then (abandon (record b' { host = h.report b.host job.name }) id, true)
      else if job'.received == job'.total
      then complete b' id job'
      else (record sent { jobs = insert id job'' sent.jobs }, holds)

  -- An answer for a job that is alive.
  unfoldable pub answered : PullBatch S → PullRef → PullJob → Bytes → ℕ → PullBatch S × Bool
  answered b ref job bytes code =
      if code == resp_no_error
      then elim (get_elem? job.runs ref.run) [
        | none ↦ (b, true)
        | some run ↦ take_run b ref.job job run bytes
      ]
      else if code == resp_invalid_file || code == resp_no_such_file
      then (abandon b ref.job, true)
      else (abandon (record b { host = h.report b.host job.name }) ref.job, true)

  -- `handle`
  unfoldable pub handle : PullBatch S → Message → PullBatch S × Bool
  handle b (response id bytes code) = elim (lookup id b.in_flight) [
    | none ↦ (b, true)
    | some ref ↦
        let b' = record b { in_flight = delete id b.in_flight } in
        elim (lookup ref.job b.jobs) [
          | none ↦ (b', true)
          | some job ↦ answered b' ref job bytes code
        ]
  ]
  handle b (index_update msg) =
      let (host, holds) = h.merge b.host msg in (record b { host = host }, holds)
  handle b other_message = (b, true)

  -- How the loop of `run` stands: at its end, with a broken connection, or waiting for a message.
  pub data Outcome : Type 0 where
    finished : PullBatch S → Outcome
    broken : PullBatch S → Outcome
    waiting : PullBatch S → List FileName → Outcome

  -- A round of the loop after the admissions, with what reading a message leads to.
  abbrev pub stand : PullBatch S × List FileName × Bool → Outcome → Outcome
  stand (b, names, holds) next =
      if not holds
      then broken b
      else if length b.jobs == 0 && length b.in_flight == 0
      then finished b
      else next

  -- `run`, over what the connection gives: a message, or an error.
  unfoldable pub run_batch : PullBatch S → List FileName → List (Option Message) → Outcome
  run_batch b names [] = stand (admit b names) (waiting (admit b names).0 (admit b names).1)
  run_batch b names (none ∷ events) = stand (admit b names) (broken (abort_all (admit b names).0))
  run_batch b names (some m ∷ events) =
      let (b', holds) = handle (admit b names).0 m in
      let next = run_batch b' (admit b names).1 events in
      stand (admit b names) (if holds then next else broken (abort_all b'))
