-- ===== src/PullBatch/Answers.antt =====
-- pull_batch.go, `handle`: where the bytes of an answer go.
use mathlib.Core.Path.{subst}
use cross_sync.Pull.{receive_blocks, Pull}
use cross_sync.Table.{lookup, delete, lookup-delete, insert, lookup-insert}
use cross_sync.Temp.{DiskWrites}
use cross_sync.Hash.{Bytes}
use cross_sync.Base.{
  ℕ, nat_eq, Option, ap, arith, get_elem?, length, none, some, take, true, ◌≡◌, ◌≢◌, Bool,
  Bool-cases, inl, inr, not, refl, ◌+◌, ◌-◌, ◌==◌, ◌||◌, sym,
}
use cross_sync.PullBatch.{
  PullBatch, Host, Tuning, PullJob, PullRef, PullRun, last_index, send_next, abandon, complete,
  take_run, answered, handle, resp_invalid_file, resp_no_error, resp_no_such_file, response,
}

pair_eq : (p : Pull × Bool) (x : Pull) → p.0 ≡ x → p.1 ≡ true → p ≡ (x, true)
pair_eq (a, b) x e f = cc

module _ {S : Type 0} (h : Host S) (t : Tuning) (sum : Bytes → Bytes) (disk : DiskWrites) where
  -- The job of the request after its answer: gone, or grown by the run that the request was for.
  abbrev pub Grown : PullJob → PullRef → Bytes → Option PullJob → Type 0
  Grown job ref bytes none = Unit
  Grown job ref bytes (some job') =
      (run : PullRun) × (get_elem? job.runs ref.run ≡ some run)
      × (length bytes ≡ run.size)
      × (receive_blocks sum disk job.pull (last_index 0 (take 1 run.needs)) bytes
          ≡ (job'.pull, true))
      × (job'.received ≡ job.received + length run.needs)

  -- Every other job is as it was.
  pub record Lands (b b' : PullBatch S) (job : PullJob) (ref : PullRef) (bytes : Bytes)
      : Type 0 where
    pub others : (j : ℕ) → j ≢ ref.job → lookup j b'.jobs ≡ lookup j b.jobs
    pub own : Grown job ref bytes (lookup ref.job b'.jobs)

  send_next-jobs :
      (b : PullBatch S) (id : ℕ) (job : PullJob)
      → ((send_next h t sum disk b id job).0.jobs ≡ b.jobs)
        × ((send_next h t sum disk b id job).1.pull ≡ job.pull)
        × ((send_next h t sum disk b id job).1.received ≡ job.received)
  unfolding send_next
  send_next-jobs b id job = ground arith

  -- A job that is taken out.
  dropped :
      (b b' : PullBatch S) (job : PullJob) (ref : PullRef) (bytes : Bytes)
      → b'.jobs ≡ delete ref.job b.jobs
      → Lands b b' job ref bytes
  dropped b b' job ref bytes e =
      let none_there : lookup ref.job b'.jobs ≡ none =
        ground (arith, lookup-delete ref.job ref.job b.jobs, ap (lookup ref.job) e) in
      let gone : Grown job ref bytes (lookup ref.job b'.jobs) = rw none_there tt in
      record {
        others = λ j other. ground (arith, lookup-delete ref.job j b.jobs, ap (lookup j) e);
        own = gone;
      }

  -- A job that took its run.
  grown :
      (b b' : PullBatch S) (job job' : PullJob) (ref : PullRef) (run : PullRun) (bytes : Bytes)
      → b'.jobs ≡ insert ref.job job' b.jobs
      → get_elem? job.runs ref.run ≡ some run
      → length bytes ≡ run.size
      → receive_blocks sum disk job.pull (last_index 0 (take 1 run.needs)) bytes ≡ (job'.pull, true)
      → job'.received ≡ job.received + length run.needs
      → Lands b b' job ref bytes
  grown b b' job job' ref run bytes e at_run long good more =
      let there : lookup ref.job b'.jobs ≡ some job' =
        ground (arith, lookup-insert ref.job ref.job job' b.jobs, ap (lookup ref.job) e) in
      record {
        others = λ j other. ground (arith, lookup-insert ref.job j job' b.jobs, ap (lookup j) e);
        own = rw there (run, at_run, long, good, more);
      }

  complete-jobs :
      (b : PullBatch S) (id : ℕ) (job : PullJob)
      → (complete h t sum disk b id job).0.jobs ≡ delete id b.jobs
  unfolding complete
  complete-jobs b id job = ground arith

  take_run-Lands :
      (b : PullBatch S) (job : PullJob) (ref : PullRef) (run : PullRun) (bytes : Bytes)
      → get_elem? job.runs ref.run ≡ some run
      → Lands b (take_run h t sum disk b ref.job job run bytes).0 job ref bytes
  unfolding take_run abandon
  take_run-Lands b job ref run bytes at_run =
      let first : ℕ = last_index 0 (take 1 run.needs) in
      let pull : Pull = (receive_blocks sum disk job.pull first bytes).0 in
      let good : Bool = (receive_blocks sum disk job.pull first bytes).1 in
      let b' : PullBatch S = record b { inflight_bytes = b.inflight_bytes - run.size } in
      let job' : PullJob = record job { pull = pull; received = job.received + length run.needs } in
      elim (Bool-cases (not (length bytes == run.size) || not good)) [
        | inl refused ↦ rw refused (dropped b _ job ref bytes refl)
        | inr taken ↦ elim (Bool-cases (job'.received == job'.total)) [
          | inl whole ↦
              rw (taken, whole) (dropped b _ job ref bytes (complete-jobs b' ref.job job'))
          | inr parts ↦
              rw (taken, parts)
                (grown b _ job (send_next h t sum disk b' ref.job job').1 ref run bytes
                  (ap (insert ref.job (send_next h t sum disk b' ref.job job').1)
                    (send_next-jobs b' ref.job job').0)
                  at_run (ground arith)
                  (pair_eq (receive_blocks sum disk job.pull first bytes) _
                    (let (jobs, same, count) = send_next-jobs b' ref.job job' in sym same)
                    (let on : good ≡ true = ground arith in on))
                  (let (jobs, same, count) = send_next-jobs b' ref.job job' in count))
        ]
      ]

  answered-Lands :
      (b : PullBatch S) (job : PullJob) (ref : PullRef) (run : PullRun) (bytes : Bytes) (code : ℕ)
      → get_elem? job.runs ref.run ≡ some run
      → Lands b (answered h t sum disk b ref job bytes code).0 job ref bytes
  unfolding answered abandon
  answered-Lands b job ref run bytes code at_run = elim (Bool-cases (code == resp_no_error)) [
    | inl fine ↦ rw (fine, at_run) (take_run-Lands b job ref run bytes at_run)
    | inr refused ↦ elim (Bool-cases (code == resp_invalid_file || code == resp_no_such_file)) [
      | inl passing ↦ rw (refused, passing) (dropped b _ job ref bytes refl)
      | inr failed ↦ rw (refused, failed) (dropped b _ job ref bytes refl)
    ]
  ]

  -- The bytes of an answer land in the file that asked for them and nowhere else. Every other job is as it
  -- was, whatever the answer's code. The job of the request, which is for one of the job's runs, is gone,
  -- completed or abandoned, or it has taken the answer as exactly that run, of its full length and verified
  -- block by block, and counts the run's blocks as received.
  pub handle-Lands :
      (b : PullBatch S) (id : ℕ) (bytes : Bytes) (code : ℕ) (ref : PullRef) (job : PullJob)
      (run : PullRun)
      → lookup id b.in_flight ≡ some ref
      → lookup ref.job b.jobs ≡ some job
      → get_elem? job.runs ref.run ≡ some run
      → Lands b (handle h t sum disk b (response id bytes code)).0 job ref bytes
  unfolding handle
  handle-Lands b id bytes code ref job run asked held at_run =
      let b' : PullBatch S = record b { in_flight = delete id b.in_flight } in
      let l : Lands b' (answered h t sum disk b' ref job bytes code).0 job ref bytes =
        answered-Lands b' job ref run bytes code at_run in
      let e : handle h t sum disk b (response id bytes code)
          ≡ answered h t sum disk b' ref job bytes code =
        cc in
      subst (λ r. Lands b r.0 job ref bytes) (sym e) (record { others = l.others; own = l.own })
