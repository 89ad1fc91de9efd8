-- ===== src/PullBatch/Starved.antt =====
-- pull_batch.go, `run` and `sendNext`: jobs that have no request in flight.
use cross_sync.Table.{lookup}
use cross_sync.Index.Files.{FileName}
use cross_sync.Temp.{DiskWrites}
use cross_sync.Hash.{Bytes}
use cross_sync.Base.{
  nat_eq, List, [], arith, length, map, refl, some, true, ◌∷◌, ◌≡◌, ◌≢◌, ◌≤◌, ◌⊎◌, false, ◌==◌,
}
use cross_sync.PullBatch.{
  PullBatch, Host, Tuning, Message, Outcome, admit, handle, index_update, other_message, response,
  run_batch, waiting,
}
use cross_sync.Session.{IndexMsg, messages}

module _ {S : Type 0} (h : Host S) (t : Tuning) (sum : Bytes → Bytes) (disk : DiskWrites)
    (merges : (s : S) (msg : IndexMsg) → (h.merge s msg).1 ≡ true) where
  -- Jobs stand open and no request is in flight; nothing is left to admit, or there is no slot for it.
  pub record IsStarved (b : PullBatch S) (names : List FileName) : Type 0 where
    pub open_jobs : length b.jobs ≢ 0
    pub idle : b.in_flight ≡ []
    pub full : (names ≡ []) ⊎ (t.k ≤ length b.jobs)

  -- The same jobs, and nothing more was asked for.
  pub record StillWaits (b : PullBatch S) (names : List FileName) (o : Outcome h t sum disk)
      : Type 0 where
    pub after : PullBatch S
    pub waits : o ≡ waiting after names
    pub jobs : after.jobs ≡ b.jobs
    pub requests : after.requests ≡ b.requests

  admit-IsStarved :
      (b : PullBatch S) (names : List FileName)
      → IsStarved b names
      → admit h t sum disk b names ≡ (b, names, true)
  unfolding admit
  admit-IsStarved b [] s = refl
  admit-IsStarved b (n ∷ ns) s = ground (arith, s.full)

  -- A message changes nothing but what the host holds.
  handle-IsStarved :
      (b : PullBatch S) (names : List FileName) (m : Message)
      → IsStarved b names
      → (host : S) × (handle h t sum disk b m ≡ (record b { host = host }, true))
  unfolding handle lookup
  handle-IsStarved b names (response id bytes code) s = (b.host, rw s.idle refl)
  handle-IsStarved b names (index_update msg) s =
      ((h.merge b.host msg).0, rw (merges b.host msg) refl)
  handle-IsStarved b names other_message s = (b.host, refl)

  open_test :
      (b : PullBatch S) (names : List FileName) → IsStarved b names → (length b.jobs == 0) ≡ false
  open_test b names s = ground (arith, s.open_jobs)

  -- A starved batch never ends. Whatever messages come, answers, index updates and keepalives, it asks for
  -- nothing more, completes and abandons none of its jobs, and waits; that the connection stays up is what
  -- keeps it there.
  pub starved_forever :
      (b : PullBatch S) (names : List FileName) (messages : List Message)
      → IsStarved b names
      → StillWaits b names (run_batch h t sum disk b names (map some messages))
  unfolding run_batch
  starved_forever b names [] s =
      let e : (length b.jobs == 0) ≡ false = open_test b names s in
      rw (admit-IsStarved b names s, e)
        (record { after = b; waits = refl; jobs = refl; requests = refl })
  starved_forever b names (m ∷ messages) s =
      let e : (length b.jobs == 0) ≡ false = open_test b names s in
      let (host, done) = handle-IsStarved b names m s in
      let b' : PullBatch S = record b { host = host } in
      let next : StillWaits b' names (run_batch h t sum disk b' names (map some messages)) =
        starved_forever b' names messages
          (record { open_jobs = s.open_jobs; idle = s.idle; full = s.full }) in
      rw (admit-IsStarved b names s, e, done)
        (record {
          after = next.after;
          waits = next.waits;
          jobs = next.jobs;
          requests = next.requests;
        })
