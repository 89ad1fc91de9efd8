-- ===== src/PathQueue.antt =====
-- cmd/crosssync/pathqueue.go: the queue of changed paths of one folder, with its worker. The scan is what the
-- worker hands a batch to; whether it fails is only logged.
pub mod Covers
pub mod Drained
pub mod Tests
use cross_sync.Hash.{Bytes}
use cross_sync.Text.{slash, sort_strings, has_prefix}
use cross_sync.Base.{
  nat_eq, list_eq, Bool, List, Option, [], false, if◌then◌else◌, length, none, not, some, true,
  ◌&&◌, ◌++◌, ◌==◌, ◌||◌, ◌∷◌,
}
use cross_sync.Table.{add}

-- `pathQueue`
pub record PathQueue : Type 0 where
  pub pending : List Bytes
  pub running : Bool

abbrev pub new_path_queue : PathQueue
new_path_queue = record { pending = []; running = false }

-- `r == "" || r == "."`
abbrev pub is_no_path : Bytes → Bool
is_no_path [] = true
is_no_path (c ∷ r) = c == 46 && length r == 0

unfoldable pub merge_paths : List Bytes → List Bytes → List Bytes
unfolding add
merge_paths [] pending = pending
merge_paths (r ∷ rels) pending = merge_paths rels (if is_no_path r then pending else add r pending)

-- `Add`: the queue, and whether a worker is started.
unfoldable pub add_paths : List Bytes → PathQueue → PathQueue × Bool
unfolding merge_paths
add_paths [] q = (q, false)
add_paths (r ∷ rels) q =
    let pending = merge_paths (r ∷ rels) q.pending in
    if q.running || length pending == 0
    then (record q { pending = pending }, false)
    else (record { pending = pending; running = true }, true)

-- The path is the other one, or below it.
abbrev pub covers : Bytes → Bytes → Bool
covers kept p = p == kept || has_prefix p (kept ++ (slash ∷ []))

-- The loop of `collapsePaths`.
unfoldable pub collapse_loop : Bytes → List Bytes → List Bytes
unfolding has_prefix
collapse_loop last [] = []
collapse_loop last (p ∷ paths) =
    let skipped = collapse_loop last paths in
    let kept = p ∷ collapse_loop p paths in
    if not (length last == 0) && covers last p then skipped else kept

-- `collapsePaths`
unfoldable pub collapse_paths : List Bytes → List Bytes
unfolding collapse_loop sort_strings
collapse_paths paths = collapse_loop [] (sort_strings paths)

-- A round of `worker`: the queue, and the batch to scan, or none where the worker returns.
unfoldable pub take_batch : PathQueue → PathQueue × Option (List Bytes)
unfolding collapse_paths
take_batch q =
    if length q.pending == 0
    then (record q { running = false }, none)
    else (record q { pending = [] }, some (collapse_paths q.pending))

-- The goroutine of the worker, if there is one.
pub data Worker : Type 0 where
  no_worker at_loop : Worker
  scanning : List Bytes → Worker

-- The queue, its worker, and the paths of the scans that ended.
pub record Watching : Type 0 where
  pub queue : PathQueue
  pub worker : Worker
  pub scanned : List Bytes

-- What happens next: a batch of the watcher, or the next step of the worker.
pub data WatchEvent : Type 0 where
  adds : List Bytes → WatchEvent
  works : WatchEvent

abbrev pub after_take : List Bytes → PathQueue × Option (List Bytes) → Watching
after_take scanned (q, none) = record { queue = q; worker = no_worker; scanned = scanned }
after_take scanned (q, some batch) = record {
  queue = q;
  worker = scanning batch;
  scanned = scanned;
}

abbrev pub with_added : Watching → PathQueue × Bool → Watching
with_added s (q, false) = record s { queue = q }
with_added s (q, true) = record s { queue = q; worker = at_loop }

abbrev pub work : Watching → Worker → Watching
work s no_worker = s
work s at_loop = after_take s.scanned (take_batch s.queue)
work s (scanning batch) = record s { worker = at_loop; scanned = batch ++ s.scanned }

unfoldable pub watch_step : WatchEvent → Watching → Watching
unfolding add_paths take_batch
watch_step (adds rels) s = with_added s (add_paths rels s.queue)
watch_step works s = work s s.worker

unfoldable pub watch : Watching → List WatchEvent → Watching
unfolding watch_step
watch s [] = s
watch s (event ∷ events) = watch (watch_step event s) events
