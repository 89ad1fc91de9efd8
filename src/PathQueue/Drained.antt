-- ===== src/PathQueue/Drained.antt =====
-- pathqueue.go: whatever is added is scanned.
use mathlib.Core.Path.{subst}
use cross_sync.PathQueue.Covers.{covered, covers_refl, covered-collapse_paths}
use cross_sync.Hash.{Bytes}
use cross_sync.Table.{add, contains}
use cross_sync.Base.{
  nat_eq, list_eq, Bool, Bool-cases, List, [], ap, arith, eq_of_test, false, inl, inr, length, not,
  refl, sym, true, ◌&&◌, ◌++◌, ◌==◌, ◌||◌, ◌∷◌, ◌≡◌, ◌∙◌,
}
use cross_sync.PathQueue.{
  covers, WatchEvent, Watching, Worker, add_paths, adds, is_no_path, merge_paths, no_worker,
  scanning, watch_step, works, at_loop, take_batch, work, new_path_queue, watch,
}

abbrev pub is_busy : Worker → Bool
is_busy no_worker = false
is_busy _ = true

-- One worker at most, and one whenever something is pending.
record Sound (s : Watching) : Type 0 where
  pub alone : s.queue.running ≡ is_busy s.worker
  pub woken : (s.queue.running || length s.queue.pending == 0) ≡ true

abbrev batch_of : Worker → List Bytes
batch_of (scanning batch) = batch
batch_of _ = []

-- The path waits, is being scanned, or was scanned, itself or with a directory above it.
abbrev accounted : Bytes → Watching → Bool
accounted p s = covered p s.queue.pending || covered p (batch_of s.worker) || covered p s.scanned

abbrev added_by : Bytes → WatchEvent → Bool
added_by p (adds rels) = not (is_no_path p) && contains p rels
added_by p works = false

-- Some event adds the path, which is neither empty nor the folder itself.
abbrev pub asked : Bytes → List WatchEvent → Bool
asked p [] = false
asked p (event ∷ events) = added_by p event || asked p events

contains-covered : (p : Bytes) (xs : List Bytes) → contains p xs ≡ true → covered p xs ≡ true
unfolding contains
contains-covered p [] h = cc
contains-covered p (x ∷ xs) h = elim (Bool-cases (x == p)) [
  | inl same ↦
      let e : covers x p ≡ true =
        subst (λ t. covers t p ≡ true) (sym (eq_of_test x p same)) (covers_refl p) in
      rw e refl
  | inr other ↦
      let later : covered p xs ≡ true = contains-covered p xs (ground arith) in ground arith
]

covered-add : (p r : Bytes) (xs : List Bytes) → covered p xs ≡ true → covered p (add r xs) ≡ true
unfolding add
covered-add p r xs h = ground arith

covered_self : (r : Bytes) (xs : List Bytes) → covered r (add r xs) ≡ true
unfolding add
covered_self r xs = elim (Bool-cases (contains r xs)) [
  | inl there ↦ rw there (contains-covered r xs there)
  | inr new ↦ rw new (rw (covers_refl r) refl)
]

covered-merge_paths :
    (p : Bytes) (rels pending : List Bytes)
    → (covered p pending || added_by p (adds rels)) ≡ true
    → covered p (merge_paths rels pending) ≡ true
unfolding merge_paths contains
covered-merge_paths p [] pending h = ground arith
covered-merge_paths p (r ∷ rels) pending h = elim (Bool-cases (is_no_path r)) [
  | inl empty ↦ rw empty (
      covered-merge_paths p rels pending (elim (Bool-cases (r == p)) [
        | inl same ↦
            let e : is_no_path r ≡ is_no_path p = ap is_no_path (eq_of_test r p same) in
            ground arith
        | inr other ↦ ground arith
      ]))
  | inr path ↦ rw path (
      covered-merge_paths p rels (add r pending) (elim (Bool-cases (covered p pending)) [
        | inl there ↦ rw (covered-add p r pending there) refl
        | inr new ↦ elim (Bool-cases (r == p)) [
          | inl same ↦
              let e : covered p (add r pending) ≡ true =
                subst (λ t. covered t (add r pending) ≡ true) (eq_of_test r p same)
                  (covered_self r pending) in
              rw e refl
          | inr other ↦ ground arith
        ]
      ]))
]

covered-append :
    (p : Bytes) (xs ys : List Bytes) → covered p (xs ++ ys) ≡ (covered p xs || covered p ys)
covered-append p [] ys = refl
covered-append p (x ∷ xs) ys = ground (arith, covered-append p xs ys)

-- The queue after an `Add`.
added-Sound : (rels : List Bytes) (s : Watching) → Sound s → Sound (watch_step (adds rels) s)
unfolding watch_step add_paths
added-Sound [] s i = i
added-Sound (r ∷ rels) s i =
    let pending : List Bytes = merge_paths (r ∷ rels) s.queue.pending in
    elim (Bool-cases (s.queue.running || length pending == 0)) [
      | inl stays ↦ rw stays (record { alone = i.alone; woken = stays })
      | inr starts ↦ rw starts (record { alone = refl; woken = refl })
    ]

idle_batch : (w : Worker) → is_busy w ≡ false → batch_of w ≡ []
idle_batch no_worker h = refl
idle_batch at_loop h = cc
idle_batch (scanning batch) h = cc

added-accounted :
    (p : Bytes) (rels : List Bytes) (s : Watching)
    → (accounted p s || added_by p (adds rels)) ≡ true
    → Sound s
    → accounted p (watch_step (adds rels) s) ≡ true
unfolding watch_step add_paths contains
added-accounted p [] s h i = ground arith
added-accounted p (r ∷ rels) s h i =
    let pending : List Bytes = merge_paths (r ∷ rels) s.queue.pending in
    let waits : (covered p pending || covered p (batch_of s.worker) || covered p s.scanned) ≡ true =
      elim (Bool-cases (covered p s.queue.pending || added_by p (adds (r ∷ rels)))) [
        | inl there ↦ rw (covered-merge_paths p (r ∷ rels) s.queue.pending there) refl
        | inr elsewhere ↦
            let rest : (covered p (batch_of s.worker) || covered p s.scanned) ≡ true =
              ground arith in
            ground arith
      ] in
    elim (Bool-cases (s.queue.running || length pending == 0)) [
      | inl stays ↦ rw stays waits
      | inr starts ↦
          let idle : is_busy s.worker ≡ false = sym i.alone ∙ ground arith in
          let none_taken : batch_of s.worker ≡ [] = idle_batch s.worker idle in
          rw starts (rw none_taken at waits)
    ]

-- The queue after a step of the worker.
work-Sound : (s : Watching) (w : Worker) → s.worker ≡ w → Sound s → Sound (work s w)
unfolding take_batch
work-Sound s no_worker e i = i
work-Sound s (scanning batch) e i = record { alone = i.alone ∙ ap is_busy e; woken = i.woken }
work-Sound s at_loop e i = elim (Bool-cases (length s.queue.pending == 0)) [
  | inl empty ↦ rw empty (record { alone = refl; woken = empty })
  | inr more ↦ rw more (record { alone = i.alone ∙ ap is_busy e; woken = ground arith })
]

work-accounted :
    (p : Bytes) (s : Watching) (w : Worker)
    → s.worker ≡ w
    → accounted p s ≡ true
    → accounted p (work s w) ≡ true
unfolding take_batch
work-accounted p s no_worker e h = h
work-accounted p s (scanning batch) e h =
    let taken : covered p (batch_of s.worker) ≡ covered p batch =
      ap (λ w. covered p (batch_of w)) e in
    ground (arith, covered-append p batch s.scanned)
work-accounted p s at_loop e h =
    let taken : covered p (batch_of s.worker) ≡ false = ap (λ w. covered p (batch_of w)) e in
    elim (Bool-cases (length s.queue.pending == 0)) [
      | inl empty ↦ rw empty (ground arith)
      | inr more ↦ rw more (elim (Bool-cases (covered p s.queue.pending)) [
        | inl waits ↦ rw (covered-collapse_paths p s.queue.pending waits) refl
        | inr elsewhere ↦ ground arith
      ])
    ]

step-Sound : (event : WatchEvent) (s : Watching) → Sound s → Sound (watch_step event s)
unfolding watch_step
step-Sound (adds rels) s i = added-Sound rels s i
step-Sound works s i = work-Sound s s.worker refl i

step-accounted :
    (p : Bytes) (event : WatchEvent) (s : Watching)
    → Sound s
    → (accounted p s || added_by p event) ≡ true
    → accounted p (watch_step event s) ≡ true
unfolding watch_step
step-accounted p (adds rels) s i h = added-accounted p rels s h i
step-accounted p works s i h = work-accounted p s s.worker refl (ground arith)

watch-Sound : (s : Watching) (events : List WatchEvent) → Sound s → Sound (watch s events)
unfolding watch
watch-Sound s [] i = i
watch-Sound s (event ∷ events) i = watch-Sound (watch_step event s) events (step-Sound event s i)

watch-accounted :
    (p : Bytes) (s : Watching) (events : List WatchEvent)
    → Sound s
    → (accounted p s || asked p events) ≡ true
    → accounted p (watch s events) ≡ true
unfolding watch
watch-accounted p s [] i h = ground arith
watch-accounted p s (event ∷ events) i h =
    watch-accounted p (watch_step event s) events (step-Sound event s i)
      (elim (Bool-cases (accounted p s || added_by p event)) [
        | inl now ↦ rw (step-accounted p event s i now) refl
        | inr later ↦ let rest : asked p events ≡ true = ground arith in rw rest (ground arith)
      ])

abbrev pub started_watching : Watching
started_watching = record { queue = new_path_queue; worker = no_worker; scanned = [] }

-- The worker runs on, and nothing more is added.
abbrev pub four_rounds : List WatchEvent
four_rounds = works ∷ works ∷ works ∷ works ∷ []

abbrev pub Idle : Watching → Type 0
Idle s = (s.queue.pending ≡ []) × (s.worker ≡ no_worker)

four_rounds-Idle :
    (pending scanned : List Bytes) (running : Bool) (w : Worker)
    → (running ≡ is_busy w)
    → (running || length pending == 0) ≡ true
    → Idle (
        watch
          (record {
            queue = record { pending = pending; running = running };
            worker = w;
            scanned = scanned;
          })
          four_rounds)
unfolding watch watch_step take_batch
four_rounds-Idle [] scanned running no_worker alone woken = (refl, refl)
four_rounds-Idle (x ∷ pending) scanned running no_worker alone woken =
    absurd (ground (arith, alone))
four_rounds-Idle [] scanned running at_loop alone woken = (refl, refl)
four_rounds-Idle (x ∷ pending) scanned running at_loop alone woken =
    let more : (length (x ∷ pending) == 0) ≡ false = ground arith in rw more (refl, refl)
four_rounds-Idle [] scanned running (scanning batch) alone woken = (refl, refl)
four_rounds-Idle (x ∷ pending) scanned running (scanning batch) alone woken =
    let more : (length (x ∷ pending) == 0) ≡ false = ground arith in rw more (refl, refl)

-- No change is dropped, and the queue comes to rest. Whatever batches the watcher adds and however they fall
-- between the steps of the worker, before, during and after its scans: once nothing more is added, four steps
-- of the worker end it with nothing pending, and each path that was ever added, but for the empty one and
-- ".", was handed to a scan that ended, itself or by a directory above it.
pub queue_drains :
    (events : List WatchEvent) (p : Bytes)
    → asked p events ≡ true
    → Idle (watch (watch started_watching events) four_rounds)
      × (covered p (watch (watch started_watching events) four_rounds).scanned ≡ true)
queue_drains events p wanted =
    let s : Watching = watch started_watching events in
    let sound : Sound s =
      watch-Sound started_watching events (record { alone = refl; woken = refl }) in
    let (rest, ended) =
      four_rounds-Idle s.queue.pending s.scanned s.queue.running s.worker sound.alone sound.woken in
    let here : accounted p s ≡ true =
      watch-accounted p started_watching events (record { alone = refl; woken = refl }) wanted in
    let known : accounted p (watch s four_rounds) ≡ true =
      watch-accounted p s four_rounds sound (rw here refl) in
    let no_batch : covered p (batch_of (watch s four_rounds).worker) ≡ false =
      ap (λ w. covered p (batch_of w)) ended in
    let no_pending : covered p (watch s four_rounds).queue.pending ≡ false = ap (covered p) rest in
    ((rest, ended), rw (no_batch, no_pending) at known)
