-- ===== src/Engine/Batch.antt =====
-- engine.go, `ApplyLocalChanges`: a batch of local changes in bounded transactions. Log lines and events
-- are left out; the length of a chunk is a parameter, as it is a variable of the source.
use cross_sync.Base.{
  ℕ, list_eq, nat_eq, List, Option, [], drop, if◌then◌else◌, length, none, some, suc, take, zero,
  ◌++◌, ◌+◌, ◌∷◌, ltb,
}
use cross_sync.Index.Files.{FileInfo, Result, Error, err, ok}
use cross_sync.Engine.State.{Engine, save_releases}
use cross_sync.Engine.Local.{
  Change, apply_touched, is_receive_only, plan_change, plan_rename, renamed, skipped, store_batch,
  touched,
}
use cross_sync.Engine.Gate.{record_release}

abbrev pub batch_chunk : ℕ
batch_chunk = 5000

-- What the loop over the changes gathers; `error` ends it.
pub record Plans : Type 0 where
  pub applied : ℕ
  pub failed : List Change
  pub plans : List (List FileInfo × Change)
  pub error : Option Error

-- The plan of a change that is neither skipped nor touched.
abbrev pub plan_of : Engine → Change → Option (List FileInfo)
plan_of e c = elim c.kind [
  | renamed ↦ plan_rename e c.from_name c.info
  | k ↦ elim (plan_change e k c.info) [ none ↦ none | some out ↦ some (out ∷ []) ]
]

abbrev pub planned : Plans → Change → Option (List FileInfo) → Plans
planned s c none = record s { failed = s.failed ++ (c ∷ []) }
planned s c (some ws) = record s { applied = s.applied + 1; plans = s.plans ++ ((ws, c) ∷ []) }

abbrev pub stopped : Plans → Result (Option FileInfo) → Plans
stopped s (ok r) = s
stopped s (err x) = record s { error = some x }

-- One round of the loop.
unfoldable pub plan_one : Engine → Plans → Change → Engine × Plans
unfolding apply_touched
plan_one e s c = elim c.kind [
  | skipped ↦ (e, record s { applied = s.applied + 1 })
  | touched ↦ ((apply_touched e c.info).0, stopped s (apply_touched e c.info).1)
  | k ↦ (e, planned s c (plan_of e c))
]

unfoldable pub plan_loop : Engine → Plans → List Change → Engine × Plans
unfolding plan_one
plan_loop e s [] = (e, s)
plan_loop e s (c ∷ cs) =
    let (f, t) = plan_one e s c in
    let rest = plan_loop f t cs in elim t.error [ none ↦ rest | some x ↦ (f, t) ]

abbrev pub all_writes : List (List FileInfo × Change) → List FileInfo
all_writes [] = []
all_writes ((ws, c) ∷ plans) = ws ++ all_writes plans

-- The loop of the commits, on fuel for its rounds: each takes one chunk.
unfoldable pub write_chunks : ℕ → ℕ → Engine → List FileInfo → Engine × Result (Unit {0})
unfolding store_batch
write_chunks chunk zero e fis = (e, ok tt)
write_chunks chunk (suc fuel) e [] = (e, ok tt)
write_chunks chunk (suc fuel) e (fi ∷ fis) =
    let (f, r) = store_batch e (take chunk (fi ∷ fis)) in
    let rest = write_chunks chunk fuel f (drop chunk (fi ∷ fis)) in
    elim r [ err x ↦ (f, err x) | ok u ↦ rest ]

-- The renames that left the gate are recorded.
unfoldable pub record_releases : Engine → List (List FileInfo × Change) → Engine
unfolding record_release
record_releases e [] = e
record_releases e ((ws, c) ∷ plans) = elim c.kind [
  | renamed ↦
      let noted = record_release e c.from_name c.info.name c.info.size c.info.blocks in
      record_releases (if c.out_of_gate then noted else e) plans
  | k ↦ record_releases e plans
]

abbrev pub Applied : Type 0
Applied = ℕ × List Change × Option Error

abbrev pub no_plans : Plans
no_plans = record { applied = 0; failed = []; plans = []; error = none }

-- The list of releases is saved when a rename left the gate.
unfoldable pub gate_renames : List (List FileInfo × Change) → ℕ
gate_renames [] = 0
gate_renames ((ws, c) ∷ plans) =
    let rest = gate_renames plans in
    elim c.kind [ renamed ↦ if c.out_of_gate then suc rest else rest | k ↦ rest ]

abbrev pub saved_with : Plans → Engine × Result (Unit {0}) → Engine × Applied
saved_with s (e, err x) = (e, (0, [], some x))
saved_with s (e, ok u) = (e, (s.applied, s.failed, none))

unfoldable pub committed : Plans → Engine × Result (Unit {0}) → Engine × Applied
unfolding gate_renames record_releases save_releases
committed s (e, err x) = (e, (0, [], some x))
committed s (e, ok u) =
    let recorded = record_releases e s.plans in
    let saved = saved_with s (save_releases recorded) in
    if ltb 0 (gate_renames s.plans) then saved else (recorded, (s.applied, s.failed, none))

-- `ApplyLocalChanges`
unfoldable pub apply_local_changes : ℕ → Engine → List Change → Engine × Applied
unfolding plan_loop write_chunks committed
apply_local_changes chunk e changes =
    if is_receive_only e.direction
    then (e, (0, [], none))
    else (let (f, s) = plan_loop e no_plans changes in
        let ws = all_writes s.plans in
        let wrote = committed s (write_chunks chunk (length ws) f ws) in
        elim s.error [ some x ↦ (f, (s.applied, s.failed, some x)) | none ↦ wrote ])
