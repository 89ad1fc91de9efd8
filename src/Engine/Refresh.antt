-- ===== src/Engine/Refresh.antt =====
-- pending_incremental.go, `ensurePendingLocked`, and the lists that it serves. Times are nanoseconds.
use cross_sync.Text.{sort_strings}
use cross_sync.Engine.Pending.{
  authoritative, compute_need_pulls, upload_wanted, pull_wanted, compute_uploads,
}
use cross_sync.Engine.Views.{set_of}
use cross_sync.Base.{
  ℕ, list_eq, nat_eq, Bool, List, Option, [], false, if◌then◌else◌, leb, length, ltb, none, not,
  some, true, ◌&&◌, ◌*◌, ◌+◌, ◌-◌, ◌/◌, ◌==◌, ◌||◌, ◌∷◌,
}
use cross_sync.Engine.State.{View, Engine, PendingCache, PendingDirty, take_dirty}
use cross_sync.Table.{add}
use cross_sync.Index.Files.{FileInfo, FileName, Result, err, ok}
use cross_sync.Index.Query.{get}

abbrev pub pending_rebuild_after : ℕ
pending_rebuild_after = 15 * 60 * 1_000_000_000

abbrev pub pending_dirty_share : ℕ
pending_dirty_share = 4

abbrev pub with_dirty : Engine → PendingDirty → Engine
with_dirty e d = record e { pend = d }

-- The fields that a full walk sets.
abbrev pub built : Engine → List FileName → List FileName → ℕ → Engine
built e pulls ups now = record e {
  cache = record {
    pulls = pulls;
    ups = ups;
    pull_set = set_of pulls;
    up_set = set_of ups;
    indexed = e.cache.indexed;
    built_at = some now;
    valid = true;
  };
  pend = record { names = []; all = false };
}

abbrev pub then_uploads : ℕ → Engine × Result (List FileName) → Engine × Result (Unit {0})
then_uploads now (e, err x) = (e, err x)
then_uploads now (e, ok pulls) = elim (compute_uploads e) [
  | err x ↦ (e, err x)
  | ok ups ↦ (built e pulls ups now, ok tt)
]

-- `rebuildPendingLocked`
unfoldable pub rebuild : Engine → ℕ → Engine × Result (Unit {0})
rebuild e now = then_uploads now (compute_need_pulls e)

-- `setMember`
unfoldable pub remove_name : FileName → List FileName → List FileName
remove_name n [] = []
remove_name n (m ∷ ms) = let rest = remove_name n ms in if m == n then rest else m ∷ rest

unfoldable pub set_member : FileName → Bool → List FileName → List FileName
unfolding remove_name
set_member n want set = if want then add n set else remove_name n set

unfoldable pub in_uploads : Engine → List View → FileName → Option FileInfo → Bool
in_uploads e [] n local = false
in_uploads e (v ∷ vs) n local = upload_wanted e n local (v ∷ vs)

-- The loop over the queued names.
unfoldable pub revise : List View → List FileName → Engine → Engine × Result (Unit {0})
unfolding set_member in_uploads
revise views [] e = (e, ok tt)
revise views (n ∷ ns) e = elim (get e.ix n) [
  | err x ↦ (e, err x)
  | ok local ↦ revise views ns (record e {
    cache = record (e.cache) {
      pull_set = set_member n (pull_wanted e n local) e.cache.pull_set;
      up_set = set_member n (in_uploads e views n local) e.cache.up_set;
    };
  })
]

abbrev pub then_sort : Engine × Result (Unit {0}) → Engine × Result (Unit {0})
then_sort (e, err x) = (e, err x)
then_sort (e, ok u) = (
  record e {
    cache = record (e.cache) {
      pulls = sort_strings e.cache.pull_set;
      ups = sort_strings e.cache.up_set;
    };
  },
  ok tt,
)

-- The cached lists are too old to be trusted, or were never built.
abbrev pub is_stale : PendingCache → List FileName → ℕ → Bool
is_stale c names now = elim c.built_at [
  | none ↦ true
  | some at ↦ ltb 0 (length names) && ltb pending_rebuild_after (now - at)
]

-- Enough names changed that a full walk costs less.
abbrev pub is_large : PendingCache → List FileName → Bool
is_large c names = ltb 0 c.indexed && leb (c.indexed / pending_dirty_share + 1) (length names)

-- `ensurePendingLocked`
unfoldable pub ensure_pending : Engine → ℕ → Engine × Result (Unit {0})
unfolding take_dirty
ensure_pending e now =
    if not e.incremental
    then rebuild e now
    else (let names = (take_dirty e.pend).0 in
        let all = (take_dirty e.pend).1 in
        let drained = with_dirty e (take_dirty e.pend).2 in
        if not e.cache.valid || all
        then rebuild drained now
        else if is_stale e.cache names now
        then rebuild drained now
        else if length names == 0
        then (drained, ok tt)
        else if is_large e.cache names
        then rebuild drained now
        else then_sort (revise (authoritative e.view_pending e.peers) names drained))

-- `SetIncrementalPending`
unfoldable pub set_incremental_pending : Engine → Bool → Engine
set_incremental_pending e on = record e {
  incremental = on;
  cache = record (e.cache) { valid = false };
}

abbrev pub serve :
    (PendingCache → List FileName) → Engine × Result (Unit {0}) → Engine × Result (List FileName)
serve field (e, err x) = (e, err x)
serve field (e, ok u) = (e, ok (field e.cache))

-- `NeedPulls` and `PendingUploads`
unfoldable pub need_pulls : Engine → ℕ → Engine × Result (List FileName)
need_pulls e now = serve (λ c. c.pulls) (ensure_pending e now)

unfoldable pub pending_uploads : Engine → ℕ → Engine × Result (List FileName)
pending_uploads e now = serve (λ c. c.ups) (ensure_pending e now)
