-- ===== src/Engine/Events.antt =====
-- internal/sync: any history of the engine's state changes, and the lists that it hands out after it.
use cross_sync.Engine.Touched.{got, lookup_used, touched_row, untouched}
use cross_sync.Index.History.{run-IsSound, removes, apply, run}
use cross_sync.Engine.Hooked.{hooked-Coherent}
use cross_sync.Engine.Ensure.{Ensured, ensure_pending-Ensured}
use cross_sync.Engine.Saved.{Saved-IsSound, cleanup_peer_index-Saved, dropped}
use cross_sync.Engine.Preserve.{
  set_peer_index-Coherent, doubted-Coherent, set_in_flight-Coherent, set_peer_index_append-Coherent,
}
use cross_sync.Engine.Refresh.{
  set_incremental_pending, need_pulls, ensure_pending, pending_uploads, serve,
}
use cross_sync.Index.Batch.{Unsequenced, put_batch-Wrote}
use cross_sync.Index.Store.{put, put_batch, remove}
use cross_sync.Index.Fresh.{IsSound, put-IsSound}
use cross_sync.Base.{
  list_eq, nat_eq, List, [], ap, arith, false, refl, ◌∙◌, ◌≡◌, ◌≢◌, All, Bool, Option, true, ℕ, ◌∷◌,
  Option-cases, inl, inr, ◌<◌, sym,
}
use cross_sync.Table.{contains, lookup}
use cross_sync.Engine.Local.{apply_touched, with_stat}
use mathlib.Core.Path.{subst}
use cross_sync.Index.Query.{get, list}
use cross_sync.Index.Files.{FileName, Index, FileInfo, ok, Result, err}
use cross_sync.Index.Touched.{
  Announced, put-Announced, put-readable, put_batch-Announced, put_batch-readable, remove-Announced,
  remove-readable,
}
use cross_sync.Engine.State.{Engine, Direction, new_engine, PendingCache, PendingDirty}
use cross_sync.Engine.Views.{
  hooked, begin_exchange, cleanup_peer_index, end_exchange, set_in_flight, set_peer_index,
  set_peer_index_append,
}
use cross_sync.Engine.Walk.{to_fetch, to_send}
use cross_sync.Engine.Coherent.{Coherent, to_fetch-requeued, to_send-requeued}

-- What happens to an engine, under its lock. The index is written by `Put`, `PutBatch` and `Delete`.
pub data Event : Type 0 where
  full_view : ℕ → List FileInfo → Bool → Event
  part_view : ℕ → List FileInfo → Event
  begins : ℕ → Event
  ends : ℕ → ℕ → Event
  drops : ℕ → Event
  gates : List FileName → Event
  stores : FileInfo → Event
  store_many : List FileInfo → Event
  forgets : FileName → Event
  asks : ℕ → Event
  switches : Bool → Event
  touches : FileInfo → Event

unfoldable pub step : Engine → Event → Engine
step e (full_view peer files update) = set_peer_index e peer files update
step e (part_view peer files) = set_peer_index_append e peer files
step e (begins peer) = begin_exchange e peer
step e (ends peer now) = end_exchange e peer now
step e (drops peer) = cleanup_peer_index e peer
step e (gates list) = set_in_flight e list
step e (stores fi) = hooked e (put e.ix fi).0
step e (store_many fis) = hooked e (put_batch e.ix fis).0
step e (forgets n) = hooked e (remove e.ix n).0
step e (asks now) = (ensure_pending e now).0
step e (switches on) = set_incremental_pending e on
step e (touches fi) = (apply_touched e fi).0

unfoldable pub steps : Engine → List Event → Engine
unfolding step
steps e [] = e
steps e (v ∷ vs) = steps (step e v) vs

-- The writes of new entries wait for a sequence. A touched entry keeps the one that it has.
abbrev pub Orderly : Event → Type 0
Orderly (stores fi) = fi.sequence ≡ 0
Orderly (store_many fis) = Unsequenced fis
Orderly _ = Unit

pub record Healthy (e : Engine) : Type 0 where
  pub sound : IsSound e.ix
  pub answers : e.ix.readable ≡ true
  pub coherent : Coherent e

off-Coherent : (e : Engine) → e.cache.valid ≡ false → Coherent e
off-Coherent e h valid quiet = cc

hooked-Healthy :
    (e : Engine) (ix : Index)
    → IsSound ix
    → ix.readable ≡ e.ix.readable
    → Announced e.ix.files ix
    → Healthy e
    → Healthy (hooked e ix)
unfolding hooked
hooked-Healthy e ix sound same told h = record {
  sound = record { unique = sound.unique; numbered = sound.numbered; started = sound.started };
  answers = same ∙ h.answers;
  coherent = hooked-Coherent e ix told h.coherent;
}

remove-IsSound : (ix : Index) (n : FileName) → IsSound ix → IsSound (remove ix n).0
unfolding run apply
remove-IsSound ix n sound = run-IsSound ix (removes n ∷ []) (tt, tt) sound

touches-Healthy : (e : Engine) (fi : FileInfo) → Healthy e → Healthy (apply_touched e fi).0
touches-Healthy e fi h =
    let seen : get e.ix fi.name ≡ ok (lookup fi.name e.ix.files) = got e.ix fi.name h.answers in
    elim (Option-cases (lookup fi.name e.ix.files)) [
      | inl gone ↦ subst Healthy (sym (untouched e fi (seen ∙ ap ok gone))) h
      | inr (current, found) ↦
          let w : FileInfo = with_stat current fi in
          let used : current.sequence < e.ix.next_seq =
            lookup_used e.ix.next_seq fi.name e.ix.files current h.sound.numbered found in
          subst Healthy (sym (touched_row e fi current (seen ∙ ap ok found))) (
            hooked-Healthy e (put e.ix w).0 (put-IsSound e.ix w used h.sound) (put-readable e.ix w)
              (put-Announced e.ix w) h)
    ]

pub step-Healthy : (e : Engine) (v : Event) → Orderly v → Healthy e → Healthy (step e v)
unfolding step set_peer_index set_peer_index_append begin_exchange end_exchange cleanup_peer_index
    set_in_flight set_incremental_pending
step-Healthy e (full_view peer files update) o h = record {
  sound = h.sound;
  answers = h.answers;
  coherent = set_peer_index-Coherent e peer files update h.coherent;
}
step-Healthy e (part_view peer files) o h = record {
  sound = h.sound;
  answers = h.answers;
  coherent = set_peer_index_append-Coherent e peer files h.coherent;
}
step-Healthy e (begins peer) o h = record {
  sound = h.sound;
  answers = h.answers;
  coherent = doubted-Coherent (begin_exchange e peer) refl;
}
step-Healthy e (ends peer now) o h = record {
  sound = h.sound;
  answers = h.answers;
  coherent = doubted-Coherent (end_exchange e peer now) refl;
}
step-Healthy e (drops peer) o h =
    let s = cleanup_peer_index-Saved e peer in
    record {
      sound = Saved-IsSound (dropped e peer) (cleanup_peer_index e peer) s h.sound;
      answers = s.readable ∙ h.answers;
      coherent = doubted-Coherent (cleanup_peer_index e peer) (ap (λ d. d.all) s.pend);
    }
step-Healthy e (gates list) o h = record {
  sound = h.sound;
  answers = h.answers;
  coherent = set_in_flight-Coherent e list h.coherent;
}
step-Healthy e (stores fi) o h =
    hooked-Healthy e (put e.ix fi).0
      (put-IsSound e.ix fi (omega (arith, o, h.sound.started)) h.sound) (put-readable e.ix fi)
      (put-Announced e.ix fi) h
step-Healthy e (store_many fis) o h =
    hooked-Healthy e (put_batch e.ix fis).0
      (put_batch-Wrote 0 e.ix fis o h.sound.started h.sound).sound (put_batch-readable e.ix fis)
      (put_batch-Announced e.ix fis o h.sound) h
step-Healthy e (forgets n) o h =
    hooked-Healthy e (remove e.ix n).0 (remove-IsSound e.ix n h.sound) (remove-readable e.ix n)
      (remove-Announced e.ix n) h
step-Healthy e (asks now) o h =
    let r : Ensured e (ensure_pending e now) =
      ensure_pending-Ensured e now h.sound h.answers h.coherent in
    record {
      sound = rw r.same_ix h.sound;
      answers = ap (λ x. x.readable) r.same_ix ∙ h.answers;
      coherent = r.coherent;
    }
step-Healthy e (switches on) o h = record {
  sound = h.sound;
  answers = h.answers;
  coherent = off-Coherent (set_incremental_pending e on) refl;
}
step-Healthy e (touches fi) o h = touches-Healthy e fi h

pub steps-Healthy :
    (e : Engine) (vs : List Event) → All Orderly vs → Healthy e → Healthy (steps e vs)
unfolding steps
steps-Healthy e [] o h = h
steps-Healthy e (v ∷ vs) o h = steps-Healthy (step e v) vs o.1 (step-Healthy e v o.0 h)

pub new_engine-Healthy :
    (node_id : ℕ) (direction : Direction) (gate : Option (FileName → Bool → Bool)) (ix : Index)
    → IsSound ix
    → ix.readable ≡ true
    → Healthy (new_engine node_id direction gate ix)
unfolding new_engine
new_engine-Healthy node_id direction gate ix sound answers = record {
  sound = sound;
  answers = answers;
  coherent = off-Coherent (new_engine node_id direction gate ix) refl;
}

-- The two lists that the engine hands out.
abbrev pub Served : Engine → ℕ → Type 0
Served e now =
    (pulls : List FileName) × (ups : List FileName) × ((need_pulls e now).1 ≡ ok pulls)
    × ((pending_uploads e now).1 ≡ ok ups)
    × ((n : FileName) → n ≢ [] → (contains n pulls ≡ to_fetch e n) × (contains n ups ≡ to_send e n))

serve_ok :
    (field : PendingCache → List FileName) (r : Engine × Result (Unit {0}))
    → r.1 ≡ ok tt
    → (serve field r).1 ≡ ok (field r.0.cache)
serve_ok field (e, ok u) h = refl
serve_ok field (e, err x) h = cc

-- An engine that starts with a sound index that answers, and goes through any history of peer views
-- replaced, extended and dropped, exchanges begun and ended, names entering and leaving the stability
-- gate, index writes that worked or failed, switches of the incremental computation and questions in
-- between, answers `NeedPulls` and `PendingUploads` at any time with exactly the names that a full walk
-- would list at that moment. The writes are the touched case of `ApplyLocalChange`, whose row keeps its
-- sequence, deletions of a row, and `Put` and `PutBatch` of entries that still wait for a sequence.
-- Pruning tombstones, which bypasses the write hook, is no event of it. The lists and the full walk read
-- the map of the peers in one and the same order; where Go's order changes in between, the two differ as
-- far as the winner of a name depends on the order.
pub steps-Served :
    (node_id : ℕ) (direction : Direction) (gate : Option (FileName → Bool → Bool)) (ix : Index)
    (vs : List Event) (now : ℕ)
    → IsSound ix
    → ix.readable ≡ true
    → All Orderly vs
    → Served (steps (new_engine node_id direction gate ix) vs) now
unfolding need_pulls pending_uploads
steps-Served node_id direction gate ix vs now sound answers o =
    let e : Engine = steps (new_engine node_id direction gate ix) vs in
    let h : Healthy e =
      steps-Healthy _ vs o (new_engine-Healthy node_id direction gate ix sound answers) in
    let r : Ensured e (ensure_pending e now) =
      ensure_pending-Ensured e now h.sound h.answers h.coherent in
    let c : PendingCache = (ensure_pending e now).0.cache in
    let d : PendingDirty = (ensure_pending e now).0.pend in
    (
      c.pulls,
      c.ups,
      serve_ok (λ x. x.pulls) (ensure_pending e now) r.worked,
      serve_ok (λ x. x.ups) (ensure_pending e now) r.worked,
      λ n real. (
        (r.exact n real).0 ∙ ap (λ f. to_fetch f n) r.kept ∙ to_fetch-requeued e c d n,
        (r.exact n real).1 ∙ ap (λ f. to_send f n) r.kept ∙ to_send-requeued e c d n,
      ),
    )
