-- ===== src/Engine/Ensure.antt =====
-- pending_incremental.go, `ensurePendingLocked`: whichever way the lists are brought up to date, they
-- are those of the full walk; and what a failing index does to the queue.
use cross_sync.Text.Sort.{contains-sort_strings}
use cross_sync.Index.Fresh.{IsSound}
use cross_sync.Text.{sort_strings}
use cross_sync.Engine.Walk.{to_fetch, to_send}
use cross_sync.Engine.Pending.{authoritative, pull_wanted}
use cross_sync.Engine.Coherent.{
  revised, Rebuilt, Trusted, Exact, Coherent, requeued, to_send-requeued, contains-revised,
  rebuild-Rebuilt, revise_lem, sent_by, to_fetch-requeued, with_sets,
}
use cross_sync.Engine.Refresh.{
  with_dirty, then_sort, revise, ensure_pending, rebuild, is_large, is_stale,
}
use mathlib.Core.Path.{fun_ext, ap₂}
use cross_sync.Base.{
  list_eq, nat_eq, [], false, refl, sym, true, ◌∙◌, ◌≡◌, ◌≢◌, Bool, Bool-cases, List, ap, arith,
  inl, inr, length, ℕ, ◌==◌, ◌∷◌, if◌then◌else◌, not, ◌||◌,
}
use cross_sync.Table.{contains}
use cross_sync.Engine.State.{Engine, PendingCache, PendingDirty, View, take_dirty}
use cross_sync.Index.Files.{FileName, Result, ok}

pub record Ensured (e : Engine) (r : Engine × Result (Unit {0})) : Type 0 where
  pub worked : r.1 ≡ ok tt
  pub exact : (n : FileName) → n ≢ [] → Exact r.0 n
  pub coherent : Coherent r.0
  pub same_ix : r.0.ix ≡ e.ix
  pub kept : r.0 ≡ requeued e r.0.cache r.0.pend

abbrev drained : Engine → Engine
drained e = with_dirty e (record { names = []; all = false })

Rebuilt-Ensured :
    (e : Engine) (c : PendingCache) (d : PendingDirty) (r : Engine × Result (Unit {0}))
    → Rebuilt (requeued e c d) r
    → Ensured e r
Rebuilt-Ensured e c d r b = record {
  worked = b.worked;
  exact = λ n real. b.exact n;
  coherent = b.coherent;
  same_ix = b.same_ix;
  kept = b.kept;
}

-- Nothing is queued: the lists stand.
idle-Ensured : (e : Engine) → Trusted e → e.pend.names ≡ [] → Ensured e (drained e, ok tt)
unfolding contains pull_wanted
idle-Ensured e t empty =
    let quiet : (n : FileName) → contains n e.pend.names ≡ false = λ n. rw empty refl in
    record {
      worked = refl;
      exact = λ n real. (
        (t.listed n).0 ∙ (t.current n real (quiet n)).0,
        (t.listed n).1
            ∙ (t.current n real (quiet n)).1
            ∙ sym (to_send-requeued e e.cache (drained e).pend n),
      );
      coherent = λ v a. record {
        current = λ n real queued. (
          (t.current n real (quiet n)).0,
          (t.current n real (quiet n)).1 ∙ sym (to_send-requeued e e.cache (drained e).pend n),
        );
        listed = t.listed;
      };
      same_ix = refl;
      kept = refl;
    }

-- The engine after the queued names were looked up one by one.
abbrev updated : Engine → Engine
updated e =
    let pulls = revised (to_fetch e) e.pend.names e.cache.pull_set in
    let ups = revised (to_send e) e.pend.names e.cache.up_set in
    requeued e
      (record (e.cache) {
        pulls = sort_strings pulls;
        ups = sort_strings ups;
        pull_set = pulls;
        up_set = ups;
      })
      (record { names = []; all = false })

revise-updated :
    (e : Engine)
    → e.ix.readable ≡ true
    → then_sort (revise (authoritative e.view_pending e.peers) e.pend.names (drained e))
      ≡ (updated e, ok tt)
revise-updated e answers =
    let views : List View = authoritative e.view_pending e.peers in
    let f : to_fetch (drained e) ≡ to_fetch e =
      fun_ext (to_fetch-requeued e e.cache (drained e).pend) in
    let g : sent_by (drained e) views ≡ sent_by e views =
      fun_ext (to_send-requeued e e.cache (drained e).pend) in
    ap then_sort (revise_lem views e.pend.names (drained e) answers)
    ∙ ap₂
        (λ p q. then_sort (
          with_sets (drained e) (revised p e.pend.names e.cache.pull_set)
              (revised q e.pend.names e.cache.up_set),
          ok tt,
        ))
        f g

-- A name of the queue is looked up, and the others were right already.
settled :
    (e : Engine) (f : FileName → Bool) (n : FileName) (set : List FileName)
    → (contains n e.pend.names ≡ false → contains n set ≡ f n)
    → contains n (revised f e.pend.names set) ≡ f n
settled e f n set h = elim (Bool-cases (contains n e.pend.names)) [
  | inl queued ↦ contains-revised f n e.pend.names set ∙ rw queued refl
  | inr quiet ↦ contains-revised f n e.pend.names set ∙ rw quiet (h quiet)
]

updated-Ensured : (e : Engine) → Trusted e → Ensured e (updated e, ok tt)
unfolding pull_wanted
updated-Ensured e t =
    let u : Engine = updated e in
    let pulls : (n : FileName) → n ≢ [] → contains n u.cache.pull_set ≡ to_fetch u n =
      λ n real. settled e (to_fetch e) n e.cache.pull_set (λ q. (t.current n real q).0) in
    let ups : (n : FileName) → n ≢ [] → contains n u.cache.up_set ≡ to_send u n = λ n real.
      settled e (to_send e) n e.cache.up_set (λ q. (t.current n real q).1)
      ∙ sym (to_send-requeued e u.cache u.pend n) in
    record {
      worked = refl;
      exact = λ n real. (
        contains-sort_strings n u.cache.pull_set ∙ pulls n real,
        contains-sort_strings n u.cache.up_set ∙ ups n real,
      );
      coherent = λ v a. record {
        current = λ n real q. (pulls n real, ups n real);
        listed =
            λ n. (contains-sort_strings n u.cache.pull_set, contains-sort_strings n u.cache.up_set);
      };
      same_ix = refl;
      kept = refl;
    }

no_names : (ns : List FileName) → (length ns == 0) ≡ true → ns ≡ []
no_names [] h = refl
no_names (n ∷ ns) h = absurd (ground arith)

clear_lem : (valid all : Bool) → (not valid || all) ≡ false → (valid ≡ true) × (all ≡ false)
clear_lem true false h = (refl, refl)
clear_lem true true h = absurd (ground arith)
clear_lem false all h = absurd (ground arith)

on_branches :
    (e : Engine) (b : Bool) (x y : Engine × Result (Unit {0}))
    → (b ≡ true → Ensured e x)
    → (b ≡ false → Ensured e y)
    → Ensured e (if b then x else y)
on_branches e true x y p q = p refl
on_branches e false x y p q = q refl

-- From a coherent state, and with an index that answers, bringing the lists up to date succeeds; after
-- it both lists hold a name exactly when the full walk would list it, on each of the paths: a walk
-- because the incremental computation is off, the cache is not built, everything is in doubt, the
-- cache is old or the queue is large, no work at all, or one lookup for each queued name. The empty
-- name, which is never queued, is left out. The state stays coherent, and nothing but the
-- cache and the queue changes. The full walk that the lists are compared with reads the map of
-- the peers in the order of the state; Go's order may be another at each walk.
pub ensure_pending-Ensured :
    (e : Engine) (now : ℕ)
    → IsSound e.ix
    → e.ix.readable ≡ true
    → Coherent e
    → Ensured e (ensure_pending e now)
unfolding ensure_pending take_dirty
ensure_pending-Ensured e now sound answers coherent =
    let names : List FileName = e.pend.names in
    let walk : Ensured e (rebuild (drained e) now) =
      Rebuilt-Ensured e e.cache (drained e).pend _
        (rebuild-Rebuilt (drained e) now sound answers) in
    let whole : Ensured e (rebuild e now) =
      Rebuilt-Ensured e e.cache e.pend _ (rebuild-Rebuilt e now sound answers) in
    on_branches e (not e.incremental) _ _ (λ off. whole)
      (λ on.
        on_branches e (not e.cache.valid || e.pend.all) _ _ (λ doubt. walk)
          (λ clear.
            let both = clear_lem e.cache.valid e.pend.all clear in
            let t : Trusted e = coherent both.0 both.1 in
            on_branches e (is_stale e.cache names now) _ _ (λ old. walk)
              (λ fresh.
                on_branches e (length names == 0) _ _
                  (λ empty. idle-Ensured e t (no_names names empty))
                  (λ queued.
                    on_branches e (is_large e.cache names) _ _ (λ large. walk)
                      (λ few. rw (revise-updated e answers) (updated-Ensured e t))))))
