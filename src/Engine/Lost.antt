-- ===== src/Engine/Lost.antt =====
-- pending_incremental.go: how a failing index loses invalidations.
use cross_sync.Index.Query.{list_all, get}
use cross_sync.Base.{
  ℕ, list_eq, nat_eq, Bool, List, [], arith, false, refl, true, ◌∷◌, ◌≡◌, ap, if◌then◌else◌, length,
  not, some, ◌==◌, ◌||◌, ◌∙◌,
}
use cross_sync.Index.Files.{FileName, database, err, ok}
use cross_sync.Engine.State.{View, Engine, take_dirty}
use cross_sync.Engine.Pending.{compute_need_pulls, is_send_only, authoritative}
use cross_sync.Engine.Refresh.{
  ensure_pending, rebuild, revise, with_dirty, built, is_large, is_stale, need_pulls, then_sort,
}

-- An index that fails to answer and then answers again.
abbrev pub answering : Bool → Engine → Engine
answering b e = record e { ix = record (e.ix) { readable = b } }

rebuild_unread :
    (e : Engine) (now : ℕ)
    → is_send_only e.direction ≡ false
    → e.ix.readable ≡ false
    → rebuild e now ≡ (e, err database)
unfolding rebuild compute_need_pulls list_all
rebuild_unread e now active broken = ground arith

revise_unread :
    (views : List View) (n : FileName) (ns : List FileName) (e : Engine)
    → e.ix.readable ≡ false
    → revise views (n ∷ ns) e ≡ (e, err database)
unfolding revise get
revise_unread views n ns e broken = rw broken refl

-- The state after a failed update: the queue is gone and the cache stays valid.
abbrev forgotten : Engine → Engine
forgotten e = with_dirty e (record { names = []; all = false })

on_test {ℓ} :
    {A : Type ℓ} (b : Bool) (x y z : A)
    → (b ≡ true → x ≡ z)
    → (b ≡ false → y ≡ z)
    → (if b then x else y) ≡ z
on_test true x y z p q = p refl
on_test false x y z p q = q refl

failed_update :
    (e : Engine) (now : ℕ) (n : FileName) (ns : List FileName)
    → e.incremental ≡ true
    → is_send_only e.direction ≡ false
    → e.ix.readable ≡ false
    → e.pend.names ≡ n ∷ ns
    → ensure_pending e now ≡ (forgotten e, err database)
unfolding ensure_pending take_dirty
failed_update e now n ns on active broken queued =
    let d : Engine = forgotten e in
    let walk : rebuild d now ≡ (d, err database) = rebuild_unread d now active broken in
    let views : List View = authoritative e.view_pending e.peers in
    let looked : then_sort (revise views e.pend.names d) ≡ (d, err database) =
      ap (λ x. then_sort (revise views x d)) queued
      ∙ ap then_sort (revise_unread views n ns d broken) in
    on_test (not e.incremental) _ _ _ (λ off. absurd (ground arith))
      (λ h.
        on_test (not e.cache.valid || e.pend.all) _ _ _ (λ doubt. walk)
          (λ clear.
            on_test (is_stale e.cache e.pend.names now) _ _ _ (λ old. walk)
              (λ fresh.
                on_test (length e.pend.names == 0) _ _ _ (λ empty. absurd (ground arith))
                  (λ some_queued.
                    on_test (is_large e.cache e.pend.names) _ _ _ (λ large. walk)
                      (λ few. looked)))))

idle_serves :
    (e : Engine) (now at : ℕ)
    → e.incremental ≡ true
    → e.cache.valid ≡ true
    → e.cache.built_at ≡ some at
    → e.pend.names ≡ []
    → e.pend.all ≡ false
    → (need_pulls e now).1 ≡ ok e.cache.pulls
unfolding need_pulls ensure_pending take_dirty
idle_serves e now at on valid built empty quiet = ground arith

-- A failing index loses invalidations. When a name is queued and the index does not answer, the question
-- fails, and the cache stays valid while the queue is gone, the names in it and the doubt about all:
-- once the index answers again, the lists of before the change are served as if nothing had been
-- queued, at any later time.
pub failure_forgets :
    (e : Engine) (now later at : ℕ) (n : FileName) (ns : List FileName)
    → e.incremental ≡ true
    → is_send_only e.direction ≡ false
    → e.ix.readable ≡ false
    → e.cache.valid ≡ true
    → e.cache.built_at ≡ some at
    → e.pend.names ≡ n ∷ ns
    → ((need_pulls e now).1 ≡ err database)
      × ((need_pulls (answering true (need_pulls e now).0) later).1 ≡ ok e.cache.pulls)
unfolding need_pulls
failure_forgets e now later at n ns on active broken valid built queued =
    let failed = failed_update e now n ns on active broken queued in
    (
      rw failed refl,
      rw failed (idle_serves (answering true (forgotten e)) later at on valid built refl refl),
    )
