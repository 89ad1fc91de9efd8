-- ===== src/Engine/Marks.antt =====
-- peerview_exchange.go: how long the mark of an exchange that was begun stays.
use cross_sync.Engine.Touched.{got, touched_row, untouched}
use cross_sync.Base.{
  ℕ, list_eq, nat_eq, All, Bool, List, Option, [], ap, arith, false, refl, true, ◌==◌, ◌∙◌, ◌∷◌,
  ◌≡◌, sym, eq_refl, Option-cases, inl, inr, none,
}
use mathlib.Core.Path.{subst}
use cross_sync.Table.{contains, contains-add, lookup, lookup-delete}
use cross_sync.Index.Files.{FileName, Index, FileInfo, ok}
use cross_sync.Index.Query.{get, list}
use cross_sync.Index.Fresh.{IsSound}
use cross_sync.Engine.State.{Direction, Engine, new_engine}
use cross_sync.Engine.Local.{apply_touched}
use cross_sync.Engine.Saved.{cleanup_peer_index-Saved}
use cross_sync.Engine.Ensure.{Ensured, ensure_pending-Ensured}
use cross_sync.Engine.Refresh.{ensure_pending, set_incremental_pending}
use cross_sync.Engine.Views.{
  begin_exchange, cleanup_peer_index, end_exchange, hooked, peer_views_pending, set_in_flight,
  set_peer_index, set_peer_index_append, without,
}
use cross_sync.Engine.Events.{
  Event, Healthy, Orderly, asks, begins, drops, ends, forgets, full_view, gates, new_engine-Healthy,
  part_view, step, step-Healthy, steps, steps-Healthy, store_many, stores, switches, touches,
}

-- The exchange with the peer does not end.
abbrev pub Spares : ℕ → Event → Type 0
Spares peer (ends p now) = (p == peer) ≡ false
Spares peer _ = Unit

-- The mark of the peer is set.
abbrev IsMarked : ℕ → Engine → Type 0
IsMarked peer e = contains peer e.view_pending ≡ true

contains-without :
    (p peer : ℕ) (ps : List ℕ)
    → (p == peer) ≡ false
    → contains peer ps ≡ true
    → contains peer (without p ps) ≡ true
unfolding contains without
contains-without p peer [] other h = cc
contains-without p peer (q ∷ ps) other h =
    ground
      (arith, contains-without p peer ps other, nat_eq.equals_iff q p, nat_eq.equals_iff q peer)

touches-IsMarked :
    (peer : ℕ) (e : Engine) (fi : FileInfo)
    → Healthy e
    → IsMarked peer e
    → IsMarked peer (apply_touched e fi).0
unfolding hooked
touches-IsMarked peer e fi h m =
    let seen : get e.ix fi.name ≡ ok (lookup fi.name e.ix.files) = got e.ix fi.name h.answers in
    elim (Option-cases (lookup fi.name e.ix.files)) [
      | inl gone ↦ subst (IsMarked peer) (sym (untouched e fi (seen ∙ ap ok gone))) m
      | inr (current, found) ↦
          subst (IsMarked peer) (sym (touched_row e fi current (seen ∙ ap ok found))) m
    ]

step-IsMarked :
    (peer : ℕ) (e : Engine) (v : Event)
    → Healthy e
    → Spares peer v
    → IsMarked peer e
    → IsMarked peer (step e v)
unfolding step set_peer_index set_peer_index_append begin_exchange end_exchange set_in_flight
    set_incremental_pending hooked
step-IsMarked peer e (full_view p files update) h s m = m
step-IsMarked peer e (part_view p files) h s m = m
step-IsMarked peer e (begins p) h s m = contains-add p peer e.view_pending ∙ ground (arith, m)
step-IsMarked peer e (ends p now) h s m = contains-without p peer e.view_pending s m
step-IsMarked peer e (drops p) h s m =
    ap (contains peer) (cleanup_peer_index-Saved e p).view_pending ∙ m
step-IsMarked peer e (gates list) h s m = m
step-IsMarked peer e (stores fi) h s m = m
step-IsMarked peer e (store_many fis) h s m = m
step-IsMarked peer e (forgets n) h s m = m
step-IsMarked peer e (asks now) h s m =
    let r : Ensured e (ensure_pending e now) =
      ensure_pending-Ensured e now h.sound h.answers h.coherent in
    ap (λ x. contains peer x.view_pending) r.kept ∙ m
step-IsMarked peer e (switches on) h s m = m
step-IsMarked peer e (touches fi) h s m = touches-IsMarked peer e fi h m

steps-IsMarked :
    (peer : ℕ) (e : Engine) (vs : List Event)
    → Healthy e
    → All Orderly vs
    → All (Spares peer) vs
    → IsMarked peer e
    → IsMarked peer (steps e vs)
unfolding steps
steps-IsMarked peer e [] h o s m = m
steps-IsMarked peer e (v ∷ vs) h o s m =
    steps-IsMarked peer (step e v) vs (step-Healthy e v o.0 h) o.1 s.1
      (step-IsMarked peer e v h s.0 m)

waits :
    (peer : ℕ) (ps : List ℕ) (e : Engine)
    → e.view_pending ≡ ps
    → contains peer ps ≡ true
    → peer_views_pending e ≡ true
unfolding peer_views_pending contains
waits peer [] e same h = cc
waits peer (p ∷ ps) e same h = rw same refl

marked-peer_views_pending : (peer : ℕ) (e : Engine) → IsMarked peer e → peer_views_pending e ≡ true
marked-peer_views_pending peer e m = waits peer e.view_pending e refl m

begun-IsMarked : (peer : ℕ) (e : Engine) → IsMarked peer (begin_exchange e peer)
unfolding begin_exchange
begun-IsMarked peer e = contains-add peer peer e.view_pending ∙ ground (arith, eq_refl peer)

left_view :
    (e : Engine) (peer : ℕ)
    → lookup peer (cleanup_peer_index (begin_exchange e peer) peer).peers ≡ none
unfolding begin_exchange
left_view e peer =
    let s = cleanup_peer_index-Saved (begin_exchange e peer) peer in
    ap (lookup peer) s.peers ∙ ground (arith, lookup-delete peer peer e.peers, eq_refl peer)

-- A peer that goes away in the middle of an exchange leaves its mark. From an engine that started with a sound
-- index that answers and has any history behind it, let an exchange with the peer begin and the peer go
-- away, so that its view is dropped: after any further history in which no exchange with that peer ends,
-- the folder still counts as waiting for views. The writes of both histories are the touched case of `ApplyLocalChange`, deletions
-- of a row, and `Put` and `PutBatch` of entries that wait for a sequence.
pub mark_stays :
    (node_id : ℕ) (direction : Direction) (gate : Option (FileName → Bool → Bool)) (ix : Index)
    (before after : List Event) (peer : ℕ)
    → IsSound ix
    → ix.readable ≡ true
    → All Orderly before
    → All Orderly after
    → All (Spares peer) after
    → (lookup peer
          (cleanup_peer_index
            (begin_exchange (steps (new_engine node_id direction gate ix) before) peer)
            peer).peers
        ≡ none)
      × (peer_views_pending (
            steps
              (cleanup_peer_index
                (begin_exchange (steps (new_engine node_id direction gate ix) before) peer)
                peer)
              after)
          ≡ true)
unfolding step
mark_stays node_id direction gate ix before after peer sound answers o o' s =
    let e : Engine = steps (new_engine node_id direction gate ix) before in
    let h : Healthy e =
      steps-Healthy _ before o (new_engine-Healthy node_id direction gate ix sound answers) in
    let begun : Engine = step e (begins peer) in
    let left : Engine = step begun (drops peer) in
    let h₁ : Healthy begun = step-Healthy e (begins peer) tt h in
    let h₂ : Healthy left = step-Healthy begun (drops peer) tt h₁ in
    (
      left_view e peer,
      marked-peer_views_pending peer (steps left after) (
          steps-IsMarked peer left after h₂ o' s
            (step-IsMarked peer begun (drops peer) h₁ tt (begun-IsMarked peer e))),
    )
