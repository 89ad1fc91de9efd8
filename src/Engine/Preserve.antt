-- ===== src/Engine/Preserve.antt =====
-- engine.go and peerview_exchange.go: every change of the engine's state marks the names it may concern,
-- so that the cached lists stay right about the others.
use cross_sync.Engine.Coherent.{Coherent}
use cross_sync.Base.{
  ℕ, list_eq, nat_eq, List, Option-cases, [], arith, false, inl, inr, none, refl, some, sym, true,
  ◌∙◌, ◌∷◌, ◌≡◌, ◌≢◌, Bool, Bool-cases, ap, eq_of_test, not, ◌&&◌, ◌++◌, ◌==◌, ◌||◌,
}
use cross_sync.Table.{contains, lookup, insert, lookup-insert}
use cross_sync.Index.Files.{FileInfo, FileName}
use cross_sync.Index.Store.{names_of}
use cross_sync.Engine.State.{View, Engine, PendingDirty, mark_names}
use cross_sync.Engine.Views.{
  view_of, store_all, sweep, mark_new, difference, set_in_flight, set_of, set_peer_index,
  set_peer_index_append, swept,
}
use cross_sync.Engine.Global.{global_from}
use cross_sync.Engine.Pending.{authoritative, pull_wanted}
use cross_sync.Engine.Walk.{to_fetch, to_send, local}
use cross_sync.Engine.Frame.{
  Frame, contains-mark_names, mark_names-all, Agrees, global_loop-insert, first_is_dir-insert,
  any_lacks-insert, Frame-Coherent, in_uploads-any_lacks, in_uploads-none,
}

abbrev with_view : Engine → ℕ → View → List FileName → Engine
with_view e peer view marked = record e {
  peers = insert peer view e.peers;
  pend = mark_names marked (mark_new peer e.peers e.pend);
}

with_view-to_fetch :
    (e : Engine) (peer : ℕ) (view : View) (marked : List FileName) (n : FileName)
    → Agrees n peer view e.peers
    → to_fetch (with_view e peer view marked) n ≡ to_fetch e n
unfolding pull_wanted global_from
with_view-to_fetch e peer view marked n a = ground (
  arith,
  global_loop-insert n peer view e.peers
      (elim (local e n) [ none ↦ none | some fi ↦ some (fi, true) ]) a,
  first_is_dir-insert n peer view e.peers a,
)

with_view-to_send :
    (e : Engine) (peer : ℕ) (view : View) (marked : List FileName) (n : FileName)
    → Agrees n peer view e.peers
    → to_send (with_view e peer view marked) n ≡ to_send e n
with_view-to_send e peer view marked n a = elim (Option-cases (local e n)) [
  | inl absent ↦ rw absent (in_uploads-none _ _ n ∙ sym (in_uploads-none e _ n))
  | inr (fi, present) ↦
      let f : Engine = with_view e peer view marked in
      rw present (
        ground (
          arith,
          in_uploads-any_lacks f (authoritative e.view_pending f.peers) n fi,
          in_uploads-any_lacks e (authoritative e.view_pending e.peers) n fi,
          any_lacks-insert n peer view fi e.view_pending e.peers a,
        ))
]

with_view-Frame :
    (e : Engine) (peer : ℕ) (view : View) (marked : List FileName)
    → ((n : FileName)
        → n ≢ []
        → contains n marked ≡ false
        → lookup n view ≡ lookup n (view_of peer e.peers))
    → Frame e (with_view e peer view marked)
with_view-Frame e peer view marked h =
    let d : PendingDirty = mark_new peer e.peers e.pend in
    let agrees : (n : FileName)
        → n ≢ []
        → (mark_names marked d).all ≡ false
        → contains n (mark_names marked d).names ≡ false
        → Agrees n peer view e.peers =
      λ n real quiet q. (
        ground (arith, mark_names-all marked d),
        h n real (ground (arith, contains-mark_names n marked d real)),
      ) in
    record {
      same_cache = refl;
      more_all = λ quiet. ground (arith, mark_names-all marked d);
      more_names = λ n real q. ground (arith, contains-mark_names n marked d real);
      same_fetch =
          λ n real quiet q. with_view-to_fetch e peer view marked n (agrees n real quiet q);
      same_send = λ n real quiet q. with_view-to_send e peer view marked n (agrees n real quiet q);
    }

lookup-store_all :
    (n : FileName) (files : List FileInfo) (view : View)
    → contains n (names_of files) ≡ false
    → lookup n (store_all files view) ≡ lookup n view
unfolding store_all contains
lookup-store_all n [] view q = refl
lookup-store_all n (f ∷ files) view q =
    ground (arith, lookup-store_all n files (insert f.name f view), lookup-insert f.name n f view)

lookup-sweep :
    (n : FileName) (seen : List FileName) (view : View)
    → contains n (sweep seen view).1 ≡ false
    → lookup n (sweep seen view).0 ≡ lookup n view
unfolding sweep contains lookup
lookup-sweep n seen [] q = refl
lookup-sweep n seen ((k, f) ∷ view) q = ground (arith, lookup-sweep n seen view)

contains-append :
    (n : FileName) (ms ns : List FileName)
    → contains n (ms ++ ns) ≡ (contains n ms || contains n ns)
unfolding contains
contains-append n [] ns = refl
contains-append n (m ∷ ms) ns = ground (arith, contains-append n ms ns)

pub set_peer_index-Coherent :
    (e : Engine) (peer : ℕ) (files : List FileInfo) (update : Bool)
    → Coherent e
    → Coherent (set_peer_index e peer files update)
unfolding set_peer_index contains
set_peer_index-Coherent e peer files update =
    let old : View = view_of peer e.peers in
    let both : View × List FileName = swept files update old in
    Frame-Coherent e _ (
      with_view-Frame e peer (store_all files both.0) (both.1 ++ names_of files) (λ n real q.
        ground (
          arith,
          lookup-store_all n files both.0,
          contains-append n both.1 (names_of files),
          lookup-sweep n (names_of files) old,
        )))

pub set_peer_index_append-Coherent :
    (e : Engine) (peer : ℕ) (files : List FileInfo)
    → Coherent e
    → Coherent (set_peer_index_append e peer files)
unfolding set_peer_index_append
set_peer_index_append-Coherent e peer files = Frame-Coherent e _ (
    with_view-Frame e peer (store_all files (view_of peer e.peers)) (names_of files)
      (λ n real q. lookup-store_all n files (view_of peer e.peers) q))

-- Where everything is in doubt, nothing is claimed.
pub doubted-Coherent : (e : Engine) → e.pend.all ≡ true → Coherent e
doubted-Coherent e h valid quiet = cc

contains-difference :
    (n : FileName) (ms ns : List FileName)
    → contains n (difference ms ns) ≡ (contains n ms && not (contains n ns))
unfolding difference contains
contains-difference n [] ns = refl
contains-difference n (m ∷ ms) ns = elim (Bool-cases (m == n)) [
  | inl e ↦
      let same : m ≡ n = eq_of_test m n e in
      ground (arith, contains-difference n ms ns, ap (λ k. contains k ns) same)
  | inr e ↦ ground (arith, contains-difference n ms ns)
]

same_gate-to_fetch :
    (e : Engine) (gate : List FileName) (d : PendingDirty) (n : FileName)
    → contains n gate ≡ contains n e.in_flight
    → to_fetch (record e { in_flight = gate; pend = d }) n ≡ to_fetch e n
unfolding pull_wanted
same_gate-to_fetch e gate d n h = rw h refl

same_gate-to_send :
    (e : Engine) (gate : List FileName) (d : PendingDirty) (n : FileName)
    → contains n gate ≡ contains n e.in_flight
    → to_send (record e { in_flight = gate; pend = d }) n ≡ to_send e n
same_gate-to_send e gate d n h = elim (Option-cases (local e n)) [
  | inl absent ↦ rw absent (in_uploads-none _ _ n ∙ sym (in_uploads-none e _ n))
  | inr (fi, present) ↦
      let views : List View = authoritative e.view_pending e.peers in
      rw present (
        ground (
          arith,
          in_uploads-any_lacks (record e { in_flight = gate; pend = d }) views n fi,
          in_uploads-any_lacks e views n fi,
        ))
]

pub set_in_flight-Coherent :
    (e : Engine) (list : List FileName) → Coherent e → Coherent (set_in_flight e list)
unfolding set_in_flight
set_in_flight-Coherent e list =
    let m : List FileName = set_of list in
    let left : List FileName = difference e.in_flight m in
    let came : List FileName = difference m e.in_flight in
    let d₁ : PendingDirty = mark_names left e.pend in
    let d : PendingDirty = mark_names came d₁ in
    let quiet : (n : FileName)
        → n ≢ []
        → contains n d.names ≡ false
        → (contains n e.pend.names ≡ false) × (contains n m ≡ contains n e.in_flight) =
      λ n real q. ground (
        arith,
        contains-mark_names n came d₁ real,
        contains-mark_names n left e.pend real,
        contains-difference n e.in_flight m,
        contains-difference n m e.in_flight,
      ) in
    Frame-Coherent e _ (record {
      same_cache = refl;
      more_all = λ h. ground (arith, mark_names-all came d₁, mark_names-all left e.pend);
      more_names = λ n real q. (quiet n real q).0;
      same_fetch = λ n real h q. same_gate-to_fetch e m d n (quiet n real q).1;
      same_send = λ n real h q. same_gate-to_send e m d n (quiet n real q).1;
    })
