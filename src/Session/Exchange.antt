-- ===== src/Session/Exchange.antt =====
-- session.go: a full exchange in frames gives the receiver exactly the sender's index, and one that breaks
-- off leaves the view marked as partial.
use cross_sync.Index.Written.{content}
use cross_sync.Index.Fresh.{IsSound}
use cross_sync.Index.Query.{select}
use cross_sync.Base.{
  ℕ, list_eq, nat_eq, Bool, List, Bool-cases, [], arith, eq_refl, false, inl, inr, leb, length,
  refl, suc, take, true, zero, ◌++◌, ◌<◌, ◌∷◌, ◌≡◌, ap, drop, length-drop, sym, take-append-drop,
  ◌∙◌, Option-cases, All,
}
use cross_sync.Hash.{Bytes}
use cross_sync.Table.{Table, contains, insert, lookup-insert, lookup, contains-add}
use cross_sync.Index.Files.{FileInfo, FileName, Index}
use cross_sync.Index.Store.{max_seq, names_of}
use mathlib.Core.Path.{subst}
use cross_sync.Engine.State.{Engine, View}
use cross_sync.Engine.Views.{
  store_all, view_of, set_peer_index_append, end_exchange, without, begin_exchange, set_peer_index,
  sweep,
}
use cross_sync.Session.Arrived.{wires, sweep_gone, contains-take, contains-wires, lookup-wires}
use cross_sync.Session.{
  frames, receive, merge_index, FileMessage, received, messages, send_index, IndexMsg,
}

store_all-append :
    (xs ys : List FileInfo) (view : View)
    → store_all (xs ++ ys) view ≡ store_all ys (store_all xs view)
unfolding store_all
store_all-append [] ys view = refl
store_all-append (x ∷ xs) ys view = store_all-append xs ys (insert x.name x view)

received-append : (xs ys : List FileMessage) → received (xs ++ ys) ≡ received xs ++ received ys
received-append [] ys = refl
received-append (x ∷ xs) ys = rw (received-append xs ys) refl

view_of-insert :
    (peer : ℕ) (v : View) (peers : Table ℕ View) → view_of peer (insert peer v peers) ≡ v
view_of-insert peer v peers = ground (arith, lookup-insert peer peer v peers, eq_refl peer)

view_of-append :
    (e : Engine) (peer : ℕ) (files : List FileInfo)
    → view_of peer (set_peer_index_append e peer files).peers
      ≡ store_all files (view_of peer e.peers)
unfolding set_peer_index_append
view_of-append e peer files = view_of-insert peer (store_all files (view_of peer e.peers)) e.peers

contains-without : (k : ℕ) (ks : List ℕ) → contains k (without k ks) ≡ false
unfolding contains without
contains-without k [] = refl
contains-without k (j ∷ js) = ground (arith, contains-without k js)

-- The view is complete: the final frame came, the view is this one, and it is no partial snapshot.
record Complete (peer : ℕ) (view : View) (r : Engine × Bool) : Type 0 where
  ended : r.1 ≡ true
  stored : view_of peer r.0.peers ≡ view
  settled : contains peer r.0.view_pending ≡ false

ended-Complete :
    (e : Engine) (peer now : ℕ) (view : View)
    → view_of peer e.peers ≡ view
    → Complete peer view (end_exchange e peer now, true)
unfolding end_exchange
ended-Complete e peer now view h = record {
  ended = refl;
  stored = h;
  settled = contains-without peer e.view_pending;
}

take_all {ℓ} : {A : Type ℓ} (n : ℕ) (xs : List A) → leb (length xs) n ≡ true → take n xs ≡ xs
take_all zero [] h = refl
take_all zero (x ∷ xs) h = absurd (ground arith)
take_all (suc n) [] h = refl
take_all (suc n) (x ∷ xs) h = ap (λ ys. x ∷ ys) (take_all n xs (ground arith))

-- The first chunk and the rest, stored one after the other.
chunked :
    (chunk : ℕ) (files : List FileMessage) (view : View)
    → store_all (received (drop chunk files)) (store_all (received (take chunk files)) view)
      ≡ store_all (received files) view
chunked chunk files view =
    sym (store_all-append (received (take chunk files)) (received (drop chunk files)) view)
    ∙ ap (λ xs. store_all xs view) (sym (received-append (take chunk files) (drop chunk files)))
    ∙ ap (λ xs. store_all (received xs) view) (take-append-drop chunk files)

receive_streaming :
    (fuel chunk : ℕ) (update : Bool) (index_id : Bytes) (top : ℕ) (files : List FileMessage)
    (e : Engine) (peer now : ℕ)
    → 0 < chunk
    → length files < fuel
    → Complete peer
        (store_all (received files) (view_of peer e.peers))
        (receive e peer now true (frames fuel chunk update index_id top files))
unfolding frames receive merge_index
receive_streaming zero chunk update index_id top files e peer now p q = absurd (omega (arith, q))
receive_streaming (suc fuel) chunk update index_id top files e peer now p q =
    let old : View = view_of peer e.peers in
    let f : Engine = set_peer_index_append e peer (received (take chunk files)) in
    let part = view_of-append e peer (received (take chunk files)) in
    elim (Bool-cases (leb (length files) chunk)) [
      | inl last ↦ rw last (
          ended-Complete f peer now (store_all (received files) old)
            (part ∙ ap (λ xs. store_all (received xs) old) (take_all chunk files last)))
      | inr more ↦
          let rest =
            receive_streaming fuel chunk update index_id top (drop chunk files) f peer now p
              (ground (arith, length-drop chunk files)) in
          rw more (
            subst
              (λ v. Complete peer v (
                receive f peer now true (frames fuel chunk update index_id top (drop chunk files))))
              (ap (store_all (received (drop chunk files))) part ∙ chunked chunk files old) rest)
    ]

-- What the first frame of a full send keeps of the old view.
abbrev stays : ℕ → List FileMessage → View → View
stays chunk files old = (sweep (names_of (received (take chunk files))) old).0

view_of-full :
    (e : Engine) (peer : ℕ) (files : List FileInfo)
    → view_of peer (set_peer_index (begin_exchange e peer) peer files false).peers
      ≡ store_all files (sweep (names_of files) (view_of peer e.peers)).0
unfolding set_peer_index begin_exchange
view_of-full e peer files =
    view_of-insert peer (store_all files (sweep (names_of files) (view_of peer e.peers)).0) e.peers

receive_full :
    (fuel chunk : ℕ) (index_id : Bytes) (top : ℕ) (files : List FileMessage) (e : Engine)
    (peer now : ℕ)
    → 0 < chunk
    → length files < fuel
    → Complete peer
        (store_all (received files) (stays chunk files (view_of peer e.peers)))
        (receive e peer now false (frames fuel chunk false index_id top files))
unfolding frames receive merge_index
receive_full zero chunk index_id top files e peer now p q = absurd (omega (arith, q))
receive_full (suc fuel) chunk index_id top files e peer now p q =
    let old : View = stays chunk files (view_of peer e.peers) in
    let f : Engine =
      set_peer_index (begin_exchange e peer) peer (received (take chunk files)) false in
    let part = view_of-full e peer (received (take chunk files)) in
    elim (Bool-cases (leb (length files) chunk)) [
      | inl last ↦ rw last (
          ended-Complete f peer now (store_all (received files) old)
            (part ∙ ap (λ xs. store_all (received xs) old) (take_all chunk files last)))
      | inr more ↦
          let rest =
            receive_streaming fuel chunk false index_id top (drop chunk files) f peer now p
              (ground (arith, length-drop chunk files)) in
          rw more (
            subst
              (λ v.
                Complete peer v (
                  receive f peer now true
                    (frames fuel chunk false index_id top (drop chunk files))))
              (ap (store_all (received (drop chunk files))) part ∙ chunked chunk files old) rest)
    ]

-- The entries as they arrive.
exchanged :
    (chunk : ℕ) (ix : Index) (old : View) (n : FileName)
    → IsSound ix
    → lookup n
        (store_all (wires ix.files) (stays chunk (messages (select (λ fi. true) ix.files)) old))
      ≡ content n ix.files
exchanged chunk ix old n sound =
    let fms : List FileMessage = messages (select (λ fi. true) ix.files) in
    let rows =
      lookup-wires ix.next_seq n ix.files (stays chunk fms old) sound.numbered sound.unique in
    elim (Option-cases (lookup n ix.files)) [
      | inl absent ↦
          let unseen =
            contains-take n chunk fms
              (contains-wires ix.next_seq n ix.files sound.numbered absent) in
          let gone = sweep_gone n (names_of (received (take chunk fms))) old unseen in
          ground (arith, rows, gone)
      | inr (fi, here) ↦ ground (arith, rows)
    ]

-- A full exchange of a sound index in frames of any positive length ends with the final frame, whatever view
-- the receiver had: after it the view holds under each name exactly what the sender's index holds, all
-- fields but the sequence, which the wire form leaves out, and it counts as complete.
pub exchange_completes :
    (protocol chunk : ℕ) (ix : Index) (index_id : Bytes) (e : Engine) (peer now : ℕ)
    → leb 1 protocol ≡ true
    → 0 < chunk
    → IsSound ix
    → let r =
        receive e peer now false
          (send_index protocol chunk ix false index_id (messages (select (λ fi. true) ix.files))) in
      (r.1 ≡ true)
      × ((n : FileName) → lookup n (view_of peer r.0.peers) ≡ content n ix.files)
      × (contains peer r.0.view_pending ≡ false)
unfolding send_index
exchange_completes protocol chunk ix index_id e peer now modern p sound =
    let fms : List FileMessage = messages (select (λ fi. true) ix.files) in
    let c =
      receive_full (suc (length fms)) chunk index_id (max_seq ix) fms e peer now p (omega arith) in
    rw modern (
      c.ended,
      λ n. ap (lookup n) c.stored ∙ exchanged chunk ix (view_of peer e.peers) n sound,
      c.settled,
    )

-- Frames that are not final, in the middle of an exchange.
streaming_pending :
    (e : Engine) (peer now : ℕ) (msgs : List IndexMsg)
    → All (λ m. m.final ≡ false) msgs
    → contains peer e.view_pending ≡ true
    → ((receive e peer now true msgs).1 ≡ false)
      × (contains peer (receive e peer now true msgs).0.view_pending ≡ true)
unfolding receive merge_index set_peer_index_append
streaming_pending e peer now [] partial h = (refl, h)
streaming_pending e peer now (msg ∷ msgs) partial h = rw (partial.0) (
    streaming_pending (set_peer_index_append e peer (received msg.files)) peer now msgs partial.1 h)

-- A full exchange that breaks off before its final frame leaves the peer's view marked as partial, after any
-- number of frames from the first on.
pub broken_exchange_pending :
    (e : Engine) (peer now : ℕ) (msg : IndexMsg) (msgs : List IndexMsg)
    → msg.update ≡ false
    → All (λ m. m.final ≡ false) (msg ∷ msgs)
    → ((receive e peer now false (msg ∷ msgs)).1 ≡ false)
      × (contains peer (receive e peer now false (msg ∷ msgs)).0.view_pending ≡ true)
unfolding receive merge_index set_peer_index begin_exchange
broken_exchange_pending e peer now msg msgs full partial =
    let f : Engine = set_peer_index (begin_exchange e peer) peer (received msg.files) false in
    let marked : contains peer f.view_pending ≡ true =
      ground (arith, contains-add peer peer e.view_pending, eq_refl peer) in
    rw (partial.0, full) (streaming_pending f peer now msgs partial.1 marked)
