-- ===== src/Index/Gates.antt =====
-- index.go, the tables beside the files: peer markers, settling and missing.
use cross_sync.Base.{
  ℕ, Bool, List, Option, [], false, if◌then◌else◌, length, suc, true, zero, ◌+◌, ◌∷◌, nat_eq,
}
use cross_sync.Table.{Table, delete, insert, lookup}
use cross_sync.Hash.{Bytes}
use cross_sync.Index.Files.{
  Index, FileName, MissingState, PeerIndexState, Result, SettleState, database, err, ok,
}
use cross_sync.Index.Store.{exec, max_seq}
use cross_sync.Index.Query.{answer}

-- `GetPeerIndex`: `none` where the peer was never told.
unfoldable pub get_peer_index : Index → ℕ → Result (Option PeerIndexState)
get_peer_index ix peer = answer ix (lookup peer ix.peer_index)

unfoldable pub set_peer_index : Index → ℕ → Bytes → ℕ → Bytes → Index × Result (Unit {0})
unfolding exec
set_peer_index ix peer index_id max_seq session_id =
    let (failed, ix') = exec ix in
    let st : PeerIndexState = record {
      index_id = index_id;
      max_seq = max_seq;
      session_id = session_id;
    } in
    if failed
    then (ix', err database)
    else (record ix' { peer_index = insert peer st ix'.peer_index }, ok tt)

unfoldable pub remove_peer_index : Index → ℕ → Index × Result (Unit {0})
unfolding exec
remove_peer_index ix peer =
    let (failed, ix') = exec ix in
    if failed
    then (ix', err database)
    else (record ix' { peer_index = delete peer ix'.peer_index }, ok tt)

unfoldable pub settle_list : Index → Result (Table FileName SettleState)
settle_list ix = answer ix ix.settling

unfoldable pub missing_list : Index → Result (Table FileName MissingState)
missing_list ix = answer ix ix.missing

-- The statements of a replacing transaction: begin, delete, prepare, one insert for each row, commit.
-- With no row nothing is prepared.
unfoldable pub run_statements : ℕ → Index → Bool × Index
unfolding exec
run_statements zero ix = (false, ix)
run_statements (suc n) ix =
    let (failed, ix') = exec ix in
    let rest = run_statements n ix' in if failed then (true, ix') else rest

abbrev pub statements {ℓ} : {A : Type ℓ} → List A → ℕ
statements [] = 3
statements (x ∷ xs) = 4 + length (x ∷ xs)

unfoldable pub settle_replace : Index → Table FileName SettleState → Index × Result (Unit {0})
unfolding run_statements
settle_replace ix states =
    let (failed, ix') = run_statements (statements states) ix in
    if failed then (ix', err database) else (record ix' { settling = states }, ok tt)

unfoldable pub missing_replace : Index → Table FileName MissingState → Index × Result (Unit {0})
unfolding run_statements
missing_replace ix states =
    let (failed, ix') = run_statements (statements states) ix in
    if failed then (ix', err database) else (record ix' { missing = states }, ok tt)
