-- ===== src/Index/Store.antt =====
-- index.go, the writes. An operation returns the index after it and its result. `touched` collects the
-- names that the write hook is called with, newest last.
use cross_sync.Base.{
  ℕ, Bool, List, [], false, if◌then◌else◌, leb, ◌&&◌, ◌++◌, ◌+◌, ◌-◌, ◌==◌, ◌∷◌, nat_eq, list_eq,
}
use cross_sync.Table.{Table, delete, insert}
use cross_sync.Index.Files.{FileInfo, FileName, Index, Result, database, err, ok}

-- Whether the next statement fails.
unfoldable pub exec : Index → Bool × Index
exec ix = elim ix.faults [ [] ↦ (false, ix) | f ∷ fs ↦ (f, record ix { faults = fs }) ]

unfoldable pub alloc_sequence : Index → ℕ × Index
alloc_sequence ix = (ix.next_seq, record ix { next_seq = ix.next_seq + 1 })

unfoldable pub next_sequence : Index → ℕ × Index
unfolding alloc_sequence
next_sequence ix = alloc_sequence ix

unfoldable pub write_seq : Index → ℕ
write_seq ix = ix.writes

unfoldable pub max_seq : Index → ℕ
max_seq ix = ix.next_seq - 1

-- `touched`, which passes over the empty name.
unfoldable pub touch : List FileName → Index → Index
touch [] ix = ix
touch (n ∷ ns) ix =
    touch ns (if n == [] then ix else record ix { touched = ix.touched ++ (n ∷ []) })

-- `defer ix.writes.Add(1)`
abbrev pub counted : Index → Index
counted ix = record ix { writes = ix.writes + 1 }

-- `if fi.Sequence == 0 { fi.Sequence = ix.allocSequence() }`
unfoldable pub sequenced : Index → FileInfo → FileInfo × Index
sequenced ix fi =
    if fi.sequence == 0
    then (record fi { sequence = (alloc_sequence ix).0 }, (alloc_sequence ix).1)
    else (fi, ix)

-- The upsert statement on the files table.
abbrev pub upsert : FileInfo → Table FileName FileInfo → Table FileName FileInfo
upsert fi files = insert fi.name fi files

unfoldable pub put : Index → FileInfo → Index × Result FileInfo
put ix fi =
    let (fi', ix₁) = sequenced ix fi in
    let (failed, ix₂) = exec ix₁ in
    if failed
    then (counted ix₂, err database)
    else (counted (touch (fi'.name ∷ []) (record ix₂ { files = upsert fi' ix₂.files })), ok fi')

-- The loop of `PutBatch` inside its transaction: the table that a commit would leave, and the names.
unfoldable pub batch_loop :
    Index → Table FileName FileInfo → List FileInfo → Index × Result (Table FileName FileInfo)
batch_loop ix files [] = (ix, ok files)
batch_loop ix files (fi ∷ fis) =
    let (fi', ix₁) = sequenced ix fi in
    let (failed, ix₂) = exec ix₁ in
    let rest = batch_loop ix₂ (upsert fi' files) fis in if failed then (ix₂, err database) else rest

abbrev pub names_of : List FileInfo → List FileName
names_of [] = []
names_of (fi ∷ fis) = fi.name ∷ names_of fis

-- The commit, after the loop.
unfoldable pub commit :
    List FileInfo → Index × Result (Table FileName FileInfo) → Index × Result (Unit {0})
commit fis (ix, err e) = (ix, err e)
commit fis (ix, ok files) =
    let (failed, ix') = exec ix in
    if failed
    then (ix', err database)
    else (touch (names_of fis) (record ix' { files = files }), ok tt)

-- Begin, prepare, the loop, commit. Every failure rolls the table back.
unfoldable pub transact : Index → List FileInfo → Index × Result (Unit {0})
transact ix fis =
    let (failed, ix₁) = exec ix in
    if failed
    then (ix₁, err database)
    else (let (unprepared, ix₂) = exec ix₁ in
        if unprepared then (ix₂, err database) else commit fis (batch_loop ix₂ ix₂.files fis))

abbrev pub then_count : Index × Result (Unit {0}) → Index × Result (Unit {0})
then_count (ix, r) = (counted ix, r)

unfoldable pub put_batch : Index → List FileInfo → Index × Result (Unit {0})
put_batch ix [] = (counted ix, ok tt)
put_batch ix (fi ∷ fis) = then_count (transact ix (fi ∷ fis))

-- `Delete`
unfoldable pub remove : Index → FileName → Index × Result (Unit {0})
remove ix name =
    let (failed, ix') = exec ix in
    if failed
    then (counted ix', err database)
    else (counted (touch (name ∷ []) (record ix' { files = delete name ix'.files })), ok tt)

-- `DELETE FROM files WHERE deleted=1 AND sequence<=?`, and how many rows it met.
unfoldable pub without_tombstones : ℕ → Table FileName FileInfo → Table FileName FileInfo × ℕ
without_tombstones floor [] = ([], 0)
without_tombstones floor ((n, fi) ∷ files) =
    let (rest, pruned) = without_tombstones floor files in
    if fi.deleted && leb fi.sequence floor then (rest, pruned + 1) else ((n, fi) ∷ rest, pruned)

-- `VACUUM`, whose failure is ignored.
abbrev pub vacuum : ℕ → Index → Index
vacuum pruned ix = if pruned == 0 then ix else (exec ix).1

-- The hook is not called.
unfoldable pub prune_tombstones : Index → ℕ → Index × Result ℕ
prune_tombstones ix floor =
    if floor == 0
    then (counted ix, ok 0)
    else (let (failed, ix') = exec ix in
        if failed
        then (counted ix', err database)
        else (let (files, pruned) = without_tombstones floor ix'.files in
            (counted (vacuum pruned (record ix' { files = files })), ok pruned)))
