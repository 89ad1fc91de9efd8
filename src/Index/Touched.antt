-- ===== src/Index/Touched.antt =====
-- index.go, the write hook: the names it is called with cover every row that a write changed.
use cross_sync.Index.Batch.{has_failed, Unsequenced, put_batch-Wrote}
use cross_sync.Base.{
  ℕ, list_eq, nat_eq, Bool-cases, List, [], arith, false, inl, inr, refl, ◌++◌, ◌==◌, ◌||◌, ◌∷◌,
  ◌≡◌, ◌≢◌, Option, sym, ap, if◌then◌else◌, ◌∙◌,
}
use cross_sync.Table.{Table, contains, lookup, lookup-delete, delete, lookup-insert}
use cross_sync.Index.Files.{FileInfo, FileName, Index, Result, err, ok}
use cross_sync.Index.Store.{
  exec, touch, put, remove, sequenced, upsert, batch_loop, commit, names_of, put_batch, transact,
  alloc_sequence,
}
use cross_sync.Index.Fresh.{exec-files, sequenced-files, touch-files, IsSound}

-- A named row that the hook was not told of is as it was.
abbrev pub Announced : Table FileName FileInfo → Index → Type 0
Announced old ix =
    (n : FileName) → n ≢ [] → contains n ix.touched ≡ false → lookup n ix.files ≡ lookup n old

contains-snoc :
    (n m : FileName) (ns : List FileName) → contains n (ns ++ (m ∷ [])) ≡ (contains n ns || m == n)
unfolding contains
contains-snoc n m [] = ground arith
contains-snoc n m (k ∷ ns) = ground (arith, contains-snoc n m ns)

touch-touched :
    (ns : List FileName) (ix : Index) (n : FileName)
    → n ≢ []
    → contains n (touch ns ix).touched ≡ (contains n ns || contains n ix.touched)
unfolding touch contains
touch-touched [] ix n real = refl
touch-touched (m ∷ ns) ix n real = elim (Bool-cases (m == [])) [
  | inl e ↦ ground (
    arith,
    touch-touched ns ix n real,
    (list_eq {A = ℕ}).equals_iff m [],
    (list_eq {A = ℕ}).equals_iff m n,
  )
  | inr e ↦ ground (
    arith,
    touch-touched ns (record ix { touched = ix.touched ++ (m ∷ []) }) n real,
    contains-snoc n m ix.touched,
  )
]

sequenced-name : (ix : Index) (fi : FileInfo) → (sequenced ix fi).0.name ≡ fi.name
unfolding sequenced
sequenced-name ix fi = ground arith

-- And so for a put and a delete.
pub put-Announced : (ix : Index) (fi : FileInfo) → Announced ix.files (put ix fi).0
unfolding put contains
put-Announced ix fi n real quiet =
    let moved : Index = (sequenced ix fi).1 in
    let fi' : FileInfo = (sequenced ix fi).0 in
    let base : Index = (exec moved).1 in
    let stored : Index = record base { files = upsert fi' base.files } in
    ground (
      arith,
      exec-files moved,
      sequenced-files ix fi,
      sequenced-name ix fi,
      touch-files (fi'.name ∷ []) stored,
      touch-touched (fi'.name ∷ []) stored n real,
      lookup-insert fi'.name n fi' ix.files,
    )

pub remove-Announced : (ix : Index) (name : FileName) → Announced ix.files (remove ix name).0
unfolding remove contains
remove-Announced ix name n real quiet =
    let base : Index = (exec ix).1 in
    let gone : Index = record base { files = delete name base.files } in
    ground (
      arith,
      exec-files ix,
      touch-files (name ∷ []) gone,
      touch-touched (name ∷ []) gone n real,
      lookup-delete name n ix.files,
    )

-- What the loop of a batch leaves of the rows it was not given.
abbrev Untold : FileName → Option FileInfo → Index × Result (Table FileName FileInfo) → Type 0
Untold n row (ix, ok files) = lookup n files ≡ row
Untold n row (ix, err x) = Unit

batch_loop-Untold :
    (ix : Index) (files : Table FileName FileInfo) (fis : List FileInfo) (n : FileName)
    → contains n (names_of fis) ≡ false
    → Untold n (lookup n files) (batch_loop ix files fis)
unfolding batch_loop contains
batch_loop-Untold ix files [] n quiet = refl
batch_loop-Untold ix files (fi ∷ fis) n quiet =
    let moved : Index = (sequenced ix fi).1 in
    let fi' : FileInfo = (sequenced ix fi).0 in
    let other : lookup n (upsert fi' files) ≡ lookup n files =
      ground (arith, sequenced-name ix fi, lookup-insert fi'.name n fi' files) in
    elim (Bool-cases (exec moved).0) [
      | inl failed ↦ rw failed tt
      | inr done ↦
          rw (done, sym other)
            (batch_loop-Untold (exec moved).1 (upsert fi' files) fis n (ground arith))
    ]

commit-Announced :
    (fis : List FileInfo) (old : Table FileName FileInfo)
    (r : Index × Result (Table FileName FileInfo)) (n : FileName)
    → n ≢ []
    → (contains n (names_of fis) ≡ false → Untold n (lookup n old) r)
    → has_failed (commit fis r).1 ≡ false
    → contains n (commit fis r).0.touched ≡ false
    → lookup n (commit fis r).0.files ≡ lookup n old
unfolding commit
commit-Announced fis old (ix, err x) n real u worked quiet = cc
commit-Announced fis old (ix, ok files) n real u worked quiet =
    let stored : Index = record (exec ix).1 { files = files } in
    ground (arith, touch-files (names_of fis) stored, touch-touched (names_of fis) stored n real)

transact-Announced :
    (ix : Index) (fis : List FileInfo) (n : FileName)
    → n ≢ []
    → has_failed (transact ix fis).1 ≡ false
    → contains n (transact ix fis).0.touched ≡ false
    → lookup n (transact ix fis).0.files ≡ lookup n ix.files
unfolding transact
transact-Announced ix fis n real worked quiet =
    let ix₁ : Index = (exec ix).1 in
    let ix₂ : Index = (exec ix₁).1 in
    let r = batch_loop ix₂ ix₂.files fis in
    let done = commit-Announced fis ix₂.files r n real (batch_loop-Untold ix₂ ix₂.files fis n) in
    ground (arith, done, exec-files ix, exec-files ix₁)

-- The hook is told of every row that a batch of entries that wait for sequences changes, whether the
-- batch works or fails: a named row that it was not told of is as it was.
pub put_batch-Announced :
    (ix : Index) (fis : List FileInfo)
    → Unsequenced fis
    → IsSound ix
    → Announced ix.files (put_batch ix fis).0
unfolding put_batch
put_batch-Announced ix [] z sound n real quiet = refl
put_batch-Announced ix (fi ∷ fis) z sound n real quiet =
    elim (Bool-cases (has_failed (transact ix (fi ∷ fis)).1)) [
      | inl failed ↦
          let w = put_batch-Wrote 0 ix (fi ∷ fis) z sound.started sound in
          ap (lookup n) (w.atomic failed)
      | inr worked ↦ transact-Announced ix (fi ∷ fis) n real worked quiet
    ]

touch-readable : (ns : List FileName) (ix : Index) → (touch ns ix).readable ≡ ix.readable
unfolding touch
touch-readable [] ix = refl
touch-readable (n ∷ ns) ix =
    touch-readable ns (if n == [] then ix else record ix { touched = ix.touched ++ (n ∷ []) })
    ∙ ground arith

pub exec-readable : (ix : Index) → (exec ix).1.readable ≡ ix.readable
unfolding exec
exec-readable ix = ground arith

sequenced-readable : (ix : Index) (fi : FileInfo) → (sequenced ix fi).1.readable ≡ ix.readable
unfolding sequenced alloc_sequence
sequenced-readable ix fi = ground arith

-- No write changes whether the index answers.
pub put-readable : (ix : Index) (fi : FileInfo) → (put ix fi).0.readable ≡ ix.readable
unfolding put
put-readable ix fi =
    let moved : Index = (sequenced ix fi).1 in
    let fi' : FileInfo = (sequenced ix fi).0 in
    let base : Index = (exec moved).1 in
    ground (
      arith,
      exec-readable moved,
      sequenced-readable ix fi,
      touch-readable (fi'.name ∷ []) (record base { files = upsert fi' base.files }),
    )

pub remove-readable : (ix : Index) (name : FileName) → (remove ix name).0.readable ≡ ix.readable
unfolding remove
remove-readable ix name =
    let base : Index = (exec ix).1 in
    ground (
      arith,
      exec-readable ix,
      touch-readable (name ∷ []) (record base { files = delete name base.files }),
    )

batch_loop-readable :
    (ix : Index) (files : Table FileName FileInfo) (fis : List FileInfo)
    → (batch_loop ix files fis).0.readable ≡ ix.readable
unfolding batch_loop
batch_loop-readable ix files [] = refl
batch_loop-readable ix files (fi ∷ fis) =
    let moved : Index = (sequenced ix fi).1 in
    ground (
      arith,
      exec-readable moved,
      sequenced-readable ix fi,
      batch_loop-readable (exec moved).1 (upsert (sequenced ix fi).0 files) fis,
    )

commit-readable :
    (fis : List FileInfo) (r : Index × Result (Table FileName FileInfo))
    → (commit fis r).0.readable ≡ r.0.readable
unfolding commit
commit-readable fis (ix, err x) = refl
commit-readable fis (ix, ok files) =
    ground (
      arith,
      exec-readable ix,
      touch-readable (names_of fis) (record (exec ix).1 { files = files }),
    )

pub put_batch-readable :
    (ix : Index) (fis : List FileInfo) → (put_batch ix fis).0.readable ≡ ix.readable
unfolding put_batch transact
put_batch-readable ix [] = refl
put_batch-readable ix (fi ∷ fis) =
    let ix₁ : Index = (exec ix).1 in
    let ix₂ : Index = (exec ix₁).1 in
    ground (
      arith,
      exec-readable ix,
      exec-readable ix₁,
      batch_loop-readable ix₂ ix₂.files (fi ∷ fis),
      commit-readable (fi ∷ fis) (batch_loop ix₂ ix₂.files (fi ∷ fis)),
    )
