-- ===== src/Index/Written.antt =====
-- index.go, `PutBatch`: what a batch that succeeds has stored.
use mathlib.Core.Option
use cross_sync.Base.{
  list_eq, nat_eq, List, Option, [], arith, if◌then◌else◌, refl, some, ◌==◌, ◌∷◌, ◌≡◌,
}
use cross_sync.Table.{Table, lookup, lookup-insert}
use cross_sync.Index.Files.{FileInfo, FileName, Index, Result, err, ok}
use cross_sync.Index.Store.{
  batch_loop, commit, exec, names_of, put_batch, sequenced, transact, upsert,
}
use cross_sync.Index.Fresh.{exec-files, sequenced-name, touch-files}

-- An entry but for its sequence, which is local to the index.
abbrev pub unnumbered : FileInfo → FileInfo
unnumbered fi = record fi { sequence = 0 }

abbrev pub content : FileName → Table FileName FileInfo → Option FileInfo
content n files = Option.map unnumbered (lookup n files)

-- The last of the entries under a name, or what was there before.
abbrev pub latest : FileName → List FileInfo → Option FileInfo → Option FileInfo
latest n [] old = old
latest n (fi ∷ fis) old = latest n fis (if fi.name == n then some (unnumbered fi) else old)

sequenced-content : (ix : Index) (fi : FileInfo) → unnumbered (sequenced ix fi).0 ≡ unnumbered fi
unfolding sequenced
sequenced-content ix fi = ground arith

content-upsert :
    (ix : Index) (fi : FileInfo) (files : Table FileName FileInfo) (n : FileName)
    → content n (upsert (sequenced ix fi).0 files)
      ≡ (if fi.name == n then some (unnumbered fi) else content n files)
content-upsert ix fi files n = ground (
  arith,
  lookup-insert (sequenced ix fi).0.name n (sequenced ix fi).0 files,
  sequenced-name ix fi,
  sequenced-content ix fi,
)

batch_loop-content :
    (ix : Index) (files : Table FileName FileInfo) (fis : List FileInfo)
    (done : Table FileName FileInfo) (n : FileName)
    → (batch_loop ix files fis).1 ≡ ok done
    → content n done ≡ latest n fis (content n files)
unfolding batch_loop
batch_loop-content ix files [] done n h = ground arith
batch_loop-content ix files (fi ∷ fis) done n h =
    let moved : Index = (sequenced ix fi).1 in
    ground (
      arith,
      content-upsert ix fi files n,
      batch_loop-content (exec moved).1 (upsert (sequenced ix fi).0 files) fis done n,
    )

commit-content :
    (fis : List FileInfo) (r : Index × Result (Table FileName FileInfo))
    → (commit fis r).1 ≡ ok tt
    → (done : Table FileName FileInfo) × (r.1 ≡ ok done) × ((commit fis r).0.files ≡ done)
unfolding commit
commit-content fis (ix, err e) h = cc
commit-content fis (ix, ok files) h =
    (files, refl, ground (arith, touch-files (names_of fis) (record (exec ix).1 { files = files })))

transact-content :
    (ix : Index) (fis : List FileInfo) (n : FileName)
    → (transact ix fis).1 ≡ ok tt
    → content n (transact ix fis).0.files ≡ latest n fis (content n ix.files)
unfolding transact
transact-content ix fis n h =
    let ix₁ : Index = (exec ix).1 in
    let ix₂ : Index = (exec ix₁).1 in
    ground (
      arith,
      exec-files ix,
      exec-files ix₁,
      commit-content fis (batch_loop ix₂ ix₂.files fis),
      batch_loop-content ix₂ ix₂.files fis (commit fis (batch_loop ix₂ ix₂.files fis)).0.files n,
    )

-- A batch that succeeds leaves, under each name, the last entry of the batch with that name, all
-- fields but the sequence; a name outside the batch keeps its row.
pub content-put_batch :
    (ix : Index) (fis : List FileInfo) (n : FileName)
    → (put_batch ix fis).1 ≡ ok tt
    → content n (put_batch ix fis).0.files ≡ latest n fis (content n ix.files)
unfolding put_batch
content-put_batch ix [] n h = refl
content-put_batch ix (fi ∷ fis) n h = transact-content ix (fi ∷ fis) n h
