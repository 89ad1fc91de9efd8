-- ===== src/Index/Batch.antt =====
-- index.go, `PutBatch`, `Delete` and `PruneTombstones`: atomicity, soundness, and what a delta sends
-- after any writes.
use cross_sync.Base.{
  ℕ, list_eq, nat_eq, All, Bool-cases, List, [], arith, inl, inr, none, refl, some, ◌<◌, ◌==◌, ◌∷◌,
  ◌≡◌, ◌⊎◌, Bool, false, true, ◌∙◌,
}
use cross_sync.Table.{Table, IsMap, delete, insert-IsMap, lookup, lookup-delete, lookup-insert}
use cross_sync.Index.Files.{FileInfo, FileName, Index, Result, err, ok}
use cross_sync.Index.Store.{
  exec, sequenced, upsert, without_tombstones, batch_loop, commit, counted, names_of, put_batch,
  transact,
}
use cross_sync.Index.Fresh.{
  Numbered, Numbered-mono, exec-files, exec-next_seq, fresh_above, sequenced-files, sequenced-grows,
  sequenced-used, upsert-Numbered, IsSound, touch-files, touch-next_seq,
}

-- Entries that wait for a sequence, as the engine and the scanner hand them over.
abbrev pub Unsequenced : List FileInfo → Type 0
Unsequenced = All (λ fi. fi.sequence ≡ 0)

-- Each row of the second table is a row of the first or has a sequence above `m`.
abbrev pub Grew : ℕ → Table FileName FileInfo → Table FileName FileInfo → Type 0
Grew m old files =
    (n : FileName)
    → (lookup n files ≡ lookup n old)
      ⊎ (lookup n files ≡ none)
      ⊎ ((fi : FileInfo) × (lookup n files ≡ some fi) × (m < fi.sequence))

pub Grew-upsert :
    (m : ℕ) (fi : FileInfo) (old files : Table FileName FileInfo)
    → m < fi.sequence
    → Grew m old files
    → Grew m old (upsert fi files)
Grew-upsert m fi old files h g n = elim (Bool-cases (fi.name == n)) [
  | inl e ↦ inr (inr (fi, rw (lookup-insert fi.name n fi files, e), h))
  | inr e ↦ rw (lookup-insert fi.name n fi files, e) (g n)
]

pub Grew-delete :
    (m : ℕ) (k : FileName) (old files : Table FileName FileInfo)
    → Grew m old files
    → Grew m old (delete k files)
Grew-delete m k old files g n = elim (Bool-cases (k == n)) [
  | inl e ↦ inr (inl (rw (lookup-delete k n files, e)))
  | inr e ↦ rw (lookup-delete k n files, e) (g n)
]

-- Pruning only drops rows, where each name has one row.
lookup-without_tombstones :
    (floor : ℕ) (n : FileName) (files : Table FileName FileInfo)
    → IsMap files
    → (lookup n (without_tombstones floor files).0 ≡ lookup n files)
      ⊎ (lookup n (without_tombstones floor files).0 ≡ none)
unfolding without_tombstones lookup
lookup-without_tombstones floor n [] u = inl refl
lookup-without_tombstones floor n ((k, g) ∷ files) u =
    ground (arith, lookup-without_tombstones floor n files u.1, (list_eq {A = ℕ}).equals_iff k n)

pub without_tombstones-IsMap :
    (floor : ℕ) (files : Table FileName FileInfo)
    → IsMap files
    → IsMap (without_tombstones floor files).0
unfolding without_tombstones
without_tombstones-IsMap floor [] u = tt
without_tombstones-IsMap floor ((k, g) ∷ files) u =
    ground
      (arith, without_tombstones-IsMap floor files u.1, lookup-without_tombstones floor k files u.1)

pub Grew-prune :
    (m floor : ℕ) (old files : Table FileName FileInfo)
    → IsMap files
    → Grew m old files
    → Grew m old (without_tombstones floor files).0
Grew-prune m floor old files u g n = elim (lookup-without_tombstones floor n files u) [
  | inl e ↦ rw e (g n)
  | inr e ↦ inr (inl e)
]

-- What holds of a table inside the batch, and of the index that counts for it.
record Inside (m : ℕ) (old : Table FileName FileInfo) (ix : Index) (files : Table FileName FileInfo)
    : Type 0 where
  unique : IsMap files
  numbered : Numbered ix.next_seq files
  above : m < ix.next_seq
  grew : Grew m old files
  kept : ix.files ≡ old
  base : Numbered ix.next_seq old

-- The outcome of the loop, and of what follows it.
abbrev Loop : ℕ → Table FileName FileInfo → Index × Result (Table FileName FileInfo) → Type 0
Loop m old (ix, ok files) = Inside m old ix files
Loop m old (ix, err e) = (m < ix.next_seq) × (ix.files ≡ old) × Numbered ix.next_seq old

Inside-step :
    (m : ℕ) (old files : Table FileName FileInfo) (ix : Index) (fi : FileInfo)
    → fi.sequence ≡ 0
    → Inside m old ix files
    → Inside m old (exec (sequenced ix fi).1).1 (upsert (sequenced ix fi).0 files)
Inside-step m old files ix fi zero_seq i =
    let moved : Index = (sequenced ix fi).1 in
    let fi' : FileInfo = (sequenced ix fi).0 in
    let used = sequenced-used ix fi (omega (arith, i.above)) in
    record {
      unique = insert-IsMap fi'.name fi' files i.unique;
      numbered = rw (exec-next_seq moved) (
          upsert-Numbered moved.next_seq fi' files used
            (Numbered-mono ix.next_seq moved.next_seq files (sequenced-grows ix fi) i.numbered));
      above = omega (arith, exec-next_seq moved, sequenced-grows ix fi, i.above);
      grew = Grew-upsert m fi' old files (fresh_above m ix fi zero_seq i.above) i.grew;
      kept = rw (exec-files moved, sequenced-files ix fi) i.kept;
      base =
          rw (exec-next_seq moved)
            (Numbered-mono ix.next_seq moved.next_seq old (sequenced-grows ix fi) i.base);
    }

batch_loop-Loop :
    (m : ℕ) (old files : Table FileName FileInfo) (ix : Index) (fis : List FileInfo)
    → Unsequenced fis
    → Inside m old ix files
    → Loop m old (batch_loop ix files fis)
unfolding batch_loop
batch_loop-Loop m old files ix [] z i = i
batch_loop-Loop m old files ix (fi ∷ fis) z i =
    let moved : Index = (sequenced ix fi).1 in
    let next = Inside-step m old files ix fi z.0 i in
    elim (Bool-cases (exec moved).0) [
      | inl failed ↦ rw failed (next.above, next.kept, next.base)
      | inr done ↦
          rw done
            (batch_loop-Loop m old (upsert (sequenced ix fi).0 files) (exec moved).1 fis z.1 next)
    ]

-- What a write operation leaves: a sound index whose rows are old ones or newly sequenced, and the
-- old table itself when it failed.
pub record Wrote (m : ℕ) (old : Index) (after : Index) (failed : Bool) : Type 0 where
  pub sound : IsSound after
  pub above : m < after.next_seq
  pub grew : Grew m old.files after.files
  pub atomic : failed ≡ true → after.files ≡ old.files

abbrev pub has_failed {ℓ} : {A : Type ℓ} → Result A → Bool
has_failed (ok a) = false
has_failed (err e) = true

Wrote-same :
    (m : ℕ) (old after : Index) (b : Bool)
    → IsMap old.files
    → Numbered after.next_seq old.files
    → m < after.next_seq
    → after.files ≡ old.files
    → Wrote m old after b
Wrote-same m old after b unique numbered above same = record {
  sound = record { unique = rw same unique; numbered = rw same numbered; started = omega arith };
  above = above;
  grew = λ n. inl (rw same);
  atomic = λ e. same;
}

commit-Wrote :
    (m : ℕ) (old : Index) (fis : List FileInfo) (r : Index × Result (Table FileName FileInfo))
    → IsMap old.files
    → Loop m old.files r
    → Wrote m old (commit fis r).0 (has_failed (commit fis r).1)
unfolding commit
commit-Wrote m old fis (ix, err e) u l = Wrote-same m old ix true u l.2 l.0 l.1
commit-Wrote m old fis (ix, ok files) u i = elim (Bool-cases (exec ix).0) [
  | inl failed ↦ rw failed (
      Wrote-same m old (exec ix).1 true u (rw (exec-next_seq ix) i.base)
        (rw (exec-next_seq ix) i.above) (exec-files ix ∙ i.kept))
  | inr done ↦
      let stored : Index = record (exec ix).1 { files = files } in
      let names = names_of fis in
      rw done (record {
        sound = record {
          unique = rw (touch-files names stored) i.unique;
          numbered =
              rw (touch-files names stored, touch-next_seq names stored)
                (rw (exec-next_seq ix) i.numbered);
          started = rw (touch-next_seq names stored) (omega (arith, exec-next_seq ix, i.above));
        };
        above = rw (touch-next_seq names stored) (omega (arith, exec-next_seq ix, i.above));
        grew = λ n. rw (touch-files names stored) (i.grew n);
        atomic = λ e. cc;
      })
]

transact-Wrote :
    (m : ℕ) (ix : Index) (fis : List FileInfo)
    → Unsequenced fis
    → m < ix.next_seq
    → IsSound ix
    → Wrote m ix (transact ix fis).0 (has_failed (transact ix fis).1)
unfolding transact
transact-Wrote m ix fis z above sound =
    let ix₁ : Index = (exec ix).1 in
    let ix₂ : Index = (exec ix₁).1 in
    let same₁ : ix₁.files ≡ ix.files = exec-files ix in
    let next₁ : ix₁.next_seq ≡ ix.next_seq = exec-next_seq ix in
    let same₂ : ix₂.files ≡ ix.files = exec-files ix₁ ∙ same₁ in
    let next₂ : ix₂.next_seq ≡ ix.next_seq = exec-next_seq ix₁ ∙ next₁ in
    elim (Bool-cases (exec ix).0) [
      | inl failed ↦
          rw failed
            (Wrote-same m ix ix₁ true sound.unique (rw next₁ sound.numbered) (rw next₁ above) same₁)
      | inr begun ↦ elim (Bool-cases (exec ix₁).0) [
        | inl failed ↦
            rw (begun, failed)
              (Wrote-same m ix ix₂ true sound.unique (rw next₂ sound.numbered) (rw next₂ above)
                same₂)
        | inr prepared ↦
            rw (begun, prepared)
              (commit-Wrote m ix fis (batch_loop ix₂ ix₂.files fis) sound.unique (
                batch_loop-Loop m ix.files ix₂.files ix₂ fis z (record {
                  unique = rw same₂ sound.unique;
                  numbered = rw (same₂, next₂) sound.numbered;
                  above = rw next₂ above;
                  grew = λ n. inl (rw same₂);
                  kept = same₂;
                  base = rw next₂ sound.numbered;
                })))
      ]
    ]

counted-Wrote :
    (m : ℕ) (old after : Index) (b : Bool) → Wrote m old after b → Wrote m old (counted after) b
counted-Wrote m old after b w = record {
  sound = record {
    unique = w.sound.unique;
    numbered = w.sound.numbered;
    started = w.sound.started;
  };
  above = w.above;
  grew = w.grew;
  atomic = w.atomic;
}

-- A batch of entries that wait for sequences keeps the index sound and only adds rows sequenced above
-- every marker `m` that was handed out before; where any of its statements fails, no row has changed.
pub put_batch-Wrote :
    (m : ℕ) (ix : Index) (fis : List FileInfo)
    → Unsequenced fis
    → m < ix.next_seq
    → IsSound ix
    → Wrote m ix (put_batch ix fis).0 (has_failed (put_batch ix fis).1)
unfolding put_batch
put_batch-Wrote m ix [] z above sound =
    Wrote-same m ix (counted ix) false sound.unique sound.numbered above refl
put_batch-Wrote m ix (fi ∷ fis) z above sound =
    counted-Wrote m ix _ _ (transact-Wrote m ix (fi ∷ fis) z above sound)
