-- ===== src/Engine/Execute/Copied.antt =====
-- engine.go, `Execute`: what the index says of a conflict copy.
use mathlib.Core.Path.{subst}
use cross_sync.Engine.Views.{hooked}
use cross_sync.Hash.{Bytes}
use cross_sync.Engine.Local.{next_version, store}
use cross_sync.Table.{lookup}
use cross_sync.Index.Files.{
  Index, FileInfo, FileName, ok, Error, Result, database, err, staging_failed,
}
use cross_sync.Index.Store.{put, sequenced, exec}
use cross_sync.Engine.Overwrite.{OverwritePlan}
use cross_sync.Base.{
  nat_eq, list_eq, false, some, true, ◌==◌, ◌≡◌, Bool-cases, List, Option, Option-cases, ap,
  eq_refl, if◌then◌else◌, inl, inr, none, refl, sym, ℕ, ◌∙◌,
}
use cross_sync.Index.Query.{get}
use cross_sync.Index.Fresh.{row_after, lookup-put}
use cross_sync.Engine.Execute.{
  DiskOps, Folder, archived, current_of, hashes_or_none, as_copy, conflict_entry, execute,
  index_copy,
}

-- Every row is as it was.
abbrev pub SameRows : Index → Index → Type 0
SameRows before after = (n : FileName) → lookup n after.files ≡ lookup n before.files

-- The entry of a copy: the stat is that of the copy, the version is a new one of the device on top of the
-- row's, and the hashes are those of the file before it was moved.
pub record IsCopy {S : Type 0} (d : DiskOps S) (plan : OverwritePlan) (f : Folder S)
    (after : Folder S) (out : FileInfo) : Type 0 where
  pub st : FileInfo
  pub moved : (d.move (archived d plan f.disk) plan.name plan.conflict_name).1 ≡ true
  pub seen : d.stat after.disk plan.conflict_name ≡ some st
  pub sized : out.size ≡ st.size
  pub hashed : (out.block_size, out.blocks) ≡ hashes_or_none (d.hash_file f.disk plan.name)
  pub bumped :
      out.version ≡ next_version f.engine.node_id (current_of (get f.engine.ix plan.conflict_name))
  pub own_row : lookup plan.conflict_name after.engine.ix.files ≡ some out
  pub other_rows :
      (n : FileName)
      → (plan.conflict_name == n) ≡ false
      → lookup n after.engine.ix.files ≡ lookup n f.engine.ix.files

put-sequenced :
    (ix : Index) (fi out : FileInfo) → (put ix fi).1 ≡ ok out → out ≡ (sequenced ix fi).0
unfolding put
put-sequenced ix fi out h = elim (Bool-cases (exec (sequenced ix fi).1).0) [
  | inl failed ↦ let no : err database ≡ ok out = rw failed at h in cc
  | inr works ↦
      let done : ok (sequenced ix fi).0 ≡ ok out = rw works at h in
      sym (ap (λ r. elim r [ err x ↦ out | ok y ↦ y ]) done)
]

module _ {S : Type 0} (d : DiskOps S) (plan : OverwritePlan) (f : Folder S) where
  -- Nothing is written but the entry of a copy.
  pub data Preserves : Folder S → Result (Option FileInfo) → Type 0 where
    no_copy :
        (after : Folder S)
        → plan.make_conflict_copy ≡ false
        → SameRows f.engine.ix after.engine.ix
        → Preserves after (ok none)
    failed_copy :
        (after : Folder S) (x : Error)
        → plan.make_conflict_copy ≡ true
        → SameRows f.engine.ix after.engine.ix
        → Preserves after (err x)
    copied :
        (after : Folder S) (out : FileInfo)
        → plan.make_conflict_copy ≡ true
        → IsCopy d plan f after out
        → Preserves after (ok (some out))

  module _ (disk : S) (asked : plan.make_conflict_copy ≡ true)
      (works : (d.move (archived d plan f.disk) plan.name plan.conflict_name).1 ≡ true) where
    abbrev hashes : ℕ × List Bytes
    hashes = hashes_or_none (d.hash_file f.disk plan.name)

    abbrev entry : FileInfo → FileInfo
    entry st =
        conflict_entry plan.conflict_name st
          (next_version f.engine.node_id (current_of (get f.engine.ix plan.conflict_name))) hashes

    stored-Preserves :
        (st : FileInfo) (r : Result FileInfo)
        → d.stat disk plan.conflict_name ≡ some st
        → (put f.engine.ix (entry st)).1 ≡ r
        → Preserves (record { engine = (store f.engine (entry st)).0; disk = disk }) (as_copy r)
    unfolding store hooked sequenced
    stored-Preserves st (err x) seen h = failed_copy _ x asked (λ n.
        lookup-put f.engine.ix (entry st) n
        ∙ ap (λ t. row_after plan.conflict_name f.engine.ix t n) h)
    stored-Preserves st (ok out) seen h =
        let same : out ≡ (sequenced f.engine.ix (entry st)).0 =
          put-sequenced f.engine.ix (entry st) out h in
        let row : (n : FileName)
            → lookup n (put f.engine.ix (entry st)).0.files
              ≡ (if plan.conflict_name == n then some out else lookup n f.engine.ix.files) =
          λ n.
            lookup-put f.engine.ix (entry st) n
            ∙ ap (λ t. row_after plan.conflict_name f.engine.ix t n) h in
        copied _ out asked (record {
          st = st;
          moved = works;
          seen = seen;
          sized = ap (λ t. t.size) same;
          hashed = ap (λ t. (t.block_size, t.blocks)) same;
          bumped = ap (λ t. t.version) same;
          own_row = row plan.conflict_name ∙ rw (eq_refl plan.conflict_name) refl;
          other_rows = λ n other. row n ∙ rw other refl;
        })

    index_copy-Preserves :
        Preserves
          (index_copy d plan hashes f.engine disk).0
          (index_copy d plan hashes f.engine disk).1
    unfolding index_copy store
    index_copy-Preserves = elim (Option-cases (d.stat disk plan.conflict_name)) [
      | inl unseen ↦ rw (index_copy, unseen) (failed_copy _ staging_failed asked (λ n. refl))
      | inr (st, seen) ↦
          rw (index_copy, seen) (stored-Preserves st (put f.engine.ix (entry st)).1 seen refl)
    ]

  -- `Execute` writes nothing to the index but a conflict copy, and only one that stands on the disk. Where no
  -- copy is asked for, and where the rename, the stat or the write fails, every row is as it was. Otherwise
  -- the entry that it returns is the copy's row: its size is the one on disk, its version is a new one of
  -- this device on top of the row's, its block size and hashes are those that the file had before it was
  -- archived and moved, and every other row is as it was.
  pub execute-Preserves : Preserves (execute d plan f).0 (execute d plan f).1
  unfolding execute
  execute-Preserves =
      let disk : S = archived d plan f.disk in
      let (moved, works) = d.move disk plan.name plan.conflict_name in
      elim (Bool-cases plan.make_conflict_copy) [
        | inr bare ↦
            let done : execute d plan f ≡ (record f { disk = disk }, ok none) = cc in
            subst (λ r. Preserves r.0 r.1) (sym done)
              (no_copy (record f { disk = disk }) bare (λ n. refl))
        | inl asked ↦ elim (Bool-cases works) [
          | inr stuck ↦
              let done : execute d plan f ≡ (record f { disk = moved }, err staging_failed) = cc in
              subst (λ r. Preserves r.0 r.1) (sym done)
                (failed_copy (record f { disk = moved }) staging_failed asked (λ n. refl))
          | inl there ↦
              let done : execute d plan f
                  ≡ index_copy d plan (hashes moved asked there) f.engine moved =
                cc in
              subst (λ r. Preserves r.0 r.1) (sym done) (index_copy-Preserves moved asked there)
        ]
      ]
