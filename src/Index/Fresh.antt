-- ===== src/Index/Fresh.antt =====
-- index.go: what the writes keep and change, and the sequence numbers that delta exchanges rest on.
use cross_sync.Base.{
  ℕ, list_eq, nat_eq, List, Option, [], arith, if◌then◌else◌, refl, some, ◌++◌, ◌<◌, ◌==◌, ◌∷◌, ◌≡◌,
  ◌≤◌, Bool-cases, inl, inr,
}
use cross_sync.Table.{Table, IsMap, delete, insert, lookup, lookup-insert, insert-IsMap}
use cross_sync.Index.Files.{FileInfo, FileName, Index, Result, err, ok}
use cross_sync.Index.Store.{
  put, touch, upsert, without_tombstones, alloc_sequence, exec, max_seq, sequenced,
}

-- Each row stands under its own name and has a sequence that was handed out already.
abbrev pub Numbered : ℕ → Table FileName FileInfo → Type 0
Numbered next [] = Unit {0}
Numbered next ((n, fi) ∷ files) = (fi.name ≡ n) × (fi.sequence < next) × Numbered next files

pub record IsSound (ix : Index) : Type 0 where
  pub unique : IsMap ix.files
  pub numbered : Numbered ix.next_seq ix.files
  pub started : 0 < ix.next_seq

pub Numbered-mono :
    (m n : ℕ) (files : Table FileName FileInfo) → m ≤ n → Numbered m files → Numbered n files
Numbered-mono m n [] h u = tt
Numbered-mono m n ((k, fi) ∷ files) h u = (u.0, omega arith, Numbered-mono m n files h u.2)

pub upsert-Numbered :
    (next : ℕ) (fi : FileInfo) (files : Table FileName FileInfo)
    → fi.sequence < next
    → Numbered next files
    → Numbered next (upsert fi files)
unfolding insert
upsert-Numbered next fi [] h u = (refl, h, tt)
upsert-Numbered next fi ((k, g) ∷ files) h u =
    ground (arith, upsert-Numbered next fi files h u.2, (list_eq {A = ℕ}).equals_iff k fi.name)

pub delete-Numbered :
    (next : ℕ) (n : FileName) (files : Table FileName FileInfo)
    → Numbered next files
    → Numbered next (delete n files)
unfolding delete
delete-Numbered next n [] u = tt
delete-Numbered next n ((k, g) ∷ files) u = ground (arith, delete-Numbered next n files u.2)

pub prune-Numbered :
    (next floor : ℕ) (files : Table FileName FileInfo)
    → Numbered next files
    → Numbered next (without_tombstones floor files).0
unfolding without_tombstones
prune-Numbered next floor [] u = tt
prune-Numbered next floor ((k, g) ∷ files) u = ground (arith, prune-Numbered next floor files u.2)

-- A touch changes the hook's record only.
pub touch-files : (ns : List FileName) (ix : Index) → (touch ns ix).files ≡ ix.files
unfolding touch
touch-files [] ix = refl
touch-files (n ∷ ns) ix =
    ground
      (arith, touch-files ns ix, touch-files ns (record ix { touched = ix.touched ++ (n ∷ []) }))

pub touch-next_seq : (ns : List FileName) (ix : Index) → (touch ns ix).next_seq ≡ ix.next_seq
unfolding touch
touch-next_seq [] ix = refl
touch-next_seq (n ∷ ns) ix = ground (
  arith,
  touch-next_seq ns ix,
  touch-next_seq ns (record ix { touched = ix.touched ++ (n ∷ []) }),
)

-- A statement changes no table and hands out no sequence.
pub exec-files : (ix : Index) → (exec ix).1.files ≡ ix.files
unfolding exec
exec-files ix = ground arith

pub exec-next_seq : (ix : Index) → (exec ix).1.next_seq ≡ ix.next_seq
unfolding exec
exec-next_seq ix = ground arith

-- What `sequenced` hands on: the entry but for its sequence, which is then a used one.
pub sequenced-name : (ix : Index) (fi : FileInfo) → (sequenced ix fi).0.name ≡ fi.name
unfolding sequenced
sequenced-name ix fi = ground arith

pub sequenced-files : (ix : Index) (fi : FileInfo) → (sequenced ix fi).1.files ≡ ix.files
unfolding sequenced alloc_sequence
sequenced-files ix fi = ground arith

pub sequenced-grows : (ix : Index) (fi : FileInfo) → ix.next_seq ≤ (sequenced ix fi).1.next_seq
unfolding sequenced alloc_sequence
sequenced-grows ix fi = ground arith

pub sequenced-used :
    (ix : Index) (fi : FileInfo)
    → fi.sequence < ix.next_seq
    → (sequenced ix fi).0.sequence < (sequenced ix fi).1.next_seq
unfolding sequenced alloc_sequence
sequenced-used ix fi h = ground arith

-- An entry without a sequence gets one above all that were handed out.
pub sequenced-fresh :
    (ix : Index) (fi : FileInfo)
    → fi.sequence ≡ 0
    → 0 < ix.next_seq
    → max_seq ix < (sequenced ix fi).0.sequence
unfolding sequenced alloc_sequence max_seq
sequenced-fresh ix fi h pos = ground arith

pub fresh_above :
    (m : ℕ) (ix : Index) (fi : FileInfo)
    → fi.sequence ≡ 0
    → m < ix.next_seq
    → m < (sequenced ix fi).0.sequence
unfolding sequenced alloc_sequence
fresh_above m ix fi h above = ground arith

-- The row that `put` leaves under each name, on both of its outcomes.
abbrev pub row_after : FileName → Index → Result FileInfo → FileName → Option FileInfo
row_after name ix (ok fi) j = if name == j then some fi else lookup j ix.files
row_after name ix (err e) j = lookup j ix.files

-- A put that succeeds leaves the entry that it returns under its name and every other row alone; one
-- that fails leaves every row alone.
pub lookup-put :
    (ix : Index) (fi : FileInfo) (j : FileName)
    → lookup j (put ix fi).0.files ≡ row_after fi.name ix (put ix fi).1 j
unfolding put
lookup-put ix fi j =
    let moved : Index = (sequenced ix fi).1 in
    let fi' : FileInfo = (sequenced ix fi).0 in
    let base : Index = (exec moved).1 in
    ground (
      arith,
      exec-files moved,
      sequenced-files ix fi,
      sequenced-name ix fi,
      touch-files (fi'.name ∷ []) (record base { files = upsert fi' base.files }),
      lookup-insert fi'.name j fi' base.files,
    )

-- A put keeps the index sound, whether it succeeds or not, if the entry's sequence is a used one or 0.
pub put-IsSound :
    (ix : Index) (fi : FileInfo) → fi.sequence < ix.next_seq → IsSound ix → IsSound (put ix fi).0
unfolding put
put-IsSound ix fi used sound =
    let moved : Index = (sequenced ix fi).1 in
    let fi' : FileInfo = (sequenced ix fi).0 in
    let base : Index = (exec moved).1 in
    let stored : Index = record base { files = upsert fi' base.files } in
    let rows : IsMap base.files = rw (exec-files moved, sequenced-files ix fi) sound.unique in
    let numbers : Numbered base.next_seq base.files =
      rw (exec-next_seq moved, exec-files moved, sequenced-files ix fi)
        (Numbered-mono ix.next_seq moved.next_seq ix.files (sequenced-grows ix fi)
          sound.numbered) in
    let small : fi'.sequence < base.next_seq =
      rw (exec-next_seq moved) (sequenced-used ix fi used) in
    elim (Bool-cases (exec moved).0) [
      | inl failed ↦
          rw failed (record { unique = rows; numbered = numbers; started = omega (arith, small) })
      | inr done ↦ rw done (record {
        unique =
            rw (touch-files (fi'.name ∷ []) stored) (insert-IsMap fi'.name fi' base.files rows);
        numbered =
            rw (touch-files (fi'.name ∷ []) stored, touch-next_seq (fi'.name ∷ []) stored)
              (upsert-Numbered base.next_seq fi' base.files small numbers);
        started = rw (touch-next_seq (fi'.name ∷ []) stored) (omega (arith, small));
      })
    ]
