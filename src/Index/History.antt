-- ===== src/Index/History.antt =====
-- index.go: any history of writes, and the rows that a delta after a marker holds.
use cross_sync.Base.{
  ℕ, list_eq, nat_eq, List, [], ◌<◌, ◌∷◌, ◌≡◌, Bool-cases, arith, inl, inr, ◌∙◌, All, ap, refl,
  ◌==◌,
}
use cross_sync.Table.{Table, delete, delete-IsMap, IsMap}
use cross_sync.Index.Files.{FileInfo, FileName, Index}
use cross_sync.Index.Store.{
  put, prune_tombstones, put_batch, remove, exec, sequenced, upsert, counted, max_seq, touch,
  vacuum, without_tombstones,
}
use cross_sync.Index.Fresh.{
  IsSound, delete-Numbered, exec-files, exec-next_seq, fresh_above, put-IsSound, sequenced-files,
  sequenced-grows, touch-files, touch-next_seq, Numbered, prune-Numbered,
}
use cross_sync.Index.Batch.{
  Grew, Unsequenced, Grew-delete, Grew-upsert, Grew-prune, put_batch-Wrote,
  without_tombstones-IsMap,
}

-- One call of the index, as the engine makes it with entries that wait for a sequence.
pub data Write : Type 0 where
  puts : FileInfo → Write
  batches : List FileInfo → Write
  removes : FileName → Write
  prunes : ℕ → Write

abbrev pub Waits : Write → Type 0
Waits (puts fi) = fi.sequence ≡ 0
Waits (batches fis) = Unsequenced fis
Waits (removes n) = Unit
Waits (prunes floor) = Unit

unfoldable pub apply : Index → Write → Index
apply ix (puts fi) = (put ix fi).0
apply ix (batches fis) = (put_batch ix fis).0
apply ix (removes n) = (remove ix n).0
apply ix (prunes floor) = (prune_tombstones ix floor).0

unfoldable pub run : Index → List Write → Index
unfolding apply
run ix [] = ix
run ix (w ∷ ws) = run (apply ix w) ws

record Kept (m : ℕ) (old : Table FileName FileInfo) (ix : Index) : Type 0 where
  sound : IsSound ix
  above : m < ix.next_seq
  grew : Grew m old ix.files

Grew-trans : (m : ℕ) (a b c : Table FileName FileInfo) → Grew m a b → Grew m b c → Grew m a c
Grew-trans m a b c p q n = elim (q n) [
  | inl same ↦ elim (p n) [
    | inl e ↦ inl (same ∙ e)
    | inr (inl e) ↦ inr (inl (same ∙ e))
    | inr (inr (fi, e, h)) ↦ inr (inr (fi, same ∙ e, h))
  ]
  | inr changed ↦ inr changed
]

put-Kept :
    (m : ℕ) (old : Table FileName FileInfo) (ix : Index) (fi : FileInfo)
    → fi.sequence ≡ 0
    → Kept m old ix
    → Kept m old (put ix fi).0
unfolding put
put-Kept m old ix fi z k =
    let moved : Index = (sequenced ix fi).1 in
    let fi' : FileInfo = (sequenced ix fi).0 in
    let base : Index = (exec moved).1 in
    let stored : Index = record base { files = upsert fi' base.files } in
    let next : m < base.next_seq =
      omega (arith, exec-next_seq moved, sequenced-grows ix fi, k.above) in
    let rows : base.files ≡ ix.files = exec-files moved ∙ sequenced-files ix fi in
    record {
      sound = put-IsSound ix fi (omega (arith, k.above)) k.sound;
      above = ground (arith, touch-next_seq (fi'.name ∷ []) stored);
      grew = elim (Bool-cases (exec moved).0) [
        | inl failed ↦ rw (failed, rows) k.grew
        | inr done ↦
            let larger : m < fi'.sequence = fresh_above m ix fi z k.above in
            let all = Grew-upsert m fi' old ix.files larger k.grew in
            λ n. rw (done, touch-files (fi'.name ∷ []) stored, rows) (all n)
      ];
    }

Kept-of :
    (m : ℕ) (old files : Table FileName FileInfo) (next : ℕ) (after : Index)
    → after.files ≡ files
    → after.next_seq ≡ next
    → IsMap files
    → Numbered next files
    → m < next
    → Grew m old files
    → Kept m old after
Kept-of m old files next after f n unique numbered above grew = record {
  sound = record {
    unique = rw f unique;
    numbered = rw (f, n) numbered;
    started = rw n (omega arith);
  };
  above = rw n above;
  grew = λ k. rw f (grew k);
}

remove-Kept :
    (m : ℕ) (old : Table FileName FileInfo) (ix : Index) (name : FileName)
    → Kept m old ix
    → Kept m old (remove ix name).0
unfolding remove
remove-Kept m old ix name k =
    let base : Index = (exec ix).1 in
    let gone : Index = record base { files = delete name base.files } in
    let ns = name ∷ [] in
    elim (Bool-cases (exec ix).0) [
      | inl failed ↦ rw failed (
          Kept-of m old ix.files ix.next_seq (counted base) (exec-files ix) (exec-next_seq ix)
            k.sound.unique k.sound.numbered k.above k.grew)
      | inr done ↦ rw done (
          Kept-of m old (delete name ix.files) ix.next_seq (counted (touch ns gone))
            (touch-files ns gone ∙ ap (delete name) (exec-files ix))
            (touch-next_seq ns gone ∙ exec-next_seq ix) (delete-IsMap name ix.files k.sound.unique)
            (delete-Numbered ix.next_seq name ix.files k.sound.numbered) k.above
            (Grew-delete m name old ix.files k.grew))
    ]

vacuum_same :
    (pruned : ℕ) (ix : Index)
    → ((vacuum pruned ix).files ≡ ix.files) × ((vacuum pruned ix).next_seq ≡ ix.next_seq)
vacuum_same pruned ix = ground (arith, exec-files ix, exec-next_seq ix)

prune-Kept :
    (m : ℕ) (old : Table FileName FileInfo) (ix : Index) (floor : ℕ)
    → Kept m old ix
    → Kept m old (prune_tombstones ix floor).0
unfolding prune_tombstones
prune-Kept m old ix floor k =
    let base : Index = (exec ix).1 in
    let cut : Table FileName FileInfo × ℕ = without_tombstones floor base.files in
    let swept : Index = record base { files = cut.0 } in
    let left : Table FileName FileInfo = (without_tombstones floor ix.files).0 in
    elim (Bool-cases (floor == 0)) [
      | inl none_told ↦ rw none_told (
          Kept-of m old ix.files ix.next_seq (counted ix) refl refl k.sound.unique k.sound.numbered
            k.above k.grew)
      | inr told ↦ elim (Bool-cases (exec ix).0) [
        | inl failed ↦
            rw (told, failed)
              (Kept-of m old ix.files ix.next_seq (counted base) (exec-files ix) (exec-next_seq ix)
                k.sound.unique k.sound.numbered k.above k.grew)
        | inr done ↦
            rw (told, done)
              (Kept-of m old left ix.next_seq (counted (vacuum cut.1 swept))
                ((vacuum_same cut.1 swept).0
                  ∙ ap (λ t. (without_tombstones floor t).0) (exec-files ix))
                ((vacuum_same cut.1 swept).1 ∙ exec-next_seq ix)
                (without_tombstones-IsMap floor ix.files k.sound.unique)
                (prune-Numbered ix.next_seq floor ix.files k.sound.numbered) k.above
                (Grew-prune m floor old ix.files k.sound.unique k.grew))
      ]
    ]

apply-Kept :
    (m : ℕ) (old : Table FileName FileInfo) (ix : Index) (w : Write)
    → Waits w
    → Kept m old ix
    → Kept m old (apply ix w)
unfolding apply
apply-Kept m old ix (puts fi) z k = put-Kept m old ix fi z k
apply-Kept m old ix (batches fis) z k =
    let w = put_batch-Wrote m ix fis z k.above k.sound in
    record { sound = w.sound; above = w.above; grew = Grew-trans m old ix.files _ k.grew w.grew }
apply-Kept m old ix (removes n) z k = remove-Kept m old ix n k
apply-Kept m old ix (prunes floor) z k = prune-Kept m old ix floor k

run-Kept :
    (m : ℕ) (old : Table FileName FileInfo) (ix : Index) (ws : List Write)
    → All Waits ws
    → Kept m old ix
    → Kept m old (run ix ws)
unfolding run
run-Kept m old ix [] z k = k
run-Kept m old ix (w ∷ ws) z k = run-Kept m old (apply ix w) ws z.1 (apply-Kept m old ix w z.0 k)

-- After any history of writes of entries that wait for sequences, failed ones included, the index is
-- sound: one row for each name, under its own name, with a sequence that was handed out.
pub run-IsSound : (ix : Index) (ws : List Write) → All Waits ws → IsSound ix → IsSound (run ix ws)
unfolding max_seq
run-IsSound ix ws z sound =
    (run-Kept (max_seq ix) ix.files ix ws z
      (record { sound = sound; above = omega (arith, sound.started); grew = λ n. inl refl })).sound

-- After any history of writes of entries that wait for sequences on a sound index, failed writes
-- included, each row is as it was at the start or lies above the highest sequence of that time, so
-- that a delta after that marker lists it.
pub run-Grew :
    (ix : Index) (ws : List Write)
    → All Waits ws
    → IsSound ix
    → Grew (max_seq ix) ix.files (run ix ws).files
unfolding max_seq
run-Grew ix ws z sound =
    (run-Kept (max_seq ix) ix.files ix ws z
      (record { sound = sound; above = omega (arith, sound.started); grew = λ n. inl refl })).grew
