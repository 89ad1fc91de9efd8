-- ===== src/Pull/Donors/Rows.antt =====
-- block_reuse.go, `dirDonors`: the rows that the walk of a directory meets are rows of the index.
use cross_sync.Text.{slash, lex_lt}
use cross_sync.Table.{Table}
use cross_sync.Hash.{Bytes}
use cross_sync.Engine.State.{Engine}
use cross_sync.Index.Query.{
  split_last, in_range, list_all, list_prefix, place_desc, select, sort_desc,
}
use cross_sync.Index.Files.{FileName, FileInfo, Index, database, err, ok}
use cross_sync.Pull.Donors.{found_rows, rows_of_dir}
use cross_sync.Base.{
  nat_eq, list_eq, All, Bool, Bool-cases, List, Option-cases, [], get_elem?, if◌then◌else◌, inl,
  inr, length, refl, some, suc, true, false, ℕ, ◌++◌, ◌+◌, ◌==◌, ◌∷◌, ◌≡◌,
}

-- A row of the table.
abbrev pub IsRow : Table FileName FileInfo → FileInfo → Type 0
IsRow files fi = (k : ℕ) × (n : FileName) × (get_elem? files k ≡ some (n, fi))

-- A row of the engine's index.
abbrev pub IsIndexed : Engine → FileInfo → Type 0
IsIndexed e fi = IsRow e.ix.files fi

All-weaken :
    (P Q : FileInfo → Type 0)
    → ((fi : FileInfo) → P fi → Q fi)
    → (fis : List FileInfo) → All P fis
    → All Q fis
All-weaken P Q f [] all = tt
All-weaken P Q f (fi ∷ fis) all = (f fi all.0, All-weaken P Q f fis all.1)

older-IsRow :
    (n : FileName) (g fi : FileInfo) (files : Table FileName FileInfo)
    → IsRow files fi
    → IsRow ((n, g) ∷ files) fi
older-IsRow n g fi files (k, m, at) = (suc k, m, at)

select-rows :
    (p : FileInfo → Bool) (files : Table FileName FileInfo) → All (IsRow files) (select p files)
unfolding select
select-rows p [] = tt
select-rows p ((n, fi) ∷ files) =
    let rest : All (IsRow ((n, fi) ∷ files)) (select p files) =
      All-weaken (IsRow files) (IsRow ((n, fi) ∷ files)) (λ g. older-IsRow n fi g files)
        (select p files) (select-rows p files) in
    elim (Bool-cases (p fi)) [
      | inl kept ↦ rw kept ((0, n, refl), rest)
      | inr passed ↦ rw passed rest
    ]

All-answer :
    (P : FileInfo → Type 0) (b : Bool) (fis : List FileInfo)
    → All P fis
    → All P (found_rows (if b then ok fis else err database))
All-answer P true fis all = all
All-answer P false fis all = tt

All-when :
    (P : FileInfo → Type 0) (b : Bool) (x y : List FileInfo)
    → All P x
    → All P y
    → All P (if b then x else y)
All-when P true x y p q = p
All-when P false x y p q = q

place_desc-rows :
    (P : FileInfo → Type 0) (fi : FileInfo) (fis : List FileInfo)
    → P fi
    → All P fis
    → All P (place_desc fi fis)
unfolding place_desc
place_desc-rows P fi [] p all = (p, tt)
place_desc-rows P fi (g ∷ fis) p all = elim (Bool-cases (lex_lt fi.name g.name)) [
  | inl later ↦ rw later (all.0, place_desc-rows P fi fis p all.1)
  | inr here ↦ rw here (p, all)
]

sort_desc-rows : (P : FileInfo → Type 0) (fis : List FileInfo) → All P fis → All P (sort_desc fis)
unfolding sort_desc
sort_desc-rows P [] all = tt
sort_desc-rows P (fi ∷ fis) all =
    place_desc-rows P fi (sort_desc fis) all.0 (sort_desc-rows P fis all.1)

list_prefix-rows :
    (ix : Index) (prefix : Bytes) → All (IsRow ix.files) (found_rows (list_prefix ix prefix))
unfolding list_prefix
list_prefix-rows ix prefix = elim (Option-cases (split_last prefix)) [
  | inl short ↦ rw (list_prefix, short) tt
  | inr ((dir, c), split) ↦
      rw (list_prefix, split)
        (elim (Bool-cases (c == slash)) [
          | inl below ↦ rw below (
              All-answer (IsRow ix.files) ix.readable _ (
                sort_desc-rows (IsRow ix.files)
                  (select (in_range prefix (dir ++ ((c + 1) ∷ []))) ix.files)
                  (select-rows (in_range prefix (dir ++ ((c + 1) ∷ []))) ix.files)))
          | inr other ↦ rw other tt
        ])
]

pub rows_of_dir-rows : (e : Engine) (dir : FileName) → All (IsIndexed e) (rows_of_dir e dir)
unfolding list_all
rows_of_dir-rows e dir =
    All-when (IsIndexed e) (length dir == 0) (found_rows (list_all e.ix)) _
      (All-answer (IsIndexed e) e.ix.readable _ (select-rows (λ fi. true) e.ix.files))
      (list_prefix-rows e.ix (dir ++ (slash ∷ [])))
