-- ===== src/Index/Query.antt =====
-- index.go, the reads. A query fails as a whole when the database does not answer.
use mathlib.Core.Option
use cross_sync.Base.{
  ℕ, Bool, List, Option, [], drop, if◌then◌else◌, length, ltb, none, not, some, suc, take, true,
  zero, ◌&&◌, ◌++◌, ◌+◌, ◌==◌, ◌∷◌, nat_eq, list_eq,
}
use cross_sync.Table.{Table, contains, insert, lookup}
use cross_sync.Text.{lex_lt, slash}
use cross_sync.Hash.{Bytes}
use cross_sync.Index.Files.{FileInfo, FileName, Index, Result, database, err, no_slash, ok}

abbrev pub answer {ℓ} : {A : Type ℓ} → Index → A → Result A
answer ix a = if ix.readable then ok a else err database

-- The rows that a WHERE clause selects, in row order.
unfoldable pub select : (FileInfo → Bool) → Table FileName FileInfo → List FileInfo
select p [] = []
select p ((n, fi) ∷ files) = let rest = select p files in if p fi then fi ∷ rest else rest

-- `Get`
unfoldable pub get : Index → FileName → Result (Option FileInfo)
get ix name = answer ix (lookup name ix.files)

-- `List`, `ListAll` and `ListAfter`: what the callback is given.
unfoldable pub list : Index → Result (List FileInfo)
unfolding select
list ix = answer ix (select (λ fi. not fi.deleted) ix.files)

unfoldable pub list_all : Index → Result (List FileInfo)
unfolding select
list_all ix = answer ix (select (λ fi. true) ix.files)

unfoldable pub list_after : Index → ℕ → Result (List FileInfo)
unfolding select
list_after ix seq = answer ix (select (λ fi. ltb seq fi.sequence) ix.files)

-- `GetMany`: the map of the live entries among the names. Its chunks of 400 names make one query each.
get_part :
    Table FileName FileInfo → List FileName → Table FileName FileInfo → Table FileName FileInfo
get_part [] part out = out
get_part ((n, fi) ∷ files) part out =
    get_part files part
      (if not fi.deleted && contains fi.name part then insert fi.name fi out else out)

get_chunks :
    ℕ → Table FileName FileInfo → List FileName → Table FileName FileInfo → Table FileName FileInfo
unfolding get_part
get_chunks zero files names out = out
get_chunks (suc fuel) files [] out = out
get_chunks (suc fuel) files (n ∷ ns) out =
    get_chunks fuel files (drop 400 (n ∷ ns)) (get_part files (take 400 (n ∷ ns)) out)

unfoldable pub get_many : Index → List FileName → Result (Table FileName FileInfo)
unfolding get_chunks
get_many ix names = answer ix (get_chunks (length names) ix.files names [])

-- `ORDER BY name DESC`
unfoldable pub place_desc : FileInfo → List FileInfo → List FileInfo
place_desc a [] = a ∷ []
place_desc a (x ∷ xs) = if lex_lt a.name x.name then x ∷ place_desc a xs else a ∷ x ∷ xs

unfoldable pub sort_desc : List FileInfo → List FileInfo
unfolding place_desc
sort_desc [] = []
sort_desc (x ∷ xs) = place_desc x (sort_desc xs)

-- The prefix without its last byte, and that byte.
unfoldable pub split_last : Bytes → Option (Bytes × ℕ)
split_last [] = none
split_last (c ∷ []) = some ([], c)
split_last (c ∷ d ∷ s) = Option.map (λ p. (c ∷ p.0, p.1)) (split_last (d ∷ s))

abbrev pub in_range : Bytes → Bytes → FileInfo → Bool
in_range low upper fi = not fi.deleted && (not (lex_lt fi.name low) && lex_lt fi.name upper)

-- `ListPrefix`: the range of names from `dir/` up to `dir0`, in descending order.
unfoldable pub list_prefix : Index → Bytes → Result (List FileInfo)
unfolding split_last select sort_desc
list_prefix ix prefix = elim (split_last prefix) [
  | none ↦ err no_slash
  | some (dir, c) ↦
      if c == slash
      then answer ix (sort_desc (select (in_range prefix (dir ++ ((c + 1) ∷ []))) ix.files))
      else err no_slash
]
