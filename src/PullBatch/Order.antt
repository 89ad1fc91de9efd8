-- ===== src/PullBatch/Order.antt =====
-- pull_batch.go, `orderPulls`, and block_reuse.go, `PeerSizes`: the order in which a batch starts its files.
pub mod Sizes
pub mod Sorted
use cross_sync.Table.{Table, insert, lookup}
use cross_sync.Index.Files.{FileName}
use cross_sync.Base.{
  nat_eq, list_eq, Bool, List, Option, [], false, if◌then◌else◌, length, ltb, none, not, some, true,
  ℕ, ◌&&◌, ◌==◌, ◌||◌, ◌∷◌,
}
use cross_sync.Text.{lex_lt}
use cross_sync.Engine.State.{View, Engine}

-- `PullOrderOrDefault`
pub data PullOrder : Type 0 where
  by_index smallest largest : PullOrder

abbrev pub with_size : View → FileName → Table FileName ℕ → Table FileName ℕ
with_size view name sizes = elim (lookup name view) [
  | none ↦ sizes
  | some fi ↦ insert name fi.size sizes
]

unfoldable pub collect_sizes : View → List FileName → Table FileName ℕ → Table FileName ℕ
collect_sizes view [] sizes = sizes
collect_sizes view (name ∷ names) sizes = collect_sizes view names (with_size view name sizes)

-- `PeerSizes`
unfoldable pub peer_sizes : Engine → ℕ → List FileName → Table FileName ℕ
unfolding collect_sizes
peer_sizes e peer names = elim (lookup peer e.peers) [
  | none ↦ []
  | some view ↦ collect_sizes view names []
]

abbrev pub size_or_zero : Option ℕ → ℕ
size_or_zero none = 0
size_or_zero (some n) = n

abbrev pub is_known : Option ℕ → Bool
is_known none = false
is_known (some n) = true

-- The comparison of `sort.SliceStable`, on the sizes and the names.
abbrev pub comes_before : PullOrder → Option ℕ → FileName → Option ℕ → FileName → Bool
comes_before largest s a t b =
    if size_or_zero s == size_or_zero t then lex_lt a b else ltb (size_or_zero t) (size_or_zero s)
comes_before _ s a t b =
    if is_known s && not (is_known t)
    then true
    else if is_known t && not (is_known s)
    then false
    else if size_or_zero s == size_or_zero t
    then lex_lt a b
    else ltb (size_or_zero s) (size_or_zero t)

module _ (order : PullOrder) (sizes : Table FileName ℕ) where
  abbrev pub before : FileName → FileName → Bool
  before a b = comes_before order (lookup a sizes) a (lookup b sizes) b

  unfoldable pub place_name : FileName → List FileName → List FileName
  place_name a [] = a ∷ []
  place_name a (b ∷ names) =
      let rest = place_name a names in if before b a then b ∷ rest else a ∷ b ∷ names

  unfoldable pub sort_names : List FileName → List FileName
  unfolding place_name
  sort_names [] = []
  sort_names (a ∷ names) = place_name a (sort_names names)

abbrev pub is_by_index : PullOrder → Bool
is_by_index by_index = true
is_by_index _ = false

-- `orderPulls`
unfoldable pub order_pulls : PullOrder → Engine → ℕ → List FileName → List FileName
unfolding sort_names peer_sizes
order_pulls order e peer names =
    if is_by_index order || ltb (length names) 2
    then names
    else sort_names order (peer_sizes e peer names) names
