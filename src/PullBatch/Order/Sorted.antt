-- ===== src/PullBatch/Order/Sorted.antt =====
-- pull_batch.go, `orderPulls`: what the order is.
use cross_sync.PullBatch.Order.Sizes.{lookup-peer_sizes, size_in}
use cross_sync.Engine.State.{Engine}
use cross_sync.Text.Order.{lex_lt_asymm}
use cross_sync.Text.{lex_lt}
use cross_sync.Table.{Table, lookup, contains}
use cross_sync.Index.Files.{FileName}
use cross_sync.Base.{
  nat_eq, list_eq, Bool-cases, List, Option, [], arith, false, if◌then◌else◌, inl, inr, length,
  refl, true, ℕ, ◌+◌, ◌<◌, ◌==◌, ◌∙◌, ◌∷◌, ◌≡◌, ltb, none, some, ◌⊎◌,
}
use cross_sync.PullBatch.Order.{
  PullOrder, before, comes_before, place_name, sort_names, by_index, is_by_index, largest,
  order_pulls, peer_sizes, smallest,
}

-- How often a name stands in a list.
abbrev pub times : FileName → List FileName → ℕ
times n [] = 0
times n (a ∷ names) = if a == n then times n names + 1 else times n names

-- No name comes before the one in front of it, by the comparison of the sort.
abbrev Ordered : PullOrder → Table FileName ℕ → List FileName → Type 0
Ordered order sizes [] = Unit
Ordered order sizes (a ∷ []) = Unit
Ordered order sizes (a ∷ b ∷ names) =
    (before order sizes b a ≡ false) × Ordered order sizes (b ∷ names)

module _ (order : PullOrder) (sizes : Table FileName ℕ) where
  comes_before_asym :
      (s t : Option ℕ) (a b : FileName)
      → comes_before order s a t b ≡ true
      → comes_before order t b s a ≡ false
  comes_before_asym s t a b h = ground (arith, lex_lt_asymm a b)

  times-place_name :
      (n a : FileName) (names : List FileName)
      → times n (place_name order sizes a names) ≡ times n (a ∷ names)
  unfolding place_name
  times-place_name n a [] = refl
  times-place_name n a (b ∷ names) = elim (Bool-cases (before order sizes b a)) [
    | inl later ↦ rw later (ground (arith, times-place_name n a names))
    | inr here ↦ rw here refl
  ]

  times-sort_names :
      (n : FileName) (names : List FileName)
      → times n (sort_names order sizes names) ≡ times n names
  unfolding sort_names
  times-sort_names n [] = refl
  times-sort_names n (a ∷ names) =
      times-place_name n a (sort_names order sizes names) ∙ ground (arith, times-sort_names n names)

  place_after :
      (b a : FileName) (names : List FileName)
      → before order sizes b a ≡ true
      → Ordered order sizes (b ∷ names)
      → Ordered order sizes (b ∷ place_name order sizes a names)
  unfolding place_name
  place_after b a [] earlier s =
      (comes_before_asym (lookup b sizes) (lookup a sizes) b a earlier, tt)
  place_after b a (c ∷ names) earlier s = elim (Bool-cases (before order sizes c a)) [
    | inl later ↦ rw later (s.0, place_after c a names later s.1)
    | inr here ↦
        rw here (comes_before_asym (lookup b sizes) (lookup a sizes) b a earlier, (here, s.1))
  ]

  place_name-Ordered :
      (a : FileName) (names : List FileName)
      → Ordered order sizes names
      → Ordered order sizes (place_name order sizes a names)
  unfolding place_name
  place_name-Ordered a [] s = tt
  place_name-Ordered a (b ∷ names) s = elim (Bool-cases (before order sizes b a)) [
    | inl later ↦ rw later (place_after b a names later s)
    | inr here ↦ rw here (here, s)
  ]

  sort_names-Ordered : (names : List FileName) → Ordered order sizes (sort_names order sizes names)
  unfolding sort_names
  sort_names-Ordered [] = tt
  sort_names-Ordered (a ∷ names) =
      place_name-Ordered a (sort_names order sizes names) (sort_names-Ordered names)

-- The second name may follow the first one, given their sizes in the peer's view. Under `largest` a name
-- that is not in the view counts as an empty file.
abbrev pub Follows : PullOrder → Option ℕ → FileName → Option ℕ → FileName → Type 0
Follows by_index s a t b = Unit
Follows smallest (some s) a (some t) b = (s < t) ⊎ ((s ≡ t) × (lex_lt b a ≡ false))
Follows smallest (some s) a none b = Unit
Follows smallest none a (some t) b = ⊥
Follows smallest none a none b = lex_lt b a ≡ false
Follows largest (some s) a (some t) b = (t < s) ⊎ ((s ≡ t) × (lex_lt b a ≡ false))
Follows largest (some s) a none b = (0 < s) ⊎ ((s ≡ 0) × (lex_lt b a ≡ false))
Follows largest none a (some t) b = (t ≡ 0) × (lex_lt b a ≡ false)
Follows largest none a none b = lex_lt b a ≡ false

-- Each name may follow the one in front of it.
abbrev pub IsSorted : PullOrder → Table FileName ℕ → List FileName → Type 0
IsSorted order sizes [] = Unit
IsSorted order sizes (a ∷ []) = Unit
IsSorted order sizes (a ∷ b ∷ names) =
    Follows order (lookup a sizes) a (lookup b sizes) b × IsSorted order sizes (b ∷ names)

-- What the comparison says of two names.
follows :
    (order : PullOrder) (s t : Option ℕ) (a b : FileName)
    → comes_before order t b s a ≡ false
    → Follows order s a t b
follows by_index s t a b h = tt
follows smallest (some s) (some t) a b h = ground arith
follows smallest (some s) none a b h = tt
follows smallest none (some t) a b h = cc
follows smallest none none a b h = h
follows largest (some s) (some t) a b h = ground arith
follows largest (some s) none a b h = ground arith
follows largest none (some t) a b h = ground arith
follows largest none none a b h = h

Ordered-IsSorted :
    (order : PullOrder) (sizes : Table FileName ℕ) (names : List FileName)
    → Ordered order sizes names
    → IsSorted order sizes names
Ordered-IsSorted order sizes [] s = tt
Ordered-IsSorted order sizes (a ∷ []) s = tt
Ordered-IsSorted order sizes (a ∷ b ∷ names) s = (
  follows order (lookup a sizes) (lookup b sizes) a b s.0,
  Ordered-IsSorted order sizes (b ∷ names) s.1,
)

short-IsSorted :
    (order : PullOrder) (sizes : Table FileName ℕ) (names : List FileName)
    → length names < 2
    → IsSorted order sizes names
short-IsSorted order sizes [] h = tt
short-IsSorted order sizes (a ∷ []) h = tt
short-IsSorted order sizes (a ∷ b ∷ names) h = absurd (omega arith)

-- `orderPulls` gives the same names, each as often as before. The sizes that it goes by are those of the
-- peer's view, for the names of the batch, and none for others. Where the order is not that of the index, of
-- two neighbours: under "smallest" a name without a size is never in front of one that has a size, and the
-- sizes do not fall; under "largest" they do not rise, a name without a size counting as 0; and names of one
-- size, or without one, are in the order of their bytes.
pub order_pulls-IsSorted :
    (order : PullOrder) (e : Engine) (peer : ℕ) (names : List FileName)
    → is_by_index order ≡ false
    → ((n : FileName) → times n (order_pulls order e peer names) ≡ times n names)
      × ((n : FileName)
          → lookup n (peer_sizes e peer names)
            ≡ (if contains n names then size_in (lookup peer e.peers) n else none))
      × IsSorted order (peer_sizes e peer names) (order_pulls order e peer names)
unfolding order_pulls
order_pulls-IsSorted order e peer names by_size = elim (Bool-cases (ltb (length names) 2)) [
  | inr long ↦
      rw (by_size, long)
        (
          λ n. times-sort_names order (peer_sizes e peer names) n names,
          lookup-peer_sizes e peer names,
          Ordered-IsSorted order (peer_sizes e peer names) _
              (sort_names-Ordered order (peer_sizes e peer names) names),
        )
  | inl short ↦
      rw (by_size, short)
        (
          λ n. refl,
          lookup-peer_sizes e peer names,
          short-IsSorted order (peer_sizes e peer names) names (ground arith),
        )
]
