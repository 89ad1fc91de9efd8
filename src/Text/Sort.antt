-- ===== src/Text/Sort.antt =====
-- `sort.Strings` permutes its argument and orders it.
use cross_sync.Base.{List, [], arith, refl, ◌==◌, ◌||◌, ◌∷◌, ◌≡◌, list_eq, nat_eq}
use cross_sync.Table.{contains}
use cross_sync.Hash.{Bytes}
use cross_sync.Text.{place, sort_strings}

pub contains-place :
    (a b : Bytes) (xs : List Bytes) → contains b (place a xs) ≡ (a == b || contains b xs)
unfolding place contains
contains-place a b [] = refl
contains-place a b (x ∷ xs) = ground (arith, contains-place a b xs)

pub contains-sort_strings :
    (b : Bytes) (xs : List Bytes) → contains b (sort_strings xs) ≡ contains b xs
unfolding sort_strings contains
contains-sort_strings b [] = refl
contains-sort_strings b (x ∷ xs) =
    ground (arith, contains-place x b (sort_strings xs), contains-sort_strings b xs)
