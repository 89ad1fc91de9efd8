-- ===== src/Text.antt =====
-- What the program uses of package strings and sort on byte strings.
pub mod Order
pub mod Sort
use cross_sync.Base.{
  ℕ, Bool, List, [], false, if◌then◌else◌, ltb, true, ◌&&◌, ◌==◌, ◌||◌, ◌∷◌, nat_eq,
}
use cross_sync.Hash.{Bytes}

-- `a < b`, byte by byte.
unfoldable pub lex_lt : Bytes → Bytes → Bool
lex_lt [] [] = false
lex_lt [] (y ∷ ys) = true
lex_lt (x ∷ xs) [] = false
lex_lt (x ∷ xs) (y ∷ ys) = ltb x y || (x == y && lex_lt xs ys)

-- `strings.HasPrefix(s, p)`
unfoldable pub has_prefix : Bytes → Bytes → Bool
has_prefix s [] = true
has_prefix [] (y ∷ p) = false
has_prefix (x ∷ s) (y ∷ p) = x == y && has_prefix s p

abbrev pub slash : ℕ
slash = b'/'

-- `sort.Strings`
unfoldable pub place : Bytes → List Bytes → List Bytes
place a [] = a ∷ []
place a (x ∷ xs) = if lex_lt x a then x ∷ place a xs else a ∷ x ∷ xs

unfoldable pub sort_strings : List Bytes → List Bytes
unfolding place
sort_strings [] = []
sort_strings (x ∷ xs) = place x (sort_strings xs)
