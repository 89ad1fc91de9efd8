-- ===== src/Text/Order.antt =====
-- The byte order is a strict total order, and a prefix is a range of it.
use cross_sync.Base.{ℕ, [], arith, false, not, refl, true, ◌&&◌, ◌++◌, ◌+◌, ◌∷◌, ◌≡◌}
use cross_sync.Hash.{Bytes}
use cross_sync.Text.{lex_lt, has_prefix}

pub lex_lt_irrefl : (a : Bytes) → lex_lt a a ≡ false
unfolding lex_lt
lex_lt_irrefl [] = refl
lex_lt_irrefl (x ∷ xs) = ground (arith, lex_lt_irrefl xs)

pub lex_lt_trans : (a b c : Bytes) → lex_lt a b ≡ true → lex_lt b c ≡ true → lex_lt a c ≡ true
unfolding lex_lt
lex_lt_trans [] [] c p q = cc
lex_lt_trans [] (y ∷ ys) [] p q = cc
lex_lt_trans [] (y ∷ ys) (z ∷ zs) p q = refl
lex_lt_trans (x ∷ xs) [] c p q = cc
lex_lt_trans (x ∷ xs) (y ∷ ys) [] p q = cc
lex_lt_trans (x ∷ xs) (y ∷ ys) (z ∷ zs) p q = ground (arith, lex_lt_trans xs ys zs)

pub lex_lt_total : (a b : Bytes) → lex_lt a b ≡ false → lex_lt b a ≡ false → a ≡ b
unfolding lex_lt
lex_lt_total [] [] p q = refl
lex_lt_total [] (y ∷ ys) p q = cc
lex_lt_total (x ∷ xs) [] p q = cc
lex_lt_total (x ∷ xs) (y ∷ ys) p q = ground (arith, lex_lt_total xs ys)

pub lex_lt_asymm : (a b : Bytes) → lex_lt a b ≡ true → lex_lt b a ≡ false
unfolding lex_lt
lex_lt_asymm [] [] p = cc
lex_lt_asymm [] (y ∷ ys) p = refl
lex_lt_asymm (x ∷ xs) [] p = cc
lex_lt_asymm (x ∷ xs) (y ∷ ys) p = ground (arith, lex_lt_asymm xs ys)

-- The names from `dir ++ [c]` up to `dir ++ [c + 1]` are those that begin with `dir ++ [c]`.
pub range-has_prefix :
    (dir : Bytes) (c : ℕ) (name : Bytes)
    → (not (lex_lt name (dir ++ (c ∷ []))) && lex_lt name (dir ++ ((c + 1) ∷ [])))
      ≡ has_prefix name (dir ++ (c ∷ []))
unfolding lex_lt has_prefix
range-has_prefix [] c [] = refl
range-has_prefix [] c (x ∷ []) = ground arith
range-has_prefix [] c (x ∷ y ∷ name) = ground arith
range-has_prefix (d ∷ dir) c [] = refl
range-has_prefix (d ∷ dir) c (x ∷ name) = ground (arith, range-has_prefix dir c name)
