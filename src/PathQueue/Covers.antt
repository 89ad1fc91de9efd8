-- ===== src/PathQueue/Covers.antt =====
-- pathqueue.go, `collapsePaths`: no path is lost.
use mathlib.Core.Path.{subst}
use cross_sync.Hash.{Bytes}
use cross_sync.Base.{
  nat_eq, list_eq, Bool, Bool-cases, List, [], ap, arith, eq_of_test, eq_refl, false, inl, inr,
  length, not, refl, sym, true, ◌&&◌, ◌++◌, ◌==◌, ◌||◌, ◌∙◌, ◌∷◌, ◌≡◌,
}
use cross_sync.Text.{slash, has_prefix, lex_lt, place, sort_strings}
use cross_sync.PathQueue.{covers, collapse_loop, collapse_paths}

-- Some path of the list is the path or above it.
abbrev pub covered : Bytes → List Bytes → Bool
covered p [] = false
covered p (q ∷ qs) = covers q p || covered p qs

has_prefix-append :
    (p q s t : Bytes) → has_prefix p (q ++ t) ≡ true → has_prefix q s ≡ true → has_prefix p s ≡ true
unfolding has_prefix
has_prefix-append p q [] t h k = refl
has_prefix-append p [] (z ∷ s) t h k = cc
has_prefix-append [] (y ∷ q) (z ∷ s) t h k = cc
has_prefix-append (x ∷ p) (y ∷ q) (z ∷ s) t h k = ground (arith, has_prefix-append p q s t)

pub covers_refl : (p : Bytes) → covers p p ≡ true
covers_refl p = rw (eq_refl p) refl

-- `s` is above `q`, and `q` above `p`.
pub covers_trans : (s q p : Bytes) → covers s q ≡ true → covers q p ≡ true → covers s p ≡ true
covers_trans s q p h k = elim (Bool-cases (p == q)) [
  | inl same ↦ subst (λ t. covers s t ≡ true) (sym (eq_of_test p q same)) h
  | inr other ↦ elim (Bool-cases (q == s)) [
    | inl same ↦ subst (λ t. covers t p ≡ true) (eq_of_test q s same) k
    | inr apart ↦
        let below : has_prefix q (s ++ (slash ∷ [])) ≡ true = ground arith in
        let deeper : has_prefix p (q ++ (slash ∷ [])) ≡ true = ground arith in
        let prefix : has_prefix p (s ++ (slash ∷ [])) ≡ true =
          has_prefix-append p q (s ++ (slash ∷ [])) (slash ∷ []) deeper below in
        ground arith
  ]
]

covered-place :
    (p a : Bytes) (xs : List Bytes) → covered p (place a xs) ≡ (covers a p || covered p xs)
unfolding place
covered-place p a [] = refl
covered-place p a (x ∷ xs) = elim (Bool-cases (lex_lt x a)) [
  | inl later ↦ rw later (ground (arith, covered-place p a xs))
  | inr here ↦ rw here refl
]

covered-sort_strings : (p : Bytes) (xs : List Bytes) → covered p (sort_strings xs) ≡ covered p xs
unfolding sort_strings
covered-sort_strings p [] = refl
covered-sort_strings p (x ∷ xs) =
    covered-place p x (sort_strings xs) ∙ ap (λ t. covers x p || t) (covered-sort_strings p xs)

abbrev above_kept : Bytes → Bytes → Bool
above_kept last p = not (length last == 0) && covers last p

covered-collapse_loop :
    (p last : Bytes) (paths : List Bytes)
    → covered p paths ≡ true
    → (covered p (collapse_loop last paths) || above_kept last p) ≡ true
unfolding collapse_loop
covered-collapse_loop p last [] h = cc
covered-collapse_loop p last (q ∷ paths) h = elim (Bool-cases (above_kept last q)) [
  | inl dropped ↦ rw dropped (elim (Bool-cases (covers q p)) [
    | inl above ↦
        let named : not (length last == 0) ≡ true = ground arith in
        let higher : covers last p ≡ true = covers_trans last q p (ground arith) above in
        ground arith
    | inr beside ↦ covered-collapse_loop p last paths (ground arith)
  ])
  | inr kept ↦ rw kept (elim (Bool-cases (covers q p)) [
    | inl above ↦ ground arith
    | inr beside ↦
        let later : (covered p (collapse_loop q paths) || above_kept q p) ≡ true =
          covered-collapse_loop p q paths (ground arith) in
        ground arith
  ])
]

pub covered-collapse_paths :
    (p : Bytes) (paths : List Bytes)
    → covered p paths ≡ true
    → covered p (collapse_paths paths) ≡ true
unfolding collapse_paths
covered-collapse_paths p paths h =
    let all : (covered p (collapse_loop [] (sort_strings paths)) || above_kept [] p) ≡ true =
      covered-collapse_loop p [] (sort_strings paths) (covered-sort_strings p paths ∙ h) in
    ground arith
