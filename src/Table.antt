-- ===== src/Table.antt =====
-- Go maps and keyed database tables as association lists, in the order in which a loop visits them.
use cross_sync.Base.{
  ◌≡◌, refl, Bool, true, false, ◌||◌, Option, none, some, List, [], ◌∷◌, arith, KeyEq, ◌==◌,
  if◌then◌else◌,
}

abbrev pub Table {ℓ κ} : Type ℓ → Type κ → Type (ℓ ⊔ κ)
Table K V = List (K × V)

module _ {ℓ κ} {K : Type ℓ} {V : Type κ} ⦃e : KeyEq K⦄ where
  unfoldable pub lookup : K → Table K V → Option V
  lookup k [] = none
  lookup k ((j, v) ∷ m) = if j == k then some v else lookup k m

  unfoldable pub insert : K → V → Table K V → Table K V
  insert k v [] = (k, v) ∷ []
  insert k v ((j, w) ∷ m) = if j == k then (k, v) ∷ m else (j, w) ∷ insert k v m

  unfoldable pub delete : K → Table K V → Table K V
  delete k [] = []
  delete k ((j, w) ∷ m) = let rest = delete k m in if j == k then rest else (j, w) ∷ rest

  -- Each key stands once, as in any Go map.
  abbrev pub IsMap : Table K V → Type κ
  IsMap [] = Unit
  IsMap ((k, v) ∷ m) = (lookup k m ≡ none) × IsMap m

  pub lookup-insert :
      (key other : K) (value : V) (table : Table K V)
      → lookup other (insert key value table)
        ≡ (if key == other then some value else lookup other table)
  unfolding insert lookup
  lookup-insert key other value [] = refl
  lookup-insert key other value ((first, row) ∷ rest) = ground (
    arith,
    lookup-insert key other value rest,
    e.equals_iff first key,
    e.equals_iff first other,
    e.equals_iff key other,
  )

  pub lookup-delete :
      (k j : K) (m : Table K V) → lookup j (delete k m) ≡ (if k == j then none else lookup j m)
  unfolding lookup delete
  lookup-delete k j [] = ground arith
  lookup-delete k j ((i, w) ∷ m) =
      ground (arith, e.equals_iff k j, e.equals_iff i k, e.equals_iff i j, lookup-delete k j m)

  pub insert-IsMap : (k : K) (v : V) (m : Table K V) → IsMap m → IsMap (insert k v m)
  unfolding insert lookup
  insert-IsMap k v [] u = (refl, tt)
  insert-IsMap k v ((i, w) ∷ m) u =
      ground
        (arith, insert-IsMap k v m u.1, lookup-insert k i v m, e.equals_iff i k, e.equals_iff k i)

  pub delete-IsMap : (k : K) (m : Table K V) → IsMap m → IsMap (delete k m)
  unfolding delete
  delete-IsMap k [] u = tt
  delete-IsMap k ((i, w) ∷ m) u = ground (arith, delete-IsMap k m u.1, lookup-delete k i m)

abbrev pub keys {ℓ κ} : {K : Type ℓ} {V : Type κ} → Table K V → List K
keys [] = []
keys ((k, v) ∷ m) = k ∷ keys m

module _ {ℓ} {A : Type ℓ} ⦃e : KeyEq A⦄ where
  unfoldable pub contains : A → List A → Bool
  contains a [] = false
  contains a (x ∷ xs) = x == a || contains a xs

  -- A set, as the keys of a `map[A]struct{}`.
  unfoldable pub add : A → List A → List A
  unfolding contains
  add a xs = if contains a xs then xs else a ∷ xs

  pub contains-add : (a b : A) (xs : List A) → contains b (add a xs) ≡ (a == b || contains b xs)
  unfolding add contains
  contains-add a b xs = ground (arith, e.equals_iff a b)

-- A key of a table has an entry.
unfoldable pub has_key {ℓ κ} : {K : Type ℓ} {V : Type κ} ⦃e : KeyEq K⦄ → K → Table K V → Bool
unfolding lookup
has_key k m = elim (lookup k m) [ none ↦ false | some v ↦ true ]

pub contains-keys {ℓ κ} :
    {K : Type ℓ} {V : Type κ} ⦃e : KeyEq K⦄ (k : K) (m : Table K V)
    → contains k (keys m) ≡ has_key k m
unfolding contains has_key lookup
contains-keys k [] = refl
contains-keys k ((j, v) ∷ m) = ground (arith, contains-keys k m)
