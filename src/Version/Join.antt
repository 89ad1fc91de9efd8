-- ===== src/Version/Join.antt =====
-- version.go, `Bump` and `Merge`: the join of version vectors and the edit after it.
use cross_sync.Base.{
  ℕ, nat_eq, [], arith, if◌then◌else◌, ltb, max, none, ◌%◌, ◌+◌, ◌<◌, ◌==◌, ◌∷◌, ◌≡◌, refl,
}
use cross_sync.Table.{insert, lookup, lookup-insert, insert-IsMap, IsMap}
use cross_sync.Version.{Vector, get, bump, merge, word, greater, compare, equal}
use cross_sync.Version.Order.{Le, compare-Holds, Holds-unique}

pub get-insert : (v : Vector) (d n k : ℕ) → get (insert d n v) k ≡ (if d == k then n else get v k)
unfolding get
get-insert v d n k = ground (arith, lookup-insert d k n v)

pub get-bump :
    (v : Vector) (d k : ℕ) → get (bump v d) k ≡ (if d == k then (get v d + 1) % word else get v k)
unfolding bump
get-bump v d k = get-insert v d _ k

pub bump-IsMap : (v : Vector) (d : ℕ) → IsMap v → IsMap (bump v d)
unfolding bump
bump-IsMap v d u = insert-IsMap d _ v u

-- One round of the loop of `Merge`.
raise : Vector → ℕ → ℕ → Vector
raise out k val = if ltb (get out k) val then insert k val out else out

get-raise :
    (out : Vector) (k val j : ℕ)
    → get (raise out k val) j ≡ (if k == j then max (get out j) val else get out j)
unfolding raise
get-raise out k val j = ground (arith, get-insert out k val j)

raise-IsMap : (out : Vector) (k val : ℕ) → IsMap out → IsMap (raise out k val)
unfolding raise
raise-IsMap out k val u = ground (arith, insert-IsMap k val out u)

pub merge-IsMap : (v o : Vector) → IsMap v → IsMap (merge v o)
unfolding merge raise
merge-IsMap v [] u = u
merge-IsMap v ((k, val) ∷ o) u = merge-IsMap (raise v k val) o (raise-IsMap v k val u)

get_absent : (o : Vector) (k : ℕ) → lookup k o ≡ none → get o k ≡ 0
unfolding get
get_absent o k h = ground arith

get-nil : (k : ℕ) → get [] k ≡ 0
unfolding get lookup
get-nil k = refl

get-cons :
    (k val : ℕ) (o : Vector) (j : ℕ) → get ((k, val) ∷ o) j ≡ (if k == j then val else get o j)
unfolding get lookup
get-cons k val o j = ground arith

-- `Merge` takes the larger counter of the two vectors for every device.
pub get-merge : (v o : Vector) (k : ℕ) → IsMap o → get (merge v o) k ≡ max (get v k) (get o k)
unfolding merge raise
get-merge v [] k u = ground (arith, get-nil k)
get-merge v ((j, val) ∷ o) k u = ground (
  arith,
  get-merge (raise v j val) o k u.1,
  get-raise v j val k,
  get-cons j val o k,
  get_absent o k,
)

-- The merge of two vectors is their least upper bound in the pointwise order: it is above both, and
-- below every vector that is above both. The second vector is a Go map, with each device once.
pub merge-Le :
    (v o u : Vector)
    → IsMap o
    → Le v (merge v o) × Le o (merge v o) × (Le v u → Le o u → Le (merge v o) u)
merge-Le v o u m = (
  λ k. omega (arith, get-merge v o k m),
  λ k. omega (arith, get-merge v o k m),
  λ p q k. omega (arith, get-merge v o k m, p k, q k),
)

-- Merging two vectors, Go maps both, in the other order gives a vector that compares as equal.
merge_comm : (v o : Vector) → IsMap v → IsMap o → compare (merge v o) (merge o v) ≡ equal
merge_comm v o mv mo = Holds-unique _ equal _ _ (compare-Holds (merge v o) (merge o v)) (
  λ k. omega (arith, get-merge v o k mo, get-merge o v k mv),
  λ k. omega (arith, get-merge v o k mo, get-merge o v k mv),
)

above_greater : (v o : Vector) (d : ℕ) → Le o v → get o d < get v d → compare v o ≡ greater
above_greater v o d le h =
    Holds-unique _ greater v o (compare-Holds v o) (le, λ le'. omega (arith, le' d))

-- A local edit dominates the vector that it starts from, while the counter is below its maximum.
pub bump-greater : (v : Vector) (d : ℕ) → get v d + 1 < word → compare (bump v d) v ≡ greater
bump-greater v d h =
    above_greater (bump v d) v d (λ k. ground (arith, get-bump v d k))
      (ground (arith, get-bump v d d))

-- An edit after a join is greater than both vectors, a fast-forward for either side and never a
-- second branch, as long as the device's counters in both stay below the largest 64-bit number. The
-- second vector is a Go map.
bump-merge_greater :
    (v o : Vector) (d : ℕ)
    → IsMap o
    → get v d + 1 < word
    → get o d + 1 < word
    → (compare (bump (merge v o) d) v ≡ greater) × (compare (bump (merge v o) d) o ≡ greater)
bump-merge_greater v o d m hv ho = (
  above_greater (bump (merge v o) d) v d
      (λ k. ground (arith, get-bump (merge v o) d k, get-merge v o k m, get-merge v o d m))
      (ground (arith, get-bump (merge v o) d d, get-merge v o d m)),
  above_greater (bump (merge v o) d) o d
      (λ k. ground (arith, get-bump (merge v o) d k, get-merge v o k m, get-merge v o d m))
      (ground (arith, get-bump (merge v o) d d, get-merge v o d m)),
)
