-- ===== src/Version.antt =====
-- internal/version/version.go: version vectors. A device or counter is a uint64, kept as a number;
-- the increment of `Bump` wraps. A nil vector is not modelled apart: the vectors that the program
-- bumps and merges come from `New`, `Bump`, `Merge` and `UnmarshalJSON`, which all make a map.
pub mod Order
pub mod Join
mod Tests
use cross_sync.Base.{
  ℕ, zero, suc, ◌+◌, ◌*◌, ◌%◌, ◌^◌, Bool, true, false, ◌&&◌, ◌||◌, Option, none, some, List, [],
  ◌∷◌, nat_eq, ltb, if◌then◌else◌,
}
use cross_sync.Table.{Table, lookup, insert, keys, add}

abbrev pub Vector : Type 0
Vector = Table ℕ ℕ

abbrev pub word : ℕ
word = 2 ^ 64

abbrev pub new : Vector
new = []

-- `v[device]`, which is 0 for a device that the map lacks.
unfoldable pub get : Vector → ℕ → ℕ
get v device = elim (lookup device v) [ none ↦ 0 | some n ↦ n ]

unfoldable pub bump : Vector → ℕ → Vector
bump v device = insert device ((get v device + 1) % word) v

unfoldable pub merge : Vector → Vector → Vector
merge out [] = out
merge out ((k, val) ∷ o) = merge (if ltb (get out k) val then insert k val out else out) o

-- The results -1, 0, 1 and 2 of `Compare`.
pub data Comparison : Type 0 where
  less equal greater concurrent : Comparison

-- The set of the keys of both maps.
abbrev pub add_all : List ℕ → List ℕ → List ℕ
add_all set [] = set
add_all set (k ∷ ks) = add_all (add k set) ks

-- The loop over the keys, with the flags `gt` and `lt`.
unfoldable pub scan : Vector → Vector → List ℕ → Bool → Bool → Bool × Bool
scan v o [] gt lt = (gt, lt)
scan v o (k ∷ ks) gt lt =
    scan v o ks (gt || ltb (get o k) (get v k)) (lt || ltb (get v k) (get o k))

unfoldable pub verdict : Bool × Bool → Comparison
verdict (true, false) = greater
verdict (false, true) = less
verdict (false, false) = equal
verdict (true, true) = concurrent

unfoldable pub is_empty : Vector → Bool
is_empty [] = true
is_empty (x ∷ v) = false

unfoldable pub compare : Vector → Vector → Comparison
unfolding scan verdict is_empty
compare v o =
    if is_empty v && is_empty o
    then equal
    else verdict (scan v o (add_all (add_all [] (keys v)) (keys o)) false false)

-- `v.Equal(o)`
unfoldable pub same_version : Vector → Vector → Bool
same_version v o = elim (compare v o) [ equal ↦ true | _ ↦ false ]

-- `DeviceID`: the first eight bytes, most significant first. The product wraps as `<<` does.
device_id_loop : ℕ → List ℕ → ℕ → ℕ
device_id_loop zero id out = out
device_id_loop (suc n) [] out = out
device_id_loop (suc n) (b ∷ id) out = device_id_loop n id ((out * 256) % word + b)

unfoldable pub device_id : List ℕ → ℕ
unfolding device_id_loop
device_id id = device_id_loop 8 id 0
