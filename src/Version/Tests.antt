-- ===== src/Version/Tests.antt =====
-- version.go: runs on small vectors.
use cross_sync.Table.{lookup, add}
use cross_sync.Base.{nat_eq, [], refl, ◌∷◌, ◌≡◌}
use cross_sync.Table.{add, lookup}
use cross_sync.Version.{get, Vector, compare, concurrent, equal, get}
use cross_sync.Version.Order.{Holds, compare-Holds}

abbrev ours : Vector
ours = (1, 3) ∷ (2, 1) ∷ []

abbrev theirs : Vector
theirs = (2, 4) ∷ []

compare_run : (compare ours theirs ≡ concurrent) × (compare ours ours ≡ equal)
unfolding compare add get lookup
compare_run = (refl, refl)

compare-Holds_example : Holds (compare ours theirs) ours theirs
compare-Holds_example = compare-Holds ours theirs
