-- ===== src/Engine/Doomed.antt =====
-- engine.go: the deletions that wait.
use cross_sync.Base.{nat_eq, Bool, false, none, not, some, ◌&&◌}
use cross_sync.Table.{Table}
use cross_sync.Index.Files.{FileName}
use cross_sync.Engine.State.{Engine}
use cross_sync.Engine.Walk.{local}
use cross_sync.Engine.Overwrite.{is_doomed}

-- The name is live here, not in flight, and the winner of the name is a tombstone.
abbrev pub to_delete : Engine → FileName → Bool
to_delete e n = elim (local e n) [ none ↦ false | some fi ↦ not fi.deleted && is_doomed e fi ]
