-- ===== src/Engine/Release.antt =====
-- gate_release.go: a release waits for every owner.
use cross_sync.Base.{ℕ, list_eq, List}
use cross_sync.Table.{Table}
use cross_sync.Index.Files.{FileName}
use cross_sync.Hash.{Bytes}
use cross_sync.Engine.State.{Engine, PendingRelease}
use cross_sync.Engine.Content.{sort_keys}
use cross_sync.Engine.Gate.{owners}

-- The release that is recorded for a rename.
abbrev pub recorded : Engine → FileName → FileName → ℕ → List Bytes → PendingRelease
recorded e from_name to_name size blocks = record {
  from_name = from_name;
  to_name = to_name;
  size = size;
  blocks = blocks;
  peers = sort_keys (owners from_name e.peers);
}
