-- ===== src/Engine/Saved.antt =====
-- gate_release.go: what saving the list of releases leaves as it was.
use cross_sync.Base.{ℕ, list_eq, nat_eq, Bool, false, if◌then◌else◌, refl, true, ◌≡◌}
use cross_sync.Table.{delete}
use cross_sync.Index.Fresh.{exec-files, exec-next_seq, IsSound}
use cross_sync.Index.Touched.{exec-readable}
use cross_sync.Engine.State.{Engine, mark_all, save_releases}
use cross_sync.Engine.Views.{cleanup_peer_index, drop_peer, waits_for, drop_from_releases}

-- Saving the releases reads one outcome of a statement, and nothing else changes.
pub record Saved (d f : Engine) : Type 0 where
  pub files : f.ix.files ≡ d.ix.files
  pub next_seq : f.ix.next_seq ≡ d.ix.next_seq
  pub readable : f.ix.readable ≡ d.ix.readable
  pub peers : f.peers ≡ d.peers
  pub pend : f.pend ≡ d.pend
  pub view_pending : f.view_pending ≡ d.view_pending

pub save_releases-Saved : (d : Engine) → Saved d (save_releases d).0
unfolding save_releases
save_releases-Saved d = record {
  files = exec-files d.ix;
  next_seq = exec-next_seq d.ix;
  readable = exec-readable d.ix;
  peers = refl;
  pend = refl;
  view_pending = refl;
}

pub Saved-branches : (b : Bool) (d : Engine) → Saved d (if b then (save_releases d).0 else d)
Saved-branches true d = save_releases-Saved d
Saved-branches false d = record {
  files = refl;
  next_seq = refl;
  readable = refl;
  peers = refl;
  pend = refl;
  view_pending = refl;
}

-- The engine without the view and the waits of a peer, before the list is saved.
abbrev pub dropped : Engine → ℕ → Engine
dropped e peer = record e {
  peers = delete peer e.peers;
  pend = mark_all e.pend;
  releases = drop_peer peer e.releases;
}

pub cleanup_peer_index-Saved :
    (e : Engine) (peer : ℕ) → Saved (dropped e peer) (cleanup_peer_index e peer)
unfolding cleanup_peer_index drop_from_releases
cleanup_peer_index-Saved e peer = Saved-branches (waits_for peer e.releases) (dropped e peer)

pub Saved-IsSound : (d f : Engine) → Saved d f → IsSound d.ix → IsSound f.ix
Saved-IsSound d f s sound = record {
  unique = rw (s.files) sound.unique;
  numbered = rw (s.files, s.next_seq) sound.numbered;
  started = rw (s.next_seq) sound.started;
}
