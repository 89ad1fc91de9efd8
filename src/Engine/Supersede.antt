-- ===== src/Engine/Supersede.antt =====
-- engine.go: an entry that a local change writes wins over everything that the change has seen.
use cross_sync.Base.{
  ℕ, list_eq, nat_eq, List, All, [], ap, arith, inr, refl, some, ◌+◌, ◌<◌, ◌∙◌, ◌∷◌, ◌≡◌,
}
use cross_sync.Index.Files.{FileInfo}
use cross_sync.Index.Query.{get}
use cross_sync.Table.{lookup}
use mathlib.Core.Path.{subst}
use cross_sync.Version
use cross_sync.Version.{compare, bump, word, Vector, greater}
use cross_sync.Version.Order.{Le, Holds, compare-Holds, Holds-unique}
use cross_sync.Version.Join.{bump-greater}
use cross_sync.Engine.State.{Engine}
use cross_sync.Engine.Global.{held, global_from}
use cross_sync.Engine.Winner.{Under, chosen, global_from_dominated, entries}
use cross_sync.Engine.Local.{
  plan_change, written, ChangeKind, added, deleted, modified, renamed, skipped, touched, unchanged,
}

-- The counter of this device, which a bump raises by one and which must not wrap around.
abbrev pub counter : Engine → FileInfo → ℕ
counter e fi = Version.get fi.version e.node_id

written-version :
    (node_id : ℕ) (kind : ChangeKind) (fi current out : FileInfo)
    → written node_id kind fi (some current) ≡ some out
    → (out.version ≡ bump current.version node_id) × (out.name ≡ fi.name)
unfolding written
written-version node_id unchanged fi current out h = cc
written-version node_id added fi current out h = ground arith
written-version node_id modified fi current out h = ground arith
written-version node_id deleted fi current out h = ground arith
written-version node_id skipped fi current out h = cc
written-version node_id renamed fi current out h = cc
written-version node_id touched fi current out h = cc

planned-written :
    (e : Engine) (kind : ChangeKind) (fi current out : FileInfo)
    → lookup fi.name e.ix.files ≡ some current
    → plan_change e kind fi ≡ some out
    → written e.node_id kind fi (some current) ≡ some out
unfolding plan_change get
planned-written e kind fi current out h p = ground arith

above_all : (v o w : Vector) → compare v o ≡ greater → Le w o → compare v w ≡ greater
above_all v o w g le =
    let h : Holds greater v o = subst (λ c. Holds c v o) g (compare-Holds v o) in
    Holds-unique (compare v w) greater v w (compare-Holds v w)
      (λ k. omega (arith, le k, h.0 k), λ back. h.1 (λ k. omega (arith, back k, le k)))

All-Under :
    (p : FileInfo) (current : FileInfo) (qs : List FileInfo)
    → compare p.version current.version ≡ greater
    → All (λ q. Le q.version current.version) qs
    → All (Under p) qs
All-Under p current [] g a = tt
All-Under p current (q ∷ qs) g a =
    (inr (above_all p.version current.version q.version g a.0), All-Under p current qs g a.1)

-- A local change of an indexed name, a deletion included, supersedes it everywhere: where no peer's view
-- holds a version beyond the local one, the planned entry keeps the name, is greater than the entry it
-- replaces, and wins the name over every view, as long as the device's counter does not wrap around.
pub plan_change_wins :
    (e : Engine) (kind : ChangeKind) (fi current out : FileInfo)
    → lookup fi.name e.ix.files ≡ some current
    → counter e current + 1 < word
    → All (λ q. Le q.version current.version) (held e.peers fi.name)
    → plan_change e kind fi ≡ some out
    → (out.name ≡ fi.name)
      × (compare out.version current.version ≡ greater)
      × (chosen (global_from e.peers (some out) fi.name) ≡ some out)
unfolding entries
plan_change_wins e kind fi current out h room seen p =
    let w =
      written-version e.node_id kind fi current out (planned-written e kind fi current out h p) in
    let beyond : compare out.version current.version ≡ greater =
      ap (λ v. compare v current.version) w.0 ∙ bump-greater current.version e.node_id room in
    (
      w.1,
      beyond,
      global_from_dominated e.peers (some out) fi.name out [] (held e.peers fi.name) refl tt
          (All-Under out current (held e.peers fi.name) beyond seen),
    )
