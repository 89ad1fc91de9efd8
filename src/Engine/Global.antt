-- ===== src/Engine/Global.antt =====
-- engine.go, `globalFrom`: the winning version of a name over the local entry and the peer views.
use cross_sync.Base.{
  ℕ, list_eq, nat_eq, Bool, List, Option, Option-cases, [], false, if◌then◌else◌, inl, inr, none,
  not, refl, some, true, ◌&&◌, ◌==◌, ◌∷◌, ◌≡◌,
}
use cross_sync.Version.{compare, concurrent, equal, greater, less}
use cross_sync.Table.{Table, lookup}
use cross_sync.Index.Files.{FileInfo, FileName}
use cross_sync.Engine.State.{View}
use cross_sync.Engine.Content.{signed_gt, newer_or_greater}

-- The best entry so far, and whether it is the local one.
abbrev pub Best : Type 0
Best = FileInfo × Bool

abbrev pub bool_ne : Bool → Bool → Bool
bool_ne a b = if a then not b else b

-- One round of the loop, for a view that has the name.
unfoldable pub pick : Best → FileInfo → Best
pick (best, is_local) p = elim (compare p.version best.version) [
  | equal ↦
      if bool_ne p.deleted best.deleted
      then (if p.deleted then (p, false) else (best, is_local))
      else if not (p.size == best.size) && signed_gt p.size best.size
      then (p, false)
      else (best, is_local)
  | greater ↦ (p, false)
  | less ↦ (best, is_local)
  | concurrent ↦ if newer_or_greater p best then (p, false) else (best, is_local)
]

abbrev pub pick_first : Option Best → FileInfo → Option Best
pick_first none p = some (p, false)
pick_first (some b) p = some (pick b p)

unfoldable pub global_loop : Table ℕ View → FileName → Option Best → Option Best
global_loop [] name best = best
global_loop ((id, view) ∷ peers) name best =
    global_loop peers name (elim (lookup name view) [ none ↦ best | some p ↦ pick_first best p ])

unfoldable pub global_from : Table ℕ View → Option FileInfo → FileName → Option Best
global_from peers local name =
    global_loop peers name (elim local [ none ↦ none | some fi ↦ some (fi, true) ])

-- What the views hold under a name, in the order of the loop.
unfoldable pub held : Table ℕ View → FileName → List FileInfo
held [] name = []
held ((id, view) ∷ peers) name =
    let rest = held peers name in elim (lookup name view) [ none ↦ rest | some p ↦ p ∷ rest ]

unfoldable pub pick_all : Best → List FileInfo → Best
pick_all b [] = b
pick_all b (p ∷ ps) = pick_all (pick b p) ps

-- A name that is held locally has a winner, which the entries under the name decide.
pub global_loop-held :
    (peers : Table ℕ View) (name : FileName) (b : Best)
    → global_loop peers name (some b) ≡ some (pick_all b (held peers name))
unfolding global_loop held pick_all
global_loop-held [] name b = refl
global_loop-held ((id, view) ∷ peers) name b = elim (Option-cases (lookup name view)) [
  | inl e ↦ rw (e, held) (global_loop-held peers name b)
  | inr (p, e) ↦ rw (e, held) (global_loop-held peers name (pick b p))
]
