-- ===== src/Engine/Winner.antt =====
-- engine.go, `globalFrom`: which entry wins, and when the order of the peers matters.
use cross_sync.Text.Order.{lex_lt_total, lex_lt_asymm}
use cross_sync.Engine.State.{View}
use cross_sync.Engine.Content.{newer_or_greater, canonical_version, signed_gt, stamp, total_greater}
use cross_sync.Table.{Table, lookup}
use cross_sync.Base.{
  list_eq, nat_eq, All, List, [], arith, inl, inr, refl, ◌++◌, ◌∷◌, ◌≡◌, ◌⊎◌, Bool, Option,
  Option-cases, ap, false, none, some, true, ℕ, not, ◌<◌, ◌^◌, ◌∙◌, ◌≢◌,
}
use cross_sync.Version.{compare, Vector, concurrent, equal, greater, less}
use cross_sync.Index.Files.{FileInfo, FileName}
use cross_sync.Version.Order.{flip, compare-flip, compare-Holds, Holds-unique}
use cross_sync.Engine.Global.{
  Best, pick, pick_all, global_from, global_loop, global_loop-held, held,
}

-- An entry that is the first one, or has a smaller version.
abbrev pub Under : FileInfo → FileInfo → Type 0
Under p q = (q ≡ p) ⊎ (compare p.version q.version ≡ greater)

-- No version is concurrent with itself.
compare_refl : (v : Vector) → compare v v ≡ equal
compare_refl v =
    Holds-unique (compare v v) equal v v (compare-Holds v v) (λ k. omega arith, λ k. omega arith)

below : (v o : Vector) → compare v o ≡ greater → compare o v ≡ less
unfolding flip
below v o h = rw (compare-flip v o, h, flip) refl

pick_stay : (b : Best) (p q : FileInfo) → b.0 ≡ p → Under p q → (pick b q).0 ≡ p
unfolding pick
pick_stay b p q h u = ground (arith, compare_refl p.version, below p.version q.version)

pick_hit : (b : Best) (p : FileInfo) → Under p b.0 → (pick b p).0 ≡ p
unfolding pick
pick_hit b p u = ground (arith, compare_refl p.version)

pick_one : (b : Best) (q : FileInfo) → ((pick b q).0 ≡ b.0) ⊎ ((pick b q).0 ≡ q)
unfolding pick
pick_one b q = ground arith

pick-Under : (b : Best) (p q : FileInfo) → Under p b.0 → Under p q → Under p (pick b q).0
pick-Under b p q u w = elim (pick_one b q) [ inl e ↦ rw e u | inr e ↦ rw e w ]

-- After the dominating entry, nothing changes.
stays :
    (b : Best) (p : FileInfo) (qs : List FileInfo)
    → b.0 ≡ p
    → All (Under p) qs
    → (pick_all b qs).0 ≡ p
unfolding pick_all
stays b p [] h a = h
stays b p (q ∷ qs) h a = stays (pick b q) p qs (pick_stay b p q h a.0) a.1

pub pick_all_dominated :
    (b : Best) (p : FileInfo) (qs rs : List FileInfo)
    → Under p b.0
    → All (Under p) qs
    → All (Under p) rs
    → (pick_all b (qs ++ p ∷ rs)).0 ≡ p
unfolding pick_all
pick_all_dominated b p [] rs u a c = stays (pick b p) p rs (pick_hit b p u) c
pick_all_dominated b p (q ∷ qs) rs u a c =
    pick_all_dominated (pick b q) p qs rs (pick-Under b p q u a.0) a.1 c

-- The entries that compete for a name: the local one, then what the views hold, in the loop's order.
unfoldable pub entries : Table ℕ View → Option FileInfo → FileName → List FileInfo
entries peers none name = held peers name
entries peers (some fi) name = fi ∷ held peers name

abbrev pub chosen : Option Best → Option FileInfo
chosen none = none
chosen (some b) = some b.0

global_loop-none :
    (peers : Table ℕ View) (name : FileName)
    → global_loop peers name none
      ≡ elim (held peers name) [ [] ↦ none | p ∷ ps ↦ some (pick_all (p, false) ps) ]
unfolding global_loop held
global_loop-none [] name = refl
global_loop-none ((id, view) ∷ peers) name = elim (Option-cases (lookup name view)) [
  | inl e ↦ rw (e, held) (global_loop-none peers name)
  | inr (p, e) ↦ rw (e, held) (global_loop-held peers name (p, false))
]

-- The winner is found by going through the entries.
global_from-entries :
    (peers : Table ℕ View) (local : Option FileInfo) (name : FileName) (p : FileInfo)
    (ps : List FileInfo)
    → entries peers local name ≡ p ∷ ps
    → (mine : Bool) × (global_from peers local name ≡ some (pick_all (p, mine) ps))
unfolding entries global_from
global_from-entries peers none name p ps h = (false, rw (global_loop-none peers name, h) refl)
global_from-entries peers (some fi) name p ps h = (
  true,
  let same : (fi ≡ p) × (held peers name ≡ ps) = (cc, cc) in
      global_loop-held peers name (fi, true)
      ∙ rw same.1 (ap (λ x. some (pick_all (x, true) ps)) same.0),
)

-- An entry whose version is greater than that of every other entry of the name, local or in a view,
-- wins, wherever it stands in the order in which the loop meets them.
pub global_from_dominated :
    (peers : Table ℕ View) (local : Option FileInfo) (name : FileName) (p : FileInfo)
    (qs rs : List FileInfo)
    → entries peers local name ≡ qs ++ p ∷ rs
    → All (Under p) qs
    → All (Under p) rs
    → chosen (global_from peers local name) ≡ some p
global_from_dominated peers local name p [] rs h a c =
    let w = global_from-entries peers local name p rs h in
    rw (w.1) (ap some (stays (p, w.0) p rs refl c))
global_from_dominated peers local name p (q ∷ qs) rs h a c =
    let w = global_from-entries peers local name q (qs ++ p ∷ rs) h in
    rw (w.1) (ap some (pick_all_dominated (q, w.0) p qs rs a.0 a.1 c))

abbrev TwoOrders : FileInfo → FileInfo → FileInfo → Bool → Type 0
TwoOrders a b c mine =
    ((pick_all (b, mine) (c ∷ a ∷ [])).0 ≡ a) × ((pick_all (b, mine) (a ∷ c ∷ [])).0 ≡ c)

picks-TwoOrders :
    (a b c : FileInfo) (mine : Bool)
    → compare a.version b.version ≡ greater
    → compare c.version b.version ≡ concurrent
    → compare a.version c.version ≡ concurrent
    → newer_or_greater c b ≡ false
    → newer_or_greater c a ≡ true
    → TwoOrders a b c mine
unfolding pick_all pick flip
picks-TwoOrders a b c mine g p q x y =
    (ground arith, ground (arith, compare-flip a.version c.version))

held_two :
    (i j : ℕ) (v w : View) (name : FileName) (a c : FileInfo)
    → lookup name v ≡ some a
    → lookup name w ≡ some c
    → held ((i, v) ∷ (j, w) ∷ []) name ≡ a ∷ c ∷ []
unfolding held
held_two i j v w name a c h k = ground arith

-- The order of the peers decides some conflicts. Where the local entry is older than one peer's by its
-- version, another peer's is concurrent with both, and the tie break puts that one after the local
-- entry and before the first peer's, the entry that the loop meets last wins: one state has two
-- winners, and which one it is depends on the order of the map.
pub order_decides :
    (a b c : FileInfo) (i j : ℕ) (v w : View) (name : FileName)
    → lookup name v ≡ some a
    → lookup name w ≡ some c
    → compare a.version b.version ≡ greater
    → compare c.version b.version ≡ concurrent
    → compare a.version c.version ≡ concurrent
    → newer_or_greater c b ≡ false
    → newer_or_greater c a ≡ true
    → (chosen (global_from ((j, w) ∷ (i, v) ∷ []) (some b) name) ≡ some a)
      × (chosen (global_from ((i, v) ∷ (j, w) ∷ []) (some b) name) ≡ some c)
unfolding global_from
order_decides a b c i j v w name h k g p q x y =
    let both : TwoOrders a b c true = picks-TwoOrders a b c true g p q x y in
    (
      ap chosen (global_loop-held ((j, w) ∷ (i, v) ∷ []) name (b, true))
          ∙ rw (held_two j i w v name c a k h) (ap some both.0),
      ap chosen (global_loop-held ((i, v) ∷ (j, w) ∷ []) name (b, true))
          ∙ rw (held_two i j v w name a c h k) (ap some both.1),
    )

-- A tie of the rule: the same counters, flags and sizes, or concurrent versions that the
-- modification time and the written form of the versions do not tell apart.
abbrev pub Tied : FileInfo → FileInfo → Type 0
Tied a b =
    ((compare a.version b.version ≡ equal) × (a.deleted ≡ b.deleted) × (a.size ≡ b.size))
    ⊎ ((compare a.version b.version ≡ concurrent)
        × (stamp a ≡ stamp b)
        × (canonical_version a.version ≡ canonical_version b.version))

signed_gt_flip : (a b : ℕ) → a < 2 ^ 64 → b < 2 ^ 64 → a ≢ b → signed_gt b a ≡ not (signed_gt a b)
signed_gt_flip a b p q h = ground arith

newer_flip :
    (a b : FileInfo)
    → (¬ ((stamp a ≡ stamp b) × (canonical_version a.version ≡ canonical_version b.version)))
    → newer_or_greater b a ≡ not (newer_or_greater a b)
unfolding newer_or_greater total_greater
newer_flip a b h = ground (
  arith,
  signed_gt_flip (stamp a) (stamp b) (omega arith) (omega arith),
  lex_lt_total (canonical_version a.version) (canonical_version b.version),
  lex_lt_asymm (canonical_version a.version) (canonical_version b.version),
)

-- Two devices that each hold one entry of a name, with the other's in their view, pick the same
-- winner, unless the two entries tie. Sizes are below 2 ^ 64, as the Go type has it.
pub devices_agree :
    (a b : FileInfo) (mine other : Bool)
    → a.size < 2 ^ 64
    → b.size < 2 ^ 64
    → (¬ Tied a b)
    → (pick (a, mine) b).0 ≡ (pick (b, other) a).0
unfolding pick flip
devices_agree a b mine other p q h =
    ground
      (arith, compare-flip a.version b.version, signed_gt_flip a.size b.size p q, newer_flip a b)
