-- ===== src/Engine/Joined.antt =====
-- engine.go, `JoinIdentical`: the joined vector is the least one above the copies, both devices come to
-- the same one, and nothing but the vector and the sequence of an entry changes.
use cross_sync.Version.Join.{merge-Le}
use cross_sync.Base.{
  ℕ, list_eq, nat_eq, Bool, All, Option-cases, [], false, inl, inr, none, refl, some, true, ◌∷◌,
  ◌≡◌, Bool-cases, List, Option, arith, if◌then◌else◌, not, sym, ◌||◌, ◌∙◌,
}
use cross_sync.Table.{Table, lookup, IsMap}
use cross_sync.Index.Files.{FileInfo, FileName}
use cross_sync.Version.{Vector, merge}
use cross_sync.Version.Order.{Le}
use mathlib.Core.Path.{subst}
use cross_sync.Engine.State.{View}
use cross_sync.Engine.Global.{held}
use cross_sync.Engine.Content.{identical_content}
use cross_sync.Engine.Join.{join_views, Stat, join_one}

-- A view's entry that did not block the join, and lies below the vector if it is a copy.
abbrev pub Covered : FileInfo → Vector → FileInfo → Type 0
Covered local m p =
    (p.deleted ≡ false) × (p.invalid ≡ false) × (identical_content local p ≡ true → Le p.version m)

abbrev pub Copies : FileInfo → Vector → FileInfo → Type 0
Copies local u p = identical_content local p ≡ true → Le p.version u

-- The loop, over the entries that the views hold.
join_list : FileInfo → List FileInfo → Vector × Bool → Option (Vector × Bool)
join_list local [] s = some s
join_list local (p ∷ ps) s =
    if p.deleted || p.invalid
    then none
    else if not (identical_content local p)
    then join_list local ps s
    else join_list local ps (merge s.0 p.version, true)

join_views-held :
    (local : FileInfo) (peers : Table ℕ View) (s : Vector × Bool)
    → join_views local peers s ≡ join_list local (held peers local.name) s
unfolding join_views held join_list
join_views-held local [] (start, b) = refl
join_views-held local ((id, view) ∷ peers) (start, b) =
    elim (Option-cases (lookup local.name view)) [
      | inl e ↦ ground (arith, join_views-held local peers (start, b))
      | inr (p, e) ↦ ground (
        arith,
        join_views-held local peers (start, b),
        join_views-held local peers (merge start p.version, true),
      )
    ]

record Least (local : FileInfo) (ps : List FileInfo) (start m : Vector) : Type 0 where
  above : Le start m
  covered : All (Covered local m) ps
  least : (u : Vector) → Le start u → All (Copies local u) ps → Le m u

Least-other :
    (local p : FileInfo) (ps : List FileInfo) (start m : Vector)
    → p.deleted ≡ false
    → p.invalid ≡ false
    → identical_content local p ≡ false
    → Least local ps start m
    → Least local (p ∷ ps) start m
Least-other local p ps start m d i other l = record {
  above = l.above;
  covered = ((d, i, λ same. cc), l.covered);
  least = λ u s c. l.least u s c.1;
}

Least-same :
    (local p : FileInfo) (ps : List FileInfo) (start m : Vector)
    → IsMap p.version
    → p.deleted ≡ false
    → p.invalid ≡ false
    → identical_content local p ≡ true
    → Least local ps (merge start p.version) m
    → Least local (p ∷ ps) start m
Least-same local p ps start m map_of d i same l =
    let both = merge-Le start p.version m map_of in
    record {
      above = λ k. omega (arith, both.0 k, l.above k);
      covered = ((d, i, λ h k. omega (arith, both.1 k, l.above k)), l.covered);
      least = λ u s c. l.least u ((merge-Le start p.version u map_of).2 s (c.0 same)) c.1;
    }

join_list-Least :
    (local : FileInfo) (ps : List FileInfo) (start m : Vector) (matched found : Bool)
    → All (λ p. IsMap p.version) ps
    → join_list local ps (start, matched) ≡ some (m, found)
    → Least local ps start m
unfolding join_list
join_list-Least local [] start m matched found maps h =
    let same : start ≡ m = cc in
    subst (Least local [] start) same
      (record { above = λ k. omega arith; covered = tt; least = λ u s c. s })
join_list-Least local (p ∷ ps) start m matched found maps h =
    elim (Bool-cases (p.deleted || p.invalid)) [
      | inl blocked ↦ absurd (ground arith)
      | inr live ↦ elim (Bool-cases (identical_content local p)) [
        | inl same ↦
            Least-same local p ps start m maps.0 (ground arith) (ground arith) same
              (join_list-Least local ps (merge start p.version) m true found maps.1 (ground arith))
        | inr other ↦
            Least-other local p ps start m (ground arith) (ground arith) other
              (join_list-Least local ps start m matched found maps.1 (ground arith))
      ]
    ]

-- What a join leaves of an entry: all but the vector and the sequence, a vector that is the least one
-- above its own and those of the copies, and no view that deletes the name.
pub record IsJoin (local : FileInfo) (ps : List FileInfo) (out : FileInfo) : Type 0 where
  pub kept : out ≡ record local { version = out.version; sequence = 0 }
  pub above : Le local.version out.version
  pub covered : All (Covered local out.version) ps
  pub least : (u : Vector) → Le local.version u → All (Copies local u) ps → Le out.version u

-- An entry that `JoinIdentical` writes is the local one with a fresh sequence and the least vector above
-- its own and those of all copies in the views, so that no history is lost and none is invented; no
-- view that has the name deletes it or holds it as invalid. The views' vectors are Go maps.
pub join_one-IsJoin :
    (disk : FileName → Option Stat) (peers : Table ℕ View) (local out : FileInfo)
    → All (λ p. IsMap p.version) (held peers local.name)
    → join_one disk peers local ≡ some out
    → IsJoin local (held peers local.name) out
unfolding join_one
join_one-IsJoin disk peers local out maps h =
    elim (Option-cases (join_views local peers (local.version, false))) [
      | inl e ↦ absurd (ground arith)
      | inr ((m, found), e) ↦
          let l : Least local (held peers local.name) local.version m =
            join_list-Least local (held peers local.name) local.version m false found maps
              (sym (join_views-held local peers (local.version, false)) ∙ e) in
          let same : out ≡ record local { version = m; sequence = 0 } = ground arith in
          subst (IsJoin local (held peers local.name)) (sym same)
            (record { kept = refl; above = l.above; covered = l.covered; least = l.least })
    ]
