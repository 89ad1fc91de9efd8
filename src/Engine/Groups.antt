-- ===== src/Engine/Groups.antt =====
-- engine.go, `PlanMoves`: what its groups gather.
use cross_sync.Base.{
  list_eq, nat_eq, Bool, All, All-snoc, Bool-cases, [], arith, eq_of_test, false, if◌then◌else◌,
  inl, inr, not, refl, some, true, ◌&&◌, ◌==◌, ◌||◌, ◌∷◌, ◌≡◌,
}
use cross_sync.Table.{Table, lookup, insert, has_key}
use cross_sync.Hash.{Bytes}
use mathlib.Core.Path.{subst}
use cross_sync.Index.Files.{FileInfo, FileName, kind_beq, file}
use cross_sync.Engine.State.{View, Engine, is_in_flight}
use cross_sync.Engine.Moves.{
  Group, add_source, add_target, content_key, gather_sources, gather_targets, group_of, is_gone,
}

-- A row that a move may start from.
abbrev pub is_file : FileInfo → Bool
is_file fi = not fi.deleted && kind_beq fi.type file

abbrev pub Files : Type 0
Files = Table FileName FileInfo

-- What a source and a target of the group of a key are, over the local files.
abbrev pub Source : Engine → View → Files → Bytes → FileName → Type 0
Source e view here k s =
    (is_in_flight e s ≡ false)
    × (is_gone (lookup s view) ≡ true)
    × ((fi : FileInfo) × (lookup s here ≡ some fi) × (content_key fi ≡ k))

abbrev pub Target : View → Files → Bytes → FileName → Type 0
Target view here k t =
    (has_key t here ≡ false)
    × ((g : FileInfo) × (lookup t view ≡ some g) × (is_file g ≡ true) × (content_key g ≡ k))

abbrev pub Good : Engine → View → Files → Bytes × Group → Type 0
Good e view here (k, g) = All (Source e view here k) g.sources × All (Target view here k) g.targets

All-insert :
    (P : Bytes × Group → Type 0) (k : Bytes) (g : Group) (groups : Table Bytes Group)
    → P (k, g)
    → All P groups
    → All P (insert k g groups)
unfolding insert
All-insert P k g [] p a = (p, tt)
All-insert P k g ((j, h) ∷ groups) p a = elim (Bool-cases (j == k)) [
  | inl same ↦ rw same (p, a.1)
  | inr other ↦ rw other (a.0, All-insert P k g groups p a.1)
]

group_of-Good :
    (e : Engine) (view : View) (here : Files) (k : Bytes) (groups : Table Bytes Group)
    → All (Good e view here) groups
    → Good e view here (k, group_of k groups)
unfolding lookup
group_of-Good e view here k [] a = (tt, tt)
group_of-Good e view here k ((j, h) ∷ groups) a = elim (Bool-cases (j == k)) [
  | inl same ↦
      let hit : h ≡ group_of k ((j, h) ∷ groups) = ground arith in
      subst (λ g. Good e view here (k, g)) hit
        (subst (λ i. Good e view here (i, h)) (eq_of_test j k same) a.0)
  | inr other ↦
      let miss : group_of k groups ≡ group_of k ((j, h) ∷ groups) = ground arith in
      subst (λ g. Good e view here (k, g)) miss (group_of-Good e view here k groups a.1)
]

add_source-Good :
    (e : Engine) (view : View) (here : Files) (k : Bytes) (s : FileName)
    (groups : Table Bytes Group)
    → Source e view here k s
    → All (Good e view here) groups
    → All (Good e view here) (add_source k s groups)
unfolding add_source
add_source-Good e view here k s groups p a =
    let g = group_of-Good e view here k groups a in
    All-insert (Good e view here) k _ groups (All-snoc _ _ s g.0 p, g.1) a

add_target-Good :
    (e : Engine) (view : View) (here : Files) (k : Bytes) (t : FileName)
    (groups : Table Bytes Group)
    → Target view here k t
    → All (Good e view here) groups
    → All (Good e view here) (add_target k t groups)
unfolding add_target
add_target-Good e view here k t groups p a =
    let g = group_of-Good e view here k groups a in
    All-insert (Good e view here) k _ groups (g.0, All-snoc _ _ t g.1 p) a

-- Each entry of a part of a map is found in the map.
abbrev pub Part : Files → Files → Type 0
Part whole m = All (λ entry. lookup entry.0 whole ≡ some entry.1) m

pub gather_sources-Good :
    (e : Engine) (view : View) (here m : Files) (groups : Table Bytes Group)
    → Part here m
    → All (Good e view here) groups
    → All (Good e view here) (gather_sources e view m groups)
unfolding gather_sources
gather_sources-Good e view here [] groups p a = a
gather_sources-Good e view here ((name, fi) ∷ m) groups p a =
    gather_sources-Good e view here m _ p.1
      (go (is_in_flight e name) (is_gone (lookup name view)) refl refl)
  where
    go :
        (b c : Bool)
        → is_in_flight e name ≡ b
        → is_gone (lookup name view) ≡ c
        → All
            (Good e view here)
            (if b then groups else if c then add_source (content_key fi) name groups else groups)
    go true c x y = a
    go false false x y = a
    go false true x y =
        add_source-Good e view here (content_key fi) name groups (x, y, (fi, p.0, refl)) a

pub gather_targets-Good :
    (e : Engine) (view : View) (here m : Files) (groups : Table Bytes Group)
    → Part view m
    → All (Good e view here) groups
    → All (Good e view here) (gather_targets here m groups)
unfolding gather_targets
gather_targets-Good e view here [] groups p a = a
gather_targets-Good e view here ((name, g) ∷ m) groups p a =
    gather_targets-Good e view here m _ p.1
      (go (g.deleted || not (kind_beq g.type file)) (has_key name here) refl refl)
  where
    go :
        (b c : Bool)
        → (g.deleted || not (kind_beq g.type file)) ≡ b
        → has_key name here ≡ c
        → All
            (Good e view here)
            (if b then groups else if c then groups else add_target (content_key g) name groups)
    go true c x y = a
    go false true x y = a
    go false false x y =
        add_target-Good e view here (content_key g) name groups (y, (g, p.0, ground arith, refl)) a
