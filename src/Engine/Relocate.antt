-- ===== src/Engine/Relocate.antt =====
-- engine.go, `PlanMoves`: each planned move pairs a live local file that the peer deleted with a file of the
-- same content that the peer has and this device has not.
use cross_sync.Base.{
  ℕ, list_eq, nat_eq, List, Option, All, Bool-cases, Option-cases, [], ap, arith, eq_refl, false,
  if◌then◌else◌, inl, inr, none, refl, some, sym, true, ◌∙◌, ◌∷◌, ◌≡◌,
}
use cross_sync.Table.{Table, lookup, insert, has_key, IsMap, lookup-insert, insert-IsMap}
use cross_sync.Hash.{Bytes}
use mathlib.Core.Path.{subst}
use cross_sync.Text.{lex_lt}
use cross_sync.Index.Files.{FileInfo, FileName, ok}
use cross_sync.Index.Fresh.{IsSound, Numbered}
use cross_sync.Index.Query.{list_all, select}
use cross_sync.Engine.State.{View, Engine, is_in_flight}
use cross_sync.Engine.Pending.{local_map, is_send_only}
use cross_sync.Engine.Moves.{
  plan_moves, Group, Move, content_key, gather_sources, gather_targets, is_gone, live_files,
  moves_of, pair_of, place_move, sort_moves,
}
use cross_sync.Engine.Groups.{
  Source, Target, Good, Files, Part, gather_sources-Good, gather_targets-Good, is_file,
}

-- What a planned move is.
pub record IsMove (e : Engine) (view : View) (m : Move) : Type 0 where
  pub still : is_in_flight e m.from_name ≡ false
  pub deleted_there : is_gone (lookup m.from_name view) ≡ true
  pub source :
      (fi : FileInfo) × (lookup m.from_name e.ix.files ≡ some fi)
      × (is_file fi ≡ true)
      × (content_key fi ≡ content_key m.global)
  pub live_there : (lookup m.to_name view ≡ some m.global) × (is_file m.global ≡ true)
  pub absent_here : (fi : FileInfo) → lookup m.to_name e.ix.files ≡ some fi → is_file fi ≡ false

-- The same, over the table of the local files.
record Pair (e : Engine) (view : View) (here : Files) (m : Move) : Type 0 where
  k : Bytes
  source : Source e view here k m.from_name
  target : Target view here k m.to_name
  same : lookup m.to_name view ≡ some m.global

pair_of-Pair :
    (e : Engine) (view : View) (here : Files) (k : Bytes) (ss ts : List FileName) (m : Move)
    → All (Source e view here k) ss
    → All (Target view here k) ts
    → pair_of view ss ts ≡ some m
    → Pair e view here m
unfolding pair_of
pair_of-Pair e view here k (s ∷ []) (t ∷ []) m a b h = elim (Option-cases (lookup t view)) [
  | inl absent ↦ absurd (ground arith)
  | inr (g, there) ↦
      let planned : m ≡ record { from_name = s; to_name = t; global = g } = ground arith in
      subst (Pair e view here) (sym planned)
        (record { k = k; source = a.0; target = b.0; same = there })
]
pair_of-Pair e view here k [] ts m a b h = absurd (ground arith)
pair_of-Pair e view here k (s ∷ r ∷ ss) ts m a b h = absurd (ground arith)
pair_of-Pair e view here k (s ∷ []) [] m a b h = absurd (ground arith)
pair_of-Pair e view here k (s ∷ []) (t ∷ u ∷ ts) m a b h = absurd (ground arith)

found-All :
    (P : Move → Type 0) (o : Option Move) (ms : List Move)
    → ((m : Move) → o ≡ some m → P m)
    → All P ms
    → All P (elim o [ none ↦ ms | some m ↦ m ∷ ms ])
found-All P none ms f a = a
found-All P (some m) ms f a = (f m refl, a)

moves_of-Pair :
    (e : Engine) (view : View) (here : Files) (groups : Table Bytes Group)
    → All (Good e view here) groups
    → All (Pair e view here) (moves_of view groups)
unfolding moves_of
moves_of-Pair e view here [] a = tt
moves_of-Pair e view here ((k, g) ∷ groups) a =
    found-All (Pair e view here) (pair_of view g.sources g.targets) (moves_of view groups)
      (λ m h. pair_of-Pair e view here k g.sources g.targets m a.0.0 a.0.1 h)
      (moves_of-Pair e view here groups a.1)

place_move-All :
    (P : Move → Type 0) (m : Move) (ms : List Move) → P m → All P ms → All P (place_move m ms)
unfolding place_move
place_move-All P m [] p a = (p, tt)
place_move-All P m (k ∷ ms) p a = elim (Bool-cases (lex_lt k.from_name m.from_name)) [
  | inl smaller ↦ rw smaller (a.0, place_move-All P m ms p a.1)
  | inr larger ↦ rw larger (p, a)
]

sort_moves-All : (P : Move → Type 0) (ms : List Move) → All P ms → All P (sort_moves ms)
unfolding sort_moves
sort_moves-All P [] a = tt
sort_moves-All P (m ∷ ms) a = place_move-All P m (sort_moves ms) a.0 (sort_moves-All P ms a.1)

-- A map is a part of itself.
Part-cons :
    (k : FileName) (v : FileInfo) (whole m : Files)
    → lookup k whole ≡ none
    → Part whole m
    → Part ((k, v) ∷ whole) m
unfolding lookup
Part-cons k v whole [] h p = tt
Part-cons k v whole ((j, w) ∷ m) h p =
    (ground (arith, p.0, (list_eq {A = ℕ}).equals_iff k j), Part-cons k v whole m h p.1)

Part-whole : (m : Files) → IsMap m → Part m m
unfolding lookup
Part-whole [] u = tt
Part-whole ((k, v) ∷ m) u = (ground (arith, eq_refl k), Part-cons k v m m u.0 (Part-whole m u.1))

local_map-IsMap : (fis : List FileInfo) (m : Files) → IsMap m → IsMap (local_map fis m)
unfolding local_map
local_map-IsMap [] m u = u
local_map-IsMap (fi ∷ fis) m u =
    local_map-IsMap fis (insert fi.name fi m) (insert-IsMap fi.name fi m u)

-- The table of the local files has the rows that are files.
lookup-live_files :
    (next : ℕ) (n : FileName) (files m : Files)
    → Numbered next files
    → IsMap files
    → lookup n (local_map (live_files (select (λ fi. true) files)) m) ≡ elim (lookup n files) [
      | none ↦ lookup n m
      | some fi ↦ if is_file fi then some fi else lookup n m
    ]
unfolding lookup local_map live_files select
lookup-live_files next n [] m u i = refl
lookup-live_files next n ((k, fi) ∷ files) m u i = ground (
  arith,
  lookup-live_files next n files m u.2 i.1,
  lookup-live_files next n files (insert fi.name fi m) u.2 i.1,
  lookup-insert fi.name n fi m,
  (list_eq {A = ℕ}).equals_iff k n,
  (list_eq {A = ℕ}).equals_iff fi.name n,
)

abbrev local_files : Engine → Files
local_files e = local_map (live_files (select (λ fi. true) e.ix.files)) []

Pair-IsMove :
    (e : Engine) (view : View) (m : Move)
    → IsSound e.ix
    → Pair e view (local_files e) m
    → IsMove e view m
unfolding has_key lookup
Pair-IsMove e view m sound p =
    let rows : (n : FileName)
        → lookup n (local_files e) ≡ elim (lookup n e.ix.files) [
          | none ↦ none
          | some fi ↦ if is_file fi then some fi else none
        ] =
      λ n. lookup-live_files e.ix.next_seq n e.ix.files [] sound.numbered sound.unique in
    let (fi, here, key) = p.source.2 in
    let (g, there, good, same_key) = p.target.1 in
    let is_same : g ≡ m.global = cc in
    record {
      still = p.source.0;
      deleted_there = p.source.1;
      source = (
        fi,
        ground (arith, rows m.from_name),
        ground (arith, rows m.from_name),
        key ∙ sym same_key ∙ ap content_key is_same,
      );
      live_there = (p.same, ap is_file (sym is_same) ∙ good);
      absent_here = λ x h. ground (arith, rows m.to_name);
    }

All-weaken :
    (P Q : Move → Type 0) (f : (m : Move) → P m → Q m) (ms : List Move) → All P ms → All Q ms
All-weaken P Q f [] a = tt
All-weaken P Q f (m ∷ ms) a = (f m a.0, All-weaken P Q f ms a.1)

-- On a device that applies remote changes, with a sound index that answers, `PlanMoves` succeeds, and each
-- move of the plan starts from a file that is live here, not in flight, and deleted in the peer's view, and
-- ends at a name under which that view has a live file and this device none, both of the same content
-- key. The peer's view is a Go map.
pub plan_moves_lem :
    (e : Engine) (peer : ℕ) (view : View)
    → IsSound e.ix
    → e.ix.readable ≡ true
    → is_send_only e.direction ≡ false
    → lookup peer e.peers ≡ some view
    → IsMap view
    → (ms : List Move) × (plan_moves e peer ≡ ok ms) × All (IsMove e view) ms
unfolding plan_moves list_all
plan_moves_lem e peer [] sound answers active known u = ([], ground arith, tt)
plan_moves_lem e peer (entry ∷ view) sound answers active known u =
    let all : View = entry ∷ view in
    let here : Files = local_files e in
    let sources =
      gather_sources-Good e all here here [] (Part-whole here (local_map-IsMap _ [] tt)) tt in
    let groups =
      gather_targets-Good e all here all (gather_sources e all here []) (Part-whole all u)
        sources in
    let ms : List Move = moves_of all (gather_targets here all (gather_sources e all here [])) in
    (
      sort_moves ms,
      ground arith,
      All-weaken (Pair e all here) (IsMove e all) (λ m p. Pair-IsMove e all m sound p)
          (sort_moves ms) (sort_moves-All (Pair e all here) ms (moves_of-Pair e all here _ groups)),
    )
