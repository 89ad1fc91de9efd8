-- ===== src/Engine/Moves.antt =====
-- engine.go: moves, deletions and overwrites that a peer's view asks for. Relocating a file on disk is the
-- stager's, a parameter that says whether it worked; so is the name of a conflict copy.
use cross_sync.Base.{
  ℕ, list_eq, nat_eq, List, Option, Bool, [], false, if◌then◌else◌, ltb, none, not, some, suc, zero,
  ◌%◌, ◌&&◌, ◌++◌, ◌+◌, ◌-◌, ◌/◌, ◌^◌, ◌||◌, ◌∷◌,
}
use cross_sync.Table.{Table, lookup, insert, has_key}
use cross_sync.Text.{lex_lt}
use cross_sync.Hash.{Bytes, flatten}
use cross_sync.Index.Files.{FileInfo, FileName, Result, kind_beq, file, err, ok}
use cross_sync.Index.Query.{list_all}
use cross_sync.Engine.State.{View, Engine, is_in_flight}
use cross_sync.Engine.Pending.{local_map, is_send_only}

-- `strconv.FormatInt(size, 10)`, on fuel for the 19 digits of an int64.
unfoldable pub format_decimal : ℕ → ℕ → Bytes
format_decimal zero n = []
format_decimal (suc fuel) n =
    let higher = format_decimal fuel (n / 10) in
    if ltb n 10 then (b'0' + n) ∷ [] else higher ++ ((b'0' + n % 10) ∷ [])

abbrev pub format_int : ℕ → Bytes
format_int n = if ltb n (2 ^ 63) then format_decimal 19 n else b'-' ∷ format_decimal 19 (2 ^ 64 - n)

-- `contentKey`
unfoldable pub content_key : FileInfo → Bytes
content_key fi = format_int fi.size ++ (0 ∷ flatten fi.blocks)

-- `group`
pub record Group : Type 0 where
  pub sources : List FileName
  pub targets : List FileName

abbrev pub group_of : Bytes → Table Bytes Group → Group
group_of k groups = elim (lookup k groups) [
  | none ↦ record { sources = []; targets = [] }
  | some g ↦ g
]

unfoldable pub add_source : Bytes → FileName → Table Bytes Group → Table Bytes Group
add_source k name groups =
    let g = group_of k groups in insert k (record g { sources = g.sources ++ (name ∷ []) }) groups

unfoldable pub add_target : Bytes → FileName → Table Bytes Group → Table Bytes Group
add_target k name groups =
    let g = group_of k groups in insert k (record g { targets = g.targets ++ (name ∷ []) }) groups

-- The files that a move may start from: live, no directory and no link.
unfoldable pub live_files : List FileInfo → List FileInfo
live_files [] = []
live_files (fi ∷ fis) =
    let rest = live_files fis in if not fi.deleted && kind_beq fi.type file then fi ∷ rest else rest

abbrev pub is_gone : Option FileInfo → Bool
is_gone none = false
is_gone (some g) = g.deleted

-- The loop over the local files.
unfoldable pub gather_sources :
    Engine → View → Table FileName FileInfo → Table Bytes Group → Table Bytes Group
unfolding content_key add_source
gather_sources e view [] groups = groups
gather_sources e view ((name, local) ∷ m) groups = gather_sources e view m (
    if is_in_flight e name
    then groups
    else if is_gone (lookup name view)
    then add_source (content_key local) name groups
    else groups)

-- The loop over the view.
unfoldable pub gather_targets :
    Table FileName FileInfo → View → Table Bytes Group → Table Bytes Group
unfolding content_key add_target has_key
gather_targets local [] groups = groups
gather_targets local ((name, g) ∷ view) groups = gather_targets local view (
    if g.deleted || not (kind_beq g.type file)
    then groups
    else if has_key name local
    then groups
    else add_target (content_key g) name groups)

-- `Move`, but for the peer's number, which the caller has.
pub record Move : Type 0 where
  pub from_name : FileName
  pub to_name : FileName
  pub global : FileInfo

-- A group of exactly one source and one target.
unfoldable pub pair_of : View → List FileName → List FileName → Option Move
pair_of view (s ∷ []) (t ∷ []) = elim (lookup t view) [
  | none ↦ none
  | some g ↦ if g.deleted then none else some (record { from_name = s; to_name = t; global = g })
]
pair_of view _ _ = none

unfoldable pub moves_of : View → Table Bytes Group → List Move
unfolding pair_of
moves_of view [] = []
moves_of view ((k, g) ∷ groups) =
    let rest = moves_of view groups in
    elim (pair_of view g.sources g.targets) [ none ↦ rest | some m ↦ m ∷ rest ]

-- `sort.Slice` by the old name.
unfoldable pub place_move : Move → List Move → List Move
place_move m [] = m ∷ []
place_move m (k ∷ ms) = if lex_lt k.from_name m.from_name then k ∷ place_move m ms else m ∷ k ∷ ms

unfoldable pub sort_moves : List Move → List Move
unfolding place_move
sort_moves [] = []
sort_moves (m ∷ ms) = place_move m (sort_moves ms)

-- `PlanMoves`
unfoldable pub plan_moves : Engine → ℕ → Result (List Move)
unfolding live_files gather_sources gather_targets moves_of sort_moves
plan_moves e peer = if is_send_only e.direction then ok [] else elim (lookup peer e.peers) [
  | none ↦ ok []
  | some [] ↦ ok []
  | some (entry ∷ view) ↦ elim (list_all e.ix) [
    | err x ↦ err x
    | ok rows ↦
        let local = local_map (live_files rows) [] in
        let all = entry ∷ view in
        ok (sort_moves (moves_of all (gather_targets local all (gather_sources e all local []))))
  ]
]
