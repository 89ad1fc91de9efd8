-- ===== src/Engine/Pending.antt =====
-- engine.go and pending_incremental.go: which names are work to fetch or to send, by a walk of the whole
-- index and by the incremental path.
use cross_sync.Text.{sort_strings}
use cross_sync.Index.Store.{names_of}
use cross_sync.Engine.Global.{global_from}
use cross_sync.Engine.Content.{identical_content, same_content}
use cross_sync.Base.{
  ℕ, list_eq, nat_eq, Bool, List, Option, [], false, if◌then◌else◌, length, none, not, some, true,
  ◌&&◌, ◌||◌, ◌∷◌,
}
use cross_sync.Engine.State.{View, Direction, Engine, is_in_flight, send_only}
use cross_sync.Table.{Table, add, contains, insert, keys, lookup}
use cross_sync.Index.Files.{FileInfo, FileName, Result, directory, err, kind_beq, ok}
use cross_sync.Version.{compare, concurrent, greater}
use cross_sync.Index.Query.{list_all}

-- The type of the first view's entry says whether an unowned name is a directory.
unfoldable pub first_is_dir : Table ℕ View → FileName → Bool
first_is_dir [] name = false
first_is_dir ((id, view) ∷ peers) name =
    let rest = first_is_dir peers name in
    elim (lookup name view) [ none ↦ rest | some g ↦ kind_beq g.type directory ]

abbrev pub included : Option (FileName → Bool → Bool) → Table ℕ View → FileName → Bool
included none peers name = true
included (some match_name) peers name = match_name name (first_is_dir peers name)

-- The switch of `pullWanted`, at the local entry and the global one.
unfoldable pub wanted : Bool → Option FileInfo → FileInfo → Bool
wanted in_gate none global = if global.deleted then false else in_gate
wanted in_gate (some local) global =
    if not local.deleted && global.deleted
    then true
    else if not local.deleted && not global.deleted
    then elim (compare global.version local.version) [
      | greater ↦ not (identical_content local global)
      | concurrent ↦ not (same_content local global)
      | _ ↦ false
    ]
    else local.deleted && not global.deleted

abbrev pub is_send_only : Direction → Bool
is_send_only send_only = true
is_send_only _ = false

unfoldable pub pull_wanted : Engine → FileName → Option FileInfo → Bool
pull_wanted e name local =
    if is_send_only e.direction
    then false
    else if is_in_flight e name
    then false
    else elim (global_from e.peers local name) [
      | none ↦ false
      | some (global, is_local) ↦ wanted (included e.include e.peers name) local global
    ]

-- What one authoritative view says of a live local entry.
unfoldable pub lacks : FileInfo → Option FileInfo → Bool
lacks local none = true
lacks local (some pf) =
    let newer : Bool = elim (compare local.version pf.version) [ greater ↦ true | _ ↦ false ] in
    if pf.deleted then newer else newer && not (identical_content local pf)

unfoldable pub any_lacks : FileInfo → FileName → List View → Bool
unfolding lacks
any_lacks local name [] = false
any_lacks local name (view ∷ views) = lacks local (lookup name view) || any_lacks local name views

unfoldable pub upload_wanted : Engine → FileName → Option FileInfo → List View → Bool
unfolding any_lacks
upload_wanted e name none views = false
upload_wanted e name (some local) views =
    if local.deleted
    then false
    else if is_in_flight e name
    then false
    else any_lacks local name views

-- `authoritativeViewsLocked`
unfoldable pub authoritative : List ℕ → Table ℕ View → List View
authoritative pending [] = []
authoritative pending ((id, view) ∷ peers) =
    let rest = authoritative pending peers in if contains id pending then rest else view ∷ rest

-- `names` and `localMap` of the walk.
unfoldable pub add_names : List FileName → List FileName → List FileName
add_names [] set = set
add_names (n ∷ ns) set = add_names ns (add n set)

unfoldable pub view_names : Table ℕ View → List FileName → List FileName
unfolding add_names
view_names [] set = set
view_names ((id, view) ∷ peers) set = view_names peers (add_names (keys view) set)

unfoldable pub local_map : List FileInfo → Table FileName FileInfo → Table FileName FileInfo
local_map [] m = m
local_map (fi ∷ fis) m = local_map fis (insert fi.name fi m)

unfoldable pub keep : (FileName → Bool) → List FileName → List FileName
keep p [] = []
keep p (n ∷ ns) = let rest = keep p ns in if p n then n ∷ rest else rest

abbrev pub with_indexed : Engine → ℕ → Engine
with_indexed e n = record e { cache = record (e.cache) { indexed = n } }

-- `computeNeedPullsLocked`
unfoldable pub compute_need_pulls : Engine → Engine × Result (List FileName)
unfolding view_names local_map keep
compute_need_pulls e = if is_send_only e.direction then (e, ok []) else elim (list_all e.ix) [
  | err x ↦ (e, err x)
  | ok rows ↦
      let m = local_map rows [] in
      let names = view_names e.peers (add_names (names_of rows) []) in
      (
        with_indexed e (length m),
        ok (sort_strings (keep (λ n. pull_wanted e n (lookup n m)) names)),
      )
]

unfoldable pub upload_rows : Engine → List View → List FileInfo → List FileName
upload_rows e views [] = []
upload_rows e views (fi ∷ fis) =
    let rest = upload_rows e views fis in
    if upload_wanted e fi.name (some fi) views then fi.name ∷ rest else rest

-- `computePendingUploadsLocked`
unfoldable pub compute_uploads : Engine → Result (List FileName)
unfolding upload_rows
compute_uploads e = elim e.peers [
  | [] ↦ ok []
  | p ∷ ps ↦ elim (authoritative e.view_pending e.peers) [
    | [] ↦ ok []
    | v ∷ vs ↦ elim (list_all e.ix) [
      | err x ↦ err x
      | ok rows ↦ ok (sort_strings (upload_rows e (v ∷ vs) rows))
    ]
  ]
]
