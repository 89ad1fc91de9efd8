-- ===== src/Engine/Join.antt =====
-- engine.go, `JoinIdentical`: the vectors of copies with the same blocks become one vector above them. What
-- `os.Stat` says of a path is a parameter.
use cross_sync.Base.{
  ℕ, list_eq, nat_eq, List, Option, Bool, [], false, if◌then◌else◌, length, none, not, some, true,
  ◌&&◌, ◌==◌, ◌||◌, ◌∷◌,
}
use cross_sync.Table.{Table, lookup}
use cross_sync.Index.Files.{FileInfo, FileName, Result, kind_beq, directory, err, ok}
use cross_sync.Version.{Vector, merge, compare, equal}
use cross_sync.Index.Query.{list_all}
use cross_sync.Engine.State.{View, Engine, is_in_flight}
use cross_sync.Engine.Content.{identical_content}
use cross_sync.Engine.Local.{store_batch}

-- The fields of a stat that are read: int64 and int32 numbers as in the entries.
pub record Stat : Type 0 where
  pub is_dir : Bool
  pub size : ℕ
  pub modified_s : ℕ
  pub modified_ns : ℕ

-- The loop over the views: the merged vector and whether a view matched; `none` when one blocks.
unfoldable pub join_views : FileInfo → Table ℕ View → Vector × Bool → Option (Vector × Bool)
join_views local [] (merged, matched) = some (merged, matched)
join_views local ((id, view) ∷ peers) (merged, matched) = elim (lookup local.name view) [
  | none ↦ join_views local peers (merged, matched)
  | some p ↦
      let same = join_views local peers (merge merged p.version, true) in
      let other = join_views local peers (merged, matched) in
      if p.deleted || p.invalid
      then none
      else if not (identical_content local p)
      then other
      else same
]

-- The stat still describes the entry.
unfoldable pub is_trusted : (FileName → Option Stat) → FileInfo → Bool
is_trusted disk local = if kind_beq local.type directory then true else elim (disk local.name) [
  | none ↦ false
  | some st ↦
      not st.is_dir
      && st.size == local.size
      && st.modified_s == local.modified_s
      && st.modified_ns == local.modified_ns
]

abbrev pub is_same : Vector → Vector → Bool
is_same a b = elim (compare a b) [ equal ↦ true | _ ↦ false ]

-- The body of the loop over the candidates.
unfoldable pub join_one : (FileName → Option Stat) → Table ℕ View → FileInfo → Option FileInfo
unfolding join_views is_trusted
join_one disk peers local = elim (join_views local peers (local.version, false)) [
  | none ↦ none
  | some (merged, matched) ↦
      if not matched || is_same merged local.version
      then none
      else if not (is_trusted disk local)
      then none
      else some (record local { version = merged; sequence = 0 })
]

abbrev pub is_candidate : Engine → FileInfo → Bool
is_candidate e fi = not (fi.deleted || fi.invalid || is_in_flight e fi.name)

unfoldable pub join_all : (FileName → Option Stat) → Engine → List FileInfo → List FileInfo
unfolding join_one
join_all disk e [] = []
join_all disk e (fi ∷ fis) =
    let rest = join_all disk e fis in
    if is_candidate e fi
    then elim (join_one disk e.peers fi) [ none ↦ rest | some out ↦ out ∷ rest ]
    else rest

abbrev pub joined_count : List FileInfo → Engine × Result (Unit {0}) → Engine × Result ℕ
joined_count fis (e, err x) = (e, err x)
joined_count fis (e, ok u) = (e, ok (length fis))

abbrev pub store_joined : Engine → List FileInfo → Engine × Result ℕ
store_joined e [] = (e, ok 0)
store_joined e (fi ∷ fis) = joined_count (fi ∷ fis) (store_batch e (fi ∷ fis))

-- `JoinIdentical`
unfoldable pub join_identical : (FileName → Option Stat) → Engine → Engine × Result ℕ
unfolding join_all store_batch
join_identical disk e = elim e.peers [
  | [] ↦ (e, ok 0)
  | p ∷ ps ↦ elim (list_all e.ix) [
    | err x ↦ (e, err x)
    | ok fis ↦ store_joined e (join_all disk e fis)
  ]
]
