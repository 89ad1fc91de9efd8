-- ===== src/Engine/Tests/Winners.antt =====
-- engine.go: winners, deltas and joins on small views.
use cross_sync.Session.{received, messages}
use cross_sync.Engine.Views.{store_all}
use cross_sync.Index.Query.{list_after}
use cross_sync.Index.Store.{put, alloc_sequence, exec, max_seq, sequenced, touch}
use cross_sync.Engine.Content.{identical_content, newer_or_greater, same_content}
use cross_sync.Base.{
  ℕ, nat_eq, list_eq, List, Option, [], arith, false, inl, inr, refl, some, true, ◌∷◌, ◌≡◌,
}
use cross_sync.Table.{lookup, insert, add}
use cross_sync.Version
use cross_sync.Version.{compare, Vector, merge}
use cross_sync.Index.Files.{FileInfo, FileName, ok}
use cross_sync.Index.Tests.{a_file, name_a, name_b, filled, filled-IsSound}
use cross_sync.Index.History.{Write, run, apply, puts}
use cross_sync.Engine.State.{View}
use cross_sync.Engine.Global.{global_from, held, pick}
use cross_sync.Engine.Winner.{
  global_from_dominated, devices_agree, order_decides, chosen, Tied, entries,
}
use cross_sync.Engine.Delta.{delta_completes, wired, wired_row}
use cross_sync.Engine.Join.{join_one, Stat, is_trusted, join_views}
use cross_sync.Engine.Joined.{join_one-IsJoin, IsJoin}

abbrev dated : Vector → ℕ → FileInfo
dated version at = record (a_file name_a version) { modified_s = at }

abbrev a_view : FileInfo → View
a_view fi = (name_a, fi) ∷ []

abbrev old_one : FileInfo
old_one = dated ((1, 1) ∷ []) 300

abbrev newer_one : FileInfo
newer_one = dated ((1, 2) ∷ []) 100

abbrev other_one : FileInfo
other_one = dated ((2, 1) ∷ []) 200

global_from_dominated_example :
    chosen (global_from ((5, a_view old_one) ∷ (6, a_view newer_one) ∷ []) (some old_one) name_a)
    ≡ some newer_one
unfolding compare Version.get lookup add held entries
global_from_dominated_example =
    global_from_dominated ((5, a_view old_one) ∷ (6, a_view newer_one) ∷ []) (some old_one) name_a
      newer_one (old_one ∷ old_one ∷ []) [] refl (inr refl, (inr refl, tt)) tt

not-Tied : ¬ Tied old_one other_one
unfolding compare Version.get lookup add
not-Tied (inl (c, d, s)) = cc
not-Tied (inr (c, s, v)) = absurd (omega (arith, s))

devices_agree_example : (pick (old_one, true) other_one).0 ≡ (pick (other_one, true) old_one).0
devices_agree_example =
    devices_agree old_one other_one true true (omega arith) (omega arith) not-Tied

-- The order of the two peers decides which of them wins.
order_decides_example :
    (chosen (global_from ((6, a_view other_one) ∷ (5, a_view newer_one) ∷ []) (some old_one) name_a)
      ≡ some newer_one)
    × (chosen
          (global_from ((5, a_view newer_one) ∷ (6, a_view other_one) ∷ []) (some old_one) name_a)
        ≡ some other_one)
unfolding compare Version.get lookup add newer_or_greater
order_decides_example =
    order_decides newer_one old_one other_one 5 6 (a_view newer_one) (a_view other_one) name_a refl
      refl refl refl refl refl refl

abbrev later_writes : List Write
later_writes = puts (a_file name_b []) ∷ []

abbrev stored_b : FileInfo
stored_b = record (a_file name_b []) { sequence = 2 }

-- The view that the peer got of the index over the wire.
abbrev first_row : FileInfo
first_row = record (a_file name_a ((1, 1) ∷ [])) { sequence = 1 }

abbrev wired_view : View
wired_view = (name_a, wired first_row) ∷ []

only_row : (m : FileName) → lookup m wired_view ≡ wired_row (lookup m filled.files)
unfolding lookup
only_row m = ground arith

delta_completes_example :
    (rows : List FileInfo) × (list_after (run filled later_writes) (max_seq filled) ≡ ok rows)
    × (lookup name_b (store_all (received (messages rows)) wired_view) ≡ some (wired stored_b))
unfolding run apply put sequenced alloc_sequence exec touch insert lookup
delta_completes_example =
    delta_completes filled later_writes wired_view name_b stored_b filled-IsSound (refl, tt) refl
      only_row refl

abbrev undisturbed : FileName → Option Stat
undisturbed name = some (record { is_dir = false; size = 3; modified_s = 300; modified_ns = 0 })

abbrev joined : FileInfo
joined = record old_one { version = (1, 1) ∷ (2, 1) ∷ [] }

join_one-IsJoin_example : IsJoin old_one (held ((5, a_view other_one) ∷ []) name_a) joined
unfolding join_one join_views compare merge Version.get lookup insert add identical_content
    same_content is_trusted held
join_one-IsJoin_example =
    join_one-IsJoin undisturbed ((5, a_view other_one) ∷ []) old_one joined ((refl, tt), tt) refl
