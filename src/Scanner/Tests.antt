-- ===== src/Scanner/Tests.antt =====
-- scanner.go: a file that is written while it is scanned, and a file that is moved while the gates are on.
use cross_sync.Hash.{flatten}
use cross_sync.Engine.Moves.{content_key, format_decimal}
use cross_sync.Index.Query.{list, select}
use cross_sync.Scanner.Renames.Folded.{Folded, detect_renames-Folded}
use cross_sync.Scanner.Renames.{
  ScanView, detect_renames, added_by_key, added_by_mt, deletion_of, drop_taken, move_to, pair_row,
  pair_rows, listed_rows,
}
use cross_sync.Table.{lookup, contains, insert, keys}
use cross_sync.Text.{slash}
use cross_sync.Index.Store.{exec}
use cross_sync.Scanner.Deferred.{deferred_together}
use cross_sync.Index.Tests.{a_file, name_a, empty_index, name_b}
use cross_sync.Index.Gates.{missing_list, missing_replace, run_statements}
use cross_sync.Index.Files.{FileName, Index}
use cross_sync.Engine.Local.{Change, added, deleted}
use cross_sync.Scanner.{
  confirm_deletions, ScanResult, MtKey, SettleGate, is_among, confirm_loop, deferred_names,
  held_back, is_half_moved, observed, out_of_scope, to_hash, visit_file,
}
use cross_sync.Scanner.Confirmed.{after_scans, missed, misses, confirmed}
use cross_sync.Scanner.Settled.{FileEvent, Still, looked, looks_after, row_after, settled}
use cross_sync.Base.{
  nat_eq, list_eq, arith, refl, List, [], false, inr, none, some, true, ℕ, ◌++◌, ◌-◌, ◌∷◌, ◌≡◌, ◌≤◌,
  ◌==◌,
}

abbrev two_scans : SettleGate
two_scans = record { scans = 2; seconds = 10; bypass = false }

abbrev key_of : ℕ → MtKey
key_of size = record { size = size; mod_s = 50; mod_ns = 0 }

-- Newest first: the file grew from 3 to 7 bytes between the first two looks, and stood still since.
abbrev looks_so_far : List FileEvent
looks_so_far = looked false none (key_of 7) 105 none ∷ looked false none (key_of 3) 100 none ∷ []

growing_file :
    row_after two_scans looks_so_far
    ≡ some (record { size = 7; mod_s = 50; mod_ns = 0; count = 1; first = 105 })
unfolding row_after visit_file observed
growing_file = refl

too_early :
    visit_file two_scans false 110 (row_after two_scans looks_so_far) none (key_of 7)
    ≡ held_back (record { size = 7; mod_s = 50; mod_ns = 0; count = 2; first = 105 })
unfolding row_after visit_file observed
too_early = refl

still_now :
    visit_file two_scans false 120 (row_after two_scans looks_so_far) none (key_of 7)
    ≡ to_hash added 105
unfolding row_after visit_file observed
still_now = refl

settled_example :
    (n : ℕ) × (2 ≤ n)
    × (10 ≤ 120 - 105)
    × Still
        (key_of 7)
        n
        105
        (record { key = key_of 7; since = 120 } ∷ looks_after two_scans looks_so_far)
settled_example = settled two_scans looks_so_far none (key_of 7) 120 105 added refl still_now

-- The file was quiet from 105 on and read at 120; it grew to 9 bytes meanwhile.
abbrev grew_while_read : List FileEvent
grew_while_read = looked false none (key_of 7) 120 (some (key_of 9)) ∷ looks_so_far

grew_run :
    row_after two_scans grew_while_read
    ≡ some (record { size = 9; mod_s = 50; mod_ns = 0; count = 1; first = 105 })
unfolding row_after visit_file observed
grew_run = refl

-- One second later it is read again, with a quiet window of ten seconds.
read_again :
    visit_file two_scans false 121 (row_after two_scans grew_while_read) none (key_of 9)
    ≡ to_hash added 105
unfolding row_after visit_file observed
read_again = refl

abbrev gone : FileName → Change
gone name = record {
  kind = deleted;
  info = record (a_file name []) { size = 7; modified_s = 50; blocks = (1 ∷ []) ∷ [] };
  from_name = [];
  out_of_gate = false;
}

abbrev scan_of : List Change → List MtKey → ScanResult
scan_of changes keys = record {
  changes = changes;
  now = 120;
  in_scope = λ n. true;
  unsettled = keys;
}

abbrev one_gone : ScanResult
one_gone = scan_of (gone name_a ∷ []) []

twice :
    missed name_a (confirm_deletions 2 one_gone (after_scans 2 (empty_index []) (one_gone ∷ []))).1
    ≡ true
unfolding after_scans confirm_deletions confirm_loop missed out_of_scope deferred_names missing_list
    missing_replace run_statements exec lookup insert contains
twice = refl

once : missed name_a (confirm_deletions 2 one_gone (empty_index [])).1 ≡ false
unfolding confirm_deletions confirm_loop missed out_of_scope deferred_names missing_list
    missing_replace run_statements exec lookup insert contains
once = refl

confirmed_example : 2 ≤ misses name_a (one_gone ∷ one_gone ∷ [])
confirmed_example =
    confirmed 2 (empty_index []) one_gone (one_gone ∷ []) name_a refl refl refl twice

abbrev nested : FileName
nested = name_a ++ (slash ∷ name_b)

-- The file `a/b` is gone, and a file that is still held back has its size and time.
abbrev moving : ScanResult
moving = scan_of (gone name_a ∷ gone nested ∷ []) (key_of 7 ∷ [])

half_moved : is_half_moved (key_of 7 ∷ []) (gone nested) ≡ true
unfolding is_among
half_moved = refl

deferred_together_example :
    missed name_a (confirm_deletions 2 moving (after_scans 2 (empty_index []) (moving ∷ []))).1
    ≡ false
deferred_together_example =
    deferred_together 2 moving (after_scans 2 (empty_index []) (moving ∷ [])) 1 (gone nested) name_a
      (omega arith) refl half_moved (λ e. cc, inr (name_b, refl))

abbrev name_c : FileName
name_c = 99 ∷ []

-- Two rows of one content, which the walk did not see, and one added file of that content.
abbrev two_rows : Index
two_rows = record (empty_index []) {
  files = (name_a, a_file name_a []) ∷ (name_b, a_file name_b []) ∷ [];
}

abbrev one_added : List Change
one_added =
    record { kind = added; info = a_file name_c []; from_name = []; out_of_gate = false } ∷ []

abbrev whole_scan : ScanView
whole_scan = record {
  seen = λ n. n == name_c;
  claimed = λ n. false;
  in_scope = λ n. true;
  matched = λ fi. true;
  scoped = false;
  cross_scope_pair = false;
  gone = λ n. true;
  gate_moves = [];
  read_hashes = λ c. none;
}

-- The first row is renamed, the second one deleted.
renamed_once :
    detect_renames whole_scan two_rows one_added
    ≡ move_to (a_file name_a []) (a_file name_c []) ∷ deletion_of (a_file name_b []) ∷ []
unfolding detect_renames pair_rows pair_row drop_taken added_by_key added_by_mt content_key is_among
    list select insert lookup contains format_decimal flatten
renamed_once = refl

detect_renames-Folded_example :
    Folded whole_scan one_added
      (listed_rows (list two_rows))
      (detect_renames whole_scan two_rows one_added)
detect_renames-Folded_example = detect_renames-Folded whole_scan two_rows one_added
