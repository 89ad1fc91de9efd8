-- ===== src/Index/Tests.antt =====
-- index.go: runs on a small index.
use cross_sync.Index.Query.{list_prefix}
use cross_sync.Base.{nat_eq, list_eq, Bool, List, [], arith, false, refl, true, ◌∷◌, ◌≡◌}
use cross_sync.Table.{lookup, contains}
use cross_sync.Text.{slash}
use cross_sync.Version.{Vector}
use cross_sync.Index.Files.{FileInfo, FileName, Index, file, ok}
use cross_sync.Index.Store.{put_batch, names_of}
use cross_sync.Index.Fresh.{IsSound}
use cross_sync.Index.History.{Write, run, run-IsSound, batches, prunes, puts, removes}
use cross_sync.Index.Touched.{Announced, put_batch-Announced}
use cross_sync.Index.Prefix.{list_prefix_lem, is_below}

-- A live file of three bytes that waits for a sequence.
abbrev pub a_file : FileName → Vector → FileInfo
a_file name version = record {
  name = name;
  size = 3;
  modified_s = 100;
  modified_ns = 0;
  mode = 420;
  type = file;
  deleted = false;
  invalid = false;
  version = version;
  sequence = 0;
  block_size = 131_072;
  blocks = (9 ∷ []) ∷ [];
}

abbrev pub name_a : FileName
name_a = 97 ∷ slash ∷ 98 ∷ []

abbrev pub name_b : FileName
name_b = 98 ∷ []

abbrev pub empty_index : List Bool → Index
empty_index faults = record {
  files = [];
  peer_index = [];
  settling = [];
  missing = [];
  next_seq = 1;
  writes = 0;
  touched = [];
  faults = faults;
  readable = true;
}

pub empty_index-IsSound : (faults : List Bool) → IsSound (empty_index faults)
empty_index-IsSound faults = record { unique = tt; numbered = tt; started = omega arith }

abbrev two_files : List FileInfo
two_files = a_file name_a ((1, 1) ∷ []) ∷ a_file name_b ((1, 1) ∷ []) ∷ []

abbrev some_writes : List Write
some_writes = puts (a_file name_a []) ∷ batches two_files ∷ removes name_b ∷ prunes 5 ∷ []

run-IsSound_example : IsSound (run (empty_index (false ∷ true ∷ [])) some_writes)
run-IsSound_example =
    run-IsSound (empty_index (false ∷ true ∷ [])) some_writes
      (refl, ((refl, (refl, tt)), (tt, (tt, tt)))) (empty_index-IsSound (false ∷ true ∷ []))

put_batch-Announced_example :
    Announced (empty_index []).files (put_batch (empty_index []) two_files).0
put_batch-Announced_example =
    put_batch-Announced (empty_index []) two_files (refl, (refl, tt)) (empty_index-IsSound [])

-- An index of one file.
abbrev pub filled : Index
filled = record (empty_index []) {
  files = (name_a, record (a_file name_a ((1, 1) ∷ [])) { sequence = 1 }) ∷ [];
  next_seq = 2;
}

pub filled-IsSound : IsSound filled
unfolding lookup
filled-IsSound = record {
  unique = (refl, tt);
  numbered = (refl, omega arith, tt);
  started = omega arith;
}

list_prefix_lem_example :
    (rows : List FileInfo) × (list_prefix filled (97 ∷ slash ∷ []) ≡ ok rows)
    × ((n : FileName) → contains n (names_of rows) ≡ is_below filled (97 ∷ []) n)
list_prefix_lem_example = list_prefix_lem filled (97 ∷ []) filled-IsSound refl
