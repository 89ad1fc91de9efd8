-- ===== src/Pull/Tests.antt =====
-- engine.go and pull_run.go: the pull of a file of five bytes in blocks of two, the hash being the bytes.
use cross_sync.Scanner.{parent_path}
use cross_sync.Pull.Donors.{
  dir_donors, reset_donor_index, build_locs, offer_blocks, offer_file, offer_files, owners_of,
}
use cross_sync.Pull.Donors.Cache.{after_asks, engines_of, IsCache, WasBuilt, dir_donors-IsCache}
use cross_sync.Engine.Moves.{content_key, format_decimal}
use cross_sync.Text.{sort_strings}
use cross_sync.Table.{lookup, insert, contains}
use cross_sync.Pull.Intact.{Hashes}
use cross_sync.Index.Store.{put, alloc_sequence, exec, sequenced, touch}
use cross_sync.Engine.Global.{global_from, global_loop}
use cross_sync.Pull.Download.{Download, IsWinner, finished_download, received, started}
use cross_sync.Hash.{Bytes}
use cross_sync.Index.Query.{get, list_all, select}
use cross_sync.Base.{
  nat_eq, list_eq, [], false, none, refl, some, true, ◌+◌, ◌-◌, ◌/◌, ◌∷◌, ◌≡◌, arith, ℕ, List,
}
use cross_sync.Temp.{DiskWrites, bytes_from, read_at, write_at}
use cross_sync.Index.Files.{FileInfo, ok, FileName}
use cross_sync.Index.Tests.{a_file, name_a, empty_index, name_b}
use cross_sync.Engine.State.{Engine, new_engine, send_receive}
use cross_sync.Pull.{
  Pull, block_size_at, fill_from_local_copy, mark_run, receive_blocks, verify_run, is_complete,
}
use cross_sync.Pull.Start.{
  Staging, LocalFiles, first_donor, local_copy_donor, new_pull, open_temp, prepare,
  reuse_candidates, reuse_map, start_pull, verify_staged, adopt_observed_stat, finish_pull,
}

abbrev pub same_bytes : Bytes → Bytes
same_bytes b = b

abbrev pub five_bytes : FileInfo
five_bytes = record (a_file name_a ((7, 1) ∷ [])) {
  size = 5;
  block_size = 2;
  blocks = (1 ∷ 2 ∷ []) ∷ (3 ∷ 4 ∷ []) ∷ (5 ∷ []) ∷ [];
}

abbrev a_puller : Engine
a_puller = record (new_engine 1 send_receive none (empty_index [])) {
  peers = (7, (name_a, five_bytes) ∷ []) ∷ [];
}

-- A temp of the right size, whose second block is not the one that is wanted.
abbrev left_over : Staging
left_over = record {
  path_works = true;
  staged = some (record { size = 5; byte = λ i. i + 1 - i / 3 });
  reopens = true;
  creates = true;
  truncates = true;
}

abbrev pub whole_writes : DiskWrites
whole_writes off n = n

abbrev no_files : LocalFiles
no_files name = none

abbrev resumed : Pull
resumed =
    new_pull same_bytes name_a five_bytes 7 (record { size = 5; byte = λ i. i + 1 - i / 3 })
      (true ∷ false ∷ false ∷ [])

resumed_run : start_pull same_bytes whole_writes no_files left_over a_puller name_a 7 ≡ ok resumed
unfolding start_pull get global_from global_loop lookup new_engine open_temp verify_staged read_at
    bytes_from block_size_at prepare fill_from_local_copy local_copy_donor first_donor
    reuse_candidates reuse_map list_all select sort_strings content_key format_decimal
resumed_run = refl

-- A run that ends inside of a block is refused, then the right one comes.
abbrev fetched : Pull
fetched =
    (receive_blocks same_bytes whole_writes
      (receive_blocks same_bytes whole_writes resumed 1 (3 ∷ [])).0 1 (3 ∷ 4 ∷ 5 ∷ [])).0

fetched_run : fetched.written ≡ true ∷ true ∷ true ∷ []
unfolding receive_blocks verify_run mark_run block_size_at write_at
fetched_run = refl

abbrev adopted : FileInfo
adopted = record five_bytes { sequence = 1 }

finished_run : (finish_pull true none a_puller fetched).1 ≡ ok adopted
unfolding finish_pull is_complete receive_blocks verify_run mark_run block_size_at write_at
    adopt_observed_stat put sequenced alloc_sequence exec touch new_engine
finished_run = refl

fetched-Download : Download same_bytes a_puller name_a fetched
fetched-Download =
    received whole_writes 1 (3 ∷ 4 ∷ 5 ∷ []) (λ off n. omega arith)
      (received whole_writes 1 (3 ∷ []) (λ off n. omega arith)
        (started whole_writes no_files left_over 7 resumed resumed_run (omega arith)))

finished_download_example :
    IsWinner same_bytes a_puller name_a fetched.info
    × (fetched.temp.size ≡ fetched.info.size)
    × ((i : ℕ) → Hashes same_bytes fetched i)
finished_download_example =
    finished_download same_bytes a_puller name_a fetched true none adopted fetched-Download
      finished_run

-- The folder's root holds a file of the wanted content.
abbrev a_holder : Engine
a_holder =
    record (new_engine 1 send_receive none
      (record (empty_index []) { files = (name_b, record five_bytes { name = name_b }) ∷ [] })) {
        peers = [];
      }

offered :
    owners_of (3 ∷ 4 ∷ []) (dir_donors a_holder reset_donor_index []).1
    ≡ record { name = name_b; index = 1; size = 2 } ∷ []
unfolding dir_donors build_locs offer_files offer_file offer_blocks parent_path list_all select
    lookup insert new_engine block_size_at contains
offered = refl

-- The root was asked for before its file was there, and another directory after that.
abbrev earlier_asks : List (Engine × FileName)
earlier_asks = (a_holder, 97 ∷ []) ∷ (a_puller, []) ∷ []

dir_donors-IsCache_example :
    IsCache
      (a_holder ∷ engines_of earlier_asks)
      (dir_donors a_holder (after_asks earlier_asks) []).0
    × WasBuilt
        (a_holder ∷ engines_of earlier_asks)
        []
        (dir_donors a_holder (after_asks earlier_asks) []).1
dir_donors-IsCache_example = dir_donors-IsCache earlier_asks a_holder []
