-- ===== src/PathQueue/Tests.antt =====
-- pathqueue.go: two batches, one of them while the first is scanned.
use cross_sync.PathQueue.Covers.{covered}
use cross_sync.PathQueue.Drained.{started_watching, four_rounds, queue_drains, Idle, asked}
use cross_sync.Table.{contains, add}
use cross_sync.Text.{has_prefix, lex_lt, slash}
use cross_sync.Hash.{Bytes}
use cross_sync.Base.{nat_eq, list_eq, List, [], ◌∷◌, ◌≡◌, refl, true}
use cross_sync.PathQueue.{collapse_paths, WatchEvent, add_paths, adds, take_batch, watch, works}

-- `a`, `a-b` and `a/c`.
abbrev path_a : Bytes
path_a = 97 ∷ []

abbrev path_ab : Bytes
path_ab = 97 ∷ 45 ∷ 98 ∷ []

abbrev path_ac : Bytes
path_ac = 97 ∷ slash ∷ 99 ∷ []

beneath_goes : collapse_paths (path_ac ∷ path_a ∷ []) ≡ path_a ∷ []
unfolding collapse_paths has_prefix lex_lt
beneath_goes = refl

-- A name that sorts between the directory and what is in it hides the directory.
beneath_stays : collapse_paths (path_a ∷ path_ab ∷ path_ac ∷ []) ≡ path_a ∷ path_ab ∷ path_ac ∷ []
unfolding collapse_paths has_prefix lex_lt
beneath_stays = refl

abbrev busy_folder : List WatchEvent
busy_folder = adds (path_ac ∷ path_a ∷ []) ∷ works ∷ adds (path_ab ∷ []) ∷ []

scanned_in_order :
    (watch (watch started_watching busy_folder) four_rounds).scanned ≡ path_ab ∷ path_a ∷ []
unfolding watch add_paths take_batch has_prefix lex_lt add contains
scanned_in_order = refl

asks_below : asked path_ac busy_folder ≡ true
unfolding contains
asks_below = refl

queue_drains_example :
    Idle (watch (watch started_watching busy_folder) four_rounds)
    × (covered path_ac (watch (watch started_watching busy_folder) four_rounds).scanned ≡ true)
queue_drains_example = queue_drains busy_folder path_ac asks_below
