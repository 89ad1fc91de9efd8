-- ===== src/Scanner.antt =====
-- internal/scanner/scanner.go: the two gates of a scan, over what the walk of the disk gave. A changed file is
-- hashed once it held still, and a missing one is reported once enough scans missed it.
pub mod Settled
pub mod Confirmed
pub mod Deferred
pub mod Renames
pub mod Tests
use cross_sync.Text.{slash}
use cross_sync.Hash.{Bytes}
use cross_sync.Index.Gates.{missing_replace, missing_list}
use cross_sync.Base.{
  ℕ, nat_eq, list_eq, Bool, List, Option, [], false, if◌then◌else◌, leb, length, ltb, none, not,
  some, suc, true, zero, ◌&&◌, ◌++◌, ◌+◌, ◌-◌, ◌==◌, ◌||◌, ◌∷◌,
}
use cross_sync.Table.{Table, insert, contains, lookup}
use cross_sync.Index.Files.{
  FileInfo, FileName, Index, MissingState, Result, SettleState, err, file, kind_beq, ok,
}
use cross_sync.Engine.Local.{Change, ChangeKind, added, deleted, modified}

-- `mtKey`
pub record MtKey : Type 0 where
  pub size : ℕ
  pub mod_s : ℕ
  pub mod_ns : ℕ

abbrev pub mt_beq : MtKey → MtKey → Bool
mt_beq a b = a.size == b.size && a.mod_s == b.mod_s && a.mod_ns == b.mod_ns

abbrev pub mt_of : FileInfo → MtKey
mt_of fi = record { size = fi.size; mod_s = fi.modified_s; mod_ns = fi.modified_ns }

abbrev pub mt_of_state : SettleState → MtKey
mt_of_state st = record { size = st.size; mod_s = st.mod_s; mod_ns = st.mod_ns }

unfoldable pub is_among : MtKey → List MtKey → Bool
is_among key [] = false
is_among key (k ∷ ks) = mt_beq k key || is_among key ks

abbrev pub keys_of : Table FileName SettleState → List MtKey
keys_of [] = []
keys_of ((name, st) ∷ states) = mt_of_state st ∷ keys_of states

-- `unsettledKeys`
unfoldable pub unsettled_keys : Table FileName SettleState → Table FileName SettleState → List MtKey
unsettled_keys prev current = keys_of prev ++ keys_of current

-- `settleScans`, `settleSeconds` and `bypassGate`
pub record SettleGate : Type 0 where
  pub scans : ℕ
  pub seconds : ℕ
  pub bypass : Bool

abbrev pub gate_on : SettleGate → Bool
gate_on g = not g.bypass && ltb 1 g.scans

-- What becomes of a file that the walk visits: as in the index, held back, or queued for hashing with the
-- time of its first observation.
pub data Visited : Type 0 where
  unchanged_file : Visited
  held_back : SettleState → Visited
  to_hash : ChangeKind → ℕ → Visited

abbrev pub is_as_indexed : MtKey → Option FileInfo → Bool
is_as_indexed key none = false
is_as_indexed key (some fi) = mt_beq (mt_of fi) key

abbrev pub visit_kind : Option FileInfo → ChangeKind
visit_kind none = added
visit_kind (some fi) = modified

-- The observation count and the first observation, which start again when the size or the time moved.
unfoldable pub observed : Option SettleState → MtKey → ℕ → SettleState
observed prev key now =
    let fresh : SettleState = record {
      size = key.size;
      mod_s = key.mod_s;
      mod_ns = key.mod_ns;
      count = 1;
      first = now;
    } in
    elim prev [
      | none ↦ fresh
      | some p ↦
          if mt_beq (mt_of_state p) key
          then record fresh { count = p.count + 1; first = p.first }
          else fresh
    ]

-- The end of `visit`, for a regular file: its row in the settling table, its entry and its stat.
unfoldable pub visit_file :
    SettleGate → Bool → ℕ → Option SettleState → Option FileInfo → MtKey → Visited
unfolding observed
visit_file g force_hash now prev existing key =
    if is_as_indexed key existing && not force_hash
    then unchanged_file
    else if not (gate_on g) || force_hash
    then to_hash (visit_kind existing) now
    else (let st = observed prev key now in
        if ltb st.count g.scans || (not (g.seconds == 0) && ltb (now - st.first) g.seconds)
        then held_back st
        else to_hash (visit_kind existing) st.first)

-- A path up to its last slash: `p[:strings.LastIndexByte(p, '/')]`
unfoldable pub parent_path : Bytes → Option Bytes
parent_path [] = none
parent_path (c ∷ s) = elim (parent_path s) [
  | some p ↦ some (c ∷ p)
  | none ↦ if c == slash then some [] else none
]

-- The names that a deferral takes with it: the file and every directory above it, on fuel for its length.
unfoldable pub ancestors : ℕ → Bytes → List Bytes
unfolding parent_path
ancestors zero p = []
ancestors (suc fuel) [] = []
ancestors (suc fuel) (c ∷ p) =
    (c ∷ p) ∷ (elim (parent_path (c ∷ p)) [ none ↦ [] | some q ↦ ancestors fuel q ])

abbrev pub is_deletion_change : Change → Bool
is_deletion_change c = elim c.kind [ deleted ↦ true | _ ↦ false ]

abbrev pub is_half_moved : List MtKey → Change → Bool
is_half_moved unsettled c =
    is_deletion_change c
    && kind_beq c.info.type file
    && not (length c.info.blocks == 0)
    && is_among (mt_of c.info) unsettled

-- The map `deferred`.
unfoldable pub deferred_names : List MtKey → List Change → List FileName
unfolding ancestors is_among
deferred_names unsettled [] = []
deferred_names unsettled (c ∷ cs) =
    let rest = deferred_names unsettled cs in
    if is_half_moved unsettled c then ancestors (length c.info.name) c.info.name ++ rest else rest

abbrev pub missed_before : Option MissingState → ℕ → MissingState
missed_before none now = record { count = 0; first = now }
missed_before (some st) now = st

abbrev pub once_more : MissingState → MissingState
once_more st = record st { count = st.count + 1 }

-- The rows of the paths that a scoped scan did not look at.
unfoldable pub out_of_scope :
    (FileName → Bool) → Table FileName MissingState → Table FileName MissingState
out_of_scope in_scope [] = []
out_of_scope in_scope ((name, st) ∷ rows) =
    let rest = out_of_scope in_scope rows in if in_scope name then rest else (name, st) ∷ rest

module _ (scans now : ℕ) (prev : Table FileName MissingState) (held : List FileName) where
  abbrev pub row_for : FileName → MissingState
  row_for name = once_more (missed_before (lookup name prev) now)

  -- A deletion that this scan does not report.
  abbrev pub is_postponed : Change → Bool
  is_postponed c =
      is_deletion_change c && (ltb (row_for c.info.name).count scans || contains c.info.name held)

  -- The loop over the changes: the rows for the next scan, and the changes that go on.
  unfoldable pub confirm_loop :
      Table FileName MissingState → List Change → Table FileName MissingState × List Change
  confirm_loop next [] = (next, [])
  confirm_loop next (c ∷ cs) =
      let next' = if is_postponed c then insert c.info.name (row_for c.info.name) next else next in
      let (rows, out) = confirm_loop next' cs in
      if is_postponed c then (rows, out) else (rows, c ∷ out)

-- One scan as the gate sees it: its changes after the pairing of renames.
pub record ScanResult : Type 0 where
  pub changes : List Change
  pub now : ℕ
  pub in_scope : FileName → Bool
  pub unsettled : List MtKey

abbrev pub rows_or_none : Result (Table FileName MissingState) → Table FileName MissingState
rows_or_none (err x) = []
rows_or_none (ok rows) = rows

-- `confirmDeletions`: a failing read counts as an empty table, and a failing write is ignored.
unfoldable pub confirm_deletions : ℕ → ScanResult → Index → Index × List Change
unfolding confirm_loop deferred_names out_of_scope
confirm_deletions scans s ix =
    if leb scans 1
    then ((missing_replace ix []).0, s.changes)
    else (let prev = rows_or_none (missing_list ix) in
        let (rows, out) =
          confirm_loop scans s.now prev (deferred_names s.unsettled s.changes)
            (out_of_scope s.in_scope prev) s.changes in
        ((missing_replace ix rows).0, out))
