-- ===== src/Scanner/Renames.antt =====
-- scanner.go, `detectRenames`: the deleted pass of a scan, which pairs a vanished file with an added one of the
-- same content. What the walk saw, the include matcher, and the reads of the disk are parameters.
pub mod Stays
pub mod Pairs
pub mod Counts
pub mod Folded
use cross_sync.Engine.Gate.{equal_blocks}
use cross_sync.Index.Query.{list}
use cross_sync.Hash.{Bytes}
use cross_sync.Engine.Local.{Change, added, deleted, renamed}
use cross_sync.Engine.Moves.{content_key}
use cross_sync.Table.{contains, Table, insert, lookup}
use cross_sync.Index.Files.{Result, FileName, Index, FileInfo, err, file, kind_beq, ok}
use cross_sync.Base.{
  nat_eq, list_eq, Bool, List, Option, [], false, get_elem?, if◌then◌else◌, length, none, not, some,
  true, ℕ, ◌&&◌, ◌++◌, ◌+◌, ◌==◌, ◌||◌, ◌∷◌,
}
use cross_sync.Scanner.{MtKey, is_among, mt_of}

-- `gateCandidate`
pub record GateCandidate : Type 0 where
  pub from : FileName
  pub rel : FileName
  pub size : ℕ
  pub mod_s : ℕ
  pub mod_ns : ℕ
  pub mode : ℕ

-- What the walk and the disk say: the names that the walk saw, those that `cheapRenames` took, whether a name
-- is in the scope of the scan, whether the include matcher takes an entry, whether a path is gone, and the
-- block hashes of a candidate, if it can be read.
pub record ScanView : Type 0 where
  pub seen : FileName → Bool
  pub claimed : FileName → Bool
  pub in_scope : FileName → Bool
  pub matched : FileInfo → Bool
  pub scoped : Bool
  pub cross_scope_pair : Bool
  pub gone : FileName → Bool
  pub gate_moves : Table FileName GateCandidate
  pub read_hashes : GateCandidate → Option (List Bytes)

abbrev pub is_content_file : FileInfo → Bool
is_content_file fi = kind_beq fi.type file && not (length fi.blocks == 0)

abbrev pub is_added : Change → Bool
is_added c = elim c.kind [ added ↦ true | _ ↦ false ]

abbrev pub is_target : Change → Bool
is_target c = is_added c && is_content_file c.info

abbrev pub or_empty : Option (List ℕ) → List ℕ
or_empty none = []
or_empty (some is) = is

abbrev pub indexes_at : Bytes → Table Bytes (List ℕ) → List ℕ
indexes_at k groups = or_empty (lookup k groups)

-- `addedByKey`, of the changes from index `i` on.
unfoldable pub added_by_key : ℕ → List Change → Table Bytes (List ℕ) → Table Bytes (List ℕ)
unfolding content_key
added_by_key i [] groups = groups
added_by_key i (c ∷ cs) groups = added_by_key (i + 1) cs (
    if is_target c
    then insert (content_key c.info) (indexes_at (content_key c.info) groups ++ (i ∷ [])) groups
    else groups)

-- The keys of `addedByMT`.
unfoldable pub added_by_mt : List Change → List MtKey
added_by_mt [] = []
added_by_mt (c ∷ cs) =
    let rest = added_by_mt cs in if is_target c then mt_of c.info ∷ rest else rest

-- `len(idxs) == 1 && !claimedAdded[idxs[0]]`
abbrev pub single_free : List ℕ → List ℕ → Option ℕ
single_free taken (i ∷ []) = if contains i taken then none else some i
single_free taken _ = none

-- `claimedAdded`, and the changes that the pass appends.
pub record Pairing : Type 0 where
  pub taken : List ℕ
  pub found : List Change

abbrev pub deletion_of : FileInfo → Change
deletion_of fi = record { kind = deleted; info = fi; from_name = []; out_of_gate = false }

abbrev pub move_to : FileInfo → FileInfo → Change
move_to fi to = record { kind = renamed; info = to; from_name = fi.name; out_of_gate = false }

abbrev pub gate_move_to : FileInfo → GateCandidate → Change
gate_move_to fi c = record {
  kind = renamed;
  info = record fi {
    name = c.rel;
    sequence = 0;
    modified_s = c.mod_s;
    modified_ns = c.mod_ns;
    mode = c.mode;
  };
  from_name = fi.name;
  out_of_gate = true;
}

abbrev pub appended : Pairing → Change → Pairing
appended p c = record p { found = p.found ++ (c ∷ []) }

module _ (v : ScanView) (changes : List Change) where
  abbrev pub groups : Table Bytes (List ℕ)
  groups = added_by_key 0 changes []

  abbrev pub free_target : Pairing → FileInfo → Option ℕ
  free_target p fi = single_free p.taken (indexes_at (content_key fi) groups)

  -- A row folded into the added change at index `i`.
  abbrev pub paired : Pairing → FileInfo → ℕ → Pairing
  paired p fi i = elim (get_elem? changes i) [
    | none ↦ p
    | some c ↦ record { taken = i ∷ p.taken; found = p.found ++ (move_to fi c.info ∷ []) }
  ]

  -- Whether a row outside the scope of the scan may be the other half of a rename.
  abbrev pub may_cross : FileInfo → Bool
  may_cross fi =
      v.scoped
      && v.cross_scope_pair
      && is_content_file fi
      && is_among (mt_of fi) (added_by_mt changes)
      && v.gone fi.name

  abbrev pub crossed : Pairing → FileInfo → Pairing
  crossed p fi = elim (free_target p fi) [ none ↦ p | some i ↦ paired p fi i ]

  abbrev pub verified : FileInfo → GateCandidate → Bool
  verified fi c = elim (v.read_hashes c) [
    | none ↦ false
    | some blocks ↦ equal_blocks blocks fi.blocks
  ]

  -- Renamed out of the gate, or gone.
  abbrev pub left_gate : FileInfo → Change
  left_gate fi = elim (lookup fi.name v.gate_moves) [
    | none ↦ deletion_of fi
    | some c ↦ if verified fi c then gate_move_to fi c else deletion_of fi
  ]

  -- A vanished row of the scope.
  abbrev pub vanish : Pairing → FileInfo → Pairing
  vanish p fi =
      if is_content_file fi
      then elim (free_target p fi) [ some i ↦ paired p fi i | none ↦ appended p (left_gate fi) ]
      else appended p (deletion_of fi)

  -- One row of `Ix.List`.
  unfoldable pub pair_row : Pairing → FileInfo → Pairing
  unfolding content_key added_by_key added_by_mt
  pair_row p fi =
      if v.seen fi.name || v.claimed fi.name
      then p
      else if not (v.in_scope fi.name)
      then (if may_cross fi then crossed p fi else p)
      else if not (v.matched fi)
      then p
      else vanish p fi

  unfoldable pub pair_rows : Pairing → List FileInfo → Pairing
  unfolding pair_row
  pair_rows p [] = p
  pair_rows p (fi ∷ fis) = pair_rows (pair_row p fi) fis

-- The added changes that were folded into renames are dropped, from index `i` on.
unfoldable pub drop_taken : List ℕ → ℕ → List Change → List Change
drop_taken taken i [] = []
drop_taken taken i (c ∷ cs) =
    let rest = drop_taken taken (i + 1) cs in
    if is_added c && contains i taken then rest else c ∷ rest

abbrev pub listed_rows : Result (List FileInfo) → List FileInfo
listed_rows (err x) = []
listed_rows (ok rows) = rows

-- `detectRenames`: a listing that fails counts as an empty one.
unfoldable pub detect_renames : ScanView → Index → List Change → List Change
unfolding pair_rows drop_taken
detect_renames v ix changes =
    let p = pair_rows v changes (record { taken = []; found = [] }) (listed_rows (list ix)) in
    if length p.taken == 0 then changes ++ p.found else drop_taken p.taken 0 (changes ++ p.found)
