-- ===== src/Scanner/Renames/Pairs.antt =====
-- scanner.go, `detectRenames`: what one row of the index leads to.
use cross_sync.Engine.Moves.{content_key}
use cross_sync.Engine.Gate.{equal_blocks}
use cross_sync.Hash.{Bytes}
use cross_sync.Index.Files.{FileInfo}
use cross_sync.Engine.Local.{Change}
use cross_sync.Table.{lookup, contains, Table, insert, lookup-insert}
use mathlib.Core.Path.{subst}
use cross_sync.Base.{
  nat_eq, list_eq, All, All-snoc, Bool, Bool-cases, List, Option-cases, [], ap, arith, eq_of_test,
  false, get_elem?, if◌then◌else◌, inl, inr, none, not, refl, some, suc, true, ℕ, ◌&&◌, ◌++◌, ◌+◌,
  ◌==◌, ◌||◌, ◌∙◌, ◌∷◌, ◌≡◌, ◌⊎◌,
}
use cross_sync.Scanner.Renames.{
  ScanView, GateCandidate, Pairing, added_by_key, appended, crossed, deletion_of, free_target,
  gate_move_to, groups, indexes_at, is_added, is_content_file, is_target, left_gate, may_cross,
  move_to, pair_row, paired, single_free, vanish, or_empty, verified,
}

-- An added change whose content has the key.
abbrev pub TargetAt : List Change → Bytes → ℕ → Type 0
TargetAt changes k i =
    (t : Change) × (get_elem? changes i ≡ some t) × (is_added t ≡ true) × (content_key t.info ≡ k)

abbrev AllTargets : List Change → Table Bytes (List ℕ) → Type 0
AllTargets changes groups = (k : Bytes) → All (TargetAt changes k) (indexes_at k groups)

with_target :
    (changes : List Change) (c : Change) (i : ℕ) (rows : Table Bytes (List ℕ))
    → get_elem? changes i ≡ some c
    → is_target c ≡ true
    → AllTargets changes rows
    → AllTargets changes
        (insert (content_key c.info) (indexes_at (content_key c.info) rows ++ (i ∷ [])) rows)
with_target changes c i rows here target all k =
    let here_k : Bytes = content_key c.info in
    let row : List ℕ = indexes_at here_k rows ++ (i ∷ []) in
    let put_in : lookup k (insert here_k row rows)
        ≡ (if here_k == k then some row else lookup k rows) =
      lookup-insert here_k k row rows in
    elim (Bool-cases (here_k == k)) [
      | inl same ↦
          let e : here_k ≡ k = eq_of_test here_k k same in
          let found : indexes_at k (insert here_k row rows) ≡ row =
            ap or_empty put_in ∙ rw same refl in
          rw found (
            All-snoc (TargetAt changes k) (indexes_at here_k rows) i
              (subst (λ t. All (TargetAt changes t) (indexes_at here_k rows)) e (all here_k))
              (c, here, ground arith, e))
      | inr other ↦
          let kept : indexes_at k (insert here_k row rows) ≡ indexes_at k rows =
            ap or_empty put_in ∙ rw other refl in
          rw kept (all k)
    ]

added_by_key-AllTargets :
    (changes cs : List Change) (i : ℕ) (groups : Table Bytes (List ℕ))
    → ((j : ℕ) → get_elem? changes (i + j) ≡ get_elem? cs j)
    → AllTargets changes groups
    → AllTargets changes (added_by_key i cs groups)
unfolding added_by_key
added_by_key-AllTargets changes [] i groups at all = all
added_by_key-AllTargets changes (c ∷ cs) i groups at all =
    let at' : (j : ℕ) → get_elem? changes (i + 1 + j) ≡ get_elem? cs j =
      λ j. let e : i + 1 + j ≡ i + suc j = omega arith in ap (get_elem? changes) e ∙ at (suc j) in
    let here : get_elem? changes i ≡ some c =
      let e : i ≡ i + 0 = omega arith in ap (get_elem? changes) e ∙ at 0 in
    elim (Bool-cases (is_target c)) [
      | inl target ↦ rw target (
          added_by_key-AllTargets changes cs (i + 1)
            (insert (content_key c.info) (indexes_at (content_key c.info) groups ++ (i ∷ []))
              groups)
            at' (with_target changes c i groups here target all))
      | inr other ↦ rw other (added_by_key-AllTargets changes cs (i + 1) groups at' all)
    ]

no_groups : (changes : List Change) → AllTargets changes []
unfolding lookup
no_groups changes k = tt

pub groups-AllTargets :
    (v : ScanView) (changes : List Change) → AllTargets changes (groups v changes)
groups-AllTargets v changes =
    added_by_key-AllTargets changes changes 0 []
      (λ j. let e : 0 + j ≡ j = omega arith in ap (get_elem? changes) e) (no_groups changes)

single_free_lem :
    (P : ℕ → Type 0) (taken is : List ℕ) (i : ℕ)
    → All P is
    → single_free taken is ≡ some i
    → P i × (contains i taken ≡ false)
single_free_lem P taken [] i all h = cc
single_free_lem P taken (j ∷ k ∷ is) i all h = cc
single_free_lem P taken (j ∷ []) i all h = elim (Bool-cases (contains j taken)) [
  | inl used ↦ let no : none ≡ some i = rw used at h in cc
  | inr free ↦
      let yes : some j ≡ some i = rw free at h in
      let e : j ≡ i = ap (λ o. elim o [ none ↦ j | some x ↦ x ]) yes in
      (subst P e all.0, subst (λ t. contains t taken ≡ false) e free)
]

module _ (v : ScanView) (changes : List Change) where
  -- A row of the scope that the walk did not see.
  abbrev pub is_vanished : FileInfo → Bool
  is_vanished fi = not (v.seen fi.name || v.claimed fi.name) && v.in_scope fi.name && v.matched fi

  -- The walk did not see the path, and it was to look there, or the disk says that it is gone.
  abbrev pub Absent : FileInfo → Type 0
  Absent fi =
      (v.seen fi.name ≡ false)
      × (v.claimed fi.name ≡ false)
      × ((v.in_scope fi.name ≡ true) ⊎ (v.gone fi.name ≡ true))

  -- A deletion, or a move out of the gate whose content was read and is the same.
  abbrev pub Left : FileInfo → Change → Type 0
  Left fi c =
      (c ≡ deletion_of fi)
      ⊎ ((g : GateCandidate) × (blocks : List Bytes) × (v.read_hashes g ≡ some blocks)
          × (equal_blocks blocks fi.blocks ≡ true)
          × (c ≡ gate_move_to fi g))

  -- What a row does: nothing, a fold into an added file of the same content that is still free, or a change.
  pub data Step (p : Pairing) (fi : FileInfo) : Pairing → Type 0 where
    stays : is_vanished fi ≡ false → Step p fi p
    folds :
        (i : ℕ) (t : Change)
        → contains i p.taken ≡ false
        → get_elem? changes i ≡ some t
        → is_added t ≡ true
        → content_key t.info ≡ content_key fi
        → Absent fi
        → Step p fi (record { taken = i ∷ p.taken; found = p.found ++ (move_to fi t.info ∷ []) })
    leaves : (c : Change) → Left fi c → Absent fi → Step p fi (appended p c)

  paired-Step :
      (p : Pairing) (fi : FileInfo) (i : ℕ)
      → free_target v changes p fi ≡ some i
      → Absent fi
      → Step p fi (paired v changes p fi i)
  paired-Step p fi i free absent =
      let (at, unused) =
        single_free_lem (TargetAt changes (content_key fi)) p.taken
          (indexes_at (content_key fi) (groups v changes)) i
          (groups-AllTargets v changes (content_key fi)) free in
      let (t, here, is, same) = at in rw (here, paired) (folds i t unused here is same absent)

  left_gate-Left : (fi : FileInfo) → Left fi (left_gate v changes fi)
  left_gate-Left fi = elim (Option-cases (lookup fi.name v.gate_moves)) [
    | inl nothing ↦ rw (nothing, left_gate) (inl refl)
    | inr (g, there) ↦ elim (Option-cases (v.read_hashes g)) [
      | inl unread ↦ rw (left_gate, verified, there, unread) (inl refl)
      | inr (blocks, read) ↦ elim (Bool-cases (equal_blocks blocks fi.blocks)) [
        | inl same ↦ rw (left_gate, verified, there, read, same) (inr (g, blocks, read, same, refl))
        | inr differs ↦ rw (left_gate, verified, there, read, differs) (inl refl)
      ]
    ]
  ]

  vanish-Step : (p : Pairing) (fi : FileInfo) → Absent fi → Step p fi (vanish v changes p fi)
  vanish-Step p fi absent = elim (Bool-cases (is_content_file fi)) [
    | inr bare ↦ rw bare (leaves (deletion_of fi) (inl refl) absent)
    | inl full ↦ elim (Option-cases (free_target v changes p fi)) [
      | inl none_free ↦
          rw (full, none_free) (leaves (left_gate v changes fi) (left_gate-Left fi) absent)
      | inr (i, free) ↦ rw (full, free) (paired-Step p fi i free absent)
    ]
  ]

  crossed-Step :
      (p : Pairing) (fi : FileInfo)
      → is_vanished fi ≡ false
      → Absent fi
      → Step p fi (crossed v changes p fi)
  crossed-Step p fi outside absent = elim (Option-cases (free_target v changes p fi)) [
    | inl none_free ↦ rw (crossed, none_free) (stays outside)
    | inr (i, free) ↦ rw (crossed, free) (paired-Step p fi i free absent)
  ]

  pub pair_row-Step : (p : Pairing) (fi : FileInfo) → Step p fi (pair_row v changes p fi)
  unfolding pair_row
  pair_row-Step p fi = elim (Bool-cases (v.seen fi.name || v.claimed fi.name)) [
    | inl there ↦ rw there (stays (ground arith))
    | inr missing ↦
        let unseen : v.seen fi.name ≡ false = ground arith in
        let unclaimed : v.claimed fi.name ≡ false = ground arith in
        elim (Bool-cases (v.in_scope fi.name)) [
          | inl inside ↦ elim (Bool-cases (v.matched fi)) [
            | inl taken ↦
                rw (missing, inside, taken) (vanish-Step p fi (unseen, unclaimed, inl inside))
            | inr passed ↦ rw (missing, inside, passed) (stays (ground arith))
          ]
          | inr outside ↦ elim (Bool-cases (may_cross v changes fi)) [
            | inr cannot ↦ rw (missing, outside, cannot) (stays (ground arith))
            | inl may ↦
                rw (missing, outside, may)
                  (crossed-Step p fi (ground arith) (unseen, unclaimed, inr (ground arith)))
          ]
        ]
  ]
