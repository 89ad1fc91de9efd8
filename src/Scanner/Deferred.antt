-- ===== src/Scanner/Deferred.antt =====
-- scanner.go, `confirmDeletions`: the old half of a move waits for the new one.
use cross_sync.Index.Gates.{missing_list}
use cross_sync.Engine.Local.{Change}
use cross_sync.Scanner.Confirmed.{missed}
use cross_sync.Index.Files.{FileName, MissingState, Index}
use cross_sync.Text.{slash}
use cross_sync.Hash.{Bytes}
use cross_sync.Base.{
  ℕ, nat_eq, list_eq, List, Option, Option-cases, [], arith, inl, inr, length, none, refl, some,
  suc, true, zero, ◌++◌, ◌<◌, ◌||◌, ◌∷◌, ◌≡◌, ◌≢◌, ◌≤◌, Bool-cases, eq_refl, false, sym, ◌&&◌, ◌==◌,
  eq_of_test, get_elem?, leb, ◌⊎◌, ap,
}
use cross_sync.Table.{contains, Table, insert}
use mathlib.Core.Path.{subst}
use cross_sync.Scanner.{
  ancestors, parent_path, MtKey, confirm_loop, deferred_names, is_deletion_change, is_half_moved,
  is_postponed, row_for, ScanResult, confirm_deletions, out_of_scope, rows_or_none,
}

contains-append :
    (n : Bytes) (xs ys : List Bytes) → contains n (xs ++ ys) ≡ (contains n xs || contains n ys)
unfolding contains
contains-append n [] ys = refl
contains-append n (x ∷ xs) ys = ground (arith, contains-append n xs ys)

-- Cutting a path with a slash in it, at its last one.
parent_path-append :
    (d rest : Bytes)
    → parent_path (d ++ (slash ∷ rest)) ≡ (elim (parent_path rest) as (λ o. Option Bytes) [
      | none ↦ some d
      | some q ↦ some (d ++ (slash ∷ q))
    ])
unfolding parent_path
parent_path-append [] rest = elim (Option-cases (parent_path rest)) [
  | inl flat ↦ rw flat refl
  | inr (q, deep) ↦ rw deep refl
]
parent_path-append (c ∷ d) rest = elim (Option-cases (parent_path rest)) [
  | inl flat ↦
      (let ih : parent_path (d ++ (slash ∷ rest)) ≡ some d =
          rw flat at (parent_path-append d rest) in
        rw (ih, flat) refl)
  | inr (q, deep) ↦
      (let ih : parent_path (d ++ (slash ∷ rest)) ≡ some (d ++ (slash ∷ q)) =
          rw deep at (parent_path-append d rest) in
        rw (ih, deep) refl)
]

parent_path-shorter : (p q : Bytes) → parent_path p ≡ some q → length q < length p
unfolding parent_path
parent_path-shorter [] q h = cc
parent_path-shorter (c ∷ p) q h = elim (Option-cases (parent_path p)) [
  | inr (r, deep) ↦ ground (arith, parent_path-shorter p r deep)
  | inl flat ↦ ground arith
]

ancestors_step :
    (fuel : ℕ) (c : ℕ) (p q : Bytes)
    → parent_path (c ∷ p) ≡ some q
    → ancestors (suc fuel) (c ∷ p) ≡ (c ∷ p) ∷ ancestors fuel q
unfolding ancestors
ancestors_step fuel c p q h = rw h refl

ancestors_self :
    (fuel : ℕ) (c : ℕ) (p : Bytes) → 1 ≤ fuel → contains (c ∷ p) (ancestors fuel (c ∷ p)) ≡ true
unfolding ancestors contains
ancestors_self zero c p enough = absurd (omega arith)
ancestors_self (suc fuel) c p enough = ground (arith, eq_refl p, eq_refl c)

contains_tail : (n x : Bytes) (xs : List Bytes) → contains n xs ≡ true → contains n (x ∷ xs) ≡ true
unfolding contains
contains_tail n x xs h = ground arith

-- Every directory above a path is among its ancestors.
ancestors_above :
    (fuel : ℕ) (d rest : Bytes)
    → length (d ++ (slash ∷ rest)) ≤ fuel
    → d ≢ []
    → contains d (ancestors fuel (d ++ (slash ∷ rest))) ≡ true
ancestors_above fuel [] rest enough named = absurd (named refl)
ancestors_above zero (c ∷ d) rest enough named = absurd (omega arith)
ancestors_above (suc fuel) (c ∷ d) rest enough named = elim (Option-cases (parent_path rest)) [
  | inl flat ↦
      let cut : parent_path ((c ∷ d) ++ (slash ∷ rest)) ≡ some (c ∷ d) =
        rw flat at (parent_path-append (c ∷ d) rest) in
      subst (λ t. contains (c ∷ d) t ≡ true)
        (sym (ancestors_step fuel c (d ++ (slash ∷ rest)) (c ∷ d) cut))
        (contains_tail (c ∷ d) ((c ∷ d) ++ (slash ∷ rest)) (ancestors fuel (c ∷ d)) (
          ancestors_self fuel c d
            (omega (arith, parent_path-shorter ((c ∷ d) ++ (slash ∷ rest)) (c ∷ d) cut))))
  | inr (q, deep) ↦
      let up : Bytes = (c ∷ d) ++ (slash ∷ q) in
      let cut : parent_path ((c ∷ d) ++ (slash ∷ rest)) ≡ some up =
        rw deep at (parent_path-append (c ∷ d) rest) in
      let shorter : length up < length ((c ∷ d) ++ (slash ∷ rest)) =
        parent_path-shorter ((c ∷ d) ++ (slash ∷ rest)) up cut in
      subst (λ t. contains (c ∷ d) t ≡ true)
        (sym (ancestors_step fuel c (d ++ (slash ∷ rest)) up cut))
        (contains_tail (c ∷ d) ((c ∷ d) ++ (slash ∷ rest)) (ancestors fuel up)
          (ancestors_above fuel (c ∷ d) q (omega arith) named))
]

-- The path itself, or a directory that it is in.
abbrev pub IsAtOrAbove : FileName → FileName → Type 0
IsAtOrAbove n name = (n ≢ []) × ((n ≡ name) ⊎ ((rest : Bytes) × (name ≡ n ++ (slash ∷ rest))))

above_named :
    (n name : FileName) → IsAtOrAbove n name → contains n (ancestors (length name) name) ≡ true
above_named n name (named, inr (rest, e)) =
    subst (λ t. contains n (ancestors (length t) t) ≡ true) (sym e)
      (ancestors_above (length (n ++ (slash ∷ rest))) n rest (omega arith) named)
above_named [] name (named, inl e) = absurd (named refl)
above_named (c ∷ n) name (named, inl e) =
    subst (λ t. contains (c ∷ n) (ancestors (length t) t) ≡ true) e
      (ancestors_self (length (c ∷ n)) c n (omega arith))

named_with :
    (n : FileName) (unsettled : List MtKey) (cs : List Change) (i : ℕ) (c : Change)
    → get_elem? cs i ≡ some c
    → is_half_moved unsettled c ≡ true
    → contains n (ancestors (length c.info.name) c.info.name) ≡ true
    → contains n (deferred_names unsettled cs) ≡ true
unfolding deferred_names
named_with n unsettled [] i c at half above = cc
named_with n unsettled (x ∷ xs) zero c at half above =
    let same : x ≡ c = ap (λ o. elim o [ none ↦ x | some y ↦ y ]) at in
    subst (λ t. contains n (deferred_names unsettled (t ∷ xs)) ≡ true) (sym same)
      (rw half (
        rw
          (
            contains-append n (ancestors (length c.info.name) c.info.name)
                (deferred_names unsettled xs),
            above,
          )
          refl))
named_with n unsettled (x ∷ xs) (suc i) c at half above =
    let later : contains n (deferred_names unsettled xs) ≡ true =
      named_with n unsettled xs i c at half above in
    elim (Bool-cases (is_half_moved unsettled x)) [
      | inl moved ↦
          rw
            (
              moved,
              contains-append n (ancestors (length x.info.name) x.info.name)
                  (deferred_names unsettled xs),
              later,
            )
            (ground arith)
      | inr still ↦ rw still later
    ]

module _ (scans now : ℕ) (prev : Table FileName MissingState) (held : List FileName) where
  not_reported :
      (n : FileName) (next : Table FileName MissingState) (cs : List Change)
      → contains n held ≡ true
      → missed n (confirm_loop scans now prev held next cs).1 ≡ false
  unfolding confirm_loop missed
  not_reported n next [] waits = refl
  not_reported n next (c ∷ cs) waits = elim (Bool-cases (is_postponed scans now prev held c)) [
    | inl late ↦ rw late (
        not_reported n (insert c.info.name (row_for scans now prev held c.info.name) next) cs waits)
    | inr goes_on ↦
        let other : (is_deletion_change c && c.info.name == n) ≡ false =
          elim (Bool-cases (c.info.name == n)) [
            | inr apart ↦ ground arith
            | inl same ↦
                let waits' : contains c.info.name held ≡ true =
                  subst (λ t. contains t held ≡ true) (sym (eq_of_test c.info.name n same)) waits in
                ground arith
          ] in
        rw (goes_on, other) (not_reported n next cs waits)
  ]

-- The deletion of a file waits for its new name. A deletion that a scan finds, of a file with blocks whose size
-- and modification time are those of a file still held back by the stability gate, is not reported, and
-- neither is a deletion of any directory above it, whatever the rows of earlier scans say and whatever else
-- the scan found, provided that the gate on deletions is on.
pub deferred_together :
    (scans : ℕ) (s : ScanResult) (ix : Index) (i : ℕ) (c : Change) (n : FileName)
    → 2 ≤ scans
    → get_elem? s.changes i ≡ some c
    → is_half_moved s.unsettled c ≡ true
    → IsAtOrAbove n c.info.name
    → missed n (confirm_deletions scans s ix).1 ≡ false
unfolding confirm_deletions
deferred_together scans s ix i c n on at half above =
    let held : List FileName = deferred_names s.unsettled s.changes in
    let prev : Table FileName MissingState = rows_or_none (missing_list ix) in
    let gate : leb scans 1 ≡ false = ground arith in
    rw gate (
      not_reported scans s.now prev held n (out_of_scope s.in_scope prev) s.changes
        (named_with n s.unsettled s.changes i c at half (above_named n c.info.name above)))
