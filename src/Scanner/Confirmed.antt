-- ===== src/Scanner/Confirmed.antt =====
-- scanner.go, `confirmDeletions`: a deletion is believed once enough scans in a row missed the path.
use mathlib.Core.Path.{subst}
use cross_sync.Index.Store.{exec}
use cross_sync.Index.Gates.{run_statements, missing_replace, statements, missing_list}
use cross_sync.Base.{
  ℕ, nat_eq, list_eq, Bool, List, Option, [], false, if◌then◌else◌, inl, none, refl, some, true,
  ◌&&◌, ◌+◌, ◌==◌, ◌||◌, ◌∷◌, ◌≡◌, ◌≤◌, ◌⊎◌, Bool-cases, Option-cases, ap, arith, eq_of_test, inr,
  ◌∙◌, suc, zero, leb,
}
use cross_sync.Table.{Table, lookup, insert, lookup-insert}
use cross_sync.Index.Files.{FileName, MissingState, Index}
use cross_sync.Engine.Local.{Change}
use cross_sync.Scanner.{
  ScanResult, confirm_loop, is_deletion_change, is_postponed, row_for, confirm_deletions,
  out_of_scope, deferred_names, rows_or_none,
}

-- The changes report the path as deleted.
unfoldable pub missed : FileName → List Change → Bool
missed n [] = false
missed n (c ∷ cs) = is_deletion_change c && c.info.name == n || missed n cs

-- How many scans in a row missed the path, newest first; a scan that was about other paths does not count.
unfoldable pub misses : FileName → List ScanResult → ℕ
unfolding missed
misses n [] = 0
misses n (s ∷ earlier) =
    let before = misses n earlier in
    if missed n s.changes then before + 1 else if s.in_scope n then 0 else before

abbrev pub Rows : Type 0
Rows = Table FileName MissingState

abbrev count_of : Option MissingState → ℕ
count_of none = 0
count_of (some st) = st.count

-- The rows count no more misses than there were.
abbrev Counted : Rows → List ScanResult → Type 0
Counted rows history = (n : FileName) → count_of (lookup n rows) ≤ misses n history

module _ (scans now : ℕ) (prev : Rows) (held : List FileName) where
  count-row_for :
      (n : FileName) → (row_for scans now prev held n).count ≡ count_of (lookup n prev) + 1
  count-row_for n = elim (Option-cases (lookup n prev)) [
    | inl nothing ↦ rw nothing refl
    | inr (st, found) ↦ rw found refl
  ]

  -- What is known of a row of `n` after a loop over `cs`.
  abbrev FromLoop : Option MissingState → Option MissingState → List Change → FileName → Type 0
  FromLoop after before cs n =
      (after ≡ before) ⊎ ((missed n cs ≡ true) × (count_of after ≡ count_of (lookup n prev) + 1))

  missed_later :
      (c : Change) (cs : List Change) (n : FileName) {after before : Option MissingState}
      → FromLoop after before cs n
      → FromLoop after before (c ∷ cs) n
  unfolding missed
  missed_later c cs n (inl e) = inl e
  missed_later c cs n (inr (m, e)) = inr (ground arith, e)

  after_insert :
      (c : Change) (cs : List Change) (n : FileName) (next : Rows) {after : Option MissingState}
      → is_postponed scans now prev held c ≡ true
      → FromLoop after
          (lookup n (insert c.info.name (row_for scans now prev held c.info.name) next))
          cs
          n
      → FromLoop after (lookup n next) (c ∷ cs) n
  unfolding missed
  after_insert c cs n next w (inr (m, e)) = inr (ground arith, e)
  after_insert c cs n next {after} w (inl e) =
      let row : MissingState = row_for scans now prev held c.info.name in
      let put_in : lookup n (insert c.info.name row next)
          ≡ (if c.info.name == n then some row else lookup n next) =
        lookup-insert c.info.name n row next in
      elim (Bool-cases (c.info.name == n)) [
        | inr other ↦ inl (e ∙ put_in ∙ rw other refl)
        | inl same ↦
            let named : c.info.name ≡ n = eq_of_test c.info.name n same in
            inr (
              ground arith,
              ap count_of (e ∙ put_in)
                  ∙ rw same
                      (count-row_for c.info.name ∙ ap (λ t. count_of (lookup t prev) + 1) named),
            )
      ]

  -- A row after the loop stood before, or a deletion of its path was postponed.
  loop_rows :
      (next : Rows) (cs : List Change) (n : FileName)
      → (lookup n (confirm_loop scans now prev held next cs).0 ≡ lookup n next)
        ⊎ ((missed n cs ≡ true)
            × (count_of (lookup n (confirm_loop scans now prev held next cs).0)
                ≡ count_of (lookup n prev) + 1))
  unfolding confirm_loop missed
  loop_rows next [] n = inl refl
  loop_rows next (c ∷ cs) n = elim (Bool-cases (is_postponed scans now prev held c)) [
    | inr goes_on ↦ rw goes_on (missed_later c cs n (loop_rows next cs n))
    | inl waits ↦ rw waits (
        after_insert c cs n next waits
          (loop_rows (insert c.info.name (row_for scans now prev held c.info.name) next) cs n))
  ]

  enough_misses :
      (c : Change) (n : FileName)
      → is_postponed scans now prev held c ≡ false
      → (is_deletion_change c && c.info.name == n) ≡ true
      → scans ≤ count_of (lookup n prev) + 1
  enough_misses c n goes_on here =
      let named : c.info.name ≡ n = eq_of_test c.info.name n (ground arith) in
      let enough : scans ≤ (row_for scans now prev held c.info.name).count = ground arith in
      subst (λ t. scans ≤ count_of (lookup t prev) + 1) named
        (subst (λ t. scans ≤ t) (count-row_for c.info.name) enough)

  -- A deletion that goes on was missed once more than the rows before count.
  loop_out :
      (next : Rows) (cs : List Change) (n : FileName)
      → missed n (confirm_loop scans now prev held next cs).1 ≡ true
      → (missed n cs ≡ true) × (scans ≤ count_of (lookup n prev) + 1)
  unfolding confirm_loop missed
  loop_out next [] n h = cc
  loop_out next (c ∷ cs) n h = elim (Bool-cases (is_postponed scans now prev held c)) [
    | inl waits ↦
        let later : missed n
              (confirm_loop scans now prev held
                (insert c.info.name (row_for scans now prev held c.info.name) next) cs).1
            ≡ true =
          rw waits at h in
        let (m, enough) =
          loop_out (insert c.info.name (row_for scans now prev held c.info.name) next) cs n later in
        (ground arith, enough)
    | inr goes_on ↦
        let split : (is_deletion_change c && c.info.name == n
              || missed n (confirm_loop scans now prev held next cs).1)
            ≡ true =
          rw goes_on at h in
        elim (Bool-cases (is_deletion_change c && c.info.name == n)) [
          | inr other ↦
              let (m, enough) = loop_out next cs n (rw other at split) in (ground arith, enough)
          | inl here ↦ (ground arith, enough_misses c n goes_on here)
        ]
  ]

out_of_scope_lem :
    (in_scope : FileName → Bool) (rows : Rows) (n : FileName)
    → lookup n (out_of_scope in_scope rows) ≡ (if in_scope n then none else lookup n rows)
unfolding out_of_scope lookup
out_of_scope_lem in_scope [] n = ground arith
out_of_scope_lem in_scope ((m, st) ∷ rows) n = elim (Bool-cases (m == n)) [
  | inl same ↦ ground (arith, out_of_scope_lem in_scope rows n, ap in_scope (eq_of_test m n same))
  | inr other ↦ ground (arith, out_of_scope_lem in_scope rows n)
]

exec_lem : (ix : Index) → ix.faults ≡ [] → exec ix ≡ (false, ix)
unfolding exec
exec_lem ix e = ground arith

run_statements_lem : (n : ℕ) (ix : Index) → ix.faults ≡ [] → run_statements n ix ≡ (false, ix)
unfolding run_statements
run_statements_lem zero ix e = refl
run_statements_lem (suc n) ix e = ground (arith, run_statements_lem n ix e, exec_lem ix e)

missing_replace_lem :
    (ix : Index) (rows : Rows)
    → ix.faults ≡ []
    → (missing_replace ix rows).0 ≡ record ix { missing = rows }
unfolding missing_replace
missing_replace_lem ix rows e = rw (run_statements_lem (statements rows) ix e) refl

-- The index after the scans, newest first.
unfoldable pub after_scans : ℕ → Index → List ScanResult → Index
after_scans scans ix [] = ix
after_scans scans ix (s ∷ earlier) = (confirm_deletions scans s (after_scans scans ix earlier)).0

-- The index answers, its writes work, and its rows count no more than what was missed.
record Follows (history : List ScanResult) (ix : Index) : Type 0 where
  pub answers : ix.readable ≡ true
  pub works : ix.faults ≡ []
  pub counted : Counted ix.missing history

no_rows : (history : List ScanResult) → Counted [] history
unfolding lookup
no_rows history n = omega arith

counted_step :
    (scans now : ℕ) (held : List FileName) (s : ScanResult) (history : List ScanResult)
    (prev : Rows)
    → Counted prev history
    → Counted
        (confirm_loop scans now prev held (out_of_scope s.in_scope prev) s.changes).0
        (s ∷ history)
unfolding misses
counted_step scans now held s history prev counted n =
    elim (loop_rows scans now prev held (out_of_scope s.in_scope prev) s.changes n) [
      | inl e ↦ ground (arith, ap count_of (e ∙ out_of_scope_lem s.in_scope prev n), counted n)
      | inr (m, e) ↦ ground (arith, counted n)
    ]

read_rows : (ix : Index) → ix.readable ≡ true → rows_or_none (missing_list ix) ≡ ix.missing
unfolding missing_list
read_rows ix answers = rw answers refl

confirm_deletions-Follows :
    (scans : ℕ) (s : ScanResult) (history : List ScanResult) (ix : Index)
    → Follows history ix
    → Follows (s ∷ history) (confirm_deletions scans s ix).0
unfolding confirm_deletions
confirm_deletions-Follows scans s history ix f = elim (Bool-cases (leb scans 1)) [
  | inl off ↦
      rw (off, missing_replace_lem ix [] f.works)
        (record { answers = f.answers; works = f.works; counted = no_rows (s ∷ history) })
  | inr on ↦
      let held : List FileName = deferred_names s.unsettled s.changes in
      rw
        (
          on,
          read_rows ix f.answers,
          missing_replace_lem ix
              (confirm_loop scans s.now ix.missing held (out_of_scope s.in_scope ix.missing)
                s.changes).0
              f.works,
        )
        (record {
          answers = f.answers;
          works = f.works;
          counted = counted_step scans s.now held s history ix.missing f.counted;
        })
]

after_scans-Follows :
    (scans : ℕ) (ix : Index) (history : List ScanResult)
    → Follows [] ix
    → Follows history (after_scans scans ix history)
unfolding after_scans
after_scans-Follows scans ix [] f = f
after_scans-Follows scans ix (s ∷ earlier) f =
    confirm_deletions-Follows scans s earlier (after_scans scans ix earlier)
      (after_scans-Follows scans ix earlier f)

confirmed_by :
    (scans : ℕ) (ix : Index) (s : ScanResult) (earlier : List ScanResult) (n : FileName)
    → Follows earlier ix
    → missed n (confirm_deletions scans s ix).1 ≡ true
    → scans ≤ misses n (s ∷ earlier)
unfolding confirm_deletions misses
confirmed_by scans ix s earlier n f h = elim (Bool-cases (leb scans 1)) [
  | inl off ↦ let here : missed n s.changes ≡ true = rw off at h in rw here (ground arith)
  | inr on ↦
      let held : List FileName = deferred_names s.unsettled s.changes in
      let later : missed n
            (confirm_loop scans s.now ix.missing held (out_of_scope s.in_scope ix.missing)
              s.changes).1
          ≡ true =
        rw (on, read_rows ix f.answers) at h in
      let (here, enough) =
        loop_out scans s.now ix.missing held (out_of_scope s.in_scope ix.missing) s.changes n
          later in
      rw here (omega (arith, f.counted n))
]

-- A deletion is believed only once enough scans in a row missed the path. Starting from an empty table, over
-- any history of whole and scoped scans with any changes, and while the table can be read and written, each
-- deletion that a scan reports is of a path that at least `scans` scans in a row missed, this one included;
-- a scan that looked at the path's scope and did not miss it starts the count again, and one about other
-- paths leaves it.
pub confirmed :
    (scans : ℕ) (ix : Index) (s : ScanResult) (earlier : List ScanResult) (n : FileName)
    → ix.missing ≡ []
    → ix.faults ≡ []
    → ix.readable ≡ true
    → missed n (confirm_deletions scans s (after_scans scans ix earlier)).1 ≡ true
    → scans ≤ misses n (s ∷ earlier)
confirmed scans ix s earlier n empty works answers h =
    confirmed_by scans (after_scans scans ix earlier) s earlier n
      (after_scans-Follows scans ix earlier
        (record { answers = answers; works = works; counted = λ m. rw empty (no_rows [] m) }))
      h
