-- ===== src/Scanner/Settled.antt =====
-- scanner.go, `visit`: what the stability gate lets through.
use cross_sync.Engine.Local.{ChangeKind}
use mathlib.Core.Path.{subst}
use cross_sync.Base.{
  ℕ, nat_eq, Bool-cases, List, Option, [], arith, inl, inr, none, refl, some, suc, true, zero, ◌+◌,
  ◌∷◌, ◌≡◌, Bool, false, ltb, not, ◌&&◌, ◌-◌, ◌==◌, ◌||◌, ◌≤◌, if◌then◌else◌,
}
use cross_sync.Index.Files.{SettleState, FileInfo}
use cross_sync.Scanner.{
  MtKey, Visited, held_back, mt_beq, mt_of_state, observed, SettleGate, gate_on, is_as_indexed,
  to_hash, visit_file, unchanged_file, visit_kind,
}

-- One look at a file: its size and time, and from when on a run that it starts counts as quiet.
pub record Look : Type 0 where
  pub key : MtKey
  pub since : ℕ

-- The last `n` looks, newest first, all saw the same size and time, and the oldest of them counts from `first`.
abbrev pub Still : MtKey → ℕ → ℕ → List Look → Type 0
Still key n first [] = ⊥
Still key zero first (l ∷ ls) = ⊥
Still key (suc zero) first (l ∷ ls) = (mt_beq l.key key ≡ true) × (first ≡ l.since)
Still key (suc (suc n)) first (l ∷ ls) = (mt_beq l.key key ≡ true) × Still key (suc n) first ls

-- A row of the settling table stands for looks that were alike.
abbrev pub IsRow : Option SettleState → List Look → Type 0
IsRow none looks = Unit
IsRow (some st) looks = Still (mt_of_state st) st.count st.first looks

-- The stat after the file was read, as a row that starts again but keeps the start of the run before it.
abbrev pub drift_state : MtKey → ℕ → SettleState
drift_state key first = record {
  size = key.size;
  mod_s = key.mod_s;
  mod_ns = key.mod_ns;
  count = 1;
  first = first;
}

-- The row that a scan leaves of a file that it looked at, where a file that is hashed has the stat `after` when
-- it was read, none if it vanished: a row stays when the file is held back, or when it moved while it was read.
unfoldable pub after_hashing : MtKey → Option MtKey → Visited → Option SettleState
after_hashing key after (held_back st) = some st
after_hashing key after unchanged_file = none
after_hashing key none (to_hash kind first) = none
after_hashing key (some after) (to_hash kind first) =
    if mt_beq after key then none else some (drift_state after first)

-- The looks of a scan: that of the walk, which counts from its own time; and the stat of a file that moved while
-- it was read, which counts from the start of the run that had the file read.
abbrev pub looks_of : MtKey → ℕ → Option MtKey → Visited → List Look → List Look
looks_of key now after (held_back st) ls = record { key = key; since = now } ∷ ls
looks_of key now after unchanged_file ls = record { key = key; since = now } ∷ ls
looks_of key now none (to_hash kind first) ls = record { key = key; since = now } ∷ ls
looks_of key now (some after) (to_hash kind first) ls =
    if mt_beq after key
    then record { key = key; since = now } ∷ ls
    else record { key = after; since = first } ∷ record { key = key; since = now } ∷ ls

mt_beq_refl : (k : MtKey) → mt_beq k k ≡ true
mt_beq_refl k = ground arith

mt_beq_trans : (a b c : MtKey) → mt_beq a b ≡ true → mt_beq b c ≡ true → mt_beq a c ≡ true
mt_beq_trans a b c p q = ground arith

Still-same :
    (a b : MtKey) (n first : ℕ) (looks : List Look)
    → mt_beq a b ≡ true
    → Still a n first looks
    → Still b n first looks
Still-same a b n first [] e s = s
Still-same a b zero first (l ∷ ls) e s = s
Still-same a b (suc zero) first (l ∷ ls) e s = (mt_beq_trans l.key a b s.0 e, s.1)
Still-same a b (suc (suc n)) first (l ∷ ls) e s =
    (mt_beq_trans l.key a b s.0 e, Still-same a b (suc n) first ls e s.1)

Still-cons :
    (key : MtKey) (now n first : ℕ) (looks : List Look)
    → Still key n first looks
    → Still key (n + 1) first (record { key = key; since = now } ∷ looks)
Still-cons key now n first [] s = absurd s
Still-cons key now zero first (l ∷ ls) s = absurd s
Still-cons key now (suc n) first (l ∷ ls) s =
    let e : suc n + 1 ≡ suc (suc n) = omega arith in rw e (mt_beq_refl key, s)

observed-Still :
    (prev : Option SettleState) (key : MtKey) (now : ℕ) (looks : List Look)
    → IsRow prev looks
    → Still
        (mt_of_state (observed prev key now))
        (observed prev key now).count
        (observed prev key now).first
        (record { key = key; since = now } ∷ looks)
unfolding observed
observed-Still none key now looks r = (mt_beq_refl key, refl)
observed-Still (some p) key now looks r = elim (Bool-cases (mt_beq (mt_of_state p) key)) [
  | inr moved ↦ rw moved (mt_beq_refl key, refl)
  | inl same ↦ rw same (
      Still-cons key now p.count p.first looks
        (Still-same (mt_of_state p) key p.count p.first looks same r))
]

-- A scan, as one file lives it: the walk looks at it, and its stat after it was read is given where it is read;
-- its row is lost, since the walk finds it gone or excluded or the table cannot be read, in which case a look
-- at the file may follow; or its row stays as it is, since the scan is about other paths, was cancelled, or
-- could not write the table.
pub data FileEvent : Type 0 where
  looked : Bool → Option FileInfo → MtKey → ℕ → Option MtKey → FileEvent
  passed_over : FileEvent
  row_stays : FileEvent

hashed-IsRow :
    (key : MtKey) (now : ℕ) (after : Option MtKey) (kind : ChangeKind) (first : ℕ)
    (looks : List Look)
    → IsRow
        (after_hashing key after (to_hash kind first))
        (looks_of key now after (to_hash kind first) looks)
unfolding after_hashing
hashed-IsRow key now none kind first looks = tt
hashed-IsRow key now (some after) kind first looks = elim (Bool-cases (mt_beq after key)) [
  | inl same ↦ rw same tt
  | inr moved ↦ rw moved (mt_beq_refl after, refl)
]

module _ (g : SettleGate) where
  -- The file's row in the settling table after the scans, newest first.
  unfoldable pub row_after : List FileEvent → Option SettleState
  unfolding after_hashing
  row_after [] = none
  row_after (looked force existing key now after ∷ earlier) =
      after_hashing key after (visit_file g force now (row_after earlier) existing key)
  row_after (passed_over ∷ earlier) = none
  row_after (row_stays ∷ earlier) = row_after earlier

  -- The looks of the scans since the file was last passed over, of those whose table was written.
  unfoldable pub looks_after : List FileEvent → List Look
  looks_after [] = []
  looks_after (looked force existing key now after ∷ earlier) =
      looks_of key now after (visit_file g force now (row_after earlier) existing key)
        (looks_after earlier)
  looks_after (passed_over ∷ earlier) = []
  looks_after (row_stays ∷ earlier) = looks_after earlier

  visit_file-IsRow :
      (force : Bool) (now : ℕ) (prev : Option SettleState) (existing : Option FileInfo)
      (key : MtKey) (after : Option MtKey) (looks : List Look)
      → IsRow prev looks
      → IsRow
          (after_hashing key after (visit_file g force now prev existing key))
          (looks_of key now after (visit_file g force now prev existing key) looks)
  unfolding visit_file after_hashing
  visit_file-IsRow force now prev existing key after looks r =
      elim (Bool-cases (is_as_indexed key existing && not force)) [
        | inl same ↦ rw same tt
        | inr other ↦ elim (Bool-cases (not (gate_on g) || force)) [
          | inl off ↦ rw (other, off) (hashed-IsRow key now after (visit_kind existing) now looks)
          | inr on ↦
              elim (Bool-cases (
                ltb (observed prev key now).count g.scans
                || (not (g.seconds == 0) && ltb (now - (observed prev key now).first) g.seconds))) [
                  | inl held ↦ rw (other, on, held) (observed-Still prev key now looks r)
                  | inr free ↦
                      rw (other, on, free)
                        (hashed-IsRow key now after (visit_kind existing)
                          (observed prev key now).first looks)
                ]
        ]
      ]

  row_after-IsRow : (events : List FileEvent) → IsRow (row_after events) (looks_after events)
  unfolding row_after looks_after
  row_after-IsRow [] = tt
  row_after-IsRow (looked force existing key now after ∷ earlier) =
      visit_file-IsRow force now (row_after earlier) existing key after (looks_after earlier)
        (row_after-IsRow earlier)
  row_after-IsRow (passed_over ∷ earlier) = tt
  row_after-IsRow (row_stays ∷ earlier) = row_after-IsRow earlier

  observed-key :
      (prev : Option SettleState) (key : MtKey) (now : ℕ)
      → mt_beq (mt_of_state (observed prev key now)) key ≡ true
  unfolding observed
  observed-key none key now = mt_beq_refl key
  observed-key (some p) key now = ground (arith, mt_beq_refl key)

  let_through :
      (prev : Option SettleState) (existing : Option FileInfo) (key : MtKey) (now first : ℕ)
      (kind : ChangeKind)
      → gate_on g ≡ true
      → visit_file g false now prev existing key ≡ to_hash kind first
      → (g.scans ≤ (observed prev key now).count)
        × (g.seconds ≤ now - first)
        × ((observed prev key now).first ≡ first)
  unfolding visit_file
  let_through prev existing key now first kind on h = ground arith

  -- What the gate lets through. With the gate on, and unless the scan is to verify everything, a file that a
  -- scan queues for hashing had the same size and modification time in at least as many looks in a row as the
  -- gate asks for, this one included, over any history of scans: full ones, scans of other paths, cancelled
  -- ones, and failed reads and writes of the table, where the looks of a failed write do not count. Where the
  -- first of these looks is one of the walk, the quiet window has passed since that look. Where it is the
  -- stat of a file that moved while it was read, which counts as a look, the window has only passed since the
  -- start of the run that had the file read, so that the file may have changed less than the window ago.
  pub settled :
      (earlier : List FileEvent) (existing : Option FileInfo) (key : MtKey) (now first : ℕ)
      (kind : ChangeKind)
      → gate_on g ≡ true
      → visit_file g false now (row_after earlier) existing key ≡ to_hash kind first
      → (n : ℕ) × (g.scans ≤ n)
        × (g.seconds ≤ now - first)
        × Still key n first (record { key = key; since = now } ∷ looks_after earlier)
  unfolding visit_file
  settled earlier existing key now first kind on h =
      let prev : Option SettleState = row_after earlier in
      let st : SettleState = observed prev key now in
      let still : Still (mt_of_state st) st.count st.first
          (record { key = key; since = now } ∷ looks_after earlier) =
        observed-Still prev key now (looks_after earlier) (row_after-IsRow earlier) in
      let (enough, quiet, same) = let_through prev existing key now first kind on h in
      (
        st.count,
        enough,
        quiet,
        subst (λ t. Still key st.count t (record { key = key; since = now } ∷ looks_after earlier))
            same
            (Still-same (mt_of_state st) key st.count st.first
              (record { key = key; since = now } ∷ looks_after earlier) (observed-key prev key now)
              still),
      )
