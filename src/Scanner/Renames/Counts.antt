-- ===== src/Scanner/Renames/Counts.antt =====
-- scanner.go, `detectRenames`: the added files and the moves among the changes, counted.
use cross_sync.Engine.Local.{Change, renamed}
use cross_sync.Table.{contains}
use cross_sync.Base.{
  nat_eq, Bool, List, [], arith, false, get_elem?, if◌then◌else◌, not, refl, some, suc, true, zero,
  ℕ, ◌&&◌, ◌++◌, ◌+◌, ◌<◌, ◌==◌, ◌∷◌, ◌≡◌, ap, none, sym, ◌∙◌, length,
}
use cross_sync.Scanner.Renames.{drop_taken, is_added}

abbrev pub count_if : (Change → Bool) → List Change → ℕ
count_if P [] = 0
count_if P (c ∷ cs) = if P c then count_if P cs + 1 else count_if P cs

-- A rename to a file that the scan has as added.
abbrev pub is_fold : Change → Bool
is_fold c = elim c.kind [ renamed ↦ not c.out_of_gate | _ ↦ false ]

-- The changes that are not about added files.
abbrev pub others : List Change → List Change
others [] = []
others (c ∷ cs) = if is_added c then others cs else c ∷ others cs

-- How many added changes are at a taken index, from index `k` on.
abbrev pub taken_adds : List ℕ → ℕ → List Change → ℕ
taken_adds taken k [] = 0
taken_adds taken k (c ∷ cs) =
    if is_added c && contains k taken
    then taken_adds taken (k + 1) cs + 1
    else taken_adds taken (k + 1) cs

pub count_if-append :
    (P : Change → Bool) (xs ys : List Change)
    → count_if P (xs ++ ys) ≡ count_if P xs + count_if P ys
count_if-append P [] ys = omega arith
count_if-append P (x ∷ xs) ys = ground (arith, count_if-append P xs ys)

pub count_if-drop_taken :
    (taken : List ℕ) (k : ℕ) (cs : List Change)
    → count_if is_added (drop_taken taken k cs) + taken_adds taken k cs ≡ count_if is_added cs
unfolding drop_taken
count_if-drop_taken taken k [] = refl
count_if-drop_taken taken k (c ∷ cs) = ground (arith, count_if-drop_taken taken (k + 1) cs)

pub others-drop_taken :
    (taken : List ℕ) (k : ℕ) (cs : List Change) → others (drop_taken taken k cs) ≡ others cs
unfolding drop_taken
others-drop_taken taken k [] = refl
others-drop_taken taken k (c ∷ cs) = ground (arith, others-drop_taken taken (k + 1) cs)

pub drop_taken-nil : (k : ℕ) (cs : List Change) → drop_taken [] k cs ≡ cs
unfolding drop_taken contains
drop_taken-nil k [] = refl
drop_taken-nil k (c ∷ cs) = ground (arith, drop_taken-nil (k + 1) cs)

-- Changes behind that are not about added files stay.
pub drop_taken-append :
    (taken : List ℕ) (k : ℕ) (cs found : List Change)
    → count_if is_added found ≡ 0
    → drop_taken taken k (cs ++ found) ≡ drop_taken taken k cs ++ found
unfolding drop_taken
drop_taken-append taken k (c ∷ cs) found quiet =
    ground (arith, drop_taken-append taken (k + 1) cs found quiet)
drop_taken-append taken k [] [] quiet = refl
drop_taken-append taken k [] (c ∷ found) quiet =
    ground (arith, drop_taken-append taken (k + 1) [] found)

-- An index before `k` does not count from `k` on.
taken_adds-past :
    (i : ℕ) (taken : List ℕ) (k : ℕ) (cs : List Change)
    → i < k
    → taken_adds (i ∷ taken) k cs ≡ taken_adds taken k cs
unfolding contains
taken_adds-past i taken k [] before = refl
taken_adds-past i taken k (c ∷ cs) before =
    let apart : (i == k) ≡ false = ground arith in
    rw apart (ground (arith, taken_adds-past i taken (k + 1) cs))

pub taken_adds-cons :
    (taken : List ℕ) (i k j : ℕ) (cs : List Change) (t : Change)
    → i ≡ k + j
    → get_elem? cs j ≡ some t
    → is_added t ≡ true
    → contains i taken ≡ false
    → taken_adds (i ∷ taken) k cs ≡ taken_adds taken k cs + 1
unfolding contains
taken_adds-cons taken i k j [] t e at is unused = cc
taken_adds-cons taken i k zero (c ∷ cs) t e at is unused =
    let same : c ≡ t = ap (λ o. elim o [ none ↦ c | some y ↦ y ]) at in
    let is' : is_added c ≡ true = ap is_added same ∙ is in
    let now : i ≡ k = omega (arith, e) in
    let hit : (i == k) ≡ true = ground (arith, now) in
    let unused' : contains k taken ≡ false = ap (λ n. contains n taken) (sym now) ∙ unused in
    rw (is', hit, unused') (ground (arith, taken_adds-past i taken (k + 1) cs))
taken_adds-cons taken i k (suc j) (c ∷ cs) t e at is unused =
    let miss : (i == k) ≡ false = ground (arith, e) in
    let later : taken_adds (i ∷ taken) (k + 1) cs ≡ taken_adds taken (k + 1) cs + 1 =
      taken_adds-cons taken i (k + 1) j cs t (omega (arith, e)) at is unused in
    rw miss (ground (arith, later))

pub untaken : (k : ℕ) (cs : List Change) → taken_adds [] k cs ≡ 0
unfolding contains
untaken k [] = refl
untaken k (c ∷ cs) = ground (arith, untaken (k + 1) cs)

pub drop_or_same :
    (taken : List ℕ) (cs : List Change)
    → (if length taken == 0 then cs else drop_taken taken 0 cs) ≡ drop_taken taken 0 cs
drop_or_same [] cs = sym (drop_taken-nil 0 cs)
drop_or_same (i ∷ taken) cs = ground arith
