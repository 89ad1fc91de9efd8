-- ===== src/Scanner/Renames/Folded.antt =====
-- scanner.go, `detectRenames`: what the pass over all rows of the index leads to.
use cross_sync.Scanner.Renames.Stays.{Stays, drop_taken-Stays}
use mathlib.Core.Path.{subst}
use cross_sync.Table.{contains}
use cross_sync.Index.Query.{list}
use cross_sync.Engine.Moves.{content_key}
use cross_sync.Scanner.Renames.Pairs.{
  Step, is_vanished, pair_row-Step, Absent, Left, folds, leaves, stays,
}
use cross_sync.Scanner.Renames.Counts.{
  count_if, count_if-append, is_fold, taken_adds, taken_adds-cons, count_if-drop_taken,
  drop_or_same, drop_taken-append, untaken,
}
use cross_sync.Engine.Local.{Change, deleted, renamed}
use cross_sync.Index.Files.{FileName, FileInfo, Index}
use cross_sync.Base.{
  nat_eq, list_eq, All, All-snoc, Bool, List, [], ap, arith, eq_refl, false, get_elem?, inl, inr,
  none, refl, some, suc, true, zero, ℕ, ◌++◌, ◌==◌, ◌||◌, ◌∙◌, ◌∷◌, ◌≡◌, ◌⊎◌, sym, ◌+◌, Bool-cases,
  eq_of_test,
}
use cross_sync.Scanner.Renames.{
  Pairing, ScanView, is_added, move_to, pair_row, pair_rows, detect_renames, drop_taken,
  listed_rows,
}

-- The change takes the name away.
abbrev pub takes : FileName → Change → Bool
takes n c = elim c.kind [ deleted ↦ c.info.name == n | renamed ↦ c.from_name == n | _ ↦ false ]

abbrev pub reports : FileName → List Change → Bool
reports n [] = false
reports n (c ∷ cs) = takes n c || reports n cs

reports-append :
    (n : FileName) (xs ys : List Change) → reports n (xs ++ ys) ≡ (reports n xs || reports n ys)
reports-append n [] ys = refl
reports-append n (x ∷ xs) ys = ground (arith, reports-append n xs ys)

module _ (v : ScanView) (changes : List Change) (rows : List FileInfo) where
  abbrev pub Row : FileInfo → Type 0
  Row fi = (j : ℕ) × (get_elem? rows j ≡ some fi)

  -- A rename to an added file of the same content.
  abbrev pub Fold : FileInfo → Change → Type 0
  Fold fi c =
      (i : ℕ) × (t : Change) × (get_elem? changes i ≡ some t)
      × (is_added t ≡ true)
      × (content_key t.info ≡ content_key fi)
      × (c ≡ move_to fi t.info)

  -- Which added files go, newest first, and what the pass appended meanwhile: an added file goes exactly when
  -- a rename to that very file is appended, and once at most.
  pub data Fits : List ℕ → List Change → Type 0 where
    fits_start : Fits [] []
    reported :
        (taken : List ℕ) (found : List Change) (c : Change)
        → is_fold c ≡ false
        → Fits taken found
        → Fits taken (found ++ (c ∷ []))
    folded_in :
        (taken : List ℕ) (found : List Change) (fi : FileInfo) (i : ℕ) (t : Change)
        → contains i taken ≡ false
        → get_elem? changes i ≡ some t
        → is_added t ≡ true
        → content_key t.info ≡ content_key fi
        → Fits taken found
        → Fits (i ∷ taken) (found ++ (move_to fi t.info ∷ []))

  -- Why the pass appends a change: a row of the index that the walk did not see.
  abbrev pub Explained : Change → Type 0
  Explained c = (fi : FileInfo) × Row fi × Absent v changes fi × (Left v changes fi c ⊎ Fold fi c)

  record Sound (p : Pairing) : Type 0 where
    pub quiet : count_if is_added p.found ≡ 0
    pub folded : count_if is_fold p.found ≡ taken_adds p.taken 0 changes
    pub explained : All Explained p.found
    pub fits : Fits p.taken p.found

  Left-quiet :
      (fi : FileInfo) (c : Change)
      → Left v changes fi c
      → (is_added c ≡ false) × (is_fold c ≡ false) × (takes fi.name c ≡ true)
  Left-quiet fi c (inl e) = (ap is_added e, ap is_fold e, ap (takes fi.name) e ∙ eq_refl fi.name)
  Left-quiet fi c (inr (g, blocks, read, same, e)) =
      (ap is_added e, ap is_fold e, ap (takes fi.name) e ∙ eq_refl fi.name)

  step-Sound :
      (p p' : Pairing) (fi : FileInfo) → Row fi → Step v changes p fi p' → Sound p → Sound p'
  step-Sound p p' fi row (stays outside) s = s
  step-Sound p p' fi row (leaves c left absent) s =
      let (added_no, fold_no, takes_it) = Left-quiet fi c left in
      record {
        quiet = ground (arith, count_if-append is_added p.found (c ∷ []), s.quiet);
        folded = ground (arith, count_if-append is_fold p.found (c ∷ []), s.folded);
        explained = All-snoc Explained p.found c s.explained (fi, row, absent, inl left);
        fits = reported p.taken p.found c fold_no s.fits;
      }
  step-Sound p p' fi row (folds i t unused at is same absent) s =
      let c : Change = move_to fi t.info in
      record {
        quiet = ground (arith, count_if-append is_added p.found (c ∷ []), s.quiet);
        folded = ground (
          arith,
          count_if-append is_fold p.found (c ∷ []),
          s.folded,
          taken_adds-cons p.taken i 0 i changes t (omega arith) at is unused,
        );
        explained =
            All-snoc Explained p.found c s.explained
              (fi, row, absent, inr (i, t, at, is, same, refl));
        fits = folded_in p.taken p.found fi i t unused at is same s.fits;
      }

  step-keeps :
      (p p' : Pairing) (fi : FileInfo) (n : FileName)
      → Step v changes p fi p'
      → reports n p.found ≡ true
      → reports n p'.found ≡ true
  step-keeps p p' fi n (stays outside) h = h
  step-keeps p p' fi n (leaves c left absent) h = rw (reports-append n p.found (c ∷ []), h) refl
  step-keeps p p' fi n (folds i t unused at is same absent) h =
      rw (reports-append n p.found (move_to fi t.info ∷ []), h) refl

  step-reports :
      (p p' : Pairing) (fi : FileInfo)
      → Step v changes p fi p'
      → is_vanished v changes fi ≡ true
      → reports fi.name p'.found ≡ true
  step-reports p p' fi (stays outside) vanished = cc
  step-reports p p' fi (leaves c left absent) vanished =
      let (added_no, fold_no, takes_it) = Left-quiet fi c left in
      ground (arith, reports-append fi.name p.found (c ∷ []), takes_it)
  step-reports p p' fi (folds i t unused at is same absent) vanished =
      ground (arith, reports-append fi.name p.found (move_to fi t.info ∷ []), eq_refl fi.name)

  pair_rows-Sound :
      (p : Pairing) (fis : List FileInfo)
      → All Row fis
      → Sound p
      → Sound (pair_rows v changes p fis)
  unfolding pair_rows
  pair_rows-Sound p [] in_rows s = s
  pair_rows-Sound p (fi ∷ fis) in_rows s =
      pair_rows-Sound (pair_row v changes p fi) fis in_rows.1
        (step-Sound p (pair_row v changes p fi) fi in_rows.0 (pair_row-Step v changes p fi) s)

  pair_rows-keeps :
      (p : Pairing) (fis : List FileInfo) (n : FileName)
      → reports n p.found ≡ true
      → reports n (pair_rows v changes p fis).found ≡ true
  unfolding pair_rows
  pair_rows-keeps p [] n h = h
  pair_rows-keeps p (fi ∷ fis) n h =
      pair_rows-keeps (pair_row v changes p fi) fis n
        (step-keeps p (pair_row v changes p fi) fi n (pair_row-Step v changes p fi) h)

  pair_rows-reports :
      (p : Pairing) (fis : List FileInfo) (j : ℕ) (fi : FileInfo)
      → get_elem? fis j ≡ some fi
      → is_vanished v changes fi ≡ true
      → reports fi.name (pair_rows v changes p fis).found ≡ true
  unfolding pair_rows
  pair_rows-reports p [] j fi at vanished = cc
  pair_rows-reports p (x ∷ fis) (suc j) fi at vanished =
      pair_rows-reports (pair_row v changes p x) fis j fi at vanished
  pair_rows-reports p (x ∷ fis) zero fi at vanished =
      let same : x ≡ fi = ap (λ o. elim o [ none ↦ x | some y ↦ y ]) at in
      let now : reports x.name (pair_row v changes p x).found ≡ true =
        step-reports p (pair_row v changes p x) x (pair_row-Step v changes p x)
          (ap (is_vanished v changes) same ∙ vanished) in
      subst (λ t. reports t.name (pair_rows v changes (pair_row v changes p x) fis).found ≡ true)
        same (pair_rows-keeps (pair_row v changes p x) fis x.name now)

  -- The result of the pass: the changes that stay, and those that it appends.
  pub record Folded (result : List Change) : Type 0 where
    pub taken : List ℕ
    pub kept : List Change
    pub found : List Change
    pub split : result ≡ kept ++ found
    pub remaining : Stays taken 0 changes kept
    pub fits : Fits taken found
    pub folded_once : count_if is_added kept + count_if is_fold found ≡ count_if is_added changes
    pub explained : All Explained found
    pub complete :
        (j : ℕ) (fi : FileInfo)
        → get_elem? rows j ≡ some fi
        → is_vanished v changes fi ≡ true
        → reports fi.name found ≡ true

  Fits-marks :
      (taken : List ℕ) (found : List Change)
      → Fits taken found
      → (j : ℕ) → contains j taken ≡ true
      → (t : Change) × (get_elem? changes j ≡ some t) × (is_added t ≡ true)
  unfolding contains
  Fits-marks taken found fits_start j h = cc
  Fits-marks taken found (reported t f c plain before) j h = Fits-marks t f before j h
  Fits-marks taken found (folded_in rest f fi i t unused at is same before) j h =
      elim (Bool-cases (i == j)) [
        | inl e ↦ (t, ap (get_elem? changes) (sym (eq_of_test i j e)) ∙ at, is)
        | inr e ↦ Fits-marks rest f before j (subst (λ b. (b || contains j rest) ≡ true) e h)
      ]

  drop_taken-Folded :
      (p : Pairing)
      → p ≡ pair_rows v changes (record { taken = []; found = [] }) rows
      → Sound p
      → Folded (drop_taken p.taken 0 (changes ++ p.found))
  drop_taken-Folded p e s = record {
    kept = drop_taken p.taken 0 changes;
    found = p.found;
    split = drop_taken-append p.taken 0 changes p.found s.quiet;
    taken = p.taken;
    remaining = drop_taken-Stays p.taken 0 changes (λ j h.
        let z : 0 + j ≡ j = omega arith in
        Fits-marks p.taken p.found s.fits j (ap (λ x. contains x p.taken) (sym z) ∙ h));
    fits = s.fits;
    folded_once = omega (arith, count_if-drop_taken p.taken 0 changes, s.folded);
    explained = s.explained;
    complete = λ j fi at vanished.
        subst (λ t. reports fi.name t.found ≡ true) (sym e)
          (pair_rows-reports (record { taken = []; found = [] }) rows j fi at vanished);
  }

All-rows :
    (rows fis : List FileInfo) (i : ℕ)
    → ((j : ℕ) → get_elem? rows (i + j) ≡ get_elem? fis j)
    → All (λ fi. (j : ℕ) × (get_elem? rows j ≡ some fi)) fis
All-rows rows [] i at = tt
All-rows rows (fi ∷ fis) i at =
    let e : i ≡ i + 0 = omega arith in
    (
      (i, ap (get_elem? rows) e ∙ at 0),
      All-rows rows fis (i + 1) (λ j.
          let e' : i + 1 + j ≡ i + suc j = omega arith in ap (get_elem? rows) e' ∙ at (suc j)),
    )

none_taken :
    (v : ScanView) (changes : List Change) (rows : List FileInfo)
    → Sound v changes rows (record { taken = []; found = [] })
none_taken v changes rows = record {
  quiet = refl;
  folded = sym (untaken 0 changes);
  explained = tt;
  fits = fits_start;
}

-- The deleted pass of a scan loses nothing and makes nothing up, whatever the walk saw, whatever the reads of
-- the disk say, and whether the scan is of the whole folder or of some paths. The changes before it stay in
-- their order, but for the added files at some positions; each time such a position is taken, it was free and
-- one rename to the very file that stands there is appended, and no rename inside the gate is appended
-- otherwise: each added file that goes was folded into exactly one rename to it. Each change that the pass
-- appends is of a live row that the walk did not see and `cheapRenames` did not take, and that was to be
-- looked at or is gone from the disk: a deletion, a move out of the gate to a file whose hashes were read
-- and are the row's, or a rename to an added file of the same content. And each live row of the scope that
-- the walk did not see and the include matcher takes is reported, as deleted or as renamed.
pub detect_renames-Folded :
    (v : ScanView) (ix : Index) (changes : List Change)
    → Folded v changes (listed_rows (list ix)) (detect_renames v ix changes)
unfolding detect_renames
detect_renames-Folded v ix changes =
    let rows : List FileInfo = listed_rows (list ix) in
    let p : Pairing = pair_rows v changes (record { taken = []; found = [] }) rows in
    let sound : Sound v changes rows p =
      pair_rows-Sound v changes rows (record { taken = []; found = [] }) rows
        (All-rows rows rows 0 (λ j. let e : 0 + j ≡ j = omega arith in ap (get_elem? rows) e))
        (none_taken v changes rows) in
    let all : Folded v changes rows (drop_taken p.taken 0 (changes ++ p.found)) =
      drop_taken-Folded v changes rows p refl sound in
    subst (Folded v changes rows) (sym (drop_or_same p.taken (changes ++ p.found))) all
