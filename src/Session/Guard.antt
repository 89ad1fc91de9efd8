-- ===== src/Session/Guard.antt =====
-- session.go: the guard that holds back a mass deletion, and what it weighs. The smallest number of
-- deletions that it looks at is a parameter, as it is a variable of the source.
use cross_sync.Base.{
  ℕ, list_eq, nat_eq, Bool, List, [], arith, false, if◌then◌else◌, leb, length, ltb, not, refl, suc,
  sym, true, ◌&&◌, ◌*◌, ◌++◌, ◌+◌, ◌==◌, ◌||◌, ◌∙◌, ◌∷◌, ◌≡◌, ◌≤◌, Bool-cases, eq_of_test, eq_refl,
  get_elem?, inl, inr, some, zero, ◌<◌, ◌↔◌, ◌⊎◌,
}
use mathlib.Core.List.{append_assoc}
use mathlib.Core.Option.{some-injective}
use mathlib.Core.Path.{subst, ap₂}
use cross_sync.Text.{has_prefix, slash}
use cross_sync.Index.Files.{FileInfo, FileName, Index, Result, err, ok}
use cross_sync.Index.Query.{list}

abbrev pub min_guard_deletes : ℕ
min_guard_deletes = 100

-- `guardBlocksDeletes`, for counts and thresholds that are not negative and do not overflow.
unfoldable pub guard_blocks_deletes : ℕ → ℕ → ℕ → ℕ → ℕ → Bool
guard_blocks_deletes least live dels pct files =
    if live == 0 || ltb dels least
    then false
    else leb (live * pct) (dels * 100) || (ltb 0 files && leb files dels)

-- The name lies below one of the pending names.
unfoldable pub is_beneath : List FileName → FileName → Bool
is_beneath [] name = false
is_beneath (d ∷ dels) name = has_prefix name (d ++ (slash ∷ [])) || is_beneath dels name

unfoldable pub count_beneath : List FileName → List FileInfo → ℕ
unfolding is_beneath
count_beneath dels [] = 0
count_beneath dels (fi ∷ fis) =
    let rest = count_beneath dels fis in
    if not fi.deleted && is_beneath dels fi.name then suc rest else rest

unfoldable pub count_live : List FileInfo → ℕ
count_live [] = 0
count_live (fi ∷ fis) = let rest = count_live fis in if fi.deleted then rest else suc rest

-- The entries that a failing query yields are none.
abbrev pub yielded : Result (List FileInfo) → List FileInfo
yielded (err x) = []
yielded (ok fis) = fis

-- `deletionWeight`
unfoldable pub deletion_weight : Index → List FileName → ℕ × ℕ
unfolding count_beneath count_live
deletion_weight ix dels =
    let fis = yielded (list ix) in
    elim dels [
      | [] ↦ (count_live fis, 0)
      | d ∷ ds ↦ (count_live fis, length (d ∷ ds) + count_beneath (d ∷ ds) fis)
    ]

-- How many elements of a list a predicate holds of.
pub data Counts {A : Type 0} (P : A → Type 0) : List A → ℕ → Type 0 where
  counts_none : Counts P [] 0
  counts_one : (a : A) (rest : List A) (n : ℕ) → P a → Counts P rest n → Counts P (a ∷ rest) (suc n)
  counts_no : (a : A) (rest : List A) (n : ℕ) → ¬ P a → Counts P rest n → Counts P (a ∷ rest) n

-- The path lies inside one of the directories.
abbrev pub LiesBelow : List FileName → FileName → Type 0
LiesBelow dels name =
    (k : ℕ) × (d : FileName) × (rest : FileName) × (get_elem? dels k ≡ some d)
    × (name ≡ d ++ (slash ∷ rest))

abbrev pub IsLive : FileInfo → Type 0
IsLive fi = fi.deleted ≡ false

-- When deletions of this weight are held back: there are live entries, the weight is not too small to look at,
-- and it is the given share of the live entries or the given number of files, where one is given.
abbrev pub Blocks : ℕ → ℕ → ℕ → ℕ → ℕ → Type 0
Blocks least live weight pct files =
    (0 < live) × (least ≤ weight) × ((live * pct ≤ weight * 100) ⊎ ((0 < files) × (files ≤ weight)))

guard_blocks_deletes-Blocks :
    (least live weight pct files : ℕ)
    → (guard_blocks_deletes least live weight pct files ≡ true) ↔ Blocks least live weight pct files
unfolding guard_blocks_deletes
guard_blocks_deletes-Blocks least live weight pct files = (λ h. ground arith, λ h. ground arith)

Counts-if :
    {A : Type 0} (P : A → Type 0) (b : Bool) (a : A) (rest : List A) (n : ℕ)
    → (b ≡ true → P a)
    → (b ≡ false → ¬ P a)
    → Counts P rest n
    → Counts P (a ∷ rest) (if b then suc n else n)
Counts-if P true a rest n inside outside c = counts_one a rest n (inside refl) c
Counts-if P false a rest n inside outside c = counts_no a rest n (outside refl) c

Counts-unless :
    {A : Type 0} (P : A → Type 0) (b : Bool) (a : A) (rest : List A) (n : ℕ)
    → (b ≡ true → ¬ P a)
    → (b ≡ false → P a)
    → Counts P rest n
    → Counts P (a ∷ rest) (if b then n else suc n)
Counts-unless P true a rest n outside inside c = counts_no a rest n (outside refl) c
Counts-unless P false a rest n outside inside c = counts_one a rest n (inside refl) c

count_live-Counts : (fis : List FileInfo) → Counts IsLive fis (count_live fis)
unfolding count_live
count_live-Counts [] = counts_none
count_live-Counts (fi ∷ fis) =
    Counts-unless IsLive fi.deleted fi fis (count_live fis) (λ gone live. cc) (λ live. live)
      (count_live-Counts fis)

prefix_rest :
    (name p : FileName) → has_prefix name p ≡ true → (rest : FileName) × (name ≡ p ++ rest)
unfolding has_prefix
prefix_rest name [] h = (name, refl)
prefix_rest [] (y ∷ p) h = cc
prefix_rest (x ∷ name) (y ∷ p) h =
    let (rest, e) = prefix_rest name p (ground arith) in
    (rest, ap₂ (λ c cs. c ∷ cs) (eq_of_test x y (ground arith)) e)

has_prefix-append : (p rest : FileName) → has_prefix (p ++ rest) p ≡ true
unfolding has_prefix
has_prefix-append [] rest = refl
has_prefix-append (x ∷ p) rest = ground (arith, has_prefix-append p rest, eq_refl x)

is_beneath-LiesBelow :
    (dels : List FileName) (name : FileName) → is_beneath dels name ≡ true → LiesBelow dels name
unfolding is_beneath
is_beneath-LiesBelow [] name h = cc
is_beneath-LiesBelow (d ∷ dels) name h = elim (Bool-cases (has_prefix name (d ++ (slash ∷ [])))) [
  | inl here ↦
      let (rest, e) = prefix_rest name (d ++ (slash ∷ [])) here in
      (0, d, rest, refl, e ∙ append_assoc d (slash ∷ []) rest)
  | inr other ↦
      let (k, d', rest, at, e) = is_beneath-LiesBelow dels name (ground arith) in
      (suc k, d', rest, at, e)
]

beneath_found :
    (dels : List FileName) (k : ℕ) (d rest : FileName)
    → get_elem? dels k ≡ some d
    → is_beneath dels (d ++ (slash ∷ rest)) ≡ true
unfolding is_beneath
beneath_found [] k d rest at = cc
beneath_found (x ∷ dels) zero d rest at =
    subst (λ p. is_beneath (p ∷ dels) (d ++ (slash ∷ rest)) ≡ true) (sym (some-injective x d at))
      (ground (arith, has_prefix-append (d ++ (slash ∷ [])) rest, append_assoc d (slash ∷ []) rest))
beneath_found (x ∷ dels) (suc k) d rest at = ground (arith, beneath_found dels k d rest at)

count_beneath-Counts :
    (dels : List FileName) (fis : List FileInfo)
    → Counts (λ fi. IsLive fi × LiesBelow dels fi.name) fis (count_beneath dels fis)
unfolding count_beneath
count_beneath-Counts dels [] = counts_none
count_beneath-Counts dels (fi ∷ fis) =
    Counts-if (λ fi. IsLive fi × LiesBelow dels fi.name) (not fi.deleted && is_beneath dels fi.name)
      fi fis (count_beneath dels fis)
      (λ h. (ground arith, is_beneath-LiesBelow dels fi.name (ground arith)))
      (λ h both.
        let (k, d, tail, at, e) = both.1 in
        let found : is_beneath dels fi.name ≡ true =
          subst (λ n. is_beneath dels n ≡ true) (sym e) (beneath_found dels k d tail at) in
        absurd (ground (arith, h, found, both.0)))
      (count_beneath-Counts dels fis)

weightless : (fis : List FileInfo) → count_beneath [] fis ≡ 0
unfolding count_beneath is_beneath
weightless [] = refl
weightless (fi ∷ fis) = ground (arith, weightless fis)

deletion_weight-counts :
    (ix : Index) (dels : List FileName)
    → ((deletion_weight ix dels).0 ≡ count_live (yielded (list ix)))
      × ((deletion_weight ix dels).1 ≡ length dels + count_beneath dels (yielded (list ix)))
unfolding deletion_weight
deletion_weight-counts ix [] = (refl, omega (arith, weightless (yielded (list ix))))
deletion_weight-counts ix (d ∷ dels) = (refl, refl)

-- The guard holds back a set of pending deletions exactly when there are live entries and the deletions weigh
-- enough to look at, and weigh at least the given share of the live entries in percent, or at least the given
-- number of files where one is given. They weigh one each and one more for each live entry that lies inside
-- one of them; the entries are those that the index yields, none when its query fails.
pub deletion_weight_lem :
    (least pct files : ℕ) (ix : Index) (dels : List FileName)
    → (live : ℕ) × (below : ℕ) × Counts IsLive (yielded (list ix)) live
      × Counts (λ fi. IsLive fi × LiesBelow dels fi.name) (yielded (list ix)) below
      × ((guard_blocks_deletes least
              (deletion_weight ix dels).0
              (deletion_weight ix dels).1
              pct
              files
            ≡ true)
          ↔ Blocks least live (length dels + below) pct files)
deletion_weight_lem least pct files ix dels =
    let fis : List FileInfo = yielded (list ix) in
    let w = deletion_weight-counts ix dels in
    (
      count_live fis,
      count_beneath dels fis,
      count_live-Counts fis,
      count_beneath-Counts dels fis,
      rw (w.0, w.1)
          (guard_blocks_deletes-Blocks least (count_live fis) (length dels + count_beneath dels fis)
            pct files),
    )
