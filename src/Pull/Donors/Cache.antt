-- ===== src/Pull/Donors/Cache.antt =====
-- block_reuse.go, `dirDonors`: the cache of directories.
use mathlib.Core.Path.{subst}
use cross_sync.Engine.State.{Engine}
use cross_sync.Index.Files.{FileName}
use cross_sync.Table.{Table, contains, delete, insert, lookup, lookup-delete, lookup-insert}
use cross_sync.Base.{
  nat_eq, list_eq, Bool-cases, List, [], ap, arith, eq_of_test, if◌then◌else◌, inl, inr, length,
  ltb, none, some, sym, true, ◌++◌, ◌+◌, ◌==◌, ◌||◌, ◌∙◌, ◌∷◌, ◌≡◌, ◌≤◌, Option, refl, get_elem?,
  suc, ℕ,
}
use cross_sync.Pull.Donors.{
  dir_donors, DonorState, Locs, build_locs, evict, max_donor_dirs, to_young_end, without_first,
  served, reset_donor_index, offers,
}
use cross_sync.Pull.Donors.Kept.{Offers, build_locs-Offers, length-snoc}

-- The map of a directory as one of these engines gave it.
abbrev pub WasBuilt : List Engine → FileName → Locs → Type 0
WasBuilt past dir locs = (k : ℕ) × (e : Engine) × (get_elem? past k ≡ some e) × Offers e dir locs

abbrev pub Ordered : List Engine → Table FileName Locs → List FileName → Type 0
Ordered past dirs order =
    (d : FileName) (locs : Locs)
    → lookup d dirs ≡ some locs
    → (contains d order ≡ true) × WasBuilt past d locs

-- At most 64 directories, each of them due to be evicted at some time, and each map built by one of the engines.
pub record IsCache (past : List Engine) (st : DonorState) : Type 0 where
  pub bounded : length st.order ≤ max_donor_dirs
  pub ordered : Ordered past st.dirs st.order

WasBuilt-later :
    (e : Engine) (past : List Engine) (dir : FileName) (locs : Locs)
    → WasBuilt past dir locs
    → WasBuilt (e ∷ past) dir locs
WasBuilt-later e past dir locs (k, f, at, offers) = (suc k, f, at, offers)

IsCache-later :
    (e : Engine) (past : List Engine) (st : DonorState) → IsCache past st → IsCache (e ∷ past) st
IsCache-later e past st c = record {
  bounded = c.bounded;
  ordered =
      λ d locs at. ((c.ordered d locs at).0, WasBuilt-later e past d locs (c.ordered d locs at).1);
}

contains-snoc :
    (d x : FileName) (xs : List FileName) → contains d (xs ++ (x ∷ [])) ≡ (contains d xs || x == d)
unfolding contains
contains-snoc d x [] = ground arith
contains-snoc d x (y ∷ xs) = ground (arith, contains-snoc d x xs)

contains-without_first :
    (d x : FileName) (xs : List FileName)
    → contains d xs ≡ true
    → (contains d (without_first x xs) || x == d) ≡ true
unfolding contains
contains-without_first d x [] h = cc
contains-without_first d x (y ∷ xs) h = elim (Bool-cases (y == x)) [
  | inl same ↦
      let e : y ≡ x = eq_of_test y x same in
      let e' : (y == d) ≡ (x == d) = ap (λ t. t == d) e in rw same (ground arith)
  | inr other ↦ rw other (ground (arith, contains-without_first d x xs))
]

length-without_first :
    (x : FileName) (xs : List FileName)
    → contains x xs ≡ true
    → length (without_first x xs) + 1 ≡ length xs
unfolding contains
length-without_first x [] h = cc
length-without_first x (y ∷ xs) h = elim (Bool-cases (y == x)) [
  | inl same ↦ rw same (omega arith)
  | inr other ↦ rw other (ground (arith, length-without_first x xs))
]

touched-IsCache :
    (past : List Engine) (st : DonorState) (dir : FileName)
    → IsCache past st
    → IsCache past (record st { order = to_young_end dir st.order })
touched-IsCache past st dir c = elim (Bool-cases (contains dir st.order)) [
  | inr new ↦ rw new c
  | inl old ↦ rw old (record {
    bounded = omega (
      arith,
      length-snoc (without_first dir st.order) dir,
      length-without_first dir st.order old,
      c.bounded,
    );
    ordered = λ d locs at. (
      contains-snoc d dir (without_first dir st.order)
          ∙ contains-without_first d dir st.order (c.ordered d locs at).0,
      (c.ordered d locs at).1,
    );
  })
]

after_delete :
    (past : List Engine) (dirs : Table FileName Locs) (oldest : FileName) (order : List FileName)
    → Ordered past dirs (oldest ∷ order)
    → Ordered past (delete oldest dirs) order
unfolding contains
after_delete past dirs oldest order o d locs at =
    let cut : lookup d (delete oldest dirs) ≡ (if oldest == d then none else lookup d dirs) =
      lookup-delete oldest d dirs in
    elim (Bool-cases (oldest == d)) [
      | inl same ↦ let no : none ≡ some locs = sym (rw same at cut) ∙ at in cc
      | inr other ↦
          let was : lookup d dirs ≡ some locs = sym (rw other at cut) ∙ at in
          let (held, built) = o d locs was in (ground arith, built)
    ]

evict-IsCache :
    (past : List Engine) (dirs : Table FileName Locs) (order : List FileName)
    → Ordered past dirs order
    → IsCache past (evict dirs order)
unfolding evict
evict-IsCache past dirs [] o = record { bounded = omega arith; ordered = o }
evict-IsCache past dirs (oldest ∷ order) o =
    elim (Bool-cases (ltb max_donor_dirs (length (oldest ∷ order)))) [
      | inr fits ↦ rw fits (record { bounded = ground arith; ordered = o })
      | inl over ↦
          rw over
            (evict-IsCache past (delete oldest dirs) order (after_delete past dirs oldest order o))
    ]

after_insert :
    (e : Engine) (past : List Engine) (st : DonorState) (dir : FileName)
    → IsCache (e ∷ past) st
    → Ordered (e ∷ past) (insert dir (build_locs e dir) st.dirs) (st.order ++ (dir ∷ []))
after_insert e past st dir c d locs at =
    let put_in : lookup d (insert dir (build_locs e dir) st.dirs)
        ≡ (if dir == d then some (build_locs e dir) else lookup d st.dirs) =
      lookup-insert dir d (build_locs e dir) st.dirs in
    elim (Bool-cases (dir == d)) [
      | inl same ↦
          let here : some (build_locs e dir) ≡ some locs = sym (rw same at put_in) ∙ at in
          let eq : build_locs e dir ≡ locs =
            ap (λ o. elim o [ none ↦ build_locs e dir | some x ↦ x ]) here in
          (
            contains-snoc d dir st.order ∙ ground arith,
            subst (λ t. WasBuilt (e ∷ past) t locs) (eq_of_test dir d same)
                (subst (WasBuilt (e ∷ past) dir) eq (0, e, refl, build_locs-Offers e dir)),
          )
      | inr other ↦
          let was : lookup d st.dirs ≡ some locs = sym (rw other at put_in) ∙ at in
          let (held, built) = c.ordered d locs was in
          (contains-snoc d dir st.order ∙ ground arith, built)
    ]

served-IsCache :
    (e : Engine) (past : List Engine) (st : DonorState) (dir : FileName) (found : Option Locs)
    → lookup dir st.dirs ≡ found
    → IsCache (e ∷ past) st
    → IsCache (e ∷ past) (served e st dir found).0
      × WasBuilt (e ∷ past) dir (served e st dir found).1
served-IsCache e past st dir (some locs) at c =
    (touched-IsCache (e ∷ past) st dir c, (c.ordered dir locs at).1)
served-IsCache e past st dir none at c = (
  evict-IsCache (e ∷ past) (insert dir (build_locs e dir) st.dirs) (st.order ++ (dir ∷ []))
      (after_insert e past st dir c),
  (0, e, refl, build_locs-Offers e dir),
)

-- The questions of the pulls since the cache was reset, newest first: a state of the engine and a directory.
unfoldable pub after_asks : List (Engine × FileName) → DonorState
unfolding dir_donors
after_asks [] = reset_donor_index
after_asks ((e, dir) ∷ asks) = (dir_donors e (after_asks asks) dir).0

abbrev pub engines_of : List (Engine × FileName) → List Engine
engines_of [] = []
engines_of ((e, dir) ∷ asks) = e ∷ engines_of asks

after_asks-IsCache : (asks : List (Engine × FileName)) → IsCache (engines_of asks) (after_asks asks)
unfolding after_asks dir_donors lookup
after_asks-IsCache [] = record { bounded = omega arith; ordered = λ d locs at. cc }
after_asks-IsCache ((e, dir) ∷ asks) =
    let st : DonorState = after_asks asks in
    (served-IsCache e (engines_of asks) st dir (lookup dir st.dirs) refl
      (IsCache-later e (engines_of asks) st (after_asks-IsCache asks))).0

-- After any questions for directories since the cache was reset, at any states of the engine, the next question
-- leaves a cache, after a hit, after a miss that builds a new map, and after the eviction that a miss leads
-- to: at most 64 directories are in the order, and every directory with a map is in it. What it answers, as
-- every map of the cache, was built from the state of the engine at one of these questions: each location
-- that it gives for a hash is of a live file that was a row of the index at that state, in that directory and
-- not in flight, at a block that the row records with this hash, and has the size of that block, with at
-- most two locations for each hash.
pub dir_donors-IsCache :
    (asks : List (Engine × FileName)) (e : Engine) (dir : FileName)
    → IsCache (e ∷ engines_of asks) (dir_donors e (after_asks asks) dir).0
      × WasBuilt (e ∷ engines_of asks) dir (dir_donors e (after_asks asks) dir).1
unfolding dir_donors
dir_donors-IsCache asks e dir =
    let st : DonorState = after_asks asks in
    served-IsCache e (engines_of asks) st dir (lookup dir st.dirs) refl
      (IsCache-later e (engines_of asks) st (after_asks-IsCache asks))
