-- ===== src/Version/Order.antt =====
-- version.go, `Compare`: the order of version vectors that its verdict stands for.
use cross_sync.Base.{
  ℕ, ◌≤◌, ◌<◌, ◌≡◌, refl, inl, inr, Bool, true, false, ◌||◌, List, [], ◌∷◌, arith, ltb, ltb→lt,
  Bool-cases, ◌↔◌, nat_eq,
}
use cross_sync.Table.{keys, contains, add, contains-add, contains-keys, has_key}
use cross_sync.Version.{
  Vector, get, Comparison, less, equal, greater, concurrent, add_all, scan, verdict, is_empty,
  compare,
}

-- Every counter of the first is at most that of the second.
abbrev pub Le : Vector → Vector → Type 0
Le v o = (k : ℕ) → get v k ≤ get o k

-- What each verdict claims of the two vectors.
abbrev pub Holds : Comparison → Vector → Vector → Type 0
Holds less v o = Le v o × (¬ (Le o v))
Holds equal v o = Le v o × Le o v
Holds greater v o = Le o v × (¬ (Le v o))
Holds concurrent v o = (¬ (Le v o)) × (¬ (Le o v))

get_absent : (v : Vector) (k : ℕ) → contains k (keys v) ≡ false → get v k ≡ 0
unfolding get has_key
get_absent v k h = ground (arith, contains-keys k v)

contains-add_all :
    (b : ℕ) (set ks : List ℕ) → contains b (add_all set ks) ≡ (contains b ks || contains b set)
unfolding contains
contains-add_all b set [] = refl
contains-add_all b set (k ∷ ks) =
    ground (arith, contains-add_all b (add k set) ks, contains-add k b set)

-- Some key of the list has a larger counter in the first vector.
above : Vector → Vector → List ℕ → Bool
above v o [] = false
above v o (k ∷ ks) = ltb (get o k) (get v k) || above v o ks

scan-above :
    (v o : Vector) (ks : List ℕ) (gt lt : Bool)
    → scan v o ks gt lt ≡ (gt || above v o ks, lt || above o v ks)
unfolding scan above
scan-above v o [] gt lt = ground arith
scan-above v o (k ∷ ks) gt lt =
    ground
      (arith, scan-above v o ks (gt || ltb (get o k) (get v k)) (lt || ltb (get v k) (get o k)))

above_false :
    (v o : Vector) (ks : List ℕ) (k : ℕ)
    → above v o ks ≡ false
    → contains k ks ≡ true
    → get v k ≤ get o k
unfolding above contains
above_false v o [] k h c = cc
above_false v o (j ∷ ks) k h c = ground (arith, above_false v o ks k)

above_true : (v o : Vector) (ks : List ℕ) → above v o ks ≡ true → (k : ℕ) × (get o k < get v k)
unfolding above
above_true v o [] h = cc
above_true v o (j ∷ ks) h = elim (Bool-cases (ltb (get o j) (get v j))) [
  | inl e ↦ (j, ltb→lt _ _ e)
  | inr e ↦ above_true v o ks (ground arith)
]

all_keys : Vector → Vector → List ℕ
all_keys v o = add_all (add_all [] (keys v)) (keys o)

above-Le :
    (v o a b : Vector) (k : ℕ)
    → contains k (all_keys a b) ≡ (contains k (keys o) || contains k (keys v))
    → above v o (all_keys a b) ≡ false
    → get v k ≤ get o k
above-Le v o a b k c h = elim (Bool-cases (contains k (all_keys a b))) [
  | inl e ↦ above_false v o (all_keys a b) k h e
  | inr e ↦ ground (arith, get_absent v k, get_absent o k)
]

contains-all_keys :
    (v o : Vector) (k : ℕ)
    → contains k (all_keys v o) ≡ (contains k (keys o) || contains k (keys v))
unfolding all_keys contains
contains-all_keys v o k =
    ground
      (arith, contains-add_all k (add_all [] (keys v)) (keys o), contains-add_all k [] (keys v))

Le_iff : (v o : Vector) → (above v o (all_keys v o) ≡ false) ↔ Le v o
Le_iff v o = (
  λ h k. above-Le v o v o k (contains-all_keys v o k) h,
  λ le. elim (Bool-cases (above v o (all_keys v o))) [
    | inl e ↦ let w = above_true v o (all_keys v o) e in absurd (omega (arith, le w.0, w.1))
    | inr e ↦ e
  ],
)

Ge_iff : (v o : Vector) → (above o v (all_keys v o) ≡ false) ↔ Le o v
Ge_iff v o = (
  λ h k. above-Le o v v o k (ground (arith, contains-all_keys v o k)) h,
  λ le. elim (Bool-cases (above o v (all_keys v o))) [
    | inl e ↦ let w = above_true o v (all_keys v o) e in absurd (omega (arith, le w.0, w.1))
    | inr e ↦ e
  ],
)

compare-above :
    (v o : Vector) → compare v o ≡ verdict (above v o (all_keys v o), above o v (all_keys v o))
unfolding compare all_keys above is_empty verdict
compare-above [] [] = refl
compare-above [] (x ∷ o) = rw scan-above
compare-above (x ∷ v) o = rw scan-above

verdict-Holds :
    (v o : Vector) (gt lt : Bool)
    → (gt ≡ false) ↔ Le v o
    → (lt ≡ false) ↔ Le o v
    → Holds (verdict (gt, lt)) v o
unfolding verdict
verdict-Holds v o true true p q = (λ le. cc (p.1 le), λ le. cc (q.1 le))
verdict-Holds v o true false p q = (q.0 refl, λ le. cc (p.1 le))
verdict-Holds v o false true p q = (p.0 refl, λ le. cc (q.1 le))
verdict-Holds v o false false p q = (p.0 refl, q.0 refl)

-- The verdict of `Compare` says exactly how the two vectors lie in the pointwise order of their
-- counters, absent devices counting as 0: less, equal, greater, or neither below the other.
pub compare-Holds : (v o : Vector) → Holds (compare v o) v o
compare-Holds v o = rw (compare-above v o) (verdict-Holds v o _ _ (Le_iff v o) (Ge_iff v o))

unfoldable pub flip : Comparison → Comparison
flip less = greater
flip greater = less
flip equal = equal
flip concurrent = concurrent

-- The four verdicts exclude one another, so the order decides the verdict.
pub Holds-unique : (c d : Comparison) (v o : Vector) → Holds c v o → Holds d v o → c ≡ d
Holds-unique less less v o p q = refl
Holds-unique less equal v o p q = absurd (p.1 q.1)
Holds-unique less greater v o p q = absurd (p.1 q.0)
Holds-unique less concurrent v o p q = absurd (q.0 p.0)
Holds-unique equal less v o p q = absurd (q.1 p.1)
Holds-unique equal equal v o p q = refl
Holds-unique equal greater v o p q = absurd (q.1 p.0)
Holds-unique equal concurrent v o p q = absurd (q.0 p.0)
Holds-unique greater less v o p q = absurd (q.1 p.0)
Holds-unique greater equal v o p q = absurd (p.1 q.0)
Holds-unique greater greater v o p q = refl
Holds-unique greater concurrent v o p q = absurd (q.1 p.0)
Holds-unique concurrent less v o p q = absurd (p.0 q.0)
Holds-unique concurrent equal v o p q = absurd (p.0 q.0)
Holds-unique concurrent greater v o p q = absurd (p.1 q.0)
Holds-unique concurrent concurrent v o p q = refl

Holds-flip : (c : Comparison) (v o : Vector) → Holds c v o → Holds (flip c) o v
unfolding flip
Holds-flip less v o p = p
Holds-flip equal v o p = (p.1, p.0)
Holds-flip greater v o p = p
Holds-flip concurrent v o p = (p.1, p.0)

-- Comparing two vectors the other way round gives the mirrored verdict: less and greater change
-- places, equal and concurrent stay.
pub compare-flip : (v o : Vector) → compare o v ≡ flip (compare v o)
compare-flip v o =
    Holds-unique (compare o v) (flip (compare v o)) o v (compare-Holds o v)
      (Holds-flip (compare v o) v o (compare-Holds v o))
