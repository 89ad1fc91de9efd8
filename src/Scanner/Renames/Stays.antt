-- ===== src/Scanner/Renames/Stays.antt =====
-- scanner.go, `detectRenames`: which of the added files go.
use mathlib.Core.Path.{subst}
use mathlib.Core.Option.{some-injective}
use cross_sync.Table.{contains}
use cross_sync.Engine.Local.{Change}
use cross_sync.Base.{
  nat_eq, list_eq, Bool, List, [], ap, arith, false, get_elem?, inl, inr, some, suc, true, ℕ, ◌∙◌,
  ◌∷◌, ◌≡◌, sym, ◌+◌, Bool-cases, if◌then◌else◌, ◌&&◌,
}
use cross_sync.Scanner.Renames.{is_added, drop_taken}

-- What stays of the changes, read from position `i` on, when the positions `taken` go: all of them are of
-- added files.
pub data Stays (taken : List ℕ) : ℕ → List Change → List Change → Type 0 where
  at_end : (i : ℕ) → Stays taken i [] []
  stays_there :
      (i : ℕ) (c : Change) (cs ks : List Change)
      → contains i taken ≡ false
      → Stays taken (i + 1) cs ks
      → Stays taken i (c ∷ cs) (c ∷ ks)
  goes :
      (i : ℕ) (c : Change) (cs ks : List Change)
      → contains i taken ≡ true
      → is_added c ≡ true
      → Stays taken (i + 1) cs ks
      → Stays taken i (c ∷ cs) ks

-- The taken positions are those of added files.
abbrev Marks : List ℕ → ℕ → List Change → Type 0
Marks taken i cs =
    (j : ℕ)
    → contains (i + j) taken ≡ true
    → (t : Change) × (get_elem? cs j ≡ some t) × (is_added t ≡ true)

Marks-tail :
    (taken : List ℕ) (i : ℕ) (c : Change) (cs : List Change)
    → Marks taken i (c ∷ cs)
    → Marks taken (i + 1) cs
Marks-tail taken i c cs m j h =
    let e : i + 1 + j ≡ i + suc j = omega arith in
    m (suc j) (ap (λ x. contains x taken) (sym e) ∙ h)

first_marked :
    (taken : List ℕ) (i : ℕ) (c : Change) (cs : List Change)
    → Marks taken i (c ∷ cs)
    → contains i taken ≡ true
    → is_added c ≡ true
first_marked taken i c cs m h =
    let e : i + 0 ≡ i = omega arith in
    let (t, at, is) = m 0 (ap (λ x. contains x taken) e ∙ h) in
    ap is_added (some-injective c t at) ∙ is

kept_on {ℓ} : {A : Type ℓ} (a b : Bool) (x y : A) → b ≡ false → (if a && b then x else y) ≡ y
kept_on a b x y h = ground arith

pub drop_taken-Stays :
    (taken : List ℕ) (i : ℕ) (cs : List Change)
    → Marks taken i cs
    → Stays taken i cs (drop_taken taken i cs)
unfolding drop_taken
drop_taken-Stays taken i [] m = at_end i
drop_taken-Stays taken i (c ∷ cs) m =
    let rest : Stays taken (i + 1) cs (drop_taken taken (i + 1) cs) =
      drop_taken-Stays taken (i + 1) cs (Marks-tail taken i c cs m) in
    elim (Bool-cases (contains i taken)) [
      | inl h ↦
          let is : is_added c ≡ true = first_marked taken i c cs m h in
          rw (is, h) (goes i c cs _ h is rest)
      | inr h ↦
          subst (Stays taken i (c ∷ cs)) (sym (kept_on (is_added c) _ _ _ h))
            (stays_there i c cs _ h rest)
    ]
