-- ===== src/PullBatch/Order/Sizes.antt =====
-- block_reuse.go, `PeerSizes`: the sizes that the order goes by.
use cross_sync.Engine.State.{Engine, View}
use mathlib.Core.Path.{subst}
use cross_sync.Table.{Table, lookup, contains, lookup-insert, insert}
use cross_sync.Index.Files.{FileName, FileInfo}
use cross_sync.Base.{
  nat_eq, list_eq, Bool-cases, List, Option, [], arith, false, if◌then◌else◌, inl, inr, refl, true,
  ℕ, ◌==◌, ◌∙◌, ◌∷◌, ◌≡◌, Bool, Option-cases, ap, eq_of_test, eq_refl, none, some, sym,
}
use cross_sync.PullBatch.Order.{collect_sizes, peer_sizes, with_size}

-- The size of the name in the peer's view.
abbrev pub size_in : Option View → FileName → Option ℕ
size_in none n = none
size_in (some view) n = elim (lookup n view) [ none ↦ none | some fi ↦ some fi.size ]

abbrev then_size : Option FileInfo → Option ℕ → Option ℕ
then_size none s = s
then_size (some fi) s = some fi.size

then_size_twice :
    (row : Option FileInfo) (s : Option ℕ) → then_size row (then_size row s) ≡ then_size row s
then_size_twice none s = refl
then_size_twice (some fi) s = refl

with_size-none :
    (view : View) (name : FileName) (sizes : Table FileName ℕ)
    → lookup name view ≡ none
    → with_size view name sizes ≡ sizes
with_size-none view name sizes h = rw (with_size, h) refl

with_size-some :
    (view : View) (name : FileName) (sizes : Table FileName ℕ) (fi : FileInfo)
    → lookup name view ≡ some fi
    → with_size view name sizes ≡ insert name fi.size sizes
with_size-some view name sizes fi h = rw (with_size, h) refl

lookup-own_size :
    (view : View) (name : FileName) (sizes : Table FileName ℕ)
    → lookup name (with_size view name sizes) ≡ then_size (lookup name view) (lookup name sizes)
lookup-own_size view name sizes = elim (Option-cases (lookup name view)) [
  | inl gone ↦ ap (lookup name) (with_size-none view name sizes gone) ∙ rw gone refl
  | inr (fi, found) ↦
      ap (lookup name) (with_size-some view name sizes fi found)
      ∙ lookup-insert name name fi.size sizes
      ∙ rw (eq_refl name, found) refl
]

lookup-other_size :
    (view : View) (name n : FileName) (sizes : Table FileName ℕ)
    → (name == n) ≡ false
    → lookup n (with_size view name sizes) ≡ lookup n sizes
lookup-other_size view name n sizes other = elim (Option-cases (lookup name view)) [
  | inl gone ↦ ap (lookup n) (with_size-none view name sizes gone)
  | inr (fi, found) ↦
      ap (lookup n) (with_size-some view name sizes fi found)
      ∙ lookup-insert name n fi.size sizes
      ∙ rw other refl
]

lookup-with_size :
    (view : View) (name n : FileName) (sizes : Table FileName ℕ)
    → lookup n (with_size view name sizes)
      ≡ (if name == n then then_size (lookup n view) (lookup n sizes) else lookup n sizes)
lookup-with_size view name n sizes = elim (Bool-cases (name == n)) [
  | inr other ↦ rw other (lookup-other_size view name n sizes other)
  | inl same ↦ rw same (
      subst (λ k. lookup k (with_size view name sizes) ≡ then_size (lookup k view) (lookup k sizes))
        (eq_of_test name n same) (lookup-own_size view name sizes))
]

lookup-collect_sizes :
    (view : View) (names : List FileName) (n : FileName) (sizes : Table FileName ℕ)
    → lookup n (collect_sizes view names sizes)
      ≡ (if contains n names then then_size (lookup n view) (lookup n sizes) else lookup n sizes)
unfolding collect_sizes contains
lookup-collect_sizes view [] n sizes = refl
lookup-collect_sizes view (name ∷ names) n sizes = ground (
  arith,
  lookup-collect_sizes view names n (with_size view name sizes),
  lookup-with_size view name n sizes,
  then_size_twice (lookup n view) (lookup n sizes),
)

then_size-none :
    (view : View) (n : FileName) → then_size (lookup n view) none ≡ size_in (some view) n
then_size-none view n = elim (Option-cases (lookup n view)) [
  | inl gone ↦ rw (size_in, gone) refl
  | inr (fi, found) ↦ rw (size_in, found) refl
]

if_none : (b : Bool) → ◌≡◌ {A = Option ℕ} (if b then none else none) none
if_none true = refl
if_none false = refl

peer_sizes-none :
    (e : Engine) (peer : ℕ) (names : List FileName)
    → lookup peer e.peers ≡ none
    → peer_sizes e peer names ≡ []
unfolding peer_sizes
peer_sizes-none e peer names h = rw (peer_sizes, h) refl

peer_sizes-some :
    (e : Engine) (peer : ℕ) (names : List FileName) (view : View)
    → lookup peer e.peers ≡ some view
    → peer_sizes e peer names ≡ collect_sizes view names []
unfolding peer_sizes
peer_sizes-some e peer names view h = rw (peer_sizes, h) refl

pub lookup-peer_sizes :
    (e : Engine) (peer : ℕ) (names : List FileName) (n : FileName)
    → lookup n (peer_sizes e peer names)
      ≡ (if contains n names then size_in (lookup peer e.peers) n else none)
unfolding lookup
lookup-peer_sizes e peer names n = elim (Option-cases (lookup peer e.peers)) [
  | inl gone ↦
      rw gone (ap (lookup n) (peer_sizes-none e peer names gone) ∙ sym (if_none (contains n names)))
  | inr (view, found) ↦ rw found (
      ap (lookup n) (peer_sizes-some e peer names view found)
      ∙ lookup-collect_sizes view names n []
      ∙ ap (λ x. if contains n names then x else none) (then_size-none view n))
]
