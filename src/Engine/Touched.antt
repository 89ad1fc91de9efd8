-- ===== src/Engine/Touched.antt =====
-- engine.go, `ApplyLocalChange`: what the touched case does to the engine.
use cross_sync.Index.Store.{put}
use cross_sync.Index.Fresh.{Numbered}
use cross_sync.Base.{
  list_eq, nat_eq, [], refl, ◌≡◌, true, ℕ, ◌∷◌, Bool-cases, inl, inr, some, ◌<◌, ◌==◌, none,
  if◌then◌else◌,
}
use cross_sync.Table.{Table, lookup}
use cross_sync.Engine.Local.{apply_touched, quietly, with_stat, store}
use mathlib.Core.Path.{subst}
use mathlib.Core.Option.{some-injective}
use cross_sync.Index.Query.{get}
use cross_sync.Index.Files.{FileName, Index, FileInfo, ok, Result, err}
use cross_sync.Engine.State.{Engine}
use cross_sync.Engine.Views.{hooked}

-- A row that the index reads back has a sequence that was handed out.
first_used :
    (next : ℕ) (g fi : FileInfo) → g.sequence < next → some g ≡ some fi → fi.sequence < next
first_used next g fi u e = subst (λ x. x.sequence < next) (some-injective g fi e) u

pub lookup_used :
    (next : ℕ) (n : FileName) (files : Table FileName FileInfo) (fi : FileInfo)
    → Numbered next files
    → lookup n files ≡ some fi
    → fi.sequence < next
unfolding lookup
lookup_used next n [] fi u h = cc
lookup_used next n ((k, g) ∷ files) fi u h = elim (Bool-cases (k == n)) [
  | inl same ↦
      first_used next g fi u.1
        (subst (λ b. (if b then some g else lookup n files) ≡ some fi) same h)
  | inr other ↦
      lookup_used next n files fi u.2
        (subst (λ b. (if b then some g else lookup n files) ≡ some fi) other h)
]

quietly_same : (r : Engine × Result FileInfo) → (quietly r).0 ≡ r.0
quietly_same (e, err x) = refl
quietly_same (e, ok fi) = refl

pub untouched :
    (e : Engine) (fi : FileInfo) → get e.ix fi.name ≡ ok none → (apply_touched e fi).0 ≡ e
unfolding apply_touched
untouched e fi h = rw (apply_touched, h) refl

pub touched_row :
    (e : Engine) (fi current : FileInfo)
    → get e.ix fi.name ≡ ok (some current)
    → (apply_touched e fi).0 ≡ hooked e (put e.ix (with_stat current fi)).0
unfolding apply_touched store
touched_row e fi current h = rw (apply_touched, h) (quietly_same (store e (with_stat current fi)))

pub got : (ix : Index) (n : FileName) → ix.readable ≡ true → get ix n ≡ ok (lookup n ix.files)
unfolding get
got ix n h = rw h refl
