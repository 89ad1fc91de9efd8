-- ===== src/Engine/Confirm.antt =====
-- gate_release.go, `ConfirmReleases`: letting go of a release touches no other row.
use cross_sync.Base.{
  ℕ, list_eq, nat_eq, List, Bool-cases, [], ap, arith, false, inl, inr, refl, true, ◌==◌, ◌∙◌, ◌∷◌,
  ◌≡◌, ◌≢◌, All, if◌then◌else◌, not, sym, length,
}
use cross_sync.Table.{Table, lookup, lookup-delete, delete}
use cross_sync.Index.Files.{FileName, Result, Index, err, ok}
use cross_sync.Index.Store.{remove, exec}
use cross_sync.Index.Fresh.{exec-files, touch-files}
use mathlib.Core.Path.{subst}
use cross_sync.Engine.State.{View, Engine, PendingRelease, save_releases}
use cross_sync.Engine.Saved.{Saved, save_releases-Saved}
use cross_sync.Engine.Views.{hooked}
use cross_sync.Engine.Gate.{
  forget, forget_both, release_confirmed, then_forget, confirm_loop, confirm_releases, kept_list,
  then_names,
}

-- A name's row stands, and so do the views.
record Stands (n : FileName) (e f : Engine) : Type 0 where
  row : lookup n f.ix.files ≡ lookup n e.ix.files
  views : f.peers ≡ e.peers

forget-Stands : (e : Engine) (n m : FileName) → m ≢ n → Stands n e (forget e m).0
unfolding forget hooked remove
forget-Stands e n m other =
    let base : Index = (exec e.ix).1 in
    let gone : Index = record base { files = delete m base.files } in
    record {
      row = ground (
        arith,
        exec-files e.ix,
        touch-files (m ∷ []) gone,
        lookup-delete m n e.ix.files,
        (list_eq {A = ℕ}).equals_iff m n,
      );
      views = refl;
    }

Stands-trans : (n : FileName) (e f g : Engine) → Stands n e f → Stands n f g → Stands n e g
Stands-trans n e f g a b = record { row = b.row ∙ a.row; views = b.views ∙ a.views }

Stands-refl : (n : FileName) (e : Engine) → Stands n e e
Stands-refl n e = record { row = refl; views = refl }

then_forget-Stands :
    (e : Engine) (n m : FileName) (r : Engine × Result (Unit {0}))
    → m ≢ n
    → Stands n e r.0
    → Stands n e (then_forget m r).0
then_forget-Stands e n m (f, err x) other s = s
then_forget-Stands e n m (f, ok u) other s = Stands-trans n e f _ s (forget-Stands f n m other)

forget_both-Stands :
    (e : Engine) (n : FileName) (rel : PendingRelease)
    → (rel.to_name ≢ n) × (rel.from_name ≢ n)
    → Stands n e (forget_both e rel).0
unfolding forget_both
forget_both-Stands e n rel other =
    then_forget-Stands e n rel.from_name (forget e rel.to_name) other.1
      (forget-Stands e n rel.to_name other.0)

-- A release that is confirmed does not concern the name.
abbrev pub Elsewhere : Table ℕ View → FileName → PendingRelease → Type 0
Elsewhere peers n rel =
    release_confirmed peers rel rel.peers ≡ true → (rel.to_name ≢ n) × (rel.from_name ≢ n)

-- The rest of the loop follows a release whose rows are gone.
abbrev Outcome : Type 0
Outcome = Engine × List PendingRelease × List FileName × Result (Unit {0})

abbrev followed : FileName → Engine → Result (Unit {0}) → Outcome → Outcome
followed name f (err x) more = (f, [], [], err x)
followed name f (ok u) more = (more.0, more.1, name ∷ more.2, more.3)

followed-Stands :
    (name n : FileName) (e f : Engine) (r : Result (Unit {0})) (more : Outcome)
    → Stands n e f
    → Stands n f more.0
    → Stands n e (followed name f r more).0
followed-Stands name n e f (err x) more s t = s
followed-Stands name n e f (ok u) more s t = Stands-trans n e f more.0 s t

confirm_loop_done :
    (e : Engine) (rel : PendingRelease) (rels : List PendingRelease)
    → release_confirmed e.peers rel rel.peers ≡ true
    → confirm_loop e (rel ∷ rels)
      ≡ followed rel.to_name
          (forget_both e rel).0
          (forget_both e rel).1
          (confirm_loop (forget_both e rel).0 rels)
unfolding confirm_loop
confirm_loop_done e rel rels done = go (forget_both e rel).1
  where
    f : Engine
    f = (forget_both e rel).0

    more : Outcome
    more = confirm_loop f rels

    go :
        (r : Result (Unit {0}))
        → (if not (release_confirmed e.peers rel rel.peers)
            then (let (f, stays, gone, r) = confirm_loop e rels in (f, rel ∷ stays, gone, r))
            else elim r [
              | err x ↦ (f, [], [], err x)
              | ok u ↦ (more.0, more.1, rel.to_name ∷ more.2, more.3)
            ])
          ≡ followed rel.to_name f r more
    go (err x) = rw done refl
    go (ok u) = rw done refl

confirm_loop_waits :
    (e : Engine) (rel : PendingRelease) (rels : List PendingRelease)
    → release_confirmed e.peers rel rel.peers ≡ false
    → (confirm_loop e (rel ∷ rels)).0 ≡ (confirm_loop e rels).0
unfolding confirm_loop
confirm_loop_waits e rel rels waits = rw waits refl

confirm_loop_nil : (e : Engine) (n : FileName) → Stands n e (confirm_loop e []).0
unfolding confirm_loop
confirm_loop_nil e n = Stands-refl n e

confirm_loop-Stands :
    (e : Engine) (n : FileName) (rels : List PendingRelease)
    → All (Elsewhere e.peers n) rels
    → Stands n e (confirm_loop e rels).0
confirm_loop-Stands e n [] a = confirm_loop_nil e n
confirm_loop-Stands e n (rel ∷ rels) a =
    elim (Bool-cases (release_confirmed e.peers rel rel.peers)) [
      | inr waits ↦
          subst (Stands n e) (sym (confirm_loop_waits e rel rels waits))
            (confirm_loop-Stands e n rels a.1)
      | inl done ↦
          let f : Engine = (forget_both e rel).0 in
          let s : Stands n e f = forget_both-Stands e n rel (a.0 done) in
          let rest : Stands n f (confirm_loop f rels).0 =
            confirm_loop-Stands f n rels
              (subst (λ ps. All (Elsewhere ps n) rels) (sym s.views) a.1) in
          subst (λ r. Stands n e r.0) (sym (confirm_loop_done e rel rels done))
            (followed-Stands rel.to_name n e f (forget_both e rel).1 (confirm_loop f rels) s rest)
    ]

kept_list-Stands :
    (e f : Engine) (n : FileName) (stays : List PendingRelease)
    → Stands n e f
    → Stands n e (kept_list f stays).0
kept_list-Stands e f n stays s = elim (Bool-cases (length stays == length f.releases)) [
  | inl all ↦ rw all s
  | inr fewer ↦
      let d : Engine = record f { releases = stays } in
      let w : Saved d (save_releases d).0 = save_releases-Saved d in
      rw fewer (record { row = ap (lookup n) w.files ∙ s.row; views = w.peers ∙ s.views })
]

then_names-engine :
    (gone : List FileName) (r : Engine × Result (Unit {0})) → (then_names gone r).0 ≡ r.0
then_names-engine gone (e, err x) = refl
then_names-engine gone (e, ok u) = refl

-- Letting go of confirmed releases touches nothing else: each row stays as it was, unless it is the old or
-- the new path of a release that every owner has confirmed; the views stay as well. This holds whether
-- or not a statement fails on the way.
pub confirm_releases_lem :
    (e : Engine) (n : FileName)
    → All (Elsewhere e.peers n) e.releases
    → (lookup n (confirm_releases e).0.ix.files ≡ lookup n e.ix.files)
      × ((confirm_releases e).0.peers ≡ e.peers)
unfolding confirm_releases
confirm_releases_lem e n a = go (confirm_loop e e.releases) (confirm_loop-Stands e n e.releases a)
  where
    after : Outcome → Engine × List FileName × Result (Unit {0})
    after o = elim o.3 [ err x ↦ (o.0, o.2, err x) | ok u ↦ then_names o.2 (kept_list o.0 o.1) ]

    go :
        (o : Outcome)
        → Stands n e o.0
        → (lookup n (after o).0.ix.files ≡ lookup n e.ix.files) × ((after o).0.peers ≡ e.peers)
    go (f, stays, gone, err x) s = (s.row, s.views)
    go (f, stays, gone, ok u) s =
        let k : Stands n e (kept_list f stays).0 = kept_list-Stands e f n stays s in
        let same = then_names-engine gone (kept_list f stays) in
        (ap (λ g. lookup n g.ix.files) same ∙ k.row, ap (λ g. g.peers) same ∙ k.views)
