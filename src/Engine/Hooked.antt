-- ===== src/Engine/Hooked.antt =====
-- engine.go and index.go: a write of the index, and the hook that follows it, keep the lists right.
use cross_sync.Base.{
  list_eq, nat_eq, List, Option-cases, [], ap, arith, false, inl, inr, refl, sym, ◌∙◌, ◌≡◌, ◌≢◌,
}
use cross_sync.Table.{contains, lookup}
use cross_sync.Index.Files.{FileName, Index}
use cross_sync.Index.Touched.{Announced}
use cross_sync.Engine.State.{View, Engine, mark_names}
use cross_sync.Engine.Views.{hooked}
use cross_sync.Engine.Pending.{pull_wanted, authoritative}
use cross_sync.Engine.Walk.{to_fetch, to_send, local}
use cross_sync.Engine.Coherent.{Coherent}
use cross_sync.Engine.Frame.{
  Frame-Coherent, contains-mark_names, mark_names-all, in_uploads-any_lacks, in_uploads-none,
}

hooked-to_fetch :
    (e : Engine) (ix : Index) (n : FileName)
    → lookup n ix.files ≡ local e n
    → to_fetch (hooked e ix) n ≡ to_fetch e n
unfolding hooked pull_wanted
hooked-to_fetch e ix n h = ap (pull_wanted e n) h

hooked-to_send :
    (e : Engine) (ix : Index) (n : FileName)
    → lookup n ix.files ≡ local e n
    → to_send (hooked e ix) n ≡ to_send e n
unfolding hooked
hooked-to_send e ix n h = elim (Option-cases (local e n)) [
  | inl absent ↦ rw (h, absent) (in_uploads-none _ _ n ∙ sym (in_uploads-none e _ n))
  | inr (fi, present) ↦
      let views : List View = authoritative e.view_pending e.peers in
      rw (h, present)
        (in_uploads-any_lacks (hooked e ix) views n fi ∙ sym (in_uploads-any_lacks e views n fi))
]

pub hooked-Coherent :
    (e : Engine) (ix : Index) → Announced e.ix.files ix → Coherent e → Coherent (hooked e ix)
unfolding hooked
hooked-Coherent e ix told =
    let quiet : (n : FileName)
        → n ≢ []
        → contains n (mark_names ix.touched e.pend).names ≡ false
        → (contains n e.pend.names ≡ false) × (contains n ix.touched ≡ false) =
      λ n real q. ground (arith, contains-mark_names n ix.touched e.pend real) in
    Frame-Coherent e _ (record {
      same_cache = refl;
      more_all = λ h. ground (arith, mark_names-all ix.touched e.pend);
      more_names = λ n real q. (quiet n real q).0;
      same_fetch = λ n real h q. hooked-to_fetch e ix n (told n real (quiet n real q).1);
      same_send = λ n real h q. hooked-to_send e ix n (told n real (quiet n real q).1);
    })
