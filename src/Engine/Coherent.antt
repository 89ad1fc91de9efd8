-- ===== src/Engine/Coherent.antt =====
-- pending_incremental.go: the incremental lists against the full walk.
use cross_sync.Index.Fresh.{IsSound}
use cross_sync.Engine.Pending.{pull_wanted, upload_wanted, authoritative, with_indexed}
use cross_sync.Engine.Walk.{to_fetch, local, to_send, compute_need_pulls_lem, compute_uploads_lem}
use cross_sync.Engine.Views.{set_of}
use cross_sync.Engine.Refresh.{
  revise, remove_name, set_member, in_uploads, built, rebuild, then_uploads,
}
use mathlib.Core.Path.{fun_ext, ap₂}
use cross_sync.Base.{
  ℕ, list_eq, nat_eq, Bool, Bool-cases, List, [], ap, arith, eq_of_test, false, if◌then◌else◌, inl,
  inr, refl, true, ◌==◌, ◌∷◌, ◌≡◌, ◌≢◌, Option, none, some, ◌∙◌, sym,
}
use cross_sync.Table.{contains, contains-add, lookup}
use cross_sync.Engine.State.{View, Engine, PendingCache, PendingDirty}
use cross_sync.Index.Files.{FileName, Index, Result, ok, FileInfo}
use cross_sync.Index.Query.{get}

-- The cached sets hold a name exactly when it is wanted now.
abbrev pub Current : Engine → FileName → Type 0
Current e n =
    (contains n e.cache.pull_set ≡ to_fetch e n) × (contains n e.cache.up_set ≡ to_send e n)

-- The lists that are handed out hold what the sets hold.
abbrev pub Listed : PendingCache → FileName → Type 0
Listed c n = (contains n c.pulls ≡ contains n c.pull_set) × (contains n c.ups ≡ contains n c.up_set)

-- A cache that is trusted is right about every name that is not queued. The empty name is never
-- queued, and no claim is made about it.
pub record Trusted (e : Engine) : Type 0 where
  pub current : (n : FileName) → n ≢ [] → contains n e.pend.names ≡ false → Current e n
  pub listed : (n : FileName) → Listed e.cache n

abbrev pub Coherent : Engine → Type 0
Coherent e = e.cache.valid ≡ true → e.pend.all ≡ false → Trusted e

-- The lists are right about every name.
abbrev pub Exact : Engine → FileName → Type 0
Exact e n = (contains n e.cache.pulls ≡ to_fetch e n) × (contains n e.cache.ups ≡ to_send e n)

contains-set_of : (n : FileName) (ns : List FileName) → contains n (set_of ns) ≡ contains n ns
unfolding set_of contains
contains-set_of n [] = refl
contains-set_of n (m ∷ ns) = ground (arith, contains-set_of n ns, contains-add m n (set_of ns))

-- Neither the cache nor the queue is an input of the classification.
abbrev pub requeued : Engine → PendingCache → PendingDirty → Engine
requeued e c d = record e { cache = c; pend = d }

-- What a full walk leaves.
pub record Rebuilt (e : Engine) (r : Engine × Result (Unit {0})) : Type 0 where
  pub worked : r.1 ≡ ok tt
  pub exact : (n : FileName) → Exact r.0 n
  pub coherent : Coherent r.0
  pub same_ix : r.0.ix ≡ e.ix
  pub kept : r.0 ≡ requeued e r.0.cache r.0.pend

-- A queued name is settled by one lookup.
unfoldable pub revised : (FileName → Bool) → List FileName → List FileName → List FileName
revised f [] set = set
revised f (n ∷ ns) set = revised f ns (set_member n (f n) set)

contains-remove_name :
    (n m : FileName) (set : List FileName)
    → contains m (remove_name n set) ≡ (if n == m then false else contains m set)
unfolding remove_name contains
contains-remove_name n m [] = ground arith
contains-remove_name n m (k ∷ set) = ground (
  arith,
  contains-remove_name n m set,
  (list_eq {A = ℕ}).equals_iff n m,
  (list_eq {A = ℕ}).equals_iff k m,
  (list_eq {A = ℕ}).equals_iff k n,
)

contains-set_member :
    (n m : FileName) (want : Bool) (set : List FileName)
    → contains m (set_member n want set) ≡ (if n == m then want else contains m set)
unfolding set_member
contains-set_member n m want set =
    ground (arith, contains-add n m set, contains-remove_name n m set)

pub contains-revised :
    (f : FileName → Bool) (n : FileName) (ns set : List FileName)
    → contains n (revised f ns set) ≡ (if contains n ns then f n else contains n set)
unfolding revised contains
contains-revised f n [] set = refl
contains-revised f n (m ∷ ns) set = elim (Bool-cases (m == n)) [
  | inl e ↦
      let same : f m ≡ f n = ap f (eq_of_test m n e) in
      ground (
        arith,
        same,
        contains-revised f n ns (set_member m (f m) set),
        contains-set_member m n (f m) set,
      )
  | inr e ↦
      ground
        (arith, contains-revised f n ns (set_member m (f m) set), contains-set_member m n (f m) set)
]

abbrev pub with_sets : Engine → List FileName → List FileName → Engine
with_sets e pulls ups = record e { cache = record (e.cache) { pull_set = pulls; up_set = ups } }

get_lem : (ix : Index) (n : FileName) → ix.readable ≡ true → get ix n ≡ ok (lookup n ix.files)
unfolding get
get_lem ix n h = ground arith

-- The sets are no input of the classification.
to_fetch-with_sets : (e : Engine) (a b : List FileName) → to_fetch (with_sets e a b) ≡ to_fetch e
unfolding pull_wanted
to_fetch-with_sets e a b = refl

in_uploads_cases :
    (views : List View) (e : Engine) (a b : List FileName) (n : FileName) (fi : Option FileInfo)
    → in_uploads (with_sets e a b) views n fi ≡ in_uploads e views n fi
unfolding in_uploads upload_wanted
in_uploads_cases [] e a b n fi = refl
in_uploads_cases (v ∷ vs) e a b n none = refl
in_uploads_cases (v ∷ vs) e a b n (some fi) = refl

abbrev pub sent_by : Engine → List View → FileName → Bool
sent_by e views n = in_uploads e views n (local e n)

sent_by-with_sets :
    (views : List View) (e : Engine) (a b : List FileName)
    → sent_by (with_sets e a b) views ≡ sent_by e views
sent_by-with_sets views e a b = fun_ext (λ n. in_uploads_cases views e a b n (local e n))

revise_step :
    (views : List View) (n : FileName) (ns : List FileName) (e : Engine)
    → get e.ix n ≡ ok (local e n)
    → revise views (n ∷ ns) e
      ≡ revise views ns (
          with_sets e
            (set_member n (to_fetch e n) e.cache.pull_set)
            (set_member n (sent_by e views n) e.cache.up_set))
unfolding revise
revise_step views n ns e h = rw (h, revise)

pub revise_lem :
    (views : List View) (ns : List FileName) (e : Engine)
    → e.ix.readable ≡ true
    → revise views ns e ≡ (
      with_sets e
          (revised (to_fetch e) ns e.cache.pull_set)
          (revised (sent_by e views) ns e.cache.up_set),
      ok tt,
    )
unfolding revise revised
revise_lem views [] e h = refl
revise_lem views (n ∷ ns) e h =
    let a : List FileName = set_member n (to_fetch e n) e.cache.pull_set in
    let b : List FileName = set_member n (sent_by e views n) e.cache.up_set in
    revise_step views n ns e (get_lem e.ix n h)
    ∙ revise_lem views ns (with_sets e a b) h
    ∙ ap₂ (λ f g. (with_sets e (revised f ns a) (revised g ns b), ok tt)) (to_fetch-with_sets e a b)
        (sent_by-with_sets views e a b)

pub to_fetch-requeued :
    (e : Engine) (c : PendingCache) (d : PendingDirty) (n : FileName)
    → to_fetch (requeued e c d) n ≡ to_fetch e n
unfolding pull_wanted
to_fetch-requeued e c d n = refl

in_uploads-requeued :
    (views : List View) (e : Engine) (c : PendingCache) (d : PendingDirty) (n : FileName)
    (fi : Option FileInfo)
    → in_uploads (requeued e c d) views n fi ≡ in_uploads e views n fi
unfolding in_uploads upload_wanted
in_uploads-requeued [] e c d n fi = refl
in_uploads-requeued (v ∷ vs) e c d n none = refl
in_uploads-requeued (v ∷ vs) e c d n (some fi) = refl

pub to_send-requeued :
    (e : Engine) (c : PendingCache) (d : PendingDirty) (n : FileName)
    → to_send (requeued e c d) n ≡ to_send e n
to_send-requeued e c d n =
    in_uploads-requeued (authoritative e.view_pending e.peers) e c d n (local e n)

-- A full walk of an index that answers succeeds and makes the lists exact.
pub rebuild-Rebuilt :
    (e : Engine) (now : ℕ) → IsSound e.ix → e.ix.readable ≡ true → Rebuilt e (rebuild e now)
unfolding rebuild
rebuild-Rebuilt e now sound answers =
    let (pulls, size, walked, fetch) = compute_need_pulls_lem e sound answers in
    let (ups, sent, send) = compute_uploads_lem (with_indexed e size) sound answers in
    let done : Engine = built (with_indexed e size) pulls ups now in
    let pulls_right : (n : FileName) → contains n pulls ≡ to_fetch done n =
      λ n. fetch n ∙ sym (to_fetch-requeued e done.cache done.pend n) in
    let ups_right : (n : FileName) → contains n ups ≡ to_send done n = λ n.
      send n
      ∙ to_send-requeued e (with_indexed e size).cache e.pend n
      ∙ sym (to_send-requeued e done.cache done.pend n) in
    let result : rebuild e now ≡ (done, ok tt) =
      ap (then_uploads now) walked ∙ rw (sent, then_uploads) in
    rw result (record {
      worked = refl;
      exact = λ n. (pulls_right n, ups_right n);
      coherent = λ v a. record {
        current = λ n real queued.
            (contains-set_of n pulls ∙ pulls_right n, contains-set_of n ups ∙ ups_right n);
        listed = λ n. (sym (contains-set_of n pulls), sym (contains-set_of n ups));
      };
      same_ix = refl;
      kept = refl;
    })
