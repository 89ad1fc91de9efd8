-- ===== src/Engine/Frame.antt =====
-- engine.go: what the classification of one name reads, so that a change of other names is no change.
use cross_sync.Engine.Refresh.{in_uploads}
use cross_sync.Base.{
  ℕ, list_eq, nat_eq, List, Option, [], ap, arith, false, refl, sym, true, ◌==◌, ◌||◌, ◌∙◌, ◌∷◌,
  ◌≡◌, ◌≢◌, none, some, if◌then◌else◌,
}
use cross_sync.Table.{Table, contains, lookup, insert, has_key, contains-add}
use cross_sync.Index.Files.{FileInfo, FileName}
use cross_sync.Engine.State.{View, Engine, PendingDirty, mark_name, mark_names, is_in_flight}
use cross_sync.Engine.Views.{view_of}
use cross_sync.Engine.Global.{global_loop, Best, pick_first}
use cross_sync.Engine.Pending.{first_is_dir, authoritative, any_lacks, upload_wanted}
use cross_sync.Engine.Walk.{to_fetch, to_send}
use cross_sync.Engine.Coherent.{Coherent, Trusted, Current}

contains-mark_name :
    (n m : FileName) (d : PendingDirty)
    → n ≢ []
    → contains n (mark_name m d).names ≡ (m == n || contains n d.names)
unfolding mark_name
contains-mark_name n m d real = ground (
  arith,
  contains-add m n d.names,
  (list_eq {A = ℕ}).equals_iff m [],
  (list_eq {A = ℕ}).equals_iff m n,
)

pub contains-mark_names :
    (n : FileName) (ns : List FileName) (d : PendingDirty)
    → n ≢ []
    → contains n (mark_names ns d).names ≡ (contains n ns || contains n d.names)
unfolding mark_names contains
contains-mark_names n [] d real = refl
contains-mark_names n (m ∷ ns) d real =
    ground (arith, contains-mark_names n ns (mark_name m d) real, contains-mark_name n m d real)

pub mark_names-all : (ns : List FileName) (d : PendingDirty) → (mark_names ns d).all ≡ d.all
unfolding mark_names mark_name
mark_names-all [] d = refl
mark_names-all (n ∷ ns) d = ground (arith, mark_names-all ns (mark_name n d))

-- The new engine keeps the cache, doubts at least what was in doubt, and reads the same for each name
-- that it does not doubt.
pub record Frame (e f : Engine) : Type 0 where
  pub same_cache : f.cache ≡ e.cache
  pub more_all : f.pend.all ≡ false → e.pend.all ≡ false
  pub more_names :
      (n : FileName) → n ≢ [] → contains n f.pend.names ≡ false → contains n e.pend.names ≡ false
  pub same_fetch :
      (n : FileName)
      → n ≢ []
      → f.pend.all ≡ false
      → contains n f.pend.names ≡ false
      → to_fetch f n ≡ to_fetch e n
  pub same_send :
      (n : FileName)
      → n ≢ []
      → f.pend.all ≡ false
      → contains n f.pend.names ≡ false
      → to_send f n ≡ to_send e n

pub Frame-Coherent : (e f : Engine) → Frame e f → Coherent e → Coherent f
Frame-Coherent e f s c valid quiet =
    let t : Trusted e = c (ap (λ x. x.valid) (sym s.same_cache) ∙ valid) (s.more_all quiet) in
    record {
      current = λ n real q.
          let now : Current e n = t.current n real (s.more_names n real q) in
          (
            ap (λ x. contains n x.pull_set) s.same_cache
                ∙ now.0
                ∙ sym (s.same_fetch n real quiet q),
            ap (λ x. contains n x.up_set) s.same_cache ∙ now.1 ∙ sym (s.same_send n real quiet q),
          );
      listed = λ n. (
        ap (λ x. contains n x.pulls) s.same_cache
            ∙ (t.listed n).0
            ∙ ap (λ x. contains n x.pull_set) (sym s.same_cache),
        ap (λ x. contains n x.ups) s.same_cache
            ∙ (t.listed n).1
            ∙ ap (λ x. contains n x.up_set) (sym s.same_cache),
      );
    }

-- A view that is stored in place of a known one, and agrees with it on the name.
module _ (n : FileName) (peer : ℕ) (view : View) where
  abbrev pub Agrees : Table ℕ View → Type 0
  Agrees peers = (has_key peer peers ≡ true) × (lookup n view ≡ lookup n (view_of peer peers))

  pub global_loop-insert :
      (peers : Table ℕ View) (b : Option Best)
      → Agrees peers
      → global_loop (insert peer view peers) n b ≡ global_loop peers n b
  unfolding global_loop insert has_key lookup
  global_loop-insert [] b a = cc
  global_loop-insert ((j, w) ∷ peers) b a =
      ground
        (arith, global_loop-insert peers (elim (lookup n w) [ none ↦ b | some p ↦ pick_first b p ]))

  pub first_is_dir-insert :
      (peers : Table ℕ View)
      → Agrees peers
      → first_is_dir (insert peer view peers) n ≡ first_is_dir peers n
  unfolding first_is_dir insert has_key lookup
  first_is_dir-insert [] a = cc
  first_is_dir-insert ((j, w) ∷ peers) a = ground (arith, first_is_dir-insert peers)

  pub any_lacks-insert :
      (fi : FileInfo) (pending : List ℕ) (peers : Table ℕ View)
      → Agrees peers
      → any_lacks fi n (authoritative pending (insert peer view peers))
        ≡ any_lacks fi n (authoritative pending peers)
  unfolding any_lacks authoritative insert has_key lookup
  any_lacks-insert fi pending [] a = cc
  any_lacks-insert fi pending ((j, w) ∷ peers) a =
      ground (arith, any_lacks-insert fi pending peers, (nat_eq).equals_iff j peer)

-- What an upload is decided by.
pub in_uploads-any_lacks :
    (e : Engine) (views : List View) (n : FileName) (fi : FileInfo)
    → in_uploads e views n (some fi)
      ≡ (if fi.deleted then false else if is_in_flight e n then false else any_lacks fi n views)
unfolding in_uploads upload_wanted any_lacks
in_uploads-any_lacks e [] n fi = ground arith
in_uploads-any_lacks e (v ∷ vs) n fi = refl

pub in_uploads-none :
    (e : Engine) (views : List View) (n : FileName) → in_uploads e views n none ≡ false
unfolding in_uploads upload_wanted
in_uploads-none e [] n = refl
in_uploads-none e (v ∷ vs) n = refl
