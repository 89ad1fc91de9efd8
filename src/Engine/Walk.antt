-- ===== src/Engine/Walk.antt =====
-- engine.go, the full walk: its lists hold exactly the names that are wanted.
use cross_sync.Text.Sort.{contains-sort_strings}
use cross_sync.Text.{sort_strings}
use cross_sync.Engine.Refresh.{in_uploads}
use cross_sync.Engine.Pending.{
  local_map, add_names, pull_wanted, keep, view_names, authoritative, upload_rows, upload_wanted,
  compute_need_pulls, compute_uploads, with_indexed, is_send_only,
}
use cross_sync.Index.Store.{names_of}
use cross_sync.Engine.Global.{global_loop, global_from}
use cross_sync.Base.{
  ℕ, list_eq, nat_eq, Bool, Bool-cases, List, Option, [], ap, arith, eq_of_test, false,
  if◌then◌else◌, inl, inr, none, refl, true, ◌&&◌, ◌==◌, ◌||◌, ◌∷◌, ◌≡◌, ◌∙◌, some, sym, length,
}
use cross_sync.Table.{
  Table, IsMap, add, contains, contains-add, contains-keys, has_key, insert, keys, lookup,
  lookup-insert,
}
use cross_sync.Engine.State.{View, Engine}
use cross_sync.Index.Files.{FileInfo, FileName, ok, Index}
use cross_sync.Index.Query.{select, list_all}
use cross_sync.Index.Fresh.{Numbered, IsSound}

-- The local entry of a name.
abbrev pub local : Engine → FileName → Option FileInfo
local e n = lookup n e.ix.files

-- Some view has the name.
unfoldable pub any_view : Table ℕ View → FileName → Bool
any_view [] n = false
any_view ((id, view) ∷ peers) n = has_key n view || any_view peers n

contains-add_names :
    (n : FileName) (ns set : List FileName)
    → contains n (add_names ns set) ≡ (contains n ns || contains n set)
unfolding add_names contains
contains-add_names n [] set = refl
contains-add_names n (m ∷ ns) set =
    ground (arith, contains-add_names n ns (add m set), contains-add m n set)

contains-view_names :
    (n : FileName) (peers : Table ℕ View) (set : List FileName)
    → contains n (view_names peers set) ≡ (any_view peers n || contains n set)
unfolding view_names any_view
contains-view_names n [] set = refl
contains-view_names n ((id, view) ∷ peers) set = ground (
  arith,
  contains-view_names n peers (add_names (keys view) set),
  contains-add_names n (keys view) set,
  contains-keys n view,
)

contains-keep :
    (n : FileName) (p : FileName → Bool) (ns : List FileName)
    → contains n (keep p ns) ≡ (contains n ns && p n)
unfolding keep contains
contains-keep n p [] = refl
contains-keep n p (m ∷ ns) = elim (Bool-cases (m == n)) [
  | inl e ↦ let same : m ≡ n = eq_of_test m n e in ground (arith, contains-keep n p ns, ap p same)
  | inr e ↦ ground (arith, contains-keep n p ns)
]

-- A name that nobody holds has no global version.
global_loop_absent :
    (peers : Table ℕ View) (n : FileName)
    → any_view peers n ≡ false
    → global_loop peers n none ≡ none
unfolding global_loop any_view has_key
global_loop_absent [] n h = refl
global_loop_absent ((id, view) ∷ peers) n h = ground (arith, global_loop_absent peers n)

pull_wanted_absent :
    (e : Engine) (n : FileName) → any_view e.peers n ≡ false → pull_wanted e n none ≡ false
unfolding pull_wanted global_from
pull_wanted_absent e n h = ground (arith, global_loop_absent e.peers n h)

-- All rows, in order.
abbrev pub rows_of : Table FileName FileInfo → List FileInfo
rows_of files = select (λ fi. true) files

contains-rows_of :
    (next : ℕ) (n : FileName) (files : Table FileName FileInfo)
    → Numbered next files
    → contains n (names_of (rows_of files)) ≡ has_key n files
unfolding contains has_key lookup select
contains-rows_of next n [] u = refl
contains-rows_of next n ((k, fi) ∷ files) u = ground (arith, contains-rows_of next n files u.2)

lookup-local_map :
    (next : ℕ) (n : FileName) (files m : Table FileName FileInfo)
    → Numbered next files
    → IsMap files
    → lookup n (local_map (rows_of files) m)
      ≡ (if has_key n files then lookup n files else lookup n m)
unfolding local_map has_key lookup select
lookup-local_map next n [] m u i = refl
lookup-local_map next n ((k, fi) ∷ files) m u i = ground (
  arith,
  lookup-local_map next n files (insert fi.name fi m) u.2 i.1,
  lookup-insert fi.name n fi m,
  (list_eq {A = ℕ}).equals_iff k n,
)

-- What the engine wants to fetch, and what it has to send.
abbrev pub to_fetch : Engine → FileName → Bool
to_fetch e n = pull_wanted e n (local e n)

abbrev pub to_send : Engine → FileName → Bool
to_send e n = in_uploads e (authoritative e.view_pending e.peers) n (local e n)

upload_wanted-none :
    (e : Engine) (n : FileName) (views : List View) → upload_wanted e n none views ≡ false
unfolding upload_wanted
upload_wanted-none e n views = refl

contains-upload_rows :
    (e : Engine) (views : List View) (next : ℕ) (n : FileName) (files : Table FileName FileInfo)
    → Numbered next files
    → IsMap files
    → contains n (upload_rows e views (rows_of files)) ≡ upload_wanted e n (lookup n files) views
unfolding contains lookup select upload_rows
contains-upload_rows e views next n [] u i = sym (upload_wanted-none e n views)
contains-upload_rows e views next n ((k, fi) ∷ files) u i = elim (Bool-cases (k == n)) [
  | inl same ↦
      let at : k ≡ n = eq_of_test k n same in
      let name : fi.name ≡ n = u.0 ∙ at in
      let absent : lookup n files ≡ none = ap (λ m. lookup m files) (sym at) ∙ i.0 in
      let rest : contains n (upload_rows e views (rows_of files)) ≡ false =
        contains-upload_rows e views next n files u.2 i.1
        ∙ ap (λ o. upload_wanted e n o views) absent
        ∙ upload_wanted-none e n views in
      ground (
        arith,
        rest,
        ap (λ m. upload_wanted e m (some fi) views) name,
        (list_eq {A = ℕ}).equals_iff fi.name n,
      )
  | inr other ↦ ground (
    arith,
    contains-upload_rows e views next n files u.2 i.1,
    (list_eq {A = ℕ}).equals_iff fi.name n,
    (list_eq {A = ℕ}).equals_iff k n,
  )
]

list_all_lem : (ix : Index) → ix.readable ≡ true → list_all ix ≡ ok (rows_of ix.files)
unfolding list_all
list_all_lem ix h = ground arith

nothing : (n : FileName) {b : Bool} → b ≡ false → contains n [] ≡ b
unfolding contains
nothing n h = sym h

to_fetch_send_only :
    (e : Engine) (n : FileName) → is_send_only e.direction ≡ true → to_fetch e n ≡ false
unfolding pull_wanted
to_fetch_send_only e n h = rw h

walk_names : Engine → List FileName
walk_names e = view_names e.peers (add_names (names_of (rows_of e.ix.files)) [])

-- The names that the walk keeps.
walked : Engine → List FileName
walked e = keep (λ n. pull_wanted e n (lookup n (local_map (rows_of e.ix.files) []))) (walk_names e)

contains-walked : (e : Engine) (n : FileName) → IsSound e.ix → contains n (walked e) ≡ to_fetch e n
unfolding walked walk_names contains has_key
contains-walked e n sound =
    let files = e.ix.files in
    let p : FileName → Bool = λ k. pull_wanted e k (lookup k (local_map (rows_of files) [])) in
    ground (
      arith,
      contains-keep n p (walk_names e),
      contains-view_names n e.peers (add_names (names_of (rows_of files)) []),
      contains-add_names n (names_of (rows_of files)) [],
      contains-rows_of e.ix.next_seq n files sound.numbered,
      lookup-local_map e.ix.next_seq n files [] sound.numbered sound.unique,
      pull_wanted_absent e n,
    )

-- The full walk of a sound index that answers succeeds with a list that holds a name exactly when
-- the engine wants to fetch it, and changes nothing of the engine but the size that the cache
-- notes.
pub compute_need_pulls_lem :
    (e : Engine)
    → IsSound e.ix
    → e.ix.readable ≡ true
    → (pulls : List FileName) × (size : ℕ) × (compute_need_pulls e
        ≡ (with_indexed e size, ok pulls))
      × ((n : FileName) → contains n pulls ≡ to_fetch e n)
unfolding compute_need_pulls walked walk_names
compute_need_pulls_lem e sound answers = elim (Bool-cases (is_send_only e.direction)) [
  | inl idle ↦ ([], e.cache.indexed, ground arith, λ n. nothing n (to_fetch_send_only e n idle))
  | inr active ↦ (
    sort_strings (walked e),
    length (local_map (rows_of e.ix.files) []),
    ground (arith, list_all_lem e.ix answers),
    λ n. contains-sort_strings n (walked e) ∙ contains-walked e n sound,
  )
]

uploads_of :
    (e : Engine) (peers : Table ℕ View) (views : List View)
    → peers ≡ e.peers
    → views ≡ authoritative e.view_pending e.peers
    → IsSound e.ix
    → e.ix.readable ≡ true
    → (ups : List FileName) × (compute_uploads e ≡ ok ups)
      × ((n : FileName) → contains n ups ≡ to_send e n)
unfolding compute_uploads in_uploads contains authoritative
uploads_of e [] views p v sound answers = ([], rw (← p), λ n. rw (← p) refl)
uploads_of e (q ∷ qs) [] p v sound answers = ([], ground arith, λ n. rw (← v))
uploads_of e (q ∷ qs) (w ∷ ws) p v sound answers = (
  sort_strings (upload_rows e (w ∷ ws) (rows_of e.ix.files)),
  ground (arith, list_all_lem e.ix answers),
  λ n. rw (← v) (
      contains-sort_strings n _
      ∙ contains-upload_rows e (w ∷ ws) e.ix.next_seq n e.ix.files sound.numbered sound.unique),
)

-- The full walk for uploads of a sound index that answers succeeds with a list that holds a name
-- exactly when the engine has to send it to some peer.
pub compute_uploads_lem :
    (e : Engine)
    → IsSound e.ix
    → e.ix.readable ≡ true
    → (ups : List FileName) × (compute_uploads e ≡ ok ups)
      × ((n : FileName) → contains n ups ≡ to_send e n)
compute_uploads_lem e sound answers = uploads_of e e.peers _ refl refl sound answers
