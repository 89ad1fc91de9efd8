-- ===== src/Session/Arrived.antt =====
-- session.go: the entries of an index as they arrive in a view.
use cross_sync.Index.Written.{unnumbered}
use cross_sync.Index.Fresh.{Numbered}
use cross_sync.Index.Query.{select}
use cross_sync.Base.{
  ℕ, list_eq, nat_eq, List, [], arith, false, refl, suc, take, true, zero, ◌∷◌, ◌≡◌, none, some,
}
use cross_sync.Table.{Table, contains, insert, lookup-insert, IsMap, lookup}
use cross_sync.Index.Files.{FileInfo, FileName}
use cross_sync.Index.Store.{names_of}
use cross_sync.Engine.State.{View}
use cross_sync.Engine.Views.{store_all, sweep}
use cross_sync.Session.{FileMessage, received, from_file_message, messages, to_file_message}

-- A swept name is gone, and a stored row is what was sent.
pub sweep_gone :
    (n : FileName) (seen : List FileName) (view : View)
    → contains n seen ≡ false
    → lookup n (sweep seen view).0 ≡ none
unfolding sweep contains lookup
sweep_gone n seen [] h = refl
sweep_gone n seen ((k, f) ∷ view) h =
    ground (arith, sweep_gone n seen view, (list_eq {A = ℕ}).equals_iff k n)

abbrev pub wires : Table FileName FileInfo → List FileInfo
wires files = received (messages (select (λ fi. true) files))

pub lookup-wires :
    (next : ℕ) (n : FileName) (files view : Table FileName FileInfo)
    → Numbered next files
    → IsMap files
    → lookup n (store_all (wires files) view)
      ≡ elim (lookup n files) [ none ↦ lookup n view | some fi ↦ some (unnumbered fi) ]
unfolding lookup select store_all to_file_message from_file_message
lookup-wires next n [] view u i = refl
lookup-wires next n ((k, fi) ∷ files) view u i = ground (
  arith,
  lookup-wires next n files (insert fi.name (unnumbered fi) view) u.2 i.1,
  lookup-insert fi.name n (unnumbered fi) view,
  (list_eq {A = ℕ}).equals_iff k n,
  (list_eq {A = ℕ}).equals_iff fi.name n,
)

pub contains-wires :
    (next : ℕ) (n : FileName) (files : Table FileName FileInfo)
    → Numbered next files
    → lookup n files ≡ none
    → contains n (names_of (wires files)) ≡ false
unfolding lookup select contains to_file_message from_file_message
contains-wires next n [] u h = refl
contains-wires next n ((k, fi) ∷ files) u h = ground (arith, contains-wires next n files u.2)

pub contains-take :
    (n : FileName) (k : ℕ) (files : List FileMessage)
    → contains n (names_of (received files)) ≡ false
    → contains n (names_of (received (take k files))) ≡ false
unfolding contains
contains-take n zero files h = refl
contains-take n (suc k) [] h = refl
contains-take n (suc k) (x ∷ files) h = ground (arith, contains-take n k files)
