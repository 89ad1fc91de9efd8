-- ===== src/Engine/Delta.antt =====
-- index.go and engine.go: a delta after a marker brings a peer's view up to date.
use cross_sync.Session.{from_file_message, messages, received, to_file_message}
use cross_sync.Index.Store.{max_seq}
use cross_sync.Index.History.{Write, Waits, run, run-Grew, run-IsSound}
use cross_sync.Base.{
  ℕ, list_eq, nat_eq, Bool, [], arith, if◌then◌else◌, none, refl, some, ◌∷◌, ◌≡◌, All, List, inl,
  inr, ltb, sym, true, ◌∙◌, Option, ap,
}
use cross_sync.Table.{Table, lookup, IsMap, insert, lookup-insert}
use cross_sync.Index.Files.{FileInfo, FileName, Index, ok}
use cross_sync.Index.Fresh.{Numbered, IsSound}
use cross_sync.Index.Query.{select, list_after}
use cross_sync.Engine.Views.{store_all}

-- An entry as it arrives at the peer: the wire leaves its sequence out.
abbrev pub wired : FileInfo → FileInfo
wired fi = from_file_message (to_file_message fi)

abbrev pub wired_row : Option FileInfo → Option FileInfo
wired_row none = none
wired_row (some fi) = some (wired fi)

-- The rows that a selection takes replace what the view had.
lookup-store_all-select :
    (next : ℕ) (p : FileInfo → Bool) (n : FileName) (files view : Table FileName FileInfo)
    → Numbered next files
    → IsMap files
    → lookup n (store_all (received (messages (select p files))) view) ≡ elim (lookup n files) [
      | none ↦ lookup n view
      | some fi ↦ if p fi then some (wired fi) else lookup n view
    ]
unfolding lookup select store_all from_file_message to_file_message
lookup-store_all-select next p n [] view u i = refl
lookup-store_all-select next p n ((k, fi) ∷ files) view u i = ground (
  arith,
  lookup-store_all-select next p n files view u.2 i.1,
  lookup-store_all-select next p n files (insert fi.name (wired fi) view) u.2 i.1,
  lookup-insert fi.name n (wired fi) view,
  (list_eq {A = ℕ}).equals_iff k n,
  (list_eq {A = ℕ}).equals_iff fi.name n,
)

-- A peer whose view holds the rows of a sound index, as the wire carries them, is brought up to date by one
-- delta, after any history of writes of entries that wait for sequences, failed ones included: the rows
-- above the highest sequence of the start, sent in the wire's form and stored into the view, make every row
-- of the index stand in it as the wire carries it, which is without its sequence.
pub delta_completes :
    (ix : Index) (ws : List Write) (view : Table FileName FileInfo) (n : FileName) (fi : FileInfo)
    → IsSound ix
    → All Waits ws
    → (run ix ws).readable ≡ true
    → ((m : FileName) → lookup m view ≡ wired_row (lookup m ix.files))
    → lookup n (run ix ws).files ≡ some fi
    → (rows : List FileInfo) × (list_after (run ix ws) (max_seq ix) ≡ ok rows)
      × (lookup n (store_all (received (messages rows)) view) ≡ some (wired fi))
unfolding list_after
delta_completes ix ws view n fi sound waits answers synced here =
    let after : Index = run ix ws in
    let s : IsSound after = run-IsSound ix ws waits sound in
    let p : FileInfo → Bool = λ f. ltb (max_seq ix) f.sequence in
    let stored = lookup-store_all-select after.next_seq p n after.files view s.numbered s.unique in
    (
      select p after.files,
      ground arith,
      elim (run-Grew ix ws waits sound n) [
        | inl same ↦
            let seen : lookup n view ≡ some (wired fi) =
              synced n ∙ ap wired_row (sym same ∙ here) in
            ground arith
        | inr (inl gone) ↦ absurd (ground arith)
        | inr (inr (g, at, newer)) ↦ ground arith
      ],
    )
