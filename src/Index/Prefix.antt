-- ===== src/Index/Prefix.antt =====
-- index.go, `ListPrefix`: the range query finds exactly the live entries below a directory.
use cross_sync.Text.Order.{range-has_prefix}
use cross_sync.Base.{
  ℕ, list_eq, nat_eq, List, Bool, Bool-cases, [], arith, false, inl, inr, none, not, refl, some,
  ◌&&◌, ◌++◌, ◌==◌, ◌||◌, ◌∷◌, ◌≡◌, Option-cases, ap, true, ◌+◌, ◌∙◌,
}
use cross_sync.Table.{Table, lookup, contains, IsMap}
use cross_sync.Text.{has_prefix, slash}
use cross_sync.Hash.{Bytes}
use cross_sync.Index.Files.{FileInfo, FileName, Index, ok}
use cross_sync.Index.Store.{names_of}
use cross_sync.Index.Fresh.{Numbered, IsSound}
use cross_sync.Index.Query.{split_last, sort_desc, place_desc, select, in_range, list_prefix}

split_last-snoc : (dir : Bytes) (c : ℕ) → split_last (dir ++ (c ∷ [])) ≡ some (dir, c)
unfolding split_last
split_last-snoc [] c = refl
split_last-snoc (d ∷ []) c = refl
split_last-snoc (d ∷ b ∷ dir) c = rw (split_last-snoc (b ∷ dir) c) refl

contains-place_desc :
    (n : FileName) (fi : FileInfo) (fis : List FileInfo)
    → contains n (names_of (place_desc fi fis)) ≡ (fi.name == n || contains n (names_of fis))
unfolding contains place_desc
contains-place_desc n fi [] = refl
contains-place_desc n fi (g ∷ fis) = ground (arith, contains-place_desc n fi fis)

contains-sort_desc :
    (n : FileName) (fis : List FileInfo)
    → contains n (names_of (sort_desc fis)) ≡ contains n (names_of fis)
unfolding contains sort_desc
contains-sort_desc n [] = refl
contains-sort_desc n (fi ∷ fis) =
    ground (arith, contains-sort_desc n fis, contains-place_desc n fi (sort_desc fis))

contains-select :
    (next : ℕ) (p : FileInfo → Bool) (n : FileName) (files : Table FileName FileInfo)
    → Numbered next files
    → IsMap files
    → contains n (names_of (select p files))
      ≡ elim (lookup n files) [ none ↦ false | some fi ↦ p fi ]
unfolding contains lookup select
contains-select next p n [] u i = refl
contains-select next p n ((k, fi) ∷ files) u i = elim (Bool-cases (k == n)) [
  | inl same ↦ ground (
    arith,
    contains-select next p n files u.2 i.1,
    (list_eq {A = ℕ}).equals_iff k n,
    (list_eq {A = ℕ}).equals_iff fi.name n,
  )
  | inr other ↦ ground (
    arith,
    contains-select next p n files u.2 i.1,
    (list_eq {A = ℕ}).equals_iff k n,
    (list_eq {A = ℕ}).equals_iff fi.name n,
  )
]

-- The name has a live row and lies below the directory.
abbrev pub is_below : Index → Bytes → FileName → Bool
is_below ix dir n = elim (lookup n ix.files) [
  | none ↦ false
  | some fi ↦ not fi.deleted && has_prefix n (dir ++ (slash ∷ []))
]

lookup-name :
    (next : ℕ) (n : FileName) (fi : FileInfo) (files : Table FileName FileInfo)
    → Numbered next files
    → lookup n files ≡ some fi
    → fi.name ≡ n
unfolding lookup
lookup-name next n fi [] u h = cc
lookup-name next n fi ((k, g) ∷ files) u h =
    ground (arith, lookup-name next n fi files u.2, (list_eq {A = ℕ}).equals_iff k n)

in_range-has_prefix :
    (dir : Bytes) (fi : FileInfo)
    → in_range (dir ++ (slash ∷ [])) (dir ++ ((slash + 1) ∷ [])) fi
      ≡ (not fi.deleted && has_prefix fi.name (dir ++ (slash ∷ [])))
in_range-has_prefix dir fi = ap (λ b. not fi.deleted && b) (range-has_prefix dir slash fi.name)

row_in_range :
    (next : ℕ) (dir : Bytes) (n : FileName) (ix : Index)
    → Numbered next ix.files
    → elim (lookup n ix.files) [
      | none ↦ false
      | some fi ↦ in_range (dir ++ (slash ∷ [])) (dir ++ ((slash + 1) ∷ [])) fi
    ]
      ≡ is_below ix dir n
row_in_range next dir n ix u = elim (Option-cases (lookup n ix.files)) [
  | inl e ↦ ground arith
  | inr (fi, e) ↦
      let same : fi.name ≡ n = lookup-name next n fi ix.files u e in
      let below : in_range (dir ++ (slash ∷ [])) (dir ++ ((slash + 1) ∷ [])) fi
          ≡ (not fi.deleted && has_prefix n (dir ++ (slash ∷ []))) =
        in_range-has_prefix dir fi
        ∙ ap (λ m. not fi.deleted && has_prefix m (dir ++ (slash ∷ []))) same in
      ground (arith, below)
]

-- For a directory's prefix, the query on a sound index that answers succeeds with exactly the names that
-- have a live entry and begin with the prefix: the range up to the byte after the slash leaves nothing
-- below the directory out and takes nothing else in.
pub list_prefix_lem :
    (ix : Index) (dir : Bytes)
    → IsSound ix
    → ix.readable ≡ true
    → (rows : List FileInfo) × (list_prefix ix (dir ++ (slash ∷ [])) ≡ ok rows)
      × ((n : FileName) → contains n (names_of rows) ≡ is_below ix dir n)
unfolding list_prefix
list_prefix_lem ix dir sound answers =
    let p : FileInfo → Bool = in_range (dir ++ (slash ∷ [])) (dir ++ ((slash + 1) ∷ [])) in
    (
      sort_desc (select p ix.files),
      ground (arith, split_last-snoc dir slash),
      λ n.
          contains-sort_desc n (select p ix.files)
          ∙ contains-select ix.next_seq p n ix.files sound.numbered sound.unique
          ∙ row_in_range ix.next_seq dir n ix sound.numbered,
    )
