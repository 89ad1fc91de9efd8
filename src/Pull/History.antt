-- ===== src/Pull/History.antt =====
-- engine.go, pull_run.go and block_reuse.go: a pull from `StartPull` to `Finish`.
use cross_sync.Pull.Filled.{whole-Rest, fill_loop-Intact, recount}
use cross_sync.Pull.Intact.{Intact}
use cross_sync.Pull.Start.{none_written, verify_staged, new_pull, Staging, open_temp}
use cross_sync.Temp.{read_at, Content, bytes_from, truncate, DiskWrites}
use cross_sync.Hash.{Bytes, effective_block_size}
use mathlib.Core.Path.{subst}
use mathlib.Core.Option.{some-injective}
use cross_sync.Base.{
  ℕ, nat_eq, list_eq, Bool-cases, List, Option-cases, [], arith, eq_of_test, get_elem?, inl, inr,
  some, suc, true, zero, ◌*◌, ◌+◌, ◌==◌, ◌∙◌, ◌∷◌, ◌≡◌, ◌≢◌, ap, length, refl, Option, ◌<◌, Bool,
  false, if◌then◌else◌, none, set, ◌&&◌,
}
use cross_sync.Index.Files.{FileInfo, FileName, Result, err, ok, staging_failed}
use cross_sync.Pull.{
  block_size_at, Pull, BlockNeed, fill_from_local_copy, fill_loop, need_blocks, write_temp,
  filled_all, has_no_blocks,
}

never_written : (hs : List Bytes) (k : ℕ) → get_elem? (none_written hs) k ≢ some true
never_written [] k h = cc
never_written (x ∷ hs) zero h = cc
never_written (x ∷ hs) (suc k) h = never_written hs k h

bytes-read_at :
    (f : Content) (off n : ℕ) (bytes : Bytes)
    → read_at f off n ≡ some bytes
    → bytes ≡ bytes_from f.byte off n
unfolding read_at
bytes-read_at f off n bytes h = ground arith

module _ (sum : Bytes → Bytes) where
  -- What the check of a staged temp marks.
  verify_staged_lem :
      (fi : FileInfo) (temp : Content) (i : ℕ) (hs : List Bytes) (k : ℕ) (h : Bytes)
      → get_elem? (verify_staged sum fi temp i hs) k ≡ some true
      → get_elem? hs k ≡ some h
      → sum (
          bytes_from temp.byte
            ((i + k) * effective_block_size fi.block_size)
            (block_size_at fi (i + k)))
        ≡ h
  unfolding verify_staged
  verify_staged_lem fi temp i [] k h mark at_k = cc
  verify_staged_lem fi temp i (x ∷ hs) k h mark at_k =
      elim (Option-cases
        (read_at temp (i * effective_block_size fi.block_size) (block_size_at fi i))) [
          | inl unread ↦ absurd (
              never_written (x ∷ hs) k (
                let e : verify_staged sum fi temp i (x ∷ hs) ≡ none_written (x ∷ hs) =
                  rw (unread, verify_staged) in
                subst (λ l. get_elem? l k ≡ some true) e mark))
          | inr (bytes, read) ↦ elim (Bool-cases (sum bytes == x)) [
            | inr other ↦ absurd (
                never_written (x ∷ hs) k (
                  let e : verify_staged sum fi temp i (x ∷ hs) ≡ none_written (x ∷ hs) =
                    rw (read, other, verify_staged) in
                  subst (λ l. get_elem? l k ≡ some true) e mark))
            | inl same ↦
                go (verify_staged_lem fi temp (i + 1) hs) k bytes read
                  (eq_of_test (sum bytes) x same)
                  (let e : verify_staged sum fi temp i (x ∷ hs)
                        ≡ true ∷ verify_staged sum fi temp (i + 1) hs =
                      rw (read, same, verify_staged) in
                    subst (λ l. get_elem? l k ≡ some true) e mark)
                  at_k
          ]
        ]
    where
      go :
          ((k : ℕ) (h : Bytes)
            → get_elem? (verify_staged sum fi temp (i + 1) hs) k ≡ some true
            → get_elem? hs k ≡ some h
            → sum (
                bytes_from temp.byte
                  ((i + 1 + k) * effective_block_size fi.block_size)
                  (block_size_at fi (i + 1 + k)))
              ≡ h)
          → (k : ℕ) (bytes : Bytes)
          → read_at temp (i * effective_block_size fi.block_size) (block_size_at fi i) ≡ some bytes
          → sum bytes ≡ x
          → get_elem? (true ∷ verify_staged sum fi temp (i + 1) hs) k ≡ some true
          → get_elem? (x ∷ hs) k ≡ some h
          → sum (
              bytes_from temp.byte
                ((i + k) * effective_block_size fi.block_size)
                (block_size_at fi (i + k)))
            ≡ h
      go later zero bytes read same mark at_k =
          let e : i + 0 ≡ i = omega arith in
          rw e (rw (bytes-read_at temp _ _ bytes read) at (same ∙ some-injective _ _ at_k))
      go later (suc k) bytes read same mark at_k =
          let e : i + 1 + k ≡ i + suc k = omega arith in rw e at (later k h mark at_k)

  length-none_written : (hs : List Bytes) → length (none_written hs) ≡ length hs
  length-none_written [] = refl
  length-none_written (h ∷ hs) = ap suc (length-none_written hs)

  length-verify_staged :
      (fi : FileInfo) (temp : Content) (i : ℕ) (hs : List Bytes)
      → length (verify_staged sum fi temp i hs) ≡ length hs
  unfolding verify_staged
  length-verify_staged fi temp i [] = refl
  length-verify_staged fi temp i (h ∷ hs) =
      ground (arith, length-verify_staged fi temp (i + 1) hs, length-none_written hs)

  truncate-Intact :
      (name : FileName) (info : FileInfo) (peer : ℕ) (old : Content)
      → Intact sum (new_pull sum name info peer (truncate info.size old) (none_written info.blocks))
  unfolding truncate
  truncate-Intact name info peer old = record {
    sized = refl;
    marked_all = length-none_written info.blocks;
    hashed = λ i mark. absurd (never_written info.blocks i mark);
  }

  staged-Intact :
      (name : FileName) (info : FileInfo) (peer : ℕ) (old : Content)
      → old.size ≡ info.size
      → Intact sum (new_pull sum name info peer old (verify_staged sum info old 0 info.blocks))
  staged-Intact name info peer old e = record {
    sized = e;
    marked_all = length-verify_staged info old 0 info.blocks;
    hashed = λ i mark h at_i.
        let z : 0 + i ≡ i = omega arith in
        subst
          (λ t.
            sum (
              bytes_from old.byte (t * effective_block_size info.block_size) (block_size_at info t))
            ≡ h)
          z (verify_staged_lem info old 0 info.blocks i h mark at_i);
  }

  fill_loop-kept :
      (disk : DiskWrites) (source : Content) (needs : List BlockNeed) (p : Pull) (filled : ℕ)
      → ((fill_loop sum disk source needs p filled).0.info ≡ p.info)
        × ((fill_loop sum disk source needs p filled).0.name ≡ p.name)
  unfolding fill_loop
  fill_loop-kept disk source [] p filled = (refl, refl)
  fill_loop-kept disk source (need ∷ needs) p filled =
      elim (Option-cases (read_at source need.offset need.size)) [
        | inl unread ↦ ground arith
        | inr (bytes, read) ↦ ground (
          arith,
          fill_loop-kept disk source needs
              (recount sum
                (write_temp sum disk p need.offset bytes (set p.written need.index true)).0 bytes)
              (filled + 1),
        )
      ]

  choose-Intact :
      (b : Bool) (x y : Pull) → Intact sum x → Intact sum y → Intact sum (if b then x else y)
  choose-Intact true x y this other = this
  choose-Intact false x y this other = other

  pub fill_from_local_copy-Intact :
      (disk : DiskWrites) (donor : Option (FileName × Option Content)) (p : Pull)
      → 0 < p.info.block_size
      → Intact sum p
      → Intact sum (fill_from_local_copy sum disk donor p)
  unfolding fill_from_local_copy
  fill_from_local_copy-Intact disk none p sized intact = choose-Intact _ _ _ intact intact
  fill_from_local_copy-Intact disk (some (name, none)) p sized intact =
      choose-Intact _ _ _ intact intact
  fill_from_local_copy-Intact disk (some (name, some source)) p sized intact =
      let filled : Intact sum (fill_loop sum disk source (need_blocks p) p 0).0 =
        fill_loop-Intact sum disk source p 0 p.info.blocks p.written 0 sized
          (whole-Rest sum p intact) in
      let q : Pull = (fill_loop sum disk source (need_blocks p) p 0).0 in
      let n : ℕ = (fill_loop sum disk source (need_blocks p) p 0).1 in
      let named : Intact sum (record q { donor = some name }) = record {
        sized = filled.sized;
        marked_all = filled.marked_all;
        hashed = filled.hashed;
      } in
      choose-Intact (has_no_blocks p.info) p
        (if filled_all n (length (need_blocks p)) then record q { donor = some name } else q) intact
        (choose-Intact (filled_all n (length (need_blocks p))) (record q { donor = some name }) q
          named filled)

  pub fill_from_local_copy-kept :
      (disk : DiskWrites) (donor : Option (FileName × Option Content)) (p : Pull)
      → ((fill_from_local_copy sum disk donor p).info ≡ p.info)
        × ((fill_from_local_copy sum disk donor p).name ≡ p.name)
  unfolding fill_from_local_copy
  fill_from_local_copy-kept disk none p = ground arith
  fill_from_local_copy-kept disk (some (name, none)) p = ground arith
  fill_from_local_copy-kept disk (some (name, some source)) p =
      ground (arith, fill_loop-kept disk source (need_blocks p) p 0)

  -- What a started pull holds.
  abbrev pub Started : FileName → FileInfo → Result Pull → Type 0
  Started name info (err x) = Unit
  Started name info (ok p) = Intact sum p × (p.info ≡ info) × (p.name ≡ name)

  choose-Started :
      (b : Bool) (name : FileName) (info : FileInfo) (x y : Result Pull)
      → Started name info x
      → Started name info y
      → Started name info (if b then x else y)
  choose-Started true name info x y this other = this
  choose-Started false name info x y this other = other

  pub open_temp-Started :
      (st : Staging) (name : FileName) (info : FileInfo) (peer : ℕ)
      → Started name info (open_temp sum st name info peer)
  unfolding open_temp
  open_temp-Started st name info peer =
      let fresh : (old : Content)
          → Started name info (
              if st.creates && st.truncates
              then ok
                  (new_pull sum name info peer (truncate info.size old) (none_written info.blocks))
              else err staging_failed) =
        λ old.
          choose-Started (st.creates && st.truncates) name info _ _
            (truncate-Intact name info peer old, refl, refl) tt in
      elim (Option-cases st.staged) [
        | inl nothing ↦ rw nothing (fresh (record { size = 0; byte = λ i. 0 }))
        | inr (old, found) ↦ rw found (elim (Bool-cases (old.size == info.size && st.reopens)) [
          | inr other ↦ rw other (fresh old)
          | inl fits ↦ rw fits (staged-Intact name info peer old (ground arith), refl, refl)
        ])
      ]
