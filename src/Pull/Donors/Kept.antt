-- ===== src/Pull/Donors/Kept.antt =====
-- block_reuse.go, `dirDonors`: what stands in the maps, and how many of them are kept.
use mathlib.Core.Path.{subst}
use cross_sync.Pull.{block_size_at}
use cross_sync.Hash.{Bytes}
use cross_sync.Pull.Donors.{
  build_locs, offer_files, Locs, parent_dir, offer_file, offer_blocks, DonorWalk, is_spare,
  max_donor_blocks_per_dir, max_donor_files_per_dir, max_owners_per_block, or_no_owners, owners_of,
  rows_of_dir, with_owner,
}
use cross_sync.Index.Files.{FileName, FileInfo}
use cross_sync.Engine.State.{Engine, is_in_flight}
use cross_sync.Pull.Donors.Rows.{IsIndexed, rows_of_dir-rows}
use cross_sync.Table.{lookup, insert, lookup-insert}
use cross_sync.Base.{
  nat_eq, list_eq, All, All-snoc, Bool-cases, List, [], ap, arith, eq_of_test, false, get_elem?,
  if◌then◌else◌, inl, inr, leb, length, not, refl, some, suc, true, ℕ, ◌++◌, ◌+◌, ◌==◌, ◌||◌, ◌∙◌,
  ◌∷◌, ◌≡◌, ◌≤◌,
}
use cross_sync.Pull.Start.{DonorLoc, is_donor_entry}

-- A block of a file that may give it: a live file of the index and of the directory that is not in flight, at the block's index,
-- and with the size of that block.
abbrev pub IsOffer : Engine → FileName → Bytes → DonorLoc → Type 0
IsOffer e dir h loc =
    (fi : FileInfo) × IsIndexed e fi
    × (fi.name ≡ loc.name)
    × (is_donor_entry fi ≡ true)
    × (parent_dir fi.name ≡ dir)
    × (is_in_flight e fi.name ≡ false)
    × (get_elem? fi.blocks loc.index ≡ some h)
    × (loc.size ≡ block_size_at fi loc.index)

abbrev pub Offers : Engine → FileName → Locs → Type 0
Offers e dir locs =
    (h : Bytes)
    → All (IsOffer e dir h) (owners_of h locs) × (length (owners_of h locs) ≤ max_owners_per_block)

pub length-snoc : {A : Type 0} (xs : List A) (x : A) → length (xs ++ (x ∷ [])) ≡ length xs + 1
length-snoc [] x = refl
length-snoc (y ∷ xs) x = ground (arith, length-snoc xs x)

no_locs : (e : Engine) (dir : FileName) → Offers e dir []
unfolding lookup
no_locs e dir h = (tt, omega arith)

module _ (e : Engine) (dir : FileName) where
  with_owner-Offers :
      (fi : FileInfo) (i : ℕ) (h : Bytes) (w : DonorWalk)
      → IsOffer e dir h (record { name = fi.name; index = i; size = block_size_at fi i })
      → is_spare fi h w ≡ false
      → Offers e dir w.locs
      → Offers e dir (with_owner fi i h w).locs
  with_owner-Offers fi i h w offer room all k =
      let loc : DonorLoc = record { name = fi.name; index = i; size = block_size_at fi i } in
      let row : List DonorLoc = owners_of h w.locs ++ (loc ∷ []) in
      let put_in : lookup k (insert h row w.locs) ≡ (if h == k then some row else lookup k w.locs) =
        lookup-insert h k row w.locs in
      elim (Bool-cases (h == k)) [
        | inl same ↦
            let eq : h ≡ k = eq_of_test h k same in
            let found : owners_of k (insert h row w.locs) ≡ row =
              ap or_no_owners put_in ∙ rw same refl in
            rw found (
              All-snoc (IsOffer e dir k) (owners_of h w.locs) loc
                  (subst (λ t. All (IsOffer e dir t) (owners_of h w.locs)) eq (all h).0)
                  (subst (λ t. IsOffer e dir t loc) eq offer),
              ground (arith, length-snoc (owners_of h w.locs) loc),
            )
        | inr other ↦
            let kept : owners_of k (insert h row w.locs) ≡ owners_of k w.locs =
              ap or_no_owners put_in ∙ rw other refl in
            rw kept (all k)
      ]

  -- A file that the walk takes blocks of.
  abbrev IsGiver : FileInfo → Type 0
  IsGiver fi =
      IsIndexed e fi
      × (is_donor_entry fi ≡ true)
      × (parent_dir fi.name ≡ dir)
      × (is_in_flight e fi.name ≡ false)

  offer_blocks-Offers :
      (fi : FileInfo) (i : ℕ) (hs : List Bytes) (w : DonorWalk)
      → IsGiver fi
      → ((j : ℕ) → get_elem? fi.blocks (i + j) ≡ get_elem? hs j)
      → Offers e dir w.locs
      → Offers e dir (offer_blocks fi i hs w).0.locs
  unfolding offer_blocks
  offer_blocks-Offers fi i [] w giver at all = all
  offer_blocks-Offers fi i (h ∷ hs) w giver at all =
      let at' : (j : ℕ) → get_elem? fi.blocks (i + 1 + j) ≡ get_elem? hs j = λ j.
        let s : i + 1 + j ≡ i + suc j = omega arith in ap (get_elem? fi.blocks) s ∙ at (suc j) in
      let here : get_elem? fi.blocks i ≡ some h =
        let s : i ≡ i + 0 = omega arith in ap (get_elem? fi.blocks) s ∙ at 0 in
      elim (Bool-cases (is_spare fi h w)) [
        | inl spare ↦ rw spare (offer_blocks-Offers fi (i + 1) hs w giver at' all)
        | inr room ↦
            let (row, donor, inside, settled) = giver in
            let all' : Offers e dir (with_owner fi i h w).locs =
              with_owner-Offers fi i h w (fi, row, refl, donor, inside, settled, here, refl) room
                all in
            elim (Bool-cases (leb max_donor_blocks_per_dir (with_owner fi i h w).blocks)) [
              | inl full ↦ rw (room, full) all'
              | inr more ↦
                  rw (room, more)
                    (offer_blocks-Offers fi (i + 1) hs (with_owner fi i h w) giver at' all')
            ]
      ]

  offer_file-Offers :
      (fi : FileInfo) (w : DonorWalk)
      → IsIndexed e fi
      → Offers e dir w.locs
      → Offers e dir (offer_file e dir fi w).0.locs
  unfolding offer_file
  offer_file-Offers fi w row all =
      elim (Bool-cases (not (is_donor_entry fi) || not (parent_dir fi.name == dir))) [
        | inl passed ↦ rw passed all
        | inr fits ↦
            elim (Bool-cases
              (leb max_donor_files_per_dir w.files || leb max_donor_blocks_per_dir w.blocks)) [
                | inl full ↦ rw (fits, full) all
                | inr more ↦ elim (Bool-cases (is_in_flight e fi.name)) [
                  | inl moving ↦ rw (fits, more, moving) all
                  | inr settled ↦
                      let donor : is_donor_entry fi ≡ true = ground arith in
                      let inside : parent_dir fi.name ≡ dir =
                        eq_of_test (parent_dir fi.name) dir (ground arith) in
                      rw (fits, more, settled)
                        (offer_blocks-Offers fi 0 fi.blocks (record w { files = w.files + 1 })
                          (row, donor, inside, settled)
                          (λ j. let s : 0 + j ≡ j = omega arith in ap (get_elem? fi.blocks) s) all)
                ]
              ]
      ]

  offer_files-Offers :
      (fis : List FileInfo) (w : DonorWalk)
      → All (IsIndexed e) fis
      → Offers e dir w.locs
      → Offers e dir (offer_files e dir fis w).locs
  unfolding offer_files
  offer_files-Offers [] w rows all = all
  offer_files-Offers (fi ∷ fis) w rows all =
      let w' : DonorWalk = (offer_file e dir fi w).0 in
      elim (Bool-cases (offer_file e dir fi w).1) [
        | inl goes_on ↦
            rw goes_on (offer_files-Offers fis w' rows.1 (offer_file-Offers fi w rows.0 all))
        | inr stops ↦ rw stops (offer_file-Offers fi w rows.0 all)
      ]

  pub build_locs-Offers : Offers e dir (build_locs e dir)
  unfolding build_locs
  build_locs-Offers =
      offer_files-Offers (rows_of_dir e dir) (record { locs = []; files = 0; blocks = 0 })
        (rows_of_dir-rows e dir) (no_locs e dir)
