-- ===== src/Pull/Download.antt =====
-- engine.go, pull_run.go and block_reuse.go: a file that `Finish` lets through is the one that was asked for.
use mathlib.Core.Path.{subst}
use cross_sync.Pull.History.{
  Started, open_temp-Started, fill_from_local_copy-Intact, fill_from_local_copy-kept,
}
use cross_sync.Pull.Filled.{GiveBlocks, reuse_loop-Intact, whole-Rest}
use cross_sync.Pull.Runs.{IsRun, verify_run-IsRun}
use cross_sync.Temp.{DiskWrites, Content}
use cross_sync.Engine.Global.{global_from}
use cross_sync.Pull.Start.{
  start_pull, DonorLoc, LocalFiles, Staging, fill_blocks_from_local, local_copy_donor, open_temp,
  opened, prepare, finish_pull,
}
use cross_sync.Engine.State.{Engine}
use cross_sync.Hash.{Bytes, effective_block_size}
use cross_sync.Index.Query.{get, in_range}
use cross_sync.Base.{
  ℕ, nat_eq, list_eq, Bool, Bool-cases, List, Option, Option-cases, arith, drop, false, get_elem?,
  inl, inr, leb, length, some, true, ◌*◌, ◌-◌, ◌<◌, ◌≡◌, ◌≤◌, ◌⊎◌, refl, ◌∙◌, [], none, suc, zero,
  ◌∷◌, sym,
}
use cross_sync.Index.Files.{
  FileInfo, FileName, ok, Result, err, is_deletion, not_indexed, staging_failed, block_missing,
}
use cross_sync.Pull.{Pull, mark_run, receive_blocks, verify_run, fill_from_local_copy, is_complete}
use cross_sync.Pull.Intact.{Intact, get_elem?-mark_run, length-mark_run, write_temp-Intact, Hashes}

ok-injective {ℓ} : {A : Type ℓ} {a b : A} → ◌≡◌ {A = Result A} (ok a) (ok b) → a ≡ b
ok-injective h = cc

module _ (sum : Bytes → Bytes) where
  -- A run that gets onto the disk as a whole, or is refused.
  receive_blocks-Intact :
      (disk : DiskWrites) (p : Pull) (first : ℕ) (bytes : Bytes)
      → ((off n : ℕ) → n ≤ disk off n)
      → Intact sum p
      → Intact sum (receive_blocks sum disk p first bytes).0
  unfolding receive_blocks
  receive_blocks-Intact disk p first bytes writes intact =
      elim (Bool-cases (leb (length p.info.blocks) first)) [
        | inl out ↦ rw out intact
        | inr in_range ↦
            elim (Option-cases (verify_run sum p.info first (drop first p.info.blocks) bytes)) [
              | inl refused ↦ rw (in_range, refused) intact
              | inr (end, verified) ↦
                  let run : IsRun sum p.info first (drop first p.info.blocks) bytes end =
                    verify_run-IsRun sum p.info first (drop first p.info.blocks) bytes end
                      verified in
                  rw (in_range, verified)
                    (write_temp-Intact sum disk p first end bytes
                      (mark_run p.written first (end - first)) intact run
                      (inl (writes (first * effective_block_size p.info.block_size) (length bytes)))
                      (marks p first end run.forward)
                      (length-mark_run p.written first (end - first)))
            ]
      ]
    where
      marks :
          (p : Pull) (first end : ℕ)
          → first ≤ end
          → (i : ℕ) → get_elem? (mark_run p.written first (end - first)) i ≡ some true
          → ((first ≤ i) × (i < end)) ⊎ (get_elem? p.written i ≡ some true)
      marks p first end forward i mark =
          elim (get_elem?-mark_run p.written first (end - first) i mark) [
            | inl (low, high) ↦ inl (low, omega arith)
            | inr before ↦ inr before
          ]

  -- The life of a pull of `name` before `Finish`: its start over any staged temp and any local files, then
  -- blocks from files of its directory and runs from the peer, good and bad, in any order.
  pub data Download (e : Engine) (name : FileName) : Pull → Type 0 where
    started :
        (disk : DiskWrites) (files : LocalFiles) (st : Staging) (peer : ℕ) (p : Pull)
        → start_pull sum disk files st e name peer ≡ ok p
        → 0 < p.info.block_size
        → Download e name p
    reused :
        (disk : DiskWrites) (files : LocalFiles) (owners : Bytes → List DonorLoc) {p : Pull}
        → GiveBlocks sum owners p.name p.info
        → Download e name p
        → Download e name (fill_blocks_from_local sum disk files owners p)
    received :
        (disk : DiskWrites) (first : ℕ) (bytes : Bytes) {p : Pull}
        → ((off n : ℕ) → n ≤ disk off n)
        → Download e name p
        → Download e name (receive_blocks sum disk p first bytes).0

  -- The winner of the name.
  abbrev pub IsWinner : Engine → FileName → FileInfo → Type 0
  IsWinner e name fi =
      (found : Option FileInfo) × (is_local : Bool) × (get e.ix name ≡ ok found)
      × (global_from e.peers found name ≡ some (fi, is_local))
      × (fi.deleted ≡ false)

  -- The tail of `StartPull` keeps the pull intact and for the same entry.
  prepare_lem :
      (disk : DiskWrites) (files : LocalFiles) (e : Engine) (name : FileName) (global : FileInfo)
      (r : Result Pull) (p : Pull)
      → Started sum name global r
      → prepare sum disk files e r ≡ ok p
      → 0 < p.info.block_size
      → Intact sum p × (p.info ≡ global)
  unfolding prepare
  prepare_lem disk files e name global (err x) p s h sized = cc
  prepare_lem disk files e name global (ok q) p s h sized =
      let donor : Option (FileName × Option Content) =
        opened files (local_copy_donor files e q.info) in
      let same : fill_from_local_copy sum disk donor q ≡ p = ok-injective h in
      let kept : p.info ≡ q.info =
        subst (λ t. t.info ≡ q.info) same (fill_from_local_copy-kept sum disk donor q).0 in
      (
        subst (λ t. Intact sum t) same
            (fill_from_local_copy-Intact sum disk donor q (rw (← kept) sized) s.0),
        kept ∙ s.1,
      )

  start_pull_lem :
      (disk : DiskWrites) (files : LocalFiles) (st : Staging) (e : Engine) (name : FileName)
      (peer : ℕ) (p : Pull)
      → start_pull sum disk files st e name peer ≡ ok p
      → 0 < p.info.block_size
      → Intact sum p × IsWinner e name p.info
  unfolding start_pull
  start_pull_lem disk files st e name peer p h sized = asked (get e.ix name) refl
    where
      won :
          (found : Option FileInfo) (global : FileInfo) (is_local : Bool)
          → get e.ix name ≡ ok found
          → global_from e.peers found name ≡ some (global, is_local)
          → Intact sum p × IsWinner e name p.info
      won found global is_local asked_for best = elim (Bool-cases global.deleted) [
        | inl gone ↦ (let bad : err is_deletion ≡ ok p = cc in cc)
        | inr live ↦ elim (Bool-cases st.path_works) [
          | inr off ↦ (let bad : err staging_failed ≡ ok p = cc in cc)
          | inl on ↦
              let done : prepare sum disk files e (open_temp sum st name global peer) ≡ ok p = cc in
              let (intact, same) =
                prepare_lem disk files e name global (open_temp sum st name global peer) p
                  (open_temp-Started sum st name global peer) done sized in
              (intact, (found, is_local, asked_for, rw same best, rw same live))
        ]
      ]

      asked :
          (r : Result (Option FileInfo)) → get e.ix name ≡ r → Intact sum p × IsWinner e name p.info
      asked (err x) asked_for = (let bad : err x ≡ ok p = cc in cc)
      asked (ok found) asked_for = elim (Option-cases (global_from e.peers found name)) [
        | inl nothing ↦ (let bad : err not_indexed ≡ ok p = cc in cc)
        | inr ((global, is_local), best) ↦ won found global is_local asked_for best
      ]

  fill_blocks-Intact :
      (disk : DiskWrites) (files : LocalFiles) (owners : Bytes → List DonorLoc) (p : Pull)
      → GiveBlocks sum owners p.name p.info
      → Intact sum p
      → Intact sum (fill_blocks_from_local sum disk files owners p)
        × ((fill_blocks_from_local sum disk files owners p).info ≡ p.info)
  unfolding fill_blocks_from_local
  fill_blocks-Intact disk files owners p give intact =
      reuse_loop-Intact sum disk files owners p.name p.info p 0 p.info.blocks p.written ([], none)
        give refl refl (whole-Rest sum p intact)

  receive_blocks-info :
      (disk : DiskWrites) (p : Pull) (first : ℕ) (bytes : Bytes)
      → (receive_blocks sum disk p first bytes).0.info ≡ p.info
  unfolding receive_blocks
  receive_blocks-info disk p first bytes = ground arith

  Download-Intact :
      (e : Engine) (name : FileName) (p : Pull)
      → Download e name p
      → Intact sum p × IsWinner e name p.info
  Download-Intact e name _ (started disk files st peer p h sized) =
      start_pull_lem disk files st e name peer p h sized
  Download-Intact e name _ (reused disk files owners {p} give d) =
      let (intact, winner) = Download-Intact e name p d in
      let (after, same) = fill_blocks-Intact disk files owners p give intact in
      (after, subst (IsWinner e name) (sym same) winner)
  Download-Intact e name _ (received disk first bytes {p} writes d) =
      let (intact, winner) = Download-Intact e name p d in
      (
        receive_blocks-Intact disk p first bytes writes intact,
        subst (IsWinner e name) (sym (receive_blocks-info disk p first bytes)) winner,
      )

  all_marked :
      (marked : List Bool) (i : ℕ)
      → is_complete marked ≡ true
      → i < length marked
      → get_elem? marked i ≡ some true
  unfolding is_complete
  all_marked [] i whole low = absurd (omega arith)
  all_marked (w ∷ ws) zero whole low = ground arith
  all_marked (w ∷ ws) (suc i) whole low = all_marked ws i (ground arith) (omega arith)

  in_list {ℓ} : {A : Type ℓ} (xs : List A) (i : ℕ) (x : A) → get_elem? xs i ≡ some x → i < length xs
  in_list [] i x h = cc
  in_list (y ∷ ys) zero x h = omega arith
  in_list (y ∷ ys) (suc i) x h = omega (arith, in_list ys i x h)

  finished :
      (commits : Bool) (observed : Option FileInfo) (e : Engine) (p : Pull) (stored : FileInfo)
      → (finish_pull commits observed e p).1 ≡ ok stored
      → is_complete p.written ≡ true
  unfolding finish_pull
  finished commits observed e p stored h = elim (Bool-cases (is_complete p.written)) [
    | inl whole ↦ whole
    | inr open_block ↦ (let bad : err block_missing ≡ ok stored = rw open_block at h in cc)
  ]

  -- A pull that `Finish` lets through holds the winner of its name: the temp has exactly the size that the
  -- entry says, and each block of the block list hashes to what is recorded for it. So it is whatever an
  -- aborted pull had left, whatever local files gave, and whatever runs came from the peer, good, bad and
  -- misaligned ones in any order, in so far as writes of runs get onto the disk, or the pull is given up.
  -- The entry has a block size, and files that share a block's hash have a block of its length.
  pub finished_download :
      (e : Engine) (name : FileName) (p : Pull) (commits : Bool) (observed : Option FileInfo)
      (stored : FileInfo)
      → Download e name p
      → (finish_pull commits observed e p).1 ≡ ok stored
      → IsWinner e name p.info × (p.temp.size ≡ p.info.size) × ((i : ℕ) → Hashes sum p i)
  finished_download e name p commits observed stored d h =
      let (intact, winner) = Download-Intact e name p d in
      let whole : is_complete p.written ≡ true = finished commits observed e p stored h in
      (
        winner,
        intact.sized,
        λ i b at_i.
            intact.hashed i
              (all_marked p.written i whole
                (omega (arith, in_list p.info.blocks i b at_i, intact.marked_all)))
              b at_i,
      )
