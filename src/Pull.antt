-- ===== src/Pull.antt =====
-- engine.go and pull_run.go, `Pull`: the download of one file into a staged temp, block by block. SHA-256 is
-- `sum`, and `disk` says how much of a write gets onto the disk. Sizes and offsets are not negative. The
-- counters of bytes and files are left out.
pub mod Start
pub mod Donors
pub mod Blocks
pub mod Runs
pub mod Intact
pub mod Filled
pub mod History
pub mod Download
pub mod Tests
use cross_sync.Base.{
  ℕ, nat_eq, list_eq, Bool, List, Option, [], drop, false, get_elem?, if◌then◌else◌, leb, length,
  ltb, none, not, set, some, suc, take, true, zero, ◌&&◌, ◌*◌, ◌+◌, ◌-◌, ◌==◌, ◌||◌, ◌∷◌,
}
use cross_sync.Temp.{Content, DiskWrites, read_at, write_at}
use cross_sync.Hash.{Bytes, effective_block_size}
use cross_sync.Index.Files.{FileInfo, FileName, file, kind_beq}

-- `reused` is what a local copy gave; `donor` is set when it gave every block.
pub record Pull : Type 0 where
  pub name : FileName
  pub info : FileInfo
  pub temp : Content
  pub written : List Bool
  pub peer : ℕ
  pub donor : Option FileName
  pub reused : ℕ

-- `BlockNeed`
pub record BlockNeed : Type 0 where
  pub index : ℕ
  pub offset : ℕ
  pub size : ℕ
  pub hash : Bytes

-- `blockSizeAt`
unfoldable pub block_size_at : FileInfo → ℕ → ℕ
block_size_at fi idx =
    let bs = effective_block_size fi.block_size in
    let remain = fi.size - idx * bs in
    if remain == 0 then 0 else if ltb remain bs then remain else bs

-- The loop of `NeedBlocks` from block `i` on: the offset takes the recorded block size as it is.
unfoldable pub needs_from : FileInfo → ℕ → List Bytes → List Bool → List BlockNeed
unfolding block_size_at
needs_from fi i [] written = []
needs_from fi i (h ∷ hs) [] = []
needs_from fi i (h ∷ hs) (true ∷ ws) = needs_from fi (i + 1) hs ws
needs_from fi i (h ∷ hs) (false ∷ ws) =
    record { index = i; offset = i * fi.block_size; size = block_size_at fi i; hash = h }
    ∷ needs_from fi (i + 1) hs ws

-- `NeedBlocks`
abbrev pub need_blocks : Pull → List BlockNeed
need_blocks p = needs_from p.info 0 p.info.blocks p.written

-- The loop of `ReceiveBlocks` from block `idx` on: the index behind the run, unless it is refused.
unfoldable pub verify_run : (Bytes → Bytes) → FileInfo → ℕ → List Bytes → Bytes → Option ℕ
verify_run sum fi idx hashes [] = some idx
verify_run sum fi idx [] (b ∷ rest) = none
verify_run sum fi idx (h ∷ hashes) (b ∷ rest) =
    let size = block_size_at fi idx in
    let after = verify_run sum fi (idx + 1) hashes (drop size (b ∷ rest)) in
    if ltb (length (b ∷ rest)) size
    then none
    else if sum (take size (b ∷ rest)) == h
    then after
    else none

-- `for i := first; i < idx; i++ { p.written[i] = true }`, of `n` rounds
unfoldable pub mark_run : List Bool → ℕ → ℕ → List Bool
mark_run written first zero = written
mark_run written first (suc n) = mark_run (set written first true) (first + 1) n

abbrev pub has_no_blocks : FileInfo → Bool
has_no_blocks fi = not (kind_beq fi.type file) || fi.size == 0 || length fi.blocks == 0

abbrev pub filled_all : ℕ → ℕ → Bool
filled_all filled needed = not (filled == 0) && filled == needed

module _ (sum : Bytes → Bytes) (disk : DiskWrites) where
  -- `WriteAt` on the temp, and the blocks that count as written if it works.
  abbrev pub write_temp : Pull → ℕ → Bytes → List Bool → Pull × Bool
  write_temp p off bytes marked =
      let (temp, all) = write_at disk off bytes p.temp in
      (record p { temp = temp; written = if all then marked else p.written }, all)

  -- One block, at an offset: refused unless its hash is the recorded one.
  abbrev pub write_block : Pull → ℕ → ℕ → Bytes → Pull × Bool
  write_block p idx off bytes = elim (get_elem? p.info.blocks idx) [
    | none ↦ (p, false)
    | some h ↦
        if sum bytes == h then write_temp p off bytes (set p.written idx true) else (p, false)
  ]

  -- `ReceiveBlock`
  unfoldable pub receive_block : Pull → ℕ → Bytes → Pull × Bool
  receive_block p idx bytes = write_block p idx (idx * p.info.block_size) bytes

  -- `writeLocalBlock`
  unfoldable pub write_local_block : Pull → ℕ → Bytes → Pull × Bool
  write_local_block p idx bytes =
      write_block p idx (idx * effective_block_size p.info.block_size) bytes

  -- `ReceiveBlocks`
  unfoldable pub receive_blocks : Pull → ℕ → Bytes → Pull × Bool
  unfolding verify_run mark_run
  receive_blocks p first bytes =
      if leb (length p.info.blocks) first
      then (p, false)
      else elim (verify_run sum p.info first (drop first p.info.blocks) bytes) [
        | none ↦ (p, false)
        | some end ↦
            write_temp p (first * effective_block_size p.info.block_size) bytes
              (mark_run p.written first (end - first))
      ]

  -- The loop of `fillFromLocalCopy` over the missing blocks: the pull, and how many were filled.
  unfoldable pub fill_loop : Content → List BlockNeed → Pull → ℕ → Pull × ℕ
  fill_loop source [] p filled = (p, filled)
  fill_loop source (need ∷ needs) p filled = elim (read_at source need.offset need.size) [
    | none ↦ (p, filled)
    | some bytes ↦
        if not (sum bytes == need.hash)
        then (p, filled)
        else (let (p', all) = write_temp p need.offset bytes (set p.written need.index true) in
            let more =
              fill_loop source needs (record p' { reused = p'.reused + length bytes })
                (filled + 1) in
            if all then more else (p', filled))
  ]

  -- `fillFromLocalCopy`, for the donor that the engine found, and its bytes if it opens.
  unfoldable pub fill_from_local_copy : Option (FileName × Option Content) → Pull → Pull
  unfolding fill_loop needs_from
  fill_from_local_copy donor p = if has_no_blocks p.info then p else elim donor [
    | none ↦ p
    | some (name, none) ↦ p
    | some (name, some source) ↦
        let needs = need_blocks p in
        let (p', filled) = fill_loop source needs p 0 in
        if filled_all filled (length needs) then record p' { donor = some name } else p'
  ]

-- `Finish`: whether it has to stop for a missing block.
unfoldable pub is_complete : List Bool → Bool
is_complete [] = true
is_complete (w ∷ ws) = w && is_complete ws
