-- ===== src/Pull/Blocks.antt =====
-- Where blocks lie in a file: apart from one another, full-sized but for the last one.
use cross_sync.Hash.{effective_block_size}
use cross_sync.Base.{ℕ, arith, ◌*◌, ◌+◌, ◌-◌, ◌<◌, ◌≡◌, ◌≢◌, ◌≤◌}
use cross_sync.Index.Files.{FileInfo}
use cross_sync.Pull.{block_size_at}

pub block_size_at-le :
    (fi : FileInfo) (i : ℕ) → block_size_at fi i ≤ effective_block_size fi.block_size
unfolding block_size_at
block_size_at-le fi i = ground arith

pub mul_step : (i j bs : ℕ) → i < j → i * bs + bs ≤ j * bs
mul_step i j bs h =
    let d : ℕ = j - i - 1 in let e : j ≡ i + 1 + d = omega arith in rw e (grind arith)

pub mul_split : (i k bs : ℕ) → (i + k) * bs ≡ i * bs + k * bs
mul_split i k bs = grind arith

-- A block behind a short one is empty.
pub block_size_at-short :
    (fi : FileInfo) (i j : ℕ)
    → i < j
    → block_size_at fi i ≢ effective_block_size fi.block_size
    → block_size_at fi j ≡ 0
unfolding block_size_at
block_size_at-short fi i j h short =
    let far : i * effective_block_size fi.block_size + effective_block_size fi.block_size
        ≤ j * effective_block_size fi.block_size =
      mul_step i j (effective_block_size fi.block_size) h in
    ground arith

-- A block that is not empty ends within the file.
pub block_size_at-fits :
    (fi : FileInfo) (i : ℕ)
    → 0 < block_size_at fi i
    → i * effective_block_size fi.block_size + block_size_at fi i ≤ fi.size
unfolding block_size_at
block_size_at-fits fi i h = ground arith

pub mul_mono : (i j bs : ℕ) → i ≤ j → i * bs ≤ j * bs
mul_mono i j bs h = let e : j ≡ i + (j - i) = omega arith in rw e (grind arith)
