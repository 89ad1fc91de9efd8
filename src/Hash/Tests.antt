-- ===== src/Hash/Tests.antt =====
-- hash.go: runs on short byte strings, with a checksum that sums nothing up.
use cross_sync.Base.{
  nat_eq, list_eq, All, List, [], arith, length, map, refl, some, true, ◌++◌, ◌<◌, ◌∷◌, ◌≡◌, suc,
  zero, ℕ,
}
use cross_sync.Hash.{
  Bytes, block_hashes, block_size_for_size, unflatten, flatten, effective_block_size, grow,
}
use cross_sync.Hash.Stream.{block_hashes_lem, last_hash}
use cross_sync.Hash.Blocks.{block_size_for_size-IsBlockSize, IsBlockSize}
use cross_sync.Hash.Flat.{unflatten-flatten}

-- A stand-in for the checksum.
abbrev same_bytes : Bytes → Bytes
same_bytes b = b

abbrev three_reads : List Bytes
three_reads = (1 ∷ 2 ∷ []) ∷ (3 ∷ 4 ∷ 5 ∷ []) ∷ (6 ∷ []) ∷ []

block_hashes_run :
    block_hashes same_bytes three_reads true 4 ≡ some ((1 ∷ 2 ∷ 3 ∷ 4 ∷ []) ∷ (5 ∷ 6 ∷ []) ∷ [])
unfolding block_hashes
block_hashes_run = refl

block_hashes_lem_example :
    (full : List Bytes) × (tail : Bytes) × (flatten full ++ tail ≡ flatten three_reads)
    × All (λ b. length b ≡ effective_block_size 4) full
    × (length tail < effective_block_size 4)
    × (block_hashes same_bytes three_reads true 4
        ≡ some (map same_bytes full ++ last_hash same_bytes tail))
block_hashes_lem_example = block_hashes_lem same_bytes three_reads 4

block_size_for_size_run : block_size_for_size 1_000_000_000 ≡ 524_288
unfolding block_size_for_size grow
block_size_for_size_run = refl

block_size_for_size-IsBlockSize_example :
    IsBlockSize 1_000_000_000 (block_size_for_size 1_000_000_000)
block_size_for_size-IsBlockSize_example =
    block_size_for_size-IsBlockSize 1_000_000_000 (omega arith) (omega arith)

abbrev repeated : ℕ → Bytes
repeated zero = []
repeated (suc n) = 7 ∷ repeated n

abbrev a_hash : Bytes
a_hash = repeated 32

unflatten-flatten_example :
    unflatten (flatten (a_hash ∷ a_hash ∷ []) ++ (1 ∷ 2 ∷ [])) ≡ a_hash ∷ a_hash ∷ []
unflatten-flatten_example =
    unflatten-flatten (a_hash ∷ a_hash ∷ []) (1 ∷ 2 ∷ []) (refl, (refl, tt)) (omega arith)
