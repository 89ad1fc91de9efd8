-- ===== src/Hash.antt =====
-- internal/hash/hash.go: block sizes, block hashes of a stream, and their flat form in the index.
-- SHA-256 is the function `sum` of the bytes that a hasher was given; its results have 32 bytes
-- where a theorem says so. A file's size is not negative.
pub mod Blocks
pub mod Stream
pub mod Flat
mod Tests
use cross_sync.Base.{
  ℕ, Bool, List, Option, [], drop, false, if◌then◌else◌, leb, length, ltb, min, none, some, suc,
  take, true, zero, ◌&&◌, ◌*◌, ◌++◌, ◌+◌, ◌-◌, ◌/◌, ◌==◌, ◌^◌, ◌||◌, ◌∷◌, nat_eq, list_eq,
}

abbrev pub Bytes : Type 0
Bytes = List ℕ

abbrev pub min_block_size : ℕ
min_block_size = 128 * 1024

abbrev pub max_block_size : ℕ
max_block_size = 16 * 1024 * 1024

abbrev pub sha256_size : ℕ
sha256_size = 32

-- `blocks <= 2000`, of an int64 sum that turns negative past its range.
abbrev pub few_blocks : ℕ → ℕ → Bool
few_blocks size bs = leb (2 ^ 63) (size + bs - 1) || leb ((size + bs - 1) / bs) 2000

-- The loop of `BlockSizeForSize`, on fuel.
unfoldable pub grow : ℕ → ℕ → ℕ → ℕ
grow zero size bs = bs
grow (suc fuel) size bs =
    let bigger = grow fuel size (bs * 2) in
    if ltb bs max_block_size then (if few_blocks size bs then bs else bigger) else bs

-- Seven doublings lead from the smallest block size to the largest.
unfoldable pub block_size_for_size : ℕ → ℕ
block_size_for_size size = if size == 0 then min_block_size else grow 8 size min_block_size

-- `BlockHashes`: what the loop keeps. `written` is what the hasher has been given since its reset.
pub record Hasher : Type 0 where
  pub written : Bytes
  pub remaining : ℕ
  pub hashes : List Bytes

module _ (sum : Bytes → Bytes) (block_size : ℕ) where
  -- One round of the loop over a buffer, of which `rest` is what stands behind `off`.
  unfoldable pub absorb : Hasher → Bytes → Hasher
  absorb s rest =
      let took = min (length rest) s.remaining in
      let written = s.written ++ take took rest in
      let left = s.remaining - took in
      if left == 0
      then record { written = []; remaining = block_size; hashes = s.hashes ++ (sum written ∷ []) }
      else record { written = written; remaining = left; hashes = s.hashes }

  -- The loop over the bytes of one read, on fuel.
  unfoldable pub feed : ℕ → Hasher → Bytes → Hasher
  unfolding absorb
  feed zero s rest = s
  feed (suc fuel) s rest = elim rest [
    | [] ↦ s
    | b ∷ bs ↦ feed fuel (absorb s (b ∷ bs)) (drop (min (length (b ∷ bs)) s.remaining) (b ∷ bs))
  ]

  -- The reads, each the bytes that it returned. The flag says that they end in EOF, not in an error.
  unfoldable pub read_all : Hasher → List Bytes → Hasher
  unfolding feed
  read_all s [] = s
  read_all s (chunk ∷ chunks) = read_all (feed (length chunk) s chunk) chunks

  unfoldable pub finish : Hasher → List Bytes
  finish s = if s.remaining == block_size then s.hashes else s.hashes ++ (sum s.written ∷ [])

abbrev pub effective_block_size : ℕ → ℕ
effective_block_size block_size = if block_size == 0 then min_block_size else block_size

unfoldable pub block_hashes : (Bytes → Bytes) → List Bytes → Bool → ℕ → Option (List Bytes)
unfolding read_all finish
block_hashes sum reads eof block_size =
    let bs = effective_block_size block_size in
    let start : Hasher = record { written = []; remaining = bs; hashes = [] } in
    if eof then some (finish sum bs (read_all sum bs start reads)) else none

-- `HashBytes`
unfoldable pub hash_bytes : (Bytes → Bytes) → Bytes → Bytes
hash_bytes sum b = sum b

-- `FileHashes`, of a file with its size and its reads; `none` where opening, stat or a read fails.
unfoldable pub file_hashes :
    (Bytes → Bytes) → Option ℕ → List Bytes → Bool → ℕ → Option (ℕ × List Bytes)
unfolding block_hashes block_size_for_size
file_hashes sum stat reads eof block_size = elim stat [
  | none ↦ none
  | some size ↦
      let bs = if block_size == 0 then block_size_for_size size else block_size in
      elim (block_hashes sum reads eof bs) [ none ↦ none | some hashes ↦ some (bs, hashes) ]
]

-- `EqualHashes`
unfoldable pub equal_hashes : List Bytes → List Bytes → Bool
equal_hashes [] [] = true
equal_hashes [] (b ∷ bs) = false
equal_hashes (a ∷ as') [] = false
equal_hashes (a ∷ as') (b ∷ bs) = a == b && equal_hashes as' bs

unfoldable pub flatten : List Bytes → Bytes
flatten [] = []
flatten (h ∷ hashes) = h ++ flatten hashes

-- The loop of `Unflatten`, on fuel.
unfoldable pub cut : ℕ → Bytes → List Bytes
cut zero b = []
cut (suc fuel) b =
    let rest = cut fuel (drop sha256_size b) in
    if leb sha256_size (length b) then take sha256_size b ∷ rest else []

unfoldable pub unflatten : Bytes → List Bytes
unfolding cut
unflatten b = cut (length b) b
