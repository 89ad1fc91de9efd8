-- ===== src/Temp.antt =====
-- Package os, as pulls use it: a file's bytes, `ReadAt` and `WriteAt`. A byte past the size is never read.
-- How many bytes a write gets onto the disk is the caller's parameter.
pub mod Laws
use cross_sync.Base.{
  nat_eq, ℕ, Bool, Option, [], if◌then◌else◌, leb, length, ltb, max, min, none, some, suc, zero,
  ◌&&◌, ◌+◌, ◌-◌, ◌==◌, ◌||◌, ◌∷◌,
}
use cross_sync.Hash.{Bytes}

pub record Content : Type 0 where
  pub size : ℕ
  pub byte : ℕ → ℕ

-- The `n` bytes from `off` on.
unfoldable pub bytes_from : (ℕ → ℕ) → ℕ → ℕ → Bytes
bytes_from byte off zero = []
bytes_from byte off (suc n) = byte off ∷ bytes_from byte (off + 1) n

-- `ReadAt` of a buffer of `n` bytes, which fails on a short read.
unfoldable pub read_at : Content → ℕ → ℕ → Option Bytes
read_at f off n = if n == 0 || leb (off + n) f.size then some (bytes_from f.byte off n) else none

abbrev pub byte_at : Bytes → ℕ → ℕ
byte_at [] i = 0
byte_at (b ∷ bs) zero = b
byte_at (b ∷ bs) (suc i) = byte_at bs i

-- The bytes of a file after `n` bytes of `bytes` were written at `off`.
unfoldable pub overlay : (ℕ → ℕ) → ℕ → ℕ → Bytes → ℕ → ℕ
overlay old off n bytes j = if leb off j && ltb j (off + n) then byte_at bytes (j - off) else old j

-- What a write of so many bytes at an offset gets onto the disk.
abbrev pub DiskWrites : Type 0
DiskWrites = ℕ → ℕ → ℕ

abbrev pub got : DiskWrites → ℕ → ℕ → ℕ
got disk off n = min n (disk off n)

-- `WriteAt`: the file after it, and whether all was written.
unfoldable pub write_at : DiskWrites → ℕ → Bytes → Content → Content × Bool
unfolding overlay
write_at disk off bytes f =
    let n = got disk off (length bytes) in
    let size = if n == 0 then f.size else max f.size (off + n) in
    (record { size = size; byte = overlay f.byte off n bytes }, n == length bytes)

-- `Truncate`: cut, or filled up with zeros.
unfoldable pub truncate : ℕ → Content → Content
truncate size f = record { size = size; byte = λ i. if ltb i f.size then f.byte i else 0 }
