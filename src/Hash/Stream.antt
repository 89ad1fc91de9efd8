-- ===== src/Hash/Stream.antt =====
-- hash.go, `BlockHashes`: the streaming loop against the blocks of the whole stream.
use mathlib.Core.List.{append_assoc, append-nil, map-append}
use cross_sync.Base.{
  ℕ, All, All-snoc, List, [], arith, length, map, min, refl, take, ◌++◌, ◌+◌, ◌<◌, ◌∷◌, ◌≡◌,
  Bool-cases, ap, drop, eq_of_test, inl, inr, length-append, length-drop, length-take, some, suc,
  take-append-drop, true, zero, ◌-◌, ◌==◌, ◌∙◌, ◌≤◌, nat_eq, false,
}
use cross_sync.Hash.{
  Bytes, Hasher, absorb, flatten, block_hashes, effective_block_size, feed, finish, read_all,
}

-- The hash of a trailing partial block, if there is one.
abbrev pub last_hash : (Bytes → Bytes) → Bytes → List Bytes
last_hash sum [] = []
last_hash sum (b ∷ bs) = sum (b ∷ bs) ∷ []

pub flatten-append : (xs ys : List Bytes) → flatten (xs ++ ys) ≡ flatten xs ++ flatten ys
unfolding flatten
flatten-append [] ys = refl
flatten-append (x ∷ xs) ys = rw (flatten-append xs ys, append_assoc x)

module _ (sum : Bytes → Bytes) (bs : ℕ) (positive : 0 < bs) where
  -- The hasher after the bytes `seen`: whole blocks, each hashed, and the block that is open.
  record Tracks (s : Hasher) (seen : Bytes) : Type 0 where
    full : List Bytes
    bytes : flatten full ++ s.written ≡ seen
    sized : All (λ b. length b ≡ bs) full
    hashed : s.hashes ≡ map sum full
    filled : length s.written + s.remaining ≡ bs
    more : 0 < s.remaining

  closed :
      (s : Hasher) (part seen : Bytes) (t : Tracks s seen)
      → length (s.written ++ part) ≡ bs
      → Tracks
          (record {
            written = [];
            remaining = bs;
            hashes = s.hashes ++ (sum (s.written ++ part) ∷ []);
          })
          (seen ++ part)
  unfolding flatten
  closed s part seen t whole = record {
    full = t.full ++ ((s.written ++ part) ∷ []);
    bytes =
        rw (append-nil, flatten-append t.full, append-nil)
          (rw (← append_assoc (flatten t.full) s.written part, t.bytes) refl);
    sized = All-snoc _ t.full _ t.sized whole;
    hashed = rw (t.hashed, map-append);
    filled = omega arith;
    more = positive;
  }

  absorb-Tracks :
      (s : Hasher) (rest seen : Bytes)
      → Tracks s seen
      → Tracks (absorb sum bs s rest) (seen ++ take (min (length rest) s.remaining) rest)
  unfolding absorb
  absorb-Tracks s rest seen t =
      let took = min (length rest) s.remaining in
      let part = take took rest in
      let taken : length part ≡ took = omega (arith, length-take took rest) in
      let grown : length (s.written ++ part) ≡ length s.written + took =
        length-append s.written part ∙ ap (λ n. length s.written + n) taken in
      elim (Bool-cases ((s.remaining - took) == 0)) [
        | inl done ↦
            let reached : s.remaining - took ≡ 0 = eq_of_test (s.remaining - took) 0 done in
            rw done (closed s part seen t (omega (arith, grown, reached, t.filled)))
        | inr open_block ↦
            let left : 0 < s.remaining - took = ground arith in
            rw open_block (record {
              full = t.full;
              bytes = rw (← append_assoc (flatten t.full) s.written part, t.bytes) refl;
              sized = t.sized;
              hashed = t.hashed;
              filled = omega (arith, grown, t.filled);
              more = left;
            })
      ]

  -- Fuel for each byte of the read is enough.
  feed-Tracks :
      (fuel : ℕ) (s : Hasher) (rest seen : Bytes)
      → length rest ≤ fuel
      → Tracks s seen
      → Tracks (feed sum bs fuel s rest) (seen ++ rest)
  unfolding feed
  feed-Tracks zero s [] seen enough t = rw append-nil t
  feed-Tracks zero s (b ∷ rest) seen enough t = elim enough [ ]
  feed-Tracks (suc fuel) s [] seen enough t = rw append-nil t
  feed-Tracks (suc fuel) s (b ∷ rest) seen enough t =
      let took = min (length (b ∷ rest)) s.remaining in
      let shorter : length (drop took (b ∷ rest)) ≤ fuel =
        omega (arith, length-drop took (b ∷ rest), t.more) in
      let later =
        feed-Tracks fuel (absorb sum bs s (b ∷ rest)) (drop took (b ∷ rest)) _ shorter
          (absorb-Tracks s (b ∷ rest) seen t) in
      rw (append_assoc seen, take-append-drop took (b ∷ rest)) at later

  read_all-Tracks :
      (s : Hasher) (reads : List Bytes) (seen : Bytes)
      → Tracks s seen
      → Tracks (read_all sum bs s reads) (seen ++ flatten reads)
  unfolding read_all flatten
  read_all-Tracks s [] seen t = rw append-nil t
  read_all-Tracks s (chunk ∷ reads) seen t = rw (← append_assoc seen) (
      read_all-Tracks (feed sum bs (length chunk) s chunk) reads (seen ++ chunk)
        (feed-Tracks (length chunk) s chunk seen (omega arith) t))

  finish_lem :
      (written : Bytes) (remaining : ℕ) (hashes : List Bytes) (full : List Bytes)
      → length written + remaining ≡ bs
      → hashes ≡ map sum full
      → finish sum bs (record { written = written; remaining = remaining; hashes = hashes })
        ≡ map sum full ++ last_hash sum written
  unfolding finish
  finish_lem [] remaining hashes full filled hashed =
      let same : (remaining == bs) ≡ true = ground arith in rw (same, hashed, append-nil)
  finish_lem (b ∷ written) remaining hashes full filled hashed =
      let short : (remaining == bs) ≡ false = ground arith in rw (short, hashed)

-- Hashing a stream that ends gives one hash for each whole block, in order, and one for a shorter
-- block that is left over, if any; it does not matter how the reads cut the bytes. A block size of
-- 0 stands for the smallest one.
pub block_hashes_lem :
    (sum : Bytes → Bytes) (reads : List Bytes) (block_size : ℕ)
    → (full : List Bytes) × (tail : Bytes) × (flatten full ++ tail ≡ flatten reads)
      × All (λ b. length b ≡ effective_block_size block_size) full
      × (length tail < effective_block_size block_size)
      × (block_hashes sum reads true block_size ≡ some (map sum full ++ last_hash sum tail))
unfolding block_hashes flatten
block_hashes_lem sum reads block_size =
    let bs = effective_block_size block_size in
    let positive : 0 < bs = ground arith in
    let start : Hasher = record { written = []; remaining = bs; hashes = [] } in
    let first : Tracks sum bs positive start [] = record {
      full = [];
      bytes = refl;
      sized = tt;
      hashed = refl;
      filled = omega arith;
      more = positive;
    } in
    let t = read_all-Tracks sum bs positive start reads [] first in
    let s = read_all sum bs start reads in
    (
      t.full,
      s.written,
      t.bytes,
      t.sized,
      omega (arith, t.filled, t.more),
      ap some (finish_lem sum bs positive s.written s.remaining s.hashes t.full t.filled t.hashed),
    )
