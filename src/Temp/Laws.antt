-- ===== src/Temp/Laws.antt =====
-- Package os: what a read gives after a write.
use cross_sync.Base.{
  ℕ, [], arith, drop, length, refl, suc, take, zero, ◌+◌, ◌<◌, ◌∙◌, ◌∷◌, ◌≡◌, ◌≤◌, ◌⊎◌, ap, ◌-◌,
}
use cross_sync.Hash.{Bytes}
use cross_sync.Temp.{bytes_from, byte_at, overlay}

pub bytes_from-same :
    (f g : ℕ → ℕ) (p q n : ℕ)
    → ((j : ℕ) → j < n → f (p + j) ≡ g (q + j))
    → bytes_from f p n ≡ bytes_from g q n
unfolding bytes_from
bytes_from-same f g p q zero same = refl
bytes_from-same f g p q (suc n) same =
    let head : f p ≡ g q = ground (arith, same 0) in
    let tail : bytes_from f (p + 1) n ≡ bytes_from g (q + 1) n =
      bytes_from-same f g (p + 1) (q + 1) n (λ j low. ground (arith, same (j + 1))) in
    cc

-- A read that lies apart from the write.
pub bytes_from-overlay_apart :
    (old : ℕ → ℕ) (off n : ℕ) (bytes : Bytes) (p m : ℕ)
    → (p + m ≤ off) ⊎ (off + n ≤ p)
    → bytes_from (overlay old off n bytes) p m ≡ bytes_from old p m
unfolding overlay
bytes_from-overlay_apart old off n bytes p m apart =
    bytes_from-same (overlay old off n bytes) old p p m (λ j low. ground arith)

byte_at-suc :
    (b : ℕ) (bytes : Bytes) (a j : ℕ) → byte_at (b ∷ bytes) (suc a + j) ≡ byte_at bytes (a + j)
byte_at-suc b bytes a j = let e : suc a + j ≡ suc (a + j) = omega arith in rw e

bytes_from-byte_at :
    (bytes : Bytes) (a n : ℕ)
    → a + n ≤ length bytes
    → bytes_from (byte_at bytes) a n ≡ take n (drop a bytes)
unfolding bytes_from
bytes_from-byte_at bytes a zero h = refl
bytes_from-byte_at [] a (suc n) h = absurd (omega arith)
bytes_from-byte_at (b ∷ bytes) zero (suc n) h =
    let next : bytes_from (byte_at (b ∷ bytes)) 1 n ≡ bytes_from (byte_at bytes) 0 n =
      bytes_from-same (byte_at (b ∷ bytes)) (byte_at bytes) 1 0 n
        (λ j low. byte_at-suc b bytes 0 j) in
    ap (λ t. b ∷ t) (next ∙ bytes_from-byte_at bytes 0 n (omega arith))
bytes_from-byte_at (b ∷ bytes) (suc a) (suc n) h =
    bytes_from-same (byte_at (b ∷ bytes)) (byte_at bytes) (suc a) a (suc n)
      (λ j low. byte_at-suc b bytes a j)
    ∙ bytes_from-byte_at bytes a (suc n) (omega arith)

shift : (off a j : ℕ) → off + a + j - off ≡ a + j
shift off a j = omega arith

-- A read inside of what was written.
pub bytes_from-overlay_inside :
    (old : ℕ → ℕ) (off : ℕ) (bytes : Bytes) (a m : ℕ)
    → a + m ≤ length bytes
    → bytes_from (overlay old off (length bytes) bytes) (off + a) m ≡ take m (drop a bytes)
unfolding overlay
bytes_from-overlay_inside old off bytes a m h =
    bytes_from-same (overlay old off (length bytes) bytes) (byte_at bytes) (off + a) a m
      (λ j low. ground (arith, ap (byte_at bytes) (shift off a j)))
    ∙ bytes_from-byte_at bytes a m h
