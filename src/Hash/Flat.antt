-- ===== src/Hash/Flat.antt =====
-- hash.go, `EqualHashes`, `Flatten` and `Unflatten`.
use mathlib.Core.List.{append_assoc}
use cross_sync.Base.{
  list_eq, ℕ, All, List, [], arith, length, refl, suc, true, zero, ◌++◌, ◌<◌, ◌↔◌, ◌∷◌, ◌≡◌, drop,
  drop-append_length, length-append, take, take-append_length, nat_eq, ◌*◌,
}
use cross_sync.Hash.{Bytes, cut, equal_hashes, flatten, sha256_size, unflatten}

-- `EqualHashes` accepts two lists exactly when they hold the same hashes in the same order.
equal_hashes_iff : (a b : List Bytes) → (equal_hashes a b ≡ true) ↔ (a ≡ b)
unfolding equal_hashes
equal_hashes_iff [] [] = (λ h. refl, λ h. refl)
equal_hashes_iff [] (y ∷ ys) = (λ h. cc, λ h. cc)
equal_hashes_iff (x ∷ xs) [] = (λ h. cc, λ h. cc)
equal_hashes_iff (x ∷ xs) (y ∷ ys) =
    ground (arith, (list_eq {A = ℕ}).equals_iff x y, equal_hashes_iff xs ys)

abbrev pub IsHash : Bytes → Type 0
IsHash h = length h ≡ sha256_size

take_hash : (h ys : Bytes) → IsHash h → take sha256_size (h ++ ys) ≡ h
take_hash h ys e = rw (← e) (take-append_length h ys)

drop_hash : (h ys : Bytes) → IsHash h → drop sha256_size (h ++ ys) ≡ ys
drop_hash h ys e = rw (← e) (drop-append_length h ys)

cut-flatten :
    (fuel : ℕ) (hashes : List Bytes) (rest : Bytes)
    → All IsHash hashes
    → length rest < sha256_size
    → length hashes < fuel
    → cut fuel (flatten hashes ++ rest) ≡ hashes
unfolding cut flatten
cut-flatten zero hashes rest valid short enough = absurd (omega arith)
cut-flatten (suc fuel) [] rest valid short enough = ground arith
cut-flatten (suc fuel) (h ∷ hs) rest valid short enough =
    rw (append_assoc h, take_hash h (flatten hs ++ rest) valid.0, drop_hash h _ valid.0)
      (ground (arith, length-append h (flatten hs ++ rest), cut-flatten fuel hs rest valid.1 short))

length-flatten :
    (hashes : List Bytes) → All IsHash hashes → length hashes * 32 ≡ length (flatten hashes)
unfolding flatten
length-flatten [] valid = omega arith
length-flatten (h ∷ hs) valid =
    omega (arith, valid.0, length-append h (flatten hs), length-flatten hs valid.1)

cut_short : (fuel : ℕ) (rest : Bytes) → length rest < sha256_size → cut fuel rest ≡ []
unfolding cut
cut_short zero rest short = refl
cut_short (suc fuel) rest short = ground arith

-- What the index stores of a list of SHA-256 hashes is read back as that list, also with fewer than
-- 32 stray bytes behind it.
pub unflatten-flatten :
    (hashes : List Bytes) (rest : Bytes)
    → All IsHash hashes
    → length rest < sha256_size
    → unflatten (flatten hashes ++ rest) ≡ hashes
unfolding unflatten flatten
unflatten-flatten [] rest valid short = cut_short (length rest) rest short
unflatten-flatten (h ∷ hs) rest valid short =
    cut-flatten (length (flatten (h ∷ hs) ++ rest)) (h ∷ hs) rest valid short
      (omega (arith, length-append (flatten (h ∷ hs)) rest, length-flatten (h ∷ hs) valid))
