-- ===== src/Pull/Runs.antt =====
-- pull_run.go, `ReceiveBlocks`: what its check of a run establishes.
use cross_sync.Pull.Blocks.{block_size_at-short, block_size_at-le, block_size_at-fits}
use cross_sync.Hash.{Bytes, effective_block_size}
use native.Mathlib.Decide.{ℕ_discrete}
use cross_sync.Base.{
  ℕ, nat_eq, list_eq, List, [], arith, drop, get_elem?, inl, inr, length, refl, some, suc, take,
  ◌*◌, ◌+◌, ◌-◌, ◌<◌, ◌∷◌, ◌≡◌, ◌≤◌, ◌⊎◌, Bool-cases, drop-drop, eq_of_test, length-drop, ltb, none,
  zero, ◌==◌, ◌∙◌,
}
use mathlib.Core.Option.{some-injective}
use mathlib.Core.Path.{subst}
use cross_sync.Index.Files.{FileInfo}
use cross_sync.Pull.{block_size_at, verify_run}

-- The bytes of one block of a run.
pub record IsBlock (sum : Bytes → Bytes) (fi : FileInfo) (idx k : ℕ) (h rest : Bytes) : Type 0 where
  pub inside :
      (k * effective_block_size fi.block_size + block_size_at fi (idx + k) ≤ length rest)
      ⊎ (block_size_at fi (idx + k) ≡ 0)
  pub hashed :
      sum (take (block_size_at fi (idx + k)) (drop (k * effective_block_size fi.block_size) rest))
      ≡ h

-- A run of bytes holds the blocks from `idx` up to `end`, in order.
pub record IsRun (sum : Bytes → Bytes) (fi : FileInfo) (idx : ℕ) (hashes : List Bytes)
    (rest : Bytes) (end : ℕ) : Type 0 where
  pub forward : idx ≤ end
  pub within : length rest ≤ (end - idx) * effective_block_size fi.block_size
  pub fits : (length rest ≡ 0) ⊎ (idx * effective_block_size fi.block_size + length rest ≤ fi.size)
  pub block :
      (k : ℕ) (h : Bytes)
      → idx + k < end
      → get_elem? hashes k ≡ some h
      → IsBlock sum fi idx k h rest

mul_suc_left : (k bs : ℕ) → suc k * bs ≡ bs + k * bs
mul_suc_left k bs = grind arith

mul_one_more : (d bs : ℕ) → (d + 1) * bs ≡ d * bs + bs
mul_one_more d bs = grind arith

module _ (sum : Bytes → Bytes) (fi : FileInfo) where
  empty-IsRun : (idx : ℕ) (hashes : List Bytes) → IsRun sum fi idx hashes [] idx
  empty-IsRun idx hashes = record {
    forward = omega arith;
    within = omega arith;
    fits = inl refl;
    block = λ k h low at_k. absurd (omega arith);
  }

  -- The block in front of a run.
  pub front-IsBlock :
      (idx : ℕ) (h rest : Bytes)
      → block_size_at fi idx ≤ length rest
      → sum (take (block_size_at fi idx) rest) ≡ h
      → IsBlock sum fi idx 0 h rest
  front-IsBlock idx h rest enough hashed =
      let e : idx + 0 ≡ idx = omega arith in
      let z : 0 * effective_block_size fi.block_size ≡ 0 = omega arith in
      record { inside = rw (e, z) (inl (omega arith)); hashed = rw (e, z) hashed }

  later-IsBlock :
      (idx k : ℕ) (h rest : Bytes)
      → IsBlock sum fi (idx + 1) k h (drop (block_size_at fi idx) rest)
      → block_size_at fi idx ≤ length rest
      → IsBlock sum fi idx (suc k) h rest
  later-IsBlock idx k h rest b enough =
      let e : idx + suc k ≡ idx + 1 + k = omega arith in
      elim (ℕ_discrete (block_size_at fi idx) (effective_block_size fi.block_size)) [
        | yes full ↦
            let bs : ℕ = effective_block_size fi.block_size in
            let total : suc k * bs ≡ block_size_at fi idx + k * bs = rw full (mul_suc_left k bs) in
            let left : length (drop (block_size_at fi idx) rest)
                ≡ length rest - block_size_at fi idx =
              length-drop (block_size_at fi idx) rest in
            record {
              inside =
                  rw (e, total)
                    (elim b.inside [ inl i ↦ inl (omega arith) | inr none_left ↦ inr none_left ]);
              hashed =
                  rw (e, total) (rw (← drop-drop (k * bs) (block_size_at fi idx) rest) b.hashed);
            }
        | no short ↦
            let none_left : block_size_at fi (idx + 1 + k) ≡ 0 =
              block_size_at-short fi idx (idx + 1 + k) (omega arith) short in
            record {
              inside = rw e (inr none_left);
              hashed = rw (e, none_left) (rw none_left at b.hashed);
            }
      ]

  front_fits :
      (idx : ℕ) (rest : Bytes)
      → block_size_at fi idx ≤ length rest
      → (length (drop (block_size_at fi idx) rest) ≡ 0)
        ⊎ ((idx + 1) * effective_block_size fi.block_size
              + length (drop (block_size_at fi idx) rest)
            ≤ fi.size)
      → (length rest ≡ 0) ⊎ (idx * effective_block_size fi.block_size + length rest ≤ fi.size)
  front_fits idx rest enough fits = elim fits [
    | inr f ↦ inr (
        omega (
          arith,
          mul_one_more idx (effective_block_size fi.block_size),
          length-drop (block_size_at fi idx) rest,
          block_size_at-le fi idx,
        ))
    | inl nothing ↦ elim (ℕ_discrete (block_size_at fi idx) 0) [
      | yes z ↦ inl (omega (arith, length-drop (block_size_at fi idx) rest))
      | no nz ↦ inr (
          omega (
            arith,
            block_size_at-fits fi idx (omega arith),
            length-drop (block_size_at fi idx) rest,
          ))
    ]
  ]

  longer-IsBlock :
      (idx : ℕ) (h : Bytes) (hashes : List Bytes) (rest : Bytes) (end : ℕ)
      → block_size_at fi idx ≤ length rest
      → sum (take (block_size_at fi idx) rest) ≡ h
      → IsRun sum fi (idx + 1) hashes (drop (block_size_at fi idx) rest) end
      → (k : ℕ) (h' : Bytes) → idx + k < end
      → get_elem? (h ∷ hashes) k ≡ some h'
      → IsBlock sum fi idx k h' rest
  longer-IsBlock idx h hashes rest end enough hashed r zero h' low at_k =
      front-IsBlock idx h' rest enough (hashed ∙ some-injective _ _ at_k)
  longer-IsBlock idx h hashes rest end enough hashed r (suc k) h' low at_k =
      later-IsBlock idx k h' rest (r.block k h' (omega arith) at_k) enough

  longer-IsRun :
      (idx : ℕ) (h : Bytes) (hashes : List Bytes) (rest : Bytes) (end : ℕ)
      → block_size_at fi idx ≤ length rest
      → sum (take (block_size_at fi idx) rest) ≡ h
      → IsRun sum fi (idx + 1) hashes (drop (block_size_at fi idx) rest) end
      → IsRun sum fi idx (h ∷ hashes) rest end
  longer-IsRun idx h hashes rest end enough hashed r = record {
    forward = omega (arith, r.forward);
    within = grind (
      arith,
      length-drop (block_size_at fi idx) rest,
      block_size_at-le fi idx,
      mul_one_more (end - (idx + 1)) (effective_block_size fi.block_size),
    );
    fits = front_fits idx rest enough r.fits;
    block = λ k h' low at_k. longer-IsBlock idx h hashes rest end enough hashed r k h' low at_k;
  }

  pub verify_run-IsRun :
      (idx : ℕ) (hashes : List Bytes) (rest : Bytes) (end : ℕ)
      → verify_run sum fi idx hashes rest ≡ some end
      → IsRun sum fi idx hashes rest end
  unfolding verify_run
  verify_run-IsRun idx hashes [] end v =
      subst (λ t. IsRun sum fi idx hashes [] t) (some-injective idx end v) (empty-IsRun idx hashes)
  verify_run-IsRun idx [] (b ∷ rest) end v = cc
  verify_run-IsRun idx (h ∷ hashes) (b ∷ rest) end v =
      elim (Bool-cases (ltb (length (b ∷ rest)) (block_size_at fi idx))) [
        | inl short ↦ (let bad : none ≡ some end = rw short at v in cc)
        | inr enough ↦ elim (Bool-cases (sum (take (block_size_at fi idx) (b ∷ rest)) == h)) [
          | inr other ↦ (let bad : none ≡ some end = rw (enough, other) at v in cc)
          | inl same ↦
              longer-IsRun idx h hashes (b ∷ rest) end (ground arith)
                (eq_of_test (sum (take (block_size_at fi idx) (b ∷ rest))) h same)
                (verify_run-IsRun (idx + 1) hashes (drop (block_size_at fi idx) (b ∷ rest)) end
                  (rw (enough, same) at v))
        ]
      ]
