-- ===== src/Hash/Blocks.antt =====
-- hash.go, `BlockSizeForSize`.
use cross_sync.Base.{
  ℕ, arith, false, suc, true, zero, ◌*◌, ◌/◌, ◌^◌, ◌≡◌, ◌≤◌, ◌⊎◌, inr, ltb, ◌<◌, Bool-cases, ap,
  if◌then◌else◌, inl, lt→ltb, refl, sym, ◌∙◌, ◌==◌, nat_eq, leb, ◌+◌, ◌-◌,
}
use native.Mathlib.Nat.{pow-suc, one-le-pow, div-lt_iff_lt-mul}
use cross_sync.Hash.{few_blocks, grow, max_block_size, min_block_size, block_size_for_size}

-- The rule for a block size: it lies between the limits, is a doubling of the smallest, 2000 blocks of it hold
-- the file unless it is the largest, and 2000 of half of it do not unless it is the smallest.
pub record IsBlockSize (size bs : ℕ) : Type 0 where
  pub above : 131_072 ≤ bs
  pub below : bs ≤ 16_777_216
  pub enough : (size ≤ 2000 * bs) ⊎ (bs ≡ 16_777_216)
  pub smallest : (bs ≡ 131_072) ⊎ (2000 * (bs / 2) < size)
  pub power : (i : ℕ) × (bs ≡ 131_072 * 2 ^ i)

module _ (size bs : ℕ) (positive : 0 < bs) (fits : size + bs < 2 ^ 63) where
  few_blocks_lem : few_blocks size bs ≡ true → size ≤ 2000 * bs
  few_blocks_lem h =
      let apart : leb (2 ^ 63) (size + bs - 1) ≡ false = ground arith in
      let small : (size + bs - 1) / bs < 2001 = ground arith in
      let under : size + bs - 1 < 2001 * bs = (div-lt_iff_lt-mul positive).0 small in omega arith

  many_blocks_lem : few_blocks size bs ≡ false → 2000 * bs < size
  many_blocks_lem h = elim (Bool-cases (leb size (2000 * bs))) [
    | inr over ↦ ground arith
    | inl fit ↦
        let within : size ≤ 2000 * bs = ground arith in
        let under : size + bs - 1 < 2001 * bs = omega arith in
        let small : (size + bs - 1) / bs < 2001 = (div-lt_iff_lt-mul positive).1 under in
        absurd (ground arith)
  ]

grow-suc :
    (fuel size bs : ℕ)
    → grow (suc fuel) size bs ≡ (
        if ltb bs max_block_size
        then (if few_blocks size bs then bs else grow fuel size (bs * 2))
        else bs)
unfolding grow
grow-suc fuel size bs = refl

half_double : (bs : ℕ) → bs * 2 / 2 ≡ bs
half_double bs = omega arith

-- `d` doublings are left, and one more round of fuel.
grow_rule :
    (d i size bs : ℕ)
    → bs * 2 ^ d ≡ max_block_size
    → bs ≡ min_block_size * 2 ^ i
    → min_block_size ≤ bs
    → (bs ≡ min_block_size) ⊎ (2000 * (bs / 2) < size)
    → size + max_block_size < 2 ^ 63
    → IsBlockSize size (grow (suc d) size bs)
grow_rule zero i size bs top base low small fits =
    let whole : bs ≡ max_block_size = omega arith in
    let stops : ltb bs max_block_size ≡ false = ground arith in
    rw (grow-suc zero size bs, stops)
      (record {
        above = low;
        below = omega arith;
        enough = inr whole;
        smallest = small;
        power = (i, base);
      })
grow_rule (suc d) i size bs top base low small fits =
    let shape : bs * 2 * 2 ^ d ≡ bs * (2 ^ d * 2) = omega arith in
    let next : bs * 2 * 2 ^ d ≡ max_block_size =
      shape ∙ ap (λ t. bs * t) (sym (pow-suc 2 d)) ∙ top in
    let positive : 0 < 2 ^ d = one-le-pow d 2 (omega arith) in
    let under : bs < max_block_size = grind arith in
    rw (grow-suc (suc d) size bs, lt→ltb bs max_block_size under)
      (elim (Bool-cases (few_blocks size bs)) [
        | inl few ↦ rw few (record {
          above = low;
          below = omega arith;
          enough = inl (few_blocks_lem size bs (omega arith) (omega arith) few);
          smallest = small;
          power = (i, base);
        })
        | inr many ↦ rw many (
            grow_rule d (suc i) size (bs * 2) next (omega (arith, base, pow-suc 2 i)) (omega arith)
              (inr (rw (half_double bs) (many_blocks_lem size bs (omega arith) (omega arith) many)))
              fits)
      ])

-- The block size of a file that is not empty is 128 KiB doubled some times, at most 16 MiB. 2000 blocks of it
-- hold the file unless it is 16 MiB, and 2000 of half of it do not unless it is 128 KiB. The loop ends within
-- its fuel. So it is for each size that leaves room for one largest block in an int64: above that, the sum in
-- the source overflows and takes any block size for large enough.
pub block_size_for_size-IsBlockSize :
    (size : ℕ)
    → 0 < size
    → size + max_block_size < 2 ^ 63
    → IsBlockSize size (block_size_for_size size)
unfolding block_size_for_size
block_size_for_size-IsBlockSize size h fits =
    let nonzero : (size == 0) ≡ false = ground arith in
    rw nonzero (grow_rule 7 0 size min_block_size refl refl (omega arith) (inl refl) fits)
