-- ===== src/Pull/Intact.antt =====
-- engine.go and pull_run.go: what a pull counts as written holds bytes with the recorded hash.
use cross_sync.Pull.Blocks.{block_size_at-le, mul_split, mul_mono, mul_step}
use cross_sync.Temp.Laws.{bytes_from-overlay_apart, bytes_from-overlay_inside}
use cross_sync.Temp.{bytes_from, overlay, DiskWrites, got, write_at}
use cross_sync.Pull.Runs.{IsRun, IsBlock}
use cross_sync.Hash.{Bytes, effective_block_size}
use native.Mathlib.Nat.{le_trans}
use native.Mathlib.Decide.{dec_lt}
use mathlib.Core.Path.{subst}
use cross_sync.Base.{
  ℕ, nat_eq, list_eq, Bool, List, ap, arith, drop, get_elem?, get_elem?-set, inl, inr, length, set,
  some, suc, sym, true, zero, ◌*◌, ◌+◌, ◌<◌, ◌∙◌, ◌≡◌, ◌≤◌, ◌⊎◌, get_elem?-drop, ◌-◌, ◌≢◌,
  Bool-cases, if◌then◌else◌, max, ◌==◌, length-set, refl,
}
use cross_sync.Pull.{Pull, block_size_at, mark_run, write_temp}

-- A mark stems from the run or stood before.
pub get_elem?-mark_run :
    (marked : List Bool) (first n i : ℕ)
    → get_elem? (mark_run marked first n) i ≡ some true
    → ((first ≤ i) × (i < first + n)) ⊎ (get_elem? marked i ≡ some true)
unfolding mark_run
get_elem?-mark_run marked first zero i h = inr h
get_elem?-mark_run marked first (suc n) i h =
    elim (get_elem?-mark_run (set marked first true) (first + 1) n i h) [
      | inl (low, high) ↦ inl (omega arith, omega arith)
      | inr before ↦ elim (get_elem?-set marked first i true) [
        | inl (same, other) ↦ inr (sym same ∙ before)
        | inr (here, now) ↦ inl (omega arith, omega arith)
      ]
    ]

pub length-mark_run :
    (marked : List Bool) (first n : ℕ) → length (mark_run marked first n) ≡ length marked
unfolding mark_run
length-mark_run marked first zero = refl
length-mark_run marked first (suc n) =
    length-mark_run (set marked first true) (first + 1) n ∙ length-set marked first true

module _ (sum : Bytes → Bytes) where
  -- The bytes of block `i` hash to what is recorded.
  abbrev pub Hashes : Pull → ℕ → Type 0
  Hashes p i =
      (h : Bytes)
      → get_elem? p.info.blocks i ≡ some h
      → sum (
          bytes_from p.temp.byte (i * effective_block_size p.info.block_size)
            (block_size_at p.info i))
        ≡ h

  pub record Intact (p : Pull) : Type 0 where
    pub sized : p.temp.size ≡ p.info.size
    pub marked_all : length p.written ≡ length p.info.blocks
    pub hashed : (i : ℕ) → get_elem? p.written i ≡ some true → Hashes p i

  -- A run that was written as a whole, or over blocks that did not count as written.
  module _ (p : Pull) (first end : ℕ) (bytes : Bytes) (n : ℕ) (marked : List Bool)
      (intact : Intact p) (run : IsRun sum p.info first (drop first p.info.blocks) bytes end) where
    abbrev bs : ℕ
    bs = effective_block_size p.info.block_size

    abbrev off : ℕ
    off = first * bs

    abbrev after : ℕ → ℕ
    after = overlay p.temp.byte off n bytes

    apart_bytes :
        (i : ℕ)
        → n ≤ length bytes
        → (i < first) ⊎ (end ≤ i)
        → (i * bs + block_size_at p.info i ≤ off) ⊎ (off + n ≤ i * bs)
    apart_bytes i most (inl before) =
        inl (le_trans (omega (arith, block_size_at-le p.info i)) (mul_step i first bs before))
    apart_bytes i most (inr behind) =
        let reach : off + n ≤ off + (end - first) * bs = omega (arith, run.within) in
        let e : first + (end - first) ≡ end = omega (arith, run.forward) in
        let upto : off + (end - first) * bs ≡ end * bs =
          sym (mul_split first (end - first) bs) ∙ ap (λ t. t * bs) e in
        inr (omega (arith, mul_mono end i bs behind))

    -- A block apart from the run.
    outside :
        (i : ℕ) (h : Bytes)
        → n ≤ length bytes
        → (i < first) ⊎ (end ≤ i)
        → get_elem? p.written i ≡ some true
        → get_elem? p.info.blocks i ≡ some h
        → sum (bytes_from after (i * bs) (block_size_at p.info i)) ≡ h
    outside i h most apart before at_i =
        ap sum (
          bytes_from-overlay_apart p.temp.byte off n bytes (i * bs) (block_size_at p.info i)
            (apart_bytes i most apart))
        ∙ intact.hashed i before h at_i

    written_block :
        (k : ℕ) (h : Bytes)
        → IsBlock sum p.info first k h bytes
        → sum (
            bytes_from
              (overlay p.temp.byte off (length bytes) bytes)
              ((first + k) * bs)
              (block_size_at p.info (first + k)))
          ≡ h
    unfolding bytes_from
    written_block k h b = elim b.inside [
      | inl within ↦ rw (mul_split first k bs) (
          ap sum (
            bytes_from-overlay_inside p.temp.byte off bytes (k * bs)
              (block_size_at p.info (first + k)) within)
          ∙ b.hashed)
      | inr nothing ↦ rw nothing (rw nothing at b.hashed)
    ]

    -- A block of the run.
    inside :
        (i : ℕ) (h : Bytes)
        → n ≡ length bytes
        → first ≤ i
        → i < end
        → get_elem? p.info.blocks i ≡ some h
        → sum (bytes_from after (i * bs) (block_size_at p.info i)) ≡ h
    inside i h whole low high at_i =
        let e : first + (i - first) ≡ i = omega arith in
        let found : get_elem? (drop first p.info.blocks) (i - first) ≡ some h =
          get_elem?-drop first (i - first) p.info.blocks
          ∙ ap (λ t. get_elem? p.info.blocks t) e
          ∙ at_i in
        rw whole (
          subst
            (λ t.
              sum (
                bytes_from (overlay p.temp.byte off (length bytes) bytes) (t * bs)
                  (block_size_at p.info t))
              ≡ h)
            e (written_block (i - first) h (run.block (i - first) h (omega arith) found)))

    most :
        (n ≡ length bytes)
          ⊎ ((n < length bytes)
              × ((i : ℕ) → first ≤ i → i < end → get_elem? p.written i ≢ some true))
        → n ≤ length bytes
    most (inl whole) = omega arith
    most (inr (short, unwritten)) = omega arith

    -- The bytes after a write that got `n` of them onto the disk, with the marks that stand then.
    after_write :
        (n ≡ length bytes)
          ⊎ ((n < length bytes)
              × ((i : ℕ) → first ≤ i → i < end → get_elem? p.written i ≢ some true))
        → ((i : ℕ)
            → get_elem? marked i ≡ some true
            → ((n ≡ length bytes) × (first ≤ i) × (i < end)) ⊎ (get_elem? p.written i ≡ some true))
        → (i : ℕ) (h : Bytes) → get_elem? marked i ≡ some true
        → get_elem? p.info.blocks i ≡ some h
        → sum (bytes_from after (i * bs) (block_size_at p.info i)) ≡ h
    after_write wrote marks i h mark at_i = elim (marks i mark) [
      | inl (whole, low, high) ↦ inside i h whole low high at_i
      | inr before ↦ elim (dec_lt i first) [
        | yes lower ↦ outside i h (most wrote) (inl lower) before at_i
        | no up ↦ elim (dec_lt i end) [
          | no behind ↦ outside i h (most wrote) (inr (omega arith)) before at_i
          | yes high ↦ elim wrote [
            | inl whole ↦ inside i h whole (omega arith) high at_i
            | inr (short, unwritten) ↦ absurd (unwritten i (omega arith) high before)
          ]
        ]
      ]
    ]

  kept_size :
      (n off limit size : ℕ) (bytes : Bytes)
      → (length bytes ≡ 0) ⊎ (off + length bytes ≤ limit)
      → size ≡ limit
      → n ≤ length bytes
      → (if n == 0 then size else max size (off + n)) ≡ limit
  kept_size n off limit size bytes fits sized most = ground arith

  abbrev Unwritten : Pull → ℕ → ℕ → Type 0
  Unwritten p first end = (i : ℕ) → first ≤ i → i < end → get_elem? p.written i ≢ some true

  -- Writing a run keeps a pull intact, if all of it gets onto the disk or none of its blocks counted as
  -- written before.
  pub write_temp-Intact :
      (disk : DiskWrites) (p : Pull) (first end : ℕ) (bytes : Bytes) (marked : List Bool)
      → Intact p
      → IsRun sum p.info first (drop first p.info.blocks) bytes end
      → (length bytes ≤ disk (first * effective_block_size p.info.block_size) (length bytes))
        ⊎ Unwritten p first end
      → ((i : ℕ)
          → get_elem? marked i ≡ some true
          → ((first ≤ i) × (i < end)) ⊎ (get_elem? p.written i ≡ some true))
      → length marked ≡ length p.written
      → Intact
          (write_temp sum disk p (first * effective_block_size p.info.block_size) bytes marked).0
  unfolding write_at
  write_temp-Intact disk p first end bytes marked intact run safe marks long =
      let off : ℕ = first * effective_block_size p.info.block_size in
      let n : ℕ = got disk off (length bytes) in
      let size_kept : (if n == 0 then p.temp.size else max p.temp.size (off + n)) ≡ p.info.size =
        kept_size n off p.info.size p.temp.size bytes run.fits intact.sized (omega arith) in
      elim (Bool-cases (n == length bytes)) [
        | inl all ↦
            let whole : n ≡ length bytes = ground arith in
            rw all (record {
              sized = size_kept;
              marked_all = long ∙ intact.marked_all;
              hashed = λ i mark h at_i.
                  after_write p first end bytes n marked intact run (inl whole)
                    (λ j m. elim (marks j m) [
                      | inl r ↦ inl (whole, r.0, r.1)
                      | inr before ↦ inr before
                    ])
                    i h mark at_i;
            })
        | inr some_lost ↦
            let short : n < length bytes = ground arith in
            rw some_lost (record {
              sized = size_kept;
              marked_all = intact.marked_all;
              hashed = λ i mark h at_i.
                  after_write p first end bytes n p.written intact run
                    (inr (short, elim safe [ inl all ↦ absurd (omega arith) | inr u ↦ u ]))
                    (λ j m. inr m) i h mark at_i;
            })
      ]
