-- ===== src/Pull/Filled.antt =====
-- engine.go and block_reuse.go: blocks taken from local files and from a staged temp keep a pull intact.
use mathlib.Core.Option.{some-injective}
use mathlib.Core.Path.{subst}
use cross_sync.Pull.Start.{DonorLoc, reuse_block, LocalFiles, other_owner, content_of, reuse_loop}
use cross_sync.Pull.Blocks.{block_size_at-le, block_size_at-fits}
use cross_sync.Pull.Runs.{IsRun, IsBlock, front-IsBlock}
use cross_sync.Hash.{Bytes, effective_block_size}
use cross_sync.Temp.{read_at, bytes_from, Content, DiskWrites, write_at}
use cross_sync.Base.{
  ℕ, nat_eq, list_eq, Bool, List, ap, arith, drop, false, inr, length, refl, set, some, suc, sym,
  true, zero, ◌*◌, ◌+◌, ◌∷◌, ◌≡◌, drop_front, get_elem?, get_elem?-set, inl, take, take_all, ◌-◌,
  ◌<◌, ◌∙◌, ◌≢◌, ◌≤◌, ◌⊎◌, [], drop-set, if◌then◌else◌, Bool-cases, Option-cases, eq_of_test, ◌==◌,
  Option, length-set,
}
use cross_sync.Index.Files.{FileInfo, FileName}
use cross_sync.Pull.{
  Pull, block_size_at, write_temp, fill_loop, needs_from, BlockNeed, write_local_block,
}
use cross_sync.Pull.Intact.{Intact, write_temp-Intact}

length-bytes_from : (f : ℕ → ℕ) (off n : ℕ) → length (bytes_from f off n) ≡ n
unfolding bytes_from
length-bytes_from f off zero = refl
length-bytes_from f off (suc n) = ap suc (length-bytes_from f (off + 1) n)

pub length-read_at :
    (f : Content) (off n : ℕ) (bytes : Bytes) → read_at f off n ≡ some bytes → length bytes ≡ n
unfolding read_at
length-read_at f off n bytes h = ground (arith, length-bytes_from f.byte off n)

one_block : (i bs : ℕ) → (i + 1 - i) * bs ≡ bs
one_block i bs = let e : i + 1 - i ≡ 1 = omega arith in rw e (omega arith)

kept_marks :
    (n : ℕ) (marked : List Bool) (i : ℕ)
    → drop n (set marked i true) ≡ drop n marked
    → (all : Bool) → drop n (if all then set marked i true else marked) ≡ drop n marked
kept_marks n marked i same true = same
kept_marks n marked i same false = refl

effective : (n : ℕ) → 0 < n → effective_block_size n ≡ n
effective n h = ground arith

module _ (sum : Bytes → Bytes) where
  -- One block of the right length and hash is a run.
  single-IsRun :
      (fi : FileInfo) (i : ℕ) (h : Bytes) (hs : List Bytes) (bytes : Bytes)
      → length bytes ≡ block_size_at fi i
      → sum bytes ≡ h
      → IsRun sum fi i (h ∷ hs) bytes (i + 1)
  single-IsRun fi i h hs bytes long same = record {
    forward = omega arith;
    within = omega (arith, block_size_at-le fi i, one_block i (effective_block_size fi.block_size));
    fits = grind (arith, block_size_at-fits fi i);
    block = only_block;
  }
    where
      only_block :
          (k : ℕ) (h' : Bytes)
          → i + k < i + 1
          → get_elem? (h ∷ hs) k ≡ some h'
          → IsBlock sum fi i k h' bytes
      only_block zero h' low at_k = front-IsBlock sum fi i h' bytes (omega arith) (
          subst (λ n. sum (take n bytes) ≡ h') long
            (ap sum (take_all bytes) ∙ same ∙ some-injective _ _ at_k))
      only_block (suc k) h' low at_k = absurd (omega arith)

  not_marked :
      (p : Pull) (i j : ℕ) (ws : List Bool)
      → drop i p.written ≡ false ∷ ws
      → i ≤ j
      → j < i + 1
      → get_elem? p.written j ≢ some true
  not_marked p i j ws unwritten low high mark =
      let e : j ≡ i = omega arith in
      let here : get_elem? p.written i ≡ some true = rw e at mark in
      let free : get_elem? p.written i ≡ some false = (drop_front p.written i unwritten).0 in cc

  new_mark :
      (p : Pull) (i j : ℕ)
      → get_elem? (set p.written i true) j ≡ some true
      → ((i ≤ j) × (j < i + 1)) ⊎ (get_elem? p.written j ≡ some true)
  new_mark p i j mark = elim (get_elem?-set p.written i j true) [
    | inl (same, other) ↦ inr (sym same ∙ mark)
    | inr (here, now) ↦ inl (omega arith, omega arith)
  ]

  -- Writing one verified block over one that does not count as written.
  pub write_block-Intact :
      (disk : DiskWrites) (p : Pull) (i : ℕ) (h : Bytes) (hs : List Bytes) (ws : List Bool)
      (bytes : Bytes)
      → Intact sum p
      → drop i p.info.blocks ≡ h ∷ hs
      → drop i p.written ≡ false ∷ ws
      → length bytes ≡ block_size_at p.info i
      → sum bytes ≡ h
      → Intact sum
          (write_temp sum disk p
            (i * effective_block_size p.info.block_size)
            bytes
            (set p.written i true)).0
  write_block-Intact disk p i h hs ws bytes intact at_i unwritten long same =
      write_temp-Intact sum disk p i (i + 1) bytes (set p.written i true) intact
        (subst (λ t. IsRun sum p.info i t bytes (i + 1)) (sym at_i)
          (single-IsRun p.info i h hs bytes long same))
        (inr (λ j low high mark. not_marked p i j ws unwritten low high mark))
        (λ j mark. new_mark p i j mark) (length-set p.written i true)

  -- What a loop over the missing blocks from block `i` on needs to know of its list.
  pub record Rest (p : Pull) (i : ℕ) (hs : List Bytes) (ws : List Bool) : Type 0 where
    pub intact : Intact sum p
    pub hashes : drop i p.info.blocks ≡ hs
    pub marks : drop i p.written ≡ ws

  pub whole-Rest : (p : Pull) → Intact sum p → Rest p 0 p.info.blocks p.written
  whole-Rest p intact = record { intact = intact; hashes = refl; marks = refl }

  skip :
      (p : Pull) (i : ℕ) (h : Bytes) (hs : List Bytes) (w : Bool) (ws : List Bool)
      → Rest p i (h ∷ hs) (w ∷ ws)
      → Rest p (i + 1) hs ws
  skip p i h hs w ws r =
      let e : i + 1 ≡ suc i = omega arith in
      record {
        intact = r.intact;
        hashes = rw e (drop_front p.info.blocks i r.hashes).1;
        marks = rw e (drop_front p.written i r.marks).1;
      }

  -- A block was written, or only some of its bytes.
  after_block :
      (disk : DiskWrites) (p : Pull) (i : ℕ) (h : Bytes) (hs : List Bytes) (ws : List Bool)
      (bytes : Bytes)
      → Rest p i (h ∷ hs) (false ∷ ws)
      → length bytes ≡ block_size_at p.info i
      → sum bytes ≡ h
      → Rest
          (write_temp sum disk p
            (i * effective_block_size p.info.block_size)
            bytes
            (set p.written i true)).0
          (i + 1)
          hs
          ws
  after_block disk p i h hs ws bytes r long same =
      let e : i + 1 ≡ suc i = omega arith in
      let later : drop (suc i) p.written ≡ ws = (drop_front p.written i r.marks).1 in
      record {
        intact = write_block-Intact disk p i h hs ws bytes r.intact r.hashes r.marks long same;
        hashes = rw e (drop_front p.info.blocks i r.hashes).1;
        marks = rw e (kept_marks (suc i) p.written i (drop-set p.written i true) _ ∙ later);
      }

  -- Counting reused bytes and naming the donor changes nothing of the blocks.
  recounted :
      (p : Pull) (i n : ℕ) (hs : List Bytes) (ws : List Bool)
      → Rest p i hs ws
      → Rest (record p { reused = n }) i hs ws
  recounted p i n hs ws r = record {
    intact = record {
      sized = r.intact.sized;
      marked_all = r.intact.marked_all;
      hashed = r.intact.hashed;
    };
    hashes = r.hashes;
    marks = r.marks;
  }

  abbrev need_at : FileInfo → ℕ → Bytes → BlockNeed
  need_at fi i h = record {
    index = i;
    offset = i * fi.block_size;
    size = block_size_at fi i;
    hash = h;
  }

  abbrev pub recount : Pull → Bytes → Pull
  recount p bytes = record p { reused = p.reused + length bytes }

  either_way :
      (all : Bool) (x y : Pull × ℕ)
      → Intact sum x.0
      → Intact sum y.0
      → Intact sum (if all then x else y).0
  either_way true x y now later = now
  either_way false x y now later = later

  -- The round that writes block `i`, and the rounds behind it.
  filled_further :
      (disk : DiskWrites) (source : Content) (p : Pull) (i : ℕ) (h : Bytes) (needs : List BlockNeed)
      (filled : ℕ) (bytes : Bytes)
      → read_at source (i * p.info.block_size) (block_size_at p.info i) ≡ some bytes
      → (sum bytes == h) ≡ true
      → Intact sum (write_temp sum disk p (i * p.info.block_size) bytes (set p.written i true)).0
      → Intact sum
          (fill_loop sum disk source needs
            (recount
              (write_temp sum disk p (i * p.info.block_size) bytes (set p.written i true)).0
              bytes)
            (filled + 1)).0
      → Intact sum (fill_loop sum disk source (need_at p.info i h ∷ needs) p filled).0
  unfolding fill_loop
  filled_further disk source p i h needs filled bytes read same now later =
      rw (read, same, fill_loop)
        (either_way (write_at disk (i * p.info.block_size) bytes p.temp).1 _ _ later now)

  -- `fillFromLocalCopy`
  pub fill_loop-Intact :
      (disk : DiskWrites) (source : Content) (p : Pull) (i : ℕ) (hs : List Bytes) (ws : List Bool)
      (filled : ℕ)
      → 0 < p.info.block_size
      → Rest p i hs ws
      → Intact sum (fill_loop sum disk source (needs_from p.info i hs ws) p filled).0
  unfolding fill_loop needs_from
  fill_loop-Intact disk source p i [] ws filled sized r = r.intact
  fill_loop-Intact disk source p i (h ∷ hs) [] filled sized r = r.intact
  fill_loop-Intact disk source p i (h ∷ hs) (true ∷ ws) filled sized r =
      fill_loop-Intact disk source p (i + 1) hs ws filled sized (skip p i h hs true ws r)
  fill_loop-Intact disk source p i (h ∷ hs) (false ∷ ws) filled sized r =
      elim (Option-cases (read_at source (i * p.info.block_size) (block_size_at p.info i))) [
        | inl unread ↦ rw (unread, fill_loop) r.intact
        | inr (bytes, read) ↦ elim (Bool-cases (sum bytes == h)) [
          | inr other ↦ rw (read, other, fill_loop) r.intact
          | inl same ↦
              let p' : Pull =
                (write_temp sum disk p (i * p.info.block_size) bytes (set p.written i true)).0 in
              let next : Rest
                  (write_temp sum disk p (i * p.info.block_size) bytes (set p.written i true)).0
                  (i + 1) hs ws =
                subst
                  (λ t.
                    Rest (write_temp sum disk p (i * t) bytes (set p.written i true)).0 (i + 1) hs
                      ws)
                  (effective p.info.block_size sized)
                  (after_block disk p i h hs ws bytes r
                    (length-read_at source (i * p.info.block_size) (block_size_at p.info i) bytes
                      read)
                    (eq_of_test (sum bytes) h same)) in
              filled_further disk source p i h (needs_from p.info (i + 1) hs ws) filled bytes read
                same next.intact
                (fill_loop-Intact disk source (recount p' bytes) (i + 1) hs ws (filled + 1) sized
                  (recounted p' (i + 1) (p'.reused + length bytes) hs ws next))
        ]
      ]

  -- `FillBlocksFromLocal`: the owners of a hash give blocks of the length that the block has.
  abbrev pub GiveBlocks : (Bytes → List DonorLoc) → FileName → FileInfo → Type 0
  GiveBlocks owners name fi =
      (i : ℕ) (h : Bytes) (loc : DonorLoc)
      → get_elem? fi.blocks i ≡ some h
      → other_owner name (owners h) ≡ some loc
      → loc.size ≡ block_size_at fi i

  -- A round of a loop over the blocks leaves the entry and the name.
  pub record After (p : Pull) (i : ℕ) (hs : List Bytes) (ws : List Bool) (q : Pull) : Type 0 where
    pub rest : Rest q i hs ws
    pub info : q.info ≡ p.info
    pub name : q.name ≡ p.name

  -- A block that is written from a local file, or refused.
  local_block-Rest :
      (disk : DiskWrites) (p : Pull) (i : ℕ) (h : Bytes) (hs : List Bytes) (ws : List Bool)
      (bytes : Bytes)
      → Rest p i (h ∷ hs) (false ∷ ws)
      → length bytes ≡ block_size_at p.info i
      → After p (i + 1) hs ws (write_local_block sum disk p i bytes).0
  unfolding write_local_block
  local_block-Rest disk p i h hs ws bytes r long =
      let here : get_elem? p.info.blocks i ≡ some h = (drop_front p.info.blocks i r.hashes).0 in
      let off : ℕ = i * effective_block_size p.info.block_size in
      elim (Bool-cases (sum bytes == h)) [
        | inr other ↦
            let refused : write_local_block sum disk p i bytes ≡ (p, false) = cc in
            subst (λ t. After p (i + 1) hs ws t.0) (sym refused)
              (record { rest = skip p i h hs false ws r; info = refl; name = refl })
        | inl same ↦
            let done : write_local_block sum disk p i bytes
                ≡ write_temp sum disk p off bytes (set p.written i true) =
              cc in
            subst (λ t. After p (i + 1) hs ws t.0) (sym done)
              (record {
                rest = after_block disk p i h hs ws bytes r long (eq_of_test (sum bytes) h same);
                info = refl;
                name = refl;
              })
      ]

  reuse_block-Rest :
      (disk : DiskWrites) (files : LocalFiles) (owners : Bytes → List DonorLoc) (p : Pull) (i : ℕ)
      (h : Bytes) (hs : List Bytes) (ws : List Bool) (donor : FileName × Option Content)
      → GiveBlocks owners p.name p.info
      → Rest p i (h ∷ hs) (false ∷ ws)
      → After p (i + 1) hs ws (reuse_block sum disk files owners (need_at p.info i h) donor p).1
  unfolding reuse_block
  reuse_block-Rest disk files owners p i h hs ws (current, source) give r =
      let same : After p (i + 1) hs ws p = record {
        rest = skip p i h hs false ws r;
        info = refl;
        name = refl;
      } in
      let here : get_elem? p.info.blocks i ≡ some h = (drop_front p.info.blocks i r.hashes).0 in
      elim (Option-cases (other_owner p.name (owners h))) [
        | inl nobody ↦ rw (nobody, reuse_block) same
        | inr (loc, owner) ↦
            elim (Option-cases
              (if loc.name == current then source else content_of files loc.name)) [
                | inl closed ↦ rw (owner, closed, reuse_block) same
                | inr (content, open_now) ↦
                    elim (Option-cases (
                      read_at content (loc.index * effective_block_size p.info.block_size)
                        loc.size)) [
                          | inl unread ↦ rw (owner, open_now, unread, reuse_block) same
                          | inr (bytes, read) ↦
                              rw (owner, open_now, read, reuse_block)
                                (local_block-Rest disk p i h hs ws bytes r (
                                  length-read_at content
                                    (loc.index * effective_block_size p.info.block_size) loc.size
                                    bytes read
                                  ∙ give i h loc here owner))
                        ]
              ]
      ]

  pub reuse_loop-Intact :
      (disk : DiskWrites) (files : LocalFiles) (owners : Bytes → List DonorLoc) (name : FileName)
      (fi : FileInfo) (p : Pull) (i : ℕ) (hs : List Bytes) (ws : List Bool)
      (donor : FileName × Option Content)
      → GiveBlocks owners name fi
      → p.name ≡ name
      → p.info ≡ fi
      → Rest p i hs ws
      → Intact sum (reuse_loop sum disk files owners (needs_from fi i hs ws) donor p)
        × ((reuse_loop sum disk files owners (needs_from fi i hs ws) donor p).info ≡ fi)
  unfolding reuse_loop needs_from
  reuse_loop-Intact disk files owners name fi p i [] ws donor give e₁ e₂ r = (r.intact, e₂)
  reuse_loop-Intact disk files owners name fi p i (h ∷ hs) [] donor give e₁ e₂ r = (r.intact, e₂)
  reuse_loop-Intact disk files owners name fi p i (h ∷ hs) (true ∷ ws) donor give e₁ e₂ r =
      reuse_loop-Intact disk files owners name fi p (i + 1) hs ws donor give e₁ e₂
        (skip p i h hs true ws r)
  reuse_loop-Intact disk files owners name fi p i (h ∷ hs) (false ∷ ws) donor give e₁ e₂ r =
      let a : After p (i + 1) hs ws (reuse_block sum disk files owners (need_at fi i h) donor p).1 =
        subst
          (λ t. After p (i + 1) hs ws (reuse_block sum disk files owners (need_at t i h) donor p).1)
          e₂
          (reuse_block-Rest disk files owners p i h hs ws donor
            (subst (λ t. GiveBlocks owners p.name t) (sym e₂)
              (subst (λ t. GiveBlocks owners t fi) (sym e₁) give))
            r) in
      reuse_loop-Intact disk files owners name fi
        (reuse_block sum disk files owners (need_at fi i h) donor p).1 (i + 1) hs ws
        (reuse_block sum disk files owners (need_at fi i h) donor p).0 give (a.name ∙ e₁)
        (a.info ∙ e₂) a.rest
