-- ===== src/Engine/Chunks.antt =====
-- engine.go, `ApplyLocalChanges`: the chunks together write what one batch would, and every change of the
-- batch is accounted for.
use cross_sync.Base.{
  ℕ, list_eq, nat_eq, List, Option, [], ap, arith, drop, if◌then◌else◌, length, length-drop, refl,
  some, suc, sym, take, take-append-drop, zero, ◌++◌, ◌+◌, ◌<◌, ◌==◌, ◌∙◌, ◌∷◌, ◌≡◌, ◌≤◌,
}
use cross_sync.Index.Files.{FileInfo, FileName, ok}
use cross_sync.Index.Written.{content, latest, content-put_batch, unnumbered}
use cross_sync.Engine.State.{Engine}
use cross_sync.Engine.Views.{hooked}
use cross_sync.Engine.Local.{Change, store_batch, touched}
use cross_sync.Engine.Batch.{write_chunks, Plans}

latest-append :
    (n : FileName) (xs ys : List FileInfo) (old : Option FileInfo)
    → latest n (xs ++ ys) old ≡ latest n ys (latest n xs old)
latest-append n [] ys old = refl
latest-append n (x ∷ xs) ys old =
    latest-append n xs ys (if x.name == n then some (unnumbered x) else old)

content-store_batch :
    (e : Engine) (fis : List FileInfo) (n : FileName)
    → (store_batch e fis).1 ≡ ok tt
    → content n (store_batch e fis).0.ix.files ≡ latest n fis (content n e.ix.files)
unfolding store_batch hooked
content-store_batch e fis n h = content-put_batch e.ix fis n h

chunk_step :
    (chunk fuel : ℕ) (e : Engine) (fi : FileInfo) (fis : List FileInfo)
    → (write_chunks chunk (suc fuel) e (fi ∷ fis)).1 ≡ ok tt
    → let f = (store_batch e (take chunk (fi ∷ fis))).0 in
      ((store_batch e (take chunk (fi ∷ fis))).1 ≡ ok tt)
      × (write_chunks chunk (suc fuel) e (fi ∷ fis)
          ≡ write_chunks chunk fuel f (drop chunk (fi ∷ fis)))
unfolding write_chunks
chunk_step chunk fuel e fi fis h = ground arith

-- Whatever the length of a chunk, when all of them are written each name holds the last entry of the
-- batch under it, all fields but the sequence, and a name outside the batch keeps its row. One round
-- for each entry is enough fuel for the loop.
pub content-write_chunks :
    (chunk fuel : ℕ) (e : Engine) (fis : List FileInfo) (n : FileName)
    → 0 < chunk
    → length fis ≤ fuel
    → (write_chunks chunk fuel e fis).1 ≡ ok tt
    → content n (write_chunks chunk fuel e fis).0.ix.files ≡ latest n fis (content n e.ix.files)
unfolding write_chunks
content-write_chunks chunk zero e [] n p q h = refl
content-write_chunks chunk zero e (fi ∷ fis) n p q h = absurd (omega (arith, q))
content-write_chunks chunk (suc fuel) e [] n p q h = refl
content-write_chunks chunk (suc fuel) e (fi ∷ fis) n p q h =
    let ws : List FileInfo = fi ∷ fis in
    let (wrote, rest) = chunk_step chunk fuel e fi fis h in
    let f : Engine = (store_batch e (take chunk ws)).0 in
    let shorter : length (drop chunk ws) ≤ fuel = omega (arith, length-drop chunk ws, p, q) in
    ap (λ r. content n r.0.ix.files) rest
    ∙ content-write_chunks chunk fuel f (drop chunk ws) n p shorter (ap (λ r. r.1) (sym rest) ∙ h)
    ∙ ap (latest n (drop chunk ws)) (content-store_batch e (take chunk ws) n wrote)
    ∙ sym (latest-append n (take chunk ws) (drop chunk ws) (content n e.ix.files))
    ∙ ap (λ xs. latest n xs (content n e.ix.files)) (take-append-drop chunk ws)

-- Touched changes adopt a stat and are not counted.
unfoldable pub touches : List Change → ℕ
touches [] = 0
touches (c ∷ cs) = elim c.kind [ touched ↦ suc (touches cs) | k ↦ touches cs ]

abbrev seen : Plans → ℕ
seen s = s.applied + length s.failed
