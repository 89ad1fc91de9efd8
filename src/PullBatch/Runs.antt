-- ===== src/PullBatch/Runs.antt =====
-- pull_batch.go, `planPulls`: the runs cover the missing blocks in order and stay under the limit.
use cross_sync.Hash.{max_block_size}
use mathlib.Core.List.{append_assoc}
use mathlib.Core.Path.{subst}
use cross_sync.Base.{
  ℕ, nat_eq, All, Bool-cases, List, [], ap, arith, inl, inr, refl, true, ◌++◌, ◌+◌, ◌∙◌, ◌∷◌, ◌≡◌,
  ◌≤◌, ◌⊎◌, sym,
}
use cross_sync.Pull.{BlockNeed}
use cross_sync.PullBatch.{
  PullRun, extended, joins, last_index, plan_loop, plan_pulls, run_cap, run_of,
}

abbrev pub Consecutive : List BlockNeed → Type 0
Consecutive [] = Unit
Consecutive (n ∷ []) = Unit
Consecutive (n ∷ m ∷ ns) = (m.index ≡ n.index + 1) × Consecutive (m ∷ ns)

abbrev pub total_size : List BlockNeed → ℕ
total_size [] = 0
total_size (n ∷ ns) = n.size + total_size ns

abbrev pub all_needs : List PullRun → List BlockNeed
all_needs [] = []
all_needs (r ∷ rs) = r.needs ++ all_needs rs

-- One contiguous request: consecutive blocks from the run's offset on, of the run's size together, under
-- the limit and the peer's limit unless there is one block alone.
pub record IsRequest (limit : ℕ) (run : PullRun) : Type 0 where
  pub first : BlockNeed
  pub others : List BlockNeed
  pub blocks : run.needs ≡ first ∷ others
  pub starts : run.offset ≡ first.offset
  pub consecutive : Consecutive run.needs
  pub sized : run.size ≡ total_size run.needs
  pub capped : ((run.size ≤ limit) × (run.size ≤ max_block_size)) ⊎ (others ≡ [])

Consecutive-snoc :
    (i : ℕ) (n : BlockNeed) (ns : List BlockNeed) (need : BlockNeed)
    → Consecutive (n ∷ ns)
    → need.index ≡ last_index i (n ∷ ns) + 1
    → Consecutive (n ∷ ns ++ (need ∷ []))
Consecutive-snoc i n [] need c e = (e, tt)
Consecutive-snoc i n (m ∷ ns) need c e = (c.0, Consecutive-snoc n.index m ns need c.1 e)

total_size-snoc :
    (ns : List BlockNeed) (need : BlockNeed)
    → total_size (ns ++ (need ∷ [])) ≡ total_size ns + need.size
total_size-snoc [] need = omega arith
total_size-snoc (n ∷ ns) need = omega (arith, total_size-snoc ns need)

run_of-IsRequest : (limit : ℕ) (need : BlockNeed) → IsRequest limit (run_of need)
run_of-IsRequest limit need = record {
  first = need;
  others = [];
  blocks = refl;
  starts = refl;
  consecutive = tt;
  sized = omega arith;
  capped = inr refl;
}

joins_lem :
    (limit : ℕ) (run : PullRun) (need : BlockNeed)
    → joins limit run need ≡ true
    → (need.index ≡ last_index 0 run.needs + 1)
      × ((run.size + need.size ≤ limit) × (run.size + need.size ≤ max_block_size))
joins_lem limit run need j = ground arith

extended-IsRequest :
    (limit : ℕ) (run : PullRun) (need : BlockNeed)
    → IsRequest limit run
    → joins limit run need ≡ true
    → IsRequest limit (extended run need)
extended-IsRequest limit run need r j = record {
  first = r.first;
  others = r.others ++ (need ∷ []);
  blocks = ap (λ t. t ++ (need ∷ [])) r.blocks;
  starts = r.starts;
  consecutive =
      subst (λ l. Consecutive (l ++ (need ∷ []))) (sym r.blocks)
        (Consecutive-snoc 0 r.first r.others need (subst Consecutive r.blocks r.consecutive)
          (subst (λ l. need.index ≡ last_index 0 l + 1) r.blocks (joins_lem limit run need j).0));
  sized = omega (arith, r.sized, total_size-snoc run.needs need);
  capped = inl (joins_lem limit run need j).1;
}

plan_loop-IsRequest :
    (limit : ℕ) (cur : PullRun) (needs : List BlockNeed)
    → IsRequest limit cur
    → All (IsRequest limit) (plan_loop limit cur needs)
unfolding plan_loop
plan_loop-IsRequest limit cur [] r = (r, tt)
plan_loop-IsRequest limit cur (need ∷ needs) r = elim (Bool-cases (joins limit cur need)) [
  | inl more ↦ rw more (
      plan_loop-IsRequest limit (extended cur need) needs
        (extended-IsRequest limit cur need r more))
  | inr apart ↦
      rw apart (r, plan_loop-IsRequest limit (run_of need) needs (run_of-IsRequest limit need))
]

all_needs-plan_loop :
    (limit : ℕ) (cur : PullRun) (needs : List BlockNeed)
    → all_needs (plan_loop limit cur needs) ≡ cur.needs ++ needs
unfolding plan_loop
all_needs-plan_loop limit cur [] = refl
all_needs-plan_loop limit cur (need ∷ needs) = elim (Bool-cases (joins limit cur need)) [
  | inl more ↦ rw more (
      all_needs-plan_loop limit (extended cur need) needs
      ∙ append_assoc cur.needs (need ∷ []) needs)
  | inr apart ↦ rw apart (ap (λ t. cur.needs ++ t) (all_needs-plan_loop limit (run_of need) needs))
]

-- `planPulls` loses, doubles and reorders no block: the runs together are the missing blocks in order. Each
-- run is one contiguous request, of consecutive blocks from its offset on and of their sizes together, and
-- it stays under the configured limit and the peer's limit of 16 MiB unless it is one block alone. A limit of 0
-- stands for the limit.
pub plan_pulls_lem :
    (needs : List BlockNeed) (max_run : ℕ)
    → (all_needs (plan_pulls needs max_run) ≡ needs)
      × All (IsRequest (run_cap max_run)) (plan_pulls needs max_run)
unfolding plan_pulls
plan_pulls_lem [] max_run = (refl, tt)
plan_pulls_lem (need ∷ needs) max_run = (
  all_needs-plan_loop (run_cap max_run) (run_of need) needs,
  plan_loop-IsRequest (run_cap max_run) (run_of need) needs
      (run_of-IsRequest (run_cap max_run) need),
)
