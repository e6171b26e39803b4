-- ===== src/Optimizer/Budget.antt =====
-- The build slots of crates/turbomemory_storage/src/optimizer.rs, taken and given back by several
-- threads. A thread reads `inflight` in one step and exchanges it in a later one.
use turbo_supermemory.Common.{
  ℕ, ◌+◌, ◌-◌, ◌^◌, ◌<◌, ◌≤◌, ◌≡◌, List, [], ◌∷◌, ◌==◌, nat_eq, if◌then◌else◌, arith,
}
use turbo_supermemory.Segments.{TierConfig}
use turbo_supermemory.Optimizer.{ResourceBudget, try_acquire, drop_guard, use_hnsw}

-- An attempt with the count that its thread read some time before, or the end of a build, which a
-- thread that holds a guard makes.
pub data SlotEvent : Type 0 where
  attempt : (current n dim max_edges : ℕ) → SlotEvent
  finish : SlotEvent

-- The guards that are alive are counted beside the budget.
unfoldable pub slot_step : SlotEvent → ResourceBudget × ℕ → ResourceBudget × ℕ
slot_step (attempt current n dim max_edges) (b, guards) =
    let taken = try_acquire current n dim max_edges b in
    (taken.1, if taken.0 then guards + 1 else guards)
slot_step finish (b, guards) = if guards == 0 then (b, guards) else (drop_guard b, guards - 1)

unfoldable pub slot_run : List SlotEvent → ResourceBudget × ℕ → ResourceBudget × ℕ
slot_run [] s = s
slot_run (e ∷ es) s = slot_run es (slot_step e s)

pub record WithinBudget (b : ResourceBudget) (guards : ℕ) : Type 0 where
  pub counted : b.inflight ≡ guards
  pub bounded : guards ≤ b.max_concurrent
  pub fits : b.max_concurrent < 2 ^ 64

slot_step-WithinBudget :
    (e : SlotEvent) (b : ResourceBudget) (guards : ℕ)
    → WithinBudget b guards
    → WithinBudget (slot_step e (b, guards)).0 (slot_step e (b, guards)).1
unfolding slot_step try_acquire drop_guard
slot_step-WithinBudget (attempt current n dim max_edges) b guards w = record {
  counted = ground (arith, w.counted);
  bounded = ground (arith, w.counted, w.bounded);
  fits = ground (arith, w.fits);
}
slot_step-WithinBudget finish b guards w = record {
  counted = ground (arith, w.counted, w.bounded, w.fits);
  bounded = ground (arith, w.bounded);
  fits = ground (arith, w.fits);
}

slot_step-max :
    (e : SlotEvent) (s : ResourceBudget × ℕ) → (slot_step e s).0.max_concurrent ≡ s.0.max_concurrent
unfolding slot_step try_acquire drop_guard
slot_step-max (attempt current n dim max_edges) s = ground arith
slot_step-max finish s = ground arith

-- If the count of build slots is the number of guards alive and at most the limit, this is so
-- after any sequence of attempts, each with whatever count its thread read before, and ends of
-- builds.
pub slot_run-WithinBudget :
    (es : List SlotEvent) (b : ResourceBudget) (guards : ℕ)
    → WithinBudget b guards
    → WithinBudget (slot_run es (b, guards)).0 (slot_run es (b, guards)).1
unfolding slot_run
slot_run-WithinBudget [] b guards w = w
slot_run-WithinBudget (e ∷ es) b guards w =
    slot_run-WithinBudget es _ _ (slot_step-WithinBudget e b guards w)

-- The test that decides whether a seal builds an HNSW graph leaves the count of build slots as
-- it was, also when it takes a slot, if the count is at most the limit and the limit fits 64
-- bits.
pub use_hnsw-inflight :
    (c : TierConfig) (count : ℕ) (b : ResourceBudget)
    → b.max_concurrent < 2 ^ 64
    → b.inflight ≤ b.max_concurrent
    → (use_hnsw c count b).1.inflight ≡ b.inflight
unfolding use_hnsw try_acquire drop_guard
use_hnsw-inflight c count b fits bounded = ground (arith, fits, bounded)
