-- ===== src/Execution/Threaded/Safety.antt =====
-- What holds in every state that threads iterating over a DataSource reach.
use sbio.Prelude.{
  ℕ, zero, suc, ◌≤◌, ◌<◌, ◌^◌, ◌≡◌, ◌≢◌, refl, true, false, ap, sym, ◌∙◌, replicate, arith,
  length-replicate,
}
use mathlib.Core.Path.{subst}
use mathlib.Core.Option.{some-injective}
use sbio.Steps.{exhausted_sentinel, Tiles}
use sbio.Execution.Threaded.{Pc, outside, System, turn, Reach, start, later, pc_of, init}
use sbio.Execution.Threaded.Counting.{total, total-replicate}
use sbio.Execution.Threaded.Invariant.{owns, triggers, Inv}
use sbio.Execution.Threaded.Moves.{Move-Inv}

pc_of-replicate : (n i : ℕ) → pc_of (replicate n (outside false)) i ≡ outside false
pc_of-replicate zero i = refl
pc_of-replicate (suc n) zero = refl
pc_of-replicate (suc n) (suc i) = pc_of-replicate n i

init-Inv :
    (n cap : ℕ) → n < 2 ^ 64 → cap < exhausted_sentinel → Inv (init n cap).mem (init n cap).threads
init-Inv n cap few small = record {
  few = rw (length-replicate n (outside false)) few;
  capped = omega arith;
  small = small;
  within = omega arith;
  drained = λ e. cc;
  counted = omega (arith, total-replicate n);
  tiled = refl;
  held = λ i o. cc (ap owns (pc_of-replicate n i));
  fits = λ i. rw (pc_of-replicate n i) tt;
  quiet = λ i j t. λ e. cc (pc_of-replicate n j);
}

pub Reach-Inv :
    {n cap : ℕ} {s : System}
    → n < 2 ^ 64
    → cap < exhausted_sentinel
    → Reach n cap s
    → Inv s.mem s.threads
Reach-Inv {n} {cap} few small start = init-Inv n cap few small
Reach-Inv few small (later r (turn i lt mv)) = Move-Inv (Reach-Inv few small r) i lt mv

-- The batches handed out to all threads, in the order of their exchanges, follow one another from
-- step 0 up to the shared index without a gap or an overlap, and stay below the capacity.
pub batches_tile :
    {n cap : ℕ} {s : System}
    → n < 2 ^ 64
    → cap < exhausted_sentinel
    → Reach n cap s
    → Tiles 0 s.mem.handed s.mem.event_idx × (s.mem.event_idx ≤ s.mem.max_capacity)
batches_tile few small r =
    let inv = Reach-Inv few small r in (inv.tiled, omega (arith, inv.within, inv.capped))

-- While a thread is about to call `trigger`, or has called it and not yet published the result, no
-- thread holds a step, and no other thread is in the trigger.
pub trigger_alone :
    {n cap : ℕ} {s : System}
    → n < 2 ^ 64
    → cap < exhausted_sentinel
    → Reach n cap s
    → (i : ℕ) → triggers (pc_of s.threads i) ≡ true
    → (j : ℕ) → (pc_of s.threads j ≢ outside true) × (triggers (pc_of s.threads j) ≡ true → i ≡ j)
trigger_alone {s} few small r i t j =
    let inv = Reach-Inv few small r in
    (
      inv.quiet i j t,
      λ u.
          some-injective i j
            (sym (inv.held i (triggers-owns _ t)) ∙ inv.held j (triggers-owns _ u)),
    )
  where
    triggers-owns : (q : Pc) → triggers q ≡ true → owns q ≡ true
    triggers-owns (Pc.triggering c n) t = refl
    triggers-owns q t = ground arith

-- Once `m_exhausted` is set every step below the shared capacity has been handed out.
pub exhausted_drained :
    {n cap : ℕ} {s : System}
    → n < 2 ^ 64
    → cap < exhausted_sentinel
    → Reach n cap s
    → s.mem.exhausted ≡ true
    → Tiles 0 s.mem.handed s.mem.shared_capacity
exhausted_drained {s} few small r e =
    let inv = Reach-Inv few small r in
    subst (λ k. Tiles 0 s.mem.handed k) (omega (arith, inv.within, inv.drained e)) inv.tiled

-- `m_in_flight` is the number of threads that hold a step or may be about to get one: it never wraps,
-- and is zero only if no thread holds a step.
pub in_flight_counts :
    {n cap : ℕ} {s : System}
    → n < 2 ^ 64
    → cap < exhausted_sentinel
    → Reach n cap s
    → s.mem.in_flight ≡ total s.threads
in_flight_counts few small r = (Reach-Inv few small r).counted
