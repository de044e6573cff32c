-- ===== src/Execution/Threaded/Tests.antt =====
-- Runs of two threads, and the theorems at the states that they reach.
use sbio.Prelude.{ℕ, ◌≤◌, ◌≡◌, ◌≢◌, refl, true, [], ◌∷◌, arith}
use sbio.Steps.{Tiles}
use sbio.Execution.Threaded.{outside, System, turn, Reach, start, later, Move, pc_of}
use sbio.Execution.Threaded.Invariant.{triggers}
use sbio.Execution.Threaded.Safety.{batches_tile, trigger_alone, exhausted_drained}

record Run (n cap : ℕ) : Type 0 where
  last : System
  reach : Reach n cap last

-- Thread 0 asks for two steps, and comes to the exchange.
abbrev claiming_two : Run 2 2
claiming_two = record {
  last = _;
  reach =
      later
        (later
          (later
            (later
              (later
                (later
                  (later
                    (later
                      (later
                        (later (later start (turn 0 (omega arith) (Move.call_free 2)))
                          (turn 0 (omega arith) Move.load_index))
                        (turn 0 (omega arith) (Move.see_more refl)))
                      (turn 0 (omega arith) (Move.at_capacity (omega arith))))
                    (turn 0 (omega arith) (Move.lock refl)))
                  (turn 0 (omega arith) (Move.locked_more refl)))
                (turn 0 (omega arith) Move.sync))
              (turn 0 (omega arith) Move.reload))
            (turn 0 (omega arith) (Move.was_raised (omega arith))))
          (turn 0 (omega arith) Move.unlock))
        (turn 0 (omega arith) Move.enter);
}

abbrev handed_two : Run 2 2
handed_two = record {
  last = _;
  reach = later claiming_two.reach (turn 0 (omega arith) (Move.exchange (omega arith) refl));
}

-- Thread 1 finds the capacity handed out, and thread 0 returns its batch by ending the iteration.
abbrev triggering : Run 2 2
triggering = record {
  last = _;
  reach =
      later
        (later
          (later
            (later
              (later
                (later
                  (later
                    (later
                      (later
                        (later (later handed_two.reach (turn 1 (omega arith) (Move.call_free 0)))
                          (turn 1 (omega arith) Move.load_index))
                        (turn 1 (omega arith) (Move.see_more refl)))
                      (turn 1 (omega arith) (Move.at_capacity (omega arith))))
                    (turn 1 (omega arith) (Move.lock refl)))
                  (turn 1 (omega arith) (Move.locked_more refl)))
                (turn 1 (omega arith) Move.sync))
              (turn 1 (omega arith) Move.reload))
            (turn 1 (omega arith) (Move.still_full (omega arith))))
          (turn 0 (omega arith) Move.end_holding))
        (turn 1 (omega arith) (Move.all_returned refl));
}

abbrev exhausted : Run 2 2
exhausted = record {
  last = _;
  reach =
      later
        (later triggering.reach
          (turn 1 (omega arith) (Move.trigger_false 2 (omega arith) (omega arith))))
        (turn 1 (omega arith) Move.store_exhausted);
}

handed_two_result :
    (handed_two.last.mem.handed ≡ record { first = 0; last = 2 } ∷ [])
    × (handed_two.last.mem.in_flight ≡ 1)
    × (pc_of handed_two.last.threads 0 ≡ outside true)
handed_two_result = (refl, refl, refl)

batches_tile_example :
    Tiles 0 handed_two.last.mem.handed handed_two.last.mem.event_idx
    × (handed_two.last.mem.event_idx ≤ handed_two.last.mem.max_capacity)
batches_tile_example = batches_tile (omega arith) (omega arith) handed_two.reach

trigger_alone_example :
    (pc_of triggering.last.threads 0 ≢ outside true)
    × (triggers (pc_of triggering.last.threads 0) ≡ true → ◌≡◌ {A = ℕ} 1 0)
trigger_alone_example = trigger_alone (omega arith) (omega arith) triggering.reach 1 refl 0

exhausted_drained_example : Tiles 0 exhausted.last.mem.handed exhausted.last.mem.shared_capacity
exhausted_drained_example = exhausted_drained (omega arith) (omega arith) exhausted.reach refl
