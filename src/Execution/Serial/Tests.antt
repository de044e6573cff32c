-- ===== src/Execution/Serial/Tests.antt =====
-- A source of five steps, of which the first indexing finds three.
use sbio.Prelude.{ℕ, ◌≡◌, refl, Bool, true, false, [], ◌∷◌, arith}
use sbio.Steps.{exhausted_sentinel}
use sbio.Execution.Serial.{Source, Iteration, next_impl, next_batch_impl, next_times}
use sbio.Execution.Serial.Batches.{IsGrowing}

-- The state says whether the second indexing has taken place.
abbrev capacity : Bool → ℕ
capacity true = 5
capacity false = 3

abbrev trigger : Bool → Bool × Bool
trigger true = (false, true)
trigger false = (true, true)

abbrev source : Source Bool
source = record { capacity = capacity; trigger = trigger }

abbrev at : ℕ → Bool → Iteration Bool
at i e = record { event_idx = i; env = e }

source-IsGrowing : IsGrowing source
source-IsGrowing = record {
  small = λ e. ground arith;
  grows = elim [ true ↦ omega arith | false ↦ omega arith ];
}

next_runs :
    next_times source 6 (at 0 false) ≡ (0 ∷ 1 ∷ 2 ∷ 3 ∷ 4 ∷ exhausted_sentinel ∷ [], at 5 true)
unfolding next_times next_impl
next_runs = refl

batch_is_cut : next_batch_impl source 4 (at 1 false) ≡ (record { first = 1; last = 3 }, at 3 false)
unfolding next_batch_impl
batch_is_cut = refl
