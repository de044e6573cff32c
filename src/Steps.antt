-- ===== src/Steps.antt =====
-- src/lib/sbio/core/types.hh: step indices (size_t, as in every format) and batches of steps.
use sbio.Prelude.{ℕ, zero, suc, ◌+◌, ◌-◌, ◌%◌, ◌^◌, ◌<◌, ◌≡◌, refl, sym, ◌∙◌, List, [], ◌∷◌, ◌++◌}

-- The formats' `ExhaustedSentinel`, `static_cast<StepIdxType>(-1)`.
abbrev pub exhausted_sentinel : ℕ
exhausted_sentinel = 2 ^ 64 - 1

-- `StepBatch`: the steps from `first` up to, not including, `last`.
pub record StepBatch : Type 0 where
  pub first : ℕ
  pub last : ℕ

-- The subtraction of two size_t wraps.
unfoldable pub count : StepBatch → ℕ
count b = (b.last + 2 ^ 64 - b.first) % 2 ^ 64

abbrev pub exhausted_batch : StepBatch
exhausted_batch = record { first = exhausted_sentinel; last = exhausted_sentinel }

-- `n` steps from `i` on.
abbrev pub steps_from : ℕ → ℕ → List ℕ
steps_from i zero = []
steps_from i (suc n) = i ∷ steps_from (suc i) n

-- Batches that follow one another without a gap or an overlap, from step `lo` up to step `hi`.
abbrev pub Tiles : ℕ → List StepBatch → ℕ → Type 0
Tiles lo [] hi = lo ≡ hi
Tiles lo (b ∷ bs) hi = (b.first ≡ lo) × (b.first < b.last) × Tiles b.last bs hi

pub Tiles-snoc :
    (lo hi : ℕ) (bs : List StepBatch) (b : StepBatch)
    → Tiles lo bs hi
    → b.first ≡ hi
    → b.first < b.last
    → Tiles lo (bs ++ b ∷ []) b.last
Tiles-snoc lo hi [] b t e h = (e ∙ sym t, h, refl)
Tiles-snoc lo hi (c ∷ bs) b t e h = (t.0, t.1, Tiles-snoc c.last hi bs b t.2 e h)
