-- ===== src/Iteration/Sources/Tests.antt =====
-- Two sources, of which one has four steps more whenever it is reindexed, up to a hundred.
use sbio.Prelude.{ℕ, ◌+◌, ◌≡◌, refl, [], ◌∷◌, arith, ltb, if◌then◌else◌}
use sbio.Execution.Serial.{Iteration, next_impl, hand_out}
use sbio.Iteration.Sources.{
  DataSources, SourceSet, take_min, min_of, min_capacity, reindex, reindex_trigger, next,
}
use sbio.Iteration.Sources.Available.{IsLawful, IsCommon, Result, next_lem}

abbrev sources : DataSources ℕ
sources = record {
  steps_capacity = λ d. if ltb d 100 then d else 100;
  reindex_trigger = λ d. (ltb d 100, d + 4);
  max_batch_size = λ d. 3;
}

abbrev set : SourceSet ℕ
set = record { sources = 4 ∷ 6 ∷ []; capacity = 4 }

sources-IsLawful : IsLawful sources
sources-IsLawful = record { grows = λ d. ground arith; small = λ d. ground arith }

set-IsCommon : IsCommon sources set
set-IsCommon = record { least = (omega arith, (omega arith, tt)); attained = (0, 4, refl, refl) }

abbrev at_end : Iteration (SourceSet ℕ)
at_end = record { event_idx = 4; env = set }

next_lem_example : Result sources at_end (next sources at_end)
next_lem_example = next_lem sources at_end sources-IsLawful set-IsCommon (omega arith)

abbrev at_start : Iteration (SourceSet ℕ)
at_start = record { event_idx = 1; env = set }

-- The step after the last one of the set is that after reindexing its first source.
next_at_end :
    next sources at_end
    ≡ (4, record { event_idx = 5; env = record { sources = 8 ∷ 6 ∷ []; capacity = 6 } })
unfolding next next_impl hand_out reindex_trigger reindex min_capacity min_of take_min
next_at_end = refl
