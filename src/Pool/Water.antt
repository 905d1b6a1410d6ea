-- ===== src/Pool/Water.antt =====
-- The count of high water samples.
use io_t_collector.Base.{
  ℕ, ◌+◌, ◌%◌, ◌≡◌, refl, ap₂, arith, Bool, ◌&&◌, List, [], ◌∷◌, ltb, ◌==◌, if◌then◌else◌,
}
use io_t_collector.Pool.System.{ThreadPool, sample_water}

-- The triggers of the samples of some levels, in order.
unfoldable pub sample_all : ThreadPool → List ℕ → List Bool
sample_all tp [] = []
sample_all tp (level ∷ levels) =
    let (trigger, tp') = sample_water tp level in trigger ∷ sample_all tp' levels

-- Whether a sample ends a run of high levels whose length is a multiple of three, where the run
-- reached the length `n` before the first level.
abbrev pub third_in_row : ℕ → List ℕ → List Bool
third_in_row n [] = []
third_in_row n (level ∷ levels) =
    let n' = if ltb 80 level then n + 1 else 0 in (ltb 0 n' && n' % 3 == 0) ∷ third_in_row n' levels

module _ (tp : ThreadPool) (n level : ℕ) (e : tp.g_water_high_count ≡ n % 3) where
  abbrev next : ℕ
  next = if ltb 80 level then n + 1 else 0

  sample_lem :
      ((sample_water tp level).0 ≡ (ltb 0 next && next % 3 == 0))
      × ((sample_water tp level).1.g_water_high_count ≡ next % 3)
  unfolding sample_water
  sample_lem = ground (arith, e)

sample_run :
    (levels : List ℕ) (tp : ThreadPool) (n : ℕ)
    → tp.g_water_high_count ≡ n % 3
    → sample_all tp levels ≡ third_in_row n levels
unfolding sample_all
sample_run [] tp n e = refl
sample_run (level ∷ levels) tp n e =
    let (now, later) = sample_lem tp n level e in
    ap₂ (λ b bs. b ∷ bs) now (sample_run levels (sample_water tp level).1 _ later)

-- From a count of 0 the samples of any levels trigger a scale-up at exactly those samples that end a
-- run of levels over 80 per cent whose length is a multiple of three.
pub sample_all_lem :
    (tp : ThreadPool) (levels : List ℕ)
    → tp.g_water_high_count ≡ 0
    → sample_all tp levels ≡ third_in_row 0 levels
sample_all_lem tp levels e = sample_run levels tp 0 e
