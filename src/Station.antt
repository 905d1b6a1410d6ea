-- ===== src/Station.antt =====
-- pipeline/station_ctx.c: the sliding windows of a station and the three-sigma test.
use io_t_collector.Base.{
  ℕ, Bool, true, false, if◌then◌else◌, ltb, ◌==◌, List, [], ◌∷◌, map, take, replicate,
}
use io_t_collector.Frame.{EnvFrame}

-- `WINDOW_SIZE`.
abbrev pub window_size : ℕ
window_size = 16

-- What the code uses of `double` and of `math.h`: `from_int16` converts the bit pattern of an
-- `int16_t`, `from_count` the small count of a window.
pub record Doubles : Type 1 where
  pub Double : Type 0
  pub from_int16 : ℕ → Double
  pub from_count : ℕ → Double
  pub add : Double → Double → Double
  pub sub : Double → Double → Double
  pub mul : Double → Double → Double
  pub div : Double → Double → Double
  pub sqrt : Double → Double
  pub fabs : Double → Double
  pub less : Double → Double → Bool
  -- `0.0`, `0.001` and `ANOMALY_SIGMA`.
  pub nought : Double
  pub tiny : Double
  pub anomaly_sigma : Double

-- `station_ctx_t`; a window is the list of its `WINDOW_SIZE` bit patterns.
pub record StationCtx : Type 0 where
  pub station_id : ℕ
  pub window_pm25 : List ℕ
  pub window_pm10 : List ℕ
  pub window_temp : List ℕ
  pub window_hum : List ℕ
  pub window_co : List ℕ
  pub window_noise : List ℕ
  pub w_idx : ℕ
  pub w_count : ℕ

unfoldable pub station_ctx_reset : ℕ → StationCtx
station_ctx_reset station_id = record {
  station_id = station_id;
  window_pm25 = replicate window_size 0;
  window_pm10 = replicate window_size 0;
  window_temp = replicate window_size 0;
  window_hum = replicate window_size 0;
  window_co = replicate window_size 0;
  window_noise = replicate window_size 0;
  w_idx = 0;
  w_count = 0;
}

module _ (d : Doubles) where
  -- `for (...) sum += w[i]`.
  unfoldable pub sum_loop : d.Double → List ℕ → d.Double
  sum_loop sum [] = sum
  sum_loop sum (x ∷ xs) = sum_loop (d.add sum (d.from_int16 x)) xs

  unfoldable pub var_loop : d.Double → d.Double → List ℕ → d.Double
  var_loop mean sum [] = sum
  var_loop mean sum (x ∷ xs) =
      let diff = d.sub (d.from_int16 x) mean in var_loop mean (d.add sum (d.mul diff diff)) xs

  -- The mean and the standard deviation of the first `count` values of a window.
  unfoldable pub window_stats : ℕ → List ℕ → d.Double × d.Double
  unfolding sum_loop var_loop
  window_stats count w =
      let mean = d.div (sum_loop d.nought (take count w)) (d.from_count count) in
      (mean, d.sqrt (d.div (var_loop mean d.nought (take count w)) (d.from_count count)))

  abbrev pub windows : StationCtx → List (List ℕ)
  windows ctx =
      ctx.window_pm25 ∷ ctx.window_pm10 ∷ ctx.window_temp ∷ ctx.window_hum ∷ ctx.window_co
      ∷ ctx.window_noise ∷ []

  unfoldable pub window_stats_all : StationCtx → List (d.Double × d.Double)
  unfolding window_stats
  window_stats_all ctx =
      if ctx.w_count == 0
      then replicate 6 (d.nought, d.nought)
      else map (window_stats ctx.w_count) (windows ctx)

  -- A turn of the loop of `anomaly_detect_all`.
  unfoldable pub is_outlier : d.Double × d.Double → ℕ → Bool
  is_outlier (mean, sigma) x =
      if d.less sigma d.tiny
      then false
      else d.less (d.mul d.anomaly_sigma sigma) (d.fabs (d.sub (d.from_int16 x) mean))

  unfoldable pub detect_loop : List (d.Double × d.Double) → List ℕ → Bool
  unfolding is_outlier
  detect_loop (s ∷ ss) (x ∷ xs) =
      let rest = detect_loop ss xs in if is_outlier s x then true else rest
  detect_loop [] _ = false
  detect_loop (_ ∷ _) [] = false

  -- The cast to `int16_t` keeps the 16 bits.
  abbrev pub new_vals : EnvFrame → List ℕ
  new_vals f = f.pm25 ∷ f.pm10 ∷ f.temperature ∷ f.humidity ∷ f.co_ppb ∷ f.noise_db ∷ []

  unfoldable pub anomaly_detect_all : StationCtx → EnvFrame → Bool
  unfolding window_stats_all detect_loop
  anomaly_detect_all ctx frame =
      if ltb ctx.w_count window_size
      then false
      else detect_loop (window_stats_all ctx) (new_vals frame)
