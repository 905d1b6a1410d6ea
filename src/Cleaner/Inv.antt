-- ===== src/Cleaner/Inv.antt =====
-- The well-formedness of a station's context.
use io_t_collector.Base.{
  ℕ, zero, suc, ◌≤◌, ◌<◌, ◌≡◌, refl, ap, ◌∙◌, arith, false, List, [], ◌∷◌, set, get_or, length,
  length-set, replicate,
}
use io_t_collector.Frame.{EnvFrame, zero_frame}
use io_t_collector.Ring.{is_alarm}
use io_t_collector.Station.{StationCtx, Doubles, window_size, station_ctx_reset}
use io_t_collector.Cleaner.{InternalCtx, push_windows, Cleaned, fresh_ctx, process_in_ctx}
use io_t_collector.Cleaner.Outcome.{
  exchanged_ctx, oldest, Checked, turned_away, let_through, Outcome, stale, put_off, exchanged,
  direct, process_in_ctx-Outcome,
}

-- Every index into the arrays of `station_ctx_t` is in bounds.
pub record IsStation (base : StationCtx) : Type 0 where
  pub pm25_full : length base.window_pm25 ≡ window_size
  pub pm10_full : length base.window_pm10 ≡ window_size
  pub temp_full : length base.window_temp ≡ window_size
  pub hum_full : length base.window_hum ≡ window_size
  pub co_full : length base.window_co ≡ window_size
  pub noise_full : length base.window_noise ≡ window_size
  pub idx_in : base.w_idx < window_size
  pub count_in : base.w_count ≤ window_size

push_windows-IsStation :
    (base : StationCtx) (f : EnvFrame) → IsStation base → IsStation (push_windows base f)
unfolding push_windows
push_windows-IsStation base f v = record {
  pm25_full = length-set base.window_pm25 base.w_idx f.pm25 ∙ v.pm25_full;
  pm10_full = length-set base.window_pm10 base.w_idx f.pm10 ∙ v.pm10_full;
  temp_full = length-set base.window_temp base.w_idx f.temperature ∙ v.temp_full;
  hum_full = length-set base.window_hum base.w_idx f.humidity ∙ v.hum_full;
  co_full = length-set base.window_co base.w_idx f.co_ppb ∙ v.co_full;
  noise_full = length-set base.window_noise base.w_idx f.noise_db ∙ v.noise_full;
  idx_in = omega arith;
  count_in = ground (arith, v.count_in);
}

-- The windows, and a reorder buffer of five frames that holds no alarm.
pub record IsCtx (ctx : InternalCtx) : Type 0 where
  pub station : IsStation ctx.base
  pub buf_full : length ctx.reorder_buf ≡ 5
  pub reorder_in : ctx.reorder_count ≤ 5
  pub no_alarm : (i : ℕ) → is_alarm (get_or ctx.reorder_buf i zero_frame) ≡ false

all_zero : (n i : ℕ) → get_or (replicate n zero_frame) i zero_frame ≡ zero_frame
all_zero zero i = refl
all_zero (suc n) zero = refl
all_zero (suc n) (suc i) = all_zero n i

pub fresh_ctx-IsCtx : (id : ℕ) → IsCtx (fresh_ctx id)
unfolding station_ctx_reset
fresh_ctx-IsCtx id = record {
  station = record {
    pm25_full = refl;
    pm10_full = refl;
    temp_full = refl;
    hum_full = refl;
    co_full = refl;
    noise_full = refl;
    idx_in = omega arith;
    count_in = omega arith;
  };
  buf_full = refl;
  reorder_in = omega arith;
  no_alarm = λ i. ap is_alarm (all_zero 5 i);
}

set-no_alarm :
    (buf : List EnvFrame) (k : ℕ) (f : EnvFrame)
    → ((i : ℕ) → is_alarm (get_or buf i zero_frame) ≡ false)
    → is_alarm f ≡ false
    → (i : ℕ) → is_alarm (get_or (set buf k f) i zero_frame) ≡ false
set-no_alarm [] k f h n i = refl
set-no_alarm (b ∷ buf) zero f h n zero = n
set-no_alarm (b ∷ buf) zero f h n (suc i) = h (suc i)
set-no_alarm (b ∷ buf) (suc k) f h n zero = h 0
set-no_alarm (b ∷ buf) (suc k) f h n (suc i) = set-no_alarm buf k f (λ j. h (suc j)) n i

Checked-IsCtx :
    (d : Doubles) (ctx : InternalCtx) (f : EnvFrame) (c : Cleaned)
    → IsCtx ctx
    → Checked d ctx f c
    → IsCtx c.ctx
Checked-IsCtx d ctx f c v (turned_away k) = v
Checked-IsCtx d ctx f c v (let_through within usual) = record {
  station = push_windows-IsStation ctx.base f v.station;
  buf_full = v.buf_full;
  reorder_in = v.reorder_in;
  no_alarm = v.no_alarm;
}

pub process_in_ctx-IsCtx :
    (d : Doubles) (ctx : InternalCtx) (f : EnvFrame)
    → IsCtx ctx
    → is_alarm f ≡ false
    → IsCtx (process_in_ctx d ctx f).1.ctx × (is_alarm (process_in_ctx d ctx f).0 ≡ false)
process_in_ctx-IsCtx d ctx f v normal = go (process_in_ctx d ctx f) (process_in_ctx-Outcome d ctx f)
  where
    go : (r : EnvFrame × Cleaned) → Outcome d ctx f r → IsCtx r.1.ctx × (is_alarm r.0 ≡ false)
    go r (stale old) = (v, normal)
    go r (put_off new far room) = (
      record {
        station = v.station;
        buf_full = length-set ctx.reorder_buf ctx.reorder_count f ∙ v.buf_full;
        reorder_in = omega arith;
        no_alarm = set-no_alarm ctx.reorder_buf ctx.reorder_count f v.no_alarm normal;
      },
      normal,
    )
    go r (exchanged new far full c checked) = (
      Checked-IsCtx d (exchanged_ctx ctx f) _ c
          (record {
            station = v.station;
            buf_full = length-set ctx.reorder_buf (oldest ctx) f ∙ v.buf_full;
            reorder_in = v.reorder_in;
            no_alarm = set-no_alarm ctx.reorder_buf (oldest ctx) f v.no_alarm normal;
          })
          checked,
      v.no_alarm (oldest ctx),
    )
    go r (direct new near c checked) = (Checked-IsCtx d ctx f c v checked, normal)
