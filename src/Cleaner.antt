-- ===== src/Cleaner.antt =====
-- pipeline/cleaner.c: range checks, duplicates, the reorder buffer and the worker between Q1 and Q2.
use io_t_collector.Base.{
  ℕ, zero, suc, ◌+◌, ◌-◌, ◌%◌, ◌^◌, Bool, true, false, not, ◌&&◌, ◌||◌, if◌then◌else◌, ltb, leb,
  ◌==◌, Option, none, some, List, [], ◌∷◌, ◌++◌, map, set, get_or, length, replicate,
}
use io_t_collector.Base.Words.{u8, u32}
use io_t_collector.Status.{Status, is_ok}
use io_t_collector.Frame.{EnvFrame, frame_alarm, frame_heart, zero_frame}
use io_t_collector.Ring.{Ring, ring_push_try}
use io_t_collector.Station.{StationCtx, Doubles, window_size, station_ctx_reset, anomaly_detect_all}
pub mod Outcome
pub mod Inv
pub mod Oldest
pub mod Process
pub mod Worker

-- `clean_result_t`.
pub data CleanResult : Type 0 where
  clean_pass : CleanResult
  clean_drop : CleanResult
  clean_alarm : CleanResult

-- `station_internal_ctx_t`.
pub record InternalCtx : Type 0 where
  pub base : StationCtx
  pub last_valid_timestamp_sec : ℕ
  pub last_valid_timestamp_ms : ℕ
  pub reorder_buf : List EnvFrame
  pub reorder_count : ℕ
  pub has_valid_timestamp : Bool

-- `g_internal_ctxs`, by station number.
abbrev pub Contexts : Type 0
Contexts = ℕ → Option InternalCtx

unfoldable pub cleaner_init : Contexts
cleaner_init = λ id. none

unfoldable pub cleaner_destroy : Contexts → Contexts
cleaner_destroy ctxs = λ id. none

-- `g_internal_ctxs[id] = ctx`.
abbrev pub put_ctx : Contexts → ℕ → InternalCtx → Contexts
put_ctx ctxs id ctx = λ i. if i == id then some ctx else ctxs i

abbrev pub fresh_ctx : ℕ → InternalCtx
fresh_ctx station_id = record {
  base = station_ctx_reset station_id;
  last_valid_timestamp_sec = 0;
  last_valid_timestamp_ms = 0;
  reorder_buf = replicate 5 zero_frame;
  reorder_count = 0;
  has_valid_timestamp = false;
}

-- `alloc` is whether `calloc` has memory; the context is stored by the caller's `put_ctx`.
unfoldable pub get_internal_ctx : Bool → Contexts → ℕ → Option InternalCtx
get_internal_ctx alloc ctxs station_id = elim (ctxs station_id) [
  | some ctx ↦ some ctx
  | none ↦ if alloc then some (fresh_ctx station_id) else none
]

-- `t < -400 || t > 800` on the bit pattern of an `int16_t`.
abbrev pub temperature_out : ℕ → Bool
temperature_out t = if ltb t (2 ^ 15) then ltb 800 t else ltb t (2 ^ 16 - 400)

unfoldable pub out_of_range : EnvFrame → Bool
out_of_range f =
    (ltb 1000 f.pm25 || ltb 1000 f.pm10)
    || (temperature_out f.temperature
        || (ltb 1000 f.humidity || (ltb 50000 f.co_ppb || ltb 1500 f.noise_db)))

-- The writes to the six windows and the move of the write index.
unfoldable pub push_windows : StationCtx → EnvFrame → StationCtx
push_windows base f = record base {
  window_pm25 = set base.window_pm25 base.w_idx f.pm25;
  window_pm10 = set base.window_pm10 base.w_idx f.pm10;
  window_temp = set base.window_temp base.w_idx f.temperature;
  window_hum = set base.window_hum base.w_idx f.humidity;
  window_co = set base.window_co base.w_idx f.co_ppb;
  window_noise = set base.window_noise base.w_idx f.noise_db;
  w_idx = (base.w_idx + 1) % window_size;
  w_count = if ltb base.w_count window_size then base.w_count + 1 else base.w_count;
}

-- A result, the context after it, and the kind counted by `stats_on_clean`, if any.
pub record Cleaned : Type 0 where
  pub result : CleanResult
  pub ctx : InternalCtx
  pub counted : Option ℕ

unfoldable pub process_valid_frame : Doubles → InternalCtx → EnvFrame → Cleaned
process_valid_frame d ctx frame =
    if out_of_range frame
    then record { result = clean_drop; ctx = ctx; counted = some 2 }
    else if anomaly_detect_all d ctx.base frame
    then record { result = clean_drop; ctx = ctx; counted = some 1 }
    else record {
      result = clean_pass;
      ctx = record ctx {
        base = push_windows ctx.base frame;
        last_valid_timestamp_sec = frame.timestamp_sec;
        last_valid_timestamp_ms = frame.timestamp_ms;
        has_valid_timestamp = true;
      };
      counted = none;
    }

-- `f`'s time stamp is before `g`'s.
abbrev pub earlier : EnvFrame → EnvFrame → Bool
earlier f g =
    ltb f.timestamp_sec g.timestamp_sec
    || (f.timestamp_sec == g.timestamp_sec && ltb f.timestamp_ms g.timestamp_ms)

-- `n` turns of the search for the oldest frame, from the index `i` on.
unfoldable pub min_idx_loop : ℕ → List EnvFrame → ℕ → ℕ → ℕ
min_idx_loop zero buf i min_idx = min_idx
min_idx_loop (suc n) buf i min_idx =
    min_idx_loop n buf (i + 1)
      (if earlier (get_or buf i zero_frame) (get_or buf min_idx zero_frame) then i else min_idx)

unfoldable pub is_stale : InternalCtx → EnvFrame → Bool
is_stale ctx f =
    ctx.has_valid_timestamp
    && (ltb f.timestamp_sec ctx.last_valid_timestamp_sec
        || (f.timestamp_sec == ctx.last_valid_timestamp_sec
            && leb f.timestamp_ms ctx.last_valid_timestamp_ms))

unfoldable pub is_jump : InternalCtx → EnvFrame → Bool
is_jump ctx f =
    ctx.has_valid_timestamp && ltb (u32 (ctx.last_valid_timestamp_sec + 10)) f.timestamp_sec

-- What `*frame` is after the call, with the rest of what the call gives.
unfoldable pub process_in_ctx : Doubles → InternalCtx → EnvFrame → EnvFrame × Cleaned
process_in_ctx d ctx frame =
    if is_stale ctx frame
    then (frame, record { result = clean_drop; ctx = ctx; counted = some 3 })
    else if is_jump ctx frame
    then (if ltb ctx.reorder_count 5
        then (
          frame,
          record {
            result = clean_drop;
            ctx = record ctx {
              reorder_buf = set ctx.reorder_buf ctx.reorder_count frame;
              reorder_count = ctx.reorder_count + 1;
            };
            counted = none;
          },
        )
        else (let min_idx = min_idx_loop 4 ctx.reorder_buf 1 0 in
            let oldest_frame = get_or ctx.reorder_buf min_idx zero_frame in
            (
              oldest_frame,
              process_valid_frame d (record ctx { reorder_buf = set ctx.reorder_buf min_idx frame })
                  oldest_frame,
            )))
    else (frame, process_valid_frame d ctx frame)

-- What `cleaner_process` gives: its result, `*frame`, `g_internal_ctxs` and the kind counted.
pub record Processed : Type 0 where
  pub result : CleanResult
  pub frame : EnvFrame
  pub ctxs : Contexts
  pub counted : Option ℕ

unfoldable pub cleaner_process : Doubles → Bool → Contexts → EnvFrame → Processed
cleaner_process d alloc ctxs frame =
    if frame.frame_type == frame_alarm
    then record { result = clean_alarm; frame = frame; ctxs = ctxs; counted = none }
    else if frame.frame_type == frame_heart
    then record { result = clean_drop; frame = frame; ctxs = ctxs; counted = some 4 }
    else elim (get_internal_ctx alloc ctxs frame.station_id) [
      | none ↦ record { result = clean_drop; frame = frame; ctxs = ctxs; counted = none }
      | some ctx ↦
          let (frame', c) = process_in_ctx d ctx frame in
          record {
            result = c.result;
            frame = frame';
            ctxs = put_ctx ctxs frame.station_id c.ctx;
            counted = c.counted;
          }
    ]

-- The state that a worker changes: the contexts, Q2, and its number of calls of `stats_on_drop`.
pub record WorkerState : Type 0 where
  pub ctxs : Contexts
  pub q2 : Ring
  pub drops : ℕ

-- The body of the worker's loop over a batch.
unfoldable pub clean_one : Doubles → Bool → WorkerState → EnvFrame → WorkerState
clean_one d alloc w frame =
    let p = cleaner_process d alloc w.ctxs frame in
    let (s, q) = ring_push_try w.q2 p.frame in
    let pushed = record w {
      ctxs = p.ctxs;
      q2 = q;
      drops = if is_ok s then w.drops else w.drops + 1;
    } in
    elim p.result [
      | clean_drop ↦ record w { ctxs = p.ctxs }
      | clean_pass ↦ pushed
      | clean_alarm ↦ pushed
    ]

unfoldable pub clean_batch : Doubles → Bool → WorkerState → List EnvFrame → WorkerState
clean_batch d alloc w [] = w
clean_batch d alloc w (f ∷ fs) = clean_batch d alloc (clean_one d alloc w f) fs
