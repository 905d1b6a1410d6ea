-- ===== src/Cleaner/Outcome.antt =====
-- The ways in which a frame leaves `process_valid_frame` and the body of `cleaner_process`.
use io_t_collector.Base.{
  ℕ, ◌+◌, ◌≤◌, ◌<◌, ◌≡◌, arith, true, false, Bool-cases, inl, inr, ltb, ltb→lt, none, some, set,
  get_or,
}
use io_t_collector.Frame.{EnvFrame, zero_frame}
use io_t_collector.Station.{Doubles, anomaly_detect_all}
use io_t_collector.Cleaner.{
  clean_pass, clean_drop, InternalCtx, out_of_range, push_windows, Cleaned, process_valid_frame,
  min_idx_loop, is_stale, is_jump, process_in_ctx,
}

-- The context after a frame passed.
abbrev pub passed_ctx : InternalCtx → EnvFrame → InternalCtx
passed_ctx ctx f = record ctx {
  base = push_windows ctx.base f;
  last_valid_timestamp_sec = f.timestamp_sec;
  last_valid_timestamp_ms = f.timestamp_ms;
  has_valid_timestamp = true;
}

pub data Checked (d : Doubles) (ctx : InternalCtx) (f : EnvFrame) : Cleaned → Type 1 where
  turned_away :
      (k : ℕ) → Checked d ctx f (record { result = clean_drop; ctx = ctx; counted = some k })
  let_through :
      out_of_range f ≡ false
      → anomaly_detect_all d ctx.base f ≡ false
      → Checked d ctx f (record { result = clean_pass; ctx = passed_ctx ctx f; counted = none })

pub process_valid_frame-Checked :
    (d : Doubles) (ctx : InternalCtx) (f : EnvFrame) → Checked d ctx f (process_valid_frame d ctx f)
unfolding process_valid_frame
process_valid_frame-Checked d ctx f = elim (Bool-cases (out_of_range f)) [
  | inl out ↦ rw out (turned_away 2)
  | inr within ↦ elim (Bool-cases (anomaly_detect_all d ctx.base f)) [
    | inl anomaly ↦ rw (within, anomaly) (turned_away 1)
    | inr usual ↦ rw (within, usual) (let_through within usual)
  ]
]

abbrev pub oldest : InternalCtx → ℕ
oldest ctx = min_idx_loop 4 ctx.reorder_buf 1 0

-- The context with a frame kept for later, and with the oldest kept frame exchanged.
abbrev pub kept_ctx : InternalCtx → EnvFrame → InternalCtx
kept_ctx ctx f = record ctx {
  reorder_buf = set ctx.reorder_buf ctx.reorder_count f;
  reorder_count = ctx.reorder_count + 1;
}

abbrev pub exchanged_ctx : InternalCtx → EnvFrame → InternalCtx
exchanged_ctx ctx f = record ctx { reorder_buf = set ctx.reorder_buf (oldest ctx) f }

pub data Outcome (d : Doubles) (ctx : InternalCtx) (f : EnvFrame)
    : EnvFrame × Cleaned → Type 1 where
  stale :
      is_stale ctx f ≡ true
      → Outcome d ctx f (f, record { result = clean_drop; ctx = ctx; counted = some 3 })
  put_off :
      is_stale ctx f ≡ false
      → is_jump ctx f ≡ true
      → ctx.reorder_count < 5
      → Outcome d ctx f (f, record { result = clean_drop; ctx = kept_ctx ctx f; counted = none })
  exchanged :
      is_stale ctx f ≡ false
      → is_jump ctx f ≡ true
      → 5 ≤ ctx.reorder_count
      → (c : Cleaned)
      → Checked d (exchanged_ctx ctx f) (get_or ctx.reorder_buf (oldest ctx) zero_frame) c
      → Outcome d ctx f (get_or ctx.reorder_buf (oldest ctx) zero_frame, c)
  direct :
      is_stale ctx f ≡ false
      → is_jump ctx f ≡ false
      → (c : Cleaned) → Checked d ctx f c
      → Outcome d ctx f (f, c)

pub process_in_ctx-Outcome :
    (d : Doubles) (ctx : InternalCtx) (f : EnvFrame) → Outcome d ctx f (process_in_ctx d ctx f)
unfolding process_in_ctx
process_in_ctx-Outcome d ctx f = elim (Bool-cases (is_stale ctx f)) [
  | inl old ↦ rw old (stale old)
  | inr new ↦ elim (Bool-cases (is_jump ctx f)) [
    | inr near ↦ rw (new, near) (direct new near _ (process_valid_frame-Checked d ctx f))
    | inl far ↦ elim (Bool-cases (ltb ctx.reorder_count 5)) [
      | inl room ↦ rw (new, far, room) (put_off new far (ltb→lt ctx.reorder_count 5 room))
      | inr full ↦
          rw (new, far, full)
            (exchanged new far (ground arith) _
              (process_valid_frame-Checked d (exchanged_ctx ctx f) _))
    ]
  ]
]
