-- ===== src/Tests/Clean.antt =====
-- Concrete runs of pipeline/cleaner.c, with `double` replaced by natural numbers.
use io_t_collector.Base.{
  ℕ, ◌+◌, ◌-◌, ◌*◌, ◌/◌, ◌≡◌, refl, arith, true, false, ltb, some, List, [], ◌∷◌, ◌++◌,
}
use io_t_collector.Frame.{EnvFrame, zero_frame, frame_alarm, frame_heart}
use io_t_collector.Ring.{Ring, is_alarm}
use io_t_collector.Ring.Inv.{IsValid, contents}
use io_t_collector.Ring.Order.{alarms}
use io_t_collector.Station.{Doubles, anomaly_detect_all, station_ctx_reset}
use io_t_collector.Cleaner.{
  clean_pass, clean_drop, InternalCtx, fresh_ctx, get_internal_ctx, cleaner_init, out_of_range,
  is_stale, is_jump, process_valid_frame, process_in_ctx, earlier, cleaner_process, WorkerState,
  clean_batch,
}
use io_t_collector.Cleaner.Process.{
  IsContexts, IsPhysical, cleaner_process-IsContexts, cleaner_process-range,
  cleaner_process-duplicate,
}
use io_t_collector.Cleaner.Worker.{clean_batch-alarms}

abbrev pub whole_numbers : Doubles
whole_numbers = record {
  Double = ℕ;
  from_int16 = λ n. n;
  from_count = λ n. n;
  add = λ a b. a + b;
  sub = λ a b. a - b;
  mul = λ a b. a * b;
  div = λ a b. a / b;
  sqrt = λ a. a;
  fabs = λ a. a;
  less = λ a b. ltb a b;
  nought = 0;
  tiny = 1;
  anomaly_sigma = 3;
}

abbrev reading : EnvFrame
reading = record zero_frame { station_id = 7; timestamp_sec = 1000; pm25 = 35 }

cleaner_init-IsContexts : IsContexts cleaner_init
unfolding cleaner_init
cleaner_init-IsContexts = record { all_valid = λ id ctx e. ground arith }

cleaner_process-IsContexts_example :
    IsContexts (cleaner_process whole_numbers true cleaner_init reading).ctxs
    × (is_alarm (cleaner_process whole_numbers true cleaner_init reading).frame ≡ is_alarm reading)
cleaner_process-IsContexts_example =
    cleaner_process-IsContexts whole_numbers true cleaner_init reading cleaner_init-IsContexts

passes : (cleaner_process whole_numbers true cleaner_init reading).result ≡ clean_pass
unfolding cleaner_process cleaner_init get_internal_ctx process_in_ctx is_stale is_jump
    process_valid_frame out_of_range anomaly_detect_all station_ctx_reset
passes = refl

same_frame : (cleaner_process whole_numbers true cleaner_init reading).frame ≡ reading
unfolding cleaner_process cleaner_init get_internal_ctx process_in_ctx is_stale is_jump
    process_valid_frame out_of_range anomaly_detect_all station_ctx_reset
same_frame = refl

cleaner_process-range_example :
    IsPhysical (cleaner_process whole_numbers true cleaner_init reading).frame
cleaner_process-range_example = cleaner_process-range whole_numbers true cleaner_init reading passes

not_later : earlier (cleaner_process whole_numbers true cleaner_init reading).frame reading ≡ false
not_later = rw same_frame refl

cleaner_process-duplicate_example :
    let r =
      cleaner_process whole_numbers true
        (cleaner_process whole_numbers true cleaner_init reading).ctxs
        reading in
    (r.result ≡ clean_drop) × (r.counted ≡ some 3)
cleaner_process-duplicate_example =
    cleaner_process-duplicate whole_numbers true true cleaner_init reading reading passes refl refl
      refl not_later

abbrev kept : InternalCtx
kept = record (fresh_ctx 7) {
  reorder_buf =
      record reading { timestamp_sec = 1040 }
      ∷ record reading { timestamp_sec = 1020 }
      ∷ record reading { timestamp_sec = 1060 }
      ∷ record reading { timestamp_sec = 1030 }
      ∷ record reading { timestamp_sec = 1050 }
      ∷ [];
  reorder_count = 5;
}

abbrev empty_ring : Ring
empty_ring = record {
  buf = zero_frame ∷ zero_frame ∷ [];
  capacity = 2;
  head = 0;
  tail = 0;
  count = 0;
  dropped = 0;
}

empty_ring-IsValid : IsValid empty_ring
empty_ring-IsValid = record {
  pow = record { order = 1; power = refl; small = omega arith };
  storage = refl;
  tail_in = omega arith;
  count_in = omega arith;
  head_at = refl;
}

abbrev start : WorkerState
start = record { ctxs = cleaner_init; q2 = empty_ring; drops = 0 }

abbrev batch : List EnvFrame
batch =
    reading
    ∷ record reading { frame_type = frame_alarm }
    ∷ record reading { frame_type = frame_heart }
    ∷ []

clean_batch-alarms_example :
    IsValid (clean_batch whole_numbers true start batch).q2
    × (alarms (contents (clean_batch whole_numbers true start batch).q2)
        ≡ alarms (contents empty_ring) ++ alarms batch)
clean_batch-alarms_example =
    clean_batch-alarms whole_numbers true start batch empty_ring-IsValid cleaner_init-IsContexts
      (omega arith)
