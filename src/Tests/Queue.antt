-- ===== src/Tests/Queue.antt =====
-- Concrete runs of pipeline/ring_queue.c.
use io_t_collector.Base.{◌+◌, ◌≡◌, refl, arith, min, true, List, [], ◌∷◌, ◌++◌, take, drop}
use io_t_collector.Frame.{EnvFrame, zero_frame, frame_alarm}
use io_t_collector.Ring.{
  Ring, write_head, woken, ring_push, pushed, ring_push_try, ring_pop_batch, popped,
}
use io_t_collector.Ring.Queue
use io_t_collector.Ring.Queue.{all_alarms}
use io_t_collector.Ring.Index.{IsPow}
use io_t_collector.Ring.Inv.{IsValid, cell, contents}
use io_t_collector.Ring.Push.{Holds, ring_push_try_refines}
use io_t_collector.Ring.Block.{FirstRoom, ring_push-FirstRoom, ring_push_overflow}
use io_t_collector.Ring.Pop.{ring_pop_batch_lem}
use io_t_collector.Ring.Order.{Turn, push, pop, run, alarms, run-keeps_alarms}

abbrev pub normal : EnvFrame
normal = record zero_frame { station_id = 1 }

abbrev alarm : EnvFrame
alarm = record zero_frame { station_id = 2; frame_type = frame_alarm }

-- Two cells, the second one written first.
abbrev full_ring : Ring
full_ring = record {
  buf = alarm ∷ normal ∷ [];
  capacity = 2;
  head = 1;
  tail = 1;
  count = 2;
  dropped = 0;
}

two-IsPow : IsPow 2
two-IsPow = record { order = 1; power = refl; small = omega arith }

full_ring-IsValid : IsValid full_ring
full_ring-IsValid = record {
  pow = two-IsPow;
  storage = refl;
  tail_in = omega arith;
  count_in = omega arith;
  head_at = refl;
}

abbrev pub empty_ring : Ring
empty_ring = record {
  buf = normal ∷ normal ∷ [];
  capacity = 2;
  head = 0;
  tail = 0;
  count = 0;
  dropped = 0;
}

pub empty_ring-IsValid : IsValid empty_ring
empty_ring-IsValid = record {
  pow = two-IsPow;
  storage = refl;
  tail_in = omega arith;
  count_in = omega arith;
  head_at = refl;
}

abbrev alarm_ring : Ring
alarm_ring = record {
  buf = alarm ∷ alarm ∷ [];
  capacity = 2;
  head = 0;
  tail = 0;
  count = 2;
  dropped = 0;
}

alarm_ring-IsValid : IsValid alarm_ring
alarm_ring-IsValid = record {
  pow = two-IsPow;
  storage = refl;
  tail_in = omega arith;
  count_in = omega arith;
  head_at = refl;
}

ring_push_try_refines_example :
    let (s, q') = ring_push_try full_ring alarm in
    let (s', fs) = Queue.push_try 2 (normal ∷ alarm ∷ []) alarm in (s ≡ s') × Holds 2 fs q'
ring_push_try_refines_example = ring_push_try_refines full_ring alarm full_ring-IsValid

abbrev turns : List Turn
turns = push normal ∷ push alarm ∷ push alarm ∷ pop 1 ∷ push alarm ∷ []

run-keeps_alarms_example :
    let l = run (record { ring = empty_ring; accepted = []; delivered = [] }) turns in
    IsValid l.ring × (alarms (l.delivered ++ contents l.ring) ≡ alarms l.accepted)
run-keeps_alarms_example = run-keeps_alarms empty_ring turns empty_ring-IsValid refl

ring_pop_batch_lem_example :
    (q' : Ring) × (ring_pop_batch true full_ring 1 []
      ≡ popped (take (min 2 1) (normal ∷ alarm ∷ [])) q')
    × Holds 2 (drop (min 2 1) (normal ∷ alarm ∷ [])) q'
ring_pop_batch_lem_example = ring_pop_batch_lem true full_ring 1 [] full_ring-IsValid (omega arith)

pushed_at_wake :
    ring_push full_ring normal (woken empty_ring ∷ []) ≡ pushed (write_head empty_ring normal)
unfolding ring_push
pushed_at_wake = refl

ring_push-FirstRoom_example :
    (q' : Ring) × FirstRoom full_ring (woken empty_ring ∷ []) q'
    × Holds q'.capacity (contents q' ++ (normal ∷ [])) (write_head empty_ring normal)
ring_push-FirstRoom_example =
    ring_push-FirstRoom full_ring normal (woken empty_ring ∷ []) full_ring-IsValid
      (empty_ring-IsValid, tt) refl pushed_at_wake

only_alarms : all_alarms (alarm ∷ alarm ∷ []) ≡ true
unfolding all_alarms
only_alarms = refl

ring_push_overflow_example :
    (ring_push alarm_ring alarm [] ≡ pushed (write_head alarm_ring alarm))
    × ((write_head alarm_ring alarm).count ≡ 2 + 1)
    × (cell (write_head alarm_ring alarm) 0 ≡ alarm)
    × (¬ IsValid (write_head alarm_ring alarm))
ring_push_overflow_example =
    ring_push_overflow alarm_ring alarm [] alarm_ring-IsValid refl only_alarms refl
