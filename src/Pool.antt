-- ===== src/Pool.antt =====
-- common/thread_pool.c: tasks as frames, and the list of workers.
use io_t_collector.Base.{
  ℕ, zero, suc, ◌+◌, ◌*◌, ◌/◌, ◌%◌, ◌^◌, Bool, true, false, not, if◌then◌else◌, leb, ◌==◌, List, [],
  ◌∷◌,
}
use io_t_collector.Base.Words.{u32, sub32}
use io_t_collector.Frame.{EnvFrame, zero_frame, frame_normal, frame_alarm}
use io_t_collector.Ring.{Ring, PushEnd, Wake, ring_push}
pub mod Workers
pub mod System
pub mod Water
pub mod Steps
pub mod Start
pub mod Tasks
pub mod Journal
pub mod Overrun

-- `memcpy(&ef->timestamp_sec, &t, 8)`: the pointer's low half lands in `timestamp_sec`, its high half
-- in `timestamp_ms`, which follows it in the packed frame. `FRAME_DATA` is 0.
unfoldable pub tp_pack_task : ℕ → EnvFrame
tp_pack_task t = record zero_frame {
  frame_type = frame_normal;
  timestamp_sec = t % 2 ^ 32;
  timestamp_ms = t / 2 ^ 32 % 2 ^ 32;
}

unfoldable pub tp_unpack_task : EnvFrame → ℕ
tp_unpack_task ef = ef.timestamp_sec + 2 ^ 32 * ef.timestamp_ms

abbrev pub pool_cmd_scale_up : ℕ
pool_cmd_scale_up = 1

abbrev pub pool_cmd_scale_down : ℕ
pool_cmd_scale_down = 2

-- The command frame that a water mark callback pushes.
abbrev pub command_frame : ℕ → EnvFrame
command_frame command = record zero_frame { frame_type = frame_alarm; station_id = command }

unfoldable pub tp_default_on_high_water : Ring → List Wake → PushEnd
tp_default_on_high_water task_queue wakes =
    ring_push task_queue (command_frame pool_cmd_scale_up) wakes

unfoldable pub tp_default_on_low_water : Ring → List Wake → PushEnd
tp_default_on_low_water task_queue wakes =
    ring_push task_queue (command_frame pool_cmd_scale_down) wakes

-- `thread_pool_t`: the addresses in the list `workers`, and the counts.
pub record Pool : Type 0 where
  pub workers : List ℕ
  pub worker_num : ℕ
  pub max_workers : ℕ

-- `node` is the address that `calloc` gives, 0 if there is none; the others are whether `malloc` and
-- `pthread_create` succeed. The Boolean is whether the call returns 0.
unfoldable pub tp_spawn_locked : Pool → ℕ → Bool → Bool → Bool × Pool
tp_spawn_locked tp node malloc_ok create_ok =
    if leb tp.max_workers tp.worker_num
    then (false, tp)
    else if node == 0
    then (false, tp)
    else if not malloc_ok
    then (false, tp)
    else if not create_ok
    then (false, tp)
    else (true, record tp { workers = node ∷ tp.workers; worker_num = u32 (tp.worker_num + 1) })

-- The walk along the list to the first node that is `self`.
unfoldable pub unlink : List ℕ → ℕ → List ℕ
unlink [] self = []
unlink (w ∷ ws) self = let rest = unlink ws self in if w == self then ws else w ∷ rest

unfoldable pub tp_unlink_locked : Pool → ℕ → Pool
tp_unlink_locked tp self = record tp {
  workers = unlink tp.workers self;
  worker_num = sub32 tp.worker_num 1;
}
