-- ===== src/Tests/Threads.antt =====
-- Concrete runs of common/thread_pool.c.
use io_t_collector.Base.{◌≡◌, refl, arith, true, false, some, [], ◌∷◌}
use io_t_collector.Frame.{zero_frame}
use io_t_collector.Ring.{Ring, write_head, ring_init}
use io_t_collector.Ring.Inv.{IsValid}
use io_t_collector.Ring.Push.{Holds}
use io_t_collector.Pool.{tp_pack_task, tp_spawn_locked, command_frame, pool_cmd_scale_up}
use io_t_collector.Pool.System.{
  ThreadPool, SpawnAnswer, sample_water, act_on, on_high_water, leave, tp_init, spawn_loop,
}
use io_t_collector.Pool.Water.{sample_all, sample_all_lem}
use io_t_collector.Pool.Steps.{after_act, here, next, samples, acts, stops, IsSafe, Reach-IsSafe}
use io_t_collector.Pool.Journal.{Journal, worked, shutting}
use io_t_collector.Pool.Overrun.{on_high_water_loses}
use io_t_collector.Tests.Queue.{empty_ring, empty_ring-IsValid}

-- One worker, which may leave.
abbrev one_worker : ThreadPool
one_worker = record {
  pool = record { workers = 5 ∷ []; worker_num = 1; max_workers = 2 };
  task_queue = empty_ring;
  shutdown = false;
  g_min_workers = 0;
  g_water_high_count = 0;
}

one_worker-IsSafe : IsSafe one_worker
one_worker-IsSafe = record {
  counted = record { counted = refl; limited = omega arith; fits = omega arith };
  enough = λ on. omega arith;
}

abbrev no_answer : SpawnAnswer
no_answer = record { node = 0; malloc_ok = true; create_ok = true }

-- A sample, the worker that takes a command to leave, and the shutdown.
Reach-IsSafe_example :
    IsSafe
      (record (after_act (act_on (sample_water one_worker 90).1 5 (command_frame 2) no_answer)) {
        shutdown = true;
      })
unfolding sample_water
Reach-IsSafe_example =
    Reach-IsSafe one_worker-IsSafe (
      next (next (next here (samples 90)) (acts 5 (command_frame 2) no_answer (omega arith))) stops)

sample_all_lem_example :
    sample_all one_worker (90 ∷ 90 ∷ 10 ∷ 90 ∷ 90 ∷ 90 ∷ [])
    ≡ false ∷ false ∷ false ∷ false ∷ false ∷ true ∷ []
sample_all_lem_example = sample_all_lem one_worker (90 ∷ 90 ∷ 10 ∷ 90 ∷ 90 ∷ 90 ∷ []) refl

abbrev fresh_ring : Ring
fresh_ring = record empty_ring { buf = zero_frame ∷ zero_frame ∷ [] }

-- What `tp_init` makes with a minimum of one worker, whose node is at 5.
abbrev fresh_pool : ThreadPool
fresh_pool = record one_worker { task_queue = fresh_ring; g_min_workers = 1 }

abbrev node_at_5 : SpawnAnswer
node_at_5 = record { node = 5; malloc_ok = true; create_ok = true }

fresh_pool_made : tp_init 1 2 2 true true (λ _. node_at_5) ≡ some fresh_pool
unfolding tp_init spawn_loop tp_spawn_locked ring_init
fresh_pool_made = refl

abbrev at_start : Journal
at_start = record { tp = fresh_pool; submitted = []; called = [] }

abbrev with_task : Ring
with_task = write_head fresh_ring (tp_pack_task 77)

abbrev with_two : Ring
with_two = write_head with_task (tp_pack_task 78)

-- Two tasks are queued.
abbrev queued : Journal
queued = record {
  tp = record fresh_pool { task_queue = with_two };
  submitted = 77 ∷ 78 ∷ [];
  called = [];
}

-- The worker calls the first task.
abbrev at_end : Journal
at_end = worked queued 5 no_answer

-- The worker has read `shutdown`, and leaves while `tp_destroy` waits.
abbrev worker_left : Journal
worker_left = record at_end { tp = leave (shutting at_end).tp 5 }

-- Two tasks fill the queue.
abbrev full_queue : Ring
full_queue = record {
  buf = zero_frame ∷ record zero_frame { timestamp_sec = 8 } ∷ [];
  capacity = 2;
  head = 0;
  tail = 0;
  count = 2;
  dropped = 0;
}

full_queue-IsValid : IsValid full_queue
full_queue-IsValid = record {
  pow = empty_ring-IsValid.pow;
  storage = refl;
  tail_in = omega arith;
  count_in = omega arith;
  head_at = refl;
}

on_high_water_loses_example :
    Holds 2
      (record zero_frame { timestamp_sec = 8 } ∷ command_frame pool_cmd_scale_up ∷ [])
      (on_high_water (record one_worker { task_queue = full_queue })).task_queue
on_high_water_loses_example =
    on_high_water_loses (record one_worker { task_queue = full_queue }) zero_frame
      (record zero_frame { timestamp_sec = 8 } ∷ []) full_queue-IsValid refl refl refl
