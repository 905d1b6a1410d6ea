-- ===== src/Pool/System.antt =====
-- common/thread_pool.c: `tp_init`, `tp_submit`, the turns of `tp_worker` and `tp_destroy`. A critical
-- section is one function on the pool; what other threads do between two sections is an argument.
use io_t_collector.Base.{
  ℕ, zero, suc, ◌+◌, ◌*◌, ◌/◌, Bool, true, false, not, ◌||◌, List, [], ◌∷◌, ◌++◌, bit_and, ltb, leb,
  ◌==◌, if◌then◌else◌, get_or, Option, none, some,
}
use io_t_collector.Base.Words.{u8, u32, u64, sub32}
use io_t_collector.Status.{Result, done, fail}
use io_t_collector.Frame.{EnvFrame, zero_frame, frame_normal, frame_alarm}
use io_t_collector.Ring.{
  Ring, PushEnd, pushed, push_failed, push_waiting, Wake, ring_init, ring_push, masked,
}
use io_t_collector.Pool.{
  Pool, tp_pack_task, tp_unpack_task, tp_spawn_locked, tp_unlink_locked, pool_cmd_scale_up,
  pool_cmd_scale_down, tp_default_on_high_water, tp_default_on_low_water,
}

abbrev pub idle_timeout_sec : ℕ
idle_timeout_sec = 60

abbrev pub water_high_threshold : ℕ
water_high_threshold = 3

-- `thread_pool_t` with the two counters of the file.
pub record ThreadPool : Type 0 where
  pub pool : Pool
  pub open pool use *
  pub task_queue : Ring
  pub shutdown : Bool
  pub g_min_workers : ℕ
  pub g_water_high_count : ℕ

-- What the system answers in one `tp_spawn_locked`: the node's address (0 if there is none), and
-- whether `malloc` and `pthread_create` succeed.
pub record SpawnAnswer : Type 0 where
  pub node : ℕ
  pub malloc_ok : Bool
  pub create_ok : Bool

abbrev pub spawn : Pool → SpawnAnswer → Bool × Pool
spawn p a = tp_spawn_locked p a.node a.malloc_ok a.create_ok

-- The loop of `tp_init` at round `i`, with `n` rounds left; nothing if `tp_init` gives up.
unfoldable pub spawn_loop : Pool → ℕ → ℕ → (ℕ → SpawnAnswer) → Option Pool
spawn_loop p zero i answers = some p
spawn_loop p (suc n) i answers =
    let (started, p') = spawn p (answers i) in
    let rest = spawn_loop p' n (i + 1) answers in
    if started then rest else if p'.worker_num == 0 then none else some p'

abbrev start_workers : Option Pool → Ring → ℕ → Option ThreadPool
start_workers none q min_w = none
start_workers (some p) q min_w = some (record {
  pool = p;
  task_queue = q;
  shutdown = false;
  g_min_workers = min_w;
  g_water_high_count = 0;
})

abbrev with_queue : Result Ring → ℕ → ℕ → (ℕ → SpawnAnswer) → Option ThreadPool
with_queue (fail s) min_w max_w answers = none
with_queue (done q) min_w max_w answers =
    let empty : Pool = record { workers = []; worker_num = 0; max_workers = max_w } in
    start_workers (spawn_loop empty min_w 0 answers) q min_w

-- `queue_ok` and `storage_ok` are the two `calloc`s. `none` is the return value -1.
unfoldable pub tp_init : ℕ → ℕ → ℕ → Bool → Bool → (ℕ → SpawnAnswer) → Option ThreadPool
tp_init min_w max_w qcap queue_ok storage_ok answers =
    if min_w == 0 || (ltb max_w min_w || qcap == 0)
    then none
    else if not (bit_and qcap (sub32 qcap 1) == 0)
    then none
    else if not queue_ok
    then none
    else with_queue (ring_init storage_ok qcap) min_w max_w answers

-- The level in per cent.
unfoldable pub water_level : ℕ → ℕ → ℕ
water_level len cap = u32 (u64 (len * 100) / cap)

-- The section that counts the high samples; the Boolean is `trigger`.
unfoldable pub sample_water : ThreadPool → ℕ → Bool × ThreadPool
sample_water tp water =
    let high = u32 (tp.g_water_high_count + 1) in
    if ltb 80 water
    then (if leb water_high_threshold high
        then (true, record tp { g_water_high_count = 0 })
        else (false, record tp { g_water_high_count = high }))
    else (false, record tp { g_water_high_count = 0 })

-- How `tp_submit` ends. A failure names the task records that it frees.
pub data SubmitEnd : Type 0 where
  submitted : ThreadPool → SubmitEnd
  submit_failed : List ℕ → ThreadPool → SubmitEnd
  submit_waiting : SubmitEnd

-- What other threads do to the pool while no lock is held.
abbrev pub Others : Type 0
Others = ThreadPool → ThreadPool

abbrev pub undisturbed : Others
undisturbed tp = tp

-- An alarm never waits in `ring_push`; the return value is not looked at.
abbrev after_callback : ThreadPool → PushEnd → ThreadPool
after_callback tp (pushed q) = record tp { task_queue = q }
after_callback tp (push_failed q) = record tp { task_queue = q }
after_callback tp push_waiting = tp

unfoldable pub on_high_water : ThreadPool → ThreadPool
on_high_water tp = after_callback tp (tp_default_on_high_water tp.task_queue [])

unfoldable pub on_low_water : ThreadPool → ThreadPool
on_low_water tp = after_callback tp (tp_default_on_low_water tp.task_queue [])

-- `tp_submit` behind its `ring_push`.
unfoldable pub after_push : ThreadPool → Others → Others → Others → ThreadPool
after_push tp before_level before_count before_callback =
    let seen = before_level tp in
    let water = water_level seen.task_queue.count seen.task_queue.capacity in
    let (trigger, counted) = sample_water (before_count seen) water in
    if trigger then on_high_water (before_callback counted) else counted

abbrev push_ended : ThreadPool → ℕ → PushEnd → Others → Others → Others → SubmitEnd
push_ended tp t (pushed q) o1 o2 o3 = submitted (after_push (record tp { task_queue = q }) o1 o2 o3)
push_ended tp t (push_failed q) o1 o2 o3 = submit_failed (t ∷ []) (record tp { task_queue = q })
push_ended tp t push_waiting o1 o2 o3 = submit_waiting

-- `fn` is the function's address and `t` the one that `calloc` gives, 0 for NULL.
unfoldable pub tp_submit : ThreadPool → ℕ → ℕ → List Wake → Others → Others → Others → SubmitEnd
tp_submit tp fn t wakes before_level before_count before_callback =
    if fn == 0
    then submit_failed [] tp
    else if t == 0
    then submit_failed [] tp
    else push_ended tp t (ring_push tp.task_queue (tp_pack_task t) wakes) before_level before_count
        before_callback

-- One frame taken out under the ring's lock, in `tp_worker` and in `tp_destroy`.
unfoldable pub take_one : Ring → EnvFrame × Ring
take_one q = (
  get_or q.buf q.tail zero_frame,
  record q { tail = masked q (u32 (q.tail + 1)); count = sub32 q.count 1 },
)

-- The two sections of a turn in which a worker found no frame, after `idle` seconds without one.
unfoldable pub idle_turn : ThreadPool → ℕ → Others → ThreadPool
idle_turn tp idle before_callback =
    if leb idle_timeout_sec idle
    then (if ltb tp.g_min_workers tp.worker_num then on_low_water (before_callback tp) else tp)
    else tp

-- `free` of a task record; that of NULL does nothing.
abbrev pub given_back : ℕ → List ℕ
given_back t = if t == 0 then [] else t ∷ []

-- What a worker does with a frame: it goes on, with the task record whose function it called and
-- which it freed if there was one, or its thread returns.
pub data Act : Type 0 where
  went_on : List ℕ → ThreadPool → Act
  left : ThreadPool → Act

unfoldable pub act_on : ThreadPool → ℕ → EnvFrame → SpawnAnswer → Act
act_on tp self ef answer =
    let t = tp_unpack_task ef in
    let cmd = u8 ef.station_id in
    if ef.frame_type == frame_normal
    then went_on (given_back t) tp
    else if ef.frame_type == frame_alarm
    then (if cmd == pool_cmd_scale_up
        then went_on [] (record tp { pool = (spawn tp.pool answer).1 })
        else if cmd == pool_cmd_scale_down
        then (if ltb tp.g_min_workers tp.worker_num
            then left (record tp { pool = tp_unlink_locked tp.pool self })
            else went_on [] tp)
        else went_on [] tp)
    else went_on [] tp

-- The section behind the loop, when a worker has read `shutdown`.
unfoldable pub leave : ThreadPool → ℕ → ThreadPool
leave tp self = record tp { pool = tp_unlink_locked tp.pool self }

-- One turn of the loop of `tp_worker`, which met the pool as `tp` under its first lock.
pub record Gaps : Type 0 where
  pub before_take : Others
  pub before_act : Others
  pub before_callback : Others
  pub idle : ℕ
  pub answer : SpawnAnswer

unfoldable pub tp_worker_turn : ThreadPool → ℕ → Gaps → Act
tp_worker_turn tp self g =
    let met = g.before_take tp in
    let (ef, q) = take_one met.task_queue in
    if tp.shutdown
    then left (leave (g.before_take tp) self)
    else if ltb 0 met.task_queue.count
    then act_on (g.before_act (record met { task_queue = q })) self ef g.answer
    else went_on [] (idle_turn (g.before_act met) g.idle g.before_callback)

abbrev free_one : EnvFrame → Option (List ℕ × Ring) → Option (List ℕ × Ring)
free_one ef none = none
free_one ef (some (ts, q)) =
    some (if ef.frame_type == frame_normal then given_back (tp_unpack_task ef) ++ ts else ts, q)

-- The draining loop of `tp_destroy` with `n` rounds of fuel: the task records that it frees, and the
-- ring that it leaves; nothing if the fuel is too short.
unfoldable pub drain : ℕ → Ring → Option (List ℕ × Ring)
drain zero q = if ltb 0 q.count then none else some ([], q)
drain (suc n) q =
    let (ef, q') = take_one q in
    let rest = drain n q' in if ltb 0 q.count then free_one ef rest else some ([], q)

-- The wait for the workers: the pool as it is when the lock is taken, and then at each wake.
unfoldable pub wait_for_workers : ThreadPool → List ThreadPool → Option ThreadPool
wait_for_workers tp [] = if ltb 0 tp.worker_num then none else some tp
wait_for_workers tp (woken_at ∷ wakes) =
    let rest = wait_for_workers woken_at wakes in if ltb 0 tp.worker_num then rest else some tp

abbrev drain_pool : ℕ → Option ThreadPool → Option (List ℕ × Ring)
drain_pool fuel none = none
drain_pool fuel (some tp) = drain fuel tp.task_queue

-- The task records that `tp_destroy` frees and the queue that it gives back, when it returns.
unfoldable pub tp_destroy : ThreadPool → Others → List ThreadPool → ℕ → Option (List ℕ × Ring)
tp_destroy tp before_wait wakes fuel =
    drain_pool fuel (wait_for_workers (before_wait (record tp { shutdown = true })) wakes)
