-- ===== src/Ring.antt =====
-- pipeline/ring_queue.c: the bounded ring of frames. A function that updates `*q` under `q->lock`
-- returns the new ring; what other threads do while a call waits on a condition variable is an
-- argument. Signals and broadcasts change no field of the ring.
pub mod Queue
pub mod Index
pub mod Inv
pub mod Drop
pub mod Push
pub mod Block
pub mod Pop
pub mod Order
use io_t_collector.Base.{
  ℕ, zero, suc, ◌+◌, ◌-◌, Bool, true, false, not, ◌||◌, List, [], ◌∷◌, bit_and, ltb, ◌==◌,
  if◌then◌else◌, get_or, set, replicate,
}
use io_t_collector.Base.Words.{u32, sub32}
use io_t_collector.Status.{Result, done, fail, Status, ok, err_generic, err_full}
use io_t_collector.Frame.{EnvFrame, frame_alarm, zero_frame}

-- `ring_queue_t`, less its lock and its two condition variables.
pub record Ring : Type 0 where
  pub buf : List EnvFrame
  pub capacity : ℕ
  pub head : ℕ
  pub tail : ℕ
  pub count : ℕ
  pub dropped : ℕ

abbrev pub is_alarm : EnvFrame → Bool
is_alarm f = f.frame_type == frame_alarm

-- `calloc` succeeds or not.
unfoldable pub ring_init : Bool → ℕ → Result Ring
ring_init allocated cap =
    if cap == 0 || not (bit_and cap (sub32 cap 1) == 0)
    then fail err_generic
    else if not allocated
    then fail err_generic
    else done (record {
      buf = replicate cap zero_frame;
      capacity = cap;
      head = 0;
      tail = 0;
      count = 0;
      dropped = 0;
    })

-- The storage is given back, and the pointer to it is NULL.
unfoldable pub ring_destroy : Ring → Ring
ring_destroy q = record q { buf = [] }

-- `x & (q->capacity - 1)`.
abbrev pub masked : Ring → ℕ → ℕ
masked q x = bit_and x (sub32 q.capacity 1)

-- The inner loop of `drop_oldest_normal` from `j`, with `n` rounds left.
unfoldable pub shift_down : Ring → ℕ → ℕ → List EnvFrame → List EnvFrame
shift_down q zero j buf = buf
shift_down q (suc n) j buf = shift_down q n (j + 1) (
    set buf (masked q (u32 (q.tail + j)))
      (get_or buf (masked q (u32 (u32 (q.tail + j) + 1))) zero_frame))

-- The body of the outer loop at the frame found.
unfoldable pub drop_at : Ring → ℕ → Ring
drop_at q i = record q {
  buf = shift_down q (q.count - (i + 1)) i q.buf;
  head = masked q (sub32 q.head 1);
  count = sub32 q.count 1;
  dropped = u32 (q.dropped + 1);
}

-- The outer loop from `i`, with `n` rounds left.
unfoldable pub drop_from : Ring → ℕ → ℕ → Ring
drop_from q zero i = q
drop_from q (suc n) i =
    let rest = drop_from q n (i + 1) in
    if is_alarm (get_or q.buf (masked q (u32 (q.tail + i))) zero_frame) then rest else drop_at q i

unfoldable pub drop_oldest_normal : Ring → Ring
drop_oldest_normal q = drop_from q q.count 0

-- The writes at the end of `ring_push` and of `ring_push_try`.
unfoldable pub write_head : Ring → EnvFrame → Ring
write_head q f = record q {
  buf = set q.buf q.head f;
  head = masked q (u32 (q.head + 1));
  count = u32 (q.count + 1);
}

-- How `pthread_cond_wait` on `not_full` comes back: with the ring that the other threads left, or
-- with an error.
pub data Wake : Type 0 where
  woken : Ring → Wake
  wait_failed : Ring → Wake

pub data PushEnd : Type 0 where
  pushed : Ring → PushEnd
  push_failed : Ring → PushEnd
  push_waiting : PushEnd

-- `ring_push` on the ring as it is when the lock is taken, and then at each wake.
unfoldable pub ring_push : Ring → EnvFrame → List Wake → PushEnd
ring_push q f [] =
    if q.count == q.capacity
    then (if is_alarm f then pushed (write_head (drop_oldest_normal q) f) else push_waiting)
    else pushed (write_head q f)
ring_push q f (wait_failed q' ∷ ws) =
    if q.count == q.capacity
    then (if is_alarm f then pushed (write_head (drop_oldest_normal q) f) else push_failed q')
    else pushed (write_head q f)
ring_push q f (woken q' ∷ ws) =
    let rest = ring_push q' f ws in
    if q.count == q.capacity
    then (if is_alarm f then pushed (write_head (drop_oldest_normal q) f) else rest)
    else pushed (write_head q f)

unfoldable pub ring_push_try : Ring → EnvFrame → Status × Ring
ring_push_try q f =
    if q.count == q.capacity
    then (if is_alarm f
        then (let q' = drop_oldest_normal q in
            if q'.count == q'.capacity then (err_full, q') else (ok, write_head q' f))
        else (err_full, record q { dropped = u32 (q.dropped + 1) }))
    else (ok, write_head q f)

-- The copy loop of `ring_pop_batch` with `n` rounds left: the frames for `out`, and the new tail.
unfoldable pub copy_out : Ring → ℕ → ℕ → List EnvFrame × ℕ
copy_out q zero tail = ([], tail)
copy_out q (suc n) tail =
    let (out, tail') = copy_out q n (masked q (u32 (tail + 1))) in
    (get_or q.buf tail zero_frame ∷ out, tail')

-- The batch taken under the lock; the number of frames is what the code returns.
unfoldable pub take_batch : Ring → ℕ → List EnvFrame × Ring
take_batch q max_n =
    let n = if ltb q.count max_n then q.count else max_n in
    let (out, tail') = copy_out q n q.tail in
    (out, record q { tail = tail'; count = sub32 q.count n })

pub data PopEnd : Type 0 where
  popped : List EnvFrame → Ring → PopEnd
  pop_waiting : PopEnd

-- `ring_pop_batch`: `running` is `g_running` when it is read, and each wake brings the ring that
-- the other threads left and the value of `g_running` read next.
unfoldable pub ring_pop_batch : Bool → Ring → ℕ → List (Ring × Bool) → PopEnd
ring_pop_batch running q max_n [] =
    if q.count == 0
    then (if running then pop_waiting else popped [] q)
    else (let (out, q') = take_batch q max_n in popped out q')
ring_pop_batch running q max_n ((r, running') ∷ wakes) =
    let rest = ring_pop_batch running' r max_n wakes in
    if q.count == 0
    then (if running then rest else popped [] q)
    else (let (out, q') = take_batch q max_n in popped out q')

unfoldable pub ring_count : Ring → ℕ
ring_count q = q.count
