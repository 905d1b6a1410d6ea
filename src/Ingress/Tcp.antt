-- ===== src/Ingress/Tcp.antt =====
-- ingress/tcp_poller.c: the session with one device, and the thread that repeats it.
use io_t_collector.Base.{
  ℕ, zero, suc, ◌+◌, ◌*◌, ◌/◌, ◌^◌, Bool, true, false, not, ◌&&◌, ◌||◌, List, [], ◌∷◌, ltb, ◌==◌,
  if◌then◌else◌, length, Option, none, some,
}
use io_t_collector.Base.Words.{u32}
use io_t_collector.Status.{Status, ok, err_generic}
use io_t_collector.Frame.{EnvFrame}
use io_t_collector.Stream.{FrameStream, frame_stream_reset, frame_stream_feed}
use io_t_collector.Ingress.{Intake, admit, admit_all}

-- What `connect` and `select` answer.
pub data Connecting : Type 0 where
  connected in_progress refused : Connecting

pub data Selected : Type 0 where
  select_failed select_timeout select_ready : Selected

-- What the system calls of one attempt answer; `fd` is the descriptor, if `socket` gives one.
pub record Attempt : Type 0 where
  pub fd : Option ℕ
  pub address_ok : Bool
  pub nonblock_ok : Bool
  pub connecting : Connecting
  pub selected : Selected
  pub so_error_ok : Bool
  pub restore_ok : Bool

-- The descriptor that is returned, if any, and those that were closed.
pub record Connection : Type 0 where
  pub fd : Option ℕ
  pub closed : List ℕ

abbrev pub closing : ℕ → Connection
closing fd = record { fd = none; closed = fd ∷ [] }

unfoldable pub restore : Attempt → ℕ → Connection
restore a fd = if a.restore_ok then record { fd = some fd; closed = [] } else closing fd

unfoldable pub connect_on : Attempt → ℕ → Connection
connect_on a fd =
    if not a.address_ok
    then closing fd
    else if not a.nonblock_ok
    then closing fd
    else elim a.connecting as (λ _. Connection) [
      | connected ↦ restore a fd
      | in_progress ↦ elim a.selected as (λ _. Connection) [
        | select_failed ↦ closing fd
        | select_timeout ↦ closing fd
        | select_ready ↦ if a.so_error_ok then restore a fd else closing fd
      ]
      | refused ↦ closing fd
    ]

-- `tcp_connect_timeout` of this file, which waits in `select`.
unfoldable pub tcp_connect_timeout : Attempt → Connection
tcp_connect_timeout a = elim a.fd as (λ _. Connection) [
  | none ↦ record { fd = none; closed = [] }
  | some fd ↦ connect_on a fd
]

-- What `recv` answers; the peer closes with no bytes.
pub data Recv : Type 0 where
  received : List ℕ → Recv
  interrupted : Recv
  broken : Recv

unfoldable pub tcp_frame_sink : Intake → EnvFrame → Intake
tcp_frame_sink s f = admit 2 s f

-- The stream, the queue and counters, and `got`, an `int` as its bit pattern: the code's sum is taken to
-- wrap around, which the compiler does not promise.
pub record Session : Type 0 where
  pub stream : FrameStream
  pub intake : Intake
  pub got : ℕ

unfoldable pub feed : Session → List ℕ → Session
feed s chunk =
    let (fs, st) = frame_stream_feed s.stream chunk in
    record { stream = st; intake = admit_all 2 s.intake fs; got = u32 (s.got + length fs) }

-- The loop of `tcp_session_once`, with the run flag and the answer of `recv` of each round; the
-- Boolean is whether it has ended.
unfoldable pub session_loop : Session → List (Bool × Recv) → Bool × Session
session_loop s [] = (false, s)
session_loop s ((running, received []) ∷ rounds) = (true, s)
session_loop s ((running, received (b ∷ bs)) ∷ rounds) =
    let rest = session_loop (feed s (b ∷ bs)) rounds in if running then rest else (true, s)
session_loop s ((running, interrupted) ∷ rounds) =
    let rest = session_loop s rounds in if running then rest else (true, s)
session_loop s ((running, broken) ∷ rounds) = (true, s)

-- `got > 0`.
abbrev pub some_got : ℕ → Bool
some_got got = ltb 0 got && ltb got (2 ^ 31)

-- How `tcp_session_once` ends: whether it returns 0, the session, and the descriptors it closed.
pub record SessionEnd : Type 0 where
  pub success : Bool
  pub session : Session
  pub closed : List ℕ

-- Whether `tcp_poller_stop` has closed the descriptor in the meantime is `stopped`.
abbrev close_unless : Bool → ℕ → List ℕ
close_unless stopped fd = if stopped then [] else fd ∷ []

-- `none` is a session that still waits in `recv`.
unfoldable pub tcp_session_once :
    Bool → Attempt → Session → List (Bool × Recv) → Bool → Option SessionEnd
tcp_session_once running a s rounds stopped =
    let c = tcp_connect_timeout a in
    let start : Session = record s { stream = frame_stream_reset s.stream; got = 0 } in
    let (over, end) = session_loop start rounds in
    if not running
    then some (record { success = false; session = s; closed = [] })
    else elim c.fd as (λ _. Option SessionEnd) [
      | none ↦ some (record { success = false; session = s; closed = c.closed })
      | some fd ↦
          if over
          then some (record {
            success = some_got end.got;
            session = end;
            closed = close_unless stopped fd;
          })
          else none
    ]

-- The rest of a turn of `tcp_poll_thread`: the pause in milliseconds, and `g_fail_times`,
-- an `int` that is taken not to reach its bound.
unfoldable pub backoff : ℕ → ℕ → Bool → ℕ × ℕ
backoff poll_ms fail_times success =
    if success
    then (if ltb 0 poll_ms then poll_ms else 200, 0)
    else (if ltb (fail_times + 1) 5 then (fail_times + 1) * 1000 else 5000, fail_times + 1)

-- The pauses of `tcp_poll_thread` for the results of its sessions.
unfoldable pub tcp_poll_thread : ℕ → ℕ → List Bool → List ℕ
tcp_poll_thread poll_ms fail_times [] = []
tcp_poll_thread poll_ms fail_times (success ∷ more) =
    let (pause, fails) = backoff poll_ms fail_times success in
    pause ∷ tcp_poll_thread poll_ms fails more

-- The slices of 100 ms that `backoff_sleep_ms` sleeps, where the list is the run flag at each test.
unfoldable pub sleep_slices : ℕ → List Bool → ℕ
sleep_slices zero flags = 0
sleep_slices (suc n) [] = 0
sleep_slices (suc n) (running ∷ flags) =
    let rest = sleep_slices n flags in if running then suc rest else 0

unfoldable pub backoff_sleep_ms : ℕ → List Bool → ℕ
backoff_sleep_ms ms flags = sleep_slices (if ltb (ms / 100) 1 then 1 else ms / 100) flags

-- The statics that `tcp_poller_start` sets.
pub record Poller : Type 0 where
  pub g_thread_created : Bool
  pub g_poll_ms : ℕ
  pub g_fail_times : ℕ
  pub g_fd : Option ℕ
  pub g_stream : FrameStream

unfoldable pub tcp_poller_start : Poller → Bool → ℕ → ℕ → Bool → Status × Poller
tcp_poller_start p args_ok dev_port poll_interval_ms create_ok =
    let q = record p {
      g_poll_ms = if ltb 0 poll_interval_ms then poll_interval_ms else 200;
      g_fail_times = 0;
      g_stream = frame_stream_reset p.g_stream;
    } in
    if not args_ok || dev_port == 0
    then (err_generic, p)
    else if not create_ok
    then (err_generic, q)
    else (ok, record q { g_thread_created = true })

-- The descriptors that `tcp_poller_stop` closes, and the statics after it.
unfoldable pub tcp_poller_stop : Poller → List ℕ × Poller
tcp_poller_stop p = elim p.g_fd as (λ _. List ℕ × Poller) [
  | none ↦ ([], p)
  | some fd ↦ (fd ∷ [], record p { g_fd = none })
]

-- Whether the thread is waited for, and the statics after `tcp_poller_join`, which returns 0.
unfoldable pub tcp_poller_join : Poller → Bool × Poller
tcp_poller_join p =
    if not p.g_thread_created then (false, p) else (true, record p { g_thread_created = false })
