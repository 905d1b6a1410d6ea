-- ===== src/Tbf.antt =====
-- common/tbf.c: the token bucket and the sender that it throttles.
use io_t_collector.Base.{
  ℕ, zero, suc, ◌+◌, ◌-◌, ◌*◌, ◌/◌, Bool, true, false, Option, none, some, if◌then◌else◌, ltb, leb,
  ◌==◌, List, [], ◌∷◌, ◌++◌, length, take, drop,
}
use io_t_collector.Base.Words.{u64, sub64}
use io_t_collector.Status.{
  Status, Result, done, fail, ok, err_generic, err_nomem, err_io, err_timeout, err_shutdown,
}
pub mod Rate
pub mod Fetch
pub mod Send

-- `tbf_t` without its lock and condition.
pub record Tbf : Type 0 where
  pub cps : ℕ
  pub burst : ℕ
  pub tokens : ℕ
  pub shutdown : Bool
  pub throttled_bytes : ℕ

-- What `calloc`, `pthread_mutex_init` and `pthread_cond_init` answer.
pub record System : Type 0 where
  pub calloc_ok : Bool
  pub mutex_ok : Bool
  pub cond_ok : Bool

unfoldable pub tbf_init : System → ℕ → ℕ → Result Tbf
tbf_init sys cps burst =
    if cps == 0
    then fail err_generic
    else if burst == 0
    then fail err_generic
    else if sys.calloc_ok
    then if sys.mutex_ok
      then if sys.cond_ok
        then done (record {
          cps = cps;
          burst = burst;
          tokens = burst;
          shutdown = false;
          throttled_bytes = 0;
        })
        else fail err_generic
      else fail err_generic
    else fail err_nomem

unfoldable pub tbf_tick : Tbf → ℕ → Tbf
tbf_tick tbf elapsed_ms =
    if elapsed_ms == 0
    then tbf
    else (let elapsed = if ltb 60000 elapsed_ms then 60000 else elapsed_ms in
        let add = u64 (tbf.cps * elapsed) / 1000 in
        let tokens = u64 (tbf.tokens + add) in
        record tbf { tokens = if ltb tbf.burst tokens then tbf.burst else tokens })

unfoldable pub tbf_shutdown : Tbf → Tbf
tbf_shutdown tbf = record tbf { shutdown = true }

-- `want` after the clamp to `burst`.
abbrev pub clamped : Tbf → ℕ → ℕ
clamped tbf want = if ltb tbf.burst want then tbf.burst else want

-- A request that waits is counted once, before its first wait.
abbrev pub count_throttled : Tbf → ℕ → Bool → Tbf
count_throttled tbf want counted =
    if counted then tbf else record tbf { throttled_bytes = u64 (tbf.throttled_bytes + want) }

-- A turn of the loop of `tbf_fetch_token` under the lock, up to the wait: `some` is a return.
unfoldable pub fetch_turn : Tbf → ℕ → Bool → Option Status × Tbf
fetch_turn tbf want counted =
    if tbf.shutdown
    then (some err_shutdown, tbf)
    else if leb want tbf.tokens
    then (some ok, record tbf { tokens = sub64 tbf.tokens want })
    else (none, count_throttled tbf want counted)

-- What another thread does to the bucket while it holds the lock.
pub data Event : Type 0 where
  tick : ℕ → Event
  stop : Event
  turn : ℕ → Bool → Event

-- A request is clamped before its turns.
unfoldable pub apply : Tbf → Event → Tbf
apply tbf (tick elapsed_ms) = tbf_tick tbf elapsed_ms
apply tbf stop = tbf_shutdown tbf
apply tbf (turn want counted) = (fetch_turn tbf (clamped tbf want) counted).1

unfoldable pub apply_all : Tbf → List Event → Tbf
apply_all tbf [] = tbf
apply_all tbf (e ∷ es) = apply_all (apply tbf e) es

-- A wait: what the others did before it ended, and whether it ended with `ETIMEDOUT`.
pub record Wait : Type 0 where
  pub events : List Event
  pub timed_out : Bool

-- `pending` is a request whose last wait has not ended.
pub data FetchEnd : Type 0 where
  returned : Status → Tbf → FetchEnd
  pending : Tbf → FetchEnd

unfoldable pub fetch_loop : Tbf → ℕ → Bool → List Wait → FetchEnd
fetch_loop tbf want counted [] =
    let (rc, next) = fetch_turn tbf want counted in
    elim rc [ some s ↦ returned s next | none ↦ pending next ]
fetch_loop tbf want counted (w ∷ ws) =
    let (rc, next) = fetch_turn tbf want counted in
    let woken = apply_all next w.events in
    let rest = fetch_loop woken want true ws in
    elim rc [
      | some s ↦ returned s next
      | none ↦ if w.timed_out then returned err_timeout woken else rest
    ]

-- The waits are the argument `timeout_ms` and the clock: with a negative one none times out.
unfoldable pub tbf_fetch_token : Tbf → ℕ → List Wait → FetchEnd
tbf_fetch_token tbf want waits =
    if want == 0 then returned err_generic tbf else fetch_loop tbf (clamped tbf want) false waits

-- `TBF_MAX_FETCH_PER_OP`.
abbrev pub max_fetch_per_op : ℕ
max_fetch_per_op = 65536

-- What `sendto` answers: the bytes taken, `EINTR`, or another error.
pub data Sendto : Type 0 where
  taken : ℕ → Sendto
  interrupted : Sendto
  refused : Sendto

-- A turn of the loop of `throttled_send`: what `tbf_fetch_token` answers, and what `sendto`
-- answers for a datagram of so many bytes.
pub record SendTurn : Type 0 where
  pub fetched : Status
  pub sendto : ℕ → Sendto

-- The return value if the loop has ended, and the datagrams that `sendto` took whole.
pub record Sending : Type 0 where
  pub rc : Option Status
  pub datagrams : List (List ℕ)

abbrev pub then_sent : List ℕ → Sending → Sending
then_sent d s = record s { datagrams = d ∷ s.datagrams }

abbrev pub ended : Status → Sending
ended s = record { rc = some s; datagrams = [] }

-- The loop from the bytes that remain.
unfoldable pub send_loop : List ℕ → List SendTurn → Sending
send_loop [] turns = ended ok
send_loop (b ∷ bs) [] = record { rc = none; datagrams = [] }
send_loop (b ∷ bs) (t ∷ ts) =
    let remain = b ∷ bs in
    let want = if ltb max_fetch_per_op (length remain) then max_fetch_per_op else length remain in
    let again = send_loop remain ts in
    let next = send_loop (drop want remain) ts in
    elim t.fetched [
      | err_shutdown ↦ ended err_shutdown
      | ok ↦ elim (t.sendto want) [
        | refused ↦ ended err_io
        | interrupted ↦ again
        | taken n ↦ if n == want then then_sent (take want remain) next else ended err_io
      ]
      | _ ↦ again
    ]

-- `fd_ok` is `fd >= 0`.
unfoldable pub throttled_send : Bool → List ℕ → List SendTurn → Sending
throttled_send fd_ok buf turns =
    if fd_ok
    then if length buf == 0 then ended err_generic else send_loop buf turns
    else ended err_generic
