-- ===== src/Unicast.antt =====
-- egress/unicast_sender.c: the connection to the platform, its writes and the state of the link.
use io_t_collector.Base.{
  ℕ, zero, suc, ◌+◌, Bool, true, false, not, if◌then◌else◌, ltb, leb, ◌==◌, Option, none, some,
  List, [], ◌∷◌, ◌++◌, length, take, drop,
}
use io_t_collector.Base.Words.{u32}
use io_t_collector.Status.{
  Status, is_ok, Result, done, fail, ok, err_generic, err_proto, err_io, err_timeout, err_shutdown,
}
use io_t_collector.Frame.{EnvFrame, zero_frame, frame_heart, wire_size}
use io_t_collector.Proto.{frame_hton, frame_encode}
use io_t_collector.Tbf.{max_fetch_per_op}
pub mod Online
pub mod Write
pub mod Connect

-- `g_link_online` and `g_fail_streak`.
pub record Link : Type 0 where
  pub online : Bool
  pub fail_streak : ℕ

-- `HEARTBEAT_LOST_LIMIT`.
abbrev pub heartbeat_lost_limit : ℕ
heartbeat_lost_limit = 3

unfoldable pub unicast_mark_result : Link → Bool → Link
unicast_mark_result l success =
    if success
    then record { online = true; fail_streak = 0 }
    else (let streak = l.fail_streak + 1 in
        record {
          online = if leb heartbeat_lost_limit streak then false else l.online;
          fail_streak = streak;
        })

-- A descriptor below 0 changes nothing.
unfoldable pub unicast_sender_close : Link → Bool → Link
unicast_sender_close l fd_ok = if fd_ok then record { online = false; fail_streak = 0 } else l

unfoldable pub unicast_link_online : Link → Bool
unicast_link_online l = l.online

unfoldable pub unicast_heartbeat_lost : Link → ℕ
unicast_heartbeat_lost l = u32 l.fail_streak

-- What `connect` and `poll` answer.
pub data Connecting : Type 0 where
  connected : Connecting
  in_progress : Connecting
  not_connected : Connecting

pub data Polled : Type 0 where
  poll_interrupted : Polled
  poll_timeout : Polled
  poll_failed : Polled
  poll_ready : Polled

-- What the system calls of one connection attempt answer, in their order.
pub record Attempt : Type 0 where
  pub socket_ok : Bool
  pub address_ok : Bool
  pub nonblock_ok : Bool
  pub connecting : Connecting
  pub polled : List Polled
  pub so_error_ok : Bool
  pub restore_ok : Bool

-- `some` is the return value, where `none` stands for the descriptor; and whether `close` was called.
pub record Connection : Type 0 where
  pub rc : Option Status
  pub closed : Bool

abbrev pub closing : Status → Connection
closing s = record { rc = some s; closed = true }

-- The loop over `EINTR`; an attempt whose answers run out is still polling.
unfoldable pub poll_loop : List Polled → Option Polled
poll_loop [] = none
poll_loop (poll_interrupted ∷ ps) = poll_loop ps
poll_loop (p ∷ ps) = some p

unfoldable pub finish_connect : Attempt → Connection
finish_connect a = if a.restore_ok then record { rc = none; closed = false } else closing err_io

-- `none` is an attempt that is still polling.
unfoldable pub tcp_connect_timeout : Attempt → Option Connection
tcp_connect_timeout a =
    if not a.socket_ok
    then some (record { rc = some err_io; closed = false })
    else if not a.address_ok
    then some (closing err_generic)
    else if not a.nonblock_ok
    then some (closing err_io)
    else elim a.connecting [
      | not_connected ↦ some (closing err_io)
      | connected ↦ some (finish_connect a)
      | in_progress ↦ elim (poll_loop a.polled) [
        | none ↦ none
        | some p ↦ elim p [
          | poll_timeout ↦ some (closing err_timeout)
          | poll_ready ↦ some (if a.so_error_ok then finish_connect a else closing err_io)
          | _ ↦ some (closing err_io)
        ]
      ]
    ]

-- The result and the link after `unicast_sender_init`; `none` as the status is a descriptor.
unfoldable pub unicast_sender_init : Link → Bool → Attempt → Option (Option Status × Link)
unicast_sender_init l args_ok a =
    if not args_ok then some (some err_generic, l) else elim (tcp_connect_timeout a) [
      | none ↦ none
      | some c ↦ elim c.rc [
        | some s ↦ some (some s, unicast_mark_result l false)
        | none ↦ some (none, unicast_mark_result l true)
      ]
    ]

-- What `send` answers.
pub data Send : Type 0 where
  took : ℕ → Send
  interrupted : Send
  broken : Send

-- The return value if the loop has ended, the bytes that were sent, and the answers left.
pub record Written : Type 0 where
  pub rc : Option Status
  pub sent : List ℕ
  pub left : List Send

abbrev pub finished : Status → List Send → Written
finished s answers = record { rc = some s; sent = []; left = answers }

abbrev pub and_before : List ℕ → Written → Written
and_before bs w = record w { sent = bs ++ w.sent }

unfoldable pub unicast_write_all : List ℕ → List Send → Written
unicast_write_all [] answers = finished ok answers
unicast_write_all (b ∷ bs) [] = record { rc = none; sent = []; left = [] }
unicast_write_all (b ∷ bs) (broken ∷ answers) = finished err_io answers
unicast_write_all (b ∷ bs) (interrupted ∷ answers) = unicast_write_all (b ∷ bs) answers
unicast_write_all (b ∷ bs) (took n ∷ answers) =
    let rest = unicast_write_all (drop n (b ∷ bs)) answers in
    if n == 0 then finished err_io answers else and_before (take n (b ∷ bs)) rest

-- `fetched` are the answers of `tbf_fetch_token`.
unfoldable pub write_throttled_loop : List ℕ → List Status → List Send → Written
write_throttled_loop [] fetched answers = finished ok answers
write_throttled_loop (b ∷ bs) [] answers = record { rc = none; sent = []; left = answers }
write_throttled_loop (b ∷ bs) (f ∷ fetched) answers =
    let remain = b ∷ bs in
    let want = if ltb max_fetch_per_op (length remain) then max_fetch_per_op else length remain in
    let w = unicast_write_all (take want remain) answers in
    let next = write_throttled_loop (drop want remain) fetched w.left in
    let again = write_throttled_loop remain fetched answers in
    elim f [
      | err_shutdown ↦ finished err_shutdown answers
      | ok ↦ elim w.rc [
        | none ↦ record w { rc = none }
        | some s ↦ if is_ok s then and_before w.sent next else record w { rc = some err_io }
      ]
      | _ ↦ again
    ]

unfoldable pub unicast_write_throttled : Bool → List ℕ → List Status → List Send → Written
unicast_write_throttled bucket buf fetched answers =
    if bucket then write_throttled_loop buf fetched answers else finished err_generic answers

-- The link after a call that has returned; one that has not keeps the lock of the writers.
abbrev pub marked : Link → Option Status → Link
marked l rc = elim rc [ none ↦ l | some s ↦ unicast_mark_result l (is_ok s) ]

unfoldable pub unicast_sender_send_with_bucket :
    Link → Bool → Bool → List ℕ → List Status → List Send → Written × Link
unicast_sender_send_with_bucket l fd_ok bucket buf fetched answers =
    if fd_ok
    then if length buf == 0
      then (finished err_generic answers, l)
      else (let w = unicast_write_throttled bucket buf fetched answers in (w, marked l w.rc))
    else (finished err_generic answers, l)

-- The frame of a heartbeat; `now` is `time(NULL)`.
abbrev pub heartbeat_frame : ℕ → EnvFrame
heartbeat_frame now = record zero_frame {
  version = 1;
  frame_type = frame_heart;
  timestamp_sec = u32 now;
  timestamp_ms = 0;
}

unfoldable pub unicast_sender_heartbeat : Link → Bool → ℕ → List Send → Written × Link
unicast_sender_heartbeat l fd_ok now answers =
    if fd_ok
    then elim (frame_encode (frame_hton (heartbeat_frame now)) wire_size) [
      | fail _ ↦ (finished err_proto answers, l)
      | done wire ↦ let w = unicast_write_all wire answers in (w, marked l w.rc)
    ]
    else (finished err_generic answers, l)

-- `bucket` is whether `g_outbound_bucket` is there.
unfoldable pub unicast_sender_send :
    Link → Bool → Bool → List ℕ → List Status → List Send → Written × Link
unicast_sender_send l fd_ok bucket buf fetched answers =
    unicast_sender_send_with_bucket l fd_ok bucket buf fetched answers
