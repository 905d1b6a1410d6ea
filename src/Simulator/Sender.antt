-- ===== src/Simulator/Sender.antt =====
-- tools/station_sim.c: `tcp_sender_thread`, its connection and its retries.
use io_t_collector.Base.{
  ℕ, ◌+◌, ◌*◌, ◌≤◌, ◌≡◌, refl, arith, Bool, true, false, List, [], ◌∷◌, ltb, if◌then◌else◌, Option,
  none, some,
}
use io_t_collector.Base.Words.{u64}
use io_t_collector.Ingress.Udp.{close}

-- `sock`, `retry_delay`, `g_total_sent`, the open descriptors and the seconds that the thread sleeps
-- before its attempts, the last one in front.
pub record Sender : Type 0 where
  pub sock : Option ℕ
  pub retry_delay : ℕ
  pub g_total_sent : ℕ
  pub fds : List ℕ
  pub sleeps : List ℕ

-- What `socket`, `connect` and `send` answer in a turn, the last one whether it takes a whole frame.
pub record TurnAnswer : Type 0 where
  pub fd : Option ℕ
  pub connect_ok : Bool
  pub send_ok : Bool

unfoldable pub next_delay : ℕ → ℕ
next_delay retry_delay = if ltb retry_delay 30 then retry_delay * 2 else 30

abbrev send_frame : Sender → ℕ → Bool → Sender
send_frame s fd true = record s { g_total_sent = u64 (s.g_total_sent + 1) }
send_frame s fd false = record s { sock = none; fds = close fd s.fds }

abbrev connect_to : Sender → ℕ → Bool → Bool → Sender
connect_to s fd false send_ok = record s {
  fds = close fd (fd ∷ s.fds);
  sleeps = s.retry_delay ∷ s.sleeps;
  retry_delay = next_delay s.retry_delay;
}
connect_to s fd true send_ok =
    send_frame (record s { sock = some fd; fds = fd ∷ s.fds; retry_delay = 1 }) fd send_ok

abbrev connected_or_not : Sender → TurnAnswer → Option ℕ → Option ℕ → Sender
connected_or_not s a (some fd) new = send_frame s fd a.send_ok
connected_or_not s a none none = record s { sleeps = s.retry_delay ∷ s.sleeps }
connected_or_not s a none (some fd) = connect_to s fd a.connect_ok a.send_ok

-- A turn of the loop.
unfoldable pub tcp_sender_turn : Sender → TurnAnswer → Sender
tcp_sender_turn s a = connected_or_not s a s.sock a.fd

abbrev close_last : Sender → Option ℕ → List ℕ
close_last s none = s.fds
close_last s (some fd) = close fd s.fds

-- The thread from the state `s` on, with a turn for each answer while `g_running` is set.
unfoldable pub tcp_sender_thread : Sender → List TurnAnswer → Sender
tcp_sender_thread s [] = record s { fds = close_last s s.sock }
tcp_sender_thread s (a ∷ answers) = tcp_sender_thread (tcp_sender_turn s a) answers

abbrev with_sock : Option ℕ → List ℕ → List ℕ
with_sock none fds = fds
with_sock (some fd) fds = fd ∷ fds

pub data AllAtMost (bound : ℕ) : List ℕ → Type 0 where
  nothing : AllAtMost bound []
  and_one : {x : ℕ} {xs : List ℕ} → x ≤ bound → AllAtMost bound xs → AllAtMost bound (x ∷ xs)

-- The values that `retry_delay` takes: 30 follows 32, and stays.
pub data IsDelay : ℕ → Type 0 where
  delay_1 : IsDelay 1
  delay_2 : IsDelay 2
  delay_4 : IsDelay 4
  delay_8 : IsDelay 8
  delay_16 : IsDelay 16
  delay_32 : IsDelay 32
  delay_30 : IsDelay 30

-- The descriptors are `fds` and the socket, and no sleep so far is longer than 32 seconds.
pub record IsKept (fds : List ℕ) (s : Sender) : Type 0 where
  pub held : s.fds ≡ with_sock s.sock fds
  pub next : IsDelay s.retry_delay
  pub past : AllAtMost 32 s.sleeps

next_delay-IsDelay : (n : ℕ) → IsDelay n → IsDelay (next_delay n)
unfolding next_delay
next_delay-IsDelay n delay_1 = delay_2
next_delay-IsDelay n delay_2 = delay_4
next_delay-IsDelay n delay_4 = delay_8
next_delay-IsDelay n delay_8 = delay_16
next_delay-IsDelay n delay_16 = delay_32
next_delay-IsDelay n delay_32 = delay_30
next_delay-IsDelay n delay_30 = delay_30

IsDelay-le : (n : ℕ) → IsDelay n → n ≤ 32
IsDelay-le n delay_1 = omega arith
IsDelay-le n delay_2 = omega arith
IsDelay-le n delay_4 = omega arith
IsDelay-le n delay_8 = omega arith
IsDelay-le n delay_16 = omega arith
IsDelay-le n delay_32 = omega arith
IsDelay-le n delay_30 = omega arith

close_head : (fd : ℕ) (fds : List ℕ) → close fd (fd ∷ fds) ≡ fds
close_head fd fds = ground arith

send_frame-IsKept :
    (fds : List ℕ) (s : Sender) (fd : ℕ) (ok : Bool)
    → s.sock ≡ some fd
    → s.fds ≡ fd ∷ fds
    → IsDelay s.retry_delay
    → AllAtMost 32 s.sleeps
    → IsKept fds (send_frame s fd ok)
send_frame-IsKept fds s fd true at opened next past = record {
  held = rw (at, opened) refl;
  next = next;
  past = past;
}
send_frame-IsKept fds s fd false at opened next past = record {
  held = rw opened (close_head fd fds);
  next = next;
  past = past;
}

connect_to-IsKept :
    (fds : List ℕ) (s : Sender) (fd : ℕ) (connect_ok send_ok : Bool)
    → s.sock ≡ none
    → IsKept fds s
    → s.fds ≡ fds
    → IsKept fds (connect_to s fd connect_ok send_ok)
connect_to-IsKept fds s fd false send_ok at k opened = record {
  held = rw (at, opened) (close_head fd fds);
  next = next_delay-IsDelay s.retry_delay k.next;
  past = and_one (IsDelay-le s.retry_delay k.next) k.past;
}
connect_to-IsKept fds s fd true send_ok at k opened =
    send_frame-IsKept fds (record s { sock = some fd; fds = fd ∷ s.fds; retry_delay = 1 }) fd
      send_ok refl (rw opened refl) delay_1 k.past

turn-IsKept :
    (fds : List ℕ) (s : Sender) (a : TurnAnswer) (sock new : Option ℕ)
    → s.sock ≡ sock
    → IsKept fds s
    → s.fds ≡ with_sock sock fds
    → IsKept fds (connected_or_not s a sock new)
turn-IsKept fds s a (some fd) new at k opened =
    send_frame-IsKept fds s fd a.send_ok at opened k.next k.past
turn-IsKept fds s a none none at k opened = record {
  held = k.held;
  next = k.next;
  past = and_one (IsDelay-le s.retry_delay k.next) k.past;
}
turn-IsKept fds s a none (some fd) at k opened =
    connect_to-IsKept fds s fd a.connect_ok a.send_ok at k opened

close_last_lem :
    (fds : List ℕ) (s : Sender) (sock : Option ℕ)
    → s.fds ≡ with_sock sock fds
    → close_last s sock ≡ fds
close_last_lem fds s none opened = opened
close_last_lem fds s (some fd) opened = rw opened (close_head fd fds)

-- From a state that keeps to `IsKept`, such as the first one of the thread, and however the calls of
-- `socket`, `connect` and `send` turn out, `tcp_sender_thread` leaves no descriptor of its own open when
-- it ends, and never sleeps longer than 32 seconds before an attempt.
pub tcp_sender_thread-closes :
    (answers : List TurnAnswer) (fds : List ℕ) (s : Sender)
    → IsKept fds s
    → ((tcp_sender_thread s answers).fds ≡ fds) × AllAtMost 32 (tcp_sender_thread s answers).sleeps
unfolding tcp_sender_thread tcp_sender_turn
tcp_sender_thread-closes [] fds s k = (close_last_lem fds s s.sock k.held, k.past)
tcp_sender_thread-closes (a ∷ answers) fds s k =
    tcp_sender_thread-closes answers fds (connected_or_not s a s.sock a.fd)
      (turn-IsKept fds s a s.sock a.fd refl k k.held)
