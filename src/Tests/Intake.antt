-- ===== src/Tests/Intake.antt =====
-- Concrete runs of ingress/tcp_poller.c and ingress/udp_receiver.c.
use io_t_collector.Base.{ℕ, ◌≡◌, refl, arith, Bool, true, false, none, some, List, [], ◌∷◌, ◌++◌}
use io_t_collector.Ring.Push.{Holds}
use io_t_collector.Stats.{stats_init}
use io_t_collector.Ingress.{Intake}
use io_t_collector.Ingress.Tcp.{
  Attempt, connected, select_ready, Recv, received, interrupted, Session, restore, connect_on,
  tcp_connect_timeout, tcp_session_once,
}
use io_t_collector.Ingress.Session.{
  Arrives, silent, chunk, again, delivered, fresh_session, tcp_session_once-Arrives,
}
use io_t_collector.Ingress.Udp.{
  SocketAnswer, Receiver, Event, Config, StartAnswer, udp_mcast_init, recv_events,
  udp_receiver_start,
}
use io_t_collector.Ingress.Datagrams.{decoded, Received, recv_events-Received}
use io_t_collector.Ingress.Open.{left_open, udp_receiver_start-closes}
use io_t_collector.Tests.Wire.{reading, wire, one-Sent}
use io_t_collector.Tests.Queue.{empty_ring, empty_ring-IsValid}

abbrev intake : Intake
intake = record { q1 = empty_ring; stats = stats_init }

abbrev session : Session
session = record { stream = record { buf = []; resync = 0 }; intake = intake; got = 0 }

abbrev attempt : Attempt
attempt = record {
  fd = some 5;
  address_ok = true;
  nonblock_ok = true;
  connecting = connected;
  selected = select_ready;
  so_error_ok = true;
  restore_ok = true;
}

attempt_connects : (tcp_connect_timeout attempt).fd ≡ some 5
unfolding tcp_connect_timeout connect_on restore
attempt_connects = refl

-- The frame in two pieces, with an interruption between them.
abbrev pieces : List (Bool × Recv)
pieces =
    (true, received (235 ∷ 144 ∷ 1 ∷ 0 ∷ 0 ∷ 7 ∷ []))
    ∷ (true, interrupted)
    ∷ (
      true,
      received (
          0 ∷ 0 ∷ 3 ∷ 232 ∷ 0 ∷ 0 ∷ 0 ∷ 0 ∷ 0 ∷ 250 ∷ 2 ∷ 88 ∷ 0 ∷ 35 ∷ 0 ∷ 0 ∷ 0 ∷ 0 ∷ 0 ∷ 0 ∷ 27
          ∷ 7 ∷ []),
    )
    ∷ []

pieces-Arrives : Arrives pieces ((wire ++ []) ++ [])
pieces-Arrives = chunk 235 _ (omega arith) (again (chunk 0 _ (omega arith) silent))

tcp_session_once-Arrives_example :
    tcp_session_once true attempt session (pieces ++ ((false, received []) ∷ [])) false
    ≡ some (record {
      success = true;
      session = delivered (fresh_session session) (reading ∷ []) [];
      closed = 5 ∷ [];
    })
tcp_session_once-Arrives_example =
    tcp_session_once-Arrives attempt session false false [] attempt_connects pieces-Arrives one-Sent
      (omega arith) (omega arith)

empty_ring-Holds : Holds 2 [] empty_ring
empty_ring-Holds = record { valid = empty_ring-IsValid; same_capacity = refl; holds = refl }

abbrev events : List Event
events =
    (record { fd = 9; faulty = false; datagram = some wire })
    ∷ (record { fd = 8; faulty = true; datagram = none })
    ∷ (record { fd = 8; faulty = false; datagram = some (1 ∷ 2 ∷ 3 ∷ []) })
    ∷ []

recv_events-Received_example :
    Received 2 [] stats_init
      (decoded (wire ∷ (1 ∷ 2 ∷ 3 ∷ []) ∷ []))
      2
      (recv_events (some 9) intake events)
recv_events-Received_example = recv_events-Received (some 9) 2 [] intake events empty_ring-Holds

abbrev socket : ℕ → SocketAnswer
socket fd = record {
  fd = some fd;
  bind_ok = true;
  group_ok = true;
  interface_ok = true;
  join_ok = true;
}

abbrev shut_receiver : Receiver
shut_receiver = record {
  g_epfd = none;
  g_ucast_fd = none;
  g_mcast_fd = none;
  g_thread_created = false;
}

abbrev both : Config
both = record { args_ok = true; ucast = true; mcast = true; named = true }

abbrev group_only : Config
group_only = record { args_ok = true; ucast = false; mcast = true; named = true }

abbrev no_thread : StartAnswer
no_thread = record {
  epoll = some 3;
  ucast_socket = socket 4;
  ucast_added = true;
  mcast_socket = socket 5;
  mcast_added = true;
  create_ok = false;
}

udp_receiver_start-closes_example :
    left_open (udp_receiver_start (1 ∷ 2 ∷ []) shut_receiver both no_thread) ≡ 1 ∷ 2 ∷ []
udp_receiver_start-closes_example =
    udp_receiver_start-closes (1 ∷ 2 ∷ []) shut_receiver both no_thread refl

abbrev not_added : StartAnswer
not_added = record no_thread { mcast_added = false; create_ok = true }

group_opens : (udp_mcast_init (3 ∷ []) true (socket 5)).0 ≡ some 5
unfolding udp_mcast_init
group_opens = refl
