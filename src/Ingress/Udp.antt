-- ===== src/Ingress/Udp.antt =====
-- ingress/udp_receiver.c: the sockets, the receiving thread, start, stop and join.
use io_t_collector.Base.{
  ℕ, Bool, true, false, not, ◌&&◌, List, [], ◌∷◌, ◌==◌, if◌then◌else◌, take, Option, none, some,
}
use io_t_collector.Status.{Status, Result, done, fail, ok, err_generic, err_io}
use io_t_collector.Frame.{EnvFrame}
use io_t_collector.Stream.{decode_wire}
use io_t_collector.Stats.{stats_on_decode_fail}
use io_t_collector.Ingress.{Intake, admit}

-- What the system calls answer for one socket: the descriptor, if there is one, `bind`, and for a
-- group its address, its interface (true if none is named) and the joining.
pub record SocketAnswer : Type 0 where
  pub fd : Option ℕ
  pub bind_ok : Bool
  pub group_ok : Bool
  pub interface_ok : Bool
  pub join_ok : Bool

-- A call's descriptor and the list of the open descriptors behind it; a new one stands in front.
abbrev pub Opened : Type 0
Opened = Option ℕ × List ℕ

abbrev pub close : ℕ → List ℕ → List ℕ
close fd [] = []
close fd (x ∷ xs) = let rest = close fd xs in if x == fd then xs else x ∷ rest

-- `setsockopt` for the address does not matter to the result.
unfoldable pub udp_ucast_init : List ℕ → SocketAnswer → Opened
udp_ucast_init fds a = elim a.fd as (λ _. Opened) [
  | none ↦ (none, fds)
  | some fd ↦ if not a.bind_ok then (none, close fd (fd ∷ fds)) else (some fd, fd ∷ fds)
]

-- `named` is whether the group is given and not empty.
unfoldable pub udp_mcast_init : List ℕ → Bool → SocketAnswer → Opened
udp_mcast_init fds named a = elim a.fd as (λ _. Opened) [
  | none ↦ (none, fds)
  | some fd ↦
      if not named
      then (none, fds)
      else if not a.bind_ok
      then (none, close fd (fd ∷ fds))
      else if not a.group_ok
      then (none, close fd (fd ∷ fds))
      else if not a.interface_ok
      then (none, close fd (fd ∷ fds))
      else if not a.join_ok
      then (none, close fd (fd ∷ fds))
      else (some fd, fd ∷ fds)
]

-- The static descriptors, where `none` is -1.
pub record Receiver : Type 0 where
  pub g_epfd : Option ℕ
  pub g_ucast_fd : Option ℕ
  pub g_mcast_fd : Option ℕ
  pub g_thread_created : Bool

-- What `epoll_wait` reports of one descriptor, and what `recvfrom` reads from it, if it succeeds.
pub record Event : Type 0 where
  pub fd : ℕ
  pub faulty : Bool
  pub datagram : Option (List ℕ)

abbrev pub is_fd : Option ℕ → ℕ → Bool
is_fd none fd = false
is_fd (some m) fd = fd == m

abbrev pub after_decoding : ℕ → Intake → Result EnvFrame → Intake
after_decoding proto s (fail _) = record s { stats = stats_on_decode_fail s.stats 1 }
after_decoding proto s (done frame) = admit proto s frame

-- `recvfrom` cuts a datagram to the 512 bytes of `buf`.
unfoldable pub take_datagram : ℕ → Intake → List ℕ → Intake
take_datagram proto s bytes = after_decoding proto s (decode_wire (take 512 bytes))

-- The body of the loop over the events.
unfoldable pub recv_event : Option ℕ → Intake → Event → Intake
recv_event g_mcast_fd s ev = if ev.faulty then s else elim ev.datagram as (λ _. Intake) [
  | none ↦ s
  | some bytes ↦ take_datagram (if is_fd g_mcast_fd ev.fd then 1 else 0) s bytes
]

unfoldable pub recv_events : Option ℕ → Intake → List Event → Intake
recv_events g_mcast_fd s [] = s
recv_events g_mcast_fd s (ev ∷ evs) = recv_events g_mcast_fd (recv_event g_mcast_fd s ev) evs

-- A round of the thread: the run flag, whether `g_epfd` is still open, the value of `g_mcast_fd`, and
-- the events; none if `epoll_wait` fails.
pub record Round : Type 0 where
  pub running : Bool
  pub epoll_open : Bool
  pub mcast_fd : Option ℕ
  pub events : List Event

-- The Boolean is whether the thread has returned.
unfoldable pub udp_recv_thread : Intake → List Round → Bool × Intake
udp_recv_thread s [] = (false, s)
udp_recv_thread s (r ∷ rounds) =
    let rest = udp_recv_thread (recv_events r.mcast_fd s r.events) rounds in
    if r.running && r.epoll_open then rest else (true, s)

-- The configuration: whether the pointers are given, whether the unicast port is not 0, whether the
-- group and its port are given, and whether the group's name is not empty.
pub record Config : Type 0 where
  pub args_ok : Bool
  pub ucast : Bool
  pub mcast : Bool
  pub named : Bool

-- What the system answers to `udp_receiver_start`.
pub record StartAnswer : Type 0 where
  pub epoll : Option ℕ
  pub ucast_socket : SocketAnswer
  pub ucast_added : Bool
  pub mcast_socket : SocketAnswer
  pub mcast_added : Bool
  pub create_ok : Bool

-- How `udp_receiver_start` ends: the status, the statics and the open descriptors.
pub record Started : Type 0 where
  pub status : Status
  pub statics : Receiver
  pub open_fds : List ℕ

abbrev pub shut : Receiver → Receiver
shut r = record r { g_epfd = none; g_ucast_fd = none; g_mcast_fd = none }

abbrev close_all : Option ℕ → List ℕ → List ℕ
close_all none fds = fds
close_all (some fd) fds = close fd fds

-- The last part, behind the sockets.
unfoldable pub start_thread : Receiver → List ℕ → ℕ → Option ℕ → Option ℕ → Bool → Started
start_thread r fds ep ucast mcast create_ok =
    if create_ok
    then record {
      status = ok;
      statics = record r {
        g_epfd = some ep;
        g_ucast_fd = ucast;
        g_mcast_fd = mcast;
        g_thread_created = true;
      };
      open_fds = fds;
    }
    else record {
      status = err_generic;
      statics = shut r;
      open_fds = close ep (close_all mcast (close_all ucast fds));
    }

-- A group that cannot be joined is fatal only without the unicast socket.
unfoldable pub without_group : Receiver → List ℕ → ℕ → Option ℕ → Bool → Started
without_group r fds ep none create_ok = record {
  status = err_io;
  statics = shut r;
  open_fds = close ep fds;
}
without_group r fds ep (some u) create_ok = start_thread r fds ep (some u) none create_ok

-- The part for the group, behind the unicast socket.
unfoldable pub start_mcast : Receiver → List ℕ → ℕ → Option ℕ → Config → StartAnswer → Started
start_mcast r fds ep ucast c a =
    let (mcast, fds') = udp_mcast_init fds c.named a.mcast_socket in
    if c.mcast
    then elim mcast as (λ _. Started) [
      | none ↦ without_group r fds' ep ucast a.create_ok
      | some m ↦
          if a.mcast_added
          then start_thread r fds' ep ucast (some m) a.create_ok
          else start_thread r (close m fds') ep ucast none a.create_ok
    ]
    else start_thread r fds ep ucast none a.create_ok

unfoldable pub start_ucast : Receiver → List ℕ → ℕ → Config → StartAnswer → Started
start_ucast r fds ep c a =
    let (ucast, fds') = udp_ucast_init fds a.ucast_socket in
    if c.ucast
    then elim ucast as (λ _. Started) [
      | none ↦ record { status = err_io; statics = shut r; open_fds = close ep fds' }
      | some u ↦
          if a.ucast_added
          then start_mcast r fds' ep (some u) c a
          else record { status = err_io; statics = shut r; open_fds = close ep (close u fds') }
    ]
    else start_mcast r fds ep none c a

unfoldable pub udp_receiver_start : List ℕ → Receiver → Config → StartAnswer → Started
udp_receiver_start fds r c a =
    if not c.args_ok
    then record { status = err_generic; statics = r; open_fds = fds }
    else if not c.ucast && not c.mcast
    then record { status = err_generic; statics = r; open_fds = fds }
    else elim a.epoll as (λ _. Started) [
      | none ↦ record { status = err_io; statics = shut r; open_fds = fds }
      | some ep ↦ start_ucast r (ep ∷ fds) ep c a
    ]

unfoldable pub udp_receiver_stop : List ℕ → Receiver → Receiver × List ℕ
udp_receiver_stop fds r = (
  record r { g_ucast_fd = none; g_mcast_fd = none; g_epfd = none },
  close_all r.g_epfd (close_all r.g_mcast_fd (close_all r.g_ucast_fd fds)),
)

-- Whether the thread is waited for, and the statics after `udp_receiver_join`, which returns 0.
unfoldable pub udp_receiver_join : Receiver → Bool × Receiver
udp_receiver_join r =
    if not r.g_thread_created then (false, r) else (true, record r { g_thread_created = false })
