-- ===== src/Ingress/Open.antt =====
-- The descriptors of the UDP receiver between start and stop.
use io_t_collector.Base.{
  ℕ, ◌≡◌, refl, ap, ◌∙◌, arith, Bool, true, false, not, ◌&&◌, Bool-cases, Option-cases, inl, inr,
  List, ◌∷◌, if◌then◌else◌, Option, none, some,
}
use io_t_collector.Status.{Status, ok, err_io, err_generic}
use io_t_collector.Ingress.Udp.{
  shut, without_group, SocketAnswer, Config, StartAnswer, Started, Receiver, close, udp_ucast_init,
  udp_mcast_init, start_thread, start_mcast, start_ucast, udp_receiver_start, udp_receiver_stop,
}

-- The descriptors left open by `udp_receiver_stop` after a start that ended so.
abbrev pub left_open : Started → List ℕ
left_open s = (udp_receiver_stop s.open_fds s.statics).1

abbrev with_fd : Option ℕ → List ℕ → List ℕ
with_fd none fds = fds
with_fd (some fd) fds = fd ∷ fds

start_thread-closes :
    (r : Receiver) (fds : List ℕ) (ep : ℕ) (ucast mcast : Option ℕ) (create_ok : Bool)
    → left_open (start_thread r (with_fd mcast (with_fd ucast (ep ∷ fds))) ep ucast mcast create_ok)
      ≡ fds
unfolding start_thread udp_receiver_stop
start_thread-closes r fds ep none none true = ground arith
start_thread-closes r fds ep none none false = ground arith
start_thread-closes r fds ep none (some m) true = ground arith
start_thread-closes r fds ep none (some m) false = ground arith
start_thread-closes r fds ep (some u) none true = ground arith
start_thread-closes r fds ep (some u) none false = ground arith
start_thread-closes r fds ep (some u) (some m) true = ground arith
start_thread-closes r fds ep (some u) (some m) false = ground arith

-- A socket function either opens nothing or returns the descriptor that it has opened.
data Opens (fds : List ℕ) : Option ℕ × List ℕ → Type 0 where
  opens_none : {o : Option ℕ × List ℕ} → o.0 ≡ none → o.1 ≡ fds → Opens fds o
  opens_one : {o : Option ℕ × List ℕ} (fd : ℕ) → o.0 ≡ some fd → o.1 ≡ fd ∷ fds → Opens fds o

close_head : (fd : ℕ) (fds : List ℕ) → close fd (fd ∷ fds) ≡ fds
close_head fd fds = ground arith

close_both :
    (b : Bool) (fd : ℕ) (fds : List ℕ) {rest : Option ℕ × List ℕ}
    → Opens fds rest
    → Opens fds (if not b then (none, close fd (fd ∷ fds)) else rest)
close_both true fd fds o = o
close_both false fd fds o = opens_none refl (close_head fd fds)

udp_ucast_init-Opens : (fds : List ℕ) (a : SocketAnswer) → Opens fds (udp_ucast_init fds a)
unfolding udp_ucast_init
udp_ucast_init-Opens fds a = elim (Option-cases a.fd) [
  | inl none_given ↦ rw none_given (opens_none refl refl)
  | inr (fd, given) ↦ rw given (close_both a.bind_ok fd fds (opens_one fd refl refl))
]

udp_mcast_init-Opens :
    (fds : List ℕ) (named : Bool) (a : SocketAnswer) → Opens fds (udp_mcast_init fds named a)
unfolding udp_mcast_init
udp_mcast_init-Opens fds named a = elim (Option-cases a.fd) [
  | inl none_given ↦ rw none_given (opens_none refl refl)
  | inr (fd, given) ↦ elim (Bool-cases named) [
    | inr no_group ↦ rw (given, no_group) (opens_none refl refl)
    | inl group ↦
        rw (given, group)
          (close_both a.bind_ok fd fds (
            close_both a.group_ok fd fds (
              close_both a.interface_ok fd fds
                (close_both a.join_ok fd fds (opens_one fd refl refl)))))
  ]
]

-- After a failed start there is nothing to stop.
shut_stops :
    (s : Status) (r : Receiver) (fds : List ℕ)
    → left_open (record { status = s; statics = shut r; open_fds = fds }) ≡ fds
unfolding udp_receiver_stop
shut_stops s r fds = refl

without_group-closes :
    (r : Receiver) (fds : List ℕ) (ep : ℕ) (ucast : Option ℕ) (create_ok : Bool)
    → left_open (without_group r (with_fd ucast (ep ∷ fds)) ep ucast create_ok) ≡ fds
unfolding without_group
without_group-closes r fds ep none create_ok =
    shut_stops err_io r (close ep (ep ∷ fds)) ∙ close_head ep fds
without_group-closes r fds ep (some u) create_ok =
    start_thread-closes r fds ep (some u) none create_ok

module _ (r : Receiver) (fds : List ℕ) (ep : ℕ) (c : Config) (a : StartAnswer) where
  start_mcast-closes :
      (ucast : Option ℕ) → left_open (start_mcast r (with_fd ucast (ep ∷ fds)) ep ucast c a) ≡ fds
  unfolding start_mcast
  start_mcast-closes ucast = elim (Bool-cases c.mcast) [
    | inr off ↦ simp off (start_thread-closes r fds ep ucast none a.create_ok)
    | inl on ↦ elim (udp_mcast_init-Opens (with_fd ucast (ep ∷ fds)) c.named a.mcast_socket) [
      | opens_none e fs ↦ simp (on, e, fs) (without_group-closes r fds ep ucast a.create_ok)
      | opens_one m e fs ↦ elim (Bool-cases a.mcast_added) [
        | inl added ↦
            simp (on, e, fs, added) (start_thread-closes r fds ep ucast (some m) a.create_ok)
        | inr refused ↦
            simp (on, e, fs, refused, close_head m (with_fd ucast (ep ∷ fds)))
              (start_thread-closes r fds ep ucast none a.create_ok)
      ]
    ]
  ]

  start_ucast-closes : left_open (start_ucast r (ep ∷ fds) ep c a) ≡ fds
  unfolding start_ucast
  start_ucast-closes = elim (Bool-cases c.ucast) [
    | inr off ↦ simp off (start_mcast-closes none)
    | inl on ↦ elim (udp_ucast_init-Opens (ep ∷ fds) a.ucast_socket) [
      | opens_none e fs ↦
          simp (on, e, fs) (shut_stops err_io r (close ep (ep ∷ fds)) ∙ close_head ep fds)
      | opens_one u e fs ↦ elim (Bool-cases a.ucast_added) [
        | inl added ↦ simp (on, e, fs, added) (start_mcast-closes (some u))
        | inr refused ↦
            simp (on, e, fs, refused)
              (shut_stops err_io r (close ep (close u (u ∷ ep ∷ fds)))
                ∙ ap (close ep) (close_head u (ep ∷ fds))
                ∙ close_head ep fds)
      ]
    ]
  ]

-- No descriptor leaks: whatever the system answers to `udp_receiver_start`, `udp_receiver_stop` after
-- it leaves open exactly the descriptors that were open before, if the receiver held none then.
pub udp_receiver_start-closes :
    (fds : List ℕ) (r : Receiver) (c : Config) (a : StartAnswer)
    → r ≡ shut r
    → left_open (udp_receiver_start fds r c a) ≡ fds
unfolding udp_receiver_start
udp_receiver_start-closes fds r c a h = elim (Bool-cases c.args_ok) [
  | inr bad ↦ rw bad (rejected h)
  | inl good ↦ elim (Bool-cases (not c.ucast && not c.mcast)) [
    | inl nothing ↦ rw (good, nothing) (rejected h)
    | inr something ↦ elim (Option-cases a.epoll) [
      | inl no_epoll ↦ rw (good, something, no_epoll) (shut_stops err_io r fds)
      | inr (ep, given) ↦ rw (good, something, given) (start_ucast-closes r fds ep c a)
    ]
  ]
]
  where
    rejected :
        r ≡ shut r → left_open (record { status = err_generic; statics = r; open_fds = fds }) ≡ fds
    rejected h =
        ap (λ s. left_open (record { status = err_generic; statics = s; open_fds = fds })) h
        ∙ shut_stops err_generic r fds

-- If only the group is configured and its socket opens, but `epoll` does not take it,
-- `udp_receiver_start` returns `IOT_OK` with no socket at all.
pub udp_receiver_start_deaf :
    (fds : List ℕ) (r : Receiver) (c : Config) (a : StartAnswer) (ep m : ℕ)
    → c.args_ok ≡ true
    → c.ucast ≡ false
    → c.mcast ≡ true
    → a.epoll ≡ some ep
    → (udp_mcast_init (ep ∷ fds) c.named a.mcast_socket).0 ≡ some m
    → a.mcast_added ≡ false
    → a.create_ok ≡ true
    → let end = udp_receiver_start fds r c a in
      (end.status ≡ ok) × (end.statics.g_ucast_fd ≡ none) × (end.statics.g_mcast_fd ≡ none)
unfolding udp_receiver_start start_ucast start_mcast start_thread
udp_receiver_start_deaf fds r c a ep m good no_ucast mcast epoll opened refused created =
    simp (good, no_ucast, mcast, epoll, opened, refused, created) (refl, refl, refl)
