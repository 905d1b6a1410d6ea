-- ===== src/Dispatcher/Reconnect.antt =====
-- The monitor of egress/dispatcher.c when the platform is lost.
use io_t_collector.Base.{
  ℕ, ◌≡◌, refl, ap, ◌∙◌, true, false, Bool-cases, inl, inr, leb, ◌-◌, Option, none, some, List, [],
  ◌∷◌,
}
use io_t_collector.Unicast.{
  Link, tcp_connect_timeout, unicast_link_online, unicast_sender_init, unicast_mark_result,
  unicast_sender_close,
}
use io_t_collector.Dispatcher.Life.{Life, closed_link}
use io_t_collector.Dispatcher.Monitor.{
  Clocks, TurnAnswers, is_open, heartbeat_due, replace_fd, reconnect_due, replay_due, monitor_turn,
}

-- The platform accepts every connection.
pub record IsReachable (a : TurnAnswers) : Type 0 where
  pub args_given : a.args_ok ≡ true
  pub connects : tcp_connect_timeout a.attempt ≡ some (record { rc = none; closed = false })

-- The link is down, and the old descriptor is still held.
pub record IsLost (d : Life) : Type 0 where
  pub offline : unicast_link_online d.link ≡ false
  pub held : is_open d.unicast_fd ≡ true

init_connects :
    (l : Link) (a : TurnAnswers)
    → IsReachable a
    → unicast_sender_init l a.args_ok a.attempt ≡ some (none, unicast_mark_result l true)
unfolding unicast_sender_init
init_connects l a r = rw (r.args_given, r.connects) refl

replace-IsLost :
    (d : Life) (l : Link) (fd : ℕ) → is_open d.unicast_fd ≡ true → IsLost (replace_fd d l (some fd))
unfolding replace_fd unicast_link_online unicast_sender_close
replace-IsLost d l fd held = record { offline = closed_down d.unicast_fd held; held = refl }
  where
    closed_down : (o : Option ℕ) → is_open o ≡ true → (closed_link o l).online ≡ false
    closed_down none h = cc
    closed_down (some old) h = refl

same : (d : Life) (l : Link) (o : Option ℕ) → (replace_fd d l o).has_platform ≡ d.has_platform
unfolding replace_fd
same d l o = refl

module _ (d : Life) (t : Clocks) (a : TurnAnswers) (r : IsReachable a) (lost : IsLost d) where
  no_heartbeat : heartbeat_due d t a ≡ (d, t)
  unfolding heartbeat_due
  no_heartbeat = rw lost.offline refl

  reconnect-IsLost :
      (d' : Life) × (t' : Clocks) × (reconnect_due d t a ≡ some (d', t'))
      × IsLost d'
      × (d'.has_platform ≡ d.has_platform)
  unfolding reconnect_due
  reconnect-IsLost = elim (Bool-cases (leb 5 (a.clock 3 - t.last_retry))) [
    | inr early ↦ (d, t, rw (lost.offline, early) refl, lost, refl)
    | inl due ↦ (
      replace_fd d (unicast_mark_result d.link true) (some a.new_fd),
      record t { last_retry = a.clock 4 },
      rw (lost.offline, due, init_connects d.link a r) refl,
      replace-IsLost d (unicast_mark_result d.link true) a.new_fd lost.held,
      same d (unicast_mark_result d.link true) (some a.new_fd),
    )
  ]

no_replay : (d : Life) (t : Clocks) (a : TurnAnswers) → IsLost d → replay_due d t a ≡ (d, t)
unfolding replay_due
no_replay d t a lost = elim (Bool-cases d.stop) [
  | inl stopped ↦ simp stopped refl
  | inr on ↦ elim (Bool-cases d.has_cache) [
    | inr no_cache ↦ simp (on, no_cache) refl
    | inl cached ↦ simp (on, cached, lost.offline) refl
  ]
]

turn-IsLost :
    (d : Life) (t : Clocks) (a : TurnAnswers)
    → IsReachable a
    → IsLost d
    → (d' : Life) × (t' : Clocks) × (monitor_turn d t a ≡ some (d', t')) × IsLost d'
unfolding monitor_turn
turn-IsLost d t a r lost =
    let (d', t', e, lost', _) = reconnect-IsLost d t a r lost in
    elim (Bool-cases d.has_platform) [
      | inr no_platform ↦ (d, t, simp no_platform refl, lost)
      | inl platform ↦ (
        d',
        t',
        simp (platform, no_heartbeat d t a r lost, e, no_replay d' t' a lost') refl,
        lost',
      )
    ]

-- The turns of the monitor, one after another.
abbrev pub next_turns :
    (Life → Clocks → Option (Life × Clocks)) → Option (Life × Clocks) → Option (Life × Clocks)
next_turns f none = none
next_turns f (some (d, t)) = f d t

unfoldable pub monitor_turns : List TurnAnswers → Life → Clocks → Option (Life × Clocks)
monitor_turns [] d t = some (d, t)
monitor_turns (a ∷ more) d t = next_turns (monitor_turns more) (monitor_turn d t a)

abbrev pub AllReachable : List TurnAnswers → Type 0
AllReachable [] = Unit
AllReachable (a ∷ more) = IsReachable a × AllReachable more

-- Once the link is down and the old descriptor is still held, it stays down through any number of
-- turns of the monitor, although the platform accepts each connection that these try.
pub monitor_turns-IsLost :
    (turns : List TurnAnswers) (d : Life) (t : Clocks)
    → AllReachable turns
    → IsLost d
    → (d' : Life) × (t' : Clocks) × (monitor_turns turns d t ≡ some (d', t')) × IsLost d'
unfolding monitor_turns
monitor_turns-IsLost [] d t r lost = (d, t, refl, lost)
monitor_turns-IsLost (a ∷ more) d t r lost =
    let (d1, t1, e1, lost1) = turn-IsLost d t a r.0 lost in
    let (d', t', e, lost') = monitor_turns-IsLost more d1 t1 r.1 lost1 in
    (d', t', ap (next_turns (monitor_turns more)) e1 ∙ e, lost')
