-- ===== src/Dispatcher/Whole.antt =====
-- egress/dispatcher.c from `dispatcher_start` through the turns of the monitor to `dispatcher_join`.
use mathlib.Core.Path.{subst}
use io_t_collector.Base.{
  ℕ, ◌≡◌, refl, sym, ap, ◌∙◌, arith, true, Bool-cases, inl, inr, Option, none, some, List, [], ◌∷◌,
  ◌&&◌, not, ltb, leb, ◌-◌,
}
use io_t_collector.Status.{Status, ok}
use io_t_collector.Cache.{Cache, cache_pending_frames}
use io_t_collector.Unicast.{Link, unicast_link_online, unicast_sender_init}
use io_t_collector.Dispatcher.Life.{
  Life, Config, Answers, opened, closed_fd, dispatcher_start, dispatcher_stop, dispatcher_join,
}
use io_t_collector.Dispatcher.Lifecycle.{
  IsIdle, IsQuiet, IsRunning, close_head, stopped, start-IsRunning, stop_flag-IsRunning,
  join-IsQuiet,
}
use io_t_collector.Dispatcher.Monitor.{
  Clocks, TurnAnswers, heartbeat_due, replace_fd, new_connection, retried, reconnect_due, replay_on,
  replay_due, then_replay, monitor_turn,
}
use io_t_collector.Dispatcher.Reconnect.{next_turns, monitor_turns}

-- A turn that ends leaves a running dispatcher.
abbrev EndsRunning : List ℕ → ℕ → Option (Life × Clocks) → Type 0
EndsRunning fds buckets none = Unit
EndsRunning fds buckets (some (d, t)) = IsRunning fds buckets d

replaced :
    (old new : Option ℕ) (fds : List ℕ)
    → closed_fd old (opened new (opened old fds)) ≡ opened new fds
replaced none new fds = refl
replaced (some o) none fds = close_head o fds
replaced (some o) (some n) fds = ground arith

module _ (fds : List ℕ) (buckets : ℕ) where
  link-IsRunning :
      (d : Life) (l : Link)
      → IsRunning fds buckets d
      → IsRunning fds buckets (record d { link = l })
  link-IsRunning d l r = record {
    ready = record {
      ticker_known = r.ready.ticker_known;
      monitor_known = r.ready.monitor_known;
      own_there = r.ready.own_there;
      fds_known = r.ready.fds_known;
      buckets_known = r.ready.buckets_known;
    };
    on = r.on;
    workers_known = r.workers_known;
  }

  cache-IsRunning :
      (d : Life) (c : Cache)
      → IsRunning fds buckets d
      → IsRunning fds buckets (record d { cache = c })
  cache-IsRunning d c r = record {
    ready = record {
      ticker_known = r.ready.ticker_known;
      monitor_known = r.ready.monitor_known;
      own_there = r.ready.own_there;
      fds_known = r.ready.fds_known;
      buckets_known = r.ready.buckets_known;
    };
    on = r.on;
    workers_known = r.workers_known;
  }

  replace_fd-IsRunning :
      (d : Life) (l : Link) (fd : Option ℕ)
      → IsRunning fds buckets d
      → IsRunning fds buckets (replace_fd d l fd)
  unfolding replace_fd
  replace_fd-IsRunning d l fd r = record {
    ready = record {
      ticker_known = r.ready.ticker_known;
      monitor_known = r.ready.monitor_known;
      own_there = r.ready.own_there;
      fds_known =
          ap (λ xs. closed_fd d.unicast_fd (opened fd xs)) r.ready.fds_known
          ∙ replaced d.unicast_fd fd (opened d.mcast_fd fds);
      buckets_known = r.ready.buckets_known;
    };
    on = r.on;
    workers_known = r.workers_known;
  }

  heartbeat_due-IsRunning :
      (d : Life) (t : Clocks) (a : TurnAnswers)
      → IsRunning fds buckets d
      → IsRunning fds buckets (heartbeat_due d t a).0
  unfolding heartbeat_due
  heartbeat_due-IsRunning d t a r =
      elim (Bool-cases (unicast_link_online d.link && leb 30 (a.clock 0 - t.last_hb))) [
        | inl due ↦ rw due (link-IsRunning d _ r)
        | inr early ↦ rw early r
      ]

  connection-EndsRunning :
      (d : Life) (t : Clocks) (now new_fd : ℕ) (o : Option (Option Status × Link))
      → IsRunning fds buckets d
      → EndsRunning fds buckets (retried t now (new_connection d new_fd o))
  connection-EndsRunning d t now new_fd none r = tt
  connection-EndsRunning d t now new_fd (some (none, l)) r =
      replace_fd-IsRunning d l (some new_fd) r
  connection-EndsRunning d t now new_fd (some (some s, l)) r = replace_fd-IsRunning d l none r

  reconnect_due-EndsRunning :
      (d : Life) (t : Clocks) (a : TurnAnswers)
      → IsRunning fds buckets d
      → EndsRunning fds buckets (reconnect_due d t a)
  unfolding reconnect_due
  reconnect_due-EndsRunning d t a r =
      elim (Bool-cases (not (unicast_link_online d.link) && leb 5 (a.clock 3 - t.last_retry))) [
        | inl due ↦ rw due (
            connection-EndsRunning d t (a.clock 4) a.new_fd
              (unicast_sender_init d.link a.args_ok a.attempt) r)
        | inr early ↦ rw early r
      ]

  replay_on-IsRunning :
      (o : Option ℕ) (d : Life) (answers : List Status)
      → IsRunning fds buckets d
      → IsRunning fds buckets (replay_on o d answers)
  replay_on-IsRunning none d answers r = r
  replay_on-IsRunning (some fd) d answers r = cache-IsRunning d _ r

  replay_due-IsRunning :
      (d : Life) (t : Clocks) (a : TurnAnswers)
      → IsRunning fds buckets d
      → IsRunning fds buckets (replay_due d t a).0
  unfolding replay_due
  replay_due-IsRunning d t a r =
      elim (Bool-cases (
        not d.stop
        && (d.has_cache
            && (unicast_link_online d.link
                && (ltb 0 (cache_pending_frames d.cache) && leb 5 (a.clock 5 - t.last_replay)))))) [
                  | inl due ↦ rw due (replay_on-IsRunning d.unicast_fd d a.replayed r)
                  | inr early ↦ rw early r
                ]

  then_replay-EndsRunning :
      (o : Option (Life × Clocks)) (a : TurnAnswers)
      → EndsRunning fds buckets o
      → EndsRunning fds buckets (then_replay o a)
  then_replay-EndsRunning none a r = tt
  then_replay-EndsRunning (some (d, t)) a r = replay_due-IsRunning d t a r

  monitor_turn-EndsRunning :
      (d : Life) (t : Clocks) (a : TurnAnswers)
      → IsRunning fds buckets d
      → EndsRunning fds buckets (monitor_turn d t a)
  unfolding monitor_turn
  monitor_turn-EndsRunning d t a r = elim (Bool-cases d.has_platform) [
    | inr no_platform ↦ simp no_platform r
    | inl platform ↦ simp platform (
        then_replay-EndsRunning _ a
          (reconnect_due-EndsRunning _ _ a (heartbeat_due-IsRunning d t a r)))
  ]

  turns-EndsRunning :
      (turns : List TurnAnswers) (o : Option (Life × Clocks))
      → EndsRunning fds buckets o
      → EndsRunning fds buckets (next_turns (monitor_turns turns) o)
  unfolding monitor_turns
  turns-EndsRunning turns none r = tt
  turns-EndsRunning [] (some (d, t)) r = r
  turns-EndsRunning (a ∷ turns) (some (d, t)) r =
      turns-EndsRunning turns (monitor_turn d t a) (monitor_turn-EndsRunning d t a r)

-- An idle dispatcher is started with the result `IOT_OK`, and its monitor makes any turns that end: then
-- `dispatcher_stop` and `dispatcher_join` leave an idle dispatcher again. Every thread that was created
-- is joined, the sockets that are open are those that were open before the start, and there are as many
-- buckets as before it, so that it can be started again.
pub dispatcher_join-IsQuiet :
    (d : Life) (c : Config) (a : Answers) (turns : List TurnAnswers) (t t' : Clocks) (d' : Life)
    → IsIdle d
    → (dispatcher_start d c a).0 ≡ ok
    → monitor_turns turns (dispatcher_start d c a).1 t ≡ some (d', t')
    → IsQuiet d.fds d.buckets (dispatcher_join (dispatcher_stop d'))
dispatcher_join-IsQuiet d c a turns t t' d' i e ended =
    let r : IsRunning d.fds d.buckets d' = subst (EndsRunning d.fds d.buckets) ended (
      turns-EndsRunning d.fds d.buckets turns (some ((dispatcher_start d c a).1, t))
        (start-IsRunning d c a i e)) in
    subst (λ l. IsQuiet d.fds d.buckets (dispatcher_join l)) (sym (stopped d' r.on))
      (join-IsQuiet d.fds d.buckets (record d' { stop = true })
        (stop_flag-IsRunning d.fds d.buckets d' r))
