-- ===== src/Dispatcher/Monitor.antt =====
-- egress/dispatcher.c: a turn of `dispatch_monitor`.
use io_t_collector.Base.{
  ℕ, ◌-◌, Bool, true, false, not, ◌&&◌, if◌then◌else◌, ltb, leb, Option, none, some, List,
}
use io_t_collector.Status.{Status}
use io_t_collector.Cache.{cache_pending_frames, cache_replay_start}
use io_t_collector.Unicast.{
  Link, Send, Attempt, unicast_link_online, unicast_sender_init, unicast_sender_heartbeat,
}
use io_t_collector.Dispatcher.Life.{Life, closed_link, opened, closed_fd}

-- `last_hb`, `last_retry` and `last_replay`.
pub record Clocks : Type 0 where
  pub last_hb : ℕ
  pub last_retry : ℕ
  pub last_replay : ℕ

-- What the turn's calls answer: `time` at its successive calls, `send` for the heartbeat, the calls of
-- the connection attempt and its descriptor, and the sends of the replay.
pub record TurnAnswers : Type 0 where
  pub clock : ℕ → ℕ
  pub sends : List Send
  pub args_ok : Bool
  pub attempt : Attempt
  pub new_fd : ℕ
  pub replayed : List Status

abbrev pub is_open : Option ℕ → Bool
is_open none = false
is_open (some _) = true

abbrev beat : Option ℕ → Link → ℕ → List Send → Link
beat none l now sends = l
beat (some _) l now sends = (unicast_sender_heartbeat l true now sends).1

unfoldable pub heartbeat_due : Life → Clocks → TurnAnswers → Life × Clocks
heartbeat_due d t a =
    if unicast_link_online d.link && leb 30 (a.clock 0 - t.last_hb)
    then (
      record d { link = beat d.unicast_fd d.link (a.clock 1) a.sends },
      record t { last_hb = a.clock 2 },
    )
    else (d, t)

-- The old descriptor is closed behind the new connection.
unfoldable pub replace_fd : Life → Link → Option ℕ → Life
replace_fd d l fd = record d {
  link = closed_link d.unicast_fd l;
  unicast_fd = fd;
  fds = closed_fd d.unicast_fd (opened fd d.fds);
}

abbrev pub new_connection : Life → ℕ → Option (Option Status × Link) → Option Life
new_connection d new_fd none = none
new_connection d new_fd (some (none, l)) = some (replace_fd d l (some new_fd))
new_connection d new_fd (some (some s, l)) = some (replace_fd d l none)

abbrev pub retried : Clocks → ℕ → Option Life → Option (Life × Clocks)
retried t now none = none
retried t now (some d) = some (d, record t { last_retry = now })

-- `none` is a turn that still waits for the connection.
unfoldable pub reconnect_due : Life → Clocks → TurnAnswers → Option (Life × Clocks)
reconnect_due d t a =
    if not (unicast_link_online d.link) && leb 5 (a.clock 3 - t.last_retry)
    then retried t (a.clock 4)
        (new_connection d a.new_fd (unicast_sender_init d.link a.args_ok a.attempt))
    else some (d, t)

abbrev pub replay_on : Option ℕ → Life → List Status → Life
replay_on none d answers = d
replay_on (some _) d answers = record d { cache = (cache_replay_start d.cache answers).1 }

unfoldable pub replay_due : Life → Clocks → TurnAnswers → Life × Clocks
replay_due d t a =
    if not d.stop
      && (d.has_cache
          && (unicast_link_online d.link
              && (ltb 0 (cache_pending_frames d.cache) && leb 5 (a.clock 5 - t.last_replay))))
    then (replay_on d.unicast_fd d a.replayed, record t { last_replay = a.clock 6 })
    else (d, t)

abbrev pub then_replay : Option (Life × Clocks) → TurnAnswers → Option (Life × Clocks)
then_replay none a = none
then_replay (some (d, t)) a = some (replay_due d t a)

-- The turn behind its `sleep`. The link is changed by `replay_due` through its sends as well; what
-- these make of it is not part of the result.
unfoldable pub monitor_turn : Life → Clocks → TurnAnswers → Option (Life × Clocks)
monitor_turn d t a =
    let (d', t') = heartbeat_due d t a in
    if not d.has_platform then some (d, t) else then_replay (reconnect_due d' t' a) a
