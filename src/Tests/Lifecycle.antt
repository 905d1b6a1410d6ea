-- ===== src/Tests/Lifecycle.antt =====
-- Concrete runs of main.c and of the start, the monitor and the end of egress/dispatcher.c.
use io_t_collector.Base.{ℕ, ◌≡◌, refl, true, false, none, some, [], ◌∷◌}
use io_t_collector.Status.{done, ok, err_generic}
use io_t_collector.Tbf.{Tbf}
use io_t_collector.Cache.{Cache}
use io_t_collector.Unicast.{
  Link, Attempt, unicast_link_online, connected, tcp_connect_timeout, finish_connect,
  unicast_mark_result, unicast_sender_init,
}
use io_t_collector.Cleaner.{cleaner_init, clean_batch}
use io_t_collector.Stats.{stats_init}
use io_t_collector.Dispatcher.{copy_opt_str}
use io_t_collector.Dispatcher.Life.{
  Life, Config, Answers, worker_count, create_workers, strings_fit, finish_start, open_channels,
  reset_life, dispatcher_start, dispatcher_stop, dispatcher_join,
}
use io_t_collector.Dispatcher.Lifecycle.{IsIdle, IsQuiet, dispatcher_start_leaks}
use io_t_collector.Dispatcher.Whole.{dispatcher_join-IsQuiet}
use io_t_collector.Dispatcher.Monitor.{
  Clocks, TurnAnswers, heartbeat_due, replace_fd, reconnect_due, replay_due, monitor_turn,
}
use io_t_collector.Dispatcher.Reconnect.{IsReachable, IsLost, monitor_turns, monitor_turns-IsLost}
use io_t_collector.Program.{tcp, main_calls}
use io_t_collector.Program
use io_t_collector.Program.Shutdown.{carry_out, before_main, hangs, main_calls_hang}
use io_t_collector.Program.Cleaning.{
  CleanerState, as_worker, clean_frames, clean_frames-clean_batch,
}
use io_t_collector.Tests.Wire.{reading}
use io_t_collector.Tests.Queue.{empty_ring}
use io_t_collector.Tests.Clean.{whole_numbers}

abbrev no_cache : Cache
no_cache = record {
  is_open = false;
  write_cursor = 0;
  read_cursor = 0;
  file = [];
  offset = 0;
  saved = none;
}

abbrev bucket : Tbf
bucket = record { cps = 2000; burst = 100; tokens = 100; shutdown = false; throttled_bytes = 0 }

abbrev down : Link
down = record { online = false; fail_streak = 0 }

abbrev idle : Life
idle = record {
  started = false;
  stop = false;
  tick_stop = false;
  tick_started = false;
  mon_started = false;
  worker_num = 0;
  mcast_fd = none;
  unicast_fd = none;
  has_platform = false;
  has_cache = false;
  outbound = none;
  own_bucket = false;
  retry = none;
  link = down;
  cache = no_cache;
  ticker_runs = false;
  monitor_runs = false;
  workers_run = 0;
  fds = 3 ∷ [];
  buckets = 0;
}

idle-IsIdle : IsIdle idle
idle-IsIdle = record {
  not_started = refl;
  no_own = refl;
  no_ticker = refl;
  no_monitor = refl;
  monitor_off = refl;
  no_workers = refl;
}

abbrev config : Config
config = record {
  args_ok = true;
  worker_num = 2;
  mcast_group = some (50 ∷ []);
  mcast_ifname = none;
  platform_ip = some (49 ∷ []);
  cache_path = none;
}

-- One worker starts, the second does not.
abbrev answers : Answers
answers = record {
  bucket = done bucket;
  ticker_ok = true;
  mcast_fd = some 6;
  cache = no_cache;
  unicast_fd = some 7;
  link = record { online = true; fail_streak = 0 };
  workers_ok = true ∷ false ∷ [];
  monitor_ok = true;
}

starts_well : (dispatcher_start idle config answers).0 ≡ ok
unfolding dispatcher_start strings_fit copy_opt_str reset_life open_channels finish_start
    create_workers worker_count
starts_well = refl

strings_are_short : strings_fit config ≡ true
unfolding strings_fit copy_opt_str
strings_are_short = refl

dispatcher_start_leaks_example :
    let (s, d) = dispatcher_start idle config (record answers { workers_ok = false ∷ [] }) in
    (s ≡ err_generic)
    × (d.started ≡ false)
    × ((dispatcher_join d).ticker_runs ≡ true)
    × ((dispatcher_join d).buckets ≡ 1)
dispatcher_start_leaks_example =
    dispatcher_start_leaks idle config (record answers { workers_ok = false ∷ [] }) bucket []
      idle-IsIdle refl strings_are_short refl refl refl refl

abbrev attempt : Attempt
attempt = record {
  socket_ok = true;
  address_ok = true;
  nonblock_ok = true;
  connecting = connected;
  polled = [];
  so_error_ok = true;
  restore_ok = true;
}

attempt_connects : tcp_connect_timeout attempt ≡ some (record { rc = none; closed = false })
unfolding tcp_connect_timeout finish_connect
attempt_connects = refl

abbrev turn_at : ℕ → TurnAnswers
turn_at now = record {
  clock = λ _. now;
  sends = [];
  args_ok = true;
  attempt = attempt;
  new_fd = 8;
  replayed = [];
}

turn-IsReachable : (now : ℕ) → IsReachable (turn_at now)
turn-IsReachable now = record { args_given = refl; connects = attempt_connects }

abbrev lost : Life
lost = record idle { started = true; has_platform = true; unicast_fd = some 7 }

lost-IsLost : IsLost lost
unfolding unicast_link_online
lost-IsLost = record { offline = refl; held = refl }

abbrev clocks : Clocks
clocks = record { last_hb = 0; last_retry = 0; last_replay = 0 }

monitor_turns-IsLost_example :
    (d : Life) × (t : Clocks) × (monitor_turns (turn_at 10 ∷ turn_at 20 ∷ []) lost clocks
      ≡ some (d, t))
    × IsLost d
monitor_turns-IsLost_example =
    monitor_turns-IsLost (turn_at 10 ∷ turn_at 20 ∷ []) lost clocks
      (turn-IsReachable 10, (turn-IsReachable 20, tt)) lost-IsLost

-- The platform is not there at the start, and the monitor's first turn connects.
abbrev late : Answers
late = record answers { unicast_fd = none; link = down }

abbrev at_start : Life
at_start = (dispatcher_start idle config late).1

starts_late : (dispatcher_start idle config late).0 ≡ ok
unfolding dispatcher_start strings_fit copy_opt_str reset_life open_channels finish_start
    create_workers worker_count
starts_late = refl

abbrev connected_late : Life
connected_late = replace_fd at_start (unicast_mark_result down true) (some 8)

one_turn :
    monitor_turns (turn_at 10 ∷ []) at_start clocks
    ≡ some (connected_late, record clocks { last_retry = 10 })
unfolding monitor_turns monitor_turn heartbeat_due reconnect_due replay_due unicast_link_online
    unicast_sender_init dispatcher_start strings_fit copy_opt_str reset_life open_channels
    finish_start create_workers worker_count replace_fd unicast_mark_result tcp_connect_timeout
    finish_connect
one_turn = refl

dispatcher_join-IsQuiet_example :
    IsQuiet (3 ∷ []) 0 (dispatcher_join (dispatcher_stop connected_late))
dispatcher_join-IsQuiet_example =
    dispatcher_join-IsQuiet idle config late (turn_at 10 ∷ []) clocks
      (record clocks { last_retry = 10 }) connected_late idle-IsIdle starts_late one_turn

-- The simulator is asked for, and the dispatcher does not start.
abbrev no_dispatcher : Program.Answers
no_dispatcher = record {
  signals_ok = true;
  stats_ok = true;
  q1_ok = true;
  q2_ok = true;
  udp_ok = true;
  tcp_ok = true;
  cleaner_ok = true;
  opt_sim = true;
  sim_ok = true;
  dispatch_ok = false;
}

abbrev no_cleaner : Program.Answers
no_cleaner = record no_dispatcher { cleaner_ok = false }

main_calls_hang_example : carry_out (main_calls no_cleaner) before_main ≡ hangs tcp
main_calls_hang_example = main_calls_hang no_cleaner refl refl refl refl refl

abbrev cleaner_state : CleanerState
cleaner_state = record { ctxs = cleaner_init; q2 = empty_ring; stats = stats_init }

clean_frames-clean_batch_example :
    (m : ℕ) × (clean_batch whole_numbers true (as_worker cleaner_state 0) (reading ∷ reading ∷ [])
      ≡ as_worker (clean_frames whole_numbers true cleaner_state (reading ∷ reading ∷ [])) m)
clean_frames-clean_batch_example =
    clean_frames-clean_batch whole_numbers true cleaner_state 0 (reading ∷ reading ∷ [])
