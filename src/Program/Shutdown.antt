-- ===== src/Program/Shutdown.antt =====
-- Whether a list of calls of main.c comes to its end, and leaves nothing behind.
use io_t_collector.Base.{
  ◌≡◌, arith, Bool, true, false, not, ◌&&◌, ◌||◌, if◌then◌else◌, List, [], ◌∷◌,
}
use io_t_collector.Program.{
  Thread, statistics, udp, tcp, cleaner, sim, dispatch, Action, inits_q1, inits_q2, destroys_q1,
  destroys_q2, inits_contexts, destroys_contexts, starts, stops, joins, clears_running, wakes_q1,
  binds_queues, reports, Answers, stop_ingress, run_and_stop, start_parts, main_calls,
}

-- The threads that run, the resources that there are, and what has been said to the threads. `bound` is
-- whether the statistics read the two queues, and `exposed` whether they can have read one that was
-- destroyed.
pub record Machine : Type 0 where
  pub bound : Bool
  pub exposed : Bool
  pub statistics_runs : Bool
  pub running : Bool
  pub woken : Bool
  pub udp_stopped : Bool
  pub dispatch_stopped : Bool
  pub udp_runs : Bool
  pub tcp_runs : Bool
  pub cleaner_runs : Bool
  pub sim_runs : Bool
  pub dispatch_runs : Bool
  pub q1 : Bool
  pub q2 : Bool
  pub contexts : Bool

abbrev pub before_main : Machine
before_main = record {
  bound = false;
  exposed = false;
  statistics_runs = false;
  running = true;
  woken = false;
  udp_stopped = false;
  dispatch_stopped = false;
  udp_runs = false;
  tcp_runs = false;
  cleaner_runs = false;
  sim_runs = false;
  dispatch_runs = false;
  q1 = false;
  q2 = false;
  contexts = false;
}

-- The threads that are joined somewhere; that of the statistics is not one of them.
abbrev no_worker : Machine → Bool
no_worker m =
    not m.udp_runs
    && (not m.tcp_runs && (not m.cleaner_runs && (not m.sim_runs && not m.dispatch_runs)))

abbrev both_queues : Machine → Bool
both_queues m = m.q1 && m.q2

-- What becomes of a call: it returns, it waits for a thread that does not end, or it makes no sense, such
-- as one that takes a resource from a thread or starts a thread without its resources.
pub data Outcome : Type 0 where
  ran : Machine → Outcome
  hangs : Thread → Outcome
  breaks : Action → Outcome

abbrev only_if : Bool → Action → Machine → Outcome
only_if b x m = if b then ran m else breaks x

-- A start needs the queues, and the cleaner its contexts. `stats_init` comes before the queues.
abbrev start_of : Machine → Thread → Outcome
start_of m statistics =
    only_if (not m.statistics_runs) (starts statistics) (record m { statistics_runs = true })
start_of m udp =
    only_if (both_queues m && not m.udp_runs) (starts udp) (record m { udp_runs = true })
start_of m tcp =
    only_if (both_queues m && not m.tcp_runs) (starts tcp) (record m { tcp_runs = true })
start_of m cleaner =
    only_if (both_queues m && (m.contexts && not m.cleaner_runs)) (starts cleaner)
      (record m { cleaner_runs = true })
start_of m sim =
    only_if (both_queues m && not m.sim_runs) (starts sim) (record m { sim_runs = true })
start_of m dispatch =
    only_if (both_queues m && not m.dispatch_runs) (starts dispatch)
      (record m { dispatch_runs = true })

abbrev waits : Bool → Thread → Machine → Outcome
waits b t m = if b then ran m else hangs t

-- A join returns when the thread's loop can end: all but that of the statistics end when `g_running` is
-- 0, the cleaner and the dispatcher if they were woken from their queue behind that, and the UDP thread
-- also when its descriptors are closed. `stats_thread_run` is never cleared.
abbrev join_of : Machine → Thread → Outcome
join_of m statistics = hangs statistics
join_of m udp = waits (m.udp_stopped || not m.running) udp (record m { udp_runs = false })
join_of m tcp = waits (not m.running) tcp (record m { tcp_runs = false })
join_of m cleaner = waits (not m.running && m.woken) cleaner (record m { cleaner_runs = false })
join_of m sim = waits (not m.running) sim (record m { sim_runs = false })
join_of m dispatch =
    waits (not m.running && m.dispatch_stopped) dispatch (record m { dispatch_runs = false })

abbrev stop_of : Machine → Thread → Machine
stop_of m udp = record m { udp_stopped = true }
stop_of m dispatch = record m { dispatch_stopped = not m.running }
stop_of m _ = m

-- The statistics' thread reads the queues once a second, so that it can meet a destroyed one.
abbrev expose : Machine → Machine
expose m = record m { exposed = m.exposed || (m.bound && m.statistics_runs) }

unfoldable pub act : Machine → Action → Outcome
act m inits_q1 = ran (record m { q1 = true })
act m inits_q2 = ran (record m { q2 = true })
act m destroys_q1 = only_if (m.q1 && no_worker m) destroys_q1 (expose (record m { q1 = false }))
act m destroys_q2 = only_if (m.q2 && no_worker m) destroys_q2 (expose (record m { q2 = false }))
act m inits_contexts = ran (record m { contexts = true })
act m destroys_contexts =
    only_if (m.contexts && not m.cleaner_runs) destroys_contexts (record m { contexts = false })
act m (starts t) = start_of m t
act m (stops t) = ran (stop_of m t)
act m (joins t) = join_of m t
act m clears_running = ran (record m { running = false })
act m wakes_q1 = ran (record m { woken = not m.running })
act m binds_queues = only_if (both_queues m) binds_queues (record m { bound = true })
act m reports = ran (record m { exposed = m.exposed || (m.bound && not (both_queues m)) })

abbrev then_run : (Machine → Outcome) → Outcome → Outcome
then_run f (ran m) = f m
then_run f (hangs t) = hangs t
then_run f (breaks x) = breaks x

unfoldable pub carry_out : List Action → Machine → Outcome
carry_out [] m = ran m
carry_out (x ∷ xs) m = then_run (carry_out xs) (act m x)

abbrev agree : Bool → Bool → Bool
agree a b = if a then b else not b

-- The calls have returned, and no joined thread, queue or context is left; the other two say whether the
-- statistics' thread is, and what became of `exposed`.
abbrev pub all_gone : Bool → Bool → Outcome → Bool
all_gone statistics_left exposed (ran m) =
    no_worker m
    && (not m.q1
        && (not m.q2
            && (not m.contexts
                && (agree m.statistics_runs statistics_left && agree m.exposed exposed))))
all_gone statistics_left exposed (hangs t) = false
all_gone statistics_left exposed (breaks x) = false

-- Both queues come up.
abbrev pub queues_up : Answers → Bool
queues_up a = a.signals_ok && (a.q1_ok && a.q2_ok)

-- If everything comes up until the cleaner's thread cannot be created, and the TCP poller's thread
-- runs, the clean-up of `main` does not end unless a signal comes: it waits for just that thread, since
-- `g_running` is still 1.
pub main_calls_hang :
    (a : Answers)
    → a.signals_ok ≡ true
    → a.q1_ok ≡ true
    → a.q2_ok ≡ true
    → a.tcp_ok ≡ true
    → a.cleaner_ok ≡ false
    → carry_out (main_calls a) before_main ≡ hangs tcp
unfolding main_calls start_parts run_and_stop stop_ingress carry_out act
main_calls_hang a signals first second poller none_made = ground arith
