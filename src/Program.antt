-- ===== src/Program.antt =====
-- main.c and common/signal_handler.c: the order in which the program starts its parts and takes them
-- down, as the list of the calls that it makes.
use io_t_collector.Base.{
  ℕ, ◌+◌, ◌*◌, ◌%◌, Bool, true, false, not, ◌&&◌, ◌||◌, if◌then◌else◌, ◌==◌, Option, none, some,
  List, [], ◌∷◌, ◌++◌,
}
use io_t_collector.Base.Words.{u16, u32}
use io_t_collector.Status.{Status}
use io_t_collector.Frame.{EnvFrame, zero_frame, frame_normal}
use io_t_collector.Ingress.{Intake, admit}
pub mod Shutdown
pub mod Cleaning

-- The threads that the parts run.
pub data Thread : Type 0 where
  statistics udp tcp cleaner sim dispatch : Thread

pub data Action : Type 0 where
  inits_q1 inits_q2 destroys_q1 destroys_q2 : Action
  inits_contexts destroys_contexts : Action
  starts stops joins : Thread → Action
  clears_running wakes_q1 : Action
  binds_queues reports : Action

-- Which calls succeed, and whether the option -s is given; `stats_ok` is the `pthread_create` of
-- `stats_init`, whose result is not looked at.
pub record Answers : Type 0 where
  pub signals_ok : Bool
  pub stats_ok : Bool
  pub q1_ok : Bool
  pub q2_ok : Bool
  pub udp_ok : Bool
  pub tcp_ok : Bool
  pub cleaner_ok : Bool
  pub opt_sim : Bool
  pub sim_ok : Bool
  pub dispatch_ok : Bool

-- `iot_signal_init`: the three `sigaction`s; the result is whether it returns 0, and `g_running` as it
-- leaves it.
unfoldable pub iot_signal_init : Bool → Bool → Bool → Bool → Bool × Bool
iot_signal_init running int_ok term_ok pipe_ok =
    if int_ok && (term_ok && pipe_ok) then (true, true) else (false, running)

-- `on_exit_signal` and `iot_shutdown_sequence` on `g_running`.
unfoldable pub on_exit_signal : Bool → Bool
on_exit_signal running = false

abbrev started : Thread → Bool → List Action
started t b = if b then starts t ∷ [] else []

abbrev joined : Thread → Bool → List Action
joined t b = if b then joins t ∷ [] else []

-- `udp_receiver_stop`, `tcp_poller_stop` and the two joins, which wait only for a thread that there is.
unfoldable pub stop_ingress : Answers → List Action
stop_ingress a = stops udp ∷ stops tcp ∷ (joined udp a.udp_ok ++ joined tcp a.tcp_ok)

abbrev pub tear_down : List Action
tear_down = destroys_contexts ∷ destroys_q1 ∷ destroys_q2 ∷ []

-- Step 7 to the end, with the main loop ended by a signal; its rounds, which refresh counters, are left
-- out.
unfoldable pub run_and_stop : Answers → List Action
run_and_stop a =
    let sim_on = a.opt_sim && a.sim_ok in
    if not a.dispatch_ok
    then clears_running
      ∷ wakes_q1
      ∷ joins cleaner
      ∷ (joined sim sim_on ++ (stop_ingress a ++ tear_down))
    else starts dispatch
      ∷ clears_running
      ∷ (stop_ingress a
          ++ (joined sim sim_on
              ++ (wakes_q1
                  ∷ joins cleaner
                  ∷ stops dispatch
                  ∷ joins dispatch
                  ∷ (tear_down ++ (reports ∷ [])))))

-- Step 4 to step 6.5.
unfoldable pub start_parts : Answers → List Action
start_parts a =
    inits_contexts
    ∷ (started udp a.udp_ok
        ++ (started tcp a.tcp_ok
            ++ (if not a.cleaner_ok
                then stop_ingress a ++ tear_down
                else starts cleaner ∷ (started sim (a.opt_sim && a.sim_ok) ++ run_and_stop a))))

-- The calls of `main` behind the command line. `stats_init` is the start of its thread.
unfoldable pub main_calls : Answers → List Action
main_calls a =
    if not a.signals_ok
    then []
    else started statistics a.stats_ok
      ++ (if not a.q1_ok
          then []
          else if not a.q2_ok
          then inits_q1 ∷ destroys_q1 ∷ []
          else inits_q1 ∷ inits_q2 ∷ binds_queues ∷ start_parts a)

-- The frame that `sim_thread` makes in a round; `now` is `time(NULL)`.
unfoldable pub sim_frame : ℕ → ℕ → ℕ → EnvFrame
sim_frame station seq now = record zero_frame {
  magic_0 = 235;
  magic_1 = 144;
  version = 1;
  frame_type = frame_normal;
  station_id = station;
  timestamp_sec = u32 now;
  timestamp_ms = seq % 1000;
  temperature = 200 + seq % 50;
  humidity = 500 + seq % 30;
  pm25 = if seq % 17 == 0 then 800 else 30 + seq % 20;
  pm10 = 50 + seq % 20;
  co_ppb = 200 + seq % 10;
  noise_db = 400 + seq % 20;
}

-- The rounds of `sim_thread` from `station` and `seq`, with the time of each.
unfoldable pub sim_thread : ℕ → ℕ → List ℕ → Intake → Intake
sim_thread station seq [] s = s
sim_thread station seq (now ∷ times) s =
    let seq' = u32 (seq + 1) in
    sim_thread (if seq' % 20 == 0 then u16 (station % 5 + 1) else station) seq' times
      (admit 3 s (sim_frame station seq now))
