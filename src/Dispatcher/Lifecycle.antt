-- ===== src/Dispatcher/Lifecycle.antt =====
-- The threads and handles of egress/dispatcher.c between start and join.
use io_t_collector.Base.{
  ℕ, zero, suc, ◌+◌, ◌≡◌, refl, sym, ap, ◌∙◌, arith, Bool, true, false, Bool-cases, inl, inr,
  if◌then◌else◌, ◌==◌, Option, none, some, List, ◌∷◌,
}
use io_t_collector.Status.{Result, done, fail, ok, err_generic}
use io_t_collector.Tbf.{Tbf}
use io_t_collector.Ingress.Udp.{close}
use io_t_collector.Dispatcher.Life.{
  Life, Config, Answers, create_workers, strings_fit, finish_start, open_channels, reset_life,
  opened, closed_fd, destroyed, still_own, own_bucket_of, started_with, dispatcher_start,
  dispatcher_stop, dispatcher_join,
}

-- Not started, no thread left over, no bucket of its own.
pub record IsIdle (d : Life) : Type 0 where
  pub not_started : d.started ≡ false
  pub no_own : d.own_bucket ≡ false
  pub no_ticker : d.ticker_runs ≡ false
  pub no_monitor : d.monitor_runs ≡ false
  pub monitor_off : d.mon_started ≡ false
  pub no_workers : d.workers_run ≡ 0

-- Idle with both sockets closed, where `fds` are the descriptors that are open and `buckets` the number
-- of buckets that are left.
pub record IsQuiet (fds : List ℕ) (buckets : ℕ) (d : Life) : Type 0 where
  pub idle : IsIdle d
  pub no_unicast : d.unicast_fd ≡ none
  pub no_mcast : d.mcast_fd ≡ none
  pub same_fds : d.fds ≡ fds
  pub same_buckets : d.buckets ≡ buckets

-- What a start has before it creates the workers.
pub record IsReady (fds : List ℕ) (buckets : ℕ) (d : Life) : Type 0 where
  pub ticker_known : d.ticker_runs ≡ d.tick_started
  pub monitor_known : d.monitor_runs ≡ d.mon_started
  pub own_there : still_own d.own_bucket d.outbound ≡ false
  pub fds_known : d.fds ≡ opened d.unicast_fd (opened d.mcast_fd fds)
  pub buckets_known : d.buckets ≡ (if d.own_bucket then suc buckets else buckets)

-- The statics know every thread.
pub record IsRunning (fds : List ℕ) (buckets : ℕ) (d : Life) : Type 0 where
  pub ready : IsReady fds buckets d
  pub on : d.started ≡ true
  pub workers_known : d.workers_run ≡ d.worker_num

finish-IsRunning :
    (fds : List ℕ) (buckets : ℕ) (d : Life) (n : ℕ) (monitor_ok : Bool)
    → IsReady fds buckets d
    → (finish_start d n monitor_ok).0 ≡ ok
    → IsRunning fds buckets (finish_start d n monitor_ok).1
unfolding finish_start
finish-IsRunning fds buckets d n monitor_ok r e = elim (Bool-cases (n == 0)) [
  | inl none_there ↦ cc (rw none_there at e)
  | inr some_there ↦ rw some_there (record {
    ready = record {
      ticker_known = r.ticker_known;
      monitor_known = ap (λ b. if d.has_platform then monitor_ok else b) r.monitor_known;
      own_there = r.own_there;
      fds_known = r.fds_known;
      buckets_known = r.buckets_known;
    };
    on = refl;
    workers_known = refl;
  })
]

pub stopped : (d : Life) → d.started ≡ true → dispatcher_stop d ≡ record d { stop = true }
unfolding dispatcher_stop
stopped d on = simp on refl

off_if_known : (runs known : Bool) → runs ≡ known → (if known then false else runs) ≡ false
off_if_known runs true e = refl
off_if_known runs false e = e

pub close_head : (fd : ℕ) (fds : List ℕ) → close fd (fd ∷ fds) ≡ fds
close_head fd fds = ground arith

closed-opened : (fd : Option ℕ) (fds : List ℕ) → closed_fd fd (opened fd fds) ≡ fds
closed-opened none fds = refl
closed-opened (some fd) fds = close_head fd fds

destroyed_lem :
    (own : Bool) (o : Option Tbf) (n before : ℕ)
    → still_own own o ≡ false
    → n ≡ (if own then suc before else before)
    → destroyed own o n ≡ before
destroyed_lem false none n before there e = e
destroyed_lem true none n before there e = absurd (ground (arith, there))
destroyed_lem false (some b) n before there e = e
destroyed_lem true (some b) n before there e = omega (arith, e)

pub join-IsQuiet :
    (fds : List ℕ) (buckets : ℕ) (d : Life)
    → IsRunning fds buckets d
    → IsQuiet fds buckets (dispatcher_join d)
unfolding dispatcher_join
join-IsQuiet fds buckets d r = simp r.on (record {
  idle = record {
    not_started = refl;
    no_own = r.ready.own_there;
    no_ticker = off_if_known d.ticker_runs d.tick_started r.ready.ticker_known;
    no_monitor = off_if_known d.monitor_runs d.mon_started r.ready.monitor_known;
    monitor_off = refl;
    no_workers = omega (arith, r.workers_known);
  };
  no_unicast = refl;
  no_mcast = refl;
  same_fds =
      ap (λ xs. closed_fd d.mcast_fd (closed_fd d.unicast_fd xs)) r.ready.fds_known
      ∙ ap (λ xs. closed_fd d.mcast_fd xs) (closed-opened d.unicast_fd (opened d.mcast_fd fds))
      ∙ closed-opened d.mcast_fd fds;
  same_buckets =
      destroyed_lem d.own_bucket d.outbound d.buckets buckets r.ready.own_there
        r.ready.buckets_known;
})

still_none : (own : Bool) (o : Option Tbf) → own ≡ false → still_own own o ≡ false
still_none own none e = e
still_none own (some b) e = refl

open-IsReady :
    (buckets : ℕ) (d : Life) (c : Config) (a : Answers)
    → d.monitor_runs ≡ d.mon_started
    → still_own d.own_bucket d.outbound ≡ false
    → d.buckets ≡ (if d.own_bucket then suc buckets else buckets)
    → IsReady d.fds buckets (open_channels d c a)
unfolding open_channels
open-IsReady buckets d c a monitor own counted = record {
  ticker_known = refl;
  monitor_known = monitor;
  own_there = own;
  fds_known = refl;
  buckets_known = counted;
}

-- The start, once it has looked for a bucket.
started_with-IsRunning :
    (o : Option Tbf) (made : Result Tbf) (d : Life) (c : Config) (a : Answers)
    → d.monitor_runs ≡ d.mon_started
    → d.own_bucket ≡ false
    → (started_with (own_bucket_of d o made) d c a).0 ≡ ok
    → IsRunning d.fds d.buckets (started_with (own_bucket_of d o made) d c a).1
started_with-IsRunning (some b) made d c a monitor own e =
    finish-IsRunning d.fds d.buckets _ _ a.monitor_ok
      (open-IsReady d.buckets d c a monitor (still_none d.own_bucket d.outbound own) (rw own refl))
      e
started_with-IsRunning none (done b) d c a monitor own e =
    finish-IsRunning d.fds d.buckets _ _ a.monitor_ok
      (open-IsReady d.buckets
        (record d { outbound = some b; own_bucket = true; buckets = d.buckets + 1 }) c a monitor
        refl (omega arith))
      e
started_with-IsRunning none (fail s) d c a monitor own e = cc

reset_keeps :
    (d : Life) (c : Config)
    → IsIdle d
    → ((reset_life d c).monitor_runs ≡ (reset_life d c).mon_started)
      × ((reset_life d c).own_bucket ≡ false)
unfolding reset_life
reset_keeps d c i = (i.no_monitor ∙ sym i.monitor_off, i.no_own)

reset_same :
    (d : Life) (c : Config) {l : Life}
    → IsRunning (reset_life d c).fds (reset_life d c).buckets l
    → IsRunning d.fds d.buckets l
unfolding reset_life
reset_same d c r = r

pub start-IsRunning :
    (d : Life) (c : Config) (a : Answers)
    → IsIdle d
    → (dispatcher_start d c a).0 ≡ ok
    → IsRunning d.fds d.buckets (dispatcher_start d c a).1
unfolding dispatcher_start
start-IsRunning d c a i e = elim (Bool-cases c.args_ok) [
  | inr bad ↦ cc
  | inl good ↦ elim (Bool-cases (strings_fit c)) [
    | inr long ↦ cc (simp (good, i.not_started, long) at e)
    | inl fit ↦
        simp (good, i.not_started, fit)
          (reset_same d c (
            started_with-IsRunning _ a.bucket (reset_life d c) c a (reset_keeps d c i).0
              (reset_keeps d c i).1 (simp (good, i.not_started, fit) at e)))
  ]
]

pub stop_flag-IsRunning :
    (fds : List ℕ) (buckets : ℕ) (d : Life)
    → IsRunning fds buckets d
    → IsRunning fds buckets (record d { stop = true })
stop_flag-IsRunning fds buckets d r = record {
  ready = record {
    ticker_known = r.ready.ticker_known;
    monitor_known = r.ready.monitor_known;
    own_there = r.ready.own_there;
    fds_known = r.ready.fds_known;
    buckets_known = r.ready.buckets_known;
  };
  on = r.on;
  workers_known = r.workers_known;
}

no_worker_made : (n : ℕ) (oks : List Bool) → create_workers n (false ∷ oks) ≡ 0
unfolding create_workers
no_worker_made zero oks = refl
no_worker_made (suc n) oks = refl

-- If an idle dispatcher without a bucket makes its bucket and starts its clock, but cannot create the
-- first worker, `dispatcher_start` fails and the dispatcher is not started, but the clock's thread goes
-- on running and the bucket is still there, and `dispatcher_join` neither joins the one nor destroys the
-- other.
pub dispatcher_start_leaks :
    (d : Life) (c : Config) (a : Answers) (b : Tbf) (later : List Bool)
    → IsIdle d
    → c.args_ok ≡ true
    → strings_fit c ≡ true
    → d.outbound ≡ none
    → a.bucket ≡ done b
    → a.ticker_ok ≡ true
    → a.workers_ok ≡ false ∷ later
    → let (s, d') = dispatcher_start d c a in
      (s ≡ err_generic)
      × (d'.started ≡ false)
      × ((dispatcher_join d').ticker_runs ≡ true)
      × ((dispatcher_join d').buckets ≡ d.buckets + 1)
unfolding dispatcher_start finish_start open_channels reset_life dispatcher_join
dispatcher_start_leaks d c a b later i good fit no_bucket made ticker workers =
    simp (good, fit, i.not_started, no_bucket, made, workers, no_worker_made, ticker)
      (refl, refl, refl, refl)
