-- ===== src/Dispatcher/Life.antt =====
-- egress/dispatcher.c: `dispatcher_start`, `dispatcher_stop`, `dispatcher_join`, and the turns of the
-- worker and of the monitor.
use io_t_collector.Base.{
  ℕ, zero, suc, ◌+◌, ◌-◌, Bool, true, false, not, ◌&&◌, if◌then◌else◌, ltb, ◌==◌, Option, none,
  some, List, [], ◌∷◌,
}
use io_t_collector.Status.{Status, Result, done, fail, ok, err_generic, err_nomem}
use io_t_collector.Tbf.{Tbf, tbf_shutdown}
use io_t_collector.Cache.{Cache, cache_writer_close}
use io_t_collector.Unicast.{Link, unicast_sender_close}
use io_t_collector.Ingress.Udp.{close}
use io_t_collector.Dispatcher.{copy_opt_str}

-- The statics of the file, with the states of the modules behind them. `ticker_runs`,
-- `monitor_runs` and `workers_run` are the threads that were created and not joined, `fds` the open
-- descriptors of the two sockets with those of other parts behind them, and `buckets` is the number of
-- buckets that `tbf_init` has made and `tbf_destroy` has not freed.
pub record Life : Type 0 where
  pub started : Bool
  pub stop : Bool
  pub tick_stop : Bool
  pub tick_started : Bool
  pub mon_started : Bool
  pub worker_num : ℕ
  pub mcast_fd : Option ℕ
  pub unicast_fd : Option ℕ
  pub has_platform : Bool
  pub has_cache : Bool
  pub outbound : Option Tbf
  pub own_bucket : Bool
  pub retry : Option Tbf
  pub link : Link
  pub cache : Cache
  pub ticker_runs : Bool
  pub monitor_runs : Bool
  pub workers_run : ℕ
  pub fds : List ℕ
  pub buckets : ℕ

-- `dispatcher_cfg_t`; `args_ok` is whether its pointers are given.
pub record Config : Type 0 where
  pub args_ok : Bool
  pub worker_num : ℕ
  pub mcast_group : Option (List ℕ)
  pub mcast_ifname : Option (List ℕ)
  pub platform_ip : Option (List ℕ)
  pub cache_path : Option (List ℕ)

-- What the calls of `dispatcher_start` give: the new bucket, whether the threads start, the
-- descriptors, and the link and the cache after `unicast_sender_init` and `cache_writer_open`.
pub record Answers : Type 0 where
  pub bucket : Result Tbf
  pub ticker_ok : Bool
  pub mcast_fd : Option ℕ
  pub cache : Cache
  pub unicast_fd : Option ℕ
  pub link : Link
  pub workers_ok : List Bool
  pub monitor_ok : Bool

-- 0 stands for `POOL_MIN_WORKERS`, and `POOL_MAX_WORKERS` is the limit.
unfoldable pub worker_count : ℕ → ℕ
worker_count n = if n == 0 then 2 else if ltb 16 n then 16 else n

-- The loop that creates the workers, with `n` to go: how many there are when it ends.
unfoldable pub create_workers : ℕ → List Bool → ℕ
create_workers zero oks = 0
create_workers (suc n) [] = 0
create_workers (suc n) (b ∷ oks) = let rest = create_workers n oks in if b then suc rest else 0

abbrev is_given : Option (List ℕ) → Bool
is_given none = false
is_given (some _) = true

abbrev copied : ℕ → Option (List ℕ) → Bool
copied size s = elim (copy_opt_str size s) as (λ _. Bool) [ none ↦ false | some _ ↦ true ]

unfoldable pub strings_fit : Config → Bool
strings_fit c =
    copied 64 c.mcast_group
    && (copied 16 c.mcast_ifname && (copied 64 c.platform_ip && copied 256 c.cache_path))

abbrev pub closed_link : Option ℕ → Link → Link
closed_link none l = l
closed_link (some _) l = unicast_sender_close l true

abbrev pub opened : Option ℕ → List ℕ → List ℕ
opened none fds = fds
opened (some fd) fds = fd ∷ fds

abbrev pub closed_fd : Option ℕ → List ℕ → List ℕ
closed_fd none fds = fds
closed_fd (some fd) fds = close fd fds

-- The end of `dispatcher_start`, with `n` workers created.
unfoldable pub finish_start : Life → ℕ → Bool → Status × Life
finish_start d n monitor_ok =
    if n == 0
    then (
      err_generic,
      record d {
        link = closed_link d.unicast_fd d.link;
        unicast_fd = none;
        mcast_fd = none;
        fds = closed_fd d.mcast_fd (closed_fd d.unicast_fd d.fds);
      },
    )
    else (
      ok,
      record d {
        worker_num = n;
        workers_run = n;
        mon_started = if d.has_platform then monitor_ok else d.mon_started;
        monitor_runs = if d.has_platform then monitor_ok else d.monitor_runs;
        started = true;
      },
    )

-- The channels, opened behind the bucket and the clock.
unfoldable pub open_channels : Life → Config → Answers → Life
open_channels d c a = record d {
  tick_started = a.ticker_ok;
  ticker_runs = a.ticker_ok;
  mcast_fd = if is_given c.mcast_group then a.mcast_fd else none;
  cache = if d.has_cache then a.cache else d.cache;
  unicast_fd = if d.has_platform then a.unicast_fd else none;
  link = if d.has_platform then a.link else d.link;
  fds =
      opened (if d.has_platform then a.unicast_fd else none)
        (opened (if is_given c.mcast_group then a.mcast_fd else none) d.fds);
}

unfoldable pub reset_life : Life → Config → Life
reset_life d c = record d {
  stop = false;
  tick_stop = false;
  mcast_fd = none;
  unicast_fd = none;
  has_platform = is_given c.platform_ip;
  has_cache = is_given c.cache_path;
}

-- A bucket that is there already is used again.
abbrev pub own_bucket_of : Life → Option Tbf → Result Tbf → Option Life
own_bucket_of d (some b) made = some d
own_bucket_of d none (done b) =
    some (record d { outbound = some b; own_bucket = true; buckets = d.buckets + 1 })
own_bucket_of d none (fail s) = none

abbrev pub started_with : Option Life → Life → Config → Answers → Status × Life
started_with none d c a = (err_nomem, d)
started_with (some b) d c a =
    finish_start (open_channels b c a) (create_workers (worker_count c.worker_num) a.workers_ok)
      a.monitor_ok

unfoldable pub dispatcher_start : Life → Config → Answers → Status × Life
dispatcher_start d c a =
    let d' = reset_life d c in
    if not c.args_ok
    then (err_generic, d)
    else if d.started
    then (err_generic, d)
    else if not (strings_fit c)
    then (err_generic, record d { has_platform = false; has_cache = false })
    else started_with (own_bucket_of d' d'.outbound a.bucket) d' c a

unfoldable pub dispatcher_worker_count : Life → ℕ
dispatcher_worker_count d = d.worker_num

-- The wake-up of Q2 changes no field.
unfoldable pub dispatcher_stop : Life → Life
dispatcher_stop d = if not d.started then d else record d { stop = true }

abbrev shut_bucket : Option Tbf → Option Tbf
shut_bucket none = none
shut_bucket (some b) = some (tbf_shutdown b)

abbrev pub still_own : Bool → Option Tbf → Bool
still_own own none = own
still_own own (some b) = false

-- `tbf_destroy` of the bucket, if it is there and the dispatcher's own.
abbrev pub destroyed : Bool → Option Tbf → ℕ → ℕ
destroyed own none n = n
destroyed own (some b) n = if own then n - 1 else n

-- `dispatcher_join` once the threads that it waits for have returned.
unfoldable pub dispatcher_join : Life → Life
dispatcher_join d = if not d.started then d else record d {
  started = false;
  tick_stop = true;
  tick_started = false;
  ticker_runs = if d.tick_started then false else d.ticker_runs;
  mon_started = false;
  monitor_runs = if d.mon_started then false else d.monitor_runs;
  worker_num = 0;
  workers_run = d.workers_run - d.worker_num;
  link = closed_link d.unicast_fd d.link;
  unicast_fd = none;
  mcast_fd = none;
  fds = closed_fd d.mcast_fd (closed_fd d.unicast_fd d.fds);
  buckets = destroyed d.own_bucket d.outbound d.buckets;
  cache = if d.has_cache then cache_writer_close d.cache else d.cache;
  outbound = if d.own_bucket then none else shut_bucket d.outbound;
  own_bucket = still_own d.own_bucket d.outbound;
  retry = shut_bucket d.retry;
}
