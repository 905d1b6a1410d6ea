-- ===== src/Tests/Bucket.antt =====
-- Concrete runs of common/tbf.c, common/thread_pool.c and common/stats.c.
use io_t_collector.Base.{
  ◌+◌, ◌-◌, ◌≤◌, ◌≡◌, refl, arith, true, false, none, some, List, [], ◌∷◌, ◌++◌, replicate,
}
use io_t_collector.Status.{done, ok, err_shutdown}
use io_t_collector.Tbf.{
  Tbf, System, tbf_init, count_throttled, Event, tick, stop, turn, apply_all, returned,
  tbf_fetch_token, throttled_send,
}
use io_t_collector.Tbf.Rate.{IsTbf, granted_all, refill_all, tbf_init-rate}
use io_t_collector.Tbf.Fetch.{tbf_fetch_token-full, tbf_fetch_token-shutdown}
use io_t_collector.Tbf.Send.{concat, good_turn, throttled_send-ends}
use io_t_collector.Cache.{Cache}

abbrev full_bucket : Tbf
full_bucket = record {
  cps = 2000;
  burst = 100;
  tokens = 100;
  shutdown = false;
  throttled_bytes = 0;
}

full_bucket-IsTbf : IsTbf full_bucket
full_bucket-IsTbf = record { tokens_in = omega arith; burst_in = omega arith }

abbrev low_bucket : Tbf
low_bucket = record { cps = 2000; burst = 100; tokens = 10; shutdown = false; throttled_bytes = 0 }

low_bucket-IsTbf : IsTbf low_bucket
low_bucket-IsTbf = record { tokens_in = omega arith; burst_in = omega arith }

abbrev events : List Event
events = turn 60 false ∷ turn 60 false ∷ tick 10 ∷ turn 60 true ∷ stop ∷ []

abbrev working : System
working = record { calloc_ok = true; mutex_ok = true; cond_ok = true }

made_bucket : tbf_init working 2000 100 ≡ done full_bucket
unfolding tbf_init
made_bucket = refl

tbf_init-rate_example : granted_all full_bucket events ≤ 100 + refill_all 2000 events
tbf_init-rate_example = tbf_init-rate working 2000 100 full_bucket events (omega arith) made_bucket

tbf_fetch_token-full_example :
    tbf_fetch_token full_bucket 250 [] ≡ returned ok (record full_bucket { tokens = 100 - 250 })
tbf_fetch_token-full_example =
    tbf_fetch_token-full full_bucket 250 [] full_bucket-IsTbf refl refl (omega arith)

tbf_fetch_token-shutdown_example :
    let woken = apply_all (count_throttled low_bucket 60 false) ((tick 5 ∷ []) ++ (stop ∷ [])) in
    tbf_fetch_token low_bucket 60
      (record { events = (tick 5 ∷ []) ++ (stop ∷ []); timed_out = false } ∷ [])
    ≡ returned err_shutdown woken
tbf_fetch_token-shutdown_example =
    tbf_fetch_token-shutdown low_bucket 60 (tick 5 ∷ []) [] [] low_bucket-IsTbf refl (omega arith)

throttled_send-ends_example :
    ((throttled_send true (1 ∷ 2 ∷ []) (replicate 1 good_turn)).rc ≡ some ok)
    × (concat (throttled_send true (1 ∷ 2 ∷ []) (replicate 1 good_turn)).datagrams ≡ 1 ∷ 2 ∷ [])
throttled_send-ends_example = throttled_send-ends (1 ∷ 2 ∷ []) 1 (λ e. ground arith) (omega arith)

abbrev no_cache : Cache
no_cache = record {
  is_open = false;
  write_cursor = 0;
  read_cursor = 0;
  file = [];
  offset = 0;
  saved = none;
}
