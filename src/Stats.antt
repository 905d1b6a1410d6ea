-- ===== src/Stats.antt =====
-- common/stats.c: the counters, each update under `stats_lock`.
use io_t_collector.Base.{
  ℕ, zero, suc, ◌+◌, ◌%◌, ◌^◌, Bool, true, false, if◌then◌else◌, ltb, ◌==◌, Option, none, some,
  List, [], ◌∷◌,
}
use io_t_collector.Base.Words.{u32, u64}
use io_t_collector.Ring.{Ring, ring_count}
use io_t_collector.Cache.{Cache, cache_pending_frames}
pub mod Ingress

-- `iot_stats_t`.
pub record Stats : Type 0 where
  pub udp_ucast_frames : ℕ
  pub udp_mcast_frames : ℕ
  pub tcp_frames : ℕ
  pub sim_frames : ℕ
  pub ingress_total : ℕ
  pub decode_fail : ℕ
  pub cleaned_frames : ℕ
  pub anomaly_frames : ℕ
  pub range_drop : ℕ
  pub dup_drop : ℕ
  pub reorder_drop : ℕ
  pub q1_count : ℕ
  pub q1_cap : ℕ
  pub q2_count : ℕ
  pub q2_cap : ℕ
  pub dropped_total : ℕ
  pub parser_workers : ℕ
  pub parser_busy : ℕ
  pub dispatcher_workers : ℕ
  pub dispatcher_busy : ℕ
  pub mcast_ok : ℕ
  pub unicast_ok : ℕ
  pub cache_pending : ℕ
  pub throttled_bytes : ℕ
  pub platform_link_up : Bool
  pub heartbeat_lost : ℕ

-- `stats_init` without the clock and the report thread.
unfoldable pub stats_init : Stats
stats_init = record {
  udp_ucast_frames = 0;
  udp_mcast_frames = 0;
  tcp_frames = 0;
  sim_frames = 0;
  ingress_total = 0;
  decode_fail = 0;
  cleaned_frames = 0;
  anomaly_frames = 0;
  range_drop = 0;
  dup_drop = 0;
  reorder_drop = 0;
  q1_count = 0;
  q1_cap = 0;
  q2_count = 0;
  q2_cap = 0;
  dropped_total = 0;
  parser_workers = 0;
  parser_busy = 0;
  dispatcher_workers = 0;
  dispatcher_busy = 0;
  mcast_ok = 0;
  unicast_ok = 0;
  cache_pending = 0;
  throttled_bytes = 0;
  platform_link_up = false;
  heartbeat_lost = 0;
}

unfoldable pub stats_on_ingress : Stats → ℕ → ℕ → Stats
stats_on_ingress s proto n =
    let t = record s { ingress_total = u64 (s.ingress_total + n) } in
    if proto == 0
    then record t { udp_ucast_frames = u64 (s.udp_ucast_frames + n) }
    else if proto == 1
    then record t { udp_mcast_frames = u64 (s.udp_mcast_frames + n) }
    else if proto == 2
    then record t { tcp_frames = u64 (s.tcp_frames + n) }
    else if proto == 3
    then record t { sim_frames = u64 (s.sim_frames + n) }
    else t

unfoldable pub stats_on_decode_fail : Stats → ℕ → Stats
stats_on_decode_fail s n = record s { decode_fail = u64 (s.decode_fail + n) }

unfoldable pub stats_on_clean : Stats → ℕ → ℕ → Stats
stats_on_clean s kind n =
    if kind == 0
    then record s { cleaned_frames = u64 (s.cleaned_frames + n) }
    else if kind == 1
    then record s { anomaly_frames = u64 (s.anomaly_frames + n) }
    else if kind == 2
    then record s { range_drop = u64 (s.range_drop + n) }
    else if kind == 3
    then record s { dup_drop = u64 (s.dup_drop + n) }
    else if kind == 4
    then record s { reorder_drop = u64 (s.reorder_drop + n) }
    else s

unfoldable pub stats_on_drop : Stats → ℕ → Stats
stats_on_drop s n = record s { dropped_total = u64 (s.dropped_total + n) }

unfoldable pub stats_on_egress : Stats → ℕ → ℕ → Stats
stats_on_egress s channel n =
    if channel == 0
    then record s { mcast_ok = u64 (s.mcast_ok + n) }
    else record s { unicast_ok = u64 (s.unicast_ok + n) }

unfoldable pub stats_on_throttled : Stats → ℕ → Stats
stats_on_throttled s n = record s { throttled_bytes = u64 (s.throttled_bytes + n) }

-- The queues are those that `stats_bind_queues` bound.
unfoldable pub stats_snapshot : Stats → Option Ring → Option Ring → Cache → Stats
stats_snapshot s q1 q2 cache =
    let dropped2 = elim q2 as (λ q. ℕ) [ some q ↦ q.dropped | none ↦ 0 ] in
    let t = elim q1 as (λ q. Stats) [
      | none ↦ s
      | some q ↦ record s {
        q1_count = ring_count q;
        q1_cap = q.capacity;
        dropped_total = u32 (q.dropped + dropped2);
      }
    ] in
    let u = elim q2 as (λ q. Stats) [
      | none ↦ t
      | some q ↦ record t { q2_count = ring_count q; q2_cap = q.capacity }
    ] in
    record u { cache_pending = cache_pending_frames cache }

unfoldable pub stats_update_runtime : Stats → ℕ → ℕ → ℕ → ℕ → Bool → ℕ → Stats
stats_update_runtime s parser_workers parser_busy dispatcher_workers dispatcher_busy
      platform_link_up heartbeat_lost =
    record s {
      parser_workers = parser_workers;
      parser_busy = parser_busy;
      dispatcher_workers = dispatcher_workers;
      dispatcher_busy = dispatcher_busy;
      platform_link_up = platform_link_up;
      heartbeat_lost = heartbeat_lost;
    }
