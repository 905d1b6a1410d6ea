-- ===== src/Tests/Uplink.antt =====
-- Concrete runs of egress/cache_writer.c, egress/unicast_sender.c and egress/dispatcher.c.
use io_t_collector.Base.{
  ◌+◌, ◌≡◌, refl, arith, true, false, none, some, List, [], ◌∷◌, ◌++◌, length,
}
use io_t_collector.Status.{ok, err_io}
use io_t_collector.Frame.{EnvFrame, IsFrame, zero_frame, bytes, wire_size}
use io_t_collector.Cache.{Cache, cache_writer_append, cache_replay_start}
use io_t_collector.Cache.Replay.{
  image, AllFrames, no_frames, one_more, Cached, successes, Replayed, cache_replay_start-Replayed,
}
use io_t_collector.Cache.Overwrite.{cache_writer_append-Cached, cache_writer_append_overwrites}
use io_t_collector.Unicast.{
  unicast_link_online, Attempt, in_progress, poll_interrupted, poll_ready, closing, poll_loop,
  tcp_connect_timeout, took, interrupted, unicast_write_throttled,
}
use io_t_collector.Unicast.Write.{Writes, unicast_write_throttled-Writes}
use io_t_collector.Stats.{stats_init}
use io_t_collector.Proto.{frame_encode}
use io_t_collector.Dispatcher.{Egress, Answers, send_mcast, send_unicast, settle, dispatch_one}
use io_t_collector.Dispatcher.Worker.{
  Round, dispatch_worker, no_rounds, took, waited, no_frame, one_frame, last_round,
  dispatch_worker-Dispatched,
}
use io_t_collector.Dispatcher.Account.{Fate, dispatch_one-Fate}

abbrev first : EnvFrame
first = record zero_frame { station_id = 1; timestamp_sec = 10 }

abbrev second : EnvFrame
second = record zero_frame { station_id = 1; timestamp_sec = 20 }

first-IsFrame : IsFrame first
first-IsFrame = ground arith

second-IsFrame : IsFrame second
second-IsFrame = ground arith

-- A cache with two frames to do.
abbrev two_cached : Cache
two_cached = record {
  is_open = true;
  write_cursor = 56;
  read_cursor = 0;
  file = image (first ∷ second ∷ []);
  offset = 56;
  saved = none;
}

two_cached-Cached : Cached two_cached [] (first ∷ second ∷ [])
two_cached-Cached = record { opened = refl; file_is = refl; read_at = refl; write_at = refl }

two-AllFrames : AllFrames (first ∷ second ∷ [])
two-AllFrames = one_more first first-IsFrame (one_more second second-IsFrame no_frames)

cache_replay_start-Replayed_example :
    Replayed []
      (first ∷ second ∷ [])
      (successes (ok ∷ err_io ∷ []))
      (cache_replay_start two_cached (ok ∷ err_io ∷ []))
cache_replay_start-Replayed_example =
    cache_replay_start-Replayed two_cached [] (first ∷ second ∷ []) (ok ∷ err_io ∷ [])
      two_cached-Cached two-AllFrames

at_end : 56 ≡ length (image (first ∷ second ∷ []))
unfolding bytes
at_end = refl

cache_writer_append-Cached_example :
    let (rc, c') = cache_writer_append two_cached second 28 in
    (rc ≡ ok) × Cached c' [] (first ∷ second ∷ second ∷ []) × (c'.offset ≡ length c'.file)
cache_writer_append-Cached_example =
    cache_writer_append-Cached two_cached [] (first ∷ second ∷ []) second two_cached-Cached at_end

cache_writer_append_overwrites_example :
    let left = (cache_replay_start two_cached (err_io ∷ [])).1 in
    let (rc, c') = cache_writer_append left first 28 in
    (rc ≡ ok)
    × (c'.file ≡ image [] ++ image (first ∷ first ∷ []))
    × (c'.write_cursor ≡ length c'.file + wire_size)
cache_writer_append_overwrites_example =
    cache_writer_append_overwrites two_cached [] [] first second first err_io [] two_cached-Cached
      first-IsFrame refl

abbrev refused_attempt : Attempt
refused_attempt = record {
  socket_ok = true;
  address_ok = true;
  nonblock_ok = true;
  connecting = in_progress;
  polled = poll_interrupted ∷ poll_ready ∷ [];
  so_error_ok = false;
  restore_ok = true;
}

attempt_closes : tcp_connect_timeout refused_attempt ≡ some (closing err_io)
unfolding tcp_connect_timeout poll_loop
attempt_closes = refl

unicast_write_throttled-Writes_example :
    Writes
      (5 ∷ 6 ∷ 7 ∷ [])
      (unicast_write_throttled true (5 ∷ 6 ∷ 7 ∷ []) (ok ∷ []) (took 2 ∷ interrupted ∷ took 1 ∷ []))
unicast_write_throttled-Writes_example =
    unicast_write_throttled-Writes true (5 ∷ 6 ∷ 7 ∷ []) (ok ∷ [])
      (took 2 ∷ interrupted ∷ took 1 ∷ [])

-- No multicast, and a platform link that is down.
abbrev offline : Egress
offline = record {
  mcast_open = false;
  dest_ready = false;
  unicast_open = false;
  has_platform = true;
  has_cache = true;
  has_bucket = true;
  link = record { online = false; fail_streak = 3 };
  cache = two_cached;
  stats = stats_init;
}

abbrev silence : Answers
silence = record { mcast = []; fetched = []; sends = []; cache_write = 28 }

abbrev after_offline : Egress
after_offline = record offline { cache = (cache_writer_append two_cached first 28).1 }

went_to_cache : dispatch_one offline first silence ≡ some after_offline
unfolding dispatch_one send_mcast send_unicast settle unicast_link_online frame_encode
went_to_cache = refl

dispatch_one-Fate_example : Fate offline first silence after_offline
dispatch_one-Fate_example = dispatch_one-Fate offline after_offline first silence refl went_to_cache

-- A wait that finds nothing, and a batch of one frame.
abbrev two_rounds : List Round
two_rounds =
    record { batch = []; leaving = false }
    ∷ record { batch = (first, silence) ∷ []; leaving = true }
    ∷ []

dispatch_worker-Dispatched_example :
    dispatch_worker offline (two_rounds ++ (last_round ∷ [])) ≡ some (true, after_offline)
dispatch_worker-Dispatched_example =
    dispatch_worker-Dispatched two_rounds (waited (took (first, silence) [] true no_rounds))
      (one_frame first silence went_to_cache no_frame)
