-- ===== src/Simulator.antt =====
-- tools/station_sim.c: the frames that the simulator of stations makes. The arithmetic in double is not
-- part of it: the temperature and the humidity that it gives are arguments, and the fields of
-- `station_profile_t` that only it uses are left out.
use io_t_collector.Base.{
  ℕ, ◌+◌, ◌-◌, ◌*◌, ◌%◌, ◌^◌, Bool, true, false, if◌then◌else◌, ltb, ◌==◌, min, take, List, [], ◌∷◌,
}
use io_t_collector.Base.Words.{u16, u32, htons, htonl}
use io_t_collector.Frame.{EnvFrame, bytes, zero_frame, frame_magic_0, frame_magic_1, crc_size}
use io_t_collector.Proto.{crc16_ccitt, frame_hton}
pub mod Inject
pub mod Sender

-- The offset is `up - down`.
unfoldable pub clamped_add : ℕ → ℕ → ℕ → ℕ → ℕ
clamped_add base up down max_val = min (base + up - down) max_val

pub record StationProfile : Type 0 where
  pub station_id : ℕ
  pub base_pm25 : ℕ
  pub base_pm10 : ℕ
  pub base_co : ℕ
  pub base_noise : ℕ
  pub last_frame : EnvFrame
  pub has_last_frame : Bool

unfoldable pub profile_init : ℕ → StationProfile
profile_init sid = record {
  station_id = sid;
  base_pm25 = 20 + sid % 80;
  base_pm10 = 40 + sid % 100;
  base_co = 100 + sid % 400;
  base_noise = 400 + sid % 300;
  last_frame = zero_frame;
  has_last_frame = false;
}

-- What the clock, `rand` and the arithmetic in double give for one frame; the numbers of `rand` are in
-- the order of the calls for pm25, pm10, co and noise.
pub record Draw : Type 0 where
  pub sec : ℕ
  pub ms : ℕ
  pub temperature : ℕ
  pub humidity : ℕ
  pub rand_pm25 : ℕ
  pub rand_pm10 : ℕ
  pub rand_co : ℕ
  pub rand_noise : ℕ

-- The checksum over the first 26 bytes in memory; `crc16_ccitt` is written out again in this program as
-- it stands in common/proto.c.
unfoldable pub fill_crc : EnvFrame → EnvFrame
fill_crc f = record f { crc16 = htons (crc16_ccitt (take crc_size (bytes f))) }

-- The fields before `htons` and `htonl`.
unfoldable pub normal_fields : StationProfile → ℕ → Draw → EnvFrame
normal_fields p ftype d = record {
  magic_0 = frame_magic_0;
  magic_1 = frame_magic_1;
  version = 1;
  frame_type = ftype;
  station_id = p.station_id;
  timestamp_sec = d.sec;
  timestamp_ms = d.ms;
  temperature = d.temperature;
  humidity = d.humidity;
  pm25 = clamped_add p.base_pm25 (d.rand_pm25 % 20) 10 999;
  pm10 = clamped_add p.base_pm10 (d.rand_pm10 % 30) 15 999;
  co_ppb = clamped_add p.base_co (d.rand_co % 50) 25 5000;
  noise_db = clamped_add p.base_noise (d.rand_noise % 40) 20 1500;
  crc16 = 0;
}

unfoldable pub fill_normal_frame : StationProfile → ℕ → Draw → EnvFrame × StationProfile
fill_normal_frame p ftype d =
    let f = fill_crc (frame_hton (normal_fields p ftype d)) in
    (f, record p { last_frame = f; has_last_frame = true })

-- The cases of the `switch`, for a `field` below 5.
unfoldable pub overflow_field : EnvFrame → ℕ → EnvFrame
overflow_field f field =
    if field == 0
    then record f { pm25 = htons 65535 }
    else if field == 1
    then record f { pm10 = htons 65535 }
    else if field == 2
    then record f { temperature = htons (2 ^ 16 - 999) }
    else if field == 3
    then record f { humidity = htons 65535 }
    else record f { noise_db = htons 65535 }

-- `dice` and `field` are what `rand` gives.
unfoldable pub auto_inject : EnvFrame → StationProfile → ℕ → ℕ → EnvFrame
auto_inject f p dice field =
    if ltb (dice % 100) 90
    then f
    else if ltb (dice % 100) 93
    then fill_crc (overflow_field f (field % 5))
    else if ltb (dice % 100) 96
    then fill_crc (record f { pm25 = htons (min (u16 (p.base_pm25 + 500)) 999) })
    else if ltb (dice % 100) 98
    then fill_crc (
        if p.has_last_frame
        then record f {
          timestamp_sec = p.last_frame.timestamp_sec;
          timestamp_ms = p.last_frame.timestamp_ms;
        }
        else f)
    else fill_crc (record f { timestamp_sec = htonl (u32 (htonl f.timestamp_sec + 20)) })

-- The frame of a turn of `udp_sender_thread`; `r` is what `rand` gives for the type of the frame.
unfoldable pub udp_frame : StationProfile → ℕ → Draw → ℕ → ℕ → EnvFrame × StationProfile
udp_frame p r d dice field =
    let ftype : ℕ = if ltb (r % 100) 3 then 1 else if ltb (r % 100) 5 then 2 else 0 in
    let (f, p') = fill_normal_frame p ftype d in
    (if ftype == 0 then auto_inject f p' dice field else f, p')
