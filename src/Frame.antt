-- ===== src/Frame.antt =====
-- `env_frame_t` of iot_collector.h: the packed frame of 28 bytes, its field widths and its image in
-- the memory of a little-endian host.
use io_t_collector.Base.{ℕ, ◌+◌, ◌*◌, ◌/◌, ◌%◌, ◌^◌, ◌<◌, List, [], ◌∷◌, get_or}

-- A field holds the bits of its C type; `temperature` is the bit pattern of an `int16_t`.
pub record EnvFrame : Type 0 where
  pub magic_0 : ℕ
  pub magic_1 : ℕ
  pub version : ℕ
  pub frame_type : ℕ
  pub station_id : ℕ
  pub timestamp_sec : ℕ
  pub timestamp_ms : ℕ
  pub temperature : ℕ
  pub humidity : ℕ
  pub pm25 : ℕ
  pub pm10 : ℕ
  pub co_ppb : ℕ
  pub noise_db : ℕ
  pub crc16 : ℕ

-- Every field fits its C type.
pub record IsFrame (f : EnvFrame) : Type 0 where
  pub magic_0_fits : f.magic_0 < 2 ^ 8
  pub magic_1_fits : f.magic_1 < 2 ^ 8
  pub version_fits : f.version < 2 ^ 8
  pub frame_type_fits : f.frame_type < 2 ^ 8
  pub station_id_fits : f.station_id < 2 ^ 16
  pub timestamp_sec_fits : f.timestamp_sec < 2 ^ 32
  pub timestamp_ms_fits : f.timestamp_ms < 2 ^ 32
  pub temperature_fits : f.temperature < 2 ^ 16
  pub humidity_fits : f.humidity < 2 ^ 16
  pub pm25_fits : f.pm25 < 2 ^ 16
  pub pm10_fits : f.pm10 < 2 ^ 16
  pub co_ppb_fits : f.co_ppb < 2 ^ 16
  pub noise_db_fits : f.noise_db < 2 ^ 16
  pub crc16_fits : f.crc16 < 2 ^ 16

abbrev pub frame_magic_0 : ℕ
frame_magic_0 = 0xEB

abbrev pub frame_magic_1 : ℕ
frame_magic_1 = 0x90

-- `frame_type_t`.
abbrev pub frame_normal : ℕ
frame_normal = 0

abbrev pub frame_alarm : ℕ
frame_alarm = 1

abbrev pub frame_heart : ℕ
frame_heart = 2

abbrev pub frame_retry : ℕ
frame_retry = 3

abbrev pub wire_size : ℕ
wire_size = 28

abbrev pub crc_size : ℕ
crc_size = 26

-- `memset(&f, 0, sizeof f)`.
abbrev pub zero_frame : EnvFrame
zero_frame = record {
  magic_0 = 0;
  magic_1 = 0;
  version = 0;
  frame_type = 0;
  station_id = 0;
  timestamp_sec = 0;
  timestamp_ms = 0;
  temperature = 0;
  humidity = 0;
  pm25 = 0;
  pm10 = 0;
  co_ppb = 0;
  noise_db = 0;
  crc16 = 0;
}

-- The bytes of a 16-bit field, the low one first.
abbrev pub low : ℕ → ℕ
low x = x % 256

abbrev pub high : ℕ → ℕ
high x = x / 256 % 256

-- The bytes of the packed struct in memory, as `memcpy` reads them.
unfoldable pub bytes : EnvFrame → List ℕ
bytes f =
    low f.magic_0
    ∷ low f.magic_1
    ∷ low f.version
    ∷ low f.frame_type
    ∷ low f.station_id
    ∷ high f.station_id
    ∷ low f.timestamp_sec
    ∷ high f.timestamp_sec
    ∷ low (f.timestamp_sec / 2 ^ 16)
    ∷ high (f.timestamp_sec / 2 ^ 16)
    ∷ low f.timestamp_ms
    ∷ high f.timestamp_ms
    ∷ low (f.timestamp_ms / 2 ^ 16)
    ∷ high (f.timestamp_ms / 2 ^ 16)
    ∷ low f.temperature
    ∷ high f.temperature
    ∷ low f.humidity
    ∷ high f.humidity
    ∷ low f.pm25
    ∷ high f.pm25
    ∷ low f.pm10
    ∷ high f.pm10
    ∷ low f.co_ppb
    ∷ high f.co_ppb
    ∷ low f.noise_db
    ∷ high f.noise_db
    ∷ low f.crc16
    ∷ high f.crc16
    ∷ []

-- The struct that `memcpy(&f, buf, 28)` leaves in `f`.
unfoldable pub of_bytes : List ℕ → EnvFrame
of_bytes buf = record {
  magic_0 = at 0;
  magic_1 = at 1;
  version = at 2;
  frame_type = at 3;
  station_id = word 4;
  timestamp_sec = word 6 + 2 ^ 16 * word 8;
  timestamp_ms = word 10 + 2 ^ 16 * word 12;
  temperature = word 14;
  humidity = word 16;
  pm25 = word 18;
  pm10 = word 20;
  co_ppb = word 22;
  noise_db = word 24;
  crc16 = word 26;
}
  where
    at : ℕ → ℕ
    at i = get_or buf i 0

    word : ℕ → ℕ
    word i = at i + 256 * at (i + 1)
