-- ===== src/Proto.antt =====
-- common/proto.c: CRC16-CCITT, byte order, and the codec between a frame and its 28 wire bytes.
-- The children prove what the codec promises.
pub mod Crc
pub mod Layout
pub mod Codec
use io_t_collector.Base.{
  ℕ, ◌+◌, ◌*◌, ◌%◌, Bool, true, false, not, ◌&&◌, List, [], ◌∷◌, bit_and, bit_xor, ltb, ◌==◌,
  if◌then◌else◌, take, length, get_or, zero, suc,
}
use io_t_collector.Base.Words.{u16, htons, htonl}
use io_t_collector.Status.{Result, done, fail, Status, err_generic, err_proto}
use io_t_collector.Frame.{
  EnvFrame, bytes, of_bytes, frame_magic_0, frame_magic_1, wire_size, crc_size,
}

-- One round of the inner loop of `crc16_ccitt`.
unfoldable pub crc_bit : ℕ → ℕ
crc_bit crc = if bit_and crc 0x8000 == 0 then u16 (crc * 2) else u16 (bit_xor (crc * 2) 0x1021)

-- The inner loop, with `n` rounds left.
unfoldable pub crc_bits : ℕ → ℕ → ℕ
unfolding crc_bit
crc_bits zero crc = crc
crc_bits (suc n) crc = crc_bits n (crc_bit crc)

-- One round of the outer loop.
unfoldable pub crc_byte : ℕ → ℕ → ℕ
unfolding crc_bits
crc_byte crc b = crc_bits 8 (bit_xor crc (b * 256))

-- The outer loop over the bytes left.
unfoldable pub crc_from : ℕ → List ℕ → ℕ
unfolding crc_byte
crc_from crc [] = crc
crc_from crc (b ∷ data') = crc_from (crc_byte crc b) data'

-- The argument holds `data[0 .. len)`.
unfoldable pub crc16_ccitt : List ℕ → ℕ
unfolding crc_from
crc16_ccitt data' = crc_from 0xffff data'

unfoldable pub frame_hton : EnvFrame → EnvFrame
frame_hton f = record f {
  station_id = htons f.station_id;
  timestamp_sec = htonl f.timestamp_sec;
  timestamp_ms = htonl f.timestamp_ms;
  temperature = htons f.temperature;
  humidity = htons f.humidity;
  pm25 = htons f.pm25;
  pm10 = htons f.pm10;
  co_ppb = htons f.co_ppb;
  noise_db = htons f.noise_db;
}

-- `ntohs` and `ntohl` are `htons` and `htonl` on a little-endian host.
unfoldable pub frame_ntoh : EnvFrame → EnvFrame
frame_ntoh f = record f {
  station_id = htons f.station_id;
  timestamp_sec = htonl f.timestamp_sec;
  timestamp_ms = htonl f.timestamp_ms;
  temperature = htons f.temperature;
  humidity = htons f.humidity;
  pm25 = htons f.pm25;
  pm10 = htons f.pm10;
  co_ppb = htons f.co_ppb;
  noise_db = htons f.noise_db;
}

-- `buf` holds `len` bytes.
unfoldable pub frame_magic_ok : List ℕ → Bool
frame_magic_ok buf =
    if ltb (length buf) wire_size
    then false
    else get_or buf 0 0 == frame_magic_0 && get_or buf 1 0 == frame_magic_1

-- `crc16_ccitt` of the copy whose `crc16` field is 0.
unfoldable pub frame_crc : EnvFrame → ℕ
frame_crc f = crc16_ccitt (take crc_size (bytes (record f { crc16 = 0 })))

unfoldable pub frame_crc_ok : EnvFrame → Bool
unfolding frame_crc
frame_crc_ok f =
    if f.magic_0 == frame_magic_0 && f.magic_1 == frame_magic_1
    then frame_crc f == htons f.crc16
    else false

unfoldable pub frame_fill_crc : EnvFrame → EnvFrame
unfolding frame_crc
frame_fill_crc f = record f { crc16 = htons (frame_crc f) }

-- Returns the bytes written to `buf`; their number is the value that the code returns.
unfoldable pub frame_encode : EnvFrame → ℕ → Result (List ℕ)
unfolding frame_fill_crc
frame_encode f buf_len =
    if ltb buf_len wire_size
    then fail err_generic
    else done (
        bytes (
          frame_fill_crc (record f {
            magic_0 = frame_magic_0;
            magic_1 = frame_magic_1;
            version = if f.version == 0 then 1 else f.version;
          })))

-- `buf` holds `len` bytes; the value is what `*out` receives.
unfoldable pub frame_decode : List ℕ → Result EnvFrame
unfolding frame_magic_ok frame_crc_ok frame_ntoh
frame_decode buf =
    if ltb (length buf) wire_size
    then fail err_generic
    else if not (frame_magic_ok buf)
    then fail err_proto
    else if not (frame_crc_ok (of_bytes buf))
    then fail err_proto
    else done (frame_ntoh (of_bytes buf))
