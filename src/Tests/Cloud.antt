-- ===== src/Tests/Cloud.antt =====
-- Concrete runs of tools/cloud_bridge.c.
use io_t_collector.Base.{ℕ, ◌≡◌, arith, some, List, [], ◌∷◌, length}
use io_t_collector.Stream.{FrameStream, parse}
use io_t_collector.Bridge.{b64_encode, cut_frames}
use io_t_collector.Bridge.Base64.{b64_decode, b64_decode-b64_encode}
use io_t_collector.Bridge.Frames.{parse-cut_frames}
use io_t_collector.Tests.Wire.{wire}

-- `key:`.
b64_decode-b64_encode_example :
    (out : List ℕ) × (b64_encode (107 ∷ 101 ∷ 121 ∷ 58 ∷ []) 0 9 ≡ some out)
    × (length out ≡ 8)
    × (b64_decode out ≡ 107 ∷ 101 ∷ 121 ∷ 58 ∷ [])
b64_decode-b64_encode_example =
    b64_decode-b64_encode (107 ∷ 101 ∷ 121 ∷ 58 ∷ []) 0 9
      (omega arith, (omega arith, (omega arith, (omega arith, tt)))) (omega arith)

abbrev stray_byte : FrameStream
stray_byte = record { buf = 7 ∷ wire; resync = 0 }

parse-cut_frames_example :
    ((parse 29 stray_byte).0 ≡ (cut_frames 29 (7 ∷ wire)).frames)
    × ((parse 29 stray_byte).1.buf ≡ (cut_frames 29 (7 ∷ wire)).kept)
parse-cut_frames_example = parse-cut_frames 29 stray_byte
