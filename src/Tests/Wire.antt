-- ===== src/Tests/Wire.antt =====
-- Concrete runs of common/proto.c and ingress/decoder.c.
use io_t_collector.Base.{ℕ, ◌≡◌, ◌≢◌, refl, arith, List, [], ◌∷◌, ◌++◌, map, set}
use io_t_collector.Status.{done}
use io_t_collector.Frame.{EnvFrame, IsFrame, zero_frame, bytes, of_bytes}
use io_t_collector.Proto.{
  frame_hton, frame_ntoh, frame_encode, frame_decode, frame_fill_crc, frame_magic_ok, frame_crc_ok,
  frame_crc, crc16_ccitt,
}
use io_t_collector.Proto.Layout.{AllBytes}
use io_t_collector.Proto.Codec.{as_received, frame_decode-frame_encode, frame_decode-set}
use io_t_collector.Stream.{FrameStream, frame_stream_feed}
use io_t_collector.Stream.Feed.{IsStream, frame_stream_feed-append}
use io_t_collector.Stream.Frames.{
  Sent, nothing, frame, frame_stream_feed-Sent, frame_stream_feed_overflow,
}

abbrev pub reading : EnvFrame
reading = record zero_frame {
  version = 1;
  station_id = 7;
  timestamp_sec = 1000;
  temperature = 250;
  humidity = 600;
  pm25 = 35;
}

pub reading-IsFrame : IsFrame reading
reading-IsFrame = ground arith

abbrev pub wire : List ℕ
wire =
    235 ∷ 144 ∷ 1 ∷ 0 ∷ 0 ∷ 7 ∷ 0 ∷ 0 ∷ 3 ∷ 232 ∷ 0 ∷ 0 ∷ 0 ∷ 0 ∷ 0 ∷ 250 ∷ 2 ∷ 88 ∷ 0 ∷ 35 ∷ 0 ∷ 0
    ∷ 0 ∷ 0 ∷ 0 ∷ 0 ∷ 27 ∷ 7 ∷ []

abbrev received : EnvFrame
received = record reading { magic_0 = 0xEB; magic_1 = 0x90; crc16 = 1819 }

wire-AllBytes : AllBytes wire
wire-AllBytes = ground arith

pub encoded : frame_encode (frame_hton reading) 28 ≡ done wire
unfolding frame_encode frame_fill_crc frame_crc frame_hton crc16_ccitt bytes
encoded = refl

decoded : frame_decode wire ≡ done received
unfolding frame_decode frame_magic_ok frame_crc_ok frame_crc frame_ntoh crc16_ccitt bytes of_bytes
decoded = refl

frame_decode-frame_encode_example :
    (w : List ℕ) × (frame_encode (frame_hton reading) 28 ≡ done w)
    × (frame_decode w ≡ done (as_received reading))
frame_decode-frame_encode_example =
    frame_decode-frame_encode reading 28 reading-IsFrame (omega arith)

frame_decode-set_example : frame_decode (set wire 15 251) ≢ done received
frame_decode-set_example =
    frame_decode-set wire 15 251 received received wire-AllBytes (omega arith) (omega arith)
      (omega arith) decoded

abbrev empty : FrameStream
empty = record { buf = []; resync = 0 }

empty-IsStream : IsStream empty
empty-IsStream = record { len_in = omega arith; resync_in = omega arith }

pub one-Sent : Sent (reading ∷ []) (wire ++ [])
one-Sent = frame reading wire reading-IsFrame encoded nothing

frame_stream_feed-append_example :
    let (fs, mid) = frame_stream_feed empty (235 ∷ 144 ∷ []) in
    let (gs, end) = frame_stream_feed mid (1 ∷ 0 ∷ []) in
    frame_stream_feed empty ((235 ∷ 144 ∷ []) ++ (1 ∷ 0 ∷ [])) ≡ (fs ++ gs, end)
frame_stream_feed-append_example =
    frame_stream_feed-append empty (235 ∷ 144 ∷ []) (1 ∷ 0 ∷ []) empty-IsStream (omega arith)

frame_stream_feed-Sent_example :
    frame_stream_feed empty (wire ++ (235 ∷ []))
    ≡ (map as_received (reading ∷ []), record empty { buf = 235 ∷ [] })
frame_stream_feed-Sent_example =
    frame_stream_feed-Sent empty (wire ++ (235 ∷ [])) (235 ∷ []) empty-IsStream one-Sent refl
      (omega arith) (omega arith)

abbrev four : List EnvFrame
four = reading ∷ reading ∷ reading ∷ reading ∷ []

abbrev four_wires : List ℕ
four_wires = wire ++ (wire ++ (wire ++ (wire ++ [])))

four-Sent : Sent four four_wires
four-Sent = frame reading wire reading-IsFrame encoded (
    frame reading wire reading-IsFrame encoded
      (frame reading wire reading-IsFrame encoded one-Sent))

frame_stream_feed_overflow_example :
    frame_stream_feed empty (wire ++ four_wires)
    ≡ (map as_received four, record { buf = []; resync = 28 })
frame_stream_feed_overflow_example =
    frame_stream_feed_overflow reading four-Sent refl wire reading-IsFrame encoded
