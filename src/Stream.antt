-- ===== src/Stream.antt =====
-- ingress/decoder.c: `decode_wire`, and the cutting of a TCP byte stream into frames.
use io_t_collector.Base.{
  ℕ, zero, suc, ◌+◌, ◌*◌, Bool, true, false, not, if◌then◌else◌, ltb, ◌==◌, Option, none, some,
  List, [], ◌∷◌, ◌++◌, length, take, drop,
}
use io_t_collector.Base.Words.{u64, sub64}
use io_t_collector.Status.{Result, done, fail, err_proto}
use io_t_collector.Frame.{EnvFrame, wire_size}
use io_t_collector.Proto.{frame_magic_ok, frame_decode}
pub mod Merge
pub mod Parse
pub mod Feed
pub mod Frames

-- `sizeof st->buf`.
abbrev pub stream_size : ℕ
stream_size = 112

-- `frame_stream_t`: `buf` is the first `len` bytes of the array, the ones in use.
pub record FrameStream : Type 0 where
  pub buf : List ℕ
  pub resync : ℕ

unfoldable pub decode_wire : List ℕ → Result EnvFrame
decode_wire buf = if not (frame_magic_ok buf) then fail err_proto else frame_decode buf

unfoldable pub frame_stream_reset : FrameStream → FrameStream
frame_stream_reset st = record { buf = []; resync = 0 }

-- `memmove` by one byte, `len--` and `resync++`.
unfoldable pub slide : FrameStream → FrameStream
slide st = record { buf = drop 1 st.buf; resync = u64 (st.resync + 1) }

-- A turn of the loop that copies the input; the list is the input that is left.
unfoldable pub merge_step : FrameStream → List ℕ → FrameStream × List ℕ
merge_step st input =
    let room = sub64 stream_size (length st.buf) in
    let n = if ltb (length input) room then length input else room in
    if n == 0 then (slide st, input) else (record st { buf = st.buf ++ take n input }, drop n input)

-- The loop that copies the input, of at most `fuel` turns.
unfoldable pub merge : ℕ → FrameStream → List ℕ → FrameStream
merge zero st input = st
merge (suc fuel) st [] = st
merge (suc fuel) st (d ∷ input) = let (st', rest) = merge_step st (d ∷ input) in merge fuel st' rest

-- A turn of the loop that cuts frames, and the frame that it hands to the sink.
unfoldable pub parse_step : FrameStream → Option EnvFrame × FrameStream
parse_step st =
    if not (frame_magic_ok (take wire_size st.buf))
    then (none, slide st)
    else elim (decode_wire (take wire_size st.buf)) [
      | fail _ ↦ (none, slide st)
      | done frame ↦ (some frame, record st { buf = drop wire_size st.buf })
    ]

abbrev pub emit : Option EnvFrame → List EnvFrame → List EnvFrame
emit none fs = fs
emit (some f) fs = f ∷ fs

-- The loop that cuts frames, of at most `fuel` turns: the frames handed to the sink, in order.
unfoldable pub parse : ℕ → FrameStream → List EnvFrame × FrameStream
parse zero st = ([], st)
parse (suc fuel) st =
    let (frame, st') = parse_step st in
    let (frames, end) = parse fuel st' in
    if ltb (length st.buf) wire_size then ([], st) else (emit frame frames, end)

-- The number of the frames is the value that the code returns.
unfoldable pub frame_stream_feed : FrameStream → List ℕ → List EnvFrame × FrameStream
frame_stream_feed st input =
    let st' = merge (2 * length input + length st.buf) st input in parse (length st'.buf) st'
