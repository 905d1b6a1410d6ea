-- ===== src/Stream/Feed.antt =====
-- `frame_stream_feed`: what it hands to the sink and what it keeps.
use io_t_collector.Base.{
  ℕ, ◌+◌, ◌-◌, ◌*◌, ◌^◌, ◌%◌, ◌≤◌, ◌<◌, ◌≡◌, sym, ap, ap₂, ◌∙◌, arith, List, ◌++◌, append_assoc,
  length, drop, length-append, length-drop,
}
use io_t_collector.Frame.{wire_size}
use io_t_collector.Stream.{FrameStream, stream_size, parse, merge, frame_stream_feed}
use io_t_collector.Stream.Merge.{merge_lem}
use io_t_collector.Stream.Parse.{
  more, parse-ends, parse-fuel, parse-more, parse-resync, parse-shrinks,
}

-- A stream whose bytes fit its array.
pub record IsStream (st : FrameStream) : Type 0 where
  pub len_in : length st.buf ≤ stream_size
  pub resync_in : st.resync < 2 ^ 64

-- The last bytes that fit the array, of what the buffer held and the input.
abbrev pub arrived : FrameStream → List ℕ → FrameStream
arrived st input =
    let over = length st.buf + length input - stream_size in
    record { buf = drop over (st.buf ++ input); resync = (st.resync + over) % 2 ^ 64 }

arrived-length : (st : FrameStream) (input : List ℕ) → length (arrived st input).buf ≤ stream_size
arrived-length st input = omega (
  arith,
  length-drop (length st.buf + length input - stream_size) (st.buf ++ input),
  length-append st.buf input,
)

-- The frames of a call are those cut from the last 112 bytes of the buffer and the input: bytes
-- before these are dropped before any frame is looked for.
pub frame_stream_feed_lem :
    (st : FrameStream) (input : List ℕ)
    → IsStream st
    → frame_stream_feed st input ≡ parse stream_size (arrived st input)
unfolding frame_stream_feed
frame_stream_feed_lem st input v =
    let (buf, resync) =
      merge_lem (2 * length input + length st.buf) st input v.len_in v.resync_in (omega arith) in
    let same : merge (2 * length input + length st.buf) st input ≡ arrived st input =
      ap₂ (λ b r. record { buf = b; resync = r }) buf resync in
    rw same (parse-fuel _ stream_size (arrived st input) (omega arith) (arrived-length st input))

-- A call leaves fewer bytes in the buffer than a frame has.
pub frame_stream_feed-bounds :
    (st : FrameStream) (input : List ℕ)
    → IsStream st
    → length (frame_stream_feed st input).1.buf < wire_size
frame_stream_feed-bounds st input v =
    rw (frame_stream_feed_lem st input v)
      (parse-ends stream_size (arrived st input) (arrived-length st input))

pub feed_fits :
    (st : FrameStream) (input : List ℕ)
    → IsStream st
    → length st.buf + length input ≤ stream_size
    → frame_stream_feed st input ≡ parse stream_size (more st input)
feed_fits st input v fits =
    frame_stream_feed_lem st input v
    ∙ ap (parse stream_size) (
        ap₂ (λ b r. record { buf = b; resync = r }) (ap (λ k. drop k (st.buf ++ input)) none_over)
          (omega (arith, v.resync_in)))
  where
    none_over : length st.buf + length input - stream_size ≡ 0
    none_over = omega arith

frame_stream_feed-IsStream :
    (st : FrameStream) (input : List ℕ) → IsStream st → IsStream (frame_stream_feed st input).1
frame_stream_feed-IsStream st input v = record {
  len_in = omega (arith, frame_stream_feed-bounds st input v);
  resync_in =
      rw (frame_stream_feed_lem st input v)
        (parse-resync stream_size (arrived st input) (omega arith));
}

-- How a sender's bytes are cut into chunks does not matter, as long as they fit the buffer: two calls
-- hand over the same frames, in the same order, and leave the same bytes, as one call with both chunks.
pub frame_stream_feed-append :
    (st : FrameStream) (front back : List ℕ)
    → IsStream st
    → length st.buf + length front + length back ≤ stream_size
    → let (fs, mid) = frame_stream_feed st front in
      let (gs, end) = frame_stream_feed mid back in
      frame_stream_feed st (front ++ back) ≡ (fs ++ gs, end)
frame_stream_feed-append st front back v fits =
    feed_fits st (front ++ back) v (omega (arith, length-append front back))
    ∙ ap (λ bs. parse stream_size (record st { buf = bs })) (sym (append_assoc st.buf front back))
    ∙ parse-more stream_size stream_size (more st front) back
        (omega (arith, length-append st.buf front)) (omega (arith, length-append st.buf front))
    ∙ ap (λ r. ((parse stream_size (more st front)).0 ++ r.0, r.1))
        (sym (feed_fits mid back mid_valid mid_fits))
    ∙ ap (λ r. (r.0 ++ (frame_stream_feed r.1 back).0, (frame_stream_feed r.1 back).1)) (sym first)
  where
    first : frame_stream_feed st front ≡ parse stream_size (more st front)
    first = feed_fits st front v (omega arith)

    mid : FrameStream
    mid = (parse stream_size (more st front)).1

    mid_valid : IsStream mid
    mid_valid = rw first at (frame_stream_feed-IsStream st front v)

    mid_fits : length mid.buf + length back ≤ stream_size
    mid_fits = omega (arith, length-append st.buf front, parse-shrinks stream_size (more st front))
