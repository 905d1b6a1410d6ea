-- ===== src/Stream/Frames.antt =====
-- A sender's frames through `frame_stream_feed`.
use io_t_collector.Base.{
  ℕ, zero, suc, ◌+◌, ◌-◌, ◌*◌, ◌^◌, ◌%◌, ◌≤◌, ◌<◌, ◌≡◌, refl, sym, ap, ap₂, ◌∙◌, arith, true, some,
  List, [], ◌∷◌, ◌++◌, map, append-nil, append_assoc, length, take, drop, length-append,
  take-append, drop-append,
}
use io_t_collector.Status.{done, done-injective}
use io_t_collector.Frame.{EnvFrame, IsFrame, wire_size, bytes}
use io_t_collector.Proto.{frame_hton, frame_encode, frame_decode, frame_magic_ok}
use io_t_collector.Proto.Codec.{as_received, frame_decode-frame_encode}
use io_t_collector.Stream.{
  FrameStream, stream_size, decode_wire, parse_step, emit, parse, frame_stream_feed,
}
use io_t_collector.Stream.Parse.{step_frame, parse_short, parse_long}
use io_t_collector.Stream.Feed.{IsStream, feed_fits, arrived, frame_stream_feed_lem}

-- The bytes that a sender writes for `fs`.
pub data Sent : List EnvFrame → List ℕ → Type 0 where
  nothing : Sent [] []
  frame :
      (f : EnvFrame) {fs : List EnvFrame} (w : List ℕ) {ws : List ℕ}
      → IsFrame f
      → frame_encode (frame_hton f) wire_size ≡ done w
      → Sent fs ws
      → Sent (f ∷ fs) (w ++ ws)

decode-magic : (buf : List ℕ) (f : EnvFrame) → frame_decode buf ≡ done f → frame_magic_ok buf ≡ true
unfolding frame_decode
decode-magic buf f e = ground arith

pub encode-length :
    (f : EnvFrame) (w : List ℕ) → frame_encode f wire_size ≡ done w → length w ≡ wire_size
unfolding frame_encode bytes
encode-length f w e = ap length (sym (done-injective e))

sent_decodes :
    (f : EnvFrame) (w : List ℕ)
    → IsFrame f
    → frame_encode (frame_hton f) wire_size ≡ done w
    → frame_decode w ≡ done (as_received f)
sent_decodes f w v e =
    let (w', encoded, decoded) = frame_decode-frame_encode f wire_size v (omega arith) in
    rw (done-injective (sym e ∙ encoded)) decoded

wire-decode_wire : (w : List ℕ) (f : EnvFrame) → frame_decode w ≡ done f → decode_wire w ≡ done f
unfolding decode_wire
wire-decode_wire w f e = rw (decode-magic w f e) e

parse-frame :
    (fuel : ℕ) (f : EnvFrame) (w rest : List ℕ) (resync : ℕ)
    → IsFrame f
    → frame_encode (frame_hton f) wire_size ≡ done w
    → let (fs, end) = parse fuel (record { buf = rest; resync = resync }) in
      parse (suc fuel) (record { buf = w ++ rest; resync = resync }) ≡ (as_received f ∷ fs, end)
parse-frame fuel f w rest resync v e =
    parse_long fuel st (omega (arith, length-append w rest, size))
    ∙ ap (λ p. (emit p.0 (parse fuel p.1).0, (parse fuel p.1).1)) step
  where
    st : FrameStream
    st = record { buf = w ++ rest; resync = resync }

    size : length w ≡ wire_size
    size = encode-length (frame_hton f) w e

    front : take wire_size (w ++ rest) ≡ w
    front = ap (λ n. take n (w ++ rest)) (sym size) ∙ take-append w rest

    back : drop wire_size (w ++ rest) ≡ rest
    back = ap (λ n. drop n (w ++ rest)) (sym size) ∙ drop-append w rest

    step : parse_step st ≡ (some (as_received f), record { buf = rest; resync = resync })
    step =
        step_frame st (as_received f)
          (rw front (decode-magic w (as_received f) (sent_decodes f w v e)))
          (rw front (wire-decode_wire w (as_received f) (sent_decodes f w v e)))
        ∙ ap (λ bs. (some (as_received f), record { buf = bs; resync = resync })) back

more_room :
    (f : EnvFrame) (w ws rest : List ℕ)
    → frame_encode (frame_hton f) wire_size ≡ done w
    → length ((w ++ ws) ++ rest) ≡ wire_size + length (ws ++ rest)
more_room f w ws rest e = omega (
  arith,
  encode-length (frame_hton f) w e,
  length-append (w ++ ws) rest,
  length-append w ws,
  length-append ws rest,
)

parse-Sent :
    (fuel : ℕ) {fs : List EnvFrame} {ws : List ℕ} (rest : List ℕ) (resync : ℕ)
    → Sent fs ws
    → length rest < wire_size
    → length (ws ++ rest) ≤ fuel
    → parse fuel (record { buf = ws ++ rest; resync = resync })
      ≡ (map as_received fs, record { buf = rest; resync = resync })
parse-Sent fuel rest resync nothing h k = parse_short fuel _ h
parse-Sent zero rest resync (frame f w {ws} v e s) h k =
    absurd (omega (arith, more_room f w ws rest e))
parse-Sent (suc fuel) rest resync (frame f {fs} w {ws} v e s) h k =
    ap (λ bs. parse (suc fuel) (record { buf = bs; resync = resync })) (append_assoc w ws rest)
    ∙ parse-frame fuel f w (ws ++ rest) resync v e
    ∙ ap (λ r. (as_received f ∷ r.0, r.1))
        (parse-Sent fuel rest resync s h (omega (arith, more_room f w ws rest e)))

-- When the bytes held and the bytes that arrive are frames as a sender encodes them, and less than a
-- frame's bytes of the next, and all of them fit the buffer, then the sink gets exactly these frames
-- in order, the rest is kept, and nothing is counted as lost.
pub frame_stream_feed-Sent :
    (st : FrameStream) (input rest : List ℕ) {fs : List EnvFrame} {ws : List ℕ}
    → IsStream st
    → Sent fs ws
    → st.buf ++ input ≡ ws ++ rest
    → length rest < wire_size
    → length (ws ++ rest) ≤ stream_size
    → frame_stream_feed st input ≡ (map as_received fs, record st { buf = rest })
frame_stream_feed-Sent st input rest v s same short fits =
    feed_fits st input v (omega (arith, length-append st.buf input, ap length same, fits))
    ∙ ap (λ bs. parse stream_size (record st { buf = bs })) same
    ∙ parse-Sent stream_size rest st.resync s short fits

Sent-length : {fs : List EnvFrame} {ws : List ℕ} → Sent fs ws → length ws ≡ wire_size * length fs
Sent-length nothing = refl
Sent-length (frame f w {ws} v e s) =
    omega (arith, length-append w ws, encode-length (frame_hton f) w e, Sent-length s)

-- Five frames that arrive in one call on an empty stream: the first is lost, though it came whole and
-- undamaged, the other four are delivered, and 28 bytes are counted as lost.
pub frame_stream_feed_overflow :
    (f : EnvFrame) {fs : List EnvFrame} {ws : List ℕ}
    → Sent fs ws
    → length fs ≡ 4
    → (w : List ℕ) → IsFrame f
    → frame_encode (frame_hton f) wire_size ≡ done w
    → frame_stream_feed (record { buf = []; resync = 0 }) (w ++ ws)
      ≡ (map as_received fs, record { buf = []; resync = 28 })
frame_stream_feed_overflow f {fs} {ws} s four w v e =
    frame_stream_feed_lem (record { buf = []; resync = 0 }) (w ++ ws)
      (record { len_in = omega arith; resync_in = omega arith })
    ∙ ap (parse stream_size) cut
    ∙ parse-Sent stream_size [] 28 s (omega arith)
        (omega (arith, length-append ws [], Sent-length s))
  where
    size : length w ≡ wire_size
    size = encode-length (frame_hton f) w e

    over : 0 + length (w ++ ws) - stream_size ≡ length w
    over = omega (arith, size, four, length-append w ws, Sent-length s)

    counted : (0 + (0 + length (w ++ ws) - stream_size)) % 2 ^ 64 ≡ 28
    counted = omega (arith, over, size)

    cut :
        arrived (record { buf = []; resync = 0 }) (w ++ ws) ≡ record { buf = ws ++ []; resync = 28 }
    cut =
        ap₂ (λ b r. record { buf = b; resync = r })
          (ap (λ k. drop k (w ++ ws)) over ∙ drop-append w ws ∙ sym (append-nil ws)) counted
