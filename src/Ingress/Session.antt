-- ===== src/Ingress/Session.antt =====
-- A session of ingress/tcp_poller.c with a device that sends whole frames.
use io_t_collector.Base.{
  ℕ, suc, ◌+◌, ◌≤◌, ◌<◌, ◌^◌, ◌≡◌, refl, sym, ap, ap₂, ◌∙◌, arith, Bool, true, false, List, [], ◌∷◌,
  ◌++◌, map, append-nil, append_assoc, length, length-append, ltb, if◌then◌else◌, some,
}
use io_t_collector.Base.Words.{u32}
use io_t_collector.Frame.{EnvFrame, wire_size}
use io_t_collector.Proto.{frame_hton}
use io_t_collector.Proto.Codec.{as_received}
use io_t_collector.Stream.{stream_size, frame_stream_reset}
use io_t_collector.Stream.Feed.{IsStream}
use io_t_collector.Stream.Frames.{Sent, nothing, frame, encode-length, frame_stream_feed-Sent}
use io_t_collector.Ingress.Whole.{append-Split}
use io_t_collector.Ingress.{Intake, admit, admit_all}
use io_t_collector.Ingress.Tcp.{
  Recv, received, interrupted, Session, some_got, feed, session_loop, Attempt, tcp_connect_timeout,
  tcp_session_once,
}

-- The rounds in which `recv` brings the bytes of the second list, at most 85 at a time, which always
-- fit behind the bytes kept of a begun frame.
pub data Arrives : List (Bool × Recv) → List ℕ → Type 0 where
  silent : Arrives [] []
  chunk :
      (b : ℕ) (bs : List ℕ) {rounds : List (Bool × Recv)} {more : List ℕ}
      → length (b ∷ bs) ≤ 85
      → Arrives rounds more
      → Arrives ((true, received (b ∷ bs)) ∷ rounds) ((b ∷ bs) ++ more)
  again :
      {rounds : List (Bool × Recv)} {more : List ℕ}
      → Arrives rounds more
      → Arrives ((true, interrupted) ∷ rounds) more

-- The session after the frames `fs` were handed over, with the bytes `rest` of the next.
abbrev pub delivered : Session → List EnvFrame → List ℕ → Session
delivered s fs rest = record {
  stream = record s.stream { buf = rest };
  intake = admit_all 2 s.intake (map as_received fs);
  got = u32 (s.got + length fs);
}

admit_all-append :
    (s : Intake) (fs gs : List EnvFrame)
    → admit_all 2 (admit_all 2 s (map as_received fs)) (map as_received gs)
      ≡ admit_all 2 s (map as_received (fs ++ gs))
unfolding admit_all
admit_all-append s [] gs = refl
admit_all-append s (f ∷ fs) gs = admit_all-append (admit 2 s (as_received f)) fs gs

delivered_twice :
    (s : Session) (fs gs : List EnvFrame) (mid rest : List ℕ)
    → delivered (delivered s fs mid) gs rest ≡ delivered s (fs ++ gs) rest
delivered_twice s fs gs mid rest =
    ap₂ (λ i n. record { stream = record s.stream { buf = rest }; intake = i; got = n })
      (admit_all-append s.intake fs gs) (omega (arith, length-append fs gs))

length-received : (fs : List EnvFrame) → length (map as_received fs) ≡ length fs
length-received [] = refl
length-received (f ∷ fs) = ap suc (length-received fs)

feed-delivered :
    (s : Session) (input rest : List ℕ) {fs : List EnvFrame} {ws : List ℕ}
    → IsStream s.stream
    → Sent fs ws
    → s.stream.buf ++ input ≡ ws ++ rest
    → length rest < wire_size
    → length s.stream.buf + length input ≤ stream_size
    → feed s input ≡ delivered s fs rest
unfolding feed
feed-delivered s input rest {fs} {ws} v sent same short fits =
    ap
      (λ r. record {
        stream = r.1;
        intake = admit_all 2 s.intake r.0;
        got = u32 (s.got + length r.0);
      })
      (frame_stream_feed-Sent s.stream input rest v sent same short
        (omega (arith, fits, ap length same, length-append s.stream.buf input)))
    ∙ ap
        (λ n. record {
          stream = record s.stream { buf = rest };
          intake = admit_all 2 s.intake (map as_received fs);
          got = u32 (s.got + n);
        })
        (length-received fs)

-- All that was sent has come: the buffer holds the rest.
all_come :
    {fs : List EnvFrame} {ws : List ℕ} (buf rest : List ℕ)
    → Sent fs ws
    → buf ≡ ws ++ rest
    → length buf < wire_size
    → (fs ≡ []) × (buf ≡ rest)
all_come buf rest nothing e h = (refl, e)
all_come buf rest (frame f w {ws} v enc s) e h = absurd (
    omega (
      arith,
      h,
      ap length e,
      length-append (w ++ ws) rest,
      length-append w ws,
      encode-length (frame_hton f) w enc,
    ))

delivered_none : (s : Session) → s.got < 2 ^ 32 → s ≡ delivered s [] s.stream.buf
unfolding admit_all
delivered_none s fits =
    ap (λ n. record { stream = s.stream; intake = s.intake; got = n }) (omega arith)

session_loop-Arrives :
    {rounds : List (Bool × Recv)} {input : List ℕ} {fs : List EnvFrame} {ws : List ℕ} (s : Session)
    (rest : List ℕ)
    → Arrives rounds input
    → s.got < 2 ^ 32
    → IsStream s.stream
    → length s.stream.buf < wire_size
    → Sent fs ws
    → s.stream.buf ++ input ≡ ws ++ rest
    → length rest < wire_size
    → session_loop s rounds ≡ (false, delivered s fs rest)
unfolding session_loop
session_loop-Arrives s rest silent fits v few sent e h =
    let (none_left, kept) =
      all_come s.stream.buf rest sent (sym (append-nil s.stream.buf) ∙ e) few in
    ap (λ u. (false, u)) (delivered_none s fits)
    ∙ ap₂ (λ l b. (false, delivered s l b)) (sym none_left) kept
session_loop-Arrives s rest (again more) fits v few sent e h =
    session_loop-Arrives s rest more fits v few sent e h
session_loop-Arrives s rest (chunk b bs {rounds} {more} small later) fits v few sent e h =
    let t =
      append-Split (s.stream.buf ++ (b ∷ bs)) more rest sent
        (append_assoc s.stream.buf (b ∷ bs) more ∙ e) h in
    let step =
      feed-delivered s (b ∷ bs) t.begun v t.whole_sent t.come t.short (omega (arith, few, small)) in
    let next = delivered s t.whole t.begun in
    ap (λ u. session_loop u rounds) step
    ∙ session_loop-Arrives next rest later (omega arith)
        (record { len_in = omega (arith, t.short); resync_in = v.resync_in }) t.short t.later_sent
        t.to_come h
    ∙ ap (λ u. (false, u)) (delivered_twice s t.whole t.later t.begun rest)
    ∙ ap (λ l. (false, delivered s l rest)) (sym t.frames)

-- The peer closes behind these rounds.
session_closes :
    {rounds : List (Bool × Recv)} {input : List ℕ} (s : Session)
    → Arrives rounds input
    → (on : Bool)
    → session_loop s (rounds ++ ((on, received []) ∷ [])) ≡ (true, (session_loop s rounds).1)
unfolding session_loop
session_closes s silent on = refl
session_closes s (again more) on = session_closes s more on
session_closes s (chunk b bs small later) on = session_closes (feed s (b ∷ bs)) later on

abbrev pub fresh_session : Session → Session
fresh_session s = record s { stream = record { buf = []; resync = 0 }; got = 0 }

session_once :
    (a : Attempt) (s : Session) (rounds : List (Bool × Recv)) (stopped : Bool) {fd : ℕ}
    {end : Session}
    → (tcp_connect_timeout a).fd ≡ some fd
    → session_loop (fresh_session s) rounds ≡ (true, end)
    → tcp_session_once true a s rounds stopped
      ≡ some (record {
        success = some_got end.got;
        session = end;
        closed = if stopped then [] else fd ∷ [];
      })
unfolding tcp_session_once frame_stream_reset
session_once a s rounds stopped connected over = rw (connected, over) refl

some_got_few : (n : ℕ) → n < 2 ^ 31 → some_got (u32 (0 + n)) ≡ ltb 0 n
some_got_few n few = ground arith

-- A device that sends the frames `fs`, fewer than 2 ^ 31, and less than one frame more, and then closes: however `recv`
-- cuts its bytes into pieces of at most 85, with or without interruptions, `tcp_session_once` ends,
-- offers exactly these frames to Q1, in order, returns 0 exactly if there is one, and closes its
-- descriptor unless `tcp_poller_stop` has done so.
pub tcp_session_once-Arrives :
    (a : Attempt) (s : Session) (stopped on : Bool) {fd : ℕ} {rounds : List (Bool × Recv)}
    {fs : List EnvFrame} {ws : List ℕ} (rest : List ℕ)
    → (tcp_connect_timeout a).fd ≡ some fd
    → Arrives rounds (ws ++ rest)
    → Sent fs ws
    → length rest < wire_size
    → length fs < 2 ^ 31
    → tcp_session_once true a s (rounds ++ ((on, received []) ∷ [])) stopped
      ≡ some (record {
        success = ltb 0 (length fs);
        session = delivered (fresh_session s) fs rest;
        closed = if stopped then [] else fd ∷ [];
      })
tcp_session_once-Arrives a s stopped on {fd} {rounds} {fs} rest connected arrives sent h countable =
    session_once a s (rounds ++ ((on, received []) ∷ [])) stopped connected (
      session_closes (fresh_session s) arrives on
      ∙ ap (λ r. (true, r.1))
          (session_loop-Arrives (fresh_session s) rest arrives (omega arith)
            (record { len_in = omega arith; resync_in = omega arith }) (omega arith) sent refl h))
    ∙ ap
        (λ b. some (record {
          success = b;
          session = delivered (fresh_session s) fs rest;
          closed = if stopped then [] else fd ∷ [];
        }))
        (some_got_few (length fs) countable)
