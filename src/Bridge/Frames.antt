-- ===== src/Bridge/Frames.antt =====
-- The cutting of frames in tools/cloud_bridge.c against the collector's own in ingress/decoder.c, and
-- the counters.
use native.Mathlib.Decide.{dec_lt}
use io_t_collector.Base.{
  ℕ, zero, suc, ◌<◌, ◌≤◌, ◌≡◌, ◌⊎◌, refl, ap, ◌∙◌, arith, false, Bool-cases, inl, inr, ltb, lt→ltb,
  Option, none, some, List, [], ◌∷◌, length, take, drop,
}
use io_t_collector.Frame.{EnvFrame, wire_size}
use io_t_collector.Proto.{frame_magic_ok, frame_decode}
use io_t_collector.Stream.{FrameStream, decode_wire, slide, parse_step, emit, parse}
use io_t_collector.Stream.Parse.{Result-cases, parse_short, parse_long}
use io_t_collector.Bridge.{Cut, front_frame, cut_turn, cut_frames}

-- What the two parsers make of the same bytes.
record Agreed (r : List EnvFrame × FrameStream) (c : Cut) : Type 0 where
  same_frames : r.0 ≡ c.frames
  same_kept : r.1.buf ≡ c.kept

step_cases :
    (st : FrameStream)
    → ((parse_step st ≡ (none, slide st)) × (front_frame st.buf ≡ none))
      ⊎ ((f : EnvFrame) × (parse_step st ≡ (some f, record st { buf = drop wire_size st.buf }))
          × (front_frame st.buf ≡ some f))
unfolding parse_step front_frame decode_wire
step_cases st = elim (Bool-cases (frame_magic_ok (take wire_size st.buf))) [
  | inr no_magic ↦ inl (rw no_magic refl, rw no_magic refl)
  | inl magic ↦ elim (Result-cases (frame_decode (take wire_size st.buf))) [
    | inl (s, bad) ↦ inl (rw (magic, bad) refl, rw (magic, bad) refl)
    | inr (f, good) ↦ inr (f, rw (magic, good) refl, rw (magic, good) refl)
  ]
]

abbrev stopped : List ℕ → Cut
stopped buf = record { frames = []; bad = 0; kept = buf }

cut_short : (fuel : ℕ) (buf : List ℕ) → length buf < wire_size → cut_frames fuel buf ≡ stopped buf
unfolding cut_frames
cut_short zero buf h = refl
cut_short (suc fuel) buf h = rw (lt→ltb (length buf) wire_size h) refl

cut_long :
    (fuel : ℕ) (buf : List ℕ) (o : Option EnvFrame)
    → wire_size ≤ length buf
    → front_frame buf ≡ o
    → cut_frames (suc fuel) buf ≡ cut_turn o buf (cut_frames fuel)
unfolding cut_frames
cut_long fuel buf o h e =
    let long : ltb (length buf) wire_size ≡ false = ground (arith, h) in
    rw long (ap (λ o. cut_turn o buf (cut_frames fuel)) e)

slid : (st : FrameStream) → (slide st).buf ≡ drop 1 st.buf
unfolding slide
slid st = refl

-- One turn of each on the same bytes, and then the others.
same_turn :
    (fuel : ℕ) (st : FrameStream)
    → wire_size ≤ length st.buf
    → ((next : FrameStream) → Agreed (parse fuel next) (cut_frames fuel next.buf))
    → Agreed (parse (suc fuel) st) (cut_frames (suc fuel) st.buf)
same_turn fuel st h later = elim (step_cases st) [
  | inl (step, front) ↦
      let t = later (slide st) in
      rw
        (
          parse_long fuel st h ∙ ap (λ p. (emit p.0 (parse fuel p.1).0, (parse fuel p.1).1)) step,
          cut_long fuel st.buf none h front,
        )
        (record {
          same_frames = t.same_frames ∙ ap (λ b. (cut_frames fuel b).frames) (slid st);
          same_kept = t.same_kept ∙ ap (λ b. (cut_frames fuel b).kept) (slid st);
        })
  | inr (f, step, front) ↦
      let t = later (record st { buf = drop wire_size st.buf }) in
      rw
        (
          parse_long fuel st h ∙ ap (λ p. (emit p.0 (parse fuel p.1).0, (parse fuel p.1).1)) step,
          cut_long fuel st.buf (some f) h front,
        )
        (record { same_frames = ap (λ fs. f ∷ fs) t.same_frames; same_kept = t.same_kept })
]

short_same :
    (fuel : ℕ) (st : FrameStream)
    → length st.buf < wire_size
    → Agreed (parse fuel st) (cut_frames fuel st.buf)
short_same fuel st h =
    rw (parse_short fuel st h, cut_short fuel st.buf h)
      (record { same_frames = refl; same_kept = refl })

nothing_yet : (st : FrameStream) → Agreed (parse zero st) (cut_frames zero st.buf)
unfolding parse cut_frames
nothing_yet st = record { same_frames = refl; same_kept = refl }

-- On the same bytes the loop of the bridge and that of the collector's `frame_stream_feed` find the
-- same frames, in the same order, and keep the same bytes.
pub parse-cut_frames :
    (fuel : ℕ) (st : FrameStream)
    → ((parse fuel st).0 ≡ (cut_frames fuel st.buf).frames)
      × ((parse fuel st).1.buf ≡ (cut_frames fuel st.buf).kept)
parse-cut_frames fuel st = let s = same fuel st in (s.same_frames, s.same_kept)
  where
    same : (fuel : ℕ) (st : FrameStream) → Agreed (parse fuel st) (cut_frames fuel st.buf)
    same zero st = nothing_yet st
    same (suc fuel) st = elim (dec_lt (length st.buf) wire_size) [
      | yes few ↦ short_same (suc fuel) st few
      | no many ↦ same_turn fuel st (omega (arith, many)) (same fuel)
    ]
