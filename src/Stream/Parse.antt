-- ===== src/Stream/Parse.antt =====
-- The second loop of `frame_stream_feed`: its turns, its fuel, and bytes that arrive later.
use native.Mathlib.Decide.{dec_lt}
use io_t_collector.Base.{
  ℕ, zero, suc, ◌+◌, ◌^◌, ◌≤◌, ◌<◌, ◌≡◌, refl, sym, ap, ◌∙◌, arith, Bool, true, false, Bool-cases,
  ◌⊎◌, inl, inr, if◌then◌else◌, ltb, lt→ltb, Option, none, some, List, [], ◌∷◌, ◌++◌, length, take,
  drop, length-append, length-drop,
}
use io_t_collector.Status.{Result, done, fail}
use io_t_collector.Frame.{EnvFrame, wire_size}
use io_t_collector.Proto.{frame_magic_ok}
use io_t_collector.Stream.{FrameStream, slide, decode_wire, parse_step, emit, parse}

pub Result-cases : {A : Type 0} (r : Result A) → ((s : _) × (r ≡ fail s)) ⊎ ((a : A) × (r ≡ done a))
Result-cases (fail s) = inl (s, refl)
Result-cases (done a) = inr (a, refl)

-- The same stream with more bytes behind those it holds.
abbrev pub more : FrameStream → List ℕ → FrameStream
more st bs = record st { buf = st.buf ++ bs }

take-append_le : (n : ℕ) (xs ys : List ℕ) → n ≤ length xs → take n (xs ++ ys) ≡ take n xs
take-append_le zero xs ys h = refl
take-append_le (suc n) [] ys h = absurd (omega arith)
take-append_le (suc n) (x ∷ xs) ys h = ap (λ t. x ∷ t) (take-append_le n xs ys (omega arith))

drop-append_le : (n : ℕ) (xs ys : List ℕ) → n ≤ length xs → drop n (xs ++ ys) ≡ drop n xs ++ ys
drop-append_le zero xs ys h = refl
drop-append_le (suc n) [] ys h = absurd (omega arith)
drop-append_le (suc n) (x ∷ xs) ys h = drop-append_le n xs ys (omega arith)

module _ (st : FrameStream) where
  step_bad_magic : frame_magic_ok (take wire_size st.buf) ≡ false → parse_step st ≡ (none, slide st)
  unfolding parse_step
  step_bad_magic h = rw h

  step_bad_frame :
      (s : _)
      → frame_magic_ok (take wire_size st.buf) ≡ true
      → decode_wire (take wire_size st.buf) ≡ fail s
      → parse_step st ≡ (none, slide st)
  unfolding parse_step
  step_bad_frame s h e = rw (h, e)

  pub step_frame :
      (f : EnvFrame)
      → frame_magic_ok (take wire_size st.buf) ≡ true
      → decode_wire (take wire_size st.buf) ≡ done f
      → parse_step st ≡ (some f, record st { buf = drop wire_size st.buf })
  unfolding parse_step
  step_frame f h e = rw (h, e)

-- A turn with a whole frame's bytes: what it does, and that bytes behind these change nothing.
record Stepped (st : FrameStream) (o : Option EnvFrame) (st' : FrameStream) : Type 0 where
  shorter : length st'.buf < length st.buf
  apart : (bs : List ℕ) → parse_step (more st bs) ≡ (o, more st' bs)

slide-Stepped :
    (st : FrameStream)
    → wire_size ≤ length st.buf
    → ((bs : List ℕ) → parse_step (more st bs) ≡ (none, slide (more st bs)))
    → Stepped st none (slide st)
unfolding slide
slide-Stepped st h e = record {
  shorter = omega (arith, length-drop 1 st.buf);
  apart = λ bs.
      e bs
      ∙ ap (λ xs. (none, record (slide st) { buf = xs }))
          (drop-append_le 1 st.buf bs (omega arith));
}

parse_step-Stepped :
    (st : FrameStream)
    → wire_size ≤ length st.buf
    → let (o, st') = parse_step st in Stepped st o st'
parse_step-Stepped st h = elim (Bool-cases (frame_magic_ok (take wire_size st.buf))) [
  | inr bad ↦
      rw (step_bad_magic st bad)
        (slide-Stepped st h (λ bs. step_bad_magic (more st bs) (rw (same bs) bad)))
  | inl good ↦ elim (Result-cases (decode_wire (take wire_size st.buf))) [
    | inl (s, e) ↦ rw (step_bad_frame st s good e) (
        slide-Stepped st h
          (λ bs. step_bad_frame (more st bs) s (rw (same bs) good) (rw (same bs) e)))
    | inr (f, e) ↦ rw (step_frame st f good e) (record {
      shorter = omega (arith, length-drop wire_size st.buf);
      apart = λ bs.
          step_frame (more st bs) f (rw (same bs) good) (rw (same bs) e)
          ∙ ap (λ xs. (some f, record st { buf = xs })) (drop-append_le wire_size st.buf bs h);
    })
  ]
]
  where
    same : (bs : List ℕ) → take wire_size (st.buf ++ bs) ≡ take wire_size st.buf
    same bs = take-append_le wire_size st.buf bs h

pub parse_short :
    (fuel : ℕ) (st : FrameStream) → length st.buf < wire_size → parse fuel st ≡ ([], st)
unfolding parse
parse_short zero st h = refl
parse_short (suc fuel) st h = rw (lt→ltb (length st.buf) wire_size h)

pub parse_long :
    (fuel : ℕ) (st : FrameStream)
    → wire_size ≤ length st.buf
    → let (o, st') = parse_step st in
      let (fs, end) = parse fuel st' in parse (suc fuel) st ≡ (emit o fs, end)
unfolding parse
parse_long fuel st h = rw long
  where
    long : ltb (length st.buf) wire_size ≡ false
    long = ground arith

-- With fuel for the bytes of the buffer the loop ends with less than a frame's bytes left.
pub parse-ends :
    (fuel : ℕ) (st : FrameStream) → length st.buf ≤ fuel → length (parse fuel st).1.buf < wire_size
parse-ends zero st h = rw (parse_short zero st (omega arith)) (omega arith)
parse-ends (suc fuel) st h = elim (dec_lt (length st.buf) wire_size) [
  | yes short ↦ rw (parse_short (suc fuel) st short) short
  | no long ↦ rw (parse_long fuel st (omega arith)) (
      parse-ends fuel (parse_step st).1
        (let t = parse_step-Stepped st (omega arith) in omega (arith, t.shorter)))
]

-- No turn adds bytes, and `resync` stays a 64-bit number.
record Shrinks (st st' : FrameStream) : Type 0 where
  pub no_longer : length st'.buf ≤ length st.buf
  pub resync_in : st.resync < 2 ^ 64 → st'.resync < 2 ^ 64

parse_step-Shrinks : (st : FrameStream) → Shrinks st (parse_step st).1
unfolding parse_step slide
parse_step-Shrinks st = record {
  no_longer = ground (arith, length-drop 1 st.buf, length-drop wire_size st.buf);
  resync_in = λ h. ground arith;
}

parse-Shrinks : (fuel : ℕ) (st : FrameStream) → Shrinks st (parse fuel st).1
unfolding parse
parse-Shrinks zero st = record { no_longer = omega arith; resync_in = λ h. h }
parse-Shrinks (suc fuel) st =
    let s = parse_step-Shrinks st in
    let r = parse-Shrinks fuel (parse_step st).1 in
    choose (ltb (length st.buf) wire_size) (emit (parse_step st).0 (parse fuel (parse_step st).1).0)
      (record {
        no_longer = omega (arith, s.no_longer, r.no_longer);
        resync_in = λ h. r.resync_in (s.resync_in h);
      })
  where
    choose :
        (b : Bool) (gs : List EnvFrame) {end : FrameStream}
        → Shrinks st end
        → Shrinks st (if◌then◌else◌ {A = List EnvFrame × FrameStream} b ([], st) (gs, end)).1
    choose true gs k = record { no_longer = omega arith; resync_in = λ h. h }
    choose false gs k = k

pub parse-shrinks : (fuel : ℕ) (st : FrameStream) → length (parse fuel st).1.buf ≤ length st.buf
parse-shrinks fuel st = (parse-Shrinks fuel st).no_longer

pub parse-resync :
    (fuel : ℕ) (st : FrameStream) → st.resync < 2 ^ 64 → (parse fuel st).1.resync < 2 ^ 64
parse-resync fuel st h = (parse-Shrinks fuel st).resync_in h

pub parse-fuel :
    (n m : ℕ) (st : FrameStream) → length st.buf ≤ n → length st.buf ≤ m → parse n st ≡ parse m st
parse-fuel zero m st h k = parse_short zero st (omega arith) ∙ sym (parse_short m st (omega arith))
parse-fuel (suc n) zero st h k =
    parse_short (suc n) st (omega arith) ∙ sym (parse_short zero st (omega arith))
parse-fuel (suc n) (suc m) st h k = elim (dec_lt (length st.buf) wire_size) [
  | yes short ↦ parse_short (suc n) st short ∙ sym (parse_short (suc m) st short)
  | no long ↦
      let t = parse_step-Stepped st (omega arith) in
      parse_long n st (omega arith)
      ∙ ap (λ r. (emit (parse_step st).0 r.0, r.1))
          (parse-fuel n m (parse_step st).1 (omega (arith, t.shorter)) (omega (arith, t.shorter)))
      ∙ sym (parse_long m st (omega arith))
]

emit-append : (o : Option EnvFrame) (fs gs : List EnvFrame) → emit o (fs ++ gs) ≡ emit o fs ++ gs
emit-append none fs gs = refl
emit-append (some f) fs gs = refl

-- What it is to cut bytes and later bytes in turn.
abbrev Apart : ℕ → ℕ → FrameStream → List ℕ → Type 0
Apart n m st bs =
    let (fs, rest) = parse n st in
    let (gs, end) = parse m (more rest bs) in parse m (more st bs) ≡ (fs ++ gs, end)

Apart-step :
    (n m : ℕ) (st : FrameStream) (bs : List ℕ)
    → length st.buf ≤ suc n
    → length st.buf + length bs ≤ suc m
    → wire_size ≤ length st.buf
    → Apart n m (parse_step st).1 bs
    → Apart (suc n) (suc m) st bs
Apart-step n m st bs h k long ih =
    parse_long m (more st bs) (omega (arith, length-append st.buf bs))
    ∙ ap (λ p. (emit p.0 (parse m p.1).0, (parse m p.1).1)) (t.apart bs)
    ∙ ap (λ r. (emit o r.0, r.1)) ih
    ∙ ap (λ r. (emit o ((parse n st').0 ++ r.0), r.1))
        (parse-fuel m (suc m) (more rest bs) (omega (arith, left)) (omega (arith, left)))
    ∙ ap (λ fs. (fs, (parse (suc m) (more rest bs)).1)) (emit-append o _ _)
    ∙ ap (λ r. (r.0 ++ (parse (suc m) (more r.1 bs)).0, (parse (suc m) (more r.1 bs)).1))
        (sym (parse_long n st long))
  where
    st' : FrameStream
    st' = (parse_step st).1

    o : Option EnvFrame
    o = (parse_step st).0

    rest : FrameStream
    rest = (parse n st').1

    t : Stepped st o st'
    t = parse_step-Stepped st long

    left : length (rest.buf ++ bs) < wire_size + length bs
    left = omega (arith, length-append rest.buf bs, parse-ends n st' (omega (arith, t.shorter)))

-- Bytes that arrive later are cut the same way: the frames of the whole are those of the bytes that
-- were there, and then those of what was left of them with the later bytes.
pub parse-more :
    (n m : ℕ) (st : FrameStream) (bs : List ℕ)
    → length st.buf ≤ n
    → length st.buf + length bs ≤ m
    → Apart n m st bs
parse-more zero m st bs h k = rw (parse_short zero st (omega arith)) refl
parse-more (suc n) zero st bs h k = rw (parse_short (suc n) st (omega arith)) refl
parse-more (suc n) (suc m) st bs h k = elim (dec_lt (length st.buf) wire_size) [
  | yes short ↦ rw (parse_short (suc n) st short) refl
  | no long ↦
      let t = parse_step-Stepped st (omega arith) in
      Apart-step n m st bs h k (omega arith)
        (parse-more n m (parse_step st).1 bs (omega (arith, t.shorter)) (omega (arith, t.shorter)))
]
