-- ===== src/Stream/Merge.antt =====
-- The first loop of `frame_stream_feed`: which bytes the buffer holds after it.
use io_t_collector.Base.{
  ℕ, zero, suc, ◌+◌, ◌-◌, ◌*◌, ◌^◌, ◌%◌, ◌≤◌, ◌<◌, ◌≡◌, ◌≢◌, refl, sym, ap, ap₂, ◌∙◌, arith,
  Bool-cases, inl, inr, if◌then◌else◌, ltb, ◌==◌, List, [], ◌∷◌, ◌++◌, append-nil, append_assoc,
  length, take, drop, length-append, length-take, length-drop, take-append-drop,
}
use io_t_collector.Base.Words.{sub64}
use io_t_collector.Stream.{FrameStream, stream_size, slide, merge_step, merge}

drop_one-append :
    (xs ys : List ℕ) (n : ℕ) → length xs ≢ 0 → drop n (drop 1 xs ++ ys) ≡ drop (n + 1) (xs ++ ys)
drop_one-append [] ys n h = absurd (h refl)
drop_one-append (x ∷ xs) ys n h =
    let e : suc n ≡ n + 1 = omega arith in ap (λ k. drop k (x ∷ (xs ++ ys))) e

drop-all : (xs : List ℕ) (n : ℕ) → n ≡ 0 → drop n xs ≡ xs
drop-all xs n h = ap (λ k. drop k xs) h

-- What the loop has still to do, and what it will have done: both are kept by a turn.
abbrev kept : FrameStream → List ℕ → List ℕ
kept st input = drop (length st.buf + length input - stream_size) (st.buf ++ input)

abbrev lost : FrameStream → List ℕ → ℕ
lost st input = (st.resync + (length st.buf + length input - stream_size)) % 2 ^ 64

record Turned (st : FrameStream) (input : List ℕ) (st' : FrameStream) (rest : List ℕ) : Type 0 where
  bounded : length st'.buf ≤ stream_size
  shorter : 2 * length rest + length st'.buf < 2 * length input + length st.buf
  same_kept : kept st' rest ≡ kept st input
  same_lost : lost st' rest ≡ lost st input

slide-Turned :
    (st : FrameStream) (input : List ℕ)
    → length st.buf ≡ stream_size
    → length input ≢ 0
    → Turned st input (slide st) input
unfolding slide
slide-Turned st input full some_left = record {
  bounded = omega (arith, length-drop 1 st.buf);
  shorter = omega (arith, length-drop 1 st.buf);
  same_kept =
      drop_one-append st.buf input _ (omega arith)
      ∙ ap (λ k. drop k (st.buf ++ input)) (omega (arith, length-drop 1 st.buf));
  same_lost = omega (arith, length-drop 1 st.buf);
}

copy-Turned :
    (st : FrameStream) (input : List ℕ) (n : ℕ)
    → n ≤ length input
    → length st.buf + n ≤ stream_size
    → n ≢ 0
    → Turned st input (record st { buf = st.buf ++ take n input }) (drop n input)
copy-Turned st input n h room some_left = record {
  bounded = omega (arith, total);
  shorter = omega (arith, total, length-drop n input);
  same_kept =
      ap₂ (λ k xs. drop k xs) (omega (arith, total, length-drop n input))
        (append_assoc st.buf (take n input) (drop n input)
          ∙ ap (λ xs. st.buf ++ xs) (take-append-drop n input));
  same_lost =
      ap (λ k. (st.resync + (k - stream_size)) % 2 ^ 64)
        (omega (arith, total, length-drop n input));
}
  where
    total : length (st.buf ++ take n input) ≡ length st.buf + n
    total = omega (arith, length-append st.buf (take n input), length-take n input)

merge_step-Turned :
    (st : FrameStream) (input : List ℕ)
    → length st.buf ≤ stream_size
    → length input ≢ 0
    → let (st', rest) = merge_step st input in Turned st input st' rest
unfolding merge_step
merge_step-Turned st input h some_left = elim (Bool-cases (n == 0)) [
  | inl full ↦ rw full (slide-Turned st input (ground arith) some_left)
  | inr copied ↦ rw copied (copy-Turned st input n (ground arith) (ground arith) (ground arith))
]
  where
    n : ℕ
    n =
        if ltb (length input) (sub64 stream_size (length st.buf))
        then length input
        else sub64 stream_size (length st.buf)

merge_step-resync :
    (st : FrameStream) (input : List ℕ)
    → st.resync < 2 ^ 64
    → (merge_step st input).0.resync < 2 ^ 64
unfolding merge_step slide
merge_step-resync st input h = ground arith

merge_nil : (fuel : ℕ) (st : FrameStream) → merge fuel st [] ≡ st
unfolding merge
merge_nil zero st = refl
merge_nil (suc fuel) st = refl

-- With fuel for twice the input and the buffer, the loop ends with all the input read: the buffer
-- holds the last 112 bytes of what it held and the input, and `resync` counts the bytes before them.
pub merge_lem :
    (fuel : ℕ) (st : FrameStream) (input : List ℕ)
    → length st.buf ≤ stream_size
    → st.resync < 2 ^ 64
    → 2 * length input + length st.buf ≤ fuel
    → ((merge fuel st input).buf ≡ kept st input) × ((merge fuel st input).resync ≡ lost st input)
unfolding merge
merge_lem fuel st [] h r enough = (
  rw (merge_nil fuel st) (
      sym (
        drop-all (st.buf ++ []) (length st.buf + 0 - stream_size) (omega arith)
        ∙ append-nil st.buf)),
  rw (merge_nil fuel st) (omega arith),
)
merge_lem zero st (d ∷ input) h r enough = absurd (omega arith)
merge_lem (suc fuel) st (d ∷ input) h r enough =
    let t = merge_step-Turned st (d ∷ input) h (omega arith) in
    let (st', rest) = merge_step st (d ∷ input) in
    let (buf, resync) =
      merge_lem fuel st' rest t.bounded (merge_step-resync st (d ∷ input) r)
        (omega (arith, t.shorter)) in
    (buf ∙ t.same_kept, resync ∙ t.same_lost)
