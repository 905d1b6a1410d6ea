-- ===== src/Cache/Replay.antt =====
-- `cache_writer_append` and `cache_replay_start`: the file as the frames done and the frames to do.
use io_t_collector.Base.{
  ℕ, zero, suc, ◌+◌, ◌-◌, ◌*◌, ◌≤◌, ◌≡◌, refl, sym, ap, ap₂, ◌∙◌, arith, true, false, Bool-cases,
  inl, inr, if◌then◌else◌, leb, some, List, [], ◌∷◌, ◌++◌, append-nil, append_assoc, map, length,
  take, drop, length-append, take-append, drop-append,
}
use io_t_collector.Status.{Status, is_ok}
use io_t_collector.Frame.{EnvFrame, IsFrame, bytes, wire_size, frame_retry}
use io_t_collector.Proto.Layout.{of_bytes-bytes}
use io_t_collector.Cache.{Cache, read_frame, after_read, replay_loop, cache_replay_start}

-- The bytes of the frames in the file.
abbrev pub image : List EnvFrame → List ℕ
image [] = []
image (f ∷ fs) = bytes f ++ image fs

pub data AllFrames : List EnvFrame → Type 0 where
  no_frames : AllFrames []
  one_more : (f : EnvFrame) {fs : List EnvFrame} → IsFrame f → AllFrames fs → AllFrames (f ∷ fs)

-- A cache whose file holds the frames `past`, which were sent, and then the frames `todo`.
pub record Cached (c : Cache) (past todo : List EnvFrame) : Type 0 where
  pub opened : c.is_open ≡ true
  pub file_is : c.file ≡ image past ++ image todo
  pub read_at : c.read_cursor ≡ wire_size * length past
  pub write_at : c.write_cursor ≡ wire_size * (length past + length todo)

pub bytes-length : (f : EnvFrame) → length (bytes f) ≡ wire_size
unfolding bytes
bytes-length f = refl

pub image-length : (fs : List EnvFrame) → length (image fs) ≡ wire_size * length fs
image-length [] = refl
image-length (f ∷ fs) =
    omega (arith, length-append (bytes f) (image fs), bytes-length f, image-length fs)

pub image-append : (fs gs : List EnvFrame) → image (fs ++ gs) ≡ image fs ++ image gs
image-append [] gs = refl
image-append (f ∷ fs) gs =
    ap (λ xs. bytes f ++ xs) (image-append fs gs)
    ∙ sym (append_assoc (bytes f) (image fs) (image gs))

-- The answers before the first failure.
abbrev pub successes : List Status → ℕ
successes [] = 0
successes (a ∷ answers) = let rest = successes answers in if is_ok a then suc rest else 0

abbrev pub as_retry : EnvFrame → EnvFrame
as_retry f = record f { frame_type = frame_retry }

module _ (c : Cache) (past todo : List EnvFrame) (f : EnvFrame) (h : Cached c past (f ∷ todo))
    (at_read : c.offset ≡ c.read_cursor) where
  frame_bytes : take wire_size (drop c.offset c.file) ≡ bytes f
  frame_bytes =
      ap₂ (λ n xs. take wire_size (drop n xs)) (at_read ∙ h.read_at ∙ sym (image-length past))
        h.file_is
      ∙ ap (take wire_size) (drop-append (image past) (image (f ∷ todo)))
      ∙ ap (λ n. take n (bytes f ++ image todo)) (sym (bytes-length f))
      ∙ take-append (bytes f) (image todo)

  pub read_frame_lem : IsFrame f → read_frame c ≡ some f
  read_frame_lem v = rw (frame_bytes, bytes-length f) (ap some (of_bytes-bytes f v))

  pub frame_size : length (take wire_size (drop c.offset c.file)) ≡ wire_size
  frame_size = ap length frame_bytes ∙ bytes-length f

  -- The cache after the frame was sent.
  abbrev pub advanced : Cache
  advanced = record c {
    offset = c.offset + wire_size;
    read_cursor = c.read_cursor + wire_size;
    saved = some (c.read_cursor + wire_size);
  }

  pub advanced-Cached : Cached advanced (past ++ (f ∷ [])) todo
  advanced-Cached = record {
    opened = h.opened;
    file_is =
        h.file_is
        ∙ sym (append_assoc (image past) (bytes f) (image todo))
        ∙ ap (λ xs. xs ++ image todo)
            (sym (image-append past (f ∷ []) ∙ ap (λ xs. image past ++ xs) (append-nil (bytes f))));
    read_at = omega (arith, h.read_at, length-append past (f ∷ []));
    write_at = omega (arith, h.write_at, length-append past (f ∷ []));
  }

module _ (fuel : ℕ) (c : Cache) (a : Status) (answers : List Status) where
  turn_done :
      leb c.write_cursor c.read_cursor ≡ true → replay_loop (suc fuel) c (a ∷ answers) ≡ ([], c)
  unfolding replay_loop
  turn_done h = rw h

  pub turn_failed :
      (f : EnvFrame)
      → leb c.write_cursor c.read_cursor ≡ false
      → read_frame c ≡ some f
      → is_ok a ≡ false
      → replay_loop (suc fuel) c (a ∷ answers) ≡ ([], after_read c)
  unfolding replay_loop
  turn_failed f h r e = rw (h, r, e)

  turn_sent :
      (f : EnvFrame)
      → leb c.write_cursor c.read_cursor ≡ false
      → read_frame c ≡ some f
      → is_ok a ≡ true
      → let next = record (after_read c) {
        read_cursor = c.read_cursor + wire_size;
        saved = some (c.read_cursor + wire_size);
      } in
        let (sent, end) = replay_loop fuel next answers in
        replay_loop (suc fuel) c (a ∷ answers) ≡ (as_retry f ∷ sent, end)
  unfolding replay_loop
  turn_sent f h r e = rw (h, r, e)

-- What a replay gives: the frames sent, and the cache that is left.
pub record Replayed (past todo : List EnvFrame) (n : ℕ) (r : List EnvFrame × Cache) : Type 0 where
  pub sent_are : r.0 ≡ map as_retry (take n todo)
  pub left_is : Cached r.1 (past ++ take n todo) (drop n todo)

nothing-Replayed :
    (c : Cache) (past todo : List EnvFrame) (n : ℕ)
    → (take n todo ≡ [])
    → drop n todo ≡ todo
    → Cached c past todo
    → Replayed past todo n ([], c)
nothing-Replayed c past todo n none_taken all_left h = record {
  sent_are = sym (ap (map as_retry) none_taken);
  left_is = rw (none_taken, all_left, append-nil past) h;
}

moved-Cached :
    (c : Cache) (past todo : List EnvFrame) (n : ℕ)
    → Cached c past todo
    → Cached (record c { offset = n }) past todo
moved-Cached c past todo n h = record {
  opened = h.opened;
  file_is = h.file_is;
  read_at = h.read_at;
  write_at = h.write_at;
}

take-nil : (n : ℕ) → take {A = EnvFrame} n [] ≡ []
take-nil zero = refl
take-nil (suc n) = refl

drop-nil : (n : ℕ) → drop {A = EnvFrame} n [] ≡ []
drop-nil zero = refl
drop-nil (suc n) = refl

loop_idle :
    (fuel : ℕ) (c : Cache) (past : List EnvFrame) (answers : List Status)
    → Cached c past []
    → replay_loop fuel c answers ≡ ([], c)
unfolding replay_loop
loop_idle zero c past answers h = refl
loop_idle (suc fuel) c past [] h = refl
loop_idle (suc fuel) c past (a ∷ answers) h =
    turn_done fuel c a answers (ground (arith, h.read_at, h.write_at))

loop-Replayed :
    (fuel : ℕ) (c : Cache) (past todo : List EnvFrame) (answers : List Status)
    → Cached c past todo
    → c.offset ≡ c.read_cursor
    → AllFrames todo
    → length todo ≤ fuel
    → Replayed past todo (successes answers) (replay_loop fuel c answers)
unfolding replay_loop
loop-Replayed fuel c past [] answers h at_read all enough = rw (loop_idle fuel c past answers h) (
    nothing-Replayed c past [] (successes answers) (take-nil (successes answers))
      (drop-nil (successes answers)) h)
loop-Replayed zero c past (f ∷ todo) answers h at_read all enough = absurd (omega arith)
loop-Replayed (suc fuel) c past (f ∷ todo) [] h at_read all enough =
    nothing-Replayed c past (f ∷ todo) 0 refl refl h
loop-Replayed (suc fuel) c past (f ∷ todo) (a ∷ answers) h at_read (one_more _ v all) enough =
    elim (Bool-cases (is_ok a)) [
      | inr failed ↦
          rw (turn_failed fuel c a answers f some_left found failed, failed)
            (nothing-Replayed _ past (f ∷ todo) 0 refl refl (moved-Cached c past (f ∷ todo) _ h))
      | inl good ↦
          let r =
            loop-Replayed fuel (advanced c past todo f h at_read) (past ++ (f ∷ [])) todo answers
              (advanced-Cached c past todo f h at_read) (omega arith) all (omega arith) in
          rw
            (
              turn_sent fuel c a answers f some_left found good,
              good,
              frame_size c past todo f h at_read,
            )
            (record {
              sent_are = ap (λ fs. as_retry f ∷ fs) r.sent_are;
              left_is =
                  rw (append_assoc past (f ∷ []) (take (successes answers) todo)) at r.left_is;
            })
    ]
  where
    some_left : leb c.write_cursor c.read_cursor ≡ false
    some_left = ground (arith, h.read_at, h.write_at)

    found : read_frame c ≡ some f
    found = read_frame_lem c past todo f h at_read v

replay_starts :
    (c : Cache) (answers : List Status)
    → c.is_open ≡ true
    → leb c.write_cursor c.read_cursor ≡ false
    → cache_replay_start c answers
      ≡ replay_loop (c.write_cursor - c.read_cursor) (record c { offset = c.read_cursor }) answers
unfolding cache_replay_start
replay_starts c answers opened some_left = rw (opened, some_left)

replay_idle :
    (c : Cache) (answers : List Status)
    → c.is_open ≡ true
    → leb c.write_cursor c.read_cursor ≡ true
    → cache_replay_start c answers ≡ ([], c)
unfolding cache_replay_start
replay_idle c answers opened none_left = rw (opened, none_left)

-- A replay of frames whose fields fit sends those that are still to do from the first one on, in
-- order, each marked as a retry, up to the first that the sender refuses; what is left to do is
-- then exactly the frames that were not sent.
pub cache_replay_start-Replayed :
    (c : Cache) (past todo : List EnvFrame) (answers : List Status)
    → Cached c past todo
    → AllFrames todo
    → Replayed past todo (successes answers) (cache_replay_start c answers)
cache_replay_start-Replayed c past [] answers h all =
    rw (replay_idle c answers h.opened (ground (arith, h.read_at, h.write_at))) (
      nothing-Replayed c past [] (successes answers) (take-nil (successes answers))
        (drop-nil (successes answers)) h)
cache_replay_start-Replayed c past (f ∷ todo) answers h all =
    rw (replay_starts c answers h.opened (ground (arith, h.read_at, h.write_at))) (
      loop-Replayed (c.write_cursor - c.read_cursor) (record c { offset = c.read_cursor }) past
        (f ∷ todo) answers (moved-Cached c past (f ∷ todo) c.read_cursor h) refl all
        (omega (arith, h.read_at, h.write_at)))

-- A replay whose first send fails.
pub replay_refused :
    (c : Cache) (past todo : List EnvFrame) (f : EnvFrame) (a : Status) (answers : List Status)
    → Cached c past (f ∷ todo)
    → IsFrame f
    → is_ok a ≡ false
    → cache_replay_start c (a ∷ answers) ≡ ([], record c { offset = c.read_cursor + wire_size })
replay_refused c past todo f a answers h v refused =
    replay_starts c (a ∷ answers) h.opened some_left
    ∙ ap (λ n. replay_loop n c' (a ∷ answers)) more_than_none
    ∙ turn_failed (c.write_cursor - c.read_cursor - 1) c' a answers f some_left
        (read_frame_lem c' past todo f h' refl v) refused
    ∙ ap (λ n. ([], record c { offset = c.read_cursor + n })) (frame_size c' past todo f h' refl)
  where
    c' : Cache
    c' = record c { offset = c.read_cursor }

    h' : Cached c' past (f ∷ todo)
    h' = moved-Cached c past (f ∷ todo) c.read_cursor h

    some_left : leb c.write_cursor c.read_cursor ≡ false
    some_left = ground (arith, h.read_at, h.write_at)

    more_than_none : c.write_cursor - c.read_cursor ≡ suc (c.write_cursor - c.read_cursor - 1)
    more_than_none = omega (arith, h.read_at, h.write_at)
