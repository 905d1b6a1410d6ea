-- ===== src/Cache/Overwrite.antt =====
-- `cache_writer_append`: at the end of the file, and at the offset that a replay leaves.
use io_t_collector.Base.{
  ℕ, zero, suc, ◌+◌, ◌-◌, ◌≤◌, ◌≡◌, refl, sym, ap, ap₂, ◌∙◌, arith, true, false, List, [], ◌∷◌,
  ◌++◌, append-nil, append_assoc, length, take, drop, replicate, length-append, take-append,
  drop-append,
}
use io_t_collector.Status.{Status, is_ok, ok}
use io_t_collector.Frame.{EnvFrame, IsFrame, bytes, wire_size}
use io_t_collector.Cache.{Cache, written, cache_writer_append, cache_replay_start}
use io_t_collector.Cache.Replay.{
  image, Cached, bytes-length, image-length, image-append, replay_refused,
}

-- A write of a whole frame.
append-eq :
    (c : Cache) (f : EnvFrame)
    → c.is_open ≡ true
    → cache_writer_append c f wire_size ≡ (
      ok,
      record c {
        write_cursor = c.write_cursor + wire_size;
        file = written c.file c.offset (bytes f);
        offset = c.offset + wire_size;
      },
    )
unfolding cache_writer_append bytes
append-eq c f h = rw h

-- `written` between two parts of the file.
written_between :
    (front old back bs : List ℕ)
    → length bs ≡ length old
    → written (front ++ (old ++ back)) (length front) bs ≡ front ++ (bs ++ back)
written_between front old back bs same =
    ap₂ (λ xs ys. xs ++ (bs ++ ys))
      (ap (λ n. take (length front) (whole ++ replicate n 0)) no_gap
        ∙ ap (take (length front)) (append_assoc front (old ++ back) [])
        ∙ take-append front ((old ++ back) ++ []))
      (ap₂ (λ n xs. drop n xs) (omega (arith, length-append front old))
          (sym (append_assoc front old back))
        ∙ drop-append (front ++ old) back)
  where
    whole : List ℕ
    whole = front ++ (old ++ back)

    no_gap : length front - length whole ≡ 0
    no_gap = omega (arith, length-append front (old ++ back))

drop_past : (n : ℕ) (xs : List ℕ) → length xs ≤ n → drop n xs ≡ []
drop_past zero [] h = refl
drop_past zero (x ∷ xs) h = absurd (omega arith)
drop_past (suc n) [] h = refl
drop_past (suc n) (x ∷ xs) h = drop_past n xs (omega arith)

written_end : (front bs : List ℕ) → written front (length front) bs ≡ front ++ bs
written_end front bs =
    ap₂ (λ xs ys. xs ++ (bs ++ ys))
      (ap (λ n. take (length front) (front ++ replicate n 0)) no_gap ∙ take-append front [])
      (drop_past (length front + length bs) front (omega arith))
    ∙ ap (λ xs. front ++ xs) (append-nil bs)
  where
    no_gap : length front - length front ≡ 0
    no_gap = omega arith

-- A frame appended with the offset at the end of the file is the last frame to do, and the offset is
-- at the end again.
pub cache_writer_append-Cached :
    (c : Cache) (past todo : List EnvFrame) (f : EnvFrame)
    → Cached c past todo
    → c.offset ≡ length c.file
    → let (rc, c') = cache_writer_append c f wire_size in
      (rc ≡ ok) × Cached c' past (todo ++ (f ∷ [])) × (c'.offset ≡ length c'.file)
cache_writer_append-Cached c past todo f h at_end = rw (append-eq c f h.opened) (
  refl,
  record {
    opened = h.opened;
    file_is =
        file
        ∙ append_assoc (image past) (image todo) (bytes f)
        ∙ ap (λ xs. image past ++ xs)
            (sym (image-append todo (f ∷ []) ∙ ap (λ xs. image todo ++ xs) (append-nil (bytes f))));
    read_at = h.read_at;
    write_at = omega (arith, h.write_at, length-append todo (f ∷ []));
  },
  omega (
    arith,
    at_end,
    ap length file,
    length-append (image past ++ image todo) (bytes f),
    ap length h.file_is,
    bytes-length f,
  ),
)
  where
    at_end' : c.offset ≡ length (image past ++ image todo)
    at_end' = at_end ∙ ap length h.file_is

    file : written c.file c.offset (bytes f) ≡ (image past ++ image todo) ++ bytes f
    file =
        ap₂ (λ n xs. written xs n (bytes f)) at_end' h.file_is
        ∙ written_end (image past ++ image todo) (bytes f)

-- A replay whose first send fails leaves the offset behind the frame it read, and the next append then
-- succeeds but writes its frame over the second frame that was still to do: that frame is gone, and
-- `write_cursor` counts a frame more than the file has.
pub cache_writer_append_overwrites :
    (c : Cache) (past todo : List EnvFrame) (f g h : EnvFrame) (a : Status) (answers : List Status)
    → Cached c past (f ∷ g ∷ todo)
    → IsFrame f
    → is_ok a ≡ false
    → let left = (cache_replay_start c (a ∷ answers)).1 in
      let (rc, c') = cache_writer_append left h wire_size in
      (rc ≡ ok)
      × (c'.file ≡ image past ++ image (f ∷ h ∷ todo))
      × (c'.write_cursor ≡ length c'.file + wire_size)
cache_writer_append_overwrites c past todo f g h a answers v ok_f refused =
    rw
      (
        replay_refused c past (g ∷ todo) f a answers v ok_f refused,
        append-eq (record c { offset = c.read_cursor + wire_size }) h v.opened,
      )
      (
        refl,
        file,
        omega (
          arith,
          v.write_at,
          ap length file,
          length-append (image past) (image (f ∷ h ∷ todo)),
          image-length past,
          image-length (f ∷ h ∷ todo),
        ),
      )
  where
    front : List ℕ
    front = image past ++ bytes f

    behind : c.read_cursor + wire_size ≡ length front
    behind =
        omega (
          arith,
          v.read_at,
          length-append (image past) (bytes f),
          image-length past,
          bytes-length f,
        )

    file : written c.file (c.read_cursor + wire_size) (bytes h) ≡ image past ++ image (f ∷ h ∷ todo)
    file =
        ap₂ (λ n xs. written xs n (bytes h)) behind
          (v.file_is ∙ sym (append_assoc (image past) (bytes f) (image (g ∷ todo))))
        ∙ written_between front (bytes g) (image todo) (bytes h)
            (bytes-length h ∙ sym (bytes-length g))
        ∙ append_assoc (image past) (bytes f) (image (h ∷ todo))
