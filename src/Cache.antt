-- ===== src/Cache.antt =====
-- egress/cache_writer.c: the file that keeps frames while the uplink is down.
use io_t_collector.Base.{
  ℕ, zero, suc, ◌+◌, ◌-◌, ◌/◌, Bool, true, false, not, if◌then◌else◌, ltb, leb, ◌==◌, Option, none,
  some, List, [], ◌∷◌, ◌++◌, length, take, drop, replicate,
}
use io_t_collector.Status.{Status, is_ok, ok, err_generic, err_io}
use io_t_collector.Frame.{EnvFrame, bytes, of_bytes, wire_size, frame_retry}
pub mod Replay
pub mod Overwrite
pub mod Cursor

-- `cache_fd`, the two cursors, the bytes of the file and the offset that the kernel keeps for
-- `cache_fd`; `saved` is what the last `save_cursor` wrote.
pub record Cache : Type 0 where
  pub is_open : Bool
  pub write_cursor : ℕ
  pub read_cursor : ℕ
  pub file : List ℕ
  pub offset : ℕ
  pub saved : Option ℕ

-- `opened` is what `open` finds in the file, `cursor` what `fread` finds in the file of the cursor.
unfoldable pub cache_writer_open : Cache → Option (List ℕ) → Option ℕ → Status × Cache
cache_writer_open c opened cursor = elim opened [
  | none ↦ (err_io, record c { is_open = false })
  | some file ↦ (
    ok,
    record {
      is_open = true;
      write_cursor = length file;
      read_cursor = elim cursor [ some n ↦ n | none ↦ 0 ];
      file = file;
      offset = length file;
      saved = c.saved;
    },
  )
]

-- `write` at the offset, over what stands there; a gap past the end reads as zeros.
abbrev pub written : List ℕ → ℕ → List ℕ → List ℕ
written file offset bs =
    take offset (file ++ replicate (offset - length file) 0)
    ++ (bs ++ drop (offset + length bs) file)

-- `w` is the number of bytes that `write` takes, 0 if it fails.
unfoldable pub cache_writer_append : Cache → EnvFrame → ℕ → Status × Cache
cache_writer_append c frame w =
    if not c.is_open
    then (err_io, c)
    else (let bs = take w (bytes frame) in
        let c' = record c { file = written c.file c.offset bs; offset = c.offset + length bs } in
        if w == wire_size
        then (ok, record c' { write_cursor = c.write_cursor + wire_size })
        else (err_io, c'))

-- `synced` is the answer of `fsync`.
unfoldable pub cache_writer_flush : Cache → Bool → Status
cache_writer_flush c synced = if not c.is_open then err_io else if synced then ok else err_io

unfoldable pub cache_writer_close : Cache → Cache
cache_writer_close c = record c { is_open = false }

-- The frame that a turn of the loop reads, if the file has all its bytes.
abbrev pub read_frame : Cache → Option EnvFrame
read_frame c =
    let bs = take wire_size (drop c.offset c.file) in
    if length bs == wire_size then some (of_bytes bs) else none

abbrev pub after_read : Cache → Cache
after_read c = record c { offset = c.offset + length (take wire_size (drop c.offset c.file)) }

-- The loop of `cache_replay_start`, of at most `fuel` turns: the frames that were sent, and the cache.
-- `answers` are what `unicast_sender_send_with_bucket` answers to one frame after another.
unfoldable pub replay_loop : ℕ → Cache → List Status → List EnvFrame × Cache
replay_loop zero c answers = ([], c)
replay_loop (suc fuel) c [] = ([], c)
replay_loop (suc fuel) c (answer ∷ answers) =
    let c' = after_read c in
    let (sent, end) =
      replay_loop fuel
        (record c' {
          read_cursor = c.read_cursor + wire_size;
          saved = some (c.read_cursor + wire_size);
        })
        answers in
    if leb c.write_cursor c.read_cursor then ([], c) else elim (read_frame c) [
      | none ↦ ([], c')
      | some frm ↦
          if is_ok answer then (record frm { frame_type = frame_retry } ∷ sent, end) else ([], c')
    ]

unfoldable pub cache_replay_start : Cache → List Status → List EnvFrame × Cache
cache_replay_start c answers =
    if not c.is_open
    then ([], c)
    else if leb c.write_cursor c.read_cursor
    then ([], c)
    else replay_loop (c.write_cursor - c.read_cursor) (record c { offset = c.read_cursor }) answers

unfoldable pub cache_pending_frames : Cache → ℕ
cache_pending_frames c =
    if ltb c.read_cursor c.write_cursor then (c.write_cursor - c.read_cursor) / wire_size else 0
