-- ===== src/Bridge.antt =====
-- tools/cloud_bridge.c: the Base64 code of the credentials, the cutting of the collector's stream, and
-- what is counted and uploaded for a frame.
use io_t_collector.Base.{
  ℕ, zero, suc, ◌+◌, ◌-◌, ◌*◌, ◌/◌, ◌%◌, ◌^◌, Bool, true, false, not, if◌then◌else◌, ltb, leb, ◌==◌,
  Option, none, some, List, [], ◌∷◌, ◌++◌, length, take, drop,
}
use io_t_collector.Base.Words.{u64, sub64}
use io_t_collector.Status.{Result, done, fail}
use io_t_collector.Frame.{EnvFrame, frame_heart, wire_size}
use io_t_collector.Proto.{frame_magic_ok, frame_decode}
pub mod Base64
pub mod Frames

-- `tbl[v]`: A to Z, a to z, 0 to 9, + and /.
unfoldable pub b64_char : ℕ → ℕ
b64_char v =
    if ltb v 26
    then 65 + v
    else if ltb v 52
    then 97 + (v - 26)
    else if ltb v 62
    then 48 + (v - 52)
    else if v == 62
    then 43
    else 47

-- `=`.
abbrev pub pad : ℕ
pad = 61

-- The three bytes in one number; their bits do not overlap.
abbrev pub packed : ℕ → ℕ → ℕ → ℕ
packed b0 b1 b2 = b0 * 2 ^ 16 + b1 * 2 ^ 8 + b2

-- `tbl[(v >> n) & 63]`, where `s` is 2 to the `n`.
abbrev pub digit : ℕ → ℕ → ℕ
digit v s = b64_char (v / s % 64)

abbrev prepend : List ℕ → Option (List ℕ) → Option (List ℕ)
prepend cs none = none
prepend cs (some out) = some (cs ++ out)

-- The loop from the offset `o` of the output; `none` is the return value -1. The final 0 is left out.
unfoldable pub b64_encode : List ℕ → ℕ → ℕ → Option (List ℕ)
b64_encode [] o out_cap = some []
b64_encode (b0 ∷ []) o out_cap =
    let v = packed b0 0 0 in
    if leb out_cap (o + 4)
    then none
    else some (digit v (2 ^ 18) ∷ digit v (2 ^ 12) ∷ pad ∷ pad ∷ [])
b64_encode (b0 ∷ b1 ∷ []) o out_cap =
    let v = packed b0 b1 0 in
    if leb out_cap (o + 4)
    then none
    else some (digit v (2 ^ 18) ∷ digit v (2 ^ 12) ∷ digit v (2 ^ 6) ∷ pad ∷ [])
b64_encode (b0 ∷ b1 ∷ b2 ∷ more) o out_cap =
    let v = packed b0 b1 b2 in
    let rest = b64_encode more (o + 4) out_cap in
    if leb out_cap (o + 4)
    then none
    else prepend (digit v (2 ^ 18) ∷ digit v (2 ^ 12) ∷ digit v (2 ^ 6) ∷ digit v 1 ∷ []) rest

-- The counters of the program.
pub record Counters : Type 0 where
  pub frames : ℕ
  pub hearts : ℕ
  pub upload_ok : ℕ
  pub upload_fail : ℕ
  pub decode_fail : ℕ

-- A sensor of the configuration: whether it is enabled, and whether its field is one of a frame.
pub record CloudSensor : Type 0 where
  pub enabled : Bool
  pub known_field : Bool

-- The loop over the sensors; the list is the answers of `http_upload_one`, which fails without one.
unfoldable pub upload_all : List CloudSensor → List Bool → Counters → Counters
upload_all [] answers c = c
upload_all (s ∷ sensors) [] c =
    let skipped = upload_all sensors [] c in
    let failed = upload_all sensors [] (record c { upload_fail = u64 (c.upload_fail + 1) }) in
    if not s.enabled then skipped else if not s.known_field then skipped else failed
upload_all (s ∷ sensors) (good ∷ answers) c =
    let skipped = upload_all sensors (good ∷ answers) c in
    let sent = upload_all sensors answers (record c { upload_ok = u64 (c.upload_ok + 1) }) in
    let failed = upload_all sensors answers (record c { upload_fail = u64 (c.upload_fail + 1) }) in
    if not s.enabled
    then skipped
    else if not s.known_field
    then skipped
    else if good
    then sent
    else failed

unfoldable pub handle_frame : Bool → List CloudSensor → List Bool → Counters → EnvFrame → Counters
handle_frame dry_run sensors answers c f =
    let counted = record c { frames = u64 (c.frames + 1) } in
    if f.frame_type == frame_heart
    then record c { hearts = u64 (c.hearts + 1) }
    else if dry_run
    then counted
    else upload_all sensors answers counted

-- `sizeof st->buf` of `stream_t`.
abbrev pub bridge_size : ℕ
bridge_size = 224

-- A turn of the loop that fills the buffer, whose bytes in use are the first list; the second is the
-- input that is left.
unfoldable pub fill_step : List ℕ → List ℕ → List ℕ × List ℕ
fill_step buf input =
    let room = sub64 bridge_size (length buf) in
    let n = if ltb (length input) room then length input else room in
    if n == 0 then (drop 1 buf, input) else (buf ++ take n input, drop n input)

unfoldable pub fill : ℕ → List ℕ → List ℕ → List ℕ
fill zero buf input = buf
fill (suc fuel) buf [] = buf
fill (suc fuel) buf (d ∷ input) =
    let (buf', rest) = fill_step buf (d ∷ input) in fill fuel buf' rest

abbrev decoded_or_none : Result EnvFrame → Option EnvFrame
decoded_or_none (done f) = some f
decoded_or_none (fail _) = none

-- The frame at the front of the buffer, if it starts with one.
unfoldable pub front_frame : List ℕ → Option EnvFrame
front_frame buf =
    if not (frame_magic_ok (take wire_size buf))
    then none
    else decoded_or_none (frame_decode (take wire_size buf))

-- The frames handed to `handle_frame`, the bytes counted in `g_decode_fail`, and the bytes kept.
pub record Cut : Type 0 where
  pub frames : List EnvFrame
  pub bad : ℕ
  pub kept : List ℕ

-- A turn of the loop that cuts frames, with what its other turns give for the bytes that it leaves.
abbrev pub cut_turn : Option EnvFrame → List ℕ → (List ℕ → Cut) → Cut
cut_turn none buf later = let c = later (drop 1 buf) in record c { bad = c.bad + 1 }
cut_turn (some f) buf later =
    let c = later (drop wire_size buf) in record c { frames = f ∷ c.frames }

unfoldable pub cut_frames : ℕ → List ℕ → Cut
cut_frames zero buf = record { frames = []; bad = 0; kept = buf }
cut_frames (suc fuel) buf =
    let more = cut_turn (front_frame buf) buf (cut_frames fuel) in
    if ltb (length buf) wire_size then record { frames = []; bad = 0; kept = buf } else more

-- The answers of the uploads for each frame in turn.
unfoldable pub handle_all :
    Bool → List CloudSensor → (ℕ → List Bool) → ℕ → Counters → List EnvFrame → Counters
handle_all dry_run sensors answers i c [] = c
handle_all dry_run sensors answers i c (f ∷ fs) =
    handle_all dry_run sensors answers (i + 1) (handle_frame dry_run sensors (answers i) c f) fs

-- The bytes kept and the counters after `stream_feed`.
unfoldable pub stream_feed :
    Bool → List CloudSensor → (ℕ → List Bool) → List ℕ → Counters → List ℕ → List ℕ × Counters
stream_feed dry_run sensors answers buf c input =
    let filled = fill (2 * length input + length buf) buf input in
    let t = cut_frames (length filled) filled in
    (
      t.kept,
      handle_all dry_run sensors answers 0 (record c { decode_fail = u64 (c.decode_fail + t.bad) })
          t.frames,
    )
