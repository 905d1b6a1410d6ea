-- ===== src/Proto/Codec.antt =====
-- `frame_encode` and `frame_decode`, and a frame of which one byte changes.
use io_t_collector.Base.{
  ℕ, ◌+◌, ◌*◌, ◌^◌, ◌<◌, ◌≤◌, ◌≡◌, ◌≢◌, refl, sym, ap, ◌∙◌, List, arith, ◌==◌, if◌then◌else◌,
  length, set, get_or, take, length-take, take-set, set_past_end, get_or-set_self, get_or-set_ne,
  get_or-take,
}
use native.Mathlib.Decide.{dec_lt}
use io_t_collector.Base.Words.{htons}
use io_t_collector.Status.{done, done-injective}
use io_t_collector.Frame.{
  EnvFrame, IsFrame, bytes, of_bytes, frame_magic_0, frame_magic_1, wire_size, crc_size, low, high,
}
use io_t_collector.Proto.{
  crc16_ccitt, frame_hton, frame_ntoh, frame_magic_ok, frame_crc, frame_crc_ok, frame_fill_crc,
  frame_encode, frame_decode,
}
use io_t_collector.Proto.Crc.{crc16_ccitt-set, crc16_ccitt-lt}
use io_t_collector.Proto.Layout.{
  AllBytes, of_bytes-bytes, htons_twice, take-bytes-of_bytes, byte_at, bytes-AllBytes,
  frame_hton-frame_ntoh, of_bytes-IsFrame, bytes-of_bytes, AllBytes-set, AllBytes-take,
}

-- The checksum that the wire carries in its last two bytes.
abbrev wire_crc : List ℕ → ℕ
wire_crc buf = htons (get_or buf 26 0 + 256 * get_or buf 27 0)

-- What `frame_decode` asks of a buffer.
pub record Accepts (buf : List ℕ) : Type 0 where
  pub long : wire_size ≤ length buf
  pub first : get_or buf 0 0 ≡ frame_magic_0
  pub second : get_or buf 1 0 ≡ frame_magic_1
  pub checked : crc16_ccitt (take crc_size buf) ≡ wire_crc buf

frame_crc-of_bytes :
    (buf : List ℕ)
    → AllBytes buf
    → wire_size ≤ length buf
    → frame_crc (of_bytes buf) ≡ crc16_ccitt (take crc_size buf)
unfolding frame_crc
frame_crc-of_bytes buf all long = ap (λ m. crc16_ccitt m) (take-bytes-of_bytes buf 0 all long)

decode-Accepts :
    (buf : List ℕ) {f : EnvFrame} → AllBytes buf → frame_decode buf ≡ done f → Accepts buf
unfolding frame_decode frame_magic_ok frame_crc_ok of_bytes
decode-Accepts buf all e = ground (arith, frame_crc-of_bytes buf all)

Accepts-decode :
    (buf : List ℕ)
    → AllBytes buf
    → Accepts buf
    → frame_decode buf ≡ done (frame_ntoh (of_bytes buf))
unfolding frame_decode frame_magic_ok frame_crc_ok of_bytes
Accepts-decode buf all a = ground (arith, frame_crc-of_bytes buf all)

-- The frame with the constant header fields that `frame_encode` sets.
unfoldable pub stamp : EnvFrame → EnvFrame
stamp f = record f {
  magic_0 = frame_magic_0;
  magic_1 = frame_magic_1;
  version = if f.version == 0 then 1 else f.version;
}

-- The frame that the receiver of `f` sees: `crc16` is left as the wire carries it.
unfoldable pub as_received : EnvFrame → EnvFrame
unfolding stamp
as_received f = record (stamp f) { crc16 = (frame_fill_crc (stamp (frame_hton f))).crc16 }

on_wire-IsFrame : (f : EnvFrame) → IsFrame f → IsFrame (frame_fill_crc (stamp (frame_hton f)))
unfolding stamp frame_fill_crc frame_hton
on_wire-IsFrame f v = ground arith

checksum_on_wire : (x : ℕ) → x < 2 ^ 16 → x ≡ htons (low (htons x) + 256 * high (htons x))
checksum_on_wire x h = omega arith

frame_crc-lt : (f : EnvFrame) → frame_crc f < 2 ^ 16
unfolding frame_crc
frame_crc-lt f =
    let m = bytes (record f { crc16 = 0 }) in
    crc16_ccitt-lt (take crc_size m)
      (AllBytes-take crc_size m (bytes-AllBytes (record f { crc16 = 0 })))

fill_crc-checked :
    (f : EnvFrame)
    → crc16_ccitt (take crc_size (bytes (frame_fill_crc f))) ≡ wire_crc (bytes (frame_fill_crc f))
unfolding bytes frame_fill_crc frame_crc
fill_crc-checked f = checksum_on_wire (frame_crc f) (frame_crc-lt f)

wire-Accepts : (f : EnvFrame) → IsFrame f → Accepts (bytes (frame_fill_crc (stamp (frame_hton f))))
unfolding bytes frame_fill_crc stamp
wire-Accepts f v = record {
  long = omega arith;
  first = refl;
  second = refl;
  checked = fill_crc-checked (stamp (frame_hton f));
}

ntoh_wire :
    (f : EnvFrame) → IsFrame f → frame_ntoh (frame_fill_crc (stamp (frame_hton f))) ≡ as_received f
unfolding as_received frame_fill_crc frame_ntoh frame_hton
ntoh_wire f v = ground arith

-- A frame whose fields fit their types, encoded after `frame_hton` into 28 bytes or more, decodes
-- to the same fields, with the header constants set and the checksum as the wire carries it.
pub frame_decode-frame_encode :
    (f : EnvFrame) (n : ℕ)
    → IsFrame f
    → wire_size ≤ n
    → (wire : List ℕ) × (frame_encode (frame_hton f) n ≡ done wire)
      × (frame_decode wire ≡ done (as_received f))
unfolding frame_encode stamp
frame_decode-frame_encode f n v room = (
  bytes (frame_fill_crc (stamp (frame_hton f))),
  ground arith,
  Accepts-decode (bytes (frame_fill_crc (stamp (frame_hton f)))) (bytes-AllBytes _)
        (wire-Accepts f v)
      ∙ ap (λ g. done (frame_ntoh g))
          (of_bytes-bytes (frame_fill_crc (stamp (frame_hton f))) (on_wire-IsFrame f v))
      ∙ ap (λ g. done g) (ntoh_wire f v),
)

fill_crc_same : (f : EnvFrame) → IsFrame f → frame_crc f ≡ htons f.crc16 → frame_fill_crc f ≡ f
unfolding frame_fill_crc
fill_crc_same f v e =
    let back : htons (frame_crc f) ≡ f.crc16 =
      ap (λ x. htons x) e ∙ htons_twice f.crc16 v.crc16_fits in
    ground arith

stamp_same :
    (f : EnvFrame)
    → f.magic_0 ≡ frame_magic_0
    → f.magic_1 ≡ frame_magic_1
    → f.version ≢ 0
    → stamp f ≡ f
unfolding stamp
stamp_same f a b c = ground arith

encode_stamped :
    (f : EnvFrame) (n : ℕ)
    → wire_size ≤ n
    → frame_encode f n ≡ done (bytes (frame_fill_crc (stamp f)))
unfolding frame_encode stamp
encode_stamped f n room = ground arith

version-ntoh : (f : EnvFrame) → (frame_ntoh f).version ≡ f.version
unfolding frame_ntoh
version-ntoh f = refl

magic_of_bytes :
    (buf : List ℕ)
    → Accepts buf
    → ((of_bytes buf).magic_0 ≡ frame_magic_0) × ((of_bytes buf).magic_1 ≡ frame_magic_1)
unfolding of_bytes
magic_of_bytes buf a = (a.first, a.second)

crc_of_bytes :
    (buf : List ℕ)
    → AllBytes buf
    → Accepts buf
    → frame_crc (of_bytes buf) ≡ htons (of_bytes buf).crc16
unfolding of_bytes
crc_of_bytes buf all a = frame_crc-of_bytes buf all a.long ∙ a.checked

-- Re-encoding what `frame_decode` gave for a buffer gives the frame's bytes back, unless the
-- version is 0, which `frame_encode` replaces.
pub frame_encode-frame_decode :
    (buf : List ℕ) (n : ℕ) (f : EnvFrame)
    → AllBytes buf
    → wire_size ≤ n
    → frame_decode buf ≡ done f
    → f.version ≢ 0
    → frame_encode (frame_hton f) n ≡ done (take wire_size buf)
frame_encode-frame_decode buf n f all room e versioned =
    encode_stamped (frame_hton f) n room
    ∙ ap (λ g. done (bytes g)) same
    ∙ ap (λ m. done m) (bytes-of_bytes buf all a.long)
  where
    a : Accepts buf
    a = decode-Accepts buf all e

    w : EnvFrame
    w = of_bytes buf

    f_eq : f ≡ frame_ntoh w
    f_eq = done-injective (sym e ∙ Accepts-decode buf all a)

    hton_f : frame_hton f ≡ w
    hton_f = ap (λ g. frame_hton g) f_eq ∙ frame_hton-frame_ntoh w (of_bytes-IsFrame buf all)

    w_version : w.version ≢ 0
    w_version = λ z. versioned (ap (λ g. g.version) f_eq ∙ version-ntoh w ∙ z)

    same : frame_fill_crc (stamp (frame_hton f)) ≡ w
    same = rw hton_f (
        rw (stamp_same w (magic_of_bytes buf a).0 (magic_of_bytes buf a).1 w_version)
          (fill_crc_same w (of_bytes-IsFrame buf all) (crc_of_bytes buf all a)))

wire_crc-injective :
    (a b c d : ℕ)
    → a < 256
    → b < 256
    → c < 256
    → d < 256
    → htons (a + 256 * b) ≡ htons (c + 256 * d)
    → (a ≡ c) × (b ≡ d)
wire_crc-injective a b c d ha hb hc hd e = omega arith

-- A change of a byte that the checksum covers.
damaged_body :
    (buf : List ℕ) (i v : ℕ)
    → AllBytes buf
    → v < 256
    → i < crc_size
    → v ≢ get_or buf i 0
    → Accepts buf
    → ¬ Accepts (set buf i v)
damaged_body buf i v all small covered ne old new =
    crc16_ccitt-set (take crc_size buf) i v (AllBytes-take crc_size buf all) small
      (omega (arith, length-take crc_size buf)) (rw (get_or-take crc_size buf i 0 covered) ne)
      (rw (← take-set crc_size buf i v) (new.checked ∙ same ∙ sym old.checked))
  where
    same : wire_crc (set buf i v) ≡ wire_crc buf
    same = rw (get_or-set_ne buf i 26 v 0 (omega arith), get_or-set_ne buf i 27 v 0 (omega arith))

-- A change of a byte of the checksum itself.
damaged_tail :
    (buf : List ℕ) (i v : ℕ)
    → AllBytes buf
    → v < 256
    → crc_size ≤ i
    → i < wire_size
    → v ≢ get_or buf i 0
    → Accepts buf
    → ¬ Accepts (set buf i v)
damaged_tail buf i v all small past covered ne old new = ne (
    sym (get_or-set_self buf i v 0 (omega arith)) ∙ elim (dec_lt i 27) [
      | yes h ↦ let e : i ≡ 26 = omega arith in rw e (rw e at both.0)
      | no h ↦ let e : i ≡ 27 = omega arith in rw e (rw e at both.1)
    ])
  where
    after : AllBytes (set buf i v)
    after = AllBytes-set buf i v all small

    body : take crc_size (set buf i v) ≡ take crc_size buf
    body =
        take-set crc_size buf i v
        ∙ set_past_end (take crc_size buf) i v (omega (arith, length-take crc_size buf))

    both :
        (get_or (set buf i v) 26 0 ≡ get_or buf 26 0)
        × (get_or (set buf i v) 27 0 ≡ get_or buf 27 0)
    both =
        wire_crc-injective _ _ _ _ (byte_at (set buf i v) 26 after) (byte_at (set buf i v) 27 after)
          (byte_at buf 26 all) (byte_at buf 27 all)
          (sym new.checked ∙ ap (λ m. crc16_ccitt m) body ∙ old.checked)

-- No frame that `frame_decode` accepts is still accepted after one of its 28 bytes changes.
pub frame_decode-set :
    (buf : List ℕ) (i v : ℕ) (f g : EnvFrame)
    → AllBytes buf
    → v < 256
    → i < wire_size
    → v ≢ get_or buf i 0
    → frame_decode buf ≡ done f
    → frame_decode (set buf i v) ≢ done g
frame_decode-set buf i v f g all small covered ne before after = elim (dec_lt i crc_size) [
  | yes body ↦ damaged_body buf i v all small body ne old new
  | no tail ↦ damaged_tail buf i v all small (omega arith) covered ne old new
]
  where
    old : Accepts buf
    old = decode-Accepts buf all before

    new : Accepts (set buf i v)
    new = decode-Accepts (set buf i v) (AllBytes-set buf i v all small) after
