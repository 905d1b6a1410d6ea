-- ===== src/Simulator/Inject.antt =====
-- tools/station_sim.c against the collector: what becomes of the frames that the simulator makes.
use io_t_collector.Base.{
  ℕ, ◌-◌, ◌%◌, ◌^◌, ◌<◌, ◌≤◌, ◌≡◌, refl, sym, ap, ◌∙◌, arith, Bool, true, false, if◌then◌else◌, ltb,
  ◌==◌,
}
use io_t_collector.Base.Words.{htons}
use io_t_collector.Status.{done, done-injective}
use io_t_collector.Frame.{EnvFrame, IsFrame, bytes, wire_size}
use io_t_collector.Proto.{frame_hton, frame_fill_crc, frame_crc, frame_encode, frame_decode}
use io_t_collector.Proto.Codec.{as_received, stamp, frame_decode-frame_encode}
use io_t_collector.Cleaner.{temperature_out, out_of_range}
use io_t_collector.Simulator.{
  StationProfile, Draw, fill_crc, normal_fields, fill_normal_frame, overflow_field, auto_inject,
  clamped_add,
}

-- The frame goes through the collector's decoder, and the range test of the cleaner says `out` of it.
abbrev pub Judged : EnvFrame → Bool → Type 0
Judged f out = (g : EnvFrame) × (frame_decode (bytes f) ≡ done g) × (out_of_range g ≡ out)

same_fill : (f : EnvFrame) → fill_crc f ≡ frame_fill_crc f
unfolding fill_crc frame_fill_crc frame_crc bytes
same_fill f = refl

-- `stamp` is what `frame_encode` does to the constants of the header.
encoded :
    (h : EnvFrame)
    → stamp h ≡ h
    → frame_encode (frame_hton h) wire_size ≡ done (bytes (fill_crc (frame_hton h)))
unfolding frame_encode frame_hton stamp
encoded h header =
    ap (λ f. done (bytes (frame_fill_crc (frame_hton f)))) header
    ∙ ap (λ f. done (bytes f)) (sym (same_fill (frame_hton h)))

received-out_of_range : (h : EnvFrame) → out_of_range (as_received h) ≡ out_of_range h
unfolding as_received stamp out_of_range
received-out_of_range h = refl

sent-Judged :
    (h : EnvFrame) → IsFrame h → stamp h ≡ h → Judged (fill_crc (frame_hton h)) (out_of_range h)
sent-Judged h fits header =
    let (wire, sent, read) = frame_decode-frame_encode h wire_size fits (omega arith) in
    (
      as_received h,
      ap (λ w. frame_decode w) (done-injective (sym (encoded h header) ∙ sent)) ∙ read,
      received-out_of_range h,
    )

-- A changed frame whose bytes are those of `h` but for the checksum.
changed-Judged :
    (h f : EnvFrame) (out : Bool)
    → IsFrame h
    → stamp h ≡ h
    → fill_crc f ≡ fill_crc (frame_hton h)
    → out_of_range h ≡ out
    → Judged (fill_crc f) out
changed-Judged h f out fits header same is_out = rw (same, sym is_out) (sent-Judged h fits header)

each_way {ℓ} :
    {A : Type ℓ} (P : A → Type 0) (b : Bool) {x y : A} → P x → P y → P (if b then x else y)
each_way P true p q = p
each_way P false p q = q

module _ (h : EnvFrame) (fits : IsFrame h) (header : stamp h ≡ h) where
  abbrev wire : EnvFrame
  wire = fill_crc (frame_hton h)

  high_pm25 : Judged (fill_crc (record wire { pm25 = htons 65535 })) true
  unfolding fill_crc frame_hton bytes out_of_range stamp
  high_pm25 =
      changed-Judged (record h { pm25 = 65535 }) (record wire { pm25 = htons 65535 }) true
        (ground arith) (ap {A = EnvFrame} (λ f. record f { pm25 = 65535 }) header) refl
        (ground arith)

  high_pm10 : Judged (fill_crc (record wire { pm10 = htons 65535 })) true
  unfolding fill_crc frame_hton bytes out_of_range stamp
  high_pm10 =
      changed-Judged (record h { pm10 = 65535 }) (record wire { pm10 = htons 65535 }) true
        (ground arith) (ap {A = EnvFrame} (λ f. record f { pm10 = 65535 }) header) refl
        (ground arith)

  low_temperature : Judged (fill_crc (record wire { temperature = htons (2 ^ 16 - 999) })) true
  unfolding fill_crc frame_hton bytes out_of_range stamp
  low_temperature =
      changed-Judged (record h { temperature = 2 ^ 16 - 999 })
        (record wire { temperature = htons (2 ^ 16 - 999) }) true (ground arith)
        (ap {A = EnvFrame} (λ f. record f { temperature = 2 ^ 16 - 999 }) header) refl
        (ground arith)

  high_humidity : Judged (fill_crc (record wire { humidity = htons 65535 })) true
  unfolding fill_crc frame_hton bytes out_of_range stamp
  high_humidity =
      changed-Judged (record h { humidity = 65535 }) (record wire { humidity = htons 65535 }) true
        (ground arith) (ap {A = EnvFrame} (λ f. record f { humidity = 65535 }) header) refl
        (ground arith)

  high_noise : Judged (fill_crc (record wire { noise_db = htons 65535 })) true
  unfolding fill_crc frame_hton bytes out_of_range stamp
  high_noise =
      changed-Judged (record h { noise_db = 65535 }) (record wire { noise_db = htons 65535 }) true
        (ground arith) (ap {A = EnvFrame} (λ f. record f { noise_db = 65535 }) header) refl
        (ground arith)

  overflow-Judged : (field : ℕ) → Judged (fill_crc (overflow_field wire field)) true
  unfolding overflow_field
  overflow-Judged field =
      each_way (λ f. Judged (fill_crc f) true) (field == 0) high_pm25
        (each_way (λ f. Judged (fill_crc f) true) (field == 1) high_pm10
          (each_way (λ f. Judged (fill_crc f) true) (field == 2) low_temperature
            (each_way (λ f. Judged (fill_crc f) true) (field == 3) high_humidity high_noise)))

-- The fields of the frame for `d` fit their types.
abbrev pub IsDrawn : StationProfile → Draw → Type 0
IsDrawn p d = IsFrame (normal_fields p 0 d)

header_given : (p : StationProfile) (d : Draw) → stamp (normal_fields p 0 d) ≡ normal_fields p 0 d
unfolding stamp normal_fields
header_given p d = refl

fields_in_range :
    (p : StationProfile) (d : Draw)
    → temperature_out d.temperature ≡ false
    → d.humidity ≤ 1000
    → out_of_range (normal_fields p 0 d) ≡ false
unfolding out_of_range normal_fields clamped_add
fields_in_range p d warm damp = ground arith

-- A frame into which `auto_inject` puts a value that overflows (3 of 100 frames) passes the collector's
-- decoder with its new checksum, and the cleaner's range test rejects it, whatever field was drawn.
pub auto_inject_overflow :
    (p : StationProfile) (d : Draw) (dice field : ℕ)
    → IsDrawn p d
    → 90 ≤ dice % 100
    → dice % 100 < 93
    → Judged (auto_inject (fill_normal_frame p 0 d).0 (fill_normal_frame p 0 d).1 dice field) true
unfolding auto_inject fill_normal_frame
auto_inject_overflow p d dice field drawn low high =
    let not_plain : ltb (dice % 100) 90 ≡ false = ground arith in
    let over : ltb (dice % 100) 93 ≡ true = ground arith in
    rw (not_plain, over)
      (overflow-Judged (normal_fields p 0 d) drawn (header_given p d) (field % 5))

-- A frame that `auto_inject` leaves alone (90 of 100 frames) passes the collector's decoder, and the
-- cleaner's range test accepts it, if the temperature and the humidity are in range.
pub auto_inject_plain :
    (p : StationProfile) (d : Draw) (dice field : ℕ)
    → IsDrawn p d
    → dice % 100 < 90
    → temperature_out d.temperature ≡ false
    → d.humidity ≤ 1000
    → Judged (auto_inject (fill_normal_frame p 0 d).0 (fill_normal_frame p 0 d).1 dice field) false
unfolding auto_inject fill_normal_frame
auto_inject_plain p d dice field drawn below warm damp =
    let plain : ltb (dice % 100) 90 ≡ true = ground arith in
    rw plain (
      changed-Judged (normal_fields p 0 d) (frame_hton (normal_fields p 0 d)) false drawn
        (header_given p d) refl (fields_in_range p d warm damp))

-- The repetition that `auto_inject` means to make (2 of 100 frames) gives the frame back unchanged: the
-- times that it copies are those of this frame, which `fill_normal_frame` has just stored.
pub auto_inject_repeats :
    (p : StationProfile) (d : Draw) (dice field : ℕ)
    → 96 ≤ dice % 100
    → dice % 100 < 98
    → auto_inject (fill_normal_frame p 0 d).0 (fill_normal_frame p 0 d).1 dice field
      ≡ (fill_normal_frame p 0 d).0
unfolding auto_inject fill_normal_frame fill_crc bytes
auto_inject_repeats p d dice field low high =
    let not_plain : ltb (dice % 100) 90 ≡ false = ground arith in
    let no_overflow : ltb (dice % 100) 93 ≡ false = ground arith in
    let no_spike : ltb (dice % 100) 96 ≡ false = ground arith in
    let repeated : ltb (dice % 100) 98 ≡ true = ground arith in
    rw (not_plain, no_overflow, no_spike, repeated) refl
