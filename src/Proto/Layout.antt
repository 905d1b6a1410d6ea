-- ===== src/Proto/Layout.antt =====
-- The memory image of a frame, and the byte order conversions.
use io_t_collector.Base.{
  ℕ, zero, suc, ◌^◌, ◌<◌, ◌≤◌, ◌≡◌, refl, ap, List, [], ◌∷◌, arith, get_or, take, length, tabulate,
  set,
}
use io_t_collector.Base.Words.{htons, htonl}
use io_t_collector.Frame.{EnvFrame, IsFrame, bytes, of_bytes}
use io_t_collector.Proto.{frame_hton, frame_ntoh}

-- Every element is a byte.
abbrev pub AllBytes : List ℕ → Type 0
AllBytes [] = Unit
AllBytes (b ∷ bs) = (b < 256) × AllBytes bs

-- `memcpy` to the wire and back.
pub of_bytes-bytes : (f : EnvFrame) → IsFrame f → of_bytes (bytes f) ≡ f
unfolding of_bytes bytes
of_bytes-bytes f v = ground arith

pub htons_twice : (x : ℕ) → x < 2 ^ 16 → htons (htons x) ≡ x
htons_twice x h = omega arith

pub htonl_twice : (x : ℕ) → x < 2 ^ 32 → htonl (htonl x) ≡ x
htonl_twice x h = omega arith

-- `frame_ntoh` undoes `frame_hton`.
pub frame_ntoh-frame_hton : (f : EnvFrame) → IsFrame f → frame_ntoh (frame_hton f) ≡ f
unfolding frame_hton frame_ntoh
frame_ntoh-frame_hton f v = ground arith

pub frame_hton-IsFrame : (f : EnvFrame) → IsFrame f → IsFrame (frame_hton f)
unfolding frame_hton
frame_hton-IsFrame f v = ground arith

pub byte_at : (bs : List ℕ) (i : ℕ) → AllBytes bs → get_or bs i 0 < 256
byte_at [] i h = omega arith
byte_at (b ∷ bs) zero h = h.0
byte_at (b ∷ bs) (suc i) h = byte_at bs i h.1

take-tabulate : (n : ℕ) (bs : List ℕ) → n ≤ length bs → take n bs ≡ tabulate n (λ i. get_or bs i 0)
take-tabulate zero bs h = refl
take-tabulate (suc n) [] h = absurd (omega arith)
take-tabulate (suc n) (b ∷ bs) h = ap (λ t. b ∷ t) (take-tabulate n bs (omega arith))

-- The first 26 bytes of the struct that `memcpy` fills are the first 26 bytes read.
pub take-bytes-of_bytes :
    (bs : List ℕ) (c : ℕ)
    → AllBytes bs
    → 28 ≤ length bs
    → take 26 (bytes (record (of_bytes bs) { crc16 = c })) ≡ take 26 bs
unfolding bytes of_bytes
take-bytes-of_bytes bs c all long = rw (take-tabulate 26 bs (omega arith)) (
    ground (
      arith,
      byte_at bs 0 all,
      byte_at bs 1 all,
      byte_at bs 2 all,
      byte_at bs 3 all,
      byte_at bs 4 all,
      byte_at bs 5 all,
      byte_at bs 6 all,
      byte_at bs 7 all,
      byte_at bs 8 all,
      byte_at bs 9 all,
      byte_at bs 10 all,
      byte_at bs 11 all,
      byte_at bs 12 all,
      byte_at bs 13 all,
      byte_at bs 14 all,
      byte_at bs 15 all,
      byte_at bs 16 all,
      byte_at bs 17 all,
      byte_at bs 18 all,
      byte_at bs 19 all,
      byte_at bs 20 all,
      byte_at bs 21 all,
      byte_at bs 22 all,
      byte_at bs 23 all,
      byte_at bs 24 all,
      byte_at bs 25 all,
    ))

pub bytes-AllBytes : (f : EnvFrame) → AllBytes (bytes f)
unfolding bytes
bytes-AllBytes f = omega arith

pub of_bytes-IsFrame : (bs : List ℕ) → AllBytes bs → IsFrame (of_bytes bs)
unfolding of_bytes
of_bytes-IsFrame bs all = omega (arith, λ (i : ℕ). byte_at bs i all)

-- `frame_hton` undoes `frame_ntoh`.
pub frame_hton-frame_ntoh : (f : EnvFrame) → IsFrame f → frame_hton (frame_ntoh f) ≡ f
unfolding frame_hton frame_ntoh
frame_hton-frame_ntoh f v = ground arith

-- `memcpy` from the wire and back.
pub bytes-of_bytes : (bs : List ℕ) → AllBytes bs → 28 ≤ length bs → bytes (of_bytes bs) ≡ take 28 bs
unfolding bytes of_bytes
bytes-of_bytes bs all long = rw (take-tabulate 28 bs long) (
    ground (
      arith,
      byte_at bs 0 all,
      byte_at bs 1 all,
      byte_at bs 2 all,
      byte_at bs 3 all,
      byte_at bs 4 all,
      byte_at bs 5 all,
      byte_at bs 6 all,
      byte_at bs 7 all,
      byte_at bs 8 all,
      byte_at bs 9 all,
      byte_at bs 10 all,
      byte_at bs 11 all,
      byte_at bs 12 all,
      byte_at bs 13 all,
      byte_at bs 14 all,
      byte_at bs 15 all,
      byte_at bs 16 all,
      byte_at bs 17 all,
      byte_at bs 18 all,
      byte_at bs 19 all,
      byte_at bs 20 all,
      byte_at bs 21 all,
      byte_at bs 22 all,
      byte_at bs 23 all,
      byte_at bs 24 all,
      byte_at bs 25 all,
      byte_at bs 26 all,
      byte_at bs 27 all,
    ))

pub AllBytes-set : (bs : List ℕ) (i v : ℕ) → AllBytes bs → v < 256 → AllBytes (set bs i v)
AllBytes-set [] i v all h = tt
AllBytes-set (b ∷ bs) zero v all h = (h, all.1)
AllBytes-set (b ∷ bs) (suc i) v all h = (all.0, AllBytes-set bs i v all.1 h)

pub AllBytes-take : (n : ℕ) (bs : List ℕ) → AllBytes bs → AllBytes (take n bs)
AllBytes-take zero bs all = tt
AllBytes-take (suc n) [] all = tt
AllBytes-take (suc n) (b ∷ bs) all = (all.0, AllBytes-take n bs all.1)
