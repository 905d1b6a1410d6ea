-- ===== src/Bridge/Base64.antt =====
-- The Base64 code of tools/cloud_bridge.c against a decoder.
use io_t_collector.Base.{
  ℕ, ◌+◌, ◌-◌, ◌*◌, ◌/◌, ◌%◌, ◌^◌, ◌<◌, ◌≡◌, refl, ap, ap₂, ◌∙◌, arith, false, if◌then◌else◌, leb,
  ◌==◌, some, List, [], ◌∷◌, length,
}
use io_t_collector.Bridge.{b64_char, b64_encode, packed, digit, pad}

-- The value of a character of the alphabet.
abbrev pub b64_value : ℕ → ℕ
b64_value c =
    if leb 97 c
    then c - 71
    else if leb 65 c
    then c - 65
    else if c == 43
    then 62
    else if c == 47
    then 63
    else c + 4

-- Four characters at a time, the last with up to two pads.
unfoldable pub b64_decode : List ℕ → List ℕ
b64_decode (c0 ∷ c1 ∷ c2 ∷ c3 ∷ more) =
    let rest = b64_decode more in
    let b0 = b64_value c0 * 4 + b64_value c1 / 16 in
    let b1 = b64_value c1 % 16 * 16 + b64_value c2 / 4 in
    let b2 = b64_value c2 % 4 * 64 + b64_value c3 in
    if c2 == pad then b0 ∷ [] else if c3 == pad then b0 ∷ b1 ∷ [] else b0 ∷ b1 ∷ b2 ∷ rest
b64_decode _ = []

value_char : (v : ℕ) → v < 64 → b64_value (b64_char v) ≡ v
unfolding b64_char
value_char v h = ground (arith, h)

char-pad : (v : ℕ) → v < 64 → (b64_char v == pad) ≡ false
unfolding b64_char
char-pad v h = ground (arith, h)

abbrev pub AllBytes : List ℕ → Type 0
AllBytes [] = Unit
AllBytes (b ∷ bs) = (b < 256) × AllBytes bs

module _ (v : ℕ) (h : v < 2 ^ 24) where
  six : (s : ℕ) → v / s % 64 < 64
  six s = omega arith

  decode_one : b64_decode (digit v (2 ^ 18) ∷ digit v (2 ^ 12) ∷ pad ∷ pad ∷ []) ≡ v / 2 ^ 16 ∷ []
  unfolding b64_decode
  decode_one =
      rw (value_char (v / 2 ^ 18 % 64) (six _), value_char (v / 2 ^ 12 % 64) (six _))
        (ap (λ b. b ∷ []) (omega arith))

  decode_two :
      b64_decode (digit v (2 ^ 18) ∷ digit v (2 ^ 12) ∷ digit v (2 ^ 6) ∷ pad ∷ [])
      ≡ v / 2 ^ 16 ∷ v / 2 ^ 8 % 256 ∷ []
  unfolding b64_decode
  decode_two =
      rw
        (
          char-pad (v / 2 ^ 6 % 64) (six _),
          value_char (v / 2 ^ 18 % 64) (six _),
          value_char (v / 2 ^ 12 % 64) (six _),
          value_char (v / 2 ^ 6 % 64) (six _),
        )
        (ap₂ (λ a b. a ∷ b ∷ []) (omega arith) (omega arith))

  decode_three :
      (more : List ℕ)
      → b64_decode (digit v (2 ^ 18) ∷ digit v (2 ^ 12) ∷ digit v (2 ^ 6) ∷ digit v 1 ∷ more)
        ≡ v / 2 ^ 16 ∷ v / 2 ^ 8 % 256 ∷ v % 256 ∷ b64_decode more
  unfolding b64_decode
  decode_three more =
      rw
        (
          char-pad (v / 2 ^ 6 % 64) (six _),
          char-pad (v / 1 % 64) (six _),
          value_char (v / 2 ^ 18 % 64) (six _),
          value_char (v / 2 ^ 12 % 64) (six _),
          value_char (v / 2 ^ 6 % 64) (six _),
          value_char (v / 1 % 64) (six _),
        )
        (ap₂ (λ a bs. a ∷ bs) (omega arith)
          (ap₂ (λ b c. b ∷ c ∷ b64_decode more) (omega arith) (omega arith)))

decode_nil : b64_decode [] ≡ []
unfolding b64_decode
decode_nil = refl

-- The size of the code of `n` bytes.
abbrev pub code_size : ℕ → ℕ
code_size n = 4 * ((n + 2) / 3)

-- If the output has room for the code and the final 0, the code of any bytes is made, has four
-- characters for every three bytes begun, and decodes to these bytes.
pub b64_decode-b64_encode :
    (bytes : List ℕ) (o out_cap : ℕ)
    → AllBytes bytes
    → o + code_size (length bytes) < out_cap
    → (out : List ℕ) × (b64_encode bytes o out_cap ≡ some out)
      × (length out ≡ code_size (length bytes))
      × (b64_decode out ≡ bytes)
unfolding b64_encode
b64_decode-b64_encode [] o out_cap h room = ([], refl, refl, decode_nil)
b64_decode-b64_encode (b0 ∷ []) o out_cap h room =
    let small : packed b0 0 0 < 2 ^ 24 = omega (arith, h.0) in
    let fits : leb out_cap (o + 4) ≡ false = ground (arith, room) in
    (
      _,
      rw fits refl,
      refl,
      decode_one (packed b0 0 0) small ∙ ap (λ b. b ∷ []) (omega (arith, h.0)),
    )
b64_decode-b64_encode (b0 ∷ b1 ∷ []) o out_cap h room =
    let small : packed b0 b1 0 < 2 ^ 24 = omega (arith, h.0, h.1.0) in
    let fits : leb out_cap (o + 4) ≡ false = ground (arith, room) in
    (
      _,
      rw fits refl,
      refl,
      decode_two (packed b0 b1 0) small
          ∙ ap₂ (λ a b. a ∷ b ∷ []) (omega (arith, h.0, h.1.0)) (omega (arith, h.0, h.1.0)),
    )
b64_decode-b64_encode (b0 ∷ b1 ∷ b2 ∷ more) o out_cap h room =
    let small : packed b0 b1 b2 < 2 ^ 24 = omega (arith, h.0, h.1.0, h.1.1.0) in
    let fits : leb out_cap (o + 4) ≡ false = ground (arith, room) in
    let (out, e, size, back) =
      b64_decode-b64_encode more (o + 4) out_cap h.1.1.1 (omega (arith, room)) in
    (
      _,
      rw (fits, e) refl,
      omega (arith, size),
      decode_three (packed b0 b1 b2) small out
          ∙ ap₂ (λ a bs. a ∷ bs) (omega (arith, h.0, h.1.0, h.1.1.0))
              (ap₂ (λ b c. b ∷ c ∷ b64_decode out) (omega (arith, h.0, h.1.0, h.1.1.0))
                (omega (arith, h.0, h.1.0, h.1.1.0)))
          ∙ ap (λ bs. b0 ∷ b1 ∷ b2 ∷ bs) back,
    )
