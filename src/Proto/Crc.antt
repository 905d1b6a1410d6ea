-- ===== src/Proto/Crc.antt =====
-- The CRC register under a change of one byte of the message.
use native.Mathlib.Decide.{ℕ_discrete}
use io_t_collector.Base.{
  ℕ, zero, suc, ◌+◌, ◌*◌, ◌/◌, ◌%◌, ◌^◌, ◌<◌, ◌≤◌, ◌≡◌, ◌≢◌, refl, sym, ap, ◌∙◌, Bool, true, false,
  Bool-cases, inl, inr, List, [], ◌∷◌, arith, ◌==◌, if◌then◌else◌, ==_iff, bit_xor, length, set,
  get_or,
}
use io_t_collector.Base.Bits.{bit_xor-cancel, bit_xor-lt, bit_xor_comm}
use io_t_collector.Proto.{crc_bit, crc_bits, crc_byte, crc_from, crc16_ccitt}
use io_t_collector.Proto.Layout.{AllBytes}

-- The register before a round of the inner loop, from the register after it.
abbrev crc_unbit : ℕ → ℕ
crc_unbit c = if c % 2 == 0 then c / 2 else bit_xor c 0x1021 / 2 + 0x8000

-- Whether `test` holds of the `n` numbers from `i` on, by evaluation.
passes_from : (ℕ → Bool) → ℕ → ℕ → Bool
passes_from test i zero = true
passes_from test i (suc n) = if test i then passes_from test (i + 1) n else false

passed :
    (test : ℕ → Bool) (i n v : ℕ) → passes_from test i n ≡ true → i ≤ v → v < i + n → test v ≡ true
unfolding passes_from
passed test i zero v all from under = absurd (omega arith)
passed test i (suc n) v all from under = elim (Bool-cases (test i)) [
  | inr fails ↦ absurd (clash (rw fails at all))
  | inl holds ↦ elim (ℕ_discrete v i) [
    | yes here ↦ rw here holds
    | no later ↦ passed test (i + 1) n v (rw holds at all) (omega arith) (omega arith)
  ]
]
  where
    clash : false ≢ true
    clash e = ground arith

crc_bit_table :
    passes_from
      (λ h. passes_from (λ l. crc_unbit (crc_bit (h * 256 + l)) == h * 256 + l) 0 256)
      0
      256
    ≡ true
unfolding passes_from crc_bit
crc_bit_table = refl

crc_unbit-crc_bit : (c : ℕ) → c < 2 ^ 16 → crc_unbit (crc_bit c) ≡ c
crc_unbit-crc_bit c h = rw (← whole) ((==_iff _ _).0 (row))
  where
    whole : c / 256 * 256 + c % 256 ≡ c
    whole = omega arith

    row : (crc_unbit (crc_bit (c / 256 * 256 + c % 256)) == c / 256 * 256 + c % 256) ≡ true
    row =
        passed (λ l. crc_unbit (crc_bit (c / 256 * 256 + l)) == c / 256 * 256 + l) 0 256 (c % 256)
          (passed (λ h. passes_from (λ l. crc_unbit (crc_bit (h * 256 + l)) == h * 256 + l) 0 256) 0
            256 (c / 256) crc_bit_table (omega arith) (omega arith))
          (omega arith) (omega arith)

crc_bit-lt : (c : ℕ) → crc_bit c < 2 ^ 16
unfolding crc_bit
crc_bit-lt c = ground arith

crc_bits-lt : (n c : ℕ) → c < 2 ^ 16 → crc_bits n c < 2 ^ 16
unfolding crc_bits
crc_bits-lt zero c h = h
crc_bits-lt (suc n) c h = crc_bits-lt n (crc_bit c) (crc_bit-lt c)

crc_bits-injective : (n c d : ℕ) → c < 2 ^ 16 → d < 2 ^ 16 → crc_bits n c ≡ crc_bits n d → c ≡ d
unfolding crc_bits
crc_bits-injective zero c d hc hd e = e
crc_bits-injective (suc n) c d hc hd e =
    sym (crc_unbit-crc_bit c hc)
    ∙ ap (λ x. crc_unbit x)
        (crc_bits-injective n (crc_bit c) (crc_bit d) (crc_bit-lt c) (crc_bit-lt d) e)
    ∙ crc_unbit-crc_bit d hd

xor_word : (c b : ℕ) → c < 2 ^ 16 → b < 256 → bit_xor c (b * 256) < 2 ^ 16
xor_word c b hc hb = bit_xor-lt 16 c (b * 256) hc (omega arith)

crc_byte-lt : (c b : ℕ) → c < 2 ^ 16 → b < 256 → crc_byte c b < 2 ^ 16
unfolding crc_byte
crc_byte-lt c b hc hb = crc_bits-lt 8 (bit_xor c (b * 256)) (xor_word c b hc hb)

crc_byte-injective_left :
    (c d b : ℕ) → c < 2 ^ 16 → d < 2 ^ 16 → b < 256 → crc_byte c b ≡ crc_byte d b → c ≡ d
unfolding crc_byte
crc_byte-injective_left c d b hc hd hb e =
    sym (bit_xor-cancel c (b * 256))
    ∙ ap (λ x. bit_xor x (b * 256))
        (crc_bits-injective 8 (bit_xor c (b * 256)) (bit_xor d (b * 256)) (xor_word c b hc hb)
          (xor_word d b hd hb) e)
    ∙ bit_xor-cancel d (b * 256)

crc_byte-injective_right :
    (c a b : ℕ) → c < 2 ^ 16 → a < 256 → b < 256 → crc_byte c a ≡ crc_byte c b → a ≡ b
unfolding crc_byte
crc_byte-injective_right c a b hc ha hb e = omega (arith, shifted)
  where
    same : bit_xor (a * 256) c ≡ bit_xor (b * 256) c
    same =
        bit_xor_comm (a * 256) c
        ∙ crc_bits-injective 8 (bit_xor c (a * 256)) (bit_xor c (b * 256)) (xor_word c a hc ha)
            (xor_word c b hc hb) e
        ∙ bit_xor_comm c (b * 256)

    shifted : a * 256 ≡ b * 256
    shifted =
        sym (bit_xor-cancel (a * 256) c) ∙ ap (λ x. bit_xor x c) same ∙ bit_xor-cancel (b * 256) c

crc_from-injective :
    (bs : List ℕ) (c d : ℕ)
    → AllBytes bs
    → c < 2 ^ 16
    → d < 2 ^ 16
    → crc_from c bs ≡ crc_from d bs
    → c ≡ d
unfolding crc_from
crc_from-injective [] c d all hc hd e = e
crc_from-injective (b ∷ bs) c d all hc hd e = crc_byte-injective_left c d b hc hd all.0 (
    crc_from-injective bs (crc_byte c b) (crc_byte d b) all.1 (crc_byte-lt c b hc all.0)
      (crc_byte-lt d b hd all.0) e)

crc_from-set :
    (bs : List ℕ) (i v c : ℕ)
    → AllBytes bs
    → v < 256
    → c < 2 ^ 16
    → i < length bs
    → crc_from c (set bs i v) ≡ crc_from c bs
    → v ≡ get_or bs i 0
unfolding crc_from
crc_from-set [] i v c all hv hc h e = absurd (omega arith)
crc_from-set (b ∷ bs) zero v c all hv hc h e = crc_byte-injective_right c v b hc hv all.0 (
    crc_from-injective bs (crc_byte c v) (crc_byte c b) all.1 (crc_byte-lt c v hc hv)
      (crc_byte-lt c b hc all.0) e)
crc_from-set (b ∷ bs) (suc i) v c all hv hc h e =
    crc_from-set bs i v (crc_byte c b) all.1 hv (crc_byte-lt c b hc all.0) (omega arith) e

-- Two messages of bytes that differ in exactly one byte have different checksums.
pub crc16_ccitt-set :
    (bs : List ℕ) (i v : ℕ)
    → AllBytes bs
    → v < 256
    → i < length bs
    → v ≢ get_or bs i 0
    → crc16_ccitt (set bs i v) ≢ crc16_ccitt bs
unfolding crc16_ccitt
crc16_ccitt-set bs i v all hv h ne e = ne (crc_from-set bs i v 0xffff all hv (omega arith) h e)

pub crc16_ccitt-lt : (bs : List ℕ) → AllBytes bs → crc16_ccitt bs < 2 ^ 16
unfolding crc16_ccitt
crc16_ccitt-lt bs all = from 0xffff bs (omega arith) all
  where
    from : (c : ℕ) (bs : List ℕ) → c < 2 ^ 16 → AllBytes bs → crc_from c bs < 2 ^ 16
    from c [] hc all = hc
    from c (b ∷ bs) hc all = from (crc_byte c b) bs (crc_byte-lt c b hc all.0) all.1
