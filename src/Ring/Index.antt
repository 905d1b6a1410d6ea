-- ===== src/Ring/Index.antt =====
-- Index arithmetic of the ring: masks and offsets.
use native.Mathlib.Decide.{dec_lt}
use native.Mathlib.Nat.{pow-suc, one-le-pow, mod-add-mod, mul-mod_right, add-mod_right}
use io_t_collector.Base.{
  ℕ, zero, suc, ◌+◌, ◌-◌, ◌*◌, ◌%◌, ◌^◌, ◌≤◌, ◌<◌, ◌≡◌, ◌≢◌, sym, ap, ◌∙◌, arith, bit_and,
}
use io_t_collector.Base.Words.{sub32}
use io_t_collector.Base.Bits.{bit_and-mask}

-- A capacity of the ring: a power of two that fits `uint32_t` and is not above 2^31.
pub record IsPow (cap : ℕ) : Type 0 where
  pub order : ℕ
  pub power : cap ≡ 2 ^ order
  pub small : cap ≤ 2 ^ 31

pub pos_of_IsPow : {cap : ℕ} → IsPow cap → 0 < cap
pos_of_IsPow p = omega (arith, p.power, one-le-pow p.order 2)

-- `x & (cap - 1)`.
pub mask_lem : {cap : ℕ} (x : ℕ) → IsPow cap → bit_and x (sub32 cap 1) ≡ x % cap
mask_lem {cap} x p = rw less (bit_and-mask p.order x ∙ ap (λ c. x % c) (sym p.power))
  where
    less : sub32 cap 1 ≡ 2 ^ p.order - 1
    less = omega (arith, p.power, p.small, pos_of_IsPow p)

pub pow_split : (k j n : ℕ) → k + j ≡ n → 2 ^ k * 2 ^ j ≡ 2 ^ n
pow_split zero j n e = let e' : j ≡ n = omega arith in rw e' (omega arith)
pow_split (suc k) j zero e = absurd (omega arith)
pow_split (suc k) j (suc n) e =
    omega
      (arith, pow_split k j n (omega arith), pow-suc 2 n, ap (λ (t : ℕ). t * 2 ^ j) (pow-suc 2 k))

pub wrap_mod : {cap : ℕ} → IsPow cap → 2 ^ 32 % cap ≡ 0
wrap_mod {cap} p = elim (dec_lt 32 p.order) [
  | yes h ↦ absurd (
      omega (
        arith,
        p.power,
        p.small,
        pow_split 32 (p.order - 32) p.order (omega arith),
        one-le-pow (p.order - 32) 2,
      ))
  | no h ↦ rw p.power (
      ap (λ m. m % 2 ^ p.order) (sym (pow_split p.order (32 - p.order) 32 (omega arith)))
      ∙ mul-mod_right (2 ^ p.order) (2 ^ (32 - p.order)))
]

pred_mod :
    (x cap : ℕ) → x < cap → cap ≤ 2 ^ 31 → 2 ^ 32 % cap ≡ 0 → sub32 x 1 % cap ≡ (x + cap - 1) % cap
pred_mod zero cap h small e = grind arith
pred_mod (suc x) cap h small e = grind arith

-- The offset before `x` on the ring.
pub pred_mask :
    {cap : ℕ} (x : ℕ)
    → IsPow cap
    → x < cap
    → bit_and (sub32 x 1) (sub32 cap 1) ≡ (x + cap - 1) % cap
pred_mask {cap} x p h = mask_lem (sub32 x 1) p ∙ pred_mod x cap h p.small (wrap_mod p)

-- Offsets below the capacity land on different slots.
pub offset_ne : (t c a b : ℕ) → t < c → a < c → b < c → a ≢ b → (t + a) % c ≢ (t + b) % c
offset_ne t c a b ht ha hb ne e = grind arith

pub step_offset : (t c a : ℕ) → ((t + a) % c + 1) % c ≡ (t + (a + 1)) % c
step_offset t c a = mod-add-mod (t + a) c 1 ∙ ap (λ x. x % c) (omega arith)

-- One step back undoes one step forward.
pub back_offset : (t c n : ℕ) → 0 < c → 0 < n → ((t + n) % c + c - 1) % c ≡ (t + (n - 1)) % c
back_offset t c n hc hn =
    ap (λ x. x % c) regroup
    ∙ mod-add-mod (t + n) c (c - 1)
    ∙ ap (λ x. x % c) around
    ∙ add-mod_right (t + (n - 1)) c
  where
    regroup : (t + n) % c + c - 1 ≡ (t + n) % c + (c - 1)
    regroup = omega arith

    around : t + n + (c - 1) ≡ t + (n - 1) + c
    around = omega arith
