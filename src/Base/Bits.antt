-- ===== src/Base/Bits.antt =====
-- Laws of `&` with a low mask and of `^` at variables, from the binary digits of a number.
use Prim.Native.Nat.{ℕ, zero, suc, ◌+◌, ◌-◌, ◌*◌, ◌/◌, ◌%◌, ◌^◌, ◌≤◌, ◌<◌, min, differ}
use Prim.Native.Nat.{bit_and, bit_xor, digits, bitwise, bit_and-bitwise, bit_xor-bitwise}
use mathlib.Core.Path.{◌≡◌, refl, sym, ap, ◌∙◌}
use native.Mathlib.Nat.{pow-suc, one-le-pow, mod-one, mod_self}
use native.Mathlib.Decide.{dec_lt}
use native.Mathlib.Omega.{arith}

-- The fuel of `digits` matters only below its first operand.
more_fuel :
    (z : ℕ → ℕ) (f : ℕ → ℕ → ℕ) (u v x y : ℕ) → x ≤ v → x ≤ u → digits z f v x y ≡ digits z f u x y
more_fuel z f zero zero x y below under = refl
more_fuel z f (suc u) zero zero y below under = refl
more_fuel z f zero (suc v) zero y below under = refl
more_fuel z f (suc u) (suc v) zero y below under = refl
more_fuel z f (suc u) zero (suc x) y below under = absurd (omega arith)
more_fuel z f zero (suc v) (suc x) y below under = absurd (omega arith)
more_fuel z f (suc u) (suc v) (suc x) y below under =
    ap (λ high. high * 2 + f (suc x % 2) (y % 2))
      (more_fuel z f u v (suc x / 2) (y / 2) (omega arith) (omega arith))

halve :
    (z : ℕ → ℕ) (f : ℕ → ℕ → ℕ) (x y : ℕ)
    → bitwise z f (suc x) y ≡ bitwise z f (suc x / 2) (y / 2) * 2 + f (suc x % 2) (y % 2)
halve z f x y =
    ap (λ high. high * 2 + f (suc x % 2) (y % 2))
      (more_fuel z f (suc x / 2) x (suc x / 2) (y / 2) (omega arith) (omega arith))

-- The lowest binary digit of `x & y`, and the rest.
pub bit_and-halves : (x y : ℕ) → bit_and x y ≡ bit_and (x / 2) (y / 2) * 2 + min (x % 2) (y % 2)
bit_and-halves zero y = simp bit_and-bitwise (omega arith)
bit_and-halves (suc x) y = simp bit_and-bitwise (halve (λ _. 0) min x y)

-- The lowest binary digit of `x ^ y`, and the rest.
pub bit_xor-halves : (x y : ℕ) → bit_xor x y ≡ bit_xor (x / 2) (y / 2) * 2 + differ (x % 2) (y % 2)
bit_xor-halves zero y = simp bit_xor-bitwise (ground arith)
bit_xor-halves (suc x) y = simp bit_xor-bitwise (halve (λ d. d) differ x y)

mod-double : (m x : ℕ) → 0 < m → x % (2 * m) ≡ x / 2 % m * 2 + x % 2
mod-double m x h = grind arith

-- What holds of 0, and of each number of which it holds for the half, holds of all numbers.
by_halves :
    (P : ℕ → Type 0) → P 0 → ((x : ℕ) → 0 < x → P (x / 2) → P x) → (bound x : ℕ) → x < bound → P x
by_halves P base step zero x below = absurd (omega arith)
by_halves P base step (suc bound) zero below = base
by_halves P base step (suc bound) (suc x) below =
    step (suc x) (omega arith) (by_halves P base step bound (suc x / 2) (omega arith))

bit_and-zero : (x : ℕ) → bit_and x 0 ≡ 0
bit_and-zero x =
    by_halves (λ v. bit_and v 0 ≡ 0) refl (λ v pos half. omega (arith, bit_and-halves v 0, half))
      (suc x) x (omega arith)

bit_and_self : (x : ℕ) → bit_and x x ≡ x
bit_and_self x =
    by_halves (λ v. bit_and v v ≡ v) refl (λ v pos half. omega (arith, bit_and-halves v v, half))
      (suc x) x (omega arith)

-- `x & (2 ^ k - 1)` is the remainder by `2 ^ k`, at every width.
pub bit_and-mask : (k x : ℕ) → bit_and x (2 ^ k - 1) ≡ x % 2 ^ k
bit_and-mask zero x = bit_and-zero x ∙ sym (mod-one x)
bit_and-mask (suc k) x = ground (
  arith,
  bit_and-halves x (2 ^ suc k - 1),
  bit_and-mask k (x / 2),
  pow-suc 2 k,
  one-le-pow k 2,
  mod-double (2 ^ k) x,
)

differ_twice : (p q : ℕ) → p < 2 → q < 2 → differ (differ p q) q ≡ p
differ_twice zero zero hp hq = refl
differ_twice zero (suc zero) hp hq = refl
differ_twice (suc zero) zero hp hq = refl
differ_twice (suc zero) (suc zero) hp hq = refl
differ_twice (suc (suc p)) q hp hq = absurd (omega arith)
differ_twice p (suc (suc q)) hp hq = absurd (omega arith)

differ-lt : (p q : ℕ) → p < 2 → q < 2 → differ p q < 2
differ-lt zero q hp hq = hq
differ-lt (suc zero) zero hp hq = hp
differ-lt (suc zero) (suc zero) hp hq = omega arith
differ-lt (suc zero) (suc (suc q)) hp hq = absurd (omega arith)
differ-lt (suc (suc p)) q hp hq = absurd (omega arith)

-- The two parts of `x ^ y`.
bit_xor-parts :
    (x y : ℕ)
    → (bit_xor x y / 2 ≡ bit_xor (x / 2) (y / 2)) × (bit_xor x y % 2 ≡ differ (x % 2) (y % 2))
bit_xor-parts x y =
    omega (arith, bit_xor-halves x y, differ-lt (x % 2) (y % 2) (omega arith) (omega arith))

-- Two `^` with one operand cancel.
xor_twice : (n x y : ℕ) → x + y ≤ n → bit_xor (bit_xor x y) y ≡ x
xor_twice zero zero zero h = refl
xor_twice zero zero (suc y) h = absurd (omega arith)
xor_twice zero (suc x) y h = absurd (omega arith)
xor_twice (suc n) x y h =
    bit_xor-halves (bit_xor x y) y
    ∙ rw ((bit_xor-parts x y).0, (bit_xor-parts x y).1)
        (omega (
          arith,
          xor_twice n (x / 2) (y / 2) (omega arith),
          differ_twice (x % 2) (y % 2) (omega arith) (omega arith),
        ))

pub bit_xor-cancel : (x y : ℕ) → bit_xor (bit_xor x y) y ≡ x
bit_xor-cancel x y = xor_twice (x + y) x y (omega arith)

pub bit_xor-lt : (k x y : ℕ) → x < 2 ^ k → y < 2 ^ k → bit_xor x y < 2 ^ k
bit_xor-lt zero zero zero hx hy = omega arith
bit_xor-lt zero zero (suc y) hx hy = absurd (omega arith)
bit_xor-lt zero (suc x) y hx hy = absurd (omega arith)
bit_xor-lt (suc k) x y hx hy = omega (
  arith,
  bit_xor-halves x y,
  differ-lt (x % 2) (y % 2) (omega arith) (omega arith),
  bit_xor-lt k (x / 2) (y / 2) (omega (arith, pow-suc 2 k)) (omega (arith, pow-suc 2 k)),
  pow-suc 2 k,
)

-- The test `(x & (x - 1)) == 0` holds of powers of two.
pub bit_and-pred_pow : (k : ℕ) → bit_and (2 ^ k) (2 ^ k - 1) ≡ 0
bit_and-pred_pow k = bit_and-mask k (2 ^ k) ∙ mod_self (2 ^ k)

-- It holds of nothing else but 0.
pub pow_of_bit_and-pred : (n x : ℕ) → x ≤ n → 0 < x → bit_and x (x - 1) ≡ 0 → (k : ℕ) × (x ≡ 2 ^ k)
pow_of_bit_and-pred zero x h pos e = absurd (omega arith)
pow_of_bit_and-pred (suc n) x h pos e = elim (dec_lt 0 (x % 2)) [
  | yes odd ↦ (0, odd_case odd)
  | no even ↦
      let (k, half) = pow_of_bit_and-pred n (x / 2) (omega arith) (omega arith) (even_case even) in
      (suc k, omega (arith, pow-suc 2 k))
]
  where
    the_half : 0 < x % 2 → (x - 1) / 2 ≡ x / 2
    the_half odd = omega arith

    odd_case : 0 < x % 2 → x ≡ 1
    odd_case odd = ground (
      arith,
      bit_and-halves x (x - 1),
      ap (λ y. bit_and (x / 2) y) (the_half odd),
      bit_and_self (x / 2),
    )

    half_pred : ¬ (0 < x % 2) → (x - 1) / 2 ≡ x / 2 - 1
    half_pred even = omega arith

    even_case : ¬ (0 < x % 2) → bit_and (x / 2) (x / 2 - 1) ≡ 0
    even_case even =
        omega (arith, bit_and-halves x (x - 1), ap (λ y. bit_and (x / 2) y) (half_pred even))

differ_comm : (p q : ℕ) → p < 2 → q < 2 → differ p q ≡ differ q p
differ_comm zero zero hp hq = refl
differ_comm zero (suc q) hp hq = refl
differ_comm (suc p) zero hp hq = refl
differ_comm (suc zero) (suc zero) hp hq = refl
differ_comm (suc (suc p)) (suc q) hp hq = absurd (omega arith)
differ_comm (suc zero) (suc (suc q)) hp hq = absurd (omega arith)

xor_comm_fuel : (n x y : ℕ) → x + y ≤ n → bit_xor x y ≡ bit_xor y x
xor_comm_fuel zero zero zero h = refl
xor_comm_fuel zero zero (suc y) h = absurd (omega arith)
xor_comm_fuel zero (suc x) y h = absurd (omega arith)
xor_comm_fuel (suc n) x y h = omega (
  arith,
  bit_xor-halves x y,
  bit_xor-halves y x,
  xor_comm_fuel n (x / 2) (y / 2) (omega arith),
  differ_comm (x % 2) (y % 2) (omega arith) (omega arith),
)

pub bit_xor_comm : (x y : ℕ) → bit_xor x y ≡ bit_xor y x
bit_xor_comm x y = xor_comm_fuel (x + y) x y (omega arith)
