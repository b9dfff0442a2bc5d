-- ===== src/Base/Bits/At.antt =====
-- The bits of `&`, `|` and `^`, one at a time.
use Prim.Native.Nat.{ℕ, zero, suc, ◌+◌, ◌*◌, ◌/◌, ◌%◌, ◌^◌, ◌<◌, min, max, bit_and, bit_or, bit_xor}
use mathlib.Core.Path.{◌≡◌, refl, ap}
use mathlib.Core.Logic.{◌≢◌}
use native.Mathlib.Nat.{pow-suc, one-le-pow, mul-add-div_right, div-eq_of_lt, mul-div-mul_right}
use native.Mathlib.Omega.{arith}
use prephv.Base.Bits.{
  and_zero, and_digit, or_digit, xor_digit, and_split, or_split, xor_split, or-lt, xor-lt,
}

-- One bit of a number, and of a combination of two.
abbrev pub bit_at : ℕ → ℕ → ℕ
bit_at k x = x / 2 ^ k % 2

and-lt : (k a b : ℕ) → a < 2 ^ k → b < 2 ^ k → bit_and a b < 2 ^ k
and-lt zero a b p q = ground (arith, and_zero 0)
and-lt (suc k) a b p q = ground (arith, pow-suc 2 k, and_digit a b, and-lt k (a / 2) (b / 2))

-- The quotient of a number that is in two parts.
split_quotient : (k q r n : ℕ) → r < 2 ^ k → n ≡ q * 2 ^ k + r → n / 2 ^ k ≡ q
split_quotient k q r n h e =
    rw (e, mul-add-div_right (one-le-pow k 2 (omega arith)) q r, div-eq_of_lt h) (omega arith)

pub and_bit : (k a b : ℕ) → bit_at k (bit_and a b) ≡ min (bit_at k a) (bit_at k b)
and_bit k a b = ground (
  arith,
  one-le-pow k 2,
  and_split k (a / 2 ^ k) (a % 2 ^ k) (b / 2 ^ k) (b % 2 ^ k),
  and-lt k (a % 2 ^ k) (b % 2 ^ k),
  split_quotient k (bit_and (a / 2 ^ k) (b / 2 ^ k)) (bit_and (a % 2 ^ k) (b % 2 ^ k))
      (bit_and a b),
  and_digit (a / 2 ^ k) (b / 2 ^ k),
)

pub or_bit : (k a b : ℕ) → bit_at k (bit_or a b) ≡ max (bit_at k a) (bit_at k b)
or_bit k a b = ground (
  arith,
  one-le-pow k 2,
  or_split k (a / 2 ^ k) (a % 2 ^ k) (b / 2 ^ k) (b % 2 ^ k),
  or-lt k (a % 2 ^ k) (b % 2 ^ k),
  split_quotient k (bit_or (a / 2 ^ k) (b / 2 ^ k)) (bit_or (a % 2 ^ k) (b % 2 ^ k)) (bit_or a b),
  or_digit (a / 2 ^ k) (b / 2 ^ k),
)

pub xor_bit : (k a b : ℕ) → bit_at k (bit_xor a b) ≡ (bit_at k a + bit_at k b) % 2
xor_bit k a b = ground (
  arith,
  one-le-pow k 2,
  xor_split k (a / 2 ^ k) (a % 2 ^ k) (b / 2 ^ k) (b % 2 ^ k),
  xor-lt k (a % 2 ^ k) (b % 2 ^ k),
  split_quotient k (bit_xor (a / 2 ^ k) (b / 2 ^ k)) (bit_xor (a % 2 ^ k) (b % 2 ^ k))
      (bit_xor a b),
  xor_digit (a / 2 ^ k) (b / 2 ^ k),
)

-- A power of 2 has one bit.
pub pow_bit : (k n : ℕ) → k ≢ n → bit_at k (2 ^ n) ≡ 0
pow_bit zero zero ne = absurd (ne refl)
pow_bit zero (suc n) ne = rw (pow-suc 2 n) (omega arith)
pow_bit (suc k) zero ne =
    let small : 2 ^ zero < 2 ^ suc k = omega (arith, pow-suc 2 k, one-le-pow k 2) in
    rw (div-eq_of_lt small) refl
pow_bit (suc k) (suc n) ne =
    rw (pow-suc 2 n, pow-suc 2 k, mul-div-mul_right {m = 2} (2 ^ n) (2 ^ k) (omega arith))
      (pow_bit k n (λ e. ne (ap suc e)))
