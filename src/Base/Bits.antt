-- ===== src/Base/Bits.antt =====
-- `&`, `|` and `^` as arithmetic: one law for each digit, from which two numbers cut at the
-- same bit are combined half by half.
pub mod At
pub mod Cancel
use Prim.Native.Nat.{digits, bitwise, bit_and-bitwise, bit_or-bitwise, bit_xor-bitwise, differ}
use native.Mathlib.Nat.{pow-suc, one-le-pow}
use Prim.Native.Nat.{
  ℕ, zero, suc, ◌+◌, ◌-◌, ◌*◌, ◌/◌, ◌%◌, ◌^◌, ◌≤◌, ◌<◌, min, max, bit_and, bit_or, bit_xor,
}
use mathlib.Core.Path.{◌≡◌, refl, ap}
use native.Mathlib.Omega.{arith}

module _ (z : ℕ → ℕ) (f : ℕ → ℕ → ℕ) where
  digits_enough : (n m a b : ℕ) → a ≤ n → a ≤ m → digits z f n a b ≡ digits z f m a b
  digits_enough zero zero a b p q = refl
  digits_enough zero (suc m) zero b p q = refl
  digits_enough zero (suc m) (suc a) b p q = absurd (omega arith)
  digits_enough (suc n) zero zero b p q = refl
  digits_enough (suc n) zero (suc a) b p q = absurd (omega arith)
  digits_enough (suc n) (suc m) zero b p q = refl
  digits_enough (suc n) (suc m) (suc a) b p q =
      rw (digits_enough n m (suc a / 2) (b / 2) (omega arith) (omega arith))

  bitwise_digit :
      (a b : ℕ)
      → bitwise z f (suc a) b ≡ bitwise z f (suc a / 2) (b / 2) * 2 + f (suc a % 2) (b % 2)
  bitwise_digit a b =
      omega (arith, digits_enough a (suc a / 2) (suc a / 2) (b / 2) (omega arith) (omega arith))

and_digit : (a b : ℕ) → bit_and a b ≡ bit_and (a / 2) (b / 2) * 2 + min (a % 2) (b % 2)
and_digit zero b = simp bit_and-bitwise (omega arith)
and_digit (suc a) b = simp bit_and-bitwise (bitwise_digit (λ y. 0) min a b)

or_digit : (a b : ℕ) → bit_or a b ≡ bit_or (a / 2) (b / 2) * 2 + max (a % 2) (b % 2)
or_digit zero b = simp bit_or-bitwise (omega arith)
or_digit (suc a) b = simp bit_or-bitwise (bitwise_digit (λ y. y) max a b)

twice : (q k : ℕ) → q * 2 ^ suc k ≡ 2 * (q * 2 ^ k)
twice q k = omega (arith, ap (λ (t : ℕ). q * t) (pow-suc 2 k))

and-zero : (k a : ℕ) → a ≤ k → bit_and a 0 ≡ 0
and-zero k zero h = refl
and-zero zero (suc a) h = absurd (omega arith)
and-zero (suc k) (suc a) h =
    omega (arith, and_digit (suc a) 0, and-zero k (suc a / 2) (omega arith))

or-zero : (k a : ℕ) → a ≤ k → bit_or a 0 ≡ a
or-zero k zero h = refl
or-zero zero (suc a) h = absurd (omega arith)
or-zero (suc k) (suc a) h = omega (arith, or_digit (suc a) 0, or-zero k (suc a / 2) (omega arith))

zero-or : (k a : ℕ) → a ≤ k → bit_or 0 a ≡ a
zero-or k zero h = refl
zero-or zero (suc a) h = absurd (omega arith)
zero-or (suc k) (suc a) h = omega (arith, or_digit 0 (suc a), zero-or k (suc a / 2) (omega arith))

and_self : (k a : ℕ) → a ≤ k → bit_and a a ≡ a
and_self k zero h = refl
and_self zero (suc a) h = absurd (omega arith)
and_self (suc k) (suc a) h =
    omega (arith, and_digit (suc a) (suc a), and_self k (suc a / 2) (omega arith))

-- `&` works on the two sides of bit `k` apart.
pub and_split :
    (k q r m n : ℕ)
    → r < 2 ^ k
    → n < 2 ^ k
    → bit_and (q * 2 ^ k + r) (m * 2 ^ k + n) ≡ bit_and q m * 2 ^ k + bit_and r n
and_split zero q r m n hr hn = ground (arith, and-zero 0 0)
and_split (suc k) q r m n hr hn = ground (
  arith,
  twice q k,
  twice m k,
  twice (bit_and q m) k,
  pow-suc 2 k,
  and_digit (q * 2 ^ suc k + r) (m * 2 ^ suc k + n),
  and_digit r n,
  and_split k q (r / 2) m (n / 2),
)

pub or_split :
    (k q r m n : ℕ)
    → r < 2 ^ k
    → n < 2 ^ k
    → bit_or (q * 2 ^ k + r) (m * 2 ^ k + n) ≡ bit_or q m * 2 ^ k + bit_or r n
or_split zero q r m n hr hn = ground (arith, or-zero 0 0)
or_split (suc k) q r m n hr hn = ground (
  arith,
  twice q k,
  twice m k,
  twice (bit_or q m) k,
  pow-suc 2 k,
  or_digit (q * 2 ^ suc k + r) (m * 2 ^ suc k + n),
  or_digit r n,
  or_split k q (r / 2) m (n / 2),
)

and_ones : (k r : ℕ) → r < 2 ^ k → bit_and r (2 ^ k - 1) ≡ r
and_ones zero r h = ground (arith, and-zero 0 0)
and_ones (suc k) r h =
    ground (arith, pow-suc 2 k, one-le-pow k 2, and_digit r (2 ^ suc k - 1), and_ones k (r / 2))

-- The mask of `d` ones above `l` zeros keeps the bits from `l` up to `l + d`.
pub and_field : (l d x : ℕ) → bit_and x ((2 ^ d - 1) * 2 ^ l) ≡ x / 2 ^ l % 2 ^ d * 2 ^ l
and_field l d x = ground (
  arith,
  one-le-pow l 2,
  one-le-pow d 2,
  and_split l (x / 2 ^ l) (x % 2 ^ l) (2 ^ d - 1) 0,
  and-zero (x % 2 ^ l) (x % 2 ^ l),
  and_split d (x / 2 ^ l / 2 ^ d) (x / 2 ^ l % 2 ^ d) 0 (2 ^ d - 1),
  and-zero (x / 2 ^ l / 2 ^ d) (x / 2 ^ l / 2 ^ d),
  and_ones d (x / 2 ^ l % 2 ^ d),
)

-- A mask of `k` low bits is the remainder by `2 ^ k`.
pub and_low : (k x : ℕ) → bit_and x (2 ^ k - 1) ≡ x % 2 ^ k
and_low k x = ground (
  arith,
  one-le-pow k 2,
  and_split k (x / 2 ^ k) (x % 2 ^ k) 0 (2 ^ k - 1),
  and-zero (x / 2 ^ k) (x / 2 ^ k),
  and_ones k (x % 2 ^ k),
)

-- `|` of a number whose low `k` bits are clear and a number of `k` bits is their sum.
pub or_fields : (k q r : ℕ) → r < 2 ^ k → bit_or (q * 2 ^ k) r ≡ q * 2 ^ k + r
or_fields k q r h = ground (arith, or_split k q 0 0 r, or-zero q q, zero-or r r, one-le-pow k 2)

pub or_fields_swap : (k q r : ℕ) → r < 2 ^ k → bit_or r (q * 2 ^ k) ≡ q * 2 ^ k + r
or_fields_swap k q r h =
    ground (arith, or_split k 0 r q 0, zero-or q q, or-zero r r, one-le-pow k 2)

-- The same for a left side that is a multiple of `2 ^ k` as it stands.
pub or_add : (k a r : ℕ) → a % 2 ^ k ≡ 0 → r < 2 ^ k → bit_or a r ≡ a + r
or_add k a r h lt = ground (arith, one-le-pow k 2, or_fields k (a / 2 ^ k) r)

differ_digit : (x y : ℕ) → x < 2 → y < 2 → differ x y ≡ (x + y) % 2
differ_digit zero y p q = omega arith
differ_digit (suc zero) zero p q = refl
differ_digit (suc zero) (suc zero) p q = refl
differ_digit (suc zero) (suc (suc y)) p q = absurd (omega arith)
differ_digit (suc (suc x)) y p q = absurd (omega arith)

pub xor_digit : (a b : ℕ) → bit_xor a b ≡ bit_xor (a / 2) (b / 2) * 2 + (a + b) % 2
xor_digit zero b = simp bit_xor-bitwise (omega arith)
xor_digit (suc a) b = simp bit_xor-bitwise (
    omega (
      arith,
      bitwise_digit (λ y. y) differ a b,
      differ_digit (suc a % 2) (b % 2) (omega arith) (omega arith),
    ))

xor_self_fuel : (k a : ℕ) → a ≤ k → bit_xor a a ≡ 0
xor_self_fuel k zero h = refl
xor_self_fuel zero (suc a) h = absurd (omega arith)
xor_self_fuel (suc k) (suc a) h =
    omega (arith, xor_digit (suc a) (suc a), xor_self_fuel k (suc a / 2) (omega arith))

pub xor_self : (a : ℕ) → bit_xor a a ≡ 0
xor_self a = xor_self_fuel a a (omega arith)

xor-zero_fuel : (k a : ℕ) → a ≤ k → bit_xor a 0 ≡ a
xor-zero_fuel k zero h = refl
xor-zero_fuel zero (suc a) h = absurd (omega arith)
xor-zero_fuel (suc k) (suc a) h =
    omega (arith, xor_digit (suc a) 0, xor-zero_fuel k (suc a / 2) (omega arith))

pub xor-zero : (a : ℕ) → bit_xor a 0 ≡ a
xor-zero a = xor-zero_fuel a a (omega arith)

-- Numbers that differ in no bit are equal.
eq_of_xor_fuel : (k a b : ℕ) → a ≤ k → b ≤ k → bit_xor a b ≡ 0 → a ≡ b
eq_of_xor_fuel zero a b p q e = omega arith
eq_of_xor_fuel (suc k) a b p q e = ground (arith, xor_digit a b, eq_of_xor_fuel k (a / 2) (b / 2))

pub eq_of_xor : (a b : ℕ) → bit_xor a b ≡ 0 → a ≡ b
eq_of_xor a b e = eq_of_xor_fuel (a + b) a b (omega arith) (omega arith) e

-- `^` works on the two sides of bit `k` apart.
pub xor_split :
    (k q r m n : ℕ)
    → r < 2 ^ k
    → n < 2 ^ k
    → bit_xor (q * 2 ^ k + r) (m * 2 ^ k + n) ≡ bit_xor q m * 2 ^ k + bit_xor r n
xor_split zero q r m n hr hn = ground (arith, xor-zero 0)
xor_split (suc k) q r m n hr hn = ground (
  arith,
  twice q k,
  twice m k,
  twice (bit_xor q m) k,
  pow-suc 2 k,
  xor_digit (q * 2 ^ suc k + r) (m * 2 ^ suc k + n),
  xor_digit r n,
  xor_split k q (r / 2) m (n / 2),
)

-- `^` of numbers of `k` bits has `k` bits.
pub xor-lt : (k a b : ℕ) → a < 2 ^ k → b < 2 ^ k → bit_xor a b < 2 ^ k
xor-lt zero a b p q = ground (arith, xor-zero 0)
xor-lt (suc k) a b p q = ground (arith, pow-suc 2 k, xor_digit a b, xor-lt k (a / 2) (b / 2))

-- So has `|`.
pub or-lt : (k a b : ℕ) → a < 2 ^ k → b < 2 ^ k → bit_or a b < 2 ^ k
or-lt zero a b p q = ground (arith, or-zero 0 0)
or-lt (suc k) a b p q = ground (arith, pow-suc 2 k, or_digit a b, or-lt k (a / 2) (b / 2))

pub and_zero : (a : ℕ) → bit_and a 0 ≡ 0
and_zero a = and-zero a a (omega arith)
