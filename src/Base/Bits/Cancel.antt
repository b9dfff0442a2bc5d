-- ===== src/Base/Bits/Cancel.antt =====
-- What `^` keeps of its second operand, where `&` and `^` keep to the low bits, and `|` of a
-- number with itself.
use Prim.Native.Nat.{ℕ, zero, suc, ◌+◌, ◌-◌, ◌*◌, ◌/◌, ◌%◌, ◌^◌, ◌≤◌, ◌<◌, bit_and, bit_or, bit_xor}
use mathlib.Core.Path.{◌≡◌, refl, ◌∙◌}
use native.Mathlib.Nat.{one-le-pow, mod-add-div', mul-add-mod_self_right, mod-eq_of_lt}
use native.Mathlib.Omega.{arith}
use prephv.Base.Bits.{or_digit, xor_digit, and_split, and_low, xor_split, xor-lt}

xor_cancel_fuel : (k a b c : ℕ) → b ≤ k → c ≤ k → bit_xor a b ≡ bit_xor a c → b ≡ c
xor_cancel_fuel zero a b c p q e = omega arith
xor_cancel_fuel (suc k) a b c p q e =
    ground (arith, xor_digit a b, xor_digit a c, xor_cancel_fuel k (a / 2) (b / 2) (c / 2))

-- `^` with the same number on the left is the same for equal numbers only.
pub xor_cancel : (a b c : ℕ) → bit_xor a b ≡ bit_xor a c → b ≡ c
xor_cancel a b c e = xor_cancel_fuel (b + c) a b c (omega arith) (omega arith) e

-- The rest of a number that is in two parts.
split_rest : (k q r n : ℕ) → r < 2 ^ k → n ≡ q * 2 ^ k + r → n % 2 ^ k ≡ r
split_rest k q r n h e = rw e (mul-add-mod_self_right q (2 ^ k) r ∙ mod-eq_of_lt h)

-- A mask whose low bits are all set lets the low bits through.
pub and_mod : (k x mask : ℕ) → mask % 2 ^ k ≡ 2 ^ k - 1 → bit_and x mask % 2 ^ k ≡ x % 2 ^ k
and_mod k x mask h = ground (
  arith,
  one-le-pow k 2,
  mod-add-div' x (2 ^ k),
  mod-add-div' mask (2 ^ k),
  and_split k (x / 2 ^ k) (x % 2 ^ k) (mask / 2 ^ k) (mask % 2 ^ k),
  and_low k (x % 2 ^ k),
  mod-eq_of_lt {n = x % 2 ^ k} {m = 2 ^ k},
  split_rest k (bit_and (x / 2 ^ k) (mask / 2 ^ k)) (x % 2 ^ k) (bit_and x mask),
)

pub xor_mod : (k x y : ℕ) → bit_xor x y % 2 ^ k ≡ bit_xor (x % 2 ^ k) (y % 2 ^ k)
xor_mod k x y = ground (
  arith,
  one-le-pow k 2,
  mod-add-div' x (2 ^ k),
  mod-add-div' y (2 ^ k),
  xor_split k (x / 2 ^ k) (x % 2 ^ k) (y / 2 ^ k) (y % 2 ^ k),
  xor-lt k (x % 2 ^ k) (y % 2 ^ k),
  split_rest k (bit_xor (x / 2 ^ k) (y / 2 ^ k)) (bit_xor (x % 2 ^ k) (y % 2 ^ k)) (bit_xor x y),
)

or_self_fuel : (k a : ℕ) → a ≤ k → bit_or a a ≡ a
or_self_fuel k zero h = refl
or_self_fuel zero (suc a) h = absurd (omega arith)
or_self_fuel (suc k) (suc a) h =
    omega (arith, or_digit (suc a) (suc a), or_self_fuel k (suc a / 2) (omega arith))

pub or_self : (a : ℕ) → bit_or a a ≡ a
or_self a = or_self_fuel a a (omega arith)
