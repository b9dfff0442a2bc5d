-- ===== src/Base/Word.antt =====
-- Fixed-width arithmetic: wrap-around by `%`, shifts by `*` and `/`. The macros are those of
-- include/defs.h, at `uint64_t`.
use Prim.Native.Nat.{ℕ, ◌+◌, ◌-◌, ◌*◌, ◌/◌, ◌%◌, ◌^◌, bit_and}
use mathlib.Core.Bool.{Bool}
use prephv.Base.Tests.{◌==◌, if◌then◌else◌}

abbrev pub u8 : ℕ → ℕ
u8 n = n % 2 ^ 8

abbrev pub u16 : ℕ → ℕ
u16 n = n % 2 ^ 16

abbrev pub u32 : ℕ → ℕ
u32 n = n % 2 ^ 32

abbrev pub u64 : ℕ → ℕ
u64 n = n % 2 ^ 64

-- `uint64_t` subtraction; `-` on ℕ stops at 0, so the modulus is added first.
infixl 65 ◌-64◌
abbrev pub ◌-64◌ : ℕ → ℕ → ℕ
a -64 b = (a + 2 ^ 64 - b % 2 ^ 64) % 2 ^ 64

infixl 71 ◌<<<◌ ◌>>>◌
abbrev pub ◌<<<◌ : ℕ → ℕ → ℕ
x <<< k = x * 2 ^ k % 2 ^ 64

abbrev pub ◌>>>◌ : ℕ → ℕ → ℕ
x >>> k = x / 2 ^ k

-- `~x`
abbrev pub lnot64 : ℕ → ℕ
lnot64 x = 2 ^ 64 - 1 - x

-- ALIGN_MASK, ALIGN, IS_ALIGNED, ALIGN_UP_MASK and ALIGN_UP
abbrev pub align_mask : ℕ → ℕ → ℕ
align_mask x mask = bit_and x (lnot64 mask)

unfoldable pub align : ℕ → ℕ → ℕ
align x a = align_mask x (a - 1)

unfoldable pub is_aligned : ℕ → ℕ → Bool
is_aligned x a = bit_and x (a - 1) == 0

abbrev pub align_up_mask : ℕ → ℕ → ℕ
align_up_mask x mask = bit_and (u64 (x + mask)) (lnot64 mask)

unfoldable pub align_up : ℕ → ℕ → ℕ
unfolding is_aligned
align_up x a = if is_aligned x a then x else align_up_mask x (a - 1)

-- MASK_OFF(value, larger, smaller): the bits `smaller` to `larger` of a value
unfoldable pub mask_off : ℕ → ℕ → ℕ → ℕ
mask_off value larger smaller = bit_and (value >>> smaller) (2 ^ (larger + 1 - smaller) - 1)

-- MB(x)
abbrev pub mb : ℕ → ℕ
mb x = x * 1024 * 1024
