-- ===== src/Endian/Swap.antt =====
-- Swapping the bytes of a word twice gives the word back.
use prephv.Base.{ℕ, ◌+◌, ◌*◌, ◌/◌, ◌%◌, ◌^◌, ◌<◌, ◌≡◌, arith, bit_and, bit_or, u32, ◌<<<◌, ◌>>>◌}
use prephv.Base.Bits.{and_field, or_add}
use prephv.Endian.{swab32, swab64}

-- Byte `k` of a word, from the lowest.
abbrev byte : ℕ → ℕ → ℕ
byte k x = x / 2 ^ (8 * k) % 2 ^ 8

-- The masked and shifted bytes of `swab32` and `swab64`.
module _ (x : ℕ) where
  up32-0 : u32 (bit_and x 0x000000ff <<< 24) ≡ byte 0 x * 2 ^ 24
  up32-0 = rw (and_field 0 8 x) (omega arith)

  up32-1 : u32 (bit_and x 0x0000ff00 <<< 8) ≡ byte 1 x * 2 ^ 16
  up32-1 = rw (and_field 8 8 x) (omega arith)

  down32-2 : bit_and x 0x00ff0000 >>> 8 ≡ byte 2 x * 2 ^ 8
  down32-2 = rw (and_field 16 8 x) (omega arith)

  down32-3 : bit_and x 0xff000000 >>> 24 ≡ byte 3 x
  down32-3 = rw (and_field 24 8 x) (omega arith)

  swab32_bytes : swab32 x ≡ byte 0 x * 2 ^ 24 + byte 1 x * 2 ^ 16 + byte 2 x * 2 ^ 8 + byte 3 x
  unfolding swab32
  swab32_bytes =
      rw
        (
          up32-0,
          up32-1,
          down32-2,
          down32-3,
          or_add 24 (byte 0 x * 2 ^ 24) (byte 1 x * 2 ^ 16) (omega arith) (omega arith),
          or_add 16 (byte 0 x * 2 ^ 24 + byte 1 x * 2 ^ 16) (byte 2 x * 2 ^ 8) (omega arith)
              (omega arith),
          or_add 8 (byte 0 x * 2 ^ 24 + byte 1 x * 2 ^ 16 + byte 2 x * 2 ^ 8) (byte 3 x)
              (omega arith) (omega arith),
        )
        (omega arith)

  up-0 : bit_and x 0x00000000000000ff <<< 56 ≡ byte 0 x * 2 ^ 56
  up-0 = rw (and_field 0 8 x) (omega arith)

  up-1 : bit_and x 0x000000000000ff00 <<< 40 ≡ byte 1 x * 2 ^ 48
  up-1 = rw (and_field 8 8 x) (omega arith)

  up-2 : bit_and x 0x0000000000ff0000 <<< 24 ≡ byte 2 x * 2 ^ 40
  up-2 = rw (and_field 16 8 x) (omega arith)

  up-3 : bit_and x 0x00000000ff000000 <<< 8 ≡ byte 3 x * 2 ^ 32
  up-3 = rw (and_field 24 8 x) (omega arith)

  down-4 : bit_and x 0x000000ff00000000 >>> 8 ≡ byte 4 x * 2 ^ 24
  down-4 = rw (and_field 32 8 x) (omega arith)

  down-5 : bit_and x 0x0000ff0000000000 >>> 24 ≡ byte 5 x * 2 ^ 16
  down-5 = rw (and_field 40 8 x) (omega arith)

  down-6 : bit_and x 0x00ff000000000000 >>> 40 ≡ byte 6 x * 2 ^ 8
  down-6 = rw (and_field 48 8 x) (omega arith)

  down-7 : bit_and x 0xff00000000000000 >>> 56 ≡ byte 7 x
  down-7 = rw (and_field 56 8 x) (omega arith)

  abbrev high : ℕ
  high = byte 0 x * 2 ^ 56 + byte 1 x * 2 ^ 48 + byte 2 x * 2 ^ 40 + byte 3 x * 2 ^ 32

  high_bytes :
      bit_or
        (bit_or (bit_or (byte 0 x * 2 ^ 56) (byte 1 x * 2 ^ 48)) (byte 2 x * 2 ^ 40))
        (byte 3 x * 2 ^ 32)
      ≡ high
  high_bytes =
      rw
        (
          or_add 56 (byte 0 x * 2 ^ 56) (byte 1 x * 2 ^ 48) (omega arith) (omega arith),
          or_add 48 (byte 0 x * 2 ^ 56 + byte 1 x * 2 ^ 48) (byte 2 x * 2 ^ 40) (omega arith)
              (omega arith),
          or_add 40 (byte 0 x * 2 ^ 56 + byte 1 x * 2 ^ 48 + byte 2 x * 2 ^ 40) (byte 3 x * 2 ^ 32)
              (omega arith) (omega arith),
        )
        (omega arith)

  swab64_bytes :
      swab64 x ≡ high + byte 4 x * 2 ^ 24 + byte 5 x * 2 ^ 16 + byte 6 x * 2 ^ 8 + byte 7 x
  unfolding swab64
  swab64_bytes =
      rw
        (
          up-0,
          up-1,
          up-2,
          up-3,
          down-4,
          down-5,
          down-6,
          down-7,
          high_bytes,
          or_add 32 high (byte 4 x * 2 ^ 24) (omega arith) (omega arith),
          or_add 24 (high + byte 4 x * 2 ^ 24) (byte 5 x * 2 ^ 16) (omega arith) (omega arith),
          or_add 16 (high + byte 4 x * 2 ^ 24 + byte 5 x * 2 ^ 16) (byte 6 x * 2 ^ 8) (omega arith)
              (omega arith),
          or_add 8 (high + byte 4 x * 2 ^ 24 + byte 5 x * 2 ^ 16 + byte 6 x * 2 ^ 8) (byte 7 x)
              (omega arith) (omega arith),
        )
        (omega arith)

pub swab64-lt : (x : ℕ) → swab64 x < 2 ^ 64
swab64-lt x = rw swab64_bytes (omega arith)

pub swab32_word : (x : ℕ) → swab32 x < 2 ^ 32
swab32_word x = rw (swab32_bytes x) (omega arith)

-- Swapping the bytes of a 32-bit word twice gives the word back.
pub swab32-swab32 : (x : ℕ) → x < 2 ^ 32 → swab32 (swab32 x) ≡ x
swab32-swab32 x h = rw (swab32_bytes (swab32 x), swab32_bytes x) (omega arith)

-- Swapping the bytes of a 64-bit word twice gives the word back.
pub swab64-swab64 : (x : ℕ) → x < 2 ^ 64 → swab64 (swab64 x) ≡ x
swab64-swab64 x h = rw (swab64_bytes (swab64 x), swab64_bytes x) (omega arith)
