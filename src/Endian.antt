-- ===== src/Endian.antt =====
-- include/endian.h: the byte swaps between the little-endian hypervisor and big-endian data.
-- The casts of the source are to the width of the argument, so shifts cut bits off there.
pub mod Swap
use prephv.Base.{ℕ, ◌*◌, ◌%◌, ◌^◌, bit_and, bit_or, u32, ◌<<<◌, ◌>>>◌}

unfoldable pub swab32 : ℕ → ℕ
swab32 x =
    bit_or
      (bit_or (bit_or (u32 (bit_and x 0x000000ff <<< 24)) (u32 (bit_and x 0x0000ff00 <<< 8)))
        (bit_and x 0x00ff0000 >>> 8))
      (bit_and x 0xff000000 >>> 24)

unfoldable pub swab64 : ℕ → ℕ
swab64 x =
    bit_or
      (bit_or
        (bit_or
          (bit_or
            (bit_or
              (bit_or
                (bit_or (bit_and x 0x00000000000000ff <<< 56) (bit_and x 0x000000000000ff00 <<< 40))
                (bit_and x 0x0000000000ff0000 <<< 24))
              (bit_and x 0x00000000ff000000 <<< 8))
            (bit_and x 0x000000ff00000000 >>> 8))
          (bit_and x 0x0000ff0000000000 >>> 24))
        (bit_and x 0x00ff000000000000 >>> 40))
      (bit_and x 0xff00000000000000 >>> 56)
