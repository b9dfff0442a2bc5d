-- ===== src/Guest/Memory.antt =====
-- The memory of the guest as the hypervisor sees it, little-endian: bytes, 32-bit words, blocks
-- and C strings. It is a function from the address to the byte.
pub mod Above
pub mod Copy
use Prim.Native.Char.{code}
use Prim.Native.String.{String, [], ◌∷◌}
use prephv.Base.{ℕ, zero, suc, ◌+◌, ◌*◌, ◌/◌, ◌^◌, Bool, ◌&&◌, List, ◌==◌, if◌then◌else◌, u8}

abbrev pub Memory : Type 0
Memory = ℕ → ℕ

abbrev pub store8 : Memory → ℕ → ℕ → Memory
store8 mem a v b = if b == a then u8 v else mem b

-- `*(uint32_t *) a`
unfoldable pub load32 : Memory → ℕ → ℕ
load32 mem a =
    u8 (mem a) + u8 (mem (a + 1)) * 2 ^ 8 + u8 (mem (a + 2)) * 2 ^ 16 + u8 (mem (a + 3)) * 2 ^ 24

-- `*(uint32_t *) a = v`
unfoldable pub store32 : Memory → ℕ → ℕ → Memory
store32 mem a v =
    store8 (store8 (store8 (store8 mem a v) (a + 1) (v / 2 ^ 8)) (a + 2) (v / 2 ^ 16)) (a + 3)
      (v / 2 ^ 24)

-- `memcpy` of a block into memory, and out of it
unfoldable pub store_bytes : Memory → ℕ → List ℕ → Memory
store_bytes mem a List.[] = mem
store_bytes mem a (List.◌∷◌ v vs) = store_bytes (store8 mem a v) (a + 1) vs

unfoldable pub load_bytes : Memory → ℕ → ℕ → List ℕ
load_bytes mem a zero = List.[]
load_bytes mem a (suc n) = List.◌∷◌ (u8 (mem a)) (load_bytes mem (a + 1) n)

-- `!strcmp(s, a)`
unfoldable pub is_string : String → Memory → ℕ → Bool
is_string [] mem a = u8 (mem a) == 0
is_string (c ∷ s) mem a = u8 (mem a) == code c && is_string s mem (a + 1)
