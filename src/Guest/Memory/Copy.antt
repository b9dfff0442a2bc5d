-- ===== src/Guest/Memory/Copy.antt =====
-- What a copy of a block leaves in memory.
use prephv.Base.{ℕ, zero, suc, ◌+◌, ◌-◌, ◌≡◌, arith, ◌&&◌, leb, ltb, if◌then◌else◌, u8}
use prephv.Guest.Memory.{Memory, store8, load_bytes, store_bytes}

-- Memory with a block of another in it.
abbrev pub with_block : Memory → ℕ → ℕ → Memory → ℕ → ℕ → ℕ
with_block host d n mem a x = if leb a x && ltb x (a + n) then u8 (host (d + (x - a))) else mem x

pub copy_lem :
    (host mem : Memory) (d a n x : ℕ)
    → store_bytes mem a (load_bytes host d n) x ≡ with_block host d n mem a x
unfolding store_bytes load_bytes
copy_lem host mem d a zero x = ground arith
copy_lem host mem d a (suc n) x =
    rw (copy_lem host (store8 mem a (u8 (host d))) (d + 1) (a + 1) n x) (ground arith)
