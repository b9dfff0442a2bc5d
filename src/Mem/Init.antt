-- ===== src/Mem/Init.antt =====
-- `mem_init` of mem.c: the free memory, from the firmware's tree.
pub mod Laws
pub mod Free
pub mod Ends
use prephv.Base.{
  ℕ, zero, suc, ◌+◌, ◌-◌, ◌*◌, ◌%◌, ◌^◌, Bool, true, false, ◌&&◌, Option, none, some, List, [], ◌∷◌,
  ◌++◌, Run, done, halt, ◌>>=◌, ◌>>◌, bug_on, ◌==◌, ◌!=◌, if◌then◌else◌, u32, u64, ◌-64◌, get_or,
  length,
}
use prephv.Mem.{Mem}
use prephv.Mmu.Slb.{Err, err_none, err_not_found}
use prephv.Mmu.Types.{ptr_2_ra}
use prephv.Ranges.{Ranges, Malloc, range_init, range_add, range_remove}
use prephv.Rom.Library.{Fdt, Found, node, error, err_notfound, literal}

-- `fdt32_to_cpu` and `fdt64_to_cpu`, of the bytes from an index on
abbrev pub fdt32 : List ℕ → ℕ → ℕ
fdt32 bytes i = u32 (
    get_or bytes i 0 * 2 ^ 24
    + get_or bytes (i + 1) 0 * 2 ^ 16
    + get_or bytes (i + 2) 0 * 2 ^ 8
    + get_or bytes (i + 3) 0)

abbrev pub fdt64 : List ℕ → ℕ → ℕ
fdt64 bytes i = fdt32 bytes i * 2 ^ 32 + fdt32 bytes (i + 4)

-- The base and the limit of an interval from its base and size.
abbrev pub interval : ℕ → ℕ → ℕ × ℕ
interval base size = (base, u64 (base + size) -64 1)

-- What "reg" says of a memory node.
unfoldable pub memory_reg : Option (List ℕ) → Run (ℕ × ℕ)
memory_reg none = halt
memory_reg (some prop) = do
  bug_on (length prop != 16)
  done (interval (fdt64 prop 0) (fdt64 prop 8))

-- A bound of the image of the disk, of 4 or 8 bytes.
unfoldable pub initrd_prop : Option (List ℕ) → Run ℕ
initrd_prop none = halt
initrd_prop (some prop) = do
  bug_on (length prop != 4 && length prop != 8)
  done (if length prop == 4 then fdt32 prop 0 else fdt64 prop 0)

-- The `int` of a node or an error that is passed on.
abbrev pub fdt_int : Found → ℕ
fdt_int (node n) = n
fdt_int (error e) = 2 ^ 32 - e

-- The addresses that the linker and the firmware give: `_start` and `_end`, the length of the
-- exception vectors, and the tree.
pub record Places : Type 0 where
  pub start : ℕ
  pub end : ℕ
  pub vectors : ℕ
  pub tree : ℕ

unfoldable pub remove_all : Malloc → List (ℕ × ℕ) → Ranges → Run Ranges
remove_all mem [] ranges = done ranges
remove_all mem ((base, limit) ∷ rest) ranges = do
  ranges' ← range_remove mem base limit ranges
  remove_all mem rest ranges'

module _ (mem : Malloc) (fdt : Fdt) where
  -- The loop over the memory nodes, at the node `n`: whether there was one, and the ranges. Fuel
  -- is one for each node, and `none` without.
  unfoldable pub add_memory : ℕ → ℕ → Bool → Ranges → Run (Option (Bool × Ranges))
  unfolding memory_reg
  add_memory zero n found ranges =
      if n == 2 ^ 32 - 1 then done (some (found, ranges)) else done none
  add_memory (suc fuel) n found ranges =
      if n == 2 ^ 32 - 1 then done (some (found, ranges)) else (do
        (base, limit) ← memory_reg (fdt.fdt_getprop n (literal "reg"))
        ranges' ← range_add mem ranges base limit
        add_memory fuel (fdt_int (fdt.fdt_node_offset_by_dtype n (literal "memory"))) true ranges')

module _ (fdt : Fdt) where
  -- The hypervisor, the exception vectors and the tree.
  unfoldable pub own_memory : Places → Run (List (ℕ × ℕ))
  own_memory at = do
    start ← ptr_2_ra at.start
    end ← ptr_2_ra at.end
    tree ← ptr_2_ra at.tree
    done ((start, end -64 1) ∷ (0, at.vectors -64 1) ∷ interval tree fdt.fdt_size_dt_struct ∷ [])

  -- The reserved memory, `left` entries from `i` on.
  unfoldable pub reserved : ℕ → ℕ → List (ℕ × ℕ)
  reserved zero i = []
  reserved (suc left) i =
      let (base, size) = fdt.fdt_get_mem_rsv i in interval base size ∷ reserved left (i + 1)

  unfoldable pub initrd : Run (ℕ × ℕ)
  unfolding initrd_prop
  initrd = do
    let n = fdt_int (fdt.fdt_path_offset (literal "/chosen"))
    bug_on (n == 2 ^ 32 - 1)
    start ← initrd_prop (fdt.fdt_getprop n (literal "linux,initrd-start"))
    end ← initrd_prop (fdt.fdt_getprop n (literal "linux,initrd-end"))
    done (interval start (end -64 start))

module _ (mem : Malloc) (fdt : Fdt) where
  -- Behind the memory nodes: nothing but an error without one.
  unfoldable pub take_out : Places → Mem → Bool × Ranges → Run (Err × Mem)
  unfolding remove_all own_memory reserved initrd
  take_out at m (false, ranges) = done (err_not_found, record m { mem_free_ranges = ranges })
  take_out at m (true, ranges) = do
    own ← own_memory fdt at
    ranges₁ ← remove_all mem own ranges
    ranges₂ ← remove_all mem (reserved fdt fdt.fdt_num_mem_rsv 0) ranges₁
    (base, limit) ← initrd fdt
    ranges₃ ← range_remove mem base limit ranges₂
    done (err_none, record m { mem_free_ranges = ranges₃; mem_early = false })

  unfoldable pub mem_init : ℕ → Places → Mem → Run (Option (Err × Mem))
  unfolding add_memory take_out
  mem_init fuel at m = do
    r ←
        add_memory mem fdt fuel
          (fdt_int (fdt.fdt_node_offset_by_dtype (2 ^ 32 - 1) (literal "memory"))) false range_init
    elim r [ none ↦ done none | some found ↦ (do e ← take_out at m found; done (some e)) ]
