-- ===== src/Rom/Library.antt =====
-- What rom.c and mem.c call of code that the repository only carries: the device tree library of
-- fdt.c and fdt_ro.c, the FAT library of fat/, and `strstr` of lib/string.c.
use Prim.Native.Char.{code}
use Prim.Native.String.{String, [], ◌∷◌}
use prephv.Base.{ℕ, zero, suc, ◌+◌, Bool, Option, List, u8}
use prephv.Guest.Memory.{Memory}
use prephv.Mmu.Slb.{SlbUnit}
use prephv.Ranges.{Malloc}

-- A C string: the bytes from its address on, as far as its NUL.
abbrev pub CString : Type 0
CString = ℕ → ℕ

abbrev pub string_at : Memory → ℕ → CString
string_at mem a i = u8 (mem (a + i))

abbrev pub literal : String → CString
literal [] i = 0
literal (c ∷ s) zero = code c
literal (c ∷ s) (suc i) = literal s i

-- What libfdt returns for a node: its offset, or the negative of an error's number.
pub data Found : Type 0 where
  node : ℕ → Found
  error : ℕ → Found

-- FDT_ERR_NOTFOUND of libfdt.h
abbrev pub err_notfound : ℕ
err_notfound = 1

-- The calls on a tree. A node that is passed is the `int`, as its 32 bits; a property or a name
-- is its bytes, or NULL.
pub record Fdt : Type 0 where
  pub fdt_path_offset : CString → Found
  pub fdt_sibling : ℕ → Found
  pub fdt_subnode : ℕ → Found
  pub fdt_parent_offset : ℕ → Found
  pub fdt_get_name : ℕ → Option (List ℕ)
  pub fdt_getprop : ℕ → CString → Option (List ℕ)
  pub fdt_node_offset_by_dtype : ℕ → CString → Found
  -- 0 or 1, or the negative of an error's number
  pub fdt_node_check_compatible : ℕ → CString → Found
  pub fdt_node_offset_by_phandle : ℕ → Found
  -- whether it succeeded, and what it wrote to a buffer of a length
  pub fdt_get_path : ℕ → ℕ → Bool × List ℕ
  pub fdt_num_mem_rsv : ℕ
  pub fdt_get_mem_rsv : ℕ → ℕ × ℕ
  pub fdt_size_dt_struct : ℕ

-- The calls on files: `State` is all that the library keeps, and a read returns its value and
-- the bytes that it wrote. `fl_fseek` tells whether it returned 0, and `fl_attach_media`, which
-- takes the function that reads sectors into memory, whether it returned FAT_INIT_OK.
pub record Fat : Type 1 where
  pub State : Type 0
  pub File : Type 0
  pub fl_init : State
  pub fl_attach_media : (ℕ → ℕ → ℕ → Memory → Memory) → State → Bool × State
  pub fl_fopen : CString → State → Option File × State
  pub fl_fread : ℕ → File → State → ℕ × List ℕ × State
  pub fl_fclose : File → State → State
  pub fl_fseek_end : File → ℕ → State → Bool × State
  pub fl_ftell : File → State → ℕ
  pub fl_fseek_set : File → ℕ → State → Bool × State

-- All that the client interface runs on. `host` is the hypervisor's memory with the disk image
-- in it, and `tb_freq` the frequency of the timebase.
pub record Platform : Type 1 where
  pub hw : SlbUnit
  pub fat : Fat
  pub fdt : Fdt
  pub malloc : Malloc
  pub strstr : CString → CString → Bool
  pub host : Memory
  pub tb_freq : ℕ
