-- ===== src/Rom/Device.antt =====
-- The static variables of rom.c, and what one call of the client interface reads and writes.
use prephv.Base.{ℕ, ◌+◌, ◌*◌, ◌-◌, ◌^◌, Bool, Option, List, u32, u64}
use prephv.Guest.Memory.{Memory, load32, store32}
use prephv.Ranges.{Ranges}
use prephv.Rom.Library.{Fat, Found, node, error}

-- `guest_disk` is an address, and `guest_disk_offset`, an `int`, is kept as its 32 bits. `stdin_csi`
-- is the static `csi` of `rom_stdin`. `input` and `output` are the terminal's two sides, and `timebase`
-- what `mftb` reads.
pub record Dev (fat : Fat) : Type 0 where
  pub cur_file : Option fat.File
  pub files : fat.State
  pub guest_disk : ℕ
  pub guest_disk_offset : ℕ
  pub guest_disk_len : ℕ
  pub avail : Ranges
  pub memory_reg : Ranges
  pub memory_node : ℕ
  pub stdin_csi : Bool
  pub input : List ℕ
  pub output : List ℕ
  pub timebase : ℕ

-- The memory, `frame->r3` and the statics, which are all that most calls change.
pub record Reply (fat : Fat) : Type 0 where
  pub mem : Memory
  pub r3 : ℕ
  pub dev : Dev fat

-- NODE_MUNGE and NODE_DEMUNGE
abbrev pub node_munge : ℕ → ℕ
node_munge x = u32 (x + 0x10000000)

abbrev pub node_demunge : ℕ → ℕ
node_demunge x = u32 (x + 2 ^ 32 - 0x10000000)

-- -1, as `uint64_t` and as `uint32_t`
abbrev pub minus_one : ℕ
minus_one = 2 ^ 64 - 1

abbrev pub minus_one_32 : ℕ
minus_one_32 = 2 ^ 32 - 1

-- `cia + k`, of a `uint32_t *`
abbrev pub cell : ℕ → ℕ → ℕ
cell cia k = u64 (cia + 4 * k)

module _ {fat : Fat} where
  -- `*(cia + k)`
  abbrev pub arg : ℕ → ℕ → Reply fat → ℕ
  arg cia k s = load32 s.mem (cell cia k)

  -- `*(cia + k) = v`
  abbrev pub put_cell : ℕ → ℕ → ℕ → Reply fat → Reply fat
  put_cell cia k v s = record s { mem = store32 s.mem (cell cia k) v }

  -- `frame->r3 = v`
  abbrev pub returns : ℕ → Reply fat → Reply fat
  returns v s = record s { r3 = v }

  -- A node goes to `*(cia + 4)`; an error is -1 in r3.
  unfoldable pub reply_node : ℕ → Found → Reply fat → Reply fat
  reply_node cia (node n) s = returns 0 (put_cell cia 4 (node_munge n) s)
  reply_node cia (error e) s = returns minus_one s
