-- ===== src/Examples/Interface.antt =====
-- A platform with an empty tree and an empty disk, and the theorems on the client interface, on
-- the start and on the timers at a machine that runs there.
use prephv.Base.{
  Option, IfDone-after, IfDone-done, is_aligned, align, take, ℕ, ◌+◌, ◌-◌, ◌%◌, ◌^◌, ◌<◌, ◌≤◌, ◌⊎◌,
  ◌≡◌, ◌≢◌, refl, arith, true, false, none, some, List, [], ◌∷◌, Run, done, IfDone, inl, u32,
  if◌then◌else◌, ◌==◌,
}
use prephv.Exc.{resumes, exc_handler, after_guest}
use prephv.Exc.Client.{
  System, Reaches, starts, runs, traps, runs_to, Reaches-RomOk, available_never_stops, Confined,
}
use prephv.Guest.Memory.{Memory, load32, is_string}
use prephv.Guest.Memory.{store32}
use prephv.Guest.Memory.Above.{SameAbove, length-take, store32-SameAbove}
use prephv.Guest.State.{the_guest}
use prephv.Guest.Decode.{decode, mtspr}
use prephv.Mmu.Address.{ea_2_vpn, ea_2_seg_size, ea_2_base_size}
use prephv.Mmu.Map.Region.{lookup}
use prephv.Mmu.Htab.{is_valid}
use prephv.Mmu.Htab.Scan.{hit, walk_from}
use prephv.Mmu.Htab.Refine.{walk}
use prephv.Endian.{swab64}
use prephv.Rom.Calls.Above.{IsBounded}
use prephv.Rom.Claim.{rom_claim, claim_address, align_up_32}
use prephv.Rom.Call.{do_claim, claim_at}
use prephv.Ranges.{range_remove, remove_loop, remove_step, range_add, range_alloc, insert}
use prephv.Ppc.{exc_prog}
use prephv.Guest.Trap.{guest_exc_try, try_other}
use prephv.Ranges.{Ranges, range}
use prephv.Rom.Library.{Fdt, Fat, Platform, node, error, err_notfound}
use prephv.Rom.Device.{Dev, Reply, arg}
use prephv.Rom.Call.{RomVm, call_of, dispatch, rom_call}
use prephv.Rom.Call.Laws.{RomOk}
use prephv.Rom.Calls.Disk.Laws.{Filled, read_disk_lem}
use prephv.Rom.Disk.{guest_disk_read}
use prephv.Guest.Memory.Copy.{with_block}
use prephv.Rom.Disk.Laws.{guest_disk_read_lem}
use prephv.Rom.Property.{available_prop}
use prephv.Rom.Property.Laws.{WordsAt}
use prephv.Time.{Req}
use prephv.Time.Handle.{Handled, Callback, time_handle}
use prephv.Time.Handle.Laws.{NextOk, Fires, time_handle_lem, due_timers_fire}
use prephv.Ppc.{exc_sc}
use prephv.Examples.Machine.{table_slb, no_segments, a_guest, a_guest-IsValid, a_frame, an_mmu}

abbrev pub a_tree : Fdt
a_tree = record {
  fdt_path_offset = λ path. node 8;
  fdt_sibling = λ n. error err_notfound;
  fdt_subnode = λ n. node 8;
  fdt_parent_offset = λ n. node 0;
  fdt_get_name = λ n. some (109 ∷ 0 ∷ []);
  fdt_getprop = λ n name. none;
  fdt_node_offset_by_dtype = λ n dtype. node 8;
  fdt_node_check_compatible = λ n s. error 4;
  fdt_node_offset_by_phandle = λ n. error err_notfound;
  fdt_get_path = λ n len. (true, take len (47 ∷ 0 ∷ []));
  fdt_num_mem_rsv = 0;
  fdt_get_mem_rsv = λ n. (0, 0);
  fdt_size_dt_struct = 64;
}

-- No file is on the disk.
abbrev pub no_files : Fat
no_files = record {
  State = Unit {0};
  File = Unit {0};
  fl_init = tt;
  fl_attach_media = λ read s. (true, s);
  fl_fopen = λ path s. (none, s);
  fl_fread = λ len f s. (0, [], s);
  fl_fclose = λ f s. s;
  fl_fseek_end = λ f offset s. (true, s);
  fl_ftell = λ f s. 0;
  fl_fseek_set = λ f offset s. (true, s);
}

-- The byte at an address of the hypervisor's memory is the lowest one of the address.
abbrev pub a_platform : Platform
a_platform = record {
  hw = table_slb;
  fat = no_files;
  fdt = a_tree;
  malloc = λ base limit. true;
  strstr = λ s t. false;
  host = λ a. a % 2 ^ 8;
  tb_freq = 512000000;
}

abbrev two_ranges : Ranges
two_ranges = range 0x1000 0x4fff ∷ range 0x60000 0x1ffffff ∷ []

abbrev a_dev : ℕ → Dev no_files
a_dev offset = record {
  cur_file = none;
  files = tt;
  guest_disk = 0x8000000020000000;
  guest_disk_offset = offset;
  guest_disk_len = 0x100000;
  avail = two_ranges;
  memory_reg = range 0 0x1ffffff ∷ [];
  memory_node = 8;
  stdin_csi = false;
  input = [];
  output = [];
  timebase = 0;
}

-- An argument array that is all 0, and so an unknown call.
abbrev pub no_memory : Memory
no_memory a = 0

abbrev pub a_rom_vm : RomVm a_platform
a_rom_vm = record {
  guest = some a_guest;
  frame = a_frame exc_sc 0x1000 0x4002;
  slb = no_segments;
  mem = no_memory;
  rtc0 = 0;
  mmu = an_mmu;
  dev = a_dev 0;
}

a_rom_vm-RomOk : RomOk a_platform a_rom_vm
a_rom_vm-RomOk = (
  a_guest-IsValid,
  (
    (omega arith, omega arith, omega arith, (omega arith, omega arith, omega arith, tt)),
    (refl, refl, (refl, refl, tt)),
  ),
)

-- The timers of the machine do not come in here.
abbrev pub stay : ℕ → Run ℕ
stay t = done t

abbrev pub a_system : System a_platform stay
a_system = record { vm = a_rom_vm; time = 0 }

pub a_platform-IsBounded : IsBounded a_platform
a_platform-IsBounded = record {
  fread_bounded = λ len f s. omega arith;
  path_bounded = λ n len. length-take len _;
}

-- The arguments of "claim" at 0, for the page at 0x3000, with its name at 0x100.
abbrev claim_memory : Memory
claim_memory a =
    if a == 1
    then 1
    else if a == 13
    then 0x30
    else if a == 17
    then 0x10
    else if a == 0x100
    then 99
    else if a == 0x101
    then 108
    else if a == 0x102
    then 97
    else if a == 0x103
    then 105
    else if a == 0x104
    then 109
    else 0

abbrev system_calls : System a_platform stay
system_calls = record { vm = record a_rom_vm { mem = claim_memory }; time = 0 }

-- The page is no longer available, and the address is in the cell for it.
abbrev pub claimed : Memory
claimed = store32 claim_memory 24 0x3000

abbrev three_ranges : Ranges
three_ranges = range 0x1000 0x2fff ∷ range 0x4000 0x4fff ∷ range 0x60000 0x1ffffff ∷ []

abbrev system_behind : System a_platform stay
system_behind = record {
  vm = record a_rom_vm {
    frame = record a_rom_vm.frame { hsrr0 = 0 };
    mem = claimed;
    dev = record a_rom_vm.dev { avail = three_ranges };
  };
  time = 0;
}

claim_resumes :
    exc_handler table_slb (rom_call a_platform) stay 0 0 system_calls
    ≡ done (resumes, system_behind)
unfolding exc_handler after_guest guest_exc_try try_other rom_call call_of is_string load32 dispatch
    do_claim claim_at rom_claim claim_address align_up_32 is_aligned align the_guest range_remove
    remove_loop remove_step range_add range_alloc insert
claim_resumes = refl

-- Nothing is mapped.
abbrev IsNone : Option ℕ → Type 0
IsNone none = Unit
IsNone (some r) = ⊥

nothing_mapped : (ea : ℕ) → IfDone IsNone (lookup (some a_guest) an_mmu ea)
unfolding lookup walk walk_from hit is_valid swab64
nothing_mapped ea = IfDone-after IsNone (ea_2_vpn (some a_guest) ea) _ (λ vpn.
    IfDone-after IsNone (ea_2_seg_size (some a_guest) ea) _
      (λ seg. IfDone-after IsNone (ea_2_base_size (some a_guest) ea) _ (λ base. tt)))

nothing_mapped-Confined : Confined (some a_guest) an_mmu
nothing_mapped-Confined ea r low e =
    absurd (IfDone-done IsNone (lookup (some a_guest) an_mmu ea) (some r) e (nothing_mapped ea))

-- The guest claims a page, and goes on: it has written 7 to 0x500 when it traps again.
abbrev ran_on : Memory
ran_on = store32 claimed 0x500 7

abbrev ran : System a_platform stay
ran = runs_to a_platform stay (a_frame exc_sc 0x2000 0x4002) ran_on (65 ∷ []) 7 system_behind

abbrev a_run : Reaches a_platform stay system_calls ran
a_run =
    runs (a_frame exc_sc 0x2000 0x4002) ran_on (65 ∷ []) 7
      (store32-SameAbove (2 ^ 34) claimed 0x500 7 (omega arith))
      (traps 0 0 (omega arith) (omega arith) (starts nothing_mapped-Confined) claim_resumes
        nothing_mapped-Confined)

Reaches-RomOk_example : RomOk a_platform ran.vm × SameAbove (2 ^ 34) claim_memory ran_on
Reaches-RomOk_example =
    Reaches-RomOk a_platform stay a_platform-IsBounded system_calls ran a_rom_vm-RomOk a_run

-- mtspr of r3 to SPRG0, at 0x1000.
abbrev mtspr_memory : Memory
mtspr_memory a =
    if a == 0x1000
    then 0xa6
    else if a == 0x1001
    then 0x43
    else if a == 0x1002
    then 0x70
    else if a == 0x1003
    then 0x7c
    else 0

mtspr_is_read : decode (load32 mtspr_memory 0x1000) ≡ mtspr
unfolding load32 decode
mtspr_is_read = refl

abbrev mtspr_vm : RomVm a_platform
mtspr_vm = record a_rom_vm { frame = a_frame exc_prog 0x1000 0x4002; mem = mtspr_memory }

abbrev a_buffer : ℕ
a_buffer = 0x200

available_never_stops_example :
    (mem' : Memory) × (available_prop a_tree ran.vm.dev ran_on 0 0x100 0x200 64 ≡ done (0, mem'))
    × (a_buffer ≢ 0 → (i : ℕ) → i < 3 → WordsAt mem' 0x200 three_ranges i)
available_never_stops_example =
    available_never_stops a_platform stay a_platform-IsBounded system_calls ran ran_on 0 0x100 0x200
      64 a_rom_vm-RomOk a_run (omega arith)

guest_disk_read_lem_example :
    guest_disk_read a_platform.host 0x8000000020000000 4 0x1000 2 no_memory 0x1400
    ≡ with_block a_platform.host 0x8000000020000800 1536 no_memory 0x1000 0x1400
guest_disk_read_lem_example =
    guest_disk_read_lem a_platform.host no_memory 0x8000000020000000 4 0x1000 2 0x1400 (omega arith)
      (omega arith)

abbrev an_offset : ℕ
an_offset = 0xffffff00

-- The guest asks for 512 bytes from 256 before the end of 32 bits: the sum is within the image.
-- Every word in the argument cells is 0x200.
abbrev words_512 : Memory
words_512 a = if a % 4 == 1 then 2 else 0

abbrev a_reply : Reply no_files
a_reply = record { mem = words_512; r3 = 0; dev = a_dev an_offset }

a_reply-fits : u32 (an_offset + arg 0x3000 5 a_reply) ≤ 0x100000
unfolding load32
a_reply-fits = omega arith

read_disk_lem_example :
    let len = arg 0x3000 5 a_reply in
    ((an_offset < 2 ^ 31)
      × (an_offset + len ≤ 0x100000)
      × Filled a_platform 0x3000 a_reply 0x210 (0x8000000020000000 + an_offset))
    ⊎ (((an_offset < 2 ^ 31)
          × (2 ^ 32 ≤ an_offset + len)
          × (0x100000 < an_offset + len)
          × Filled a_platform 0x3000 a_reply 0x210 (0x8000000020000000 + an_offset))
        ⊎ ((2 ^ 31 ≤ an_offset)
            × Filled a_platform 0x3000 a_reply 0x210 (0x8000000020000000 - (2 ^ 32 - an_offset))))
read_disk_lem_example =
    read_disk_lem a_platform 0x3000 a_reply 0x210 (omega arith) (omega arith) (omega arith)
      (omega arith) a_reply-fits (inl (omega arith))

-- A timer of 100 ticks that fires once, and one that its callback puts back 1000 ticks later.
abbrev two_timers : List Req
two_timers = record { id = 1; when = 100 } ∷ record { id = 2; when = 5000 } ∷ []

abbrev once : Callback
once t now = none

abbrev again : Callback
again t now = some (now + 1000)

time_handle_lem_example : IfDone NextOk (time_handle again (200 ∷ 210 ∷ 220 ∷ []) two_timers)
time_handle_lem_example =
    time_handle_lem again (200 ∷ 210 ∷ 220 ∷ []) two_timers
      (omega arith, omega arith, (omega arith, omega arith, tt))

due_timers_fire_example :
    (h : Handled) × (dec : ℕ) × (time_handle once (200 ∷ 210 ∷ 220 ∷ []) two_timers
      ≡ done (some (h, dec)))
    × Fires 200 two_timers (some h)
due_timers_fire_example =
    due_timers_fire once 200 200 (210 ∷ 220 ∷ []) two_timers
      (omega arith, omega arith, (omega arith, omega arith, tt))
      ((λ now. refl), ((λ now. refl), tt)) (omega arith, (omega arith, tt)) (omega arith)
