-- ===== src/Examples/Boot.antt =====
-- The start of the machine with a disk that has the veneer.
use prephv.Base.{
  ◌≡◌, refl, true, false, Bool, some, none, done, Run, IfDone, [], ◌∷◌, is_aligned, align, align_up,
}
use prephv.Boot.Main.{Machine, c_main}
use prephv.Boot.Main.Laws.{Entered, c_main-Entered}
use prephv.Guest.State.{the_guest}
use prephv.Mem.Init.Laws.{nodes_end, first_node}
use prephv.Mmu.Types.{ra_2_ptr}
use prephv.Mmu.Slb.{Err, err_none}
use prephv.Ranges.{
  range_init, insert, range_alloc, range_add, remove_step, remove_loop, range_remove,
}
use prephv.Rom.Call.{RomVm, claim_at}
use prephv.Rom.Claim.{rom_claim, claim_address, align_up_32}
use prephv.Rom.Disk.{rom_disk_init, disk_of_chosen, disk_at}
use prephv.Rom.Init.{
  rom_init, init_ranges, init_trampoline, load_veneer, open_veneer, attach_disk, after_disk,
}
use prephv.Rom.Library.{Fat, Platform}
use prephv.Examples.Interface.{a_platform, a_rom_vm}
use prephv.Examples.Processor.{a_start, a_processor, a_processor-IsPower, the_registers}
use prephv.Examples.Start.{boot_tree, boot_mem, boot_cpu}

-- One file on the disk, of four bytes behind its header.
abbrev one_file : Fat
one_file = record {
  State = Unit {0};
  File = Unit {0};
  fl_init = tt;
  fl_attach_media = λ read s. (true, s);
  fl_fopen = λ path s. (some tt, s);
  fl_fread = λ len f s. (4, 0x44 ∷ 0 ∷ 0 ∷ 2 ∷ [], s);
  fl_fclose = λ f s. s;
  fl_fseek_end = λ f offset s. (true, s);
  fl_ftell = λ f s. 0x204;
  fl_fseek_set = λ f offset s. (true, s);
}

abbrev disk_platform : Platform
disk_platform = record a_platform { fat = one_file }

abbrev disk_vm : RomVm disk_platform
disk_vm = record {
  guest = a_rom_vm.guest;
  frame = a_rom_vm.frame;
  slb = a_rom_vm.slb;
  mem = a_rom_vm.mem;
  rtc0 = 0;
  mmu = a_rom_vm.mmu;
  dev = record {
    cur_file = none;
    files = tt;
    guest_disk = 0;
    guest_disk_offset = 0;
    guest_disk_len = 0;
    avail = [];
    memory_reg = [];
    memory_node = 0;
    stdin_csi = false;
    input = [];
    output = [];
    timebase = 0;
  };
}

abbrev succeeds {ℓ} : {A : Type ℓ} → Run (Err × A) → Bool
succeeds (done (err_none, a)) = true
succeeds _ = false

-- The client interface is set up there: the start goes on to the guest.
rom_init-succeeds : succeeds (rom_init disk_platform boot_tree disk_vm) ≡ true
unfolding rom_init init_ranges init_trampoline load_veneer open_veneer attach_disk after_disk
    rom_disk_init disk_of_chosen disk_at ra_2_ptr range_init range_add range_alloc insert
    remove_step remove_loop range_remove claim_at rom_claim claim_address align_up_32 is_aligned
    align align_up the_guest
rom_init-succeeds = refl

abbrev a_machine : Machine disk_platform
a_machine = record { memory = boot_mem; registers = the_registers; cpu = boot_cpu; vm = disk_vm }

one_node : nodes_end boot_tree 1 (first_node boot_tree) ≡ true
unfolding nodes_end
one_node = refl

c_main-Entered_example :
    IfDone
      (Entered disk_platform a_processor a_processor-IsPower boot_tree a_start)
      (c_main disk_platform a_processor boot_tree a_start 1 0x10000000 a_machine)
c_main-Entered_example =
    c_main-Entered disk_platform a_processor a_processor-IsPower boot_tree a_start 1 0x10000000 8 4
      a_machine one_node refl refl refl
