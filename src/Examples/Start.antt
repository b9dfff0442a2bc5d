-- ===== src/Examples/Start.antt =====
-- A firmware's tree with one memory node, and the theorems on `mem_init` and `cpu_init` there.
use prephv.Base.{
  arith, ℕ, ◌-◌, ◌^◌, ◌≡◌, refl, true, false, Option, none, some, List, [], ◌∷◌, done, IfDone, ◌==◌,
  if◌then◌else◌,
}
use prephv.Boot.Cpu.{Cpu}
use prephv.Mem.{Mem}
use prephv.Mem.Init.{
  Places, memory_reg, add_memory, remove_all, take_out, reserved, own_memory, initrd, initrd_prop,
  mem_init,
}
use prephv.Mem.Init.Laws.{memory_at, nodes_end, first_node}
use prephv.Mem.Init.Free.{IsLaidOut, Leaves, mem_init_frees}
use prephv.Mmu.Types.{ptr_2_ra}
use prephv.Mmu.Slb.{err_none}
use prephv.Ranges.{
  Ranges, range, range_init, insert, range_alloc, range_add, remove_step, remove_loop, range_remove,
}
use prephv.Rom.Library.{Fdt, CString, node, error, err_notfound}
use prephv.Examples.Machine.{enough, an_mmu}

-- 1 GB of memory from 0 on, and a disk from 0x20000000 to 0x20100000.
abbrev boot_prop : CString → Option (List ℕ)
boot_prop name =
    if name 0 == 114
    then some (0 ∷ 0 ∷ 0 ∷ 0 ∷ 0 ∷ 0 ∷ 0 ∷ 0 ∷ 0 ∷ 0 ∷ 0 ∷ 0 ∷ 0x40 ∷ 0 ∷ 0 ∷ 0 ∷ [])
    else if name 13 == 115
    then some (0x20 ∷ 0 ∷ 0 ∷ 0 ∷ [])
    else some (0x20 ∷ 0x10 ∷ 0 ∷ 0 ∷ [])

abbrev pub boot_tree : Fdt
boot_tree = record {
  fdt_path_offset = λ path. node 16;
  fdt_sibling = λ n. error err_notfound;
  fdt_subnode = λ n. node 8;
  fdt_parent_offset = λ n. node 0;
  fdt_get_name = λ n. none;
  fdt_getprop = λ n name. boot_prop name;
  fdt_node_offset_by_dtype = λ n dtype. if n == 2 ^ 32 - 1 then node 8 else error err_notfound;
  fdt_node_check_compatible = λ n s. if n == 2 ^ 32 - 1 then error 4 else node 0;
  fdt_node_offset_by_phandle = λ n. error err_notfound;
  fdt_get_path = λ n len. (false, []);
  fdt_num_mem_rsv = 1;
  fdt_get_mem_rsv = λ n. (0x30000000, 0x1000);
  fdt_size_dt_struct = 0x2000;
}

abbrev pub boot_places : Places
boot_places = record {
  start = 0x8000000000100000;
  end = 0x8000000000200000;
  vectors = 0x3000;
  tree = 0x8000000010000000;
}

abbrev pub boot_mem : Mem
boot_mem = record {
  mem_free_ranges = [];
  mem_early = true;
  early_memory = 0x8000000000180000;
  sbrk = 0x8000000000180000;
}

one_node : nodes_end boot_tree 1 (first_node boot_tree) ≡ true
unfolding nodes_end
one_node = refl

boot_places-IsLaidOut : IsLaidOut boot_tree boot_places 0x20000000 0x20100000
boot_places-IsLaidOut = record {
  start_low = omega arith;
  start-end = omega arith;
  end_high = omega arith;
  vectors_some = omega arith;
  vectors_high = omega arith;
  tree_low = omega arith;
  tree_some = omega arith;
  tree_high = omega arith;
  first-last = omega arith;
  last_high = omega arith;
  rsv_fit = λ i lt. (omega arith, omega arith);
}

disk_start : initrd_prop (some (0x20 ∷ 0 ∷ 0 ∷ 0 ∷ [])) ≡ done 0x20000000
unfolding initrd_prop
disk_start = refl

disk_end : initrd_prop (some (0x20 ∷ 0x10 ∷ 0 ∷ 0 ∷ [])) ≡ done 0x20100000
unfolding initrd_prop
disk_end = refl

mem_init_frees_example :
    IfDone
      (Leaves boot_tree boot_places 0x20000000 0x20100000 boot_places-IsLaidOut
        (memory_at boot_tree 1 (first_node boot_tree)))
      (mem_init enough boot_tree 1 boot_places boot_mem)
mem_init_frees_example =
    mem_init_frees boot_tree boot_places 0x20000000 0x20100000 boot_places-IsLaidOut enough boot_mem
      16 1 refl (omega arith) disk_start disk_end one_node

-- What is free in the end.
abbrev boot_free : Ranges
boot_free =
    range 0x3000 0xfffff
    ∷ range 0x200000 0xfffffff
    ∷ range 0x10002000 0x1fffffff
    ∷ range 0x20100000 0x2fffffff
    ∷ range 0x30001000 0x3fffffff
    ∷ []

mem_init-boot_free :
    mem_init enough boot_tree 1 boot_places boot_mem
    ≡ done (some (err_none, record boot_mem { mem_free_ranges = boot_free; mem_early = false }))
unfolding mem_init add_memory memory_reg take_out remove_all reserved initrd initrd_prop own_memory
    ptr_2_ra range_init range_add range_alloc insert remove_step remove_loop range_remove
mem_init-boot_free = refl

abbrev pub boot_cpu : Cpu
boot_cpu = record { slb_size = 0; tb_freq = 0; mmu = an_mmu; sdr1 = 0; reqs = []; dec = 0 }
