-- ===== src/Mem/Init/Ends.antt =====
-- `mem_init` of mem.c ends on the fuel of its memory nodes.
use prephv.Base.{
  ℕ, ◌≡◌, ◌||◌, true, false, Option, none, some, [], ◌>>=◌, done, IfDone, IfDone->>=, IfDone-const,
}
use prephv.Mem.{Mem}
use prephv.Mem.Init.{Places, add_memory, take_out, mem_init}
use prephv.Mem.Init.Laws.{nodes_end, memory_at, first_node, FoundOk, add_memory-FoundOk}
use prephv.Mmu.Slb.{Err}
use prephv.Ranges.{Malloc, range_init}
use prephv.Ranges.Cut.{covers}
use prephv.Rom.Library.{Fdt}

abbrev pub HasEnded : Option (Err × Mem) → Type 0
HasEnded none = ⊥
HasEnded (some r) = Unit

pub mem_init-HasEnded :
    (fdt : Fdt) (mem : Malloc) (at : Places) (m : Mem) (fuel : ℕ)
    → nodes_end fdt fuel (first_node fdt) ≡ true
    → IfDone HasEnded (mem_init mem fdt fuel at m)
unfolding mem_init range_init
mem_init-HasEnded fdt mem at m fuel ends =
    IfDone->>= (FoundOk fdt (λ a. covers [] a || memory_at fdt fuel (first_node fdt) a)) HasEnded
      (add_memory mem fdt fuel (first_node fdt) false []) _
      (add_memory-FoundOk fdt mem fuel (first_node fdt) false [] ends tt) (λ r ok. found r ok)
  where
    found :
        (r : Option _)
        → FoundOk fdt (λ a. covers [] a || memory_at fdt fuel (first_node fdt) a) r
        → IfDone HasEnded (elim r [
          | none ↦ done none
          | some f ↦ (take_out mem fdt at m f >>= λ e. done (some e))
        ])
    found none ok = absurd ok
    found (some f) ok =
        IfDone->>= (λ _. Unit {0}) HasEnded (take_out mem fdt at m f) (λ e. done (some e))
          (IfDone-const (take_out mem fdt at m f) tt) (λ e k. tt)
