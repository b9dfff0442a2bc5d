-- ===== src/Exc/Client.antt =====
-- exc.c, guest.c and rom.c together: a guest that runs, and traps into `exc_handler` with the
-- client interface of rom.c behind it, over and over.
use prephv.Base.{
  ℕ, ◌+◌, ◌/◌, ◌%◌, ◌≤◌, Option, none, some, ◌*◌, ◌^◌, ◌<◌, ◌≡◌, ◌≢◌, Run, done, List, IfDone,
  IfDone-done, length,
}
use prephv.Guest.Memory.{Memory}
use prephv.Guest.Vm.{Frame, reg}
use prephv.Guest.State.{Guest}
use prephv.Guest.Memory.Above.{SameAbove, SameAbove-refl, SameAbove-trans}
use prephv.Mmu.Types.{Mmu}
use prephv.Mmu.Map.Region.{lookup}
use prephv.Rom.Calls.Above.{out_of_reach, IsBounded}
use prephv.Exc.Above.{exception-SameAbove}
use prephv.Exc.{resumes, World, exc_handler}
use prephv.Exc.Laws.{ExitOk, exc_handler-ExitOk}
use prephv.Rom.Library.{Platform}
use prephv.Rom.Call.{rom_call}
use prephv.Rom.Call.Laws.{DevOk, RomOk, rom_call-RomOk}
use prephv.Rom.Property.{available_prop}
use prephv.Rom.Property.Laws.{WordsAt, available_prop_lem}

-- The second word of an entry has a real address of the guest's RAM.
abbrev pub IsRam : Guest → ℕ → Type 0
IsRam g r =
    let frame = r % 2 ^ 60 / 2 ^ 12 * 2 ^ 12 in
    (g.ram ≤ frame + 2 ^ 63) × (frame + 2 ^ 63 < g.ram + g.ram_size)

-- Each of the guest's addresses that is mapped is mapped to its RAM.
abbrev pub Confined : Option Guest → Mmu → Type 0
Confined none m = ⊥
Confined (some g) m = (ea r : ℕ) → ea < 2 ^ 32 → lookup (some g) m ea ≡ done (some r) → IsRam g r

module _ {T : Type 0} (p : Platform) (time_handle : T → Run T) where
  open p use {hw, fdt}

  abbrev pub System : Type 0
  System = World hw (rom_call p) time_handle

  -- Whatever traps, with whatever arguments of the client interface.
  pub client_exc-ExitOk :
      (dar dsisr : ℕ) (w : System)
      → RomOk p w.vm
      → IfDone
          (ExitOk hw (rom_call p) time_handle (DevOk p))
          (exc_handler hw (rom_call p) time_handle dar dsisr w)
  client_exc-ExitOk dar dsisr w ok =
      exc_handler-ExitOk hw (rom_call p) time_handle (DevOk p) (rom_call-RomOk p) dar dsisr w ok

  -- The guest leaves any registers and any memory behind when it traps. While it runs, characters
  -- come in and the timebase goes on.
  abbrev pub runs_to : Frame → Memory → List ℕ → ℕ → System → System
  runs_to frame mem input timebase w = record w {
    vm = record w.vm {
      frame = frame;
      mem = mem;
      dev = record w.vm.dev { input = input; timebase = timebase };
    };
  }

  -- The states of the machine from a state on that the start leaves, as long as the guest reaches
  -- no memory but its own: its addresses are mapped to its RAM only, what it runs leaves the memory
  -- from 2 ^ 34 on as it is, and it traps at a 32-bit address with a 32-bit number in r3.
  pub data Reaches (start : System) : System → Type 0 where
    starts : Confined start.vm.guest start.vm.mmu → Reaches start start
    runs :
        {w : System} (frame : Frame) (mem : Memory) (input : List ℕ) (timebase : ℕ)
        → SameAbove out_of_reach w.vm.mem mem
        → Reaches start w
        → Reaches start (runs_to frame mem input timebase w)
    traps :
        {w w' : System} (dar dsisr : ℕ)
        → w.vm.frame.hsrr0 < 2 ^ 32
        → reg w.vm.frame 3 < 2 ^ 32
        → Reaches start w
        → exc_handler hw (rom_call p) time_handle dar dsisr w ≡ done (resumes, w')
        → Confined w'.vm.guest w'.vm.mmu
        → Reaches start w'

  -- If the start has the guest's invariant (a guest whose arrays have their lengths, whose registers
  -- have 32 bits and whose IR and DR agree), and available ranges in order that are whole pages,
  -- then so has every state that the machine reaches from it, and the memory from 2 ^ 34 on, where
  -- the hypervisor is, is that of the start: through runs of the guest, with any registers and any
  -- memory below, and through exceptions, of any cause, with every call of the client interface
  -- among them, that the handler returns from. This holds as long as the guest's addresses are
  -- mapped to its RAM only, which the method "map" does not see to, the guest does not write the
  -- memory from 2 ^ 34 on, and it traps with 32-bit numbers in its program counter and r3.
  pub Reaches-RomOk :
      (bounded : IsBounded p) (start w : System)
      → RomOk p start.vm
      → Reaches start w
      → RomOk p w.vm × SameAbove out_of_reach start.vm.mem w.vm.mem
  Reaches-RomOk bounded start w ok (starts confined) = (ok, SameAbove-refl out_of_reach w.vm.mem)
  Reaches-RomOk bounded start w ok (runs {w = before} frame mem input timebase same r) =
      let (kept, above) = Reaches-RomOk bounded start before ok r in
      (kept, SameAbove-trans out_of_reach start.vm.mem before.vm.mem mem above same)
  Reaches-RomOk bounded start w ok (traps {w = before} dar dsisr fetch args r e confined) =
      let (kept, above) = Reaches-RomOk bounded start before ok r in
      let trapped = exc_handler hw (rom_call p) time_handle dar dsisr before in
      (
        IfDone-done (ExitOk hw (rom_call p) time_handle (DevOk p)) trapped (resumes, w) e
            (client_exc-ExitOk dar dsisr before kept),
        SameAbove-trans out_of_reach start.vm.mem before.vm.mem w.vm.mem above (
            IfDone-done (λ r. SameAbove out_of_reach before.vm.mem r.1.vm.mem) trapped (resumes, w)
              e (exception-SameAbove p bounded time_handle dar dsisr before fetch args)),
      )

  -- In every state that the machine reaches, in the sense of `Reaches`, from a start with the guest's
  -- invariant and with available ranges in order that are whole pages, as long as these are fewer
  -- than 2 ^ 28, the property "available" is told without a stop, whatever buffer the guest passes;
  -- if there is one, its words are the ranges, base and size of each in big-endian order.
  pub available_never_stops :
      (bounded : IsBounded p) (start w : System) (mem : Memory)
      (name dest_len dest_data max_data : ℕ)
      → RomOk p start.vm
      → Reaches start w
      → 8 * length w.vm.dev.avail < 2 ^ 31
      → (mem' : Memory) × (available_prop fdt w.vm.dev mem name dest_len dest_data max_data
          ≡ done (0, mem'))
        × (dest_data ≢ 0
            → (i : ℕ) → i < length w.vm.dev.avail
            → WordsAt mem' dest_data w.vm.dev.avail i)
  available_never_stops bounded start w mem name dest_len dest_data max_data ok r few =
      let ((guest, (sorted, paged)), above) = Reaches-RomOk bounded start w ok r in
      available_prop_lem fdt w.vm.dev mem name dest_len dest_data max_data sorted paged few
