-- ===== src/Mem/Init/Free.antt =====
-- What `mem_init` of mem.c takes out of the memory, by the addresses of what is there.
use prephv.Base.{
  ℕ, zero, suc, ◌+◌, ◌-◌, ◌^◌, ◌≤◌, ◌<◌, ◌≡◌, ◌≢◌, refl, arith, true, false, ◌&&◌, not, Option,
  none, some, List, [], ◌∷◌, done, ltb, ◌-64◌, u64, ◌∙◌, sym, IfDone, IfDone-map, Bool-cases, ◌⊎◌,
  inl, inr, ◌↔◌, ◌==◌, Bool,
}
use native.Mathlib.Decide.{ℕ_discrete}
use prephv.Mem.{Mem}
use prephv.Mem.Init.{interval, fdt_int, Places, own_memory, reserved, initrd, initrd_prop, mem_init}
use prephv.Mem.Init.Laws.{avoids, nodes_end, memory_at, first_node, taken, FreeOk, mem_init_lem}
use prephv.Mmu.Map.Hv.{ptr_2_ra_lem}
use prephv.Mmu.Slb.{Err, err_none}
use prephv.Ranges.{Malloc}
use prephv.Ranges.Cut.{inside, covers}
use prephv.Rom.Library.{Fdt, literal}

outside : (b l e a : ℕ) → l + 1 ≡ e → (not (inside b l a) ≡ true) ↔ ((a < b) ⊎ (e ≤ a))
unfolding inside
outside b l e a last = (
  λ out. elim (Bool-cases (ltb a b)) [ inl lt ↦ inl (ground arith) | inr ge ↦ inr (ground arith) ],
  λ c. elim c [ inl lt ↦ ground arith | inr le ↦ ground arith ],
)

and_true : (a b : Bool) → ((a && b) ≡ true) ↔ ((a ≡ true) × (b ≡ true))
and_true a b = (λ h. (ground arith, ground arith), λ (p, q). ground arith)

all_true : (a b c : Bool) → ((a && b && c) ≡ true) ↔ ((a ≡ true) × (b ≡ true) × (c ≡ true))
all_true a b c = (λ h. (ground arith, ground arith, ground arith), λ (p, q, r). ground arith)

nested_true :
    (a b c : Bool) → ((a && (b && (c && true))) ≡ true) ↔ ((a ≡ true) × (b ≡ true) × (c ≡ true))
nested_true a b c = (λ h. (ground arith, ground arith, ground arith), λ (p, q, r). ground arith)

-- A real address, and the hypervisor's address for it.
raised :
    (a low high : ℕ)
    → 2 ^ 63 ≤ low
    → 2 ^ 63 ≤ high
    → ((a < low - 2 ^ 63) ⊎ (high - 2 ^ 63 ≤ a)) ↔ ((a + 2 ^ 63 < low) ⊎ (high ≤ a + 2 ^ 63))
raised a low high p q = (
  λ c. elim c [ inl lt ↦ inl (omega arith) | inr le ↦ inr (omega arith) ],
  λ c. elim c [ inl lt ↦ inl (omega arith) | inr le ↦ inr (omega arith) ],
)

module _ (fdt : Fdt) where
  -- The interval of a reservation is not empty and ends in the address space.
  abbrev pub Fits : ℕ → Type 0
  Fits i = let (base, size) = fdt.fdt_get_mem_rsv i in (0 < size) × (base + size < 2 ^ 64)

  abbrev pub IsOutside : ℕ → ℕ → Type 0
  IsOutside i a = let (base, size) = fdt.fdt_get_mem_rsv i in (a < base) ⊎ (base + size ≤ a)

  -- Where the hypervisor and the tree lie, in the upper half of the addresses, and the disk.
  pub record IsLaidOut (at : Places) (first last : ℕ) : Type 0 where
    pub start_low : 2 ^ 63 ≤ at.start
    pub start-end : at.start < at.end
    pub end_high : at.end < 2 ^ 64
    pub vectors_some : 0 < at.vectors
    pub vectors_high : at.vectors < 2 ^ 64
    pub tree_low : 2 ^ 63 ≤ at.tree
    pub tree_some : 0 < fdt.fdt_size_dt_struct
    pub tree_high : at.tree + fdt.fdt_size_dt_struct < 2 ^ 64
    pub first-last : first < last
    pub last_high : last < 2 ^ 64
    pub rsv_fit : (i : ℕ) → i < fdt.fdt_num_mem_rsv → Fits i

  -- The real address is not the hypervisor's, the vectors', the tree's, reserved or the disk's.
  abbrev pub IsFree : Places → ℕ → ℕ → ℕ → Type 0
  IsFree at first last a =
      ((a + 2 ^ 63 < at.start) ⊎ (at.end ≤ a + 2 ^ 63))
      × (at.vectors ≤ a)
      × ((a + 2 ^ 63 < at.tree) ⊎ (at.tree + fdt.fdt_size_dt_struct ≤ a + 2 ^ 63))
      × ((i : ℕ) → i < fdt.fdt_num_mem_rsv → IsOutside i a)
      × ((a < first) ⊎ (last ≤ a))

  reserved_avoided :
      (left i a : ℕ)
      → ((k : ℕ) → k < i + left → Fits k)
      → (avoids (reserved fdt left i) a ≡ true) ↔ ((k : ℕ) → i ≤ k → k < i + left → IsOutside k a)
  unfolding reserved avoids
  reserved_avoided zero i a fit = (λ _ k low high. absurd (omega arith), λ _. refl)
  reserved_avoided (suc left) i a fit =
      let (base, size) = fdt.fdt_get_mem_rsv i in
      let (some_size, high) = fit i (omega arith) in
      let here = outside base (u64 (base + size) -64 1) (base + size) a (omega arith) in
      let later = reserved_avoided left (i + 1) a (λ k lt. fit k (omega arith)) in
      let both =
        and_true (not (inside base (u64 (base + size) -64 1) a))
          (avoids (reserved fdt left (i + 1)) a) in
      (
        λ h k low lt. elim (ℕ_discrete k i) [
          | yes e ↦ rw e (here.0 (both.0 h).0)
          | no ne ↦ later.0 (both.0 h).1 k (omega arith) (omega arith)
        ],
        λ all. both.1 (
          here.1 (all i (omega arith) (omega arith)),
          later.1 (λ k low lt. all k (omega arith) (omega arith)),
        ),
      )

  module _ (at : Places) (first last : ℕ) (laid : IsLaidOut at first last) where
    own : List (ℕ × ℕ)
    own =
        (at.start - 2 ^ 63, (at.end - 2 ^ 63) -64 1)
        ∷ (0, at.vectors -64 1)
        ∷ interval (at.tree - 2 ^ 63) fdt.fdt_size_dt_struct
        ∷ []

    disk : ℕ × ℕ
    disk = interval first (last -64 first)

    own_is : own_memory fdt at ≡ done own
    unfolding own_memory own
    own_is =
        rw
          (
            ptr_2_ra_lem at.start laid.start_low (omega (arith, laid.start-end, laid.end_high)),
            ptr_2_ra_lem at.end (omega (arith, laid.start_low, laid.start-end)) laid.end_high,
            ptr_2_ra_lem at.tree laid.tree_low (omega (arith, laid.tree_high)),
          )
          refl

    disk_is :
        (chosen : ℕ)
        → fdt_int (fdt.fdt_path_offset (literal "/chosen")) ≡ chosen
        → chosen ≢ 2 ^ 32 - 1
        → initrd_prop (fdt.fdt_getprop chosen (literal "linux,initrd-start")) ≡ done first
        → initrd_prop (fdt.fdt_getprop chosen (literal "linux,initrd-end")) ≡ done last
        → initrd fdt ≡ done disk
    unfolding initrd disk
    disk_is chosen is there from to =
        let found : (chosen == 2 ^ 32 - 1) ≡ false = ground arith in rw (is, found, from, to) refl

    own_avoided :
        (a : ℕ)
        → (avoids own a ≡ true) ↔ (
            ((a + 2 ^ 63 < at.start) ⊎ (at.end ≤ a + 2 ^ 63))
            × (at.vectors ≤ a)
            × ((a + 2 ^ 63 < at.tree) ⊎ (at.tree + fdt.fdt_size_dt_struct ≤ a + 2 ^ 63)))
    unfolding avoids own
    own_avoided a =
        let image =
          outside (at.start - 2 ^ 63) ((at.end - 2 ^ 63) -64 1) (at.end - 2 ^ 63) a
            (omega (arith, laid.start_low, laid.start-end, laid.end_high)) in
        let low =
          outside 0 (at.vectors -64 1) at.vectors a
            (omega (arith, laid.vectors_some, laid.vectors_high)) in
        let size = fdt.fdt_size_dt_struct in
        let top = at.tree + size in
        let tree =
          outside (at.tree - 2 ^ 63) (u64 (at.tree - 2 ^ 63 + size) -64 1) (top - 2 ^ 63) a
            (omega (arith, laid.tree_low, laid.tree_some, laid.tree_high)) in
        let image_up =
          raised a at.start at.end laid.start_low (omega (arith, laid.start_low, laid.start-end)) in
        let tree_up = raised a at.tree top laid.tree_low (omega (arith, laid.tree_low)) in
        let all =
          nested_true (not (inside (at.start - 2 ^ 63) ((at.end - 2 ^ 63) -64 1) a))
            (not (inside 0 (at.vectors -64 1) a))
            (not (inside (at.tree - 2 ^ 63) (u64 (at.tree - 2 ^ 63 + size) -64 1) a)) in
        (
          λ h.
              let (p, q, r) = all.0 h in
              let out = low.0 q in
              (
                image_up.0 (image.0 p),
                (elim out [ inl lt ↦ absurd (omega arith) | inr le ↦ le ]),
                tree_up.0 (tree.0 r),
              ),
          λ (p, q, t). all.1 (image.1 (image_up.1 p), low.1 (inr q), tree.1 (tree_up.1 t)),
        )

    taken-IsFree : (a : ℕ) → (taken fdt own disk a ≡ true) ↔ IsFree at first last a
    unfolding disk
    taken-IsFree a =
        let rsv = reserved_avoided fdt.fdt_num_mem_rsv 0 a (λ k lt. laid.rsv_fit k (omega arith)) in
        let image =
          outside first (u64 (first + (last -64 first)) -64 1) last a
            (omega (arith, laid.first-last, laid.last_high)) in
        let all =
          all_true (avoids own a) (avoids (reserved fdt fdt.fdt_num_mem_rsv 0) a)
            (not (inside first (u64 (first + (last -64 first)) -64 1) a)) in
        (
          λ h.
              let (p, r, d) = all.0 h in
              let (start, low, tree) = (own_avoided a).0 p in
              (start, low, tree, (λ i lt. rsv.0 r i (omega arith) (omega arith)), image.0 d),
          λ (start, low, tree, res, d). all.1 (
            (own_avoided a).1 (start, low, tree),
            rsv.1 (λ k below lt. res k (omega arith)),
            image.1 d,
          ),
        )

    -- No memory is taken out with an error.
    abbrev pub Leaves : (ℕ → Bool) → Option (Err × Mem) → Type 0
    Leaves has none = ⊥
    Leaves has (some (err_none, m)) =
        (m.mem_early ≡ false)
        × ((a : ℕ)
            → (covers m.mem_free_ranges a ≡ true) ↔ ((has a ≡ true) × IsFree at first last a))
    Leaves has (some (err, m)) = (a : ℕ) → covers m.mem_free_ranges a ≡ has a

    FreeOk-Leaves :
        (has : ℕ → Bool) (r : Option (Err × Mem))
        → FreeOk fdt has (taken fdt own disk) r
        → Leaves has r
    FreeOk-Leaves has none ok = absurd ok
    FreeOk-Leaves has (some (err_none, m)) (late, same) = (
      late,
      λ a. (
        λ c.
            let (p, q) = (and_true (has a) (taken fdt own disk a)).0 (sym (same a) ∙ c) in
            (p, (taken-IsFree a).0 q),
        λ (p, q). same a ∙ (and_true (has a) (taken fdt own disk a)).1 (p, (taken-IsFree a).1 q),
      ),
    )
    FreeOk-Leaves has (some (_, m)) same = same

    -- With the hypervisor, its vectors, the tree, the reservations and the disk each in a place of its
    -- size in the address space, and the hypervisor and the tree in its upper half, and if the search
    -- for memory nodes ends within the fuel: whenever no BUG_ON stops it, `mem_init` returns; without
    -- an error the allocator is ready, and free are exactly the addresses that a memory node has and
    -- that are not the hypervisor's, not below the end of the vectors, not the tree's, in none of
    -- the reservations, and not the disk's. The ranges may come in any order and may overlap.
    pub mem_init_frees :
        (mem : Malloc) (m : Mem) (chosen fuel : ℕ)
        → fdt_int (fdt.fdt_path_offset (literal "/chosen")) ≡ chosen
        → chosen ≢ 2 ^ 32 - 1
        → initrd_prop (fdt.fdt_getprop chosen (literal "linux,initrd-start")) ≡ done first
        → initrd_prop (fdt.fdt_getprop chosen (literal "linux,initrd-end")) ≡ done last
        → nodes_end fdt fuel (first_node fdt) ≡ true
        → IfDone (Leaves (memory_at fdt fuel (first_node fdt))) (mem_init mem fdt fuel at m)
    mem_init_frees mem m chosen fuel is there from to ends =
        let has = memory_at fdt fuel (first_node fdt) in
        IfDone-map (FreeOk fdt has (taken fdt own disk)) (Leaves has) (mem_init mem fdt fuel at m)
          (mem_init_lem fdt mem at m own disk own_is (disk_is chosen is there from to) fuel ends)
          (FreeOk-Leaves has)
