-- ===== src/Mem/Init/Laws.antt =====
-- What `mem_init` of mem.c leaves free.
use prephv.Base.{
  ℕ, zero, suc, ◌+◌, ◌-◌, ◌^◌, ◌<◌, ◌≡◌, refl, arith, Bool, true, false, ◌&&◌, ◌||◌, not, Option,
  none, some, List, [], ◌∷◌, done, ◌>>=◌, ◌==◌, ◌!=◌, ◌∙◌, IfDone, IfDone->>=, IfDone-const,
  IfDone-map, IfDone-done, IfDone-bug_on, length, Bool-cases, inl, inr,
}
use prephv.Mem.{Mem}
use prephv.Mem.Init.{
  fdt64, interval, memory_reg, Places, add_memory, remove_all, own_memory, reserved, initrd,
  initrd_prop, take_out, mem_init, fdt_int,
}
use prephv.Mmu.Slb.{Err, err_none}
use prephv.Mmu.Types.{ptr_2_ra}
use prephv.Ranges.{Ranges, Malloc, range_init, range_add, range_remove}
use prephv.Ranges.Cut.{inside, covers, IsBelow}
use prephv.Ranges.Subtract.{Covers, range_add-Covers, range_remove-Covers}
use prephv.Rom.Library.{Fdt, literal}

-- No interval of the list has the address.
unfoldable pub avoids : List (ℕ × ℕ) → ℕ → Bool
avoids [] a = true
avoids ((base, limit) ∷ rest) a = not (inside base limit a) && avoids rest a

-- Every limit has 64 bits.
abbrev pub AllFit : List (ℕ × ℕ) → Type 0
AllFit [] = Unit {0}
AllFit ((base, limit) ∷ rest) = (limit < 2 ^ 64) × AllFit rest

module _ (mem : Malloc) where
  remove_all-Covers :
      (is : List (ℕ × ℕ)) (xs : Ranges)
      → AllFit is
      → IsBelow (2 ^ 64) xs
      → IfDone (Covers (λ a. covers xs a && avoids is a)) (remove_all mem is xs)
  unfolding remove_all
  remove_all-Covers [] xs f b = (b, (λ a. unfold avoids in ground arith))
  remove_all-Covers ((base, limit) ∷ rest) xs f b =
      IfDone->>= (Covers (λ a. covers xs a && not (inside base limit a)))
        (Covers (λ a. covers xs a && avoids ((base, limit) ∷ rest) a))
        (range_remove mem base limit xs) (λ ys. remove_all mem rest ys)
        (range_remove-Covers mem base limit xs f.0 b)
        (λ ys c.
          IfDone-map (Covers (λ a. covers ys a && avoids rest a))
            (Covers (λ a. covers xs a && avoids ((base, limit) ∷ rest) a)) (remove_all mem rest ys)
            (remove_all-Covers rest ys f.1 c.0)
            (λ zs k. (k.0, (λ a. k.1 a ∙ rw (c.1 a) (unfold avoids in ground arith)))))

or_second : (a b : Bool) → a ≡ false → (a || b) ≡ true → b ≡ true
or_second a b h e = ground arith

module _ (fdt : Fdt) where
  -- The node behind another one.
  abbrev pub next_node : ℕ → ℕ
  next_node n = fdt_int (fdt.fdt_node_offset_by_dtype n (literal "memory"))

  abbrev pub first_node : ℕ
  first_node = fdt_int (fdt.fdt_node_offset_by_dtype (2 ^ 32 - 1) (literal "memory"))

  -- Whether the search for memory nodes ends within so many of them.
  unfoldable pub nodes_end : ℕ → ℕ → Bool
  nodes_end zero n = n == 2 ^ 32 - 1
  nodes_end (suc fuel) n = n == 2 ^ 32 - 1 || nodes_end fuel (next_node n)

  unfoldable pub in_memory : Option (List ℕ) → ℕ → Bool
  in_memory none a = false
  in_memory (some prop) a = let r = interval (fdt64 prop 0) (fdt64 prop 8) in inside r.0 r.1 a

  -- Whether a memory node has an address.
  unfoldable pub memory_at : ℕ → ℕ → ℕ → Bool
  memory_at zero n a = false
  memory_at (suc fuel) n a =
      not (n == 2 ^ 32 - 1)
      && (in_memory (fdt.fdt_getprop n (literal "reg")) a || memory_at fuel (next_node n) a)

  -- The ranges cover an address if a node has it.
  abbrev pub FoundOk : (ℕ → Bool) → Option (Bool × Ranges) → Type 0
  FoundOk f none = ⊥
  FoundOk f (some r) = Covers f r.1

  FoundOk-map :
      (f g : ℕ → Bool)
      → ((a : ℕ) → f a ≡ g a)
      → (r : Option (Bool × Ranges)) → FoundOk f r
      → FoundOk g r
  FoundOk-map f g same none ok = absurd ok
  FoundOk-map f g same (some r) ok = (ok.0, (λ a. ok.1 a ∙ same a))

  same :
      (xs ys : Ranges) (base limit : ℕ) (o : Option (List ℕ)) (later : Bool) (a : ℕ)
      → covers ys a ≡ (inside base limit a || covers xs a)
      → inside base limit a ≡ in_memory o a
      → (covers ys a || later) ≡ (covers xs a || (in_memory o a || later))
  same xs ys base limit o later a c k = rw (c, k) (ground arith)

  reg_lem :
      (o : Option (List ℕ))
      → IfDone (λ r. (r.1 < 2 ^ 64) × ((a : ℕ) → inside r.0 r.1 a ≡ in_memory o a)) (memory_reg o)
  unfolding memory_reg in_memory
  reg_lem none = tt
  reg_lem (some prop) = IfDone-bug_on _ (length prop != 16) _ (omega arith, (λ a. refl))

  module _ (mem : Malloc) where
    pub add_memory-FoundOk :
        (fuel n : ℕ) (found : Bool) (xs : Ranges)
        → nodes_end fuel n ≡ true
        → IsBelow (2 ^ 64) xs
        → IfDone
            (FoundOk (λ a. covers xs a || memory_at fuel n a))
            (add_memory mem fdt fuel n found xs)
    unfolding add_memory nodes_end memory_at
    add_memory-FoundOk zero n found xs e b = rw e (b, (λ a. ground arith))
    add_memory-FoundOk (suc fuel) n found xs e b = elim (Bool-cases (n == 2 ^ 32 - 1)) [
      | inl last ↦ rw last (b, (λ a. ground arith))
      | inr more ↦ rw more (
          let o = fdt.fdt_getprop n (literal "reg") in
          IfDone->>= (λ r. (r.1 < 2 ^ 64) × ((a : ℕ) → inside r.0 r.1 a ≡ in_memory o a))
            (FoundOk (λ a. covers xs a || (in_memory o a || memory_at fuel (next_node n) a)))
            (memory_reg o) _ (reg_lem o)
            (λ (base, limit) k.
              IfDone->>= (Covers (λ a. inside base limit a || covers xs a))
                (FoundOk (λ a. covers xs a || (in_memory o a || memory_at fuel (next_node n) a)))
                (range_add mem xs base limit) _ (range_add-Covers mem xs base limit k.0 b)
                (λ ys c.
                  IfDone-map (FoundOk (λ a. covers ys a || memory_at fuel (next_node n) a))
                    (FoundOk
                      (λ a. covers xs a || (in_memory o a || memory_at fuel (next_node n) a)))
                    (add_memory mem fdt fuel (next_node n) true ys)
                    (add_memory-FoundOk fuel (next_node n) true ys (or_second _ _ more e) c.0)
                    (FoundOk-map _ _ (λ a.
                      same xs ys base limit o (memory_at fuel (next_node n) a) a (c.1 a)
                        (k.1 a))))))
    ]

  -- The addresses that `mem_init` takes out: those of the hypervisor, the tree's reservations and
  -- the disk.
  abbrev pub taken : List (ℕ × ℕ) → ℕ × ℕ → ℕ → Bool
  taken own disk a =
      avoids own a && avoids (reserved fdt fdt.fdt_num_mem_rsv 0) a && not (inside disk.0 disk.1 a)

  -- Exactly what a memory node has and is not taken out is free, and with an error nothing is taken
  -- out.
  abbrev pub FreeOk : (ℕ → Bool) → (ℕ → Bool) → Option (Err × Mem) → Type 0
  FreeOk has left none = ⊥
  FreeOk has left (some (err_none, m)) =
      (m.mem_early ≡ false) × ((a : ℕ) → covers m.mem_free_ranges a ≡ (has a && left a))
  FreeOk has left (some (err, m)) = (a : ℕ) → covers m.mem_free_ranges a ≡ has a

  reserved-AllFit : (left i : ℕ) → AllFit (reserved fdt left i)
  unfolding reserved
  reserved-AllFit zero i = tt
  reserved-AllFit (suc left) i = (omega arith, reserved-AllFit left (i + 1))

  own-AllFit : (at : Places) → IfDone AllFit (own_memory fdt at)
  unfolding own_memory
  own-AllFit at =
      IfDone->>= (λ _. Unit {0}) AllFit (ptr_2_ra at.start) _ (IfDone-const (ptr_2_ra at.start) tt)
        (λ start _.
          IfDone->>= (λ _. Unit {0}) AllFit (ptr_2_ra at.end) _ (IfDone-const (ptr_2_ra at.end) tt)
            (λ end _.
              IfDone->>= (λ _. Unit {0}) AllFit (ptr_2_ra at.tree) _
                (IfDone-const (ptr_2_ra at.tree) tt)
                (λ tree _. (omega arith, (omega arith, (omega arith, tt))))))

  disk-fits : IfDone (λ r. r.1 < 2 ^ 64) (initrd fdt)
  unfolding initrd
  disk-fits =
      let n = fdt_int (fdt.fdt_path_offset (literal "/chosen")) in
      let start = initrd_prop (fdt.fdt_getprop n (literal "linux,initrd-start")) in
      let end = initrd_prop (fdt.fdt_getprop n (literal "linux,initrd-end")) in
      IfDone-bug_on (λ r. r.1 < 2 ^ 64) (n == 2 ^ 32 - 1) _
        (IfDone->>= (λ _. Unit {0}) (λ r. r.1 < 2 ^ 64) start _ (IfDone-const start tt)
          (λ s _.
            IfDone->>= (λ _. Unit {0}) (λ r. r.1 < 2 ^ 64) end _ (IfDone-const end tt)
              (λ e _. omega arith)))

  module _ (mem : Malloc) (at : Places) (m : Mem) (own : List (ℕ × ℕ)) (disk : ℕ × ℕ)
      (own_is : own_memory fdt at ≡ done own) (disk_is : initrd fdt ≡ done disk) where
    take_out-FreeOk :
        (has : ℕ → Bool) (r : Bool × Ranges)
        → Covers has r.1
        → IfDone (λ e. FreeOk has (taken own disk) (some e)) (take_out mem fdt at m r)
    unfolding take_out
    take_out-FreeOk has (false, xs) c = c.1
    take_out-FreeOk has (true, xs) c =
        let fits = IfDone-done AllFit (own_memory fdt at) own own_is (own-AllFit at) in
        let disk_fits = IfDone-done (λ r. r.1 < 2 ^ 64) (initrd fdt) disk disk_is disk-fits in
        let rsv = reserved fdt fdt.fdt_num_mem_rsv 0 in
        let P : Err × Mem → Type 0 = λ e. FreeOk has (taken own disk) (some e) in
        rw own_is (
          IfDone->>= (Covers (λ a. covers xs a && avoids own a)) P (remove_all mem own xs) _
            (remove_all-Covers mem own xs fits c.0)
            (λ ys k.
              IfDone->>= (Covers (λ a. covers ys a && avoids rsv a)) P (remove_all mem rsv ys) _
                (remove_all-Covers mem rsv ys (reserved-AllFit fdt.fdt_num_mem_rsv 0) k.0)
                (λ zs k'. rw disk_is (
                  IfDone->>= (Covers (λ a. covers zs a && not (inside disk.0 disk.1 a))) P
                    (range_remove mem disk.0 disk.1 zs) _
                    (range_remove-Covers mem disk.0 disk.1 zs disk_fits k'.0)
                    (λ ws k''.
                      (refl, (λ a. k''.1 a ∙ rw (k'.1 a, k.1 a, c.1 a) (ground arith))))))))

    found-FreeOk :
        (fuel : ℕ) (r : Option (Bool × Ranges))
        → FoundOk (λ a. covers [] a || memory_at fuel (first_node) a) r
        → IfDone (FreeOk (memory_at fuel (first_node)) (taken own disk)) (elim r [
          | none ↦ done none
          | some f ↦ (take_out mem fdt at m f >>= λ e. done (some e))
        ])
    found-FreeOk fuel none ok = absurd ok
    found-FreeOk fuel (some f) ok =
        let has = memory_at fuel (first_node) in
        let P : Err × Mem → Type 0 = λ e. FreeOk has (taken own disk) (some e) in
        IfDone->>= P (FreeOk has (taken own disk)) (take_out mem fdt at m f) (λ e. done (some e))
          (take_out-FreeOk has f (ok.0, (λ a. ok.1 a ∙ (unfold covers in refl)))) (λ e k. k)

    -- If the search for memory nodes ends within the fuel, then, whenever no BUG_ON stops it,
    -- `mem_init` returns; without an error the allocator is ready, and free are exactly the
    -- addresses that a memory node has and that are not the hypervisor's, its vectors', the
    -- tree's, reserved, or the disk's. The ranges may come in any order and may overlap.
    pub mem_init_lem :
        (fuel : ℕ)
        → nodes_end fuel (first_node) ≡ true
        → IfDone
            (FreeOk (memory_at fuel (first_node)) (taken own disk))
            (mem_init mem fdt fuel at m)
    unfolding mem_init range_init
    mem_init_lem fuel ends =
        let has = memory_at fuel (first_node) in
        IfDone->>= (FoundOk (λ a. covers [] a || has a)) (FreeOk has (taken own disk))
          (add_memory mem fdt fuel (first_node) false []) _
          (add_memory-FoundOk mem fuel (first_node) false [] ends tt) (found-FreeOk fuel)
