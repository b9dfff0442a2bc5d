-- ===== src/Rom/Property/Above.antt =====
-- The properties of rom.c write no memory from an address on that no buffer reaches.
use prephv.Base.{
  ℕ, ◌+◌, ◌*◌, ◌%◌, ◌^◌, ◌≤◌, ◌<◌, ◌≡◌, arith, true, false, Option, some, none, List, [], ◌∷◌, done,
  ◌==◌, ◌!=◌, if◌then◌else◌, u32, length, min, take, ◌⊎◌, IfDone, IfDone->>=, IfDone-if,
  IfDone-bug_on, IfDone-map, if-cases,
}
use prephv.Endian.{swab32}
use prephv.Ppc.{page_size}
use prephv.Guest.Memory.{Memory, store32, store_bytes, is_string}
use prephv.Guest.Memory.Above.{
  SameAbove, SameAbove-refl, SameAbove-trans, store32-SameAbove, store_bytes-SameAbove, length-take,
}
use prephv.Ranges.{Range, Ranges, range_count}
use prephv.Rom.Library.{Fdt, Fat}
use prephv.Rom.Device.{Dev}
use prephv.Rom.Property.{
  is_spent, less_word, size_32, put_range, put_reg, put_available, told_len, reg_prop,
  available_prop, memory_tree_prop, rom_memory_getprop, tree_prop, name_prop, rom_getprop,
}

-- A write of ranges is over, or what is left of it ends below the top.
abbrev Reaches : ℕ → ℕ → ℕ → Type 0
Reaches top d len = (is_spent len ≡ true) ⊎ (d + len + 8 ≤ top)

put_range-SameAbove :
    (top : ℕ) (m : Memory) (d len : ℕ) (r : Range)
    → Reaches top d len
    → SameAbove top m (put_range m d len r)
unfolding put_range
put_range-SameAbove top m d len r h =
    let first = store32 m d (swab32 (u32 r.base)) in
    let second = store32 first (d + 4) (swab32 (size_32 r)) in
    if-cases (SameAbove top m) (is_spent len) m _ (λ _. SameAbove-refl top m)
      (λ e.
        let low : d + 8 ≤ top = ground arith in
        let one = store32-SameAbove top m d (swab32 (u32 r.base)) (omega arith) in
        if-cases (SameAbove top m) (is_spent (less_word len)) first second (λ _. one)
          (λ _.
            SameAbove-trans top m first second one
              (store32-SameAbove top first (d + 4) (swab32 (size_32 r)) (omega arith))))

next_Reaches :
    (top d len : ℕ)
    → is_spent len ≡ false
    → Reaches top d len
    → Reaches top (d + 8) (less_word (less_word len))
next_Reaches top d len e h = ground arith

put_reg-SameAbove :
    (top : ℕ) (m : Memory) (d len : ℕ) (rs : Ranges)
    → Reaches top d len
    → SameAbove top m (put_reg m d len rs)
unfolding put_reg
put_reg-SameAbove top m d len [] h = SameAbove-refl top m
put_reg-SameAbove top m d len (r ∷ rs) h =
    let one = put_range m d len r in
    let next = less_word (less_word len) in
    if-cases (SameAbove top m) (is_spent len) m (put_reg one (d + 8) next rs)
      (λ _. SameAbove-refl top m)
      (λ e.
        SameAbove-trans top m one (put_reg one (d + 8) next rs)
          (put_range-SameAbove top m d len r h)
          (put_reg-SameAbove top one (d + 8) next rs (next_Reaches top d len e h)))

put_available-SameAbove :
    (top : ℕ) (m : Memory) (d len : ℕ) (rs : Ranges)
    → Reaches top d len
    → IfDone (SameAbove top m) (put_available m d len rs)
unfolding put_available
put_available-SameAbove top m d len [] h = SameAbove-refl top m
put_available-SameAbove top m d len (r ∷ rs) h =
    let one = put_range m d len r in
    let next = less_word (less_word len) in
    IfDone-bug_on (SameAbove top m) (u32 r.base % page_size != 0) _ (
      IfDone-bug_on (SameAbove top m) (size_32 r % page_size != 0) _ (
        if-cases (IfDone (SameAbove top m)) (is_spent len) (done m)
          (put_available one (d + 8) next rs) (λ _. SameAbove-refl top m)
          (λ e.
            IfDone-map (SameAbove top one) (SameAbove top m) (put_available one (d + 8) next rs)
              (put_available-SameAbove top one (d + 8) next rs (next_Reaches top d len e h))
              (λ after k.
                SameAbove-trans top m one after (put_range-SameAbove top m d len r h) k))))

-- A length that an `int` holds is spent or small.
len_Reaches : (top d len : ℕ) → d + 2 ^ 31 + 8 ≤ top → Reaches top d len
len_Reaches top d len h = ground arith

module _ {fat : Fat} (fdt : Fdt) (dev : Dev fat) (mem : Memory)
    (name dest_len dest_data max_data top : ℕ) (len_low : dest_len + 4 ≤ top)
    (data_low : dest_data + 2 ^ 32 ≤ top) where
  abbrev pub Fine : ℕ × Memory → Type 0
  Fine r = SameAbove top mem r.1

  told-SameAbove : (v : ℕ) → SameAbove top mem (store32 mem dest_len v)
  told-SameAbove v = store32-SameAbove top mem dest_len v len_low

  reg-Fine : IfDone Fine (reg_prop fdt dev mem name dest_len dest_data max_data)
  unfolding reg_prop
  reg-Fine =
      let len = u32 (range_count dev.memory_reg * 8) in
      let m = store32 mem dest_len (told_len len max_data) in
      if-cases (SameAbove top mem) (dest_data == 0) m (put_reg m dest_data len dev.memory_reg)
        (λ _. told-SameAbove _)
        (λ _. SameAbove-trans top mem m _ (told-SameAbove _) (
          put_reg-SameAbove top m dest_data len dev.memory_reg
            (len_Reaches top dest_data len (omega arith))))

  available-Fine : IfDone Fine (available_prop fdt dev mem name dest_len dest_data max_data)
  unfolding available_prop
  available-Fine =
      let len = u32 (range_count dev.avail * 8) in
      let m = store32 mem dest_len (told_len len max_data) in
      if-cases (IfDone Fine) (dest_data == 0) (done (0, m)) _ (λ _. told-SameAbove _)
        (λ _.
          IfDone->>= (SameAbove top m) Fine (put_available m dest_data len dev.avail)
            (λ n. done (0, n))
            (put_available-SameAbove top m dest_data len dev.avail
              (len_Reaches top dest_data len (omega arith)))
            (λ n k. SameAbove-trans top mem m n (told-SameAbove _) k))

  -- What both ends of a property of the tree do: the length, and as many bytes as there is room for.
  bytes-SameAbove :
      (told len : ℕ) (bytes : List ℕ)
      → len < 2 ^ 32
      → SameAbove top mem (
          if dest_data == 0
          then store32 mem dest_len told
          else store_bytes (store32 mem dest_len told) dest_data (take (min len max_data) bytes))
  bytes-SameAbove told len bytes small =
      let m = store32 mem dest_len told in
      let written = take (min len max_data) bytes in
      if-cases (SameAbove top mem) (dest_data == 0) m _ (λ _. told-SameAbove told)
        (λ _. SameAbove-trans top mem m _ (told-SameAbove told) (
          store_bytes-SameAbove top m dest_data written
            (let l = length-take (min len max_data) bytes in omega arith)))

  memory_tree-Fine :
      (o : Option (List ℕ))
      → IfDone Fine (memory_tree_prop fdt dev mem name dest_len dest_data max_data o)
  unfolding memory_tree_prop
  memory_tree-Fine none = SameAbove-refl top mem
  memory_tree-Fine (some bytes) =
      bytes-SameAbove (told_len (u32 (length bytes)) max_data) (u32 (length bytes)) bytes
        (omega arith)

  memory-Fine : IfDone Fine (rom_memory_getprop fdt dev mem name dest_len dest_data max_data)
  unfolding rom_memory_getprop
  memory-Fine =
      IfDone-if Fine (is_string "reg" mem name) _ _ reg-Fine
        (IfDone-if Fine (is_string "available" mem name) _ _ available-Fine (memory_tree-Fine _))

  tree-Fine :
      (o : Option (List ℕ)) → IfDone Fine (tree_prop fdt dev mem name dest_len dest_data max_data o)
  unfolding tree_prop
  tree-Fine none = SameAbove-refl top mem
  tree-Fine (some bytes) =
      bytes-SameAbove (u32 (length bytes)) (u32 (length bytes)) bytes (omega arith)

  name-Fine :
      (o : Option (List ℕ)) → IfDone Fine (name_prop fdt dev mem name dest_len dest_data max_data o)
  unfolding name_prop
  name-Fine none = tt
  name-Fine (some bytes) = tree-Fine (some bytes)

  pub rom_getprop-Fine :
      (n : ℕ) → IfDone Fine (rom_getprop fdt dev mem name dest_len dest_data max_data n)
  unfolding rom_getprop
  rom_getprop-Fine n =
      IfDone-if Fine (is_string "name" mem name) _ _
        (IfDone-if Fine (n == 0) _ _ (tree-Fine (some (47 ∷ []))) (name-Fine _))
        (IfDone-if Fine (n == dev.memory_node) _ _ memory-Fine (tree-Fine _))
