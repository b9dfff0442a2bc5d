-- ===== src/Rom/Property/Laws.antt =====
-- The words that `rom_memory_getprop` of rom.c writes, and that it does not stop.
use prephv.Base.{
  ℕ, ◌+◌, ◌*◌, ◌%◌, ◌^◌, ◌≤◌, ◌<◌, ◌≡◌, refl, arith, false, [], ◌∷◌, done, ◌==◌, u32, length, ◌!=◌,
  Bool-cases, inl, inr, get_or, ◌⊎◌, ◌≢◌, ◌∙◌, zero, suc,
}
use prephv.Endian.{swab32}
use prephv.Endian.Swap.{swab32_word}
use prephv.Ppc.{page_size}
use prephv.Guest.Memory.{Memory, load32, store32}
use prephv.Ranges.{Range, Ranges, range, range_count}
use prephv.Ranges.Cut.{IsSorted}
use prephv.Ranges.Paged.{IsPaged}
use prephv.Rom.Library.{Fdt, Fat}
use prephv.Rom.Device.{Dev}
use prephv.Rom.Property.{
  is_spent, less_word, size_32, put_range, put_reg, put_available, told_len, available_prop,
}

-- A word that is stored is read back, and one that does not meet it is as before.
pub load32-store32 : (mem : Memory) (a v : ℕ) → v < 2 ^ 32 → load32 (store32 mem a v) a ≡ v
unfolding load32 store32
load32-store32 mem a v h = ground arith

pub load32-store32_other :
    (mem : Memory) (a b v : ℕ)
    → (b + 4 ≤ a) ⊎ (a + 4 ≤ b)
    → load32 (store32 mem a v) b ≡ load32 mem b
unfolding load32 store32
load32-store32_other mem a b v h = ground arith

pub put_available-put_reg :
    (mem : Memory) (d len lo : ℕ) (rs : Ranges)
    → IsSorted lo rs
    → IsPaged rs
    → put_available mem d len rs ≡ done (put_reg mem d len rs)
unfolding put_available put_reg
put_available-put_reg mem d len lo [] s p = refl
put_available-put_reg mem d len lo (r ∷ rs) s p =
    let b : (u32 r.base % page_size != 0) ≡ false = let e = p.0 in ground arith in
    let l : (size_32 r % page_size != 0) ≡ false =
      let q = s.1 in let e = p.0 in let e' = p.1 in let u = s.2 in ground arith in
    rw
      (
        b,
        l,
        put_available-put_reg (put_range mem d len r) (d + 8) (less_word (less_word len))
            (r.limit + 1) rs s.3 p.2,
      )
      (elim (Bool-cases (is_spent len)) [ inl e ↦ rw e refl | inr e ↦ rw e refl ])

-- Nothing is written below the buffer.
put_reg_below :
    (mem : Memory) (d len b : ℕ) (rs : Ranges)
    → b + 4 ≤ d
    → load32 (put_reg mem d len rs) b ≡ load32 mem b
unfolding put_reg put_range
put_reg_below mem d len b [] h = refl
put_reg_below mem d len b (r ∷ rs) h = ground (
  arith,
  put_reg_below (put_range mem d len r) (d + 8) (less_word (less_word len)) b rs,
  load32-store32_other mem d b (swab32 (u32 r.base)),
  load32-store32_other (store32 mem d (swab32 (u32 r.base))) (d + 4) b (swab32 (size_32 r)),
)

put_range_words :
    (mem : Memory) (d len : ℕ) (r : Range)
    → 8 ≤ len
    → len < 2 ^ 31
    → (load32 (put_range mem d len r) d ≡ swab32 (u32 r.base))
      × (load32 (put_range mem d len r) (d + 4) ≡ swab32 (size_32 r))
unfolding put_range
put_range_words mem d len r h h' =
    let a : is_spent len ≡ false = ground arith in
    let b : is_spent (less_word len) ≡ false = ground arith in
    let m = store32 mem d (swab32 (u32 r.base)) in
    rw (a, b)
      (
        load32-store32_other m (d + 4) d (swab32 (size_32 r)) (inl (omega arith))
            ∙ load32-store32 mem d (swab32 (u32 r.base)) (swab32_word (u32 r.base)),
        load32-store32 m (d + 4) (swab32 (size_32 r)) (swab32_word (size_32 r)),
      )

-- The two words of the range at an index.
abbrev pub WordsAt : Memory → ℕ → Ranges → ℕ → Type 0
WordsAt mem d rs i =
    let r = get_or rs i (range 0 0) in
    (load32 mem (d + 8 * i) ≡ swab32 (u32 r.base))
    × (load32 mem (d + 8 * i + 4) ≡ swab32 (size_32 r))

put_reg_step :
    (mem : Memory) (d len : ℕ) (r : Range) (rs : Ranges)
    → is_spent len ≡ false
    → put_reg mem d len (r ∷ rs)
      ≡ put_reg (put_range mem d len r) (d + 8) (less_word (less_word len)) rs
unfolding put_reg
put_reg_step mem d len r rs h = rw h refl

put_reg_words :
    (mem : Memory) (d len : ℕ) (rs : Ranges) (i : ℕ)
    → len ≡ 8 * length rs
    → len < 2 ^ 31
    → i < length rs
    → WordsAt (put_reg mem d len rs) d rs i
put_reg_words mem d len [] i e h lt = absurd (omega arith)
put_reg_words mem d len (r ∷ rs) zero e h lt =
    let m = put_range mem d len r in
    let l = less_word (less_word len) in
    let (w, w') = put_range_words mem d len r (omega arith) h in
    let z : d + 8 * 0 ≡ d = omega arith in
    rw (put_reg_step mem d len r rs (ground arith), z)
      (
        put_reg_below m (d + 8) l d rs (omega arith) ∙ w,
        put_reg_below m (d + 8) l (d + 4) rs (omega arith) ∙ w',
      )
put_reg_words mem d len (r ∷ rs) (suc i) e h lt =
    let n : d + 8 * suc i ≡ d + 8 + 8 * i = omega arith in
    rw (put_reg_step mem d len r rs (ground arith), n)
      (put_reg_words (put_range mem d len r) (d + 8) (less_word (less_word len)) rs i (omega arith)
        (omega arith) (omega arith))

module _ {fat : Fat} (fdt : Fdt) (dev : Dev fat) (mem : Memory)
    (name dest_len dest_data max_data : ℕ) where
  -- With available ranges in order that are whole pages, up to 2 ^ 28 - 1 of them, the property
  -- "available" never stops the machine. If there is a buffer, the words at its start are, range
  -- by range and in big-endian order, the low half of the base and that of the size.
  pub available_prop_lem :
      IsSorted 0 dev.avail
      → IsPaged dev.avail
      → 8 * length dev.avail < 2 ^ 31
      → (mem' : Memory) × (available_prop fdt dev mem name dest_len dest_data max_data
          ≡ done (0, mem'))
        × (dest_data ≢ 0 → (i : ℕ) → i < length dev.avail → WordsAt mem' dest_data dev.avail i)
  unfolding available_prop range_count
  available_prop_lem sorted paged few =
      let n = u32 (length dev.avail * 8) in
      let m = store32 mem dest_len (told_len n max_data) in
      let e : n ≡ 8 * length dev.avail = omega arith in
      elim (Bool-cases (dest_data == 0)) [
        | inl null ↦ (m, rw null refl, (λ ne. absurd (ground arith)))
        | inr buffer ↦ (
          put_reg m dest_data n dev.avail,
          rw (buffer, put_available-put_reg m dest_data n 0 dev.avail sorted paged) refl,
          (λ ne i lt. put_reg_words m dest_data n dev.avail i e (omega arith) lt),
        )
      ]
