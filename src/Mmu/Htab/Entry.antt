-- ===== src/Mmu/Htab/Entry.antt =====
-- The first word of a page table entry: it is valid, and `PTE_V_COMPARE` tells by it exactly the
-- entries with the same abbreviated virtual page number.
use prephv.Base.{
  ℕ, ◌+◌, ◌*◌, ◌/◌, ◌%◌, ◌^◌, ◌<◌, ◌≡◌, refl, true, arith, ◌==◌, bit_and, bit_or, bit_xor,
}
use prephv.Base.Bits.{
  and_field, and_low, or_split, or_fields_swap, xor_split, xor_self, eq_of_xor, xor-lt, or_fields,
}
use prephv.Endian.{swab64}
use prephv.Endian.Swap.{swab64-swab64}
use prephv.Mmu.Types.{SegSize, seg_256m, seg_1t, PageSize, page_4k, page_16m}
use prephv.Mmu.Encode.{avpn_encode, pte_v_compare}
use prephv.Mmu.Htab.{vflags, is_valid}

-- The number that the AVPN field holds.
abbrev pub avpn : ℕ → PageSize → ℕ
avpn vpn page_4k = vpn / 2 ^ 11
avpn vpn page_16m = vpn / 2 ^ 12 * 2

avpn-lt : (vpn : ℕ) (base : PageSize) → vpn < 2 ^ 64 → avpn vpn base < 2 ^ 53
avpn-lt vpn page_4k h = omega arith
avpn-lt vpn page_16m h = omega arith

pub avpn_encode_lem :
    (vpn : ℕ) (base : PageSize) → vpn < 2 ^ 64 → avpn_encode vpn base ≡ avpn vpn base * 2 ^ 7
unfolding avpn_encode
avpn_encode_lem vpn page_4k h = omega arith
avpn_encode_lem vpn page_16m h = rw (and_field 1 63 (vpn / 2 ^ 11)) (omega arith)

abbrev high_flag : SegSize → ℕ
high_flag seg_256m = 0
high_flag seg_1t = 1

abbrev low_flags : PageSize → ℕ
low_flags page_4k = 0x11
low_flags page_16m = 0x15

vflags_lem :
    (seg : SegSize) (actual : PageSize)
    → vflags seg actual ≡ high_flag seg * 2 ^ 55 * 2 ^ 7 + low_flags actual
unfolding vflags
vflags_lem seg_256m page_4k = refl
vflags_lem seg_256m page_16m = refl
vflags_lem seg_1t page_4k = refl
vflags_lem seg_1t page_16m = refl

-- The first word that `mmu_map_vpn` makes.
abbrev pub entry_v : ℕ → SegSize → PageSize → PageSize → ℕ
entry_v vpn seg base actual = bit_or (avpn_encode vpn base) (vflags seg actual)

low_flags-lt : (actual : PageSize) → low_flags actual < 2 ^ 7
low_flags-lt page_4k = omega arith
low_flags-lt page_16m = omega arith

high_flag-lt : (seg : SegSize) → high_flag seg < 2
high_flag-lt seg_256m = omega arith
high_flag-lt seg_1t = omega arith

entry_v_sum :
    (vpn : ℕ) (seg : SegSize) (base actual : PageSize)
    → vpn < 2 ^ 64
    → entry_v vpn seg base actual
      ≡ (high_flag seg * 2 ^ 55 + avpn vpn base) * 2 ^ 7 + low_flags actual
entry_v_sum vpn seg base actual h = ground (
  arith,
  avpn_encode_lem vpn base,
  vflags_lem seg actual,
  low_flags-lt actual,
  avpn-lt vpn base,
  or_split 7 (avpn vpn base) 0 (high_flag seg * 2 ^ 55) (low_flags actual),
  or_fields_swap 55 (high_flag seg) (avpn vpn base),
  or_fields 7 0 (low_flags actual),
)

odd-low_flags : (actual : PageSize) → low_flags actual % 2 ≡ 1
odd-low_flags page_4k = refl
odd-low_flags page_16m = refl

pub entry_v-lt :
    (vpn : ℕ) (seg : SegSize) (base actual : PageSize)
    → vpn < 2 ^ 64
    → entry_v vpn seg base actual < 2 ^ 64
entry_v-lt vpn seg base actual h = omega (
  arith,
  entry_v_sum vpn seg base actual h,
  avpn-lt vpn base h,
  high_flag-lt seg,
  low_flags-lt actual,
)

-- An entry with that first word, stored big-endian, is valid.
pub is_valid-entry_v :
    (vpn : ℕ) (seg : SegSize) (base actual : PageSize) (r : ℕ)
    → vpn < 2 ^ 64
    → is_valid (record { v = swab64 (entry_v vpn seg base actual); r = r }) ≡ true
unfolding is_valid
is_valid-entry_v vpn seg base actual r h = ground (
  arith,
  swab64-swab64 (entry_v vpn seg base actual),
  entry_v-lt vpn seg base actual,
  entry_v_sum vpn seg base actual,
  odd-low_flags actual,
  and_low 1 (entry_v vpn seg base actual),
)

-- The comparison looks at the AVPN field and at nothing else.
compare_fields :
    (x y p q s m n t : ℕ)
    → x ≡ p * 2 ^ 62 + (q * 2 ^ 7 + s)
    → y ≡ m * 2 ^ 62 + (n * 2 ^ 7 + t)
    → q < 2 ^ 55
    → n < 2 ^ 55
    → s < 2 ^ 7
    → t < 2 ^ 7
    → bit_and (bit_xor x y) 0x3fffffffffffff80 ≡ bit_xor q n * 2 ^ 7
compare_fields x y p q s m n t ex ey hq hn hs ht = ground (
  arith,
  xor_split 62 p (q * 2 ^ 7 + s) m (n * 2 ^ 7 + t),
  xor_split 7 q s n t,
  xor-lt 55 q n,
  xor-lt 7 s t,
  and_field 7 55 (bit_xor x y),
)

-- For page numbers of 64 bits, `PTE_V_COMPARE` holds of the first word made for one page and the
-- AVPN of another if and only if their abbreviated page numbers agree, whatever the flags.
pub compare-entry_v :
    (vpn vpn' : ℕ) (seg : SegSize) (base base' actual : PageSize)
    → vpn < 2 ^ 64
    → vpn' < 2 ^ 64
    → pte_v_compare (entry_v vpn seg base actual) (avpn_encode vpn' base')
      ≡ (avpn vpn base == avpn vpn' base')
unfolding pte_v_compare
compare-entry_v vpn vpn' seg base base' actual h h' = ground (
  arith,
  compare_fields (entry_v vpn seg base actual) (avpn_encode vpn' base') (high_flag seg)
      (avpn vpn base) (low_flags actual) 0 (avpn vpn' base') 0,
  entry_v_sum vpn seg base actual,
  avpn_encode_lem vpn' base',
  avpn-lt vpn base,
  avpn-lt vpn' base',
  low_flags-lt actual,
  xor_self (avpn vpn base),
  eq_of_xor (avpn vpn base) (avpn vpn' base'),
)
