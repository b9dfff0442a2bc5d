-- ===== src/Mmu/Htab/Scan.antt =====
-- The two searches through a group of the page table.
use prephv.Base.{
  ℕ, zero, suc, ◌+◌, ◌≤◌, ◌<◌, ◌≡◌, refl, ◌≢◌, Bool, true, false, ◌&&◌, arith, if◌then◌else◌,
  Bool-cases, inl, inr, Option, none, some, ◌==◌, ◌⊎◌,
}
use prephv.Endian.{swab64}
use prephv.Mmu.Types.{Pte, write_pte}
use prephv.Mmu.Encode.{pte_v_compare}
use prephv.Mmu.Htab.{is_valid, scan_free, scan_match}

-- A valid entry for an abbreviated virtual page number.
unfoldable pub hit : ℕ → Pte → Bool
hit avpn e = is_valid e && pte_v_compare (swab64 e.v) avpn

module _ (h : ℕ → Pte) (pteg : ℕ) where
  pub scan_free_bounds :
      (left i : ℕ) → (i ≤ scan_free h pteg left i) × (scan_free h pteg left i ≤ i + left)
  unfolding scan_free
  scan_free_bounds zero i = omega arith
  scan_free_bounds (suc left) i = ground (arith, scan_free_bounds left (i + 1))

  -- Where the search ends early, the entry is free.
  pub scan_free_sound :
      (left i : ℕ)
      → scan_free h pteg left i ≢ i + left
      → is_valid (h (pteg + scan_free h pteg left i)) ≡ false
  unfolding scan_free
  scan_free_sound zero i ne = ground arith
  scan_free_sound (suc left) i ne = elim (Bool-cases (is_valid (h (pteg + i)))) [
    | inl busy ↦ rw busy (scan_free_sound left (i + 1) (ground arith))
    | inr free ↦ rw free free
  ]

  -- It goes to the end only if every entry is taken.
  pub scan_free_full :
      (left i j : ℕ)
      → scan_free h pteg left i ≡ i + left
      → i ≤ j
      → j < i + left
      → is_valid (h (pteg + j)) ≡ true
  unfolding scan_free
  scan_free_full zero i j e p q = absurd (omega arith)
  scan_free_full (suc left) i j e p q =
      ground (arith, scan_free_bounds left (i + 1), scan_free_full left (i + 1) j)

module _ (h : ℕ → Pte) (pteg avpn : ℕ) where
  pub scan_match_step :
      (left i : ℕ)
      → scan_match h pteg avpn (suc left) i
        ≡ (if hit avpn (h (pteg + i)) then i else scan_match h pteg avpn left (i + 1))
  unfolding scan_match hit
  scan_match_step left i = ground arith

  pub scan_match_bounds :
      (left i : ℕ)
      → (i ≤ scan_match h pteg avpn left i) × (scan_match h pteg avpn left i ≤ i + left)
  scan_match_bounds zero i = unfold scan_match in omega arith
  scan_match_bounds (suc left) i =
      ground (arith, scan_match_step left i, scan_match_bounds left (i + 1))

  -- The search ends at entry `k` if that is a match and none stands before it.
  pub scan_match_first :
      (left i k : ℕ)
      → i ≤ k
      → k < i + left
      → hit avpn (h (pteg + k)) ≡ true
      → ((j : ℕ) → i ≤ j → j < k → hit avpn (h (pteg + j)) ≡ false)
      → scan_match h pteg avpn left i ≡ k
  scan_match_first zero i k p q e none_before = absurd (omega arith)
  scan_match_first (suc left) i k p q e none_before =
      rw (scan_match_step left i) (elim (Bool-cases (i == k)) [
        | inl at ↦ ground arith
        | inr before ↦ rw (none_before i (ground arith) (ground arith)) (
            scan_match_first left (i + 1) k (ground arith) (ground arith) e
              (λ j a b. none_before j (omega arith) b))
      ])

-- What the table gives for an abbreviated virtual page number among the entries from `i` on:
-- the second word of the first match.
unfoldable pub walk_from : (ℕ → Pte) → ℕ → ℕ → ℕ → ℕ → Option ℕ
walk_from h pteg avpn zero i = none
walk_from h pteg avpn (suc left) i =
    let next = walk_from h pteg avpn left (i + 1) in
    if hit avpn (h (pteg + i)) then some (swab64 (h (pteg + i)).r) else next

module _ (h : ℕ → Pte) (p : ℕ) (e : Pte) where
  pub write_pte_self : write_pte h p e p ≡ e
  write_pte_self = ground arith

  pub write_pte_ne : (q : ℕ) → p ≢ q → write_pte h p e q ≡ h q
  write_pte_ne q ne = ground arith

-- Two tables agree at an entry as far as searches for `avpn` go.
abbrev pub SameFor : ℕ → Pte → Pte → Type 0
SameFor avpn e e' = (e ≡ e') ⊎ ((hit avpn e ≡ false) × (hit avpn e' ≡ false))

module _ (h : ℕ → Pte) (pteg avpn : ℕ) where
  pub walk_from_same :
      (h' : ℕ → Pte) (left i : ℕ)
      → ((j : ℕ) → i ≤ j → j < i + left → SameFor avpn (h (pteg + j)) (h' (pteg + j)))
      → walk_from h pteg avpn left i ≡ walk_from h' pteg avpn left i
  unfolding walk_from
  walk_from_same h' zero i same = refl
  walk_from_same h' (suc left) i same = elim (same i (omega arith) (omega arith)) [
    | inl e ↦ rw (e, walk_from_same h' left (i + 1) (λ j a b. same j (omega arith) (omega arith)))
    | inr (a, b) ↦
        rw (a, b) (walk_from_same h' left (i + 1) (λ j a b. same j (omega arith) (omega arith)))
  ]

  -- Nothing is found only if no entry matches.
  pub walk_from-none :
      (left i j : ℕ)
      → walk_from h pteg avpn left i ≡ none
      → i ≤ j
      → j < i + left
      → hit avpn (h (pteg + j)) ≡ false
  unfolding walk_from
  walk_from-none zero i j e p q = absurd (omega arith)
  walk_from-none (suc left) i j e p q = elim (Bool-cases (i == j)) [
    | inl at ↦ ground arith
    | inr past ↦ ground (arith, walk_from-none left (i + 1) j)
  ]

  -- The search of `mmu_unmap_vpn` goes to the end exactly when nothing is found.
  pub scan_match-none :
      (left i : ℕ) → walk_from h pteg avpn left i ≡ none → scan_match h pteg avpn left i ≡ i + left
  unfolding walk_from
  scan_match-none zero i e = unfold scan_match in omega arith
  scan_match-none (suc left) i e =
      ground (arith, scan_match_step h pteg avpn left i, scan_match-none left (i + 1))

  -- The first match is what is found.
  pub walk_from_first :
      (left i k : ℕ)
      → i ≤ k
      → k < i + left
      → hit avpn (h (pteg + k)) ≡ true
      → ((j : ℕ) → i ≤ j → j < k → hit avpn (h (pteg + j)) ≡ false)
      → walk_from h pteg avpn left i ≡ some (swab64 (h (pteg + k)).r)
  unfolding walk_from
  walk_from_first zero i k p q e none_before = absurd (omega arith)
  walk_from_first (suc left) i k p q e none_before = elim (Bool-cases (i == k)) [
    | inl at ↦ ground arith
    | inr before ↦ rw (none_before i (ground arith) (ground arith)) (
        walk_from_first left (i + 1) k (ground arith) (ground arith) e
          (λ j a b. none_before j (omega arith) b))
  ]
