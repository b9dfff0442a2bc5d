-- ===== src/Rom/Stdio.antt =====
-- `rom_stdin` and `rom_stdout` of rom.c: the terminal has `ESC [` where the guest has CSI.
pub mod Terminal
use prephv.Base.{
  ℕ, zero, suc, ◌+◌, ◌≤◌, ◌≡◌, refl, arith, Bool, true, false, ◌||◌, not, List, [], ◌∷◌, ◌++◌, ◌==◌,
  if◌then◌else◌, length, Bool-cases, inl, inr,
}
use native.Mathlib.Nat.{suc-add}

abbrev pub esc : ℕ
esc = 27

abbrev pub csi : ℕ
csi = 0x9b

abbrev pub bracket : ℕ
bracket = 91

-- What has been read, the static `csi`, and what the terminal still has.
pub record Read : Type 0 where
  pub out : List ℕ
  pub pending : Bool
  pub rest : List ℕ

abbrev pub push : ℕ → Read → Read
push c r = record r { out = c ∷ r.out }

-- `input` is what `con_getchar` returns before NO_CHAR. The character behind an ESC that is no
-- `[` goes to `prev_c`, which the next round sets to 0 again.
unfoldable pub rom_stdin : ℕ → Bool → List ℕ → Read
rom_stdin zero pending input = record { out = []; pending = pending; rest = input }
rom_stdin (suc len) pending [] = record { out = []; pending = pending; rest = [] }
rom_stdin (suc len) true (c ∷ input) =
    let rest = rom_stdin len false input in if c == bracket then push csi rest else push esc rest
rom_stdin (suc len) false (c ∷ input) =
    let plain = rom_stdin len false input in
    let after_esc = rom_stdin (suc len) true input in if c == esc then after_esc else push c plain

-- What `rom_stdout` hands to `con_putchar` for one character.
unfoldable pub put : ℕ → List ℕ
put c =
    if c == csi
    then esc ∷ bracket ∷ []
    else if c == 0xcd
    then 61 ∷ []
    else if c == 0xba
    then 124 ∷ []
    else if c == 0xbb || c == 0xc8
    then 92 ∷ []
    else if c == 0xbc || c == 0xc9
    then 47 ∷ []
    else c ∷ []

unfoldable pub rom_stdout : List ℕ → List ℕ
unfolding put
rom_stdout [] = []
rom_stdout (c ∷ s) = put c ++ rom_stdout s

-- The characters that `rom_stdout` does not replace by a look-alike, other than ESC.
unfoldable pub is_kept : ℕ → Bool
is_kept c =
    not (c == esc || c == 0xcd || c == 0xba || c == 0xbb || c == 0xc8 || c == 0xbc || c == 0xc9)

abbrev pub AllKept : List ℕ → Type 0
AllKept [] = Unit {0}
AllKept (c ∷ s) = (is_kept c ≡ true) × AllKept s

rom_stdin_nil :
    (len : ℕ) (pending : Bool)
    → rom_stdin len pending [] ≡ record { out = []; pending = pending; rest = [] }
unfolding rom_stdin
rom_stdin_nil zero pending = refl
rom_stdin_nil (suc len) pending = refl

-- A read never gives more than it was asked for, and two reads in a row give what one read of
-- the sum of their lengths gives, the pending ESC between them included.
pub rom_stdin_split :
    (a b : ℕ) (pending : Bool) (input : List ℕ)
    → let first = rom_stdin a pending input in
      let second = rom_stdin b first.pending first.rest in
      (length first.out ≤ a)
      × (rom_stdin (a + b) pending input
          ≡ record { out = first.out ++ second.out; pending = second.pending; rest = second.rest })
unfolding rom_stdin
rom_stdin_split zero b pending input = (omega arith, (let e : 0 + b ≡ b = omega arith in rw e refl))
rom_stdin_split (suc a) b pending [] =
    (omega arith, rw (suc-add a b) (rw (rom_stdin_nil b pending) refl))
rom_stdin_split (suc a) b true (c ∷ input) =
    let h = rom_stdin_split a b false input in
    rw (suc-add a b) (elim (Bool-cases (c == bracket)) [
      | inl e ↦ rw e (rw (h.1) (let le = h.0 in ground arith, refl))
      | inr e ↦ rw e (rw (h.1) (let le = h.0 in ground arith, refl))
    ])
rom_stdin_split (suc a) b false (c ∷ input) =
    let h = rom_stdin_split a b false input in
    let k = rom_stdin_split (suc a) b true input in
    elim (Bool-cases (c == esc)) [
      | inl e ↦ rw (suc-add a b) (rw e (rw (suc-add a b) at k))
      | inr e ↦ rw (suc-add a b) (rw e (rw (h.1) (let le = h.0 in ground arith, refl)))
    ]
