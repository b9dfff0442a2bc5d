-- ===== src/Rom/Stdio/Terminal.antt =====
-- `rom_stdin` of rom.c as it calls `con_getchar`, on the firmware's console.
use prephv.Base.{
  ℕ, zero, suc, ◌+◌, ◌*◌, ◌≤◌, ◌≡◌, refl, arith, Bool, true, false, none, some, List, [], ◌∷◌, ◌==◌,
  if◌then◌else◌, Bool-cases, inl, inr, ap,
}
use prephv.Log.Console.{Opal, IsConsole, con_getchar, getchar_none, getchar_some}
use prephv.Rom.Stdio.{esc, csi, bracket, Read, rom_stdin}

-- What has been read, the static `csi`, and the terminal behind it.
pub record Reading (T : Type 0) : Type 0 where
  pub out : List ℕ
  pub pending : Bool
  pub terminal : T

module _ (fw : Opal) where
  abbrev pub wrote : ℕ → Reading fw.Terminal → Reading fw.Terminal
  wrote c r = record r { out = c ∷ r.out }

  -- The loop of `rom_stdin` on fuel, a call of `con_getchar` in each round; `len` is what the
  -- buffer still has room for.
  unfoldable pub read_loop : ℕ → ℕ → Bool → fw.Terminal → Reading fw.Terminal
  unfolding con_getchar
  read_loop zero len pending t = record { out = []; pending = pending; terminal = t }
  read_loop (suc n) zero pending t = record { out = []; pending = pending; terminal = t }
  read_loop (suc n) (suc len) pending t =
      let t' = (con_getchar fw t).1 in
      elim (con_getchar fw t).0 [
        | none ↦ record { out = []; pending = pending; terminal = t' }
        | some c ↦ elim pending [
          | true ↦ wrote (if c == bracket then csi else esc) (read_loop n len false t')
          | false ↦ elim (c == esc) [
            | true ↦ read_loop n (suc len) true t'
            | false ↦ wrote c (read_loop n len false t')
          ]
        ]
      ]

  module _ (law : IsConsole fw) where
    abbrev pub IsRead : Reading fw.Terminal → Read → Type 0
    IsRead r s = (r.out ≡ s.out) × (r.pending ≡ s.pending) × (law.typed r.terminal ≡ s.rest)

    abbrev pub odd : Bool → ℕ
    odd true = 1
    odd false = 0

    -- Two rounds for each character of the buffer are enough: a round that puts nothing there
    -- leaves an ESC pending, and the next one does.
    loop-rom_stdin :
        (n len : ℕ) (pending : Bool) (t : fw.Terminal) (input : List ℕ)
        → law.typed t ≡ input
        → 2 * len ≤ n + odd pending
        → IsRead (read_loop n len pending t) (rom_stdin len pending input)
    unfolding read_loop rom_stdin
    loop-rom_stdin zero zero pending t input e enough = (refl, refl, e)
    loop-rom_stdin (suc n) zero pending t input e enough = (refl, refl, e)
    loop-rom_stdin zero (suc len) true t input e enough = absurd (omega arith)
    loop-rom_stdin zero (suc len) false t input e enough = absurd (omega arith)
    loop-rom_stdin (suc n) (suc len) pending t [] e enough =
        let (nothing, rest) = getchar_none fw law t e in rw (nothing, read_loop) (refl, refl, rest)
    loop-rom_stdin (suc n) (suc len) true t (c ∷ input) e enough =
        let (read, rest) = getchar_some fw law t c input e in
        let (out, now, left) =
          loop-rom_stdin n len false (con_getchar fw t).1 input rest (omega arith) in
        rw (read, read_loop)
          (elim (Bool-cases (c == bracket)) [
            | inl is ↦ rw is (ap (λ s. csi ∷ s) out, now, left)
            | inr other ↦ rw other (ap (λ s. esc ∷ s) out, now, left)
          ])
    loop-rom_stdin (suc n) (suc len) false t (c ∷ input) e enough =
        let (read, rest) = getchar_some fw law t c input e in
        let t' = (con_getchar fw t).1 in
        rw (read, read_loop)
          (elim (Bool-cases (c == esc)) [
            | inl is ↦ rw is (loop-rom_stdin n (suc len) true t' input rest (omega arith))
            | inr other ↦
                let (out, now, left) = loop-rom_stdin n len false t' input rest (omega arith) in
                rw other (ap (λ s. c ∷ s) out, now, left)
          ])

    -- On a console that gives the characters that were typed, one for each call, and then lacks
    -- them: in two calls of `con_getchar` for each byte of the buffer at most, the loop of
    -- `rom_stdin` ends, with the bytes, the pending ESC and the characters left that `rom_stdin`
    -- has for those typed, whatever the length and whether an ESC was pending.
    pub read_loop-IsRead :
        (len n : ℕ) (pending : Bool) (t : fw.Terminal)
        → 2 * len ≤ n
        → IsRead (read_loop n len pending t) (rom_stdin len pending (law.typed t))
    read_loop-IsRead len n pending t enough =
        loop-rom_stdin n len pending t (law.typed t) refl (omega arith)
