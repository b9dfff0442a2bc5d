-- ===== src/Log/Console.antt =====
-- The input of console.c, and `con_puts_len`, over the firmware's console calls.
use prephv.Base.{
  ℕ, ◌≡◌, ◌≢◌, refl, ◌||◌, false, arith, Option, none, some, List, [], ◌∷◌, ◌==◌, ◌!=◌,
  if◌then◌else◌, ◌⊎◌,
}
use prephv.Endian.{swab64}

-- What a read leaves in the variables of the caller: the returned code, the length, which is
-- big-endian, and the character.
pub record Answer (T : Type 0) : Type 0 where
  pub ret : ℕ
  pub len : ℕ
  pub c : ℕ
  pub terminal : T

-- The console of the firmware: `opal_read` and `opal_write` of OPAL_TERMINAL_0, with the length
-- that they are passed. The argument of `opal_write` is the memory from the buffer on.
pub record Opal : Type 1 where
  pub Terminal : Type 0
  pub opal_read : ℕ → Terminal → Answer Terminal
  pub opal_write : ℕ → (ℕ → ℕ) → Terminal → Terminal

-- A read for one character gives the next one that was typed, and success with the length of 1;
-- when there is none it gives an error or the length of 0.
pub record IsConsole (fw : Opal) : Type 0 where
  pub typed : fw.Terminal → List ℕ
  pub gives :
      (t : fw.Terminal) (c : ℕ) (cs : List ℕ)
      → typed t ≡ c ∷ cs
      → let a = fw.opal_read (swab64 1) t in
        (a.ret ≡ 0) × (a.len ≡ swab64 1) × (a.c ≡ c) × (typed a.terminal ≡ cs)
  pub lacks :
      (t : fw.Terminal)
      → typed t ≡ []
      → let a = fw.opal_read (swab64 1) t in ((a.ret ≢ 0) ⊎ (a.len ≡ 0)) × (typed a.terminal ≡ [])

module _ (fw : Opal) where
  -- A `char` has 8 bits without a sign on this machine, so that NO_CHAR, -1, is no character.
  unfoldable pub con_getchar : fw.Terminal → Option ℕ × fw.Terminal
  con_getchar t =
      let a = fw.opal_read (swab64 1) t in
      (if a.ret != 0 || a.len == 0 then none else some a.c, a.terminal)

  unfoldable pub con_puts_len : (ℕ → ℕ) → ℕ → fw.Terminal → fw.Terminal
  con_puts_len s len t = fw.opal_write (swab64 len) s t

  module _ (law : IsConsole fw) (t : fw.Terminal) where
    some_length : (swab64 1 == 0) ≡ false
    unfolding swab64
    some_length = refl

    pub getchar_none :
        law.typed t ≡ [] → ((con_getchar t).0 ≡ none) × (law.typed (con_getchar t).1 ≡ [])
    unfolding con_getchar
    getchar_none e = let (missing, rest) = law.lacks t e in (ground arith, rest)

    pub getchar_some :
        (c : ℕ) (cs : List ℕ)
        → law.typed t ≡ c ∷ cs
        → ((con_getchar t).0 ≡ some c) × (law.typed (con_getchar t).1 ≡ cs)
    unfolding con_getchar
    getchar_some c cs e =
        let (ok, one, same, rest) = law.gives t c cs e in
        (rw (ok, one, same, some_length) refl, rest)
