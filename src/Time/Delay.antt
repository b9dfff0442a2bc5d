-- ===== src/Time/Delay.antt =====
-- `time_delay` of time.c: the loop that waits on the timebase, with its readings in a list, one
-- for each `mftb`. It ends in `none` where they run out.
use prephv.Base.{
  ℕ, zero, suc, ◌+◌, ◌^◌, ◌≤◌, ◌<◌, ◌≡◌, arith, true, Option, none, some, List, [], ◌∷◌, ◌++◌, ltb,
  if◌then◌else◌, ◌-64◌, u64,
}

-- The reading at which the loop ends.
unfoldable pub delay_loop : ℕ → ℕ → List ℕ → Option ℕ
delay_loop now delay [] = none
delay_loop now delay (reading ∷ readings) =
    let rest = delay_loop now delay readings in
    if ltb (reading -64 now) delay then rest else some reading

unfoldable pub time_delay : ℕ → List ℕ → Option ℕ
unfolding delay_loop
time_delay delay [] = none
time_delay delay (now ∷ readings) = delay_loop now delay readings

-- The readings from the `i`-th on, `n` of them, of a timebase that began at `now` and has gone on
-- by `gone` of their number since. It wraps around at 2 ^ 64.
unfoldable pub ticks : ℕ → (ℕ → ℕ) → ℕ → ℕ → List ℕ
ticks now gone i zero = []
ticks now gone i (suc n) = u64 (now + gone i) ∷ ticks now gone (i + 1) n

ltb-true : (a b : ℕ) → a < b → ltb a b ≡ true
ltb-true a b h = ground arith

module _ (now delay : ℕ) (gone : ℕ → ℕ) (start : now < 2 ^ 64) (small : delay < 2 ^ 64) where
  elapsed : (g : ℕ) → g < 2 ^ 64 → u64 (now + g) -64 now ≡ g
  elapsed g h = omega arith

  -- The rounds from the `i`-th reading on, `k` before the last.
  delay_loop_lem :
      (rest : List ℕ) (n k i : ℕ)
      → ((j : ℕ) → j < n → gone j < delay)
      → delay ≤ gone n
      → gone n < 2 ^ 64
      → i + k ≡ n
      → delay_loop now delay (ticks now gone i (suc k) ++ rest) ≡ some (u64 (now + gone n))
  unfolding delay_loop ticks
  delay_loop_lem rest n zero i before due fits e =
      let same : i ≡ n = omega arith in rw (same, elapsed (gone n) fits) (ground arith)
  delay_loop_lem rest n (suc k) i before due fits e =
      let early = before i (omega arith) in
      rw (elapsed (gone i) (omega arith), ltb-true (gone i) delay early)
        (delay_loop_lem rest n k (i + 1) before due fits (omega arith))

  -- If the `n`-th reading of the timebase behind the first is the first at which the delay has
  -- gone by, and 2 ^ 64 ticks have not, then `time_delay` ends exactly there, even if the
  -- timebase wraps around in between; `rest` are the readings that it leaves.
  pub time_delay_lem :
      (rest : List ℕ) (n : ℕ)
      → ((j : ℕ) → j < n → gone j < delay)
      → delay ≤ gone n
      → gone n < 2 ^ 64
      → time_delay delay (now ∷ (ticks now gone 0 (suc n) ++ rest)) ≡ some (u64 (now + gone n))
  unfolding time_delay
  time_delay_lem rest n before due fits = delay_loop_lem rest n n 0 before due fits (omega arith)
