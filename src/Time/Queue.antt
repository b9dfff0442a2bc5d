-- ===== src/Time/Queue.antt =====
-- The timer queue of time.c: its order, what it holds, and `time_dequeue` against
-- `time_enqueue_int`.
use prephv.Base.{
  ℕ, ◌*◌, ◌/◌, ◌^◌, ◌≤◌, ◌<◌, ◌≡◌, ◌≢◌, arith, Bool, false, ◌||◌, List, [], ◌∷◌, ltb, ◌==◌,
  Bool-cases, inl, inr, u64,
}
use native.Mathlib.Nat.{mul-div_cancel}
use prephv.Time.{Req, time_enqueue_int, time_dequeue, ms_to_tb, tb_to_ms}

-- Each timer fires no later than the next, from `lo` on.
abbrev pub IsOrdered : ℕ → List Req → Type 0
IsOrdered lo [] = Unit {0}
IsOrdered lo (x ∷ xs) = (lo ≤ x.when) × IsOrdered x.when xs

-- No timer of the queue is the one given.
abbrev pub IsAbsent : ℕ → List Req → Type 0
IsAbsent id [] = Unit {0}
IsAbsent id (x ∷ xs) = (x.id ≢ id) × IsAbsent id xs

unfoldable pub holds : ℕ → List Req → Bool
holds id [] = false
holds id (x ∷ xs) = x.id == id || holds id xs

pub enqueue-IsOrdered :
    (t : Req) (lo : ℕ) (xs : List Req)
    → lo ≤ t.when
    → IsOrdered lo xs
    → IsOrdered lo (time_enqueue_int t xs)
unfolding time_enqueue_int
enqueue-IsOrdered t lo [] le s = (le, tt)
enqueue-IsOrdered t lo (x ∷ xs) le s = elim (Bool-cases (x.id == t.id)) [
  | inl e ↦ rw e s
  | inr e ↦ rw e (elim (Bool-cases (ltb t.when x.when)) [
    | inl lt ↦ rw lt (le, (ground arith, s.1))
    | inr ge ↦ rw ge (s.0, enqueue-IsOrdered t x.when xs (ground arith) s.1)
  ])
]

module _ (t : Req) where
  holds-enqueue :
      (id : ℕ) (xs : List Req)
      → IsAbsent t.id xs
      → holds id (time_enqueue_int t xs) ≡ (t.id == id || holds id xs)
  unfolding holds time_enqueue_int
  holds-enqueue id [] absent = ground arith
  holds-enqueue id (x ∷ xs) absent =
      let ne = absent.0 in ground (arith, holds-enqueue id xs absent.1)

  dequeue-enqueue : (xs : List Req) → IsAbsent t.id xs → time_dequeue t (time_enqueue_int t xs) ≡ xs
  unfolding time_enqueue_int time_dequeue
  dequeue-enqueue [] absent = ground arith
  dequeue-enqueue (x ∷ xs) absent = let ne = absent.0 in ground (arith, dequeue-enqueue xs absent.1)

  -- Putting a timer that is not queued into an ordered queue leaves the queue in order, holding
  -- the timer and what it held before, and taking the timer out again gives back the very queue it
  -- was.
  pub enqueue_lem :
      (lo : ℕ) (xs : List Req)
      → lo ≤ t.when
      → IsOrdered lo xs
      → IsAbsent t.id xs
      → IsOrdered lo (time_enqueue_int t xs)
        × ((id : ℕ) → holds id (time_enqueue_int t xs) ≡ (t.id == id || holds id xs))
        × (time_dequeue t (time_enqueue_int t xs) ≡ xs)
  enqueue_lem lo xs le s absent = (
    enqueue-IsOrdered t lo xs le s,
    (λ id. holds-enqueue id xs absent),
    dequeue-enqueue xs absent,
  )

mod_small : (a : ℕ) → a < 2 ^ 64 → u64 a ≡ a
mod_small a h = omega arith

-- Milliseconds survive the conversion to ticks and back, with a timebase of at least 1 kHz and
-- short of an overflow.
pub tb_to_ms-ms_to_tb :
    (tb_freq ms : ℕ)
    → 1000 ≤ tb_freq
    → ms * (tb_freq / 1000) < 2 ^ 64
    → tb_to_ms tb_freq (ms_to_tb tb_freq ms) ≡ ms
unfolding tb_to_ms ms_to_tb
tb_to_ms-ms_to_tb tb_freq ms h u =
    rw (mod_small (ms * (tb_freq / 1000)) u) (mul-div_cancel ms (omega arith))
