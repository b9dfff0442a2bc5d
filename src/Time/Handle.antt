-- ===== src/Time/Handle.antt =====
-- `time_handle` and `time_enqueue` of time.c: the timers that are due fire, and the decrementer is
-- set for the next. A run takes its readings of the timebase from a list, one for each `mftb`, and
-- ends in `none` where they run out, for the loop has no bound of its own.
pub mod Laws
use prephv.Base.{
  ℕ, ◌+◌, ◌^◌, Bool, true, false, Option, none, some, List, [], ◌∷◌, Run, done, ◌>>=◌, ◌>>◌, bug_on,
  leb, ltb, if◌then◌else◌, ◌-64◌, u64, ◌%◌,
}
use prephv.Ppc.{dec_disable}
use prephv.Time.{Req, time_enqueue_int}

-- The last reading, the queue, and the timers that fired, in their order.
pub record Handled : Type 0 where
  pub now : ℕ
  pub reqs : List Req
  pub fired : List Req

abbrev pub handled : ℕ → List Req → Option Handled
handled now reqs = some (record { now = now; reqs = reqs; fired = [] })

abbrev pub then_fired : Req → Option Handled → Option Handled
then_fired t none = none
then_fired t (some h) = some (record h { fired = t ∷ h.fired })

-- `dec` behind the loop, whose `t` is then the first of the queue.
unfoldable pub dec_of : Handled → ℕ
dec_of h = elim h.reqs [
  | [] ↦ dec_disable
  | t ∷ ts ↦ if ltb (t.when -64 h.now) dec_disable then t.when -64 h.now else dec_disable
]

-- What a callback makes of its timer: `some when` where it returns true, with the new time, and
-- `none` where it returns false; the field has 64 bits. It leaves the queue alone.
abbrev pub Callback : Type 0
Callback = Req → ℕ → Option ℕ

-- Behind a callback. `others` is the queue without the timer and `next` the rest of the loop,
-- which ends if there are no others when the timer is put back.
unfoldable pub go_on :
    ℕ → List Req → (List Req → Run (Option Handled)) → List Req → Run (Option Handled)
go_on reading queue next [] = done (handled reading queue)
go_on reading queue next (n ∷ ns) = next queue

unfoldable pub put_back :
    Req → ℕ → List Req → (List Req → Run (Option Handled)) → Option ℕ → Run (Option Handled)
unfolding go_on
put_back t reading others next none = next others
put_back t reading others next (some when) = do
  bug_on (leb (u64 when) reading)
  go_on reading (time_enqueue_int (record t { when = u64 when }) others) next others

module _ (cb : Callback) where
  -- The loop. `t` is the first of the queue in every round: a timer is taken out when it fires,
  -- and one that is put back is the next `t` if it goes before `n`, the first of the others.
  unfoldable pub handle_loop : List ℕ → ℕ → List Req → Run (Option Handled)
  unfolding put_back
  handle_loop readings now [] = done (handled now [])
  handle_loop [] now (t ∷ reqs) = done none
  handle_loop (reading ∷ readings) now (t ∷ reqs) =
      if leb t.when reading
      then (do
        r ← put_back t reading reqs (λ queue. handle_loop readings reading queue) (cb t reading)
        done (then_fired t r))
      else done (handled reading (t ∷ reqs))

  -- The queue, and the value of the decrementer.
  unfoldable pub time_handle : List ℕ → List Req → Run (Option (Handled × ℕ))
  unfolding handle_loop dec_of
  time_handle [] reqs = done none
  time_handle (now ∷ readings) reqs = do
    r ← handle_loop readings now reqs
    done (elim r [ none ↦ none | some h ↦ some (h, dec_of h) ])

  -- The flag is off while the timer is queued, and `time_handle` runs with it restored.
  unfoldable pub time_enqueue : Req → List ℕ → List Req → Run (Option (Handled × ℕ))
  unfolding time_handle
  time_enqueue t readings reqs = time_handle readings (time_enqueue_int t reqs)
