-- ===== src/Time/Handle/Laws.antt =====
-- `time_handle` of time.c: what is left in the queue, which timers fire, and when the decrementer
-- goes off.
use prephv.Base.{
  ℕ, ◌+◌, ◌-◌, ◌^◌, ◌≤◌, ◌<◌, ◌≡◌, refl, arith, false, Option, none, some, List, [], ◌∷◌, ◌++◌, Run,
  done, leb, ltb, if◌then◌else◌, ◌-64◌, ◌==◌, length, min, u64, IfDone, IfDone->>=, Bool-cases, inl,
  inr, ap,
}
use prephv.Ppc.{dec_disable}
use prephv.Time.{Req, time_enqueue_int}
use prephv.Time.Handle.{
  Handled, then_fired, dec_of, Callback, go_on, put_back, handle_loop, time_handle,
}

-- A timer that goes back does so before `n` if it fires before `n`, and behind `n` if not.
pub enqueue_front :
    (t n : Req) (ns : List Req)
    → (n.id == t.id) ≡ false
    → time_enqueue_int t (n ∷ ns)
      ≡ (if ltb t.when n.when then t ∷ n ∷ ns else n ∷ time_enqueue_int t ns)
unfolding time_enqueue_int
enqueue_front t n ns h = rw h refl

-- The times are 64-bit numbers, in order from `lo` on.
abbrev pub AreTimes : ℕ → List Req → Type 0
AreTimes lo [] = Unit {0}
AreTimes lo (x ∷ xs) = (lo ≤ x.when) × (x.when < 2 ^ 64) × AreTimes x.when xs

AreTimes-weaken : (a b : ℕ) (xs : List Req) → b ≤ a → AreTimes a xs → AreTimes b xs
AreTimes-weaken a b [] h s = tt
AreTimes-weaken a b (x ∷ xs) h s = (omega arith, s.1, s.2)

enqueue-AreTimes :
    (t : Req) (lo : ℕ) (xs : List Req)
    → lo ≤ t.when
    → t.when < 2 ^ 64
    → AreTimes lo xs
    → AreTimes lo (time_enqueue_int t xs)
unfolding time_enqueue_int
enqueue-AreTimes t lo [] le lt s = (le, lt, tt)
enqueue-AreTimes t lo (x ∷ xs) le lt s = elim (Bool-cases (x.id == t.id)) [
  | inl e ↦ rw e s
  | inr e ↦ rw e (elim (Bool-cases (ltb t.when x.when)) [
    | inl sooner ↦ rw sooner (le, lt, (ground arith, s.1, s.2))
    | inr later ↦ rw later (s.0, s.1, enqueue-AreTimes t x.when xs (ground arith) lt s.2)
  ])
]

-- All that is left is still to come.
abbrev pub LeftOk : Option Handled → Type 0
LeftOk none = Unit {0}
LeftOk (some h) = AreTimes (h.now + 1) h.reqs

LeftOk-fired : (t : Req) (r : Option Handled) → LeftOk r → LeftOk (then_fired t r)
LeftOk-fired t none ok = tt
LeftOk-fired t (some h) ok = ok

go_on-LeftOk :
    (reading : ℕ) (queue : List Req) (next : List Req → Run (Option Handled)) (others : List Req)
    → IfDone LeftOk (next queue)
    → (others ≡ [] → AreTimes (reading + 1) queue)
    → IfDone LeftOk (go_on reading queue next others)
unfolding go_on
go_on-LeftOk reading queue next [] n e = e refl
go_on-LeftOk reading queue next (x ∷ xs) n e = n

single :
    (t : Req) (lo : ℕ) (others : List Req)
    → others ≡ []
    → lo ≤ t.when
    → t.when < 2 ^ 64
    → AreTimes lo (time_enqueue_int t others)
single t lo others e le lt = rw e (enqueue-AreTimes t lo [] le lt tt)

put_back-LeftOk :
    (t : Req) (reading : ℕ) (others : List Req) (next : List Req → Run (Option Handled))
    (o : Option ℕ)
    → AreTimes 0 others
    → ((queue : List Req) → AreTimes 0 queue → IfDone LeftOk (next queue))
    → IfDone LeftOk (put_back t reading others next o)
unfolding put_back
put_back-LeftOk t reading others next none s n = n others s
put_back-LeftOk t reading others next (some when) s n =
    let t' = record t { when = u64 when } in
    let queue = time_enqueue_int t' others in
    elim (Bool-cases (leb (u64 when) reading)) [
      | inl stale ↦ rw stale tt
      | inr later ↦ rw later (
          go_on-LeftOk reading queue next others
            (n queue (enqueue-AreTimes t' 0 others (omega arith) (omega arith) s))
            (λ e. single t' (reading + 1) others e (ground arith) (omega arith)))
    ]

module _ (cb : Callback) where
  loop-LeftOk :
      (readings : List ℕ) (now : ℕ) (reqs : List Req)
      → AreTimes 0 reqs
      → IfDone LeftOk (handle_loop cb readings now reqs)
  unfolding handle_loop
  loop-LeftOk readings now [] s = tt
  loop-LeftOk [] now (t ∷ reqs) s = tt
  loop-LeftOk (reading ∷ readings) now (t ∷ reqs) s =
      let rest = AreTimes-weaken t.when 0 reqs (omega arith) s.2 in
      elim (Bool-cases (leb t.when reading)) [
        | inl due ↦ rw due (
            IfDone->>= LeftOk LeftOk
              (put_back t reading reqs (λ queue. handle_loop cb readings reading queue)
                (cb t reading))
              _
              (put_back-LeftOk t reading reqs (λ queue. handle_loop cb readings reading queue)
                (cb t reading) rest (λ queue o. loop-LeftOk readings reading queue o))
              (λ r ok. LeftOk-fired t r ok))
        | inr early ↦ rw early (ground arith)
      ]

-- The decrementer goes off when the first timer is due, or as late as it can if that is sooner or
-- if there is no timer.
abbrev pub DecOk : ℕ → ℕ → List Req → Type 0
DecOk now dec [] = dec ≡ dec_disable
DecOk now dec (t ∷ ts) = (0 < dec) × (dec ≡ min (t.when - now) dec_disable)

-- The timers that are left, and the value of the decrementer.
abbrev pub NextOk : Option (Handled × ℕ) → Type 0
NextOk none = Unit {0}
NextOk (some (h, dec)) = AreTimes (h.now + 1) h.reqs × DecOk h.now dec h.reqs

dec_of-DecOk :
    (now : ℕ) (reqs fired : List Req)
    → AreTimes (now + 1) reqs
    → DecOk now (dec_of (record { now = now; reqs = reqs; fired = fired })) reqs
unfolding dec_of
dec_of-DecOk now [] fired s = refl
dec_of-DecOk now (t ∷ ts) fired s =
    let lo = s.0 in
    let hi = s.1 in let e : t.when -64 now ≡ t.when - now = omega arith in rw e (ground arith)

module _ (cb : Callback) where
  -- With timers whose times are in order and 64-bit numbers, whatever the callbacks return and
  -- however long they take, `time_handle` ends, if it ends and no timer put back is stale, with
  -- such timers that are all later than the last reading of the timebase; the decrementer gets
  -- the time to the first of them, or its greatest value if that is less or there is none.
  pub time_handle_lem :
      (readings : List ℕ) (reqs : List Req)
      → AreTimes 0 reqs
      → IfDone NextOk (time_handle cb readings reqs)
  unfolding time_handle
  time_handle_lem [] reqs s = tt
  time_handle_lem (now ∷ readings) reqs s =
      IfDone->>= LeftOk NextOk (handle_loop cb readings now reqs) _
        (loop-LeftOk cb readings now reqs s) next
    where
      next :
          (r : Option Handled)
          → LeftOk r
          → NextOk (elim r [ none ↦ none | some h ↦ some (h, dec_of h) ])
      next none ok = tt
      next (some h) ok = (ok, dec_of-DecOk h.now h.reqs h.fired ok)

-- The times, at which every timer is one that its callback does not put back.
abbrev pub AreOneShot : Callback → List Req → Type 0
AreOneShot cb [] = Unit {0}
AreOneShot cb (t ∷ ts) = ((now : ℕ) → cb t now ≡ none) × AreOneShot cb ts

abbrev pub AllFrom : ℕ → List ℕ → Type 0
AllFrom start [] = Unit {0}
AllFrom start (x ∷ xs) = (start ≤ x) × AllFrom start xs

-- The queue is what fired and then what is left, of which nothing was due at the start.
abbrev pub Fires : ℕ → List Req → Option Handled → Type 0
Fires start reqs none = ⊥
Fires start reqs (some h) = (reqs ≡ h.fired ++ h.reqs) × AreTimes (start + 1) h.reqs

module _ (cb : Callback) (start : ℕ) where
  one_shot_loop :
      (readings : List ℕ) (now : ℕ) (reqs : List Req)
      → AreTimes 0 reqs
      → AreOneShot cb reqs
      → AllFrom start readings
      → length reqs ≤ length readings
      → (h : Handled) × (handle_loop cb readings now reqs ≡ done (some h))
        × Fires start reqs (some h)
  unfolding handle_loop put_back
  one_shot_loop readings now [] s once from enough =
      (record { now = now; reqs = []; fired = [] }, refl, (refl, tt))
  one_shot_loop [] now (t ∷ reqs) s once from enough = absurd (omega arith)
  one_shot_loop (reading ∷ readings) now (t ∷ reqs) s once from enough =
      elim (Bool-cases (leb t.when reading)) [
        | inl due ↦
            let (h, e, (parts, left)) =
              one_shot_loop readings reading reqs (AreTimes-weaken t.when 0 reqs (omega arith) s.2)
                once.1 from.1 (omega arith) in
            (
              record h { fired = t ∷ h.fired },
              rw (due, once.0 reading, e) refl,
              (ap (λ q. t ∷ q) parts, left),
            )
        | inr early ↦ (
          record { now = reading; reqs = t ∷ reqs; fired = [] },
          rw early refl,
          (refl, (let f = from.0 in ground arith, s.1, s.2)),
        )
      ]

  -- If no callback puts its timer back, with timers whose times are in order and 64-bit numbers,
  -- and readings of the timebase from some time on, one more than there are timers, `time_handle`
  -- returns: every timer that was due by then has fired, each once and in the order of the queue,
  -- and the others are left as they were.
  pub due_timers_fire :
      (now : ℕ) (readings : List ℕ) (reqs : List Req)
      → AreTimes 0 reqs
      → AreOneShot cb reqs
      → AllFrom start readings
      → length reqs ≤ length readings
      → (h : Handled) × (dec : ℕ) × (time_handle cb (now ∷ readings) reqs ≡ done (some (h, dec)))
        × Fires start reqs (some h)
  unfolding time_handle
  due_timers_fire now readings reqs s once from enough =
      let (h, e, f) = one_shot_loop readings now reqs s once from enough in
      (h, dec_of h, rw e refl, f)
