-- ===== src/Time.antt =====
-- time.c and include/time.h: the queue of timers, and the conversions of the timebase. The
-- circular list is a `List` from the head's successor on. `kpcr_get()->tb_freq` is an argument.
pub mod Queue
pub mod Handle
pub mod Delay
use prephv.Base.{ℕ, ◌+◌, ◌*◌, ◌/◌, Bool, List, [], ◌∷◌, ltb, ◌==◌, if◌then◌else◌, u64}

-- `time_req_t`: `id` stands for its address, which is all that the source compares; the name,
-- the context and the callback play no part in the queue.
pub record Req : Type 0 where
  pub id : ℕ
  pub when : ℕ

-- `time_init`
abbrev pub time_init : List Req
time_init = []

-- `time_prep`
unfoldable pub time_prep : ℕ → Req → Req
time_prep when t = record t { when = when }

unfoldable pub time_enqueue_int : Req → List Req → List Req
time_enqueue_int t [] = t ∷ []
time_enqueue_int t (pos ∷ reqs) =
    let rest = time_enqueue_int t reqs in
    if pos.id == t.id
    then pos ∷ reqs
    else if ltb t.when pos.when
    then t ∷ pos ∷ reqs
    else pos ∷ rest

-- The loop of `time_dequeue`.
unfoldable pub time_dequeue : Req → List Req → List Req
time_dequeue t [] = []
time_dequeue t (pos ∷ reqs) =
    let rest = time_dequeue t reqs in if pos.id == t.id then reqs else pos ∷ rest

unfoldable pub secs_to_tb : ℕ → ℕ → ℕ
secs_to_tb tb_freq secs = u64 (secs * tb_freq)

unfoldable pub ms_to_tb : ℕ → ℕ → ℕ
ms_to_tb tb_freq ms = u64 (ms * (tb_freq / 1000))

unfoldable pub tb_to_secs : ℕ → ℕ → ℕ
tb_to_secs tb_freq tb = tb / tb_freq

unfoldable pub tb_to_ms : ℕ → ℕ → ℕ
tb_to_ms tb_freq tb = tb / (tb_freq / 1000)
