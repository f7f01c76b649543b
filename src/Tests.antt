-- ===== src/Tests.antt =====
-- Runs of the counters, the queue, the pool and the budget on small states.
use wirestead.Prelude.{
  ℕ, ◌+◌, ◌-◌, ◌≡◌, refl, ◌<◌, ◌≤◌, ◌⊎◌, true, false, List, [], ◌∷◌, some, if◌then◌else◌, length,
  arith, ◌>>=◌, leb, not, ◌&&◌, ◌||◌, ◌==◌,
}
use wirestead.Framer.Search.{find_byte}
use wirestead.Transport.Reservation.{
  Counters, Interference, queue, try_reserve_write_locked, commit_reserved_limit_bytes,
  try_reserve_limit_bytes, reserve_rounds, try_reserve_write_bytes, fits,
}
use wirestead.Transport.Reservation.Loops.{
  total, Releases, Reserved, alone, admits, try_reserve_write_locked-Reserved,
  try_reserve_write_locked-admits,
}
use wirestead.Transport.Reservation.Limit.{
  System, IsValid, here, next, commit, try_reserve_limit_bytes-fits,
  commit_reserved_limit_bytes-total, Reach-IsValid,
}
use wirestead.Transport.Gather.{
  take_gather_batch, return_gather_batch, bytes_of, max_gather_buffers, take_gather_batch-return,
}
use wirestead.Transport.Backpressure.{
  Link, EnqueueDecision, decide_enqueue, Settled, report_backpressure, flush_pending_into_tx,
  decide_enqueue-held, report_backpressure-Settled,
}
use wirestead.Diagnostics.Stats.{
  zeroed, counted, absorb, snapshot, run, sent, dropped, queued, absorb-run,
}
use Prim.Native.Char.{code}
use Prim.Native.String.{String}
use wirestead.Util.Hostname.{
  is_valid_hostname, is_valid_label, labels_valid, labels, all, max_hostname_length,
  starts_with_hyphen, ends_with_hyphen, is_valid_hostname-labels,
}
use wirestead.Wrapper.Send.{
  SendRejection, SendResult, accept, reject, queue_full, no_targets, add_all, target_count,
  rejected_for, count, is_for, add_all-counts,
}
use wirestead.Transport.Reconnect.{
  RetryConfig, fixed_interval, decide_reconnect_common, give_up, IsDecision,
  decide_reconnect_common-IsDecision,
}
use wirestead.Transport.Reconnect
use wirestead.Wrapper.Receive
use wirestead.Wrapper.Receive.Invariant as Budgets
use wirestead.Memory.Pool
use wirestead.Memory.Pooled
use wirestead.Memory.Pool.Invariant as Pools

-- 6 bytes queued, 2 reserved; the limits are 16 and 20.
abbrev counters : Counters
counters = record {
  queue_bytes = 6;
  pending_bytes = 0;
  inflight_bytes = 2;
  backpressure_active = false;
}

-- A write of 4 bytes completes before the first exchange, which fails.
abbrev completes : Interference
completes = record {
  before = λ c. c;
  during = λ c. record c { queue_bytes = c.queue_bytes - 4 };
  spurious = false;
}

abbrev after : Counters
after = record counters { queue_bytes = 7 }

retried : try_reserve_write_locked (completes ∷ alone ∷ []) counters 5 16 20 ≡ some (after, true)
unfolding try_reserve_write_locked try_reserve_write_bytes reserve_rounds fits
retried = refl

idle-Releases : (c : Counters) → Releases c c
idle-Releases c = record { queue = omega arith; pending = omega arith; inflight = refl }

try_reserve_write_locked-Reserved_example :
    ((true ≡ false) × Releases counters after)
    ⊎ ((true ≡ true) × Reserved counters 5 16 18 after × (total after ≤ 20))
try_reserve_write_locked-Reserved_example =
    try_reserve_write_locked-Reserved (completes ∷ alone ∷ []) counters 5 16 20
      (
        (
          idle-Releases,
          λ c. record { queue = omega arith; pending = omega arith; inflight = refl },
        ),
        ((idle-Releases, idle-Releases), tt),
      )
      (omega arith) after true retried

try_reserve_write_locked-admits_example :
    try_reserve_write_locked (alone ∷ []) counters 10 16 20
    ≡ some (
        if admits counters 10 16 20
        then (record counters { queue_bytes = 16 }, true)
        else (counters, false))
try_reserve_write_locked-admits_example =
    try_reserve_write_locked-admits [] counters 10 16 20 (omega arith)

try_reserve_limit_bytes-fits_example :
    try_reserve_limit_bytes counters 12 20 ≡ (record counters { inflight_bytes = 14 }, true)
try_reserve_limit_bytes-fits_example = try_reserve_limit_bytes-fits counters 12 20 (omega arith)

commit_reserved_limit_bytes-total_example :
    (total (commit_reserved_limit_bytes queue counters 2) ≡ 8)
    × ((commit_reserved_limit_bytes queue counters 2).inflight_bytes + 2 ≡ 2)
commit_reserved_limit_bytes-total_example =
    commit_reserved_limit_bytes-total queue counters 2 (omega arith) (omega arith)

abbrev system : System
system = record { counters = counters; held = 2 ∷ [] }

system-IsValid : IsValid 20 system
system-IsValid = record { counted = refl; within = omega arith }

abbrev committed : System
committed = record { counters = commit_reserved_limit_bytes queue counters 2; held = [] }

Reach-IsValid_example : IsValid 20 committed
Reach-IsValid_example =
    Reach-IsValid 16 20 (omega arith) system-IsValid (next here (commit system queue [] [] 2 refl))

decide_enqueue-held_example :
    decide_enqueue counters 2 20
    ≡ (if counters.backpressure_active then EnqueueDecision.pending else EnqueueDecision.immediate)
decide_enqueue-held_example = decide_enqueue-held 20 system [] [] 2 system-IsValid refl

abbrev link : Link ℕ
link = record {
  counters = record {
    queue_bytes = 3;
    pending_bytes = 15;
    inflight_bytes = 0;
    backpressure_active = true;
  };
  tx = 3 ∷ [];
  waiting = 7 ∷ 8 ∷ [];
  stats = zeroed;
  has_callback = true;
  reported = [];
}

report_backpressure-Settled_example :
    (m : Link ℕ) × Settled 16 4 link m
    × ((report_backpressure flush_pending_into_tx (λ l. l) link 3 16 4 ≡ m)
        ⊎ (report_backpressure flush_pending_into_tx (λ l. l) link 3 16 4 ≡ m))
report_backpressure-Settled_example =
    report_backpressure-Settled link 16 4 (omega arith) (omega arith)
      (record { none_waiting = λ e. cc; none_counted = λ e. cc }) (λ l. l)

take_gather_batch-return_example :
    let g = take_gather_batch (λ n. n) (3 ∷ 5 ∷ []) in
    (return_gather_batch g.tx g.batch ≡ 3 ∷ 5 ∷ [])
    × (g.total ≡ bytes_of (λ n. n) g.batch)
    × (length g.batch ≤ max_gather_buffers)
    × ((◌≡◌ {A = List ℕ} (3 ∷ 5 ∷ []) []) ⊎ (0 < length g.batch))
take_gather_batch-return_example = take_gather_batch-return (λ n. n) (3 ∷ 5 ∷ []) (omega arith)

absorb-run_example :
    counted
      (absorb zeroed (snapshot (run zeroed (sent 5 ∷ dropped 1 9 ∷ queued 4 ∷ [])) 0 0 false 1))
    ≡ counted
        (run (absorb zeroed (snapshot zeroed 0 0 false 1)) (sent 5 ∷ dropped 1 9 ∷ queued 4 ∷ []))
absorb-run_example = absorb-run 0 0 false 1 zeroed zeroed (sent 5 ∷ dropped 1 9 ∷ queued 4 ∷ [])

abbrev budget : Receive.Budget
budget = record {
  limits = record { max_bytes = 100; max_frame_bytes = 50; max_sessions = 2 };
  used = 0;
  peak = 0;
  sessions = 0;
  overflows = 0;
  overflow_bytes = 0;
  reasons = Receive.no_reasons;
  scopes = λ _. Receive.new_scope;
  opened = 0;
}

budget-make : Receive.make budget.limits ≡ some budget
unfolding Receive.make Receive.validate
budget-make = refl

abbrev charged : Receive.Budget
charged = record budget {
  used = 30;
  peak = 30;
  scopes = λ j.
      (if j == 0
        then record { used = 30; peak = 30; overflows = 0; overflow_bytes = 0 }
        else Receive.new_scope);
}

abbrev charge : Receive.ReceiveCharge
charge = record { scope = 0; bytes = 30 }

budget-reserve : Receive.reserve budget 0 30 ≡ some (charged, charge)
unfolding Receive.reserve Receive.acquire Receive.set_scope Receive.raised
budget-reserve = refl

Reach-IsBudget_example : Budgets.IsBudget charged (charge ∷ [])
Reach-IsBudget_example =
    Budgets.Reach-IsBudget (Budgets.make-IsBudget budget.limits budget (omega arith) budget-make)
      (Budgets.next Budgets.here (Budgets.reserved budget charged [] 0 30 charge budget-reserve))

abbrev pool : Pool.MemoryPool
pool = Pool.make 0 2000

abbrev large : Pool.MemoryPool × Pool.Buffer
large = Pool.acquire_large pool 70000

acquire-pool : Pool.acquire pool 70000 ≡ some large
unfolding Pool.acquire Pool.validate_size
acquire-pool = refl

Reach-IsPool_example : Pools.IsPool large.0 (record { buffer = large.1; asked = 70000 } ∷ [])
Reach-IsPool_example =
    Pools.Reach-IsPool (Pools.make-IsPool 0 2000)
      (Pools.next Pools.here (Pools.acquired pool large.0 [] 70000 large.1 acquire-pool))

abbrev codes : String → List ℕ
codes String.[] = []
codes (String.◌∷◌ c s) = code c ∷ codes s

is_valid_hostname-labels_example : is_valid_hostname (codes "a-1.example") ≡ (
    (leb 1 11 && leb 11 max_hostname_length)
    && (not (starts_with_hyphen (codes "a-1.example") || ends_with_hyphen (codes "a-1.example"))
        && all is_valid_label (labels (codes "a-1.example"))))
is_valid_hostname-labels_example = is_valid_hostname-labels (codes "a-1.example")

accepted_name : is_valid_hostname (codes "a-1.example") ≡ true
unfolding is_valid_hostname labels_valid is_valid_label find_byte
accepted_name = refl

abbrev answers : List SendResult
answers = accept ∷ reject queue_full ∷ accept ∷ reject queue_full ∷ []

add_all-counts_example :
    let f = add_all no_targets answers in
    (target_count f ≡ 4)
    × (f.accepted_count ≡ count (λ r. r.accepted) answers)
    × (f.rejected_count ≡ count (λ r. not r.accepted) answers)
    × ((reason : SendRejection) → rejected_for f reason ≡ count (is_for reason) answers)
add_all-counts_example = add_all-counts answers (omega arith)

abbrev retrying : RetryConfig
retrying = record { max_retries = Reconnect.pos 3; retry_interval_ms = 1000 }

decide_reconnect_common-IsDecision_example :
    let d = decide_reconnect_common retrying true 3 (some (fixed_interval (Reconnect.pos 50000))) in
    IsDecision d
    × ((true ≡ false) → d ≡ give_up)
    × ((n : ℕ) → Reconnect.pos 3 ≡ Reconnect.pos n → n ≤ 3 → d ≡ give_up)
decide_reconnect_common-IsDecision_example =
    decide_reconnect_common-IsDecision retrying true 3 (some (fixed_interval (Reconnect.pos 50000)))

abbrev held_buffer : Pooled.PooledBuffer
held_buffer = record { buffer = some large.1; size = 70000; has_pool = true }

abbrev released_pool : Pool.MemoryPool
released_pool = Pool.track_release large.0 70000

destroy-held : Pooled.destroy large.0 held_buffer ≡ some released_pool
unfolding Pooled.destroy Pooled.release_held Pool.release Pool.validate_size
destroy-held = refl

move_assign-destroy_example :
    let r = Pooled.move_assign large.0 held_buffer Pooled.empty in
    ((Pooled.destroy r.0 r.1 >>= λ s. Pooled.destroy s r.2)
      ≡ Pooled.destroy released_pool Pooled.empty)
    × (let m = Pooled.move_construct Pooled.empty in
        (Pooled.destroy released_pool m.0 >>= λ s. Pooled.destroy s m.1)
        ≡ Pooled.destroy released_pool Pooled.empty)
move_assign-destroy_example =
    Pooled.move_assign-destroy large.0 released_pool held_buffer Pooled.empty destroy-held
