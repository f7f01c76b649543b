-- ===== src/Diagnostics/Accounting/Balance.antt =====
-- The totals of a contributor balance: each accepted request is written, lost or outstanding.
use wirestead.Prelude.{ℕ, ◌+◌, ◌%◌, ◌<◌, ◌≡◌, sym, subst, Bool, size_mod, arith}
use wirestead.Diagnostics.Accounting.{
  SendLossTotals, SendAccounting, Cause, no_sends, accumulate_send_accounting, count_admitted,
  count_completed, count_rolled_back, count_terminated,
}

-- The losses of a kind, in requests and in bytes.
abbrev lost_requests : SendLossTotals → ℕ
lost_requests l = l.discarded_before_write.requests + l.aborted_during_write.requests

abbrev lost_bytes : SendLossTotals → ℕ
lost_bytes l = l.discarded_before_write.bytes + l.aborted_during_write.bytes

-- What was written or lost.
abbrev pub ended_requests : SendAccounting → ℕ
ended_requests t =
    t.written.requests
    + lost_requests t.explicit_stop
    + lost_requests t.connection_loss
    + lost_requests t.queue_pressure
    + lost_requests t.session_expiry

abbrev pub ended_bytes : SendAccounting → ℕ
ended_bytes t =
    t.written.bytes
    + lost_bytes t.explicit_stop
    + lost_bytes t.connection_loss
    + lost_bytes t.queue_pressure
    + lost_bytes t.session_expiry

-- So many requests, of so many bytes, are outstanding, and all accepted ones are accounted for.
pub record IsBalanced (requests bytes : ℕ) (t : SendAccounting) : Type 0 where
  pub outstanding_requests : t.outstanding.requests ≡ requests % size_mod
  pub outstanding_bytes : t.outstanding.bytes ≡ bytes % size_mod
  pub accepted_requests :
      t.accepted.requests ≡ (ended_requests t + t.outstanding.requests) % size_mod
  pub accepted_bytes : t.accepted.bytes ≡ (ended_bytes t + t.outstanding.bytes) % size_mod

pub IsBalanced_along :
    (requests more bytes greater : ℕ) (t u : SendAccounting)
    → more ≡ requests
    → greater ≡ bytes
    → u ≡ t
    → IsBalanced requests bytes t
    → IsBalanced more greater u
IsBalanced_along requests more bytes greater t u r b e h = subst (IsBalanced more greater) (sym e) (
    subst (λ (n : ℕ). IsBalanced n greater t) (sym r)
      (subst (λ (n : ℕ). IsBalanced requests n t) (sym b) h))

pub no_sends-IsBalanced : IsBalanced 0 0 no_sends
no_sends-IsBalanced = omega arith

pub count_admitted-IsBalanced :
    (requests all bytes : ℕ) (t : SendAccounting)
    → IsBalanced requests all t
    → IsBalanced (1 + requests) (bytes + all) (count_admitted bytes t)
unfolding count_admitted
count_admitted-IsBalanced requests all bytes t b = omega arith

pub count_completed-IsBalanced :
    (requests all confirmed bytes : ℕ) (t : SendAccounting)
    → bytes < size_mod
    → IsBalanced (1 + requests) (bytes + all) t
    → IsBalanced requests all (count_completed confirmed bytes t)
unfolding count_completed
count_completed-IsBalanced requests all confirmed bytes t small b = ground arith

pub count_rolled_back-IsBalanced :
    (requests all bytes : ℕ) (t : SendAccounting)
    → bytes < size_mod
    → IsBalanced (1 + requests) (bytes + all) t
    → IsBalanced requests all (count_rolled_back bytes t)
unfolding count_rolled_back
count_rolled_back-IsBalanced requests all bytes t small b = ground arith

pub count_terminated-IsBalanced :
    (requests all bytes : ℕ) (cause : Cause) (active : Bool) (t : SendAccounting)
    → bytes < size_mod
    → IsBalanced (1 + requests) (bytes + all) t
    → IsBalanced requests all (count_terminated cause active bytes t)
unfolding count_terminated
count_terminated-IsBalanced requests all bytes Cause.explicit_stop active t small b = ground arith
count_terminated-IsBalanced requests all bytes Cause.connection_loss active t small b = ground arith
count_terminated-IsBalanced requests all bytes Cause.queue_pressure active t small b = ground arith
count_terminated-IsBalanced requests all bytes Cause.session_expiry active t small b = ground arith

-- Totals that balance add up to totals that balance: a server that folds the accounting of its
-- sessions together, the ended ones too, still accounts for each request that they accepted.
pub accumulate_send_accounting-IsBalanced :
    (requests more_requests bytes more_bytes : ℕ) (total source : SendAccounting)
    → IsBalanced requests bytes total
    → IsBalanced more_requests more_bytes source
    → IsBalanced
        (requests + more_requests)
        (bytes + more_bytes)
        (accumulate_send_accounting total source)
unfolding accumulate_send_accounting
accumulate_send_accounting-IsBalanced requests more_requests bytes more_bytes total source b c =
    omega arith
