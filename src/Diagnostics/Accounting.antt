-- ===== src/Diagnostics/Accounting.antt =====
-- wirestead/wrapper/send_accounting.hpp, and what wirestead/diagnostics/send_accounting.hpp counts
-- for a request: the totals of one contributor. Counters are `uint64_t` and wrap around.
pub mod Balance
use wirestead.Prelude.{
  ℕ, ◌+◌, ◌%◌, ◌<◌, ◌≡◌, Bool, true, false, if◌then◌else◌, ◌==◌, add_size, sub_size, size_mod, min,
  arith,
}

pub record SendRequestTotals : Type 0 where
  pub requests : ℕ
  pub bytes : ℕ

pub record SendLossTotals : Type 0 where
  pub discarded_before_write : SendRequestTotals
  pub aborted_during_write : SendRequestTotals

pub record SendAccounting : Type 0 where
  pub accepted : SendRequestTotals
  pub written : SendRequestTotals
  pub outstanding : SendRequestTotals
  pub explicit_stop : SendLossTotals
  pub connection_loss : SendLossTotals
  pub queue_pressure : SendLossTotals
  pub confirmed_written_bytes : ℕ
  pub session_expiry : SendLossTotals

abbrev pub no_requests : SendRequestTotals
no_requests = record { requests = 0; bytes = 0 }

abbrev pub no_losses : SendLossTotals
no_losses = record { discarded_before_write = no_requests; aborted_during_write = no_requests }

abbrev pub no_sends : SendAccounting
no_sends = record {
  accepted = no_requests;
  written = no_requests;
  outstanding = no_requests;
  explicit_stop = no_losses;
  connection_loss = no_losses;
  queue_pressure = no_losses;
  confirmed_written_bytes = 0;
  session_expiry = no_losses;
}

pub data Cause : Type 0 where
  explicit_stop connection_loss queue_pressure session_expiry : Cause

-- The lambdas of accumulate_send_accounting.
unfoldable pub sum_requests : SendRequestTotals → SendRequestTotals → SendRequestTotals
sum_requests to from = record {
  requests = add_size to.requests from.requests;
  bytes = add_size to.bytes from.bytes;
}

unfoldable pub sum_losses : SendLossTotals → SendLossTotals → SendLossTotals
unfolding sum_requests
sum_losses to from = record {
  discarded_before_write = sum_requests to.discarded_before_write from.discarded_before_write;
  aborted_during_write = sum_requests to.aborted_during_write from.aborted_during_write;
}

unfoldable pub accumulate_send_accounting : SendAccounting → SendAccounting → SendAccounting
unfolding sum_requests sum_losses
accumulate_send_accounting total source = record {
  accepted = sum_requests total.accepted source.accepted;
  written = sum_requests total.written source.written;
  outstanding = sum_requests total.outstanding source.outstanding;
  explicit_stop = sum_losses total.explicit_stop source.explicit_stop;
  connection_loss = sum_losses total.connection_loss source.connection_loss;
  queue_pressure = sum_losses total.queue_pressure source.queue_pressure;
  confirmed_written_bytes = add_size total.confirmed_written_bytes source.confirmed_written_bytes;
  session_expiry = sum_losses total.session_expiry source.session_expiry;
}

-- `add` and `remove` of the ledger.
unfoldable pub add : SendRequestTotals → ℕ → SendRequestTotals
add totals bytes = record {
  requests = add_size totals.requests 1;
  bytes = add_size totals.bytes bytes;
}

unfoldable pub remove : SendRequestTotals → ℕ → SendRequestTotals
remove totals bytes = record {
  requests = sub_size totals.requests 1;
  bytes = sub_size totals.bytes bytes;
}

-- What the lambdas that are given to `update` do to the totals: at an admission,
unfoldable pub count_admitted : ℕ → SendAccounting → SendAccounting
unfolding add
count_admitted bytes t = record t {
  accepted = add t.accepted bytes;
  outstanding = add t.outstanding bytes;
}

-- at a completion that confirms so many bytes,
unfoldable pub count_completed : ℕ → ℕ → SendAccounting → SendAccounting
unfolding add remove
count_completed confirmed_bytes bytes t =
    let confirmed = min confirmed_bytes bytes in
    let u = record t {
      confirmed_written_bytes = add_size t.confirmed_written_bytes confirmed;
      outstanding = remove t.outstanding bytes;
    } in
    if confirmed == bytes then record u { written = add t.written bytes } else record u {
      connection_loss = record t.connection_loss {
        aborted_during_write = add t.connection_loss.aborted_during_write bytes;
      };
    }

-- at a rollback,
unfoldable pub count_rolled_back : ℕ → SendAccounting → SendAccounting
unfolding remove
count_rolled_back bytes t = record t {
  accepted = remove t.accepted bytes;
  outstanding = remove t.outstanding bytes;
}

unfoldable pub add_loss : Bool → ℕ → SendLossTotals → SendLossTotals
unfolding add
add_loss active bytes loss =
    if active
    then record loss { aborted_during_write = add loss.aborted_during_write bytes }
    else record loss { discarded_before_write = add loss.discarded_before_write bytes }

-- and at a termination.
unfoldable pub count_terminated : Cause → Bool → ℕ → SendAccounting → SendAccounting
unfolding add_loss remove
count_terminated explicit_stop active bytes t = record t {
  explicit_stop = add_loss active bytes t.explicit_stop;
  outstanding = remove t.outstanding bytes;
}
count_terminated connection_loss active bytes t = record t {
  connection_loss = add_loss active bytes t.connection_loss;
  outstanding = remove t.outstanding bytes;
}
count_terminated queue_pressure active bytes t = record t {
  queue_pressure = add_loss active bytes t.queue_pressure;
  outstanding = remove t.outstanding bytes;
}
count_terminated session_expiry active bytes t = record t {
  session_expiry = add_loss active bytes t.session_expiry;
  outstanding = remove t.outstanding bytes;
}
