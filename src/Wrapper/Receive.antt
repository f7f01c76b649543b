-- ===== src/Wrapper/Receive.antt =====
-- wirestead/wrapper/receive_limits.hpp and receive_budget.hpp: the memory that received bytes may
-- take. A budget, its scopes and its charges share counters, so they are a store: a scope is a
-- number, and a charge names its scope. Allocations succeed.
pub mod Invariant
use wirestead.Prelude.{
  ℕ, ◌+◌, ◌-◌, Bool, true, false, not, ◌&&◌, ◌||◌, Option, none, some, ltb, leb, ◌==◌,
  if◌then◌else◌, add_size, sub_size, max,
}

pub record ReceiveLimits : Type 0 where
  pub max_bytes : ℕ
  pub max_frame_bytes : ℕ
  pub max_sessions : ℕ

-- false is `std::invalid_argument`.
unfoldable pub validate : ReceiveLimits → Bool
validate l = not (
    l.max_bytes == 0
    || (l.max_frame_bytes == 0 || (ltb l.max_bytes l.max_frame_bytes || l.max_sessions == 0)))

pub data ReceiveOverflowReason : Type 0 where
  byte_limit frame_limit session_limit allocation_failure : ReceiveOverflowReason

-- The array of counters by reason.
pub record Reasons : Type 0 where
  pub byte_limits : ℕ
  pub frame_limits : ℕ
  pub session_limits : ℕ
  pub allocation_failures : ℕ

unfoldable pub add_reason : ReceiveOverflowReason → Reasons → Reasons
add_reason byte_limit r = record r { byte_limits = add_size r.byte_limits 1 }
add_reason frame_limit r = record r { frame_limits = add_size r.frame_limits 1 }
add_reason session_limit r = record r { session_limits = add_size r.session_limits 1 }
add_reason allocation_failure r = record r {
  allocation_failures = add_size r.allocation_failures 1;
}

pub record Scope : Type 0 where
  pub used : ℕ
  pub peak : ℕ
  pub overflows : ℕ
  pub overflow_bytes : ℕ

pub record ReceiveCharge : Type 0 where
  pub scope : ℕ
  pub bytes : ℕ

pub record Budget : Type 0 where
  pub limits : ReceiveLimits
  pub used : ℕ
  pub peak : ℕ
  pub sessions : ℕ
  pub overflows : ℕ
  pub overflow_bytes : ℕ
  pub reasons : Reasons
  -- The scopes, and how many were opened.
  pub scopes : ℕ → Scope
  pub opened : ℕ

abbrev pub no_reasons : Reasons
no_reasons = record {
  byte_limits = 0;
  frame_limits = 0;
  session_limits = 0;
  allocation_failures = 0;
}

abbrev pub new_scope : Scope
new_scope = record { used = 0; peak = 0; overflows = 0; overflow_bytes = 0 }

unfoldable pub make : ReceiveLimits → Option Budget
make l =
    if validate l
    then some (record {
      limits = l;
      used = 0;
      peak = 0;
      sessions = 0;
      overflows = 0;
      overflow_bytes = 0;
      reasons = no_reasons;
      scopes = λ _. new_scope;
      opened = 0;
    })
    else none

unfoldable pub set_scope : Budget → ℕ → Scope → Budget
set_scope b i s = record b { scopes = λ j. if j == i then s else b.scopes j }

pub record ReceiveMemoryStats : Type 0 where
  pub reserved_bytes : ℕ
  pub peak_reserved_bytes : ℕ
  pub sessions : ℕ
  pub overflow_events : ℕ
  pub overflow_bytes : ℕ
  pub overflow_by_reason : Reasons

unfoldable pub stats : Budget → ReceiveMemoryStats
stats b = record {
  reserved_bytes = b.used;
  peak_reserved_bytes = max b.used b.peak;
  sessions = b.sessions;
  overflow_events = b.overflows;
  overflow_bytes = b.overflow_bytes;
  overflow_by_reason = b.reasons;
}

unfoldable pub reset_stats : Budget → Budget
reset_stats b = record b { peak = b.used; overflows = 0; overflow_bytes = 0; reasons = no_reasons }

-- ReceiveBudget::overflow
unfoldable pub overflow : Budget → ReceiveOverflowReason → ℕ → Budget
overflow b reason bytes = record b {
  overflows = add_size b.overflows 1;
  overflow_bytes = add_size b.overflow_bytes bytes;
  reasons = add_reason reason b.reasons;
}

-- ReceiveScope::overflow
unfoldable pub scope_overflow : Budget → ℕ → ℕ → ReceiveOverflowReason → Budget
scope_overflow b i bytes reason =
    let s = b.scopes i in
    overflow
      (set_scope b i (record s {
        overflows = add_size s.overflows 1;
        overflow_bytes = add_size s.overflow_bytes bytes;
      }))
      reason bytes

-- `compare_exchange_weak` until it succeeds, with no other thread in between.
unfoldable pub raised : ℕ → ℕ → ℕ
raised peak used = if ltb peak used then used else peak

unfoldable pub acquire : Budget → ℕ → Option Budget
acquire b bytes =
    let used = add_size b.used bytes in
    if ltb (sub_size b.limits.max_bytes b.used) bytes
    then none
    else some (record b { used = used; peak = raised b.peak used })

-- `none` is the empty pointer.
unfoldable pub reserve : Budget → ℕ → ℕ → Option (Budget × ReceiveCharge)
reserve b i bytes =
    let used = add_size (b.scopes i).used bytes in
    elim (acquire b bytes) [
      | none ↦ none
      | some c ↦ some (
        set_scope c i (record (c.scopes i) { used = used; peak = raised (c.scopes i).peak used }),
        record { scope = i; bytes = bytes },
      )
    ]

-- ReceiveScope::release
unfoldable pub release : Budget → ℕ → ℕ → Budget
release b i bytes =
    let s = b.scopes i in
    record (set_scope b i (record s { used = sub_size s.used bytes })) {
      used = sub_size b.used bytes;
    }

-- The destructor of a charge.
unfoldable pub destroy : Budget → ReceiveCharge → Budget
destroy b c = release b c.scope c.bytes

-- Of two different charges; `none` is `std::logic_error`.
unfoldable pub merge : ReceiveCharge → ReceiveCharge → Option (ReceiveCharge × ReceiveCharge)
merge c other =
    if c.scope == other.scope
    then some (record c { bytes = add_size c.bytes other.bytes }, record other { bytes = 0 })
    else none

unfoldable pub shrink : Budget → ReceiveCharge → ℕ → Option (Budget × ReceiveCharge)
shrink b c bytes =
    if ltb c.bytes bytes
    then none
    else some (release b c.scope (c.bytes - bytes), record c { bytes = bytes })

-- The budget, and the scope if one is opened.
unfoldable pub open_scope : Budget → Budget × Option ℕ
open_scope b =
    if leb b.limits.max_sessions b.sessions then (overflow b session_limit 0, none) else (
      record (set_scope b b.opened new_scope) {
        sessions = add_size b.sessions 1;
        opened = b.opened + 1;
      },
      some b.opened,
    )

-- The destructor of a scope.
unfoldable pub close_scope : Budget → Budget
close_scope b = record b { sessions = sub_size b.sessions 1 }
