-- ===== src/Transport/Reconnect.antt =====
-- wirestead/transport/base/reconnect_decider.hpp and reconnect_policy.hpp: whether and when a
-- connection is tried again. Delays are milliseconds, signed. A policy is an argument: the
-- exponential one is on floating-point numbers.
use wirestead.Prelude.{
  ℕ, ◌≤◌, ◌≡◌, refl, ap, ◌∙◌, Bool, true, false, not, Option, none, some, leb, ◌==◌, if◌then◌else◌,
  min, arith, Bool-cases, inl, inr,
}

-- The integers, `negsuc n` for `- n - 1`.
pub data ℤ : Type 0 where
  pos negsuc : ℕ → ℤ

abbrev pub max_reconnect_delay : ℕ
max_reconnect_delay = 30000

-- What is read of a configuration: `retry_interval_ms` is unsigned.
pub record RetryConfig : Type 0 where
  pub max_retries : ℤ
  pub retry_interval_ms : ℕ

pub record ReconnectDecision : Type 0 where
  pub retry : Bool
  pub delay : ℤ

-- A policy, of whether the error is retryable and of the attempts so far.
abbrev pub ReconnectPolicy : Type 0
ReconnectPolicy = Bool → ℕ → ReconnectDecision

unfoldable pub fixed_interval : ℤ → ReconnectPolicy
fixed_interval delay retryable attempt_count =
    if not retryable
    then record { retry = false; delay = pos 0 }
    else record { retry = true; delay = delay }

pub record ReconnectLogicDecision : Type 0 where
  pub should_retry : Bool
  pub delay : Option ℤ

abbrev pub give_up : ReconnectLogicDecision
give_up = record { should_retry = false; delay = none }

unfoldable pub clamp_reconnect_delay : ℤ → ℤ
clamp_reconnect_delay (negsuc n) = pos 0
clamp_reconnect_delay (pos n) = pos (min n max_reconnect_delay)

-- `cfg.max_retries == 0`, or positive and reached.
unfoldable pub used_up : ℤ → ℕ → Bool
used_up (negsuc n) attempt_count = false
used_up (pos n) attempt_count = if n == 0 then true else leb n attempt_count

-- With a policy or without.
unfoldable pub choose_delay :
    RetryConfig → Bool → ℕ → Option ReconnectPolicy → ReconnectLogicDecision
choose_delay cfg retryable attempt_count none = record {
  should_retry = true;
  delay = some (clamp_reconnect_delay (pos cfg.retry_interval_ms));
}
choose_delay cfg retryable attempt_count (some policy) =
    let decision = policy retryable attempt_count in
    if not decision.retry
    then give_up
    else record { should_retry = true; delay = some (clamp_reconnect_delay decision.delay) }

unfoldable pub decide_reconnect_common :
    RetryConfig → Bool → ℕ → Option ReconnectPolicy → ReconnectLogicDecision
decide_reconnect_common cfg retryable attempt_count policy =
    if not retryable
    then give_up
    else if used_up cfg.max_retries attempt_count
    then give_up
    else choose_delay cfg retryable attempt_count policy

-- A delay that a timer is given.
pub data IsDelay : Option ℤ → Type 0 where
  within : (n : ℕ) → n ≤ max_reconnect_delay → IsDelay (some (pos n))

clamp-IsDelay : (d : ℤ) → IsDelay (some (clamp_reconnect_delay d))
unfolding clamp_reconnect_delay
clamp-IsDelay (pos n) = within (min n max_reconnect_delay) (omega arith)
clamp-IsDelay (negsuc n) = within 0 (omega arith)

-- Gives up with no delay, or retries with one within the cap.
pub data IsDecision : ReconnectLogicDecision → Type 0 where
  stops : IsDecision give_up
  retries : (d : Option ℤ) → IsDelay d → IsDecision (record { should_retry = true; delay = d })

choose_delay-IsDecision :
    (cfg : RetryConfig) (retryable : Bool) (attempt_count : ℕ) (policy : Option ReconnectPolicy)
    → IsDecision (choose_delay cfg retryable attempt_count policy)
unfolding choose_delay
choose_delay-IsDecision cfg retryable attempt_count none =
    retries _ (clamp-IsDelay (pos cfg.retry_interval_ms))
choose_delay-IsDecision cfg retryable attempt_count (some policy) =
    elim (Bool-cases (not (policy retryable attempt_count).retry)) [
      | inl n ↦ rw n stops
      | inr go ↦ rw go (retries _ (clamp-IsDelay (policy retryable attempt_count).delay))
    ]

-- For any configuration and policy: a decision gives up with no delay, or retries with a delay
-- from 0 to the cap; and it gives up on an error that is not retryable and once `max_retries`
-- attempts were made, so that at most that many follow.
pub decide_reconnect_common-IsDecision :
    (cfg : RetryConfig) (retryable : Bool) (attempt_count : ℕ) (policy : Option ReconnectPolicy)
    → let d = decide_reconnect_common cfg retryable attempt_count policy in
      IsDecision d
      × ((retryable ≡ false) → d ≡ give_up)
      × ((n : ℕ) → cfg.max_retries ≡ pos n → n ≤ attempt_count → d ≡ give_up)
unfolding decide_reconnect_common
decide_reconnect_common-IsDecision cfg retryable attempt_count policy =
    (decision retryable, λ h. rw h refl, λ n e le. exhausted retryable n e le)
  where
    decision : (r : Bool) → IsDecision (decide_reconnect_common cfg r attempt_count policy)
    decision false = stops
    decision true = elim (Bool-cases (used_up cfg.max_retries attempt_count)) [
      | inl over ↦ rw (over, decide_reconnect_common) stops
      | inr left ↦
          rw (left, decide_reconnect_common) (choose_delay-IsDecision cfg true attempt_count policy)
    ]

    used : (n : ℕ) → n ≤ attempt_count → used_up (pos n) attempt_count ≡ true
    used n le = unfold used_up in ground arith

    exhausted :
        (r : Bool) (n : ℕ)
        → cfg.max_retries ≡ pos n
        → n ≤ attempt_count
        → decide_reconnect_common cfg r attempt_count policy ≡ give_up
    exhausted false n e le = refl
    exhausted true n e le =
        rw (ap (λ m. used_up m attempt_count) e ∙ used n le, decide_reconnect_common) refl
