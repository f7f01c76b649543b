-- ===== src/Wrapper/Send.antt =====
-- wirestead/wrapper/send_result.hpp, send_validation.hpp and fanout_result.hpp: what a send is
-- answered with.
use wirestead.Prelude.{
  ℕ, suc, ◌+◌, ◌*◌, ◌<◌, ◌≡◌, refl, Bool, true, false, not, ◌&&◌, ◌||◌, List, [], ◌∷◌, Option, none,
  some, length, ltb, ◌==◌, if◌then◌else◌, add_size, size_mod, arith,
}

pub data SendRejection : Type 0 where
  not_started stopping not_ready would_block queue_full : SendRejection
  too_large invalid_argument cancelled_while_waiting : SendRejection

-- The stored reason of an acceptance has no meaning.
pub record SendResult : Type 0 where
  pub accepted : Bool
  pub reason : SendRejection

abbrev pub accept : SendResult
accept = record { accepted = true; reason = not_started }

abbrev pub reject : SendRejection → SendResult
reject r = record { accepted = false; reason = r }

abbrev pub max_buffer_size : ℕ
max_buffer_size = 64 * 1024 * 1024

-- `queue_limit && size > *queue_limit`
abbrev pub over_limit : ℕ → Option ℕ → Bool
over_limit size none = false
over_limit size (some limit) = ltb limit size

unfoldable pub validate_payload_size : ℕ → Option ℕ → SendResult
validate_payload_size size queue_limit =
    if size == 0
    then reject invalid_argument
    else if ltb max_buffer_size size || over_limit size queue_limit
    then reject too_large
    else accept

unfoldable pub payload_needs_capacity : ℕ → Option ℕ → Bool
payload_needs_capacity size queue_limit = (validate_payload_size size queue_limit).accepted

-- The index of a reason in the array.
abbrev pub index : SendRejection → ℕ
index not_started = 0
index stopping = 1
index not_ready = 2
index would_block = 3
index queue_full = 4
index too_large = 5
index invalid_argument = 6
index cancelled_while_waiting = 7

pub record FanoutResult : Type 0 where
  pub accepted_count : ℕ
  pub rejected_count : ℕ
  pub reasons : ℕ → ℕ

abbrev pub no_targets : FanoutResult
no_targets = record { accepted_count = 0; rejected_count = 0; reasons = λ _. 0 }

unfoldable pub target_count : FanoutResult → ℕ
target_count f = add_size f.accepted_count f.rejected_count

unfoldable pub rejected_for : FanoutResult → SendRejection → ℕ
rejected_for f reason = f.reasons (index reason)

unfoldable pub add : FanoutResult → SendResult → FanoutResult
add f result =
    if result.accepted
    then record f { accepted_count = add_size f.accepted_count 1 }
    else record f {
      rejected_count = add_size f.rejected_count 1;
      reasons = λ i. if i == index result.reason then add_size (f.reasons i) 1 else f.reasons i;
    }

-- One decision for each target.
unfoldable pub add_all : FanoutResult → List SendResult → FanoutResult
add_all f [] = f
add_all f (r ∷ results) = add_all (add f r) results

-- How often a test holds.
abbrev pub count {ℓ} : {A : Type ℓ} → (A → Bool) → List A → ℕ
count p [] = 0
count p (x ∷ l) = (if p x then 1 else 0) + count p l

abbrev pub is_for : SendRejection → SendResult → Bool
is_for reason r = not r.accepted && index reason == index r.reason

-- What was counted before is counted on.
record Counts (f : FanoutResult) (results : List SendResult) (g : FanoutResult) : Type 0 where
  accepted : g.accepted_count ≡ f.accepted_count + count (λ r. r.accepted) results
  rejected : g.rejected_count ≡ f.rejected_count + count (λ r. not r.accepted) results
  by_reason :
      (reason : SendRejection)
      → g.reasons (index reason) ≡ f.reasons (index reason) + count (is_for reason) results

abbrev Small : FanoutResult → ℕ → Type 0
Small f n =
    (f.accepted_count + n < size_mod)
    × (f.rejected_count + n < size_mod)
    × ((reason : SendRejection) → f.reasons (index reason) + n < size_mod)

add-Counts : (f : FanoutResult) (r : SendResult) → Small f 1 → Counts f (r ∷ []) (add f r)
unfolding add
add-Counts f r (a, b, c) = record {
  accepted = ground arith;
  rejected = ground arith;
  by_reason = λ reason. ground (arith, c reason);
}

add-Small : (f : FanoutResult) (r : SendResult) (n : ℕ) → Small f (suc n) → Small (add f r) n
unfolding add
add-Small f r n (a, b, c) = (ground arith, ground arith, λ reason. ground (arith, c reason))

count_both :
    (results : List SendResult)
    → count (λ r. r.accepted) results + count (λ r. not r.accepted) results ≡ length results
count_both [] = refl
count_both (r ∷ results) = ground (arith, count_both results)

add_all-Counts :
    (f : FanoutResult) (results : List SendResult)
    → Small f (length results)
    → Counts f results (add_all f results)
unfolding add_all
add_all-Counts f [] small = record {
  accepted = omega arith;
  rejected = omega arith;
  by_reason = λ reason. omega arith;
}
add_all-Counts f (r ∷ results) small =
    let one =
      add-Counts f r
        (omega (arith, small.0), omega (arith, small.1), λ reason. omega (arith, small.2 reason)) in
    let ih = add_all-Counts (add f r) results (add-Small f r (length results) small) in
    record {
      accepted = omega (arith, one.accepted, ih.accepted);
      rejected = omega (arith, one.rejected, ih.rejected);
      by_reason = λ reason. omega (arith, one.by_reason reason, ih.by_reason reason);
    }

-- A fan-out counts each target once: as accepted, or as rejected for its reason.
pub add_all-counts :
    (results : List SendResult)
    → length results < size_mod
    → let f = add_all no_targets results in
      (target_count f ≡ length results)
      × (f.accepted_count ≡ count (λ r. r.accepted) results)
      × (f.rejected_count ≡ count (λ r. not r.accepted) results)
      × ((reason : SendRejection) → rejected_for f reason ≡ count (is_for reason) results)
unfolding target_count rejected_for
add_all-counts results small =
    let c =
      add_all-Counts no_targets results
        (omega (arith, small), omega (arith, small), λ reason. omega (arith, small)) in
    let both = count_both results in
    (
      omega (arith, c.accepted, c.rejected),
      omega (arith, c.accepted),
      omega (arith, c.rejected),
      λ reason. omega (arith, c.by_reason reason),
    )
