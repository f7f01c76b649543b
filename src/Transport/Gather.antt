-- ===== src/Transport/Gather.antt =====
-- wirestead/transport/base/bp_utils.hpp: gather writes, and the trimming of a queue.
-- A queue item is of any type; `size` is `variant_buffer_size` of its payload.
use wirestead.Prelude.{
  ℕ, ◌+◌, ◌-◌, ◌*◌, ◌≤◌, ◌<◌, ◌≡◌, refl, ap, ◌∙◌, Bool, true, ◌&&◌, ◌||◌, List, [], ◌∷◌, ◌++◌,
  length, ltb, leb, if◌then◌else◌, add_size, add_size-small, size_mod, arith, Bool-cases, ◌⊎◌, inl,
  inr, append_assoc, length-append,
}

abbrev pub max_gather_buffers : ℕ
max_gather_buffers = 16

abbrev pub max_gather_bytes : ℕ
max_gather_bytes = 256 * 1024

-- What is left of the queue, the batch, and its bytes.
pub record Gathered {ℓ} (A : Type ℓ) : Type ℓ where
  pub tx : List A
  pub batch : List A
  pub total : ℕ

-- `while (!tx.empty() && …)`
unfoldable pub gather {ℓ} : {A : Type ℓ} → (A → ℕ) → List A → List A → ℕ → Gathered A
gather size [] batch total = record { tx = []; batch = batch; total = total }
gather size (x ∷ tx) batch total =
    let rest = gather size tx (batch ++ x ∷ []) (add_size total (size x)) in
    if ltb (length batch) max_gather_buffers && ltb total max_gather_bytes
    then rest
    else record { tx = x ∷ tx; batch = batch; total = total }

unfoldable pub take_gather_batch {ℓ} : {A : Type ℓ} → (A → ℕ) → List A → Gathered A
take_gather_batch size tx = gather size tx [] 0

-- `push_front` of each item, from the last to the first.
unfoldable pub return_gather_batch {ℓ} : {A : Type ℓ} → List A → List A → List A
return_gather_batch tx [] = tx
return_gather_batch tx (x ∷ batch) = x ∷ return_gather_batch tx batch

pub data BackpressureStrategy : Type 0 where
  reliable best_effort : BackpressureStrategy

-- `tx`, `queue_bytes` and what was dropped, in order.
pub record Trimmed {ℓ} (A : Type ℓ) : Type ℓ where
  pub tx : List A
  pub queue_bytes : ℕ
  pub dropped : List A
  pub dropped_bytes : ℕ

abbrev less : ℕ → ℕ → ℕ
less current bytes = if ltb bytes current then current - bytes else 0

-- `for (auto& buf : tx)`
unfoldable pub sum_sizes {ℓ} : {A : Type ℓ} → (A → ℕ) → List A → ℕ → ℕ
sum_sizes size [] removed = removed
sum_sizes size (x ∷ tx) removed = sum_sizes size tx (add_size removed (size x))

-- `while (!tx.empty())`
unfoldable pub drop_oldest {ℓ} :
    {A : Type ℓ} → (A → ℕ) → ℕ → ℕ → List A → ℕ → List A → ℕ → Trimmed A
drop_oldest size added bp_high [] queue_bytes dropped dropped_bytes = record {
  tx = [];
  queue_bytes = queue_bytes;
  dropped = dropped;
  dropped_bytes = dropped_bytes;
}
drop_oldest size added bp_high (x ∷ tx) queue_bytes dropped dropped_bytes =
    let rest =
      drop_oldest size added bp_high tx (less queue_bytes (size x)) (dropped ++ x ∷ [])
        (add_size dropped_bytes (size x)) in
    if leb (add_size queue_bytes added) bp_high
    then record {
      tx = x ∷ tx;
      queue_bytes = queue_bytes;
      dropped = dropped;
      dropped_bytes = dropped_bytes;
    }
    else rest

-- With no other thread writing `queue_bytes` in between.
unfoldable pub maybe_flush_for_keep_latest {ℓ} :
    {A : Type ℓ} → (A → ℕ) → BackpressureStrategy → ℕ → ℕ → List A → ℕ → Bool → Trimmed A
maybe_flush_for_keep_latest size reliable added bp_high tx queue_bytes active = record {
  tx = tx;
  queue_bytes = queue_bytes;
  dropped = [];
  dropped_bytes = 0;
}
maybe_flush_for_keep_latest size best_effort added bp_high tx queue_bytes active =
    let removed = sum_sizes size tx 0 in
    if leb bp_high added
    then record {
      tx = [];
      queue_bytes = less queue_bytes removed;
      dropped = tx;
      dropped_bytes = removed;
    }
    else if active || ltb bp_high (add_size queue_bytes added)
    then drop_oldest size added bp_high tx queue_bytes [] 0
    else record { tx = tx; queue_bytes = queue_bytes; dropped = []; dropped_bytes = 0 }

abbrev pub bytes_of {ℓ} : {A : Type ℓ} → (A → ℕ) → List A → ℕ
bytes_of size [] = 0
bytes_of size (x ∷ l) = size x + bytes_of size l

module _ {ℓ} {A : Type ℓ} (size : A → ℕ) where
  pub bytes_of-append : (l m : List A) → bytes_of size (l ++ m) ≡ bytes_of size l + bytes_of size m
  bytes_of-append [] m = omega arith
  bytes_of-append (x ∷ l) m = omega (arith, bytes_of-append l m)

  pub return_gather_batch-append : (batch tx : List A) → return_gather_batch tx batch ≡ batch ++ tx
  unfolding return_gather_batch
  return_gather_batch-append [] tx = refl
  return_gather_batch-append (x ∷ batch) tx = ap (◌∷◌ x) (return_gather_batch-append batch tx)

  -- What a gather has to give, from a batch begun.
  record Splits (tx batch : List A) (g : Gathered A) : Type ℓ where
    order : g.batch ++ g.tx ≡ batch ++ tx
    bytes : g.total ≡ bytes_of size g.batch
    few : length g.batch ≤ max_gather_buffers
    grows : length batch ≤ length g.batch

  gather-Splits :
      (tx batch : List A) (total : ℕ)
      → length batch ≤ max_gather_buffers
      → total ≡ bytes_of size batch
      → bytes_of size batch + bytes_of size tx < size_mod
      → Splits tx batch (gather size tx batch total)
  unfolding gather
  gather-Splits [] batch total few e small = record {
    order = refl;
    bytes = e;
    few = few;
    grows = omega arith;
  }
  gather-Splits (x ∷ tx) batch total few e small =
      elim (Bool-cases (ltb (length batch) max_gather_buffers && ltb total max_gather_bytes)) [
        | inr stop ↦
            rw (stop, gather) (record { order = refl; bytes = e; few = few; grows = omega arith })
        | inl more ↦
            let sum = add_size-small total (size x) (omega arith) in
            let count = length-append batch (x ∷ []) in
            let joined = bytes_of-append batch (x ∷ []) in
            let ih =
              gather-Splits tx (batch ++ x ∷ []) (add_size total (size x)) (under count more)
                (omega arith) (omega arith) in
            rw (more, gather)
              (record {
                order = ih.order ∙ append_assoc batch (x ∷ []) tx;
                bytes = ih.bytes;
                few = ih.few;
                grows = omega (arith, ih.grows);
              })
      ]
    where
      under :
          length (batch ++ x ∷ []) ≡ length batch + length (x ∷ [])
          → (ltb (length batch) max_gather_buffers && ltb total max_gather_bytes) ≡ true
          → length (batch ++ x ∷ []) ≤ max_gather_buffers
      under count h = ground arith

  take_gather_batch-Splits :
      (tx : List A) → bytes_of size tx < size_mod → Splits tx [] (take_gather_batch size tx)
  unfolding take_gather_batch
  take_gather_batch-Splits tx small =
      gather-Splits tx [] 0 (omega arith) refl (omega (arith, small))

  -- A gather takes items from the front of the queue: at least one where there is one, at most as
  -- many as one gather write holds, and counts their bytes; the batch put back gives the queue as
  -- it was.
  pub take_gather_batch-return :
      (tx : List A)
      → bytes_of size tx < size_mod
      → let g = take_gather_batch size tx in
        (return_gather_batch g.tx g.batch ≡ tx)
        × (g.total ≡ bytes_of size g.batch)
        × (length g.batch ≤ max_gather_buffers)
        × ((tx ≡ []) ⊎ (0 < length g.batch))
  take_gather_batch-return tx small =
      let g = take_gather_batch size tx in
      let s = take_gather_batch-Splits tx small in
      (return_gather_batch-append g.batch g.tx ∙ s.order, s.bytes, s.few, one tx small)
    where
      one :
          (tx : List A)
          → bytes_of size tx < size_mod
          → (tx ≡ []) ⊎ (0 < length (take_gather_batch size tx).batch)
      one [] small = inl refl
      one (x ∷ tx) small =
          let s =
            gather-Splits tx (x ∷ []) (add_size 0 (size x)) (omega arith)
              (omega (arith, add_size-small 0 (size x) (omega (arith, small))))
              (omega (arith, small)) in
          inr (unfold take_gather_batch gather in omega (arith, s.grows))

  -- The last of the dropped items had to go: before it went, the new bytes did not fit.
  pub record IsNeeded (queue_bytes added bp_high : ℕ) (dropped : List A) : Type ℓ where
    pub before : List A
    pub last : A
    pub parts : dropped ≡ before ++ last ∷ []
    pub full : bp_high + bytes_of size before < queue_bytes + added

  -- What trimming gives: what is dropped comes from the front, and its bytes leave the counter.
  record Trims (tx dropped : List A) (queue_bytes added bp_high : ℕ) (t : Trimmed A) : Type ℓ where
    order : t.dropped ++ t.tx ≡ dropped ++ tx
    bytes : t.dropped_bytes ≡ bytes_of size t.dropped
    counted : t.queue_bytes + bytes_of size t.dropped ≡ queue_bytes + bytes_of size dropped
    room : (t.tx ≡ []) ⊎ (t.queue_bytes + added ≤ bp_high)
    needed :
        (t.dropped ≡ dropped)
        ⊎ IsNeeded (queue_bytes + bytes_of size dropped) added bp_high t.dropped
