-- ===== src/Memory/Pool.antt =====
-- wirestead/memory/memory_pool.{hpp,cc}: the pool of buffers in four sizes.
-- A buffer is the number of its allocation, with the bytes that were allocated for it. Allocations
-- succeed; the hit rate, which is a floating-point number, and the tracker are left out.
pub mod Invariant
use wirestead.Prelude.{
  ℕ, zero, suc, ◌+◌, ◌-◌, ◌*◌, ◌/◌, Bool, true, false, ◌&&◌, ◌||◌, List, [], ◌∷◌, ◌++◌, Option,
  none, some, length, ltb, leb, ◌==◌, if◌then◌else◌, add_size, sub_size, min,
}

pub record Buffer : Type 0 where
  pub id : ℕ
  pub bytes : ℕ

-- `buffers_` is a stack, its back first.
pub record PoolBucket : Type 0 where
  pub buffers : List Buffer
  pub size : ℕ
  pub capacity : ℕ

pub record MemoryPool : Type 0 where
  pub buckets : ℕ → PoolBucket
  pub total_allocations : ℕ
  pub pool_hits : ℕ
  pub outstanding_bytes : ℕ
  pub peak_bytes : ℕ
  -- The allocations made so far.
  pub allocated : ℕ

-- The buckets' sizes.
abbrev pub bucket_size : ℕ → ℕ
bucket_size i = if i == 0 then 1024 else if i == 1 then 4096 else if i == 2 then 16384 else 65536

abbrev pub xlarge : ℕ
xlarge = 65536

-- Buffers of one size, allocated in order from a number on; the last stands in front.
unfoldable pub fresh_buffers : ℕ → ℕ → ℕ → List Buffer
fresh_buffers zero id bytes = []
fresh_buffers (suc n) id bytes = record { id = id + n; bytes = bytes } ∷ fresh_buffers n id bytes

-- The constructor, with its prefill, split evenly.
unfoldable pub make : ℕ → ℕ → MemoryPool
make initial_pool_size max_pool_size =
    let capacity = max_pool_size / 4 in
    let count = min (initial_pool_size / 4) capacity in
    record {
      buckets = λ i. record {
        buffers = fresh_buffers count (i * count) (bucket_size i);
        size = bucket_size i;
        capacity = capacity;
      };
      total_allocations = 0;
      pool_hits = 0;
      outstanding_bytes = 0;
      peak_bytes = 0;
      allocated = 4 * count;
    }

-- false is `std::invalid_argument`.
unfoldable pub validate_size : ℕ → Bool
validate_size size = if size == 0 || ltb (64 * 1024 * 1024) size then false else true

unfoldable pub bucket_index : ℕ → ℕ
bucket_index size =
    if leb size 1024 then 0 else if leb size 4096 then 1 else if leb size 16384 then 2 else 3

unfoldable pub set_bucket : MemoryPool → ℕ → PoolBucket → MemoryPool
set_bucket p i b = record p { buckets = λ j. if j == i then b else p.buckets j }

unfoldable pub create_buffer : MemoryPool → ℕ → MemoryPool × Buffer
create_buffer p size =
    (record p { allocated = p.allocated + 1 }, record { id = p.allocated; bytes = size })

-- With no other thread between the load and the exchange of the peak.
unfoldable pub track_acquire : MemoryPool → ℕ → MemoryPool
track_acquire p size =
    let outstanding = add_size p.outstanding_bytes size in
    record p {
      outstanding_bytes = outstanding;
      peak_bytes = if ltb p.peak_bytes outstanding then outstanding else p.peak_bytes;
    }

unfoldable pub track_release : MemoryPool → ℕ → MemoryPool
track_release p size = record p { outstanding_bytes = sub_size p.outstanding_bytes size }

unfoldable pub acquire_from_bucket : MemoryPool → ℕ → MemoryPool × Buffer
acquire_from_bucket p i =
    let b = p.buckets i in
    elim b.buffers [
      | buffer ∷ rest ↦ (
        record (set_bucket p i (record b { buffers = rest })) {
          pool_hits = add_size p.pool_hits 1;
          total_allocations = add_size p.total_allocations 1;
        },
        buffer,
      )
      | [] ↦
          let (q, buffer) = create_buffer p b.size in
          (record q { total_allocations = add_size q.total_allocations 1 }, buffer)
    ]

unfoldable pub release_to_bucket : MemoryPool → ℕ → Buffer → MemoryPool
release_to_bucket p i buffer =
    let b = p.buckets i in
    if ltb (length b.buffers) b.capacity
    then set_bucket p i (record b { buffers = buffer ∷ b.buffers })
    else p

-- The path above 64 KiB.
unfoldable pub acquire_large : MemoryPool → ℕ → MemoryPool × Buffer
acquire_large p size =
    let (q, buffer) = create_buffer p size in
    (track_acquire (record q { total_allocations = add_size q.total_allocations 1 }) size, buffer)

unfoldable pub acquire_pooled : MemoryPool → ℕ → MemoryPool × Buffer
acquire_pooled p i =
    let (q, buffer) = acquire_from_bucket p i in (track_acquire q (p.buckets i).size, buffer)

-- `none` is the exception.
unfoldable pub acquire : MemoryPool → ℕ → Option (MemoryPool × Buffer)
acquire p size =
    if validate_size size
    then (if ltb xlarge size
        then some (acquire_large p size)
        else some (acquire_pooled p (bucket_index size)))
    else none

-- Of a buffer that is no null pointer.
unfoldable pub release : MemoryPool → Buffer → ℕ → Option MemoryPool
release p buffer size =
    let i = bucket_index size in
    if validate_size size
    then (if ltb xlarge size
        then some (track_release p size)
        else some (release_to_bucket (track_release p (p.buckets i).size) i buffer))
    else none
