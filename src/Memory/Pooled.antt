-- ===== src/Memory/Pooled.antt =====
-- wirestead/memory/memory_pool.cc: PooledBuffer, which owns a buffer of a pool and can be moved.
use wirestead.Prelude.{
  ℕ, ◌≡◌, refl, ◌∙◌, ap, Bool, true, false, not, ◌||◌, Option, none, some, leb, if◌then◌else◌,
  ◌>>=◌,
}
use wirestead.Memory.Pool.{MemoryPool, Buffer, acquire, release}

-- `has_pool` is whether `pool_` is set.
pub record PooledBuffer : Type 0 where
  pub buffer : Option Buffer
  pub size : ℕ
  pub has_pool : Bool

abbrev pub empty : PooledBuffer
empty = record { buffer = none; size = 0; has_pool = false }

-- The constructors; `none` is the exception of `acquire`.
unfoldable pub make : MemoryPool → ℕ → Option (MemoryPool × PooledBuffer)
make p size = elim (acquire p size) [
  | none ↦ none
  | some (q, b) ↦ some (q, record { buffer = some b; size = size; has_pool = true })
]

-- `if (buffer_ && pool_) pool_->release(…)`
unfoldable pub release_held : MemoryPool → PooledBuffer → Option MemoryPool
release_held p b = elim b.buffer [
  | none ↦ some p
  | some x ↦ if b.has_pool then release p x b.size else some p
]

unfoldable pub destroy : MemoryPool → PooledBuffer → Option MemoryPool
destroy p b = release_held p b

-- The new buffer, and what is left of the other.
unfoldable pub move_construct : PooledBuffer → PooledBuffer × PooledBuffer
move_construct other = (other, empty)

-- Of two different buffers: an exception of the release is ignored.
unfoldable pub move_assign :
    MemoryPool → PooledBuffer → PooledBuffer → MemoryPool × PooledBuffer × PooledBuffer
move_assign p this other = ((elim (release_held p this) [ none ↦ p | some q ↦ q ]), other, empty)

unfoldable pub valid : PooledBuffer → Bool
valid b = elim b.buffer [ none ↦ false | some _ ↦ true ]

-- false is `std::out_of_range`.
unfoldable pub check_bounds : PooledBuffer → ℕ → Bool
check_bounds b index = if not (valid b) || leb b.size index then false else true

-- A move releases nothing twice and leaks nothing: an assignment, and then the destructors of both,
-- leave the pool as the destructors of both would have without it, and so does a construction.
pub move_assign-destroy :
    (p q : MemoryPool) (this other : PooledBuffer)
    → destroy p this ≡ some q
    → let r = move_assign p this other in
      ((destroy r.0 r.1 >>= λ s. destroy s r.2) ≡ destroy q other)
      × (let m = move_construct other in (destroy q m.0 >>= λ s. destroy s m.1) ≡ destroy q other)
unfolding destroy move_assign move_construct
move_assign-destroy p q this other e = (
  ap
        (λ (o : Option MemoryPool).
          release_held (elim o [ none ↦ p | some s ↦ s ]) other >>= λ s. release_held s empty)
        e
      ∙ last (release_held q other),
  last (release_held q other),
)
  where
    last : (o : Option MemoryPool) → (o >>= λ s. release_held s empty) ≡ o
    last none = refl
    last (some s) = unfold release_held in refl
