-- ===== src/Memory/Pool/Invariant.antt =====
-- The pool, over any sequence of acquires and releases.
use wirestead.Prelude.{
  ℕ, zero, suc, ◌+◌, ◌*◌, ◌/◌, ◌%◌, ◌≤◌, ◌<◌, ◌≡◌, refl, sym, ap, subst, ◌∙◌, true, false, List, [],
  ◌∷◌, ◌++◌, Option, none, some, length, ltb, ◌==◌, if◌then◌else◌, sub_size, size_mod, min, arith,
  All, Bool-cases, inl, inr, ltb→lt, ltb→le,
}
use wirestead.Memory.Pool.{
  Buffer, PoolBucket, MemoryPool, bucket_size, xlarge, fresh_buffers, make, validate_size,
  bucket_index, set_bucket, create_buffer, track_acquire, track_release, acquire_from_bucket,
  release_to_bucket, acquire_large, acquire_pooled, acquire, release,
}

-- What the pool gives for a size.
abbrev pub rounded : ℕ → ℕ
rounded size = if ltb xlarge size then size else bucket_size (bucket_index size)

pub rounded-le : (size : ℕ) → size ≤ rounded size
unfolding bucket_index
rounded-le size = ground arith

-- A buffer that a caller holds, and the size it asked for.
pub record Live : Type 0 where
  pub buffer : Buffer
  pub asked : ℕ

abbrev pub IsLive : Live → Type 0
IsLive l = l.buffer.bytes ≡ rounded l.asked

abbrev pub held : List Live → ℕ
held [] = 0
held (l ∷ live) = rounded l.asked + held live

-- A bucket that holds buffers of its size only, and no more than its capacity.
pub record IsBucket (i : ℕ) (b : PoolBucket) : Type 0 where
  pub sized : b.size ≡ bucket_size i
  pub all_sized : All (λ (x : Buffer). x.bytes ≡ bucket_size i) b.buffers
  pub few : length b.buffers ≤ b.capacity

pub record IsPool (p : MemoryPool) (live : List Live) : Type 0 where
  pub buckets : (i : ℕ) → IsBucket i (p.buckets i)
  pub all_live : All IsLive live
  pub outstanding : p.outstanding_bytes ≡ held live % size_mod

set_bucket-IsBucket :
    (p : MemoryPool) (i : ℕ) (b : PoolBucket)
    → ((j : ℕ) → IsBucket j (p.buckets j))
    → IsBucket i b
    → (j : ℕ) → IsBucket j ((set_bucket p i b).buckets j)
unfolding set_bucket
set_bucket-IsBucket p i b all one j = elim (Bool-cases (j == i)) [
  | inl here ↦
      let same : j ≡ i = ground arith in rw here (subst (λ (k : ℕ). IsBucket k b) (sym same) one)
  | inr there ↦ rw there (all j)
]

-- One call, by any caller: a buffer that is held is released once, with the size it was asked for.
pub data Step : MemoryPool × List Live → MemoryPool × List Live → Type 0 where
  acquired :
      (p q : MemoryPool) (live : List Live) (size : ℕ) (buffer : Buffer)
      → acquire p size ≡ some (q, buffer)
      → Step (p, live) (q, record { buffer = buffer; asked = size } ∷ live)
  released :
      (p q : MemoryPool) (front back : List Live) (l : Live)
      → release p l.buffer l.asked ≡ some q
      → Step (p, front ++ l ∷ back) (q, front ++ back)

pub data Reach (s : MemoryPool × List Live) : MemoryPool × List Live → Type 0 where
  here : Reach s s
  next : {t u : MemoryPool × List Live} → Reach s t → Step t u → Reach s u

-- What is given for a size, and what becomes of the pool.
abbrev Gives : List Live → ℕ → MemoryPool × Buffer → Type 0
Gives live size (q, buffer) = IsPool q (record { buffer = buffer; asked = size } ∷ live)

acquire_large-Gives :
    (p : MemoryPool) (live : List Live) (size : ℕ)
    → IsPool p live
    → ltb xlarge size ≡ true
    → Gives live size (acquire_large p size)
unfolding acquire_large create_buffer track_acquire
acquire_large-Gives p live size v big = record {
  buckets = v.buckets;
  all_live = (rw big, v.all_live);
  outstanding = rw big (omega (arith, v.outstanding));
}

-- What a bucket gives.
record Taken (p : MemoryPool) (i : ℕ) (r : MemoryPool × Buffer) : Type 0 where
  buckets : (j : ℕ) → IsBucket j (r.0.buckets j)
  sized : r.1.bytes ≡ bucket_size i
  untracked : r.0.outstanding_bytes ≡ p.outstanding_bytes

acquire_from_bucket-Taken :
    (p : MemoryPool) (i : ℕ)
    → ((j : ℕ) → IsBucket j (p.buckets j))
    → Taken p i (acquire_from_bucket p i)
unfolding acquire_from_bucket create_buffer set_bucket
acquire_from_bucket-Taken p i all = go (p.buckets i).buffers refl
  where
    go :
        (buffers : List Buffer)
        → (p.buckets i).buffers ≡ buffers
        → Taken p i (acquire_from_bucket p i)
    go [] e =
        rw (e, acquire_from_bucket)
          (record { buckets = all; sized = (all i).sized; untracked = refl })
    go (buffer ∷ rest) e =
        let sizes = subst (All (λ (x : Buffer). x.bytes ≡ bucket_size i)) e (all i).all_sized in
        rw (e, acquire_from_bucket)
          (record {
            buckets =
                set_bucket-IsBucket p i (record (p.buckets i) { buffers = rest }) all
                  (record {
                    sized = (all i).sized;
                    all_sized = sizes.1;
                    few = omega (arith, (all i).few, ap (λ (l : List Buffer). length l) e);
                  });
            sized = sizes.0;
            untracked = refl;
          })

acquire_pooled-Gives :
    (p : MemoryPool) (live : List Live) (size : ℕ)
    → IsPool p live
    → ltb xlarge size ≡ false
    → Gives live size (acquire_pooled p (bucket_index size))
unfolding acquire_pooled track_acquire
acquire_pooled-Gives p live size v small =
    let i : ℕ = bucket_index size in
    let taken = acquire_from_bucket-Taken p i v.buckets in
    record {
      buckets = taken.buckets;
      all_live = (rw small taken.sized, v.all_live);
      outstanding = rw small (omega (arith, v.outstanding, taken.untracked, (v.buckets i).sized));
    }

abbrev AcquireValid : List Live → ℕ → Option (MemoryPool × Buffer) → Type 0
AcquireValid live size none = Unit
AcquireValid live size (some r) = Gives live size r

acquire-AcquireValid :
    (p : MemoryPool) (live : List Live) (size : ℕ)
    → IsPool p live
    → AcquireValid live size (acquire p size)
unfolding acquire
acquire-AcquireValid p live size v = elim (Bool-cases (validate_size size)) [
  | inr bad ↦ rw bad tt
  | inl good ↦ elim (Bool-cases (ltb xlarge size)) [
    | inl big ↦ rw (good, big) (acquire_large-Gives p live size v big)
    | inr small ↦ rw (good, small) (acquire_pooled-Gives p live size v small)
  ]
]

held-append : (l m : List Live) → held (l ++ m) ≡ held l + held m
held-append [] m = omega arith
held-append (x ∷ l) m = omega (arith, held-append l m)

All-split :
    (front back : List Live) (l : Live)
    → All IsLive (front ++ l ∷ back)
    → IsLive l × All IsLive (front ++ back)
All-split [] back l (h, rest) = (h, rest)
All-split (x ∷ front) back l (h, rest) =
    let (kept, others) = All-split front back l rest in (kept, (h, others))

release_to_bucket-IsBucket :
    (p : MemoryPool) (i : ℕ) (buffer : Buffer)
    → ((j : ℕ) → IsBucket j (p.buckets j))
    → buffer.bytes ≡ bucket_size i
    → ((j : ℕ) → IsBucket j ((release_to_bucket p i buffer).buckets j))
      × ((release_to_bucket p i buffer).outstanding_bytes ≡ p.outstanding_bytes)
unfolding release_to_bucket
release_to_bucket-IsBucket p i buffer all sized =
    let b = p.buckets i in
    elim (Bool-cases (ltb (length b.buffers) b.capacity)) [
      | inl room ↦
          rw (room, release_to_bucket)
            (
              set_bucket-IsBucket p i (record b { buffers = buffer ∷ b.buffers }) all
                  (record {
                    sized = (all i).sized;
                    all_sized = (sized, (all i).all_sized);
                    few = omega (arith, ltb→lt _ _ room);
                  }),
              unfold set_bucket in refl,
            )
      | inr full ↦ rw (full, release_to_bucket) (all, refl)
    ]

-- Taking back what was added, on a counter that wraps around.
sub_size-mod : (o n h : ℕ) → n < size_mod → o ≡ (n + h) % size_mod → sub_size o n ≡ h % size_mod
sub_size-mod o n h small e = elim (Bool-cases (ltb o n)) [
  | inl wrapped ↦ rw wrapped (omega (arith, ltb→lt o n wrapped))
  | inr plain ↦ rw plain (omega (arith, ltb→le o n plain))
]

abbrev ReleaseValid : List Live → Option MemoryPool → Type 0
ReleaseValid live none = Unit
ReleaseValid live (some q) = IsPool q live

release-ReleaseValid :
    (p : MemoryPool) (front back : List Live) (l : Live)
    → IsPool p (front ++ l ∷ back)
    → ReleaseValid (front ++ back) (release p l.buffer l.asked)
unfolding release track_release
release-ReleaseValid p front back l v = elim (Bool-cases (validate_size l.asked)) [
  | inr bad ↦ rw (bad, release) tt
  | inl good ↦
      let (this, others) = All-split front back l v.all_live in
      let before = held-append front (l ∷ back) in
      let behind = held-append front back in
      elim (Bool-cases (ltb xlarge l.asked)) [
        | inl big ↦
            let exact : rounded l.asked ≡ l.asked = rw big refl in
            rw (good, big, release)
              (record {
                buckets = v.buckets;
                all_live = others;
                outstanding =
                    sub_size-mod p.outstanding_bytes l.asked (held (front ++ back)) (bounded good) (
                      v.outstanding
                      ∙ ap (λ (n : ℕ). n % size_mod) (omega (arith, before, behind, exact)));
              })
        | inr small ↦
            let i : ℕ = bucket_index l.asked in
            let exact : rounded l.asked ≡ bucket_size i = rw small refl in
            let q = track_release p (p.buckets i).size in
            let (buckets, same) =
              release_to_bucket-IsBucket q i l.buffer v.buckets (this ∙ exact) in
            rw (good, small, release)
              (record {
                buckets = buckets;
                all_live = others;
                outstanding =
                    same
                    ∙ sub_size-mod p.outstanding_bytes (p.buckets i).size (held (front ++ back))
                        (omega (arith, (v.buckets i).sized, class_small i))
                        (v.outstanding
                          ∙ ap (λ (n : ℕ). n % size_mod)
                              (omega (arith, before, behind, exact, (v.buckets i).sized)));
              })
      ]
]
  where
    bounded : validate_size l.asked ≡ true → l.asked < size_mod
    bounded h = unfold validate_size in ground arith

    class_small : (i : ℕ) → bucket_size i < size_mod
    class_small i = ground arith

Step-IsPool : {s t : MemoryPool × List Live} → Step s t → IsPool s.0 s.1 → IsPool t.0 t.1
Step-IsPool (acquired p q live size buffer e) v =
    subst (AcquireValid live size) e (acquire-AcquireValid p live size v)
Step-IsPool (released p q front back l e) v =
    subst (ReleaseValid (front ++ back)) e (release-ReleaseValid p front back l v)

-- Over any sequence of acquires and releases, from a valid state: each buffer that a caller holds
-- has at least the bytes it was asked for, exactly those of its size class; each bucket holds
-- buffers of its own size only, and no more than its capacity; and the outstanding bytes are those
-- of the buffers that are held, modulo the width of the counter.
pub Reach-IsPool : {s t : MemoryPool × List Live} → IsPool s.0 s.1 → Reach s t → IsPool t.0 t.1
Reach-IsPool v here = v
Reach-IsPool v (next r step) = Step-IsPool step (Reach-IsPool v r)

fresh_buffers-sized :
    (n id bytes : ℕ)
    → All (λ (x : Buffer). x.bytes ≡ bytes) (fresh_buffers n id bytes)
      × (length (fresh_buffers n id bytes) ≡ n)
unfolding fresh_buffers
fresh_buffers-sized zero id bytes = (tt, refl)
fresh_buffers-sized (suc n) id bytes =
    let (sized, count) = fresh_buffers-sized n id bytes in ((refl, sized), omega (arith, count))

-- The constructor gives such a state.
pub make-IsPool : (initial max_pool : ℕ) → IsPool (make initial max_pool) []
unfolding make
make-IsPool initial max_pool =
    let count : ℕ = min (initial / 4) (max_pool / 4) in
    record {
      buckets = λ i.
          let (sized, len) = fresh_buffers-sized count (i * count) (bucket_size i) in
          record { sized = refl; all_sized = sized; few = omega (arith, len) };
      all_live = tt;
      outstanding = refl;
    }
