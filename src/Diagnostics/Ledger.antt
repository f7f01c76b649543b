-- ===== src/Diagnostics/Ledger.antt =====
-- SendAccountingLedger of wirestead/diagnostics/send_accounting.hpp. A `GroupHandle` is a number
-- into the store of groups, `none` for the null pointer. The vector `slots_` is its capacity and a
-- function of the index, since the code reads and writes it inside its bounds only; `& (size - 1)`
-- is `% size`, the size being a power of two. Each method runs under the lock of the ledger.
-- Allocations succeed.
pub mod Ring
pub mod Sparse
pub mod Find
pub mod Refine
pub mod Detach
pub mod Weight
pub mod Conserve
pub mod Tally
pub mod Take
pub mod Put
pub mod Admit
pub mod Waiting
pub mod End
pub mod Reach
pub mod Map
pub mod Operations
use wirestead.Prelude.{
  ℕ, zero, suc, ◌+◌, ◌-◌, ◌*◌, ◌/◌, ◌%◌, Bool, true, false, not, ◌&&◌, List, [], ◌∷◌, Option, none,
  some, ltb, leb, ◌==◌, if◌then◌else◌, add_size, min,
}
use wirestead.Diagnostics.Accounting.{
  SendAccounting, Cause, no_sends, count_admitted, count_completed, count_rolled_back,
  count_terminated,
}

-- `group` is a `GroupHandle`.
pub record Entry : Type 0 where
  pub bytes : ℕ
  pub epoch : ℕ
  pub active : Bool
  pub live : Bool
  pub group : Option ℕ

abbrev pub no_entry : Entry
no_entry = record { bytes = 0; epoch = 0; active = false; live = false; group = none }

pub record Group : Type 0 where
  pub totals : SendAccounting
  pub epoch : ℕ

pub record Ledger : Type 0 where
  pub slots : ℕ → Entry
  pub capacity : ℕ
  pub sparse : List (ℕ × Entry)
  pub head : ℕ
  pub count : ℕ
  pub base : ℕ
  pub next_id : ℕ
  pub epoch : ℕ
  pub totals : SendAccounting
  pub groups : ℕ → Group

abbrev pub new_ledger : Ledger
new_ledger = record {
  slots = λ _. no_entry;
  capacity = 0;
  sparse = [];
  head = 0;
  count = 0;
  base = 1;
  next_id = 0;
  epoch = 0;
  totals = no_sends;
  groups = λ _. record { totals = no_sends; epoch = 0 };
}

-- The two overloads of `slot` and writes through them.
unfoldable pub slot_index : Ledger → ℕ → ℕ
slot_index l i = (l.head + i) % l.capacity

unfoldable pub slot : Ledger → ℕ → Entry
slot l i = l.slots (slot_index l i)

unfoldable pub set_slot : Ledger → ℕ → Entry → Ledger
set_slot l i e = record l { slots = λ j. if j == slot_index l i then e else l.slots j }

-- `sparse_`: find, emplace and erase of a map.
unfoldable pub find_sparse : List (ℕ × Entry) → ℕ → Option Entry
find_sparse [] id = none
find_sparse ((k, e) ∷ m) id = if k == id then some e else find_sparse m id

unfoldable pub set_sparse : List (ℕ × Entry) → ℕ → Entry → List (ℕ × Entry)
set_sparse [] id e = []
set_sparse ((k, d) ∷ m) id e = if k == id then (k, e) ∷ m else (k, d) ∷ set_sparse m id e

unfoldable pub erase_sparse : List (ℕ × Entry) → ℕ → List (ℕ × Entry)
erase_sparse [] id = []
erase_sparse ((k, d) ∷ m) id = if k == id then m else (k, d) ∷ erase_sparse m id

abbrev pub emplace : List (ℕ × Entry) → ℕ → Entry → List (ℕ × Entry)
emplace m id e = elim (find_sparse m id) [ some _ ↦ m | none ↦ (id, e) ∷ m ]

-- `for (i < count_) live += slot(i).live`, with `n` rounds left.
unfoldable pub count_live : Ledger → ℕ → ℕ → ℕ
count_live l i zero = 0
count_live l i (suc n) = (if (slot l i).live then 1 else 0) + count_live l (i + 1) n

-- The loop that stages the surviving entries.
unfoldable pub stage : Ledger → ℕ → ℕ → List (ℕ × Entry) → List (ℕ × Entry)
stage l i zero staged = staged
stage l i (suc n) staged =
    stage l (i + 1) n (if (slot l i).live then emplace staged (l.base + i) (slot l i) else staged)

-- The branch that detaches them. It runs on a full ring, so each slot is cleared.
unfoldable pub detach : Ledger → Ledger
detach l = record l {
  sparse = stage l 0 l.count l.sparse;
  slots = λ _. no_entry;
  head = 0;
  count = 0;
  base = add_size l.next_id 1;
}

-- The branch that makes a larger ring.
unfoldable pub grow : Ledger → Ledger
grow l = record l {
  slots = λ j. if ltb j l.count then slot l j else no_entry;
  capacity = if l.capacity == 0 then 16 else l.capacity * 2;
  head = 0;
}

unfoldable pub make_room : Ledger → Ledger
make_room l =
    if not (l.capacity == 0) && leb (count_live l 0 l.count) (l.count / 2) then detach l else grow l

-- `none` is the null pointer.
unfoldable pub find : Ledger → ℕ → Option Entry
find l id =
    if ltb id l.base
    then find_sparse l.sparse id
    else if leb l.count (id - l.base)
    then none
    else if (slot l (id - l.base)).live
    then some (slot l (id - l.base))
    else none

-- A write through the pointer that `find` gave.
unfoldable pub write : Ledger → ℕ → Entry → Ledger
write l id e =
    if ltb id l.base
    then record l { sparse = set_sparse l.sparse id e }
    else set_slot l (id - l.base) e

-- `while (count_ && !slot(0).live)`: each round takes one from `count_`.
unfoldable pub compact_rounds : ℕ → Ledger → Ledger
compact_rounds zero l = l
compact_rounds (suc n) l =
    let next = record l {
      head = (l.head + 1) % l.capacity;
      count = l.count - 1;
      base = add_size l.base 1;
    } in
    let rest = compact_rounds n next in
    if not (l.count == 0) && not (slot l 0).live then rest else l

unfoldable pub compact : Ledger → Ledger
compact l = compact_rounds l.count l

-- What erase and discard_waiting do to a slot.
abbrev pub retired : Entry → Entry
retired e = record e { live = false; group = none }

unfoldable pub erase : Ledger → ℕ → Entry → Ledger
erase l id e =
    if ltb id l.base
    then record l { sparse = erase_sparse l.sparse id }
    else compact (set_slot l (id - l.base) (retired e))

unfoldable pub apply_group : (ℕ → Group) → Option ℕ → (SendAccounting → SendAccounting) → ℕ → Group
apply_group groups none apply = groups
apply_group groups (some g) apply =
    λ j. if j == g then record (groups g) { totals = apply (groups g).totals } else groups j

unfoldable pub update : Ledger → Entry → (SendAccounting → SendAccounting) → Ledger
update l e apply =
    if e.epoch == l.epoch
    then record l { totals = apply l.totals; groups = apply_group l.groups e.group apply }
    else l

-- `if (group && group->epoch != epoch_) …`
unfoldable pub renew_group : Ledger → Option ℕ → Ledger
renew_group l none = l
renew_group l (some g) = if (l.groups g).epoch == l.epoch then l else record l {
  groups = λ j. if j == g then record { totals = no_sends; epoch = l.epoch } else l.groups j;
}

unfoldable pub ensure_room : Ledger → Ledger
ensure_room l = if l.count == l.capacity then make_room l else l

-- The entry that an admission makes.
abbrev pub admitted : ℕ → ℕ → Option ℕ → Entry
admitted bytes epoch group = record {
  bytes = bytes;
  epoch = epoch;
  active = false;
  live = true;
  group = group;
}

-- The slot that an admission fills, and the count and the number behind it.
unfoldable pub append_entry : Ledger → ℕ → Entry → Ledger
append_entry l id e = record (set_slot l l.count e) { count = l.count + 1; next_id = id }

unfoldable pub admit : Ledger → ℕ → Option ℕ → Ledger × ℕ
admit l bytes group =
    let id = add_size l.next_id 1 in
    let room = ensure_room (renew_group l group) in
    let e = admitted bytes room.epoch group in
    (update (append_entry room id e) e (count_admitted bytes), id)

unfoldable pub begin_locked : Ledger → ℕ → Ledger × Bool
begin_locked l id = elim (find l id) [
  | none ↦ (l, false)
  | some e ↦ (write l id (record e { active = true }), true)
]

-- The first loop of begin_batch, and the second.
unfoldable pub all_found : Ledger → List ℕ → Bool
all_found l [] = true
all_found l (id ∷ batch) = elim (find l id) [ none ↦ false | some _ ↦ all_found l batch ]

unfoldable pub begin_all : Ledger → List ℕ → Ledger
begin_all l [] = l
begin_all l (id ∷ batch) = begin_all (begin_locked l id).0 batch

unfoldable pub begin_batch : Ledger → List ℕ → Ledger × Bool
begin_batch l batch = if all_found l batch then (begin_all l batch, true) else (l, false)

unfoldable pub complete_locked : Ledger → ℕ → ℕ → Ledger
complete_locked l id confirmed_bytes = elim (find l id) [
  | none ↦ l
  | some e ↦ erase (update l e (count_completed confirmed_bytes e.bytes)) id e
]

-- A batch is its requests with their sizes.
unfoldable pub complete_batch : Ledger → List (ℕ × ℕ) → ℕ → Ledger
complete_batch l [] confirmed_bytes = l
complete_batch l ((id, size) ∷ batch) confirmed_bytes =
    let confirmed = min confirmed_bytes size in
    complete_batch (complete_locked l id confirmed) batch (confirmed_bytes - confirmed)

unfoldable pub terminate : Ledger → Entry → Cause → Ledger
terminate l e cause = update l e (count_terminated cause e.active e.bytes)

unfoldable pub discard : Ledger → ℕ → Cause → Ledger
discard l id cause = elim (find l id) [ none ↦ l | some e ↦ erase (terminate l e cause) id e ]

unfoldable pub rollback : Ledger → ℕ → Ledger
rollback l id = elim (find l id) [
  | none ↦ l
  | some e ↦ erase (update l e (count_rolled_back e.bytes)) id e
]

unfoldable pub contains : Ledger → ℕ → Bool
contains l id =
    if ltb id l.base
    then (elim (find_sparse l.sparse id) [ none ↦ false | some _ ↦ true ])
    else ltb (id - l.base) l.count && (slot l (id - l.base)).live

abbrev pub same_group : Option ℕ → ℕ → Bool
same_group none g = false
same_group (some h) g = h == g

-- What discard_waiting takes: a waiting entry of the group.
abbrev pub is_waiting : ℕ → Entry → Bool
is_waiting g e = same_group e.group g && not e.active

-- Its loop over the sparse entries: what is left of them, and the ledger with the new totals.
unfoldable pub discard_sparse : Ledger → ℕ → Cause → List (ℕ × Entry) → Ledger × List (ℕ × Entry)
discard_sparse l g cause [] = (l, [])
discard_sparse l g cause ((k, e) ∷ m) = elim (is_waiting g e) [
  | true ↦ discard_sparse (terminate l e cause) g cause m
  | false ↦ let r = discard_sparse l g cause m in (r.0, (k, e) ∷ r.1)
]

-- Its loop over the ring.
unfoldable pub discard_ring : Ledger → ℕ → Cause → ℕ → ℕ → Ledger
discard_ring l g cause i zero = l
discard_ring l g cause i (suc n) =
    let e = slot l i in
    elim (e.live && is_waiting g e) [
      | true ↦ discard_ring (set_slot (terminate l e cause) i (retired e)) g cause (i + 1) n
      | false ↦ discard_ring l g cause (i + 1) n
    ]

unfoldable pub discard_waiting : Ledger → Option ℕ → Cause → Ledger
discard_waiting l none cause = l
discard_waiting l (some g) cause =
    let r = discard_sparse l g cause l.sparse in
    compact (discard_ring (record r.0 { sparse = r.1 }) g cause 0 l.count)

-- The two loops of end.
unfoldable pub end_sparse : Ledger → Cause → List (ℕ × Entry) → Ledger
end_sparse l cause [] = l
end_sparse l cause ((k, e) ∷ m) = end_sparse (terminate l e cause) cause m

unfoldable pub end_ring : Ledger → Cause → ℕ → ℕ → Ledger
end_ring l cause i zero = l
end_ring l cause i (suc n) =
    let e = slot l i in
    let m = if e.live then terminate l e cause else l in
    end_ring (set_slot m i no_entry) cause (i + 1) n

unfoldable pub end : Ledger → Cause → Ledger
end l cause =
    let m = end_ring (record (end_sparse l cause l.sparse) { sparse = [] }) cause 0 l.count in
    record m { head = 0; count = 0; base = add_size m.next_id 1 }

unfoldable pub snapshot : Ledger → SendAccounting
snapshot l = l.totals

unfoldable pub snapshot_group : Ledger → Option ℕ → SendAccounting
snapshot_group l none = no_sends
snapshot_group l (some g) = if (l.groups g).epoch == l.epoch then (l.groups g).totals else no_sends

unfoldable pub reset : Ledger → Ledger
reset l = record l { epoch = add_size l.epoch 1; totals = no_sends }
