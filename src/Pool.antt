-- ===== src/Pool.antt =====
-- `BufferPool` of include/rkavp/buffer.hpp and src/core/buffer.cpp. `Acquire` has three parts: `acquire` under
-- the lock, `end_allocation` after the allocator was called without it, and `wake` when a caller
-- that waits looks again; the clock of a timed wait is outside.
pub mod Capacity
use rk_avp.Prelude.{
  ℕ, zero, suc, ◌+◌, ◌-◌, Bool, true, false, ◌&&◌, ◌||◌, not, List, [], ◌∷◌, ◌++◌, Option, none,
  some, length, ltb, ◌==◌, if◌then◌else◌,
}
use rk_avp.Status.{Status, is_ok}
use rk_avp.Status

pub record BufferPool (B : Type 0) : Type 0 where
  pub has_allocator : Bool
  pub buffer_size : ℕ
  pub capacity : ℕ
  pub available : List B
  pub allocated : ℕ
  pub closed : Bool

-- What the locked part of `Acquire` goes on to do.
pub data Acquired (B : Type 0) : Type 0 where
  gives : B → Acquired B
  refuses : Status → Acquired B
  allocates waits : Acquired B

module _ {B : Type 0} where
  unfoldable pub make_pool : Bool → ℕ → ℕ → BufferPool B
  make_pool has_allocator buffer_size capacity = record {
    has_allocator = has_allocator;
    buffer_size = buffer_size;
    capacity = capacity;
    available = [];
    allocated = 0;
    closed = false;
  }

  unfoldable pub acquire : BufferPool B → BufferPool B × Acquired B
  acquire p =
      if not p.has_allocator || p.capacity == 0 || p.buffer_size == 0
      then (p, refuses (Status.invalid "invalid buffer pool configuration"))
      else elim p.available [
        | [] ↦
            if ltb p.allocated p.capacity
            then (record p { allocated = suc p.allocated }, allocates)
            else (p, waits)
        | b ∷ bs ↦ (record p { available = bs }, gives b)
      ]

  -- `status` is what the allocator returned.
  unfoldable pub end_allocation : BufferPool B → Status → BufferPool B
  end_allocation p status = if is_ok status then p else record p { allocated = p.allocated - 1 }

  -- `none` when it goes on waiting.
  unfoldable pub wake : BufferPool B → Option (BufferPool B × Acquired B)
  wake p =
      if p.closed
      then some (p, refuses (Status.cancelled "buffer pool is closed"))
      else elim p.available [ [] ↦ none | b ∷ bs ↦ some (record p { available = bs }, gives b) ]

  -- `none` is an empty pointer.
  unfoldable pub release : BufferPool B → Option B → BufferPool B × Status
  release p none = (p, Status.invalid "cannot release an empty buffer")
  release p (some b) =
      if p.closed
      then (p, Status.cancelled "buffer pool is closed")
      else (record p { available = p.available ++ b ∷ [] }, Status.ok)

  unfoldable pub close : BufferPool B → BufferPool B
  close p = record p { closed = true; available = [] }
