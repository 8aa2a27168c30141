-- ===== src/Pool/Capacity.antt =====
-- How many buffers a pool makes, and who waits for one.
use rk_avp.Prelude.{
  ℕ, zero, suc, ◌+◌, ◌≤◌, ◌≡◌, refl, Bool, false, List, [], ◌∷◌, Option, none, some, if◌then◌else◌,
  arith,
}
use rk_avp.Status.{Status, is_ok}
use rk_avp.Pool.{
  BufferPool, Acquired, allocates, waits, make_pool, acquire, end_allocation, wake, release, close,
}

pub data Call (B : Type 0) : Type 0 where
  acquires wakes closes : Call B
  ends_allocation : Status → Call B
  releases : Option B → Call B

-- The pool, the calls of the allocator that have not returned, and the buffers that it made.
pub record Usage (B : Type 0) : Type 0 where
  pub pool : BufferPool B
  pub allocating : ℕ
  pub made : ℕ

module _ {B : Type 0} where
  abbrev started : Acquired B → ℕ
  started allocates = 1
  started _ = 0

  abbrev woken : Usage B → Option (BufferPool B × Acquired B) → Usage B
  woken u none = u
  woken u (some (p, a)) = record u { pool = p }

  -- An allocation ends only if one has begun.
  abbrev ended : Usage B → ℕ → Status → Usage B
  ended u zero s = u
  ended u (suc n) s = record {
    pool = end_allocation u.pool s;
    allocating = n;
    made = if is_ok s then suc u.made else u.made;
  }

  unfoldable pub call : Usage B → Call B → Usage B
  call u acquires =
      let (p, a) = acquire u.pool in record u { pool = p; allocating = u.allocating + started a }
  call u wakes = woken u (wake u.pool)
  call u closes = record u { pool = close u.pool }
  call u (ends_allocation s) = ended u u.allocating s
  call u (releases b) = record u { pool = (release u.pool b).0 }

  unfoldable pub call_all : Usage B → List (Call B) → Usage B
  call_all u [] = u
  call_all u (c ∷ cs) = call_all (call u c) cs

  -- Every buffer that was made, or is being made, is counted, and the count is within the capacity.
  abbrev pub Counted : Usage B → Type 0
  Counted u = (u.made + u.allocating ≡ u.pool.allocated) × (u.pool.allocated ≤ u.pool.capacity)

  call-Counted :
      (u : Usage B) (c : Call B)
      → Counted u
      → Counted (call u c) × ((call u c).pool.capacity ≡ u.pool.capacity)
  unfolding call acquire wake close release end_allocation
  call-Counted u acquires h = ground arith
  call-Counted u wakes h = ground arith
  call-Counted u closes h = ground arith
  call-Counted u (ends_allocation s) h = ground arith
  call-Counted u (releases none) h = ground arith
  call-Counted u (releases (some b)) h = ground arith

  call_all-Counted :
      (u : Usage B) (cs : List (Call B))
      → Counted u
      → Counted (call_all u cs) × ((call_all u cs).pool.capacity ≡ u.pool.capacity)
  unfolding call_all
  call_all-Counted u [] h = (h, refl)
  call_all-Counted u (c ∷ cs) h =
      let (h', e) = call-Counted u c h in
      let (h'', e') = call_all-Counted (call u c) cs h' in (h'', ground (arith, e, e'))

  abbrev pub new_usage : Bool → ℕ → ℕ → Usage B
  new_usage has_allocator buffer_size capacity = record {
    pool = make_pool has_allocator buffer_size capacity;
    allocating = 0;
    made = 0;
  }

  -- Over any calls a new pool makes no more buffers than its capacity, failed allocations apart.
  pub call_all_capacity :
      (has_allocator : Bool) (buffer_size capacity : ℕ) (cs : List (Call B))
      → let u = call_all (new_usage has_allocator buffer_size capacity) cs in
        u.made + u.allocating ≤ capacity
  unfolding make_pool
  call_all_capacity has_allocator buffer_size capacity cs =
      let (counted, same) =
        call_all-Counted (new_usage has_allocator buffer_size capacity) cs (refl, omega arith) in
      ground (arith, counted, same)

  -- When an allocation fails while a caller waits, the caller goes on waiting, although a new call
  -- would be given the place that is free now.
  pub failed_allocation_strands :
      (p : BufferPool B) (s : Status)
      → (acquire p).1 ≡ waits
      → p.allocated ≤ p.capacity
      → p.closed ≡ false
      → is_ok s ≡ false
      → let q = end_allocation p s in (wake q ≡ none) × ((acquire q).1 ≡ allocates)
  unfolding acquire wake end_allocation
  failed_allocation_strands p s w c o f = (ground arith, ground arith)
