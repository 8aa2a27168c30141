-- ===== src/Trace.antt =====
-- include/rkavp/trace.hpp and `TraceBuffer` of src/core/trace.cpp: a vector that is overwritten in a
-- circle once it is full.
pub mod Window
use rk_avp.Prelude.{
  ℕ, zero, suc, ◌+◌, ◌%◌, Bool, true, false, List, [], ◌∷◌, ◌++◌, String, ℤ, length, ltb, set, take,
  drop, if◌then◌else◌, ◌==◌,
}

pub record TraceEvent : Type 0 where
  pub name : String
  pub category : String
  pub node : String
  pub executor : String
  pub timestamp_us : ℤ
  pub duration_us : ℤ
  pub thread_id : ℕ

pub record TraceBuffer : Type 0 where
  pub capacity : ℕ
  pub events : List TraceEvent
  pub next : ℕ
  pub wrapped : Bool

unfoldable pub make_trace_buffer : ℕ → TraceBuffer
make_trace_buffer capacity = record {
  capacity = if capacity == 0 then 1 else capacity;
  events = [];
  next = 0;
  wrapped = false;
}

unfoldable pub add : TraceBuffer → TraceEvent → TraceBuffer
add b event =
    if ltb (length b.events) b.capacity
    then record b { events = b.events ++ event ∷ [] }
    else record b {
      events = set b.events b.next event;
      next = (b.next + 1) % b.capacity;
      wrapped = true;
    }

unfoldable pub snapshot : TraceBuffer → List TraceEvent
snapshot b = if b.wrapped then drop b.next b.events ++ take b.next b.events else b.events
