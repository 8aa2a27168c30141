-- ===== src/Streaming.antt =====
-- The primitives of include/rkavp/streaming_primitives.hpp. `ReconnectBackoff` computes in doubles
-- and is left out.
pub mod JitterBuffer
pub mod ClockMapping
