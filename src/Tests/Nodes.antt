-- ===== src/Tests/Nodes.antt =====
-- Runs of the trace buffer and of the built-in nodes.
use rk_avp.Prelude.{
  ℕ, ◌≡◌, refl, inl, true, false, false, List, [], ◌∷◌, none, some, String, pos, length, filter,
  map, get_elem?, arith,
}
use rk_avp.Status
use rk_avp.Timestamp.{from_microseconds}
use rk_avp.Packet.{Packet, PacketBatch, BatchItem, make}
use rk_avp.Queue.{drop_oldest}
use rk_avp.Trace.{TraceEvent}
use rk_avp.Builtins.FlowLimiter.{FlowLimiter}
use rk_avp.Builtins.Credits.{Signal, finish, arrive, IsBalanced, signal_all, signal_all-IsBalanced}
use rk_avp.Builtins.AdaptiveBatch.{AdaptiveBatch, batch, flush, on_process}
use rk_avp.Builtins.AdaptiveBatch.Fairness.{of_source}
use rk_avp.Builtins.AdaptiveBatch.Flushing.{packets_of, flush_lem}
use rk_avp.Builtins.AdaptiveBatch.Limits.{IsLimited, on_process-IsLimited}
use rk_avp.Builtins.PacketRing.{PacketRing, trigger}
use rk_avp.Builtins.PacketRing.Clips.{store_all, trigger_lem}

abbrev trace_event : String → TraceEvent
trace_event name = record {
  name = name;
  category = "node";
  node = "a";
  executor = "default";
  timestamp_us = pos 0;
  duration_us = pos 1;
  thread_id = 0;
}

abbrev frame : ℕ → Packet ℕ
frame n = make n (from_microseconds (pos n))

abbrev limiter : FlowLimiter ℕ
limiter = record {
  max_in_flight = 1;
  queue_capacity = 1;
  policy = drop_oldest;
  in_flight = 0;
  pending = [];
  dropped = 0;
}

balanced : IsBalanced limiter
balanced = record { limited = omega arith; busy = inl refl; bounded = omega arith }

abbrev signals : List (Signal ℕ)
signals = arrive (frame 1) ∷ arrive (frame 2) ∷ arrive (frame 3) ∷ finish (frame 9) ∷ []

signal_all-IsBalanced_example : IsBalanced (signal_all limiter signals).0
signal_all-IsBalanced_example = signal_all-IsBalanced limiter signals (omega arith) balanced

abbrev item : String → ℕ → BatchItem ℕ
item source n = record { source_id = source; packet = frame n; batch_index = 0 }

abbrev items : List (BatchItem ℕ)
items = item "left" 1 ∷ item "left" 2 ∷ item "right" 3 ∷ []

abbrev batcher : AdaptiveBatch ℕ
batcher = record {
  max_batch_size = 2;
  max_per_source = 1;
  timeout_us = 10;
  allow_partial = true;
  pending = [];
  first_packet_time_us = pos 0;
  source_limited = 0;
  emitted = 0;
}

nothing_waits : IsLimited batcher
unfolding filter
nothing_waits = record { per_source = λ t. omega arith; room = omega arith }

on_process-IsLimited_example :
    IsLimited (on_process batcher none (some (frame 1)) (pos 3) Status.ok Status.ok).0
on_process-IsLimited_example =
    on_process-IsLimited batcher none (some (frame 1)) (pos 3) Status.ok Status.ok nothing_waits

abbrev waiting : AdaptiveBatch ℕ
waiting = record batcher { pending = items }

flush_lem_example :
    (p : Packet (PacketBatch ℕ)) × (b : PacketBatch ℕ) × ((flush waiting Status.ok).1
      ≡ batch p ∷ [])
    × (p.payload ≡ some b)
    × ((flush waiting Status.ok).0.pending ≡ [])
    × (length b.items ≡ 3)
    × ((t : String) → packets_of (of_source t b.items) ≡ packets_of (of_source t items))
    × ((i : ℕ) (x : BatchItem ℕ) → get_elem? b.items i ≡ some x → x.batch_index ≡ i)
flush_lem_example = flush_lem waiting Status.ok refl

abbrev ring : PacketRing ℕ
ring = record {
  capacity = 2;
  post_packets = 1;
  remaining_post_packets = 0;
  recording = false;
  packets = frame 1 ∷ frame 2 ∷ [];
  clip = [];
}

trigger_lem_example :
    ((trigger ring).1 ≡ none)
    × ((p : Packet (PacketBatch ℕ)) × (b : PacketBatch ℕ) × ((store_all
            (trigger ring).0
            (frame 3 ∷ [])).1
          ≡ p ∷ [])
        × (p.payload ≡ some b)
        × (map (λ (i : BatchItem ℕ). i.packet) b.items ≡ frame 1 ∷ frame 2 ∷ frame 3 ∷ []))
trigger_lem_example = trigger_lem ring (frame 3 ∷ []) (omega arith) refl
