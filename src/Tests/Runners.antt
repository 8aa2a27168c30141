-- ===== src/Tests/Runners.antt =====
-- Operations on a small runner of src/core/graph_runner.cpp.
use rk_avp.Prelude.{ℕ, refl, inl, true, false, List, [], ◌∷◌, none, pos}
use rk_avp.Status.{Status, is_ok}
use rk_avp.Status
use rk_avp.Timestamp.{from_microseconds}
use rk_avp.Packet.{Packet, ControlEvent, make}
use rk_avp.ConfigValue.{null}
use rk_avp.Queue.{BoundedQueue, drop_oldest}
use rk_avp.Graph.{QueueConfig}
use rk_avp.Runner.Stream.{new_stream}
use rk_avp.Runner.State.{GraphRunner}
use rk_avp.Runner.Halting.{IsFailStop}
use rk_avp.Runner.Operations.{
  Operation, adds, closes, reports, drains, operate_all, operate_all-IsFailStop,
}

abbrev packets : BoundedQueue (Packet ℕ)
packets = record { capacity = 2; policy = drop_oldest; queue = []; closed = false }

abbrev queue : QueueConfig
queue = record { capacity = 2; policy = drop_oldest }

abbrev pub runner : GraphRunner ℕ
runner = record {
  running = true;
  stopping = false;
  cancelled = false;
  active_operations = 0;
  executors = [];
  nodes = [];
  edges =
      record {
        config = record {
          from_node = "a";
          from_port = "out";
          to_node = "b";
          to_port = "in";
          queue = queue;
          back_edge = false;
          initial_packet = null;
        };
        queue = packets;
        scheduled = false;
        stream = new_stream;
        dropped = 0;
      }
      ∷ [];
  routes = ("a.out", 0 ∷ []) ∷ [];
  graph_inputs =
      (
        "camera",
        record {
          config = record { name = "camera"; node = "a"; port = "in"; queue = queue };
          queue = packets;
          scheduled = false;
          stream = new_stream;
          dropped = 0;
        },
      )
      ∷ [];
  open_inputs = "camera" ∷ [];
  open_source_nodes = [];
  active_sources = 0;
  last_error = Status.ok;
  error_callback = none;
  counters = [];
}

abbrev no_payload : ControlEvent → ℕ
no_payload e = 0

abbrev operations : List (Operation ℕ)
operations =
    adds "camera" (make 1 (from_microseconds (pos 5))) (pos 0)
    ∷ reports (Status.internal "broken")
    ∷ drains 0
    ∷ closes "camera" (pos 1)
    ∷ []

operate_all-IsFailStop_example : IsFailStop (operate_all no_payload runner operations)
operate_all-IsFailStop_example = operate_all-IsFailStop no_payload runner operations (inl refl)
