-- ===== src/Builtins/FlowLimiter.antt =====
-- `FlowLimiterNode` of src/core/builtin_nodes.cpp: it lets packets through while fewer than
-- `max_in_flight` are downstream, and a packet on the port `finished` gives one place back.
use rk_avp.Prelude.{
  ℕ, suc, ◌-◌, Bool, true, false, not, List, [], ◌∷◌, ◌++◌, Option, none, some, length, ltb, leb,
  ◌==◌, if◌then◌else◌, rest,
}
use rk_avp.Status.{Status, Result, pass, fail, ◌>>=◌}
use rk_avp.Status
use rk_avp.Packet.{Packet, is_no_event}
use rk_avp.Queue.{QueuePolicy, drop_oldest}
use rk_avp.ConfigValue.{Object}
use rk_avp.Builtins.{Answer, emits, returns, positive_option, size_option, queue_policy_option}

pub record FlowLimiter (D : Type 0) : Type 0 where
  pub max_in_flight : ℕ
  pub queue_capacity : ℕ
  pub policy : QueuePolicy
  pub in_flight : ℕ
  pub pending : List (Packet D)
  pub dropped : ℕ  -- the counter `flow_limiter.dropped`

abbrev keeps_old : QueuePolicy → Bool
keeps_old drop_oldest = false
keeps_old _ = true

module _ {D : Type 0} where
  abbrev pub new_flow_limiter : FlowLimiter D
  new_flow_limiter = record {
    max_in_flight = 1;
    queue_capacity = 1;
    policy = drop_oldest;
    in_flight = 0;
    pending = [];
    dropped = 0;
  }

  -- The node when it accepts its options; what a failed call leaves is not used.
  unfoldable pub configure : FlowLimiter D → Object → Result (FlowLimiter D)
  configure f options = do
    max_in_flight ←
        positive_option options "max_in_flight" f.max_in_flight "max_in_flight must be positive"
    queue_capacity ←
        size_option options "queue_capacity" f.queue_capacity "queue_capacity must be non-negative"
    pass (record f {
      max_in_flight = max_in_flight;
      queue_capacity = queue_capacity;
      policy = queue_policy_option options "queue_policy" drop_oldest;
    })

  -- A place is given back.
  unfoldable pub finished : FlowLimiter D → FlowLimiter D × Answer D
  finished f =
      let f' = record f { in_flight = f.in_flight - 1 } in
      elim f.pending [
        | [] ↦ (f', returns Status.ok)
        | p ∷ ps ↦
            if ltb f'.in_flight f.max_in_flight
            then (record f' { pending = ps; in_flight = suc f'.in_flight }, emits "out" p)
            else (f', returns Status.ok)
      ]

  unfoldable pub enter : FlowLimiter D → Packet D → FlowLimiter D × Answer D
  enter f p =
      let dropped' = record f { dropped = suc f.dropped } in
      if not (is_no_event p.event)
      then (f, emits "out" p)
      else if ltb f.in_flight f.max_in_flight
      then (record f { in_flight = suc f.in_flight }, emits "out" p)
      else if f.queue_capacity == 0
      then (dropped', returns Status.ok)
      else if leb f.queue_capacity (length f.pending)
      then (if keeps_old f.policy
          then (dropped', returns Status.ok)
          else (record dropped' { pending = rest f.pending ++ p ∷ [] }, returns Status.ok))
      else (record f { pending = f.pending ++ p ∷ [] }, returns Status.ok)

  -- The packets on the ports `finished` and `in`.
  unfoldable pub on_process :
      FlowLimiter D → Option (Packet D) → Option (Packet D) → FlowLimiter D × Answer D
  unfolding finished enter
  on_process f (some signal) p = finished f
  on_process f none (some p) = enter f p
  on_process f none none = (f, returns (Status.invalid "FlowLimiter requires in or finished input"))
