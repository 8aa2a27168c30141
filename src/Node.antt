-- ===== src/Node.antt =====
-- include/rkavp/node.hpp and src/core/node.cpp: contracts, and the life of a node. The virtual
-- hooks are not part of the framework: what one returns is an argument of the call that makes it,
-- and every outcome lists the hooks that were called.
pub mod Contract
pub mod Lifecycle
use rk_avp.Prelude.{ℕ, ◌≡◌, Bool, true, false, ◌||◌, List, [], ◌∷◌, ◌++◌, ◌==◌, if◌then◌else◌}
use rk_avp.Status.{Status, is_ok}
use rk_avp.Status

pub data NodeState : Type 0 where
  created configured open_state running stopped closed error : NodeState

pub data Hook : Type 0 where
  on_configure on_open on_start on_process on_request_stop on_stop on_close : Hook

pub record Node : Type 0 where
  pub state : NodeState
  pub stop_requested : Bool

pub record Outcome : Type 0 where
  pub node : Node
  pub status : Status
  pub hooks : List Hook

abbrev pub new_node : Node
new_node = record { state = created; stop_requested = false }

abbrev refused : Node → Status → Outcome
refused n s = record { node = n; status = s; hooks = [] }

-- `Transition`, after the hooks that gave the status.
unfoldable pub transition : Node → List Hook → Status → NodeState → Outcome
transition n hooks s success_state = record {
  node = record n { state = if is_ok s then success_state else error };
  status = s;
  hooks = hooks;
}

-- `options_status` is what `ValidateOptions` gives.
configure_by : NodeState → Node → Status → Status → Outcome
unfolding transition
configure_by created n options_status hook =
    if is_ok options_status
    then transition n (on_configure ∷ []) hook configured
    else transition n [] options_status configured
configure_by _ n options_status hook =
    refused n (Status.failed_precondition "Configure requires created state")

unfoldable pub configure : Node → Status → Status → Outcome
unfolding configure_by
configure n = configure_by n.state n

open_by : NodeState → Node → Status → Outcome
unfolding transition
open_by configured n hook = transition n (on_open ∷ []) hook open_state
open_by _ n hook = refused n (Status.failed_precondition "Open requires configured state")

unfoldable pub open_node : Node → Status → Outcome
unfolding open_by
open_node n = open_by n.state n

start_by : NodeState → Node → Status → Outcome
unfolding transition
start_by open_state n hook =
    transition (record n { stop_requested = false }) (on_start ∷ []) hook running
start_by stopped n hook =
    transition (record n { stop_requested = false }) (on_start ∷ []) hook running
start_by _ n hook = refused n (Status.failed_precondition "Start requires open or stopped state")

unfoldable pub start : Node → Status → Outcome
unfolding start_by
start n = start_by n.state n

process_by : NodeState → Node → Status → Outcome
unfolding transition
process_by running n hook = transition n (on_process ∷ []) hook running
process_by _ n hook = refused n (Status.failed_precondition "Process requires running state")

unfoldable pub process : Node → Status → Outcome
unfolding process_by
process n = process_by n.state n

-- The hook is called when the flag was not set.
unfoldable pub request_stop : Node → Node × List Hook
request_stop n =
    (record n { stop_requested = true }, if n.stop_requested then [] else on_request_stop ∷ [])

stop_by : NodeState → Node → Status → Outcome
unfolding transition request_stop
stop_by stopped n hook = refused n Status.ok
stop_by closed n hook = refused n Status.ok
stop_by created n hook = refused n Status.ok
stop_by _ n hook = transition (request_stop n).0 ((request_stop n).1 ++ on_stop ∷ []) hook stopped

unfoldable pub stop : Node → Status → Outcome
unfolding stop_by
stop n = stop_by n.state n

-- `OnClose` after the hooks already called.
close_after : Node → List Hook → Status → Outcome
unfolding transition
close_after n hooks hook = transition n (hooks ++ on_close ∷ []) hook closed

close_by : NodeState → Node → Status → Status → Outcome
unfolding close_after stop
close_by closed n stop_hook close_hook = refused n Status.ok
close_by running n stop_hook close_hook =
    let halted = stop n stop_hook in
    if is_ok halted.status then close_after halted.node halted.hooks close_hook else halted
close_by _ n stop_hook close_hook = close_after n [] close_hook

unfoldable pub close : Node → Status → Status → Outcome
unfolding close_by
close n = close_by n.state n
