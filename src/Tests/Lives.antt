-- ===== src/Tests/Lives.antt =====
-- Lives of a node of src/core/node.cpp.
use rk_avp.Prelude.{◌≤◌, ◌≡◌, refl, false, List, [], ◌∷◌}
use rk_avp.Status.{Status}
use rk_avp.Status
use rk_avp.Node.{
  Node, configured, closed, on_request_stop, new_node, on_configure, on_open, on_start, on_process,
  on_stop, on_close, configure, open_node, start, process, close, request_stop,
}
use rk_avp.Node.Lifecycle.{
  Call, call, configures, opens, starts, processes, requests_stop, closes, run, configures_in,
  opens_in, run_once,
}

abbrev life : List Call
life =
    configures Status.ok Status.ok
    ∷ opens Status.ok
    ∷ starts Status.ok
    ∷ processes Status.ok
    ∷ requests_stop
    ∷ closes Status.ok Status.ok
    ∷ opens Status.ok
    ∷ []

life_hooks :
    (run new_node life).1
    ≡ on_configure ∷ on_open ∷ on_start ∷ on_process ∷ on_request_stop ∷ on_stop ∷ on_close ∷ []
unfolding run call configure open_node start process request_stop close
life_hooks = refl

run_once_example : (configures_in (run new_node life).1 ≤ 1) × (opens_in (run new_node life).1 ≤ 1)
run_once_example = run_once life

abbrev closed_node : Node
closed_node = record { state = closed; stop_requested = false }

abbrev configured_node : Node
configured_node = record { state = configured; stop_requested = false }
