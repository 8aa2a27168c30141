-- ===== src/Node/Lifecycle.antt =====
-- What any sequence of calls does to a node.
use rk_avp.Prelude.{
  ℕ, suc, ◌+◌, ◌≤◌, ◌≡◌, true, List, [], ◌∷◌, ◌++◌, All, All-append, arith, if◌then◌else◌,
}
use rk_avp.Status.{Status, is_ok}
use rk_avp.Status
use rk_avp.Node.{
  Node, NodeState, Hook, Outcome, created, configured, running, closed, on_configure, on_open,
  on_start, on_request_stop, configure, open_node, start, process, request_stop, stop, close,
  new_node,
}

-- A call with what its hooks would return.
pub data Call : Type 0 where
  configures : Status → Status → Call
  opens starts processes stops : Status → Call
  requests_stop : Call
  closes : Status → Status → Call

unfoldable pub call : Node → Call → Outcome
call n (configures o h) = configure n o h
call n (opens h) = open_node n h
call n (starts h) = start n h
call n (processes h) = process n h
call n (stops h) = stop n h
call n requests_stop = record {
  node = (request_stop n).0;
  status = Status.ok;
  hooks = (request_stop n).1;
}
call n (closes s h) = close n s h

unfoldable pub run : Node → List Call → Node × List Hook
run n [] = (n, [])
run n (c ∷ cs) =
    let first = call n c in let later = run first.node cs in (later.0, first.hooks ++ later.1)

-- A hook that runs at most once lives in one state, and no call leads back to it.
abbrev before_configure : NodeState → ℕ
before_configure created = 1
before_configure _ = 0

abbrev before_open : NodeState → ℕ
before_open created = 1
before_open configured = 1
before_open _ = 0

abbrev pub configures_in : List Hook → ℕ
configures_in [] = 0
configures_in (on_configure ∷ hs) = suc (configures_in hs)
configures_in (_ ∷ hs) = configures_in hs

abbrev pub opens_in : List Hook → ℕ
opens_in [] = 0
opens_in (on_open ∷ hs) = suc (opens_in hs)
opens_in (_ ∷ hs) = opens_in hs

call_budget :
    (n : Node) (c : Call)
    → (configures_in (call n c).hooks + before_configure (call n c).node.state
        ≤ before_configure n.state)
      × (opens_in (call n c).hooks + before_open (call n c).node.state ≤ before_open n.state)
unfolding call configure open_node start process request_stop stop close
call_budget n (configures o h) = ground arith
call_budget n (opens h) = ground arith
call_budget n (starts h) = ground arith
call_budget n (processes h) = ground arith
call_budget n (stops h) = ground arith
call_budget n requests_stop = ground arith
call_budget n (closes s h) = ground arith

configures_in-append :
    (xs ys : List Hook) → configures_in (xs ++ ys) ≡ configures_in xs + configures_in ys
configures_in-append [] ys = omega arith
configures_in-append (on_configure ∷ xs) ys = omega (arith, configures_in-append xs ys)
configures_in-append (_ ∷ xs) ys = configures_in-append xs ys

opens_in-append : (xs ys : List Hook) → opens_in (xs ++ ys) ≡ opens_in xs + opens_in ys
opens_in-append [] ys = omega arith
opens_in-append (on_open ∷ xs) ys = omega (arith, opens_in-append xs ys)
opens_in-append (_ ∷ xs) ys = opens_in-append xs ys

run_budget :
    (n : Node) (cs : List Call)
    → (configures_in (run n cs).1 ≤ before_configure n.state)
      × (opens_in (run n cs).1 ≤ before_open n.state)
unfolding run
run_budget n [] = omega arith
run_budget n (c ∷ cs) = omega (
  arith,
  call_budget n c,
  run_budget (call n c).node cs,
  configures_in-append (call n c).hooks (run (call n c).node cs).1,
  opens_in-append (call n c).hooks (run (call n c).node cs).1,
)

-- Over the whole life of a node, whatever is called and whatever the hooks return, `OnConfigure`
-- runs at most once, and `OnOpen` at most once.
pub run_once :
    (cs : List Call) → (configures_in (run new_node cs).1 ≤ 1) × (opens_in (run new_node cs).1 ≤ 1)
run_once cs = run_budget new_node cs

abbrev pub signals_in : List Hook → ℕ
signals_in [] = 0
signals_in (on_request_stop ∷ hs) = suc (signals_in hs)
signals_in (_ ∷ hs) = signals_in hs

abbrev pub starts_in : List Hook → ℕ
starts_in [] = 0
starts_in (on_start ∷ hs) = suc (starts_in hs)
starts_in (_ ∷ hs) = starts_in hs

abbrev pub allowance : Node → ℕ
allowance n = if n.stop_requested then 0 else 1

call_signals :
    (n : Node) (c : Call)
    → signals_in (call n c).hooks + allowance (call n c).node
      ≤ allowance n + starts_in (call n c).hooks
unfolding call configure open_node start process request_stop stop close
call_signals n (configures o h) = ground arith
call_signals n (opens h) = ground arith
call_signals n (starts h) = ground arith
call_signals n (processes h) = ground arith
call_signals n (stops h) = ground arith
call_signals n requests_stop = ground arith
call_signals n (closes s h) = ground arith

signals_in-append : (xs ys : List Hook) → signals_in (xs ++ ys) ≡ signals_in xs + signals_in ys
signals_in-append [] ys = omega arith
signals_in-append (on_request_stop ∷ xs) ys = omega (arith, signals_in-append xs ys)
signals_in-append (_ ∷ xs) ys = signals_in-append xs ys

starts_in-append : (xs ys : List Hook) → starts_in (xs ++ ys) ≡ starts_in xs + starts_in ys
starts_in-append [] ys = omega arith
starts_in-append (on_start ∷ xs) ys = omega (arith, starts_in-append xs ys)
starts_in-append (_ ∷ xs) ys = starts_in-append xs ys

-- However often a node is stopped, closed or asked to stop, `OnRequestStop` runs at most once for
-- each `OnStart`, and once more if the node's flag is not yet set.
run_signals :
    (n : Node) (cs : List Call) → signals_in (run n cs).1 ≤ allowance n + starts_in (run n cs).1
unfolding run
run_signals n [] = omega arith
run_signals n (c ∷ cs) = omega (
  arith,
  call_signals n c,
  run_signals (call n c).node cs,
  signals_in-append (call n c).hooks (run (call n c).node cs).1,
  starts_in-append (call n c).hooks (run (call n c).node cs).1,
)

call_closed :
    (n : Node) (c : Call)
    → n.state ≡ closed
    → ((call n c).node.state ≡ closed) × All (λ h. h ≡ on_request_stop) (call n c).hooks
unfolding call configure open_node start process request_stop stop close
call_closed n (configures o h) e = ground arith
call_closed n (opens h) e = ground arith
call_closed n (starts h) e = ground arith
call_closed n (processes h) e = ground arith
call_closed n (stops h) e = ground arith
call_closed n requests_stop e = ground arith
call_closed n (closes s h) e = ground arith

-- A closed node stays closed, and no call on it runs a hook other than `OnRequestStop`.
run_after_close :
    (n : Node) (cs : List Call)
    → n.state ≡ closed
    → ((run n cs).0.state ≡ closed) × All (λ h. h ≡ on_request_stop) (run n cs).1
unfolding run
run_after_close n [] e = (e, tt)
run_after_close n (c ∷ cs) e =
    let (still, signals) = call_closed n c e in
    let (end, later) = run_after_close (call n c).node cs still in
    (end, All-append _ (call n c).hooks (run (call n c).node cs).1 signals later)

-- A node that is configured and never opened can be stopped and then started, and `OnOpen` is not
-- called, when the hooks succeed.
stop_skips_open :
    (n : Node) (s h : Status)
    → n.state ≡ configured
    → is_ok s ≡ true
    → is_ok h ≡ true
    → let (n', hooks) = run n (stops s ∷ starts h ∷ []) in
      (n'.state ≡ running) × (opens_in hooks ≡ 0)
unfolding run call stop start
stop_skips_open n s h e p q = ground arith
