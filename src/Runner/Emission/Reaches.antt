-- ===== src/Runner/Emission/Reaches.antt =====
-- How often a packet that is emitted reaches an observer, of src/core/graph_runner.cpp: over any
-- sequence of calls of the table of observers and of steps of their workers.
use rk_avp.Prelude.{
  ℕ, zero, suc, ◌≡◌, refl, Bool, List, [], ◌∷◌, Option, none, some, String, ◌==◌, if◌then◌else◌,
  string_keys, nat_keys, arith, inl, inr, Option-cases, sym,
}
use rk_avp.Prelude.Maps.{find, find-assign}
use rk_avp.Prelude.Counts.{count, count-append, occurrences}
use rk_avp.Packet.{Packet}
use rk_avp.Runner.State.{GraphRunner}
use rk_avp.Runner.Observers.{
  ObserverRuntime, ObserverTable, ObserverOptions, is_among, add_observer, cancel_observer,
  shutdown_observers, take_packet, finish_packet, enqueue_observer, no_observers, put_observer,
  ids_of,
}
use rk_avp.Runner.Emission.{
  Emitter, shows, show_to, show_each, callbacks, emit_outputs, streams_of, end_source,
}
use rk_avp.Runner.Emission.Subscriptions.{
  IsTable, is_live, add_observer-IsTable, cancel_observer-IsTable, shutdown_observers-IsTable,
  put_observer-IsTable, show_each-IsTable, no_observers-IsTable,
}

pub data Event (D : Type 0) : Type 0 where
  observes : String → ObserverOptions → Event D
  cancels : ℕ → Bool → Event D
  shuts_down : Event D
  emits : String → String → Packet D → Event D
  takes finishes : ℕ → Event D

module _ {D : Type 0} where
  abbrev pub hear : Packet D → ObserverRuntime D → ObserverRuntime D
  hear p o = if shows p o then (enqueue_observer o p).0 else o

  -- An observer after the packet has been put to it so many times.
  unfoldable pub hear_times : Packet D → ℕ → ObserverRuntime D → ObserverRuntime D
  hear_times p zero o = o
  hear_times p (suc n) o = hear_times p n (hear p o)

  abbrev put_table : ObserverTable D → Emitter D → Emitter D
  put_table t e = record e { table = t }

  abbrev take_found : Emitter D → ℕ → Option (ObserverRuntime D × Option (Packet D)) → Emitter D
  take_found e id none = e
  take_found e id (some (o, taken)) = put_table (put_observer id o e.table) e

  abbrev take_at : Emitter D → ℕ → Option (ObserverRuntime D) → Emitter D
  take_at e id none = e
  take_at e id (some o) = take_found e id (take_packet o)

  abbrev finish_at : Emitter D → ℕ → Option (ObserverRuntime D) → Emitter D
  finish_at e id none = e
  finish_at e id (some o) = put_table (put_observer id (finish_packet o) e.table) e

  unfoldable pub react : Emitter D → Event D → Emitter D
  react e (observes stream options) = put_table (add_observer e.table stream options).0 e
  react e (cancels id from_callback) = put_table (cancel_observer e.table id from_callback).0 e
  react e shuts_down = put_table (shutdown_observers e.table) e
  react e (emits node_id endpoint p) = emit_outputs e node_id endpoint p
  react e (takes id) = take_at e id (find id e.table.runtimes)
  react e (finishes id) = finish_at e id (find id e.table.runtimes)

  unfoldable pub react_all : Emitter D → List (Event D) → Emitter D
  react_all e [] = e
  react_all e (v ∷ vs) = react_all (react e v) vs

  take_packet_stream :
      (o : ObserverRuntime D) (taken : ObserverRuntime D × Option (Packet D))
      → take_packet o ≡ some taken
      → taken.0.stream ≡ o.stream
  unfolding take_packet
  take_packet_stream o taken h = ground (arith, h)

  take_found-IsTable :
      (e : Emitter D) (id : ℕ) (o : ObserverRuntime D)
      → find id e.table.runtimes ≡ some o
      → IsTable e.table
      → IsTable (take_found e id (take_packet o)).table
  take_found-IsTable e id o f h = elim (Option-cases (take_packet o)) [
    | inl g ↦ rw g h
    | inr (taken, g) ↦
        rw g (put_observer-IsTable e.table id o taken.0 f (take_packet_stream o taken g) h)
  ]

  react-IsTable : (e : Emitter D) (v : Event D) → IsTable e.table → IsTable (react e v).table
  unfolding react emit_outputs finish_packet
  react-IsTable e (observes stream options) h = add_observer-IsTable e.table stream options h
  react-IsTable e (cancels id from_callback) h = cancel_observer-IsTable e.table id from_callback h
  react-IsTable e shuts_down h = shutdown_observers-IsTable e.table
  react-IsTable e (emits node_id endpoint p) h =
      show_each-IsTable p (record e { runner = end_source p node_id e.runner })
        (callbacks e.table.observers (streams_of (find endpoint e.graph_outputs))) h
  react-IsTable e (takes id) h = elim (Option-cases (find id e.table.runtimes)) [
    | inl f ↦ rw f h
    | inr (o, f) ↦ rw f (take_found-IsTable e id o f h)
  ]
  react-IsTable e (finishes id) h = elim (Option-cases (find id e.table.runtimes)) [
    | inl f ↦ rw f h
    | inr (o, f) ↦ rw f (put_observer-IsTable e.table id o (finish_packet o) f refl h)
  ]

  react_all-IsTable :
      (e : Emitter D) (vs : List (Event D)) → IsTable e.table → IsTable (react_all e vs).table
  unfolding react_all
  react_all-IsTable e [] h = h
  react_all-IsTable e (v ∷ vs) h = react_all-IsTable (react e v) vs (react-IsTable e v h)

  enqueue_observer_options :
      (o : ObserverRuntime D) (p : Packet D) → (enqueue_observer o p).0.options ≡ o.options
  unfolding enqueue_observer
  enqueue_observer_options o p = ground arith

  show_to_reaches :
      (p : Packet D) (e : Emitter D) (id k : ℕ) (o : ObserverRuntime D)
      → find k e.table.runtimes ≡ some o
      → find k (show_to p e id (find id e.table.runtimes)).table.runtimes
        ≡ some (if id == k then hear p o else o)
  show_to_reaches p e id k o f = elim (Option-cases (find id e.table.runtimes)) [
    | inl g ↦ rw g (ground (arith, f, g))
    | inr (o', g) ↦
        rw g (ground (arith, f, g, find-assign id k (enqueue_observer o' p).0 e.table.runtimes))
  ]

  show_each_reaches :
      (p : Packet D) (e : Emitter D) (ids : List ℕ) (k : ℕ) (o : ObserverRuntime D)
      → find k e.table.runtimes ≡ some o
      → find k (show_each p e ids).table.runtimes ≡ some (hear_times p (count k ids) o)
  unfolding show_each hear_times count
  show_each_reaches p e [] k o f = f
  show_each_reaches p e (id ∷ ids) k o f =
      let e' = show_to p e id (find id e.table.runtimes) in
      let o' = if id == k then hear p o else o in
      ground (arith, show_each_reaches p e' ids k o' (show_to_reaches p e id k o f))

  count-callbacks :
      (t : ObserverTable D) (ss : List String) (k : ℕ) (o : ObserverRuntime D)
      → IsTable t
      → find k t.runtimes ≡ some o
      → count k (callbacks t.observers ss)
        ≡ (if is_among k t.observer_handles then occurrences o.stream ss else 0)
  unfolding callbacks count occurrences IsTable is_live
  count-callbacks t [] k o h f = ground arith
  count-callbacks t (s ∷ ss) k o h f = ground (
    arith,
    f,
    count-append k (ids_of (find s t.observers)) (callbacks t.observers ss),
    h.0 k s,
    count-callbacks t ss k o h f,
  )

  abbrev pub after : GraphRunner D → List (String × List String) → List (Event D) → Emitter D
  after r outputs vs =
      react_all (record { runner = r; graph_outputs = outputs; table = no_observers }) vs

  -- After any sequence of subscriptions, cancellations, emissions and worker steps, what a node
  -- emits on an endpoint, past the test whether the runner is cancelled, is put to an observer as
  -- often as the graph outputs of the endpoint name its stream when its handle is still held, and
  -- not at all when it is not; a timestamp bound only if the observer asks for bounds.
  pub emit_outputs_reaches :
      (r : GraphRunner D) (outputs : List (String × List String)) (vs : List (Event D))
      (node_id endpoint : String) (p : Packet D) (id : ℕ) (o : ObserverRuntime D)
      → find id (after r outputs vs).table.runtimes ≡ some o
      → let e = after r outputs vs in
        find id (emit_outputs e node_id endpoint p).table.runtimes
        ≡ some (
            hear_times p
              (if is_among id e.table.observer_handles
                then occurrences o.stream (streams_of (find endpoint e.graph_outputs))
                else 0)
              o)
  unfolding emit_outputs
  emit_outputs_reaches r outputs vs node_id endpoint p id o f =
      let e = after r outputs vs in
      let ss = streams_of (find endpoint e.graph_outputs) in
      let held = react_all-IsTable _ vs (no_observers-IsTable D) in
      rw (sym (count-callbacks e.table ss id o held f)) (
        show_each_reaches p (record e { runner = end_source p node_id e.runner })
          (callbacks e.table.observers ss) id o f)
