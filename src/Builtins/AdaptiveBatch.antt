-- ===== src/Builtins/AdaptiveBatch.antt =====
-- `AdaptiveBatchNode` of src/core/builtin_nodes.cpp. The time is an argument, and so is what each call of
-- `Emit` returns. The timer thread calls `flush` as well. The rounds over the sources run on fuel,
-- and `none` means that it ran out.
pub mod Fairness
pub mod Flushing
pub mod Limits
use rk_avp.Prelude.{
  ℕ, zero, suc, ◌+◌, ◌-◌, Bool, true, false, ◌&&◌, ◌||◌, not, List, [], ◌∷◌, ◌++◌, filter, Option,
  none, some, String, length, ltb, leb, ◌==◌, if◌then◌else◌, is_empty, ℤ, pos, leb_ℤ, ◌-ℤ◌, ◌=?◌,
  string_keys,
}
use rk_avp.Prelude.Names.{member}
use rk_avp.Status.{Status, is_ok, Result, pass, fail, ◌>>=◌}
use rk_avp.ConfigValue.{ConfigValue, Object, find_option, get_bool_option, get_string_option}
use rk_avp.Builtins.{positive_option, size_option}
use rk_avp.Status
use rk_avp.Timestamp.{Timestamp}
use rk_avp.Timestamp
use rk_avp.Packet.{
  Packet, PacketBatch, BatchItem, make_packet_batch, get_text, is_no_event, is_end_of_stream,
}

pub record AdaptiveBatch (D : Type 0) : Type 0 where
  pub max_batch_size : ℕ
  pub max_per_source : ℕ
  pub timeout_us : ℕ
  pub allow_partial : Bool
  pub pending : List (BatchItem D)
  pub first_packet_time_us : ℤ
  pub source_limited : ℕ  -- the counter `batch.source_limited`
  pub emitted : ℕ  -- the counter `batch.emitted`

-- What goes out on the port `batch`.
pub data Emission (D : Type 0) : Type 0 where
  batch : Packet (PacketBatch D) → Emission D
  event : Packet D → Emission D

abbrev pub name_or_default : Option String → String
name_or_default none = "default"
name_or_default (some s) = s

abbrev partial_of : Bool → Option ConfigValue → Object → Result Bool
partial_of current none options = pass current
partial_of current (some v) options = get_bool_option options "allow_partial"

abbrev mode_named : String → Result Bool
mode_named mode =
    if mode =? "low_latency"
    then pass true
    else if mode =? "high_utilization"
    then pass false
    else fail (Status.invalid "batch mode must be low_latency or high_utilization")

-- The mode overrides `allow_partial`.
abbrev mode_of : Bool → Option ConfigValue → Object → Result Bool
mode_of current none options = pass current
mode_of current (some v) options = get_string_option options "mode" >>= mode_named

module _ {D : Type 0} where
  abbrev pub new_adaptive_batch : AdaptiveBatch D
  new_adaptive_batch = record {
    max_batch_size = 4;
    max_per_source = 1;
    timeout_us = 10000;
    allow_partial = true;
    pending = [];
    first_packet_time_us = pos 0;
    source_limited = 0;
    emitted = 0;
  }

  -- The node when it accepts its options; what a failed call leaves is not used.
  unfoldable pub configure : AdaptiveBatch D → Object → Result (AdaptiveBatch D)
  configure f options = do
    max_batch_size ←
        positive_option options "max_batch_size" f.max_batch_size "max_batch_size must be positive"
    timeout_us ← size_option options "timeout_us" f.timeout_us "timeout_us must be non-negative"
    max_per_source ←
        positive_option options "max_per_source" f.max_per_source "max_per_source must be positive"
    allow_partial ← partial_of f.allow_partial (find_option options "allow_partial") options
    by_mode ← mode_of allow_partial (find_option options "mode") options
    pass (record f {
      max_batch_size = max_batch_size;
      timeout_us = timeout_us;
      max_per_source = max_per_source;
      allow_partial = by_mode;
    })

  abbrev pub from : String → BatchItem D → Bool
  from s i = i.source_id =? s

  -- The names of the sources, in the order of their first items.
  unfoldable pub source_order : List (BatchItem D) → List String → List String
  source_order [] names = names
  source_order (i ∷ is) names =
      source_order is (if member i.source_id names then names else names ++ i.source_id ∷ [])

  abbrev pub put_back :
      BatchItem D
      → Option (BatchItem D × List (BatchItem D))
      → Option (BatchItem D × List (BatchItem D))
  put_back i none = none
  put_back i (some (j, left)) = some (j, i ∷ left)

  -- The first item of a source, and the others.
  unfoldable pub take_first :
      String → List (BatchItem D) → Option (BatchItem D × List (BatchItem D))
  take_first s [] = none
  take_first s (i ∷ is) =
      let later = take_first s is in if from s i then some (i, is) else put_back i later

  abbrev pub next_source :
      Option (BatchItem D × List (BatchItem D))
      → List (BatchItem D)
      → (List (BatchItem D) → List (BatchItem D) × List (BatchItem D))
      → List (BatchItem D) × List (BatchItem D)
  next_source none items later = later items
  next_source (some (i, left)) items later = let (taken, left') = later left in (i ∷ taken, left')

  -- One item of each source that has one: those taken, and those left.
  unfoldable pub round : List String → List (BatchItem D) → List (BatchItem D) × List (BatchItem D)
  round [] items = ([], items)
  round (s ∷ ss) items = next_source (take_first s items) items (round ss)

  abbrev pub then_taken :
      List (BatchItem D) → Option (List (BatchItem D)) → Option (List (BatchItem D))
  then_taken taken none = none
  then_taken taken (some later) = some (taken ++ later)

  unfoldable pub rounds : ℕ → List String → List (BatchItem D) → Option (List (BatchItem D))
  rounds fuel sources [] = some []
  rounds zero sources (i ∷ is) = none
  rounds (suc fuel) sources (i ∷ is) =
      then_taken (round sources (i ∷ is)).0 (rounds fuel sources (round sources (i ∷ is)).1)

  unfoldable pub number : ℕ → List (BatchItem D) → List (BatchItem D)
  number n [] = []
  number n (i ∷ is) = record i { batch_index = n } ∷ number (suc n) is

  abbrev pub front_time : List (BatchItem D) → Timestamp
  front_time [] = Timestamp.unset
  front_time (i ∷ is) = i.packet.timestamp

  -- `none` is out of fuel, and with fuel for each item it is not reached.
  unfoldable pub order_items : List (BatchItem D) → Option (List (BatchItem D))
  unfolding rounds source_order
  order_items items = rounds (length items) (source_order items []) items

  abbrev pub batch_of : Option (List (BatchItem D)) → List (Emission D)
  batch_of none = []
  batch_of (some items) = batch (make_packet_batch (number 0 items) (front_time items)) ∷ []

  -- What `Flush` emits, and what it returns when `Emit` returns `result`.
  unfoldable pub flush : AdaptiveBatch D → Status → AdaptiveBatch D × List (Emission D) × Status
  flush f result = if is_empty f.pending then (f, [], Status.ok) else (
    record f { pending = []; emitted = suc f.emitted },
    batch_of (order_items f.pending),
    result,
  )

  abbrev count_from : String → List (BatchItem D) → ℕ
  count_from s items = length (filter (from s) items)

  -- From the count of the source's items on.
  unfoldable pub enqueue :
      AdaptiveBatch D → Packet D → ℤ → Status → AdaptiveBatch D × List (Emission D) × Status
  enqueue f p now result =
      let source_id = name_or_default (get_text "source_id" p.metadata) in
      let items =
        f.pending
        ++ record { source_id = source_id; packet = p; batch_index = length f.pending } ∷ [] in
      let f' = record f {
        pending = items;
        first_packet_time_us = if length items == 1 then now else f.first_packet_time_us;
      } in
      if leb f.max_per_source (count_from source_id f.pending)
      then (record f { source_limited = suc f.source_limited }, [], Status.ok)
      else if leb f.max_batch_size (length items)
      then flush f' result
      else (f', [], Status.ok)

  -- A second call after a first that succeeds.
  abbrev pub after_flush :
      AdaptiveBatch D × List (Emission D) × Status
      → (AdaptiveBatch D → AdaptiveBatch D × List (Emission D) × Status)
      → AdaptiveBatch D × List (Emission D) × Status
  after_flush (f, out, status) next =
      let (f', out', status') = next f in
      if is_ok status then (f', out ++ out', status') else (f, out, status)

  unfoldable pub on_packet :
      AdaptiveBatch D
      → Packet D
      → ℤ
      → Status
      → Status
      → AdaptiveBatch D × List (Emission D) × Status
  unfolding flush enqueue
  on_packet f p now first second =
      if is_end_of_stream p.event
      then after_flush (flush f first) (λ f'. (f', event p ∷ [], second))
      else if not (is_no_event p.event)
      then (f, event p ∷ [], first)
      else if not (is_empty f.pending)
          && ltb 0 f.timeout_us
          && leb_ℤ (pos f.timeout_us) (now -ℤ f.first_packet_time_us)
      then after_flush (flush f first) (λ f'. enqueue f' p now second)
      else enqueue f p now first

  -- The packets on the ports `flush` and `in`.
  unfoldable pub on_process :
      AdaptiveBatch D
      → Option (Packet D)
      → Option (Packet D)
      → ℤ
      → Status
      → Status
      → AdaptiveBatch D × List (Emission D) × Status
  unfolding on_packet
  on_process f (some signal) p now first second = flush f first
  on_process f none (some p) now first second = on_packet f p now first second
  on_process f none none now first second = (f, [], Status.invalid "AdaptiveBatch requires input")
