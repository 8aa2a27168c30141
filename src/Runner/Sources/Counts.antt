-- ===== src/Runner/Sources/Counts.antt =====
-- `active_sources_` against the sources that are active, over each operation on the sources.
use rk_avp.Prelude.{
  ℕ, suc, ◌+◌, ◌-◌, ◌%◌, ◌≡◌, refl, Bool, true, false, List, [], ◌∷◌, Option, none, some, String, ℤ,
  get_elem?, if◌then◌else◌, if_lem, length, string_keys, arith,
}
use rk_avp.Prelude.Maps.{find, assign, contains, is_some}
use rk_avp.Status.{Status, is_ok}
use rk_avp.Packet.{ControlEvent, is_end_of_stream, is_timestamp_bound}
use rk_avp.ConfigValue.{ConfigValue}
use rk_avp.Graph.{SourceSlotConfig}
use rk_avp.Runner.Sources.{
  SourceTable, SourceRuntime, DrainState, increase, erase_source, put_source, ended_source,
  enter_source, finish_adding, receive_at, connecting, reconnecting, failed, stalled, streaming,
  Received, new_health, eos, with_state,
}
use rk_avp.Runner.Restarts.{
  begin_removing_at, erased_at, stalled_at, begin_restarting_at, finish_restarting_at, refuse_at,
}

abbrev pub on : Bool → ℕ
on b = if b then 1 else 0

abbrev pub count_active : List (String × SourceRuntime) → ℕ
count_active [] = 0
count_active ((id, s) ∷ m) = on s.active + count_active m

abbrev pub active_of : Option SourceRuntime → ℕ
active_of none = 0
active_of (some s) = on s.active

pub count_active-assign :
    (id : String) (s : SourceRuntime) (m : List (String × SourceRuntime))
    → count_active (assign id s m) + active_of (find id m) ≡ count_active m + on s.active
unfolding assign find
count_active-assign id s [] = omega arith
count_active-assign id s ((j, v) ∷ m) = ground (arith, count_active-assign id s m)

pub count_active-erase :
    (id : String) (m : List (String × SourceRuntime))
    → count_active (erase_source id m) + active_of (find id m) ≡ count_active m
unfolding erase_source find
count_active-erase id [] = omega arith
count_active-erase id ((j, v) ∷ m) = ground (arith, count_active-erase id m)

abbrev pub IsCounted : SourceTable → Type 0
IsCounted t = t.active_sources ≡ count_active t.sources % 18446744073709551616

-- Replacing a source that is there.
put-IsCounted :
    (t : SourceTable) (id : String) (s s' : SourceRuntime) (n : ℕ)
    → find id t.sources ≡ some s
    → n
      ≡ (count_active t.sources + on s'.active + 18446744073709551616 - on s.active)
        % 18446744073709551616
    → IsCounted (put_source id s' (record t { active_sources = n }))
put-IsCounted t id s s' n f e = ground (arith, count_active-assign id s' t.sources, f)

-- A source that stays as active as it was.
kept-IsCounted :
    (t : SourceTable) (id : String) (s s' : SourceRuntime)
    → find id t.sources ≡ some s
    → s'.active ≡ s.active
    → IsCounted t
    → IsCounted (put_source id s' t)
kept-IsCounted t id s s' f e h = ground (arith, count_active-assign id s' t.sources, f)

accepting-IsCounted :
    (t : SourceTable) (drain : ℕ) (o : Option DrainState) (b : Bool)
    → IsCounted t
    → IsCounted (refuse_at t drain o b)
accepting-IsCounted t drain none b h = h
accepting-IsCounted t drain (some d) b h = h

pub enters-IsCounted :
    (t : SourceTable) (slot : String) (config : SourceSlotConfig) (id : String)
    (options : ConfigValue) (sub : Bool)
    → IsCounted t
    → IsCounted (enter_source t slot config id options sub).0
unfolding enter_source contains
enters-IsCounted t slot config id options sub h =
    if_lem {A = SourceTable × Status} (λ r. IsCounted (r.0)) (is_some (find id t.sources)) (λ b. h)
      (λ b. ground (
        arith,
        count_active-assign id
            (record {
              slot = slot;
              input_stream = config.input_stream;
              source_id = id;
              options = options;
              health = record new_health { state = connecting };
              has_subgraph = sub;
              drain = length t.drains;
              active = true;
            })
            t.sources,
      ))

pub fails-IsCounted :
    (t : SourceTable) (id : String) (status : Status)
    → active_of (find id t.sources) ≡ 1
    → IsCounted t
    → IsCounted (finish_adding t id status).0
unfolding finish_adding
fails-IsCounted t id status f h = ground (arith, count_active-erase id t.sources)

pub receives-IsCounted :
    (t : SourceTable) (id : String) (o : Option SourceRuntime) (event : ControlEvent) (now : ℤ)
    → find id t.sources ≡ o
    → IsCounted t
    → IsCounted (receive_at t id o event now).0
receives-IsCounted t id none event now f h = h
receives-IsCounted t id (some s) event now f h =
    if_lem {A = SourceTable × Received} (λ r. IsCounted (r.0)) (is_end_of_stream event)
      (λ k.
        put-IsCounted t id s (with_state eos (record s { active = false }))
          (ended_source s t).active_sources f (ground arith))
      (λ k.
        if_lem {A = SourceTable × Received} (λ r. IsCounted (r.0)) (is_timestamp_bound event)
          (λ k. h)
          (λ k.
            kept-IsCounted t id s
              (record s {
                health = record s.health { state = streaming; last_packet_time_us = now };
              })
              f refl h))

pub removing-IsCounted :
    (t : SourceTable) (id : String) (o : Option SourceRuntime)
    → find id t.sources ≡ o
    → IsCounted t
    → IsCounted (begin_removing_at t id o).0
removing-IsCounted t id none f h = h
removing-IsCounted t id (some s) f h =
    accepting-IsCounted (put_source id (with_state eos s) t) s.drain (get_elem? t.drains s.drain)
      false (kept-IsCounted t id s (with_state eos s) f refl h)

pub erased-IsCounted :
    (t : SourceTable) (id : String) (o : Option SourceRuntime)
    → find id t.sources ≡ o
    → IsCounted t
    → IsCounted (erased_at t id o)
erased-IsCounted t id none f h = h
erased-IsCounted t id (some s) f h = ground (arith, count_active-erase id t.sources)

pub stalled-IsCounted :
    (t : SourceTable) (id : String) (o : Option SourceRuntime) (message : String)
    → find id t.sources ≡ o
    → IsCounted t
    → IsCounted (stalled_at t id o message)
stalled-IsCounted t id none message f h = h
stalled-IsCounted t id (some s) message f h =
    kept-IsCounted t id s
      (record s { health = record s.health { state = stalled; message = message } }) f refl h

pub restarting-IsCounted :
    (t : SourceTable) (id : String) (o : Option SourceRuntime)
    → find id t.sources ≡ o
    → IsCounted t
    → IsCounted (begin_restarting_at t id o).0
restarting-IsCounted t id none f h = h
restarting-IsCounted t id (some s) f h =
    kept-IsCounted t id s
      (record s {
        health = record s.health {
          state = reconnecting;
          reconnect_count = suc s.health.reconnect_count;
        };
      })
      f refl h

abbrev again : Bool → SourceRuntime → SourceRuntime
again sub s = with_state (if sub then connecting else reconnecting) (record s { active = true })

abbrev counted : SourceRuntime → SourceTable → ℕ
counted s t = if s.active then t.active_sources else increase t.active_sources

pub restarted-IsCounted :
    (t : SourceTable) (id : String) (o : Option SourceRuntime) (sub : Bool) (drain : ℕ)
    (started : Status)
    → find id t.sources ≡ o
    → IsCounted t
    → IsCounted (finish_restarting_at t id o sub drain started).0
restarted-IsCounted t id none sub drain started f h = h
restarted-IsCounted t id (some s) sub drain started f h =
    if_lem {A = SourceTable × Status} (λ r. IsCounted (r.0)) (is_ok started)
      (λ k.
        accepting-IsCounted
          (put_source id (again sub s) (record t { active_sources = counted s t })) drain
          (get_elem? t.drains drain) true
          (put-IsCounted t id s (again sub s) (counted s t) f (ground arith)))
      (λ k.
        kept-IsCounted t id s
          (record s { health = record s.health { state = failed; message = started.message } }) f
          refl h)
