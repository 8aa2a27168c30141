-- ===== src/Runner/Sources/Refusals.antt =====
-- The drain state of a source whose removal has begun, which lets no packet in.
use rk_avp.Prelude.{
  ℕ, zero, suc, ◌≤◌, ◌-◌, ◌≡◌, refl, Bool, true, false, ◌&&◌, List, [], ◌∷◌, ◌++◌, All, Option,
  none, some, String, ℤ, get_elem?, if◌then◌else◌, if_lem, ◌==◌, string_keys, arith,
}
use rk_avp.Prelude.Maps.{find, contains}
use rk_avp.Status.{Status, pass, is_ok}
use rk_avp.ConfigValue.{ConfigValue}
use rk_avp.Packet.{ControlEvent, is_end_of_stream, is_timestamp_bound}
use rk_avp.Graph.{SourceSlotConfig}
use rk_avp.Runner.Sources.{
  SourceTable, SourceRuntime, DrainState, Received, new_drain, enter_source, enter_at, release_at,
  finish_adding, receive, receive_at, enter_drain, release_token, swap_sources, reset_sources, eos,
  connecting, reconnecting, put_source, with_state, increase,
}
use rk_avp.Runner.Restarts.{
  refuse_at, begin_removing, begin_removing_at, finish_removing, begin_restarting,
  finish_restarting, finish_restarting_at, drained,
}
use rk_avp.Runner.Sources.Steps.{
  Step, step, enters, fails, receives, enters_drain, releases, begins_removing, removes,
  begins_restarting, restarts, swaps, resets,
}
use rk_avp.Runner.Sources.Draining.{
  Flight, count_tokens, remove_token, count_tokens-remove, fly, fly_all, get-set, IsHeld,
  fly-IsHeld, fly_all-IsHeld,
}

abbrev accepting_of : Option DrainState → Bool
accepting_of none = true
accepting_of (some s) = s.accepting

abbrev Refuses : ℕ → SourceTable → Type 0
Refuses d t = accepting_of (get_elem? t.drains d) ≡ false

-- A restart that comes to its end opens its drain state again. Restarts and removals of sources are
-- tasks of the control executor, which has one thread.
abbrev pub reopens : ℕ → Step → Bool
reopens d (restarts id sub e started) = e == d
reopens d _ = false

refuses_append :
    (ds : List DrainState) (d : ℕ)
    → accepting_of (get_elem? ds d) ≡ false
    → accepting_of (get_elem? (ds ++ new_drain ∷ []) d) ≡ false
refuses_append [] d h = absurd (cc)
refuses_append (x ∷ ds) zero h = h
refuses_append (x ∷ ds) (suc d) h = refuses_append ds d h

refuse_at-Refuses :
    (t : SourceTable) (e : ℕ) (o : Option DrainState) (b : Bool) (d : ℕ)
    → get_elem? t.drains e ≡ o
    → ((e == d) && b) ≡ false
    → Refuses d t
    → Refuses d (refuse_at t e o b)
refuse_at-Refuses t e none b d g c h = h
refuse_at-Refuses t e (some s) b d g c h =
    ground (arith, c, h, get-set t.drains e d s (record s { accepting = b }) g)

enter_source-Refuses :
    (t : SourceTable) (slot : String) (config : SourceSlotConfig) (id : String)
    (options : ConfigValue) (sub : Bool) (d : ℕ)
    → Refuses d t
    → Refuses d (enter_source t slot config id options sub).0
unfolding enter_source
enter_source-Refuses t slot config id options sub d h =
    if_lem {A = SourceTable × Status} (λ r. Refuses d (r.0)) (contains id t.sources) (λ k. h)
      (λ k. refuses_append t.drains d h)

receive-Refuses :
    (t : SourceTable) (id : String) (o : Option SourceRuntime) (event : ControlEvent) (now : ℤ)
    (d : ℕ)
    → Refuses d t
    → Refuses d (receive_at t id o event now).0
receive-Refuses t id none event now d h = h
receive-Refuses t id (some s) event now d h =
    if_lem {A = SourceTable × Received} (λ r. Refuses d (r.0)) (is_end_of_stream event) (λ k. h)
      (λ k.
        if_lem {A = SourceTable × Received} (λ r. Refuses d (r.0)) (is_timestamp_bound event)
          (λ k. h) (λ k. h))

removing-Refuses :
    (t : SourceTable) (id : String) (o : Option SourceRuntime) (d : ℕ)
    → Refuses d t
    → Refuses d (begin_removing_at t id o).0
removing-Refuses t id none d h = h
removing-Refuses t id (some s) d h =
    refuse_at-Refuses (put_source id (with_state eos s) t) s.drain (get_elem? t.drains s.drain)
      false d refl (ground arith) h

restarted-Refuses :
    (t : SourceTable) (id : String) (o : Option SourceRuntime) (sub : Bool) (e : ℕ)
    (started : Status) (d : ℕ)
    → (e == d) ≡ false
    → Refuses d t
    → Refuses d (finish_restarting_at t id o sub e started).0
restarted-Refuses t id none sub e started d c h = h
restarted-Refuses t id (some s) sub e started d c h =
    if_lem {A = SourceTable × Status} (λ r. Refuses d (r.0)) (is_ok started)
      (λ k.
        refuse_at-Refuses
          (put_source id
            (with_state (if sub then connecting else reconnecting) (record s { active = true }))
            (record t {
              active_sources = if s.active then t.active_sources else increase t.active_sources;
            }))
          e (get_elem? t.drains e) true d refl (ground (arith, c)) h)
      (λ k. h)

-- A drain state refuses, and no more of its packets are in flight than there were.
abbrev Closes : ℕ → Flight → Flight → Type 0
Closes d f g = Refuses d g.table × (count_tokens d g.tokens ≤ count_tokens d f.tokens)

enters_drain-Closes :
    (f : Flight) (e : ℕ) (id : String) (o : Option DrainState) (d : ℕ)
    → get_elem? f.table.drains e ≡ o
    → Refuses d f.table
    → let (t, status) = enter_at f.table e o id in
      Closes d f (if is_ok status then record { table = t; tokens = e ∷ f.tokens } else f)
enters_drain-Closes f e id none d g h = (h, omega arith)
enters_drain-Closes f e id (some s) d g h =
    ground (arith, h, g, get-set f.table.drains e d s (record s { in_flight = suc s.in_flight }) g)

releases-Closes :
    (f : Flight) (e : ℕ) (o : Option DrainState) (d : ℕ)
    → get_elem? f.table.drains e ≡ o
    → Refuses d f.table
    → Closes d f (record { table = release_at f.table e o; tokens = remove_token e f.tokens })
releases-Closes f e none d g h = ground (arith, h, count_tokens-remove e d f.tokens)
releases-Closes f e (some s) d g h = ground (
  arith,
  h,
  g,
  count_tokens-remove e d f.tokens,
  get-set f.table.drains e d s (record s { in_flight = s.in_flight - 1 }) g,
)

fly-Closes :
    (f : Flight) (a : Step) (d : ℕ) → reopens d a ≡ false → Refuses d f.table → Closes d f (fly f a)
unfolding fly step enter_drain release_token receive begin_removing begin_restarting finish_adding
    finish_removing finish_restarting swap_sources reset_sources
fly-Closes f (enters slot config id options sub) d c h =
    (enter_source-Refuses f.table slot config id options sub d h, omega arith)
fly-Closes f (fails id status) d c h = ground (arith, h)
fly-Closes f (receives id event now) d c h =
    (receive-Refuses f.table id (find id f.table.sources) event now d h, omega arith)
fly-Closes f (enters_drain e id) d c h =
    enters_drain-Closes f e id (get_elem? f.table.drains e) d refl h
fly-Closes f (releases e) d c h =
    if_lem {A = Flight} (Closes d f) (count_tokens e f.tokens == 0) (λ k. (h, omega arith))
      (λ k. releases-Closes f e (get_elem? f.table.drains e) d refl h)
fly-Closes f (begins_removing id) d c h =
    (removing-Refuses f.table id (find id f.table.sources) d h, omega arith)
fly-Closes f (removes id completed message) d c h = ground (arith, h)
fly-Closes f (begins_restarting id) d c h = ground (arith, h)
fly-Closes f (restarts id sub e started) d c h =
    (restarted-Refuses f.table id (find id f.table.sources) sub e started d c h, omega arith)
fly-Closes f swaps d c h = (h, omega arith)
fly-Closes f resets d c h = (h, omega arith)

fly_all-Closes :
    (f : Flight) (steps : List Step) (d : ℕ)
    → All (λ a. reopens d a ≡ false) steps
    → Refuses d f.table
    → Closes d f (fly_all f steps)
unfolding fly_all
fly_all-Closes f [] d c h = (h, omega arith)
fly_all-Closes f (a ∷ later) d c h =
    let (first, fewer) = fly-Closes f a d c.0 h in
    let (last, least) = fly_all-Closes (fly f a) later d c.1 first in
    (last, omega (arith, fewer, least))

refused_at :
    (t : SourceTable) (d e : ℕ) (s : DrainState)
    → get_elem? t.drains d ≡ some s
    → e ≡ d
    → Refuses d (refuse_at t e (get_elem? t.drains e) false)
refused_at t d e s g c =
    rw c (rw g (ground (arith, g, get-set t.drains d d s (record s { accepting = false }) g)))

begin_removing-Refuses :
    (t : SourceTable) (id : String) (o : Option SourceRuntime) (d : ℕ) (s : DrainState)
    → (begin_removing_at t id o).1 ≡ pass d
    → get_elem? t.drains d ≡ some s
    → Refuses d (begin_removing_at t id o).0
begin_removing-Refuses t id none d s p g = absurd (cc)
begin_removing-Refuses t id (some r) d s p g =
    refused_at (put_source id (with_state eos r) t) d r.drain s g (ground (arith, p))

-- When the removal of a source with a drain state has begun and its wait ends without a timeout,
-- none of the source's packets is in flight, and none is whatever steps follow, as long as no
-- restart of the source ends after the removal has begun.
pub removed_source_stays_drained :
    (f : Flight) (id : String) (d : ℕ) (s : DrainState) (before later : List Step)
    → IsHeld f
    → (begin_removing f.table id).1 ≡ pass d
    → get_elem? f.table.drains d ≡ some s
    → All (λ a. reopens d a ≡ false) before
    → All (λ a. reopens d a ≡ false) later
    → drained (fly_all (fly f (begins_removing id)) before).table d false ≡ some true
    → count_tokens d (fly_all (fly_all (fly f (begins_removing id)) before) later).tokens ≡ 0
unfolding fly step begin_removing
removed_source_stays_drained f id d s before later h removing g c c' k =
    let begun = fly f (begins_removing id) in
    let refuses = begin_removing-Refuses f.table id (find id f.table.sources) d s removing g in
    let (shut, fewer) = fly_all-Closes begun before d c refuses in
    let (last, least) = fly_all-Closes (fly_all begun before) later d c' shut in
    let empty = (fly_all-IsHeld begun before (fly-IsHeld f (begins_removing id) h)).1 d k in
    omega (arith, least, empty)
