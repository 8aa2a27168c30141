-- ===== src/Runner/Sources/Draining.antt =====
-- The packets of a source that are in flight, and the removal of the source that waits for them.
use rk_avp.Prelude.{
  ℕ, zero, suc, ◌+◌, ◌-◌, ◌≡◌, refl, ◌∙◌, Bool, true, false, List, [], ◌∷◌, ◌++◌, Option, none,
  some, String, ℤ, get_elem?, set, if◌then◌else◌, if_lem, ◌==◌, string_keys, arith,
}
use rk_avp.Prelude.Maps.{find, contains}
use rk_avp.Status.{Status, is_ok}
use rk_avp.ConfigValue.{ConfigValue}
use rk_avp.Packet.{ControlEvent, is_end_of_stream, is_timestamp_bound}
use rk_avp.Graph.{SourceSlotConfig}
use rk_avp.Runner.Sources.{
  SourceTable, SourceRuntime, DrainState, Received, new_drain, enter_source, enter_at, release_at,
  finish_adding, receive, receive_at, enter_drain, release_token, swap_sources, reset_sources, eos,
  connecting, reconnecting, put_source, with_state, increase,
}
use rk_avp.Runner.Restarts.{
  refuse_at, begin_removing, begin_removing_at, finish_removing, begin_restarting,
  finish_restarting, finish_restarting_at, in_flight_of, drained,
}
use rk_avp.Runner.Sources.Steps.{
  Step, step, enters, fails, receives, enters_drain, releases, begins_removing, removes,
  begins_restarting, restarts, swaps, resets,
}

-- The sources with the tokens that live, each the place of its drain state.
pub record Flight : Type 0 where
  pub table : SourceTable
  pub tokens : List ℕ

abbrev pub count_tokens : ℕ → List ℕ → ℕ
count_tokens d [] = 0
count_tokens d (t ∷ ts) = (if t == d then 1 else 0) + count_tokens d ts

abbrev pub remove_token : ℕ → List ℕ → List ℕ
remove_token d [] = []
remove_token d (t ∷ ts) = if t == d then ts else t ∷ remove_token d ts

pub count_tokens-remove :
    (d e : ℕ) (ts : List ℕ)
    → count_tokens e (remove_token d ts)
      ≡ (if d == e then count_tokens e ts - 1 else count_tokens e ts)
count_tokens-remove d e [] = ground arith
count_tokens-remove d e (t ∷ ts) = ground (arith, count_tokens-remove d e ts)

-- A packet that enters gets a token; a token that dies was there.
unfoldable pub fly : Flight → Step → Flight
fly f (enters_drain d id) =
    let (t, status) = enter_drain f.table d id in
    if is_ok status then record { table = t; tokens = d ∷ f.tokens } else f
fly f (releases d) =
    if count_tokens d f.tokens == 0
    then f
    else record { table = release_token f.table d; tokens = remove_token d f.tokens }
fly f a = record f { table = step f.table a }

unfoldable pub fly_all : Flight → List Step → Flight
fly_all f [] = f
fly_all f (a ∷ later) = fly_all (fly f a) later

-- Each drain state counts the tokens that live.
abbrev pub IsHeld : Flight → Type 0
IsHeld f = (d : ℕ) → in_flight_of (get_elem? f.table.drains d) ≡ count_tokens d f.tokens

pub get-set :
    (ds : List DrainState) (d e : ℕ) (s s' : DrainState)
    → get_elem? ds d ≡ some s
    → get_elem? (set ds d s') e ≡ (if d == e then some s' else get_elem? ds e)
get-set [] d e s s' h = absurd (cc)
get-set (x ∷ ds) zero zero s s' h = refl
get-set (x ∷ ds) zero (suc e) s s' h = ground arith
get-set (x ∷ ds) (suc d) zero s s' h = ground arith
get-set (x ∷ ds) (suc d) (suc e) s s' h = ground (arith, get-set ds d e s s' h)

get-append :
    (ds : List DrainState) (d : ℕ)
    → in_flight_of (get_elem? (ds ++ new_drain ∷ []) d) ≡ in_flight_of (get_elem? ds d)
get-append [] zero = refl
get-append [] (suc d) = refl
get-append (x ∷ ds) zero = refl
get-append (x ∷ ds) (suc d) = get-append ds d

-- Two tables whose drain states have the same packets in flight.
abbrev SameFlight : SourceTable → SourceTable → Type 0
SameFlight t u = (d : ℕ) → in_flight_of (get_elem? u.drains d) ≡ in_flight_of (get_elem? t.drains d)

refuse-SameFlight :
    (t : SourceTable) (d : ℕ) (o : Option DrainState) (b : Bool)
    → get_elem? t.drains d ≡ o
    → SameFlight t (refuse_at t d o b)
refuse-SameFlight t d none b h e = refl
refuse-SameFlight t d (some s) b h e =
    ground (arith, h, get-set t.drains d e s (record s { accepting = b }) h)

enter-SameFlight :
    (t : SourceTable) (slot : String) (config : SourceSlotConfig) (id : String)
    (options : ConfigValue) (sub : Bool)
    → SameFlight t (enter_source t slot config id options sub).0
unfolding enter_source
enter-SameFlight t slot config id options sub d =
    if_lem {A = SourceTable × Status}
      (λ r. in_flight_of (get_elem? r.0.drains d) ≡ in_flight_of (get_elem? t.drains d))
      (contains id t.sources) (λ k. refl) (λ k. get-append t.drains d)

receive-SameFlight :
    (t : SourceTable) (id : String) (o : Option SourceRuntime) (event : ControlEvent) (now : ℤ)
    → SameFlight t (receive_at t id o event now).0
receive-SameFlight t id none event now d = refl
receive-SameFlight t id (some s) event now d =
    if_lem {A = SourceTable × Received}
      (λ r. in_flight_of (get_elem? r.0.drains d) ≡ in_flight_of (get_elem? t.drains d))
      (is_end_of_stream event) (λ k. refl)
      (λ k.
        if_lem {A = SourceTable × Received}
          (λ r. in_flight_of (get_elem? r.0.drains d) ≡ in_flight_of (get_elem? t.drains d))
          (is_timestamp_bound event) (λ k. refl) (λ k. refl))

removing-SameFlight :
    (t : SourceTable) (id : String) (o : Option SourceRuntime)
    → SameFlight t (begin_removing_at t id o).0
removing-SameFlight t id none d = refl
removing-SameFlight t id (some s) d =
    refuse-SameFlight (put_source id (with_state eos s) t) s.drain (get_elem? t.drains s.drain)
      false refl d

restarted-SameFlight :
    (t : SourceTable) (id : String) (o : Option SourceRuntime) (sub : Bool) (e : ℕ)
    (started : Status)
    → SameFlight t (finish_restarting_at t id o sub e started).0
restarted-SameFlight t id none sub e started d = refl
restarted-SameFlight t id (some s) sub e started d =
    if_lem {A = SourceTable × Status}
      (λ r. in_flight_of (get_elem? r.0.drains d) ≡ in_flight_of (get_elem? t.drains d))
      (is_ok started)
      (λ k.
        refuse-SameFlight
          (put_source id
            (with_state (if sub then connecting else reconnecting) (record s { active = true }))
            (record t {
              active_sources = if s.active then t.active_sources else increase t.active_sources;
            }))
          e (get_elem? t.drains e) true refl d)
      (λ k. refl)

finished-SameFlight :
    (t : SourceTable) (id : String) (completed : Bool) (message : String)
    → SameFlight t (finish_removing t id completed message).0
unfolding finish_removing
finished-SameFlight t id completed message d = ground arith

begun-SameFlight : (t : SourceTable) (id : String) → SameFlight t (begin_restarting t id).0
unfolding begin_restarting
begun-SameFlight t id d = ground arith

failed-SameFlight :
    (t : SourceTable) (id : String) (status : Status) → SameFlight t (finish_adding t id status).0
unfolding finish_adding
failed-SameFlight t id status d = ground arith

enters_drain-IsHeld :
    (f : Flight) (d : ℕ) (id : String) (o : Option DrainState)
    → get_elem? f.table.drains d ≡ o
    → IsHeld f
    → let (t, status) = enter_at f.table d o id in
      IsHeld (if is_ok status then record { table = t; tokens = d ∷ f.tokens } else f)
enters_drain-IsHeld f d id none g h e = h e
enters_drain-IsHeld f d id (some s) g h e =
    ground (
      arith,
      h e,
      h d,
      g,
      get-set f.table.drains d e s (record s { in_flight = suc s.in_flight }) g,
    )

releases-IsHeld :
    (f : Flight) (d : ℕ) (o : Option DrainState)
    → get_elem? f.table.drains d ≡ o
    → IsHeld f
    → IsHeld (record { table = release_at f.table d o; tokens = remove_token d f.tokens })
releases-IsHeld f d none g h e = ground (arith, h e, h d, g, count_tokens-remove d e f.tokens)
releases-IsHeld f d (some s) g h e = ground (
  arith,
  h e,
  h d,
  g,
  count_tokens-remove d e f.tokens,
  get-set f.table.drains d e s (record s { in_flight = s.in_flight - 1 }) g,
)

pub fly-IsHeld : (f : Flight) (a : Step) → IsHeld f → IsHeld (fly f a)
unfolding fly step enter_drain release_token receive begin_removing finish_restarting swap_sources
    reset_sources
fly-IsHeld f (enters slot config id options sub) h d =
    enter-SameFlight f.table slot config id options sub d ∙ h d
fly-IsHeld f (fails id status) h d = failed-SameFlight f.table id status d ∙ h d
fly-IsHeld f (receives id event now) h d =
    receive-SameFlight f.table id (find id f.table.sources) event now d ∙ h d
fly-IsHeld f (enters_drain e id) h d =
    enters_drain-IsHeld f e id (get_elem? f.table.drains e) refl h d
fly-IsHeld f (releases e) h d =
    if_lem {A = Flight} (λ g. in_flight_of (get_elem? g.table.drains d) ≡ count_tokens d g.tokens)
      (count_tokens e f.tokens == 0) (λ k. h d)
      (λ k. releases-IsHeld f e (get_elem? f.table.drains e) refl h d)
fly-IsHeld f (begins_removing id) h d =
    removing-SameFlight f.table id (find id f.table.sources) d ∙ h d
fly-IsHeld f (removes id completed message) h d =
    finished-SameFlight f.table id completed message d ∙ h d
fly-IsHeld f (begins_restarting id) h d = begun-SameFlight f.table id d ∙ h d
fly-IsHeld f (restarts id sub e started) h d =
    restarted-SameFlight f.table id (find id f.table.sources) sub e started d ∙ h d
fly-IsHeld f swaps h d = h d
fly-IsHeld f resets h d = h d

pub fly_all-IsHeld :
    (f : Flight) (steps : List Step)
    → IsHeld f
    → IsHeld (fly_all f steps)
      × ((d : ℕ)
          → drained (fly_all f steps).table d false ≡ some true
          → count_tokens d (fly_all f steps).tokens ≡ 0)
unfolding fly_all drained
fly_all-IsHeld f [] h = (h, λ d k. ground (arith, h d))
fly_all-IsHeld f (a ∷ later) h = fly_all-IsHeld (fly f a) later (fly-IsHeld f a h)
