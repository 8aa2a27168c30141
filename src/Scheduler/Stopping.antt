-- ===== src/Scheduler/Stopping.antt =====
-- `Stop` against the workers at their wait, in src/core/scheduler.cpp. `Stop` sets `running_` and
-- notifies without the lock, and takes the lock between only to discard the tasks; a worker tests
-- and falls asleep under the lock. A move that is not possible leaves the state as it is.
use rk_avp.Prelude.{
  ℕ, suc, ◌+◌, ◌-◌, ◌<◌, ◌≡◌, Bool, true, false, ◌&&◌, ◌||◌, not, List, [], ◌∷◌, some,
  if◌then◌else◌, ltb, ℤ, All, arith,
}
use rk_avp.Status.{is_ok}
use rk_avp.Scheduler.{Scheduler, Turn, sleeps, exits, post_impl, post_task, turn}

-- How far the call of `Stop` that found the scheduler running has come.
pub data Phase : Type 0 where
  not_yet cleared emptied notified : Phase

pub record Threads {ℓ} (T : Type ℓ) : Type ℓ where
  pub scheduler : Scheduler T
  pub looping : ℕ  -- workers before the lock
  pub deciding : Bool  -- a worker has the lock and has found nothing to do
  pub asleep : ℕ
  pub phase : Phase

pub data Move {ℓ} (T : Type ℓ) : Type ℓ where
  looks falls_asleep empties notifies : Move T
  posts : T → ℤ → Bool → Move T
  stops : Bool → Move T

module _ {ℓ} {T : Type ℓ} where
  abbrev looked : Threads T → Scheduler T × Turn T → Threads T
  looked w (s, sleeps) = record w { scheduler = s; looping = w.looping - 1; deciding = true }
  looked w (s, exits) = record w { scheduler = s; looping = w.looping - 1 }
  looked w (s, _) = record w { scheduler = s }

  -- `notify_one` after a post.
  abbrev wake_one : Threads T → Threads T
  wake_one w =
      if ltb 0 w.asleep then record w { asleep = w.asleep - 1; looping = suc w.looping } else w

  abbrev wake_all : Threads T → Threads T
  wake_all w = record w { asleep = 0; looping = w.looping + w.asleep; phase = notified }

  abbrev notify_at : Phase → Threads T → Threads T
  notify_at cleared w = if w.scheduler.drain then wake_all w else w
  notify_at emptied w = wake_all w
  notify_at _ w = w

  abbrev empty_at : Phase → Threads T → Threads T
  empty_at cleared w =
      if w.scheduler.drain || w.deciding
      then w
      else record w { scheduler = record w.scheduler { tasks = [] }; phase = emptied }
  empty_at _ w = w

  abbrev stop_at : Phase → Threads T → Bool → Threads T
  stop_at not_yet w drain =
      if w.scheduler.running
      then record w {
        scheduler = record w.scheduler { running = false; drain = drain };
        phase = cleared;
      }
      else w
  stop_at _ w drain = w

  unfoldable pub move : Threads T → Move T → Threads T
  move w looks = if ltb 0 w.looping && not w.deciding then looked w (turn w.scheduler) else w
  move w falls_asleep =
      if w.deciding then record w { deciding = false; asleep = suc w.asleep } else w
  move w (posts t now enforce) =
      let (s, status) = post_impl w.scheduler (some t) now enforce in
      if w.deciding then w else if is_ok status then wake_one (record w { scheduler = s }) else w
  move w (stops drain) = stop_at w.phase w drain
  move w empties = empty_at w.phase w
  move w notifies = notify_at w.phase w

  unfoldable pub moves_from : Threads T → List (Move T) → Threads T
  moves_from w [] = w
  moves_from w (m ∷ ms) = moves_from (move w m) ms

  -- What the call `Stop(false)` has achieved so far.
  abbrev Reached : Phase → Threads T → Type 0
  Reached not_yet w = Unit {0}
  Reached cleared w = (w.scheduler.running ≡ false) × (w.scheduler.drain ≡ false)
  Reached emptied w = (w.scheduler.running ≡ false) × (w.deciding ≡ false)
  Reached notified w = (w.scheduler.running ≡ false) × (w.deciding ≡ false) × (w.asleep ≡ 0)

  abbrev pub discards : Move T → Bool
  discards (stops drain) = not drain
  discards _ = true

  move-Reached :
      (w : Threads T) (m : Move T)
      → discards m ≡ true
      → Reached w.phase w
      → Reached (move w m).phase (move w m)
  unfolding move turn post_impl post_task
  move-Reached w looks d h = ground arith
  move-Reached w falls_asleep d h = ground arith
  move-Reached w (posts t now enforce) d h = ground arith
  move-Reached w (stops drain) d h = ground arith
  move-Reached w empties d h = ground arith
  move-Reached w notifies d h = ground arith

  moves-Reached :
      (w : Threads T) (ms : List (Move T))
      → All (λ m. discards m ≡ true) ms
      → Reached w.phase w
      → Reached (moves_from w ms).phase (moves_from w ms)
  unfolding moves_from
  moves-Reached w [] d h = h
  moves-Reached w (m ∷ ms) d h = moves-Reached (move w m) ms d.1 (move-Reached w m d.0 h)

  -- `Stop(false)` leaves no worker behind: whatever the interleaving, once it has notified, no
  -- worker is asleep or will fall asleep.
  stop_discarding_wakes :
      (w : Threads T) (ms : List (Move T))
      → w.phase ≡ not_yet
      → All (λ m. discards m ≡ true) ms
      → (moves_from w ms).phase ≡ notified
      → ((moves_from w ms).asleep ≡ 0) × ((moves_from w ms).deciding ≡ false)
  stop_discarding_wakes w ms p d e =
      let h = moves-Reached w ms d (rw p tt) in ground (arith, rw e at h)

  abbrev Forgotten : Threads T → Type 0
  Forgotten w = (w.scheduler.running ≡ false) × (w.phase ≡ notified) × (0 < w.asleep)
