-- ===== src/Streaming/ClockMapping/Unwrapping.antt =====
-- The 32-bit counter of RTP, unwrapped by the mapper over a stream of timestamps.
use rk_avp.Prelude.{
  ℕ, ◌+◌, ◌*◌, ◌/◌, ◌%◌, ◌≤◌, ◌<◌, ◌≡◌, refl, ap, ◌∙◌, true, List, [], ◌∷◌, pos, ◌==◌, if_lem,
  arith,
}
use native.Mathlib.Nat.{div-le_self}
use rk_avp.Status.{Result, pass}
use rk_avp.Timestamp.{Timestamp, from_microseconds}
use rk_avp.Streaming.ClockMapping.{
  RtpTimestampMapper, make_mapper, wrap_64, to_int64, follow_counter, ticks_since, map_rtp,
}

abbrev pub counter : ℕ → ℕ
counter t = t % 4294967296

-- What the mapper makes of a source whose clock stands at `t` and then runs on by each of the steps.
unfoldable pub map_all : RtpTimestampMapper → ℕ → List ℕ → List (Result Timestamp)
map_all m t [] = []
map_all m t (d ∷ ds) = let (m', r) = map_rtp m (counter (t + d)) in r ∷ map_all m' (t + d) ds

-- The time in microseconds that has passed since the start after each of the steps.
unfoldable pub passed_all : ℕ → ℕ → List ℕ → List (Result Timestamp)
passed_all rate e [] = []
passed_all rate e (d ∷ ds) =
    pass (from_microseconds (pos ((e + d) * 1000000 / rate))) ∷ passed_all rate (e + d) ds

-- Each step is at most half of the range of the counter, and a million times the ticks in all fit
-- an int64.
abbrev pub AreSteps : ℕ → List ℕ → Type 0
AreSteps e [] = Unit {0}
AreSteps e (d ∷ ds) =
    (d ≤ 2147483648) × ((e + d) * 1000000 < 9223372036854775808) × AreSteps (e + d) ds

abbrev Tracks : RtpTimestampMapper → ℕ → ℕ → ℕ → ℕ → Type 0
Tracks m rate base t e =
    (m.clock_rate ≡ rate)
    × (m.initialized ≡ true)
    × (m.origin ≡ base)
    × (t ≡ base + e)
    × (m.last ≡ counter t)
    × (m.cycles + m.last ≡ t)

follow_counter-Tracks :
    (m : RtpTimestampMapper) (rate base t e d : ℕ)
    → base < 4294967296
    → d ≤ 2147483648
    → (e + d) * 1000000 < 9223372036854775808
    → Tracks m rate base t e
    → Tracks (follow_counter m (counter (t + d))) rate base (t + d) (e + d)
unfolding follow_counter
follow_counter-Tracks m rate base t e d h1 h2 h3 (a, b, c, x, f, g) = ground arith

ticks_since_lem :
    (m : RtpTimestampMapper) (rate base t e : ℕ)
    → base < 4294967296
    → e * 1000000 < 9223372036854775808
    → Tracks m rate base t e
    → ticks_since m (counter t) ≡ e
unfolding ticks_since
ticks_since_lem m rate base t e h1 h2 (a, b, c, x, f, g) = ground arith

wrap_64_lem : (n : ℕ) → n < 9223372036854775808 → wrap_64 n ≡ n
wrap_64_lem n h = omega arith

to_int64_lem : (n : ℕ) → n < 9223372036854775808 → to_int64 n ≡ pos n
to_int64_lem n h = ground arith

micros_lem : (n rate : ℕ) → n < 9223372036854775808 → to_int64 (wrap_64 n / rate) ≡ pos (n / rate)
micros_lem n rate h =
    let b = div-le_self n rate in
    ap (λ k. to_int64 (k / rate)) (wrap_64_lem n h) ∙ to_int64_lem (n / rate) (omega arith)

map_rtp_lem :
    (m : RtpTimestampMapper) (rate base t e d : ℕ)
    → 0 < rate
    → base < 4294967296
    → d ≤ 2147483648
    → (e + d) * 1000000 < 9223372036854775808
    → Tracks m rate base t e
    → map_rtp m (counter (t + d)) ≡ (
      follow_counter m (counter (t + d)),
      pass (from_microseconds (pos ((e + d) * 1000000 / rate))),
    )
unfolding map_rtp
map_rtp_lem m rate base t e d h0 h1 h2 h3 tr =
    let tr' = follow_counter-Tracks m rate base t e d h1 h2 h3 tr in
    let e' =
      ticks_since_lem (follow_counter m (counter (t + d))) rate base (t + d) (e + d) h1 h3 tr' in
    if_lem (λ r. r ≡ expected) (m.clock_rate == 0) (λ z. absurd (ground arith))
      (λ z.
        ap (λ v. (m', pass (from_microseconds v)))
          (ap2_micros e' (tr'.0) ∙ micros_lem ((e + d) * 1000000) rate h3))
  where
    c : ℕ
    c = counter (t + d)

    m' : RtpTimestampMapper
    m' = follow_counter m c

    expected : RtpTimestampMapper × Result Timestamp
    expected = (m', pass (from_microseconds (pos ((e + d) * 1000000 / rate))))

    ap2_micros :
        ticks_since m' c ≡ e + d
        → m'.clock_rate ≡ rate
        → to_int64 (wrap_64 (ticks_since m' c * 1000000) / m'.clock_rate)
          ≡ to_int64 (wrap_64 ((e + d) * 1000000) / rate)
    ap2_micros x y = cc

map_all-Tracks :
    (m : RtpTimestampMapper) (rate base t e : ℕ) (ds : List ℕ)
    → 0 < rate
    → base < 4294967296
    → AreSteps e ds
    → Tracks m rate base t e
    → map_all m t ds ≡ passed_all rate e ds
unfolding map_all passed_all
map_all-Tracks m rate base t e [] h0 h1 h tr = refl
map_all-Tracks m rate base t e (d ∷ ds) h0 h1 (h2, h3, h) tr =
    let tr' = follow_counter-Tracks m rate base t e d h1 h2 h3 tr in
    let later =
      map_all-Tracks (follow_counter m (counter (t + d))) rate base (t + d) (e + d) ds h0 h1 h
        tr' in
    let here = map_rtp_lem m rate base t e d h0 h1 h2 h3 tr in
    ap (λ r. r.1 ∷ map_all r.0 (t + d) ds) here
    ∙ ap (λ l. pass (from_microseconds (pos ((e + d) * 1000000 / rate))) ∷ l) later

-- A new mapper with a positive rate that is first shown a 32-bit counter, and then the counter
-- after steps that are each at most half of its range, maps each to the time that has passed since
-- the first, over the wraps of the counter, as long as a million times the ticks in all stay below
-- 2^63.
pub map_all_unwraps :
    (rate base : ℕ) (ds : List ℕ)
    → 0 < rate
    → base < 4294967296
    → AreSteps 0 ds
    → map_all (map_rtp (make_mapper rate) base).0 base ds ≡ passed_all rate 0 ds
unfolding make_mapper map_rtp follow_counter
map_all_unwraps rate base ds h0 h1 h =
    if_lem {A = RtpTimestampMapper × Result Timestamp}
      (λ r. map_all (r.0) base ds ≡ passed_all rate 0 ds) (rate == 0) (λ z. absurd (ground arith))
      (λ z.
        map_all-Tracks (follow_counter (make_mapper rate) base) rate base base 0 ds h0 h1 h
          (refl, refl, refl, omega arith, omega arith, omega arith))

-- When the counter has wrapped, a packet from before the wrap that arrives late makes the mapper
-- count the wrap again: the same counter value is 2^32 ticks later after it than before it. The
-- start and the late packet are before the wrap, and the counter is at most half of its range
-- further.
pub late_packet_shifts :
    (rate base d late : ℕ)
    → base + late < 4294967296
    → 4294967296 ≤ base + d
    → d ≤ 2147483648
    → let m = follow_counter (follow_counter (make_mapper rate) base) (counter (base + d)) in
      let m' = follow_counter (follow_counter m (base + late)) (counter (base + d)) in
      (ticks_since m (counter (base + d)) ≡ d)
      × (ticks_since m' (counter (base + d)) ≡ d + 4294967296)
unfolding make_mapper follow_counter ticks_since
late_packet_shifts rate base d late h1 h2 h3 = (ground arith, ground arith)
