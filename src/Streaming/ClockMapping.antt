-- ===== src/Streaming/ClockMapping.antt =====
-- `RtpTimestampMapper` and `RtcpClockMapper` of src/core/streaming_primitives.cpp. The output
-- pointers are results; a null one is left out. The unsigned arithmetic wraps at 64 bits; the sums
-- of an int64 are meant not to overflow.
pub mod Unwrapping
use rk_avp.Prelude.{
  ℕ, ◌+◌, ◌-◌, ◌*◌, ◌/◌, ◌%◌, Bool, true, false, ◌&&◌, not, ℤ, pos, negsuc, ◌+ℤ◌, ◌-ℤ◌, ltb, ◌==◌,
  if◌then◌else◌,
}
use rk_avp.Status.{Status, Result, pass, fail}
use rk_avp.Status
use rk_avp.Timestamp.{Timestamp, from_microseconds}

pub record RtpTimestampMapper : Type 0 where
  pub clock_rate : ℕ
  pub initialized : Bool
  pub last : ℕ
  pub cycles : ℕ
  pub origin : ℕ

abbrev pub wrap_64 : ℕ → ℕ
wrap_64 n = n % 18446744073709551616

-- The cast of a 64-bit unsigned integer to an int64.
abbrev pub to_int64 : ℕ → ℤ
to_int64 n = if ltb n 9223372036854775808 then pos n else negsuc (18446744073709551615 - n)

unfoldable pub make_mapper : ℕ → RtpTimestampMapper
make_mapper clock_rate = record {
  clock_rate = clock_rate;
  initialized = false;
  last = 0;
  cycles = 0;
  origin = 0;
}

-- More than half of the range back is a wrap of the 32-bit counter.
abbrev pub is_wrap : ℕ → ℕ → Bool
is_wrap last rtp_timestamp = ltb rtp_timestamp last && ltb 2147483647 (last - rtp_timestamp)

unfoldable pub follow_counter : RtpTimestampMapper → ℕ → RtpTimestampMapper
follow_counter m rtp_timestamp =
    if not m.initialized
    then record m { initialized = true; last = rtp_timestamp; origin = rtp_timestamp }
    else record m {
      last = rtp_timestamp;
      cycles = if is_wrap m.last rtp_timestamp then wrap_64 (m.cycles + 4294967296) else m.cycles;
    }

unfoldable pub ticks_since : RtpTimestampMapper → ℕ → ℕ
ticks_since m rtp_timestamp =
    wrap_64 (wrap_64 (m.cycles + rtp_timestamp) + (18446744073709551616 - m.origin))

unfoldable pub map_rtp : RtpTimestampMapper → ℕ → RtpTimestampMapper × Result Timestamp
map_rtp m rtp_timestamp =
    if m.clock_rate == 0
    then (m, fail (Status.invalid "RTP clock rate must be positive"))
    else let m' = follow_counter m rtp_timestamp in
      let micros = wrap_64 (ticks_since m' rtp_timestamp * 1000000) / m'.clock_rate in
      (m', pass (from_microseconds (to_int64 micros)))

unfoldable pub reset_mapper : RtpTimestampMapper → RtpTimestampMapper
reset_mapper m = record m { initialized = false; last = 0; cycles = 0; origin = 0 }

pub record RtcpClockMapper : Type 0 where
  pub mapper : RtpTimestampMapper
  pub anchored : Bool
  pub ntp_anchor_us : ℤ
  pub drift_us : ℤ

unfoldable pub make_rtcp_mapper : ℕ → RtcpClockMapper
make_rtcp_mapper clock_rate = record {
  mapper = make_mapper clock_rate;
  anchored = false;
  ntp_anchor_us = pos 0;
  drift_us = pos 0;
}

-- `Update` from `mapper_.Reset()` on.
unfoldable pub set_anchor : RtcpClockMapper → ℕ → ℤ → RtcpClockMapper × Status
set_anchor c rtp_timestamp ntp_time_us =
    let (m, mapped) = map_rtp (reset_mapper c.mapper) rtp_timestamp in
    elim mapped [
      | fail status ↦ (record c { mapper = m }, status)
      | pass zero_time ↦
          (record c { mapper = m; ntp_anchor_us = ntp_time_us; anchored = true }, Status.ok)
    ]

unfoldable pub update_anchor : RtcpClockMapper → ℕ → ℤ → RtcpClockMapper × Status
update_anchor c rtp_timestamp ntp_time_us =
    if not c.anchored
    then set_anchor c rtp_timestamp ntp_time_us
    else let (m, mapped) = map_rtp c.mapper rtp_timestamp in
      elim mapped [
        | fail status ↦ (record c { mapper = m }, status)
        | pass relative ↦
            set_anchor
              (record c {
                mapper = m;
                drift_us = ntp_time_us -ℤ (c.ntp_anchor_us +ℤ relative.microseconds);
              })
              rtp_timestamp ntp_time_us
      ]

unfoldable pub map_rtcp : RtcpClockMapper → ℕ → RtcpClockMapper × Result Timestamp
map_rtcp c rtp_timestamp =
    if not c.anchored
    then (c, fail (Status.failed_precondition "RTCP clock mapper has no sender-report anchor"))
    else let (m, mapped) = map_rtp c.mapper rtp_timestamp in
      elim mapped [
        | fail status ↦ (record c { mapper = m }, fail status)
        | pass relative ↦ (
          record c { mapper = m },
          pass (from_microseconds (c.ntp_anchor_us +ℤ relative.microseconds)),
        )
      ]
