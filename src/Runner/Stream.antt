-- ===== src/Runner/Stream.antt =====
-- `GraphRunner::ValidateStreamPacket`, and the part of `AddPacket` and of `EnqueueEdge` that keeps
-- a stream's timestamps. The stream's last timestamp is an in-out argument.
use rk_avp.Prelude.{
  ◌≡◌, ◌↔◌, refl, Bool, true, false, ◌&&◌, not, List, [], ◌∷◌, ◌++◌, String, if◌then◌else◌, arith,
  ◌⊎◌, All,
}
use rk_avp.Status.{Status, is_ok, ◌+s◌}
use rk_avp.Status
use rk_avp.Timestamp.{Timestamp, is_range_value, is_unset, lt, ◌≤ₜ◌, IsInt64}
use rk_avp.Timestamp

-- The new last timestamp, and the status.
unfoldable pub validate_stream_packet :
    Timestamp → Timestamp → Timestamp → Bool → String → Timestamp × Status
validate_stream_packet timestamp last bound closed stream =
    if closed
    then (last, Status.failed_precondition ("stream is closed: " +s stream))
    else if not (is_range_value timestamp)
    then (last, Status.invalid ("data packet requires a range timestamp: " +s stream))
    else if not (is_unset bound) && lt timestamp bound
    then (last, Status.invalid ("packet timestamp is below stream bound: " +s stream))
    else if is_range_value last && lt timestamp last
    then (last, Status.invalid ("packet timestamp moved backwards: " +s stream))
    else (timestamp, Status.ok)

-- The state that `InputRuntime` and `EdgeRuntime` keep of a stream.
pub record StreamState : Type 0 where
  pub last_timestamp : Timestamp
  pub bound : Timestamp
  pub closed : Bool

abbrev pub new_stream : StreamState
new_stream = record { last_timestamp = Timestamp.unset; bound = Timestamp.unset; closed = false }

-- What reaches a stream: a data packet, a timestamp bound, or the end of the stream.
pub data Arrival : Type 0 where
  packet bound : Timestamp → Arrival
  ends : Arrival

-- `if (!bound_.is_unset() && bound < bound_) return Invalid(...); bound_ = bound;`
unfoldable pub move_bound : StreamState → Timestamp → String → StreamState × Status
move_bound s t message =
    if not (is_unset s.bound) && lt t s.bound
    then (s, Status.invalid message)
    else (record s { bound = t }, Status.ok)

unfoldable pub arrive : String → StreamState → Arrival → StreamState × Status
unfolding move_bound
arrive stream s (packet t) =
    let (last, status) = validate_stream_packet t s.last_timestamp s.bound s.closed stream in
    (record s { last_timestamp = last }, status)
arrive stream s (bound t) = move_bound s t "edge timestamp bound cannot move backwards"
arrive stream s ends = (record s { closed = true }, Status.ok)

-- A packet is accepted exactly when the stream is open, its timestamp is in range, and it lies
-- neither below the bound nor before the last packet; then it is the last timestamp, and otherwise
-- the last timestamp stays.
validate_stream_packet_lem :
    (t last b : Timestamp) (closed : Bool) (stream : String)
    → let (last', status) = validate_stream_packet t last b closed stream in
      ((is_ok status ≡ true) ↔ (
        (closed ≡ false)
        × (is_range_value t ≡ true)
        × ((is_unset b ≡ true) ⊎ (b ≤ₜ t))
        × ((is_range_value last ≡ false) ⊎ (last ≤ₜ t))))
      × (last' ≡ (if is_ok status then t else last))
unfolding validate_stream_packet
validate_stream_packet_lem t last b closed stream =
    (((λ h. ground arith), (λ h. ground arith)), ground arith)

abbrev pub kept : Arrival → Status → List Timestamp
kept (packet t) status = if is_ok status then t ∷ [] else []
kept _ status = []

-- The timestamps of the packets that a stream accepts, in order.
unfoldable pub accepted : String → StreamState → List Arrival → List Timestamp
accepted stream s [] = []
accepted stream s (a ∷ later) =
    let (s', status) = arrive stream s a in kept a status ++ accepted stream s' later

-- Not before a timestamp, if that is in range.
abbrev pub Follows : Timestamp → Timestamp → Type 0
Follows last t = (is_range_value last ≡ false) ⊎ (last ≤ₜ t)

abbrev pub Ascending : Timestamp → List Timestamp → Type 0
Ascending last [] = Unit {0}
Ascending last (t ∷ ts) = Follows last t × Ascending t ts

-- Not below a bound, if that is set.
abbrev pub Above : Timestamp → Timestamp → Type 0
Above b t = (is_unset b ≡ true) ⊎ (b ≤ₜ t)

accepted-Ascending :
    (stream : String) (s : StreamState) (later : List Arrival)
    → Ascending s.last_timestamp (accepted stream s later)
unfolding accepted arrive validate_stream_packet
accepted-Ascending stream s [] = tt
accepted-Ascending stream s (packet t ∷ later) =
    ground (arith, accepted-Ascending stream (arrive stream s (packet t)).0 later)
accepted-Ascending stream s (bound t ∷ later) =
    ground (arith, accepted-Ascending stream (arrive stream s (bound t)).0 later)
accepted-Ascending stream s (ends ∷ later) =
    accepted-Ascending stream (arrive stream s ends).0 later

All-mono :
    (b b' : Timestamp) (ts : List Timestamp)
    → ((t : Timestamp) → Above b' t → Above b t)
    → All (Above b') ts
    → All (Above b) ts
All-mono b b' [] f h = tt
All-mono b b' (t ∷ ts) f h = (f t h.0, All-mono b b' ts f h.1)

bound_rises :
    (stream : String) (s : StreamState) (b t : Timestamp)
    → IsInt64 s.bound
    → Above (arrive stream s (bound b)).0.bound t
    → Above s.bound t
unfolding arrive
bound_rises stream s b t i h = ground arith

bound_stays :
    (stream : String) (s : StreamState) (b : Timestamp)
    → IsInt64 s.bound
    → IsInt64 b
    → IsInt64 (arrive stream s (bound b)).0.bound
unfolding arrive
bound_stays stream s b h i = ground arith

-- An arrival whose timestamp is an int64.
abbrev pub IsArrival : Arrival → Type 0
IsArrival (packet t) = IsInt64 t
IsArrival (bound t) = IsInt64 t
IsArrival ends = Unit {0}

accepted-Above :
    (stream : String) (s : StreamState) (later : List Arrival)
    → IsInt64 s.bound
    → All IsArrival later
    → All (Above s.bound) (accepted stream s later)
unfolding accepted arrive validate_stream_packet
accepted-Above stream s [] i h = tt
accepted-Above stream s (packet t ∷ later) i h =
    ground (arith, accepted-Above stream (arrive stream s (packet t)).0 later i h.1)
accepted-Above stream s (bound b ∷ later) i h =
    All-mono s.bound _ (accepted stream (arrive stream s (bound b)).0 later)
      (λ t. bound_rises stream s b t i)
      (accepted-Above stream (arrive stream s (bound b)).0 later (bound_stays stream s b i h.0) h.1)
accepted-Above stream s (ends ∷ later) i h =
    accepted-Above stream (arrive stream s ends).0 later i h.1

accepted-closed :
    (stream : String) (s : StreamState) (later : List Arrival)
    → s.closed ≡ true
    → accepted stream s later ≡ []
unfolding accepted arrive validate_stream_packet
accepted-closed stream s [] h = refl
accepted-closed stream s (packet t ∷ later) h =
    ground (arith, accepted-closed stream (arrive stream s (packet t)).0 later)
accepted-closed stream s (bound t ∷ later) h =
    ground (arith, accepted-closed stream (arrive stream s (bound t)).0 later)
accepted-closed stream s (ends ∷ later) h =
    accepted-closed stream (arrive stream s ends).0 later refl

-- Whatever arrives on a stream with int64 timestamps, the packets that it accepts have timestamps
-- that never fall and that lie at or above the bound it has now; once it has ended it accepts none.
pub accepted_lem :
    (stream : String) (s : StreamState) (later : List Arrival)
    → IsInt64 s.bound
    → All IsArrival later
    → Ascending s.last_timestamp (accepted stream s later)
      × All (Above s.bound) (accepted stream s later)
      × (accepted stream (arrive stream s ends).0 later ≡ [])
accepted_lem stream s later i h = (
  accepted-Ascending stream s later,
  accepted-Above stream s later i h,
  unfold arrive in accepted-closed stream (arrive stream s ends).0 later refl,
)
