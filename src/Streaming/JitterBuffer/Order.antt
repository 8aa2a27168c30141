-- ===== src/Streaming/JitterBuffer/Order.antt =====
-- The packets that a jitter buffer gives out, over any sequence of calls.
use rk_avp.Prelude.{
  ℕ, ◌≡◌, refl, subst, Bool, false, not, List, [], ◌∷◌, ◌++◌, ◌-ℤ◌, ◌&&◌, ◌||◌, Option, none, some,
  ℤ, length, drop, ltb, if_lem, arith,
}
use rk_avp.Timestamp.{
  Timestamp, unset, ◌≤ₜ◌, IsInt64, is_done, from_microseconds, is_range_value, lt, le,
}
use rk_avp.Status.{Status}
use rk_avp.Streaming.JitterBuffer.{
  EncodedPacket, EncodedJitterBuffer, make_jitter_buffer, insert_packet, keep_packets, push_encoded,
  pop_ready, pop_due, close_jitter_buffer,
}

pub data Call (B : Type 0) : Type 0 where
  pushes : EncodedPacket B → Call B
  pops : Timestamp → Call B
  closes : Call B

module _ {B : Type 0} where
  -- The packets' timestamps are what an int64 holds.
  abbrev pub HoldsInt64 : List (Call B) → Type 0
  HoldsInt64 [] = Unit {0}
  HoldsInt64 (pushes p ∷ cs) = IsInt64 p.pts × HoldsInt64 cs
  HoldsInt64 (pops t ∷ cs) = HoldsInt64 cs
  HoldsInt64 (closes ∷ cs) = HoldsInt64 cs

  abbrev pub call : EncodedJitterBuffer B → Call B → EncodedJitterBuffer B × List (EncodedPacket B)
  call b (pushes p) = ((push_encoded b p).0, [])
  call b (pops t) =
      let (b', popped) = pop_ready b t in (b', elim popped [ none ↦ [] | some p ↦ p ∷ [] ])
  call b closes = (close_jitter_buffer b, [])

  -- The buffer after some calls, and the packets that they gave out.
  unfoldable pub run :
      EncodedJitterBuffer B → List (Call B) → EncodedJitterBuffer B × List (EncodedPacket B)
  run b [] = (b, [])
  run b (c ∷ cs) = let (b', out) = call b c in let (b'', outs) = run b' cs in (b'', out ++ outs)

  -- From a timestamp on, none is earlier than the one before it.
  abbrev pub Rises : Timestamp → List (EncodedPacket B) → Type 0
  Rises t [] = Unit {0}
  Rises t (p ∷ ps) = (t ≤ₜ p.pts) × (is_done p.pts ≡ false) × Rises p.pts ps

  abbrev Ordered : EncodedJitterBuffer B → Type 0
  Ordered b = (is_done b.last_output_pts ≡ false) × Rises b.last_output_pts b.packets

  Rises-mono : (s t : Timestamp) (ps : List (EncodedPacket B)) → s ≤ₜ t → Rises t ps → Rises s ps
  Rises-mono s t [] h r = tt
  Rises-mono s t (p ∷ ps) h (a, d, r) = (omega arith, d, r)

  drop-Rises : (t : Timestamp) (ps : List (EncodedPacket B)) → Rises t ps → Rises t (drop 1 ps)
  drop-Rises t [] r = tt
  drop-Rises t (p ∷ ps) (a, b, r) = Rises-mono t p.pts ps a r

  insert_packet-Rises :
      (t : Timestamp) (p : EncodedPacket B) (ps : List (EncodedPacket B))
      → t ≤ₜ p.pts
      → is_done p.pts ≡ false
      → Rises t ps
      → Rises t (insert_packet p ps)
  unfolding insert_packet
  insert_packet-Rises t p [] h d r = (h, d, tt)
  insert_packet-Rises t p (q ∷ qs) h d (a, e, r) =
      if_lem (Rises t) (lt p.pts q.pts) (λ l. (h, d, (ground arith, e, r)))
        (λ l. (a, e, insert_packet-Rises q.pts p qs (ground arith) d r))

  keep_packets-Ordered :
      (b : EncodedJitterBuffer B) (ps : List (EncodedPacket B))
      → is_done b.last_output_pts ≡ false
      → Rises b.last_output_pts ps
      → Ordered (keep_packets b ps).0
  unfolding keep_packets
  keep_packets-Ordered b ps d r =
      if_lem {A = EncodedJitterBuffer B × Status × Bool} (λ x. Ordered (x.0))
        (ltb b.capacity (length ps)) (λ h. (d, drop-Rises b.last_output_pts ps r)) (λ h. (d, r))

  push-Ordered :
      (b : EncodedJitterBuffer B) (p : EncodedPacket B)
      → IsInt64 p.pts
      → Ordered b
      → Ordered (push_encoded b p).0 × ((push_encoded b p).0.last_output_pts ≡ b.last_output_pts)
  unfolding push_encoded keep_packets
  push-Ordered b p i (d, r) =
      if_lem P b.closed (λ h. ((d, r), refl))
        (λ h.
          if_lem P (not (is_range_value p.pts)) (λ h. ((d, r), refl))
            (λ h1.
              if_lem P (is_range_value b.last_output_pts && le p.pts b.last_output_pts)
                (λ h. ((d, r), refl))
                (λ h2. (
                  keep_packets-Ordered b (insert_packet p b.packets) d (
                      insert_packet-Rises b.last_output_pts p b.packets (ground arith)
                        (ground arith) r),
                  ground arith,
                ))))
    where
      P : EncodedJitterBuffer B × Status × Bool → Type 0
      P x = Ordered (x.0) × (x.0.last_output_pts ≡ b.last_output_pts)

  pop-Ordered :
      (b : EncodedJitterBuffer B) (t : Timestamp)
      → Ordered b
      → Ordered (call b (pops t)).0
        × ((ps : List (EncodedPacket B))
            → Rises (call b (pops t)).0.last_output_pts ps
            → Rises b.last_output_pts ((call b (pops t)).1 ++ ps))
  unfolding pop_ready pop_due
  pop-Ordered b t o = step b.packets (o.1)
    where
      Q : EncodedJitterBuffer B × Option (EncodedPacket B) → Type 0
      Q (b', popped) =
          Ordered b'
          × ((ps : List (EncodedPacket B))
              → Rises b'.last_output_pts ps
              → Rises b.last_output_pts (elim popped [ none ↦ [] | some p ↦ p ∷ [] ] ++ ps))

      step : (xs : List (EncodedPacket B)) → Rises b.last_output_pts xs → Q (pop_due b t xs)
      step [] r = (o, λ ps s. s)
      step (x ∷ xs) (a, d, r) =
          if_lem Q
            (not (is_range_value t)
              || lt (from_microseconds (t.microseconds -ℤ b.max_latency_us)) x.pts)
            (λ h. (o, λ ps s. s)) (λ h. ((d, r), λ ps s. (a, d, s)))

  call-Ordered :
      (b : EncodedJitterBuffer B) (c : Call B)
      → HoldsInt64 (c ∷ [])
      → Ordered b
      → Ordered (call b c).0
        × ((ps : List (EncodedPacket B))
            → Rises (call b c).0.last_output_pts ps
            → Rises b.last_output_pts ((call b c).1 ++ ps))
  unfolding close_jitter_buffer
  call-Ordered b (pushes p) (i, z) o =
      let (o', e) = push-Ordered b p i o in (o', λ ps r. subst (λ t. Rises t ps) e r)
  call-Ordered b (pops t) i o = pop-Ordered b t o
  call-Ordered b closes i (d, r) = ((d, tt), λ ps r. r)

  run-Ordered :
      (b : EncodedJitterBuffer B) (cs : List (Call B))
      → HoldsInt64 cs
      → Ordered b
      → Rises b.last_output_pts (run b cs).1
  unfolding run
  run-Ordered b [] i o = tt
  run-Ordered b (pushes p ∷ cs) (i, is) o =
      let (o', f) = call-Ordered b (pushes p) (i, tt) o in
      f (run (call b (pushes p)).0 cs).1 (run-Ordered (call b (pushes p)).0 cs is o')
  run-Ordered b (pops t ∷ cs) is o =
      let (o', f) = call-Ordered b (pops t) tt o in
      f (run (call b (pops t)).0 cs).1 (run-Ordered (call b (pops t)).0 cs is o')
  run-Ordered b (closes ∷ cs) is o =
      let (o', f) = call-Ordered b closes tt o in
      f (run (call b closes).0 cs).1 (run-Ordered (call b closes).0 cs is o')

  -- A new jitter buffer, whatever calls are made on it in whatever order, as long as the packets'
  -- timestamps are what an int64 holds, gives packets out in the order of their timestamps, none
  -- of them earlier than the one before.
  pub outputs-Rises :
      (capacity : ℕ) (max_latency_us : ℤ) (cs : List (Call B))
      → HoldsInt64 cs
      → Rises unset (run (make_jitter_buffer capacity max_latency_us) cs).1
  unfolding make_jitter_buffer
  outputs-Rises capacity max_latency_us cs i =
      run-Ordered (make_jitter_buffer capacity max_latency_us) cs i (refl, tt)
