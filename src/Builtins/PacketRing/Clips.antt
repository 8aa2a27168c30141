-- ===== src/Builtins/PacketRing/Clips.antt =====
-- What a clip of the packet ring holds.
use rk_avp.Prelude.{
  ℕ, suc, ◌-◌, ◌≤◌, ◌<◌, ◌≡◌, refl, sym, ap, ◌∙◌, true, false, List, [], ◌∷◌, ◌++◌, Option, none,
  some, length, length-append, append-snoc, ◌==◌, is_empty, rest, map, length-rest, drop, arith,
}
use rk_avp.Prelude.Windows.{shift, shift_in, shift_in-drop}
use rk_avp.Packet.{Packet, PacketBatch, BatchItem, make_packet_batch}
use rk_avp.Builtins.PacketRing.{PacketRing, store, trigger, emit_clip, clip_items, clip_time}

module _ {D : Type 0} where
  -- The node after some data packets, and the batches that it emits.
  abbrev to_list : Option (Packet (PacketBatch D)) → List (Packet (PacketBatch D))
  to_list none = []
  to_list (some b) = b ∷ []

  pub store_all : PacketRing D → List (Packet D) → PacketRing D × List (Packet (PacketBatch D))
  store_all r [] = (r, [])
  store_all r (p ∷ ps) =
      let (r', out, status) = store r p in
      let (r'', later) = store_all r' ps in (r'', to_list out ++ later)

  store-shift :
      (r : PacketRing D) (p : Packet D)
      → 0 < r.capacity
      → length r.packets ≤ r.capacity
      → let r' = (store r p).0 in
        (r'.packets ≡ shift r.capacity r.packets p)
        × (r'.capacity ≡ r.capacity)
        × (length r'.packets ≤ r.capacity)
  unfolding store emit_clip
  store-shift r p c h = ground (
    arith,
    h,
    length-append r.packets (p ∷ []),
    length-append (rest r.packets) (p ∷ []),
    length-rest r.packets,
  )

  abbrev clip_batch : List (Packet D) → Packet (PacketBatch D)
  clip_batch ps = make_packet_batch (clip_items 0 ps) (clip_time ps)

  is_empty-snoc : (xs : List (Packet D)) (p : Packet D) → is_empty (xs ++ p ∷ []) ≡ false
  is_empty-snoc [] p = refl
  is_empty-snoc (x ∷ xs) p = refl

  store_last :
      (r : PacketRing D) (p : Packet D)
      → r.recording ≡ true
      → r.remaining_post_packets ≡ 1
      → (store r p).1 ≡ some (clip_batch (r.clip ++ p ∷ []))
  unfolding store emit_clip
  store_last r p a b = ground (arith, a, b, is_empty-snoc r.clip p)

  store_more :
      (r : PacketRing D) (p : Packet D) (n : ℕ)
      → r.recording ≡ true
      → r.remaining_post_packets ≡ suc (suc n)
      → let (r', out, status) = store r p in
        (out ≡ none)
        × (r'.recording ≡ true)
        × (r'.remaining_post_packets ≡ suc n)
        × (r'.clip ≡ r.clip ++ p ∷ [])
  unfolding store
  store_more r p n a b = ground (arith, a, b)

  recorded :
      (r : PacketRing D) (ps : List (Packet D))
      → r.recording ≡ true
      → 0 < length ps
      → r.remaining_post_packets ≡ length ps
      → (store_all r ps).1 ≡ clip_batch (r.clip ++ ps) ∷ []
  unfolding store_all
  recorded r [] a b c = absurd (omega arith)
  recorded r (p ∷ []) a b c = rw (store_last r p a c)
  recorded r (p ∷ q ∷ ps) a b c =
      let (out, still, left, clip) = store_more r p (length ps) a c in
      rw out (
        recorded (store r p).0 (q ∷ ps) still (omega arith) left
        ∙ rw clip (ap (λ l. clip_batch l ∷ []) (append-snoc r.clip p (q ∷ ps))))

  clip_packets :
      (n : ℕ) (ps : List (Packet D)) → map (λ (i : BatchItem D). i.packet) (clip_items n ps) ≡ ps
  unfolding clip_items
  clip_packets n [] = refl
  clip_packets n (p ∷ ps) = ap (λ l. p ∷ l) (clip_packets (suc n) ps)

  -- Where `post_packets` is positive, a trigger emits nothing at once; with the last of the next
  -- `post_packets` packets one batch is emitted, whose packets are those that the ring held at the
  -- trigger, then those that followed.
  pub trigger_lem :
      (r : PacketRing D) (ps : List (Packet D))
      → 0 < r.post_packets
      → length ps ≡ r.post_packets
      → ((trigger r).1 ≡ none)
        × ((p : Packet (PacketBatch D)) × (b : PacketBatch D) × ((store_all (trigger r).0 ps).1
              ≡ p ∷ [])
            × (p.payload ≡ some b)
            × (map (λ (i : BatchItem D). i.packet) b.items ≡ r.packets ++ ps))
  unfolding trigger make_packet_batch
  trigger_lem r ps c e =
      let positive : (r.post_packets == 0) ≡ false = ground (arith, c) in
      rw positive (
        refl,
        (
          clip_batch (r.packets ++ ps),
          record {
            items = clip_items 0 (r.packets ++ ps);
            timestamp = clip_time (r.packets ++ ps);
          },
          recorded
              (record r {
                clip = r.packets;
                remaining_post_packets = r.post_packets;
                recording = true;
              })
              ps refl (omega arith) (sym e),
          refl,
          clip_packets 0 (r.packets ++ ps),
        ),
      )

  packets-shift_in :
      (r : PacketRing D) (ps : List (Packet D))
      → 0 < r.capacity
      → length r.packets ≤ r.capacity
      → (store_all r ps).0.packets ≡ shift_in r.capacity r.packets ps
  unfolding store_all shift_in
  packets-shift_in r [] c h = refl
  packets-shift_in r (p ∷ ps) c h =
      let (kept, same, bounded) = store-shift r p c h in
      packets-shift_in (store r p).0 ps (omega (arith, c, same)) (omega (arith, bounded, same))
      ∙ rw (same, kept)

  -- The ring holds the newest packets, as many as its capacity.
  store_all_window :
      (r : PacketRing D) (ps : List (Packet D))
      → 0 < r.capacity
      → length r.packets ≤ r.capacity
      → (store_all r ps).0.packets ≡ drop (length (r.packets ++ ps) - r.capacity) (r.packets ++ ps)
  store_all_window r ps c h = packets-shift_in r ps c h ∙ shift_in-drop r.capacity r.packets ps c h
