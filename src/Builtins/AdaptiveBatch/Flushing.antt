-- ===== src/Builtins/AdaptiveBatch/Flushing.antt =====
-- The batch that a flush of the adaptive batch emits.
use rk_avp.Prelude.{
  ℕ, zero, suc, ◌+◌, ◌≡◌, refl, ap, ◌∙◌, false, List, [], ◌∷◌, map, filter, some, String, length,
  get_elem?, string_keys, arith, is_empty,
}
use rk_avp.Status.{Status}
use rk_avp.Packet.{Packet, PacketBatch, BatchItem, make_packet_batch}
use rk_avp.Builtins.AdaptiveBatch.{AdaptiveBatch, batch, flush, number, front_time}
use rk_avp.Builtins.AdaptiveBatch.Fairness.{of_source, order_items_lem}

module _ {D : Type 0} where
  abbrev pub packets_of : List (BatchItem D) → List (Packet D)
  packets_of is = map (λ (i : BatchItem D). i.packet) is

  length-number : (n : ℕ) (xs : List (BatchItem D)) → length (number n xs) ≡ length xs
  unfolding number
  length-number n [] = refl
  length-number n (x ∷ xs) = ap suc (length-number (suc n) xs)

  number_packets :
      (t : String) (n : ℕ) (xs : List (BatchItem D))
      → packets_of (of_source t (number n xs)) ≡ packets_of (of_source t xs)
  unfolding number filter
  number_packets t n [] = refl
  number_packets t n (x ∷ xs) = ground (arith, number_packets t (suc n) xs)

  number_index :
      (n : ℕ) (xs : List (BatchItem D)) (i : ℕ) (x : BatchItem D)
      → get_elem? (number n xs) i ≡ some x
      → x.batch_index ≡ n + i
  unfolding number
  number_index n [] i x h = absurd (cc)
  number_index n (y ∷ ys) zero x h = ground (arith, h)
  number_index n (y ∷ ys) (suc i) x h = omega (arith, number_index (suc n) ys i x h)

  -- A flush of waiting items ends and leaves none waiting, and emits one batch, which holds as many
  -- items, the packets of each source in the order in which they came, each item numbered by its
  -- place.
  pub flush_lem :
      (f : AdaptiveBatch D) (result : Status)
      → is_empty f.pending ≡ false
      → (p : Packet (PacketBatch D)) × (b : PacketBatch D) × ((flush f result).1 ≡ batch p ∷ [])
        × (p.payload ≡ some b)
        × ((flush f result).0.pending ≡ [])
        × (length b.items ≡ length f.pending)
        × ((t : String) → packets_of (of_source t b.items) ≡ packets_of (of_source t f.pending))
        × ((i : ℕ) (x : BatchItem D) → get_elem? b.items i ≡ some x → x.batch_index ≡ i)
  unfolding flush make_packet_batch
  flush_lem f result h =
      let (out, e, whole, same) = order_items_lem f.pending in
      rw h (
        rw e (
          make_packet_batch (number 0 out) (front_time out),
          record { items = number 0 out; timestamp = front_time out },
          refl,
          refl,
          refl,
          length-number 0 out ∙ whole,
          (λ t. number_packets t 0 out ∙ ap packets_of (same t)),
          (λ i x g. omega (arith, number_index 0 out i x g)),
        ))
