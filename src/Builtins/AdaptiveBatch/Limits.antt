-- ===== src/Builtins/AdaptiveBatch/Limits.antt =====
-- What waits in the adaptive batch between two calls.
use rk_avp.Prelude.{
  ℕ, suc, ◌≤◌, ◌<◌, ◌≡◌, refl, subst, inl, inr, false, ◌&&◌, not, List, [], ◌∷◌, ◌++◌, filter,
  Option, none, some, String, length, leb, is_empty, string_keys, arith, eq_iff, Bool-cases, if_lem,
  ℤ, pos, ltb, leb_ℤ, ◌-ℤ◌,
}
use rk_avp.Status.{Status, is_ok}
use rk_avp.Packet.{Packet, BatchItem, get_text, is_no_event, is_end_of_stream}
use rk_avp.Builtins.AdaptiveBatch.{
  AdaptiveBatch, Emission, event, from, flush, enqueue, on_packet, on_process, after_flush,
  name_or_default,
}
use rk_avp.Builtins.AdaptiveBatch.Fairness.{of_source}

abbrev Outcome : Type 0 → Type 0
Outcome D = AdaptiveBatch D × List (Emission D) × Status

leb-gt : (a b : ℕ) → leb a b ≡ false → suc b ≤ a
leb-gt a b h = ground (arith, h)

module _ {D : Type 0} where
  -- No source has more items waiting than it may, and the batch is not full.
  pub record IsLimited (f : AdaptiveBatch D) : Type 0 where
    pub per_source : (t : String) → length (of_source t f.pending) ≤ f.max_per_source
    pub room : length f.pending < f.max_batch_size

  flush-IsLimited : (f : AdaptiveBatch D) (s : Status) → IsLimited f → IsLimited (flush f s).0
  unfolding flush filter
  flush-IsLimited f s h =
      if_lem (λ (x : Outcome D). IsLimited x.0) (is_empty f.pending) (λ e. h)
        (λ e. record { per_source = λ t. omega arith; room = omega (arith, h.room) })

  one_more :
      (t : String) (xs : List (BatchItem D)) (x : BatchItem D)
      → length (of_source t (xs ++ x ∷ [])) ≤ suc (length (of_source t xs))
  unfolding filter
  one_more t [] x = ground arith
  one_more t (y ∷ xs) x = ground (arith, one_more t xs x)

  none_more :
      (t : String) (xs : List (BatchItem D)) (x : BatchItem D)
      → from t x ≡ false
      → of_source t (xs ++ x ∷ []) ≡ of_source t xs
  unfolding filter
  none_more t [] x h = ground (arith, h)
  none_more t (y ∷ xs) x h = ground (arith, none_more t xs x h)

  is_empty-append : (xs : List (BatchItem D)) (x : BatchItem D) → is_empty (xs ++ x ∷ []) ≡ false
  is_empty-append [] x = refl
  is_empty-append (y ∷ xs) x = refl

  enqueue-IsLimited :
      (f : AdaptiveBatch D) (p : Packet D) (now : ℤ) (s : Status)
      → IsLimited f
      → IsLimited (enqueue f p now s).0
  unfolding enqueue flush filter
  enqueue-IsLimited f p now s h =
      if_lem (λ (x : Outcome D). IsLimited x.0)
        (leb f.max_per_source (length (filter (from source_id) f.pending)))
        (λ full. record { per_source = h.per_source; room = h.room })
        (λ free.
          if_lem (λ (x : Outcome D). IsLimited x.0) (leb f.max_batch_size (length items))
            (λ complete.
              if_lem (λ (x : Outcome D). IsLimited x.0) (is_empty items)
                (λ e. absurd (let e' = is_empty-append f.pending new in cc))
                (λ e. record { per_source = λ t. omega arith; room = omega (arith, h.room) }))
            (λ more. record {
              per_source = λ t. elim (Bool-cases (from t new)) [
                | inl own ↦
                    let e : source_id ≡ t = (eq_iff source_id t).0 own in
                    let free' =
                      subst (λ n. leb f.max_per_source (length (of_source n f.pending)) ≡ false) e
                        free in
                    omega (
                      arith,
                      one_more t f.pending new,
                      leb-gt f.max_per_source (length (of_source t f.pending)) free',
                    )
                | inr other ↦ rw (none_more t f.pending new other) (h.per_source t)
              ];
              room = ground (arith, more);
            }))
    where
      source_id : String
      source_id = name_or_default (get_text "source_id" p.metadata)

      new : BatchItem D
      new = record { source_id = source_id; packet = p; batch_index = length f.pending }

      items : List (BatchItem D)
      items = f.pending ++ new ∷ []

  after_flush-IsLimited :
      (x : Outcome D) (next : AdaptiveBatch D → Outcome D)
      → IsLimited x.0
      → ((g : AdaptiveBatch D) → IsLimited g → IsLimited (next g).0)
      → IsLimited (after_flush x next).0
  after_flush-IsLimited (f, out, status) next h n =
      if_lem (λ (x : Outcome D). IsLimited x.0) (is_ok status) (λ e. n f h) (λ e. h)

  on_packet-IsLimited :
      (f : AdaptiveBatch D) (p : Packet D) (now : ℤ) (first second : Status)
      → IsLimited f
      → IsLimited (on_packet f p now first second).0
  unfolding on_packet
  on_packet-IsLimited f p now first second h =
      if_lem (λ (x : Outcome D). IsLimited x.0) (is_end_of_stream p.event)
        (λ e.
          after_flush-IsLimited (flush f first) (λ g. (g, event p ∷ [], second))
            (flush-IsLimited f first h) (λ g i. i))
        (λ e.
          if_lem (λ (x : Outcome D). IsLimited x.0) (not (is_no_event p.event)) (λ e. h)
            (λ e.
              if_lem (λ (x : Outcome D). IsLimited x.0)
                (not (is_empty f.pending)
                  && ltb 0 f.timeout_us
                  && leb_ℤ (pos f.timeout_us) (now -ℤ f.first_packet_time_us))
                (λ expired.
                  after_flush-IsLimited (flush f first) (λ g. enqueue g p now second)
                    (flush-IsLimited f first h) (λ g i. enqueue-IsLimited g p now second i))
                (λ fresh. enqueue-IsLimited f p now first h)))

  -- Whatever arrives and whatever `Emit` returns, no source has more items waiting than
  -- `max_per_source`, and between calls the batch is never full.
  pub on_process-IsLimited :
      (f : AdaptiveBatch D) (signal p : Option (Packet D)) (now : ℤ) (first second : Status)
      → IsLimited f
      → IsLimited (on_process f signal p now first second).0
  unfolding on_process
  on_process-IsLimited f (some q) p now first second h = flush-IsLimited f first h
  on_process-IsLimited f none (some p) now first second h =
      on_packet-IsLimited f p now first second h
  on_process-IsLimited f none none now first second h = h
