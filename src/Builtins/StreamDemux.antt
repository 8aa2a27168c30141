-- ===== src/Builtins/StreamDemux.antt =====
-- `StreamDemuxNode` of src/core/builtin_nodes.cpp: the packets of a batch, one by one. `emit n` is what
-- the n-th call of `Emit` returns.
use rk_avp.Prelude.{ℕ, suc, List, [], ◌∷◌, if◌then◌else◌}
use rk_avp.Status.{Status, is_ok}
use rk_avp.Status
use rk_avp.Packet.{Packet, BatchItem}

module _ {D : Type 0} (emit : ℕ → Status) where
  abbrev then_emitted : Packet D → List (Packet D) × Status → List (Packet D) × Status
  then_emitted p (out, status) = (p ∷ out, status)

  -- The packets that `Emit` is called with, and the status.
  unfoldable pub demux : ℕ → List (BatchItem D) → List (Packet D) × Status
  demux n [] = ([], Status.ok)
  demux n (i ∷ is) =
      let later = demux (suc n) is in
      if is_ok (emit n) then then_emitted i.packet later else (i.packet ∷ [], emit n)
