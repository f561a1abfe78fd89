-- ===== src/Helpers/PacketOrderer/Lossless.antt =====
-- The packets of a PacketOrderer before and after a push.
use go_webtools.Base.{
  ℕ, suc, ◌+◌, ◌≡◌, true, false, not, ◌&&◌, ◌||◌, List, [], some, ◌==◌, length, arith, Bool-cases,
  inl, inr, if_holds, if_false,
}
use go_webtools.Helpers.Width.{Width}
use go_webtools.Helpers.PacketHeap.{push}
use go_webtools.Helpers.PacketHeap.Weights.{total}
use go_webtools.Helpers.PacketHeap.Conserve.{total-push}
use go_webtools.Helpers.PacketOrderer.{
  Packet, PacketOrderer, head_is, before, export_loop, previous_number, next_number, is_in_future,
  skips_in_push, store_unless, push_later, push_packet,
}
use go_webtools.Helpers.PacketOrderer.Exports.{drain-Sound}

module _ {ℓ} {V : Type ℓ} (c : Width) where
  -- by every weight, the packets of the orderer and the exported ones are those before and the new one
  abbrev pub Keeps : PacketOrderer V → Packet V → PacketOrderer V × List (Packet V) → Type ℓ
  Keeps o p r =
      (f : Packet V → ℕ) → total f r.0.packets_heap + total f r.1 ≡ total f o.packets_heap + f p

  stored-Keeps :
      (o : PacketOrderer V) (p : Packet V)
      → Keeps o p (record o { packets_heap = push (before c) p o.packets_heap }, [])
  unfolding total
  stored-Keeps o p f = omega (arith, total-push (before c) f p o.packets_heap)

  -- the loop on a heap whose first packet waits
  exported-Keeps :
      (fuel : ℕ) (o : PacketOrderer V) (number : ℕ) (value : V)
      → head_is o.next_order o.packets_heap ≡ false
      → Keeps o
          (number, value)
          (store_unless c o
            (number, value)
            (export_loop c (suc fuel) (some (number, value)) o.packets_heap o.next_order))
  unfolding export_loop total
  exported-Keeps fuel o number value waits = rw waits (elim (Bool-cases (o.next_order == number)) [
    | inr gap ↦ rw gap (stored-Keeps o (number, value))
    | inl this ↦
        rw this
          (λ f. omega (arith, (drain-Sound c fuel (next_number c number) o.packets_heap).0.kept f))
  ])

  push_later-Keeps :
      (number : ℕ) (value : V) (o : PacketOrderer V)
      → head_is o.next_order o.packets_heap ≡ false
      → Keeps o (number, value) (push_later c number value o)
  unfolding push_later
  push_later-Keeps number value o waits =
      let rounds : length o.packets_heap + 2 ≡ suc (length o.packets_heap + 1) = omega arith in
      if_holds (Keeps o (number, value)) (is_in_future c (previous_number c o.next_order) number) _
        _ (λ newer. rw rounds (exported-Keeps (length o.packets_heap + 1) o number value waits))
        (λ older. stored-Keeps o (number, value))

  -- A push that is not refused as old, on an orderer that may not skip missing packets in a push (one
  -- without AllowInDumpAndPush), behind its first packet, whose first stored packet is not the next
  -- one to be exported, loses no packet and invents none: counted by any
  -- weight, the packets stored and given out afterwards are those stored before and the new one.
  pub push_packet_keeps :
      (number : ℕ) (value : V) (o : PacketOrderer V) (f : Packet V → ℕ)
      → o.is_first ≡ false
      → skips_in_push o.allow_missing_packets ≡ false
      → head_is o.next_order o.packets_heap ≡ false
      → (o.allow_older_packets || is_in_future c (previous_number c o.next_order) number) ≡ true
      → total f (push_packet c number value o).0.packets_heap
          + total f (push_packet c number value o).1
        ≡ total f o.packets_heap + f (number, value)
  unfolding push_packet
  push_packet_keeps number value o f b s w n =
      if_false (Keeps o (number, value))
        (not o.is_first
          && not o.allow_older_packets
          && not (is_in_future c (previous_number c o.next_order) number))
        _ _ (ground (arith, n))
        (if_false (Keeps o (number, value)) (skips_in_push o.allow_missing_packets) _ _ s (
          if_false (Keeps o (number, value)) o.is_first _ _ b
            (push_later-Keeps number value (record o { is_first = false }) w)))
        f
